-- ===== src/RwLock/Release.antt =====
-- What `_release_write` and `_release_read` (dvc/rwlock.py) leave in the table.
use python_dvc.Base.{
  String, ◌≡◌, refl, subst, true, false, Option, some, List, [], ◌∷◌, ◌==◌, string_eq, In, inl, inr,
  ◌⊎◌, arith, Bool-cases, contains,
}
use python_dvc.Base.Dict.{Dict, get, remove, get-put, get-remove}
use python_dvc.Base.Result.{ok, >>=-eq-ok}
use python_dvc.RwLock.Defs.{
  Owner, owner_eq, Lock, writers, readers, unless_empty, put_readers, remove_first, release_writer,
  release_write, release_reader, release_read,
}

-- Every entry of the first table is one of the second.
pub record IsPart (small large : Lock) : Type 0 where
  pub writes :
      (u : String) (i : Owner) → get (writers small) u ≡ some i → get (writers large) u ≡ some i
  pub reads :
      (u : String) (js : List Owner) (j : Owner)
      → get (readers small) u ≡ some js
      → In j js
      → (ks : List Owner) × (get (readers large) u ≡ some ks) × In j ks

pub IsPart-refl : (l : Lock) → IsPart l l
IsPart-refl l = record { writes = λ u i g. g; reads = λ u js j g m. (js, g, m) }

pub IsPart-trans : {a b c : Lock} → IsPart a b → IsPart b c → IsPart a c
IsPart-trans p q = record {
  writes = λ u i g. q.writes u i (p.writes u i g);
  reads = λ u js j g m. let (ks, g', m') = p.reads u js j g m in q.reads u ks j g' m';
}

In-remove_first : (o j : Owner) (os : List Owner) → In j (remove_first o os) → In j os
unfolding remove_first
In-remove_first o j [] m = m
In-remove_first o j (x ∷ os) m = elim (Bool-cases (x == o)) [
  | inl e ↦ inr (rw e at m)
  | inr e ↦
      let m' : In j (x ∷ remove_first o os) = rw e at m in
      elim m' [ inl here ↦ inl here | inr there ↦ inr (In-remove_first o j os there) ]
]

writers-unless_empty :
    (d : Dict String Owner) (r : Option (Dict String (List Owner)))
    → writers (record { write = unless_empty d; read = r }) ≡ d
writers-unless_empty [] r = refl
writers-unless_empty (x ∷ d) r = refl

readers-unless_empty :
    (w : Option (Dict String Owner)) (d : Dict String (List Owner))
    → readers (record { write = w; read = unless_empty d }) ≡ d
readers-unless_empty w [] = refl
readers-unless_empty w (x ∷ d) = refl

-- A release that returns found its own entry, and removed it.
pub release_writer_inv :
    (info : Owner) (u : String) (lock lock' : Lock)
    → release_writer info u lock ≡ ok lock'
    → (table : Dict String Owner) × (lock.write ≡ some table)
      × (get table u ≡ some info)
      × (lock' ≡ record { write = unless_empty (remove table u); read = lock.read })
unfolding release_writer
release_writer_inv info u lock lock' h = ground arith

pub release_reader_inv :
    (info : Owner) (u : String) (lock lock' : Lock)
    → release_reader info u lock ≡ ok lock'
    → (table : Dict String (List Owner)) × (infos : List Owner) × (lock.read ≡ some table)
      × (get table u ≡ some infos)
      × (contains infos info ≡ true)
      × (lock' ≡ record {
        write = lock.write;
        read = unless_empty (put_readers table u (remove_first info infos));
      })
unfolding release_reader
release_reader_inv info u lock lock' h = ground arith

get-put_readers :
    (table : Dict String (List Owner)) (u v : String) (os : List Owner) {js : List Owner}
    (j : Owner)
    → get (put_readers table u os) v ≡ some js
    → In j js
    → ((v ≡ u) × In j os) ⊎ (get table v ≡ some js)
get-put_readers table u v [] j g m = inr (ground (arith, get-remove table u v))
get-put_readers table u v (o ∷ os) {js} j g m = go (Bool-cases (v == u))
  where
    go :
        ((v == u) ≡ true) ⊎ ((v == u) ≡ false) → ((v ≡ u) × In j (o ∷ os)) ⊎ (get table v ≡ some js)
    go (inl e) =
        let same : js ≡ o ∷ os = ground (arith, get-put table u v (o ∷ os)) in
        inl (ground arith, subst (In j) same m)
    go (inr e) = inr (ground (arith, get-put table u v (o ∷ os)))

release_writer-IsPart :
    (info : Owner) (u : String) (lock lock' : Lock)
    → release_writer info u lock ≡ ok lock'
    → IsPart lock' lock
release_writer-IsPart info u lock lock' h =
    let (table, wr, found, e) = release_writer_inv info u lock lock' h in
    rw e (record {
      writes = λ v i g.
          ground (arith, get-remove table u v, writers-unless_empty (remove table u) lock.read);
      reads = λ v js j g m. (js, g, m);
    })

release_reader-IsPart :
    (info : Owner) (u : String) (lock lock' : Lock)
    → release_reader info u lock ≡ ok lock'
    → IsPart lock' lock
release_reader-IsPart info u lock lock' h =
    let (table, infos, rd, found, mine, e) = release_reader_inv info u lock lock' h in
    rw e (record {
      writes = λ v i g. g;
      reads = λ v js j g m.
          let g' : get (put_readers table u (remove_first info infos)) v ≡ some js = ground (
            arith,
            readers-unless_empty lock.write (put_readers table u (remove_first info infos)),
          ) in
          elim (get-put_readers table u v (remove_first info infos) j g' m) [
            | inl (same, m') ↦ (infos, rw (rd, same) found, In-remove_first info j infos m')
            | inr old ↦ (js, rw rd old, m)
          ];
    })

pub release_write-IsPart :
    (info : Owner) (changes : List String) (lock lock' : Lock)
    → release_write info changes lock ≡ ok lock'
    → IsPart lock' lock
unfolding release_write
release_write-IsPart info [] lock lock' h = subst (λ l. IsPart l lock) (cc) (IsPart-refl lock)
release_write-IsPart info (u ∷ changes) lock lock' h =
    let (mid, h1, h2) = >>=-eq-ok (release_writer info u lock) (release_write info changes) h in
    IsPart-trans (release_write-IsPart info changes mid lock' h2)
      (release_writer-IsPart info u lock mid h1)

pub release_read-IsPart :
    (info : Owner) (changes : List String) (lock lock' : Lock)
    → release_read info changes lock ≡ ok lock'
    → IsPart lock' lock
unfolding release_read
release_read-IsPart info [] lock lock' h = subst (λ l. IsPart l lock) (cc) (IsPart-refl lock)
release_read-IsPart info (u ∷ changes) lock lock' h =
    let (mid, h1, h2) = >>=-eq-ok (release_reader info u lock) (release_read info changes) h in
    IsPart-trans (release_read-IsPart info changes mid lock' h2)
      (release_reader-IsPart info u lock mid h1)
