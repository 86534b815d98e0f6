-- ===== src/RwLock/Checks.antt =====
-- What a passed `_check_blockers` of dvc/rwlock.py says of the table.
use python_dvc.Base.{
  String, ◌≡◌, refl, ap, subst, Bool, true, false, List, [], ◌∷◌, ◌++◌, string_eq, In, All, inl,
  inr, arith, is_empty, if◌then◌else◌,
}
use python_dvc.Base.Dict.{Dict}
use python_dvc.Base.Result.{Result, ok, err, ◌>>=◌, ◌>>◌, guard, >>=-eq-ok}
use python_dvc.PathInfo.Url.{from_text}
use python_dvc.PathInfo.Defs.{Platform, Info, class_of, overlaps}
use python_dvc.RwLock.Defs.{
  Owner, owner_eq, others, overlaps_text, blockers, check_blockers, LockFailure, busy,
}

others_nil : (info : Owner) (os : List Owner) {o : Owner} → others info os ≡ [] → In o os → o ≡ info
unfolding others
others_nil info [] h m = absurd m
others_nil info (x ∷ os) h (inl e) = ground arith
others_nil info (x ∷ os) h (inr m) = others_nil info os (ground arith) m

one_round :
    (hit : Result LockFailure Bool) (more : Result LockFailure (List Owner)) (os : List Owner)
    → (do h ← hit; rest ← more; ok ((if h then os else []) ++ rest)) ≡ ok []
    → (more ≡ ok []) × (hit ≡ ok true → os ≡ [])
one_round (err e) more os h = cc
one_round (ok true) (err e) os h = cc
one_round (ok true) (ok rest) [] h = (h, λ _. refl)
one_round (ok true) (ok rest) (o ∷ os) h = cc
one_round (ok false) (err e) os h = cc
one_round (ok false) (ok rest) os h = (h, λ k. cc)

pub guard_passed :
    (p : Info) (found : List Owner) (rest : Result LockFailure (Unit {0}))
    → (guard (is_empty found) (busy p found) >> rest) ≡ ok tt
    → (found ≡ []) × (rest ≡ ok tt)
guard_passed p [] rest h = (refl, h)
guard_passed p (o ∷ os) rest h = cc

module _ (platform : Platform) (known : String → Info)
    (reads_back : (u : String) → from_text platform (class_of (known u)) u ≡ ok (known u)) where
  -- Whoever is listed at a path that overlaps `p` is `info` itself.
  abbrev pub Free : Owner → Info → Dict String (List Owner) → Type 0
  Free info p table =
      (v : String) (os : List Owner) (o : Owner)
      → In (v, os) table
      → In o os
      → overlaps platform p (known v) ≡ true
      → o ≡ info

  overlaps-class_of : (p q : Info) → overlaps platform p q ≡ true → class_of p ≡ class_of q
  unfolding overlaps
  overlaps-class_of p q h = ground arith

  hit_known :
      (p : Info) (v : String)
      → overlaps platform p (known v) ≡ true
      → overlaps_text platform p v ≡ ok true
  unfolding overlaps_text
  hit_known p v h = ground (arith, overlaps-class_of p (known v) h, reads_back v)

  blockers-Free :
      (info : Owner) (p : Info) (table : Dict String (List Owner))
      → blockers platform info p table ≡ ok []
      → Free info p table
  unfolding blockers
  blockers-Free info p [] h v os o m i ov = absurd m
  blockers-Free info p ((w, ws) ∷ table) h v os o m i ov =
      let (rest, here) =
        one_round (overlaps_text platform p w) (blockers platform info p table) (others info ws)
          h in
      elim m [
        | inl e ↦
            let same : v ≡ w = ap {B = String} (λ t. t.0) e in
            others_nil info ws (here (rw same at (hit_known p v ov)))
              (subst (In o) (ap {B = List Owner} (λ t. t.1) e) i)
        | inr m' ↦ blockers-Free info p table rest v os o m' i ov
      ]

  pub check_blockers-Free :
      (info : Owner) (table : Dict String (List Owner)) (waiters : List Info)
      → check_blockers platform table info waiters ≡ ok tt
      → All (λ p. Free info p table) waiters
  unfolding check_blockers
  check_blockers-Free info table [] h = tt
  check_blockers-Free info table (p ∷ waiters) h =
      let (found, e, h1) = >>=-eq-ok (blockers platform info p table) _ h in
      let (passed, h2) = guard_passed p found _ h1 in
      (blockers-Free info p table (rw passed at e), check_blockers-Free info table waiters h2)
