-- ===== src/RwLock/Exclusion.antt =====
-- Mutual exclusion: what `rwlock` of dvc/rwlock.py guarantees to the processes that hold paths.
use python_dvc.Base.{
  String, ◌≡◌, refl, sym, ◌∙◌, subst, true, Option, none, some, List, [], ◌∷◌, ◌++◌, ◌==◌,
  string_eq, ==_iff, In, All, inl, inr, ◌⊎◌, arith, Bool-cases,
}
use python_dvc.Base.Dict.{Dict, get, put, get_or, get-put}
use python_dvc.PathInfo.Defs.{Platform, Info, overlaps}
use python_dvc.PathInfo.Overlap.{overlaps_comm}
use python_dvc.RwLock.Defs.{Owner, owner_eq, acquire_read, acquire_write}
use python_dvc.RwLock.Acquire.{acquire_read_cases, acquire_write_cases}

In-snoc :
    (info : Owner) (os : List Owner) (o : Owner) → In o (os ++ info ∷ []) → In o os ⊎ (o ≡ info)
In-snoc info [] o (inl e) = inr e
In-snoc info [] o (inr m) = elim m [ ]
In-snoc info (x ∷ os) o (inl e) = inl (inl e)
In-snoc info (x ∷ os) o (inr m) = elim (In-snoc info os o m) [
  | inl m' ↦ inl (inr m')
  | inr e ↦ inr e
]

-- A reader after `readers.append(info)` is `info` or was one before.
reader_cases :
    (info : Owner) (r : Dict String (List Owner)) (u b : String) (js : List Owner) (j : Owner)
    → get (put r u (get_or r u [] ++ info ∷ [])) b ≡ some js
    → In j js
    → ((b ≡ u) × (j ≡ info)) ⊎ ((ks : List Owner) × (get r b ≡ some ks) × In j ks)
reader_cases info r u b js j g m = elim (Bool-cases (b == u)) [
  | inl here ↦
      let same : b ≡ u = (==_iff b u).0 here in
      let e : get_or r u [] ++ info ∷ [] ≡ js =
        ground (arith, get-put r u b (get_or r u [] ++ info ∷ [])) in
      elim (In-snoc info (get_or r u []) j (subst (In j) (sym e) m)) [
        | inr last ↦ inl (same, last)
        | inl old ↦ inr (listed same (get r u) refl old)
      ]
  | inr there ↦ inr (js, ground (arith, get-put r u b (get_or r u [] ++ info ∷ [])), m)
]
  where
    listed :
        b ≡ u
        → (o : Option (List Owner)) → get r u ≡ o
        → In j (elim o [ none ↦ [] | some ks ↦ ks ])
        → (ks : List Owner) × (get r b ≡ some ks) × In j ks
    listed same none e m' = absurd m'
    listed same (some ks) e m' = (ks, rw same e, m')

module _ (platform : Platform) (url : Info → String) (known : String → Info) where
  -- Two entries at overlapping paths, at least one of them a writer's, have one owner.
  pub record IsExclusive (w : Dict String Owner) (r : Dict String (List Owner)) : Type 0 where
    pub writes :
        (u v : String) (i j : Owner)
        → get w u ≡ some i
        → get w v ≡ some j
        → overlaps platform (known u) (known v) ≡ true
        → i ≡ j
    pub reads :
        (u v : String) (i j : Owner) (js : List Owner)
        → get w u ≡ some i
        → get r v ≡ some js
        → In j js
        → overlaps platform (known u) (known v) ≡ true
        → i ≡ j

  abbrev pub NoWriter : Owner → Dict String Owner → Info → Type 0
  NoWriter info w p =
      (v : String) (o : Owner) → get w v ≡ some o → overlaps platform p (known v) ≡ true → o ≡ info

  abbrev pub NoReader : Owner → Dict String (List Owner) → Info → Type 0
  NoReader info r p =
      (v : String) (os : List Owner) (o : Owner)
      → get r v ≡ some os
      → In o os
      → overlaps platform p (known v) ≡ true
      → o ≡ info

  put-NoWriter :
      (info : Owner) (w : Dict String Owner) (u : String) (p : Info)
      → NoWriter info w p
      → NoWriter info (put w u info) p
  put-NoWriter info w u p h v o g ov = ground (arith, get-put w u v info, h v o)

  module _ (info : Owner) (w : Dict String Owner) (r : Dict String (List Owner)) (u : String)
      (ex : IsExclusive w r) (no_writer : NoWriter info w (known u)) where
    put_writer-IsExclusive : NoReader info r (known u) → IsExclusive (put w u info) r
    put_writer-IsExclusive no_reader = record {
      writes = λ a b i j ga gb ov. ground (
        arith,
        get-put w u a info,
        get-put w u b info,
        ex.writes a b i j,
        no_writer a i,
        no_writer b j,
        overlaps_comm platform (known a) (known b),
      );
      reads = λ a b i j js ga gb m ov.
          ground (arith, get-put w u a info, ex.reads a b i j js, no_reader b js j);
    }

    put_reader-IsExclusive : IsExclusive w (put r u (get_or r u [] ++ info ∷ []))
    put_reader-IsExclusive = record {
      writes = ex.writes;
      reads = λ a b i j js ga gb m ov. elim (reader_cases info r u b js j gb m) [
        | inl (same, mine) ↦
            no_writer a i ga (rw (overlaps_comm platform (known u) (known a), ← same) ov) ∙ sym mine
        | inr (ks, old, m') ↦ ex.reads a b i j ks ga old m' ov
      ];
    }

  All-put-NoWriter :
      (info : Owner) (w : Dict String Owner) (u : String) (ps : List Info)
      → All (NoWriter info w) ps
      → All (NoWriter info (put w u info)) ps
  All-put-NoWriter info w u [] h = tt
  All-put-NoWriter info w u (p ∷ ps) h =
      (put-NoWriter info w u p h.0, All-put-NoWriter info w u ps h.1)

  abbrev pub IsNamed : Info → Type 0
  IsNamed p = p ≡ known (url p)

  pub acquire_write-IsExclusive :
      (info : Owner) (ps : List Info) (w : Dict String Owner) (r : Dict String (List Owner))
      → All IsNamed ps
      → IsExclusive w r
      → All (NoWriter info w) ps
      → All (NoReader info r) ps
      → IsExclusive (acquire_write url w info ps).0 r
  acquire_write-IsExclusive info [] w r named ex nw nr = unfold acquire_write in ex
  acquire_write-IsExclusive info (p ∷ ps) w r named ex nw nr =
      elim (acquire_write_cases url info p ps w) [
        | inl (_, e) ↦ rw e (acquire_write-IsExclusive info ps w r named.1 ex nw.1 nr.1)
        | inr (_, e) ↦ rw e (
            acquire_write-IsExclusive info ps (put w (url p) info) r named.1
              (put_writer-IsExclusive info w r (url p) ex (subst (NoWriter info w) named.0 nw.0)
                (subst (NoReader info r) named.0 nr.0))
              (All-put-NoWriter info w (url p) ps nw.1) nr.1)
      ]

  pub acquire_read-IsExclusive :
      (info : Owner) (ps : List Info) (w : Dict String Owner) (r : Dict String (List Owner))
      → All IsNamed ps
      → IsExclusive w r
      → All (NoWriter info w) ps
      → IsExclusive w (acquire_read url r info ps).0
  acquire_read-IsExclusive info [] w r named ex nw = unfold acquire_read in ex
  acquire_read-IsExclusive info (p ∷ ps) w r named ex nw =
      elim (acquire_read_cases url info p ps r) [
        | inl (_, e) ↦ rw e (acquire_read-IsExclusive info ps w r named.1 ex nw.1)
        | inr (_, e) ↦ rw e (
            acquire_read-IsExclusive info ps w (put r (url p) (get_or r (url p) [] ++ info ∷ []))
              named.1
              (put_reader-IsExclusive info w r (url p) ex (subst (NoWriter info w) named.0 nw.0))
              nw.1)
      ]

  put_reader-NoReader :
      (info : Owner) (r : Dict String (List Owner)) (u : String) (q : Info)
      → NoReader info r q
      → NoReader info (put r u (get_or r u [] ++ info ∷ [])) q
  put_reader-NoReader info r u q h v os o g m ov = elim (reader_cases info r u v os o g m) [
    | inl (_, mine) ↦ mine
    | inr (ks, old, m') ↦ h v ks o old m' ov
  ]

  pub acquire_read-NoReader :
      (info : Owner) (q : Info) (ps : List Info) (r : Dict String (List Owner))
      → NoReader info r q
      → NoReader info (acquire_read url r info ps).0 q
  acquire_read-NoReader info q [] r h = unfold acquire_read in h
  acquire_read-NoReader info q (p ∷ ps) r h = elim (acquire_read_cases url info p ps r) [
    | inl (_, e) ↦ rw e (acquire_read-NoReader info q ps r h)
    | inr (_, e) ↦ rw e (acquire_read-NoReader info q ps _ (put_reader-NoReader info r (url p) q h))
  ]
