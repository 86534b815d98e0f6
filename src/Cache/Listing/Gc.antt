-- ===== src/Cache/Listing/Gc.antt =====
-- dvc/cache/base.py: what `gc` leaves in a cache, also where it is stopped halfway.
use python_dvc.Base.{
  ℕ, zero, suc, ◌≤◌, String, ◌≡◌, refl, sym, ap, ◌∙◌, Bool, true, false, not, ◌&&◌, ◌||◌, List, [],
  ◌∷◌, ◌++◌, contains, any, any_or, any_same, any-++, take, ◌==◌, string_eq, ==_iff, inl, inr,
  Bool-cases, arith,
}
use python_dvc.Cache.Keys.{contains-append}
use python_dvc.Cache.Listing.{
  Floats, Limits, Remover, hash_to_path, all_hashes, is_dir_hash, hashes_where, dirs_first,
  remove_hash, gc_loop, gc,
}
use python_dvc.Cache.Listing.Stored.{IsStore}
use python_dvc.Cache.Listing.Exact.{all_hashes_exact}

and_true : (b : Bool) → (b && true) ≡ b
and_true b = ground arith

and_false : (b : Bool) → (b && false) ≡ false
and_false b = ground arith

either : (c d : Bool) → ((c && d) || (c && not d)) ≡ c
either c d = ground arith

or_false : (b : Bool) → (b || false) ≡ b
or_false b = ground arith

or_true : (b : Bool) → (b || true) ≡ true
or_true b = ground arith

in_either : (d p : Bool) → ((d && p) || (not d && p)) ≡ p
in_either d p = ground arith

was_reached : (s c u : Bool) → s ≡ true → (s && not (c && not u)) ≡ false → c ≡ true
was_reached s c u there gone = ground arith

left_over : (s u : Bool) → (s && not (s && not u)) ≡ (s && u)
left_over s u = ground arith

contains-hashes_where :
    (p : String → Bool) (hs : List String) (h : String)
    → contains (hashes_where p hs) h ≡ (contains hs h && p h)
contains-hashes_where p [] h = refl
contains-hashes_where p (x ∷ hs) h = elim (Bool-cases (h == x)) [
  | inl same ↦ elim (Bool-cases (p x)) [
    | inl picked ↦ rw (picked, same, ap p ((==_iff h x).0 same) ∙ picked) refl
    | inr passed ↦
        rw
          (
            passed,
            same,
            ap p ((==_iff h x).0 same) ∙ passed,
            contains-hashes_where p hs h,
            ap p ((==_iff h x).0 same) ∙ passed,
          )
          (and_false (contains hs h))
  ]
  | inr other ↦ elim (Bool-cases (p x)) [
    | inl picked ↦ rw (picked, other) (contains-hashes_where p hs h)
    | inr passed ↦ rw (passed, other) (contains-hashes_where p hs h)
  ]
]

contains-dirs_first : (hs : List String) (h : String) → contains (dirs_first hs) h ≡ contains hs h
unfolding dirs_first
contains-dirs_first hs h =
    contains-append (hashes_where is_dir_hash hs) (hashes_where (λ g. not (is_dir_hash g)) hs) h
    ∙ rw
        (
          contains-hashes_where is_dir_hash hs h,
          contains-hashes_where (λ g. not (is_dir_hash g)) hs h,
        )
        (either (contains hs h) (is_dir_hash h))

any-hashes_where :
    (p q : String → Bool) (hs : List String) → any p (hashes_where q hs) ≡ any (λ h. q h && p h) hs
any-hashes_where p q [] = refl
any-hashes_where p q (h ∷ hs) = elim (Bool-cases (q h)) [
  | inl picked ↦ rw (picked, any-hashes_where p q hs) refl
  | inr passed ↦ rw (passed, any-hashes_where p q hs) refl
]

any-dirs_first : (p : String → Bool) (hs : List String) → any p (dirs_first hs) ≡ any p hs
unfolding dirs_first
any-dirs_first p hs =
    any-++ p (hashes_where is_dir_hash hs) (hashes_where (λ h. not (is_dir_hash h)) hs)
    ∙ rw (any-hashes_where p is_dir_hash hs, any-hashes_where p (λ h. not (is_dir_hash h)) hs)
        (sym (any_or (λ h. is_dir_hash h && p h) (λ h. not (is_dir_hash h) && p h) hs)
          ∙ any_same _ p hs (λ h. in_either (is_dir_hash h) (p h)))

-- A part of a list that reaches behind its first half has all of that half.
past_half :
    (n : ℕ) (ds fs : List String) (f d : String)
    → contains ds f ≡ false
    → contains (take n (ds ++ fs)) f ≡ true
    → contains ds d ≡ true
    → contains (take n (ds ++ fs)) d ≡ true
past_half n [] fs f d away there m = cc
past_half zero (x ∷ ds) fs f d away there m = cc
past_half (suc n) (x ∷ ds) fs f d away there m = ground (arith, past_half n ds fs f d)

module _ {W : Type 0} (remover : Remover W) (stores : W → String → Bool) where
  -- `remove` takes away the file of one checksum, `_remove_unpacked_dir` none.
  pub record IsRemover : Type 0 where
    pub remove :
        (w : W) (h g : String)
        → stores (remover.remove w (hash_to_path h)) g ≡ (not (g == h) && stores w g)
    pub remove_unpacked_dir :
        (w : W) (h g : String) → stores (remover.remove_unpacked_dir w h) g ≡ stores w g

  module _ (law : IsRemover) where
    remove_hash_lem :
        (w : W) (h g : String) → stores (remove_hash remover w h) g ≡ (not (g == h) && stores w g)
    remove_hash_lem w h g = elim (Bool-cases (is_dir_hash h)) [
      | inl dir ↦
          rw
            (
              remove_hash,
              dir,
              law.remove (remover.remove_unpacked_dir w h) h g,
              law.remove_unpacked_dir w h g,
            )
            refl
      | inr file ↦ rw (remove_hash, file, law.remove w h g) refl
    ]

    gc_loop-stores :
        (used : List String) (removed : Bool) (hs : List String) (w : W) (g : String)
        → stores (gc_loop remover used removed hs w).1 g
          ≡ (stores w g && not (contains hs g && not (contains used g)))
    unfolding gc_loop
    gc_loop-stores used removed [] w g = sym (and_true (stores w g))
    gc_loop-stores used removed (h ∷ hs) w g = elim (Bool-cases (contains used h)) [
      | inl kept ↦
          rw (kept, gc_loop-stores used removed hs w g)
            (elim (Bool-cases (g == h)) [
              | inl same ↦
                  rw
                    (
                      same,
                      ap (contains used) ((==_iff g h).0 same) ∙ kept,
                      and_false (contains hs g),
                    )
                    refl
              | inr other ↦ rw other refl
            ])
      | inr gone ↦
          rw (gone, gc_loop-stores used true hs (remove_hash remover w h) g, remove_hash_lem w h g)
            (elim (Bool-cases (g == h)) [
              | inl same ↦
                  rw (same, ap (contains used) ((==_iff g h).0 same) ∙ gone)
                    (sym (and_false (stores w g)))
              | inr other ↦ rw other refl
            ])
    ]

    gc_loop-removed :
        (used : List String) (removed : Bool) (hs : List String) (w : W)
        → (gc_loop remover used removed hs w).0 ≡ (removed || any (λ h. not (contains used h)) hs)
    unfolding gc_loop
    gc_loop-removed used removed [] w = sym (or_false removed)
    gc_loop-removed used removed (h ∷ hs) w = elim (Bool-cases (contains used h)) [
      | inl kept ↦ rw (kept, gc_loop-removed used removed hs w) refl
      | inr gone ↦
          rw (gone, gc_loop-removed used true hs (remove_hash remover w h)) (sym (or_true removed))
    ]

    -- For a tree that lists what it holds and removes what it is told, `gc` leaves of the stored checksums
    -- those that are used, and tells whether there was one that is not.
    pub gc_exact :
        (floats : Floats) (limits : Limits) (used : List String) (w : W) (h : String)
        → 2 ≤ limits.traverse_prefix_len
        → IsStore (remover.tree w) (stores w) limits.traverse_prefix_len
        → (stores (gc remover floats limits used w).1 h ≡ (stores w h && contains used h))
          × ((gc remover floats limits used w).0
              ≡ any (λ g. not (contains used g)) (all_hashes floats limits (remover.tree w)))
    unfolding gc
    gc_exact floats limits used w h long store = do
      let hashes = all_hashes floats limits (remover.tree w)
      let listed =
          contains-dirs_first hashes h
          ∙ all_hashes_exact floats limits (remover.tree w) (stores w) long store h
      (
        gc_loop-stores used false (dirs_first hashes) w h
            ∙ rw listed (left_over (stores w h) (contains used h)),
        gc_loop-removed used false (dirs_first hashes) w
            ∙ any-dirs_first (λ g. not (contains used g)) hashes,
      )

    -- For such a tree, if `gc` is stopped after any number of the checksums, and a file that was stored is gone,
    -- then so is every directory that was stored and is not used.
    pub gc_halfway :
        (floats : Floats) (limits : Limits) (used : List String) (w : W) (steps : ℕ)
        (file dir : String)
        → 2 ≤ limits.traverse_prefix_len
        → IsStore (remover.tree w) (stores w) limits.traverse_prefix_len
        → is_dir_hash file ≡ false
        → is_dir_hash dir ≡ true
        → contains used dir ≡ false
        → stores w file ≡ true
        → stores w dir ≡ true
        → stores
            (gc_loop remover used false
              (take steps (dirs_first (all_hashes floats limits (remover.tree w))))
              w).1
            file
          ≡ false
        → stores
            (gc_loop remover used false
              (take steps (dirs_first (all_hashes floats limits (remover.tree w))))
              w).1
            dir
          ≡ false
    unfolding dirs_first
    gc_halfway floats limits used w steps file dir long store is_file is_dir unused file_there
          dir_there gone =
        do
          let hashes = all_hashes floats limits (remover.tree w)
          let some_steps = take steps (dirs_first hashes)
          let left = λ (g : String). gc_loop-stores used false some_steps w g
          let reached : contains some_steps file ≡ true =
              was_reached (stores w file) (contains some_steps file) (contains used file) file_there
                (sym (left file) ∙ gone)
          let exact = all_hashes_exact floats limits (remover.tree w) (stores w) long store
          let no_file : contains (hashes_where is_dir_hash hashes) file ≡ false =
              contains-hashes_where is_dir_hash hashes file
              ∙ rw is_file (and_false (contains hashes file))
          let a_dir : contains (hashes_where is_dir_hash hashes) dir ≡ true =
              contains-hashes_where is_dir_hash hashes dir ∙ rw (is_dir, exact dir, dir_there) refl
          left dir
              ∙ rw
                  (
                    past_half steps (hashes_where is_dir_hash hashes) _ file dir no_file reached
                        a_dir,
                    unused,
                  )
                  (and_false (stores w dir))
