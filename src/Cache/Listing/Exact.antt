-- ===== src/Cache/Listing/Exact.antt =====
-- dvc/cache/base.py: `hashes_exist` answers truly, in each of its ways.
use python_dvc.Base.{
  ◌≤◌, String, ◌≡◌, refl, sym, ap, subst, ◌∙◌, Bool, true, false, not, ◌&&◌, ◌||◌, Option, none,
  some, List, [], ◌∷◌, ◌++◌, In, length, contains, is_empty, ◌==◌, string_eq, nat_eq, ==_iff, inl,
  inr, ◌⊎◌, Bool-cases, arith,
}
use python_dvc.Base.Result.{Result, ok, ◌>>◌, guard}
use python_dvc.Cache.Keys.{contains-append}
use python_dvc.Remote.Status.{set_meet, set_minus}
use python_dvc.Remote.Exact.{contains-set_meet, contains-set_minus}
use python_dvc.Cache.Listing.{
  Tree, Floats, Limits, hash_to_path, list_hashes, to_set, zeros, is_light, traverse_prefixes,
  estimate_remote_size, list_all, list_hashes_traverse, all_hashes, list_hashes_exists, existing,
  hashes_exist,
}
use python_dvc.Cache.Listing.Hex.{traversed}
use python_dvc.Cache.Listing.Stored.{IsStore, listed_stored, stored_listed, stored_below}
use python_dvc.Cache.Listing.Estimate.{IsSteady, contains-to_set, estimate_part, estimate_whole}

-- Two tests that imply each other are one.
same_test : (a b : Bool) → (a ≡ true → b ≡ true) → (b ≡ true → a ≡ true) → a ≡ b
same_test true b f g = sym (f refl)
same_test false true f g = g refl
same_test false false f g = refl

bools : (a f s : Bool) → (f ≡ true → s ≡ true) → ((a && f) || ((a && not f) && s)) ≡ (a && s)
bools a f s part = elim (Bool-cases f) [
  | inl found ↦ rw (found, part found) (ground arith)
  | inr away ↦ rw away (ground arith)
]

passed :
    {A : Type 0} (b : Bool) (a : A)
    → b ≡ true
    → ◌≡◌ {A = Result (Unit {0}) A} (guard b tt >> ok a) (ok a)
passed true a e = refl
passed false a e = cc

and_false : (b : Bool) → (b && false) ≡ false
and_false b = ground arith

module _ (floats : Floats) (limits : Limits) (tree : Tree) (stored : String → Bool)
    (long : 2 ≤ limits.traverse_prefix_len)
    (store : IsStore tree stored limits.traverse_prefix_len) where
  contains-list_hashes_exists :
      (hs : List String) (h : String)
      → contains (list_hashes_exists floats limits tree hs) h ≡ (contains hs h && stored h)
  unfolding list_hashes_exists
  contains-list_hashes_exists [] h = refl
  contains-list_hashes_exists (x ∷ hs) h = elim (Bool-cases (h == x)) [
    | inl same ↦
        let asked =
          ap (λ g. tree.exists (hash_to_path g)) (sym ((==_iff h x).0 same)) ∙ store.exists h in
        elim (Bool-cases (stored h)) [
          | inl there ↦ rw (asked ∙ there, same, there) refl
          | inr gone ↦
              rw (asked ∙ gone, same, gone, contains-list_hashes_exists hs h, gone)
                (and_false (contains hs h))
        ]
    | inr other ↦ elim (Bool-cases (tree.exists (hash_to_path x))) [
      | inl there ↦ rw (there, other) (contains-list_hashes_exists hs h)
      | inr gone ↦ rw (gone, other) (contains-list_hashes_exists hs h)
    ]
  ]

  list_all-In :
      (prefixes : List (Option String)) (p : Option String) (h : String)
      → In p prefixes
      → contains (list_hashes tree p) h ≡ true
      → contains (list_all floats limits tree prefixes) h ≡ true
  unfolding list_all
  list_all-In [] p h m there = elim m [ ]
  list_all-In (q ∷ prefixes) p h (inl here) there = ground (
    arith,
    contains-append (list_hashes tree q) (list_all floats limits tree prefixes) h,
    subst (λ r. contains (list_hashes tree r) h ≡ true) here there,
  )
  list_all-In (q ∷ prefixes) p h (inr later) there = ground (
    arith,
    contains-append (list_hashes tree q) (list_all floats limits tree prefixes) h,
    list_all-In prefixes p h later there,
  )

  list_all-stored :
      (prefixes : List (Option String)) (h : String)
      → contains (list_all floats limits tree prefixes) h ≡ true
      → stored h ≡ true
  unfolding list_all
  list_all-stored [] h m = cc
  list_all-stored (q ∷ prefixes) h m = ground (
    arith,
    contains-append (list_hashes tree q) (list_all floats limits tree prefixes) h,
    list_all-stored prefixes h,
    listed_stored store q h,
  )

  estimate-stored :
      (hashes : List String) (h : String)
      → contains (estimate_remote_size floats limits tree hashes).1 h ≡ true
      → stored h ≡ true
  estimate-stored hashes h m =
      listed_stored store (some (zeros limits.traverse_prefix_len)) h
        (estimate_part floats limits store hashes h m)

  -- A traversal that starts from an estimation of all of its prefix lists what is stored.
  traverse-exact :
      (hashes : List String) (h : String)
      → is_empty hashes ≡ true
        ⊎ (IsSteady floats limits (length hashes)
            × (is_light floats limits
                  (length hashes)
                  (estimate_remote_size floats limits tree hashes).0
                ≡ false))
      → contains
          (list_hashes_traverse floats limits tree
            (estimate_remote_size floats limits tree hashes).0
            (estimate_remote_size floats limits tree hashes).1)
          h
        ≡ stored h
  unfolding list_hashes_traverse
  traverse-exact hashes h whole = do
    let (size, found) = estimate_remote_size floats limits tree hashes
    elim (Bool-cases (
        floats.less (floats.div (floats.float size) (floats.float limits.list_object_page_size))
          (floats.div (floats.float 256) (floats.float limits.jobs)))) [
            | inl small ↦ rw small (
                same_test _ _ (list_all-stored (none ∷ []) h) (λ there.
                  list_all-In (none ∷ []) none h (inl refl) (stored_listed store long h there)))
            | inr large ↦ rw large (
                same_test _ _ (into found (estimate-stored hashes h))
                  (from found (estimate_whole floats limits store hashes h whole)))
          ]
    where
      into :
          (found : List String)
          → (contains found h ≡ true → stored h ≡ true)
          → contains (found ++ list_all floats limits tree (traverse_prefixes limits)) h ≡ true
          → stored h ≡ true
      into found part m = ground (
        arith,
        contains-append found (list_all floats limits tree (traverse_prefixes limits)) h,
        list_all-stored (traverse_prefixes limits) h,
        part,
      )

      from :
          (found : List String)
          → (contains (list_hashes tree (some (zeros limits.traverse_prefix_len))) h ≡ true
              → contains found h ≡ true)
          → stored h ≡ true
          → contains (found ++ list_all floats limits tree (traverse_prefixes limits)) h ≡ true
      from found part there = elim (traversed limits h long (store.names h there)) [
        | inl first ↦
            let listed = part (stored_below store long _ h first there) in
            ground (
              arith,
              contains-append found (list_all floats limits tree (traverse_prefixes limits)) h,
              listed,
            )
        | inr (p, m, starts) ↦
            let listed =
              list_all-In (traverse_prefixes limits) (some p) h m
                (stored_below store long p h starts there) in
            ground (
              arith,
              contains-append found (list_all floats limits tree (traverse_prefixes limits)) h,
              listed,
            )
      ]

  -- `all`: a cache lists what it holds.
  pub all_hashes_exact : (h : String) → contains (all_hashes floats limits tree) h ≡ stored h
  unfolding all_hashes
  all_hashes_exact h = elim (Bool-cases limits.can_traverse) [
    | inl can ↦ rw can (traverse-exact [] h (inl refl))
    | inr cannot ↦
        rw cannot (same_test _ _ (listed_stored store none h) (stored_listed store long h))
  ]

  -- Those that were found are stored, and the others are asked for.
  asked_each :
      (hashes found : List String) (h : String)
      → (contains found h ≡ true → stored h ≡ true)
      → contains
          (set_meet hashes found ++ list_hashes_exists floats limits tree (set_minus hashes found))
          h
        ≡ (contains hashes h && stored h)
  asked_each hashes found h part =
      contains-append (set_meet hashes found)
        (list_hashes_exists floats limits tree (set_minus hashes found)) h
      ∙ rw
          (
            contains-set_meet hashes found h,
            contains-list_hashes_exists (set_minus hashes found) h,
            contains-set_minus hashes found h,
          )
          (bools (contains hashes h) (contains found h) (stored h) part)

  existing_exact :
      (hashes : List String) (h : String)
      → IsSteady floats limits (length hashes)
      → contains (existing floats limits tree hashes) h ≡ (contains hashes h && stored h)
  unfolding existing
  existing_exact hashes h even = elim (Bool-cases (length hashes == 1 || not limits.can_traverse)) [
    | inl each ↦ rw each (contains-list_hashes_exists hashes h)
    | inr either_way ↦ do
      let (size, found) = estimate_remote_size floats limits tree hashes
      elim (Bool-cases (is_light floats limits (length hashes) size)) [
        | inl light ↦ rw (either_way, light) (asked_each hashes found h (estimate-stored hashes h))
        | inr dense ↦
            rw (either_way, dense)
              (contains-set_meet hashes
                  (to_set (list_hashes_traverse floats limits tree size found)) h
                ∙ ap (λ b. contains hashes h && b)
                    (contains-to_set (list_hashes_traverse floats limits tree size found) h
                      ∙ traverse-exact hashes h (inr (even, dense))))
      ]
  ]

  -- For a tree that lists what it holds and has a prefix of two digits at least, `hashes_exist` returns, and
  -- what it returns are those of the given checksums that are stored, be it that it asked for each, traversed
  -- the cache, or both, where the rounding of floats does not matter for so many checksums.
  pub hashes_exist_exact :
      (hashes : List String) (h : String)
      → IsSteady floats limits (length (to_set hashes))
      → (found : List String) × (hashes_exist floats limits tree hashes ≡ ok found)
        × (contains found h ≡ (contains hashes h && stored h))
  unfolding hashes_exist
  hashes_exist_exact hashes h even = (
    existing floats limits tree (to_set hashes),
    passed _ (existing floats limits tree (to_set hashes)) (ground (arith, long)),
    existing_exact (to_set hashes) h even ∙ ap (λ b. b && stored h) (contains-to_set hashes h),
  )
