-- ===== src/Cache/Listing/Estimate.antt =====
-- dvc/cache/base.py: the estimation of the size of a cache. It may stop at its limit.
use native.Mathlib.Nat.{zero-add}
use python_dvc.Base.{
  ℕ, nat_eq, ◌+◌, ◌*◌, ◌≤◌, String, ◌≡◌, refl, sym, ap, subst, ◌∙◌, Bool, true, false, some, List,
  [], ◌∷◌, length, contains, is_empty, string_eq, ==_iff, inl, inr, ◌⊎◌, Bool-cases, arith,
}
use python_dvc.Cache.Listing.{
  Tree, Limits, list_hashes, to_set, zeros, total_prefixes, Floats, estimation_limit,
  hashes_with_limit, size_of, is_light, estimate_remote_size,
}
use python_dvc.Cache.Listing.Stored.{IsStore, distinct}

pub contains-to_set : (xs : List String) (h : String) → contains (to_set xs) h ≡ contains xs h
unfolding to_set
contains-to_set [] h = refl
contains-to_set (x ∷ xs) h = ground (arith, contains-to_set xs h, contains-to_set xs x, ==_iff h x)

to_set-distinct : (xs : List String) → distinct xs ≡ true → to_set xs ≡ xs
unfolding to_set
to_set-distinct [] d = refl
to_set-distinct (x ∷ xs) d = ground (arith, contains-to_set xs x, to_set-distinct xs)

module _ (floats : Floats) where
  open floats use {Float, float, mul, div, less}

  -- What was yielded is all of the list, or more than the limit.
  limit-cases :
      (limit : Float) (count : ℕ) (hs : List String)
      → (hashes_with_limit floats limit count hs ≡ hs)
        ⊎ ((1 ≤ length (hashes_with_limit floats limit count hs))
            × (less limit (float (count + length (hashes_with_limit floats limit count hs)))
                ≡ true))
  unfolding hashes_with_limit
  limit-cases limit count [] = inl refl
  limit-cases limit count (h ∷ hs) = elim (Bool-cases (less limit (float (count + 1)))) [
    | inl over ↦ inr (rw over (omega arith, over))
    | inr under ↦ rw under (elim (limit-cases limit (count + 1) hs) [
      | inl whole ↦ inl (ap (λ xs. h ∷ xs) whole)
      | inr (some_listed, more) ↦
          inr (omega arith, subst (λ n. less limit (float n) ≡ true) (omega arith) more)
    ])
  ]

  limit_part :
      (limit : Float) (count : ℕ) (hs : List String) (h : String)
      → contains (hashes_with_limit floats limit count hs) h ≡ true
      → contains hs h ≡ true
  unfolding hashes_with_limit
  limit_part limit count [] h m = m
  limit_part limit count (x ∷ hs) h m = ground (arith, limit_part limit (count + 1) hs h)

  limit_distinct :
      (limit : Float) (count : ℕ) (hs : List String)
      → distinct hs ≡ true
      → distinct (hashes_with_limit floats limit count hs) ≡ true
  unfolding hashes_with_limit
  limit_distinct limit count [] d = refl
  limit_distinct limit count (x ∷ hs) d =
      ground (arith, limit_distinct limit (count + 1) hs, limit_part limit (count + 1) hs x)

module _ (floats : Floats) (limits : Limits) where
  open floats use {Float, float, mul, div, less}

  -- The rounding of the floats does not matter for so many hashes: a number of them that stops the estimation
  -- makes the cache a large one.
  pub record IsSteady (asked : ℕ) : Type 0 where
    pub steady :
        (count : ℕ)
        → 1 ≤ count
        → less (estimation_limit floats limits asked) (float count) ≡ true
        → is_light floats limits asked (total_prefixes limits * count) ≡ true

  size_of-found :
      (found : List String)
      → 1 ≤ length found
      → size_of limits found ≡ total_prefixes limits * length found
  size_of-found [] n = absurd (omega arith)
  size_of-found (h ∷ found) n = refl

  module _ {tree : Tree} {stored : String → Bool} {digits : ℕ}
      (store : IsStore tree stored digits) where
    -- The checksums that the estimation lists
    abbrev estimated : List String
    estimated = list_hashes tree (some (zeros limits.traverse_prefix_len))

    pub estimate_part :
        (hashes : List String) (h : String)
        → contains (estimate_remote_size floats limits tree hashes).1 h ≡ true
        → contains estimated h ≡ true
    unfolding estimate_remote_size
    estimate_part hashes h m = elim (Bool-cases (is_empty hashes)) [
      | inl none_asked ↦ sym (contains-to_set estimated h) ∙ (rw none_asked at m)
      | inr asked ↦
          limit_part floats (estimation_limit floats limits (length hashes)) 0 estimated h (
            sym (
              contains-to_set
                (hashes_with_limit floats (estimation_limit floats limits (length hashes)) 0
                  estimated)
                h)
            ∙ (rw asked at m))
    ]

    -- The checksums that the estimation lists within its limit
    abbrev limited : ℕ → List String
    limited asked = hashes_with_limit floats (estimation_limit floats limits asked) 0 estimated

    limited_once : (asked : ℕ) → to_set (limited asked) ≡ limited asked
    limited_once asked = to_set-distinct (limited asked) (
        limit_distinct floats (estimation_limit floats limits asked) 0 estimated
          (store.once (some (zeros limits.traverse_prefix_len))))

    small_over :
        (hashes : List String)
        → is_empty hashes ≡ false
        → IsSteady (length hashes)
        → 1 ≤ length (limited (length hashes))
        → less
            (estimation_limit floats limits (length hashes))
            (float (length (limited (length hashes))))
          ≡ true
        → is_light floats limits (length hashes) (estimate_remote_size floats limits tree hashes).0
          ≡ false
        → ⊥
    unfolding estimate_remote_size
    small_over hashes asked even positive over dense = do
      let part = limited (length hashes)
      let dense' = rw (asked, limited_once (length hashes), size_of-found part positive) at dense
      let light = even.steady (length part) positive over
      let both = sym dense' ∙ light
      cc

    -- An estimation that is not called large has listed all of its prefix.
    pub estimate_whole :
        (hashes : List String) (h : String)
        → is_empty hashes ≡ true
          ⊎ (IsSteady (length hashes)
              × (is_light floats limits
                    (length hashes)
                    (estimate_remote_size floats limits tree hashes).0
                  ≡ false))
        → contains estimated h ≡ true
        → contains (estimate_remote_size floats limits tree hashes).1 h ≡ true
    unfolding estimate_remote_size
    estimate_whole hashes h whole m = elim (Bool-cases (is_empty hashes)) [
      | inl none_asked ↦ rw none_asked (contains-to_set estimated h ∙ m)
      | inr asked ↦
          elim (limit-cases floats (estimation_limit floats limits (length hashes)) 0 estimated) [
            | inl all_listed ↦ rw (asked, all_listed) (contains-to_set estimated h ∙ m)
            | inr (positive, over) ↦ absurd (elim whole [
              | inl none_asked ↦ cc (asked, none_asked)
              | inr (even, dense) ↦
                  small_over hashes asked even positive
                    (subst
                      (λ n. less (estimation_limit floats limits (length hashes)) (float n) ≡ true)
                      (zero-add (length (limited (length hashes)))) over)
                    dense
            ])
          ]
    ]
