-- ===== src/Cache/Listing/Hex.antt =====
-- dvc/cache/base.py: each checksum begins with one of the prefixes that a traversal lists.
use Prim.Native.Nat.{◌/◌, ◌%◌, ◌^◌}
use native.Mathlib.Nat.{div-div-eq-div-mul, div-lt_iff_lt-mul, pow-succ', div-one}
use text.Mathlib.TextLemmas.{append_assoc, append-nil}
use python_dvc.Base.{
  ℕ, zero, suc, ◌+◌, ◌-◌, ◌*◌, ◌≤◌, ◌<◌, String, ◌<>◌, ◌≡◌, refl, sym, ap, subst, ◌∙◌, true, some,
  List, [], ◌∷◌, ◌++◌, map, In, ltb, ◌==◌, nat_eq, ==_iff, if◌then◌else◌, inl, inr, ◌⊎◌, Bool-cases,
  arith,
}
use python_dvc.Cache.Listing.{hex_digit, hex, zeros, hex_range, Limits, traverse_prefixes}

abbrev pub StartsWith : String → String → Type 0
StartsWith h prefix = (rest : String) × (h ≡ prefix <> rest)

-- The name of a file that begins with so many digits.
abbrev pub IsHexadecimal : ℕ → String → Type 0
IsHexadecimal n h = (i : ℕ) × (i < 16 ^ n) × StartsWith h (hex n i)

pub zeros-hex : (n : ℕ) → zeros n ≡ hex n 0
unfolding zeros hex nat_eq
zeros-hex zero = refl
zeros-hex (suc n) = ap (λ s. s <> "0") (zeros-hex n)

-- The first two of the digits are those of the number without the others.
pub hex_front : (k i : ℕ) → StartsWith (hex (suc (suc k)) i) (hex 2 (i / 16 ^ k))
unfolding hex
hex_front zero i = ("", ap (hex 2) (sym (div-one i)) ∙ sym (append-nil (hex 2 (i / 1))))
hex_front (suc k) i =
    let (rest, e) = hex_front k (i / 16) in
    let fewer = div-div-eq-div-mul i 16 (16 ^ k) ∙ ap (λ d. i / d) (sym (pow-succ' 16 k)) in
    (
      rest <> hex_digit (i % 16),
      ap (λ s. s <> hex_digit (i % 16)) e
          ∙ append_assoc (hex 2 (i / 16 / 16 ^ k)) rest (hex_digit (i % 16))
          ∙ ap (λ j. hex 2 j <> (rest <> hex_digit (i % 16))) fewer,
    )

hex_range-In :
    (digits start count i : ℕ)
    → start ≤ i
    → i < start + count
    → In (hex digits i) (hex_range digits start count)
unfolding hex_range
hex_range-In digits start zero i low high = absurd (omega arith)
hex_range-In digits start (suc count) i low high = elim (Bool-cases (i == start)) [
  | inl same ↦ inl (ap (hex digits) ((==_iff i start).0 same))
  | inr other ↦ inr (hex_range-In digits (suc start) count i (ground arith) (ground arith))
]

pub starts_trans : {h p : String} (q : String) → StartsWith h p → StartsWith p q → StartsWith h q
starts_trans q (rest, e) (rest', e') =
    (rest' <> rest, e ∙ ap (λ s. s <> rest) e' ∙ append_assoc q rest' rest)

In-left : {A : Type 0} (a : A) (xs ys : List A) → In a xs → In a (xs ++ ys)
In-left a [] ys m = elim m [ ]
In-left a (x ∷ xs) ys (inl here) = inl here
In-left a (x ∷ xs) ys (inr there) = inr (In-left a xs ys there)

In-right : {A : Type 0} (a : A) (xs ys : List A) → In a ys → In a (xs ++ ys)
In-right a [] ys m = m
In-right a (x ∷ xs) ys m = inr (In-right a xs ys m)

In-map : {A B : Type 0} (f : A → B) (a : A) (xs : List A) → In a xs → In (f a) (map f xs)
In-map f a [] m = elim m [ ]
In-map f a (x ∷ xs) (inl here) = inl (ap f here)
In-map f a (x ∷ xs) (inr there) = inr (In-map f a xs there)

-- The prefixes that are traversed, where the estimation had one of so many digits.
abbrev prefixes_of : ℕ → List String
prefixes_of n = hex_range 2 1 255 ++ (if ltb 2 n then hex_range n 1 (16 ^ (n - 2) - 1) else [])

pow_pos : (k : ℕ) → 0 < 16 ^ k
pow_pos zero = omega arith
pow_pos (suc k) = omega (arith, pow-succ' 16 k, pow_pos k)

below_256 : (k i : ℕ) → i < 16 ^ suc (suc k) → i / 16 ^ k < 256
below_256 k i small =
    (div-lt_iff_lt-mul (pow_pos k)).1 (omega (arith, small, pow-succ' 16 (suc k), pow-succ' 16 k))

at_least_one : (k i : ℕ) → 16 ^ k ≤ i → 1 ≤ i / 16 ^ k
at_least_one k i high = elim (Bool-cases (ltb (i / 16 ^ k) 1)) [
  | inl none_there ↦
      let under : i < 1 * 16 ^ k = (div-lt_iff_lt-mul (pow_pos k)).0 (ground arith) in
      absurd (omega arith)
  | inr there ↦ ground arith
]

low_range : (k i : ℕ) → 1 ≤ i → i < 16 ^ k → In (hex (suc (suc k)) i) (prefixes_of (suc (suc k)))
low_range zero i positive low = absurd (omega arith)
low_range (suc k) i positive low = In-right (hex (suc (suc (suc k))) i) (hex_range 2 1 255) _ (
    rw longer
      (hex_range-In (suc (suc (suc k))) 1 (16 ^ (suc (suc (suc k)) - 2) - 1) i positive within))
  where
    longer : ltb 2 (suc (suc (suc k))) ≡ true
    longer = ground arith

    same : suc (suc (suc k)) - 2 ≡ suc k
    same = omega arith

    within : i < 1 + (16 ^ (suc (suc (suc k)) - 2) - 1)
    within = rw same (omega (arith, low))

covered :
    (k i : ℕ) (h : String)
    → i < 16 ^ suc (suc k)
    → StartsWith h (hex (suc (suc k)) i)
    → StartsWith h (zeros (suc (suc k)))
      ⊎ ((p : String) × In p (prefixes_of (suc (suc k))) × StartsWith h p)
covered k i h small (rest, e) = elim (Bool-cases (i == 0)) [
  | inl zero_prefix ↦ inl (
    rest,
    e
        ∙ ap (λ s. s <> rest)
            (ap (hex (suc (suc k))) ((==_iff i 0).0 zero_prefix) ∙ sym (zeros-hex (suc (suc k)))),
  )
  | inr positive ↦ elim (Bool-cases (ltb i (16 ^ k))) [
    | inl low ↦ inr (hex (suc (suc k)) i, low_range k i (ground arith) (ground arith), (rest, e))
    | inr high ↦ inr (
      hex 2 (i / 16 ^ k),
      In-left _ (hex_range 2 1 255) _ (
          hex_range-In 2 1 255 (i / 16 ^ k) (at_least_one k i (ground arith))
            (below_256 k i small)),
      starts_trans _ (rest, e) (hex_front k i),
    )
  ]
]

-- A checksum of the cache begins with the prefix of the estimation, or with one that is traversed.
pub traversed :
    (limits : Limits) (h : String)
    → 2 ≤ limits.traverse_prefix_len
    → IsHexadecimal limits.traverse_prefix_len h
    → StartsWith h (zeros limits.traverse_prefix_len)
      ⊎ ((p : String) × In (some p) (traverse_prefixes limits) × StartsWith h p)
traversed limits h long (i, small, starts) =
    go limits.traverse_prefix_len (limits.traverse_prefix_len - 2) (omega arith) small starts
  where
    go :
        (n k : ℕ)
        → n ≡ suc (suc k)
        → i < 16 ^ n
        → StartsWith h (hex n i)
        → StartsWith h (zeros n)
          ⊎ ((p : String) × In (some p) (map some (prefixes_of n)) × StartsWith h p)
    go n k same small' starts' =
        let small2 = subst (λ m. i < 16 ^ m) same small' in
        let starts2 = subst (λ m. StartsWith h (hex m i)) same starts' in
        elim (covered k i h small2 starts2) [
          | inl zero_prefix ↦ inl (subst (λ m. StartsWith h (zeros m)) (sym same) zero_prefix)
          | inr (p, m, at) ↦ inr (
            p,
            In-map some p (prefixes_of n) (subst (λ j. In p (prefixes_of j)) (sym same) m),
            at,
          )
        ]
