-- ===== src/Cache/Listing/Stored.antt =====
-- dvc/cache/base.py: what `list_hashes` gives for a file tree that lists the files it holds.
use Prim.Native.Char.{Char}
use Prim.Native.String.{[], ◌∷◌}
use Prim.Native.Nat.{◌/◌, ◌%◌, ◌^◌}
use text.Mathlib.TextLemmas.{nil-append, append-nil, cons-append}
use python_dvc.Base.{
  ℕ, suc, ◌-◌, ◌≤◌, ltb, String, ◌<>◌, ◌≡◌, refl, sym, ap, subst, ◌∙◌, Bool, true, false, Option,
  none, some, List, [], ◌∷◌, ◌++◌, In, contains, ◌==◌, string_eq, nat_eq, ==_iff, if◌then◌else◌,
  inl, inr, Bool-cases, Option-cases, arith, ◌||◌, ◌&&◌, not,
}
use python_dvc.Cache.Listing.{
  Parts, Tree, first_two, after_two, is_two, hash_to_path, prefix_path, list_paths, last_two,
  path_to_hash, hashes_of, list_hashes, hex_digit, hex,
}
use python_dvc.Cache.Listing.Hex.{StartsWith, IsHexadecimal, hex_front, starts_trans}

abbrev pub distinct : List String → Bool
distinct [] = true
distinct (x ∷ xs) = not (contains xs x) && distinct xs

-- The tree holds the files of the checksums that are stored, each named by hexadecimal digits, so many of
-- them at least; it lists all files below the cache, and for a prefix all those that begin with it; what looks
-- like a file of the cache is one, and no checksum is listed twice.
pub record IsStore (tree : Tree) (stored : String → Bool) (digits : ℕ) : Type 0 where
  pub exists : (h : String) → tree.exists (hash_to_path h) ≡ stored h
  pub names : (h : String) → stored h ≡ true → IsHexadecimal digits h
  pub walk_all :
      (h : String)
      → stored h ≡ true
      → (root : Parts) × In (root ++ hash_to_path h) (tree.walk_files [] false)
  pub walk_prefix :
      (h prefix : String)
      → stored h ≡ true
      → StartsWith h prefix
      → (root : Parts) × In (root ++ hash_to_path h) (tree.walk_files (prefix_path prefix) true)
  pub only_files :
      (below : Parts) (flag : Bool) (path : Parts) (h : String)
      → In path (tree.walk_files below flag)
      → path_to_hash path ≡ some h
      → stored h ≡ true
  pub once : (prefix : Option String) → distinct (list_hashes tree prefix) ≡ true

abbrev IsDigit : String → Type 0
IsDigit s = (c : Char) × (s ≡ c ∷ [])

IsDigit-if : (b : Bool) {s t : String} → IsDigit s → IsDigit t → IsDigit (if b then s else t)
IsDigit-if true p q = p
IsDigit-if false p q = q

hex_digit-IsDigit : (d : ℕ) → IsDigit (hex_digit d)
hex_digit-IsDigit d =
    IsDigit-if (ltb d 8)
      (IsDigit-if (ltb d 4)
        (IsDigit-if (ltb d 2) (IsDigit-if (d == 0) ("0", refl) ("1", refl))
          (IsDigit-if (d == 2) ("2", refl) ("3", refl)))
        (IsDigit-if (ltb d 6) (IsDigit-if (d == 4) ("4", refl) ("5", refl))
          (IsDigit-if (d == 6) ("6", refl) ("7", refl))))
      (IsDigit-if (ltb d 12)
        (IsDigit-if (ltb d 10) (IsDigit-if (d == 8) ("8", refl) ("9", refl))
          (IsDigit-if (d == 10) ("a", refl) ("b", refl)))
        (IsDigit-if (ltb d 14) (IsDigit-if (d == 12) ("c", refl) ("d", refl))
          (IsDigit-if (d == 14) ("e", refl) ("f", refl))))

-- A name of two digits at least has two first characters.
two_of_two :
    (a b rest : String)
    → IsDigit a
    → IsDigit b
    → is_two (first_two ((("" <> a) <> b) <> rest)) ≡ true
two_of_two a b rest (c, ea) (d, eb) =
    rw
      (
        ea,
        eb,
        nil-append (c ∷ []),
        cons-append c [] (d ∷ []),
        nil-append (d ∷ []),
        cons-append c (d ∷ []) rest,
        cons-append d [] rest,
      )
      refl

hex_two : (j : ℕ) (h : String) → StartsWith h (hex 2 j) → is_two (first_two h) ≡ true
unfolding hex
hex_two j h (rest, e) =
    ap (λ s. is_two (first_two s)) e
    ∙ two_of_two (hex_digit (j / 16 % 16)) (hex_digit (j % 16)) rest
        (hex_digit-IsDigit (j / 16 % 16)) (hex_digit-IsDigit (j % 16))

two_digits :
    (digits : ℕ) (h : String) → 2 ≤ digits → IsHexadecimal digits h → is_two (first_two h) ≡ true
two_digits digits h long (i, small, starts) = do
  let k = digits - 2
  let same : digits ≡ suc (suc k) = omega arith
  hex_two (i / 16 ^ k) h
      (starts_trans _ (subst (λ n. StartsWith h (hex n i)) same starts) (hex_front k i))

pub cut_two : (h : String) → first_two h <> after_two h ≡ h
cut_two [] = refl
cut_two (c ∷ []) = append-nil (c ∷ [])
cut_two (c ∷ (d ∷ s)) =
    cons-append c (d ∷ []) s ∙ ap (λ t. c ∷ t) (cons-append d [] s ∙ ap (λ t. d ∷ t) (nil-append s))

last_two-append : (root : Parts) (a b : String) → last_two (root ++ a ∷ b ∷ []) ≡ a ∷ b ∷ []
unfolding last_two
last_two-append [] a b = refl
last_two-append (r ∷ []) a b = refl
last_two-append (r ∷ (q ∷ [])) a b = refl
last_two-append (r ∷ (q ∷ (p ∷ root))) a b = last_two-append (q ∷ (p ∷ root)) a b

-- The path of a checksum is read back as the checksum.
path_to_hash-hash_to_path :
    (root : Parts) (h : String)
    → is_two (first_two h) ≡ true
    → path_to_hash (root ++ hash_to_path h) ≡ some h
unfolding path_to_hash
path_to_hash-hash_to_path root h two =
    rw (last_two-append root (first_two h) (after_two h), two) (ap some (cut_two h))

or_true : (b : Bool) → (b || true) ≡ true
or_true b = ground arith

hashes_of_skipped :
    (p : Parts) (paths : List Parts)
    → path_to_hash p ≡ none
    → hashes_of (p ∷ paths) ≡ hashes_of paths
unfolding hashes_of
hashes_of_skipped p paths e = rw (hashes_of, e) refl

hashes_of_found :
    (p : Parts) (paths : List Parts) (g : String)
    → path_to_hash p ≡ some g
    → hashes_of (p ∷ paths) ≡ g ∷ hashes_of paths
unfolding hashes_of
hashes_of_found p paths g e = rw (hashes_of, e) refl

hashes_of-In :
    (paths : List Parts) (path : Parts) (h : String)
    → In path paths
    → path_to_hash path ≡ some h
    → contains (hashes_of paths) h ≡ true
hashes_of-In [] path h m e = elim m [ ]
hashes_of-In (p ∷ paths) path h (inl here) e =
    rw (hashes_of_found p paths h (ap path_to_hash (sym here) ∙ e), (==_iff h h).1 refl) refl
hashes_of-In (p ∷ paths) path h (inr there) e = elim (Option-cases (path_to_hash p)) [
  | inl skipped ↦ rw (hashes_of_skipped p paths skipped) (hashes_of-In paths path h there e)
  | inr (g, found) ↦
      rw (hashes_of_found p paths g found, hashes_of-In paths path h there e) (or_true (h == g))
]

In-hashes_of :
    (paths : List Parts) (h : String)
    → contains (hashes_of paths) h ≡ true
    → (path : Parts) × In path paths × (path_to_hash path ≡ some h)
unfolding hashes_of
In-hashes_of [] h m = cc
In-hashes_of (p ∷ paths) h m = elim (Option-cases (path_to_hash p)) [
  | inl skipped ↦
      let (path, there, e) = In-hashes_of paths h (rw (hashes_of_skipped p paths skipped) at m) in
      (path, inr there, e)
  | inr (g, found) ↦ elim (Bool-cases (h == g)) [
    | inl same ↦ (p, inl refl, found ∙ ap some (sym ((==_iff h g).0 same)))
    | inr other ↦
        let (path, there, e) =
          In-hashes_of paths h (rw (hashes_of_found p paths g found, other) at m) in
        (path, inr there, e)
  ]
]

module _ {tree : Tree} {stored : String → Bool} {digits : ℕ}
    (store : IsStore tree stored digits) where
  -- What is listed is stored.
  pub listed_stored :
      (prefix : Option String) (h : String)
      → contains (list_hashes tree prefix) h ≡ true
      → stored h ≡ true
  unfolding list_hashes list_paths
  listed_stored none h m =
      let (path, there, e) = In-hashes_of (list_paths tree none) h m in
      store.only_files [] false path h there e
  listed_stored (some prefix) h m = elim (Bool-cases (prefix == "")) [
    | inl blank ↦
        let (path, there, e) = In-hashes_of (list_paths tree (some prefix)) h m in
        store.only_files [] false path h (rw blank at there) e
    | inr given ↦
        let (path, there, e) = In-hashes_of (list_paths tree (some prefix)) h m in
        store.only_files (prefix_path prefix) true path h (rw given at there) e
  ]

  -- What is stored is listed, and found below each prefix that it begins with.
  pub stored_listed :
      2 ≤ digits → (h : String) → stored h ≡ true → contains (list_hashes tree none) h ≡ true
  unfolding list_hashes list_paths
  stored_listed long h there =
      let (root, m) = store.walk_all h there in
      hashes_of-In _ _ h m
        (path_to_hash-hash_to_path root h (two_digits digits h long (store.names h there)))

  pub stored_below :
      2 ≤ digits
      → (prefix h : String) → StartsWith h prefix
      → stored h ≡ true
      → contains (list_hashes tree (some prefix)) h ≡ true
  unfolding list_hashes list_paths
  stored_below long prefix h starts there = elim (Bool-cases (prefix == "")) [
    | inl blank ↦ rw blank (stored_listed long h there)
    | inr given ↦
        let (root, m) = store.walk_prefix h prefix there starts in
        rw given (
          hashes_of-In _ _ h m
            (path_to_hash-hash_to_path root h (two_digits digits h long (store.names h there))))
  ]
