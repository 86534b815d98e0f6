-- ===== src/PathInfo/Overlap.antt =====
-- What `isin` and `overlaps` of dvc/path_info.py decide: the order of paths by their parts.
use mathlib.Core.List.{append_assoc}
use python_dvc.Base.{
  ◌<◌, ◌≡◌, refl, ap, Bool, true, false, List, [], ◌∷◌, ◌++◌, ◌↔◌, String, length, take, arith, sym,
  ◌∙◌, parts_eq, Bool-cases, inl, inr, length-append, ◌⊎◌,
}
use python_dvc.PathInfo.Defs.{
  Platform, Info, local_path, remote_path, parts_isin, isin, eq, overlaps, class_of, path_parts,
  Url, http_url_info, BaseParts, UrlClass, url_info,
}

-- `child` lies strictly below `parent`.
abbrev pub Below : List String → List String → Type 0
Below child parent = (s : String) × (rest : List String) × (child ≡ parent ++ s ∷ rest)

take-append : (n m : List String) → take (length n) (n ++ m) ≡ n
take-append [] m = refl
take-append (x ∷ n) m = ap (◌∷◌ x) (take-append n m)

Below-of_take :
    (self other : List String)
    → length other < length self
    → take (length other) self ≡ other
    → Below self other
Below-of_take [] other lt e = elim lt [ ]
Below-of_take (s ∷ self) [] lt e = (s, self, refl)
Below-of_take (s ∷ self) (o ∷ other) lt e =
    let (x, rest, p) = Below-of_take self other (omega arith) (cc) in (x, rest, cc)

-- The test on the parts decides exactly `Below`.
pub parts_isin_iff : (self other : List String) → (parts_isin self other ≡ true) ↔ Below self other
unfolding parts_isin
parts_isin_iff self other = (
  λ h. Below-of_take self other (ground arith) (ground arith),
  λ (s, rest, p).
      rw p (ground (arith, take-append other (s ∷ rest), length-append other (s ∷ rest))),
)

-- The type of a path object beside its parts: two objects are comparable only where these agree.
pub data Root : Type 0 where
  local_root : Root
  remote_root : UrlClass → BaseParts → Root

abbrev pub is_http : Info → Bool
is_http (remote_path http_url_info u) = true
is_http _ = false

module _ (platform : Platform) where
  abbrev pub root : Info → Root
  root (local_path ps) = local_root
  root (remote_path c u) = remote_root c u.base

  abbrev pub parts_of : Info → List String
  parts_of (local_path ps) = ps
  parts_of (remote_path c u) = path_parts platform u

  -- `isin` holds exactly when the two objects have the same class and base parts and the parts of the
  -- first are those of the second with at least one more behind them.
  pub isin_iff :
      (p q : Info)
      → (isin platform p q ≡ true) ↔ ((root p ≡ root q) × Below (parts_of p) (parts_of q))
  unfolding isin
  isin_iff (local_path ps) (local_path qs) =
      (λ h. (refl, (parts_isin_iff ps qs).0 h), λ h. (parts_isin_iff ps qs).1 h.1)
  isin_iff (remote_path c u) (remote_path d v) = (
    λ h. (ground arith, (parts_isin_iff _ _).0 (ground arith)),
    λ h. ground (arith, (parts_isin_iff _ _).1 h.1),
  )
  isin_iff (local_path ps) (remote_path c u) = (λ h. cc, λ h. cc h.0)
  isin_iff (remote_path c u) (local_path ps) = (λ h. cc, λ h. cc h.0)

  eq_comm_url :
      (c d : UrlClass) (u v : Url)
      → eq platform (remote_path c u) (remote_path d v)
        ≡ eq platform (remote_path d v) (remote_path c u)
  unfolding eq
  eq_comm_url url_info url_info u v = ground arith
  eq_comm_url _ _ u v = ground arith

  eq_local_remote :
      (c : UrlClass) (u : Url) (ps : List String)
      → eq platform (remote_path c u) (local_path ps) ≡ false
  unfolding eq
  eq_local_remote url_info u ps = refl
  eq_local_remote _ u ps = refl

  eq_comm : (p q : Info) → eq platform p q ≡ eq platform q p
  eq_comm (remote_path c u) (remote_path d v) = eq_comm_url c d u v
  eq_comm (local_path ps) (local_path qs) = unfold eq in ground arith
  eq_comm (local_path ps) (remote_path c u) = unfold eq in rw (eq_local_remote c u ps)
  eq_comm (remote_path c u) (local_path ps) = unfold eq in rw (eq_local_remote c u ps)

  -- `overlaps` does not depend on the order of its two path objects.
  pub overlaps_comm : (p q : Info) → overlaps platform p q ≡ overlaps platform q p
  unfolding overlaps
  overlaps_comm p q = ground (arith, eq_comm p q)

  eq_refl : (p : Info) → eq platform p p ≡ true
  unfolding eq
  eq_refl (local_path ps) = ground arith
  eq_refl (remote_path http_url_info u) = ground arith
  eq_refl (remote_path _ u) = ground arith

  pub overlaps_refl : (p : Info) → overlaps platform p p ≡ true
  unfolding overlaps
  overlaps_refl p = ground (arith, eq_refl p)

  -- A path inside a second one that is inside a third is inside the third.
  pub isin_trans :
      (p q r : Info)
      → isin platform p q ≡ true
      → isin platform q r ≡ true
      → isin platform p r ≡ true
  isin_trans p q r h k =
      let (same, (s, rest, e)) = (isin_iff p q).0 h in
      let (same', (t, rest', e')) = (isin_iff q r).0 k in
      (isin_iff p r).1 (same ∙ same', (t, rest' ++ s ∷ rest, e ∙ rw (e', append_assoc)))

  -- The parts of one path begin with those of the other.
  abbrev pub Comparable : Info → Info → Type 0
  Comparable p q =
      (root p ≡ root q)
      × (Below (parts_of p) (parts_of q)
          ⊎ ((parts_of p ≡ parts_of q) ⊎ Below (parts_of q) (parts_of p)))

  eq_iff_url :
      (c d : UrlClass) (u v : Url)
      → is_http (remote_path c u) ≡ false
      → (eq platform (remote_path c u) (remote_path d v) ≡ true) ↔ (
          (remote_root c u.base ≡ remote_root d v.base)
          × (path_parts platform u ≡ path_parts platform v))
  unfolding eq
  eq_iff_url url_info d u v h = (λ k. (ground arith, ground arith), λ k. ground arith)
  eq_iff_url http_url_info d u v h = cc
  eq_iff_url _ d u v h = (λ k. (ground arith, ground arith), λ k. ground arith)

  eq_iff_path :
      (p q : Info)
      → is_http p ≡ false
      → (eq platform p q ≡ true) ↔ ((root p ≡ root q) × (parts_of p ≡ parts_of q))
  eq_iff_path (remote_path c u) (remote_path d v) h = eq_iff_url c d u v h
  eq_iff_path (remote_path c u) (local_path ps) h =
      rw (eq_local_remote c u ps) (λ k. cc, λ k. cc k.0)
  eq_iff_path (local_path ps) (remote_path c u) h = unfold eq in (λ k. cc, λ k. cc k.0)
  eq_iff_path (local_path ps) (local_path qs) h =
      unfold eq in (λ k. (refl, ground arith), λ k. ground arith)

  class_of-root : (p q : Info) → root p ≡ root q → class_of p ≡ class_of q
  class_of-root p q h = ground arith

  -- For a first path object of any class but HTTPURLInfo, `overlaps` holds exactly when the two objects
  -- have the same class and base parts and the parts of one begin with the parts of the other.
  pub overlaps_iff :
      (p q : Info) → is_http p ≡ false → (overlaps platform p q ≡ true) ↔ Comparable p q
  unfolding overlaps
  overlaps_iff p q h = (
    λ k. sound (Bool-cases (eq platform p q)) (Bool-cases (isin platform p q)) k,
    λ (same, k). elim k [
      | inl b ↦ ground (arith, class_of-root p q same, (isin_iff p q).1 (same, b))
      | inr (inl e) ↦ ground (arith, class_of-root p q same, (eq_iff_path p q h).1 (same, e))
      | inr (inr b) ↦ ground (arith, class_of-root p q same, (isin_iff q p).1 (sym same, b))
    ],
  )
    where
      sound :
          ((eq platform p q ≡ true) ⊎ (eq platform p q ≡ false))
          → ((isin platform p q ≡ true) ⊎ (isin platform p q ≡ false))
          → overlaps platform p q ≡ true
          → Comparable p q
      sound (inl e) i k = let (same, parts) = (eq_iff_path p q h).0 e in (same, inr (inl parts))
      sound (inr e) (inl i) k = let (same, b) = (isin_iff p q).0 i in (same, inl b)
      sound (inr e) (inr i) k =
          let (same, b) = (isin_iff q p).0 (ground arith) in (sym same, inr (inr b))
