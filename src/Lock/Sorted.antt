-- ===== src/Lock/Sorted.antt =====
-- dvc/stage/serialize.py: what stands in the sorted lists and in the dicts that are made of them.
use python_dvc.Base.{
  String, ◌≡◌, refl, sym, ap, ◌∙◌, Bool, true, false, Option, none, some, List, [], ◌∷◌, In,
  is_some, if◌then◌else◌, Bool-cases, Option-cases, ◌⊎◌, inl, inr, arith, ◌==◌, ==_iff, contains,
  string_eq,
}
use python_dvc.Base.Dict.{Dict, keys, get, put, get-put}
use python_dvc.Output.HashInfo.{field_eq}
use python_dvc.Lock.Defs.{string_leb, insert_sorted, sort_by, pick, sorted_keys}

module _ {A : Type 0} (key : A → String) where
  insert_sorted-In : (a y : A) (xs : List A) → (y ≡ a) ⊎ In y xs → In y (insert_sorted key a xs)
  unfolding insert_sorted
  insert_sorted-In a y [] m = m
  insert_sorted-In a y (x ∷ xs) m = elim (Bool-cases (string_leb (key a) (key x))) [
    | inl front ↦ rw front m
    | inr behind ↦ rw behind (elim m [
      | inl here ↦ inr (insert_sorted-In a y xs (inl here))
      | inr (inl here) ↦ inl here
      | inr (inr there) ↦ inr (insert_sorted-In a y xs (inr there))
    ])
  ]

  In-insert_sorted : (a y : A) (xs : List A) → In y (insert_sorted key a xs) → (y ≡ a) ⊎ In y xs
  unfolding insert_sorted
  In-insert_sorted a y [] m = m
  In-insert_sorted a y (x ∷ xs) m = elim (Bool-cases (string_leb (key a) (key x))) [
    | inl front ↦ rw front at m
    | inr behind ↦ elim (rw behind at m) [
      | inl here ↦ inr (inl here)
      | inr there ↦ elim (In-insert_sorted a y xs there) [
        | inl here ↦ inl here
        | inr later ↦ inr (inr later)
      ]
    ]
  ]

  pub sort_by-In : (y : A) (xs : List A) → In y xs → In y (sort_by key xs)
  unfolding sort_by
  sort_by-In y [] m = m
  sort_by-In y (x ∷ xs) (inl here) = insert_sorted-In x y (sort_by key xs) (inl here)
  sort_by-In y (x ∷ xs) (inr there) =
      insert_sorted-In x y (sort_by key xs) (inr (sort_by-In y xs there))

  pub In-sort_by : (y : A) (xs : List A) → In y (sort_by key xs) → In y xs
  unfolding sort_by
  In-sort_by y [] m = m
  In-sort_by y (x ∷ xs) m = elim (In-insert_sorted x y (sort_by key xs) m) [
    | inl here ↦ inl here
    | inr there ↦ inr (In-sort_by y xs there)
  ]

contains-In : (xs : List String) (k : String) → contains xs k ≡ true → In k xs
contains-In [] k h = cc
contains-In (x ∷ xs) k h = elim (Bool-cases (k == x)) [
  | inl same ↦ inl ((==_iff k x).0 same)
  | inr other ↦ inr (contains-In xs k (ground arith))
]

In-contains : (xs : List String) (k : String) → In k xs → contains xs k ≡ true
In-contains [] k m = elim m [ ]
In-contains (x ∷ xs) k (inl here) = ground (arith, ==_iff k x)
In-contains (x ∷ xs) k (inr there) = ground (arith, In-contains xs k there)

-- Where the members of two lists are the same, `contains` is.
pub contains_sorted :
    (xs : List String) (k : String) → contains (sort_by (λ s. s) xs) k ≡ contains xs k
contains_sorted xs k = elim (Bool-cases (contains xs k)) [
  | inl m ↦ In-contains _ k (sort_by-In (λ s. s) k xs (contains-In xs k m)) ∙ sym m
  | inr away ↦ elim (Bool-cases (contains (sort_by (λ s. s) xs) k)) [
    | inl m ↦
        let back = In-contains xs k (In-sort_by (λ s. s) k xs (contains-In _ k m)) in ground arith
    | inr away' ↦ away' ∙ sym away
  ]
]

module _ {V : Type 0} where
  -- The value of the first dict, or else that of the second
  abbrev pub or_else : Option V → Option V → Option V
  or_else (some v) w = some v
  or_else none w = w

  pick_without :
      (values : Dict String V) (p : String) (ps : List String) (info : Dict String V)
      → get values p ≡ none
      → pick values (p ∷ ps) info ≡ pick values ps info
  unfolding pick
  pick_without values p ps info e = rw (pick, e) refl

  pick_with :
      (values : Dict String V) (p : String) (ps : List String) (info : Dict String V) (v : V)
      → get values p ≡ some v
      → pick values (p ∷ ps) info ≡ pick values ps (put info p v)
  unfolding pick
  pick_with values p ps info v e = rw (pick, e) refl

  either_none : (b : Bool) (o : Option V) → (if b then o else o) ≡ o
  either_none true o = refl
  either_none false o = refl

  either_some : (b : Bool) (v : V) → (if b then some v else some v) ≡ some v
  either_some true v = refl
  either_some false v = refl

  pub get-pick :
      (values : Dict String V) (ps : List String) (info : Dict String V) (k : String)
      → get (pick values ps info) k
        ≡ (if contains ps k then or_else (get values k) (get info k) else get info k)
  get-pick values [] info k = unfold pick in refl
  get-pick values (p ∷ ps) info k = elim (Option-cases (get values p)) [
    | inl e ↦
        ap (λ d. get d k) (pick_without values p ps info e)
        ∙ get-pick values ps info k
        ∙ elim (Bool-cases (k == p)) [
          | inl same ↦
              let none_here = ap (get values) ((==_iff k p).0 same) ∙ e in
              rw (same, none_here) (either_none (contains ps k) (get info k))
          | inr other ↦ rw other refl
        ]
    | inr (v, e) ↦
        ap (λ d. get d k) (pick_with values p ps info v e)
        ∙ get-pick values ps (put info p v) k
        ∙ elim (Bool-cases (k == p)) [
          | inl same ↦
              let here = ap (get values) ((==_iff k p).0 same) ∙ e in
              rw (get-put info p k v, same, here) (either_some (contains ps k) v)
          | inr other ↦ rw (get-put info p k v, other) refl
        ]
  ]

  contains-keys : (d : Dict String V) (k : String) → contains (keys d) k ≡ is_some (get d k)
  unfolding get
  contains-keys [] k = refl
  contains-keys ((j, v) ∷ d) k = ground (arith, contains-keys d k)

  -- A dict that is written in the order of its sorted keys has the values it had.
  pub get-pick_sorted :
      (d : Dict String V) (k : String) → get (pick d (sorted_keys d) []) k ≡ get d k
  unfolding get
  get-pick_sorted d k = get-pick d (sorted_keys d) [] k ∙ elim (Option-cases (get d k)) [
    | inl e ↦ rw e (either_none (contains (sorted_keys d) k) none)
    | inr (v, e) ↦ rw (e, contains_sorted (keys d) k ∙ contains-keys d k ∙ ap is_some e) refl
  ]

  -- What is picked depends on the values only.
  pub pick-cong :
      (d c : Dict String V) (ps : List String) (info : Dict String V)
      → ((k : String) → get d k ≡ get c k)
      → pick d ps info ≡ pick c ps info
  pick-cong d c [] info same = unfold pick in refl
  pick-cong d c (p ∷ ps) info same = elim (Option-cases (get c p)) [
    | inl e ↦
        pick_without d p ps info (same p ∙ e)
        ∙ pick-cong d c ps info same
        ∙ sym (pick_without c p ps info e)
    | inr (v, e) ↦
        pick_with d p ps info v (same p ∙ e)
        ∙ pick-cong d c ps (put info p v) same
        ∙ sym (pick_with c p ps info v e)
  ]
