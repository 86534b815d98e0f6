-- ===== src/Lock/Params.antt =====
-- dvc/stage/serialize.py and dvc/dependency/param.py: the values of params are found under their file.
use python_dvc.Base.{
  String, ◌≡◌, refl, sym, ap, ◌∙◌, true, false, Option, none, some, List, [], ◌∷◌, map, In, is_some,
  is_empty, if◌then◌else◌, Bool-cases, Option-cases, ◌⊎◌, inl, inr, ◌==◌, ==_iff, string_eq,
}
use mathlib.Core.Path.{ap₂}
use python_dvc.Base.Dict.{Dict, get, put, get-put, get-remove}
use python_dvc.Lock.Defs.{
  ParamsItem, pick, sorted_keys, move_to_front, put_values, put_all_values, default_params_file,
  sort_by, serialize_params_values, fill_values, fill_params,
}
use python_dvc.Lock.Sorted.{sort_by-In, In-sort_by, get-pick_sorted, pick-cong}

some_injective : {A : Type 0} {a b : A} → ◌≡◌ {A = Option A} (some a) (some b) → a ≡ b
some_injective h = cc

none≢some : {A : Type 0} {a : A} → ◌≡◌ {A = Option A} none (some a) → ⊥
none≢some h = cc

module _ {V : Type 0} where
  -- What is written of the values of a dependency
  abbrev pub written : ParamsItem V → Dict String V
  written p = pick p.info (sorted_keys p.info) []

  get-move_to_front :
      (d : Dict String (Dict String V)) (path k : String) → get (move_to_front d path) k ≡ get d k
  unfolding move_to_front get
  get-move_to_front d path k = go (get d path) refl
    where
      go : (o : Option (Dict String V)) → get d path ≡ o → get (move_to_front d path) k ≡ get d k
      go none e = rw (move_to_front, e) refl
      go (some kv) e =
          rw (move_to_front, e)
            (elim (Bool-cases (k == path)) [
              | inl same ↦ rw same (sym (ap (get d) ((==_iff k path).0 same) ∙ e))
              | inr other ↦ rw (other, get-remove d path k, other) refl
            ])

  get-put_values :
      (acc : Dict String (Dict String V)) (p : ParamsItem V) (k : String)
      → get (put_values acc p) k ≡ (
          if is_empty p.info
          then get acc k
          else if k == p.def_path
          then some (written p)
          else get acc k)
  unfolding put_values
  get-put_values acc p k = elim (Bool-cases (is_empty p.info)) [
    | inl blank ↦ rw blank refl
    | inr filled ↦ elim (Bool-cases (p.def_path == default_params_file)) [
      | inl default ↦
          rw (filled, default)
            (get-move_to_front (put acc p.def_path (written p)) p.def_path k
              ∙ get-put acc p.def_path k (written p))
      | inr other ↦ rw (filled, other) (get-put acc p.def_path k (written p))
    ]
  ]

  -- A dict of values that is found under a file stood there before, or was written for a dependency.
  put_all_values-source :
      (acc : Dict String (Dict String V)) (ps : List (ParamsItem V)) (k : String)
      {kv : Dict String V}
      → get (put_all_values acc ps) k ≡ some kv
      → (get acc k ≡ some kv)
        ⊎ ((j : ParamsItem V) × In j ps
            × (is_empty j.info ≡ false)
            × (j.def_path ≡ k)
            × (written j ≡ kv))
  unfolding put_all_values
  put_all_values-source acc [] k h = inl h
  put_all_values-source acc (p ∷ ps) k {kv} h =
      elim (put_all_values-source (put_values acc p) ps k h) [
        | inr (j, m, filled, at, same) ↦ inr (j, inr m, filled, at, same)
        | inl before ↦ elim (Bool-cases (is_empty p.info)) [
          | inl blank ↦ inl (rw (get-put_values acc p k, blank) at before)
          | inr filled ↦ elim (Bool-cases (k == p.def_path)) [
            | inl same ↦ inr (
              p,
              inl refl,
              filled,
              sym ((==_iff k p.def_path).0 same),
              some_injective (rw (get-put_values acc p k, filled, same) at before),
            )
            | inr other ↦ inl (rw (get-put_values acc p k, filled, other) at before)
          ]
        ]
      ]

  -- Whether the dependencies have one with values at the file.
  abbrev Fills : List (ParamsItem V) → String → Type 0
  Fills ps k = (j : ParamsItem V) × In j ps × (is_empty j.info ≡ false) × (j.def_path ≡ k)

  put_values-has :
      (acc : Dict String (Dict String V)) (p : ParamsItem V) (ps : List (ParamsItem V)) (k : String)
      → (is_some (get acc k) ≡ true) ⊎ Fills (p ∷ ps) k
      → (is_some (get (put_values acc p) k) ≡ true) ⊎ Fills ps k
  put_values-has acc p ps k (inr (j, inr m, filled, at)) = inr (j, m, filled, at)
  put_values-has acc p ps k (inr (j, inl same, filled, at)) =
      let filled' = ap (λ x. is_empty x.info) (sym same) ∙ filled in
      let key = (==_iff k p.def_path).1 (sym at ∙ ap (λ x. x.def_path) same) in
      inl (rw (get-put_values acc p k, filled', key) refl)
  put_values-has acc p ps k (inl h) = inl (
      rw (get-put_values acc p k) (elim (Bool-cases (is_empty p.info)) [
        | inl blank ↦ rw blank h
        | inr filled ↦ elim (Bool-cases (k == p.def_path)) [
          | inl same ↦ rw (filled, same) refl
          | inr other ↦ rw (filled, other) h
        ]
      ]))

  put_all_values-has :
      (acc : Dict String (Dict String V)) (ps : List (ParamsItem V)) (k : String)
      → (is_some (get acc k) ≡ true) ⊎ Fills ps k
      → is_some (get (put_all_values acc ps) k) ≡ true
  unfolding put_all_values
  put_all_values-has acc [] k (inl h) = h
  put_all_values-has acc [] k (inr (j, m, filled, at)) = elim m [ ]
  put_all_values-has acc (p ∷ ps) k h =
      put_all_values-has (put_values acc p) ps k (put_values-has acc p ps k h)

  -- Items with the same path are the same one.
  abbrev pub IsOnePerFile : List (ParamsItem V) → Type 0
  IsOnePerFile ps = (i j : ParamsItem V) → In i ps → In j ps → i.def_path ≡ j.def_path → i ≡ j

  abbrev pub blank_params : ParamsItem V → ParamsItem V
  blank_params p = record p { info = [] }

  same_empty :
      (d c : Dict String V)
      → ((k : String) → get d k ≡ get c k)
      → is_empty c ≡ false
      → is_empty d ≡ false
  unfolding get
  same_empty d [] same filled = cc
  same_empty ((j, w) ∷ d) c same filled = refl
  same_empty [] ((k, v) ∷ c) same filled = let e = rw ((==_iff k k).1 refl) at (same k) in cc

  empty_nil : (d : Dict String V) → is_empty d ≡ true → [] ≡ d
  empty_nil [] h = refl
  empty_nil (x ∷ d) h = cc

  -- What is found under a file was written for the dependency on it.
  found_written :
      (ps : List (ParamsItem V)) (p : ParamsItem V)
      → IsOnePerFile ps
      → In p ps
      → {kv : Dict String V} → get (serialize_params_values ps) p.def_path ≡ some kv
      → (is_empty p.info ≡ false) × (written p ≡ kv)
  unfolding serialize_params_values get
  found_written ps p one m {kv} h =
      elim (put_all_values-source [] (sort_by (λ i. i.def_path) ps) p.def_path h) [
        | inl before ↦ absurd (none≢some before)
        | inr (j, m', filled, at, same) ↦
            let it = one j p (In-sort_by (λ i. i.def_path) j ps m') m at in
            (ap (λ x. is_empty x.info) (sym it) ∙ filled, ap written (sym it) ∙ same)
      ]

  fill_written :
      (p : ParamsItem V) (kv : Dict String V)
      → p.info ≡ pick p.info p.params []
      → is_empty p.info ≡ false
      → written p ≡ kv
      → fill_values (blank_params p) (some kv) ≡ p
  unfolding fill_values
  fill_written p kv saved filled same = do
    let here = λ (k : String). ap (λ d. get d k) (sym same) ∙ get-pick_sorted p.info k
    rw (same_empty kv p.info here filled)
        (ap (λ d. record p { info = d }) (pick-cong kv p.info p.params [] here ∙ sym saved))

  -- The values that were saved from a file of params are filled in again.
  pub fill_values-written :
      (ps : List (ParamsItem V)) (p : ParamsItem V)
      → IsOnePerFile ps
      → In p ps
      → p.info ≡ pick p.info p.params []
      → fill_values (blank_params p) (get (serialize_params_values ps) p.def_path) ≡ p
  unfolding fill_values serialize_params_values
  fill_values-written ps p one m saved =
      elim (Option-cases (get (serialize_params_values ps) p.def_path)) [
        | inr (kv, e) ↦
            let f = found_written ps p one m e in
            ap (fill_values (blank_params p)) e ∙ fill_written p kv saved f.0 f.1
        | inl e ↦ ap (fill_values (blank_params p)) e ∙ elim (Bool-cases (is_empty p.info)) [
          | inl blank ↦ ap (λ d. record p { info = d }) (empty_nil p.info blank)
          | inr filled ↦
              let there =
                put_all_values-has [] (sort_by (λ i. i.def_path) ps) p.def_path
                  (inr (p, sort_by-In (λ i. i.def_path) p ps m, filled, refl)) in
              let missing = ap is_some e in cc
        ]
      ]

  -- All of them
  pub fill_params-written :
      (all ps : List (ParamsItem V))
      → IsOnePerFile all
      → ((p : ParamsItem V) → In p ps → In p all × (p.info ≡ pick p.info p.params []))
      → fill_params (serialize_params_values all) (map blank_params ps) ≡ ps
  unfolding fill_params
  fill_params-written all [] one h = refl
  fill_params-written all (p ∷ ps) one h =
      ap₂ (λ x xs. x ∷ xs) (fill_values-written all p one (h p (inl refl)).0 (h p (inl refl)).1)
        (fill_params-written all ps one (λ q m. h q (inr m)))
