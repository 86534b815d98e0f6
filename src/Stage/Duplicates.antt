-- ===== src/Stage/Duplicates.antt =====
-- dvc/stage/utils.py: the two checks of the paths pass where they are different.
use python_dvc.Base.{
  ℕ, ◌+◌, ◌≤◌, ◌≡◌, refl, sym, ap, ◌∙◌, Bool, true, false, not, ◌&&◌, ◌||◌, Option, none, some,
  List, [], ◌∷◌, ◌++◌, All, string_eq, is_some, Eq, ◌==◌, ==_iff, contains, ltb, Bool-cases, inl,
  inr, arith,
}
use mathlib.Core.Path.{ap₂}
use python_dvc.Base.Dict.{Dict, get, get_or, put, has, get-put}
use python_dvc.Base.Result.{ok, err, is_ok}
use python_dvc.Stage.Create.{
  CreateFailure, circular_dependency, argument_duplication, common, check_circular_dependency,
  check_duplicated_arguments, Edge, paths, counter, duplicated,
}

more_than_one : (n : ℕ) → 1 ≤ n → ltb 1 (n + 1) ≡ true
more_than_one n h = ground arith

or_false : (b : Bool) → (b || false) ≡ b
or_false b = ground arith

or_true : (b : Bool) → (b || true) ≡ true
or_true b = ground arith

twice : (b : Bool) → not (not b) ≡ b
twice b = ground arith

raised-is_ok :
    {P : Type 0} (found : Option P) (failure : P → CreateFailure P)
    → is_ok {Ret = Unit {0}} (elim found [ none ↦ ok tt | some p ↦ err (failure p) ])
      ≡ not (is_some found)
raised-is_ok none failure = refl
raised-is_ok (some p) failure = refl

paths-++ : {P : Type 0} (ds os : List (Edge P)) → paths (ds ++ os) ≡ paths ds ++ paths os
paths-++ [] os = refl
paths-++ (d ∷ ds) os = ap (λ ps. d.path_info ∷ ps) (paths-++ ds os)

and_false : (b : Bool) → (b && false) ≡ false
and_false b = ground arith

bools : (d c a : Bool) → ((d || c) || not a) ≡ (d || not (not c && a))
bools d c a = ground arith

module _ {P : Type 0} ⦃e : Eq P⦄ where
  -- Each path differs from the ones before.
  abbrev pub all_new : List P → List P → Bool
  all_new seen [] = true
  all_new seen (p ∷ ps) = not (contains seen p) && all_new (p ∷ seen) ps

  -- The counts are those of the paths that were seen, each at least one.
  abbrev AreCounts : Dict P ℕ → Type 0
  AreCounts = All (λ c. 1 ≤ c.1)

  counted :
      (counts : Dict P ℕ) (p : P)
      → AreCounts counts
      → is_some (duplicated (put counts p (get_or counts p 0 + 1)))
        ≡ (is_some (duplicated counts) || has counts p)
  unfolding put get
  counted [] p h = refl
  counted ((q, n) ∷ counts) p h = elim (Bool-cases (p == q)) [
    | inl same ↦ rw (get_or, get, same) (rw (more_than_one n h.0) (sym (or_true _)))
    | inr other ↦
        rw (get_or, get, other)
          (elim (Bool-cases (ltb 1 n)) [
            | inl many ↦ rw many refl
            | inr once ↦ rw once (counted counts p h.1)
          ])
  ]

  put-AreCounts :
      (counts : Dict P ℕ) (p : P) (n : ℕ) → AreCounts counts → 1 ≤ n → AreCounts (put counts p n)
  unfolding put
  put-AreCounts [] p n h pos = (pos, tt)
  put-AreCounts ((q, m) ∷ counts) p n h pos = elim (Bool-cases (p == q)) [
    | inl same ↦ rw same (pos, h.1)
    | inr other ↦ rw other (h.0, put-AreCounts counts p n h.1 pos)
  ]

  has-put :
      (counts : Dict P ℕ) (p q : P) (n : ℕ) → has (put counts p n) q ≡ (q == p || has counts q)
  has-put counts p q n = elim (Bool-cases (q == p)) [
    | inl same ↦ rw (get-put counts p q n, same) refl
    | inr other ↦ rw (get-put counts p q n, other) refl
  ]

  counter-duplicated :
      (ps : List P) (counts : Dict P ℕ) (seen : List P)
      → AreCounts counts
      → ((q : P) → has counts q ≡ contains seen q)
      → is_some (duplicated (counter counts ps))
        ≡ (is_some (duplicated counts) || not (all_new seen ps))
  unfolding counter
  counter-duplicated [] counts seen h same = sym (or_false _)
  counter-duplicated (p ∷ ps) counts seen h same = do
    let n = get_or counts p 0 + 1
    let same' = λ (q : P). has-put counts p q n ∙ ap (λ b. q == p || b) (same q)
    counter-duplicated ps (put counts p n) (p ∷ seen) (put-AreCounts counts p n h (omega arith))
          same'
        ∙ rw (counted counts p h, same p)
            (bools (is_some (duplicated counts)) (contains seen p) (all_new (p ∷ seen) ps))

  contains-++ : (ds os : List P) (p : P) → contains os p ≡ true → contains (ds ++ os) p ≡ true
  contains-++ [] os p h = h
  contains-++ (d ∷ ds) os p h = rw (contains-++ ds os p h) (or_true (p == d))

  -- A path that was seen before is not new.
  seen_again :
      (p : P) (ps seen : List P)
      → contains seen p ≡ true
      → contains ps p ≡ true
      → all_new seen ps ≡ false
  seen_again p [] seen before there = cc
  seen_again p (q ∷ ps) seen before there = elim (Bool-cases (p == q)) [
    | inl same ↦ rw (ap (contains seen) (sym ((==_iff p q).0 same)) ∙ before) refl
    | inr other ↦
        rw (seen_again p ps (q ∷ seen) (rw (other, before) refl) (rw other at there))
          (and_false (not (contains seen q)))
  ]

  common_again :
      (ds os seen : List P) → is_some (common ds os) ≡ true → all_new seen (ds ++ os) ≡ false
  common_again [] os seen h = cc
  common_again (d ∷ ds) os seen h = elim (Bool-cases (contains os d)) [
    | inl both ↦
        rw
          (seen_again d (ds ++ os) (d ∷ seen) (rw ((==_iff d d).1 refl) refl)
            (contains-++ ds os d both))
          (and_false (not (contains seen d)))
    | inr only ↦
        rw (common_again ds os (d ∷ seen) (rw only at h)) (and_false (not (contains seen d)))
  ]

  circular-is_ok :
      (deps outs : List (Edge P))
      → is_ok (check_circular_dependency deps outs)
        ≡ not (is_some (common (paths deps) (paths outs)))
  unfolding check_circular_dependency
  circular-is_ok deps outs = raised-is_ok (common (paths deps) (paths outs)) circular_dependency

  duplicated-is_ok :
      (deps outs : List (Edge P))
      → is_ok (check_duplicated_arguments deps outs)
        ≡ not (is_some (duplicated (counter [] (paths (deps ++ outs)))))
  unfolding check_duplicated_arguments
  duplicated-is_ok deps outs =
      raised-is_ok (duplicated (counter [] (paths (deps ++ outs)))) argument_duplication

  -- Both checks pass exactly where each path is new.
  pub checks-is_ok :
      (deps outs : List (Edge P))
      → (is_ok (check_circular_dependency deps outs)
          && is_ok (check_duplicated_arguments deps outs))
        ≡ all_new [] (paths (deps ++ outs))
  checks-is_ok deps outs =
      ap₂ ◌&&◌ (circular-is_ok deps outs) (
        duplicated-is_ok deps outs
        ∙ ap not (counter-duplicated (paths (deps ++ outs)) [] [] tt (unfold get in λ q. refl)))
      ∙ elim (Bool-cases (is_some (common (paths deps) (paths outs)))) [
        | inl both ↦ rw both (
            sym (
              ap (all_new []) (paths-++ deps outs)
              ∙ common_again (paths deps) (paths outs) [] both))
        | inr apart ↦ rw apart (twice (all_new [] (paths (deps ++ outs))))
      ]
