-- ===== src/Repo/Order.antt =====
-- dvc/repo/reproduce.py: `_get_pipeline` puts the dependencies of a stage before it.
use python_dvc.Base.{
  ◌≡◌, refl, Bool, true, false, ◌&&◌, ◌||◌, List, [], ◌∷◌, ◌++◌, Eq, contains, all, arith,
  Bool-cases, inl, inr, ==_iff,
}
use python_dvc.Repo.Reproduce.{without_repeats, all_pipelines, get_pipeline}

module _ {A : Type 0} ⦃e : Eq A⦄ (succs : A → List A) where
  -- Each stage of the list has its successors before it, or among those seen.
  abbrev pub ordered_from : List A → List A → Bool
  ordered_from seen [] = true
  ordered_from seen (x ∷ xs) = all (contains seen) (succs x) && ordered_from (x ∷ seen) xs

  abbrev Within : List A → List A → Type 0
  Within xs ys = (a : A) → contains xs a ≡ true → contains ys a ≡ true

  all-Within :
      (xs ys zs : List A) → Within xs ys → all (contains xs) zs ≡ true → all (contains ys) zs ≡ true
  all-Within xs ys [] s h = refl
  all-Within xs ys (z ∷ zs) s h = ground (arith, s z, all-Within xs ys zs s)

  Within-cons : (xs ys : List A) (x : A) → Within xs ys → Within (x ∷ xs) (x ∷ ys)
  Within-cons xs ys x s a h = ground (arith, s a)

  ordered_from-Within :
      (seen seen' xs : List A)
      → Within seen seen'
      → ordered_from seen xs ≡ true
      → ordered_from seen' xs ≡ true
  ordered_from-Within seen seen' [] s h = refl
  ordered_from-Within seen seen' (x ∷ xs) s h = ground (
    arith,
    all-Within seen seen' (succs x) s,
    ordered_from-Within (x ∷ seen) (x ∷ seen') xs (Within-cons seen seen' x s),
  )

  contains-append :
      (xs ys : List A) (a : A) → contains (xs ++ ys) a ≡ contains xs a || contains ys a
  contains-append [] ys a = refl
  contains-append (x ∷ xs) ys a = ground (arith, contains-append xs ys a)

  -- A list that is ordered goes on with a stage whose successors it has.
  ordered_from-append :
      (seen xs ys : List A)
      → ordered_from seen xs ≡ true
      → ordered_from (xs ++ seen) ys ≡ true
      → ordered_from seen (xs ++ ys) ≡ true
  ordered_from-append seen [] ys h k = k
  ordered_from-append seen (x ∷ xs) ys h k =
      let move : Within (x ∷ (xs ++ seen)) (xs ++ x ∷ seen) =
        λ a m. ground (arith, contains-append xs seen a, contains-append xs (x ∷ seen) a) in
      ground (
        arith,
        ordered_from-append (x ∷ seen) xs ys (ground arith)
            (ordered_from-Within (x ∷ (xs ++ seen)) (xs ++ x ∷ seen) ys move k),
      )

  module _ (postorder reverse_postorder : A → List A) where
    -- The loop keeps the order and makes no repeats.
    without_repeats_lem :
        (pipeline seen stages : List A)
        → Within seen pipeline
        → ordered_from [] pipeline ≡ true
        → ordered_from seen stages ≡ true
        → ordered_from [] (without_repeats pipeline stages) ≡ true
    unfolding without_repeats
    without_repeats_lem pipeline seen [] s p o = p
    without_repeats_lem pipeline seen (x ∷ xs) s p o =
        let before : all (contains seen) (succs x) ≡ true = ground arith in
        let later : ordered_from (x ∷ seen) xs ≡ true = ground arith in
        let known = all-Within seen pipeline (succs x) s before in
        elim (Bool-cases (contains pipeline x)) [
          | inl m ↦ rw m (
              without_repeats_lem pipeline (x ∷ seen) xs (λ a h. ground (arith, s a, ==_iff a x)) p
                later)
          | inr m ↦
              let longer : ordered_from [] (pipeline ++ x ∷ []) ≡ true =
                ordered_from-append [] pipeline (x ∷ []) p (
                  ground (
                    arith,
                    all-Within pipeline (pipeline ++ []) (succs x)
                        (λ a h. ground (arith, contains-append pipeline [] a)) known,
                  )) in
              rw m (
                without_repeats_lem (pipeline ++ x ∷ []) (x ∷ seen) xs
                  (λ a h. ground (arith, s a, contains-append pipeline (x ∷ []) a)) longer later)
        ]

    all_pipelines_lem :
        (stages : List A)
        → ((s : A) → ordered_from [] (postorder s) ≡ true)
        → ordered_from [] (all_pipelines postorder reverse_postorder false stages) ≡ true
    unfolding all_pipelines
    all_pipelines_lem [] law = refl
    all_pipelines_lem (s ∷ stages) law =
        ordered_from-append [] (postorder s)
          (all_pipelines postorder reverse_postorder false stages) (law s)
          (ordered_from-Within [] (postorder s ++ [])
            (all_pipelines postorder reverse_postorder false stages) (λ a h. cc)
            (all_pipelines_lem stages law))

    -- Where each search lists a stage behind its dependencies, the pipeline without `downstream` and
    -- `single_item` has each stage behind all its dependencies.
    pub get_pipeline_order :
        (stages : List A)
        → ((s : A) → ordered_from [] (postorder s) ≡ true)
        → ordered_from [] (get_pipeline postorder reverse_postorder stages false false) ≡ true
    unfolding get_pipeline
    get_pipeline_order stages law =
        without_repeats_lem [] [] (all_pipelines postorder reverse_postorder false stages)
          (λ a h. h) refl (all_pipelines_lem stages law)
