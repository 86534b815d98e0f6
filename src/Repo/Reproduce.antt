-- ===== src/Repo/Reproduce.antt =====
-- dvc/repo/reproduce.py: the order in which stages are reproduced, and the loop over them. The searches of
-- networkx are parameters.
use python_dvc.Base.{
  Bool, true, false, ◌&&◌, ◌||◌, List, [], ◌∷◌, ◌++◌, Eq, contains, if◌then◌else◌,
}
use python_dvc.Base.Result.{Result, ok, err, ◌>>=◌}

module _ {A : Type 0} ⦃e : Eq A⦄ where
  -- The loop at the end of `_get_pipeline`
  unfoldable pub without_repeats : List A → List A → List A
  without_repeats pipeline [] = pipeline
  without_repeats pipeline (stage ∷ stages) =
      let skip = without_repeats pipeline stages in
      let go = without_repeats (pipeline ++ stage ∷ []) stages in
      if contains pipeline stage then skip else go

  abbrev pub reversed : List A → List A
  reversed [] = []
  reversed (x ∷ xs) = reversed xs ++ x ∷ []

  -- `dfs_postorder_nodes` from a stage, in the graph and in the reversed graph
  module _ (postorder reverse_postorder : A → List A) where
    unfoldable pub all_pipelines : Bool → List A → List A
    all_pipelines downstream [] = []
    all_pipelines downstream (stage ∷ stages) =
        (if downstream then reversed (reverse_postorder stage) else postorder stage)
        ++ all_pipelines downstream stages

    -- `_get_pipeline`
    unfoldable pub get_pipeline : List A → Bool → Bool → List A
    unfolding without_repeats all_pipelines
    get_pipeline stages downstream single_item =
        without_repeats [] (if single_item then stages else all_pipelines downstream stages)

-- What `stage.reproduce` may raise
pub data StageFailure : Type 0 where
  checkpoint_killed raised : StageFailure

pub data ReproFailure (A : Type 0) : Type 0 where
  killed : ReproFailure A
  reproduction_error : A → ReproFailure A

-- The two lists `result` and `unchanged`
pub record Outcome (A : Type 0) : Type 0 where
  pub result : List A
  pub unchanged : List A

module _ {A : Type 0} where
  -- `except CheckpointKilledError: raise`, and the exception that takes the place of any other
  abbrev pub wrap : {B : Type 0} → A → Result StageFailure B → Result (ReproFailure A) B
  wrap stage (ok b) = ok b
  wrap stage (err checkpoint_killed) = err killed
  wrap stage (err raised) = err (reproduction_error stage)

  abbrev pub add_stage : Bool → A → Outcome A → Outcome A
  add_stage true stage o = record { result = stage ∷ o.result; unchanged = o.unchanged }
  add_stage false stage o = record { result = o.result; unchanged = stage ∷ o.unchanged }

module _ {A W : Type 0} where
  -- `reproduce force stage` is `stage.reproduce`: whether it returned the stage, and the state. `dump` writes
  -- the stage into its DVC-file.
  module _ (reproduce : Bool → A → W → Result StageFailure (Bool × W)) (dump : A → W → W) where
    -- `_reproduce_stage`
    unfoldable pub reproduce_stage : Bool → Bool → A → W → Result StageFailure (Bool × W)
    reproduce_stage dry force stage w = do
      (done, w') ← reproduce force stage w
      ok (done, if done then (if dry then w' else dump stage w') else w')

    -- The loop of `_reproduce_stages`
    unfoldable pub reproduce_stages :
        Bool → Bool → Bool → List A → W → Result (ReproFailure A) (Outcome A × W)
    unfolding reproduce_stage
    reproduce_stages dry force_downstream force [] w =
        ok (record { result = []; unchanged = [] }, w)
    reproduce_stages dry force_downstream force (stage ∷ stages) w = do
      (done, w') ← wrap stage (reproduce_stage dry force stage w)
      (rest, last) ←
          reproduce_stages dry force_downstream (force || (done && force_downstream)) stages w'
      ok (add_stage done stage rest, last)
