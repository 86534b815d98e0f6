-- ===== src/Repo/Tests.antt =====
-- Runs of the pipeline of two stages: `true` uses the output of `false`.
use mathlib.Core.Bool.{Bool-discrete}
use python_dvc.Base.{ℕ, ◌≡◌, ◌++◌, refl, sym, Bool, true, false, ◌||◌, List, [], ◌∷◌, Eq, suc}
use python_dvc.Base.Result.{Result, ok}
use python_dvc.Repo.Reproduce.{StageFailure, Outcome, get_pipeline, reproduce_stages}
use python_dvc.Repo.Order.{ordered_from, get_pipeline_order}
use python_dvc.Repo.Force.{IsForced, reproduce_stages_split}

instance unfoldable bool_eq : Eq Bool
bool_eq = record { dec = Bool-discrete }

abbrev uses : Bool → List Bool
uses false = []
uses true = false ∷ []

abbrev search : Bool → List Bool
search false = false ∷ []
search true = false ∷ true ∷ []

abbrev search_back : Bool → List Bool
search_back false = true ∷ false ∷ []
search_back true = true ∷ []

search_order : (s : Bool) → ordered_from uses [] (search s) ≡ true
unfolding bool_eq
search_order false = refl
search_order true = refl

abbrev targets : List Bool
targets = true ∷ false ∷ []

get_pipeline_order_example :
    ordered_from uses [] (get_pipeline search search_back targets false false) ≡ true
get_pipeline_order_example = get_pipeline_order uses search search_back targets search_order

two_stages : get_pipeline search search_back targets false false ≡ false ∷ true ∷ []
unfolding get_pipeline bool_eq
two_stages = refl

-- Only the second stage changed. The state counts the stages written.
abbrev stage_reproduce : Bool → Bool → ℕ → Result StageFailure (Bool × ℕ)
stage_reproduce force stage w = ok (force || stage, w)

abbrev stage_dump : Bool → ℕ → ℕ
stage_dump stage w = suc w

done_first : {a b : Bool × ℕ} → ◌≡◌ {A = Result StageFailure (Bool × ℕ)} (ok a) (ok b) → a.0 ≡ b.0
done_first h = cc

stage_reproduce-IsForced : IsForced stage_reproduce stage_dump
stage_reproduce-IsForced stage w x e = sym (done_first e)

abbrev pipeline : List Bool
pipeline = false ∷ true ∷ false ∷ []

abbrev ran : Outcome Bool
ran = record { result = true ∷ false ∷ []; unchanged = false ∷ [] }

reproduce_stages_split_example : pipeline ≡ ran.unchanged ++ ran.result
reproduce_stages_split_example =
    reproduce_stages_split stage_reproduce stage_dump false pipeline 0 {x = (ran, 2)}
      stage_reproduce-IsForced (unfold reproduce_stages in refl)
