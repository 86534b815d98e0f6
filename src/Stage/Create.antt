-- ===== src/Stage/Create.antt =====
-- dvc/stage/__init__.py (`create_stage`) and the checks of dvc/stage/utils.py. The outputs and dependencies
-- that are made of the arguments are given, a path of theirs is of any type whose equality is decided. What
-- os.path and the file system tell is the interface `Disk`.
use python_dvc.Base.{
  ℕ, ◌+◌, String, Bool, not, ◌||◌, Option, none, some, List, [], ◌∷◌, ◌++◌, map, Eq, ◌==◌, contains,
  ltb, string_eq, if◌then◌else◌,
}
use python_dvc.Base.Dict.{Dict, get_or, put}
use python_dvc.Base.Result.{Result, ok, err, ◌>>◌, guard}

pub record Disk : Type 0 where
  pub abspath : String → String
  pub dirname : String → String
  pub realpath : String → String
  pub exists : String → Bool
  pub isdir : String → Bool
  pub path_isin : String → String → Bool
  pub is_valid_filename : String → Bool
  pub root_dir : String

-- A dependency or an output, with what `_is_external` reads of it.
pub record Edge (P : Type 0) : Type 0 where
  pub path_info : P
  pub is_in_repo : Bool
  pub is_remote : Bool

pub data CreateFailure (P : Type 0) : Type 0 where
  bad_filename : CreateFailure P
  path_not_found : String → CreateFailure P
  path_not_directory : String → CreateFailure P
  path_outside : String → CreateFailure P
  external_outputs : List P → CreateFailure P
  circular_dependency : P → CreateFailure P
  argument_duplication : P → CreateFailure P

module _ {P : Type 0} where
  unfoldable pub check_stage_path : Disk → String → Result (CreateFailure P) (Unit {0})
  check_stage_path disk path = do
    let real_path = disk.realpath path
    guard (disk.exists real_path) (path_not_found path)
    guard (disk.isdir real_path) (path_not_directory path)
    let proj_dir = disk.realpath disk.root_dir
    guard (real_path == proj_dir || disk.path_isin real_path proj_dir) (path_outside path)

  abbrev pub is_external : Edge P → Bool
  is_external out = not (out.is_in_repo || out.is_remote)

  abbrev pub external_paths : List (Edge P) → List P
  external_paths [] = []
  external_paths (o ∷ outs) =
      let rest = external_paths outs in if is_external o then o.path_info ∷ rest else rest

  unfoldable pub check_no_externals : List (Edge P) → Result (CreateFailure P) (Unit {0})
  check_no_externals outs = elim (external_paths outs) [
    | [] ↦ ok tt
    | p ∷ ps ↦ err (external_outputs (p ∷ ps))
  ]

  abbrev pub paths : List (Edge P) → List P
  paths = map (λ e. e.path_info)

  -- The first path that occurs more than once
  abbrev pub duplicated : Dict P ℕ → Option P
  duplicated [] = none
  duplicated ((path, occurrence) ∷ counts) =
      let rest = duplicated counts in if ltb 1 occurrence then some path else rest

module _ {P : Type 0} ⦃e : Eq P⦄ where
  -- A path of the first list that the second has too; `pop` may give any of them.
  abbrev pub common : List P → List P → Option P
  common [] outs = none
  common (d ∷ deps) outs = let rest = common deps outs in if contains outs d then some d else rest

  unfoldable pub check_circular_dependency :
      List (Edge P) → List (Edge P) → Result (CreateFailure P) (Unit {0})
  check_circular_dependency deps outs = elim (common (paths deps) (paths outs)) [
    | none ↦ ok tt
    | some p ↦ err (circular_dependency p)
  ]

  -- `Counter(paths)`, from the counts that stand already
  unfoldable pub counter : Dict P ℕ → List P → Dict P ℕ
  counter counts [] = counts
  counter counts (p ∷ ps) = counter (put counts p (get_or counts p 0 + 1)) ps

  unfoldable pub check_duplicated_arguments :
      List (Edge P) → List (Edge P) → Result (CreateFailure P) (Unit {0})
  unfolding counter
  check_duplicated_arguments deps outs = elim (duplicated (counter [] (paths (deps ++ outs)))) [
    | none ↦ ok tt
    | some p ↦ err (argument_duplication p)
  ]

  unfoldable pub create_stage :
      Disk
      → String
      → String
      → Bool
      → List (Edge P)
      → List (Edge P)
      → Result (CreateFailure P) (List (Edge P) × List (Edge P))
  unfolding check_stage_path check_no_externals check_circular_dependency check_duplicated_arguments
  create_stage disk wdir path external deps outs = do
    let path' = disk.abspath path
    guard (disk.is_valid_filename path') bad_filename
    check_stage_path disk (disk.abspath wdir)
    check_stage_path disk (disk.dirname path')
    if external then ok tt else check_no_externals outs
    check_circular_dependency deps outs
    check_duplicated_arguments deps outs
    ok (deps, outs)
