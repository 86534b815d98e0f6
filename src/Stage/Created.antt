-- ===== src/Stage/Created.antt =====
-- dvc/stage/__init__.py: when `create_stage` returns.
use python_dvc.Base.{
  String, ◌≡◌, refl, ap, ◌∙◌, Bool, true, false, not, ◌&&◌, ◌||◌, List, [], ◌∷◌, ◌++◌, any,
  is_empty, string_eq, Eq, ◌==◌, if◌then◌else◌, Bool-cases, inl, inr, arith,
}
use mathlib.Core.Path.{ap₂}
use python_dvc.Base.Result.{Result, ok, err, is_ok, is_ok-first, is_ok-guard, guard, ◌>>◌}
use python_dvc.Stage.Create.{
  Disk, CreateFailure, bad_filename, path_not_found, path_not_directory, path_outside,
  external_outputs, check_stage_path, check_no_externals, is_external, external_paths,
  check_circular_dependency, check_duplicated_arguments, create_stage, Edge, paths,
}
use python_dvc.Stage.Duplicates.{all_new, checks-is_ok}

and_true : (b : Bool) → (b && true) ≡ b
and_true b = ground arith

-- A stage may stand at the path: a directory that is there, the root of the repository or one inside it.
abbrev pub path_fits : Disk → String → Bool
path_fits disk path =
    let real_path = disk.realpath path in
    let proj_dir = disk.realpath disk.root_dir in
    disk.exists real_path
    && (disk.isdir real_path && (real_path == proj_dir || disk.path_isin real_path proj_dir))

check_stage_path-is_ok :
    (P : Type 0) (disk : Disk) (path : String)
    → is_ok (check_stage_path {P = P} disk path) ≡ path_fits disk path
unfolding check_stage_path
check_stage_path-is_ok P disk path =
    let real_path = disk.realpath path in
    let proj_dir = disk.realpath disk.root_dir in
    is_ok-first (guard {Exc = CreateFailure P} (disk.exists real_path) (path_not_found path)) _
    ∙ ap₂ ◌&&◌ (is_ok-guard {Exc = CreateFailure P} (disk.exists real_path) (path_not_found path)) (
        is_ok-first (guard {Exc = CreateFailure P} (disk.isdir real_path) (path_not_directory path))
          _
        ∙ ap₂ ◌&&◌
            (is_ok-guard {Exc = CreateFailure P} (disk.isdir real_path) (path_not_directory path))
            (is_ok-guard {Exc = CreateFailure P}
              (real_path == proj_dir || disk.path_isin real_path proj_dir) (path_outside path)))

module _ {P : Type 0} ⦃e : Eq P⦄ where
  external_paths-any :
      (outs : List (Edge P)) → is_empty (external_paths outs) ≡ not (any is_external outs)
  external_paths-any [] = refl
  external_paths-any (o ∷ outs) = elim (Bool-cases (is_external o)) [
    | inl out ↦ rw out refl
    | inr inside ↦ rw inside (external_paths-any outs)
  ]

  check_no_externals-is_ok :
      (outs : List (Edge P)) → is_ok (check_no_externals outs) ≡ not (any is_external outs)
  unfolding check_no_externals
  check_no_externals-is_ok outs = go (external_paths outs) ∙ external_paths-any outs
    where
      go :
          (ps : List P)
          → is_ok {Exc = CreateFailure P} {Ret = Unit {0}}
              (elim ps [ [] ↦ ok tt | p ∷ ps ↦ err (external_outputs (p ∷ ps)) ])
            ≡ is_empty ps
      go [] = refl
      go (p ∷ ps) = refl

  abbrev given :
      List (Edge P) → List (Edge P) → Result (CreateFailure P) (List (Edge P) × List (Edge P))
  given deps outs = ok (deps, outs)

  last :
      (deps outs : List (Edge P))
      → is_ok (
          check_circular_dependency deps outs
          >> (check_duplicated_arguments deps outs >> given deps outs))
        ≡ all_new [] (paths (deps ++ outs))
  last deps outs =
      is_ok-first (check_circular_dependency deps outs) _
      ∙ ap (λ b. is_ok (check_circular_dependency deps outs) && b)
          (is_ok-first (check_duplicated_arguments deps outs) _ ∙ and_true _)
      ∙ checks-is_ok deps outs

  -- A stage is created exactly where the name of its file is valid, its working directory and the directory of
  -- its file are directories at the root of the repository or inside it, its outputs are in the repository or
  -- on a remote, or external ones are allowed, and no two of its dependencies and outputs have the same path.
  pub create_stage-is_ok :
      (disk : Disk) (wdir path : String) (external : Bool) (deps outs : List (Edge P))
      → is_ok (create_stage disk wdir path external deps outs) ≡ (
          disk.is_valid_filename (disk.abspath path)
          && (path_fits disk (disk.abspath wdir)
              && (path_fits disk (disk.dirname (disk.abspath path))
                  && ((external || not (any is_external outs))
                      && all_new [] (paths (deps ++ outs))))))
  unfolding create_stage
  create_stage-is_ok disk wdir path external deps outs =
      is_ok-first
        (guard {Exc = CreateFailure P} (disk.is_valid_filename (disk.abspath path)) bad_filename) _
      ∙ ap₂ ◌&&◌
          (is_ok-guard {Exc = CreateFailure P} (disk.is_valid_filename (disk.abspath path))
            bad_filename)
          (is_ok-first (check_stage_path disk (disk.abspath wdir)) _
            ∙ ap₂ ◌&&◌ (check_stage_path-is_ok P disk (disk.abspath wdir)) (
                is_ok-first (check_stage_path disk (disk.dirname (disk.abspath path))) _
                ∙ ap₂ ◌&&◌ (check_stage_path-is_ok P disk (disk.dirname (disk.abspath path))) (
                    is_ok-first (if external then ok tt else check_no_externals outs) _
                    ∙ ap₂ ◌&&◌ (externals external) (last deps outs))))
    where
      externals :
          (b : Bool)
          → is_ok {Exc = CreateFailure P} {Ret = Unit {0}}
              (if b then ok tt else check_no_externals outs)
            ≡ (b || not (any is_external outs))
      externals true = refl
      externals false = check_no_externals-is_ok outs
