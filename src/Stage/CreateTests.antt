-- ===== src/Stage/CreateTests.antt =====
-- The creation of a stage with an external output, and of one that has its output for a dependency.
use python_dvc.Base.{
  String, ◌≡◌, refl, true, false, not, ◌&&◌, ◌||◌, [], ◌∷◌, ◌++◌, any, contains, string_eq,
}
use python_dvc.Base.Result.{err, is_ok}
use python_dvc.Stage.Create.{
  Disk, Edge, circular_dependency, external_outputs, create_stage, is_external, paths,
}
use python_dvc.Stage.Duplicates.{all_new}
use python_dvc.Stage.Created.{path_fits, create_stage-is_ok}

abbrev disk : Disk
disk = record {
  abspath = λ p. p;
  dirname = λ p. "/repo";
  realpath = λ p. p;
  exists = λ p. true;
  isdir = λ p. true;
  path_isin = λ p q. false;
  is_valid_filename = λ p. contains ("dvc.yaml" ∷ []) p;
  root_dir = "/repo";
}

abbrev local_edge : String → Edge String
local_edge p = record { path_info = p; is_in_repo = true; is_remote = false }

abbrev external_edge : String → Edge String
external_edge p = record { path_info = p; is_in_repo = false; is_remote = false }

circular :
    create_stage disk "/repo" "dvc.yaml" false (local_edge "data" ∷ []) (local_edge "data" ∷ [])
    ≡ err (circular_dependency "data")
unfolding create_stage string_eq
circular = refl

external :
    create_stage disk "/repo" "dvc.yaml" false
      (local_edge "data" ∷ [])
      (external_edge "/tmp/x" ∷ [])
    ≡ err (external_outputs ("/tmp/x" ∷ []))
unfolding create_stage string_eq
external = refl

create_stage-is_ok_example :
    is_ok (
      create_stage disk "/repo" "dvc.yaml" true
        (local_edge "data" ∷ [])
        (external_edge "/tmp/x" ∷ []))
    ≡ (disk.is_valid_filename (disk.abspath "dvc.yaml")
        && (path_fits disk (disk.abspath "/repo")
            && (path_fits disk (disk.dirname (disk.abspath "dvc.yaml"))
                && ((true || not (any is_external (external_edge "/tmp/x" ∷ [])))
                    && all_new []
                        (paths ((local_edge "data" ∷ []) ++ (external_edge "/tmp/x" ∷ [])))))))
create_stage-is_ok_example =
    create_stage-is_ok disk "/repo" "dvc.yaml" true (local_edge "data" ∷ [])
      (external_edge "/tmp/x" ∷ [])
