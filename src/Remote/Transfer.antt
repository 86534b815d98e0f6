-- ===== src/Remote/Transfer.antt =====
-- dvc/remote/base.py: the plans of a transfer and `_process`, by `push` and by `pull`. What an upload or a
-- download of one file does is a parameter; a future is the value or the exception of its call.
use Prim.Native.Nat.{ℕ, ◌+◌}
use python_dvc.Base.{
  String, Bool, true, false, List, [], ◌∷◌, ◌++◌, ◌==◌, string_eq, nat_eq, contains, any, length,
  if◌then◌else◌,
}
use python_dvc.Base.Dict.{Dict, get_or, values}
use python_dvc.Base.Result.{Result, ok, err, ◌>>=◌}
use python_dvc.Remote.Index.{Table, update, clear}
use python_dvc.Remote.Status.{
  Status, status_ok, status_missing, status_new, status_deleted, StatusInfo,
}

-- What one call of `tree.upload` or `tree.download` does: it returns, it raises, or it raises an OSError
-- because no file descriptors are left.
pub data Attempt : Type 0 where
  done raised out_of_descriptors : Attempt

pub data OsError : Type 0 where
  no_descriptors : OsError

abbrev pub Future : Type 0
Future = Result OsError ℕ

pub data TransferError : Type 0 where
  os_error : TransferError
  upload_error download_error : ℕ → TransferError

-- `_log_exceptions`
unfoldable pub log_exceptions : Attempt → Future
log_exceptions done = ok 0
log_exceptions raised = ok 1
log_exceptions out_of_descriptors = err no_descriptors

pub record Plan : Type 0 where
  pub from_info : String
  pub to_info : String
  pub name : String
  pub hash : String

unfoldable pub same_status : Status → Status → Bool
same_status status_ok status_ok = true
same_status status_missing status_missing = true
same_status status_new status_new = true
same_status status_deleted status_deleted = true
same_status _ _ = false

-- `cache_path` and `remote_path` are `hash_to_path_info` of the local and the remote tree.
module _ (cache_path remote_path : String → String) where
  abbrev pub plan_entry : Bool → String → String → Plan
  plan_entry true hash name = record {
    from_info = remote_path hash;
    to_info = cache_path hash;
    name = name;
    hash = hash;
  }
  plan_entry false hash name = record {
    from_info = cache_path hash;
    to_info = remote_path hash;
    name = name;
    hash = hash;
  }

  -- `_get_plans`: the plans and the missing files
  unfoldable pub get_plans : Bool → Dict String (String × Status) → Status → List Plan × List String
  unfolding same_status
  get_plans download [] wanted = ([], [])
  get_plans download ((md5, (name, status)) ∷ info) wanted =
      let (plans, missing) = get_plans download info wanted in
      if same_status status wanted
      then (plan_entry download md5 name ∷ plans, missing)
      else if same_status status status_missing
      then (plans, md5 ∷ missing)
      else (plans, missing)

-- `sum(...)` over results
unfoldable pub sum_results : List Future → Future
sum_results [] = ok 0
sum_results (r ∷ rs) = do n ← r; m ← sum_results rs; ok (n + m)

-- `wait_futures`
unfoldable pub wait_futures : Dict String Future → List String → List Future
wait_futures [] contents = []
wait_futures ((h, f) ∷ futures) contents =
    let rest = wait_futures futures contents in if contains contents h then f ∷ rest else rest

module _ (call : String → String → String → Attempt) where
  unfoldable pub run_plan : Plan → Future
  unfolding log_exceptions
  run_plan p = log_exceptions (call p.from_info p.to_info p.name)

  -- `file_futures`: the plans come from a dict, so that each hash stands once.
  unfoldable pub submit_files : List Plan → Dict String Future
  unfolding run_plan
  submit_files [] = []
  submit_files (p ∷ plans) = (p.hash, run_plan p) ∷ submit_files plans

  -- `_dir_upload`: the futures of the files are awaited in the order of the plan.
  unfoldable pub dir_upload : List Future → Plan → Future
  unfolding run_plan
  dir_upload [] p = run_plan p
  dir_upload (f ∷ futures) p =
      let rest = dir_upload futures p in do n ← f; if n == 0 then rest else ok 1

  -- `dir_futures`: a directory with a missing file is skipped.
  unfoldable pub submit_dirs :
      Dict String (List String) → List String → Dict String Future → List Plan → Dict String Future
  unfolding wait_futures dir_upload
  submit_dirs dir_contents missing file_futures [] = []
  submit_dirs dir_contents missing file_futures (p ∷ plans) =
      let rest = submit_dirs dir_contents missing file_futures plans in
      let contents = get_or dir_contents p.hash [] in
      if any (contains contents) missing
      then rest
      else (p.hash, dir_upload (wait_futures file_futures contents) p) ∷ rest

  unfoldable pub run_plans : List Plan → List Future
  unfolding run_plan
  run_plans [] = []
  run_plans (p ∷ plans) = run_plan p ∷ run_plans plans

-- The index after the successfully pushed directories.
unfoldable pub index_pushed : Dict String (List String) → Dict String Future → Table → Table
index_pushed dir_contents [] rows = rows
index_pushed dir_contents ((d, err e) ∷ futures) rows = index_pushed dir_contents futures rows
index_pushed dir_contents ((d, ok n) ∷ futures) rows =
    index_pushed dir_contents futures
      (if n == 0 then update rows (d ∷ []) (get_or dir_contents d []) else rows)

-- The end of `_process`, from the sum of the results.
abbrev pub finish_push :
    Dict String (List String)
    → Dict String Future
    → ℕ
    → Table
    → Future
    → Result TransferError ℕ × Table
finish_push contents dir_futures total rows (err _) = (err os_error, rows)
finish_push contents dir_futures total rows (ok fails) =
    if fails == 0
    then (ok total, index_pushed contents dir_futures rows)
    else (err (upload_error fails), rows)

abbrev pub finish_pull : ℕ → Table → Future → Result TransferError ℕ × Table
finish_pull total rows (err _) = (err os_error, rows)
finish_pull total rows (ok fails) =
    if fails == 0 then (ok total, rows) else (err (download_error fails), clear rows)

-- What `_process` returns or raises, and the index that it leaves.
module _ (call : String → String → String → Attempt)
    (cache_path remote_path : String → String) where
  abbrev pub dir_plans : StatusInfo → List Plan
  dir_plans info = (get_plans cache_path remote_path false info.dir_status status_new).0

  abbrev pub file_plans : StatusInfo → List Plan
  file_plans info = (get_plans cache_path remote_path false info.file_status status_new).0

  abbrev pub missing_files : StatusInfo → List String
  missing_files info = (get_plans cache_path remote_path false info.file_status status_new).1

  unfoldable pub file_futures : StatusInfo → Dict String Future
  unfolding get_plans submit_files
  file_futures info = submit_files call (file_plans info)

  unfoldable pub dir_futures : StatusInfo → Dict String Future
  unfolding get_plans submit_dirs file_futures
  dir_futures info =
      submit_dirs call info.dir_contents (missing_files info) (file_futures info) (dir_plans info)

  unfoldable pub push : StatusInfo → Table → Result TransferError ℕ × Table
  unfolding file_futures dir_futures sum_results index_pushed
  push info rows =
      let total = length (dir_plans info) + length (file_plans info) in
      if total == 0
      then (ok 0, rows)
      else finish_push info.dir_contents (dir_futures info) total rows
          (sum_results (values (file_futures info) ++ values (dir_futures info)))

  unfoldable pub pull : StatusInfo → Table → Result TransferError ℕ × Table
  unfolding get_plans run_plans sum_results
  pull info rows =
      let dirs = (get_plans cache_path remote_path true info.dir_status status_deleted).0 in
      let files = (get_plans cache_path remote_path true info.file_status status_deleted).0 in
      let total = length dirs + length files in
      if total == 0
      then (ok 0, rows)
      else finish_pull total rows (sum_results (run_plans call (dirs ++ files)))
