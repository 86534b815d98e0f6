-- ===== src/Remote/Tests.antt =====
-- Runs of the remote: two files of a directory, of which one is missing or fails.
use Prim.Native.Nat.{ℕ, ◌<◌}
use python_dvc.Base.{
  String, ◌≡◌, refl, Bool, true, false, ◌&&◌, ◌⊎◌, inr, some, none, List, [], ◌∷◌, contains,
  string_eq, nat_eq, arith,
}
use python_dvc.Base.Dict.{get, put}
use python_dvc.Base.Result.{ok, err, ◌>>=◌}
use python_dvc.Cache.Named.{item, nil, child, Scheme, scheme_keys, dir_keys, set_update}
use python_dvc.Remote.Index.{
  Table, no_rows, Connection, Index, absent, corrupt, database, version, prepare_db, load_retrying,
  load, dump, update,
}
use python_dvc.Remote.IndexLaws.{load-dump, load_total}
use python_dvc.Remote.Status.{Storage, collect_remote, make_status}
use python_dvc.Remote.Exact.{IsTruthful, collect_remote_exact}
use python_dvc.Remote.Transfer.{
  Attempt, done, raised, push, pull, file_futures, dir_futures, os_error, download_error,
}
use python_dvc.Remote.PushLaws.{pushed_dir_complete, info}
use python_dvc.Remote.Outcome.{push_uploads_new, pull_outcome}

abbrev items : Scheme
items =
    (
      "d.dir",
      item ("data" ∷ []) (child "f1" (item ("a" ∷ []) nil) (child "f2" (item ("b" ∷ []) nil) nil)),
    )
    ∷ []

abbrev local : List String
local = "d.dir" ∷ "f1" ∷ "f2" ∷ []

abbrev remote : List String
remote = "f2" ∷ []

program : Unit {0}
unfolding make_status file_futures dir_futures push pull get put string_eq nat_eq set_update
program = tt

abbrev works : String → String → String → Attempt
works from to name = done

abbrev fails : String → String → String → Attempt
fails from to name = raised

abbrev path : String → String
path hash = hash

both_uploaded :
    (get (dir_futures works path path (info false items local remote)) "d.dir" ≡ some (ok 0))
    × (get (file_futures works path path (info false items local remote)) "f1" ≡ some (ok 0))
unfolding program
both_uploaded = (refl, refl)

pushed_dir_complete_example :
    (contains remote "f1" ≡ true)
    ⊎ (get (file_futures works path path (info false items local remote)) "f1" ≡ some (ok 0))
unfolding program
pushed_dir_complete_example =
    pushed_dir_complete works path path false items local remote "d.dir" "f1" refl refl

push_uploads_new_example :
    get (file_futures works path path (info false items local remote)) "f1" ≡ some (ok 0)
unfolding program
push_uploads_new_example =
    push_uploads_new works path path (info false items local remote) no_rows "f1" "a" {n = 2} refl
      refl

pull_outcome_example :
    ((n : ℕ) × ((pull fails path path (info false items remote local) no_rows ≡ (ok n, no_rows))
        × (fails "f1" "f1" "a" ≡ done)))
    ⊎ (((n : ℕ) × ((pull fails path path (info false items remote local) no_rows
              ≡ (err (download_error n), no_rows))
            × (0 < n)))
        ⊎ (pull fails path path (info false items remote local) no_rows ≡ (err os_error, no_rows)))
unfolding program
pull_outcome_example =
    pull_outcome fails path path (info false items remote local) no_rows "f1" "a" (inr refl)

abbrev stale : Index
stale = record { file = corrupt; connection = none }

load_total_example : (loaded : Index) × (load stale ≡ ok loaded)
load_total_example = load_total stale refl

abbrev fresh : Connection
fresh = record { user_version = version; rows = no_rows }

abbrev opened_anew : Index
opened_anew = record { file = absent; connection = some fresh }

stale-loaded : load stale ≡ ok opened_anew
unfolding load load_retrying prepare_db
stale-loaded = refl

load-dump_example :
    (do
      closed ← dump (record opened_anew {
        connection = some (record fresh { rows = update no_rows ("d.dir" ∷ []) [] });
      })
      load closed)
    ≡ ok (record {
      file = database version (update no_rows ("d.dir" ∷ []) []);
      connection =
          some (record { user_version = version; rows = update no_rows ("d.dir" ∷ []) [] });
    })
load-dump_example = load-dump stale opened_anew fresh ("d.dir" ∷ []) [] stale-loaded refl

abbrev pushed_dirs : List String
pushed_dirs = "d.dir" ∷ []

abbrev pushed_files : List String
pushed_files = "f1" ∷ []

abbrev f1_row : Table
f1_row = ("f1", false) ∷ []

-- A remote that holds everything.
abbrev full_remote : Storage
full_remote = record {
  local_exists = λ hs. hs;
  hashes_exist = λ hs. hs;
  list_hashes_exists = λ hs. hs;
}

and_true : (b : Bool) → b ≡ b && true
and_true b = ground arith

full_remote-IsTruthful : IsTruthful full_remote (λ h. true)
full_remote-IsTruthful = record {
  hashes_exist = λ hs h. and_true (contains hs h);
  list_hashes_exists = λ hs h. and_true (contains hs h);
}

collect_remote_exact_example :
    contains (collect_remote full_remote items no_rows).0 "f1"
    ≡ contains (scheme_keys items) "f1" && true
unfolding dir_keys
collect_remote_exact_example =
    collect_remote_exact full_remote (λ h. true) full_remote-IsTruthful items no_rows "f1"
      (λ dir h s m. refl) (λ v h m. refl) refl
