-- ===== src/RwLock/Tests.antt =====
-- Runs of dvc/rwlock.py: one process reads a directory, another writes beside it.
use text.Mathlib.TextEquality.{eq_iff}
use python_dvc.RwLock.Unreadable.{enter_query_fails}
use python_dvc.Base.{
  String, ◌≢◌, inl, arith, ◌≡◌, refl, none, some, [], ◌∷◌, string_eq, parts_eq, nat_eq,
}
use python_dvc.Base.Dict.{get, put, remove}
use python_dvc.Base.Result.{ok, err}
use python_dvc.PathInfo.Url.{from_text}
use python_dvc.PathInfo.Defs.{
  Platform, Info, Url, cloud_url_info, remote_path, overlaps, class_eq, class_of,
}
use python_dvc.PathInfo.Posix.{posix, local_url, known_local, parts, fspath}
use python_dvc.RwLock.Defs.{
  Owner, owner_eq, LockFile, missing, stored, busy, Session, enter, leave, edit_rwlock,
  check_blockers, blockers, overlaps_text, others, acquire, acquire_read, acquire_write,
  release_write, release_writer, release_read, release_reader,
}
use python_dvc.RwLock.Safety.{FileIsExclusive, start, step, enters, Reach-FileIsExclusive}

abbrev trainer : Owner
trainer = record { pid = 7; cmd = "dvc repro train" }

abbrev cleaner : Owner
cleaner = record { pid = 9; cmd = "dvc remove data" }

abbrev data_dir : Info
data_dir = known_local "/repo/data"

abbrev raw : Info
raw = known_local "/repo/data/raw"

abbrev model : Info
model = known_local "/repo/model"

program : Unit {0}
unfolding enter leave edit_rwlock check_blockers blockers overlaps_text others acquire acquire_read
    acquire_write release_write release_writer release_read release_reader get put remove owner_eq
    string_eq parts_eq nat_eq class_eq overlaps parts fspath from_text
program = tt

abbrev reading : LockFile
reading = stored (record {
  write = some (("/repo/model", trainer) ∷ []);
  read = some (("/repo/data", trainer ∷ []) ∷ []);
})

abbrev session : Session
session = record { owner = trainer; rchanges = "/repo/data" ∷ []; wchanges = "/repo/model" ∷ [] }

trainer_enters :
    enter posix local_url missing trainer (data_dir ∷ []) (model ∷ []) ≡ ok (reading, session)
unfolding program
trainer_enters = refl

cleaner_is_turned_away :
    enter posix local_url reading cleaner [] (raw ∷ []) ≡ err (busy raw (trainer ∷ []))
unfolding program
cleaner_is_turned_away = refl

trainer_leaves : leave reading session ≡ ok (stored (record { write = none; read = none }))
unfolding program
trainer_leaves = refl

data_named : data_dir ≡ known_local (local_url data_dir)
unfolding program
data_named = refl

model_named : model ≡ known_local (local_url model)
unfolding program
model_named = refl

reads_back : (u : String) → from_text posix (class_of (known_local u)) u ≡ ok (known_local u)
unfolding from_text
reads_back u = refl

Reach-FileIsExclusive_example : FileIsExclusive posix local_url known_local reading
Reach-FileIsExclusive_example = Reach-FileIsExclusive posix local_url known_local reads_back (
    step start (
      enters trainer (data_dir ∷ []) (model ∷ []) (data_named, tt) (model_named, tt)
        trainer_enters))

-- An HTTP address with a query is being read.
abbrev queried : Platform
queried = record posix { urlparse = λ s. record (posix.urlparse s) { query = "v=1" } }

abbrev downloading : LockFile
downloading =
    stored (record { write = none; read = some (("http://host/data?v=1", trainer ∷ []) ∷ []) })

abbrev bucket : Url
bucket = record {
  base = record { scheme = "s3"; host = some "bucket"; user = none; port = none };
  spath = "/other";
  extra = record { params = ""; query = ""; fragment = "" };
}

v_not_empty : ◌≢◌ {A = String} "v=1" ""
v_not_empty = ground (arith, eq_iff "v=1" "")

enter_query_fails_example :
    enter queried local_url downloading cleaner [] (remote_path cloud_url_info bucket ∷ [])
    ≢ ok (downloading, session)
enter_query_fails_example =
    enter_query_fails queried local_url downloading cleaner []
      (remote_path cloud_url_info bucket ∷ []) cloud_url_info bucket "http://host/data?v=1"
      (trainer ∷ []) (inl refl) v_not_empty refl (inl refl)
