-- ===== src/RunCache/Store.antt =====
-- dvc/stage/cache.py: `StageCache`. What commits the outputs that are not cached is a parameter, on a state of
-- its own; so is what copies a file, which tells whether it did. A key without a file counts as one without a
-- directory.
use python_dvc.Base.{
  String, Bool, true, false, ◌||◌, Option, none, some, List, [], ◌∷◌, ◌++◌, is_empty, string_eq,
  if◌then◌else◌,
}
use python_dvc.Base.Dict.{get, put, remove, get_or}
use python_dvc.Base.Result.{Result, ok, err}
use python_dvc.Lock.Defs.{LockFailure, to_single_stage_lockfile}
use python_dvc.RunCache.Defs.{
  Json, Lock, RunStage, valid, corrupted, Files, Runs, get_cache_hash, get_stage_hash,
}

-- `_load_cache`, on the files of one key
abbrev pub load_cache : Files → String → Option Lock × Files
load_cache files val = elim (get files val) [
  | none ↦ (none, files)
  | some corrupted ↦ (none, remove files val)
  | some (valid lock) ↦ (some lock, files)
]

-- The loop of `_load`, over the names that `os.listdir` gave
unfoldable pub load_first : List String → Files → Option Lock × Files
load_first [] files = (none, files)
load_first (val ∷ vals) files =
    let found = load_cache files val in
    let rest = load_first vals found.1 in elim found.0 [ some lock ↦ found | none ↦ rest ]

unfoldable pub load_key : (Files → List String) → Runs → String → Option Lock × Runs
unfolding load_first
load_key listdir runs key = elim (get runs key) [
  | none ↦ (none, runs)
  | some files ↦ let found = load_first (listdir files) files in (found.0, put runs key found.1)
]

module _ (digest : Json → String) where
  unfoldable pub load : (Files → List String) → Runs → RunStage → Option Lock × Runs
  unfolding get_stage_hash load_key
  load listdir runs stage = elim (get_stage_hash digest stage) [
    | none ↦ (none, runs)
    | some key ↦ load_key listdir runs key
  ]

  module _ {W E : Type 0} (commit_uncached : RunStage → Lock → W → Result E (Unit {0}) × W) where
    -- The end of `save`: the file is written unless it was there, or a commit has raised.
    abbrev pub write_new :
        Bool → Result E (Unit {0}) × W → Files → String → Lock → Result E (Unit {0}) × Files × W
    write_new there (err e, w) files val cache = (err e, files, w)
    write_new true (ok u, w) files val cache = (ok tt, files, w)
    write_new false (ok u, w) files val cache = (ok tt, put files val (valid cache), w)

    -- `existing_cache or cache`, with what `_load_cache` found
    abbrev pub save_found :
        RunStage → Lock → String → Option Lock × Files → W → Result E (Unit {0}) × Files × W
    save_found stage cache val (some existing, files) w =
        write_new true (commit_uncached stage existing w) files val existing
    save_found stage cache val (none, files) w =
        write_new false (commit_uncached stage cache w) files val cache

    abbrev pub save_file : RunStage → Lock → Files → W → Result E (Unit {0}) × Files × W
    save_file stage cache files w =
        let val = get_cache_hash digest cache false in
        save_found stage cache val (load_cache files val) w

    -- What `save` does with a key, and the lock data if they are written
    abbrev pub save_key :
        RunStage → String → Result LockFailure Lock → Runs → W → Result E (Unit {0}) × Runs × W
    save_key stage key (err e) runs w = (ok tt, runs, w)
    save_key stage key (ok cache) runs w =
        let (done, files, w') = save_file stage cache (get_or runs key []) w in
        (done, put runs key files, w')

    unfoldable pub save : RunStage → Runs → W → Result E (Unit {0}) × Runs × W
    unfolding get_stage_hash get_cache_hash
    save stage runs w =
        if stage.is_callback || stage.always_changed
        then (ok tt, runs, w)
        else elim (get_stage_hash digest stage) [
          | none ↦ (ok tt, runs, w)
          | some key ↦ save_key stage key (to_single_stage_lockfile stage.locked) runs w
        ]

-- `_transfer`: the files of each key of the source, where the target has none for the key yet
unfoldable pub transfer_files :
    (String → String → Bool) → String → Files → Runs → Runs × List (String × String)
transfer_files copied key [] to = (to, [])
transfer_files copied key ((val, file) ∷ files) to =
    let to' = if copied key val then put to key (put (get_or to key []) val file) else to in
    let rest = transfer_files copied key files (if is_empty (get_or to key []) then to' else to) in
    if is_empty (get_or to key []) then (rest.0, (key, val) ∷ rest.1) else rest

unfoldable pub transfer : (String → String → Bool) → Runs → Runs → Runs × List (String × String)
unfolding transfer_files
transfer copied [] to = (to, [])
transfer copied ((key, files) ∷ from) to =
    let here = transfer_files copied key files to in
    let rest = transfer copied from here.0 in (rest.0, here.1 ++ rest.1)
