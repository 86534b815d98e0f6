-- ===== src/RunCache/Defs.antt =====
-- dvc/stage/cache.py, with `dict_filter` of dvc/utils/__init__.py: the keys of the run cache, what is saved,
-- loaded and transferred. A run cache is the files under `runs`: a directory per key, in it a file per value.
-- The text that json.dumps makes and its checksum are one parameter, `digest`.
use python_dvc.Base.{
  String, Bool, true, false, not, ◌&&◌, ◌||◌, Option, none, some, List, [], ◌∷◌, any, is_empty,
  string_eq, contains, ◌==◌, if◌then◌else◌,
}
use python_dvc.Base.Dict.{Dict, get_or}
use python_dvc.Base.Result.{Result, ok, err}
use python_dvc.Output.HashInfo.{Field, null, text, key_eq}
use python_dvc.Lock.Defs.{
  Command, single, several, is_given, Entry, LockData, LockFailure, LockedStage, param_path,
  to_single_stage_lockfile,
}

-- What json.dumps is given
mutual
  pub data Json : Type 0 where
    value : Field → Json
    array : Array → Json
    object : Object → Json

  pub data Array : Type 0 where
    no_items : Array
    item : Json → Array → Array

  pub data Object : Type 0 where
    no_fields : Object
    field : Option String → Json → Object → Object

abbrev pub Lock : Type 0
Lock = LockData Json

-- `k in exclude`, for the two keys that are excluded
abbrev pub is_excluded : Option String → Bool
is_excluded none = false
is_excluded (some k) = contains ("size" ∷ "nfiles" ∷ []) k

unfoldable mutual
  pub dict_filter : Json → Json
  dict_filter (value v) = value v
  dict_filter (array items) = array (filter_items items)
  dict_filter (object fields) = object (filter_fields fields)

  pub filter_items : Array → Array
  filter_items no_items = no_items
  filter_items (item j items) = item (dict_filter j) (filter_items items)

  pub filter_fields : Object → Object
  filter_fields no_fields = no_fields
  filter_fields (field k j fields) =
      let rest = filter_fields fields in
      let kept = field k (dict_filter j) rest in if is_excluded k then rest else kept

abbrev pub command_json : Command → Json
command_json (single s) = value (text s)
command_json (several cmds) = array (texts cmds)
  where
    texts : List String → Array
    texts [] = no_items
    texts (c ∷ cs) = item (value (text c)) (texts cs)

abbrev pub entry_fields : Entry → Object
entry_fields [] = no_fields
entry_fields ((k, v) ∷ e) = field k (value v) (entry_fields e)

abbrev pub entries_json : List Entry → Array
entries_json [] = no_items
entries_json (e ∷ es) = item (object (entry_fields e)) (entries_json es)

-- `[out["path"] for out in cache.get("outs", [])]`
abbrev pub paths_json : List Entry → Array
paths_json [] = no_items
paths_json (e ∷ es) = item (value (get_or e param_path null)) (paths_json es)

abbrev pub values_fields : Dict String Json → Object
values_fields [] = no_fields
values_fields ((k, v) ∷ d) = field (some k) v (values_fields d)

abbrev pub params_fields : Dict String (Dict String Json) → Object
params_fields [] = no_fields
params_fields ((path, kv) ∷ d) = field (some path) (object (values_fields kv)) (params_fields d)

-- A key of the lock data stands where it has something.
abbrev pub deps_then : List Entry → Object → Object
deps_then [] rest = rest
deps_then (e ∷ es) rest = field (some "deps") (array (entries_json (e ∷ es))) rest

abbrev pub params_then : Dict String (Dict String Json) → Object → Object
params_then [] rest = rest
params_then (p ∷ ps) rest = field (some "params") (object (params_fields (p ∷ ps))) rest

abbrev pub outs_fields : List Entry → Object
outs_fields [] = no_fields
outs_fields (e ∷ es) = field (some "outs") (array (entries_json (e ∷ es))) no_fields

abbrev pub lock_json : Bool → Lock → Json
lock_json key cache =
    let outs =
      if key
      then field (some "outs") (array (paths_json cache.outs)) no_fields
      else outs_fields cache.outs in
    object (
      field (some "cmd") (command_json cache.cmd)
        (deps_then cache.deps (params_then cache.params outs)))

-- What else is read of a dependency, with whether `get_hash` gives a checksum, and of an output
pub record DepInfo : Type 0 where
  pub is_local : Bool
  pub def_path : String
  pub has_hash : Bool

pub record OutInfo : Type 0 where
  pub is_local : Bool
  pub def_path : String
  pub persist : Bool

pub record RunStage : Type 0 where
  pub locked : LockedStage Json
  pub deps : List DepInfo
  pub outs : List OutInfo
  pub is_callback : Bool
  pub always_changed : Bool

-- The tests of `_get_stage_hash`
abbrev pub lacks_parts : RunStage → Bool
lacks_parts stage =
    not (is_given stage.locked.cmd && not (is_empty stage.deps) && not (is_empty stage.outs))

abbrev pub has_unfit_dep : RunStage → Bool
has_unfit_dep stage = any (λ d. not (d.is_local && not (d.def_path == "") && d.has_hash)) stage.deps

abbrev pub has_unfit_out : RunStage → Bool
has_unfit_out stage = any (λ o. not o.is_local || o.def_path == "" || o.persist) stage.outs

-- A file that is there: what it holds, or one that is corrupted or fits no schema
pub data CacheFile : Type 0 where
  valid : Lock → CacheFile
  corrupted : CacheFile

abbrev pub Files : Type 0
Files = Dict String CacheFile

abbrev pub Runs : Type 0
Runs = Dict String Files

module _ (digest : Json → String) where
  unfoldable pub get_cache_hash : Lock → Bool → String
  unfolding dict_filter
  get_cache_hash cache key = digest (dict_filter (lock_json key cache))

  -- The key of a stage's lock data. Its command is given, so that they are written.
  abbrev pub key_of : Result LockFailure Lock → Option String
  key_of (err e) = none
  key_of (ok lock) = some (get_cache_hash lock true)

  unfoldable pub get_stage_hash : RunStage → Option String
  unfolding get_cache_hash
  get_stage_hash stage =
      if lacks_parts stage
      then none
      else if has_unfit_dep stage
      then none
      else if has_unfit_out stage
      then none
      else key_of (to_single_stage_lockfile stage.locked)
