-- ===== src/RunCache/Tests.antt =====
-- A run that is saved and loaded again, with the written data themselves for a digest.
use python_dvc.Base.{String, ◌<>◌, ◌≡◌, refl, true, false, Option, none, some, [], ◌∷◌, string_eq}
use python_dvc.Base.Dict.{get, put, remove, keys}
use python_dvc.Base.Result.{Result, ok}
use python_dvc.Output.HashInfo.{HashInfo, null, text, number, to_dict, key_eq, field_eq}
use python_dvc.Lock.Defs.{single, sort_by, to_single_stage_lockfile}
use python_dvc.RunCache.Defs.{
  Json, Array, Object, value, array, object, item, field, no_items, no_fields, Lock, RunStage, Runs,
  get_cache_hash, get_stage_hash,
}
use python_dvc.RunCache.Store.{load, save}
use python_dvc.RunCache.Reached.{empty, saved, Reached-load}
use python_dvc.RunCache.Keys.{get_cache_hash-params, params_without_excluded}

abbrev key_text : Option String → String
key_text none = "null"
key_text (some k) = k

unfoldable mutual
  render : Json → String
  render (value null) = "null"
  render (value (text s)) = s
  render (value (number n)) = "n"
  render (array items) = "[" <> render_items items
  render (object fields) = "{" <> render_fields fields

  render_items : Array → String
  render_items no_items = "]"
  render_items (item j items) = render j <> "," <> render_items items

  render_fields : Object → String
  render_fields no_fields = "}"
  render_fields (field k j fields) = key_text k <> ":" <> render j <> "," <> render_fields fields

abbrev md5 : String → HashInfo
md5 s = record { name = some "md5"; value = text s; size = number 12; nfiles = null }

abbrev train : RunStage
train = record {
  locked = record {
    cmd = single "train";
    deps = record { def_path = "data"; hash_info = md5 "11" } ∷ [];
    params =
        record {
          def_path = "params.yaml";
          params = "lr" ∷ "size" ∷ [];
          info = ("lr", value (number 3)) ∷ ("size", value (number 8)) ∷ [];
        }
        ∷ [];
    outs = record { def_path = "model"; hash_info = md5 "22" } ∷ [];
  };
  deps = record { is_local = true; def_path = "data"; has_hash = true } ∷ [];
  outs = record { is_local = true; def_path = "model"; persist = false } ∷ [];
  is_callback = false;
  always_changed = false;
}

abbrev train_lock : Lock
train_lock = record {
  cmd = single "train";
  deps =
      ((some "path", text "data") ∷ (some "md5", text "11") ∷ (some "size", number 12) ∷ []) ∷ [];
  params = ("params.yaml", ("lr", value (number 3)) ∷ ("size", value (number 8)) ∷ []) ∷ [];
  outs =
      ((some "path", text "model") ∷ (some "md5", text "22") ∷ (some "size", number 12) ∷ []) ∷ [];
}

train_written : to_single_stage_lockfile train.locked ≡ ok train_lock
unfolding to_single_stage_lockfile string_eq sort_by put get remove to_dict key_eq
train_written = refl

abbrev commit_none : RunStage → Lock → Unit {0} → Result (Unit {0}) (Unit {0}) × Unit {0}
commit_none stage lock w = (ok tt, tt)

abbrev train_runs : Runs
train_runs = (save render commit_none train [] tt).1

train_found : (load render (λ files. keys files) train_runs train).0 ≡ some train_lock
unfolding load save render to_single_stage_lockfile string_eq sort_by put get remove to_dict key_eq
train_found = refl

Reached-load_example : get_stage_hash render train ≡ some (get_cache_hash render train_lock true)
Reached-load_example =
    Reached-load render (λ files. keys files) train
      (saved (Unit {0}) (Unit {0}) commit_none tt train empty) train_found

get_cache_hash-params_example :
    get_cache_hash render
      (record train_lock { params = params_without_excluded train_lock.params })
      true
    ≡ get_cache_hash render train_lock true
get_cache_hash-params_example = get_cache_hash-params render train_lock true
