-- ===== src/Lock/Defs.antt =====
-- dvc/stage/serialize.py (`to_lockfile`), dvc/stage/loader.py (`fill_from_lock`) and what they call of
-- dvc/dependency/param.py: the checksums and the values of a stage in dvc.lock. A dict that is left out of
-- the lock file where it is empty is an empty one here.
use Prim.Native.String.{compare}
use Prim.Native.Nat.{Ordering}
use python_dvc.Base.{
  String, String-discrete, Eq, ◌==◌, not, Bool, true, false, Option, none, some, List, [], ◌∷◌, map,
  is_empty, string_eq, if◌then◌else◌,
}
use python_dvc.Base.Dict.{Dict, keys, get, put, remove, get_or}
use python_dvc.Base.Result.{Result, ok, ◌>>=◌, ◌>>◌, guard}
use python_dvc.Output.HashInfo.{
  HashInfo, Field, null, text, key_eq, field_eq, from_dict, to_dict, HashFailure,
}

-- A dependency that is not of params, or an output: its `def_path` and `hash_info`.
pub record Item : Type 0 where
  pub def_path : String
  pub hash_info : HashInfo

-- A dependency on params, with the values of its `hash_info`: an empty dict where there is none.
pub record ParamsItem (V : Type 0) : Type 0 where
  pub def_path : String
  pub params : List String
  pub info : Dict String V

-- `cmd`: a text or a list of texts
pub data Command : Type 0 where
  single : String → Command
  several : List String → Command

unfoldable pub Command-discrete : Discrete Command
unfolding String-discrete
Command-discrete = hlevel String-discrete

instance unfoldable pub command_eq : Eq Command
unfolding Command-discrete
command_eq = record { dec = Command-discrete }

-- `bool(cmd)`
abbrev pub is_given : Command → Bool
is_given (single s) = not (s == "")
is_given (several cmds) = not (is_empty cmds)

-- `split_params_deps` has been applied to the dependencies: the params apart from the others.
pub record LockedStage (V : Type 0) : Type 0 where
  pub cmd : Command
  pub deps : List Item
  pub params : List (ParamsItem V)
  pub outs : List Item

abbrev pub Entry : Type 0
Entry = Dict (Option String) Field

pub record LockData (V : Type 0) : Type 0 where
  pub cmd : Command
  pub deps : List Entry
  pub params : Dict String (Dict String V)
  pub outs : List Entry

abbrev pub string_leb : String → String → Bool
string_leb a b = elim (compare a b) [ Ordering.gt ↦ false | _ ↦ true ]

-- `sorted(items, key=key)`: a new item is put behind those with the same key.
module _ {A : Type 0} (key : A → String) where
  unfoldable pub insert_sorted : A → List A → List A
  insert_sorted a [] = a ∷ []
  insert_sorted a (x ∷ xs) =
      if string_leb (key a) (key x) then a ∷ x ∷ xs else x ∷ insert_sorted a xs

  unfoldable pub sort_by : List A → List A
  unfolding insert_sorted
  sort_by [] = []
  sort_by (x ∷ xs) = insert_sorted x (sort_by xs)

pub data LockFailure : Type 0 where
  assertion : LockFailure

abbrev pub param_path : Option String
param_path = some "path"

-- `OrderedDict(pairs)`, from the dict that stands already
unfoldable pub put_all : Entry → Entry → Entry
put_all d [] = d
put_all d ((k, v) ∷ pairs) = put_all (put d k v) pairs

-- `_dumpd`
unfoldable pub dumpd : Item → Entry
unfolding put_all
dumpd item = put_all ((param_path, text item.def_path) ∷ []) (to_dict item.hash_info)

abbrev pub default_params_file : String
default_params_file = "params.yaml"

abbrev pub sort_items : List Item → List Item
sort_items = sort_by (λ i. i.def_path)

-- `{item["path"]: item for item in entries}`, from the dict that stands already. The schema of the lock
-- file requires the path.
unfoldable pub by_path : Dict Field Entry → List Entry → Dict Field Entry
by_path checksums [] = checksums
by_path checksums (e ∷ entries) = by_path (put checksums (get_or e param_path null) e) entries

unfoldable pub fill_item : Dict Field Entry → Item → Result HashFailure Item
fill_item checksums item = do
  hash_info ← from_dict (remove (get_or checksums (text item.def_path) []) param_path)
  ok (record item { hash_info = hash_info })

unfoldable pub fill_items : Dict Field Entry → List Item → Result HashFailure (List Item)
unfolding fill_item
fill_items checksums [] = ok []
fill_items checksums (i ∷ items) = do
  i' ← fill_item checksums i
  items' ← fill_items checksums items
  ok (i' ∷ items')

module _ {V : Type 0} where
  -- The values of the keys that have one, in the order of the keys.
  unfoldable pub pick : Dict String V → List String → Dict String V → Dict String V
  pick values [] info = info
  pick values (param ∷ params) info = elim (get values param) [
    | none ↦ pick values params info
    | some v ↦ pick values params (put info param v)
  ]

  abbrev pub sorted_keys : Dict String V → List String
  sorted_keys d = sort_by (λ k. k) (keys d)

  -- `move_to_end(path, last=False)`
  unfoldable pub move_to_front : Dict String (Dict String V) → String → Dict String (Dict String V)
  move_to_front d path = elim (get d path) [ none ↦ d | some kv ↦ (path, kv) ∷ remove d path ]

  -- One round of `_serialize_params_values`. The file has a dict of the values where there are any, or else
  -- the list of the params.
  unfoldable pub put_values :
      Dict String (Dict String V) → ParamsItem V → Dict String (Dict String V)
  unfolding pick move_to_front
  put_values key_vals dep =
      let key_vals' = put key_vals dep.def_path (pick dep.info (sorted_keys dep.info) []) in
      if is_empty dep.info
      then key_vals
      else if dep.def_path == default_params_file
      then move_to_front key_vals' dep.def_path
      else key_vals'

  unfoldable pub put_all_values :
      Dict String (Dict String V) → List (ParamsItem V) → Dict String (Dict String V)
  unfolding put_values
  put_all_values key_vals [] = key_vals
  put_all_values key_vals (dep ∷ deps) = put_all_values (put_values key_vals dep) deps

  unfoldable pub serialize_params_values : List (ParamsItem V) → Dict String (Dict String V)
  unfolding put_all_values
  serialize_params_values params = put_all_values [] (sort_by (λ i. i.def_path) params)

  unfoldable pub to_single_stage_lockfile : LockedStage V → Result LockFailure (LockData V)
  unfolding dumpd serialize_params_values
  to_single_stage_lockfile stage = do
    guard (is_given stage.cmd) assertion
    ok record {
      cmd = stage.cmd;
      deps = map dumpd (sort_items stage.deps);
      params = serialize_params_values stage.params;
      outs = map dumpd (sort_items stage.outs);
    }

  unfoldable pub fill_values : ParamsItem V → Option (Dict String V) → ParamsItem V
  unfolding pick
  fill_values self none = self
  fill_values self (some values) =
      if is_empty values then self else record self { info = pick values self.params [] }

  unfoldable pub fill_params :
      Dict String (Dict String V) → List (ParamsItem V) → List (ParamsItem V)
  unfolding fill_values
  fill_params saved [] = []
  fill_params saved (p ∷ params) = fill_values p (get saved p.def_path) ∷ fill_params saved params

  unfoldable pub fill_from_lock :
      LockedStage V → Option (LockData V) → Result HashFailure (LockedStage V)
  unfolding by_path fill_items fill_params
  fill_from_lock stage none = ok stage
  fill_from_lock stage (some lock) = do
    deps ← fill_items (by_path [] lock.deps) stage.deps
    outs ← fill_items (by_path [] lock.outs) stage.outs
    ok (record stage { deps = deps; params = fill_params lock.params stage.params; outs = outs })

  -- The end of `load_stage`: the stage, and its `cmd_changed`
  unfoldable pub load_locked :
      LockedStage V → Option (LockData V) → Result HashFailure (LockedStage V × Bool)
  unfolding fill_from_lock
  load_locked stage lock = do
    filled ← fill_from_lock stage lock
    ok (filled, elim lock [ none ↦ false | some l ↦ not (l.cmd == stage.cmd) ])
