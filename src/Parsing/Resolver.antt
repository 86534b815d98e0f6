-- ===== src/Parsing/Resolver.antt =====
-- dvc/parsing/__init__.py and dvc/parsing/context.py: the loading of `vars`. The files and their paths are
-- parameters.
pub mod Keeps
use python_dvc.Base.{
  ℕ, suc, String, ◌<>◌, Bool, true, false, not, ◌&&◌, Option, none, some, List, [], ◌∷◌, is_empty,
  is_some, any, contains, ◌==◌, string_eq, if◌then◌else◌,
}
use python_dvc.Base.Dict.{Dict, get, put, has}
use python_dvc.Base.Result.{Result, ok, err, ◌>>=◌, ◌>>◌, guard}
use python_dvc.Parsing.Nodes.{
  Meta, default_meta, Fields, Primitive, prim_eq, text, Data, Entries, no_entries, entry,
  convert_entries, str_index,
}
use python_dvc.Parsing.Text.{partition_colon, split_commas, keep_full}
use python_dvc.Parsing.Merge.{MergeFailure, merge}
use python_dvc.Parsing.Context.{Context, put_entry}

pub data VarsFailure : Type 0 where
  already_loaded : String → VarsFailure
  params_file_not_found : String → VarsFailure
  could_not_find : String → VarsFailure
  merge_failed : MergeFailure → VarsFailure

-- The files: where a path of `vars` leads to, whether the file is there, and the dict that its loader makes.
pub record Files : Type 0 where
  pub abspath : String → String → String
  pub relpath : String → String
  pub exists : String → Bool
  pub load : String → Entries

-- An item of `vars`
pub data Var : Type 0 where
  file : String → Var
  inline : Entries → Var

-- `imported_files`: each loaded path with the keys of its last partial load, or none for the whole file
abbrev pub Imported : Type 0
Imported = Dict String (Option (List String))

-- `check_loaded`, from `skip_imports[path]`
unfoldable pub check_loaded :
    String → List String → Option (List String) → Result VarsFailure (Unit {0})
check_loaded it keys none = guard (is_empty keys) (already_loaded it)
check_loaded it keys (some loaded) =
    guard (not (is_empty keys) && not (any (contains loaded) keys)) (already_loaded it)

abbrev pub get_entry : Entries → String → Option Data
get_entry no_entries k = none
get_entry (entry j d es) k = if text k == j then some d else get_entry es k

-- `{key: data[key] for key in select_keys}`, with the keys done so far
unfoldable pub select_keys : Entries → List String → Entries → Result VarsFailure Entries
select_keys es [] done = ok done
select_keys es (k ∷ ks) done = elim (get_entry es k) [
  | none ↦ err (could_not_find k)
  | some d ↦ select_keys es ks (put_entry done (text k) d)
]

abbrev pub merged : Context → Result MergeFailure Fields → Result VarsFailure Context
merged ctx (err e) = err (merge_failed e)
merged ctx (ok fs) = ok (record ctx { items = fs })

-- `context.merge_update` of one context
unfoldable pub merge_update : Context → Fields → Result VarsFailure Context
unfolding merge
merge_update ctx fs = merged ctx (merge false ctx.items fs)

module _ (files : Files) where
  -- `Context.load_from`
  unfoldable pub load_from : String → List String → Result VarsFailure Fields
  unfolding select_keys convert_entries
  load_from path keys = do
    guard (files.exists path) (params_file_not_found path)
    es ←
        (if is_empty keys
          then ok (files.load path)
          else select_keys (files.load path) keys no_entries)
    ok (
        convert_entries es
          (record { source = some (files.relpath path); dpaths = []; local = false }))

  -- The keys of `path:key,key`
  abbrev pub keys_of : String → List String
  keys_of it = keep_full (split_commas (partition_colon it).1)

  abbrev pub path_of : String → String → String
  path_of wdir it = files.abspath wdir (partition_colon it).0

  abbrev pub loaded_keys : List String → Option (List String)
  loaded_keys keys = if is_empty keys then none else some keys

  -- A file of `vars`
  unfoldable pub load_file :
      Context → Imported → String → String → Result VarsFailure (Context × Imported)
  unfolding load_from merge_update check_loaded
  load_file ctx skip wdir it =
      let keys = keys_of it in
      let path = path_of wdir it in
      let load = (do
        fs ← load_from path keys
        ctx' ← merge_update ctx fs
        ok (ctx', put skip path (loaded_keys keys))) in
      elim (get skip path) [
        | none ↦ load
        | some before ↦
            if is_empty keys && not (is_some before)
            then ok (ctx, skip)
            else check_loaded it keys before >> load
      ]

  abbrev pub var_source : String → ℕ → String
  var_source stage index =
      (if stage == "" then "" else stage <> ".") <> ("vars[" <> (str_index index <> "]"))

  -- `load_from_vars`, from the item with the given index
  unfoldable pub load_from_vars :
      Context → List Var → String → Imported → String → ℕ → Result VarsFailure (Context × Imported)
  unfolding load_file
  load_from_vars ctx [] wdir skip stage index = ok (ctx, skip)
  load_from_vars ctx (file it ∷ vars) wdir skip stage index = do
    (ctx', skip') ← load_file ctx skip wdir it
    load_from_vars ctx' vars wdir skip' stage (suc index)
  load_from_vars ctx (inline es ∷ vars) wdir skip stage index = do
    ctx' ←
        merge_update ctx
          (convert_entries es (record default_meta { source = some (var_source stage index) }))
    load_from_vars ctx' vars wdir skip stage (suc index)
