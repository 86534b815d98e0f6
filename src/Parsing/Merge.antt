-- ===== src/Parsing/Merge.antt =====
-- dvc/parsing/context.py: `_merge`, which adds the values of one context to another.
pub mod Keys
pub mod Leaves
use python_dvc.Base.{
  String, Bool, true, false, not, ◌&&◌, Option, none, some, List, is_some, if◌then◌else◌,
}
use python_dvc.Base.Result.{Result, ok, err, ◌>>=◌}
use python_dvc.Parsing.Nodes.{
  Meta, Node, value, ctx_list, ctx_dict, Fields, end, field, get_field, put_field,
}

-- `MergeError`, with its `key`
pub data MergeFailure : Type 0 where
  merge_error : String → MergeFailure

-- `isinstance(into.get(key), Mapping)`
unfoldable pub mapping_of : Option Node → Option (Meta × Fields)
mapping_of (some (ctx_dict m fs)) = some (m, fs)
mapping_of _ = none

-- `into[key] = val`, where `key in into` is allowed to be overwritten
unfoldable pub set_key : Bool → Fields → String → Node → Result MergeFailure Fields
set_key overwrite into key val =
    if is_some (get_field into key) && not overwrite
    then err (merge_error key)
    else ok (put_field into key val)

-- The round of a key whose new value is a dict, given the old one if it is a dict too. `merge_new` adds the
-- new one to a dict.
abbrev pub merge_dict :
    Bool
    → Fields
    → String
    → Node
    → (Fields → Result MergeFailure Fields)
    → Option (Meta × Fields)
    → Result MergeFailure Fields
merge_dict overwrite into key val merge_new none = set_key overwrite into key val
merge_dict overwrite into key val merge_new (some (m, fs)) = do
  fs' ← merge_new fs
  ok (put_field into key (ctx_dict m fs'))

unfoldable mutual
  pub merge : Bool → Fields → Fields → Result MergeFailure Fields
  merge overwrite into end = ok into
  merge overwrite into (field key val update) = do
    into' ← merge_key overwrite into key val
    merge overwrite into' update

  -- One round of the loop
  pub merge_key : Bool → Fields → String → Node → Result MergeFailure Fields
  merge_key overwrite into key (value p m) = set_key overwrite into key (value p m)
  merge_key overwrite into key (ctx_list m ns) = set_key overwrite into key (ctx_list m ns)
  merge_key overwrite into key (ctx_dict m us) =
      merge_dict overwrite into key (ctx_dict m us) (λ fs. merge overwrite fs us)
        (mapping_of (get_field into key))
