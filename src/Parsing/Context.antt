-- ===== src/Parsing/Context.antt =====
-- dvc/parsing/context.py and dvc/parsing/interpolate.py: a context, the selection of its values with the
-- tracking of what was used, the resolution of texts and data, and `set`. The parser of an expression, made
-- by pyparsing, is the parameter `parse`.
use python_dvc.Base.{
  ℕ, zero, suc, ◌-◌, String, ◌<>◌, Bool, true, false, not, ◌&&◌, ◌||◌, Option, none, some, List, [],
  ◌∷◌, ◌++◌, is_some, contains, leb, ◌==◌, string_eq, if◌then◌else◌,
}
use python_dvc.Base.Dict.{Dict, put, get_or}
use python_dvc.Base.Result.{Result, ok, err, ◌>>=◌, ◌>>◌, guard}
use python_dvc.Parsing.Nodes.{
  Primitive, null, text, number, bool, prim_eq, Meta, default_meta, join_dots, Node, value,
  ctx_list, ctx_dict, Nodes, nil, cons, Fields, Data, prim, seq, dict, node, Items, no_items, item,
  Entries, no_entries, entry, get_field, put_field, convert, unwrap,
}
use python_dvc.Parsing.Text.{Index, from_front, from_end, parse_int, split_dots, strip}
use python_dvc.Parsing.Interpolate.{
  Match, char, expr, Template, template_of, exact_match, is_interpolated, to_str, unescape,
}

pub data ContextFailure : Type 0 where
  key_not_in_context : String → ContextFailure
  parse_error type_error : ContextFailure
  value_error : String → ContextFailure
  set_error : String → ContextFailure

abbrev pub nodes_length : Nodes → ℕ
nodes_length nil = 0
nodes_length (cons n ns) = suc (nodes_length ns)

abbrev pub nth : Nodes → ℕ → Option Node
nth nil i = none
nth (cons n ns) zero = some n
nth (cons n ns) (suc i) = nth ns i

-- `self.data[index]` of a list
abbrev pub at_index : Nodes → Index → Option Node
at_index ns (from_front i) = nth ns i
at_index ns (from_end i) = if leb i (nodes_length ns) then nth ns (nodes_length ns - i) else none

abbrev pub at_parsed : Nodes → Option Index → Option Node
at_parsed ns none = none
at_parsed ns (some i) = at_index ns i

-- `self[self._key_transform(index.strip())]`; none where any of it raises ValueError or LookupError, or
-- where the node is no container.
unfoldable pub item_of : Node → String → Option Node
unfolding parse_int strip
item_of (value p m) index = none
item_of (ctx_list m ns) index = at_parsed ns (parse_int (strip index))
item_of (ctx_dict m fs) index = get_field fs (strip index)

-- `Container.select`, from the parts of the key
unfoldable pub select_parts : Option Node → List String → Option Node
unfolding item_of
select_parts none parts = none
select_parts (some n) [] = some n
select_parts (some n) (index ∷ rems) = select_parts (item_of n index) rems

pub record Context : Type 0 where
  pub meta : Meta
  pub items : Fields
  pub track : Bool
  pub tracked : Dict String (List String)

abbrev pub meta_of : Node → Meta
meta_of (value p m) = m
meta_of (ctx_list m ns) = m
meta_of (ctx_dict m fs) = m

-- `get_sources`: the source and the path, none for a dict
abbrev pub source_of : Node → Option (Option String × String)
source_of (value p m) = some (m.source, join_dots m.dpaths)
source_of (ctx_list m ns) = some (m.source, join_dots m.dpaths)
source_of (ctx_dict m fs) = none

abbrev pub add_path : List String → String → List String
add_path paths p = if contains paths p then paths else paths ++ p ∷ []

-- `bool(source)`: a source that is none or empty is passed over.
abbrev pub add_source :
    Dict String (List String) → Option (Option String × String) → Dict String (List String)
add_source tracked none = tracked
add_source tracked (some (none, path)) = tracked
add_source tracked (some (some source, path)) =
    if source == "" then tracked else put tracked source (add_path (get_or tracked source []) path)

-- `_track_data`
unfoldable pub track_data : Context → Node → Context
track_data ctx n =
    if not ctx.track || (meta_of n).local
    then ctx
    else record ctx { tracked = add_source ctx.tracked (source_of n) }

-- `Context.select`
unfoldable pub select : Context → String → Result ContextFailure (Node × Context)
unfolding split_dots select_parts track_data
select ctx key = elim (select_parts (some (ctx_dict ctx.meta ctx.items)) (split_dots key)) [
  | none ↦ err (key_not_in_context key)
  | some n ↦ ok (n, track_data ctx n)
]

-- `cls(deepcopy(ctx.items))`
abbrev pub clone : Context → Context
clone ctx = record { meta = default_meta; items = ctx.items; track = false; tracked = [] }

abbrev pub primitive_of : Node → Result ContextFailure Primitive
primitive_of (value p m) = ok p
primitive_of _ = err parse_error

abbrev pub parsed : Option String → Result ContextFailure String
parsed none = err parse_error
parsed (some key) = ok key

-- A key of the new dict has to be a primitive; any other is not hashable.
abbrev pub key_of : Data → Result ContextFailure Primitive
key_of (prim p) = ok p
key_of _ = err type_error

abbrev pub put_entry : Entries → Primitive → Data → Entries
put_entry no_entries k d = entry k d no_entries
put_entry (entry j e es) k d = if k == j then entry j d es else entry j e (put_entry es k d)

abbrev pub is_collection : Data → Bool
is_collection (seq xs) = true
is_collection (dict es) = true
is_collection _ = false

unfoldable pub has_match : Data → Bool
unfolding template_of is_interpolated
has_match (prim (text s)) = is_interpolated (template_of s)
has_match _ = false

abbrev pub any_item : (Data → Bool) → Items → Bool
any_item p no_items = false
any_item p (item d ds) = p d || any_item p ds

abbrev pub any_value : (Data → Bool) → Entries → Bool
any_value p no_entries = false
any_value p (entry k d es) = p d || any_value p es

-- `except (ParseError, ValueError, ContextError)`; a TypeError passes.
abbrev pub as_set_error {ℓ} :
    {A : Type ℓ} → String → Result ContextFailure A → Result ContextFailure A
as_set_error key (ok a) = ok a
as_set_error key (err type_error) = err type_error
as_set_error key (err e) = err (set_error key)

module _ (parse : String → Option String) where
  -- `str_interpolate`, before the last replacement
  unfoldable pub interpolate : Template → Context → Result ContextFailure (String × Context)
  unfolding to_str
  interpolate [] ctx = ok ("", ctx)
  interpolate (char c ∷ ps) ctx = do (rest, last) ← interpolate ps ctx; ok (String.◌∷◌ c rest, last)
  interpolate (expr m ∷ ps) ctx = do
    key ← parsed (parse m.inner)
    (n, ctx') ← select ctx key
    p ← primitive_of n
    (rest, last) ← interpolate ps ctx'
    ok (to_str p <> rest, last)

  -- `resolve_str`. With `unwrapped` a selected node becomes plain data.
  unfoldable pub resolve_template :
      Bool → Template → Option Match → Context → Result ContextFailure (Data × Context)
  unfolding interpolate unescape
  resolve_template unwrapped t (some m) ctx = do
    key ← parsed (parse m.inner)
    (n, ctx') ← select ctx key
    ok (if unwrapped then unwrap n else node n, ctx')
  resolve_template unwrapped t none ctx = do
    (s, ctx') ← interpolate t ctx
    ok (prim (text (unescape s)), ctx')

  unfoldable pub resolve_str : Bool → String → Context → Result ContextFailure (Data × Context)
  unfolding template_of resolve_template
  resolve_str unwrapped src ctx =
      resolve_template unwrapped (template_of src) (exact_match (template_of src)) ctx

  unfoldable pub resolve_key : Bool → Primitive → Context → Result ContextFailure (Data × Context)
  resolve_key unwrapped (text s) ctx = resolve_str unwrapped s ctx
  resolve_key unwrapped null ctx = ok (prim null, ctx)
  resolve_key unwrapped (number s) ctx = ok (prim (number s), ctx)
  resolve_key unwrapped (bool b) ctx = ok (prim (bool b), ctx)

  -- `resolve`. A node stays as it is; the data of a file holds none.
  unfoldable mutual
    pub resolve : Bool → Data → Context → Result ContextFailure (Data × Context)
    resolve unwrapped (prim (text s)) ctx = resolve_str unwrapped s ctx
    resolve unwrapped (prim null) ctx = ok (prim null, ctx)
    resolve unwrapped (prim (number s)) ctx = ok (prim (number s), ctx)
    resolve unwrapped (prim (bool b)) ctx = ok (prim (bool b), ctx)
    resolve unwrapped (node n) ctx = ok (node n, ctx)
    resolve unwrapped (seq xs) ctx = do
      (ys, ctx') ← resolve_items unwrapped xs ctx
      ok (seq ys, ctx')
    resolve unwrapped (dict es) ctx = do
      (fs, ctx') ← resolve_entries unwrapped es no_entries ctx
      ok (dict fs, ctx')

    pub resolve_items : Bool → Items → Context → Result ContextFailure (Items × Context)
    resolve_items unwrapped no_items ctx = ok (no_items, ctx)
    resolve_items unwrapped (item d ds) ctx = do
      (x, ctx') ← resolve unwrapped d ctx
      (xs, last) ← resolve_items unwrapped ds ctx'
      ok (item x xs, last)

    -- The dict is filled in the order of the source, keys resolved before their values.
    pub resolve_entries :
        Bool → Entries → Entries → Context → Result ContextFailure (Entries × Context)
    resolve_entries unwrapped no_entries done ctx = ok (done, ctx)
    resolve_entries unwrapped (entry k d es) done ctx = do
      (kd, ctx1) ← resolve_key unwrapped k ctx
      (x, ctx2) ← resolve unwrapped d ctx1
      k' ← key_of kd
      resolve_entries unwrapped es (put_entry done k' x) ctx2

  -- The checks of `_set`, and the value that is set
  unfoldable pub value_to_set : String → Data → Context → Result ContextFailure (Data × Context)
  unfolding template_of is_interpolated
  value_to_set key (prim (text s)) ctx = do
    guard (not (is_interpolated (template_of s) && not (is_some (exact_match (template_of s)))))
        (value_error key)
    resolve_str false s ctx
  value_to_set key (seq xs) ctx = do
    guard (not (any_item is_collection xs)) (value_error key)
    guard (not (any_item has_match xs)) (value_error key)
    ok (seq xs, ctx)
  value_to_set key (dict es) ctx = do
    guard (not (any_value is_collection es)) (value_error key)
    guard (not (any_value has_match es)) (value_error key)
    ok (dict es, ctx)
  value_to_set key d ctx = ok (d, ctx)

  -- `set`, with `source` as the source of the new value
  unfoldable pub set : Context → String → Data → Option String → Result ContextFailure Context
  unfolding value_to_set convert
  set ctx key val source = as_set_error key (do
    guard (not (is_some (get_field ctx.items key))) (value_error key)
    (d, ctx') ← value_to_set key val ctx
    ok (record ctx' {
      items = put_field ctx'.items key (convert d (record default_meta { source = source }));
    }))
