-- ===== src/Parsing/Nodes.antt =====
-- dvc/parsing/context.py: the values of a context, as nodes that know the file and the key they come from,
-- and how plain values become nodes and nodes become plain values.
use Prim.Native.Nat.{◌/◌, ◌%◌}
use mathlib.Core.Bool.{Bool-discrete}
use python_dvc.Base.{
  ℕ, zero, suc, String, ◌<>◌, Bool, true, ltb, nat_eq, Option, none, some, List, [], ◌∷◌, ◌++◌, Eq,
  ◌==◌, String-discrete, string_eq, if◌then◌else◌, ◌≡◌, refl, ap,
}

-- `None` or one of `PRIMITIVES`. A number stands for its text, a key of a dict is one of these too.
pub data Primitive : Type 0 where
  null : Primitive
  text number : String → Primitive
  bool : Bool → Primitive

unfoldable pub Primitive-discrete : Discrete Primitive
unfolding String-discrete
Primitive-discrete = hlevel (String-discrete, Bool-discrete)

instance unfoldable pub prim_eq : Eq Primitive
unfolding Primitive-discrete
prim_eq = record { dec = Primitive-discrete }

pub record Meta : Type 0 where
  pub source : Option String
  pub dpaths : List String
  pub local : Bool

abbrev pub default_meta : Meta
default_meta = record { source = none; dpaths = []; local = true }

-- `Meta.update_path`
abbrev pub update_path : Meta → String → Meta
update_path m path = record m { dpaths = m.dpaths ++ path ∷ [] }

-- `Meta.path`: `".".join(self.dpaths)`
unfoldable pub join_dots : List String → String
join_dots [] = ""
join_dots (p ∷ []) = p
join_dots (p ∷ (q ∷ ps)) = p <> "." <> join_dots (q ∷ ps)

-- `Value`, `CtxList` and `CtxDict`; the fields of a dict stand in insertion order.
mutual
  pub data Node : Type 0 where
    value : Primitive → Meta → Node
    ctx_list : Meta → Nodes → Node
    ctx_dict : Meta → Fields → Node

  pub data Nodes : Type 0 where
    nil : Nodes
    cons : Node → Nodes → Nodes

  pub data Fields : Type 0 where
    end : Fields
    field : String → Node → Fields → Fields

-- A Python value: a primitive, a list, a dict, or a node.
mutual
  pub data Data : Type 0 where
    prim : Primitive → Data
    seq : Items → Data
    dict : Entries → Data
    node : Node → Data

  pub data Items : Type 0 where
    no_items : Items
    item : Data → Items → Items

  pub data Entries : Type 0 where
    no_entries : Entries
    entry : Primitive → Data → Entries → Entries

-- `self.data.get(key)`, and `self.data[key] = node`
unfoldable pub get_field : Fields → String → Option Node
get_field end k = none
get_field (field j n fs) k = if k == j then some n else get_field fs k

unfoldable pub put_field : Fields → String → Node → Fields
put_field end k n = field k n end
put_field (field j m fs) k n = if k == j then field j n fs else field j m (put_field fs k n)

-- `str` of an index, in decimal; the number itself is fuel enough for its digits.
abbrev digit : ℕ → String
digit d =
    if d == 0
    then "0"
    else if d == 1
    then "1"
    else if d == 2
    then "2"
    else if d == 3
    then "3"
    else if d == 4
    then "4"
    else if d == 5
    then "5"
    else if d == 6
    then "6"
    else if d == 7
    then "7"
    else if d == 8
    then "8"
    else "9"

unfoldable pub digits : ℕ → ℕ → String
digits zero n = digit (n % 10)
digits (suc fuel) n =
    let front = digits fuel (n / 10) in if ltb n 10 then digit n else front <> digit (n % 10)

abbrev pub str_index : ℕ → String
str_index n = digits n n

-- `_convert_with_meta` and `_convert`. A dict has each key once, so that each assignment adds a field; a key
-- that is no text is left out.
unfoldable mutual
  pub convert : Data → Meta → Node
  convert (prim p) m = value p m
  convert (node n) m = n
  convert (seq xs) m = ctx_list m (convert_items 0 xs m)
  convert (dict es) m = ctx_dict m (convert_entries es m)

  pub convert_items : ℕ → Items → Meta → Nodes
  convert_items i no_items m = nil
  convert_items i (item d ds) m =
      cons (convert d (update_path m (str_index i))) (convert_items (suc i) ds m)

  pub convert_entries : Entries → Meta → Fields
  convert_entries no_entries m = end
  convert_entries (entry (text k) d es) m =
      field k (convert d (update_path m k)) (convert_entries es m)
  convert_entries (entry null d es) m = convert_entries es m
  convert_entries (entry (number n) d es) m = convert_entries es m
  convert_entries (entry (bool b) d es) m = convert_entries es m

-- The property `value`
unfoldable mutual
  pub unwrap : Node → Data
  unwrap (value p m) = prim p
  unwrap (ctx_list m ns) = seq (unwrap_nodes ns)
  unwrap (ctx_dict m fs) = dict (unwrap_fields fs)

  pub unwrap_nodes : Nodes → Items
  unwrap_nodes nil = no_items
  unwrap_nodes (cons n ns) = item (unwrap n) (unwrap_nodes ns)

  pub unwrap_fields : Fields → Entries
  unwrap_fields end = no_entries
  unwrap_fields (field k n fs) = entry (text k) (unwrap n) (unwrap_fields fs)

-- The data of a file: all keys are texts, and there is no node in it.
unfoldable mutual
  pub IsPlain : Data → Type 0
  IsPlain (prim p) = Unit
  IsPlain (node n) = ⊥
  IsPlain (seq xs) = ArePlain xs
  IsPlain (dict es) = HasTextKeys es

  pub ArePlain : Items → Type 0
  ArePlain no_items = Unit
  ArePlain (item d ds) = IsPlain d × ArePlain ds

  pub HasTextKeys : Entries → Type 0
  HasTextKeys no_entries = Unit
  HasTextKeys (entry (text k) d es) = IsPlain d × HasTextKeys es
  HasTextKeys (entry _ d es) = ⊥

mutual
  unfolding convert unwrap IsPlain

  unwrap-convert_data : (d : Data) (m : Meta) → IsPlain d → unwrap (convert d m) ≡ d
  unwrap-convert_data (prim p) m h = refl
  unwrap-convert_data (node n) m h = absurd h
  unwrap-convert_data (seq xs) m h = ap seq (unwrap_nodes-convert_items 0 xs m h)
  unwrap-convert_data (dict es) m h = ap dict (unwrap_fields-convert_entries es m h)

  unwrap_nodes-convert_items :
      (i : ℕ) (xs : Items) (m : Meta) → ArePlain xs → unwrap_nodes (convert_items i xs m) ≡ xs
  unwrap_nodes-convert_items i no_items m h = refl
  unwrap_nodes-convert_items i (item d ds) m (h, hs) =
      rw
        (
          unwrap-convert_data d (update_path m (str_index i)) h,
          unwrap_nodes-convert_items (suc i) ds m hs,
        )
        refl

  unwrap_fields-convert_entries :
      (es : Entries) (m : Meta) → HasTextKeys es → unwrap_fields (convert_entries es m) ≡ es
  unwrap_fields-convert_entries no_entries m h = refl
  unwrap_fields-convert_entries (entry (text k) d es) m (h, hs) =
      rw (unwrap-convert_data d (update_path m k) h, unwrap_fields-convert_entries es m hs) refl
  unwrap_fields-convert_entries (entry null d es) m h = absurd h
  unwrap_fields-convert_entries (entry (number n) d es) m h = absurd h
  unwrap_fields-convert_entries (entry (bool b) d es) m h = absurd h

-- Data whose keys are texts is unchanged by the conversion into nodes and back.
pub unwrap-convert : (d : Data) (m : Meta) → IsPlain d → unwrap (convert d m) ≡ d
unwrap-convert d m h = unwrap-convert_data d m h
