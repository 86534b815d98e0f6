-- ===== src/Parsing/Tests.antt =====
-- Runs of the context on a params file with two keys.
use python_dvc.Base.{
  String, ◌<>◌, ◌≡◌, refl, subst, true, false, inl, inr, Option, none, some, List, [], ◌∷◌, ◌==◌,
  string_eq, nat_eq, contains, if◌then◌else◌,
}
use python_dvc.Base.Dict.{get, put, get_or}
use python_dvc.Base.Result.{Result, ok}
use python_dvc.Parsing.Nodes.{
  text, number, Meta, default_meta, Node, value, ctx_dict, Fields, end, field, Data, prim, dict,
  entry, no_entries, get_field, put_field, IsPlain, convert, convert_entries, unwrap, prim_eq,
}
use python_dvc.Parsing.Text.{split_dots, strip, split_commas, partition_colon}
use python_dvc.Parsing.Merge.{merge, mapping_of, set_key}
use python_dvc.Parsing.Merge.Keys.{IsDict}
use python_dvc.Parsing.Merge.Leaves.{leaf_at, merge_adds}
use python_dvc.Parsing.Nodes.{unwrap-convert, join_dots, digits}
use python_dvc.Parsing.Interpolate.{Match, char, expr, Template, template_of, get_matches, unescape}
use python_dvc.Parsing.Context.{Context, resolve_str, interpolate, set, select}
use python_dvc.Parsing.Laws.{resolve_plain}
use python_dvc.Parsing.Tracking.{interpolate_tracks, set_adds}
use python_dvc.Parsing.Resolver.{
  Files, Var, file, inline, load_from_vars, load_from, select_keys, VarsFailure,
}
use python_dvc.Parsing.Resolver.Keeps.{HasDicts, load_from_vars_keeps}

-- {"lr": 1, "opt": {"name": "adam"}}
abbrev params : Data
params = dict (
    entry (text "lr") (prim (number "1"))
      (entry (text "opt") (dict (entry (text "name") (prim (text "adam")) no_entries)) no_entries))

abbrev file_meta : Meta
file_meta = record { source = some "params.yaml"; dpaths = []; local = false }

unwrap-convert_example : unwrap (convert params file_meta) ≡ params
unfolding IsPlain
unwrap-convert_example = unwrap-convert params file_meta (tt, ((tt, tt), tt))

program : Unit {0}
unfolding split_commas partition_colon digits join_dots convert IsDict set_key put_field merge
    mapping_of get_field leaf_at get put string_eq nat_eq
program = tt

abbrev path_meta : List String → Meta
path_meta ks = record file_meta { dpaths = ks }

abbrev old : Fields
old = field "lr" (value (number "1") (path_meta ("lr" ∷ []))) (
    field "opt"
      (ctx_dict (path_meta ("opt" ∷ []))
        (field "name" (value (text "adam") (path_meta ("opt" ∷ "name" ∷ []))) end))
      end)

abbrev new : Fields
new = field "opt" (ctx_dict default_meta (field "beta" (value (number "2") default_meta) end)) end

abbrev joined : Fields
joined = field "lr" (value (number "1") (path_meta ("lr" ∷ []))) (
    field "opt"
      (ctx_dict (path_meta ("opt" ∷ [])) (
        field "name" (value (text "adam") (path_meta ("opt" ∷ "name" ∷ [])))
          (field "beta" (value (number "2") default_meta) end)))
      end)

abbrev beta : List String
beta = "opt" ∷ "beta" ∷ []

new-IsDict : IsDict new
unfolding program
new-IsDict = (refl, ((refl, (tt, tt)), tt))

merged_to : merge false old new ≡ ok joined
unfolding program
merged_to = refl

beta-new : leaf_at new beta ≡ some (value (number "2") default_meta)
unfolding program
beta-new = refl

merge_adds_example : leaf_at joined beta ≡ some (value (number "2") default_meta)
merge_adds_example =
    merge_adds old new joined beta (number "2") default_meta new-IsDict merged_to (inl beta-new)

abbrev parse : String → Option String
parse s = some s

abbrev ctx : Context
ctx = record { meta = file_meta; items = old; track = true; tracked = [] }

resolve_plain_example :
    resolve_str parse true "cp \\${x} y" ctx ≡ ok (prim (text (unescape "cp \\${x} y")), ctx)
unfolding program template_of get_matches
resolve_plain_example = resolve_plain parse true "cp \\${x} y" ctx refl

unescaped : unescape "cp \\${x} y" ≡ "cp ${x} y"
unfolding unescape nat_eq
unescaped = refl

abbrev opt_name : Match
opt_name = record { whole = "${opt.name}"; inner = "opt.name" }

abbrev template : Template
template = char "x" ∷ expr opt_name ∷ []

abbrev used : Context
used = record ctx { tracked = ("params.yaml", "opt.name" ∷ []) ∷ [] }

interpolate_tracks_example : contains (get_or used.tracked "params.yaml" []) "opt.name" ≡ true
interpolate_tracks_example =
    interpolate_tracks parse template ctx opt_name "opt.name" "params.yaml" "opt.name"
      (value (text "adam") (path_meta ("opt" ∷ "name" ∷ []))) {x = ("xadam", used)} refl
      (inr (inl refl)) refl (unfold program split_dots strip select in refl)
      (unfold program in refl) (unfold program in refl) refl
      (unfold program interpolate select in refl)

abbrev lr : String
lr = "lr"

abbrev epochs : String
epochs = "epochs"

abbrev longer : Fields
longer = field "lr" (value (number "1") (path_meta ("lr" ∷ []))) (
    field "opt"
      (ctx_dict (path_meta ("opt" ∷ []))
        (field "name" (value (text "adam") (path_meta ("opt" ∷ "name" ∷ []))) end))
      (field "epochs" (value (number "3") default_meta) end))

set_adds_example :
    (get_field old epochs ≡ none)
    × ((n : Node) × (get_field longer lr ≡ (if lr == epochs then some n else get_field old lr)))
set_adds_example =
    set_adds parse ctx epochs lr (prim (number "3")) none {ctx' = record ctx { items = longer }}
      (unfold program set in refl)

-- A directory whose files are all empty.
abbrev files : Files
files = record {
  abspath = λ wdir p. wdir <> p;
  relpath = λ p. p;
  exists = λ p. true;
  load = λ p. no_entries;
}

files-HasDicts : HasDicts files
unfolding load_from select_keys IsDict
files-HasDicts path [] fs e = subst IsDict (loaded e) tt
  where
    loaded : ◌≡◌ {A = Result VarsFailure Fields} (ok end) (ok fs) → end ≡ fs
    loaded h = cc
files-HasDicts path (k ∷ ks) fs e = cc

abbrev vars : List Var
vars = inline (entry (text "epochs") (prim (number "3")) no_entries) ∷ file "more.yaml" ∷ []

abbrev after_vars : Context
after_vars = record ctx {
  items = field "lr" (value (number "1") (path_meta ("lr" ∷ []))) (
      field "opt"
        (ctx_dict (path_meta ("opt" ∷ []))
          (field "name" (value (text "adam") (path_meta ("opt" ∷ "name" ∷ []))) end))
        (field "epochs"
          (value (number "3")
            (record { source = some "vars[0]"; dpaths = "epochs" ∷ []; local = true }))
          end));
}

load_from_vars_keeps_example :
    leaf_at after_vars.items (lr ∷ []) ≡ some (value (number "1") (path_meta ("lr" ∷ [])))
load_from_vars_keeps_example =
    load_from_vars_keeps files ctx vars "" [] "" 0 (lr ∷ [])
      (value (number "1") (path_meta ("lr" ∷ []))) {x = (after_vars, ("more.yaml", none) ∷ [])}
      files-HasDicts (λ m. unfold IsDict convert_entries get_field in (refl, (tt, tt)), (tt, tt))
      (unfold program load_from_vars in refl) (unfold program in refl)
