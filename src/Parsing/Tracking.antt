-- ===== src/Parsing/Tracking.antt =====
-- dvc/parsing/context.py: what the selection of values does to a context, and `set`.
use python_dvc.Base.{
  String, ◌≡◌, refl, sym, ap, ◌∙◌, subst, Bool, true, false, not, ◌&&◌, ◌||◌, Option, none, some,
  List, [], ◌∷◌, ◌++◌, In, is_some, contains, ◌==◌, ==_iff, string_eq, if◌then◌else◌, Bool-cases,
  Option-cases, inl, inr, arith,
}
use python_dvc.Base.Dict.{Dict, put, get_or, get-put}
use python_dvc.Base.Result.{ok_injective, Result, ok, err, ◌>>◌, guard, >>=-eq-ok}
use python_dvc.Parsing.Nodes.{
  Node, ctx_dict, Data, prim, null, number, bool, default_meta, text, seq, dict, node, get_field,
  convert,
}
use python_dvc.Parsing.Text.{split_dots}
use python_dvc.Parsing.Interpolate.{
  Match, Piece, char, expr, Template, template_of, exact_match, is_interpolated,
}
use python_dvc.Parsing.Merge.Keys.{some_injective, get_field-put_field}
use python_dvc.Parsing.Context.{
  ContextFailure, key_not_in_context, parse_error, type_error, value_error, set_error, Context,
  select_parts, select, track_data, add_path, add_source, source_of, meta_of, parsed, primitive_of,
  interpolate, resolve_template, resolve_str, value_to_set, any_item, any_value, is_collection,
  has_match, as_set_error, set,
}

contains-add_path :
    (paths : List String) (p q : String)
    → contains (add_path paths p) q ≡ contains paths q || q == p
contains-add_path paths p q = elim (Bool-cases (contains paths p)) [
  | inl here ↦ rw here (ground (arith, ==_iff q p))
  | inr new ↦ rw new (last paths p q)
]
  where
    last : (xs : List String) (a b : String) → contains (xs ++ a ∷ []) b ≡ contains xs b || b == a
    last [] a b = ground arith
    last (x ∷ xs) a b = ground (arith, last xs a b)

-- A context that differs in nothing but more tracked paths.
pub record Grows (old new : Context) : Type 0 where
  pub items : new.items ≡ old.items
  pub meta : new.meta ≡ old.meta
  pub track : new.track ≡ old.track
  pub tracked :
      (source path : String)
      → contains (get_or old.tracked source []) path ≡ true
      → contains (get_or new.tracked source []) path ≡ true

Grows-refl : (ctx : Context) → Grows ctx ctx
Grows-refl ctx = record { items = refl; meta = refl; track = refl; tracked = λ s p h. h }

Grows-trans : (a b c : Context) → Grows a b → Grows b c → Grows a c
Grows-trans a b c g h = record {
  items = h.items ∙ g.items;
  meta = h.meta ∙ g.meta;
  track = h.track ∙ g.track;
  tracked = λ s p m. h.tracked s p (g.tracked s p m);
}

get_or-put :
    (d : Dict String (List String)) (k j : String) (v : List String)
    → get_or (put d k v) j [] ≡ (if j == k then v else get_or d j [])
get_or-put d k j v = elim (Bool-cases (j == k)) [
  | inl e ↦ rw (get_or, get-put d k j v, e) refl
  | inr e ↦ rw (get_or, get-put d k j v, e) refl
]

add_source-grows :
    (t : Dict String (List String)) (o : Option (Option String × String)) (source path : String)
    → contains (get_or t source []) path ≡ true
    → contains (get_or (add_source t o) source []) path ≡ true
add_source-grows t none source path h = h
add_source-grows t (some (none, p)) source path h = h
add_source-grows t (some (some s, p)) source path h = elim (Bool-cases (s == "")) [
  | inl e ↦ rw e h
  | inr e ↦
      rw (e, get_or-put t s source (add_path (get_or t s []) p))
        (elim (Bool-cases (source == s)) [
          | inl same ↦
              let h' : contains (get_or t s []) path ≡ true = rw (← (==_iff source s).0 same) h in
              rw same (rw (contains-add_path (get_or t s []) p path, h') refl)
          | inr other ↦ rw other h
        ])
]

track_data-Grows : (ctx : Context) (n : Node) → Grows ctx (track_data ctx n)
unfolding track_data
track_data-Grows ctx n = elim (Bool-cases (not ctx.track || (meta_of n).local)) [
  | inl e ↦ rw e (Grows-refl ctx)
  | inr e ↦ rw e (record {
    items = refl;
    meta = refl;
    track = refl;
    tracked = λ s p h. add_source-grows ctx.tracked (source_of n) s p h;
  })
]

-- What `select` finds
abbrev pub lookup : Context → String → Option Node
lookup ctx key = select_parts (some (ctx_dict ctx.meta ctx.items)) (split_dots key)

select-eq-ok :
    (ctx : Context) (key : String) {x : Node × Context}
    → select ctx key ≡ ok x
    → (lookup ctx key ≡ some x.0) × (x.1 ≡ track_data ctx x.0)
unfolding select
select-eq-ok ctx key {x} e = elim (Option-cases (lookup ctx key)) [
  | inl absent ↦ let bad = rw (absent, select) at e in cc
  | inr (n, found) ↦
      let last = ok_injective (rw (found, select) at e) in
      (
        found ∙ ap (λ t. some t.0) last,
        sym (ap (λ t. t.1) last) ∙ ap (λ t. track_data ctx t.0) last,
      )
]

tracks :
    (ctx : Context) (n : Node) (source path : String)
    → ctx.track ≡ true
    → (meta_of n).local ≡ false
    → source_of n ≡ some (some source, path)
    → (source == "") ≡ false
    → contains (get_or (track_data ctx n).tracked source []) path ≡ true
unfolding track_data
tracks ctx n source path on global from full =
    rw
      (
        on,
        global,
        from,
        full,
        get_or-put ctx.tracked source source (add_path (get_or ctx.tracked source []) path),
        (==_iff source source).1 refl,
      )
      (rw (contains-add_path (get_or ctx.tracked source []) path path, (==_iff path path).1 refl)
        (ground arith))

select-Grows :
    (ctx : Context) (key : String) {x : Node × Context} → select ctx key ≡ ok x → Grows ctx x.1
select-Grows ctx key {x} e =
    let (found, same) = select-eq-ok ctx key e in rw same (track_data-Grows ctx x.0)

lookup-Grows : (old new : Context) (key : String) → Grows old new → lookup new key ≡ lookup old key
lookup-Grows old new key g = rw (g.items, g.meta) refl

expr_injective : {m n : Match} → ◌≡◌ {A = Piece} (expr m) (expr n) → m ≡ n
expr_injective h = cc

behind_guard :
    {A : Type 0} (b : Bool) (f : ContextFailure) (r : Result ContextFailure A) {x : A}
    → (guard b f >> r) ≡ ok x
    → r ≡ ok x
behind_guard true f r e = e
behind_guard false f r e = cc

absent :
    (o : Option Node) (f : ContextFailure) {u : Unit {0}}
    → guard (not (is_some o)) f ≡ ok u
    → o ≡ none
absent none f e = refl
absent (some n) f e = cc

as_set_error-eq-ok :
    {A : Type 0} (key : String) (r : Result ContextFailure A) {a : A}
    → as_set_error key r ≡ ok a
    → r ≡ ok a
as_set_error-eq-ok key (ok b) e = e
as_set_error-eq-ok key (err type_error) e = cc
as_set_error-eq-ok key (err (key_not_in_context k)) e = cc
as_set_error-eq-ok key (err parse_error) e = cc
as_set_error-eq-ok key (err (value_error k)) e = cc
as_set_error-eq-ok key (err (set_error k)) e = cc

parsed-eq-ok : (o : Option String) {k : String} → parsed o ≡ ok k → o ≡ some k
parsed-eq-ok none e = cc
parsed-eq-ok (some s) e = cc

module _ (parse : String → Option String) where
  interpolate-Grows :
      (t : Template) (ctx : Context) {x : String × Context}
      → interpolate parse t ctx ≡ ok x
      → Grows ctx x.1
  unfolding interpolate
  interpolate-Grows [] ctx e = rw (← ok_injective e) (Grows-refl ctx)
  interpolate-Grows (char c ∷ ps) ctx e =
      let (rest, e1, e2) = >>=-eq-ok (interpolate parse ps ctx) _ e in
      subst (λ y. Grows ctx y.1) (ok_injective e2) (interpolate-Grows ps ctx e1)
  interpolate-Grows (expr m ∷ ps) ctx e =
      let (key, e1, e2) = >>=-eq-ok (parsed (parse m.inner)) _ e in
      let (found, e3, e4) = >>=-eq-ok (select ctx key) _ e2 in
      let (p, e5, e6) = >>=-eq-ok (primitive_of found.0) _ e4 in
      let (rest, e7, e8) = >>=-eq-ok (interpolate parse ps found.1) _ e6 in
      subst (λ y. Grows ctx y.1) (ok_injective e8)
        (Grows-trans ctx found.1 rest.1 (select-Grows ctx key e3) (interpolate-Grows ps found.1 e7))

  -- While a context tracks, each expression of a text that was filled in, whose value comes from a file,
  -- has its path recorded for that file.
  pub interpolate_tracks :
      (t : Template) (ctx : Context) (m : Match) (key source path : String) (n : Node)
      {x : String × Context}
      → ctx.track ≡ true
      → In (expr m) t
      → parse m.inner ≡ some key
      → lookup ctx key ≡ some n
      → source_of n ≡ some (some source, path)
      → (source == "") ≡ false
      → (meta_of n).local ≡ false
      → interpolate parse t ctx ≡ ok x
      → contains (get_or x.1.tracked source []) path ≡ true
  unfolding interpolate
  interpolate_tracks [] ctx m key source path n on here k l from full global e = absurd here
  interpolate_tracks (char c ∷ ps) ctx m key source path n on (inl no_match) k l from full global
        e =
      cc
  interpolate_tracks (char c ∷ ps) ctx m key source path n on (inr here) k l from full global e =
      let (rest, e1, e2) = >>=-eq-ok (interpolate parse ps ctx) _ e in
      subst (λ y. contains (get_or y.1.tracked source []) path ≡ true) (ok_injective e2)
        (interpolate_tracks ps ctx m key source path n on here k l from full global e1)
  interpolate_tracks (expr m' ∷ ps) ctx m key source path n on here k l from full global e =
      let (key', e1, e2) = >>=-eq-ok (parsed (parse m'.inner)) _ e in
      let (found, e3, e4) = >>=-eq-ok (select ctx key') _ e2 in
      let (p, e5, e6) = >>=-eq-ok (primitive_of found.0) _ e4 in
      let (rest, e7, e8) = >>=-eq-ok (interpolate parse ps found.1) _ e6 in
      let g = select-Grows ctx key' e3 in
      let (at, same) = select-eq-ok ctx key' e3 in
      subst (λ y. contains (get_or y.1.tracked source []) path ≡ true) (ok_injective e8)
        (elim here [
          | inl first ↦
              let same_match = expr_injective first in
              let same_key : key' ≡ key =
                some_injective (sym (parsed-eq-ok (parse m'.inner) e1) ∙ rw (← same_match) k) in
              let same_node : found.0 ≡ n =
                some_injective (sym at ∙ ap (lookup ctx) same_key ∙ l) in
              let now : contains (get_or found.1.tracked source []) path ≡ true =
                rw (same, same_node) (tracks ctx n source path on global from full) in
              (interpolate-Grows ps found.1 e7).tracked source path now
          | inr later ↦
              interpolate_tracks ps found.1 m key source path n (g.track ∙ on) later k
                (lookup-Grows ctx found.1 key g ∙ l) from full global e7
        ])

  resolve_template-Grows :
      (unwrapped : Bool) (t : Template) (o : Option Match) (ctx : Context) {x : Data × Context}
      → resolve_template parse unwrapped t o ctx ≡ ok x
      → Grows ctx x.1
  unfolding resolve_template
  resolve_template-Grows unwrapped t none ctx e =
      let (s, e1, e2) = >>=-eq-ok (interpolate parse t ctx) _ e in
      subst (λ y. Grows ctx y.1) (ok_injective e2) (interpolate-Grows t ctx e1)
  resolve_template-Grows unwrapped t (some m) ctx e =
      let (key, e1, e2) = >>=-eq-ok (parsed (parse m.inner)) _ e in
      let (found, e3, e4) = >>=-eq-ok (select ctx key) _ e2 in
      subst (λ y. Grows ctx y.1) (ok_injective e4) (select-Grows ctx key e3)

  pub resolve_str-Grows :
      (unwrapped : Bool) (src : String) (ctx : Context) {x : Data × Context}
      → resolve_str parse unwrapped src ctx ≡ ok x
      → Grows ctx x.1
  unfolding resolve_str
  resolve_str-Grows unwrapped src ctx e =
      resolve_template-Grows unwrapped (template_of src) (exact_match (template_of src)) ctx e

  value_to_set-Grows :
      (key : String) (d : Data) (ctx : Context) {x : Data × Context}
      → value_to_set parse key d ctx ≡ ok x
      → Grows ctx x.1
  unfolding value_to_set
  value_to_set-Grows key (prim (text s)) ctx e = resolve_str-Grows false s ctx (
      behind_guard
        (not (is_interpolated (template_of s) && not (is_some (exact_match (template_of s)))))
        (value_error key) (resolve_str parse false s ctx) e)
  value_to_set-Grows key (prim null) ctx e =
      subst (λ y. Grows ctx y.1) (ok_injective e) (Grows-refl ctx)
  value_to_set-Grows key (prim (number s)) ctx e =
      subst (λ y. Grows ctx y.1) (ok_injective e) (Grows-refl ctx)
  value_to_set-Grows key (prim (bool b)) ctx e =
      subst (λ y. Grows ctx y.1) (ok_injective e) (Grows-refl ctx)
  value_to_set-Grows key (node n) ctx e =
      subst (λ y. Grows ctx y.1) (ok_injective e) (Grows-refl ctx)
  value_to_set-Grows key (seq xs) ctx {x} e =
      let e1 =
        behind_guard (not (any_item is_collection xs)) (value_error key)
          (guard (not (any_item has_match xs)) (value_error key) >> ok (seq xs, ctx)) {x = x} e in
      let e2 =
        behind_guard (not (any_item has_match xs)) (value_error key) (ok (seq xs, ctx)) {x = x}
          e1 in
      subst (λ y. Grows ctx y.1) (ok_injective e2) (Grows-refl ctx)
  value_to_set-Grows key (dict es) ctx {x} e =
      let e1 =
        behind_guard (not (any_value is_collection es)) (value_error key)
          (guard (not (any_value has_match es)) (value_error key) >> ok (dict es, ctx)) {x = x} e in
      let e2 =
        behind_guard (not (any_value has_match es)) (value_error key) (ok (dict es, ctx)) {x = x}
          e1 in
      subst (λ y. Grows ctx y.1) (ok_injective e2) (Grows-refl ctx)

  -- A `set` that returned has added one key, which was not there, and has left all other keys as they were.
  pub set_adds :
      (ctx : Context) (key j : String) (val : Data) (source : Option String) {ctx' : Context}
      → set parse ctx key val source ≡ ok ctx'
      → (get_field ctx.items key ≡ none)
        × ((n : Node) × (get_field ctx'.items j
              ≡ (if j == key then some n else get_field ctx.items j)))
  unfolding set
  set_adds ctx key j val source e =
      let (u, e1, e2) =
        >>=-eq-ok (guard (not (is_some (get_field ctx.items key))) (value_error key)) _
          (as_set_error-eq-ok key _ e) in
      let (x, e3, e4) = >>=-eq-ok (value_to_set parse key val ctx) _ e2 in
      let n = convert x.0 (record default_meta { source = source }) in
      let g = value_to_set-Grows key val ctx e3 in
      (
        absent (get_field ctx.items key) (value_error key) e1,
        (
          n,
          subst (λ c. get_field c.items j ≡ (if j == key then some n else get_field ctx.items j))
              (ok_injective e4) (get_field-put_field x.1.items key j n ∙ rw g.items refl),
        ),
      )
