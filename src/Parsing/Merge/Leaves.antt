-- ===== src/Parsing/Merge/Leaves.antt =====
-- dvc/parsing/context.py: which values a merged context has.
use python_dvc.Base.{
  String, ◌≡◌, refl, sym, ◌∙◌, subst, false, Option, none, some, List, [], ◌∷◌, ◌==◌, string_eq,
  Bool-cases, inl, inr, ◌⊎◌,
}
use python_dvc.Base.Result.{ok}
use python_dvc.Parsing.Nodes.{
  Primitive, Meta, Node, value, ctx_list, ctx_dict, Fields, end, field, get_field,
}
use python_dvc.Parsing.Merge.{merge}
use python_dvc.Parsing.Merge.Keys.{
  IsDict, IsTree, kept, joined, taken, some_injective, merge-KeyOutcome,
}

get_field-IsTree :
    (fs : Fields) (k : String) {n : Node} → IsDict fs → get_field fs k ≡ some n → IsTree n
unfolding IsDict get_field
get_field-IsTree end k d e = cc
get_field-IsTree (field j m fs) k (alone, (tree, d)) e = elim (Bool-cases (k == j)) [
  | inl here ↦ subst IsTree (some_injective (rw here at e)) tree
  | inr other ↦ get_field-IsTree fs k d (rw other at e)
]

-- A node that is no dict
abbrev pub leaf : Option Node → Option Node
leaf (some (value p m)) = some (value p m)
leaf (some (ctx_list m ns)) = some (ctx_list m ns)
leaf (some (ctx_dict m fs)) = none
leaf none = none

abbrev pub fields_of : Option Node → Fields
fields_of (some (ctx_dict m fs)) = fs
fields_of _ = end

-- The value or list that stands in nested dicts below the given keys.
unfoldable pub leaf_at : Fields → List String → Option Node
leaf_at fs [] = none
leaf_at fs (k ∷ []) = leaf (get_field fs k)
leaf_at fs (k ∷ (l ∷ ks)) = leaf_at (fields_of (get_field fs k)) (l ∷ ks)

abbrev pub or_else {ℓ} : {A : Type ℓ} → Option A → Option A → Option A
or_else (some a) o = some a
or_else none o = o

or_else-none : {A : Type 0} (o : Option A) → or_else o none ≡ o
or_else-none none = refl
or_else-none (some a) = refl

leaf_at_end : (ks : List String) → leaf_at end ks ≡ none
unfolding leaf_at get_field
leaf_at_end [] = refl
leaf_at_end (k ∷ []) = refl
leaf_at_end (k ∷ (l ∷ ks)) = leaf_at_end (l ∷ ks)

-- After a merge that returned without `overwrite`, below each path of keys stands the value of the new
-- context, or else that of the old one; where the one has a value, the other has none.
pub merge_leaves :
    (into update : Fields) (path : List String) {merged : Fields}
    → IsDict update
    → merge false into update ≡ ok merged
    → (leaf_at merged path ≡ or_else (leaf_at update path) (leaf_at into path))
      × ((leaf_at update path ≡ none) ⊎ (leaf_at into path ≡ none))
unfolding leaf_at
merge_leaves into update [] d e = (refl, inl refl)
merge_leaves into update (k ∷ []) d e = elim (merge-KeyOutcome false into update k d e) [
  | kept a b ↦ rw (a, b) (refl, inl refl)
  | joined m m' fs us fs' a b c d' ↦ rw (a, b, d') (refl, inl refl)
  | taken n a b (inl c) ↦ cc
  | taken n a b (inr c) ↦ rw (a, b, c) (sym (or_else-none (leaf (some n))), inr refl)
]
merge_leaves into update (k ∷ (l ∷ ks)) {merged} d e =
    elim (merge-KeyOutcome false into update k d e) [
      | kept a b ↦ rw (a, b, leaf_at_end (l ∷ ks)) (refl, inl refl)
      | joined m m' fs us fs' a b c d' ↦
          let tree = get_field-IsTree update k d b in
          rw (a, b, d') (merge_leaves fs us (l ∷ ks) (unfold IsDict in tree) c)
      | taken n a b (inl c) ↦ cc
      | taken n a b (inr c) ↦
          rw (a, b, c, leaf_at_end (l ∷ ks))
            (sym (or_else-none (leaf_at (fields_of (some n)) (l ∷ ks))), inr refl)
    ]

-- After a merge that returned without `overwrite`, of a new context whose dicts have each key once, a primitive
-- value that stands below a path of keys in the new or in the old context stands there.
pub merge_adds :
    (into update merged : Fields) (path : List String) (p : Primitive) (m : Meta)
    → IsDict update
    → merge false into update ≡ ok merged
    → (leaf_at update path ≡ some (value p m)) ⊎ (leaf_at into path ≡ some (value p m))
    → leaf_at merged path ≡ some (value p m)
merge_adds into update merged path p m d e given =
    let (below, apart) = merge_leaves into update path d e in
    elim given [
      | inl new ↦ below ∙ rw new refl
      | inr old ↦ elim apart [ inl nothing ↦ below ∙ rw (nothing, old) refl | inr nothing ↦ cc ]
    ]
