-- ===== src/Parsing/Resolver/Keeps.antt =====
-- dvc/parsing/__init__.py: loading `vars` never changes a value that is there.
use python_dvc.Base.{
  ℕ, suc, String, ◌≡◌, refl, ◌∙◌, subst, false, not, ◌&&◌, some, List, [], ◌∷◌, All, is_empty,
  is_some, Bool-cases, Option-cases, inl, inr, string_eq,
}
use python_dvc.Base.Dict.{get, put}
use python_dvc.Base.Result.{ok_injective, Result, ok, err, ◌>>=◌, >>=-eq-ok}
use python_dvc.Parsing.Nodes.{Meta, default_meta, Node, Fields, convert_entries}
use python_dvc.Parsing.Merge.{MergeFailure, merge}
use python_dvc.Parsing.Merge.Keys.{IsDict}
use python_dvc.Parsing.Merge.Leaves.{leaf_at, merge_leaves}
use python_dvc.Parsing.Context.{Context}
use python_dvc.Parsing.Resolver.{
  Files, Var, file, inline, Imported, check_loaded, merged, merge_update, load_from, keys_of,
  path_of, loaded_keys, load_file, var_source, load_from_vars,
}

-- Each value of the old context is in the new one.
abbrev Keeps : Context → Context → Type 0
Keeps old new =
    (path : List String) (n : Node)
    → leaf_at old.items path ≡ some n
    → leaf_at new.items path ≡ some n

merge_update-Keeps :
    (ctx : Context) (fs : Fields) {ctx' : Context}
    → IsDict fs
    → merge_update ctx fs ≡ ok ctx'
    → Keeps ctx ctx'
unfolding merge_update
merge_update-Keeps ctx fs {ctx'} d e path n here = go (merge false ctx.items fs) refl e
  where
    go :
        (r : Result MergeFailure Fields)
        → merge false ctx.items fs ≡ r
        → merged ctx r ≡ ok ctx'
        → leaf_at ctx'.items path ≡ some n
    go (err f) same h = cc
    go (ok gs) same h =
        let (leaf, apart) = merge_leaves ctx.items fs path d same in
        subst (λ c. leaf_at c.items path ≡ some n) (ok_injective h)
          (elim apart [ inl new_none ↦ leaf ∙ rw (new_none, here) refl | inr old_none ↦ cc ])

Keeps-trans : (a b c : Context) → Keeps a b → Keeps b c → Keeps a c
Keeps-trans a b c g h path n m = h path n (g path n m)

-- The inline dicts of `vars` have each key once.
abbrev pub IsVar : Var → Type 0
IsVar (file it) = Unit
IsVar (inline es) = (m : Meta) → IsDict (convert_entries es m)

module _ (files : Files) where
  -- So have the files, and so has a selection of their keys.
  abbrev pub HasDicts : Type 0
  HasDicts =
      (path : String) (keys : List String) (fs : Fields)
      → load_from files path keys ≡ ok fs
      → IsDict fs

  loaded-Keeps :
      (ctx : Context) (skip : Imported) (path : String) (keys : List String)
      {x : Context × Imported}
      → HasDicts
      → (load_from files path keys >>= λ fs.
          merge_update ctx fs >>= λ ctx'. ok (ctx', put skip path (loaded_keys files keys)))
        ≡ ok x
      → Keeps ctx x.0
  loaded-Keeps ctx skip path keys {x} dicts e =
      let (fs, e1, e2) = >>=-eq-ok (load_from files path keys) _ e in
      let (ctx', e3, e4) = >>=-eq-ok (merge_update ctx fs) _ e2 in
      subst (λ y. Keeps ctx y.0) (ok_injective e4)
        (merge_update-Keeps ctx fs (dicts path keys fs e1) e3)

  load_file-Keeps :
      (ctx : Context) (skip : Imported) (wdir it : String) {x : Context × Imported}
      → HasDicts
      → load_file files ctx skip wdir it ≡ ok x
      → Keeps ctx x.0
  unfolding load_file
  load_file-Keeps ctx skip wdir it {x} dicts e =
      elim (Option-cases (get skip (path_of files wdir it))) [
        | inl new ↦ loaded-Keeps ctx skip _ _ dicts (rw (new, load_file) at e)
        | inr (before, found) ↦
            elim (Bool-cases (is_empty (keys_of files it) && not (is_some before))) [
              | inl again ↦
                  subst (λ y. Keeps ctx y.0) (ok_injective (rw (found, again, load_file) at e))
                    (λ path n m. m)
              | inr partly ↦
                  let (u, e1, e2) =
                    >>=-eq-ok (check_loaded it (keys_of files it) before) _
                      (rw (found, partly, load_file) at e) in
                  loaded-Keeps ctx skip _ _ dicts e2
            ]
      ]

  -- Loading `vars` leaves each value of the context where it was, whatever files and dicts they name.
  pub load_from_vars_keeps :
      (ctx : Context) (vars : List Var) (wdir : String) (skip : Imported) (stage : String)
      (index : ℕ) (path : List String) (n : Node) {x : Context × Imported}
      → HasDicts
      → All IsVar vars
      → load_from_vars files ctx vars wdir skip stage index ≡ ok x
      → leaf_at ctx.items path ≡ some n
      → leaf_at x.0.items path ≡ some n
  unfolding load_from_vars
  load_from_vars_keeps ctx [] wdir skip stage index path n dicts vs e here =
      subst (λ y. leaf_at y.0.items path ≡ some n) (ok_injective e) here
  load_from_vars_keeps ctx (file it ∷ vars) wdir skip stage index path n dicts (v, vs) e here =
      let (y, e1, e2) = >>=-eq-ok (load_file files ctx skip wdir it) _ e in
      load_from_vars_keeps y.0 vars wdir y.1 stage (suc index) path n dicts vs e2
        (load_file-Keeps ctx skip wdir it dicts e1 path n here)
  load_from_vars_keeps ctx (inline es ∷ vars) wdir skip stage index path n dicts (v, vs) e here =
      let m : Meta = record default_meta { source = some (var_source files stage index) } in
      let (ctx', e1, e2) = >>=-eq-ok (merge_update ctx (convert_entries es m)) _ e in
      load_from_vars_keeps ctx' vars wdir skip stage (suc index) path n dicts vs e2
        (merge_update-Keeps ctx (convert_entries es m) (v m) e1 path n here)
