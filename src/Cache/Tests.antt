-- ===== src/Cache/Tests.antt =====
-- Runs of the named cache.
use python_dvc.Base.{◌≡◌, refl, ◌||◌, [], ◌∷◌, contains, string_eq}
use python_dvc.Base.Dict.{get, put}
use python_dvc.Cache.Named.{
  item, nil, child, Scheme, update_scheme, scheme_keys, update_item, child_or_new, put_child,
  item_child_keys, update_names,
}
use python_dvc.Cache.Keys.{scheme_keys-update_scheme}

abbrev ours : Scheme
ours = ("d1.dir", item ("data" ∷ []) (child "f1" (item ("data/a" ∷ []) nil) nil)) ∷ []

abbrev theirs : Scheme
theirs =
    ("d1.dir", item ("data" ∷ []) (child "f2" (item ("data/b" ∷ []) nil) nil))
    ∷ ("f3", item ("model" ∷ []) nil)
    ∷ []

keys_run : scheme_keys (update_scheme ours theirs "") ≡ "d1.dir" ∷ "f1" ∷ "f2" ∷ "f3" ∷ []
unfolding update_scheme scheme_keys update_item child_or_new put_child item_child_keys update_names
    get put string_eq
keys_run = refl

scheme_keys-update_scheme_example :
    contains (scheme_keys (update_scheme ours theirs "")) "f2"
    ≡ contains (scheme_keys ours) "f2" || contains (scheme_keys theirs) "f2"
scheme_keys-update_scheme_example = scheme_keys-update_scheme ours theirs "" "f2"
