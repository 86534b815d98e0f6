-- ===== src/RunCache/Keys.antt =====
-- dvc/stage/cache.py and dvc/utils/__init__.py: what the keys of the run cache do not see.
use python_dvc.Base.{
  String, ◌≡◌, refl, ap, Bool, Option, some, List, [], ◌∷◌, string_eq, if◌then◌else◌, Bool-cases,
  inl, inr,
}
use python_dvc.Base.Dict.{Dict}
use python_dvc.Lock.Defs.{Entry}
use python_dvc.RunCache.Defs.{
  Json, Object, field, object, Lock, dict_filter, filter_fields, is_excluded, values_fields,
  params_fields, get_cache_hash, deps_then, params_then, command_json,
}

-- The values of the params without those called `size` or `nfiles`.
abbrev pub without_excluded : Dict String Json → Dict String Json
without_excluded [] = []
without_excluded ((k, v) ∷ d) =
    let rest = without_excluded d in
    let kept = (k, v) ∷ rest in if is_excluded (some k) then rest else kept

abbrev pub params_without_excluded : Dict String (Dict String Json) → Dict String (Dict String Json)
params_without_excluded [] = []
params_without_excluded ((path, kv) ∷ d) = (path, without_excluded kv) ∷ params_without_excluded d

values_filtered :
    (kv : Dict String Json)
    → filter_fields (values_fields (without_excluded kv)) ≡ filter_fields (values_fields kv)
unfolding filter_fields
values_filtered [] = refl
values_filtered ((k, v) ∷ kv) = elim (Bool-cases (is_excluded (some k))) [
  | inl out ↦ rw out (values_filtered kv)
  | inr kept ↦ rw kept (rw (kept, values_filtered kv) refl)
]

params_filtered :
    (ps : Dict String (Dict String Json))
    → filter_fields (params_fields (params_without_excluded ps)) ≡ filter_fields (params_fields ps)
unfolding filter_fields dict_filter
params_filtered [] = refl
params_filtered ((path, kv) ∷ ps) = elim (Bool-cases (is_excluded (some path))) [
  | inl out ↦ rw out (params_filtered ps)
  | inr kept ↦ rw (kept, values_filtered kv, params_filtered ps) refl
]

-- Fields with the same values that count, behind one more
field_filtered :
    (k : Option String) (j : Json) (a b : Object)
    → filter_fields a ≡ filter_fields b
    → filter_fields (field k j a) ≡ filter_fields (field k j b)
unfolding filter_fields
field_filtered k j a b same = rw same refl

field_same :
    (k : Option String) (a b : Object) (rest : Object)
    → filter_fields a ≡ filter_fields b
    → filter_fields (field k (object a) rest) ≡ filter_fields (field k (object b) rest)
unfolding filter_fields dict_filter
field_same k a b rest same = rw same refl

params_then_filtered :
    (ps : Dict String (Dict String Json)) (rest : Object)
    → filter_fields (params_then (params_without_excluded ps) rest)
      ≡ filter_fields (params_then ps rest)
params_then_filtered [] rest = refl
params_then_filtered ((path, kv) ∷ ps) rest =
    field_same (some "params") (params_fields (params_without_excluded ((path, kv) ∷ ps)))
      (params_fields ((path, kv) ∷ ps)) rest (params_filtered ((path, kv) ∷ ps))

deps_then_filtered :
    (es : List Entry) (a b : Object)
    → filter_fields a ≡ filter_fields b
    → filter_fields (deps_then es a) ≡ filter_fields (deps_then es b)
deps_then_filtered [] a b same = same
deps_then_filtered (e ∷ es) a b same = field_filtered (some "deps") _ a b same

-- The keys of the run cache are those of the lock data without the params that are called size or nfiles: a
-- change of such a param does not change the key.
pub get_cache_hash-params :
    (digest : Json → String) (lock : Lock) (key : Bool)
    → get_cache_hash digest (record lock { params = params_without_excluded lock.params }) key
      ≡ get_cache_hash digest lock key
unfolding get_cache_hash dict_filter
get_cache_hash-params digest lock key =
    ap (λ fields. digest (object fields))
      (field_filtered (some "cmd") (command_json lock.cmd) _ _
        (deps_then_filtered lock.deps _ _ (params_then_filtered lock.params _)))
