-- ===== src/Lock/Lookup.antt =====
-- dvc/stage/serialize.py and dvc/stage/loader.py: an entry that is written is found under its path.
use python_dvc.Base.{
  String, ◌≡◌, ◌≢◌, refl, sym, ap, ◌∙◌, true, false, Option, none, some, List, [], ◌∷◌, map, In,
  is_some, if◌then◌else◌, Bool-cases, ◌⊎◌, inl, inr, arith, ◌==◌, ==_iff, string_eq,
}
use python_dvc.Base.Dict.{Dict, get, put, remove, get_or, get-put}
use python_dvc.Base.Result.{ok}
use python_dvc.Output.HashInfo.{
  HashInfo, Field, null, text, number, field_eq, key_eq, to_dict, from_dict, put_given, is_true,
  no_hash, param_size, param_nfiles, from_dict-to_dict,
}
use python_dvc.Lock.Defs.{Item, Entry, param_path, put_all, dumpd, by_path}

-- The name of a checksum is none of the keys that an entry has besides.
pub record IsOrdinary (h : HashInfo) : Type 0 where
  pub not_path : h.name ≢ param_path
  pub not_size : h.name ≢ param_size
  pub not_nfiles : h.name ≢ param_nfiles

some_injective : {A : Type 0} {a b : A} → ◌≡◌ {A = Option A} (some a) (some b) → a ≡ b
some_injective h = cc

differ : (a b : Option String) → a ≢ b → (a == b) ≡ false
differ a b d = ground (arith, ==_iff a b)

-- A first key that the pairs do not have stays in front.
put_all_front :
    (k : Option String) (v : Field) (d pairs : Entry)
    → get pairs k ≡ none
    → put_all ((k, v) ∷ d) pairs ≡ (k, v) ∷ put_all d pairs
unfolding put_all put get
put_all_front k v d [] h = refl
put_all_front k v d ((j, w) ∷ pairs) h =
    ground (arith, put_all_front k v (put d j w) pairs, ==_iff k j, ==_iff j k)

put_given_all :
    (name : Option String) (value size nfiles : Field)
    → name ≢ param_size
    → name ≢ param_nfiles
    → put_all [] (put_given (put_given ((name, value) ∷ []) param_size size) param_nfiles nfiles)
      ≡ put_given (put_given ((name, value) ∷ []) param_size size) param_nfiles nfiles
unfolding put_all put key_eq
put_given_all name value null null d e = refl
put_given_all name value null (text s) d e =
    ground (arith, differ param_size name, differ param_nfiles name)
put_given_all name value null (number n) d e =
    ground (arith, differ param_size name, differ param_nfiles name)
put_given_all name value (text s) null d e =
    ground (arith, differ param_size name, differ param_nfiles name)
put_given_all name value (number s) null d e =
    ground (arith, differ param_size name, differ param_nfiles name)
put_given_all name value (number s) (text n) d e =
    ground (arith, differ param_size name, differ param_nfiles name)
put_given_all name value (number s) (number n) d e =
    ground (arith, differ param_size name, differ param_nfiles name)
put_given_all name value (text s) (number n) d e =
    ground (arith, differ param_size name, differ param_nfiles name)
put_given_all name value (text s) (text n) d e =
    ground (arith, differ param_size name, differ param_nfiles name)

-- Giving a field leaves the other keys.
get-put_given :
    (d : Entry) (k j : Option String) (f : Field)
    → (j == k) ≡ false
    → get (put_given d k f) j ≡ get d j
get-put_given d k j null h = refl
get-put_given d k j (text s) h = rw (get-put d k j (text s), h) refl
get-put_given d k j (number n) h = rw (get-put d k j (number n), h) refl

to_dict-no_path : (h : HashInfo) → h.name ≢ param_path → get (to_dict h) param_path ≡ none
unfolding to_dict get put key_eq
to_dict-no_path h d = elim (Bool-cases (is_true h.value)) [
  | inr e ↦ rw e refl
  | inl e ↦ rw e (
      get-put_given (put_given ((h.name, h.value) ∷ []) param_size h.size) param_nfiles param_path
        h.nfiles refl
      ∙ get-put_given ((h.name, h.value) ∷ []) param_size param_path h.size refl
      ∙ rw (differ param_path h.name (λ p. d (sym p))) refl)
]

to_dict_again : (h : HashInfo) → IsOrdinary h → put_all [] (to_dict h) ≡ to_dict h
unfolding to_dict put_all
to_dict_again h o = elim (Bool-cases (is_true h.value)) [
  | inr e ↦ rw e refl
  | inl e ↦
      rw e (unfold put in put_given_all h.name h.value h.size h.nfiles o.not_size o.not_nfiles)
]

-- What is written has the path in front of the checksum.
dumpd-front :
    (i : Item)
    → IsOrdinary i.hash_info
    → dumpd i ≡ (param_path, text i.def_path) ∷ to_dict i.hash_info
unfolding dumpd
dumpd-front i o =
    put_all_front param_path (text i.def_path) [] (to_dict i.hash_info)
      (to_dict-no_path i.hash_info o.not_path)
    ∙ ap (λ d. (param_path, text i.def_path) ∷ d) (to_dict_again i.hash_info o)

dumpd-path :
    (i : Item) → IsOrdinary i.hash_info → get_or (dumpd i) param_path null ≡ text i.def_path
dumpd-path i o = rw (dumpd-front i o) (unfold get key_eq in refl)

remove_none : (d : Entry) (k : Option String) → get d k ≡ none → remove d k ≡ d
unfolding get remove
remove_none [] k h = refl
remove_none ((j, v) ∷ d) k h = ground (arith, remove_none d k)

remove_path :
    (p : Field) (d : Entry) → get d param_path ≡ none → remove ((param_path, p) ∷ d) param_path ≡ d
unfolding remove key_eq
remove_path p d h = remove_none d param_path h

-- The checksum is read back from the entry.
pub from_dict-dumpd :
    (i : Item)
    → IsOrdinary i.hash_info
    → from_dict (remove (dumpd i) param_path)
      ≡ ok (if is_true i.hash_info.value then i.hash_info else no_hash)
from_dict-dumpd i o =
    ap (λ d. from_dict (remove d param_path)) (dumpd-front i o)
    ∙ ap from_dict (
        remove_path (text i.def_path) (to_dict i.hash_info)
          (to_dict-no_path i.hash_info o.not_path))
    ∙ from_dict-to_dict i.hash_info o.not_size o.not_nfiles

text_injective : {a b : String} → text a ≡ text b → a ≡ b
text_injective h = cc

-- An entry that is found under a path stood there before, or is one of those that were put.
pub by_path-source :
    (acc : Dict Field Entry) (items : List Item) (k : String) (e : Entry)
    → ((i : Item) → In i items → IsOrdinary i.hash_info)
    → get (by_path acc (map dumpd items)) (text k) ≡ some e
    → (get acc (text k) ≡ some e) ⊎ ((j : Item) × In j items × (dumpd j ≡ e) × (j.def_path ≡ k))
unfolding by_path
by_path-source acc [] k e o h = inl h
by_path-source acc (i ∷ items) k e o h = do
  let here = dumpd-path i (o i (inl refl))
  elim (by_path-source (put acc (get_or (dumpd i) param_path null) (dumpd i)) items k e
      (λ j m. o j (inr m)) h) [
        | inr (j, m, same, at) ↦ inr (j, inr m, same, at)
        | inl before ↦ elim (Bool-cases (text k == text i.def_path)) [
          | inl same ↦ inr (
            i,
            inl refl,
            some_injective
                (rw (here, get-put acc (text i.def_path) (text k) (dumpd i), same) at before),
            sym (text_injective ((==_iff _ _).0 same)),
          )
          | inr other ↦
              inl (rw (here, get-put acc (text i.def_path) (text k) (dumpd i), other) at before)
        ]
      ]

put_has :
    (items : List Item) (acc : Dict Field Entry) (i : Item) (k : String)
    → get_or (dumpd i) param_path null ≡ text i.def_path
    → (is_some (get acc (text k)) ≡ true) ⊎ ((j : Item) × In j (i ∷ items) × (j.def_path ≡ k))
    → (is_some (get (put acc (get_or (dumpd i) param_path null) (dumpd i)) (text k)) ≡ true)
      ⊎ ((j : Item) × In j items × (j.def_path ≡ k))
put_has items acc i k here (inr (j, inr m, at)) = inr (j, m, at)
put_has items acc i k here (inr (j, inl same, at)) = inl (
    rw (here, get-put acc (text i.def_path) (text k) (dumpd i))
      (rw ((==_iff (text k) (text i.def_path)).1 (ap text (sym at ∙ ap (λ x. x.def_path) same)))
        refl))
put_has items acc i k here (inl h) = inl (
    rw (here, get-put acc (text i.def_path) (text k) (dumpd i))
      (elim (Bool-cases (text k == text i.def_path)) [
        | inl same ↦ rw same refl
        | inr other ↦ rw other h
      ]))

-- The path of each item has an entry.
pub by_path-has :
    (acc : Dict Field Entry) (items : List Item) (k : String)
    → ((i : Item) → In i items → IsOrdinary i.hash_info)
    → (is_some (get acc (text k)) ≡ true) ⊎ ((j : Item) × In j items × (j.def_path ≡ k))
    → is_some (get (by_path acc (map dumpd items)) (text k)) ≡ true
unfolding by_path
by_path-has acc [] k o (inl h) = h
by_path-has acc [] k o (inr (j, m, at)) = elim m [ ]
by_path-has acc (i ∷ items) k o h =
    by_path-has (put acc (get_or (dumpd i) param_path null) (dumpd i)) items k (λ j m. o j (inr m))
      (put_has items acc i k (dumpd-path i (o i (inl refl))) h)
