-- ===== src/Parsing/Merge/Keys.antt =====
-- dvc/parsing/context.py: what a merge does at each key.
use python_dvc.Base.{
  String, ◌≡◌, refl, sym, ap, ◌∙◌, Bool, true, false, Option, none, some, if◌then◌else◌, ◌==◌,
  ==_iff, string_eq, Bool-cases, Option-cases, inl, inr, ◌⊎◌, arith,
}
use python_dvc.Base.Result.{ok_injective, ok, >>=-eq-ok}
use python_dvc.Parsing.Nodes.{
  Meta, Node, value, ctx_list, ctx_dict, Fields, end, field, get_field, put_field,
}
use python_dvc.Parsing.Merge.{mapping_of, set_key, merge, merge_key}

-- No dict has a key twice.
unfoldable mutual
  pub IsDict : Fields → Type 0
  IsDict end = Unit
  IsDict (field k n fs) = (get_field fs k ≡ none) × (IsTree n × IsDict fs)

  pub IsTree : Node → Type 0
  IsTree (value p m) = Unit
  IsTree (ctx_list m ns) = Unit
  IsTree (ctx_dict m fs) = IsDict fs

pub get_field-put_field :
    (fs : Fields) (k j : String) (n : Node)
    → get_field (put_field fs k n) j ≡ (if j == k then some n else get_field fs j)
unfolding get_field put_field
get_field-put_field end k j n = refl
get_field-put_field (field i m fs) k j n =
    ground (arith, get_field-put_field fs k j n, ==_iff j i, ==_iff k i, ==_iff j k)

-- What a merge does at one key.
pub data KeyOutcome (overwrite : Bool) (into update merged : Fields) (j : String) : Type 0 where
  kept :
      get_field update j ≡ none
      → get_field merged j ≡ get_field into j
      → KeyOutcome overwrite into update merged j
  joined :
      (m m' : Meta) (fs us fs' : Fields)
      → get_field into j ≡ some (ctx_dict m' fs)
      → get_field update j ≡ some (ctx_dict m us)
      → merge overwrite fs us ≡ ok fs'
      → get_field merged j ≡ some (ctx_dict m' fs')
      → KeyOutcome overwrite into update merged j
  taken :
      (n : Node)
      → get_field update j ≡ some n
      → get_field merged j ≡ some n
      → (overwrite ≡ true) ⊎ (get_field into j ≡ none)
      → KeyOutcome overwrite into update merged j

-- What one round does.
data RoundOutcome (overwrite : Bool) (into : Fields) (key : String) (n : Node) (into' : Fields)
    : Type 0 where
  round_joined :
      (m m' : Meta) (fs us fs' : Fields)
      → n ≡ ctx_dict m us
      → get_field into key ≡ some (ctx_dict m' fs)
      → merge overwrite fs us ≡ ok fs'
      → into' ≡ put_field into key (ctx_dict m' fs')
      → RoundOutcome overwrite into key n into'
  round_taken :
      into' ≡ put_field into key n
      → (overwrite ≡ true) ⊎ (get_field into key ≡ none)
      → RoundOutcome overwrite into key n into'

set_key-RoundOutcome :
    (overwrite : Bool) (into : Fields) (key : String) (n : Node) {into' : Fields}
    → set_key overwrite into key n ≡ ok into'
    → RoundOutcome overwrite into key n into'
unfolding set_key
set_key-RoundOutcome overwrite into key n e = elim (Option-cases (get_field into key)) [
  | inl free ↦ round_taken (ground arith) (inr free)
  | inr (old, here) ↦ elim (Bool-cases overwrite) [
    | inl o ↦ round_taken (ground arith) (inl o)
    | inr o ↦ absurd (ground arith)
  ]
]

mapping_of-cases :
    (o : Option Node)
    → (mapping_of o ≡ none) ⊎ ((m : Meta) × (fs : Fields) × (o ≡ some (ctx_dict m fs)))
unfolding mapping_of
mapping_of-cases none = inl refl
mapping_of-cases (some (value p m)) = inl refl
mapping_of-cases (some (ctx_list m ns)) = inl refl
mapping_of-cases (some (ctx_dict m fs)) = inr (m, fs, refl)

pub some_injective : {A : Type 0} {a b : A} → ◌≡◌ {A = Option A} (some a) (some b) → a ≡ b
some_injective h = cc

merge_key-RoundOutcome :
    (overwrite : Bool) (into : Fields) (key : String) (n : Node) {into' : Fields}
    → merge_key overwrite into key n ≡ ok into'
    → RoundOutcome overwrite into key n into'
unfolding merge
merge_key-RoundOutcome overwrite into key (value p m) e =
    set_key-RoundOutcome overwrite into key (value p m) e
merge_key-RoundOutcome overwrite into key (ctx_list m ns) e =
    set_key-RoundOutcome overwrite into key (ctx_list m ns) e
merge_key-RoundOutcome overwrite into key (ctx_dict m us) {into'} e =
    elim (mapping_of-cases (get_field into key)) [
      | inl free ↦ set_key-RoundOutcome overwrite into key (ctx_dict m us) (rw free at e)
      | inr (m', fs, here) ↦
          let dict_here : mapping_of (get_field into key) ≡ some (m', fs) =
            rw here (unfold mapping_of in refl) in
          let (fs', merged, last) = >>=-eq-ok (merge overwrite fs us) _ (rw dict_here at e) in
          round_joined m m' fs us fs' refl here merged (sym (ok_injective last))
    ]

kept_of :
    {overwrite : Bool} {into update merged : Fields} {j : String}
    → get_field update j ≡ none
    → KeyOutcome overwrite into update merged j
    → get_field merged j ≡ get_field into j
kept_of free (kept a b) = b
kept_of free (joined m m' fs us fs' a b c d) = cc
kept_of free (taken x a b c) = cc

untouched :
    (overwrite : Bool) (into : Fields) (key j : String) (n : Node) (into' : Fields)
    → (j == key) ≡ false
    → RoundOutcome overwrite into key n into'
    → get_field into' j ≡ get_field into j
untouched overwrite into key j n into' other (round_joined m m' fs us fs' a b c d) =
    rw (d, get_field-put_field into key j (ctx_dict m' fs'), other) refl
untouched overwrite into key j n into' other (round_taken a b) =
    rw (a, get_field-put_field into key j n, other) refl

last_round :
    (overwrite : Bool) (into into' merged : Fields) (key j : String) (n : Node) (rest : Fields)
    → j ≡ key
    → RoundOutcome overwrite into key n into'
    → get_field merged j ≡ get_field into' j
    → KeyOutcome overwrite into (field key n rest) merged j
unfolding get_field
last_round overwrite into into' merged key j n rest same (round_joined m m' fs us fs' a b c d) e =
    let here : (j == key) ≡ true = (==_iff j key).1 same in
    joined m m' fs us fs' (rw same b) (rw here (ap some a)) c
      (e ∙ rw (d, get_field-put_field into key j (ctx_dict m' fs'), here) refl)
last_round overwrite into into' merged key j n rest same (round_taken a b) e =
    let here : (j == key) ≡ true = (==_iff j key).1 same in
    taken n (rw here refl) (e ∙ rw (a, get_field-put_field into key j n, here) refl)
      (elim b [ inl o ↦ inl o | inr free ↦ inr (rw same free) ])

-- One round, and the merge of the rest behind it.
after_round :
    (overwrite : Bool) (into into' merged : Fields) (key j : String) (n : Node) (rest : Fields)
    → get_field rest key ≡ none
    → RoundOutcome overwrite into key n into'
    → KeyOutcome overwrite into' rest merged j
    → KeyOutcome overwrite into (field key n rest) merged j
unfolding get_field
after_round overwrite into into' merged key j n rest alone r o = elim (Bool-cases (j == key)) [
  | inl here ↦
      let same = (==_iff j key).0 here in
      let rest_none : get_field rest j ≡ none = rw same alone in
      last_round overwrite into into' merged key j n rest same r (kept_of rest_none o)
  | inr other ↦
      let into_same : get_field into' j ≡ get_field into j =
        untouched overwrite into key j n into' other r in
      go other into_same o
]
  where
    go :
        (j == key) ≡ false
        → get_field into' j ≡ get_field into j
        → KeyOutcome overwrite into' rest merged j
        → KeyOutcome overwrite into (field key n rest) merged j
    go other same (kept a b) = kept (rw other a) (b ∙ same)
    go other same (joined m m' fs us fs' a b c d) =
        joined m m' fs us fs' (sym same ∙ a) (rw other b) c d
    go other same (taken x a b (inl c)) = taken x (rw other a) b (inl c)
    go other same (taken x a b (inr c)) = taken x (rw other a) b (inr (sym same ∙ c))

-- A merge that returned, at each key.
pub merge-KeyOutcome :
    (overwrite : Bool) (into update : Fields) (j : String) {merged : Fields}
    → IsDict update
    → merge overwrite into update ≡ ok merged
    → KeyOutcome overwrite into update merged j
unfolding merge IsDict get_field
merge-KeyOutcome overwrite into end j d e =
    kept refl (ap (λ fs. get_field fs j) (sym (ok_injective e)))
merge-KeyOutcome overwrite into (field key n rest) j {merged} (alone, (tree, d)) e =
    let (into', e1, e2) = >>=-eq-ok (merge_key overwrite into key n) _ e in
    after_round overwrite into into' merged key j n rest alone
      (merge_key-RoundOutcome overwrite into key n e1)
      (merge-KeyOutcome overwrite into' rest j d e2)
