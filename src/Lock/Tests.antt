-- ===== src/Lock/Tests.antt =====
-- A stage with a checksum, without one, and with two files of params.
use python_dvc.Base.{
  String, ℕ, ◌≡◌, refl, sym, ap, ◌∙◌, subst, ◌≢◌, ◌==◌, ==_iff, arith, true, false, Option, none,
  some, if◌then◌else◌, [], ◌∷◌, In, inl, inr, string_eq, nat_eq,
}
use python_dvc.Base.Dict.{get, put, remove}
use python_dvc.Base.Result.{ok, ◌>>=◌}
use python_dvc.Output.HashInfo.{HashInfo, null, text, number, no_hash, to_dict, key_eq}
use python_dvc.Lock.Defs.{
  LockedStage, LockData, single, pick, sort_by, load_locked, is_given, serialize_params_values,
  to_single_stage_lockfile,
}
use python_dvc.Lock.File.{dump, remove_stage, lock_of, dump-remove_stage}
use python_dvc.Lock.Lookup.{IsOrdinary}
use python_dvc.Lock.RoundTrip.{IsWritable, blank_stage, restored_stage, load-to_lockfile}

abbrev md5 : String → HashInfo
md5 s = record { name = some "md5"; value = text s; size = number 12; nfiles = null }

abbrev train : LockedStage ℕ
train = record {
  cmd = single "python train.py";
  deps =
      record { def_path = "train.py"; hash_info = md5 "11ab" }
      ∷ record { def_path = "data"; hash_info = no_hash }
      ∷ [];
  params =
      record {
        def_path = "more.yaml";
        params = "lr" ∷ "epochs" ∷ [];
        info = ("lr", 3) ∷ ("epochs", 10) ∷ [];
      }
      ∷ record { def_path = "params.yaml"; params = "seed" ∷ []; info = ("seed", 7) ∷ [] }
      ∷ [];
  outs = record { def_path = "model"; hash_info = md5 "22cd" } ∷ [];
}

-- The default file comes first, and the values are sorted.
values_of_train :
    serialize_params_values train.params
    ≡ (("params.yaml", ("seed", 7) ∷ []) ∷ ("more.yaml", ("epochs", 10) ∷ ("lr", 3) ∷ []) ∷ [])
unfolding serialize_params_values string_eq sort_by get put remove
values_of_train = refl

some_injective : {A : Type 0} {a b : A} → ◌≡◌ {A = Option A} (some a) (some b) → a ≡ b
some_injective h = cc

by_test : (a b : String) → (a == b) ≡ false → a ≢ b
by_test a b h = ground (arith, ==_iff a b)

module _ {A : Type 0} (path : A → String) (a : A) where
  one_unique : (i j : A) → In i (a ∷ []) → In j (a ∷ []) → path i ≡ path j → i ≡ j
  one_unique i j (inl p) (inl q) e = p ∙ sym q
  one_unique i j (inr p) _ e = elim p [ ]
  one_unique i j (inl p) (inr q) e = elim q [ ]

  two_unique :
      (b : A)
      → path a ≢ path b
      → (i j : A) → In i (a ∷ b ∷ [])
      → In j (a ∷ b ∷ [])
      → path i ≡ path j
      → i ≡ j
  two_unique b d i j (inl p) (inl q) e = p ∙ sym q
  two_unique b d i j (inl p) (inr (inl q)) e = absurd (d (sym (ap path p) ∙ e ∙ ap path q))
  two_unique b d i j (inr (inl p)) (inl q) e = absurd (d (sym (ap path q) ∙ sym e ∙ ap path p))
  two_unique b d i j (inr (inl p)) (inr (inl q)) e = p ∙ sym q
  two_unique b d i j (inr (inr p)) _ e = elim p [ ]
  two_unique b d i j _ (inr (inr q)) e = elim q [ ]

IsOrdinary-no_hash : IsOrdinary no_hash
IsOrdinary-no_hash = record { not_path = λ e. cc; not_size = λ e. cc; not_nfiles = λ e. cc }

IsOrdinary-md5 : (s : String) → IsOrdinary (md5 s)
unfolding string_eq
IsOrdinary-md5 s = record {
  not_path = λ e. by_test "md5" "path" refl (some_injective e);
  not_size = λ e. by_test "md5" "size" refl (some_injective e);
  not_nfiles = λ e. by_test "md5" "nfiles" refl (some_injective e);
}

train-IsWritable : IsWritable train
unfolding pick string_eq get put
train-IsWritable = record {
  deps = record {
    one_per_path = two_unique (λ i. i.def_path) _ _ (by_test "train.py" "data" refl);
    ordinary = λ i m. elim m [
      | inl p ↦ subst (λ x. IsOrdinary x.hash_info) (sym p) (IsOrdinary-md5 "11ab")
      | inr (inl p) ↦ subst (λ x. IsOrdinary x.hash_info) (sym p) IsOrdinary-no_hash
      | inr (inr p) ↦ elim p [ ]
    ];
  };
  outs = record {
    one_per_path = one_unique (λ i. i.def_path) _;
    ordinary = λ i m. elim m [
      | inl p ↦ subst (λ x. IsOrdinary x.hash_info) (sym p) (IsOrdinary-md5 "22cd")
      | inr p ↦ elim p [ ]
    ];
  };
  files = two_unique (λ p. p.def_path) _ _ (by_test "more.yaml" "params.yaml" refl);
  read = (refl, (refl, tt));
}

train_given : is_given train.cmd ≡ true
unfolding string_eq
train_given = refl

load-to_lockfile_example :
    (to_single_stage_lockfile train >>= λ lock. ok (load_locked (blank_stage train) (some lock)))
    ≡ ok (ok (restored_stage train, false))
load-to_lockfile_example = load-to_lockfile train train_given train-IsWritable

-- A lock file that has another stage already
abbrev other_lock : LockData ℕ
other_lock = record { cmd = single "echo"; deps = []; params = []; outs = [] }

abbrev train_lock : LockData ℕ
train_lock = record {
  cmd = single "python train.py";
  deps =
      ((some "path", text "data") ∷ [])
      ∷ ((some "path", text "train.py") ∷ (some "md5", text "11ab") ∷ (some "size", number 12) ∷ [])
      ∷ [];
  params = ("params.yaml", ("seed", 7) ∷ []) ∷ ("more.yaml", ("epochs", 10) ∷ ("lr", 3) ∷ []) ∷ [];
  outs =
      ((some "path", text "model") ∷ (some "md5", text "22cd") ∷ (some "size", number 12) ∷ [])
      ∷ [];
}

train_dumped :
    dump (λ a b. true) (some (("other", other_lock) ∷ [])) "train" train
    ≡ ok (some (("other", other_lock) ∷ ("train", train_lock) ∷ []), true)
unfolding dump to_single_stage_lockfile string_eq sort_by put get remove to_dict key_eq
train_dumped = refl

abbrev train_name : String
train_name = "train"

abbrev other_name : String
other_name = "other"

dump-remove_stage_example :
    (lock : LockData ℕ) × (to_single_stage_lockfile train ≡ ok lock)
    × (lock_of (some (("other", other_lock) ∷ ("train", train_lock) ∷ [])) "other" ≡ (
        if other_name == train_name
        then some lock
        else lock_of (some (("other", other_lock) ∷ [])) "other"))
    × (lock_of
          (remove_stage (some (("other", other_lock) ∷ ("train", train_lock) ∷ [])) "train")
          "other"
        ≡ (if other_name == train_name
            then none
            else lock_of (some (("other", other_lock) ∷ [])) "other"))
dump-remove_stage_example =
    dump-remove_stage (λ a b. true) (some (("other", other_lock) ∷ []))
      (some (("other", other_lock) ∷ ("train", train_lock) ∷ [])) "train" train true "other"
      train_dumped
