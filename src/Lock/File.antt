-- ===== src/Lock/File.antt =====
-- dvc/dvcfile.py: `Lockfile`, as the dict of its stages, where there is one that fits the schema.
use python_dvc.Base.{
  String, ◌≡◌, refl, sym, ap, ==_iff, ◌∙◌, Bool, true, false, not, Option, none, some, [], ◌∷◌,
  is_empty, is_some, string_eq, ◌==◌, if◌then◌else◌, Bool-cases, inl, inr,
}
use python_dvc.Base.Dict.{Dict, get, put, remove, has, get-put, get-remove}
use python_dvc.Base.Result.{Result, ok, ◌>>=◌, >>=-eq-ok, ok_injective}
use python_dvc.Lock.Defs.{LockedStage, LockData, LockFailure, to_single_stage_lockfile}

none_of : {A : Type 0} (o : Option A) → is_some o ≡ false → o ≡ none
none_of none h = refl
none_of (some a) h = cc

hidden :
    {A : Type 0} (b : Bool) (new old : Option A)
    → (if b then none else if b then new else old) ≡ (if b then none else old)
hidden true new old = refl
hidden false new old = refl

module _ {V : Type 0} where
  -- `self.lockfile_data.get(name)`
  abbrev pub lock_of : Option (Dict String (LockData V)) → String → Option (LockData V)
  lock_of none name = none
  lock_of (some locks) name = get locks name

  abbrev stages_of : Option (Dict String (LockData V)) → Dict String (LockData V)
  stages_of none = []
  stages_of (some locks) = locks

  -- `!=` of what stood there, with what tells two lock data apart
  abbrev pub is_modified :
      (LockData V → LockData V → Bool) → Option (LockData V) → LockData V → Bool
  is_modified differ none lock = true
  is_modified differ (some old) lock = differ old lock

  -- `Lockfile.dump`: the file, and whether it is given to Git
  unfoldable pub dump :
      (LockData V → LockData V → Bool)
      → Option (Dict String (LockData V))
      → String
      → LockedStage V
      → Result LockFailure (Option (Dict String (LockData V)) × Bool)
  dump differ file name stage = do
    lock ← to_single_stage_lockfile stage
    ok (some (put (stages_of file) name lock), is_modified differ (lock_of file name) lock)

  -- `Lockfile.remove_stage`: a file without stages is removed.
  unfoldable pub remove_stage :
      Option (Dict String (LockData V)) → String → Option (Dict String (LockData V))
  remove_stage none name = none
  remove_stage (some locks) name =
      if not (has locks name)
      then some locks
      else if is_empty (remove locks name)
      then none
      else some (remove locks name)

  lock_of-stages :
      (file : Option (Dict String (LockData V))) (name : String)
      → get (stages_of file) name ≡ lock_of file name
  unfolding get
  lock_of-stages none name = refl
  lock_of-stages (some locks) name = refl

  empty_none :
      (d : Dict String (LockData V)) (name : String) → is_empty d ≡ true → get d name ≡ none
  unfolding get
  empty_none [] name h = refl
  empty_none (x ∷ d) name h = cc

  lock_of-remove_stage :
      (file : Option (Dict String (LockData V))) (name other : String)
      → lock_of (remove_stage file name) other
        ≡ (if other == name then none else lock_of file other)
  unfolding remove_stage
  lock_of-remove_stage none name other = same_either (other == name)
    where
      same_either : (b : Bool) → ◌≡◌ {A = Option (LockData V)} none (if b then none else none)
      same_either true = refl
      same_either false = refl
  lock_of-remove_stage (some locks) name other = elim (Bool-cases (has locks name)) [
    | inr away ↦ rw away (elim (Bool-cases (other == name)) [
      | inl same ↦
          rw same (none_of (get locks other) (ap (has locks) ((==_iff other name).0 same) ∙ away))
      | inr differs ↦ rw differs refl
    ])
    | inl there ↦ elim (Bool-cases (is_empty (remove locks name))) [
      | inl last ↦
          rw (there, last)
            (sym (empty_none (remove locks name) other last) ∙ get-remove locks name other)
      | inr more ↦ rw (there, more) (get-remove locks name other)
    ]
  ]

  put_lock :
      (file file' : Option (Dict String (LockData V))) (name other : String) (lock : LockData V)
      → some (put (stages_of file) name lock) ≡ file'
      → lock_of file' other ≡ (if other == name then some lock else lock_of file other)
  put_lock file file' name other lock e =
      ap (λ f. lock_of f other) (sym e)
      ∙ get-put (stages_of file) name other lock
      ∙ rw (lock_of-stages file other) refl

  -- After a stage was written to the lock file, its name has its lock data, and every other name has what it
  -- had before; when the stage is removed from that file, its name has none, and every other name has what it
  -- had before.
  pub dump-remove_stage :
      (differ : LockData V → LockData V → Bool) (file file' : Option (Dict String (LockData V)))
      (name : String) (stage : LockedStage V) (modified : Bool) (other : String)
      → dump differ file name stage ≡ ok (file', modified)
      → (lock : LockData V) × (to_single_stage_lockfile stage ≡ ok lock)
        × (lock_of file' other ≡ (if other == name then some lock else lock_of file other))
        × (lock_of (remove_stage file' name) other
            ≡ (if other == name then none else lock_of file other))
  unfolding dump
  dump-remove_stage differ file file' name stage modified other dumped = do
    let (lock, e1, e2) = >>=-eq-ok (to_single_stage_lockfile stage) _ dumped
    let here = put_lock file file' name other lock (ap (λ r. r.0) (ok_injective e2))
    (
      lock,
      e1,
      here,
      lock_of-remove_stage file' name other
          ∙ rw here (hidden (other == name) (some lock) (lock_of file other)),
    )
