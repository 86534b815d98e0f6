-- ===== src/RwLock/Acquire.antt =====
-- The loops of `_acquire_read` and `_acquire_write` (dvc/rwlock.py), round by round.
use python_dvc.Base.{
  String, ◌≡◌, true, false, some, List, [], ◌∷◌, ◌++◌, ◌==◌, ◌≢◌, string_eq, inl, inr, ◌⊎◌, arith,
  Bool-cases, Option-cases, contains,
}
use python_dvc.Base.Dict.{Dict, get, put, get_or}
use python_dvc.PathInfo.Defs.{Info}
use python_dvc.RwLock.Defs.{Owner, owner_eq, acquire_read, acquire_write}

module _ (url : Info → String) (info : Owner) (p : Info) (ps : List Info) where
  -- A path that `info` writes already is passed over; any other is entered.
  pub acquire_write_cases :
      (w : Dict String Owner)
      → (get w (url p) ≡ some info)
          × (acquire_write url w info (p ∷ ps) ≡ acquire_write url w info ps)
        ⊎ (get w (url p) ≢ some info)
          × (acquire_write url w info (p ∷ ps) ≡ (
            (acquire_write url (put w (url p) info) info ps).0,
            url p ∷ (acquire_write url (put w (url p) info) info ps).1,
          ))
  unfolding acquire_write
  acquire_write_cases w = elim (Option-cases (get w (url p))) [
    | inl e ↦ inr (λ h. cc, ground arith)
    | inr (o, e) ↦ elim (Bool-cases (o == info)) [
      | inl same ↦ inl (ground arith, ground arith)
      | inr other ↦ inr (λ h. ground arith, ground arith)
    ]
  ]

  pub acquire_read_cases :
      (r : Dict String (List Owner))
      → (contains (get_or r (url p) []) info ≡ true)
          × (acquire_read url r info (p ∷ ps) ≡ acquire_read url r info ps)
        ⊎ (contains (get_or r (url p) []) info ≡ false)
          × (acquire_read url r info (p ∷ ps) ≡ (
            (acquire_read url (put r (url p) (get_or r (url p) [] ++ info ∷ [])) info ps).0,
            url p ∷ (acquire_read url (put r (url p) (get_or r (url p) [] ++ info ∷ [])) info ps).1,
          ))
  unfolding acquire_read
  acquire_read_cases r = elim (Bool-cases (contains (get_or r (url p) []) info)) [
    | inl old ↦ inl (old, rw old)
    | inr new ↦ inr (new, rw new)
  ]
