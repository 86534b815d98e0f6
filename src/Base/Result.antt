-- ===== src/Base/Result.antt =====
-- Code that may raise: what it returns, or an exception of a type that each component declares.
use mathlib.Core.Path.{◌≡◌, refl}
use mathlib.Core.Bool.{Bool, true, false, ◌&&◌}

pub data Result {ε ρ} (Exc : Type ε) (Ret : Type ρ) : Type (ε ⊔ ρ) where
  err : Exc → Result Exc Ret
  ok : Ret → Result Exc Ret

module _ {ε ρ σ} {Exc : Type ε} {Ret : Type ρ} {Next : Type σ} where
  infixl 5 ◌>>=◌
  abbrev pub ◌>>=◌ : Result Exc Ret → (Ret → Result Exc Next) → Result Exc Next
  err raised >>= k = err raised
  ok value >>= k = k value

  -- A sequence that returns: its first part returned, and so did the rest.
  pub >>=-eq-ok :
      (first : Result Exc Ret) (k : Ret → Result Exc Next) {final : Next}
      → (first >>= k) ≡ ok final
      → (value : Ret) × (first ≡ ok value) × (k value ≡ ok final)
  >>=-eq-ok (err raised) k returned = cc
  >>=-eq-ok (ok value) k returned = (value, refl, returned)

module _ {ε σ} {Exc : Type ε} {Next : Type σ} where
  infixl 5 ◌>>◌
  abbrev pub ◌>>◌ : Result Exc (Unit {0}) → Result Exc Next → Result Exc Next
  check >> rest = check >>= λ _. rest

-- `assert test`, and `if not test: raise raised`
abbrev pub guard {ε} : {Exc : Type ε} → Bool → Exc → Result Exc (Unit {0})
guard false raised = err raised
guard true raised = ok tt

pub ok_injective {ε ρ} :
    {Exc : Type ε} {Ret : Type ρ} {a b : Ret} → ◌≡◌ {A = Result Exc Ret} (ok a) (ok b) → a ≡ b
ok_injective h = cc

abbrev pub is_ok {ε ρ} : {Exc : Type ε} {Ret : Type ρ} → Result Exc Ret → Bool
is_ok (ok value) = true
is_ok (err raised) = false

-- A sequence returns where its parts do.
pub is_ok-first {ε ρ} :
    {Exc : Type ε} {Ret : Type ρ} (check : Result Exc (Unit {0})) (rest : Result Exc Ret)
    → is_ok (check >> rest) ≡ (is_ok check && is_ok rest)
is_ok-first (err raised) rest = refl
is_ok-first (ok value) rest = refl

pub is_ok-guard {ε} : {Exc : Type ε} (test : Bool) (raised : Exc) → is_ok (guard test raised) ≡ test
is_ok-guard true raised = refl
is_ok-guard false raised = refl
