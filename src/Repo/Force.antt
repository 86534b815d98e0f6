-- ===== src/Repo/Force.antt =====
-- dvc/repo/reproduce.py: `_reproduce_stages` with `force_downstream`.
use python_dvc.Base.{
  subst, Bool-cases, inl, inr, [], ◌∷◌, false, ◌||◌, ◌&&◌, refl, sym, ap, ◌∙◌, ◌≡◌, Bool, true,
  List, ◌++◌, arith,
}
use python_dvc.Base.Result.{ok_injective, Result, ok, err, >>=-eq-ok}
use python_dvc.Repo.Reproduce.{
  StageFailure, checkpoint_killed, raised, Outcome, wrap, reproduce_stage, reproduce_stages,
}

wrap-eq-ok :
    {A B : Type 0} (stage : A) (r : Result StageFailure B) {b : B} → wrap stage r ≡ ok b → r ≡ ok b
wrap-eq-ok stage (ok c) e = ground arith
wrap-eq-ok stage (err checkpoint_killed) e = cc
wrap-eq-ok stage (err raised) e = cc

module _ {A W : Type 0} (reproduce : Bool → A → W → Result StageFailure (Bool × W))
    (dump : A → W → W) where
  -- A forced stage is reproduced whenever it returns.
  abbrev pub IsForced : Type 0
  IsForced = (stage : A) (w : W) (x : Bool × W) → reproduce true stage w ≡ ok x → x.0 ≡ true

  -- The stages that were found unchanged come first, and those reproduced are the rest.
  abbrev Split : List A → Outcome A × W → Type 0
  Split stages x = stages ≡ x.0.unchanged ++ x.0.result

  done_of :
      (dry force : Bool) (stage : A) (w : W) {x : Bool × W}
      → reproduce_stage reproduce dump dry force stage w ≡ ok x
      → (y : Bool × W) × (reproduce force stage w ≡ ok y) × (y.0 ≡ x.0)
  unfolding reproduce_stage
  done_of dry force stage w {x} e =
      let (y, e1, e2) = >>=-eq-ok (reproduce force stage w) _ e in (y, e1, ground arith)

  -- Behind the first stage that was reproduced each stage is forced.
  all_forced :
      (dry force_downstream : Bool) (stages : List A) (w : W) {x : Outcome A × W}
      → IsForced
      → reproduce_stages reproduce dump dry force_downstream true stages w ≡ ok x
      → (x.0.unchanged ≡ []) × (x.0.result ≡ stages)
  unfolding reproduce_stages
  all_forced dry force_downstream [] w f e =
      subst {A = Outcome A × W} (λ x. (x.0.unchanged ≡ []) × (x.0.result ≡ [])) (ok_injective e)
        (refl, refl)
  all_forced dry force_downstream (s ∷ stages) w f e =
      let (one, e1, e2) = >>=-eq-ok (wrap s (reproduce_stage reproduce dump dry true s w)) _ e in
      let (rest, e3, e4) =
        >>=-eq-ok
          (reproduce_stages reproduce dump dry force_downstream
            (true || (one.0 && force_downstream)) stages one.1)
          _ e2 in
      let (y, e5, e6) = done_of dry true s w (wrap-eq-ok s _ e1) in
      let done : one.0 ≡ true = sym e6 ∙ f s w y e5 in
      let (none_left, all_done) = all_forced dry force_downstream stages one.1 f e3 in
      subst {A = Outcome A × W} (λ x. (x.0.unchanged ≡ []) × (x.0.result ≡ s ∷ stages))
        (ok_injective e4) (rw done (none_left, ap (λ xs. s ∷ xs) all_done))

  -- With `force_downstream`, where a forced stage that does not fail counts as reproduced, a run that is
  -- not forced and returns has left unchanged the first stages of the pipeline, and has reproduced all
  -- stages behind them.
  pub reproduce_stages_split :
      (dry : Bool) (stages : List A) (w : W) {x : Outcome A × W}
      → IsForced
      → reproduce_stages reproduce dump dry true false stages w ≡ ok x
      → stages ≡ x.0.unchanged ++ x.0.result
  unfolding reproduce_stages
  reproduce_stages_split dry [] w f e = subst (Split []) (ok_injective e) refl
  reproduce_stages_split dry (s ∷ stages) w f e =
      let (one, e1, e2) = >>=-eq-ok (wrap s (reproduce_stage reproduce dump dry false s w)) _ e in
      let (rest, e3, e4) =
        >>=-eq-ok (reproduce_stages reproduce dump dry true (false || (one.0 && true)) stages one.1)
          _ e2 in
      subst (Split (s ∷ stages)) (ok_injective e4) (elim (Bool-cases one.0) [
        | inl done ↦
            let (none_left, all_done) = all_forced dry true stages one.1 f (rw done at e3) in
            rw done (rw none_left (ap (λ xs. s ∷ xs) (sym all_done)))
        | inr not_done ↦
            rw not_done
              (ap (λ xs. s ∷ xs) (reproduce_stages_split dry stages one.1 f (rw not_done at e3)))
      ])
