-- ===== src/Stage/Clean.antt =====
-- dvc/stage/__init__.py: what `save` and `commit` leave.
use python_dvc.Base.{
  String, ◌≡◌, refl, ◌∙◌, Bool, false, ◌||◌, List, [], ◌∷◌, ◌++◌, any, All, subst, arith,
}
use python_dvc.Base.Result.{ok_injective, Result, ok, err, >>=-eq-ok}
use python_dvc.Output.Defs.{Failure, Backend, Output, status, save, commit}
use python_dvc.Output.Clean.{
  Keeps, Keeps-refl, Keeps-trans, IsLawful, IsClean, IsClean-Keeps, IsClean-status,
}
use python_dvc.Output.Save.{
  IsSaved, IsSaved-Keeps, save-IsSaveOf, commit-Keeps, commit-IsClean, status_lem,
}
use python_dvc.Stage.Defs.{
  any_status, save_deps, save_or_skip, save_outs, link_failures, commit_outs,
}

append_nil : {A : Type 0} (xs ys : List A) → xs ++ ys ≡ [] → (xs ≡ []) × (ys ≡ [])
append_nil [] ys e = (refl, e)
append_nil (x ∷ xs) ys e = cc

module _ {W : Type 0} (backend : Backend W) where
  not_skipped :
      (skip : Bool) (o : Output) (w : W) (r : Result Failure (Output × W)) {x : Output × W}
      → skip ≡ false
      → save_or_skip backend skip o w r ≡ ok x
      → r ≡ ok x
  not_skipped skip o w (ok y) n e = e
  not_skipped skip o w (err f) n e = ground arith

  no_failure :
      (skip : Bool) (path : String) (r : Result Failure (Unit {0})) {failed : List String}
      → skip ≡ false
      → failed ≡ []
      → link_failures backend skip path r ≡ ok failed
      → r ≡ ok tt
  no_failure skip path (ok u) n z e = refl
  no_failure skip path (err f) n z e = ground arith

  -- Behind a loop of saves nothing is lost, and each output has the checksum of its file.
  abbrev AllSaved : W → List Output × W → Type 0
  AllSaved w (os, w') = Keeps backend w w' × All (λ o. IsSaved backend o w') os

  pub All-IsSaved :
      (os : List Output) (w w' : W)
      → Keeps backend w w'
      → All (λ o. IsSaved backend o w) os
      → All (λ o. IsSaved backend o w') os
  All-IsSaved [] w w' k a = tt
  All-IsSaved (o ∷ os) w w' k (here, rest) =
      (IsSaved-Keeps backend o w w' k here, All-IsSaved os w w' k rest)

  pub All-IsClean :
      (os : List Output) (w w' : W)
      → Keeps backend w w'
      → All (λ o. IsClean backend o w) os
      → All (λ o. IsClean backend o w') os
  All-IsClean [] w w' k a = tt
  All-IsClean (o ∷ os) w w' k (here, rest) =
      (IsClean-Keeps backend o w w' k here, All-IsClean os w w' k rest)

  module _ (lawful : IsLawful backend) where
    -- Clean outputs have no status.
    pub any_status-clean :
        (os : List Output) (w : W)
        → All (λ o. IsClean backend o w) os
        → ((any_status backend os w).0 ≡ false) × Keeps backend w (any_status backend os w).1
    unfolding any_status
    any_status-clean [] w a = (refl, Keeps-refl backend w)
    any_status-clean (o ∷ os) w (here, rest) =
        let w' = (status backend o w).1 in
        let k = status_lem backend lawful o w in
        let (e, k') = any_status-clean os w' (All-IsClean os w w' k rest) in
        let none_here = IsClean-status backend lawful o w here in
        rw none_here (e, Keeps-trans backend w w' _ k k')

    pub save_deps-AllSaved :
        (os : List Output) (w : W) {x : List Output × W}
        → save_deps backend os w ≡ ok x
        → AllSaved w x
    unfolding save_deps
    save_deps-AllSaved [] w e = subst (AllSaved w) (ok_injective e) (Keeps-refl backend w, tt)
    save_deps-AllSaved (o ∷ os) w e =
        let (s, e1, e2) = >>=-eq-ok (save backend o w) _ e in
        let (r, e3, e4) = >>=-eq-ok (save_deps backend os s.1) _ e2 in
        let here = save-IsSaveOf backend lawful o w e1 in
        let rest = save_deps-AllSaved os s.1 e3 in
        subst (AllSaved w) (ok_injective e4) (
          Keeps-trans backend w s.1 r.1 here.keeps rest.0,
          (IsSaved-Keeps backend s.0 s.1 r.1 rest.0 here.saved, rest.1),
        )

    -- The saved outputs are those that are not checkpoints, as before.
    abbrev OutsSaved : W → List Output × W → Type 0
    OutsSaved w x = AllSaved w x × (any (λ o. o.checkpoint) x.0 ≡ false)

    pub save_outs-OutsSaved :
        (os : List Output) (w : W) {x : List Output × W}
        → any (λ o. o.checkpoint) os ≡ false
        → save_outs backend false os w ≡ ok x
        → OutsSaved w x
    unfolding save_outs
    save_outs-OutsSaved [] w c e =
        subst (OutsSaved w) (ok_injective e) ((Keeps-refl backend w, tt), refl)
    save_outs-OutsSaved (o ∷ os) w c e =
        let plain_here : o.checkpoint ≡ false = ground arith in
        let plain_rest : any (λ p. p.checkpoint) os ≡ false = ground arith in
        let (s, e1, e2) =
          >>=-eq-ok (save_or_skip backend (false || o.checkpoint) o w (save backend o w)) _ e in
        let (r, e3, e4) = >>=-eq-ok (save_outs backend false os s.1) _ e2 in
        let here =
          save-IsSaveOf backend lawful o w (not_skipped _ o w (save backend o w) plain_here e1) in
        let rest = save_outs-OutsSaved os s.1 plain_rest e3 in
        let same : s.0.checkpoint ≡ false = here.renewed.checkpoint ∙ plain_here in
        subst (OutsSaved w) (ok_injective e4) (
          (
            Keeps-trans backend w s.1 r.1 here.keeps rest.0.0,
            (IsSaved-Keeps backend s.0 s.1 r.1 rest.0.0 here.saved, rest.0.1),
          ),
          rw same rest.1,
        )

    abbrev AllClean : List Output → W → List String × W → Type 0
    AllClean os w (failed, w') =
        failed ≡ [] → Keeps backend w w' × All (λ o. IsClean backend o w') os

    pub commit_outs-AllClean :
        (os : List Output) (w : W) {x : List String × W}
        → any (λ o. o.checkpoint) os ≡ false
        → All (λ o. IsSaved backend o w) os
        → commit_outs backend false os w ≡ ok x
        → AllClean os w x
    unfolding commit_outs
    commit_outs-AllClean [] w c a e =
        subst (AllClean [] w) (ok_injective e) (λ none_failed. (Keeps-refl backend w, tt))
    commit_outs-AllClean (o ∷ os) w c (saved, others) e =
        let plain_here : o.checkpoint ≡ false = ground arith in
        let plain_rest : any (λ p. p.checkpoint) os ≡ false = ground arith in
        let w' = (commit backend o w).1 in
        let k = commit-Keeps backend lawful o w in
        let (f, e1, e2) =
          >>=-eq-ok (link_failures backend (false || o.checkpoint) o.path (commit backend o w).0) _
            e in
        let (r, e3, e4) = >>=-eq-ok (commit_outs backend false os w') _ e2 in
        let rest = commit_outs-AllClean os w' plain_rest (All-IsSaved os w w' k others) e3 in
        subst (AllClean (o ∷ os) w) (ok_injective e4) (λ none_failed.
          let (f_nil, r_nil) = append_nil f r.0 none_failed in
          let (k', clean) = rest r_nil in
          let returned = no_failure _ o.path (commit backend o w).0 plain_here f_nil e1 in
          (
            Keeps-trans backend w w' r.1 k k',
            (
              IsClean-Keeps backend o w' r.1 k' (commit-IsClean backend lawful o w saved returned),
              clean,
            ),
          ))
