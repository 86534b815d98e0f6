-- ===== src/Stage/Reproduce.antt =====
-- dvc/stage/__init__.py: a stage that `reproduce` returned does not count as changed.
use python_dvc.Base.{
  ◌≡◌, refl, ap, ◌∙◌, Bool, true, false, not, ◌||◌, Option, none, some, List, [], ◌∷◌, All,
  is_empty, Bool-cases, inl, inr, if◌then◌else◌, subst,
}
use python_dvc.Base.Result.{ok_injective, Result, ok, guard, >>=-eq-ok}
use python_dvc.Output.HashInfo.{key_eq, field_eq}
use python_dvc.Output.Defs.{Failure, aborted, link_failed, Backend}
use python_dvc.Output.Clean.{Keeps, Keeps-trans, IsLawful, HasHashes, IsClean}
use python_dvc.Output.Save.{IsSaved}
use python_dvc.Stage.Defs.{
  Stage, Runner, Options, is_callback, is_checkpoint, save_deps, save_outs, commit_outs,
  stage_commit, with_md5, changed_stage, changed, stage_save, execute, finish, run, reproduce,
}
use python_dvc.Stage.Clean.{
  All-IsSaved, save_deps-AllSaved, save_outs-OutsSaved, commit_outs-AllClean,
}
use python_dvc.Stage.Changed.{
  IsRunner, cmd_changed, AreDeps, saved_deps, changed_stage-with_md5, changed-clean,
}

module _ {W : Type 0} (backend : Backend W) (runner : Runner W) (lawful : IsLawful backend)
    (rest : IsRunner backend runner) (hashes : HasHashes backend) where
  not_nothing : {a : Stage} → ◌≡◌ {A = Option Stage} none (some a) → ⊥
  not_nothing h = cc

  pair_of :
      {a : Stage × W} {s : Stage} {w' : W}
      → ◌≡◌ {A = Option Stage × W} (some a.0, a.1) (some s, w')
      → ◌≡◌ {A = Stage × W} a (s, w')
  pair_of {a} h = cc

  -- What `stage_save` leaves of a stage without checkpoints.
  record IsStageSaved (self s : Stage) (w : W) : Type 0 where
    deps : All (λ d. IsSaved backend d w) s.deps
    outs : All (λ o. IsSaved backend o w) s.outs
    plain_outs : is_checkpoint s ≡ false
    stage : cmd_changed backend runner self.kind ≡ false → changed_stage backend runner s ≡ false
    always_changed : s.always_changed ≡ self.always_changed

  stage_save-IsStageSaved :
      (self : Stage) (w : W) {x : Stage × W}
      → is_checkpoint self ≡ false
      → stage_save backend runner false self w ≡ ok x
      → IsStageSaved self x.0 x.1
  unfolding stage_save is_checkpoint
  stage_save-IsStageSaved self w c e =
      let (deps, e1, e2) = >>=-eq-ok (save_deps backend self.deps w) _ e in
      let (outs, e3, e4) = >>=-eq-ok (save_outs backend false self.outs deps.1) _ e2 in
      let s = with_md5 backend runner (record self { deps = deps.0; outs = outs.0 }) in
      let (w', e5, e6) = >>=-eq-ok (runner.stage_cache_save s outs.1) _ e4 in
      let (k, saved) = save_deps-AllSaved backend lawful self.deps w e1 in
      let ((k', saved'), plain') = save_outs-OutsSaved backend lawful self.outs deps.1 c e3 in
      let last = rest.stage_cache_save s outs.1 e5 in
      subst (λ x. IsStageSaved self x.0 x.1) (ok_injective e6)
        (record {
          deps =
              unfold with_md5 in
              All-IsSaved backend deps.0 deps.1 w' (Keeps-trans backend deps.1 outs.1 w' k' last)
                saved;
          outs = unfold with_md5 in All-IsSaved backend outs.0 outs.1 w' last saved';
          plain_outs = unfold with_md5 in plain';
          stage = λ n.
              changed_stage-with_md5 backend runner lawful rest hashes
                (record self { deps = deps.0; outs = outs.0 }) n;
          always_changed = unfold with_md5 in refl;
        })

  nothing_of_guard : (b : Bool) (raised : Failure) {u : Unit {0}} → guard b raised ≡ ok u → b ≡ true
  nothing_of_guard true raised e = refl
  nothing_of_guard false raised e = cc

  empty_nil : {A : Type 0} (xs : List A) → is_empty xs ≡ true → xs ≡ []
  empty_nil [] e = refl
  empty_nil (x ∷ xs) e = cc

  stage_commit-IsClean :
      (s : Stage) (w : W) {w' : W}
      → is_checkpoint s ≡ false
      → All (λ o. IsSaved backend o w) s.outs
      → stage_commit backend false s w ≡ ok w'
      → Keeps backend w w' × All (λ o. IsClean backend o w') s.outs
  unfolding stage_commit is_checkpoint
  stage_commit-IsClean s w c a e =
      let (done, e1, e2) = >>=-eq-ok (commit_outs backend false s.outs w) _ e in
      let (u, e3, e4) = >>=-eq-ok (guard (is_empty done.0) (link_failed done.0)) _ e2 in
      let none_failed = empty_nil done.0 (nothing_of_guard _ _ e3) in
      subst (λ v. Keeps backend w v × All (λ o. IsClean backend o v) s.outs) (ok_injective e4)
        (commit_outs-AllClean backend lawful s.outs w c a e1 none_failed)

  finish-unchanged :
      (options : Options) (self : Stage) (w : W) {x : Stage × W}
      → options.no_commit ≡ false
      → (options.allow_missing || options.checkpoint) ≡ false
      → is_checkpoint self ≡ false
      → cmd_changed backend runner self.kind ≡ false
      → self.always_changed ≡ false
      → finish backend runner options self w ≡ ok x
      → is_callback x.0 ≡ false
      → AreDeps backend runner x.0.deps
      → (changed backend runner x.0 x.1).0 ≡ false
  unfolding finish
  finish-unchanged options self w commits all_there c kind always e =
      let (s, e1, e2) =
        >>=-eq-ok (stage_save backend runner (options.allow_missing || options.checkpoint) self w) _
          e in
      let (w', e3, e4) =
        >>=-eq-ok
          (if options.no_commit
            then ok s.1
            else stage_commit backend (options.allow_missing || options.checkpoint) s.0 s.1)
          _ e2 in
      let saved = stage_save-IsStageSaved self w c (rw all_there at e1) in
      let (k, clean) =
        stage_commit-IsClean s.0 s.1 saved.plain_outs saved.outs (rw (commits, all_there) at e3) in
      subst
        (λ x.
          is_callback x.0 ≡ false
          → AreDeps backend runner x.0.deps
          → (changed backend runner x.0 x.1).0 ≡ false)
        (ok_injective e4)
        (λ callback are_deps.
          changed-clean backend runner lawful rest hashes s.0 w' (saved.stage kind) callback
            (saved.always_changed ∙ always) saved.plain_outs
            (saved_deps backend runner hashes s.0.deps w' are_deps
              (All-IsSaved backend s.0.deps s.1 w' k saved.deps))
            clean)

  run-unchanged :
      (options : Options) (self : Stage) (w : W) {x : Stage × W}
      → options.dry ≡ false
      → options.no_commit ≡ false
      → (options.allow_missing || options.checkpoint) ≡ false
      → is_checkpoint self ≡ false
      → cmd_changed backend runner self.kind ≡ false
      → self.always_changed ≡ false
      → run backend runner options self w ≡ ok x
      → is_callback x.0 ≡ false
      → AreDeps backend runner x.0.deps
      → (changed backend runner x.0 x.1).0 ≡ false
  unfolding run
  run-unchanged options self w wet commits all_there c kind always e callback are_deps =
      let (done, e1, e2) = >>=-eq-ok (execute backend runner options self w) _ e in
      finish-unchanged options (record self { deps = done.0 }) done.1 commits all_there
        (unfold is_checkpoint in c) kind always (rw wet at e2) callback are_deps

  -- A stage that `reproduce` returns is the one that `run` returned.
  reproduce-run :
      (options : Options) (self : Stage) (w : W) {s : Stage} {w' : W}
      → reproduce backend runner options self w ≡ ok (some s, w')
      → (mid : W) × (run backend runner options self mid ≡ ok (s, w'))
  unfolding reproduce
  reproduce-run options self w {s} {w'} e =
      let t = if options.force then (true, w) else changed backend runner self w in
      elim (Bool-cases (not t.0)) [
        | inl skip ↦
            let no : ◌≡◌ {A = Result Failure (Option Stage × W)} (ok (none, t.1))
                (ok (some s, w')) =
              rw skip at e in
            absurd (not_nothing (ap (λ x. x.0) (ok_injective no)))
        | inr stale ↦
            let ran = rw stale at e in
            let (u, e1, e2) =
              >>=-eq-ok (guard (not options.interactive || runner.confirm self) aborted) _ ran in
            let (after, e3, e4) = >>=-eq-ok (run backend runner options self t.1) _ e2 in
            let last = ok_injective e4 in (t.1, e3 ∙ ap ok (pair_of last))
      ]

  -- A stage that `reproduce` ran, not dry, with a commit and without `allow_missing` or a checkpoint
  -- function, is skipped by the next `reproduce` that is not forced, unless it has a checkpoint, is a
  -- callback or is marked `always_changed`, or its command changed.
  pub reproduce_twice :
      (options again : Options) (self : Stage) (w : W) {s : Stage} {w' : W}
      → options.dry ≡ false
      → options.no_commit ≡ false
      → (options.allow_missing || options.checkpoint) ≡ false
      → is_checkpoint self ≡ false
      → cmd_changed backend runner self.kind ≡ false
      → self.always_changed ≡ false
      → reproduce backend runner options self w ≡ ok (some s, w')
      → is_callback s ≡ false
      → AreDeps backend runner s.deps
      → again.force ≡ false
      → (last : W) × (reproduce backend runner again s w' ≡ ok (none, last))
  unfolding reproduce
  reproduce_twice options again self w {s} {w'} wet commits all_there c kind always e callback
        are_deps unforced =
      let (mid, ran) = reproduce-run options self w e in
      let unchanged =
        run-unchanged options self mid wet commits all_there c kind always ran callback are_deps in
      ((changed backend runner s w').1, rw (unforced, unchanged) refl)
