-- ===== src/Stage/Changed.antt =====
-- dvc/stage/__init__.py: when a stage does not count as changed.
use python_dvc.Base.{
  String, ◌≡◌, refl, Bool, false, Option, List, [], ◌∷◌, All, arith, Bool-cases, inl, inr, ==_iff,
}
use python_dvc.Base.Result.{ok}
use python_dvc.Output.HashInfo.{key_eq, field_eq}
use python_dvc.Output.Defs.{Backend, Output, get_hash}
use python_dvc.Output.Clean.{Keeps, Keeps-refl, IsLawful, HasHashes, IsClean}
use python_dvc.Output.Save.{IsSaved}
use python_dvc.Stage.Defs.{
  Kind, plain, pipeline, Stage, Runner, is_callback, is_checkpoint, changed_deps, compute_md5,
  with_md5, changed_of_kind, changed_stage, changed,
}
use python_dvc.Stage.Clean.{All-IsClean, any_status-clean}

-- What the rest of the program promises: the checksum of a dump leaves out the recorded one, and saving to
-- the run cache changes no file.
module _ {W : Type 0} (backend : Backend W) (runner : Runner W) where
  pub record IsRunner : Type 0 where
    pub md5_of :
        (s : Stage) (m : Option String) → runner.md5_of (record s { md5 = m }) ≡ runner.md5_of s
    pub stage_cache_save :
        (s : Stage) (w : W) {w' : W} → runner.stage_cache_save s w ≡ ok w' → Keeps backend w w'

  abbrev pub cmd_changed : Kind → Bool
  cmd_changed plain = false
  cmd_changed (pipeline c) = c

  -- No dependency uses the cache.
  abbrev pub AreDeps : List Output → Type 0
  AreDeps deps = All (λ d. d.use_cache ≡ false) deps

  saved_dep :
      HasHashes backend
      → (d : Output) (w : W) → d.use_cache ≡ false
      → IsSaved backend d w
      → IsClean backend d w
  saved_dep hashes d w u s = record {
    exists = s.exists;
    same = s.same;
    has_value =
        let full = hashes w d.path s.exists in
        let same' = s.same in
        unfold get_hash in
        ground (arith, ==_iff d.hash_info.value (backend.tree_get_hash w d.path).0.value);
    cached = λ u'. cc;
  }

  pub saved_deps :
      HasHashes backend
      → (deps : List Output) (w : W) → AreDeps deps
      → All (λ d. IsSaved backend d w) deps
      → All (λ d. IsClean backend d w) deps
  saved_deps hashes [] w u s = tt
  saved_deps hashes (d ∷ deps) w (u, us) (s, ss) =
      (saved_dep hashes d w u s, saved_deps hashes deps w us ss)

  module _ (lawful : IsLawful backend) (rest : IsRunner) (hashes : HasHashes backend) where
    compute_md5-with_md5 :
        (s : Stage)
        → compute_md5 backend runner (with_md5 backend runner s) ≡ compute_md5 backend runner s
    unfolding with_md5 compute_md5
    compute_md5-with_md5 s = rw (rest.md5_of s (compute_md5 backend runner s)) refl

    pub changed_stage-with_md5 :
        (s : Stage)
        → cmd_changed s.kind ≡ false
        → changed_stage backend runner (with_md5 backend runner s) ≡ false
    unfolding changed_stage
    changed_stage-with_md5 s c =
        let same = compute_md5-with_md5 s in
        let found : (with_md5 backend runner s).md5 ≡ compute_md5 backend runner s =
          unfold with_md5 in refl in
        go (with_md5 backend runner s).kind (unfold with_md5 in c) (
          ground (
            arith,
            ==_iff (with_md5 backend runner s).md5
                (compute_md5 backend runner (with_md5 backend runner s)),
          ))
      where
        go :
            (k : Kind) {differs : Bool}
            → cmd_changed k ≡ false
            → differs ≡ false
            → changed_of_kind backend runner k differs ≡ false
        go plain n e = e
        go (pipeline b) n e = n

    changed_deps-clean :
        (s : Stage) (w : W)
        → is_callback s ≡ false
        → s.always_changed ≡ false
        → is_checkpoint s ≡ false
        → All (λ d. IsClean backend d w) s.deps
        → ((changed_deps backend s w).0 ≡ false) × Keeps backend w (changed_deps backend s w).1
    unfolding changed_deps
    changed_deps-clean s w cb ac cp deps = elim (Bool-cases s.frozen) [
      | inl f ↦ rw f (refl, Keeps-refl backend w)
      | inr f ↦ rw (f, cb, ac, cp) (any_status-clean backend lawful s.deps w deps)
    ]

    -- Nothing of a clean stage counts as changed.
    pub changed-clean :
        (s : Stage) (w : W)
        → changed_stage backend runner s ≡ false
        → is_callback s ≡ false
        → s.always_changed ≡ false
        → is_checkpoint s ≡ false
        → All (λ d. IsClean backend d w) s.deps
        → All (λ o. IsClean backend o w) s.outs
        → (changed backend runner s w).0 ≡ false
    unfolding changed
    changed-clean s w st cb ac cp deps outs =
        let (e, k) = changed_deps-clean s w cb ac cp deps in
        let (e', k') =
          any_status-clean backend lawful s.outs (changed_deps backend s w).1
            (All-IsClean backend s.outs w _ k outs) in
        ground (arith, e', e, st)
