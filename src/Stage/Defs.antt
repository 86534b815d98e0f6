-- ===== src/Stage/Defs.antt =====
-- dvc/stage/__init__.py: a stage, when it counts as changed, and how it is saved, committed, run and
-- reproduced.
use python_dvc.Base.{
  String, Bool, true, false, not, ◌&&◌, ◌||◌, Option, none, some, List, [], ◌∷◌, ◌++◌, any,
  is_empty, is_some, ◌==◌, if◌then◌else◌, string_eq,
}
use python_dvc.Base.Result.{Result, ok, err, ◌>>=◌, ◌>>◌, guard}
use python_dvc.Output.HashInfo.{key_eq}
use python_dvc.Output.Defs.{
  Failure, does_not_exist, link_failed, missing_data_source, aborted, Backend, Output, status, save,
  commit,
}

-- The value of `cmd`: a text or a list of texts.
pub data Command : Type 0 where
  one : String → Command
  several : List String → Command

-- `Stage`, or `PipelineStage` with its field `cmd_changed`
pub data Kind : Type 0 where
  plain : Kind
  pipeline : Bool → Kind

pub record Stage : Type 0 where
  pub kind : Kind
  pub cmd : Option Command
  pub deps : List Output
  pub outs : List Output
  pub md5 : Option String
  pub frozen : Bool
  pub always_changed : Bool

-- `bool(self.cmd)`
unfoldable pub has_cmd : Option Command → Bool
has_cmd none = false
has_cmd (some (one s)) = not (s == "")
has_cmd (some (several cmds)) = not (is_empty cmds)

abbrev pub is_one : List Output → Bool
is_one [] = false
is_one (o ∷ []) = true
is_one (_ ∷ (_ ∷ _)) = false

unfoldable pub is_data_source : Stage → Bool
is_data_source self = not (is_some self.cmd)

unfoldable pub is_callback : Stage → Bool
unfolding is_data_source
is_callback self = not (is_data_source self) && is_empty self.deps

unfoldable pub is_import : Stage → Bool
unfolding has_cmd
is_import self = not (has_cmd self.cmd) && (is_one self.deps && is_one self.outs)

unfoldable pub is_checkpoint : Stage → Bool
is_checkpoint self = any (λ o. o.checkpoint) self.outs

-- What a stage uses besides the tree and the cache: the checksum of its dump, its command, the import of a
-- file, the run cache and the prompt. A command and an import may save the dependencies on the way.
pub record Runner (W : Type 0) : Type 0 where
  pub md5_of : Stage → String
  pub sync_import : Stage → Bool → Bool → W → Result Failure (List Output × W)
  pub run_stage : Stage → Bool → Bool → W → Result Failure (List Output × W)
  pub stage_cache_save : Stage → W → Result Failure W
  pub confirm : Stage → Bool

-- The arguments of `run` and `reproduce`. `checkpoint` tells whether there is a `checkpoint_func`.
pub record Options : Type 0 where
  pub dry : Bool
  pub no_commit : Bool
  pub force : Bool
  pub allow_missing : Bool
  pub checkpoint : Bool
  pub interactive : Bool

-- `except OutputDoesNotExistError`, and `except CacheLinkError`
abbrev pub is_missing : Failure → Bool
is_missing (does_not_exist _) = true
is_missing _ = false

abbrev pub is_link_failure : Failure → Bool
is_link_failure (link_failed _) = true
is_link_failure _ = false

module _ {W : Type 0} (backend : Backend W) where
  -- `_changed_deps` and `changed_outs`: the first status that is not empty ends the loop.
  unfoldable pub any_status : List Output → W → Bool × W
  any_status [] w = (false, w)
  any_status (o ∷ os) w =
      let (found, w') = status backend o w in
      let rest = any_status os w' in if is_some found then (true, w') else rest

  unfoldable pub changed_deps : Stage → W → Bool × W
  unfolding is_callback is_checkpoint any_status
  changed_deps self w =
      if self.frozen
      then (false, w)
      else if is_callback self
      then (true, w)
      else if self.always_changed || is_checkpoint self
      then (true, w)
      else any_status self.deps w

  unfoldable pub save_deps : List Output → W → Result Failure (List Output × W)
  save_deps [] w = ok ([], w)
  save_deps (d ∷ deps) w = do
    saved ← save backend d w
    rest ← save_deps deps saved.1
    ok (saved.0 ∷ rest.0, rest.1)

  -- One round of `save_outs`. A `save` that finds no file has changed nothing yet.
  abbrev pub save_or_skip :
      Bool → Output → W → Result Failure (Output × W) → Result Failure (Output × W)
  save_or_skip skip o w (ok saved) = ok saved
  save_or_skip skip o w (err e) = if skip && is_missing e then ok (o, w) else err e

  unfoldable pub save_outs : Bool → List Output → W → Result Failure (List Output × W)
  save_outs allow_missing [] w = ok ([], w)
  save_outs allow_missing (o ∷ outs) w = do
    saved ← save_or_skip (allow_missing || o.checkpoint) o w (save backend o w)
    rest ← save_outs allow_missing outs saved.1
    ok (saved.0 ∷ rest.0, rest.1)

  -- The `except` clauses of `commit`: the paths whose link failed, or the exception that leaves the loop.
  abbrev pub link_failures :
      Bool → String → Result Failure (Unit {0}) → Result Failure (List String)
  link_failures skip path (ok _) = ok []
  link_failures skip path (err e) =
      if is_link_failure e then ok (path ∷ []) else if skip && is_missing e then ok [] else err e

  unfoldable pub commit_outs : Bool → List Output → W → Result Failure (List String × W)
  commit_outs allow_missing [] w = ok ([], w)
  commit_outs allow_missing (o ∷ outs) w = do
    failed ← link_failures (allow_missing || o.checkpoint) o.path (commit backend o w).0
    rest ← commit_outs allow_missing outs (commit backend o w).1
    ok (failed ++ rest.0, rest.1)

  unfoldable pub stage_commit : Bool → Stage → W → Result Failure W
  unfolding commit_outs
  stage_commit allow_missing self w = do
    committed ← commit_outs allow_missing self.outs w
    guard (is_empty committed.0) (link_failed committed.0)
    ok committed.1

  -- `remove_outs`, without the entries of the ignore file
  unfoldable pub remove_outs : Bool → List Output → W → W
  remove_outs force [] w = w
  remove_outs force (o ∷ outs) w =
      let kept =
        remove_outs force outs
          (if backend.exists w o.path then backend.unprotect w o.path else w) in
      let gone = remove_outs force outs (backend.remove w o.path) in
      if (o.persist || o.checkpoint) && not force then kept else gone

  -- `check_missing_outputs` of dvc/stage/utils.py
  unfoldable pub missing_outputs : List Output → W → List String
  missing_outputs [] w = []
  missing_outputs (o ∷ outs) w =
      let rest = missing_outputs outs w in if backend.exists w o.path then rest else o.path ∷ rest

  module _ (runner : Runner W) where
    unfoldable pub compute_md5 : Stage → Option String
    unfolding is_data_source is_import
    compute_md5 self =
        if is_data_source self && not (is_import self) then none else some (runner.md5_of self)

    abbrev pub changed_of_kind : Kind → Bool → Bool
    changed_of_kind plain differs = differs
    changed_of_kind (pipeline cmd_changed) differs = cmd_changed

    unfoldable pub changed_stage : Stage → Bool
    unfolding compute_md5
    changed_stage self = changed_of_kind self.kind (not (self.md5 == compute_md5 self))

    unfoldable pub changed : Stage → W → Bool × W
    unfolding changed_stage changed_deps any_status
    changed self w =
        if changed_stage self
        then (true, w)
        else let (deps_changed, w') = changed_deps self w in
          if deps_changed then (true, w') else any_status self.outs w'

    -- `self.md5 = self.compute_md5()`
    unfoldable pub with_md5 : Stage → Stage
    unfolding compute_md5
    with_md5 self = record self { md5 = compute_md5 self }

    unfoldable pub stage_save : Bool → Stage → W → Result Failure (Stage × W)
    unfolding save_deps save_outs with_md5
    stage_save allow_missing self w = do
      deps ← save_deps self.deps w
      outs ← save_outs allow_missing self.outs deps.1
      w' ← runner.stage_cache_save (with_md5 (record self { deps = deps.0; outs = outs.0 })) outs.1
      ok (with_md5 (record self { deps = deps.0; outs = outs.0 }), w')

    -- The first half of `run`: the dependencies and the state behind the command.
    unfoldable pub execute : Options → Stage → W → Result Failure (List Output × W)
    unfolding is_import has_cmd remove_outs missing_outputs
    execute options self w =
        let w' =
          if (has_cmd self.cmd || is_import self) && (not self.frozen && not options.dry)
          then remove_outs false self.outs w
          else w in
        if not self.frozen && is_import self
        then runner.sync_import self options.dry options.force w'
        else if not self.frozen && has_cmd self.cmd
        then runner.run_stage self options.dry options.force w'
        else if options.dry || is_empty (missing_outputs self.outs w')
        then ok (self.deps, w')
        else err (missing_data_source (missing_outputs self.outs w'))

    -- The second half of `run`, where it is not dry
    unfoldable pub finish : Options → Stage → W → Result Failure (Stage × W)
    unfolding stage_save stage_commit
    finish options self w = do
      saved ← stage_save (options.allow_missing || options.checkpoint) self w
      w' ←
          (if options.no_commit
            then ok saved.1
            else stage_commit (options.allow_missing || options.checkpoint) saved.0 saved.1)
      ok (saved.0, w')

    -- `run`
    unfoldable pub run : Options → Stage → W → Result Failure (Stage × W)
    unfolding execute finish
    run options self w = do
      executed ← execute options self w
      (if options.dry
          then ok (record self { deps = executed.0 }, executed.1)
          else finish options (record self { deps = executed.0 }) executed.1)

    -- `reproduce`: none where nothing changed
    unfoldable pub reproduce : Options → Stage → W → Result Failure (Option Stage × W)
    unfolding changed run
    reproduce options self w =
        let (stale, w') = if options.force then (true, w) else changed self w in
        if not stale then ok (none, w') else do
          guard (not options.interactive || runner.confirm self) aborted
          after ← run options self w'
          ok (some after.0, after.1)
