-- ===== src/Output/Defs.antt =====
-- dvc/output/base.py and dvc/output/local.py: outputs and dependencies, their status, and how they are
-- saved and committed. The file tree, the cache and Git are a `Backend` on a state `W`: each question that
-- may write a memo, a cache file or remove a corrupt one returns the state that it leaves.
use python_dvc.Base.{
  String, Bool, true, not, ◌&&◌, ◌||◌, Option, none, some, List, is_some, if◌then◌else◌,
}
use python_dvc.Base.Result.{Result, ok, err, ◌>>=◌, ◌>>◌, guard}
use python_dvc.Output.HashInfo.{HashInfo, eq, is_true}

pub data Failure : Type 0 where
  does_not_exist : String → Failure
  already_tracked : String → Failure
  metric_not_text : String → Failure
  link_failed : List String → Failure
  assertion : Failure
  missing_data_source : List String → Failure
  aborted : Failure
  other : String → Failure

pub record Backend (W : Type 0) : Type 0 where
  pub exists : W → String → Bool
  pub isdir : W → String → Bool
  pub istextfile : W → String → Bool
  pub tree_get_hash : W → String → HashInfo × W
  pub cache_get_hash : W → String → HashInfo × W
  pub changed_cache : W → HashInfo → Bool × W
  pub cache_save : W → String → HashInfo → Result Failure (Unit {0}) × W
  pub remove : W → String → W
  pub unprotect : W → String → W
  pub is_tracked : W → String → Bool
  pub ignore : W → String → W

-- `path` is `path_info`; `use_scm_ignore` is the property of that name. A dependency has `use_cache` false.
pub record Output : Type 0 where
  pub path : String
  pub hash_info : HashInfo
  pub is_dependency : Bool
  pub use_cache : Bool
  pub metric : Bool
  pub plot : Bool
  pub persist : Bool
  pub checkpoint : Bool
  pub use_scm_ignore : Bool

pub data OutStatus : Type 0 where
  deleted modified new not_in_cache : OutStatus

-- `bool(self.hash_info)`
abbrev pub has_hash : Output → Bool
has_hash self = is_true self.hash_info.value

module _ {W : Type 0} (backend : Backend W) where
  unfoldable pub get_hash : Output → W → HashInfo × W
  get_hash self w =
      if self.use_cache
      then backend.cache_get_hash w self.path
      else backend.tree_get_hash w self.path

  unfoldable pub changed_checksum : Output → W → Bool × W
  unfolding get_hash
  changed_checksum self w = let (h, w') = get_hash self w in (not (eq self.hash_info h), w')

  unfoldable pub changed_cache : Output → W → Bool × W
  changed_cache self w =
      if not self.use_cache || not (has_hash self)
      then (true, w)
      else backend.changed_cache w self.hash_info

  unfoldable pub workspace_status : Output → W → Option OutStatus × W
  unfolding changed_checksum
  workspace_status self w =
      if not (backend.exists w self.path)
      then (some deleted, w)
      else let (changed, w') = changed_checksum self w in
        if changed
        then (some modified, w')
        else if not (has_hash self)
        then (some new, w')
        else (none, w')

  unfoldable pub status : Output → W → Option OutStatus × W
  unfolding changed_cache workspace_status
  status self w =
      if not (has_hash self && self.use_cache)
      then workspace_status self w
      else let (missing, w') = changed_cache self w in
        if missing then (some not_in_cache, w') else workspace_status self w'

  unfoldable pub changed : Output → W → Bool × W
  unfolding status
  changed self w = let (found, w') = status self w in (is_some found, w')

  unfoldable pub ignore : Output → W → Result Failure W
  ignore self w = if not self.use_scm_ignore then ok w else do
    guard (not (backend.is_tracked w self.path)) (already_tracked self.path)
    ok (backend.ignore w self.path)

  -- `LocalOutput.verify_metric`
  unfoldable pub verify_metric : Output → W → Result Failure (Unit {0})
  verify_metric self w =
      if not self.metric || self.plot
      then ok tt
      else if not (backend.exists w self.path)
      then ok tt
      else if backend.isdir w self.path
      then ok tt
      else guard (backend.istextfile w self.path) (metric_not_text self.path)

  -- The end of `save`: the output takes the hash of its file.
  unfoldable pub take_hash : Output → W → Output × W
  unfolding get_hash
  take_hash self w = let (h, w') = get_hash self w in (record self { hash_info = h }, w')

  -- The part of `save` behind its checks.
  unfoldable pub save_hash : Output → W → Result Failure (Output × W)
  unfolding take_hash changed
  save_hash self w =
      if not self.use_cache
      then ok (take_hash self w)
      else if self.is_dependency
      then err assertion
      else let (differs, w') = changed self w in
        if not differs then ok (self, w') else ok (take_hash self w')

  -- `save`. The test of `self.isfile` and `self.isdir`, which are methods, never fails.
  unfoldable pub save : Output → W → Result Failure (Output × W)
  unfolding ignore verify_metric save_hash
  save self w = do
    guard (backend.exists w self.path) (does_not_exist self.path)
    w' ← ignore self w
    (if self.metric || self.plot then verify_metric self w' else ok tt)
    save_hash self w'

  unfoldable pub commit : Output → W → Result Failure (Unit {0}) × W
  commit self w =
      if not (backend.exists w self.path)
      then (err (does_not_exist self.path), w)
      else if not (has_hash self)
      then (err assertion, w)
      else if self.use_cache
      then backend.cache_save w self.path self.hash_info
      else (ok tt, w)
