-- ===== src/RunCache/Reached.antt =====
-- dvc/stage/cache.py: what is loaded for a stage was saved for one with the same key.
use python_dvc.Base.{
  String, ◌≡◌, Bool, true, some, List, [], ◌∷◌, is_empty, string_eq, Bool-cases, inl, inr,
}
use python_dvc.Base.Dict.{put, get_or}
use python_dvc.Base.Result.{Result}
use python_dvc.RunCache.Defs.{
  Json, Lock, RunStage, corrupted, Files, Runs, get_cache_hash, get_stage_hash,
}
use python_dvc.RunCache.Store.{load, save, transfer_files, transfer}
use python_dvc.RunCache.Own.{
  All-put, IsOwn, AreOwn, IsKeyed, get_or-AreOwn, load-IsKeyed, load-found, save-IsKeyed,
}

module _ (digest : Json → String) where
  transfer_files-IsKeyed :
      (copied : String → String → Bool) (key : String) (files : Files) (to : Runs)
      → AreOwn digest (key, files)
      → IsKeyed digest to
      → IsKeyed digest (transfer_files copied key files to).0
  unfolding transfer_files
  transfer_files-IsKeyed copied key [] to own h = h
  transfer_files-IsKeyed copied key ((val, file) ∷ files) to own h = do
    let added = All-put (AreOwn digest) to key _ h (
        All-put (IsOwn digest key) (get_or to key []) val file (get_or-AreOwn digest to key h)
          own.0)
    elim (Bool-cases (is_empty (get_or to key []))) [
      | inr there ↦ rw (transfer_files, there) (transfer_files-IsKeyed copied key files to own.1 h)
      | inl free ↦ elim (Bool-cases (copied key val)) [
        | inl done ↦
            rw (transfer_files, free, done) (transfer_files-IsKeyed copied key files _ own.1 added)
        | inr failed ↦
            rw (transfer_files, free, failed) (transfer_files-IsKeyed copied key files to own.1 h)
      ]
    ]

  transfer-IsKeyed :
      (copied : String → String → Bool) (from to : Runs)
      → IsKeyed digest from
      → IsKeyed digest to
      → IsKeyed digest (transfer copied from to).0
  unfolding transfer
  transfer-IsKeyed copied [] to own h = h
  transfer-IsKeyed copied ((key, files) ∷ from) to own h =
      transfer-IsKeyed copied from _ own.1 (transfer_files-IsKeyed copied key files to own.0 h)

  -- A file of a run cache is damaged from outside, or is one that fits no schema.
  abbrev pub damage : Runs → String → String → Runs
  damage runs key val = put runs key (put (get_or runs key []) val corrupted)

  -- The run caches that come about, locally and on a remote, from the empty one
  pub data Reached : Runs → Type 1 where
    empty : Reached []
    saved :
        {runs : Runs} (W E : Type 0)
        (commit_uncached : RunStage → Lock → W → Result E (Unit {0}) × W) (w : W) (stage : RunStage)
        → Reached runs
        → Reached (save digest commit_uncached stage runs w).1
    loaded :
        {runs : Runs} (listdir : Files → List String) (stage : RunStage)
        → Reached runs
        → Reached (load digest listdir runs stage).1
    transferred :
        {from to : Runs} (copied : String → String → Bool)
        → Reached from
        → Reached to
        → Reached (transfer copied from to).0
    damaged : {runs : Runs} (key val : String) → Reached runs → Reached (damage runs key val)

  Reached-IsKeyed : {runs : Runs} → Reached runs → IsKeyed digest runs
  Reached-IsKeyed empty = tt
  Reached-IsKeyed (saved {runs = runs} W E c w stage r) =
      save-IsKeyed digest c stage runs w (Reached-IsKeyed r)
  Reached-IsKeyed (loaded {runs = runs} listdir stage r) =
      load-IsKeyed digest listdir runs stage (Reached-IsKeyed r)
  Reached-IsKeyed (transferred {from = from} {to = to} copied r s) =
      transfer-IsKeyed copied from to (Reached-IsKeyed r) (Reached-IsKeyed s)
  Reached-IsKeyed (damaged {runs = runs} key val r) =
      let h = Reached-IsKeyed r in
      All-put (AreOwn digest) runs key _ h (
        All-put (IsOwn digest key) (get_or runs key []) val corrupted
          (get_or-AreOwn digest runs key h) tt)

  -- In a run cache that came about by saving, loading, transfers between such caches and damaged files, what
  -- is loaded for a stage is lock data with the same key as the stage's.
  pub Reached-load :
      {runs : Runs} (listdir : Files → List String) (stage : RunStage) {lock : Lock}
      → Reached runs
      → (load digest listdir runs stage).0 ≡ some lock
      → get_stage_hash digest stage ≡ some (get_cache_hash digest lock true)
  Reached-load {runs} listdir stage r found =
      load-found digest listdir runs stage (Reached-IsKeyed r) found
