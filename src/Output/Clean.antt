-- ===== src/Output/Clean.antt =====
-- What the tree and the cache promise (dvc/output/base.py), and when an output's status is empty.
use python_dvc.Base.{
  String, ◌≡◌, refl, ◌∙◌, true, false, not, ◌||◌, none, arith, Bool-cases, inl, inr,
}
use python_dvc.Base.Result.{ok}
use python_dvc.Output.HashInfo.{HashInfo, eq, is_true}
use python_dvc.Output.Defs.{
  Backend, Output, has_hash, get_hash, changed_checksum, changed_cache, workspace_status, status,
}

module _ {W : Type 0} (backend : Backend W) where
  -- The later state has the same files, and each checksum that was in the cache is there.
  pub record Keeps (w w' : W) : Type 0 where
    pub exists : (p : String) → backend.exists w' p ≡ backend.exists w p
    pub tree_hash : (p : String) → (backend.tree_get_hash w' p).0 ≡ (backend.tree_get_hash w p).0
    pub cache_hash : (p : String) → (backend.cache_get_hash w' p).0 ≡ (backend.cache_get_hash w p).0
    pub cached :
        (h : HashInfo)
        → (backend.changed_cache w h).0 ≡ false
        → (backend.changed_cache w' h).0 ≡ false

  pub Keeps-refl : (w : W) → Keeps w w
  Keeps-refl w = record {
    exists = λ p. refl;
    tree_hash = λ p. refl;
    cache_hash = λ p. refl;
    cached = λ h c. c;
  }

  pub Keeps-trans : (u v w : W) → Keeps u v → Keeps v w → Keeps u w
  Keeps-trans u v w a b = record {
    exists = λ p. b.exists p ∙ a.exists p;
    tree_hash = λ p. b.tree_hash p ∙ a.tree_hash p;
    cache_hash = λ p. b.cache_hash p ∙ a.cache_hash p;
    cached = λ h c. b.cached h (a.cached h c);
  }

  -- Questions, Git's ignore file and a save to the cache change no file and lose nothing; a save under the
  -- file's own checksum puts it into the cache.
  pub record IsLawful : Type 0 where
    pub tree_get_hash : (w : W) (p : String) → Keeps w (backend.tree_get_hash w p).1
    pub cache_get_hash : (w : W) (p : String) → Keeps w (backend.cache_get_hash w p).1
    pub changed_cache : (w : W) (h : HashInfo) → Keeps w (backend.changed_cache w h).1
    pub cache_save : (w : W) (p : String) (h : HashInfo) → Keeps w (backend.cache_save w p h).1
    pub ignore : (w : W) (p : String) → Keeps w (backend.ignore w p)
    pub cached_by_save :
        (w : W) (p : String) (h : HashInfo)
        → eq h (backend.cache_get_hash w p).0 ≡ true
        → (backend.cache_save w p h).0 ≡ ok tt
        → (backend.changed_cache (backend.cache_save w p h).1 h).0 ≡ false

  -- An existing file has a checksum that is no empty text.
  abbrev pub HasHashes : Type 0
  HasHashes =
      (w : W) (p : String)
      → backend.exists w p ≡ true
      → is_true (backend.tree_get_hash w p).0.value ≡ true

  -- The output's file exists and has the recorded checksum, which a cached output has in the cache.
  pub record IsClean (self : Output) (w : W) : Type 0 where
    pub exists : backend.exists w self.path ≡ true
    pub same : eq self.hash_info (get_hash backend self w).0 ≡ true
    pub has_value : has_hash self ≡ true
    pub cached : self.use_cache ≡ true → (backend.changed_cache w self.hash_info).0 ≡ false

  pub get_hash-Keeps :
      (self : Output) (w w' : W)
      → Keeps w w'
      → (get_hash backend self w').0 ≡ (get_hash backend self w).0
  unfolding get_hash
  get_hash-Keeps self w w' k = ground (arith, k.tree_hash self.path, k.cache_hash self.path)

  pub IsClean-Keeps : (self : Output) (w w' : W) → Keeps w w' → IsClean self w → IsClean self w'
  IsClean-Keeps self w w' k c = record {
    exists = k.exists self.path ∙ c.exists;
    same = rw (get_hash-Keeps self w w' k) c.same;
    has_value = c.has_value;
    cached = λ u. k.cached self.hash_info (c.cached u);
  }

  pub workspace_status-none :
      (self : Output) (w : W)
      → (workspace_status backend self w).0 ≡ none
      → (backend.exists w self.path ≡ true)
        × (eq self.hash_info (get_hash backend self w).0 ≡ true)
        × (has_hash self ≡ true)
  unfolding workspace_status changed_checksum
  workspace_status-none self w e = (ground arith, ground arith, ground arith)

  clean_workspace :
      (self : Output) (w : W)
      → backend.exists w self.path ≡ true
      → eq self.hash_info (get_hash backend self w).0 ≡ true
      → has_hash self ≡ true
      → (workspace_status backend self w).0 ≡ none
  unfolding workspace_status changed_checksum
  clean_workspace self w e s h = ground arith

  module _ (lawful : IsLawful) where
    -- Behind the question whether the checksum is in the cache, the files are the same.
    pub asked : (self : Output) (w : W) → Keeps w (changed_cache backend self w).1
    unfolding changed_cache
    asked self w = elim (Bool-cases (not self.use_cache || not (has_hash self))) [
      | inl e ↦ rw e (Keeps-refl w)
      | inr e ↦ rw e (lawful.changed_cache w self.hash_info)
    ]

    -- An output whose file exists with the recorded checksum, and is in the cache where the output uses it,
    -- has an empty status.
    pub IsClean-status : (self : Output) (w : W) → IsClean self w → (status backend self w).0 ≡ none
    unfolding status
    IsClean-status self w c =
        let c' = IsClean-Keeps self w (changed_cache backend self w).1 (asked self w) c in
        let now = clean_workspace self w c.exists c.same c.has_value in
        let later =
          clean_workspace self (changed_cache backend self w).1 c'.exists c'.same c'.has_value in
        elim (Bool-cases self.use_cache) [
          | inl u ↦ ground (arith, later, c.cached u, c.has_value)
          | inr u ↦ ground (arith, now, c.has_value)
        ]
