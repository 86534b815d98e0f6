-- ===== src/Output/Save.antt =====
-- `save` and `commit` of dvc/output/base.py.
use python_dvc.Base.{
  ◌≡◌, refl, sym, ap, ◌∙◌, Bool, true, false, not, ◌&&◌, ◌||◌, none, some, arith, ==_iff,
  Bool-cases, inl, inr, if◌then◌else◌, is_some,
}
use python_dvc.Base.Result.{Result, ok, err, guard, >>=-eq-ok}
use python_dvc.Output.HashInfo.{HashInfo, key_eq, field_eq, eq}
use python_dvc.Output.Defs.{
  Failure, assertion, does_not_exist, Backend, Output, deleted, modified, new, not_in_cache,
  has_hash, get_hash, changed_checksum, changed_cache, workspace_status, status, changed, ignore,
  verify_metric, take_hash, save_hash, save, commit,
}
use python_dvc.Output.Clean.{
  Keeps, Keeps-refl, Keeps-trans, IsLawful, IsClean, IsClean-status, get_hash-Keeps, asked,
  workspace_status-none,
}

eq_refl : (h : HashInfo) → eq h h ≡ true
eq_refl h = ground (arith, ==_iff h.name h.name, ==_iff h.value h.value)

exists_of_guard : (b : Bool) (raised : Failure) {u : Unit {0}} → guard b raised ≡ ok u → b ≡ true
exists_of_guard true raised e = refl
exists_of_guard false raised e = cc

module _ {W : Type 0} (backend : Backend W) where
  if_lem :
      {A : Type 0} (b : Bool) (w : W) (x y : A × W)
      → Keeps backend w x.1
      → Keeps backend w y.1
      → Keeps backend w (if b then x else y).1
  if_lem true w x y l r = l
  if_lem false w x y l r = r

  -- The file exists and has the recorded checksum.
  pub record IsSaved (self : Output) (w : W) : Type 0 where
    pub exists : backend.exists w self.path ≡ true
    pub same : eq self.hash_info (get_hash backend self w).0 ≡ true

  pub IsSaved-Keeps :
      (self : Output) (w w' : W) → Keeps backend w w' → IsSaved self w → IsSaved self w'
  IsSaved-Keeps self w w' k s = record {
    exists = k.exists self.path ∙ s.exists;
    same = rw (get_hash-Keeps backend self w w' k) s.same;
  }

  -- Only the checksum differs.
  pub record IsRenewed (self self' : Output) : Type 0 where
    pub path : self'.path ≡ self.path
    pub checkpoint : self'.checkpoint ≡ self.checkpoint
    pub use_cache : self'.use_cache ≡ self.use_cache

  module _ (lawful : IsLawful backend) where
    get_hash_lem : (self : Output) (w : W) → Keeps backend w (get_hash backend self w).1
    unfolding get_hash
    get_hash_lem self w = elim (Bool-cases self.use_cache) [
      | inl e ↦ rw e (lawful.cache_get_hash w self.path)
      | inr e ↦ rw e (lawful.tree_get_hash w self.path)
    ]

    ignore-Keeps :
        (self : Output) (w : W) {w' : W} → ignore backend self w ≡ ok w' → Keeps backend w w'
    unfolding ignore
    ignore-Keeps self w {w'} e = elim (Bool-cases (not self.use_scm_ignore)) [
      | inl skip ↦ let same : w ≡ w' = ground arith in rw (← same) (Keeps-refl backend w)
      | inr go ↦
          let same : backend.ignore w self.path ≡ w' = ground arith in
          rw (← same) (lawful.ignore w self.path)
    ]

    workspace_status_lem :
        (self : Output) (w : W) → Keeps backend w (workspace_status backend self w).1
    unfolding workspace_status changed_checksum
    workspace_status_lem self w =
        let later = get_hash_lem self w in
        let w' = (get_hash backend self w).1 in
        if_lem _ w (some deleted, w) _ (Keeps-refl backend w)
          (if_lem _ w (some modified, w') _ later
            (if_lem _ w (some new, w') (none, w') later later))

    pub status_lem : (self : Output) (w : W) → Keeps backend w (status backend self w).1
    unfolding status
    status_lem self w =
        let w' = (changed_cache backend self w).1 in
        let later = asked backend lawful self w in
        if_lem _ w (workspace_status backend self w) _ (workspace_status_lem self w) (
          if_lem _ w (some not_in_cache, w') _ later
            (Keeps-trans backend w w' _ later (workspace_status_lem self w')))

    take_hash-IsSaved :
        (self : Output) (w : W)
        → backend.exists w self.path ≡ true
        → IsSaved (take_hash backend self w).0 (take_hash backend self w).1
    unfolding take_hash
    take_hash-IsSaved self w e =
        let k = get_hash_lem self w in
        let same : (get_hash backend (take_hash backend self w).0 (get_hash backend self w).1).0
            ≡ (get_hash backend self w).0 =
          unfold get_hash in get_hash-Keeps backend self w (get_hash backend self w).1 k in
        record {
          exists = k.exists self.path ∙ e;
          same = rw same (eq_refl (get_hash backend self w).0);
        }

    status-IsSaved :
        (self : Output) (w : W)
        → (status backend self w).0 ≡ none
        → IsSaved self (status backend self w).1
    unfolding status
    status-IsSaved self w e =
        let k = status_lem self w in
        elim (Bool-cases (not (has_hash self && self.use_cache))) [
          | inl c ↦
              let (x, y, z) = workspace_status-none backend self w (ground arith) in
              IsSaved-Keeps self w _ k (record { exists = x; same = y })
          | inr c ↦
              let w' = (changed_cache backend self w).1 in
              let (x, y, z) = workspace_status-none backend self w' (ground arith) in
              let later = asked backend lawful self w in
              IsSaved-Keeps self w _ k (record {
                exists = sym (later.exists self.path) ∙ x;
                same = rw (sym (get_hash-Keeps backend self w w' later)) y;
              })
        ]

    take_hash-Keeps : (self : Output) (w : W) → Keeps backend w (take_hash backend self w).1
    unfolding take_hash
    take_hash-Keeps self w = get_hash_lem self w

    -- What `save` makes of an output and of the state.
    pub record IsSaveOf (self : Output) (w : W) (self' : Output) (w' : W) : Type 0 where
      pub keeps : Keeps backend w w'
      pub saved : IsSaved self' w'
      pub renewed : IsRenewed self self'

    taken :
        (self : Output) (w w' : W)
        → Keeps backend w w'
        → backend.exists w self.path ≡ true
        → IsSaveOf self w (take_hash backend self w').0 (take_hash backend self w').1
    taken self w w' k e = record {
      keeps = Keeps-trans backend w w' _ k (take_hash-Keeps self w');
      saved = take_hash-IsSaved self w' (k.exists self.path ∙ e);
      renewed = unfold take_hash in record { path = refl; checkpoint = refl; use_cache = refl };
    }

    save_hash-IsSaveOf :
        (self : Output) (w : W) {self' : Output} {w' : W}
        → backend.exists w self.path ≡ true
        → save_hash backend self w ≡ ok (self', w')
        → IsSaveOf self w self' w'
    unfolding save_hash changed
    save_hash-IsSaveOf self w {self'} {w'} x e =
        let after = (status backend self w).1 in
        elim (Bool-cases (not self.use_cache)) [
          | inl c ↦
              let same : take_hash backend self w ≡ (self', w') = ground arith in
              rw (ap (λ t. t.0) (sym same), ap (λ t. t.1) (sym same))
                (taken self w w (Keeps-refl backend w) x)
          | inr c ↦ elim (Bool-cases (is_some (status backend self w).0)) [
            | inl s ↦
                let same : take_hash backend self after ≡ (self', w') = ground arith in
                rw (ap (λ t. t.0) (sym same), ap (λ t. t.1) (sym same))
                  (taken self w after (status_lem self w) x)
            | inr s ↦
                let same : ◌≡◌ {A = Output × W} (self, after) (self', w') = ground arith in
                let clean : (status backend self w).0 ≡ none = ground arith in
                rw (ap (λ t. t.0) (sym same), ap (λ t. t.1) (sym same))
                  (record {
                    keeps = status_lem self w;
                    saved = status-IsSaved self w clean;
                    renewed = record { path = refl; checkpoint = refl; use_cache = refl };
                  })
          ]
        ]

    pub save-IsSaveOf :
        (self : Output) (w : W) {self' : Output} {w' : W}
        → save backend self w ≡ ok (self', w')
        → IsSaveOf self w self' w'
    unfolding save
    save-IsSaveOf self w e =
        let (u, guarded, e1) =
          >>=-eq-ok (guard (backend.exists w self.path) (does_not_exist self.path)) _ e in
        let (w1, ignored, e2) = >>=-eq-ok (ignore backend self w) _ e1 in
        let (v, verified, e3) =
          >>=-eq-ok (if self.metric || self.plot then verify_metric backend self w1 else ok tt) _
            e2 in
        let k = ignore-Keeps self w ignored in
        let there : backend.exists w self.path ≡ true = exists_of_guard _ _ guarded in
        let rest = save_hash-IsSaveOf self w1 (k.exists self.path ∙ there) e3 in
        record {
          keeps = Keeps-trans backend w w1 _ k rest.keeps;
          saved = rest.saved;
          renewed = rest.renewed;
        }

    pub commit-Keeps : (self : Output) (w : W) → Keeps backend w (commit backend self w).1
    unfolding commit
    commit-Keeps self w = elim (Bool-cases (not (backend.exists w self.path))) [
      | inl e ↦ rw e (Keeps-refl backend w)
      | inr e ↦ elim (Bool-cases (not (has_hash self))) [
        | inl h ↦ rw (e, h) (Keeps-refl backend w)
        | inr h ↦ elim (Bool-cases self.use_cache) [
          | inl u ↦ rw (e, h, u) (lawful.cache_save w self.path self.hash_info)
          | inr u ↦ rw (e, h, u) (Keeps-refl backend w)
        ]
      ]
    ]

    -- A commit of a cached output that returned was a save to the cache that returned.
    cache_saved :
        (self : Output) (w : W)
        → self.use_cache ≡ true
        → (commit backend self w).0 ≡ ok tt
        → (backend.cache_save w self.path self.hash_info).0 ≡ ok tt
          × (commit backend self w ≡ backend.cache_save w self.path self.hash_info)
    unfolding commit
    cache_saved self w u e = elim (Bool-cases (not (backend.exists w self.path))) [
      | inl x ↦
          let no : ◌≡◌ {A = Result Failure (Unit {0})} (err (does_not_exist self.path)) (ok tt) =
            rw x at e in
          cc
      | inr x ↦ elim (Bool-cases (not (has_hash self))) [
        | inl h ↦
            let no : ◌≡◌ {A = Result Failure (Unit {0})} (err assertion) (ok tt) = rw (x, h) at e in
            cc
        | inr h ↦ (rw (x, h, u) at e, rw (x, h, u) refl)
      ]
    ]

    pub commit-IsClean :
        (self : Output) (w : W)
        → IsSaved self w
        → (commit backend self w).0 ≡ ok tt
        → IsClean backend self (commit backend self w).1
    commit-IsClean self w s e =
        let k = commit-Keeps self w in
        record {
          exists = k.exists self.path ∙ s.exists;
          same = rw (get_hash-Keeps backend self w _ k) s.same;
          has_value = unfold commit in ground arith;
          cached = λ u.
              let (saved, whole) = cache_saved self w u e in
              rw whole (
                lawful.cached_by_save w self.path self.hash_info (unfold get_hash in rw u at s.same)
                  saved);
        }

    -- An output that was saved and then committed without an exception has an empty status in the state
    -- that the commit leaves.
    pub save-commit-status :
        (self : Output) (w : W) {self' : Output} {w' : W}
        → save backend self w ≡ ok (self', w')
        → (commit backend self' w').0 ≡ ok tt
        → (status backend self' (commit backend self' w').1).0 ≡ none
    save-commit-status self w {self'} {w'} saved committed =
        let s = save-IsSaveOf self w saved in
        IsClean-status backend lawful self' _ (commit-IsClean self' w' s.saved committed)
