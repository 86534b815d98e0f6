-- ===== src/RunCache/Own.antt =====
-- dvc/stage/cache.py: the files of a run cache keep their own keys and names while it is read and saved to.
use python_dvc.Base.{
  String, ◌≡◌, refl, sym, ap, ◌∙◌, subst, Bool, true, false, ◌||◌, Option, none, some, List, [],
  ◌∷◌, All, string_eq, if◌then◌else◌, Bool-cases, Option-cases, inl, inr, ◌==◌, ==_iff,
}
use python_dvc.Base.Dict.{Dict, get, put, remove, get_or, get-In}
use python_dvc.Base.Result.{Result, ok, err}
use python_dvc.Lock.Defs.{LockFailure, to_single_stage_lockfile}
use python_dvc.Lock.RoundTrip.{All-In}
use python_dvc.RunCache.Defs.{
  key_of, lacks_parts, has_unfit_dep, has_unfit_out, Json, Lock, RunStage, CacheFile, valid,
  corrupted, Files, Runs, get_cache_hash, get_stage_hash,
}
use python_dvc.RunCache.Store.{
  load_cache, load_first, load_key, load, write_new, save_file, save_found, save_key, save,
}

some_injective : {A : Type 0} {a b : A} → ◌≡◌ {A = Option A} (some a) (some b) → a ≡ b
some_injective h = cc

module _ {V : Type 0} (Holds : String × V → Type 0) where
  pub All-put :
      (d : Dict String V) (k : String) (v : V) → All Holds d → Holds (k, v) → All Holds (put d k v)
  unfolding put
  All-put [] k v h here = (here, tt)
  All-put ((j, w) ∷ d) k v h here = elim (Bool-cases (k == j)) [
    | inl same ↦ rw same (subst (λ i. Holds (i, v)) ((==_iff k j).0 same) here, h.1)
    | inr other ↦ rw other (h.0, All-put d k v h.1 here)
  ]

  All-remove : (d : Dict String V) (k : String) → All Holds d → All Holds (remove d k)
  unfolding remove
  All-remove [] k h = tt
  All-remove ((j, w) ∷ d) k h = elim (Bool-cases (k == j)) [
    | inl same ↦ rw same (All-remove d k h.1)
    | inr other ↦ rw other (h.0, All-remove d k h.1)
  ]

  All-get : (d : Dict String V) (k : String) {v : V} → get d k ≡ some v → All Holds d → Holds (k, v)
  All-get d k e h = All-In Holds d _ (get-In d k e) h

module _ (digest : Json → String) where
  -- The file has its own checksum for a name, and stands under its own key.
  abbrev pub IsOwn : String → String × CacheFile → Type 0
  IsOwn key (val, corrupted) = Unit
  IsOwn key (val, valid lock) =
      (get_cache_hash digest lock true ≡ key) × (get_cache_hash digest lock false ≡ val)

  abbrev pub AreOwn : String × Files → Type 0
  AreOwn (key, files) = All (IsOwn key) files

  abbrev pub IsKeyed : Runs → Type 0
  IsKeyed = All AreOwn

  pub get_or-AreOwn : (runs : Runs) (key : String) → IsKeyed runs → AreOwn (key, get_or runs key [])
  get_or-AreOwn runs key h = elim (Option-cases (get runs key)) [
    | inl e ↦ rw (get_or, e) tt
    | inr (files, e) ↦ rw (get_or, e) (All-get AreOwn runs key e h)
  ]

  -- What is read of the files of a key is own, and so is what they are left as.
  abbrev pub IsRead : String → Option Lock × Files → Type 0
  IsRead key (none, files) = AreOwn (key, files)
  IsRead key (some lock, files) = AreOwn (key, files) × (get_cache_hash digest lock true ≡ key)

  read-AreOwn : (key : String) (r : Option Lock × Files) → IsRead key r → AreOwn (key, r.1)
  read-AreOwn key (none, files) h = h
  read-AreOwn key (some lock, files) h = h.0

  load_cache-IsRead :
      (key val : String) (files : Files) → AreOwn (key, files) → IsRead key (load_cache files val)
  load_cache-IsRead key val files h = elim (Option-cases (get files val)) [
    | inl e ↦ rw (IsRead, load_cache, e) h
    | inr (corrupted, e) ↦ rw (IsRead, load_cache, e) (All-remove (IsOwn key) files val h)
    | inr (valid lock, e) ↦ rw (IsRead, load_cache, e) (h, (All-get (IsOwn key) files val e h).0)
  ]

  load_first-IsRead :
      (key : String) (vals : List String) (files : Files)
      → AreOwn (key, files)
      → IsRead key (load_first vals files)
  unfolding load_first
  load_first-IsRead key [] files h = h
  load_first-IsRead key (val ∷ vals) files h =
      go (load_cache files val) (load_cache-IsRead key val files h) (
        load_first-IsRead key vals (load_cache files val).1
          (read-AreOwn key _ (load_cache-IsRead key val files h)))
    where
      go :
          (r : Option Lock × Files)
          → IsRead key r
          → IsRead key (load_first vals r.1)
          → IsRead key (elim r.0 [ some lock ↦ r | none ↦ load_first vals r.1 ])
      go (none, files') one rest = rest
      go (some lock, files') one rest = one

  load_key-IsKeyed :
      (listdir : Files → List String) (runs : Runs) (key : String)
      → IsKeyed runs
      → IsKeyed (load_key listdir runs key).1
  unfolding load_key
  load_key-IsKeyed listdir runs key h = elim (Option-cases (get runs key)) [
    | inl e ↦ rw (load_key, e) h
    | inr (files, e) ↦
        rw (load_key, e)
          (All-put AreOwn runs key _ h (
            read-AreOwn key _
              (load_first-IsRead key (listdir files) files (All-get AreOwn runs key e h))))
  ]

  load_key-found :
      (listdir : Files → List String) (runs : Runs) (key : String) {lock : Lock}
      → IsKeyed runs
      → (load_key listdir runs key).0 ≡ some lock
      → get_cache_hash digest lock true ≡ key
  unfolding load_key
  load_key-found listdir runs key {lock} h found = elim (Option-cases (get runs key)) [
    | inl e ↦ let no_lock = rw (load_key, e) at found in cc
    | inr (files, e) ↦
        read_lock (load_first (listdir files) files)
          (load_first-IsRead key (listdir files) files (All-get AreOwn runs key e h))
          (rw (load_key, e) at found)
  ]
    where
      read_lock :
          (r : Option Lock × Files)
          → IsRead key r
          → r.0 ≡ some lock
          → get_cache_hash digest lock true ≡ key
      read_lock (none, files) read e = cc
      read_lock (some l, files) read e =
          ap (λ x. get_cache_hash digest x true) (some_injective (sym e)) ∙ read.1

  pub load-IsKeyed :
      (listdir : Files → List String) (runs : Runs) (stage : RunStage)
      → IsKeyed runs
      → IsKeyed (load digest listdir runs stage).1
  unfolding load
  load-IsKeyed listdir runs stage h = elim (Option-cases (get_stage_hash digest stage)) [
    | inl e ↦ rw (load, e) h
    | inr (key, e) ↦ rw (load, e) (load_key-IsKeyed listdir runs key h)
  ]

  pub load-found :
      (listdir : Files → List String) (runs : Runs) (stage : RunStage) {lock : Lock}
      → IsKeyed runs
      → (load digest listdir runs stage).0 ≡ some lock
      → get_stage_hash digest stage ≡ some (get_cache_hash digest lock true)
  unfolding load
  load-found listdir runs stage h found = elim (Option-cases (get_stage_hash digest stage)) [
    | inl e ↦ let no_lock = rw (load, e) at found in cc
    | inr (key, e) ↦ e ∙ ap some (sym (load_key-found listdir runs key h (rw (load, e) at found)))
  ]

  past_tests :
      (a b c : Bool) (o : Option String) {key : String}
      → (if a then none else if b then none else if c then none else o) ≡ some key
      → o ≡ some key
  past_tests true b c o h = cc
  past_tests false true c o h = cc
  past_tests false false true o h = cc
  past_tests false false false o h = h

  -- The key of a stage is that of its lock data.
  stage_key :
      (stage : RunStage) {key : String} {cache : Lock}
      → get_stage_hash digest stage ≡ some key
      → to_single_stage_lockfile stage.locked ≡ ok cache
      → get_cache_hash digest cache true ≡ key
  unfolding get_stage_hash
  stage_key stage keyed e = some_injective (
      ap (key_of digest) (sym e)
      ∙ past_tests (lacks_parts stage) (has_unfit_dep stage) (has_unfit_out stage)
          (key_of digest (to_single_stage_lockfile stage.locked)) keyed)

  module _ {W E : Type 0} (commit_uncached : RunStage → Lock → W → Result E (Unit {0}) × W) where
    write_new-AreOwn :
        (there : Bool) (r : Result E (Unit {0}) × W) (files : Files) (key val : String)
        (cache : Lock)
        → AreOwn (key, files)
        → IsOwn key (val, valid cache)
        → AreOwn (key, (write_new digest commit_uncached there r files val cache).1)
    write_new-AreOwn there (err e, w) files key val cache h own = h
    write_new-AreOwn true (ok u, w) files key val cache h own = h
    write_new-AreOwn false (ok u, w) files key val cache h own =
        All-put (IsOwn key) files val (valid cache) h own

    save_file-AreOwn :
        (stage : RunStage) (cache : Lock) (files : Files) (w : W) (key : String)
        → AreOwn (key, files)
        → get_cache_hash digest cache true ≡ key
        → AreOwn (key, (save_file digest commit_uncached stage cache files w).1)
    save_file-AreOwn stage cache files w key h keyed =
        go (load_cache files (get_cache_hash digest cache false)) (load_cache-IsRead key _ files h)
      where
        go :
            (r : Option Lock × Files)
            → IsRead key r
            → AreOwn (
              key,
              (save_found digest commit_uncached stage cache
                  (get_cache_hash digest cache false)
                  r
                  w).1,
            )
        go (none, left) read =
            write_new-AreOwn false (commit_uncached stage cache w) left key _ cache read
              (keyed, refl)
        go (some l, left) read = there (commit_uncached stage l w)
          where
            there :
                (r : Result E (Unit {0}) × W)
                → AreOwn (
                  key,
                  (write_new digest commit_uncached true r left
                      (get_cache_hash digest cache false)
                      l).1,
                )
            there (err e, w') = read.0
            there (ok u, w') = read.0

    pub save-IsKeyed :
        (stage : RunStage) (runs : Runs) (w : W)
        → IsKeyed runs
        → IsKeyed (save digest commit_uncached stage runs w).1
    unfolding save
    save-IsKeyed stage runs w h = elim (Bool-cases (stage.is_callback || stage.always_changed)) [
      | inl off ↦ rw (save, off) h
      | inr on ↦ elim (Option-cases (get_stage_hash digest stage)) [
        | inl e ↦ rw (save, on, e) h
        | inr (key, e) ↦ rw (save, on, e) (keyed key e (to_single_stage_lockfile stage.locked) refl)
      ]
    ]
      where
        keyed :
            (key : String)
            → get_stage_hash digest stage ≡ some key
            → (r : Result LockFailure Lock) → to_single_stage_lockfile stage.locked ≡ r
            → IsKeyed (save_key digest commit_uncached stage key r runs w).1
        keyed key e (err x) e2 = h
        keyed key e (ok cache) e2 = All-put AreOwn runs key _ h (
            save_file-AreOwn stage cache (get_or runs key []) w key (get_or-AreOwn runs key h)
              (stage_key stage e e2))
