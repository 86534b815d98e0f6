-- ===== src/RwLock/Safety.antt =====
-- Every interleaving of processes that enter, leave or die inside `rwlock` (dvc/rwlock.py).
use python_dvc.Base.{
  String, ◌≡◌, refl, ap, subst, none, List, [], ◌∷◌, ◌++◌, In, All, inl, inr, arith, string_eq,
}
use python_dvc.Base.Dict.{Dict, get, get-In}
use python_dvc.Base.Result.{ok_injective, Result, ok, err, ◌>>◌, >>=-eq-ok}
use python_dvc.PathInfo.Url.{from_text}
use python_dvc.PathInfo.Defs.{Platform, Info, class_of}
use python_dvc.RwLock.Defs.{
  Owner, Lock, LockFile, missing, corrupted, malformed, stored, LockFailure, Session, writers,
  readers, singletons, edit_rwlock, check_blockers, acquire, enter, leave, release_write,
  release_read,
}
use python_dvc.RwLock.Checks.{Free, check_blockers-Free}
use python_dvc.RwLock.Release.{IsPart, IsPart-trans, release_write-IsPart, release_read-IsPart}
use python_dvc.RwLock.Exclusion.{
  IsExclusive, NoWriter, NoReader, IsNamed, acquire_write-IsExclusive, acquire_read-IsExclusive,
  acquire_read-NoReader,
}

abbrev pub empty_lock : Lock
empty_lock = record { write = none; read = none }

-- The entries that a process finds in the file, if it can read it.
abbrev pub table_of : LockFile → Lock
table_of (stored lock) = lock
table_of _ = empty_lock

pub edit_rwlock-table_of :
    (file : LockFile) {lock : Lock}
    → edit_rwlock file ≡ ok lock
    → (writers lock ≡ writers (table_of file)) × (readers lock ≡ readers (table_of file))
unfolding edit_rwlock
edit_rwlock-table_of missing h = (ground arith, ground arith)
edit_rwlock-table_of corrupted h = cc
edit_rwlock-table_of malformed h = cc
edit_rwlock-table_of (stored lock) h = (ground arith, ground arith)

In-singletons :
    (w : Dict String Owner) (v : String) (o : Owner) → In (v, o) w → In (v, o ∷ []) (singletons w)
In-singletons ((u, x) ∷ w) v o (inl e) = inl (ap {B = String × List Owner} (λ t. (t.0, t.1 ∷ [])) e)
In-singletons ((u, x) ∷ w) v o (inr m) = inr (In-singletons w v o m)
In-singletons [] v o m = absurd m

two_checks :
    {A : Type 0} (c1 c2 : Result LockFailure (Unit {0})) {a b : A}
    → (c1 >> (c2 >> ok a)) ≡ ok b
    → (c1 ≡ ok tt) × (c2 ≡ ok tt) × (a ≡ b)
two_checks (ok _) (ok _) h = (refl, refl, cc)
two_checks (ok _) (err e) h = cc
two_checks (err e) c2 h = cc

All-split {κ} :
    {A : Type 0} (P : A → Type κ) (xs ys : List A) → All P (xs ++ ys) → All P xs × All P ys
All-split P [] ys h = (tt, h)
All-split P (x ∷ xs) ys h = let (hx, hy) = All-split P xs ys h.1 in ((h.0, hx), hy)

All-map {κ μ} :
    {A : Type 0} (P : A → Type κ) (Q : A → Type μ) (xs : List A)
    → ((a : A) → P a → Q a)
    → All P xs
    → All Q xs
All-map P Q [] f h = tt
All-map P Q (x ∷ xs) f h = (f x h.0, All-map P Q xs f h.1)

module _ (platform : Platform) (url : Info → String) where
  -- What a successful entry has checked and written.
  pub enter_inv :
      (file : LockFile) (info : Owner) (read write : List Info) {file' : LockFile} {s : Session}
      → enter platform url file info read write ≡ ok (file', s)
      → (lock : Lock) × (edit_rwlock file ≡ ok lock)
        × (check_blockers platform (singletons (writers lock)) info (read ++ write) ≡ ok tt)
        × (check_blockers platform (readers lock) info write ≡ ok tt)
        × (acquire url lock info read write ≡ (file', s))
  unfolding enter
  enter_inv file info read write h =
      let (lock, h1, h2) = >>=-eq-ok (edit_rwlock file) _ h in
      let (c1, c2, e) =
        two_checks (check_blockers platform (singletons (writers lock)) info (read ++ write))
          (check_blockers platform (readers lock) info write) h2 in
      (lock, h1, c1, c2, e)

module _ (platform : Platform) (url : Info → String) (known : String → Info) where
  abbrev pub FileIsExclusive : LockFile → Type 0
  FileIsExclusive file =
      IsExclusive platform url known (writers (table_of file)) (readers (table_of file))

  module _
      (reads_back : (u : String) → from_text platform (class_of (known u)) u ≡ ok (known u)) where
    Free-NoWriter :
        (info : Owner) (lock : Lock) (p : Info)
        → Free platform known reads_back info p (singletons (writers lock))
        → NoWriter platform url known info (writers lock) p
    Free-NoWriter info lock p h v o g ov =
        h v (o ∷ []) o (In-singletons (writers lock) v o (get-In (writers lock) v g)) (inl refl) ov

    Free-NoReader :
        (info : Owner) (lock : Lock) (p : Info)
        → Free platform known reads_back info p (readers lock)
        → NoReader platform url known info (readers lock) p
    Free-NoReader info lock p h v os o g m ov = h v os o (get-In (readers lock) v g) m ov

    acquire-FileIsExclusive :
        (info : Owner) (lock : Lock) (read write : List Info) {file' : LockFile} {s : Session}
        → All (IsNamed platform url known) read
        → All (IsNamed platform url known) write
        → IsExclusive platform url known (writers lock) (readers lock)
        → All (NoWriter platform url known info (writers lock)) read
        → All (NoWriter platform url known info (writers lock)) write
        → All (NoReader platform url known info (readers lock)) write
        → acquire url lock info read write ≡ (file', s)
        → FileIsExclusive file'
    unfolding acquire
    acquire-FileIsExclusive info lock read write {file'} nr nw ex wr ww rw_ e =
        subst FileIsExclusive (ap {B = LockFile} (λ t. t.0) e) (
          acquire_write-IsExclusive platform url known info write (writers lock) _ nw
            (acquire_read-IsExclusive platform url known info read (writers lock) (readers lock) nr
              ex wr)
            ww
            (All-map _ _ write
              (λ p. acquire_read-NoReader platform url known info p read (readers lock)) rw_))

    pub enter-FileIsExclusive :
        (file : LockFile) (info : Owner) (read write : List Info) {file' : LockFile} {s : Session}
        → All (IsNamed platform url known) read
        → All (IsNamed platform url known) write
        → FileIsExclusive file
        → enter platform url file info read write ≡ ok (file', s)
        → FileIsExclusive file'
    enter-FileIsExclusive file info read write {file'} nr nw ex h =
        let (lock, h1, c1, c2, e) = enter_inv platform url file info read write h in
        let (same_w, same_r) = edit_rwlock-table_of file h1 in
        let (free_r, free_w) = All-split _ read write (
          check_blockers-Free platform known reads_back info (singletons (writers lock))
            (read ++ write) c1) in
        let free_rw = check_blockers-Free platform known reads_back info (readers lock) write c2 in
        acquire-FileIsExclusive info lock read write nr nw (rw (same_w, same_r) ex)
          (All-map _ _ read (Free-NoWriter info lock) free_r)
          (All-map _ _ write (Free-NoWriter info lock) free_w)
          (All-map _ _ write (Free-NoReader info lock) free_rw) e

  IsExclusive-of_part :
      {small large : Lock}
      → IsPart small large
      → IsExclusive platform url known (writers large) (readers large)
      → IsExclusive platform url known (writers small) (readers small)
  IsExclusive-of_part part ex = record {
    writes = λ u v i j gu gv. ex.writes u v i j (part.writes u i gu) (part.writes v j gv);
    reads = λ u v i j js gu gv m.
        let (ks, g, m') = part.reads v js j gv m in ex.reads u v i j ks (part.writes u i gu) g m';
  }

  pub leave-FileIsExclusive :
      (file : LockFile) (s : Session) {file' : LockFile}
      → FileIsExclusive file
      → leave file s ≡ ok file'
      → FileIsExclusive file'
  unfolding leave
  leave-FileIsExclusive file s ex h =
      let (lock, h1, h2) = >>=-eq-ok (edit_rwlock file) _ h in
      let (mid, h3, h4) = >>=-eq-ok (release_write s.owner s.wchanges lock) _ h2 in
      let (last, h5, h6) = >>=-eq-ok (release_read s.owner s.rchanges mid) _ h4 in
      let (same_w, same_r) = edit_rwlock-table_of file h1 in
      let part =
        IsPart-trans (release_read-IsPart s.owner s.rchanges mid last h5)
          (release_write-IsPart s.owner s.wchanges lock mid h3) in
      subst FileIsExclusive (ok_injective h6) (IsExclusive-of_part part (rw (same_w, same_r) ex))

  -- The lock file and the processes inside `rwlock`. A process may enter, be turned away, leave, or
  -- die and leave its entries behind.
  pub data Step : LockFile → List Session → LockFile → List Session → Type 0 where
    enters :
        {file file' : LockFile} {inside : List Session} {s : Session} (info : Owner)
        (read write : List Info)
        → All (IsNamed platform url known) read
        → All (IsNamed platform url known) write
        → enter platform url file info read write ≡ ok (file', s)
        → Step file inside file' (s ∷ inside)
    turned_away :
        {file : LockFile} {inside : List Session} (info : Owner) (read write : List Info)
        (e : LockFailure)
        → enter platform url file info read write ≡ err e
        → Step file inside file inside
    leaves :
        {file file' : LockFile} {inside : List Session} (before after : List Session) (s : Session)
        → inside ≡ before ++ s ∷ after
        → leave file s ≡ ok file'
        → Step file inside file' (before ++ after)
    dies :
        {file : LockFile} {inside : List Session} (before after : List Session) (s : Session)
        → inside ≡ before ++ s ∷ after
        → Step file inside file (before ++ after)

  pub data Reach : LockFile → List Session → Type 0 where
    start : Reach missing []
    step :
        {file file' : LockFile} {inside inside' : List Session}
        → Reach file inside
        → Step file inside file' inside'
        → Reach file' inside'

  module _
      (reads_back : (u : String) → from_text platform (class_of (known u)) u ≡ ok (known u)) where
    Step-FileIsExclusive :
        {file file' : LockFile} {inside inside' : List Session}
        → Step file inside file' inside'
        → FileIsExclusive file
        → FileIsExclusive file'
    Step-FileIsExclusive (enters {file} info read write nr nw h) ex =
        enter-FileIsExclusive reads_back file info read write nr nw ex h
    Step-FileIsExclusive (turned_away info read write e h) ex = ex
    Step-FileIsExclusive (leaves {file} before after s e h) ex = leave-FileIsExclusive file s ex h
    Step-FileIsExclusive (dies before after s e) ex = ex

    -- Whatever processes entered, were turned away, left or died, two entries of the file at overlapping
    -- paths, at least one of them a writer's, have the same owner, where the text of each listed path reads
    -- back as its path object.
    pub Reach-FileIsExclusive :
        {file : LockFile} {inside : List Session} → Reach file inside → FileIsExclusive file
    Reach-FileIsExclusive start = record {
      writes = λ u v i j gu gv ov. unfold get in cc;
      reads = λ u v i j js gu gv m ov. unfold get in cc;
    }
    Reach-FileIsExclusive (step r s) = Step-FileIsExclusive s (Reach-FileIsExclusive r)
