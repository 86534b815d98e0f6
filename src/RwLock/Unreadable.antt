-- ===== src/RwLock/Unreadable.antt =====
-- Entries of the lock file that the class of a waiting path cannot read (dvc/rwlock.py).
use python_dvc.Base.{
  String, ◌≡◌, ◌≢◌, refl, ap, Bool, false, List, [], ◌∷◌, In, inl, inr, string_eq,
}
use python_dvc.Base.Dict.{Dict}
use python_dvc.Base.Result.{Result, ok, err, >>=-eq-ok}
use python_dvc.PathInfo.Url.{from_text, PathFailure, init_url, init_url_asserts}
use python_dvc.PathInfo.Defs.{
  Platform, Info, remote_path, class_of, url_class, UrlClass, Url, overlaps, url_info,
  http_url_info,
}
use python_dvc.PathInfo.Overlap.{is_http}
use python_dvc.RwLock.Defs.{
  Owner, LockFile, assertion, Session, overlaps_text, blockers, check_blockers, readers, enter,
}
use python_dvc.RwLock.Checks.{guard_passed}
use python_dvc.RwLock.Safety.{table_of, edit_rwlock-table_of, enter_inv}

-- A URL class other than `HTTPURLInfo` does not read an address with a query.
from_text_query :
    (platform : Platform) (c : UrlClass) (u : Url) (text : String) {q : Info}
    → is_http (remote_path c u) ≡ false
    → (platform.urlparse text).query ≢ ""
    → from_text platform (url_class c) text ≢ ok q
unfolding from_text
from_text_query platform url_info u text h n e =
    let (v, read, _) = >>=-eq-ok (init_url platform text) _ e in
    n (init_url_asserts platform text v read).0
from_text_query platform http_url_info u text h n e = cc
from_text_query platform _ u text h n e =
    let (v, read, _) = >>=-eq-ok (init_url platform text) _ e in
    n (init_url_asserts platform text v read).0

module _ (platform : Platform) (p : Info) (v : String)
    (unreadable : (q : Info) → from_text platform (class_of p) v ≢ ok q) where
  overlaps_text_fails : (b : Bool) → overlaps_text platform p v ≢ ok b
  unfolding overlaps_text
  overlaps_text_fails b h = fails (from_text platform (class_of p) v) refl h
    where
      fails :
          (r : Result PathFailure Info)
          → from_text platform (class_of p) v ≡ r
          → (elim r [ err _ ↦ err assertion | ok other ↦ ok (overlaps platform p other) ]) ≢ ok b
      fails (ok q) e k = unreadable q e
      fails (err e) _ k = cc

  blockers_fails :
      (info : Owner) (table : Dict String (List Owner)) (os found : List Owner)
      → In (v, os) table
      → blockers platform info p table ≢ ok found
  unfolding blockers
  blockers_fails info ((w, ws) ∷ table) os found m h =
      let (hit, e, h1) = >>=-eq-ok (overlaps_text platform p w) _ h in
      let (rest, e', _) = >>=-eq-ok (blockers platform info p table) _ h1 in
      elim m [
        | inl same ↦ overlaps_text_fails hit (rw (ap {B = String} (λ t. t.0) same) e)
        | inr m' ↦ blockers_fails info table os rest m' e'
      ]
  blockers_fails info [] os found m h = absurd m

  check_blockers_fails :
      (info : Owner) (table : Dict String (List Owner)) (os : List Owner) (waiters : List Info)
      → In (v, os) table
      → In p waiters
      → check_blockers platform table info waiters ≢ ok tt
  unfolding check_blockers
  check_blockers_fails info table os [] m i h = absurd i
  check_blockers_fails info table os (x ∷ waiters) m i h =
      let (found, e, h1) = >>=-eq-ok (blockers platform info x table) _ h in
      let (_, h2) = guard_passed x found _ h1 in
      elim i [
        | inl same ↦ blockers_fails info table os found m (rw same e)
        | inr i' ↦ check_blockers_fails info table os waiters m i' h2
      ]

-- A reader's entry whose text has a query stops every writer that waits on a URL of another class than
-- HTTP: the entry of the lock fails, whether or not the paths overlap.
pub enter_query_fails :
    (platform : Platform) (url : Info → String) (file : LockFile) (info : Owner)
    (read write : List Info) (c : UrlClass) (u : Url) (v : String) (os : List Owner)
    {r : LockFile × Session}
    → In (v, os) (readers (table_of file))
    → (platform.urlparse v).query ≢ ""
    → is_http (remote_path c u) ≡ false
    → In (remote_path c u) write
    → enter platform url file info read write ≢ ok r
enter_query_fails platform url file info read write c u v os {r} m q not_http i h =
    let (lock, h1, c1, c2, e) =
      enter_inv platform url file info read write {file' = r.0} {s = r.1} h in
    check_blockers_fails platform (remote_path c u) v
      (λ x. from_text_query platform c u v not_http q) info (readers lock) os write
      (rw ((edit_rwlock-table_of file h1).1) m) i c2
