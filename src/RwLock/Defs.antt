-- ===== src/RwLock/Defs.antt =====
-- dvc/rwlock.py: the table of readers and writers, its checks, and the acquiring and releasing.
use native.Mathlib.Decide.{ℕ_discrete}
use python_dvc.Base.{
  ℕ, String, Bool, Option, none, some, List, [], ◌∷◌, ◌++◌, Eq, ◌==◌, string_eq, String-discrete,
  contains, is_empty, if◌then◌else◌,
}
use python_dvc.Base.Dict.{Dict, get, put, remove, get_or}
use python_dvc.Base.Result.{Result, ok, err, ◌>>=◌, ◌>>◌, guard}
use python_dvc.PathInfo.Url.{from_text}
use python_dvc.PathInfo.Defs.{Platform, Info, class_of, overlaps}

-- `info`
pub record Owner : Type 0 where
  pub pid : ℕ
  pub cmd : String

unfoldable pub Owner-discrete : Discrete Owner
unfolding String-discrete ℕ_discrete
Owner-discrete = hlevel (String-discrete, ℕ_discrete)

instance unfoldable pub owner_eq : Eq Owner
unfolding Owner-discrete
owner_eq = record { dec = Owner-discrete }

-- The table as it is between a load and a dump. A key that `del` removed is `none`.
pub record Lock : Type 0 where
  pub write : Option (Dict String Owner)
  pub read : Option (Dict String (List Owner))

abbrev pub no_writers : Dict String Owner
no_writers = []

abbrev pub no_readers : Dict String (List Owner)
no_readers = []

-- `lock["write"]` and `lock["read"]` with the defaults of `SCHEMA`
abbrev pub writers : Lock → Dict String Owner
writers lock = elim lock.write [ none ↦ no_writers | some d ↦ d ]

abbrev pub readers : Lock → Dict String (List Owner)
readers lock = elim lock.read [ none ↦ no_readers | some d ↦ d ]

-- The file `rwlock`: what `open`, `json.load` and the schema make of it.
pub data LockFile : Type 0 where
  missing corrupted malformed : LockFile
  stored : Lock → LockFile

pub data LockFailure : Type 0 where
  file_corrupted file_format assertion : LockFailure
  busy : Info → List Owner → LockFailure

-- The first half of `_edit_rwlock`. The second half stores the table that the block leaves.
unfoldable pub edit_rwlock : LockFile → Result LockFailure Lock
edit_rwlock missing = ok (record { write = some no_writers; read = some no_readers })
edit_rwlock corrupted = err file_corrupted
edit_rwlock malformed = err file_format
edit_rwlock (stored lock) = ok (record { write = some (writers lock); read = some (readers lock) })

-- `[blocker for blocker in infos if blocker != info]`
unfoldable pub others : Owner → List Owner → List Owner
others info [] = []
others info (o ∷ os) = let rest = others info os in if o == info then rest else o ∷ rest

-- `infos if isinstance(infos, list) else [infos]`, over the writers
abbrev pub singletons : Dict String Owner → Dict String (List Owner)
singletons [] = []
singletons ((url, o) ∷ d) = (url, o ∷ []) ∷ singletons d

-- `from_text` is `self.__class__(other)`; it raises AssertionError only.
module _ (platform : Platform) where
  -- `path_info.overlaps(path)`, where `path` is a text
  unfoldable pub overlaps_text : Info → String → Result LockFailure Bool
  overlaps_text self text = elim (from_text platform (class_of self) text) [
    | err _ ↦ err assertion
    | ok other ↦ ok (overlaps platform self other)
  ]

  unfoldable pub blockers :
      Owner → Info → Dict String (List Owner) → Result LockFailure (List Owner)
  blockers info path_info [] = ok []
  blockers info path_info ((path, infos) ∷ items) = do
    hit ← overlaps_text path_info path
    rest ← blockers info path_info items
    ok ((if hit then others info infos else []) ++ rest)

  unfoldable pub check_blockers :
      Dict String (List Owner) → Owner → List Info → Result LockFailure (Unit {0})
  check_blockers entries info [] = ok tt
  check_blockers entries info (path_info ∷ waiters) = do
    found ← blockers info path_info entries
    guard (is_empty found) (busy path_info found)
    check_blockers entries info waiters

-- The table and the list `changes`; `url` is the property of that name.
module _ (url : Info → String) where
  unfoldable pub acquire_read :
      Dict String (List Owner) → Owner → List Info → Dict String (List Owner) × List String
  acquire_read table info [] = (table, [])
  acquire_read table info (path_info ∷ path_infos) =
      let now = get_or table (url path_info) [] in
      let skip = acquire_read table info path_infos in
      let go = acquire_read (put table (url path_info) (now ++ info ∷ [])) info path_infos in
      if contains now info then skip else (go.0, url path_info ∷ go.1)

  unfoldable pub acquire_write :
      Dict String Owner → Owner → List Info → Dict String Owner × List String
  acquire_write table info [] = (table, [])
  acquire_write table info (path_info ∷ path_infos) =
      let skip = acquire_write table info path_infos in
      let go = acquire_write (put table (url path_info) info) info path_infos in
      elim (get table (url path_info)) [
        | none ↦ (go.0, url path_info ∷ go.1)
        | some owner ↦ if owner == info then skip else (go.0, url path_info ∷ go.1)
      ]

-- `if not lock["write"]: del lock["write"]`
abbrev pub unless_empty {ℓ} : {A : Type ℓ} → List A → Option (List A)
unless_empty [] = none
unless_empty (x ∷ xs) = some (x ∷ xs)

-- One round of `_release_write`, its three assertions included.
unfoldable pub release_writer : Owner → String → Lock → Result LockFailure Lock
release_writer info u lock = elim lock.write [
  | none ↦ err assertion
  | some table ↦ elim (get table u) [
    | none ↦ err assertion
    | some owner ↦
        if owner == info
        then ok (record { write = unless_empty (remove table u); read = lock.read })
        else err assertion
  ]
]

unfoldable pub release_write : Owner → List String → Lock → Result LockFailure Lock
release_write info [] lock = ok lock
release_write info (u ∷ changes) lock = do
  lock' ← release_writer info u lock
  release_write info changes lock'

-- `list.remove`: the first occurrence goes.
unfoldable pub remove_first : Owner → List Owner → List Owner
remove_first info [] = []
remove_first info (o ∷ os) = let rest = remove_first info os in if o == info then os else o ∷ rest

-- `if not lock["read"][url]: del lock["read"][url]`
abbrev pub put_readers : Dict String (List Owner) → String → List Owner → Dict String (List Owner)
put_readers table u [] = remove table u
put_readers table u (o ∷ os) = put table u (o ∷ os)

unfoldable pub release_reader : Owner → String → Lock → Result LockFailure Lock
unfolding remove_first
release_reader info u lock = elim lock.read [
  | none ↦ err assertion
  | some table ↦ elim (get table u) [
    | none ↦ err assertion
    | some infos ↦
        if contains infos info
        then ok (record {
          write = lock.write;
          read = unless_empty (put_readers table u (remove_first info infos));
        })
        else err assertion
  ]
]

unfoldable pub release_read : Owner → List String → Lock → Result LockFailure Lock
release_read info [] lock = ok lock
release_read info (u ∷ changes) lock = do
  lock' ← release_reader info u lock
  release_read info changes lock'

-- What a process keeps between the two halves of `rwlock`.
pub record Session : Type 0 where
  pub owner : Owner
  pub rchanges : List String
  pub wchanges : List String

-- The two calls of `_acquire_*`, and the dump of the table.
unfoldable pub acquire : (Info → String) → Lock → Owner → List Info → List Info → LockFile × Session
acquire url lock info read write =
    let (r, rchanges) = acquire_read url (readers lock) info read in
    let (w, wchanges) = acquire_write url (writers lock) info write in
    (
      stored (record { write = some w; read = some r }),
      record { owner = info; rchanges = rchanges; wchanges = wchanges },
    )

module _ (platform : Platform) (url : Info → String) where
  -- `rwlock` up to its `yield`: the new file, and what the second half needs.
  unfoldable pub enter :
      LockFile → Owner → List Info → List Info → Result LockFailure (LockFile × Session)
  enter file info read write = do
    lock ← edit_rwlock file
    check_blockers platform (singletons (writers lock)) info (read ++ write)
    check_blockers platform (readers lock) info write
    ok (acquire url lock info read write)

-- The `finally` of `rwlock`.
unfoldable pub leave : LockFile → Session → Result LockFailure LockFile
leave file s = do
  lock ← edit_rwlock file
  lock' ← release_write s.owner s.wchanges lock
  lock'' ← release_read s.owner s.rchanges lock'
  ok (stored lock'')
