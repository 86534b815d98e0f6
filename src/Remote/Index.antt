-- ===== src/Remote/Index.antt =====
-- dvc/remote/index.py: the index of the checksums that a remote is known to hold. The sqlite table is a
-- dictionary from the checksum to the column `dir`.
use Prim.Native.Nat.{ℕ, zero, suc}
use python_dvc.Base.{
  String, Bool, true, false, Option, none, some, List, [], ◌∷◌, ◌++◌, ◌==◌, string_eq, nat_eq,
  contains, if◌then◌else◌, length, take,
}
use python_dvc.Base.Dict.{Dict, put, has}
use python_dvc.Base.Result.{Result, ok, err, ◌>>=◌}

abbrev pub Table : Type 0
Table = Dict String Bool

abbrev pub no_rows : Table
no_rows = []

-- The file of the index: a database has a `user_version` and the rows.
pub data DbFile : Type 0 where
  absent corrupt : DbFile
  database : ℕ → Table → DbFile

pub data IndexFailure : Type 0 where
  assertion database_error : IndexFailure

-- An open database: what its file will be with the next commit
pub record Connection : Type 0 where
  pub user_version : ℕ
  pub rows : Table

pub record Index : Type 0 where
  pub file : DbFile
  pub connection : Option Connection

abbrev pub version : ℕ
version = 1

-- `PRAGMA user_version = VERSION`
abbrev pub set_version : Connection → Connection
set_version opened = record opened { user_version = version }

-- `_prepare_db`: an index of another version loses its rows, and the version is set; a corrupt file raises
-- DatabaseError.
unfoldable pub prepare_db : DbFile → Result IndexFailure Connection
prepare_db absent = ok (set_version (record { user_version = 0; rows = no_rows }))
prepare_db corrupt = err database_error
prepare_db (database v rows) =
    ok (set_version (record { user_version = v; rows = if v == version then rows else no_rows }))

-- The `while` loop of `load`, by recursion on `retries`.
unfoldable pub load_retrying : ℕ → DbFile → Result IndexFailure (DbFile × Connection)
unfolding prepare_db
load_retrying zero file = do opened ← prepare_db file; ok (file, opened)
load_retrying (suc retries) file =
    let again = load_retrying retries absent in
    elim (prepare_db file) [ err _ ↦ again | ok opened ↦ ok (file, opened) ]

unfoldable pub load : Index → Result IndexFailure Index
unfolding load_retrying
load self = elim self.connection [
  | some _ ↦ err assertion
  | none ↦ (do
    (file, opened) ← load_retrying 1 self.file
    ok (record { file = file; connection = some opened }))
]

-- `dump` commits and closes.
unfoldable pub dump : Index → Result IndexFailure Index
dump self = elim self.connection [
  | none ↦ err assertion
  | some opened ↦ ok (record { file = database opened.user_version opened.rows; connection = none })
]

-- `INSERT OR IGNORE`
unfoldable pub insert_or_ignore : Table → String → Bool → Table
insert_or_ignore rows hash dir = if has rows hash then rows else put rows hash dir

unfoldable pub insert_all : Table → List String → Bool → Table
insert_all rows [] dir = rows
insert_all rows (h ∷ hashes) dir = insert_all (insert_or_ignore rows h dir) hashes dir

-- `update`
unfoldable pub update : Table → List String → List String → Table
unfolding insert_all
update rows dir_hashes file_hashes = insert_all (insert_all rows dir_hashes true) file_hashes false

-- `clear`
abbrev pub clear : Table → Table
clear rows = no_rows

-- `dir_hashes`
unfoldable pub dir_hashes : Table → List String
dir_hashes [] = []
dir_hashes ((h, dir) ∷ rows) = let rest = dir_hashes rows in if dir then h ∷ rest else rest

-- `SELECT checksum ... WHERE checksum IN (...)`
unfoldable pub select_in : Table → List String → List String
select_in [] chunk = []
select_in ((h, dir) ∷ rows) chunk =
    let rest = select_in rows chunk in if contains chunk h then h ∷ rest else rest

abbrev pub drop {ℓ} : {A : Type ℓ} → ℕ → List A → List A
drop zero xs = xs
drop (suc n) [] = []
drop (suc n) (x ∷ xs) = drop n xs

-- `lchunks(n, xs)`; the length of the list is fuel enough.
unfoldable pub chunks : ℕ → ℕ → List String → List (List String)
chunks zero n xs = []
chunks (suc fuel) n [] = []
chunks (suc fuel) n (x ∷ xs) = take n (x ∷ xs) ∷ chunks fuel n (drop n (x ∷ xs))

unfoldable pub select_chunks : Table → List (List String) → List String
select_chunks rows [] = []
select_chunks rows (chunk ∷ rest) = select_in rows chunk ++ select_chunks rows rest

-- `intersection`
unfoldable pub intersection : Table → List String → List String
intersection rows hashes = select_chunks rows (chunks (length hashes) 999 hashes)
