-- ===== src/Remote/IndexLaws.antt =====
-- What the index of dvc/remote/index.py answers after updates, and what it keeps across sessions.
use python_dvc.Base.{
  Option, sym, ap, ◌∙◌, Option-cases, inl, inr, ℕ, zero, suc, ◌≤◌, String, ◌≡◌, refl, Bool, true,
  false, ◌&&◌, ◌||◌, none, some, List, [], ◌∷◌, ◌==◌, ==_iff, string_eq, nat_eq, contains,
  if◌then◌else◌, length, take, arith,
}
use python_dvc.Base.Dict.{get, has, get-put}
use python_dvc.Base.Result.{ok, err, ok_injective, ◌>>=◌}
use python_dvc.Cache.Keys.{contains-append}
use python_dvc.Remote.Index.{
  Table, no_rows, DbFile, absent, corrupt, database, Connection, Index, version, prepare_db,
  load_retrying, load, dump, assertion, insert_or_ignore, insert_all, update, select_in, drop,
  chunks, select_chunks, intersection,
}

-- A closed index loads with the current version.
load_prepared :
    (self : Index)
    → self.connection ≡ none
    → (file : DbFile) × (rows : Table) × (load self
        ≡ ok (record {
          file = file;
          connection = some (record { user_version = version; rows = rows });
        }))
unfolding load load_retrying prepare_db
load_prepared self h = go self.file refl
  where
    go :
        (file : DbFile)
        → self.file ≡ file
        → (file : DbFile) × (rows : Table) × (load self
            ≡ ok (record {
              file = file;
              connection = some (record { user_version = version; rows = rows });
            }))
    go absent e = (absent, no_rows, ground arith)
    go corrupt e = (absent, no_rows, ground arith)
    go (database v rows) e = (database v rows, if v == version then rows else no_rows, ground arith)

-- A closed index always loads, also from a file that is missing, corrupt or of another version.
pub load_total :
    (self : Index) → self.connection ≡ none → (loaded : Index) × (load self ≡ ok loaded)
load_total self h = let (file, rows, loaded) = load_prepared self h in (_, loaded)

load_busy :
    (self : Index) (old : Connection) → self.connection ≡ some old → load self ≡ err assertion
unfolding load
load_busy self old busy = rw (load, busy) refl

some-version :
    (conn : Connection) (rows : Table)
    → ◌≡◌ {A = Option Connection}
        (some conn)
        (some (record { user_version = version; rows = rows }))
    → conn.user_version ≡ version
some-version conn rows same = cc

load-version :
    (self opened : Index) (conn : Connection)
    → load self ≡ ok opened
    → opened.connection ≡ some conn
    → conn.user_version ≡ version
load-version self opened conn loaded is = elim (Option-cases self.connection) [
  | inr (old, busy) ↦ cc (load_busy self old busy, loaded)
  | inl closed ↦
      let (file, rows, prepared) = load_prepared self closed in
      some-version conn rows
        (sym is ∙ ap (λ i. i.connection) (ok_injective (sym loaded ∙ prepared)))
]

-- An index that was loaded and updated is dumped and loaded again with the updated rows.
pub load-dump :
    (self opened : Index) (conn : Connection) (dirs files : List String)
    → load self ≡ ok opened
    → opened.connection ≡ some conn
    → (do
      closed ←
          dump (record opened {
            connection = some (record conn { rows = update conn.rows dirs files });
          })
      load closed)
      ≡ ok (record {
        file = database version (update conn.rows dirs files);
        connection = some (record { user_version = version; rows = update conn.rows dirs files });
      })
unfolding dump load load_retrying prepare_db nat_eq
load-dump self opened conn dirs files loaded is = rw (load-version self opened conn loaded is) refl

has-insert_or_ignore :
    (rows : Table) (g : String) (dir : Bool) (h : String)
    → has (insert_or_ignore rows g dir) h ≡ has rows h || h == g
unfolding insert_or_ignore
has-insert_or_ignore rows g dir h = ground (arith, get-put rows g h dir)

has-insert_all :
    (rows : Table) (hashes : List String) (dir : Bool) (h : String)
    → has (insert_all rows hashes dir) h ≡ has rows h || contains hashes h
unfolding insert_all
has-insert_all rows [] dir h = ground arith
has-insert_all rows (g ∷ hashes) dir h = ground (
  arith,
  has-insert_all (insert_or_ignore rows g dir) hashes dir h,
  has-insert_or_ignore rows g dir h,
)

-- After an update the index lists the old checksums and the given ones, and no other.
pub has-update :
    (rows : Table) (dirs files : List String) (h : String)
    → has (update rows dirs files) h ≡ has rows h || (contains dirs h || contains files h)
unfolding update
has-update rows dirs files h = ground (
  arith,
  has-insert_all (insert_all rows dirs true) files false h,
  has-insert_all rows dirs true h,
)

contains-select_in :
    (rows : Table) (chunk : List String) (h : String)
    → contains (select_in rows chunk) h ≡ contains chunk h && has rows h
unfolding select_in get
contains-select_in [] chunk h = ground arith
contains-select_in ((g, dir) ∷ rows) chunk h =
    ground (arith, contains-select_in rows chunk h, ==_iff h g)

contains-take-drop :
    (n : ℕ) (xs : List String) (h : String)
    → contains xs h ≡ contains (take n xs) h || contains (drop n xs) h
contains-take-drop zero xs h = refl
contains-take-drop (suc n) [] h = refl
contains-take-drop (suc n) (x ∷ xs) h = ground (arith, contains-take-drop n xs h)

length-drop-le : (n : ℕ) (xs : List String) → length (drop n xs) ≤ length xs
length-drop-le zero xs = omega arith
length-drop-le (suc n) [] = omega arith
length-drop-le (suc n) (x ∷ xs) = omega (arith, length-drop-le n xs)

contains-select_chunks :
    (rows : Table) (fuel n : ℕ) (xs : List String) (h : String)
    → length xs ≤ fuel
    → contains (select_chunks rows (chunks fuel (suc n) xs)) h ≡ contains xs h && has rows h
unfolding select_chunks chunks
contains-select_chunks rows zero n [] h le = refl
contains-select_chunks rows zero n (x ∷ xs) h le = absurd (omega arith)
contains-select_chunks rows (suc fuel) n [] h le = refl
contains-select_chunks rows (suc fuel) n (x ∷ xs) h le =
    let rest = chunks fuel (suc n) (drop n xs) in
    ground (
      arith,
      contains-append (select_in rows (x ∷ take n xs)) (select_chunks rows rest) h,
      contains-select_in rows (x ∷ take n xs) h,
      contains-select_chunks rows fuel n (drop n xs) h (omega (arith, length-drop-le n xs)),
      contains-take-drop n xs h,
    )

-- The query in chunks finds exactly the given checksums that the index lists.
pub contains-intersection :
    (rows : Table) (hashes : List String) (h : String)
    → contains (intersection rows hashes) h ≡ contains hashes h && has rows h
unfolding intersection
contains-intersection rows hashes h =
    contains-select_chunks rows (length hashes) 998 hashes h (omega arith)
