-- ===== src/Remote/Status.antt =====
-- dvc/remote/base.py: what a remote holds (`hashes_exist`, `_indexed_dir_hashes`), and the status of each
-- file (`_status`, `_make_status`, `_fill_statuses`). Python sets are lists read by `contains`.
use python_dvc.Base.{
  String, ◌<>◌, Bool, true, false, ◌&&◌, List, [], ◌∷◌, ◌++◌, string_eq, contains, is_empty, all,
  if◌then◌else◌,
}
use python_dvc.Base.Dict.{Dict, put, has, get_or}
use python_dvc.Cache.Named.{
  Item, item, Children, nil, child, names, Scheme, scheme_keys, dir_keys, child_keys, set_update,
}
use python_dvc.Remote.Index.{Table, update, clear, dir_hashes, intersection}

pub data Status : Type 0 where
  status_ok status_missing status_new status_deleted : Status

-- `STATUS_MAP[(local_exists, remote_exists)]`
unfoldable pub status_map : Bool → Bool → Status
status_map true true = status_ok
status_map false false = status_missing
status_map true false = status_new
status_map false true = status_deleted

-- `xs - ys` and `xs.intersection(ys)`
unfoldable pub set_minus : List String → List String → List String
set_minus [] ys = []
set_minus (x ∷ xs) ys = let rest = set_minus xs ys in if contains ys x then rest else x ∷ rest

unfoldable pub set_meet : List String → List String → List String
set_meet [] ys = []
set_meet (x ∷ xs) ys = let rest = set_meet xs ys in if contains ys x then x ∷ rest else rest

abbrev pub set_eq : List String → List String → Bool
set_eq xs ys = all (contains ys) xs && all (contains xs) ys

-- The answers of the caches: which of some checksums exist. `local_exists` is `hashes_exist` of the local
-- cache; the other two are `hashes_exist` and `list_hashes_exists` of the remote's.
pub record Storage : Type 0 where
  pub local_exists : List String → List String
  pub hashes_exist : List String → List String
  pub list_hashes_exists : List String → List String

module _ (storage : Storage) where
  -- `Remote.hashes_exist`
  unfoldable pub remote_hashes_exist : Table → List String → List String
  unfolding set_minus
  remote_hashes_exist rows hashes =
      let indexed = intersection rows hashes in
      let others = set_minus hashes indexed in
      if is_empty others then indexed else indexed ++ storage.hashes_exist others

  -- The loop of `_indexed_dir_hashes`: the yielded checksums and the index.
  unfoldable pub index_dirs : Scheme → Table → List String → List String × Table
  index_dirs items rows [] = ([], rows)
  index_dirs items rows (dir_hash ∷ dirs) =
      let file_hashes = child_keys items dir_hash in
      let rows' = if has rows dir_hash then rows else update rows (dir_hash ∷ []) file_hashes in
      let (rest, last) = index_dirs items rows' dirs in (dir_hash ∷ (file_hashes ++ rest), last)

  -- The first part: validates the index against the remote.
  unfoldable pub validate_index : Table → List String × Table
  unfolding set_minus
  validate_index rows =
      let indexed_dirs = dir_hashes rows in
      let exist = if is_empty indexed_dirs then [] else storage.list_hashes_exists indexed_dirs in
      (exist, if is_empty (set_minus indexed_dirs exist) then rows else clear rows)

  unfoldable pub existing_dirs : List String → List String → List String
  unfolding set_meet set_minus
  existing_dirs dir_md5s indexed_dir_exists =
      let known = set_meet dir_md5s indexed_dir_exists in
      known ++ storage.list_hashes_exists (set_minus dir_md5s known)

  -- `_indexed_dir_hashes`
  unfoldable pub indexed_dir_hashes : Scheme → Table → List String → List String × Table
  unfolding validate_index existing_dirs index_dirs
  indexed_dir_hashes items rows dir_md5s =
      let (indexed_dir_exists, rows') = validate_index rows in
      index_dirs items rows' (existing_dirs dir_md5s indexed_dir_exists)

  -- The part of `_status` that asks the remote: `remote_exists` and the index.
  unfoldable pub collect_remote : Scheme → Table → List String × Table
  unfolding indexed_dir_hashes remote_hashes_exist
  collect_remote items rows =
      let dir_md5s = dir_keys items in
      let (found, rows') =
        if is_empty dir_md5s then ([], rows) else indexed_dir_hashes items rows dir_md5s in
      let md5s = set_minus (scheme_keys items) found in
      (if is_empty md5s then found else found ++ remote_hashes_exist rows' md5s, rows')

-- The names under which a file is shown, for each checksum, and the files of each directory.
pub record Contents : Type 0 where
  pub dir_names : Dict String String
  pub file_names : Dict String String
  pub dir_contents : Dict String (List String)

-- `" ".join(names)`
abbrev pub join_names : List String → String
join_names [] = ""
join_names (n ∷ []) = n
join_names (n ∷ m ∷ ns) = n <> " " <> join_names (m ∷ ns)

abbrev pub make_name : Bool → String → List String → String
make_name true hash ns = hash
make_name false hash ns = join_names ns

module _ (show_checksums : Bool) where
  unfoldable pub add_child : Contents → String → String → Item → Contents
  add_child c dir h i = record c {
    file_names = put c.file_names h (make_name show_checksums h (names i));
    dir_contents = put c.dir_contents dir (set_update (get_or c.dir_contents dir []) (h ∷ []));
  }

  unfoldable pub add_children : Contents → String → Children → Contents
  unfolding add_child
  add_children c dir nil = c
  add_children c dir (child h i cs) = add_children (add_child c dir h i) dir cs

  unfoldable pub add_item : Contents → String → Item → Contents
  unfolding add_children
  add_item c hash (item ns nil) = record c {
    file_names = put c.file_names hash (make_name show_checksums hash ns);
  }
  add_item c hash (item ns (child h i cs)) =
      add_children
        (record c {
          dir_names = put c.dir_names hash (make_name show_checksums hash ns);
          dir_contents = put c.dir_contents hash [];
        })
        hash (child h i cs)

  -- The loop of `_make_status`
  unfoldable pub add_items : Contents → Scheme → Contents
  unfolding add_item
  add_items c [] = c
  add_items c ((hash, i) ∷ items) = add_items (add_item c hash i) items

-- `_fill_statuses`
unfoldable pub fill_statuses :
    Dict String String → List String → List String → Dict String (String × Status)
unfolding status_map
fill_statuses [] local remote = []
fill_statuses ((h, name) ∷ d) local remote =
    (h, (name, status_map (contains local h) (contains remote h))) ∷ fill_statuses d local remote

abbrev pub no_contents : Contents
no_contents = record { dir_names = []; file_names = []; dir_contents = [] }

pub record StatusInfo : Type 0 where
  pub dir_status : Dict String (String × Status)
  pub file_status : Dict String (String × Status)
  pub dir_contents : Dict String (List String)

unfoldable pub make_status : Bool → Scheme → List String → List String → StatusInfo
unfolding add_items fill_statuses
make_status show_checksums items local remote =
    let c = add_items show_checksums no_contents items in
    record {
      dir_status = fill_statuses c.dir_names local remote;
      file_status = fill_statuses c.file_names local remote;
      dir_contents = c.dir_contents;
    }

-- `_status`, and the index that it leaves
unfoldable pub status : Storage → Bool → Bool → Scheme → Table → StatusInfo × Table
unfolding collect_remote make_status
status storage show_checksums download items rows =
    let md5s = scheme_keys items in
    let local = storage.local_exists md5s in
    let (remote, rows') =
      if download && set_eq local md5s then (local, rows) else collect_remote storage items rows in
    (make_status show_checksums items local remote, rows')
