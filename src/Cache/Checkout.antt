-- ===== src/Cache/Checkout.antt =====
-- dvc/cache/base.py: whether the files of a cache and of the workspace have changed, and `checkout`. A path is
-- its parts, a checksum its value, empty where there is none; all checksums are of one kind. The state
-- database only remembers checksums, and is left out.
pub mod Run
pub mod Step
pub mod Acts
pub mod Files
pub mod Links
pub mod Frame
pub mod Delivery
pub mod Exact
pub mod Entries
pub mod Removal
pub mod Directory
pub mod Returns
mod Tests
use Prim.Native.Char.{code}
use Prim.Native.String.{[], ◌∷◌}
use python_dvc.Base.{
  String, Bool, true, false, not, ◌&&◌, ◌||◌, Option, none, some, List, [], ◌∷◌, ◌++◌, ◌<>◌, any,
  contains, is_empty, is_some, ◌==◌, string_eq, nat_eq, parts_eq, if◌then◌else◌,
}
use python_dvc.Base.Dict.{Dict, get, put, remove, has, keys}
use python_dvc.Base.Result.{Result, ok, err}
use python_dvc.Repo.Graph.{Parts, is_prefix}
use python_dvc.Cache.Listing.{is_dir_hash}

-- The items of a `DirInfo`: the path of each file below the directory, and its checksum
abbrev pub DirInfo : Type 0
DirInfo = Dict Parts String

-- The link types that give the workspace a content of its own, which stays when the cache loses its file. The
-- type symlink is left out.
pub data LinkType : Type 0 where
  copy reflink hardlink : LinkType

abbrev pub is_hardlink : LinkType → Bool
is_hardlink copy = false
is_hardlink reflink = false
is_hardlink hardlink = true

-- The files with their contents, the directories that were made, the files of the cache by their checksum,
-- those that are read-only, and the fields of `CloudCache`.
pub record World : Type 0 where
  pub files : Dict Parts String
  pub dirs : List Parts
  pub cache : Dict String String
  pub read_only : List String
  pub cache_types : List LinkType
  pub cache_type_confirmed : Bool
  pub dir_infos : Dict String DirInfo

-- What is not in this repository: the checksum of a content, the listing of a directory and its reading, the
-- links that the file system has and that are verified, and the answer of the user.
pub record Machine : Type 0 where
  pub hash_of : String → String
  pub listing_of : Dict Parts String → String
  pub read_listing : String → Option DirInfo
  pub can_link : LinkType → Bool
  pub is_link : LinkType → Bool
  pub confirm : Parts → Bool

pub data CheckoutFailure : Type 0 where
  confirm_remove : Parts → CheckoutFailure
  cache_link : Parts → CheckoutFailure
  checkout_failed : Parts → CheckoutFailure
  assertion : CheckoutFailure
  not_a_directory : Parts → CheckoutFailure

abbrev pub Act : Type 0 → Type 0
Act A = World → Result CheckoutFailure A × World

abbrev pub bind :
    {A B : Type 0}
    → Result CheckoutFailure A × World
    → (A → Act B)
    → Result CheckoutFailure B × World
bind (err e, w) k = (err e, w)
bind (ok a, w) k = k a w

-- A path exists that is a file or a directory, or has one of them below it.
abbrev pub exists : World → Parts → Bool
exists w p = any (is_prefix p) (keys w.files) || any (is_prefix p) w.dirs

-- `tree.walk_files`: of a file, none.
abbrev pub files_below : Parts → Dict Parts String → Dict Parts String
files_below p [] = []
files_below p ((f, c) ∷ files) =
    let rest = files_below p files in if is_prefix p f && not (f == p) then (f, c) ∷ rest else rest

unfoldable pub files_besides : Parts → Dict Parts String → Dict Parts String
files_besides p [] = []
files_besides p ((f, c) ∷ files) =
    let rest = files_besides p files in if is_prefix p f then rest else (f, c) ∷ rest

unfoldable pub dirs_besides : Parts → List Parts → List Parts
dirs_besides p [] = []
dirs_besides p (d ∷ dirs) =
    let rest = dirs_besides p dirs in if is_prefix p d then rest else d ∷ rest

-- `tree.remove`: a file, or a directory with all below it
abbrev pub tree_remove : Parts → World → World
tree_remove p w = record w { files = files_besides p w.files; dirs = dirs_besides p w.dirs }

-- `hash.split(".")[0]`
unfoldable pub before_dot : String → String
before_dot [] = []
before_dot (c ∷ s) = let rest = before_dot s in if code c == b'.' then [] else c ∷ rest

-- `tree.is_protected` of the file of a checksum
abbrev pub is_protected : String → World → Bool
is_protected hash w = contains w.read_only hash && has w.cache hash

-- Whether an entry is left out: `filter_info` and not `isin_or_eq`
abbrev pub is_filtered : Option Parts → Parts → Bool
is_filtered none entry = false
is_filtered (some filter_info) entry = not (is_prefix filter_info entry)

module _ (machine : Machine) where
  abbrev pub same_hash : String → String → Bool
  same_hash content hash = before_dot (machine.hash_of content) == before_dot hash

  unfoldable pub changed_cache_file : String → World → Bool × World
  unfolding before_dot
  changed_cache_file hash w = if is_protected hash w then (false, w) else elim (get w.cache hash) [
    | none ↦ (true, w)
    | some content ↦
        if hash == "" || machine.hash_of content == ""
        then (true, w)
        else if same_hash content hash
        then (false, record w { read_only = hash ∷ w.read_only })
        else (true, record w { cache = remove w.cache hash })
  ]

  -- `save_dir_info` without a known checksum: the listing is a file of the cache, and read-only there.
  unfoldable pub save_dir_info : String → World → String × World
  unfolding changed_cache_file
  save_dir_info listing w =
      let hash = machine.hash_of listing <> ".dir" in
      let (bad, w') = changed_cache_file hash w in
      if bad
      then (hash, record w' { cache = put w'.cache hash listing; read_only = hash ∷ w'.read_only })
      else (hash, w')

  -- `tree.get_hash`: of a directory, it saves the listing.
  unfoldable pub get_hash : Parts → World → String × World
  unfolding save_dir_info
  get_hash p w = elim (get w.files p) [
    | some content ↦ (machine.hash_of content, w)
    | none ↦
        if exists w p then save_dir_info (machine.listing_of (files_below p w.files)) w else ("", w)
  ]

  -- `load_dir_cache`, with the `DirInfo()` of `get_dir_cache` where it fails
  abbrev pub load_dir_cache : World → String → DirInfo
  load_dir_cache w hash = elim (get w.cache hash) [
    | none ↦ []
    | some content ↦ elim (machine.read_listing content) [ none ↦ [] | some listing ↦ listing ]
  ]

  unfoldable pub get_dir_cache : String → World → DirInfo × World
  get_dir_cache hash w = elim (get w.dir_infos hash) [
    | some dir_info ↦ (dir_info, w)
    | none ↦
        let dir_info = load_dir_cache w hash in
        (dir_info, record w { dir_infos = put w.dir_infos hash dir_info })
  ]

  -- The loop of `_changed_dir_cache`
  unfoldable pub any_changed : Parts → Option Parts → DirInfo → World → Bool × World
  unfolding changed_cache_file
  any_changed path filter_info [] w = (false, w)
  any_changed path filter_info ((rel, hash) ∷ entries) w =
      let skipped = any_changed path filter_info entries w in
      let (changed, w') = changed_cache_file hash w in
      let rest = any_changed path filter_info entries w' in
      if is_filtered filter_info (path ++ rel)
      then skipped
      else if changed
      then (true, w')
      else rest

  unfoldable pub changed_dir_cache : String → Parts → Option Parts → World → Bool × World
  unfolding changed_cache_file get_dir_cache any_changed
  changed_dir_cache hash path filter_info w =
      let (changed, w') = changed_cache_file hash w in
      let (dir_info, w'') = get_dir_cache hash w' in
      if changed then (true, w') else any_changed path filter_info dir_info w''

  unfoldable pub changed_cache : String → Parts → Option Parts → World → Bool × World
  unfolding changed_dir_cache
  changed_cache hash path filter_info w =
      if is_dir_hash hash
      then changed_dir_cache hash path filter_info w
      else changed_cache_file hash w

  unfoldable pub changed : Parts → String → World → Bool × World
  unfolding changed_cache get_hash
  changed path hash w =
      let (bad_cache, w') = changed_cache hash path none w in
      let (actual, w'') = get_hash path w' in
      if not (exists w path) || hash == ""
      then (true, w)
      else if bad_cache
      then (true, w')
      else (not (hash == actual), w'')

  unfoldable pub already_cached : Parts → World → Bool × World
  unfolding changed_cache get_hash
  already_cached path w =
      let (current, w') = get_hash path w in
      let (bad_cache, w'') = changed_cache current path none w' in
      if current == "" then (false, w') else (not bad_cache, w'')

  unfoldable pub safe_remove : Parts → Bool → Act (Unit {0})
  unfolding already_cached
  safe_remove path force w =
      let (cached, w') = already_cached path w in
      if not (exists w path)
      then (ok tt, w)
      else if force
      then (ok tt, tree_remove path w)
      else if not cached && not (machine.confirm path)
      then (err (confirm_remove path), w')
      else (ok tt, tree_remove path w')
