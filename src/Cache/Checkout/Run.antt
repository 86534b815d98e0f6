-- ===== src/Cache/Checkout/Run.antt =====
-- dvc/cache/base.py: the links of a cache and `checkout`.
use python_dvc.Base.{
  String, Bool, true, false, not, ◌&&◌, ◌||◌, Option, none, some, List, [], ◌∷◌, ◌++◌, any,
  contains, is_empty, ◌==◌, string_eq, parts_eq, if◌then◌else◌,
}
use python_dvc.Base.Dict.{get, put, keys}
use python_dvc.Base.Result.{ok, err}
use python_dvc.Repo.Graph.{Parts, is_prefix}
use python_dvc.Cache.Listing.{is_dir_hash}
use python_dvc.Cache.Checkout.{
  DirInfo, LinkType, is_hardlink, World, Machine, cache_link, checkout_failed, assertion,
  not_a_directory, Act, bind, exists, files_below, tree_remove, changed_cache, changed, is_filtered,
  get_dir_cache, safe_remove,
}

-- `path_info.parent`
abbrev pub path_parent : Parts → Parts
path_parent [] = []
path_parent (part ∷ []) = []
path_parent (part ∷ next ∷ parts) = part ∷ path_parent (next ∷ parts)

abbrev pub has_file_above : Parts → World → Bool
has_file_above p w = any (λ f. is_prefix f (path_parent p)) (keys w.files)

-- `existing_files - needed_files`
abbrev pub redundant : List Parts → List Parts → List Parts
redundant needed [] = []
redundant needed (f ∷ files) =
    let rest = redundant needed files in if contains needed f then rest else f ∷ rest

abbrev pub needed_files : Parts → DirInfo → List Parts
needed_files path [] = []
needed_files path ((rel, hash) ∷ entries) = (path ++ rel) ∷ needed_files path entries

module _ (machine : Machine) where
  -- `_try_links`, over the link types that are left: `del link_types[0]` takes them from the cache too. A
  -- content is written and verified, or the next type is tried. The local cache does not verify an empty
  -- hardlink.
  unfoldable pub try_links : List LinkType → String → Parts → Act (Unit {0})
  try_links [] content to w = (err (cache_link to), record w { cache_types = [] })
  try_links (type ∷ types) content to w =
      let written = record w { cache_types = type ∷ types; files = put w.files to content } in
      let next = try_links types content to w in
      let retried = try_links types content to (tree_remove to written) in
      if exists w to || not (machine.can_link type)
      then next
      else if is_hardlink type && content == ""
      then (ok tt, written)
      else if w.cache_type_confirmed || machine.is_link type
      then (ok tt, record written { cache_type_confirmed = true })
      else retried

  -- `link` of the file of a checksum, and `_link`: `tree.makedirs` raises where a file is in its way.
  unfoldable pub link : String → Parts → Act (Unit {0})
  link hash to w = elim (get w.cache hash) [
    | none ↦ (err assertion, w)
    | some content ↦
        let made = record w { dirs = path_parent to ∷ w.dirs } in
        if has_file_above to w
        then (err (not_a_directory (path_parent to)), w)
        else try_links w.cache_types content to made
  ]

  unfoldable pub checkout_file : Parts → String → Bool → Bool → Act (Bool × Bool)
  checkout_file path hash force relink w =
      if exists w path
      then bind (safe_remove machine path force w)
          (λ u w'. bind (link hash path w') (λ v w''. (ok (false, not relink), w'')))
      else bind (link hash path w) (λ v w'. (ok (true, false), w'))

  -- One round of the loop of `_checkout_dir`: an entry that has changed is linked anew.
  unfoldable pub checkout_entry : Parts → String → Bool → Bool → Act Bool
  checkout_entry entry hash force relink w =
      let (differs, w') = changed machine entry hash w in
      let relinked = λ (v : World).
        bind (safe_remove machine entry force v)
          (λ u v'. bind (link hash entry v') (λ t v''. (ok true, v''))) in
      if relink then relinked w else if differs then relinked w' else (ok false, w')

  unfoldable pub checkout_entries : Parts → Bool → Bool → Option Parts → DirInfo → Act Bool
  checkout_entries path force relink filter_info [] w = (ok false, w)
  checkout_entries path force relink filter_info ((rel, hash) ∷ entries) w =
      let skipped = checkout_entries path force relink filter_info entries w in
      let done = bind (checkout_entry (path ++ rel) hash force relink w) (λ m w'.
        bind (checkout_entries path force relink filter_info entries w')
          (λ n w''. (ok (m || n), w''))) in
      if is_filtered filter_info (path ++ rel) then skipped else done

  unfoldable pub remove_all : List Parts → Bool → Act (Unit {0})
  remove_all [] force w = (ok tt, w)
  remove_all (f ∷ files) force w =
      bind (safe_remove machine f force w) (λ u w'. remove_all files force w')

  unfoldable pub remove_redundant_files : Parts → DirInfo → Bool → Act Bool
  remove_redundant_files path dir_info force w =
      let files = redundant (needed_files path dir_info) (keys (files_below path w.files)) in
      bind (remove_all files force w) (λ u w'. (ok (not (is_empty files)), w'))

  -- `_checkout_dir`: `tree.makedirs` raises where a file is in its way.
  unfoldable pub checkout_dir : Parts → String → Bool → Bool → Option Parts → Act (Bool × Bool)
  checkout_dir path hash force relink filter_info w =
      let added = not (exists w path) in
      let (dir_info, w') =
        get_dir_cache machine hash (if added then record w { dirs = path ∷ w.dirs } else w) in
      let done = bind (checkout_entries path force relink filter_info dir_info w') (λ m w''.
        bind (remove_redundant_files path dir_info force w'')
          (λ r w3. (ok (added, not added && (r || m) && not relink), w3))) in
      if added && has_file_above path w then (err (not_a_directory path), w) else done

  -- `_checkout`
  unfoldable pub checkout_changed : Parts → String → Bool → Bool → Option Parts → Act (Bool × Bool)
  checkout_changed path hash force relink filter_info =
      if is_dir_hash hash
      then checkout_dir path hash force relink filter_info
      else checkout_file path hash force relink

  abbrev pub fail_checkout : Parts → Bool → Act (Option (Bool × Bool))
  fail_checkout path force w =
      bind (safe_remove machine path force w) (λ u w'. (err (checkout_failed path), w'))

  -- `checkout`: the flags, or None where nothing has changed
  unfoldable pub checkout : Parts → String → Bool → Bool → Option Parts → Act (Option (Bool × Bool))
  checkout path hash force relink filter_info w =
      let (differs, w1) = changed machine path hash w in
      let before = if relink then w else w1 in
      let (missing, w2) = changed_cache machine hash path filter_info before in
      if hash == ""
      then fail_checkout path force w
      else if not relink && not differs
      then (ok none, w1)
      else if missing
      then fail_checkout path force w2
      else bind (checkout_changed path hash force relink filter_info w2)
          (λ flags w3. (ok (some flags), w3))
