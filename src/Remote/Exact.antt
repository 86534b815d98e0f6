-- ===== src/Remote/Exact.antt =====
-- `_status` of dvc/remote/base.py: what it takes to exist on the remote does exist there.
use python_dvc.Base.{
  String, ◌≡◌, refl, Bool, true, false, ◌&&◌, not, List, [], ◌∷◌, ==_iff, string_eq, contains,
  is_empty, if◌then◌else◌, arith, Bool-cases, inl, inr,
}
use python_dvc.Base.Dict.{get, has}
use python_dvc.Cache.Named.{Scheme, scheme_keys, dir_keys, child_keys, item_child_keys}
use python_dvc.Cache.Keys.{contains-append, scheme_keys-get_or}
use python_dvc.Remote.Index.{Table, no_rows, update, dir_hashes, intersection}
use python_dvc.Remote.IndexLaws.{has-update, contains-intersection}
use python_dvc.Remote.Status.{
  Storage, set_minus, set_meet, remote_hashes_exist, index_dirs, validate_index, existing_dirs,
  indexed_dir_hashes, collect_remote,
}

pub contains-set_minus :
    (xs ys : List String) (h : String)
    → contains (set_minus xs ys) h ≡ contains xs h && not (contains ys h)
unfolding set_minus
contains-set_minus [] ys h = refl
contains-set_minus (x ∷ xs) ys h = ground (arith, contains-set_minus xs ys h, ==_iff h x)

pub contains-set_meet :
    (xs ys : List String) (h : String)
    → contains (set_meet xs ys) h ≡ contains xs h && contains ys h
unfolding set_meet
contains-set_meet [] ys h = refl
contains-set_meet (x ∷ xs) ys h = ground (arith, contains-set_meet xs ys h, ==_iff h x)

contains_of_empty : (xs : List String) (h : String) → is_empty xs ≡ true → contains xs h ≡ false
contains_of_empty [] h e = refl
contains_of_empty (x ∷ xs) h e = cc

child_keys-scheme_keys :
    (items : Scheme) (d h : String)
    → contains (child_keys items d) h ≡ true
    → contains (scheme_keys items) h ≡ true
unfolding child_keys
child_keys-scheme_keys items d h m = scheme_keys-get_or items d h m

module _ (storage : Storage) (stored : String → Bool) where
  -- The remote answers truly for the checksums that it is asked.
  pub record IsTruthful : Type 0 where
    pub hashes_exist :
        (hs : List String) (h : String)
        → contains (storage.hashes_exist hs) h ≡ contains hs h && stored h
    pub list_hashes_exists :
        (hs : List String) (h : String)
        → contains (storage.list_hashes_exists hs) h ≡ contains hs h && stored h

  -- What the index lists is stored.
  abbrev pub IsSound : Table → Type 0
  IsSound rows = (h : String) → has rows h ≡ true → stored h ≡ true

  -- A directory on the remote has its files there.
  abbrev pub IsClosed : Scheme → Type 0
  IsClosed items =
      (dir h : String)
      → stored dir ≡ true
      → contains (child_keys items dir) h ≡ true
      → stored h ≡ true

  module _ (truthful : IsTruthful) where
    remote_hashes_exist_lem :
        (rows : Table) (hs : List String) (h : String)
        → IsSound rows
        → contains (remote_hashes_exist storage rows hs) h ≡ contains hs h && stored h
    unfolding remote_hashes_exist
    remote_hashes_exist_lem rows hs h sound =
        let indexed = intersection rows hs in
        let others = set_minus hs indexed in
        elim (Bool-cases (is_empty others)) [
          | inl e ↦ rw e (
              ground (
                arith,
                contains_of_empty others h e,
                contains-set_minus hs indexed h,
                contains-intersection rows hs h,
                sound h,
              ))
          | inr e ↦ rw e (
              ground (
                arith,
                contains-append indexed (storage.hashes_exist others) h,
                contains-set_minus hs indexed h,
                contains-intersection rows hs h,
                sound h,
                truthful.hashes_exist others h,
              ))
        ]

    existing_dirs_lem :
        (dirs exist : List String) (h : String)
        → (contains exist h ≡ true → stored h ≡ true)
        → contains (existing_dirs storage dirs exist) h ≡ contains dirs h && stored h
    unfolding existing_dirs
    existing_dirs_lem dirs exist h sound =
        let known = set_meet dirs exist in
        ground (
          arith,
          contains-append known (storage.list_hashes_exists (set_minus dirs known)) h,
          contains-set_meet dirs exist h,
          contains-set_minus dirs known h,
          truthful.list_hashes_exists (set_minus dirs known) h,
          sound,
        )

    -- If every indexed directory is stored, then so is all that the index lists.
    abbrev pub IsValidIndex : Table → Type 0
    IsValidIndex rows =
        ((d : String) → contains (dir_hashes rows) d ≡ true → stored d ≡ true) → IsSound rows

    validate_index-exist :
        (rows : Table) (h : String)
        → contains (validate_index storage rows).0 h ≡ true
        → stored h ≡ true
    unfolding validate_index
    validate_index-exist rows h m = ground (arith, truthful.list_hashes_exists (dir_hashes rows) h)

    validate_index-IsSound :
        (rows : Table) → IsValidIndex rows → IsSound (validate_index storage rows).1
    unfolding validate_index
    validate_index-IsSound rows valid h m =
        let indexed = dir_hashes rows in
        let exist = (validate_index storage rows).0 in
        elim (Bool-cases (is_empty (set_minus indexed exist))) [
          | inl e ↦
              let listed : has rows h ≡ true = rw e at m in
              valid
                (λ d md. validate_index-exist rows d (
                  ground (
                    arith,
                    contains-set_minus indexed exist d,
                    contains_of_empty (set_minus indexed exist) d e,
                  )))
                h listed
          | inr e ↦ let listed : has no_rows h ≡ true = rw e at m in unfold get in cc
        ]

    index_dirs-IsSound :
        (items : Scheme) (rows : Table) (dirs : List String)
        → IsClosed items
        → IsSound rows
        → ((d : String) → contains dirs d ≡ true → stored d ≡ true)
        → IsSound (index_dirs storage items rows dirs).1
    unfolding index_dirs
    index_dirs-IsSound items rows [] closed sound all = sound
    index_dirs-IsSound items rows (d ∷ dirs) closed sound all =
        index_dirs-IsSound items
          (if has rows d then rows else update rows (d ∷ []) (child_keys items d)) dirs closed
          (λ h m. ground (
            arith,
            sound h,
            all d,
            ==_iff h d,
            closed d h,
            has-update rows (d ∷ []) (child_keys items d) h,
            ==_iff d d,
          ))
          (λ g m. all g (ground arith))

    -- The yielded checksums are the directories and their files.
    index_dirs_sound :
        (items : Scheme) (rows : Table) (dirs : List String) (h : String)
        → IsClosed items
        → ((d : String)
            → contains dirs d ≡ true
            → (stored d ≡ true) × (contains (scheme_keys items) d ≡ true))
        → contains (index_dirs storage items rows dirs).0 h ≡ true
        → (stored h ≡ true) × (contains (scheme_keys items) h ≡ true)
    unfolding index_dirs
    index_dirs_sound items rows [] h closed all m = cc
    index_dirs_sound items rows (d ∷ dirs) h closed all m =
        let files = child_keys items d in
        let rows' = if has rows d then rows else update rows (d ∷ []) files in
        let rest = (index_dirs storage items rows' dirs).0 in
        ground (
          arith,
          contains-append files rest h,
          ==_iff h d,
          ==_iff d d,
          all d,
          all h,
          closed d h,
          child_keys-scheme_keys items d h,
          index_dirs_sound items rows' dirs h closed (λ g n. all g (ground arith)),
        )

    dir_keys-scheme_keys :
        (items : Scheme) (d : String)
        → contains (dir_keys items) d ≡ true
        → contains (scheme_keys items) d ≡ true
    unfolding dir_keys scheme_keys
    dir_keys-scheme_keys [] d m = cc
    dir_keys-scheme_keys ((g, i) ∷ items) d m = ground (
      arith,
      dir_keys-scheme_keys items d,
      contains-append (item_child_keys i) (scheme_keys items) d,
    )

    -- For a cache with at least one directory, a remote that answers truly and stores with each directory of
    -- the cache its files, and an index whose rows are all stored as long as its directories are: the
    -- checksums taken to exist on the remote are exactly those of the cache that are stored there.
    pub collect_remote_exact :
        (items : Scheme) (rows : Table) (h : String)
        → IsClosed items
        → IsValidIndex rows
        → is_empty (dir_keys items) ≡ false
        → contains (collect_remote storage items rows).0 h
          ≡ contains (scheme_keys items) h && stored h
    unfolding collect_remote indexed_dir_hashes
    collect_remote_exact items rows h closed valid some_dir =
        let (exist, rows') = validate_index storage rows in
        let dirs = existing_dirs storage (dir_keys items) exist in
        let (found, last) = index_dirs storage items rows' dirs in
        let md5s = set_minus (scheme_keys items) found in
        let dirs_stored : (d : String)
            → contains dirs d ≡ true
            → (stored d ≡ true) × (contains (scheme_keys items) d ≡ true) =
          λ d m. ground (
            arith,
            existing_dirs_lem (dir_keys items) exist d (validate_index-exist rows d),
            dir_keys-scheme_keys items d,
          ) in
        let sound : IsSound last =
          index_dirs-IsSound items rows' dirs closed (validate_index-IsSound rows valid)
            (λ d m. (dirs_stored d m).0) in
        rw some_dir (
          ground (
            arith,
            index_dirs_sound items rows' dirs h closed dirs_stored,
            contains-append found (remote_hashes_exist storage last md5s) h,
            contains-set_minus (scheme_keys items) found h,
            remote_hashes_exist_lem last md5s h sound,
            contains_of_empty md5s h,
          ))
