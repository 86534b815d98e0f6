-- ===== src/Cache/Checkout/Returns.antt =====
-- dvc/cache/base.py: a forced `checkout` of a file that the cache has returns.
use python_dvc.Base.{
  or_left, String, ◌<>◌, ◌≡◌, refl, ap, ◌∙◌, Bool, true, false, not, ◌&&◌, ◌||◌, Option, none, some,
  List, [], ◌∷◌, any, inl, inr, ◌==◌, ==_iff, string_eq, parts_eq, if◌then◌else◌, Bool-cases,
  Option-cases, arith,
}
use python_dvc.Base.Dict.{Dict, get, put, keys, get-put, get-remove}
use python_dvc.Base.Result.{ok}
use python_dvc.Repo.Graph.{Parts, is_prefix}
use python_dvc.Cache.Listing.{is_dir_hash}
use python_dvc.Cache.Checkout.{
  LinkType, is_hardlink, World, Machine, exists, files_below, files_besides, dirs_besides,
  tree_remove, is_protected, same_hash, changed_cache_file, save_dir_info, get_hash, changed_cache,
  changed, safe_remove,
}
use python_dvc.Cache.Checkout.Run.{
  path_parent, has_file_above, try_links, link, checkout_file, checkout,
}
use python_dvc.Cache.Checkout.Step.{
  Intact, changed_cache_file-cases, is_dir_hash-<>, is_dir_hash-apart,
}
use python_dvc.Cache.Checkout.Files.{any-files_besides}
use python_dvc.Cache.Checkout.Delivery.{link-free}
use python_dvc.Cache.Checkout.Exact.{checkout_file_exact, changed_cache-file, checkout_changed-file}

below_parent :
    (part : String) (parts : Parts) → is_prefix (part ∷ parts) (path_parent (part ∷ parts)) ≡ false
below_parent part [] = refl
below_parent part (next ∷ parts) = rw ((==_iff part part).1 refl, below_parent next parts) refl

none_below :
    (p : Parts) (files : Dict Parts String)
    → any (is_prefix p) (keys (files_besides p files)) ≡ false
unfolding files_besides
none_below p [] = refl
none_below p ((f, c) ∷ files) = elim (Bool-cases (is_prefix p f)) [
  | inl below ↦ rw (below) (none_below p files)
  | inr beside ↦ rw (beside, beside) (none_below p files)
]

no_dir_below : (p : Parts) (dirs : List Parts) → any (is_prefix p) (dirs_besides p dirs) ≡ false
unfolding dirs_besides
no_dir_below p [] = refl
no_dir_below p (d ∷ dirs) = elim (Bool-cases (is_prefix p d)) [
  | inl below ↦ rw (below) (no_dir_below p dirs)
  | inr beside ↦ rw (beside, beside) (no_dir_below p dirs)
]

or_both : (a : Bool) → (a || true) ≡ true
or_both a = ground arith

-- The first link type is taken where it works.
first_link :
    (machine : Machine) (type : LinkType) (types : List LinkType) (content : String) (to : Parts)
    (w : World)
    → exists w to ≡ false
    → machine.can_link type ≡ true
    → machine.is_link type ≡ true
    → (v : World) × (try_links machine (type ∷ types) content to w ≡ (ok tt, v))
unfolding try_links
first_link machine type types content to w nothing can holds =
    let written = record w { cache_types = type ∷ types; files = put w.files to content } in
    elim (Bool-cases (is_hardlink type && content == "")) [
      | inl empty ↦ (written, rw (nothing, can, empty) refl)
      | inr filled ↦ (
        record written { cache_type_confirmed = true },
        rw (nothing, can, filled, holds, or_both w.cache_type_confirmed) refl,
      )
    ]

module _ (machine : Machine) (hash content : String) where
  -- The cache has the file of the checksum, and its first link type works.
  record Ready (w : World) : Type 0 where
    found : get w.cache hash ≡ some content
    linkable :
        (type : LinkType) × (types : List LinkType) × (w.cache_types ≡ type ∷ types)
        × (machine.can_link type ≡ true)
        × (machine.is_link type ≡ true)

  -- Only the cache differs.
  record Calm (w v : World) : Type 0 where
    same_files : v.files ≡ w.files
    same_dirs : v.dirs ≡ w.dirs
    ready : Ready w → Ready v

  Calm-refl : (w : World) → Calm w w
  Calm-refl w = record { same_files = refl; same_dirs = refl; ready = λ r. r }

  Calm-trans : (u v w : World) → Calm u v → Calm v w → Calm u w
  Calm-trans u v w first second = record {
    same_files = second.same_files ∙ first.same_files;
    same_dirs = second.same_dirs ∙ first.same_dirs;
    ready = λ r. second.ready (first.ready r);
  }

  module _ (file : is_dir_hash hash ≡ false) where
    listing-Calm :
        (other : String) (w : World)
        → is_dir_hash other ≡ true
        → Calm w (changed_cache_file machine other w).1
    listing-Calm other w dir = elim (changed_cache_file-cases machine other w) [
      | inl (e, ro) ↦ rw (e) (Calm-refl w)
      | inr (inl e) ↦ rw (e) (Calm-refl w)
      | inr (inr (inl (c, there, same, e))) ↦ rw (e) (record {
        same_files = refl;
        same_dirs = refl;
        ready = λ r. record { found = r.found; linkable = r.linkable };
      })
      | inr (inr (inr e)) ↦ rw (e) (record {
        same_files = refl;
        same_dirs = refl;
        ready = λ r. record {
          found =
              get-remove w.cache other hash ∙ rw (is_dir_hash-apart hash other file dir) r.found;
          linkable = r.linkable;
        };
      })
    ]

    save_dir_info-Calm : (listing : String) (w : World) → Calm w (save_dir_info machine listing w).1
    unfolding save_dir_info
    save_dir_info-Calm listing w =
        let other = machine.hash_of listing <> ".dir" in
        let dir = is_dir_hash-<> (machine.hash_of listing) in
        let v = (changed_cache_file machine other w).1 in
        let first = listing-Calm other w dir in
        elim (Bool-cases (changed_cache_file machine other w).0) [
          | inr good ↦ rw (good) first
          | inl bad ↦ rw (bad) (
              Calm-trans w v _ first (record {
                same_files = refl;
                same_dirs = refl;
                ready = λ r. record {
                  found =
                      get-put v.cache other hash listing
                      ∙ rw (is_dir_hash-apart hash other file dir) r.found;
                  linkable = r.linkable;
                };
              }))
        ]

    get_hash-Calm : (p : Parts) (w : World) → Calm w (get_hash machine p w).1
    unfolding get_hash
    get_hash-Calm p w = elim (Option-cases (get w.files p)) [
      | inr (c, there) ↦ rw (get_hash, there) (Calm-refl w)
      | inl missing ↦ elim (Bool-cases (exists w p)) [
        | inl there ↦
            rw (get_hash, missing, there)
              (save_dir_info-Calm (machine.listing_of (files_below p w.files)) w)
        | inr gone ↦ rw (get_hash, missing, gone) (Calm-refl w)
      ]
    ]

    module _ (same : same_hash machine content hash ≡ true)
        (hashed : (hash == "" || machine.hash_of content == "") ≡ false) where
      confirmed :
          (w : World)
          → Ready w
          → ((changed_cache_file machine hash w).0 ≡ false)
            × Calm w (changed_cache_file machine hash w).1
      unfolding changed_cache_file
      confirmed w ready = elim (Bool-cases (is_protected hash w)) [
        | inl kept ↦ (rw (kept) refl, rw (kept) (Calm-refl w))
        | inr writable ↦ (
          rw (changed_cache_file, writable, ready.found, hashed, same) refl,
          rw (changed_cache_file, writable, ready.found, hashed, same)
              (record {
                same_files = refl;
                same_dirs = refl;
                ready = λ r. record { found = r.found; linkable = r.linkable };
              }),
        )
      ]

      cache_kept :
          (p : Parts) (filter : Option Parts) (w : World)
          → Ready w
          → ((changed_cache machine hash p filter w).0 ≡ false)
            × Calm w (changed_cache machine hash p filter w).1
      cache_kept p filter w ready =
          rw (changed_cache-file machine p hash filter w file) (confirmed w ready)

      changed-Calm : (p : Parts) (w : World) → Ready w → Calm w (changed machine p hash w).1
      unfolding changed
      changed-Calm p w ready =
          let v = (changed_cache machine hash p none w).1 in
          let (good, first) = cache_kept p none w ready in
          elim (Bool-cases (not (exists w p) || hash == "")) [
            | inl early ↦ rw (early) (Calm-refl w)
            | inr late ↦ rw (late, good) (Calm-trans w v _ first (get_hash-Calm p v))
          ]

      -- A link to where nothing is succeeds with the first type.
      link_returns :
          (to : Parts) (w : World)
          → Ready w
          → has_file_above to w ≡ false
          → exists (record w { dirs = path_parent to ∷ w.dirs }) to ≡ false
          → (v : World) × (link machine hash to w ≡ (ok tt, v))
      link_returns to w ready free nothing =
          let (type, types, is, can, holds) = ready.linkable in
          let made = record w { dirs = path_parent to ∷ w.dirs } in
          let (v, done) = first_link machine type types content to made nothing can holds in
          (
            v,
            link-free machine hash content to w ready.found free
                ∙ (ap (λ ts. try_links machine ts content to made) is ∙ done),
          )

      checkout_file_returns :
          (part : String) (parts : Parts) (relink : Bool) (w : World)
          → Ready w
          → has_file_above (part ∷ parts) w ≡ false
          → (flags : Bool × Bool) × (v : World) × (checkout_file machine
                (part ∷ parts)
                hash
                true
                relink
                w
              ≡ (ok flags, v))
      unfolding checkout_file safe_remove
      checkout_file_returns part parts relink w ready free =
          let p = part ∷ parts in
          elim (Bool-cases (exists w p)) [
            | inl there ↦
                let cleared = tree_remove p w in
                let (v, linked) =
                  link_returns p cleared (record { found = ready.found; linkable = ready.linkable })
                    (any-files_besides _ p w.files free)
                    (rw (none_below p w.files, below_parent part parts, no_dir_below p w.dirs)
                      refl) in
                ((false, not relink), v, rw (there, linked) refl)
            | inr gone ↦
                let (v, linked) = link_returns p w ready free (rw (below_parent part parts) gone) in
                ((true, false), v, rw (gone, linked) refl)
          ]

      started :
          (p : Parts) (relink : Bool) (w : World)
          → Ready w
          → Calm w (if relink then w else (changed machine p hash w).1)
      started p true w ready = Calm-refl w
      started p false w ready = changed-Calm p w ready

      -- `checkout` of a checksum that is kept, from a world that is ready
      Ready-returns :
          (part : String) (parts : Parts) (relink : Bool) (filter : Option Parts) (w : World)
          → Ready w
          → has_file_above (part ∷ parts) w ≡ false
          → (r : Option (Bool × Bool)) × (v : World) × (checkout machine
                (part ∷ parts)
                hash
                true
                relink
                filter
                w
              ≡ (ok r, v))
      unfolding checkout
      Ready-returns part parts relink filter w ready free =
          let p = part ∷ parts in
          let w1 = (changed machine p hash w).1 in
          let before = if relink then w else w1 in
          let w2 = (changed_cache machine hash p filter before).1 in
          let start = started p relink w ready in
          let (good, asked) = cache_kept p filter before (start.ready ready) in
          let calm = Calm-trans w before w2 start asked in
          let (flags, v, out) =
            checkout_file_returns part parts relink w2 (calm.ready ready) (
              ap (λ fs. any (λ f. is_prefix f (path_parent p)) (keys fs)) calm.same_files ∙ free) in
          elim (Bool-cases (not relink && not (changed machine p hash w).0)) [
            | inl unchanged ↦ (none, w1, rw (or_left (hash == "") _ hashed, unchanged) refl)
            | inr differs ↦ (
              some flags,
              v,
              rw
                  (
                    or_left (hash == "") _ hashed,
                    differs,
                    good,
                    checkout_changed-file machine p hash true relink filter w2 file,
                    out,
                  )
                  refl,
            )
          ]

  -- A forced checkout of a file, without symlinks, returns and leaves at the path a file with a content of the checksum, where
  -- the cache has a content of the checksum under it, its read-only files, listings aside, have the content of their checksum,
  -- the first link type works, the path is not the root, and no file is above it.
  pub checkout_returns :
      (part : String) (parts : Parts) (relink : Bool) (filter : Option Parts) (w : World)
      (type : LinkType) (types : List LinkType)
      → is_dir_hash hash ≡ false
      → same_hash machine content hash ≡ true
      → (hash == "" || machine.hash_of content == "") ≡ false
      → get w.cache hash ≡ some content
      → w.cache_types ≡ type ∷ types
      → machine.can_link type ≡ true
      → machine.is_link type ≡ true
      → has_file_above (part ∷ parts) w ≡ false
      → Intact machine w
      → (r : Option (Bool × Bool)) × (v : World) × (checkout machine
            (part ∷ parts)
            hash
            true
            relink
            filter
            w
          ≡ (ok r, v))
        × ((there : String) × (get v.files (part ∷ parts) ≡ some there)
            × (same_hash machine there hash ≡ true))
  checkout_returns part parts relink filter w type types file same hashed found is can holds free
        intact =
      let ready : Ready w = record { found = found; linkable = (type, types, is, can, holds) } in
      let (r, v, done) = Ready-returns file same hashed part parts relink filter w ready free in
      (
        r,
        v,
        done,
        checkout_file_exact machine (part ∷ parts) hash true relink filter w v r file intact done,
      )
