-- ===== src/Cache/Checkout/Directory.antt =====
-- dvc/cache/base.py: `checkout` of a directory.
use python_dvc.Base.{
  or_true, String, ◌≡◌, refl, sym, ap, ◌∙◌, Bool, true, false, not, ◌&&◌, ◌||◌, Option, none, some,
  is_some, [], ◌∷◌, ◌++◌, In, contains, is_empty, subst, inl, inr, ◌==◌, ==_iff, string_eq,
  parts_eq, if◌then◌else◌, Bool-cases, Option-cases,
}
use python_dvc.Base.Dict.{has, get, keys, get-put}
use python_dvc.Base.Result.{ok, err}
use python_dvc.Repo.Graph.{Parts, is_prefix}
use python_dvc.Cache.Listing.{is_dir_hash}
use python_dvc.Cache.Checkout.{
  DirInfo, World, Machine, not_a_directory, bind, exists, files_below, changed_cache_file,
  load_dir_cache, get_dir_cache, any_changed, changed_dir_cache, changed_cache,
}
use python_dvc.Cache.Checkout.Run.{
  has_file_above, checkout_entries, redundant, needed_files, remove_all, remove_redundant_files,
  checkout_dir, checkout_changed, checkout,
}
use python_dvc.Cache.Checkout.Step.{Intact, IsTree, Step, Step-trans, changed_cache_file-Step}
use python_dvc.Cache.Checkout.Acts.{any_changed-Step, changed_cache-Step, get_dir_cache-Step}
use python_dvc.Cache.Checkout.Frame.{checkout_entries-Step, checkout_changed-Step}
use python_dvc.Cache.Checkout.Links.{made_if}
use python_dvc.Cache.Checkout.Delivery.{
  bind-eq-ok, Verified, Delivered, Verified-Step, any_changed-Verified,
}
use python_dvc.Cache.Checkout.Exact.{checkout-eq-ok}
use python_dvc.Cache.Checkout.Entries.{
  apart, IsListing, Delivered-keeps, checkout_entries-Delivered,
}
use python_dvc.Cache.Checkout.Removal.{
  contains-redundant, contains-files_below, files_below-has, any-redundant, remove_all-left,
  remove_all-keeps,
}

contains-needed_files :
    (path : Parts) (entries : DirInfo) (rel : Parts) (hash : String)
    → In (rel, hash) entries
    → contains (needed_files path entries) (path ++ rel) ≡ true
contains-needed_files path [] rel hash there = absurd there
contains-needed_files path ((r, h) ∷ entries) rel hash (inl e) =
    rw ((==_iff (path ++ rel) (path ++ r)).1 (ap (λ x. path ++ x.0) e)) refl
contains-needed_files path ((r, h) ∷ entries) rel hash (inr i) =
    rw (contains-needed_files path entries rel hash i) (or_true ((path ++ rel) == (path ++ r)))

some_injective : {A : Type 0} {a b : A} → ◌≡◌ {A = Option A} (some a) (some b) → a ≡ b
some_injective h = cc

module _ (machine : Machine) where
  get_dir_cache-known :
      (hash : String) (entries : DirInfo) (w : World)
      → get w.dir_infos hash ≡ some entries
      → get_dir_cache machine hash w ≡ (entries, w)
  unfolding get_dir_cache
  get_dir_cache-known hash entries w known = rw (get_dir_cache, known) refl

  get_dir_cache-memo :
      (hash : String) (w : World)
      → get (get_dir_cache machine hash w).1.dir_infos hash ≡ some (get_dir_cache machine hash w).0
  unfolding get_dir_cache
  get_dir_cache-memo hash w = elim (Option-cases (get w.dir_infos hash)) [
    | inr (entries, known) ↦ rw (get_dir_cache-known hash entries w known) known
    | inl missing ↦
        let loaded = load_dir_cache machine w hash in
        rw (get_dir_cache, missing)
          (get-put w.dir_infos hash hash loaded ∙ rw ((==_iff hash hash).1 refl) refl)
  ]

  changed_listing :
      (path : Parts) (hash : String) (w : World)
      → is_dir_hash hash ≡ true
      → (changed_cache_file machine hash w).0 ≡ true
      → (changed_cache machine hash path none w).0 ≡ true
  unfolding changed_cache changed_dir_cache
  changed_listing path hash w dir bad = rw (dir, bad) refl

  -- The cache of a directory is unchanged: its listing is read, and is good, and so are its entries.
  changed_cache-dir :
      (path : Parts) (hash : String) (w : World)
      → is_dir_hash hash ≡ true
      → (changed_cache machine hash path none w).0 ≡ false
      → (v : World) × (entries : DirInfo) × Step machine path w v
        × (get v.dir_infos hash ≡ some entries)
        × (changed_cache machine hash path none w ≡ any_changed machine path none entries v)
  unfolding changed_cache changed_dir_cache
  changed_cache-dir path hash w dir good =
      let w' = (changed_cache_file machine hash w).1 in
      elim (Bool-cases (changed_cache_file machine hash w).0) [
        | inl bad ↦ cc (sym (changed_listing path hash w dir bad) ∙ good)
        | inr fine ↦ (
          (get_dir_cache machine hash w').1,
          (get_dir_cache machine hash w').0,
          Step-trans machine path w w' _ (changed_cache_file-Step machine path hash w)
              (get_dir_cache-Step machine path hash w'),
          get_dir_cache-memo hash w',
          rw (dir, fine) refl,
        )
      ]

  remove_redundant-exact :
      (path : Parts) (entries : DirInfo) (force r : Bool) (w w' : World)
      → IsTree machine w
      → remove_redundant_files machine path entries force w ≡ (ok r, w')
      → ((q : Parts)
          → contains (needed_files path entries) q ≡ true
          → has w.files q ≡ true
          → get w'.files q ≡ get w.files q)
        × ((q : Parts)
            → has w'.files q ≡ true
            → is_prefix path q ≡ true
            → (q == path) ≡ false
            → contains (needed_files path entries) q ≡ true)
  unfolding remove_redundant_files IsTree
  remove_redundant-exact path entries force r w w' tree done =
      let needed = needed_files path entries in
      let below = keys (files_below path w.files) in
      let files = redundant needed below in
      let (u, v, removed, end) =
        bind-eq-ok (remove_all machine files force w) (λ u v. (ok (not (is_empty files)), v)) r w'
          done in
      let same : v ≡ w' = ap (λ x. x.1) end in
      (
        λ q wanted there.
            sym (ap (λ x. get x.files q) (ap (λ x. x.1) removed ∙ same))
            ∙ remove_all-keeps machine files force w q (
                any-redundant needed below q wanted
                  (λ f i above. tree f q (files_below-has path f w.files i) there above)),
        λ q left within other.
            let (here, kept) =
              remove_all-left machine files force w v q removed
                (ap (λ x. has x.files q) same ∙ left) in
            contains-redundant needed below q
              (contains-files_below path q w.files here within other) kept,
      )

  -- Exactly the files of the entries stand strictly below the path, and each has its checksum.
  unfoldable pub IsExact : Parts → DirInfo → World → Type 0
  IsExact path entries w =
      ((rel : Parts) (hash : String)
        → In (rel, hash) entries
        → Delivered machine (path ++ rel) hash w)
      × ((q : Parts)
          → has w.files q ≡ true
          → is_prefix path q ≡ true
          → (q == path) ≡ false
          → contains (needed_files path entries) q ≡ true)

  checkout_dir-known :
      (path : Parts) (hash : String) (force relink : Bool) (entries : DirInfo) (w : World)
      → (not (exists w path) && has_file_above path w) ≡ false
      → get w.dir_infos hash ≡ some entries
      → checkout_dir machine path hash force relink none w ≡ (
          let added = not (exists w path) in
          bind
            (checkout_entries machine path force relink none entries
              (if added then record w { dirs = path ∷ w.dirs } else w))
            (λ m u.
              bind
                (remove_redundant_files machine path entries force u)
                (λ r t. (ok (added, not added && (r || m) && not relink), t))))
  unfolding checkout_dir
  checkout_dir-known path hash force relink entries w free known =
      elim (Bool-cases (not (exists w path))) [
        | inl added ↦
            rw
              (
                free,
                added,
                get_dir_cache-known hash entries (record w { dirs = path ∷ w.dirs }) known,
              )
              refl
        | inr there ↦ rw (free, there, get_dir_cache-known hash entries w known) refl
      ]

  checkout_dir-blocked :
      (path : Parts) (hash : String) (force relink : Bool) (w : World)
      → (not (exists w path) && has_file_above path w) ≡ true
      → checkout_dir machine path hash force relink none w ≡ (err (not_a_directory path), w)
  unfolding checkout_dir
  checkout_dir-blocked path hash force relink w blocked = rw (blocked) refl

  free_dir :
      (path : Parts) (hash : String) (force relink : Bool) (flags : Bool × Bool) (w w' : World)
      → checkout_dir machine path hash force relink none w ≡ (ok flags, w')
      → (not (exists w path) && has_file_above path w) ≡ false
  free_dir path hash force relink flags w w' done =
      elim (Bool-cases (not (exists w path) && has_file_above path w)) [
        | inl blocked ↦ cc (checkout_dir-blocked path hash force relink w blocked, done)
        | inr free ↦ free
      ]

  checkout_dir-IsExact :
      (path : Parts) (hash : String) (force relink : Bool) (flags : Bool × Bool) (entries : DirInfo)
      (w w' : World)
      → apart entries ≡ true
      → IsListing entries
      → IsTree machine w
      → ((rel : Parts) (h : String) → In (rel, h) entries → Verified machine h w)
      → get w.dir_infos hash ≡ some entries
      → (not (exists w path) && has_file_above path w) ≡ false
      → checkout_dir machine path hash force relink none w ≡ (ok flags, w')
      → IsExact path entries w'
  unfolding IsExact IsListing Delivered
  checkout_dir-IsExact path hash force relink flags entries w w' distinct files tree verified known
        free done =
      let added = not (exists w path) in
      let v = if added then record w { dirs = path ∷ w.dirs } else w in
      let step = made_if machine path added w in
      let flags_of : Bool → Bool → Bool × Bool =
        λ m r. (added, not added && (r || m) && not relink) in
      let (m, u, linked, rest) =
        bind-eq-ok (checkout_entries machine path force relink none entries v)
          (λ m u.
            bind (remove_redundant_files machine path entries force u)
              (λ r t. (ok (flags_of m r), t)))
          flags w' (sym (checkout_dir-known path hash force relink entries w free known) ∙ done) in
      let (r, t, cleaned, end) =
        bind-eq-ok (remove_redundant_files machine path entries force u)
          (λ r t. (ok (flags_of m r), t)) flags w' rest in
      let same : t ≡ w' = ap (λ x. x.1) end in
      let delivered =
        checkout_entries-Delivered machine path force relink m entries v u distinct files
          (λ rel h i. Verified-Step machine path h w v (files rel h i) step (verified rel h i))
          linked in
      let linking : Step machine path v u =
        subst (Step machine path v) (ap (λ x. x.1) linked)
          (checkout_entries-Step machine path force relink none entries v) in
      let (kept, only) =
        remove_redundant-exact path entries force r u t (linking.tree (step.tree tree)) cleaned in
      subst (IsExact path entries) same (
        λ rel h i.
            let there : has u.files (path ++ rel) ≡ true = ap is_some (delivered rel h i).1 in
            Delivered-keeps machine (path ++ rel) h u t
              (kept (path ++ rel) (contains-needed_files path entries rel h i) there)
              (delivered rel h i),
        only,
      )

  -- A checkout of a directory, with no filter and without symlinks, that returns flags leaves strictly below the
  -- path exactly the files of its listing, each with a content of its checksum, where the entries are files of
  -- which none is below another, no file of the workspace is below another, and the read-only files of the
  -- cache, listings aside, have the content of their checksum.
  pub checkout-IsExact :
      (path : Parts) (hash : String) (force relink : Bool) (entries : DirInfo) (w w' : World)
      (flags : Bool × Bool)
      → is_dir_hash hash ≡ true
      → Intact machine w
      → IsTree machine w
      → apart entries ≡ true
      → IsListing entries
      → get w'.dir_infos hash ≡ some entries
      → checkout machine path hash force relink none w ≡ (ok (some flags), w')
      → IsExact path entries w'
  unfolding checkout_changed IsListing
  checkout-IsExact path hash force relink entries w w' flags dir intact tree distinct files known
        done =
      elim (checkout-eq-ok machine path hash force relink none w w' (some flags) done) [
        | inl (same, nothing, end) ↦ cc nothing
        | inr (before, flags', step, good, out) ↦
            let u = (changed_cache machine hash path none before).1 in
            let (v, listed, read, memo, is) = changed_cache-dir path hash before dir good in
            let asked = changed_cache-Step machine path hash path none before in
            let checked : Step machine path u w' =
              subst (Step machine path u) (ap (λ x. x.1) out)
                (checkout_changed-Step machine path hash force relink none u) in
            let at_u : get u.dir_infos hash ≡ some listed =
              ap (λ x. get x.1.dir_infos hash) is
              ∙ (any_changed-Step machine path path none listed v).memo hash listed memo in
            let equal : listed ≡ entries =
              some_injective (sym (checked.memo hash listed at_u) ∙ known) in
            let all_files = subst IsListing (sym equal) files in
            let verified =
              any_changed-Verified machine path listed v (read.intact (step.intact intact))
                all_files (sym (ap (λ x. x.0) is) ∙ good) in
            subst (λ es. IsExact path es w') equal
              (checkout_dir-IsExact path hash force relink flags' listed u w'
                (ap apart equal ∙ distinct) all_files (asked.tree (step.tree tree))
                (λ rel h i. subst (Verified machine h) (sym (ap (λ x. x.1) is)) (verified rel h i))
                at_u (free_dir path hash force relink flags' u w' (sym (rw (dir) refl) ∙ out))
                (sym (rw (dir) refl) ∙ out))
      ]
