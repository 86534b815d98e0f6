-- ===== src/Cache/Checkout/Exact.antt =====
-- dvc/cache/base.py: `checkout` of a file.
use python_dvc.Base.{
  or_right, and_right, String, ◌<>◌, ◌≡◌, ◌≢◌, refl, sym, ap, ◌∙◌, Bool, true, false, not, ◌&&◌,
  ◌||◌, Option, none, some, subst, ◌⊎◌, inl, inr, ◌==◌, ==_iff, string_eq, parts_eq, if◌then◌else◌,
  Bool-cases, Option-cases, arith,
}
use python_dvc.Base.Dict.{get}
use python_dvc.Base.Result.{ok, err}
use python_dvc.Repo.Graph.{Parts}
use python_dvc.Cache.Listing.{is_dir_hash}
use python_dvc.Cache.Checkout.{
  World, Machine, checkout_failed, exists, files_below, same_hash, before_dot, changed_cache_file,
  save_dir_info, get_hash, changed_cache, changed, safe_remove,
}
use python_dvc.Cache.Checkout.Run.{link, checkout_file, checkout_changed, fail_checkout, checkout}
use python_dvc.Cache.Checkout.Step.{Intact, Step, is_dir_hash-<>}
use python_dvc.Cache.Checkout.Acts.{changed-Step}
use python_dvc.Cache.Checkout.Links.{started_at}
use python_dvc.Cache.Checkout.Delivery.{
  bind-eq-ok, Verified, Delivered, changed_cache_file-Verified, link-eq-ok, relinked-Delivered,
}

flip_true : (a : Bool) → not a ≡ true → a ≡ false
flip_true a h = ground arith

flip_false : (a : Bool) → not a ≡ false → a ≡ true
flip_false a h = ground arith

module _ (machine : Machine) where
  save_dir_info-hash :
      (listing : String) (w : World)
      → (save_dir_info machine listing w).0 ≡ machine.hash_of listing <> ".dir"
  unfolding save_dir_info
  save_dir_info-hash listing w =
      elim (Bool-cases (changed_cache_file machine (machine.hash_of listing <> ".dir") w).0) [
        | inl bad ↦ rw (bad) refl
        | inr good ↦ rw (good) refl
      ]

  -- The checksum of a file is that of its content, that of a directory is one of directories.
  get_hash-cases :
      (p : Parts) (w : World)
      → ((content : String) × (get w.files p ≡ some content)
          × (get_hash machine p w ≡ (machine.hash_of content, w)))
        ⊎ ((is_dir_hash (get_hash machine p w).0 ≡ true) ⊎ ((get_hash machine p w).0 ≡ ""))
  unfolding get_hash
  get_hash-cases p w = elim (Option-cases (get w.files p)) [
    | inr (content, found) ↦ inl (content, found, rw (get_hash, found) refl)
    | inl missing ↦ inr (elim (Bool-cases (exists w p)) [
      | inr gone ↦ inr (rw (get_hash, missing, gone) refl)
      | inl there ↦
          let listing = machine.listing_of (files_below p w.files) in
          inl (
            rw (get_hash, missing, there, save_dir_info-hash listing w)
              (is_dir_hash-<> (machine.hash_of listing)))
    ])
  ]

  changed-early :
      (p : Parts) (hash : String) (w : World)
      → (not (exists w p) || hash == "") ≡ true
      → changed machine p hash w ≡ (true, w)
  unfolding changed
  changed-early p hash w early = rw (early) refl

  changed-bad :
      (p : Parts) (hash : String) (w : World)
      → (not (exists w p) || hash == "") ≡ false
      → (changed_cache machine hash p none w).0 ≡ true
      → (changed machine p hash w).0 ≡ true
  unfolding changed
  changed-bad p hash w late bad = rw (late, bad) refl

  changed-compared :
      (p : Parts) (hash : String) (w : World)
      → (not (exists w p) || hash == "") ≡ false
      → (changed_cache machine hash p none w).0 ≡ false
      → changed machine p hash w ≡ (
          let v = (changed_cache machine hash p none w).1 in
          (not (hash == (get_hash machine p v).0), (get_hash machine p v).1))
  unfolding changed
  changed-compared p hash w late good = rw (late, good) refl

  -- A path that has not changed holds a file of the checksum.
  pub changed-Delivered :
      (p : Parts) (hash : String) (w : World)
      → is_dir_hash hash ≡ false
      → (changed machine p hash w).0 ≡ false
      → Delivered machine p hash (changed machine p hash w).1
  unfolding Delivered
  changed-Delivered p hash w file same = elim (Bool-cases (not (exists w p) || hash == "")) [
    | inl early ↦ cc (ap (λ x. x.0) (changed-early p hash w early), same)
    | inr late ↦ elim (Bool-cases (changed_cache machine hash p none w).0) [
      | inl bad ↦ cc (changed-bad p hash w late bad, same)
      | inr good ↦
          let v = (changed_cache machine hash p none w).1 in
          let compared = changed-compared p hash w late good in
          let equal : hash ≡ (get_hash machine p v).0 =
            (==_iff hash (get_hash machine p v).0).0
              (flip_false _ (sym (ap (λ x. x.0) compared) ∙ same)) in
          elim (get_hash-cases p v) [
            | inl (content, found, is) ↦
                let now : (changed machine p hash w).1 ≡ v =
                  ap (λ x. x.1) compared ∙ ap (λ x. x.1) is in
                (
                  content,
                  ap (λ u. get u.files p) now ∙ found,
                  (==_iff (before_dot (machine.hash_of content)) (before_dot hash)).1
                      (ap before_dot (sym (equal ∙ ap (λ x. x.0) is))),
                )
            | inr (inl dir) ↦ cc (ap is_dir_hash equal, dir, file)
            | inr (inr nothing) ↦ cc (
              (==_iff hash "").1 (equal ∙ nothing),
              or_right (not (exists w p)) (hash == "") late,
            )
          ]
    ]
  ]

  pub changed_cache-file :
      (p : Parts) (hash : String) (filter : Option Parts) (w : World)
      → is_dir_hash hash ≡ false
      → changed_cache machine hash p filter w ≡ changed_cache_file machine hash w
  unfolding changed_cache
  changed_cache-file p hash filter w file = rw (file) refl

  pub checkout_changed-file :
      (p : Parts) (hash : String) (force relink : Bool) (filter : Option Parts) (w : World)
      → is_dir_hash hash ≡ false
      → checkout_changed machine p hash force relink filter w
        ≡ checkout_file machine p hash force relink w
  unfolding checkout_changed
  checkout_changed-file p hash force relink filter w file = rw (file) refl

  checkout_file-Delivered :
      (p : Parts) (hash : String) (force relink : Bool) (flags : Bool × Bool) (w w' : World)
      → is_dir_hash hash ≡ false
      → Verified machine hash w
      → checkout_file machine p hash force relink w ≡ (ok flags, w')
      → Delivered machine p hash w'
  unfolding checkout_file Verified Delivered
  checkout_file-Delivered p hash force relink flags w w' file verified done =
      elim (Bool-cases (exists w p)) [
        | inl there ↦
            relinked-Delivered machine p hash force (false, not relink) flags w w' file verified
              (sym (rw (there) refl) ∙ done)
        | inr gone ↦
            let (t, v, linked, same) =
              bind-eq-ok (link machine hash p w) (λ t v. (ok (true, false), v)) flags w'
                (sym (rw (gone) refl) ∙ done) in
            let (content, found, there) = link-eq-ok machine hash p w v linked in
            (content, sym (ap (λ x. get x.1.files p) same) ∙ there, verified content found)
      ]

  fail_checkout-raises :
      (path : Parts) (force : Bool) (w w' : World) (r : Option (Bool × Bool))
      → fail_checkout machine path force w ≢ (ok r, w')
  fail_checkout-raises path force w w' r done =
      let (u, v, removed, raised) =
        bind-eq-ok (safe_remove machine path force w) (λ u v. (err (checkout_failed path), v)) r w'
          done in
      cc raised

  checkout-same :
      (path : Parts) (hash : String) (force relink : Bool) (filter : Option Parts) (w : World)
      → (hash == "") ≡ false
      → (not relink && not (changed machine path hash w).0) ≡ true
      → checkout machine path hash force relink filter w
        ≡ (ok none, (changed machine path hash w).1)
  unfolding checkout
  checkout-same path hash force relink filter w hashed same = rw (hashed, same) refl

  -- A checkout that returns found nothing changed, or the cache was good and the path was checked out.
  pub checkout-eq-ok :
      (path : Parts) (hash : String) (force relink : Bool) (filter : Option Parts) (w w' : World)
      (r : Option (Bool × Bool))
      → checkout machine path hash force relink filter w ≡ (ok r, w')
      → (((changed machine path hash w).0 ≡ false)
          × (r ≡ none)
          × (w' ≡ (changed machine path hash w).1))
        ⊎ ((before : World) × (flags : Bool × Bool) × Step machine path w before
            × ((changed_cache machine hash path filter before).0 ≡ false)
            × (checkout_changed machine path hash force relink filter
                  (changed_cache machine hash path filter before).1
                ≡ (ok flags, w')))
  unfolding checkout
  checkout-eq-ok path hash force relink filter w w' r done =
      let before = if relink then w else (changed machine path hash w).1 in
      let v = (changed_cache machine hash path filter before).1 in
      elim (Bool-cases (hash == "")) [
        | inl nothing ↦
            absurd (fail_checkout-raises path force w w' r (sym (rw (nothing) refl) ∙ done))
        | inr hashed ↦ elim (Bool-cases (not relink && not (changed machine path hash w).0)) [
          | inl same ↦ inl (
            flip_true _ (and_right (not relink) _ same),
            cc (checkout-same path hash force relink filter w hashed same, done),
            sym (ap (λ x. x.1) done)
                ∙ ap (λ x. x.1) (checkout-same path hash force relink filter w hashed same),
          )
          | inr differs ↦ elim (Bool-cases (changed_cache machine hash path filter before).0) [
            | inl missing ↦ absurd (
                fail_checkout-raises path force v w' r
                  (sym (rw (hashed, differs, missing) refl) ∙ done))
            | inr cached ↦
                let (flags, u, out, end) =
                  bind-eq-ok (checkout_changed machine path hash force relink filter v)
                    (λ flags u. (ok (some flags), u)) r w'
                    (sym (rw (hashed, differs, cached) refl) ∙ done) in
                inr (
                  before,
                  flags,
                  started_at machine path relink w _ (changed-Step machine path path hash w),
                  cached,
                  out ∙ ap (λ u. (ok flags, u)) (ap (λ x. x.1) end),
                )
          ]
        ]
      ]

  -- The checkout of a file, without symlinks, that returns leaves a file with a content of the checksum at the path, where the
  -- read-only files of the cache, listings aside, have the content of their checksum.
  pub checkout_file_exact :
      (path : Parts) (hash : String) (force relink : Bool) (filter : Option Parts) (w w' : World)
      (r : Option (Bool × Bool))
      → is_dir_hash hash ≡ false
      → Intact machine w
      → checkout machine path hash force relink filter w ≡ (ok r, w')
      → (content : String) × (get w'.files path ≡ some content)
        × (same_hash machine content hash ≡ true)
  unfolding Delivered
  checkout_file_exact path hash force relink filter w w' r file intact done =
      elim (checkout-eq-ok path hash force relink filter w w' r done) [
        | inl (same, nothing, end) ↦
            subst (Delivered machine path hash) (sym end) (changed-Delivered path hash w file same)
        | inr (before, flags, step, good, out) ↦
            let only_file = changed_cache-file path hash filter before file in
            let verified : Verified machine hash (changed_cache machine hash path filter before).1 =
              rw (only_file) (
                changed_cache_file-Verified machine hash before (step.intact intact) file
                  (sym (ap (λ x. x.0) only_file) ∙ good)) in
            checkout_file-Delivered path hash force relink flags _ w' file verified
              (sym (checkout_changed-file path hash force relink filter _ file) ∙ out)
      ]
