-- ===== src/Cache/Checkout/Frame.antt =====
-- dvc/cache/base.py: a checkout touches only what is below its path.
use python_dvc.Base.{
  String, ◌≡◌, Bool, true, false, not, ◌&&◌, ◌||◌, Option, none, some, List, [], ◌∷◌, ◌++◌, all,
  is_empty, inl, inr, ◌==◌, string_eq, parts_eq, if◌then◌else◌, Bool-cases, Option-cases, arith,
}
use python_dvc.Base.Dict.{get, keys}
use python_dvc.Base.Result.{ok, err}
use python_dvc.Repo.Graph.{Parts, is_prefix}
use python_dvc.Repo.Graph.Overlap.{is_prefix_refl}
use python_dvc.Cache.Listing.{is_dir_hash}
use python_dvc.Cache.Checkout.{
  DirInfo, World, Machine, checkout_failed, bind, exists, files_below, get_dir_cache, is_filtered,
  changed_cache, changed, safe_remove,
}
use python_dvc.Cache.Checkout.Run.{
  has_file_above, link, checkout_file, checkout_entry, checkout_entries, redundant, needed_files,
  remove_all, remove_redundant_files, checkout_dir, checkout_changed, fail_checkout, checkout,
}
use python_dvc.Cache.Checkout.Step.{IsTree, Step, Step-refl, Step-trans}
use python_dvc.Cache.Checkout.Acts.{
  bind-Step, bind_ok-Step, get_dir_cache-Step, changed_cache-Step, changed-Step, safe_remove-Step,
}
use python_dvc.Cache.Checkout.Files.{all-files_below, all-redundant, is_prefix-++}
use python_dvc.Cache.Checkout.Links.{link-Step, made_if, started_at}

module _ (machine : Machine) where
  -- What is below the path is removed, and the file is linked.
  relinked-Step :
      {A : Type 0} (path entry : Parts) (hash : String) (force : Bool) (a : A) (w : World)
      → is_prefix path entry ≡ true
      → Step machine path w
          (bind
            (safe_remove machine entry force w)
            (λ u v. bind (link machine hash entry v) (λ t v'. (ok a, v')))).1
  relinked-Step path entry hash force a w within =
      bind-Step machine path w (safe_remove machine entry force w)
        (λ u v. bind (link machine hash entry v) (λ t v'. (ok a, v')))
        (safe_remove-Step machine path entry force w within)
        (λ u v.
          bind_ok-Step machine path v (link machine hash entry v) (λ t. a)
            (link-Step machine path hash entry v within))

  pub checkout_file-Step :
      (path : Parts) (hash : String) (force relink : Bool) (w : World)
      → Step machine path w (checkout_file machine path hash force relink w).1
  unfolding checkout_file
  checkout_file-Step path hash force relink w =
      let within = is_prefix_refl path in
      elim (Bool-cases (exists w path)) [
        | inl there ↦
            rw (there)
              (relinked-Step {A = Bool × Bool} path path hash force (false, not relink) w within)
        | inr gone ↦ rw (gone) (
            bind_ok-Step machine path w (link machine hash path w) (λ t. (true, false))
              (link-Step machine path hash path w within))
      ]

  pub checkout_entry-Step :
      (path entry : Parts) (hash : String) (force relink : Bool) (w : World)
      → is_prefix path entry ≡ true
      → Step machine path w (checkout_entry machine entry hash force relink w).1
  unfolding checkout_entry
  checkout_entry-Step path entry hash force relink w within =
      let w' = (changed machine entry hash w).1 in
      let checked = changed-Step machine path entry hash w in
      let anew = λ (v : World). relinked-Step path entry hash force true v within in
      elim (Bool-cases relink) [
        | inl all_anew ↦ rw (all_anew) (anew w)
        | inr some_anew ↦ elim (Bool-cases (changed machine entry hash w).0) [
          | inl differs ↦ rw (some_anew, differs) (Step-trans machine path w w' _ checked (anew w'))
          | inr same ↦ rw (some_anew, same) checked
        ]
      ]

  pub checkout_entries-Step :
      (path : Parts) (force relink : Bool) (filter : Option Parts) (entries : DirInfo) (w : World)
      → Step machine path w (checkout_entries machine path force relink filter entries w).1
  unfolding checkout_entries
  checkout_entries-Step path force relink filter [] w = Step-refl machine path w
  checkout_entries-Step path force relink filter ((rel, hash) ∷ entries) w =
      let later = checkout_entries machine path force relink filter entries in
      elim (Bool-cases (is_filtered filter (path ++ rel))) [
        | inl skipped ↦ rw (skipped) (checkout_entries-Step path force relink filter entries w)
        | inr kept ↦ rw (kept) (
            bind-Step machine path w (checkout_entry machine (path ++ rel) hash force relink w)
              (λ m v. bind (later v) (λ n u. (ok (m || n), u)))
              (checkout_entry-Step path (path ++ rel) hash force relink w (is_prefix-++ path rel))
              (λ m v.
                bind_ok-Step machine path v (later v) (λ n. m || n)
                  (checkout_entries-Step path force relink filter entries v)))
      ]

  remove_all-Step :
      (path : Parts) (files : List Parts) (force : Bool) (w : World)
      → all (is_prefix path) files ≡ true
      → Step machine path w (remove_all machine files force w).1
  unfolding remove_all
  remove_all-Step path [] force w below = Step-refl machine path w
  remove_all-Step path (f ∷ files) force w below =
      bind-Step machine path w (safe_remove machine f force w)
        (λ u v. remove_all machine files force v)
        (safe_remove-Step machine path f force w (ground arith))
        (λ u v. remove_all-Step path files force v (ground arith))

  remove_redundant_files-Step :
      (path : Parts) (entries : DirInfo) (force : Bool) (w : World)
      → Step machine path w (remove_redundant_files machine path entries force w).1
  unfolding remove_redundant_files
  remove_redundant_files-Step path entries force w =
      let files = redundant (needed_files path entries) (keys (files_below path w.files)) in
      bind_ok-Step machine path w (remove_all machine files force w) (λ u. not (is_empty files))
        (remove_all-Step path files force w
          (all-redundant path (needed_files path entries) _ (all-files_below path w.files)))

  checkout_dir-Step :
      (path : Parts) (hash : String) (force relink : Bool) (filter : Option Parts) (w : World)
      → Step machine path w (checkout_dir machine path hash force relink filter w).1
  unfolding checkout_dir
  checkout_dir-Step path hash force relink filter w =
      let added = not (exists w path) in
      let v = if added then record w { dirs = path ∷ w.dirs } else w in
      let (entries, v') = get_dir_cache machine hash v in
      let clean = remove_redundant_files machine path entries force in
      let flags : Bool → Bool → Bool × Bool = λ m r. (added, not added && (r || m) && not relink) in
      elim (Bool-cases (added && has_file_above path w)) [
        | inl blocked ↦ rw (blocked) (Step-refl machine path w)
        | inr free ↦ rw (free) (
            Step-trans machine path w v _ (made_if machine path added w) (
              Step-trans machine path v v' _ (get_dir_cache-Step machine path hash v) (
                bind-Step machine path v'
                  (checkout_entries machine path force relink filter entries v')
                  (λ m u. bind (clean u) (λ r t. (ok (flags m r), t)))
                  (checkout_entries-Step path force relink filter entries v')
                  (λ m u.
                    bind_ok-Step machine path u (clean u) (flags m)
                      (remove_redundant_files-Step path entries force u)))))
      ]

  pub checkout_changed-Step :
      (path : Parts) (hash : String) (force relink : Bool) (filter : Option Parts) (w : World)
      → Step machine path w (checkout_changed machine path hash force relink filter w).1
  unfolding checkout_changed
  checkout_changed-Step path hash force relink filter w = elim (Bool-cases (is_dir_hash hash)) [
    | inl dir ↦ rw (dir) (checkout_dir-Step path hash force relink filter w)
    | inr file ↦ rw (file) (checkout_file-Step path hash force relink w)
  ]

  fail_checkout-Step :
      (path : Parts) (force : Bool) (w : World)
      → Step machine path w (fail_checkout machine path force w).1
  fail_checkout-Step path force w =
      bind-Step machine path w (safe_remove machine path force w)
        (λ u v. (err (checkout_failed path), v))
        (safe_remove-Step machine path path force w (is_prefix_refl path))
        (λ u v. Step-refl machine path v)

  pub checkout-Step :
      (path : Parts) (hash : String) (force relink : Bool) (filter : Option Parts) (w : World)
      → Step machine path w (checkout machine path hash force relink filter w).1
  unfolding checkout
  checkout-Step path hash force relink filter w =
      let w1 = (changed machine path hash w).1 in
      let before = if relink then w else w1 in
      let w2 = (changed_cache machine hash path filter before).1 in
      let checked = changed-Step machine path path hash w in
      let asked = changed_cache-Step machine path hash path filter before in
      let started =
        Step-trans machine path w before w2 (started_at machine path relink w w1 checked) asked in
      elim (Bool-cases (hash == "")) [
        | inl nothing ↦ rw (nothing) (fail_checkout-Step path force w)
        | inr hashed ↦ elim (Bool-cases (not relink && not (changed machine path hash w).0)) [
          | inl same ↦ rw (hashed, same) checked
          | inr differs ↦ elim (Bool-cases (changed_cache machine hash path filter before).0) [
            | inl missing ↦
                rw (hashed, differs, missing)
                  (Step-trans machine path w w2 _ started (fail_checkout-Step path force w2))
            | inr cached ↦
                rw (hashed, differs, cached)
                  (Step-trans machine path w w2 _ started (
                    bind_ok-Step machine path w2
                      (checkout_changed machine path hash force relink filter w2)
                      (λ flags. some flags)
                      (checkout_changed-Step path hash force relink filter w2)))
          ]
        ]
      ]

  none_comes :
      (path : Parts) (w w' : World) (h : String)
      → is_dir_hash h ≡ false
      → get w.cache h ≡ none
      → Step machine path w w'
      → get w'.cache h ≡ none
  none_comes path w w' h file missing step = elim (Option-cases (get w'.cache h)) [
    | inl still ↦ still
    | inr (content, found) ↦ cc (step.shrinks h content file found, missing)
  ]

  -- Whatever becomes of a checkout without symlinks, a file that is not below its path is as before, a checksum of a file that
  -- the cache did not have it does not have, and where no file was below another, none is.
  pub checkout_frame :
      (path : Parts) (hash : String) (force relink : Bool) (filter : Option Parts) (w : World)
      (q : Parts) (h : String)
      → is_prefix path q ≡ false
      → is_dir_hash h ≡ false
      → get w.cache h ≡ none
      → IsTree machine w
      → (get (checkout machine path hash force relink filter w).1.files q ≡ get w.files q)
        × ((get (checkout machine path hash force relink filter w).1.cache h ≡ none)
            × IsTree machine (checkout machine path hash force relink filter w).1)
  checkout_frame path hash force relink filter w q h outside file missing tree =
      let step = checkout-Step path hash force relink filter w in
      (step.frame q outside, (none_comes path w _ h file missing step, step.tree tree))
