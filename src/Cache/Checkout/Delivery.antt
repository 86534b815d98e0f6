-- ===== src/Cache/Checkout/Delivery.antt =====
-- dvc/cache/base.py: a file that was linked has a content of its checksum.
use python_dvc.Base.{
  ◌==◌, string_eq, ◌&&◌, String, ◌≡◌, refl, sym, ap, ◌∙◌, Bool, true, false, not, ◌||◌, none, some,
  List, [], ◌∷◌, In, subst, inl, inr, ==_iff, string_eq, parts_eq, Bool-cases, Option-cases,
}
use python_dvc.Base.Dict.{Dict, get, put, get-put}
use python_dvc.Base.Result.{Result, ok, err}
use python_dvc.Repo.Graph.{Parts}
use python_dvc.Repo.Graph.Overlap.{is_prefix_refl}
use python_dvc.Cache.Listing.{is_dir_hash}
use python_dvc.Cache.Checkout.{
  LinkType, is_hardlink, DirInfo, World, Machine, CheckoutFailure, assertion, not_a_directory, Act,
  bind, exists, tree_remove, same_hash, changed_cache_file, any_changed, safe_remove,
}
use python_dvc.Cache.Checkout.Run.{path_parent, has_file_above, try_links, link}
use python_dvc.Cache.Checkout.Step.{Intact, Step, changed_cache_file-cases, changed_cache_file-Step}
use python_dvc.Cache.Checkout.Acts.{any_changed-Step, safe_remove-Step}

pub bind-eq-ok :
    {A B : Type 0} (r : Result CheckoutFailure A × World) (k : A → Act B) (b : B) (w : World)
    → bind r k ≡ (ok b, w)
    → (a : A) × (v : World) × (r ≡ (ok a, v)) × (k a v ≡ (ok b, w))
bind-eq-ok (err e, v) k b w h = cc
bind-eq-ok (ok a, v) k b w h = (a, v, refl, h)

written_there :
    (files : Dict Parts String) (to : Parts) (content : String)
    → get (put files to content) to ≡ some content
written_there files to content = get-put files to to content ∙ rw ((==_iff to to).1 refl) refl

written_file :
    (w w' : World) (to : Parts) (content : String)
    → w'.files ≡ put w.files to content
    → get w'.files to ≡ some content
written_file w w' to content now = ap (λ files. get files to) now ∙ written_there w.files to content

module _ (machine : Machine) where
  -- What the cache has under a checksum has that checksum.
  unfoldable pub Verified : String → World → Type 0
  Verified hash w =
      (content : String) → get w.cache hash ≡ some content → same_hash machine content hash ≡ true

  -- A file is there, and its content has the checksum.
  unfoldable pub Delivered : Parts → String → World → Type 0
  Delivered p hash w =
      (content : String) × (get w.files p ≡ some content) × (same_hash machine content hash ≡ true)

  pub Verified-Step :
      (path : Parts) (hash : String) (w w' : World)
      → is_dir_hash hash ≡ false
      → Step machine path w w'
      → Verified hash w
      → Verified hash w'
  unfolding Verified
  Verified-Step path hash w w' file step verified content found =
      verified content (step.shrinks hash content file found)

  pub changed_cache_file-Verified :
      (hash : String) (w : World)
      → Intact machine w
      → is_dir_hash hash ≡ false
      → (changed_cache_file machine hash w).0 ≡ false
      → Verified hash (changed_cache_file machine hash w).1
  unfolding Verified Intact
  changed_cache_file-Verified hash w intact file good =
      elim (changed_cache_file-cases machine hash w) [
        | inl (e, ro) ↦ rw (e) (λ content found. intact hash content file ro found)
        | inr (inl e) ↦ cc (ap (λ x. x.0) e, good)
        | inr (inr (inl (content, found, same, e))) ↦ rw (e) (λ c there. cc (there, found, same))
        | inr (inr (inr e)) ↦ cc (ap (λ x. x.0) e, good)
      ]

  any_changed-next :
      (path rel : Parts) (hash : String) (entries : DirInfo) (w : World)
      → (changed_cache_file machine hash w).0 ≡ false
      → any_changed machine path none ((rel, hash) ∷ entries) w
        ≡ any_changed machine path none entries (changed_cache_file machine hash w).1
  unfolding any_changed
  any_changed-next path rel hash entries w good = rw (good) refl

  any_changed-bad :
      (path rel : Parts) (hash : String) (entries : DirInfo) (w : World)
      → (changed_cache_file machine hash w).0 ≡ true
      → (any_changed machine path none ((rel, hash) ∷ entries) w).0 ≡ true
  unfolding any_changed
  any_changed-bad path rel hash entries w bad = rw (bad) refl

  pub any_changed-Verified :
      (path : Parts) (entries : DirInfo) (w : World)
      → Intact machine w
      → ((rel : Parts) (hash : String) → In (rel, hash) entries → is_dir_hash hash ≡ false)
      → (any_changed machine path none entries w).0 ≡ false
      → (rel : Parts) (hash : String) → In (rel, hash) entries
      → Verified hash (any_changed machine path none entries w).1
  any_changed-Verified path [] w intact files good rel hash there = absurd there
  any_changed-Verified path ((rel0, hash0) ∷ entries) w intact files good rel hash there =
      let w' = (changed_cache_file machine hash0 w).1 in
      let step = changed_cache_file-Step machine path hash0 w in
      elim (Bool-cases (changed_cache_file machine hash0 w).0) [
        | inl bad ↦ cc (any_changed-bad path rel0 hash0 entries w bad, good)
        | inr fine ↦
            let next = any_changed-next path rel0 hash0 entries w fine in
            let later = λ (r : Parts) (h : String) (i : In (r, h) entries). files r h (inr i) in
            rw (next) (elim there [
              | inl e ↦
                  let same : hash ≡ hash0 = ap (λ x. x.1) e in
                  let file : is_dir_hash hash ≡ false = files rel hash (inl e) in
                  Verified-Step path hash w' _ file
                    (any_changed-Step machine path path none entries w')
                    (subst (λ h. Verified h w') (sym same)
                      (changed_cache_file-Verified hash0 w intact (sym (ap is_dir_hash same) ∙ file)
                        fine))
              | inr i ↦
                  any_changed-Verified path entries w' (step.intact intact) later
                    (sym (ap (λ x. x.0) next) ∙ good) rel hash i
            ])
      ]

  try_links-empty :
      (type : LinkType) (types : List LinkType) (content : String) (to : Parts) (w : World)
      → (exists w to || not (machine.can_link type)) ≡ false
      → (is_hardlink type && content == "") ≡ true
      → (try_links machine (type ∷ types) content to w).1.files ≡ put w.files to content
  unfolding try_links
  try_links-empty type types content to w linked empty = rw (linked, empty) refl

  try_links-written :
      (type : LinkType) (types : List LinkType) (content : String) (to : Parts) (w : World)
      → (exists w to || not (machine.can_link type)) ≡ false
      → (is_hardlink type && content == "") ≡ false
      → (w.cache_type_confirmed || machine.is_link type) ≡ true
      → (try_links machine (type ∷ types) content to w).1.files ≡ put w.files to content
  unfolding try_links
  try_links-written type types content to w linked filled fine = rw (linked, filled, fine) refl

  -- `_try_links` that returns has written the content.
  pub try_links-eq-ok :
      (types : List LinkType) (content : String) (to : Parts) (w w' : World)
      → try_links machine types content to w ≡ (ok tt, w')
      → (get w'.files to ≡ some content)
  unfolding try_links
  try_links-eq-ok [] content to w w' done = cc
  try_links-eq-ok (type ∷ types) content to w w' done =
      let written = record w { cache_types = type ∷ types; files = put w.files to content } in
      elim (Bool-cases (exists w to || not (machine.can_link type))) [
        | inl refused ↦ try_links-eq-ok types content to w w' (sym (rw (refused) refl) ∙ done)
        | inr linked ↦ elim (Bool-cases (is_hardlink type && content == "")) [
          | inl empty ↦ written_file w w' to content (
              sym (ap (λ x. x.1.files) done) ∙ try_links-empty type types content to w linked empty)
          | inr filled ↦ elim (Bool-cases (w.cache_type_confirmed || machine.is_link type)) [
            | inl fine ↦ written_file w w' to content (
                sym (ap (λ x. x.1.files) done)
                ∙ try_links-written type types content to w linked filled fine)
            | inr wrong ↦
                try_links-eq-ok types content to (tree_remove to written) w'
                  (sym (rw (linked, filled, wrong) refl) ∙ done)
          ]
        ]
      ]

  link-missing :
      (hash : String) (to : Parts) (w : World)
      → get w.cache hash ≡ none
      → link machine hash to w ≡ (err assertion, w)
  unfolding link
  link-missing hash to w missing = rw (link, missing) refl

  link-blocked :
      (hash content : String) (to : Parts) (w : World)
      → get w.cache hash ≡ some content
      → has_file_above to w ≡ true
      → link machine hash to w ≡ (err (not_a_directory (path_parent to)), w)
  unfolding link
  link-blocked hash content to w found blocked = rw (link, found, blocked) refl

  pub link-free :
      (hash content : String) (to : Parts) (w : World)
      → get w.cache hash ≡ some content
      → has_file_above to w ≡ false
      → link machine hash to w
        ≡ try_links machine w.cache_types content to (record w { dirs = path_parent to ∷ w.dirs })
  unfolding link
  link-free hash content to w found free = rw (link, found, free) refl

  pub link-eq-ok :
      (hash : String) (to : Parts) (w w' : World)
      → link machine hash to w ≡ (ok tt, w')
      → (content : String) × (get w.cache hash ≡ some content) × (get w'.files to ≡ some content)
  link-eq-ok hash to w w' done = elim (Option-cases (get w.cache hash)) [
    | inl missing ↦ cc (link-missing hash to w missing, done)
    | inr (content, found) ↦ elim (Bool-cases (has_file_above to w)) [
      | inl blocked ↦ cc (link-blocked hash content to w found blocked, done)
      | inr free ↦ (
        content,
        found,
        try_links-eq-ok w.cache_types content to (record w { dirs = path_parent to ∷ w.dirs }) w'
            (sym (link-free hash content to w found free) ∙ done),
      )
    ]
  ]

  -- What is relinked from a cache that is verified is delivered.
  pub relinked-Delivered :
      {A : Type 0} (p : Parts) (hash : String) (force : Bool) (a b : A) (w w' : World)
      → is_dir_hash hash ≡ false
      → Verified hash w
      → bind
          (safe_remove machine p force w)
          (λ u v. bind (link machine hash p v) (λ t v'. (ok a, v')))
        ≡ (ok b, w')
      → Delivered p hash w'
  unfolding Delivered Verified
  relinked-Delivered p hash force a b w w' file verified done =
      let (u, v, removed, then_linked) =
        bind-eq-ok (safe_remove machine p force w)
          (λ u v. bind (link machine hash p v) (λ t v'. (ok a, v'))) b w' done in
      let (t, v', linked, same) =
        bind-eq-ok (link machine hash p v) (λ t v'. (ok a, v')) b w' then_linked in
      let (content, found, there) = link-eq-ok hash p v v' linked in
      let step = safe_remove-Step machine p p force w (is_prefix_refl p) in
      let before : get w.cache hash ≡ some content =
        step.shrinks hash content file (ap (λ x. get x.1.cache hash) removed ∙ found) in
      (content, sym (ap (λ x. get x.1.files p) same) ∙ there, verified content before)
