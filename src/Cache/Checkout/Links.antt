-- ===== src/Cache/Checkout/Links.antt =====
-- dvc/cache/base.py: the links of a cache touch only what is below their path.
use python_dvc.Base.{
  ◌==◌, string_eq, ◌&&◌, or_left, String, ◌≡◌, refl, sym, ap, ◌∙◌, Bool, true, false, not, ◌||◌,
  List, [], ◌∷◌, any, inl, inr, string_eq, parts_eq, if◌then◌else◌, Bool-cases, Option-cases,
}
use python_dvc.Base.Dict.{has, get, put, get-put, keys}
use python_dvc.Repo.Graph.{Parts, is_prefix}
use python_dvc.Cache.Checkout.{LinkType, is_hardlink, World, Machine, exists, tree_remove}
use python_dvc.Cache.Checkout.Run.{path_parent, has_file_above, try_links, link}
use python_dvc.Cache.Checkout.Step.{Intact, IsTree, Step, Step-refl, Step-trans}
use python_dvc.Cache.Checkout.Acts.{tree_remove-Step}
use python_dvc.Cache.Checkout.Files.{has-put, has_listed, is_prefix-cases, not_same, still_free}

module _ (machine : Machine) where
  types_left :
      (path : Parts) (types : List LinkType) (w : World)
      → Step machine path w (record w { cache_types = types })
  unfolding Intact IsTree
  types_left path types w = record {
    shrinks = λ h c d there. there;
    frame = λ q out. refl;
    intact = λ i. i;
    tree = λ t. t;
    memo = λ h e known. known;
  }

  confirmed :
      (path : Parts) (w : World) → Step machine path w (record w { cache_type_confirmed = true })
  unfolding Intact IsTree
  confirmed path w = record {
    shrinks = λ h c d there. there;
    frame = λ q out. refl;
    intact = λ i. i;
    tree = λ t. t;
    memo = λ h e known. known;
  }

  pub made : (path dir : Parts) (w : World) → Step machine path w (record w { dirs = dir ∷ w.dirs })
  unfolding Intact IsTree
  made path dir w = record {
    shrinks = λ h c d there. there;
    frame = λ q out. refl;
    intact = λ i. i;
    tree = λ t. t;
    memo = λ h e known. known;
  }

  pub made_if :
      (path : Parts) (missing : Bool) (w : World)
      → Step machine path w (if missing then record w { dirs = path ∷ w.dirs } else w)
  made_if path true w = made path path w
  made_if path false w = Step-refl machine path w

  pub started_at :
      (path : Parts) (relink : Bool) (w w' : World)
      → Step machine path w w'
      → Step machine path w (if relink then w else w')
  started_at path true w w' checked = Step-refl machine path w
  started_at path false w w' checked = checked

  pub put_tree :
      (w : World) (to : Parts) (content : String)
      → IsTree machine w
      → exists w to ≡ false
      → has_file_above to w ≡ false
      → (f q : Parts) → has (put w.files to content) f ≡ true
      → has (put w.files to content) q ≡ true
      → is_prefix f q ≡ true
      → f ≡ q
  unfolding IsTree
  put_tree w to content t gone free f q there here below =
      elim (has-put w.files to content f there) [
        | inl new_f ↦ elim (has-put w.files to content q here) [
          | inl new_q ↦ new_f ∙ sym new_q
          | inr old_q ↦ cc (
            has_listed (is_prefix to) q w.files old_q (sym (ap (λ x. is_prefix x q) new_f) ∙ below),
            or_left (any (is_prefix to) (keys w.files)) (any (is_prefix to) w.dirs) gone,
          )
        ]
        | inr old_f ↦ elim (has-put w.files to content q here) [
          | inl new_q ↦ elim (is_prefix-cases f to (sym (ap (is_prefix f) new_q) ∙ below)) [
            | inl same ↦ same ∙ sym new_q
            | inr above ↦
                cc (has_listed (λ g. is_prefix g (path_parent to)) f w.files old_f above, free)
          ]
          | inr old_q ↦ t f q old_f old_q below
        ]
      ]

  pub written-Step :
      (path to : Parts) (content : String) (types : List LinkType) (w : World)
      → is_prefix path to ≡ true
      → exists w to ≡ false
      → has_file_above to w ≡ false
      → Step machine path w (record w { cache_types = types; files = put w.files to content })
  unfolding Intact IsTree
  written-Step path to content types w within gone free = record {
    shrinks = λ h c d there. there;
    frame = λ q out. get-put w.files to q content ∙ rw (not_same path to q within out) refl;
    intact = λ i. i;
    tree = λ t. put_tree w to content t gone free;
    memo = λ h e known. known;
  }

  pub try_links-Step :
      (path : Parts) (types : List LinkType) (content : String) (to : Parts) (w : World)
      → is_prefix path to ≡ true
      → has_file_above to w ≡ false
      → Step machine path w (try_links machine types content to w).1
  unfolding try_links
  try_links-Step path [] content to w within free = types_left path [] w
  try_links-Step path (type ∷ types) content to w within free =
      let written = record w { cache_types = type ∷ types; files = put w.files to content } in
      elim (Bool-cases (exists w to || not (machine.can_link type))) [
        | inl refused ↦ rw (refused) (try_links-Step path types content to w within free)
        | inr linked ↦
            let write =
              written-Step path to content (type ∷ types) w within
                (or_left (exists w to) (not (machine.can_link type)) linked) free in
            elim (Bool-cases (is_hardlink type && content == "")) [
              | inl empty ↦ rw (linked, empty) write
              | inr filled ↦ elim (Bool-cases (w.cache_type_confirmed || machine.is_link type)) [
                | inl fine ↦
                    rw (linked, filled, fine)
                      (Step-trans machine path w written _ write (confirmed path written))
                | inr wrong ↦
                    rw (linked, filled, wrong)
                      (Step-trans machine path w written _ write (
                        Step-trans machine path written (tree_remove to written) _
                          (tree_remove-Step machine path to written within)
                          (try_links-Step path types content to (tree_remove to written) within (
                            still_free (λ f. is_prefix f (path_parent to)) to content w.files
                              free))))
              ]
            ]
      ]

  pub link-Step :
      (path : Parts) (hash : String) (to : Parts) (w : World)
      → is_prefix path to ≡ true
      → Step machine path w (link machine hash to w).1
  unfolding link
  link-Step path hash to w within = elim (Option-cases (get w.cache hash)) [
    | inl missing ↦ rw (link, missing) (Step-refl machine path w)
    | inr (content, found) ↦
        let v = record w { dirs = path_parent to ∷ w.dirs } in
        elim (Bool-cases (has_file_above to w)) [
          | inl blocked ↦ rw (link, found, blocked) (Step-refl machine path w)
          | inr free ↦
              rw (link, found, free)
                (Step-trans machine path w v _ (made path (path_parent to) w)
                  (try_links-Step path w.cache_types content to v within free))
        ]
  ]
