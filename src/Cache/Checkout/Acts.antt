-- ===== src/Cache/Checkout/Acts.antt =====
-- dvc/cache/base.py: the acts of a checkout, each of which touches only what is below its path.
use python_dvc.Base.{
  String, ◌≡◌, refl, sym, ap, ◌∙◌, Bool, true, false, not, ◌&&◌, ◌||◌, Option, none, some, is_some,
  [], ◌∷◌, ◌++◌, ◌⊎◌, inl, inr, ◌==◌, ==_iff, string_eq, parts_eq, if◌then◌else◌, Bool-cases,
  Option-cases, arith,
}
use python_dvc.Base.Dict.{Dict, get, has, put, get-put}
use python_dvc.Base.Result.{Result, ok, err}
use python_dvc.Repo.Graph.{Parts, is_prefix}
use python_dvc.Cache.Listing.{is_dir_hash}
use python_dvc.Cache.Checkout.{
  DirInfo, World, Machine, CheckoutFailure, confirm_remove, Act, bind, exists, files_besides,
  files_below, tree_remove, changed_cache_file, get_hash, load_dir_cache, get_dir_cache,
  is_filtered, any_changed, changed_dir_cache, changed_cache, changed, already_cached, safe_remove,
}
use python_dvc.Cache.Checkout.Step.{
  Intact, IsTree, Step, Step-refl, Step-trans, changed_cache_file-Step, save_dir_info-Step,
}

pub is_prefix_trans :
    (p q r : Parts) → is_prefix p q ≡ true → is_prefix q r ≡ true → is_prefix p r ≡ true
is_prefix_trans [] q r h k = refl
is_prefix_trans (a ∷ p) [] r h k = cc
is_prefix_trans (a ∷ p) (b ∷ q) [] h k = cc
is_prefix_trans (a ∷ p) (b ∷ q) (c ∷ r) h k =
    ground (arith, is_prefix_trans p q r, ==_iff a b, ==_iff b c, ==_iff a c)

pub get-files_besides :
    (p q : Parts) (files : Dict Parts String)
    → get (files_besides p files) q ≡ (if is_prefix p q then none else get files q)
unfolding files_besides get
get-files_besides p q [] = elim (Bool-cases (is_prefix p q)) [
  | inl below ↦ rw (below) refl
  | inr beside ↦ rw (beside) refl
]
get-files_besides p q ((f, c) ∷ files) = elim (Bool-cases (is_prefix p f)) [
  | inl below ↦ elim (Bool-cases (q == f)) [
    | inl e ↦
        rw (below, get-files_besides p q files, e, ap (is_prefix p) ((==_iff q f).0 e) ∙ below) refl
    | inr e ↦ rw (below, e) (get-files_besides p q files)
  ]
  | inr beside ↦ elim (Bool-cases (q == f)) [
    | inl e ↦ rw (beside, e, ap (is_prefix p) ((==_iff q f).0 e) ∙ beside) refl
    | inr e ↦ rw (beside, e) (get-files_besides p q files)
  ]
]

pub files_besides-below :
    (p q : Parts) (files : Dict Parts String)
    → is_prefix p q ≡ true
    → get (files_besides p files) q ≡ none
files_besides-below p q files below = get-files_besides p q files ∙ rw (below) refl

pub files_besides-beside :
    (p q : Parts) (files : Dict Parts String)
    → is_prefix p q ≡ false
    → get (files_besides p files) q ≡ get files q
files_besides-beside p q files beside = get-files_besides p q files ∙ rw (beside) refl

-- What is left of the files was there.
pub has-files_besides :
    (p q : Parts) (files : Dict Parts String)
    → has (files_besides p files) q ≡ true
    → has files q ≡ true
has-files_besides p q files left = elim (Bool-cases (is_prefix p q)) [
  | inl below ↦ cc (files_besides-below p q files below, left)
  | inr beside ↦ sym (ap is_some (files_besides-beside p q files beside)) ∙ left
]

-- What is not below `path` is neither below `p` nor `p` itself, where `p` is.
outside :
    (path p q : Parts) → is_prefix path p ≡ true → is_prefix path q ≡ false → is_prefix p q ≡ false
outside path p q within out = elim (Bool-cases (is_prefix p q)) [
  | inl e ↦ cc (is_prefix_trans path p q within e, out)
  | inr e ↦ e
]

module _ (machine : Machine) where
  pub tree_remove-Step :
      (path p : Parts) (w : World) → is_prefix path p ≡ true → Step machine path w (tree_remove p w)
  unfolding Intact IsTree
  tree_remove-Step path p w within = record {
    shrinks = λ h c d there. there;
    frame = λ q out. files_besides-beside p q w.files (outside path p q within out);
    intact = λ i. i;
    tree = λ t f q there here below.
        t f q (has-files_besides p f w.files there) (has-files_besides p q w.files here) below;
    memo = λ h e known. known;
  }

  pub bind-Step :
      {A B : Type 0} (path : Parts) (w : World) (r : Result CheckoutFailure A × World)
      (k : A → Act B)
      → Step machine path w r.1
      → ((a : A) (v : World) → Step machine path v (k a v).1)
      → Step machine path w (bind r k).1
  bind-Step path w (err e, v) k first second = first
  bind-Step path w (ok a, v) k first second =
      Step-trans machine path w v (k a v).1 first (second a v)

  pub bind_ok-Step :
      {A B : Type 0} (path : Parts) (w : World) (r : Result CheckoutFailure A × World) (f : A → B)
      → Step machine path w r.1
      → Step machine path w (bind r (λ a v. (ok (f a), v))).1
  bind_ok-Step path w r f first =
      bind-Step path w r (λ a v. (ok (f a), v)) first (λ a v. Step-refl machine path v)

  pub get_hash-Step : (path p : Parts) (w : World) → Step machine path w (get_hash machine p w).1
  unfolding get_hash
  get_hash-Step path p w = elim (Option-cases (get w.files p)) [
    | inr (c, found) ↦ rw (get_hash, found) (Step-refl machine path w)
    | inl missing ↦ elim (Bool-cases (exists w p)) [
      | inl there ↦
          rw (get_hash, missing, there)
            (save_dir_info-Step machine path (machine.listing_of (files_below p w.files)) w)
      | inr gone ↦ rw (get_hash, missing, gone) (Step-refl machine path w)
    ]
  ]

  load_keeps :
      (w : World) (hash h : String) (entries : DirInfo)
      → get w.dir_infos hash ≡ none
      → get w.dir_infos h ≡ some entries
      → get (put w.dir_infos hash (load_dir_cache machine w hash)) h ≡ some entries
  load_keeps w hash h entries missing known =
      get-put w.dir_infos hash h (load_dir_cache machine w hash) ∙ (elim (Bool-cases (h == hash)) [
        | inl e ↦ cc (ap (get w.dir_infos) ((==_iff h hash).0 e), missing, known)
        | inr e ↦ rw (e) known
      ])

  pub get_dir_cache-Step :
      (path : Parts) (hash : String) (w : World)
      → Step machine path w (get_dir_cache machine hash w).1
  unfolding get_dir_cache Intact IsTree
  get_dir_cache-Step path hash w = elim (Option-cases (get w.dir_infos hash)) [
    | inr (c, found) ↦ rw (get_dir_cache, found) (Step-refl machine path w)
    | inl missing ↦
        rw (get_dir_cache, missing)
          (record {
            shrinks = λ h c d there. there;
            frame = λ q out. refl;
            intact = λ i. i;
            tree = λ t. t;
            memo = λ h e known. load_keeps w hash h e missing known;
          })
  ]

  pub any_changed-Step :
      (path p : Parts) (filter : Option Parts) (entries : DirInfo) (w : World)
      → Step machine path w (any_changed machine p filter entries w).1
  unfolding any_changed
  any_changed-Step path p filter [] w = Step-refl machine path w
  any_changed-Step path p filter ((rel, hash) ∷ entries) w =
      let w' = (changed_cache_file machine hash w).1 in
      let first = changed_cache_file-Step machine path hash w in
      elim (Bool-cases (is_filtered filter (p ++ rel))) [
        | inl skipped ↦ rw (skipped) (any_changed-Step path p filter entries w)
        | inr kept ↦ elim (Bool-cases (changed_cache_file machine hash w).0) [
          | inl bad ↦ rw (kept, bad) first
          | inr good ↦
              rw (kept, good)
                (Step-trans machine path w w' _ first (any_changed-Step path p filter entries w'))
        ]
      ]

  pub changed_cache-Step :
      (path : Parts) (hash : String) (p : Parts) (filter : Option Parts) (w : World)
      → Step machine path w (changed_cache machine hash p filter w).1
  unfolding changed_cache changed_dir_cache
  changed_cache-Step path hash p filter w =
      let w' = (changed_cache_file machine hash w).1 in
      let w'' = (get_dir_cache machine hash w').1 in
      let entries = (get_dir_cache machine hash w').0 in
      let first = changed_cache_file-Step machine path hash w in
      elim (Bool-cases (is_dir_hash hash)) [
        | inr file ↦ rw (file) first
        | inl dir ↦ elim (Bool-cases (changed_cache_file machine hash w).0) [
          | inl bad ↦ rw (dir, bad) first
          | inr good ↦
              rw (dir, good)
                (Step-trans machine path w w' _ first (
                  Step-trans machine path w' w'' _ (get_dir_cache-Step path hash w')
                    (any_changed-Step path p filter entries w'')))
        ]
      ]

  pub changed-Step :
      (path p : Parts) (hash : String) (w : World)
      → Step machine path w (changed machine p hash w).1
  unfolding changed
  changed-Step path p hash w =
      let w' = (changed_cache machine hash p none w).1 in
      let first = changed_cache-Step path hash p none w in
      elim (Bool-cases (not (exists w p) || hash == "")) [
        | inl early ↦ rw (early) (Step-refl machine path w)
        | inr late ↦ elim (Bool-cases (changed_cache machine hash p none w).0) [
          | inl bad ↦ rw (late, bad) first
          | inr good ↦
              rw (late, good) (Step-trans machine path w w' _ first (get_hash-Step path p w'))
        ]
      ]

  pub already_cached-Step :
      (path p : Parts) (w : World) → Step machine path w (already_cached machine p w).1
  unfolding already_cached
  already_cached-Step path p w =
      let current = (get_hash machine p w).0 in
      let w' = (get_hash machine p w).1 in
      let first = get_hash-Step path p w in
      elim (Bool-cases (current == "")) [
        | inl nothing ↦ rw (nothing) first
        | inr hashed ↦
            rw (hashed)
              (Step-trans machine path w w' _ first (changed_cache-Step path current p none w'))
      ]

  -- An act that removes ends where nothing is, or has removed what is there, or was refused.
  pub safe_remove-cases :
      (p : Parts) (force : Bool) (w : World)
      → ((safe_remove machine p force w ≡ (ok tt, w)) × (exists w p ≡ false))
        ⊎ ((safe_remove machine p force w ≡ (ok tt, tree_remove p w))
            ⊎ ((safe_remove machine p force w
                  ≡ (ok tt, tree_remove p (already_cached machine p w).1))
                ⊎ (safe_remove machine p force w
                    ≡ (err (confirm_remove p), (already_cached machine p w).1))))
  unfolding safe_remove
  safe_remove-cases p force w = elim (Bool-cases (exists w p)) [
    | inr gone ↦ inl (rw (gone) refl, gone)
    | inl there ↦ inr (elim (Bool-cases force) [
      | inl forced ↦ inl (rw (there, forced) refl)
      | inr asked ↦
          inr (elim (Bool-cases (not (already_cached machine p w).0 && not (machine.confirm p))) [
            | inl refused ↦ inr (rw (there, asked, refused) refl)
            | inr agreed ↦ inl (rw (there, asked, agreed) refl)
          ])
    ])
  ]

  pub safe_remove-Step :
      (path p : Parts) (force : Bool) (w : World)
      → is_prefix path p ≡ true
      → Step machine path w (safe_remove machine p force w).1
  safe_remove-Step path p force w within =
      let checked = already_cached-Step path p w in
      let v = (already_cached machine p w).1 in
      elim (safe_remove-cases p force w) [
        | inl (e, gone) ↦ rw (e) (Step-refl machine path w)
        | inr (inl e) ↦ rw (e) (tree_remove-Step path p w within)
        | inr (inr (inl e)) ↦
            rw (e) (Step-trans machine path w v _ checked (tree_remove-Step path p v within))
        | inr (inr (inr e)) ↦ rw (e) checked
      ]
