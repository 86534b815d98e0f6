-- ===== src/Cache/Checkout/Files.antt =====
-- dvc/cache/base.py: paths, and the files of a workspace by their path.
use python_dvc.Base.{
  and_left, not, ◌&&◌, or_true, or_left, or_right, or_none, and_left, and_right, String, ◌≡◌, refl,
  sym, ap, ◌∙◌, Bool, true, false, some, List, [], ◌∷◌, ◌++◌, any, all, contains, is_some, ◌⊎◌, inl,
  inr, ◌==◌, ==_iff, string_eq, parts_eq, if◌then◌else◌, Bool-cases, arith,
}
use python_dvc.Base.Dict.{Dict, has, get, put, get-put, keys}
use python_dvc.Repo.Graph.{Parts, is_prefix}
use python_dvc.Repo.Graph.Overlap.{is_prefix_refl}
use python_dvc.Cache.Checkout.{files_below, files_besides}
use python_dvc.Cache.Checkout.Run.{path_parent, redundant}

pub not_same :
    (path p q : Parts) → is_prefix path p ≡ true → is_prefix path q ≡ false → (q == p) ≡ false
not_same path p q within out = elim (Bool-cases (q == p)) [
  | inl e ↦ cc (ap (is_prefix path) ((==_iff q p).0 e), within, out)
  | inr e ↦ e
]

pub is_prefix-++ : (p rel : Parts) → is_prefix p (p ++ rel) ≡ true
is_prefix-++ [] rel = refl
is_prefix-++ (a ∷ p) rel = ground (arith, is_prefix-++ p rel, ==_iff a a)

pub all-files_below :
    (path : Parts) (files : Dict Parts String)
    → all (is_prefix path) (keys (files_below path files)) ≡ true
all-files_below path [] = refl
all-files_below path ((f, c) ∷ files) = elim (Bool-cases (is_prefix path f && not (f == path))) [
  | inl below ↦
      rw (below, and_left (is_prefix path f) (not (f == path)) below) (all-files_below path files)
  | inr beside ↦ rw (beside) (all-files_below path files)
]

pub all-redundant :
    (path : Parts) (needed files : List Parts)
    → all (is_prefix path) files ≡ true
    → all (is_prefix path) (redundant needed files) ≡ true
all-redundant path needed [] below = refl
all-redundant path needed (f ∷ files) below = elim (Bool-cases (contains needed f)) [
  | inl kept ↦ rw (kept) (all-redundant path needed files (ground arith))
  | inr extra ↦
      let head : is_prefix path f ≡ true = ground arith in
      rw (extra, head) (all-redundant path needed files (ground arith))
]

pub other_get :
    (files : Dict Parts String) (to : Parts) (content : String) (q : Parts)
    → (q == to) ≡ false
    → (if q == to then some content else get files q) ≡ get files q
other_get files to content q e = rw (e) refl

pub has-put :
    (files : Dict Parts String) (to : Parts) (content : String) (q : Parts)
    → has (put files to content) q ≡ true
    → (q ≡ to) ⊎ (has files q ≡ true)
has-put files to content q there = elim (Bool-cases (q == to)) [
  | inl e ↦ inl ((==_iff q to).0 e)
  | inr e ↦
      inr (sym (ap is_some (get-put files to q content ∙ other_get files to content q e)) ∙ there)
]

-- A file is one of the listed paths.
pub has_listed :
    (p : Parts → Bool) (q : Parts) (files : Dict Parts String)
    → has files q ≡ true
    → p q ≡ true
    → any p (keys files) ≡ true
unfolding get
has_listed p q [] there holds = cc
has_listed p q ((f, c) ∷ files) there holds = elim (Bool-cases (q == f)) [
  | inl e ↦ rw (sym (ap p ((==_iff q f).0 e)) ∙ holds) refl
  | inr e ↦ rw (has_listed p q files (sym (ap is_some (rw (e) refl)) ∙ there) holds) (or_true (p f))
]

-- What is above a path is the path itself or above its parent.
pub is_prefix-cases :
    (f to : Parts) → is_prefix f to ≡ true → (f ≡ to) ⊎ (is_prefix f (path_parent to) ≡ true)
is_prefix-cases [] to h = inr refl
is_prefix-cases (a ∷ f) [] h = cc
is_prefix-cases (a ∷ []) (b ∷ []) h =
    inl (ap (λ x. x ∷ []) ((==_iff a b).0 (and_left (a == b) true h)))
is_prefix-cases (a ∷ c ∷ f) (b ∷ []) h = cc (and_right (a == b) false h)
is_prefix-cases (a ∷ f) (b ∷ d ∷ to) h =
    let same = and_left (a == b) (is_prefix f (d ∷ to)) h in
    elim (is_prefix-cases f (d ∷ to) (and_right (a == b) (is_prefix f (d ∷ to)) h)) [
      | inl e ↦ inl (cc ((==_iff a b).0 same, e))
      | inr above ↦ inr (rw (same, above) refl)
    ]

pub any-files_besides :
    (p : Parts → Bool) (to : Parts) (files : Dict Parts String)
    → any p (keys files) ≡ false
    → any p (keys (files_besides to files)) ≡ false
unfolding files_besides
any-files_besides p to [] free = refl
any-files_besides p to ((f, c) ∷ files) free =
    let rest = any-files_besides p to files (or_right (p f) (any p (keys files)) free) in
    elim (Bool-cases (is_prefix to f)) [
      | inl below ↦ rw (below) rest
      | inr beside ↦ rw (beside) (or_none (p f) _ (or_left (p f) (any p (keys files)) free) rest)
    ]

-- A file that is written and removed leaves none behind.
pub still_free :
    (p : Parts → Bool) (to : Parts) (content : String) (files : Dict Parts String)
    → any p (keys files) ≡ false
    → any p (keys (files_besides to (put files to content))) ≡ false
unfolding files_besides put
still_free p to content [] free = rw (is_prefix_refl to) refl
still_free p to content ((f, c) ∷ files) free =
    let first = or_left (p f) (any p (keys files)) free in
    let rest = or_right (p f) (any p (keys files)) free in
    elim (Bool-cases (to == f)) [
      | inl e ↦
          rw (e, ap (is_prefix to) (sym ((==_iff to f).0 e)) ∙ is_prefix_refl to)
            (any-files_besides p to files rest)
      | inr e ↦ elim (Bool-cases (is_prefix to f)) [
        | inl below ↦ rw (e, below) (still_free p to content files rest)
        | inr beside ↦ rw (e, beside) (or_none (p f) _ first (still_free p to content files rest))
      ]
    ]
