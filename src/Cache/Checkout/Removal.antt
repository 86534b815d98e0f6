-- ===== src/Cache/Checkout/Removal.antt =====
-- dvc/cache/base.py: `_remove_redundant_files` removes the files that no entry needs, and no other.
use python_dvc.Base.{
  arith, not, ◌&&◌, or_true, or_left, or_right, or_none, String, ◌≡◌, refl, sym, ap, ◌∙◌, Bool,
  true, false, ◌||◌, is_some, List, [], ◌∷◌, ◌++◌, any, contains, inl, inr, ◌==◌, ==_iff, string_eq,
  parts_eq, Bool-cases,
}
use python_dvc.Base.Dict.{Dict, has, get, keys}
use python_dvc.Base.Result.{ok}
use python_dvc.Repo.Graph.{Parts, is_prefix}
use python_dvc.Repo.Graph.Overlap.{is_prefix_refl}
use python_dvc.Cache.Checkout.{
  World, Machine, files_besides, files_below, already_cached, safe_remove,
}
use python_dvc.Cache.Checkout.Run.{redundant, remove_all}
use python_dvc.Cache.Checkout.Acts.{
  already_cached-Step, safe_remove-cases, safe_remove-Step, has-files_besides, files_besides-below,
}
use python_dvc.Cache.Checkout.Files.{has_listed}
use python_dvc.Cache.Checkout.Delivery.{bind-eq-ok}
use python_dvc.Cache.Checkout.Entries.{bind-keeps}

longer : (q : Parts) (s : String) → is_prefix (q ++ s ∷ []) q ≡ false
longer [] s = refl
longer (a ∷ q) s = rw ((==_iff a a).1 refl, longer q s) refl

pub contains-redundant :
    (needed files : List Parts) (q : Parts)
    → contains files q ≡ true
    → contains (redundant needed files) q ≡ false
    → contains needed q ≡ true
contains-redundant needed [] q there gone = cc
contains-redundant needed (f ∷ files) q there gone = elim (Bool-cases (contains needed f)) [
  | inl kept ↦ elim (Bool-cases (q == f)) [
    | inl e ↦ ap (contains needed) ((==_iff q f).0 e) ∙ kept
    | inr e ↦
        contains-redundant needed files q (sym (rw (e) refl) ∙ there) (sym (rw (kept) refl) ∙ gone)
  ]
  | inr extra ↦
      let out : ((q == f) || contains (redundant needed files) q) ≡ false =
        sym (rw (extra) refl) ∙ gone in
      contains-redundant needed files q (sym (rw (or_left (q == f) _ out) refl) ∙ there)
        (or_right (q == f) _ out)
]

strictly : (a b : Bool) → a ≡ true → b ≡ false → (a && not b) ≡ true
strictly a b h k = ground arith

pub contains-files_below :
    (path q : Parts) (files : Dict Parts String)
    → has files q ≡ true
    → is_prefix path q ≡ true
    → (q == path) ≡ false
    → contains (keys (files_below path files)) q ≡ true
unfolding get
contains-files_below path q [] there below other = cc
contains-files_below path q ((f, c) ∷ files) there below other = elim (Bool-cases (q == f)) [
  | inl e ↦
      rw
        (
          sym (ap (λ g. is_prefix path g && not (g == path)) ((==_iff q f).0 e))
              ∙ strictly (is_prefix path q) (q == path) below other,
          e,
        )
        refl
  | inr e ↦
      let rest =
        contains-files_below path q files (sym (ap is_some (rw (e) refl)) ∙ there) below other in
      elim (Bool-cases (is_prefix path f && not (f == path))) [
        | inl also ↦ rw (also, e) rest
        | inr beside ↦ rw (beside) rest
      ]
]

pub files_below-has :
    (path q : Parts) (files : Dict Parts String)
    → contains (keys (files_below path files)) q ≡ true
    → has files q ≡ true
unfolding get
files_below-has path q [] there = cc
files_below-has path q ((f, c) ∷ files) there = elim (Bool-cases (q == f)) [
  | inl e ↦ rw (e) refl
  | inr e ↦ elim (Bool-cases (is_prefix path f && not (f == path))) [
    | inl also ↦ rw (e) (files_below-has path q files (sym (rw (also, e) refl) ∙ there))
    | inr beside ↦ rw (e) (files_below-has path q files (sym (rw (beside) refl) ∙ there))
  ]
]

-- No redundant file is above one that is needed.
pub any-redundant :
    (needed files : List Parts) (q : Parts)
    → contains needed q ≡ true
    → ((f : Parts) → contains files f ≡ true → is_prefix f q ≡ true → f ≡ q)
    → any (λ f. is_prefix f q) (redundant needed files) ≡ false
any-redundant needed [] q there tree = refl
any-redundant needed (f ∷ files) q there tree =
    let rest = any-redundant needed files q there (λ g i. tree g (rw (i) (or_true (g == f)))) in
    elim (Bool-cases (contains needed f)) [
      | inl kept ↦ rw (kept) rest
      | inr extra ↦ elim (Bool-cases (is_prefix f q)) [
        | inl above ↦
            cc (ap (contains needed) (tree f (rw ((==_iff f f).1 refl) refl) above), extra, there)
        | inr beside ↦ rw (extra, beside) rest
      ]
    ]

not_removed :
    (f q : Parts) (files : Dict Parts String)
    → has (files_besides f files) q ≡ true
    → (q == f) ≡ false
not_removed f q files left = elim (Bool-cases (q == f)) [
  | inl is ↦ cc (
    files_besides-below f q files (ap (is_prefix f) ((==_iff q f).0 is) ∙ is_prefix_refl f),
    left,
  )
  | inr other ↦ other
]

module _ (machine : Machine) where
  checked_only :
      (p q : Parts) (w : World) → get (already_cached machine p w).1.files q ≡ get w.files q
  checked_only p q w = (already_cached-Step machine (q ++ "x" ∷ []) p w).frame q (longer q "x")

  -- A file that is there after a removal was there, and is another one.
  safe_remove-left :
      (f : Parts) (force : Bool) (w w' : World) (q : Parts)
      → safe_remove machine f force w ≡ (ok tt, w')
      → has w'.files q ≡ true
      → (has w.files q ≡ true) × ((q == f) ≡ false)
  safe_remove-left f force w w' q done left = elim (safe_remove-cases machine f force w) [
    | inl (e, gone) ↦
        let same : w ≡ w' = ap (λ x. x.1) (sym e ∙ done) in
        let here : has w.files q ≡ true = ap (λ u. has u.files q) same ∙ left in
        (
          here,
          elim (Bool-cases (q == f)) [
            | inl is ↦ cc (
              has_listed (is_prefix f) q w.files here
                  (ap (is_prefix f) ((==_iff q f).0 is) ∙ is_prefix_refl f),
              or_left _ (any (is_prefix f) w.dirs) gone,
            )
            | inr other ↦ other
          ],
        )
    | inr (inl e) ↦
        let here : has (files_besides f w.files) q ≡ true =
          ap (λ x. has x.1.files q) (sym e ∙ done) ∙ left in
        (has-files_besides f q w.files here, not_removed f q w.files here)
    | inr (inr (inl e)) ↦
        let v = (already_cached machine f w).1 in
        let here : has (files_besides f v.files) q ≡ true =
          ap (λ x. has x.1.files q) (sym e ∙ done) ∙ left in
        (
          ap is_some (sym (checked_only f q w)) ∙ has-files_besides f q v.files here,
          not_removed f q v.files here,
        )
    | inr (inr (inr e)) ↦ cc (e, done)
  ]

  pub remove_all-left :
      (files : List Parts) (force : Bool) (w w' : World) (q : Parts)
      → remove_all machine files force w ≡ (ok tt, w')
      → has w'.files q ≡ true
      → (has w.files q ≡ true) × (contains files q ≡ false)
  unfolding remove_all
  remove_all-left [] force w w' q done left = (ap (λ x. has x.1.files q) done ∙ left, refl)
  remove_all-left (f ∷ files) force w w' q done left =
      let (u, v, first, rest) =
        bind-eq-ok (safe_remove machine f force w) (λ u v. remove_all machine files force v) tt w'
          done in
      let (here, later) = remove_all-left files force v w' q rest left in
      let (before, other) = safe_remove-left f force w v q first here in
      (before, or_none (q == f) (contains files q) other later)

  pub remove_all-keeps :
      (files : List Parts) (force : Bool) (w : World) (q : Parts)
      → any (λ f. is_prefix f q) files ≡ false
      → get (remove_all machine files force w).1.files q ≡ get w.files q
  unfolding remove_all
  remove_all-keeps [] force w q free = refl
  remove_all-keeps (f ∷ files) force w q free =
      bind-keeps q w (safe_remove machine f force w) (λ u v. remove_all machine files force v)
        ((safe_remove-Step machine f f force w (is_prefix_refl f)).frame q
          (or_left (is_prefix f q) _ free))
        (λ u v. remove_all-keeps files force v q (or_right (is_prefix f q) _ free))
