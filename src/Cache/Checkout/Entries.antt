-- ===== src/Cache/Checkout/Entries.antt =====
-- dvc/cache/base.py: the entries of a directory that is checked out.
use python_dvc.Base.{
  String, ◌≡◌, refl, sym, ap, ◌∙◌, Bool, true, false, not, ◌&&◌, ◌||◌, none, [], ◌∷◌, ◌++◌, In,
  subst, inl, inr, ==_iff, string_eq, parts_eq, Bool-cases, arith,
}
use python_dvc.Base.Dict.{get}
use python_dvc.Base.Result.{Result, ok, err}
use python_dvc.Repo.Graph.{Parts, is_prefix}
use python_dvc.Repo.Graph.Overlap.{is_prefix_refl}
use python_dvc.Cache.Listing.{is_dir_hash}
use python_dvc.Cache.Checkout.{DirInfo, World, Machine, CheckoutFailure, Act, bind, changed}
use python_dvc.Cache.Checkout.Run.{checkout_entry, checkout_entries}
use python_dvc.Cache.Checkout.Step.{Step}
use python_dvc.Cache.Checkout.Acts.{changed-Step}
use python_dvc.Cache.Checkout.Frame.{checkout_entry-Step}
use python_dvc.Cache.Checkout.Delivery.{
  bind-eq-ok, Verified, Delivered, Verified-Step, relinked-Delivered,
}
use python_dvc.Cache.Checkout.Exact.{changed-Delivered}

-- No entry of a listing is below another or twice there.
abbrev pub clash : Parts → DirInfo → Bool
clash rel [] = false
clash rel ((other, h) ∷ entries) = (is_prefix other rel || is_prefix rel other) || clash rel entries

abbrev pub apart : DirInfo → Bool
apart [] = true
apart ((rel, h) ∷ entries) = not (clash rel entries) && apart entries

-- The entries are files.
unfoldable pub IsListing : DirInfo → Type 0
IsListing entries =
    (rel : Parts) (hash : String) → In (rel, hash) entries → is_dir_hash hash ≡ false

is_prefix-below : (p q r : Parts) → is_prefix (p ++ q) (p ++ r) ≡ is_prefix q r
is_prefix-below [] q r = refl
is_prefix-below (a ∷ p) q r = rw ((==_iff a a).1 refl, is_prefix-below p q r) refl

first_apart : (a b c : Bool) → ((a || b) || c) ≡ false → a ≡ false
first_apart a b c h = ground arith

rest_apart : (a b c : Bool) → ((a || b) || c) ≡ false → c ≡ false
rest_apart a b c h = ground arith

not_clash : (a b : Bool) → (not a && b) ≡ true → a ≡ false
not_clash a b h = ground arith

then_apart : (a b : Bool) → (not a && b) ≡ true → b ≡ true
then_apart a b h = ground arith

pub bind-keeps :
    {A B : Type 0} (q : Parts) (w : World) (r : Result CheckoutFailure A × World) (k : A → Act B)
    → get r.1.files q ≡ get w.files q
    → ((a : A) (v : World) → get (k a v).1.files q ≡ get v.files q)
    → get (bind r k).1.files q ≡ get w.files q
bind-keeps q w (err e, v) k first second = first
bind-keeps q w (ok a, v) k first second = second a v ∙ first

module _ (machine : Machine) where
  pub Delivered-keeps :
      (p : Parts) (hash : String) (w w' : World)
      → get w'.files p ≡ get w.files p
      → Delivered machine p hash w
      → Delivered machine p hash w'
  unfolding Delivered
  Delivered-keeps p hash w w' kept (content, found, same) = (content, kept ∙ found, same)

  unchanged_entry :
      (entry : Parts) (hash : String) (force relink : Bool) (w : World)
      → relink ≡ false
      → (changed machine entry hash w).0 ≡ false
      → (checkout_entry machine entry hash force relink w).1 ≡ (changed machine entry hash w).1
  unfolding checkout_entry
  unchanged_entry entry hash force relink w some_anew same = rw (some_anew, same) refl

  checkout_entry-Delivered :
      (entry : Parts) (hash : String) (force relink m : Bool) (w w' : World)
      → is_dir_hash hash ≡ false
      → Verified machine hash w
      → checkout_entry machine entry hash force relink w ≡ (ok m, w')
      → Delivered machine entry hash w'
  unfolding checkout_entry
  checkout_entry-Delivered entry hash force relink m w w' file verified done =
      let v = (changed machine entry hash w).1 in
      let later =
        Verified-Step machine entry hash w v file (changed-Step machine entry entry hash w)
          verified in
      elim (Bool-cases relink) [
        | inl all_anew ↦
            relinked-Delivered machine entry hash force true m w w' file verified
              (sym (rw (all_anew) refl) ∙ done)
        | inr some_anew ↦ elim (Bool-cases (changed machine entry hash w).0) [
          | inl differs ↦
              relinked-Delivered machine entry hash force true m v w' file later
                (sym (rw (some_anew, differs) refl) ∙ done)
          | inr same ↦
              subst (Delivered machine entry hash)
                (sym (unchanged_entry entry hash force relink w some_anew same)
                  ∙ ap (λ x. x.1) done)
                (changed-Delivered machine entry hash w file same)
        ]
      ]

  checkout_entries-keeps :
      (path rel : Parts) (force relink : Bool) (entries : DirInfo) (w : World)
      → clash rel entries ≡ false
      → get (checkout_entries machine path force relink none entries w).1.files (path ++ rel)
        ≡ get w.files (path ++ rel)
  unfolding checkout_entries
  checkout_entries-keeps path rel force relink [] w free = refl
  checkout_entries-keeps path rel force relink ((other, hash) ∷ entries) w free =
      let later = checkout_entries machine path force relink none entries in
      let step =
        checkout_entry-Step machine (path ++ other) (path ++ other) hash force relink w
          (is_prefix_refl (path ++ other)) in
      let a = is_prefix other rel in
      let b = is_prefix rel other in
      let c = clash rel entries in
      bind-keeps (path ++ rel) w (checkout_entry machine (path ++ other) hash force relink w)
        (λ m v. bind (later v) (λ n u. (ok (m || n), u)))
        (step.frame (path ++ rel) (is_prefix-below path other rel ∙ first_apart a b c free))
        (λ m v.
          bind-keeps (path ++ rel) v (later v) (λ n u. (ok (m || n), u))
            (checkout_entries-keeps path rel force relink entries v (rest_apart a b c free))
            (λ n u. refl))

  pub checkout_entries-Delivered :
      (path : Parts) (force relink m : Bool) (entries : DirInfo) (w w' : World)
      → apart entries ≡ true
      → IsListing entries
      → ((rel : Parts) (hash : String) → In (rel, hash) entries → Verified machine hash w)
      → checkout_entries machine path force relink none entries w ≡ (ok m, w')
      → (rel : Parts) (hash : String) → In (rel, hash) entries
      → Delivered machine (path ++ rel) hash w'
  unfolding checkout_entries IsListing
  checkout_entries-Delivered path force relink m [] w w' ap_es files verified done rel hash i =
      absurd i
  checkout_entries-Delivered path force relink m ((rel0, hash0) ∷ entries) w w' ap_es files verified
        done rel hash there =
      let entry = path ++ rel0 in
      let later = checkout_entries machine path force relink none entries in
      let (b, v, first, next) =
        bind-eq-ok (checkout_entry machine entry hash0 force relink w)
          (λ b v. bind (later v) (λ n u. (ok (b || n), u))) m w' done in
      let (n, u, rest, end) = bind-eq-ok (later v) (λ n u. (ok (b || n), u)) m w' next in
      let w_end : u ≡ w' = ap (λ x. x.1) end in
      let step : Step machine entry w v =
        subst (Step machine entry w) (ap (λ x. x.1) first)
          (checkout_entry-Step machine entry entry hash0 force relink w (is_prefix_refl entry)) in
      subst (Delivered machine (path ++ rel) hash) w_end (elim there [
        | inl e ↦
            let delivered =
              checkout_entry-Delivered entry hash0 force relink b w v (files rel0 hash0 (inl refl))
                (verified rel0 hash0 (inl refl)) first in
            let kept : get u.files entry ≡ get v.files entry =
              sym (ap (λ x. get x.1.files entry) rest)
              ∙ checkout_entries-keeps path rel0 force relink entries v
                  (not_clash (clash rel0 entries) (apart entries) ap_es) in
            subst (λ x. Delivered machine (path ++ x.0) x.1 u) (sym e)
              (Delivered-keeps entry hash0 v u kept delivered)
        | inr i ↦
            checkout_entries-Delivered path force relink n entries v u
              (then_apart (clash rel0 entries) (apart entries) ap_es) (λ r h j. files r h (inr j))
              (λ r h j.
                Verified-Step machine entry h w v (files r h (inr j)) step (verified r h (inr j)))
              rest rel hash i
      ])
