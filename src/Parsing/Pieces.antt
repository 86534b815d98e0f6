-- ===== src/Parsing/Pieces.antt =====
-- dvc/parsing/interpolate.py: the matches and the characters between them are the text.
use Prim.Native.Char.{Char, code}
use Prim.Native.Nat.{◌≤◌, ◌<◌}
use Prim.Native.String.{[], ◌∷◌}
use text.Mathlib.TextLemmas.{nil-append, cons-append, append_assoc}
use python_dvc.Base.{
  ℕ, zero, suc, String, ◌<>◌, ◌≡◌, refl, sym, ap, subst, ◌⊎◌, ◌∙◌, Bool, true, false, not, ◌&&◌,
  Option, none, some, [], ◌∷◌, ◌==◌, nat_eq, if◌then◌else◌, Bool-cases, inl, inr, arith,
}
use python_dvc.Parsing.Interpolate.{
  Found, cons_inner, until_one, until_two, Match, match_of, first_of, match_at, char, expr, cut,
  size, template_of, whole_text,
}

-- What was found is the text.
abbrev IsFoundIn : String → Found → Type 0
IsFoundIn s f = (s ≡ f.inner <> (f.close <> f.rest)) × (size f.rest < size s)

some_injective : {A : Type 0} {a b : A} → ◌≡◌ {A = Option A} (some a) (some b) → a ≡ b
some_injective h = cc

IsFoundIn-cons_inner :
    (c : Char) (s : String) (o : Option Found) {f : Found}
    → ((g : Found) → o ≡ some g → IsFoundIn s g)
    → cons_inner c o ≡ some f
    → IsFoundIn (c ∷ s) f
unfolding size
IsFoundIn-cons_inner c s none h e = cc
IsFoundIn-cons_inner c s (some g) h e =
    let (same, smaller) = h g refl in
    subst (IsFoundIn (c ∷ s)) (some_injective e)
      (ap (λ t. c ∷ t) same ∙ sym (cons-append c g.inner (g.close <> g.rest)), omega arith)

three_cons : (b c d : Char) (s : String) → b ∷ (c ∷ (d ∷ s)) ≡ (b ∷ (c ∷ (d ∷ []))) <> s
three_cons b c d s = rw (cons-append, cons-append, cons-append, nil-append) refl

less : {m n : ℕ} → m < suc n → m < suc (suc n)
less h = omega arith

less_two : {m n : ℕ} → m < n → m < suc (suc n)
less_two h = omega arith

-- Closing brackets at once.
closed : (close s : String) → close <> s ≡ [] <> (close <> s)
closed close s = sym (nil-append (close <> s))

one_cons : (c : Char) (s : String) → c ∷ s ≡ (c ∷ []) <> s
one_cons c s = rw (cons-append, nil-append) refl

two_cons : (c d : Char) (s : String) → c ∷ (d ∷ s) ≡ (c ∷ (d ∷ [])) <> s
two_cons c d s = rw (cons-append, cons-append, nil-append) refl

until_one-IsFoundIn : (s : String) (f : Found) → until_one s ≡ some f → IsFoundIn s f
unfolding until_one size
until_one-IsFoundIn [] f e = cc
until_one-IsFoundIn (c ∷ s) f e = elim (Bool-cases (code c == b'}')) [
  | inl here ↦
      subst (IsFoundIn (c ∷ s)) (some_injective (rw here at e))
        (one_cons c s ∙ closed (c ∷ []) s, omega arith)
  | inr other ↦ elim (Bool-cases (code c == 10)) [
    | inl line ↦ let no = rw (other, line) at e in cc
    | inr more ↦
        IsFoundIn-cons_inner c s (until_one s) (until_one-IsFoundIn s) (rw (other, more) at e)
  ]
]

until_two-IsFoundIn : (s : String) (f : Found) → until_two s ≡ some f → IsFoundIn s f
unfolding until_two size
until_two-IsFoundIn [] f e = cc
until_two-IsFoundIn (c ∷ []) f e = cc
until_two-IsFoundIn (c ∷ (d ∷ s)) f e = elim (Bool-cases (code c == b'}' && code d == b'}')) [
  | inl here ↦
      subst (IsFoundIn (c ∷ (d ∷ s))) (some_injective (rw here at e))
        (two_cons c d s ∙ closed (c ∷ (d ∷ [])) s, omega arith)
  | inr other ↦ elim (Bool-cases (code c == 10)) [
    | inl line ↦ let no = rw (other, line) at e in cc
    | inr more ↦
        IsFoundIn-cons_inner c (d ∷ s) (until_two (d ∷ s)) (until_two-IsFoundIn (d ∷ s))
          (rw (other, more) at e)
  ]
]

-- A match and what stands behind it are the text.
abbrev IsMatchIn : String → Match × String → Type 0
IsMatchIn s m = (s ≡ m.0.whole <> m.1) × (size m.1 < size s)

match_of-IsMatchIn :
    (opening s : String) (o : Option Found) (m : Match × String)
    → ((f : Found) → o ≡ some f → IsFoundIn s f)
    → match_of opening o ≡ some m
    → (opening <> s ≡ m.0.whole <> m.1) × (size m.1 < size s)
match_of-IsMatchIn opening s none m h e = cc
match_of-IsMatchIn opening s (some f) m h e =
    let (same, smaller) = h f refl in
    subst (λ m. (opening <> s ≡ m.0.whole <> m.1) × (size m.1 < size s)) (some_injective e)
      (
        ap (λ t. opening <> t) same
            ∙ sym (
                append_assoc opening (f.inner <> f.close) f.rest
                ∙ ap (λ t. opening <> t) (append_assoc f.inner f.close f.rest)),
        smaller,
      )

first_of-cases :
    (o p : Option (Match × String)) (m : Match × String)
    → first_of o p ≡ some m
    → (o ≡ some m) ⊎ (p ≡ some m)
first_of-cases none p m e = inr e
first_of-cases (some n) p m e = inl e

match_at-IsMatchIn :
    (dollar : Char) (s : String) (m : Match × String)
    → match_at dollar s ≡ some m
    → (dollar ∷ s ≡ m.0.whole <> m.1) × (size m.1 < size s)
unfolding match_at size
match_at-IsMatchIn dollar [] m e = cc
match_at-IsMatchIn dollar (c ∷ []) m e = cc
match_at-IsMatchIn dollar (c ∷ (d ∷ s)) m e =
    let one_opening : String = dollar ∷ (c ∷ []) in
    let two_opening : String = dollar ∷ (c ∷ (d ∷ [])) in
    let one = match_of one_opening (until_one (d ∷ s)) in
    let two = match_of two_opening (until_two s) in
    let single = λ (h : one ≡ some m).
      match_of-IsMatchIn one_opening (d ∷ s) (until_one (d ∷ s)) m (until_one-IsFoundIn (d ∷ s))
        h in
    let by_one : one ≡ some m
        → (dollar ∷ (c ∷ (d ∷ s)) ≡ m.0.whole <> m.1) × (size m.1 < size (c ∷ (d ∷ s))) =
      λ h. (two_cons dollar c (d ∷ s) ∙ (single h).0, less (single h).1) in
    let double = λ (h : two ≡ some m).
      match_of-IsMatchIn two_opening s (until_two s) m (until_two-IsFoundIn s) h in
    let by_two : two ≡ some m
        → (dollar ∷ (c ∷ (d ∷ s)) ≡ m.0.whole <> m.1) × (size m.1 < size (c ∷ (d ∷ s))) =
      λ h. (three_cons dollar c d s ∙ (double h).0, less_two (double h).1) in
    elim (Bool-cases (code c == b'{')) [
      | inl open_one ↦ elim (Bool-cases (code d == b'{')) [
        | inl open_two ↦ elim (first_of-cases two one m (rw (open_one, open_two) at e)) [
          | inl h ↦ by_two h
          | inr h ↦ by_one h
        ]
        | inr other ↦ by_one (rw (open_one, other) at e)
      ]
      | inr other ↦ let no = rw other at e in cc
    ]

matched :
    (c : Char) (s : String) (b : Bool) (m : Match × String)
    → (if b then match_at c s else none) ≡ some m
    → (c ∷ s ≡ m.0.whole <> m.1) × (size m.1 < size s)
matched c s true m e = match_at-IsMatchIn c s m e
matched c s false m e = cc

-- The pieces of a text are the text, on enough fuel.
whole_text-cut :
    (fuel : ℕ) (behind : Bool) (s : String) → size s ≤ fuel → whole_text (cut fuel behind s) ≡ s
unfolding cut whole_text size
whole_text-cut zero behind [] enough = refl
whole_text-cut zero behind (c ∷ s) enough = absurd (omega arith)
whole_text-cut (suc fuel) behind [] enough = refl
whole_text-cut (suc fuel) behind (c ∷ s) enough =
    go (λ b t h. whole_text-cut fuel b t h)
      (if code c == b'$' && not behind then match_at c s else none) refl
  where
    go :
        ((b : Bool) (t : String) → size t ≤ fuel → whole_text (cut fuel b t) ≡ t)
        → (o : Option (Match × String))
        → (if code c == b'$' && not behind then match_at c s else none) ≡ o
        → whole_text (elim o [
          | none ↦ char c ∷ cut fuel (code c == b'\\') s
          | some (m, rest) ↦ expr m ∷ cut fuel false rest
        ])
          ≡ c ∷ s
    go rec none e = ap (λ t. c ∷ t) (rec (code c == b'\\') s (omega arith))
    go rec (some (m, rest)) e =
        let (same, smaller) = matched c s (code c == b'$' && not behind) (m, rest) e in
        rw (rec false rest (omega arith)) (sym same)

-- The matches of a template, with the characters between them, are its text: nothing is lost or doubled.
pub whole_text-template_of : (s : String) → whole_text (template_of s) ≡ s
unfolding template_of
whole_text-template_of s = whole_text-cut (size s) false s (omega arith)
