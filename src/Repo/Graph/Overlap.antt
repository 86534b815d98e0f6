-- ===== src/Repo/Graph/Overlap.antt =====
-- dvc/repo/trie.py: `build_outs_trie` fails exactly where two outputs overlap.
use python_dvc.Base.{
  any_or, any_same, ◌≡◌, refl, sym, ap, ◌∙◌, Bool, true, not, ◌&&◌, ◌||◌, Option, none, some, List,
  [], ◌∷◌, any, is_some, ◌==◌, ==_iff, parts_eq, string_eq, Bool-cases, inl, inr, arith,
}
use python_dvc.Base.Result.{is_ok, Result, ok, err, ◌>>=◌, ok_injective}
use python_dvc.Repo.Graph.{
  Parts, Out, StageNode, GraphFailure, is_prefix, Trie, IsTrie, first, pair_of, overlapping_pair,
  add_out, add_outs, all_outs, build_outs_trie,
}

-- Whether one of two paths is inside the other, or they are the same.
abbrev pub clash : Out → Out → Bool
clash o p = is_prefix o.key p.key || is_prefix p.key o.key

-- No output of the list clashes with one behind it or with one of those before.
abbrev pub apart_from : List Out → List Out → Bool
apart_from before [] = true
apart_from before (o ∷ os) = not (any (clash o) before) && apart_from (o ∷ before) os

pub is_prefix_refl : (k : Parts) → is_prefix k k ≡ true
is_prefix_refl [] = refl
is_prefix_refl (s ∷ k) = ground (arith, is_prefix_refl k, ==_iff s s)

any_implied :
    {A : Type 0} (p q : A → Bool) (xs : List A)
    → ((x : A) → p x ≡ true → q x ≡ true)
    → any p xs ≡ true
    → any q xs ≡ true
any_implied p q [] h m = cc
any_implied p q (x ∷ xs) h m = ground (arith, h x, any_implied p q xs h)

is_some-first : (os : List Out) → is_some (first os) ≡ any (λ o. true) os
is_some-first [] = refl
is_some-first (o ∷ os) = refl

pair_right : (o : Out) (q : Option Out) → is_some (pair_of (some o) q) ≡ is_some q
pair_right o none = refl
pair_right o (some p) = refl

pair_left : (o : Out) (q : Option Out) → is_some (pair_of q (some o)) ≡ is_some q
pair_left o none = refl
pair_left o (some p) = refl

-- The two tests of a round are the clash.
split_clash :
    (o p : Out)
    → ((p.key == o.key)
        || ((is_prefix o.key p.key && not (p.key == o.key)) || is_prefix p.key o.key))
      ≡ clash o p
split_clash o p = elim (Bool-cases (p.key == o.key)) [
  | inl same ↦ let e = (==_iff p.key o.key).0 same in rw (same, e) (rw (is_prefix_refl o.key) refl)
  | inr other ↦ rw other (ground arith)
]

is_ok_after :
    {T : Type 0} (r : Result GraphFailure T) (k : T → Result GraphFailure T) {b c : Bool}
    → is_ok r ≡ b
    → ((t : T) → r ≡ ok t → is_ok (k t) ≡ c)
    → is_ok (r >>= k) ≡ (b && c)
is_ok_after (err x) k e h = rw (← e) refl
is_ok_after (ok t) k e h = rw (← e) (h t refl)

module _ {T : Type 0} (trie : Trie T) (items : T → List Out) (law : IsTrie trie items) where
  clash_of_round :
      (t : T) (o : Out)
      → (is_some (trie.get t o.key)
          || (trie.has_subtrie t o.key || is_some (trie.shortest_prefix t o.key)))
        ≡ any (clash o) (items t)
  clash_of_round t o =
      let at = λ (p : Out). p.key == o.key in
      let below = λ (p : Out). is_prefix o.key p.key && not (p.key == o.key) in
      let above = λ (p : Out). is_prefix p.key o.key in
      rw (law.get t o.key, law.has_subtrie t o.key, law.shortest_prefix t o.key)
        (ap (λ b. any at (items t) || b) (sym (any_or below above (items t)))
          ∙ sym (any_or at (λ p. below p || above p) (items t))
          ∙ any_same _ (clash o) (items t) (split_clash o))

  -- Where an output stands below the key, `values` has a first one.
  has_first :
      (t : T) (k : Parts) → trie.has_subtrie t k ≡ true → is_some (first (trie.values t k)) ≡ true
  has_first t k h =
      is_some-first (trie.values t k)
      ∙ law.values t k (λ o. true)
      ∙ any_implied _ _ (items t) (λ o m. ground arith) (sym (law.has_subtrie t k) ∙ h)

  pair_is_some :
      (t : T) (o : Out)
      → is_some (overlapping_pair trie t o)
        ≡ (trie.has_subtrie t o.key || is_some (trie.shortest_prefix t o.key))
  unfolding overlapping_pair
  pair_is_some t o = elim (Bool-cases (trie.has_subtrie t o.key)) [
    | inl below ↦ rw below (pair_right o (first (trie.values t o.key)) ∙ has_first t o.key below)
    | inr none_below ↦ rw none_below (pair_left o (trie.shortest_prefix t o.key))
  ]

  add_out-is_ok : (t : T) (o : Out) → is_ok (add_out trie t o) ≡ not (any (clash o) (items t))
  unfolding add_out
  add_out-is_ok t o =
      go (trie.get t o.key) (overlapping_pair trie t o) refl refl (clash_of_round t o)
        (pair_is_some t o)
    where
      go :
          (g : Option Out) (p : Option (Out × Out))
          → trie.get t o.key ≡ g
          → overlapping_pair trie t o ≡ p
          → (is_some (trie.get t o.key)
              || (trie.has_subtrie t o.key || is_some (trie.shortest_prefix t o.key)))
            ≡ any (clash o) (items t)
          → is_some (overlapping_pair trie t o)
            ≡ (trie.has_subtrie t o.key || is_some (trie.shortest_prefix t o.key))
          → is_ok (add_out trie t o) ≡ not (any (clash o) (items t))
      go (some old) p eg ep c d = rw (← c, eg) (rw (add_out, eg) refl)
      go none none eg ep c d = rw (← c, ← d, eg, ep) (rw (add_out, eg, ep) refl)
      go none (some (a, b)) eg ep c d = rw (← c, ← d, eg, ep) (rw (add_out, eg, ep) refl)

  -- A round that does not fail has inserted the output.
  pub add_out-inserts :
      (t t' : T) (o : Out)
      → add_out trie t o ≡ ok t'
      → (trie.get t o.key ≡ none) × (trie.insert t o.key o ≡ t')
  unfolding add_out
  add_out-inserts t t' o e = go (trie.get t o.key) (overlapping_pair trie t o) refl refl e
    where
      go :
          (g : Option Out) (p : Option (Out × Out))
          → trie.get t o.key ≡ g
          → overlapping_pair trie t o ≡ p
          → add_out trie t o ≡ ok t'
          → (trie.get t o.key ≡ none) × (trie.insert t o.key o ≡ t')
      go (some old) p eg ep e = let e' = rw (add_out, eg) at e in cc
      go none none eg ep e = let e' = rw (add_out, eg, ep) at e in (eg, ok_injective e')
      go none (some (a, b)) eg ep e = let e' = rw (add_out, eg, ep) at e in cc

  add_outs-is_ok :
      (os : List Out) (t : T) (before : List Out)
      → ((p : Out → Bool) → any p (items t) ≡ any p before)
      → is_ok (add_outs trie t os) ≡ apart_from before os
  unfolding add_outs
  add_outs-is_ok [] t before same = refl
  add_outs-is_ok (o ∷ os) t before same =
      is_ok_after (add_out trie t o) (λ t'. add_outs trie t' os)
        (add_out-is_ok t o ∙ ap not (same (clash o)))
        (λ t' e. add_outs-is_ok os t' (o ∷ before) (λ p.
          let added = add_out-inserts t t' o e in
          ap (λ u. any p (items u)) (sym added.1)
          ∙ law.insert t o p added.0
          ∙ ap (λ b. p o || b) (same p)))

  -- With a lawful trie, the trie of the outputs is built, without an exception, exactly where no output
  -- clashes with another one.
  pub build_outs_trie-is_ok :
      (stages : List StageNode)
      → is_ok (build_outs_trie trie stages) ≡ apart_from [] (all_outs stages)
  unfolding build_outs_trie
  build_outs_trie-is_ok stages =
      add_outs-is_ok (all_outs stages) trie.empty [] (λ p. ap (any p) law.empty)
