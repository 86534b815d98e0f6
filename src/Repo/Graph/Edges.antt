-- ===== src/Repo/Graph/Edges.antt =====
-- dvc/repo/graph.py: the edges of the graph that `build_graph` returns, and what it has checked.
use python_dvc.Base.{
  any_or, any_same, any-++, String, ◌≡◌, refl, sym, ap, ◌∙◌, Bool, true, false, not, ◌&&◌, ◌||◌,
  Option, none, some, List, [], ◌∷◌, any, is_some, ◌==◌, ==_iff, parts_eq, string_eq, Bool-cases,
  inl, inr, arith,
}
use python_dvc.Base.Result.{is_ok, Result, ok, err, >>=-eq-ok, ok_injective}
use python_dvc.Repo.Graph.{
  Parts, Out, StageNode, GraphFailure, cyclic_graph, is_prefix, Trie, IsTrie, add_out, add_outs,
  all_outs, build_outs_trie, edges_to, overlapping, dep_edges, graph_edges, check_stage_paths,
  build_graph,
}
use python_dvc.Repo.Graph.Overlap.{
  apart_from, is_prefix_refl, add_out-inserts, build_outs_trie-is_ok,
}

-- Whether the edges have one from the stage to the other.
abbrev pub has_edge : String → String → List (String × String) → Bool
has_edge from to = any (λ e. e.0 == from && e.1 == to)

-- Whether a dependency at the path needs the output: one of them is inside the other, or they are the same.
abbrev pub needs : Parts → Out → Bool
needs key o = is_prefix o.key key || is_prefix key o.key

abbrev pub dep_needs : List Out → String → Option Parts → Bool
dep_needs os to none = false
dep_needs os to (some key) = any (λ o. needs key o && o.stage == to) os

-- Whether the stage of one name has a dependency that needs an output of the stage of the other.
abbrev pub depends : List Out → String → String → List StageNode → Bool
depends os from to = any (λ s. s.name == from && any (dep_needs os to) s.deps)

-- Whether a stage file stands inside an output.
abbrev pub path_in_out : List Out → List StageNode → Bool
path_in_out os = any (λ s. any (λ o. is_prefix o.key s.path) os)

any_and :
    {A : Type 0} (b : Bool) (p : A → Bool) (xs : List A) → any (λ x. b && p x) xs ≡ (b && any p xs)
any_and b p [] = ground arith
any_and b p (x ∷ xs) = ground (arith, any_and b p xs)

or_false : (b : Bool) → (b || false) ≡ b
or_false b = ground arith

-- Where a test fails on all of a list, two tests may differ on what passes it.
any_same_where :
    {A : Type 0} (r p q : A → Bool) (xs : List A)
    → any r xs ≡ false
    → ((x : A) → r x ≡ false → p x ≡ q x)
    → any p xs ≡ any q xs
any_same_where r p q [] none_r h = refl
any_same_where r p q (x ∷ xs) none_r h =
    rw (h x (ground arith), any_same_where r p q xs (ground arith) h) refl

not_below :
    (key : Parts) (p : Out → Bool) (o : Out)
    → (is_prefix key o.key && not (o.key == key)) ≡ false
    → (is_prefix o.key key && p o) ≡ (needs key o && p o)
not_below key p o e = elim (Bool-cases (o.key == key)) [
  | inl same ↦ rw ((==_iff o.key key).0 same, is_prefix_refl key) refl
  | inr other ↦ ground arith
]

edges_to-has_edge :
    (name from to : String) (os : List Out)
    → has_edge from to (edges_to name os) ≡ (name == from && any (λ o. o.stage == to) os)
edges_to-has_edge name from to [] = ground arith
edges_to-has_edge name from to (o ∷ os) = ground (arith, edges_to-has_edge name from to os)

false_of_negation : {b : Bool} → not b ≡ true → b ≡ false
false_of_negation {b} h = ground arith

no_cycle :
    {A : Type 0} (cycle : Option (List String)) (edges edges' : A)
    → ◌≡◌ {A = Result GraphFailure A}
        (elim cycle [ some c ↦ err (cyclic_graph c) | none ↦ ok edges ])
        (ok edges')
    → (cycle ≡ none) × (edges ≡ edges')
no_cycle none edges edges' e = (refl, ok_injective e)
no_cycle (some c) edges edges' e = cc

module _ {T : Type 0} (trie : Trie T) (items : T → List Out) (law : IsTrie trie items) where
  overlapping-any :
      (t : T) (key : Parts) (p : Out → Bool)
      → any p (overlapping trie t key) ≡ any (λ o. needs key o && p o) (items t)
  unfolding overlapping
  overlapping-any t key p =
      let above = λ (o : Out). is_prefix o.key key && p o in
      let below = λ (o : Out). is_prefix key o.key && p o in
      elim (Bool-cases (trie.has_subtrie t key)) [
        | inl more ↦
            rw
              (
                more,
                any-++ p (trie.prefixes t key) (trie.values t key),
                law.prefixes t key p,
                law.values t key p,
              )
              (sym (any_or above below (items t)) ∙ any_same _ _ (items t) (λ o. ground arith))
        | inr alone ↦
            rw
              (
                alone,
                any-++ p (trie.prefixes t key) [],
                law.prefixes t key p,
                or_false (any above (items t)),
              )
              (any_same_where (λ o. is_prefix key o.key && not (o.key == key)) above _ (items t)
                (sym (law.has_subtrie t key) ∙ alone) (not_below key p))
      ]

  dep_edges-has_edge :
      (t : T) (name from to : String) (deps : List (Option Parts))
      → has_edge from to (dep_edges trie t name deps)
        ≡ (name == from && any (dep_needs (items t) to) deps)
  unfolding dep_edges
  dep_edges-has_edge t name from to [] = ground arith
  dep_edges-has_edge t name from to (none ∷ deps) = dep_edges-has_edge t name from to deps
  dep_edges-has_edge t name from to (some key ∷ deps) =
      rw
        (
          any-++ (λ e. e.0 == from && e.1 == to) (edges_to name (overlapping trie t key))
              (dep_edges trie t name deps),
          edges_to-has_edge name from to (overlapping trie t key),
          overlapping-any t key (λ o. o.stage == to),
          dep_edges-has_edge t name from to deps,
        )
        (ground arith)

  graph_edges-has_edge :
      (t : T) (from to : String) (stages : List StageNode)
      → has_edge from to (graph_edges trie t stages) ≡ depends (items t) from to stages
  unfolding graph_edges
  graph_edges-has_edge t from to [] = refl
  graph_edges-has_edge t from to (s ∷ stages) =
      rw
        (
          any-++ (λ e. e.0 == from && e.1 == to) (dep_edges trie t s.name s.deps)
              (graph_edges trie t stages),
          dep_edges-has_edge t s.name from to s.deps,
          graph_edges-has_edge t from to stages,
        )
        refl

  check_stage_paths-ok :
      (t : T) (stages : List StageNode)
      → is_ok (check_stage_paths trie t stages) ≡ not (path_in_out (items t) stages)
  unfolding check_stage_paths
  check_stage_paths-ok t [] = refl
  check_stage_paths-ok t (s ∷ stages) =
      go (trie.shortest_prefix t s.path) refl (law.shortest_prefix t s.path)
        (check_stage_paths-ok t stages)
    where
      go :
          (q : Option Out)
          → trie.shortest_prefix t s.path ≡ q
          → is_some (trie.shortest_prefix t s.path) ≡ any (λ o. is_prefix o.key s.path) (items t)
          → is_ok (check_stage_paths trie t stages) ≡ not (path_in_out (items t) stages)
          → is_ok (check_stage_paths trie t (s ∷ stages)) ≡ not (path_in_out (items t) (s ∷ stages))
      go none e c rest = rw (← c, e) (rw (check_stage_paths, e) rest)
      go (some o) e c rest = rw (← c, e) (rw (check_stage_paths, e) refl)

  -- The trie that is built holds the outputs.
  add_outs-items :
      (os : List Out) (t t' : T) (p : Out → Bool)
      → add_outs trie t os ≡ ok t'
      → any p (items t') ≡ (any p (items t) || any p os)
  unfolding add_outs
  add_outs-items [] t t' p e =
      let same = ok_injective e in rw (← same) (sym (or_false (any p (items t))))
  add_outs-items (o ∷ os) t t' p e = do
    let (t1, e1, e2) = >>=-eq-ok (add_out trie t o) _ e
    let added = add_out-inserts trie items law t t1 o e1
    let here = ap (λ u. any p (items u)) (sym added.1) ∙ law.insert t o p added.0
    add_outs-items os t1 t' p e2 ∙ rw here (ground arith)

  depends-cong :
      (os qs : List Out) (from to : String) (stages : List StageNode)
      → ((p : Out → Bool) → any p os ≡ any p qs)
      → depends os from to stages ≡ depends qs from to stages
  depends-cong os qs from to stages same = any_same _ _ stages (λ s.
      ap (λ b. s.name == from && b)
        (any_same (dep_needs os to) (dep_needs qs to) s.deps (λ d. dep_same d)))
    where
      dep_same : (d : Option Parts) → dep_needs os to d ≡ dep_needs qs to d
      dep_same none = refl
      dep_same (some key) = same (λ o. needs key o && o.stage == to)

  build_outs_trie-items :
      (stages : List StageNode) (t : T) (p : Out → Bool)
      → build_outs_trie trie stages ≡ ok t
      → any p (items t) ≡ any p (all_outs stages)
  unfolding build_outs_trie
  build_outs_trie-items stages t p e =
      add_outs-items (all_outs stages) trie.empty t p e
      ∙ ap (λ os. any p os || any p (all_outs stages)) law.empty

  -- For a lawful trie, a graph that was built: none of the outputs clashes with another one, no stage file
  -- stands inside an output, the search found no cycle in the edges, and there is an edge from one name to
  -- another exactly where a stage of the one has a dependency that needs an output of the other.
  pub build_graph-ok :
      (find_cycle : List (String × String) → Option (List String)) (stages : List StageNode)
      (edges : List (String × String))
      → build_graph trie find_cycle stages ≡ ok edges
      → (apart_from [] (all_outs stages) ≡ true)
        × (path_in_out (all_outs stages) stages ≡ false)
        × (find_cycle edges ≡ none)
        × ((from to : String) → has_edge from to edges ≡ depends (all_outs stages) from to stages)
  unfolding build_graph
  build_graph-ok find_cycle stages edges built = do
    let (t, e1, e2) = >>=-eq-ok (build_outs_trie trie stages) _ built
    let (u, e3, e4) = >>=-eq-ok (check_stage_paths trie t stages) _ e2
    let same = λ (p : Out → Bool). build_outs_trie-items stages t p e1
    let found =
        no_cycle (find_cycle (graph_edges trie t stages)) (graph_edges trie t stages) edges e4
    (
      sym (build_outs_trie-is_ok trie items law stages) ∙ ap is_ok e1,
      any_same _ _ stages (λ s. sym (same (λ o. is_prefix o.key s.path)))
          ∙ false_of_negation (sym (check_stage_paths-ok t stages) ∙ ap is_ok e3),
      ap find_cycle (sym found.1) ∙ found.0,
      λ from to.
          ap (has_edge from to) (sym found.1)
          ∙ graph_edges-has_edge t from to stages
          ∙ depends-cong (items t) (all_outs stages) from to stages same,
    )
