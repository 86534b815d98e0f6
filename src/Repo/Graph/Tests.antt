-- ===== src/Repo/Graph/Tests.antt =====
-- A trie that is a list of outputs, and graphs of two and three stages.
use python_dvc.Base.{
  String, ◌≡◌, refl, Bool, true, false, not, ◌&&◌, Option, none, some, List, [], ◌∷◌, any, is_some,
  ◌==◌, parts_eq, string_eq, if◌then◌else◌, Bool-cases, inl, inr,
}
use python_dvc.Base.Result.{is_ok, ok}
use python_dvc.Repo.Graph.{
  Out, StageNode, Trie, IsTrie, is_prefix, first, all_outs, build_outs_trie, build_graph,
}
use python_dvc.Repo.Graph.Overlap.{apart_from, build_outs_trie-is_ok}
use python_dvc.Repo.Graph.Edges.{build_graph-ok, path_in_out, has_edge, depends}

abbrev keep : (Out → Bool) → List Out → List Out
keep p [] = []
keep p (o ∷ os) = if p o then o ∷ keep p os else keep p os

any-keep : (p q : Out → Bool) (os : List Out) → any q (keep p os) ≡ any (λ o. p o && q o) os
any-keep p q [] = refl
any-keep p q (o ∷ os) = elim (Bool-cases (p o)) [
  | inl kept ↦ rw (kept, any-keep p q os) refl
  | inr left_out ↦ rw (left_out, any-keep p q os) refl
]

is_some-first-keep : (p : Out → Bool) (os : List Out) → is_some (first (keep p os)) ≡ any p os
is_some-first-keep p [] = refl
is_some-first-keep p (o ∷ os) = elim (Bool-cases (p o)) [
  | inl kept ↦ rw kept refl
  | inr left_out ↦ rw (left_out, is_some-first-keep p os) refl
]

abbrev list_trie : Trie (List Out)
list_trie = record {
  empty = [];
  insert = λ t k o. o ∷ t;
  get = λ t k. first (keep (λ o. o.key == k) t);
  has_subtrie = λ t k. any (λ o. is_prefix k o.key && not (o.key == k)) t;
  values = λ t k. keep (λ o. is_prefix k o.key) t;
  prefixes = λ t k. keep (λ o. is_prefix o.key k) t;
  shortest_prefix = λ t k. first (keep (λ o. is_prefix o.key k) t);
}

list_trie-IsTrie : IsTrie list_trie (λ t. t)
list_trie-IsTrie = record {
  empty = refl;
  insert = λ t o p free. refl;
  get = λ t k. is_some-first-keep (λ o. o.key == k) t;
  has_subtrie = λ t k. refl;
  values = λ t k p. any-keep (λ o. is_prefix k o.key) p t;
  prefixes = λ t k p. any-keep (λ o. is_prefix o.key k) p t;
  shortest_prefix = λ t k. is_some-first-keep (λ o. is_prefix o.key k) t;
}

-- `train` needs a file inside the output of `prepare`.
abbrev prepare : StageNode
prepare = record {
  name = "prepare";
  path = "dvc.yaml" ∷ [];
  deps = [];
  outs = record { key = "data" ∷ []; stage = "prepare" } ∷ [];
}

abbrev train : StageNode
train = record {
  name = "train";
  path = "dvc.yaml" ∷ [];
  deps = some ("data" ∷ "a.csv" ∷ []) ∷ none ∷ [];
  outs = record { key = "model" ∷ []; stage = "train" } ∷ [];
}

-- The cycles of one edge or of two
abbrev short_cycle : List (String × String) → List (String × String) → Option (List String)
short_cycle edges [] = none
short_cycle edges (e ∷ rest) =
    if has_edge e.1 e.0 edges then some (e.0 ∷ e.1 ∷ []) else short_cycle edges rest

abbrev find_cycle : List (String × String) → Option (List String)
find_cycle edges = short_cycle edges edges

two_stages :
    build_graph list_trie find_cycle (prepare ∷ train ∷ []) ≡ ok (("train", "prepare") ∷ [])
unfolding build_graph parts_eq string_eq
two_stages = refl

build_outs_trie-is_ok_example :
    is_ok (build_outs_trie list_trie (prepare ∷ train ∷ prepare ∷ []))
    ≡ apart_from [] (all_outs (prepare ∷ train ∷ prepare ∷ []))
build_outs_trie-is_ok_example =
    build_outs_trie-is_ok list_trie (λ t. t) list_trie-IsTrie (prepare ∷ train ∷ prepare ∷ [])

build_graph-ok_example :
    (apart_from [] (all_outs (prepare ∷ train ∷ [])) ≡ true)
    × (path_in_out (all_outs (prepare ∷ train ∷ [])) (prepare ∷ train ∷ []) ≡ false)
    × (find_cycle (("train", "prepare") ∷ []) ≡ none)
    × ((from to : String)
        → has_edge from to (("train", "prepare") ∷ [])
          ≡ depends (all_outs (prepare ∷ train ∷ [])) from to (prepare ∷ train ∷ []))
build_graph-ok_example =
    build_graph-ok list_trie (λ t. t) list_trie-IsTrie find_cycle (prepare ∷ train ∷ [])
      (("train", "prepare") ∷ []) two_stages
