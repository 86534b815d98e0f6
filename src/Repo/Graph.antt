-- ===== src/Repo/Graph.antt =====
-- dvc/repo/trie.py and dvc/repo/graph.py: the trie of outputs, the graph of stages and its checks. The trie
-- of pygtrie and the search for a cycle of networkx are parameters.
pub mod Overlap
pub mod Edges
mod Tests
use python_dvc.Base.{
  String, ◌≡◌, Bool, true, false, not, ◌&&◌, ◌||◌, Option, none, some, List, [], ◌∷◌, ◌++◌, In, any,
  is_some, ◌==◌, parts_eq, string_eq, if◌then◌else◌,
}
use python_dvc.Base.Result.{Result, ok, err, ◌>>=◌, ◌>>◌, guard}

abbrev pub Parts : Type 0
Parts = List String

-- An output or a dependency: the parts of its path, none where it has no `path_info`. A stage is named by a
-- text here.
pub record Out : Type 0 where
  pub key : Parts
  pub stage : String

pub record StageNode : Type 0 where
  pub name : String
  pub path : Parts
  pub deps : List (Option Parts)
  pub outs : List Out

pub data GraphFailure : Type 0 where
  output_duplication : Out → Out → GraphFailure
  overlapping_outputs : Out → Out → GraphFailure
  stage_path_as_output : StageNode → Out → GraphFailure
  cyclic_graph : List String → GraphFailure

abbrev pub is_prefix : Parts → Parts → Bool
is_prefix [] ks = true
is_prefix (j ∷ js) [] = false
is_prefix (j ∷ js) (k ∷ ks) = j == k && is_prefix js ks

-- `pygtrie.Trie` as far as it is used
pub record Trie (T : Type 0) : Type 0 where
  pub empty : T
  pub insert : T → Parts → Out → T
  pub get : T → Parts → Option Out
  pub has_subtrie : T → Parts → Bool
  pub values : T → Parts → List Out
  pub prefixes : T → Parts → List Out
  pub shortest_prefix : T → Parts → Option Out

-- What pygtrie documents, from the list of the outputs that it holds.
pub record IsTrie {T : Type 0} (trie : Trie T) (items : T → List Out) : Type 0 where
  pub empty : items trie.empty ≡ []
  pub insert :
      (t : T) (o : Out) (p : Out → Bool)
      → trie.get t o.key ≡ none
      → any p (items (trie.insert t o.key o)) ≡ (p o || any p (items t))
  pub get : (t : T) (k : Parts) → is_some (trie.get t k) ≡ any (λ o. o.key == k) (items t)
  pub has_subtrie :
      (t : T) (k : Parts)
      → trie.has_subtrie t k ≡ any (λ o. is_prefix k o.key && not (o.key == k)) (items t)
  pub values :
      (t : T) (k : Parts) (p : Out → Bool)
      → any p (trie.values t k) ≡ any (λ o. is_prefix k o.key && p o) (items t)
  pub prefixes :
      (t : T) (k : Parts) (p : Out → Bool)
      → any p (trie.prefixes t k) ≡ any (λ o. is_prefix o.key k && p o) (items t)
  pub shortest_prefix :
      (t : T) (k : Parts)
      → is_some (trie.shortest_prefix t k) ≡ any (λ o. is_prefix o.key k) (items t)

-- `first`
abbrev pub first : List Out → Option Out
first [] = none
first (o ∷ os) = some o

-- The pair of overlapping outputs, if there is one
abbrev pub pair_of : Option Out → Option Out → Option (Out × Out)
pair_of (some p) (some o) = some (p, o)
pair_of _ _ = none

-- The outputs in the order of the two loops
abbrev pub all_outs : List StageNode → List Out
all_outs [] = []
all_outs (s ∷ stages) = s.outs ++ all_outs stages

abbrev pub edges_to : String → List Out → List (String × String)
edges_to from [] = []
edges_to from (o ∷ os) = (from, o.stage) ∷ edges_to from os

module _ {T : Type 0} (trie : Trie T) where
  unfoldable pub overlapping_pair : T → Out → Option (Out × Out)
  overlapping_pair outs out =
      if trie.has_subtrie outs out.key
      then pair_of (some out) (first (trie.values outs out.key))
      else pair_of (trie.shortest_prefix outs out.key) (some out)

  -- One round of `build_outs_trie`
  unfoldable pub add_out : T → Out → Result GraphFailure T
  unfolding overlapping_pair
  add_out outs out = elim (trie.get outs out.key) [
    | some old ↦ err (output_duplication out old)
    | none ↦ elim (overlapping_pair outs out) [
      | some (parent, inner) ↦ err (overlapping_outputs parent inner)
      | none ↦ ok (trie.insert outs out.key out)
    ]
  ]

  unfoldable pub add_outs : T → List Out → Result GraphFailure T
  unfolding add_out
  add_outs outs [] = ok outs
  add_outs outs (o ∷ os) = do outs' ← add_out outs o; add_outs outs' os

  unfoldable pub build_outs_trie : List StageNode → Result GraphFailure T
  unfolding add_outs
  build_outs_trie stages = add_outs trie.empty (all_outs stages)

  -- No stage file stands inside an output.
  unfoldable pub check_stage_paths : T → List StageNode → Result GraphFailure (Unit {0})
  check_stage_paths outs [] = ok tt
  check_stage_paths outs (s ∷ stages) = elim (trie.shortest_prefix outs s.path) [
    | some out ↦ err (stage_path_as_output s out)
    | none ↦ check_stage_paths outs stages
  ]

  -- `overlapping`
  unfoldable pub overlapping : T → Parts → List Out
  overlapping outs key =
      trie.prefixes outs key ++ (if trie.has_subtrie outs key then trie.values outs key else [])

  unfoldable pub dep_edges : T → String → List (Option Parts) → List (String × String)
  unfolding overlapping
  dep_edges outs name [] = []
  dep_edges outs name (none ∷ deps) = dep_edges outs name deps
  dep_edges outs name (some key ∷ deps) =
      edges_to name (overlapping outs key) ++ dep_edges outs name deps

  unfoldable pub graph_edges : T → List StageNode → List (String × String)
  unfolding dep_edges
  graph_edges outs [] = []
  graph_edges outs (s ∷ stages) = dep_edges outs s.name s.deps ++ graph_edges outs stages

  -- `build_graph`: the edges. `find_cycle` gives the stages of a cycle, if there is one.
  unfoldable pub build_graph :
      (List (String × String) → Option (List String))
      → List StageNode
      → Result GraphFailure (List (String × String))
  unfolding build_outs_trie check_stage_paths graph_edges
  build_graph find_cycle stages = do
    outs ← build_outs_trie stages
    check_stage_paths outs stages
    elim (find_cycle (graph_edges outs stages)) [
      | some cycle ↦ err (cyclic_graph cycle)
      | none ↦ ok (graph_edges outs stages)
    ]
