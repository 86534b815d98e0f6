-- ===== src/Cache/Listing/Tests.antt =====
-- A cache of a file and a directory, on a tree that lists all its files below every path.
use text.Mathlib.TextLemmas.{append-nil}
use python_dvc.Base.{
  ℕ, ltb, ◌*◌, String, ◌<>◌, ◌≡◌, refl, sym, ap, ◌∙◌, Bool, true, false, not, ◌&&◌, Option, some,
  List, [], ◌∷◌, map, any, take, length, contains, ◌==◌, ==_iff, string_eq, nat_eq, if◌then◌else◌,
  inl, inr, ◌⊎◌, Bool-cases, arith, subst, none,
}
use python_dvc.Base.Result.{ok}
use python_dvc.Cache.Listing.{
  Parts, Tree, Floats, Limits, Remover, to_set, hash_to_path, first_two, after_two, path_to_hash,
  last_two, list_hashes, list_paths, hashes_of, hex, is_dir_hash, all_hashes, hashes_exist,
  dirs_first, gc_loop, gc,
}
use python_dvc.Cache.Listing.Stored.{distinct, IsStore, cut_two}
use python_dvc.Cache.Listing.Estimate.{IsSteady}
use python_dvc.Cache.Listing.Exact.{hashes_exist_exact}
use python_dvc.Cache.Listing.Gc.{IsRemover, gc_exact, gc_halfway}

abbrev limits : Limits
limits = record {
  jobs = 4;
  list_object_page_size = 1000;
  traverse_weight_multiplier = 5;
  traverse_prefix_len = 2;
  traverse_threshold_size = 500;
  can_traverse = true;
}

abbrev joined_parts : Parts → String
joined_parts [] = ""
joined_parts (p ∷ ps) = p <> joined_parts ps

abbrev tree_of : List String → Tree
tree_of files = record {
  exists = λ path. contains files (joined_parts path);
  walk_files = λ below flag. map hash_to_path files;
}

abbrev without : List String → String → List String
without [] h = []
without (g ∷ files) h = let rest = without files h in if g == h then rest else g ∷ rest

abbrev remover : Remover (List String)
remover = record {
  tree = tree_of;
  remove = λ files path. without files (joined_parts path);
  remove_unpacked_dir = λ files h. files;
}

abbrev two_files : List String
two_files = "00ab" ∷ "a1ff.dir" ∷ []

and_false : (b : Bool) → (b && false) ≡ false
and_false b = ground arith

joined-hash_to_path : (h : String) → joined_parts (hash_to_path h) ≡ h
joined-hash_to_path h = ap (λ s. first_two h <> s) (append-nil (after_two h)) ∙ cut_two h

contains-without :
    (files : List String) (h g : String)
    → contains (without files h) g ≡ (not (g == h) && contains files g)
contains-without [] h g = sym (and_false (not (g == h)))
contains-without (f ∷ files) h g =
    ground (arith, contains-without files h g, ==_iff f h, ==_iff g h, ==_iff g f)

remover-IsRemover : IsRemover remover (λ files h. contains files h)
remover-IsRemover = record {
  remove =
      λ w h g. ap (λ j. contains (without w j) g) (joined-hash_to_path h) ∙ contains-without w h g;
  remove_unpacked_dir = λ w h g. refl;
}

one_of_two : (h : String) → contains two_files h ≡ true → (h ≡ "00ab") ⊎ (h ≡ "a1ff.dir")
one_of_two h m = ground (arith, ==_iff h "00ab", ==_iff h "a1ff.dir")

some_injective : {A : Type 0} {a b : A} → ◌≡◌ {A = Option A} (some a) (some b) → a ≡ b
some_injective h = cc

same_hash :
    (h g : String) (path : Parts)
    → path ≡ hash_to_path g
    → path_to_hash path ≡ some h
    → path_to_hash (hash_to_path g) ≡ some g
    → contains two_files g ≡ true
    → contains two_files h ≡ true
same_hash h g path p e reads there =
    subst (λ x. contains two_files x ≡ true)
      (some_injective (sym reads ∙ ap path_to_hash (sym p) ∙ e)) there

all_paths :
    (prefix : Option String) → list_paths (tree_of two_files) prefix ≡ map hash_to_path two_files
unfolding list_paths
all_paths none = refl
all_paths (some prefix) = elim (Bool-cases (prefix == "")) [
  | inl blank ↦ rw blank refl
  | inr given ↦ rw given refl
]

two_files-IsStore : IsStore (tree_of two_files) (λ h. contains two_files h) 2
unfolding hex nat_eq string_eq list_hashes list_paths hashes_of path_to_hash last_two
two_files-IsStore = record {
  exists = λ h. ap (contains two_files) (joined-hash_to_path h);
  names = λ h m. elim (one_of_two h m) [
    | inl e ↦ (0, omega arith, ("ab", e))
    | inr e ↦ (161, omega arith, ("ff.dir", e))
  ];
  walk_all = λ h m. (
    [],
    elim (one_of_two h m) [
      | inl e ↦ inl (ap hash_to_path e)
      | inr e ↦ inr (inl (ap hash_to_path e))
    ],
  );
  walk_prefix = λ h prefix m starts. (
    [],
    elim (one_of_two h m) [
      | inl e ↦ inl (ap hash_to_path e)
      | inr e ↦ inr (inl (ap hash_to_path e))
    ],
  );
  only_files = λ below flag path h m e. elim m [
    | inl p ↦ same_hash h "00ab" path p e refl refl
    | inr (inl p) ↦ same_hash h "a1ff.dir" path p e refl refl
    | inr (inr p) ↦ elim p [ ]
  ];
  once = λ prefix. ap (λ paths. distinct (hashes_of paths)) (all_paths prefix);
}

-- Floats without rounding, as fractions
abbrev fractions : Floats
fractions = record {
  Float = ℕ × ℕ;
  float = λ n. (n, 1);
  mul = λ a b. (a.0 * b.0, a.1 * b.1);
  div = λ a b. (a.0 * b.1, a.1 * b.0);
  less = λ a b. ltb (a.0 * b.1) (b.0 * a.1);
}

abbrev three_listed : List String
three_listed = "00ab" ∷ "00cd" ∷ "00ef" ∷ []

abbrev one_used : List String
one_used = "00ab" ∷ []

abbrev the_dir : String
the_dir = "a1ff.dir"

abbrev both_asked : List String
both_asked = "00ab" ∷ "ffff" ∷ []

two-IsSteady : IsSteady fractions limits (length (to_set both_asked))
unfolding to_set string_eq
two-IsSteady = record {
  steady = λ count positive over.
      let large : ltb 500 (256 * count) ≡ true = ground arith in rw large (ground arith);
}

hashes_exist_exact_example :
    (found : List String) × (hashes_exist fractions limits (tree_of two_files) both_asked
      ≡ ok found)
    × (contains found "00ab" ≡ (contains both_asked "00ab" && contains two_files "00ab"))
hashes_exist_exact_example =
    hashes_exist_exact fractions limits (tree_of two_files) (λ h. contains two_files h)
      (omega arith) two_files-IsStore both_asked "00ab" two-IsSteady

gc_exact_example :
    (contains (gc remover fractions limits one_used two_files).1 the_dir
      ≡ (contains two_files the_dir && contains one_used the_dir))
    × ((gc remover fractions limits one_used two_files).0
        ≡ any (λ g. not (contains one_used g)) (all_hashes fractions limits (tree_of two_files)))
gc_exact_example =
    gc_exact remover (λ files h. contains files h) remover-IsRemover fractions limits one_used
      two_files the_dir (omega arith) two_files-IsStore

abbrev one_file : String
one_file = "00ab"

not_a_dir : is_dir_hash one_file ≡ false
unfolding is_dir_hash string_eq
not_a_dir = refl

a_dir : is_dir_hash the_dir ≡ true
unfolding is_dir_hash string_eq
a_dir = refl

one_there : contains two_files one_file ≡ true
unfolding string_eq
one_there = refl

dir_there : contains two_files the_dir ≡ true
unfolding string_eq
dir_there = refl

stopped_after_two :
    contains
      (gc_loop remover [] false
        (take 2 (dirs_first (all_hashes fractions limits (tree_of two_files))))
        two_files).1
      one_file
    ≡ false
unfolding gc_loop dirs_first all_hashes string_eq
stopped_after_two = refl

gc_halfway_example :
    contains
      (gc_loop remover [] false
        (take 2 (dirs_first (all_hashes fractions limits (tree_of two_files))))
        two_files).1
      the_dir
    ≡ false
gc_halfway_example =
    gc_halfway remover (λ files h. contains files h) remover-IsRemover fractions limits [] two_files
      2 one_file the_dir (omega arith) two_files-IsStore not_a_dir a_dir refl one_there dir_there
      stopped_after_two
