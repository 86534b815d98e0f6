-- ===== src/Cache/Listing.antt =====
-- dvc/cache/base.py: which checksums a cache holds, by listing its files or by asking for each; `gc`. The file
-- tree is the interface `Tree`, Python's floats are the interface `Floats`. The parts of a path are those below
-- some root.
pub mod Hex
pub mod Stored
pub mod Estimate
pub mod Exact
pub mod Gc
mod Tests
use Prim.Native.String.{[], ◌∷◌}
use Prim.Native.Nat.{◌/◌, ◌%◌, ◌^◌}
use python_dvc.Base.{
  ℕ, zero, suc, ◌+◌, ◌-◌, ◌*◌, String, ◌<>◌, Bool, true, false, not, ◌&&◌, ◌||◌, Option, none, some,
  List, [], ◌∷◌, ◌++◌, map, length, contains, is_empty, ltb, leb, ◌==◌, string_eq, nat_eq,
  if◌then◌else◌,
}
use python_dvc.Base.Result.{Result, ok, err, ◌>>◌, guard}
use python_dvc.Remote.Status.{set_minus, set_meet}

abbrev pub Parts : Type 0
Parts = List String

-- `self.tree`: `exists` for a path below the cache, and `walk_files` for a path below it, with its flag
-- `prefix`.
pub record Tree : Type 0 where
  pub exists : Parts → Bool
  pub walk_files : Parts → Bool → List Parts

-- The constants of the tree's class
pub record Limits : Type 0 where
  pub jobs : ℕ
  pub list_object_page_size : ℕ
  pub traverse_weight_multiplier : ℕ
  pub traverse_prefix_len : ℕ
  pub traverse_threshold_size : ℕ
  pub can_traverse : Bool

-- Floats: of an int, the product, the quotient, and `<`; nothing is said of their rounding.
pub record Floats : Type 1 where
  pub Float : Type 0
  pub float : ℕ → Float
  pub mul : Float → Float → Float
  pub div : Float → Float → Float
  pub less : Float → Float → Bool

-- `s[:2]` and `s[2:]`
abbrev pub first_two : String → String
first_two [] = []
first_two (c ∷ []) = c ∷ []
first_two (c ∷ (d ∷ s)) = c ∷ d ∷ []

abbrev pub after_two : String → String
after_two [] = []
after_two (c ∷ []) = []
after_two (c ∷ (d ∷ s)) = s

-- `len(s) == 2` and `len(s) > 2`
abbrev pub is_two : String → Bool
is_two (c ∷ (d ∷ [])) = true
is_two _ = false

abbrev pub is_longer : String → Bool
is_longer (c ∷ (d ∷ (e ∷ s))) = true
is_longer _ = false

-- `hash_to_path_info`, and the path of a prefix in `_list_paths`
abbrev pub hash_to_path : String → Parts
hash_to_path hash = first_two hash ∷ after_two hash ∷ []

abbrev pub prefix_path : String → Parts
prefix_path prefix =
    if is_longer prefix then first_two prefix ∷ after_two prefix ∷ [] else first_two prefix ∷ []

unfoldable pub list_paths : Tree → Option String → List Parts
list_paths tree none = tree.walk_files [] false
list_paths tree (some prefix) =
    if prefix == "" then tree.walk_files [] false else tree.walk_files (prefix_path prefix) true

-- `parts[-2:]`
unfoldable pub last_two : Parts → Parts
last_two [] = []
last_two (a ∷ []) = a ∷ []
last_two (a ∷ (b ∷ [])) = a ∷ b ∷ []
last_two (a ∷ (b ∷ (c ∷ ps))) = last_two (b ∷ c ∷ ps)

-- `_path_to_hash`: none where it raises ValueError
abbrev pub joined : Parts → Option String
joined (a ∷ (b ∷ [])) = if is_two a then some (a <> b) else none
joined _ = none

unfoldable pub path_to_hash : Parts → Option String
unfolding last_two
path_to_hash path = joined (last_two path)

-- The paths that do not look like a cache file are skipped.
unfoldable pub hashes_of : List Parts → List String
unfolding path_to_hash
hashes_of [] = []
hashes_of (path ∷ paths) =
    let rest = hashes_of paths in elim (path_to_hash path) [ none ↦ rest | some hash ↦ hash ∷ rest ]

unfoldable pub list_hashes : Tree → Option String → List String
unfolding hashes_of list_paths
list_hashes tree prefix = hashes_of (list_paths tree prefix)

-- `set(hashes)`
unfoldable pub to_set : List String → List String
to_set [] = []
to_set (h ∷ hs) = let rest = to_set hs in if contains rest h then rest else h ∷ rest

-- A digit and a number in hexadecimal, the number with so many digits
abbrev pub hex_digit : ℕ → String
hex_digit d =
    if ltb d 8
    then (if ltb d 4
        then (if ltb d 2 then (if d == 0 then "0" else "1") else if d == 2 then "2" else "3")
        else (if ltb d 6 then (if d == 4 then "4" else "5") else if d == 6 then "6" else "7"))
    else if ltb d 12
    then (if ltb d 10 then (if d == 8 then "8" else "9") else if d == 10 then "a" else "b")
    else if ltb d 14
    then (if d == 12 then "c" else "d")
    else if d == 14
    then "e"
    else "f"

unfoldable pub hex : ℕ → ℕ → String
hex zero i = ""
hex (suc n) i = hex n (i / 16) <> hex_digit (i % 16)

-- `"0" * n`
unfoldable pub zeros : ℕ → String
zeros zero = ""
zeros (suc n) = zeros n <> "0"

-- `[hex(i) for i in range(start, start + count)]`, each with so many digits
unfoldable pub hex_range : ℕ → ℕ → ℕ → List String
unfolding hex
hex_range digits start zero = []
hex_range digits start (suc count) = hex digits start ∷ hex_range digits (suc start) count

module _ (limits : Limits) where
  open limits use {
    list_object_page_size, traverse_weight_multiplier, traverse_prefix_len, traverse_threshold_size,
  }

  abbrev pub total_prefixes : ℕ
  total_prefixes = 16 ^ traverse_prefix_len

  abbrev pub size_of : List String → ℕ
  size_of found = if is_empty found then total_prefixes else total_prefixes * length found

  abbrev pub traverse_prefixes : List (Option String)
  traverse_prefixes = map some (
      hex_range 2 1 255
      ++ (if ltb 2 traverse_prefix_len
          then hex_range traverse_prefix_len 1 (16 ^ (traverse_prefix_len - 2) - 1)
          else []))

module _ (floats : Floats) where
  open floats use {Float, float, mul, div, less}

  -- `_hashes_with_limit`, with the count of those that were yielded
  unfoldable pub hashes_with_limit : Float → ℕ → List String → List String
  hashes_with_limit limit count [] = []
  hashes_with_limit limit count (h ∷ hs) =
      let rest = hashes_with_limit limit (count + 1) hs in
      h ∷ (if less limit (float (count + 1)) then [] else rest)

  module _ (limits : Limits) where
    open limits use {list_object_page_size, traverse_weight_multiplier, traverse_threshold_size}

    -- `_max_estimation_size`, for so many hashes; `max` gives its first argument unless the second is larger.
    abbrev pub max_estimation_size : ℕ → Float
    max_estimation_size asked =
        let weighed =
          mul (div (float asked) (float traverse_weight_multiplier))
            (float list_object_page_size) in
        if less (float traverse_threshold_size) weighed
        then weighed
        else float traverse_threshold_size

    -- `max_hashes / total_prefixes`, where `max_hashes` is not zero
    abbrev pub estimation_limit : ℕ → Float
    estimation_limit asked = div (max_estimation_size asked) (float (total_prefixes limits))

    -- `len(hashes) < traverse_weight`
    abbrev pub is_light : ℕ → ℕ → Bool
    is_light asked remote_size =
        let traverse_pages = div (float remote_size) (float list_object_page_size) in
        less (float asked) (
          if ltb traverse_threshold_size remote_size
          then mul traverse_pages (float traverse_weight_multiplier)
          else traverse_pages)

module _ (floats : Floats) (limits : Limits) (tree : Tree) where
  open floats use {float, div, less}
  open limits use {jobs, list_object_page_size, traverse_prefix_len, can_traverse}

  -- `_estimate_remote_size`: without hashes, there is no limit.
  unfoldable pub estimate_remote_size : List String → ℕ × List String
  unfolding hashes_with_limit list_hashes to_set zeros
  estimate_remote_size hashes =
      let listed = list_hashes tree (some (zeros traverse_prefix_len)) in
      let found = to_set (
        if is_empty hashes
        then listed
        else hashes_with_limit floats (estimation_limit floats limits (length hashes)) 0 listed) in
      (size_of limits found, found)

  -- `executor.map(list_with_update, prefixes)`, chained
  unfoldable pub list_all : List (Option String) → List String
  unfolding list_hashes
  list_all [] = []
  list_all (p ∷ prefixes) = list_hashes tree p ++ list_all prefixes

  unfoldable pub list_hashes_traverse : ℕ → List String → List String
  unfolding list_all hex_range
  list_hashes_traverse remote_size remote_hashes =
      if less (div (float remote_size) (float list_object_page_size)) (div (float 256) (float jobs))
      then list_all (none ∷ [])
      else remote_hashes ++ list_all (traverse_prefixes limits)

  unfoldable pub all_hashes : List String
  unfolding estimate_remote_size list_hashes_traverse
  all_hashes =
      if not can_traverse
      then list_hashes tree none
      else let (remote_size, remote_hashes) = estimate_remote_size [] in
        list_hashes_traverse remote_size remote_hashes

  unfoldable pub list_hashes_exists : List String → List String
  list_hashes_exists [] = []
  list_hashes_exists (h ∷ hs) =
      let rest = list_hashes_exists hs in if tree.exists (hash_to_path h) then h ∷ rest else rest

  -- `hashes_exist`, past the assertion
  unfoldable pub existing : List String → List String
  unfolding list_hashes_exists estimate_remote_size list_hashes_traverse
  existing hashes =
      if length hashes == 1 || not can_traverse
      then list_hashes_exists hashes
      else let (remote_size, remote_hashes) = estimate_remote_size hashes in
        if is_light floats limits (length hashes) remote_size
        then set_meet hashes remote_hashes ++ list_hashes_exists (set_minus hashes remote_hashes)
        else set_meet hashes (to_set (list_hashes_traverse remote_size remote_hashes))

  unfoldable pub hashes_exist : List String → Result (Unit {0}) (List String)
  unfolding existing
  hashes_exist hashes = guard (leb 2 traverse_prefix_len) tt >> ok (existing (to_set hashes))

-- What `gc` does to the tree: `remove`, and `_remove_unpacked_dir`, which the local cache overrides
pub record Remover (W : Type 0) : Type 0 where
  pub tree : W → Tree
  pub remove : W → Parts → W
  pub remove_unpacked_dir : W → String → W

unfoldable pub ends_with : String → String → Bool
ends_with [] suffix = [] == suffix
ends_with (c ∷ s) suffix = (c ∷ s) == suffix || ends_with s suffix

-- `is_dir_hash`
unfoldable pub is_dir_hash : String → Bool
unfolding ends_with
is_dir_hash hash = not (hash == "") && ends_with hash ".dir"

-- `sorted(hashes, key=is_dir_hash, reverse=True)`: those of directories first, each part in its order
abbrev pub hashes_where : (String → Bool) → List String → List String
hashes_where p [] = []
hashes_where p (h ∷ hs) = let rest = hashes_where p hs in if p h then h ∷ rest else rest

unfoldable pub dirs_first : List String → List String
unfolding is_dir_hash
dirs_first hashes =
    hashes_where is_dir_hash hashes ++ hashes_where (λ h. not (is_dir_hash h)) hashes

module _ {W : Type 0} (remover : Remover W) where
  abbrev pub remove_hash : W → String → W
  remove_hash w hash =
      remover.remove (if is_dir_hash hash then remover.remove_unpacked_dir w hash else w)
        (hash_to_path hash)

  -- The loop of `gc`, with `removed`
  unfoldable pub gc_loop : List String → Bool → List String → W → Bool × W
  gc_loop used removed [] w = (removed, w)
  gc_loop used removed (h ∷ hs) w =
      let kept = gc_loop used removed hs w in
      let gone = gc_loop used true hs (remove_hash w h) in if contains used h then kept else gone

  unfoldable pub gc : Floats → Limits → List String → W → Bool × W
  unfolding gc_loop dirs_first all_hashes
  gc floats limits used w =
      gc_loop used false (dirs_first (all_hashes floats limits (remover.tree w))) w
