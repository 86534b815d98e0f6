-- ===== src/Cache/Checkout/Tests.antt =====
-- dvc/cache/base.py: the checkout of a directory with one entry, in a workspace with another file, and that of
-- the entry alone.
use python_dvc.Base.{
  Option, Bool, ◌||◌, String, ◌≡◌, refl, sym, ap, ◌∙◌, true, false, none, some, [], ◌∷◌, inl, inr,
  ◌==◌, ==_iff, string_eq, parts_eq, nat_eq, String-discrete, List_String-discrete, Bool-cases,
}
use python_dvc.Base.Dict.{has, get, put, remove}
use python_dvc.Base.Result.{ok}
use python_dvc.Repo.Graph.{Parts, is_prefix}
use python_dvc.Cache.Listing.{is_dir_hash, ends_with}
use python_dvc.Cache.Checkout.{
  copy, DirInfo, World, Machine, before_dot, same_hash, files_besides, dirs_besides,
  changed_cache_file, save_dir_info, get_hash, get_dir_cache, any_changed, changed_dir_cache,
  changed_cache, changed, already_cached, safe_remove,
}
use python_dvc.Cache.Checkout.Run.{
  has_file_above, try_links, link, checkout_file, checkout_entry, checkout_entries, remove_all,
  remove_redundant_files, checkout_dir, checkout_changed, checkout,
}
use python_dvc.Cache.Checkout.Step.{Intact, IsTree}
use python_dvc.Cache.Checkout.Frame.{checkout_frame}
use python_dvc.Cache.Checkout.Exact.{checkout_file_exact}
use python_dvc.Cache.Checkout.Entries.{apart, IsListing}
use python_dvc.Cache.Checkout.Returns.{checkout_returns}
use python_dvc.Cache.Checkout.Directory.{IsExact, checkout-IsExact}

abbrev entries : DirInfo
entries = ("a" ∷ [], "x1") ∷ []

-- A content is its own checksum.
abbrev machine : Machine
machine = record {
  hash_of = λ content. content;
  listing_of = λ files. "l";
  read_listing = λ content. some entries;
  can_link = λ type. true;
  is_link = λ type. true;
  confirm = λ path. false;
}

abbrev data_dir : Parts
data_dir = "data" ∷ []

abbrev entry_path : Parts
entry_path = "data" ∷ "a" ∷ []

abbrev old_file : Parts
old_file = "data" ∷ "old" ∷ []

abbrev world : World
world = record {
  files = (old_file, "x2") ∷ [];
  dirs = [];
  cache = ("x1", "x1") ∷ ("d.dir", "d") ∷ [];
  read_only = [];
  cache_types = copy ∷ [];
  cache_type_confirmed = false;
  dir_infos = [];
}

world-Intact : Intact machine world
unfolding Intact
world-Intact h content file ro found = cc

is_file : is_dir_hash "x1" ≡ false
unfolding is_dir_hash ends_with string_eq String-discrete
is_file = refl

no_other : (f : Parts) → (f == old_file) ≡ false → has world.files f ≡ false
unfolding get
no_other f e = rw (e) refl

one_file : (f : Parts) → has world.files f ≡ true → f ≡ old_file
one_file f there = elim (Bool-cases (f == old_file)) [
  | inl e ↦ (==_iff f old_file).0 e
  | inr e ↦ cc (no_other f e, there)
]

world-IsTree : IsTree machine world
unfolding IsTree
world-IsTree f q there here below = one_file f there ∙ sym (one_file q here)

entries-IsListing : IsListing entries
unfolding IsListing
entries-IsListing rel hash (inl e) = ap (λ x. is_dir_hash x.1) e ∙ is_file
entries-IsListing rel hash (inr i) = absurd i

abbrev after : World
after = (checkout machine data_dir "d.dir" true false none world).1

is_dir : is_dir_hash "d.dir" ≡ true
unfolding is_dir_hash ends_with string_eq String-discrete
is_dir = refl

entries-apart : apart entries ≡ true
entries-apart = refl

listed : get after.dir_infos "d.dir" ≡ some entries
unfolding checkout checkout_changed checkout_dir checkout_entries checkout_entry
    remove_redundant_files remove_all link try_links safe_remove already_cached changed
    changed_cache changed_dir_cache any_changed get_dir_cache get_hash save_dir_info
    changed_cache_file before_dot files_besides dirs_besides is_dir_hash ends_with get put remove
    string_eq String-discrete parts_eq List_String-discrete nat_eq
listed = refl

returned :
    checkout machine data_dir "d.dir" true false none world ≡ (ok (some (false, true)), after)
unfolding checkout checkout_changed checkout_dir checkout_entries checkout_entry
    remove_redundant_files remove_all link try_links safe_remove already_cached changed
    changed_cache changed_dir_cache any_changed get_dir_cache get_hash save_dir_info
    changed_cache_file before_dot files_besides dirs_besides is_dir_hash ends_with get put remove
    string_eq String-discrete parts_eq List_String-discrete nat_eq
returned = refl

checkout-IsExact_example : IsExact machine data_dir entries after
checkout-IsExact_example =
    checkout-IsExact machine data_dir "d.dir" true false entries world after (false, true) is_dir
      world-Intact world-IsTree entries-apart entries-IsListing listed returned

file_returned :
    checkout machine entry_path "x1" false false none world
    ≡ (ok (some (true, false)), (checkout machine entry_path "x1" false false none world).1)
unfolding checkout checkout_changed checkout_file checkout_dir checkout_entries checkout_entry
    remove_redundant_files remove_all link try_links safe_remove already_cached changed
    changed_cache changed_dir_cache any_changed get_dir_cache get_hash save_dir_info
    changed_cache_file before_dot files_besides dirs_besides is_dir_hash ends_with get put remove
    string_eq String-discrete parts_eq List_String-discrete nat_eq
file_returned = refl

checkout_file_exact_example :
    (content : String) × (get
        (checkout machine entry_path "x1" false false none world).1.files
        entry_path
      ≡ some content)
    × (same_hash machine content "x1" ≡ true)
checkout_file_exact_example =
    checkout_file_exact machine entry_path "x1" false false none world
      (checkout machine entry_path "x1" false false none world).1 (some (true, false)) is_file
      world-Intact file_returned

not_cached : get world.cache "x2" ≡ none
unfolding get string_eq String-discrete
not_cached = refl

is_file_too : is_dir_hash "x2" ≡ false
unfolding is_dir_hash ends_with string_eq String-discrete
is_file_too = refl

beside : is_prefix entry_path old_file ≡ false
unfolding string_eq String-discrete
beside = refl

checkout_frame_example :
    (get (checkout machine entry_path "x1" false false none world).1.files old_file
      ≡ get world.files old_file)
    × ((get (checkout machine entry_path "x1" false false none world).1.cache "x2" ≡ none)
        × IsTree machine (checkout machine entry_path "x1" false false none world).1)
checkout_frame_example =
    checkout_frame machine entry_path "x1" false false none world old_file "x2" beside is_file_too
      not_cached world-IsTree

found_there : get world.cache "x1" ≡ some "x1"
unfolding get string_eq String-discrete
found_there = refl

has_same_hash : same_hash machine "x1" "x1" ≡ true
unfolding before_dot string_eq String-discrete nat_eq
has_same_hash = refl

abbrev x1 : String
x1 = "x1"

not_empty : (x1 == "" || machine.hash_of "x1" == "") ≡ false
unfolding string_eq String-discrete
not_empty = refl

none_above : has_file_above entry_path world ≡ false
unfolding string_eq String-discrete
none_above = refl

checkout_returns_example :
    (r : Option (Bool × Bool)) × (v : World) × (checkout machine entry_path "x1" true false none
        world
      ≡ (ok r, v))
    × ((there : String) × (get v.files entry_path ≡ some there)
        × (same_hash machine there "x1" ≡ true))
checkout_returns_example =
    checkout_returns machine "x1" "x1" "data" ("a" ∷ []) false none world copy [] is_file
      has_same_hash not_empty found_there refl refl refl none_above world-Intact
