-- ===== src/Cache/Named.antt =====
-- dvc/cache/__init__.py: NamedCacheItem and NamedCache. A Python set is a list read by `contains`.
use python_dvc.Base.{
  String, ◌<>◌, Bool, true, false, List, [], ◌∷◌, ◌++◌, map, ◌==◌, string_eq, parts_eq, contains,
  if◌then◌else◌,
}
use python_dvc.Base.Dict.{Dict, put, get_or}

-- `children` is a dict of items by checksum, in insertion order.
mutual
  pub data Item : Type 0 where
    item : List String → Children → Item

  pub data Children : Type 0 where
    nil : Children
    child : String → Item → Children → Children

abbrev pub names : Item → List String
names (item ns cs) = ns

abbrev pub children : Item → Children
children (item ns cs) = cs

abbrev pub has_children : Item → Bool
has_children (item ns nil) = false
has_children (item ns (child h i cs)) = true

abbrev pub new_item : Item
new_item = item [] nil

-- `set.update`
unfoldable pub set_update : List String → List String → List String
set_update xs [] = xs
set_update xs (y ∷ ys) = set_update (if contains xs y then xs else xs ++ y ∷ []) ys

-- `names.update(n + suffix for n in item.names)` if there is a suffix
unfoldable pub update_names : List String → List String → String → List String
unfolding set_update
update_names old new suffix =
    if suffix == "" then set_update old new else set_update old (map (λ n. n <> suffix) new)

-- `self.children[checksum]` of the defaultdict, and an assignment to it
unfoldable pub child_or_new : Children → String → Item
child_or_new nil h = new_item
child_or_new (child g j cs) h = if h == g then j else child_or_new cs h

unfoldable pub put_child : Children → String → Item → Children
put_child nil h i = child h i nil
put_child (child g j cs) h i = if h == g then child g i cs else child g j (put_child cs h i)

-- `NamedCacheItem.update`: the suffix is not passed on to the children.
unfoldable mutual
  pub update_item : Item → Item → String → Item
  update_item i (item ms ds) suffix =
      item (update_names (names i) ms suffix) (update_children (children i) ds)

  pub update_children : Children → Children → Children
  update_children cs nil = cs
  update_children cs (child h i ds) =
      update_children (put_child cs h (update_item (child_or_new cs h) i "")) ds

-- `NamedCacheItem.child_keys`: all checksums below, depth first
unfoldable mutual
  pub item_child_keys : Item → List String
  item_child_keys (item ns cs) = children_keys cs

  pub children_keys : Children → List String
  children_keys nil = []
  children_keys (child h i cs) = h ∷ (item_child_keys i ++ children_keys cs)

-- The items of one scheme, and those of all schemes with the external files of other repositories.
abbrev pub Scheme : Type 0
Scheme = Dict String Item

pub record NamedCache : Type 0 where
  pub items : Dict String Scheme
  pub external : Dict (List String) (List String)

abbrev pub empty_cache : NamedCache
empty_cache = record { items = []; external = [] }

-- `self._items[scheme]`
abbrev pub scheme_items : NamedCache → String → Scheme
scheme_items c scheme = get_or c.items scheme []

-- `dst[checksum].update(item, suffix)`
unfoldable pub update_entry : Scheme → String → Item → String → Scheme
update_entry dst h i suffix = put dst h (update_item (get_or dst h new_item) i suffix)

unfoldable pub update_scheme : Scheme → Dict String Item → String → Scheme
unfolding update_entry
update_scheme dst [] suffix = dst
update_scheme dst ((h, i) ∷ src) suffix = update_scheme (update_entry dst h i suffix) src suffix

update_external :
    Dict (List String) (List String)
    → Dict (List String) (List String)
    → Dict (List String) (List String)
update_external old [] = old
update_external old ((pair, files) ∷ more) =
    update_external (put old pair (set_update (get_or old pair []) files)) more

update_schemes : Dict String Scheme → Dict String Scheme → String → Dict String Scheme
update_schemes old [] suffix = old
update_schemes old ((scheme, src) ∷ more) suffix =
    update_schemes (put old scheme (update_scheme (get_or old scheme []) src suffix)) more suffix

-- `NamedCache.update`
unfoldable pub update : NamedCache → NamedCache → String → NamedCache
unfolding update_external update_schemes
update self cache suffix = record {
  items = update_schemes self.items cache.items suffix;
  external = update_external self.external cache.external;
}

-- `NamedCache.add`
unfoldable pub add : NamedCache → String → String → String → NamedCache
add self scheme checksum name =
    let items = scheme_items self scheme in
    let old = get_or items checksum new_item in
    record self {
      items =
          put self.items scheme
            (put items checksum (item (set_update (names old) (name ∷ [])) (children old)));
    }

-- `dst[child_checksum].update(item, suffix)`, where `dst` is a dict of children
unfoldable pub update_child_scheme : Children → Dict String Item → String → Children
update_child_scheme cs [] suffix = cs
update_child_scheme cs ((h, i) ∷ src) suffix =
    update_child_scheme (put_child cs h (update_item (child_or_new cs h) i suffix)) src suffix

add_children : Dict String Scheme → String → Dict String Scheme → String → Dict String Scheme
add_children old checksum [] suffix = old
add_children old checksum ((scheme, src) ∷ more) suffix =
    let items = get_or old scheme [] in
    let parent = get_or items checksum new_item in
    let filled = item (names parent) (update_child_scheme (children parent) src suffix) in
    add_children (put old scheme (put items checksum filled)) checksum more suffix

-- `NamedCache.add_child_cache`
unfoldable pub add_child_cache : NamedCache → String → NamedCache → String → NamedCache
unfolding add_children update_external
add_child_cache self checksum cache suffix = record {
  items = add_children self.items checksum cache.items suffix;
  external = update_external self.external cache.external;
}

-- `scheme_keys`, `dir_keys` and `child_keys`, over the items of one scheme
unfoldable pub scheme_keys : Scheme → List String
scheme_keys [] = []
scheme_keys ((h, i) ∷ items) = h ∷ (item_child_keys i ++ scheme_keys items)

unfoldable pub dir_keys : Scheme → List String
dir_keys [] = []
dir_keys ((h, i) ∷ items) = let rest = dir_keys items in if has_children i then h ∷ rest else rest

unfoldable pub child_keys : Scheme → String → List String
child_keys items checksum = item_child_keys (get_or items checksum new_item)
