-- ===== src/Cache/Keys.antt =====
-- The checksums that a named cache lists (dvc/cache/__init__.py).
use python_dvc.Base.{
  String, ◌≡◌, refl, Bool, true, false, ◌||◌, List, [], ◌∷◌, ◌++◌, ◌==◌, string_eq, ==_iff,
  contains, arith, Bool-cases, inl, inr,
}
use python_dvc.Base.Dict.{get, put, get_or}
use python_dvc.Cache.Named.{
  Item, item, Children, nil, child, new_item, update_item, update_children, child_or_new, put_child,
  item_child_keys, children_keys, Scheme, update_scheme, scheme_keys,
}

pub contains-append :
    (xs ys : List String) (h : String) → contains (xs ++ ys) h ≡ contains xs h || contains ys h
contains-append [] ys h = refl
contains-append (x ∷ xs) ys h = ground (arith, contains-append xs ys h)

-- A key of the replaced item is a key of the new one.
replaced :
    (h f g : String) (in_i in_j in_cs : Bool) {both_i both_j : Bool}
    → both_i ≡ in_i || in_cs
    → both_j ≡ in_j || in_cs
    → g ≡ f
    → (in_j ≡ true → in_i ≡ true)
    → h == f || both_i ≡ h == f || both_j || (h == g || in_i)
replaced h f g in_i true in_cs p q same keep = ground (arith, keep refl)
replaced h f g in_i false in_cs p q same keep = ground arith

children_keys-put_child :
    (cs : Children) (g : String) (i : Item) (h : String)
    → (contains (item_child_keys (child_or_new cs g)) h ≡ true
        → contains (item_child_keys i) h ≡ true)
    → contains (children_keys (put_child cs g i)) h
      ≡ contains (children_keys cs) h || (h == g || contains (item_child_keys i) h)
unfolding children_keys put_child child_or_new
children_keys-put_child nil g i h keeps = ground (arith, contains-append (item_child_keys i) [] h)
children_keys-put_child (child f j cs) g i h keeps = elim (Bool-cases (g == f)) [
  | inl e ↦
      let keeps' : contains (item_child_keys j) h ≡ true → contains (item_child_keys i) h ≡ true =
        rw e at keeps in
      rw e (
        replaced h f g (contains (item_child_keys i) h) (contains (item_child_keys j) h)
          (contains (children_keys cs) h) (contains-append (item_child_keys i) (children_keys cs) h)
          (contains-append (item_child_keys j) (children_keys cs) h) ((==_iff g f).0 e) keeps')
  | inr e ↦
      let keeps' : contains (item_child_keys (child_or_new cs g)) h ≡ true
          → contains (item_child_keys i) h ≡ true =
        rw e at keeps in
      rw e (
        ground (
          arith,
          children_keys-put_child cs g i h keeps',
          contains-append (item_child_keys j) (children_keys cs) h,
          contains-append (item_child_keys j) (children_keys (put_child cs g i)) h,
        ))
]

children_keys-child_or_new :
    (cs : Children) (g h : String)
    → contains (item_child_keys (child_or_new cs g)) h ≡ true
    → contains (children_keys cs) h ≡ true
unfolding children_keys child_or_new
children_keys-child_or_new nil g h m = cc
children_keys-child_or_new (child f j cs) g h m = elim (Bool-cases (g == f)) [
  | inl e ↦
      let m' : contains (item_child_keys j) h ≡ true = rw e at m in
      ground (arith, contains-append (item_child_keys j) (children_keys cs) h)
  | inr e ↦
      let m' : contains (item_child_keys (child_or_new cs g)) h ≡ true = rw e at m in
      ground (
        arith,
        contains-append (item_child_keys j) (children_keys cs) h,
        children_keys-child_or_new cs g h m',
      )
]

-- An update lists what either item lists, and nothing else.
mutual
  unfolding update_item children_keys

  keys-update_item :
      (i j : Item) (suffix h : String)
      → contains (item_child_keys (update_item i j suffix)) h
        ≡ contains (item_child_keys i) h || contains (item_child_keys j) h
  keys-update_item (item ns cs) (item ms ds) suffix h = keys-update_children cs ds h

  keys-update_children :
      (cs ds : Children) (h : String)
      → contains (children_keys (update_children cs ds)) h
        ≡ contains (children_keys cs) h || contains (children_keys ds) h
  keys-update_children cs nil h = ground arith
  keys-update_children cs (child g i ds) h = ground (
    arith,
    keys-update_children (put_child cs g (update_item (child_or_new cs g) i "")) ds h,
    keys-update_item (child_or_new cs g) i "" h,
    children_keys-put_child cs g (update_item (child_or_new cs g) i "") h
        (λ m. rw (keys-update_item (child_or_new cs g) i "" h, m)),
    children_keys-child_or_new cs g h,
    contains-append (item_child_keys i) (children_keys ds) h,
  )

scheme_keys-put :
    (d : Scheme) (g : String) (i : Item) (h : String)
    → (contains (item_child_keys (get_or d g new_item)) h ≡ true
        → contains (item_child_keys i) h ≡ true)
    → contains (scheme_keys (put d g i)) h
      ≡ contains (scheme_keys d) h || (h == g || contains (item_child_keys i) h)
unfolding scheme_keys put get
scheme_keys-put [] g i h keeps = ground (arith, contains-append (item_child_keys i) [] h)
scheme_keys-put ((f, j) ∷ d) g i h keeps = elim (Bool-cases (g == f)) [
  | inl e ↦
      let keeps' : contains (item_child_keys j) h ≡ true → contains (item_child_keys i) h ≡ true =
        rw (e, get_or) at keeps in
      rw e (
        replaced h f g (contains (item_child_keys i) h) (contains (item_child_keys j) h)
          (contains (scheme_keys d) h) (contains-append (item_child_keys i) (scheme_keys d) h)
          (contains-append (item_child_keys j) (scheme_keys d) h) ((==_iff g f).0 e) keeps')
  | inr e ↦
      let keeps' : contains (item_child_keys (get_or d g new_item)) h ≡ true
          → contains (item_child_keys i) h ≡ true =
        rw (e, get_or) at keeps in
      rw e (
        ground (
          arith,
          scheme_keys-put d g i h keeps',
          contains-append (item_child_keys j) (scheme_keys d) h,
          contains-append (item_child_keys j) (scheme_keys (put d g i)) h,
        ))
]

pub scheme_keys-get_or :
    (d : Scheme) (g h : String)
    → contains (item_child_keys (get_or d g new_item)) h ≡ true
    → contains (scheme_keys d) h ≡ true
unfolding scheme_keys get
scheme_keys-get_or [] g h m = unfold item_child_keys in cc
scheme_keys-get_or ((f, j) ∷ d) g h m = elim (Bool-cases (g == f)) [
  | inl e ↦
      let m' : contains (item_child_keys j) h ≡ true = rw (e, get_or) at m in
      ground (arith, contains-append (item_child_keys j) (scheme_keys d) h)
  | inr e ↦
      let m' : contains (item_child_keys (get_or d g new_item)) h ≡ true = rw (e, get_or) at m in
      ground
        (arith, contains-append (item_child_keys j) (scheme_keys d) h, scheme_keys-get_or d g h m')
]

-- After the items of one scheme are updated by those of another cache, the listed checksums, at any depth,
-- are exactly those that either listed.
pub scheme_keys-update_scheme :
    (dst src : Scheme) (suffix h : String)
    → contains (scheme_keys (update_scheme dst src suffix)) h
      ≡ contains (scheme_keys dst) h || contains (scheme_keys src) h
unfolding update_scheme scheme_keys
scheme_keys-update_scheme dst [] suffix h = ground arith
scheme_keys-update_scheme dst ((g, i) ∷ src) suffix h =
    let old = get_or dst g new_item in
    ground (
      arith,
      scheme_keys-update_scheme (put dst g (update_item old i suffix)) src suffix h,
      keys-update_item old i suffix h,
      scheme_keys-put dst g (update_item old i suffix) h
          (λ m. rw (keys-update_item old i suffix h, m)),
      scheme_keys-get_or dst g h,
      contains-append (item_child_keys i) (scheme_keys src) h,
    )
