-- ===== src/Cache/Checkout/Step.antt =====
-- dvc/cache/base.py: what every act of a checkout keeps.
use Prim.Native.String.{[], ◌∷◌}
use Prim.Native.String.append.{nil, cons}
use python_dvc.Base.{
  or_true, and_left, String, ◌<>◌, ◌≡◌, refl, sym, ap, ◌∙◌, true, false, ◌||◌, some, [], ◌∷◌,
  contains, ◌⊎◌, inl, inr, ◌==◌, ==_iff, string_eq, String-discrete, parts_eq, Bool-cases,
  Option-cases,
}
use python_dvc.Base.Dict.{has, get, put, remove, get-put, get-remove}
use python_dvc.Repo.Graph.{Parts, is_prefix}
use python_dvc.Cache.Listing.{is_dir_hash, ends_with}
use python_dvc.Cache.Checkout.{
  DirInfo, World, Machine, is_protected, same_hash, changed_cache_file, save_dir_info,
}

pub ends_with-<> : (s t : String) → ends_with (s <> t) t ≡ true
unfolding ends_with
ends_with-<> [] [] = rw (nil "", (==_iff {A = String} "" "").1 refl) refl
ends_with-<> [] (c ∷ t) = rw (nil (c ∷ t), (==_iff {A = String} (c ∷ t) (c ∷ t)).1 refl) refl
ends_with-<> (c ∷ s) t = rw (cons c s t, ends_with-<> s t) (or_true ((c ∷ (s <> t)) == t))

ends_with_nothing : ends_with "" ".dir" ≡ false
unfolding ends_with string_eq String-discrete
ends_with_nothing = refl

pub is_dir_hash-<> : (s : String) → is_dir_hash (s <> ".dir") ≡ true
unfolding is_dir_hash ends_with
is_dir_hash-<> s = elim (Bool-cases ((s <> ".dir") == "")) [
  | inl e ↦ cc (
    ap (λ t. ends_with t ".dir") ((==_iff (s <> ".dir") "").0 e),
    ends_with-<> s ".dir",
    ends_with_nothing,
  )
  | inr e ↦ rw (e, ends_with-<> s ".dir") refl
]

-- A checksum of a file is not one of a directory.
pub is_dir_hash-apart :
    (h hash : String) → is_dir_hash h ≡ false → is_dir_hash hash ≡ true → (h == hash) ≡ false
is_dir_hash-apart h hash file dir = elim (Bool-cases (h == hash)) [
  | inl e ↦ cc (ap is_dir_hash ((==_iff h hash).0 e), file, dir)
  | inr e ↦ e
]

module _ (machine : Machine) where
  -- A read-only file of the cache has the content of its checksum, listings aside.
  unfoldable pub Intact : World → Type 0
  Intact w =
      (h content : String)
      → is_dir_hash h ≡ false
      → contains w.read_only h ≡ true
      → get w.cache h ≡ some content
      → same_hash machine content h ≡ true

  -- No file is below another.
  unfoldable pub IsTree : World → Type 0
  IsTree w =
      (f q : Parts) → has w.files f ≡ true → has w.files q ≡ true → is_prefix f q ≡ true → f ≡ q

  -- Nothing but listings comes into the cache, a listing that was read is kept, the files that are not below `path` stay, and the cache and
  -- the files stay well-formed.
  pub record Step (path : Parts) (w w' : World) : Type 0 where
    pub shrinks :
        (h content : String)
        → is_dir_hash h ≡ false
        → get w'.cache h ≡ some content
        → get w.cache h ≡ some content
    pub frame : (q : Parts) → is_prefix path q ≡ false → get w'.files q ≡ get w.files q
    pub intact : Intact w → Intact w'
    pub tree : IsTree w → IsTree w'
    pub memo :
        (h : String) (entries : DirInfo)
        → get w.dir_infos h ≡ some entries
        → get w'.dir_infos h ≡ some entries

  pub Step-refl : (path : Parts) (w : World) → Step path w w
  Step-refl path w = record {
    shrinks = λ h c d found. found;
    frame = λ q out. refl;
    intact = λ i. i;
    tree = λ t. t;
    memo = λ h e known. known;
  }

  pub Step-trans : (path : Parts) (u v w : World) → Step path u v → Step path v w → Step path u w
  Step-trans path u v w first second = record {
    shrinks = λ h c d found. first.shrinks h c d (second.shrinks h c d found);
    frame = λ q out. second.frame q out ∙ first.frame q out;
    intact = λ i. second.intact (first.intact i);
    tree = λ t. second.tree (first.tree t);
    memo = λ h e known. second.memo h e (first.memo h e known);
  }

  -- The cache file of a checksum is read-only, is missing or has no checksum, is confirmed, or is removed.
  pub changed_cache_file-cases :
      (hash : String) (w : World)
      → ((changed_cache_file machine hash w ≡ (false, w)) × (contains w.read_only hash ≡ true))
        ⊎ ((changed_cache_file machine hash w ≡ (true, w))
            ⊎ (((content : String) × (get w.cache hash ≡ some content)
                  × (same_hash machine content hash ≡ true)
                  × (changed_cache_file machine hash w
                      ≡ (false, record w { read_only = hash ∷ w.read_only })))
                ⊎ (changed_cache_file machine hash w
                    ≡ (true, record w { cache = remove w.cache hash }))))
  unfolding changed_cache_file
  changed_cache_file-cases hash w = elim (Bool-cases (is_protected hash w)) [
    | inl ro ↦ inl (rw (ro) refl, and_left (contains w.read_only hash) (has w.cache hash) ro)
    | inr writable ↦ inr (elim (Option-cases (get w.cache hash)) [
      | inl missing ↦ inl (rw (writable, missing) refl)
      | inr (content, found) ↦ elim (Bool-cases (hash == "" || machine.hash_of content == "")) [
        | inl nothing ↦ inl (rw (writable, found, nothing) refl)
        | inr hashed ↦ inr (elim (Bool-cases (same_hash machine content hash)) [
          | inl same ↦ inl (content, found, same, rw (writable, found, hashed, same) refl)
          | inr differs ↦ inr (rw (writable, found, hashed, differs) refl)
        ])
      ]
    ])
  ]

  removal_shrinks :
      (w : World) (hash h : String) {content : String}
      → get (remove w.cache hash) h ≡ some content
      → get w.cache h ≡ some content
  removal_shrinks w hash h found = elim (Bool-cases (h == hash)) [
    | inl same ↦ cc (get-remove w.cache hash h, same, found)
    | inr other ↦ sym (get-remove w.cache hash h ∙ rw (other) refl) ∙ found
  ]

  confirmed-Intact :
      (w : World) (hash content : String)
      → get w.cache hash ≡ some content
      → same_hash machine content hash ≡ true
      → Intact w
      → Intact (record w { read_only = hash ∷ w.read_only })
  unfolding Intact IsTree
  confirmed-Intact w hash content found same i h c d ro there = elim (Bool-cases (h == hash)) [
    | inl e ↦ let p = (==_iff h hash).0 e in cc
    | inr other ↦ i h c d (sym (rw (other) refl) ∙ ro) there
  ]

  pub changed_cache_file-Step :
      (path : Parts) (hash : String) (w : World) → Step path w (changed_cache_file machine hash w).1
  unfolding Intact IsTree
  changed_cache_file-Step path hash w = elim (changed_cache_file-cases hash w) [
    | inl (e, ro) ↦ rw (e) (Step-refl path w)
    | inr (inl e) ↦ rw (e) (Step-refl path w)
    | inr (inr (inl (content, found, same, e))) ↦ rw (e) (record {
      shrinks = λ h c d there. there;
      frame = λ q out. refl;
      intact = confirmed-Intact w hash content found same;
      tree = λ t. t;
      memo = λ h e known. known;
    })
    | inr (inr (inr e)) ↦ rw (e) (record {
      shrinks = λ h c d there. removal_shrinks w hash h there;
      frame = λ q out. refl;
      intact = λ i h c d ro there. i h c d ro (removal_shrinks w hash h there);
      tree = λ t. t;
      memo = λ h e known. known;
    })
  ]

  -- The listing of a directory is under a checksum of a directory.
  save_listing :
      (path : Parts) (w : World) (hash listing : String)
      → is_dir_hash hash ≡ true
      → Step path w (record w { cache = put w.cache hash listing; read_only = hash ∷ w.read_only })
  unfolding Intact IsTree
  save_listing path w hash listing dir = record {
    shrinks = λ h c d there.
        sym (get-put w.cache hash h listing ∙ rw (is_dir_hash-apart h hash d dir) refl) ∙ there;
    frame = λ q out. refl;
    intact = λ i h c d ro there.
        i h c d (sym (rw (is_dir_hash-apart h hash d dir) refl) ∙ ro)
          (sym (get-put w.cache hash h listing ∙ rw (is_dir_hash-apart h hash d dir) refl) ∙ there);
    tree = λ t. t;
    memo = λ h e known. known;
  }

  pub save_dir_info-Step :
      (path : Parts) (listing : String) (w : World)
      → Step path w (save_dir_info machine listing w).1
  unfolding save_dir_info
  save_dir_info-Step path listing w =
      let hash = machine.hash_of listing <> ".dir" in
      let w' = (changed_cache_file machine hash w).1 in
      elim (Bool-cases (changed_cache_file machine hash w).0) [
        | inl bad ↦ rw (bad) (
            Step-trans path w w' _ (changed_cache_file-Step path hash w)
              (save_listing path w' hash listing (is_dir_hash-<> (machine.hash_of listing))))
        | inr good ↦ rw (good) (changed_cache_file-Step path hash w)
      ]
