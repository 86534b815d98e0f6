-- ===== src/Lock/RoundTrip.antt =====
-- dvc/stage/serialize.py and dvc/stage/loader.py: a stage that is read with the lock file it was written to.
use python_dvc.Base.{
  ◌≡◌, refl, sym, ap, subst, ◌∙◌, true, false, Option, none, some, List, [], ◌∷◌, map, In, All,
  is_some, if◌then◌else◌, Option-cases, inl, inr, ==_iff, string_eq,
}
use python_dvc.Base.Dict.{Dict, get, get_or}
use python_dvc.Base.Result.{ok, ◌>>=◌}
use python_dvc.Output.HashInfo.{Field, text, field_eq, is_true, no_hash}
use python_dvc.Lock.Defs.{
  Item, Entry, LockedStage, command_eq, dumpd, sort_items, by_path, pick, fill_item, fill_items,
  fill_from_lock, load_locked, to_single_stage_lockfile, is_given,
}
use python_dvc.Lock.Sorted.{sort_by-In, In-sort_by}
use python_dvc.Lock.Lookup.{IsOrdinary, from_dict-dumpd, by_path-source, by_path-has}
use python_dvc.Lock.Params.{IsOnePerFile, blank_params, fill_params-written}

-- An item as the pipeline file has it, without a checksum; and with the one that comes back: an empty
-- checksum is the one of `HashInfo(None, None)`.
abbrev pub blank : Item → Item
blank i = record i { hash_info = no_hash }

abbrev pub restored : Item → Item
restored i = record i { hash_info = if is_true i.hash_info.value then i.hash_info else no_hash }

-- Items with the same path are the same one, and the names of their checksums are ordinary.
pub record IsPlain (items : List Item) : Type 0 where
  pub one_per_path : (i j : Item) → In i items → In j items → i.def_path ≡ j.def_path → i ≡ j
  pub ordinary : (i : Item) → In i items → IsOrdinary i.hash_info

-- The paths are different, the checksums have ordinary names, and the values of a file of params were read
-- in the order of its params.
pub record IsWritable {V : Type 0} (stage : LockedStage V) : Type 0 where
  pub deps : IsPlain stage.deps
  pub outs : IsPlain stage.outs
  pub files : IsOnePerFile stage.params
  pub read : All (λ p. p.info ≡ pick p.info p.params []) stage.params

abbrev pub written_entries : List Item → Dict Field Entry
written_entries items = by_path [] (map dumpd (sort_items items))

none≢some : {A : Type 0} {a : A} → ◌≡◌ {A = Option A} none (some a) → ⊥
none≢some h = cc

pub All-In :
    {A : Type 0} (Holds : A → Type 0) (xs : List A) (x : A) → In x xs → All Holds xs → Holds x
All-In Holds [] x m h = elim m [ ]
All-In Holds (y ∷ ys) x (inl same) h = subst Holds (sym same) h.0
All-In Holds (y ∷ ys) x (inr there) h = All-In Holds ys x there h.1

-- Each item's entry is found under its path.
entry_found :
    (items : List Item) (i : Item)
    → IsPlain items
    → In i items
    → get_or (written_entries items) (text i.def_path) [] ≡ dumpd i
unfolding get
entry_found items i plain m = do
  let ordinary = λ (j : Item) (n : In j (sort_items items)).
      plain.ordinary j (In-sort_by (λ x. x.def_path) j items n)
  elim (Option-cases (get (written_entries items) (text i.def_path))) [
    | inl e ↦
        let there =
          by_path-has [] (sort_items items) i.def_path ordinary
            (inr (i, sort_by-In (λ x. x.def_path) i items m, refl)) in
        let missing = ap is_some e in cc
    | inr (found, e) ↦ elim (by_path-source [] (sort_items items) i.def_path found ordinary e) [
      | inl before ↦ absurd (none≢some before)
      | inr (j, n, same, at) ↦
          let it = plain.one_per_path j i (In-sort_by (λ x. x.def_path) j items n) m at in
          rw (get_or, e) (sym same ∙ ap dumpd it)
    ]
  ]

fill_item-dumpd :
    (items : List Item) (i : Item)
    → IsPlain items
    → In i items
    → fill_item (written_entries items) (blank i) ≡ ok (restored i)
unfolding fill_item
fill_item-dumpd items i plain m =
    rw (entry_found items i plain m, from_dict-dumpd i (plain.ordinary i m)) refl

fill_items-dumpd :
    (all items : List Item)
    → IsPlain all
    → ((i : Item) → In i items → In i all)
    → fill_items (written_entries all) (map blank items) ≡ ok (map restored items)
unfolding fill_items
fill_items-dumpd all [] plain h = refl
fill_items-dumpd all (i ∷ items) plain h =
    rw
      (
        fill_item-dumpd all i plain (h i (inl refl)),
        fill_items-dumpd all items plain (λ j m. h j (inr m)),
      )
      refl

module _ {V : Type 0} where
  abbrev pub blank_stage : LockedStage V → LockedStage V
  blank_stage s = record s {
    deps = map blank s.deps;
    params = map blank_params s.params;
    outs = map blank s.outs;
  }

  abbrev pub restored_stage : LockedStage V → LockedStage V
  restored_stage s = record s { deps = map restored s.deps; outs = map restored s.outs }

  -- A stage whose command is given, without its checksums and values, is filled again from what was
  -- written of it in the lock file: every checksum that is not empty and all values come back, and the
  -- command counts as unchanged. The paths of its dependencies, of its params and of its outputs are
  -- different, no checksum is named path, size or nfiles, and its values were read in the order of params.
  pub load-to_lockfile :
      (stage : LockedStage V)
      → is_given stage.cmd ≡ true
      → IsWritable stage
      → (to_single_stage_lockfile stage >>= λ lock.
          ok (load_locked (blank_stage stage) (some lock)))
        ≡ ok (ok (restored_stage stage, false))
  unfolding load_locked fill_from_lock to_single_stage_lockfile
  load-to_lockfile stage given w =
      rw
        (
          given,
          fill_items-dumpd stage.deps stage.deps w.deps (λ i m. m),
          fill_items-dumpd stage.outs stage.outs w.outs (λ i m. m),
          fill_params-written stage.params stage.params w.files
              (λ p m. (m, All-In _ stage.params p m w.read)),
          (==_iff stage.cmd stage.cmd).1 refl,
        )
        refl
