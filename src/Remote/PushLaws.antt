-- ===== src/Remote/PushLaws.antt =====
-- What `push` of dvc/remote/base.py guarantees: a directory is uploaded behind all of its files.
use python_dvc.Base.{
  String, ◌≡◌, refl, ap, sym, ◌∙◌, Bool, true, false, ◌||◌, Option, none, some, List, [], ◌∷◌, ◌==◌,
  ==_iff, string_eq, nat_eq, contains, any, is_some, In, inl, inr, ◌⊎◌, arith, Bool-cases,
}
use python_dvc.Base.Dict.{Dict, get, get_or, has, get-put}
use python_dvc.Cache.Keys.{contains-append}
use python_dvc.Base.Result.{ok, err}
use python_dvc.Cache.Named.{Item, item, Children, nil, child, names, Scheme, set_update}
use python_dvc.Remote.Status.{
  Status, status_missing, status_new, status_map, Contents, make_name, add_child, add_children,
  add_item, add_items, fill_statuses, no_contents, StatusInfo, make_status,
}
use python_dvc.Remote.Transfer.{
  Attempt, Future, Plan, get_plans, run_plan, submit_files, dir_upload, wait_futures, submit_dirs,
  file_futures, dir_futures, missing_files,
}

get-fill_statuses :
    (d : Dict String String) (local remote : List String) (h name : String)
    → get d h ≡ some name
    → get (fill_statuses d local remote) h
      ≡ some (name, status_map (contains local h) (contains remote h))
unfolding fill_statuses get
get-fill_statuses [] local remote h name e = cc
get-fill_statuses ((g, n) ∷ d) local remote h name e =
    ground (arith, get-fill_statuses d local remote h name, ==_iff h g)

-- Each file of a directory is listed among the files.
abbrev IsListed : Contents → Type 0
IsListed c =
    (dir h : String) → contains (get_or c.dir_contents dir []) h ≡ true → has c.file_names h ≡ true

contains-set_update_one :
    (xs : List String) (g h : String)
    → contains (set_update xs (g ∷ [])) h ≡ contains xs h || h == g
unfolding set_update
contains-set_update_one xs g h = elim (Bool-cases (contains xs g)) [
  | inl e ↦ rw e (ground (arith, ==_iff h g))
  | inr e ↦ rw e (ground (arith, contains-append xs (g ∷ []) h))
]

module _ (show_checksums : Bool) where
  add_children-IsListed :
      (c : Contents) (dir : String) (cs : Children)
      → IsListed c
      → IsListed (add_children show_checksums c dir cs)
  unfolding add_children
  add_children-IsListed c dir nil l = l
  add_children-IsListed c dir (child g i cs) l =
      add_children-IsListed (add_child show_checksums c dir g i) dir cs (λ dir' h m. ground (
        arith,
        get-put c.file_names g h (make_name show_checksums g (names i)),
        l dir' h,
        l dir h,
        get-put c.dir_contents dir dir' (set_update (get_or c.dir_contents dir []) (g ∷ [])),
        contains-set_update_one (get_or c.dir_contents dir []) g h,
        ==_iff dir' dir,
      ))

  add_item-IsListed :
      (c : Contents) (hash : String) (i : Item)
      → IsListed c
      → IsListed (add_item show_checksums c hash i)
  unfolding add_item
  add_item-IsListed c hash (item ns nil) l = λ dir h m.
      ground (arith, l dir h, get-put c.file_names hash h (make_name show_checksums hash ns))
  add_item-IsListed c hash (item ns (child g i cs)) l =
      add_children-IsListed _ hash (child g i cs)
        (λ dir h m. ground (arith, l dir h, get-put c.dir_contents hash dir []))

  add_items-IsListed :
      (c : Contents) (items : Scheme) → IsListed c → IsListed (add_items show_checksums c items)
  unfolding add_items
  add_items-IsListed c [] l = l
  add_items-IsListed c ((hash, i) ∷ items) l =
      add_items-IsListed (add_item show_checksums c hash i) items (add_item-IsListed c hash i l)

abbrev pub plan_hashes : List Plan → List String
plan_hashes [] = []
plan_hashes (p ∷ plans) = p.hash ∷ plan_hashes plans

module _ (cache_path remote_path : String → String) where
  abbrev new_plans : Dict String (String × Status) → List Plan × List String
  new_plans info = get_plans cache_path remote_path false info status_new

  get_plans-missing :
      (info : Dict String (String × Status)) (h name : String)
      → get info h ≡ some (name, status_missing)
      → contains (new_plans info).1 h ≡ true
  unfolding get_plans get
  get_plans-missing [] h name e = cc
  get_plans-missing ((g, (n, st)) ∷ info) h name e =
      ground (arith, get_plans-missing info h name, ==_iff h g)

  pub get_plans-new :
      (info : Dict String (String × Status)) (h name : String)
      → get info h ≡ some (name, status_new)
      → contains (plan_hashes (new_plans info).0) h ≡ true
  unfolding get_plans get
  get_plans-new [] h name e = cc
  get_plans-new ((g, (n, st)) ∷ info) h name e =
      ground (arith, get_plans-new info h name, ==_iff h g)

abbrev pub info : Bool → Scheme → List String → List String → StatusInfo
info show_checksums items local remote = make_status show_checksums items local remote

module _ (call : String → String → String → Attempt) where
  pub submit_files-get :
      (plans : List Plan) (h : String)
      → contains (plan_hashes plans) h ≡ true
      → (f : Future) × (get (submit_files call plans) h ≡ some f)
  unfolding submit_files get
  submit_files-get [] h m = cc
  submit_files-get (p ∷ plans) h m = elim (Bool-cases (h == p.hash)) [
    | inl e ↦ (run_plan call p, rw e refl)
    | inr e ↦ let (f, g) = submit_files-get plans h (ground arith) in (f, rw e g)
  ]

  -- A directory whose upload returned 0 had no failed file among those that it waited for.
  dir_upload-waited :
      (futures : List Future) (p : Plan) (f : Future)
      → dir_upload call futures p ≡ ok 0
      → In f futures
      → f ≡ ok 0
  unfolding dir_upload nat_eq
  dir_upload-waited [] p f h m = absurd m
  dir_upload-waited (err e ∷ futures) p f h m = cc
  dir_upload-waited (ok n ∷ futures) p f h m = elim (Bool-cases (n == 0)) [
    | inl zero_fails ↦
        let rest : dir_upload call futures p ≡ ok 0 = rw zero_fails at h in
        elim m [ inl same ↦ ground arith | inr m' ↦ dir_upload-waited futures p f rest m' ]
    | inr fails ↦ let none_left : ◌≡◌ {A = Future} (ok 1) (ok 0) = rw fails at h in ground arith
  ]

  wait_futures-get :
      (futures : Dict String Future) (contents : List String) (h : String) (f : Future)
      → get futures h ≡ some f
      → contains contents h ≡ true
      → In f (wait_futures futures contents)
  unfolding wait_futures get
  wait_futures-get [] contents h f e m = cc
  wait_futures-get ((g, x) ∷ futures) contents h f e m = elim (Bool-cases (h == g)) [
    | inl here ↦
        let same : f ≡ x = ground arith in
        let listed : contains contents g ≡ true = ground (arith, ==_iff h g) in rw listed (inl same)
    | inr there ↦
        let later = wait_futures-get futures contents h f (ground arith) m in
        elim (Bool-cases (contains contents g)) [
          | inl e' ↦ rw e' (inr later)
          | inr e' ↦ rw e' later
        ]
  ]

  submit_dirs-get :
      (dir_contents : Dict String (List String)) (missing : List String)
      (files : Dict String Future) (plans : List Plan) (d : String) (f : Future)
      → get (submit_dirs call dir_contents missing files plans) d ≡ some f
      → (p : Plan) × (p.hash ≡ d)
        × (any (contains (get_or dir_contents d [])) missing ≡ false)
        × (f ≡ dir_upload call (wait_futures files (get_or dir_contents d [])) p)
  unfolding submit_dirs get
  submit_dirs-get dir_contents missing files [] d f e = cc
  submit_dirs-get dir_contents missing files (p ∷ plans) d f e =
      let contents = get_or dir_contents p.hash [] in
      elim (Bool-cases (any (contains contents) missing)) [
        | inl skipped ↦ submit_dirs-get dir_contents missing files plans d f (ground arith)
        | inr whole ↦ elim (Bool-cases (d == p.hash)) [
          | inl here ↦
              let same : d ≡ p.hash = (==_iff d p.hash).0 here in
              (p, sym same, rw same whole, rw same (ground arith))
          | inr there ↦ submit_dirs-get dir_contents missing files plans d f (ground arith)
        ]
      ]

  not-missing :
      (contents missing : List String) (h : String)
      → any (contains contents) missing ≡ false
      → contains contents h ≡ true
      → contains missing h ≡ false
  not-missing contents [] h none_missing m = refl
  not-missing contents (x ∷ missing) h none_missing m =
      ground (arith, not-missing contents missing h, ==_iff h x)

  module _ (cache_path remote_path : String → String) (show_checksums : Bool) (items : Scheme)
      (local remote : List String) where
    contents-listed :
        (d h : String)
        → contains (get_or (info show_checksums items local remote).dir_contents d []) h ≡ true
        → (name : String) × (get (info show_checksums items local remote).file_status h
            ≡ some (name, status_map (contains local h) (contains remote h)))
    unfolding make_status
    contents-listed d h m =
        let c = add_items show_checksums no_contents items in
        let start : IsListed no_contents = λ dir g n. unfold get in cc in
        go (get c.file_names h) refl
          (add_items-IsListed show_checksums no_contents items start d h m)
      where
        go :
            (o : Option String)
            → get (add_items show_checksums no_contents items).file_names h ≡ o
            → is_some o ≡ true
            → (name : String) × (get
                  (fill_statuses
                    (add_items show_checksums no_contents items).file_names
                    local
                    remote)
                  h
                ≡ some (name, status_map (contains local h) (contains remote h)))
        go none e s = cc
        go (some name) e s = (name, get-fill_statuses _ local remote h name e)

    -- A `.dir` file whose upload in a push returned without a failure has each of its files on the remote:
    -- the file existed there by the given answer, or its own upload in the same push returned without a
    -- failure.
    pub pushed_dir_complete :
        (d h : String)
        → get (dir_futures call cache_path remote_path (info show_checksums items local remote)) d
          ≡ some (ok 0)
        → contains (get_or (info show_checksums items local remote).dir_contents d []) h ≡ true
        → (contains remote h ≡ true)
          ⊎ (get
                (file_futures call cache_path remote_path (info show_checksums items local remote))
                h
              ≡ some (ok 0))
    unfolding dir_futures file_futures status_map
    pushed_dir_complete d h pushed m =
        let (p, _, whole, f) =
          submit_dirs-get (info show_checksums items local remote).dir_contents _ _ _ d (ok 0)
            pushed in
        let (name, listed) = contents-listed d h m in
        elim (Bool-cases (contains remote h)) [
          | inl there ↦ inl there
          | inr absent ↦ elim (Bool-cases (contains local h)) [
            | inl here ↦
                let new : get (info show_checksums items local remote).file_status h
                    ≡ some (name, status_new) =
                  rw (absent, here) at listed in
                let (future, g) = submit_files-get _ h (
                  get_plans-new cache_path remote_path
                    (info show_checksums items local remote).file_status h name new) in
                let waited =
                  wait_futures-get _
                    (get_or (info show_checksums items local remote).dir_contents d []) h future g
                    m in
                inr (g ∙ ap some (dir_upload-waited _ p future (sym f) waited))
            | inr nowhere ↦
                let lost : get (info show_checksums items local remote).file_status h
                    ≡ some (name, status_missing) =
                  rw (absent, nowhere) at listed in
                cc (
                  get_plans-missing cache_path remote_path
                      (info show_checksums items local remote).file_status h name lost,
                  not-missing _
                      (missing_files call cache_path remote_path
                        (info show_checksums items local remote))
                      h whole m,
                )
          ]
        ]
