-- ===== src/Remote/Outcome.antt =====
-- What a transfer of dvc/remote/base.py reports, and what it does to the index.
use Prim.Native.Nat.{ℕ, ◌+◌, ◌<◌}
use python_dvc.Base.{
  String, ◌≡◌, ap, ◌∙◌, length, true, some, List, [], ◌∷◌, ◌++◌, In, inl, inr, arith, string_eq,
  refl, length-append, false, nat_eq, contains, ◌==◌, ==_iff, ◌⊎◌, Bool-cases,
}
use python_dvc.Base.Dict.{Dict, get, values}
use python_dvc.Base.Result.{ok, err, >>=-eq-ok}
use python_dvc.Remote.Index.{Table, no_rows}
use python_dvc.Remote.Status.{
  Status, status_ok, status_missing, status_new, status_deleted, StatusInfo,
}
use python_dvc.Remote.Transfer.{
  Attempt, done, raised, out_of_descriptors, Plan, plan_entry, get_plans, log_exceptions, run_plan,
  run_plans, same_status, os_error, download_error, Future, sum_results, file_futures, dir_futures,
  push, pull, finish_push, finish_pull, file_plans, dir_plans,
}
use python_dvc.Remote.PushLaws.{plan_hashes, submit_files-get, get_plans-new}

sum_results-zero : (fs : List Future) (f : Future) → sum_results fs ≡ ok 0 → In f fs → f ≡ ok 0
unfolding sum_results
sum_results-zero [] f h m = absurd m
sum_results-zero (err e ∷ fs) f h m = cc
sum_results-zero (ok n ∷ fs) f h m =
    let (k, e, total) = >>=-eq-ok (sum_results fs) _ h in
    let sum_zero : n + k ≡ 0 = ground arith in
    elim m [
      | inl same ↦ let n_zero : n ≡ 0 = omega arith in rw (← n_zero) same
      | inr m' ↦ let k_zero : k ≡ 0 = omega arith in sum_results-zero fs f (rw k_zero at e) m'
    ]

In-values :
    (d e : Dict String Future) (h : String) (f : Future)
    → get d h ≡ some f
    → In f (values d ++ values e)
unfolding get
In-values [] e h f g = cc
In-values ((k, x) ∷ d) e h f g = elim (Bool-cases (h == k)) [
  | inl here ↦ inl (ground arith)
  | inr there ↦ inr (In-values d e h f (ground arith))
]

finish_push-eq-ok :
    (contents : Dict String (List String)) (dirs : Dict String Future) (total : ℕ) (rows : Table)
    (r : Future) {n : ℕ}
    → (finish_push contents dirs total rows r).0 ≡ ok n
    → r ≡ ok 0
finish_push-eq-ok contents dirs total rows (err e) h = cc
finish_push-eq-ok contents dirs total rows (ok fails) h = ground arith

planned-length :
    (plans : List Plan) (h : String) → contains (plan_hashes plans) h ≡ true → 0 < length plans
planned-length [] h m = cc
planned-length (p ∷ plans) h m = omega arith

In-append : {A : Type 0} (xs ys : List A) (a : A) → In a xs ⊎ In a ys → In a (xs ++ ys)
In-append [] ys a (inl m) = absurd m
In-append [] ys a (inr m) = m
In-append (x ∷ xs) ys a (inl (inl here)) = inl here
In-append (x ∷ xs) ys a (inl (inr there)) = inr (In-append xs ys a (inl there))
In-append (x ∷ xs) ys a (inr m) = inr (In-append xs ys a (inr m))

some_planned : (plans : List Plan) (p : Plan) → In p plans → 0 < length plans
some_planned [] p m = absurd m
some_planned (q ∷ plans) p m = omega arith

finish_pull-cases :
    (total : ℕ) (rows : Table) (r : Future)
    → ((finish_pull total rows r ≡ (ok total, rows)) × (r ≡ ok 0))
      ⊎ (((n : ℕ) × ((finish_pull total rows r ≡ (err (download_error n), no_rows)) × (0 < n)))
          ⊎ (finish_pull total rows r ≡ (err os_error, rows)))
finish_pull-cases total rows (err e) = inr (inr refl)
finish_pull-cases total rows (ok n) = elim (Bool-cases (n == 0)) [
  | inl e ↦ inl (rw e refl, ap ok ((==_iff n 0).0 e))
  | inr e ↦ inr (inl (n, (rw e refl, ground (arith, ==_iff n 0))))
]

module _ (call : String → String → String → Attempt)
    (cache_path remote_path : String → String) where
  -- After a push that returns, every file whose status was new has an upload that returned without a
  -- failure.
  pub push_uploads_new :
      (info : StatusInfo) (rows : Table) (h name : String) {n : ℕ}
      → (push call cache_path remote_path info rows).0 ≡ ok n
      → get info.file_status h ≡ some (name, status_new)
      → get (file_futures call cache_path remote_path info) h ≡ some (ok 0)
  unfolding push
  push_uploads_new info rows h name {n} returned new =
      let planned = get_plans-new cache_path remote_path info.file_status h name new in
      let (f, g) = submit_files-get call (file_plans call cache_path remote_path info) h planned in
      let some_planned = planned-length (file_plans call cache_path remote_path info) h planned in
      let results =
        values (file_futures call cache_path remote_path info)
        ++ values (dir_futures call cache_path remote_path info) in
      let total =
        length (dir_plans call cache_path remote_path info)
        + length (file_plans call cache_path remote_path info) in
      let zero : sum_results results ≡ ok 0 =
        finish_push-eq-ok info.dir_contents (dir_futures call cache_path remote_path info) total
          rows (sum_results results) {n = n} (ground arith) in
      g
      ∙ ap some (
          sum_results-zero _ f zero
            (In-values _ (dir_futures call cache_path remote_path info) h f g))

  -- The plan of each deleted file is among the downloads.
  get_plans-deleted :
      (d : Dict String (String × Status)) (h name : String)
      → get d h ≡ some (name, status_deleted)
      → In
          (plan_entry cache_path remote_path true h name)
          (get_plans cache_path remote_path true d status_deleted).0
  unfolding get get_plans same_status
  get_plans-deleted [] h name e = cc
  get_plans-deleted ((k, (v, status_deleted)) ∷ d) h name e = elim (Bool-cases (h == k)) [
    | inl here ↦ inl (ground (arith, ==_iff h k))
    | inr there ↦ inr (get_plans-deleted d h name (ground arith))
  ]
  get_plans-deleted ((k, (v, status_ok)) ∷ d) h name e = get_plans-deleted d h name (ground arith)
  get_plans-deleted ((k, (v, status_missing)) ∷ d) h name e =
      get_plans-deleted d h name (ground arith)
  get_plans-deleted ((k, (v, status_new)) ∷ d) h name e = get_plans-deleted d h name (ground arith)

  run_plan-done : (p : Plan) → run_plan call p ≡ ok 0 → call p.from_info p.to_info p.name ≡ done
  unfolding run_plan log_exceptions
  run_plan-done p = go (call p.from_info p.to_info p.name)
    where
      go : (a : Attempt) → log_exceptions a ≡ ok 0 → a ≡ done
      go done h = refl
      go raised h = ground arith
      go out_of_descriptors h = cc

  In-run_plans :
      (p : Plan) (plans : List Plan) → In p plans → In (run_plan call p) (run_plans call plans)
  unfolding run_plans
  In-run_plans p [] m = absurd m
  In-run_plans p (q ∷ plans) (inl here) = inl (ap (run_plan call) here)
  In-run_plans p (q ∷ plans) (inr there) = inr (In-run_plans p plans there)

  -- A pull with a file or directory whose status is deleted ends in one of three ways. It returns, that
  -- file's download returned without a failure, and the index is as it was; or it raises DownloadError with
  -- a number of failures above 0, and the index is empty; or it raises OSError, and the index is as it was.
  pub pull_outcome :
      (info : StatusInfo) (rows : Table) (h name : String)
      → (get info.dir_status h ≡ some (name, status_deleted))
        ⊎ (get info.file_status h ≡ some (name, status_deleted))
      → ((n : ℕ) × ((pull call cache_path remote_path info rows ≡ (ok n, rows))
            × (call (remote_path h) (cache_path h) name ≡ done)))
        ⊎ (((n : ℕ) × ((pull call cache_path remote_path info rows
                  ≡ (err (download_error n), no_rows))
                × (0 < n)))
            ⊎ (pull call cache_path remote_path info rows ≡ (err os_error, rows)))
  unfolding pull
  pull_outcome info rows h name wanted =
      let p = plan_entry cache_path remote_path true h name in
      let dirs = (get_plans cache_path remote_path true info.dir_status status_deleted).0 in
      let files = (get_plans cache_path remote_path true info.file_status status_deleted).0 in
      let m : In p (dirs ++ files) = In-append dirs files p (elim wanted [
        | inl e ↦ inl (get_plans-deleted info.dir_status h name e)
        | inr e ↦ inr (get_plans-deleted info.file_status h name e)
      ]) in
      let results = run_plans call (dirs ++ files) in
      let positive = some_planned (dirs ++ files) p m in
      let busy : (length dirs + length files == 0) ≡ false =
        ground (arith, length-append dirs files) in
      elim (finish_pull-cases (length dirs + length files) rows (sum_results results)) [
        | inl (e, zero_failures) ↦ inl (
          length dirs + length files,
          (
            rw busy e,
            run_plan-done p
                (sum_results-zero results _ zero_failures (In-run_plans p (dirs ++ files) m)),
          ),
        )
        | inr (inl (n, (e, above))) ↦ inr (inl (n, (rw busy e, above)))
        | inr (inr e) ↦ inr (inr (rw busy e))
      ]
