-- ===== src/Depreciation/Executing.antt =====
-- Monthly runs: an execution always ends its run, and an ended run is left alone.
use mathlib.Core.Path.{subst}
use assetflow_fixed_asset_ma.Prelude.{
  ℕ, ◌≡◌, refl, ap, ◌∙◌, Bool, true, false, Option, none, some, List, [], ◌∷◌, ◌==◌, ==_iff, ◌⊎◌,
  inl, inr, Bool-cases, if◌then◌else◌,
}
use assetflow_fixed_asset_ma.Result.{Result, ok, err, or_raise-step}
use assetflow_fixed_asset_ma.Table.{find, find-test}
use assetflow_fixed_asset_ma.Records.{Period, is_open_period, Schedule, RunFailure, Run, Db, Entry}
use assetflow_fixed_asset_ma.Depreciation.Automation.{
  Books, is_terminal_run, is_pending_run, find_run, change_run, failed_run, mark_failed,
  with_totals, persist_progress, after_posting, post_all, started_run, start_run, considered,
  completed_run_row, complete_run, finish_run, post_due, run_period, period_of, run_if_open,
  run_unless_ended, execute_monthly_run,
}

abbrev pub IsPresent : ℕ → Books → Type 0
IsPresent pk b = (r : Run) × (find_run pk b.runs ≡ some r)

-- The run is in the table, completed or failed.
abbrev pub IsEnded : ℕ → Books → Type 0
IsEnded pk b = (r : Run) × (find_run pk b.runs ≡ some r) × (is_terminal_run r.status ≡ true)

pub find_run-change_run :
    (pk : ℕ) (set : Run → Run) (runs : List Run) {r : Run}
    → ((x : Run) → (set x).pk ≡ x.pk)
    → find_run pk runs ≡ some r
    → find_run pk (change_run pk set runs) ≡ some (set r)
unfolding find_run change_run find
find_run-change_run pk set [] keeps h = cc
find_run-change_run pk set (x ∷ runs) {r} keeps h = elim (Bool-cases (x.pk == pk)) [
  | inl e ↦
      let same : x ≡ r = cc (rw e at h) in
      let test : ((set x).pk == pk) ≡ true = ap (λ n. n == pk) (keeps x) ∙ e in
      rw (e, test) (ap (λ y. some (set y)) same)
  | inr e ↦ rw (e, e) (find_run-change_run pk set runs keeps (rw e at h))
]

mark_failed-IsEnded :
    (now : ℕ) (failure : RunFailure) (run : Run) (b : Books)
    → IsPresent run.pk b
    → IsEnded run.pk (mark_failed now failure run b)
unfolding mark_failed
mark_failed-IsEnded now failure run b (r, h) = (
  failed_run now failure r,
  find_run-change_run run.pk (failed_run now failure) b.runs (λ x. refl) h,
  refl,
)

complete_run-IsEnded :
    (now : ℕ) (run : Run) (period : ℕ) (b : Books)
    → IsPresent run.pk b
    → IsEnded run.pk (complete_run now run period b)
unfolding complete_run with_totals
complete_run-IsEnded now run period b (r, h) = (
  completed_run_row now period b.db r,
  find_run-change_run run.pk (completed_run_row now period b.db) b.runs (λ x. refl) h,
  refl,
)

after_posting-IsPresent :
    (run : Run) (period : ℕ) (b : Books) (rest : Books → Books × Option RunFailure)
    (posted : Result (Db × Entry))
    → IsPresent run.pk b
    → ((c : Books) → IsPresent run.pk c → IsPresent run.pk (rest c).0)
    → IsPresent run.pk (after_posting run period b rest posted).0
unfolding persist_progress with_totals
after_posting-IsPresent run period b rest (err fault) h keeps = h
after_posting-IsPresent run period b rest (ok p) (r, h) keeps =
    keeps (persist_progress run period (record b { db = p.0 })) (
      with_totals period p.0 r,
      find_run-change_run run.pk (with_totals period p.0) b.runs (λ x. refl) h,
    )

pub post_all-IsPresent :
    (now : ℕ) (run : Run) (period : ℕ) (due : List Schedule) (b : Books)
    → IsPresent run.pk b
    → IsPresent run.pk (post_all now run period due b).0
unfolding post_all
post_all-IsPresent now run period [] b h = h
post_all-IsPresent now run period (s ∷ due) b h =
    after_posting-IsPresent run period b (post_all now run period due) _ h
      (λ c p. post_all-IsPresent now run period due c p)

pub start_run-IsPresent :
    (now : ℕ) (run : Run) (b : Books) → IsPresent run.pk b → IsPresent run.pk (start_run now run b)
unfolding start_run
start_run-IsPresent now run b (r, h) = elim (Bool-cases (is_pending_run run.status)) [
  | inl e ↦
      rw e (started_run now r, find_run-change_run run.pk (started_run now) b.runs (λ x. refl) h)
  | inr e ↦ rw e (r, h)
]

finish_run-IsEnded :
    (now : ℕ) (run : Run) (period : ℕ) (c : Books × Option RunFailure)
    → IsPresent run.pk c.0
    → IsEnded run.pk (finish_run now run period c)
finish_run-IsEnded now run period (b, none) h = complete_run-IsEnded now run period b h
finish_run-IsEnded now run period (b, some failure) h = mark_failed-IsEnded now failure run b h

post_due-IsEnded :
    (now : ℕ) (run : Run) (period : ℕ) (b : Books) (due : RunFailure ⊎ List Schedule)
    → IsPresent run.pk b
    → IsEnded run.pk (post_due now run period b due)
post_due-IsEnded now run period b (inl failure) h = mark_failed-IsEnded now failure run b h
post_due-IsEnded now run period b (inr due) h =
    finish_run-IsEnded now run period (post_all now run period due b)
      (post_all-IsPresent now run period due b h)

run_period-IsEnded :
    (now later : ℕ) (order_by : List Schedule → List Schedule) (run : Run) (period : Period)
    (b : Books)
    → IsPresent run.pk b
    → IsEnded run.pk (run_period now later order_by run period b)
unfolding run_period
run_period-IsEnded now later order_by run period b h =
    let (r, started) = start_run-IsPresent now run b h in
    post_due-IsEnded later run period.pk _ _ (
      considered _ r,
      find_run-change_run run.pk (considered _) (start_run now run b).runs (λ x. refl) started,
    )

run_if_open-IsEnded :
    (now later : ℕ) (order_by : List Schedule → List Schedule) (run : Run) (period : Option Period)
    (b : Books)
    → IsPresent run.pk b
    → IsEnded run.pk (run_if_open now later order_by run period b)
run_if_open-IsEnded now later order_by run none b h = mark_failed-IsEnded now _ run b h
run_if_open-IsEnded now later order_by run (some period) b h =
    elim (Bool-cases (is_open_period period.status)) [
      | inl e ↦ rw e (run_period-IsEnded now later order_by run period b h)
      | inr e ↦ rw e (mark_failed-IsEnded now _ run b h)
    ]

run_unless_ended-IsEnded :
    (now later : ℕ) (order_by : List Schedule → List Schedule) (run : Run) (b : Books)
    → find_run run.pk b.runs ≡ some run
    → IsEnded run.pk (run_unless_ended now later order_by run b)
run_unless_ended-IsEnded now later order_by run b h =
    elim (Bool-cases (is_terminal_run run.status)) [
      | inl e ↦ rw e (run, h, e)
      | inr e ↦ rw e (
          run_if_open-IsEnded now later order_by run (period_of run.accounting_period b.db) b
            (run, h))
    ]

pub run_key : (pk : ℕ) (runs : List Run) {r : Run} → find_run pk runs ≡ some r → r.pk ≡ pk
unfolding find_run
run_key pk runs {r} h = (==_iff r.pk pk).0 (find-test _ runs h)

chosen : {A : Type 0} (c : Bool) (x : A) → (if c then x else x) ≡ x
chosen true x = refl
chosen false x = refl

execute-IsEnded :
    (acquired : Bool) (now later : ℕ) (order_by : List Schedule → List Schedule) (pk : ℕ)
    (b : Books)
    → IsEnded pk b
    → execute_monthly_run acquired now later order_by pk b ≡ ok b
unfolding execute_monthly_run
execute-IsEnded acquired now later order_by pk b (r, h, e) =
    or_raise-step _ _ h ∙ ap ok (rw e (chosen acquired b))

-- An execution that gets the lock of a stored run always returns, whatever its postings do; it leaves
-- the run completed or failed, and every later execution, with the lock or without, leaves the database
-- as it is.
pub execute_monthly_run_once :
    (now later : ℕ) (order_by : List Schedule → List Schedule) (pk : ℕ) (b : Books) (run : Run)
    → find_run pk b.runs ≡ some run
    → (after : Books) × (execute_monthly_run true now later order_by pk b ≡ ok after)
      × IsEnded pk after
      × ((acquired : Bool) (m n : ℕ) (order : List Schedule → List Schedule)
          → execute_monthly_run acquired m n order pk after ≡ ok after)
unfolding execute_monthly_run
execute_monthly_run_once now later order_by pk b run h =
    let key : run.pk ≡ pk = run_key pk b.runs h in
    let ended : IsEnded pk (run_unless_ended now later order_by run b) =
      subst (λ n. IsEnded n (run_unless_ended now later order_by run b)) key
        (run_unless_ended-IsEnded now later order_by run b (ap (λ n. find_run n b.runs) key ∙ h)) in
    (
      run_unless_ended now later order_by run b,
      or_raise-step _ _ h,
      ended,
      λ acquired m n order.
          execute-IsEnded acquired m n order pk (run_unless_ended now later order_by run b) ended,
    )
