-- ===== src/Depreciation/Completing.antt =====
-- A monthly run that ends completed: every schedule that its loop collected has its entry.
use mathlib.Core.Path.{subst}
use assetflow_fixed_asset_ma.Prelude.{
  ℕ, ◌≡◌, refl, sym, ap, ◌∙◌, true, false, Option, none, some, List, [], ◌∷◌, ◌⊎◌, inl, inr,
  Bool-cases, All, length,
}
use assetflow_fixed_asset_ma.Result.{ok, or_raise-then, ok-injective, some-injective}
use assetflow_fixed_asset_ma.Records.{
  Period, is_open_period, Schedule, RunStatus, RunFailure, Run, Db,
}
use assetflow_fixed_asset_ma.Depreciation.Automation.{
  Books, is_pending_run, is_terminal_run, find_run, change_run, failed_run, mark_failed,
  on_active_asset, schedules_due_for_period, is_due, collect_due, post_all, start_run, considered,
  complete_run, finish_run, post_due, run_period, period_of, run_unless_ended, execute_monthly_run,
}
use assetflow_fixed_asset_ma.Depreciation.Executing.{
  IsPresent, find_run-change_run, start_run-IsPresent, post_all-IsPresent, run_key,
}
use assetflow_fixed_asset_ma.Depreciation.Posted.{IsPosted, post_all-IsPosted}

-- The run is stored as completed.
abbrev IsCompleted : ℕ → Books → Type 0
IsCompleted pk b = (r : Run) × (find_run pk b.runs ≡ some r) × (r.status ≡ RunStatus.completed_run)

failed_completed : RunStatus.failed ≡ RunStatus.completed_run → ⊥
failed_completed h = cc

never_completed :
    (now : ℕ) (failure : RunFailure) (run : Run) (b : Books)
    → IsPresent run.pk b
    → IsCompleted run.pk (mark_failed now failure run b)
    → ⊥
unfolding mark_failed
never_completed now failure run b (x, there) (r, found, e) =
    let same = some-injective (
      sym (find_run-change_run run.pk (failed_run now failure) b.runs (λ y. refl) there) ∙ found) in
    failed_completed (ap (λ (y : Run). y.status) same ∙ e)

finish_run-IsPosted :
    (now : ℕ) (run : Run) (period : ℕ) (c : Books × Option RunFailure) (due : List Schedule)
    → IsPresent run.pk c.0
    → (c.1 ≡ none → All (IsPosted run.org period c.0) due)
    → IsCompleted run.pk (finish_run now run period c)
    → All (IsPosted run.org period (finish_run now run period c)) due
unfolding complete_run
finish_run-IsPosted now run period (b, none) due h posted done = posted refl
finish_run-IsPosted now run period (b, some failure) due h posted done =
    absurd (never_completed now failure run b h done)

-- What was due, and that it is posted.
record Due (run : Run) (period : ℕ) (found : RunFailure ⊎ List Schedule) (after : Books)
    : Type 0 where
  due : List Schedule
  collected : found ≡ inr due
  posted : All (IsPosted run.org period after) due

post_due-Due :
    (now : ℕ) (run : Run) (period : ℕ) (b : Books) (found : RunFailure ⊎ List Schedule)
    → IsPresent run.pk b
    → IsCompleted run.pk (post_due now run period b found)
    → Due run period found (post_due now run period b found)
post_due-Due now run period b (inl failure) h done =
    absurd (never_completed now failure run b h done)
post_due-Due now run period b (inr due) h done = record {
  due = due;
  collected = refl;
  posted =
      finish_run-IsPosted now run period (post_all now run period due b) due
        (post_all-IsPresent now run period due b h) (post_all-IsPosted now run period due b) done;
}

collect_due_same :
    (org : ℕ) (period : Period) (db db' : Db) (schedules : List Schedule)
    → db'.entries ≡ db.entries
    → collect_due org period db' schedules ≡ collect_due org period db schedules
unfolding collect_due is_due
collect_due_same org period db db' [] e = refl
collect_due_same org period db db' (s ∷ schedules) e =
    rw (e, collect_due_same org period db db' schedules e) refl

schedules_due_same :
    (order_by : List Schedule → List Schedule) (org : ℕ) (period : Period) (db db' : Db)
    → db'.schedules ≡ db.schedules
    → db'.assets ≡ db.assets
    → schedules_due_for_period order_by org period db'
      ≡ schedules_due_for_period order_by org period db
unfolding schedules_due_for_period on_active_asset
schedules_due_same order_by org period db db' e f = rw (e, f) refl

start_run_tables :
    (now : ℕ) (run : Run) (b : Books)
    → ((start_run now run b).db.entries ≡ b.db.entries)
      × ((start_run now run b).db.schedules ≡ b.db.schedules)
      × ((start_run now run b).db.assets ≡ b.db.assets)
unfolding start_run
start_run_tables now run b = elim (Bool-cases (is_pending_run run.status)) [
  | inl e ↦ rw e (refl, refl, refl)
  | inr e ↦ rw e (refl, refl, refl)
]

-- The schedules that a database has due for an organization's period.
abbrev due_in : (List Schedule → List Schedule) → ℕ → Period → Db → RunFailure ⊎ List Schedule
due_in order_by org period db =
    collect_due org period db (schedules_due_for_period order_by org period db)

run_period-Due :
    (now later : ℕ) (order_by : List Schedule → List Schedule) (run : Run) (period : Period)
    (b : Books)
    → IsPresent run.pk b
    → IsCompleted run.pk (run_period now later order_by run period b)
    → Due run period.pk
        (due_in order_by run.org period b.db)
        (run_period now later order_by run period b)
unfolding run_period
run_period-Due now later order_by run period b h done =
    let started = start_run now run b in
    let (r, there) = start_run-IsPresent now run b h in
    let (entries, schedules, assets) = start_run_tables now run b in
    let list = schedules_due_for_period order_by run.org period started.db in
    let counted : Books = record started {
      runs = change_run run.pk (considered (length list)) started.runs;
    } in
    let present : IsPresent run.pk counted = (
      considered (length list) r,
      find_run-change_run run.pk (considered (length list)) started.runs (λ x. refl) there,
    ) in
    let same : due_in order_by run.org period started.db ≡ due_in order_by run.org period b.db =
      collect_due_same run.org period b.db started.db list entries
      ∙ ap (collect_due run.org period b.db)
          (schedules_due_same order_by run.org period b.db started.db schedules assets) in
    let d =
      post_due-Due later run period.pk counted (collect_due run.org period started.db list) present
        done in
    record { due = d.due; collected = sym same ∙ d.collected; posted = d.posted }

run_unless_ended-Due :
    (now later : ℕ) (order_by : List Schedule → List Schedule) (run : Run) (period : Period)
    (b : Books)
    → find_run run.pk b.runs ≡ some run
    → is_terminal_run run.status ≡ false
    → period_of run.accounting_period b.db ≡ some period
    → IsCompleted run.pk (run_unless_ended now later order_by run b)
    → Due run period.pk
        (due_in order_by run.org period b.db)
        (run_unless_ended now later order_by run b)
run_unless_ended-Due now later order_by run period b there going e =
    rw (going, e)
      (λ done. elim (Bool-cases (is_open_period period.status)) [
        | inl o ↦ rw o (run_period-Due now later order_by run period b (run, there) (rw o at done))
        | inr o ↦ absurd (never_completed now _ run b (run, there) (rw o at done))
      ])

-- What a completed run collected, and that it is posted.
pub execute_monthly_run-Due :
    (now later : ℕ) (order_by : List Schedule → List Schedule) (pk : ℕ) (b : Books) (run : Run)
    (period : Period) {after : Books} {r : Run}
    → find_run pk b.runs ≡ some run
    → is_terminal_run run.status ≡ false
    → period_of run.accounting_period b.db ≡ some period
    → execute_monthly_run true now later order_by pk b ≡ ok after
    → find_run pk after.runs ≡ some r
    → r.status ≡ RunStatus.completed_run
    → (due : List Schedule) × (due_in order_by run.org period b.db ≡ inr due)
      × All (IsPosted run.org period.pk after) due
unfolding execute_monthly_run
execute_monthly_run-Due now later order_by pk b run period {after} {r} there going e h found done =
    let key : run.pk ≡ pk = run_key pk b.runs there in
    let (x, same_run, h1) = or_raise-then (find_run pk b.runs) _ _ h in
    let one : x ≡ run = some-injective (sym same_run ∙ there) in
    let result : run_unless_ended now later order_by run b ≡ after =
      ap (λ y. run_unless_ended now later order_by y b) (sym one) ∙ ok-injective h1 in
    let completed : IsCompleted run.pk (run_unless_ended now later order_by run b) =
      subst (IsCompleted run.pk) (sym result)
        (r, ap (λ n. find_run n after.runs) key ∙ found, done) in
    let d = subst (Due run period.pk (due_in order_by run.org period b.db)) result (
      run_unless_ended-Due now later order_by run period b (ap (λ n. find_run n b.runs) key ∙ there)
        going e completed) in
    (d.due, d.collected, d.posted)
