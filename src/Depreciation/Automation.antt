-- ===== src/Depreciation/Automation.antt =====
-- The monthly runs of backend/depreciation/services/automation.py with `schedules_due_for_period` of
-- backend/depreciation/selectors.py. The steps of an execution commit one by one, so a failure
-- leaves the months that were posted before it.
use assetflow_fixed_asset_ma.Prelude.{
  ℕ, suc, ◌+◌, Bool, true, false, not, ◌&&◌, Option, none, some, List, [], ◌∷◌, leb, ◌==◌, ◌⊎◌, inl,
  inr, if◌then◌else◌, length, is_unset,
}
use assetflow_fixed_asset_ma.Calendar.{Date, before, same_date, month_days, first_of_month}
use assetflow_fixed_asset_ma.Result.{
  Result, ok, err, ◌>>=◌, ◌>>◌, raise_if, or_raise, organization_missing, run_missing,
}
use assetflow_fixed_asset_ma.Table.{find, exists, filter, count}
use assetflow_fixed_asset_ma.Records.{
  Org, Asset, is_active_asset, Period, is_open_period, first_day, ScheduleStatus, Schedule, Entry,
  RunStatus, RunFailure, Run, Action, Db, record_event,
}
use assetflow_fixed_asset_ma.Commercial.Entitlements.{require_write_access}
use assetflow_fixed_asset_ma.Depreciation.Posting.{next_period_for_schedule, post_depreciation}

-- The database and the table of runs.
pub record Books : Type 0 where
  pub db : Db
  pub runs : List Run

abbrev pub log : ℕ → Action → ℕ → Books → Books
log org action entity b = record b { db = record_event org none action entity b.db }

abbrev pub is_terminal_run : RunStatus → Bool
is_terminal_run RunStatus.completed_run = true
is_terminal_run RunStatus.failed = true
is_terminal_run _ = false

abbrev pub is_pending_run : RunStatus → Bool
is_pending_run RunStatus.pending = true
is_pending_run _ = false

abbrev pub is_running : ScheduleStatus → Bool
is_running ScheduleStatus.running = true
is_running ScheduleStatus.complete = false

-- `DepreciationRun.objects.get(pk=run_id)`
unfoldable pub find_run : ℕ → List Run → Option Run
find_run pk runs = find (λ (r : Run). r.pk == pk) runs

-- A save of columns of the row with a key.
unfoldable pub change_run : ℕ → (Run → Run) → List Run → List Run
change_run pk set [] = []
change_run pk set (r ∷ runs) = (if r.pk == pk then set r else r) ∷ change_run pk set runs

abbrev pub failed_run : ℕ → RunFailure → Run → Run
failed_run now failure r = record r {
  status = RunStatus.failed;
  failed_at = some now;
  failure = some failure;
}

-- `_mark_failed`, and `_period_outcome` with the status that its callers pass.
unfoldable pub mark_failed : ℕ → RunFailure → Run → Books → Books
mark_failed now failure run b =
    log run.org Action.depreciation_run_failed run.pk
      (record b { runs = change_run run.pk (failed_run now failure) b.runs })

-- `AccountingPeriod.last_day`
abbrev pub last_day : Period → Date
last_day p = record { year = p.year; month = p.month; day = month_days p.year p.month }

unfoldable pub on_active_asset : Schedule → Db → Bool
on_active_asset s db = exists (λ (a : Asset). a.pk == s.asset && is_active_asset a.status) db.assets

-- `schedules_due_for_period`; `order_by` is the database's sort by asset tag.
unfoldable pub schedules_due_for_period :
    (List Schedule → List Schedule) → ℕ → Period → Db → List Schedule
schedules_due_for_period order_by org period db = order_by (
    filter
      (λ (s : Schedule).
        s.org == org
        && is_running s.status
        && on_active_asset s db
        && not (before (last_day period) s.start_date))
      db.schedules)

-- The schedule's position against the period: what the month after its entries says.
abbrev pub position : Period → Schedule → ℕ → Result Date → RunFailure ⊎ Bool
position period s posted (err fault) = inl (RunFailure.posting_failed fault)
position period s posted (ok expected) =
    if before expected (first_day period)
    then inl RunFailure.schedule_behind
    else (if before (first_day period) expected
        then inl RunFailure.schedule_beyond
        else (if before s.end_date (first_day period)
            then inr false
            else (if leb s.useful_life_months posted
                then inl RunFailure.fully_posted
                else inr true)))

unfoldable pub is_due : ℕ → Period → Db → Schedule → RunFailure ⊎ Bool
is_due org period db s =
    let posted = count (λ (e : Entry). e.schedule == s.pk) db.entries in
    if exists (λ (e : Entry). e.org == org && e.schedule == s.pk && e.period == period.pk)
      db.entries
    then inr false
    else position period s posted (next_period_for_schedule s posted)

abbrev pub add_due :
    Schedule → RunFailure ⊎ Bool → RunFailure ⊎ List Schedule → RunFailure ⊎ List Schedule
add_due s (inl failure) others = inl failure
add_due s (inr false) others = others
add_due s (inr true) (inl failure) = inl failure
add_due s (inr true) (inr due) = inr (s ∷ due)

-- The loop that collects `due`.
unfoldable pub collect_due : ℕ → Period → Db → List Schedule → RunFailure ⊎ List Schedule
collect_due org period db [] = inr []
collect_due org period db (s ∷ schedules) =
    add_due s (is_due org period db s) (collect_due org period db schedules)

unfoldable pub sum_amounts : List Entry → ℕ
sum_amounts [] = 0
sum_amounts (e ∷ es) = e.depreciation_amount + sum_amounts es

-- The entries that the system posted for the run's period.
unfoldable pub system_entries : ℕ → ℕ → Db → List Entry
system_entries org period db =
    filter (λ (e : Entry). e.org == org && e.period == period && is_unset e.created_by) db.entries

-- A run with `_system_posting_totals`.
unfoldable pub with_totals : ℕ → Db → Run → Run
with_totals period db r = record r {
  entries_posted = length (system_entries r.org period db);
  total_depreciation_posted = sum_amounts (system_entries r.org period db);
}

-- `_persist_progress`
unfoldable pub persist_progress : Run → ℕ → Books → Books
persist_progress run period b = record b {
  runs = change_run run.pk (with_totals period b.db) b.runs;
}

-- After a call of `post_depreciation`: a fault stops the loop, and a success is persisted.
abbrev pub after_posting :
    Run
    → ℕ
    → Books
    → (Books → Books × Option RunFailure)
    → Result (Db × Entry)
    → Books × Option RunFailure
after_posting run period b rest (err fault) = (b, some (RunFailure.posting_failed fault))
after_posting run period b rest (ok r) = rest (persist_progress run period (record b { db = r.0 }))

-- The loop that posts.
unfoldable pub post_all : ℕ → Run → ℕ → List Schedule → Books → Books × Option RunFailure
post_all now run period [] b = (b, none)
post_all now run period (s ∷ due) b =
    after_posting run period b (post_all now run period due)
      (post_depreciation now s.asset period none (some run.org) b.db)

abbrev pub started_run : ℕ → Run → Run
started_run now r = record r { status = RunStatus.running_run; started_at = some now }

-- A pending run starts; a running one goes on.
unfoldable pub start_run : ℕ → Run → Books → Books
start_run now run b =
    if is_pending_run run.status
    then log run.org Action.depreciation_run_started run.pk
        (record b { runs = change_run run.pk (started_run now) b.runs })
    else b

abbrev pub considered : ℕ → Run → Run
considered n r = record r { schedules_considered = n; assets_considered = n }

abbrev pub completed_run_row : ℕ → ℕ → Db → Run → Run
completed_run_row now period db r = record (with_totals period db r) {
  status = RunStatus.completed_run;
  completed_at = some now;
}

unfoldable pub complete_run : ℕ → Run → ℕ → Books → Books
complete_run now run period b =
    log run.org Action.depreciation_run_completed run.pk
      (record b { runs = change_run run.pk (completed_run_row now period b.db) b.runs })

-- The handler of an exception marks the run; the totals that it computes are not saved.
abbrev pub finish_run : ℕ → Run → ℕ → Books × Option RunFailure → Books
finish_run now run period (b, none) = complete_run now run period b
finish_run now run period (b, some failure) = mark_failed now failure run b

abbrev pub post_due : ℕ → Run → ℕ → Books → RunFailure ⊎ List Schedule → Books
post_due now run period b (inl failure) = mark_failed now failure run b
post_due now run period b (inr due) = finish_run now run period (post_all now run period due b)

-- The run once its period is known to be open.
unfoldable pub run_period : ℕ → ℕ → (List Schedule → List Schedule) → Run → Period → Books → Books
run_period now later order_by run period b =
    let started = start_run now run b in
    let schedules = schedules_due_for_period order_by run.org period started.db in
    let counted : Books = record started {
      runs = change_run run.pk (considered (length schedules)) started.runs;
    } in
    post_due later run period.pk counted (collect_due run.org period started.db schedules)

abbrev pub period_of : Option ℕ → Db → Option Period
period_of none db = none
period_of (some pk) db = find (λ (p : Period). p.pk == pk) db.periods

abbrev pub run_if_open :
    ℕ → ℕ → (List Schedule → List Schedule) → Run → Option Period → Books → Books
run_if_open now later order_by run none b = mark_failed now RunFailure.period_unavailable run b
run_if_open now later order_by run (some period) b =
    if is_open_period period.status
    then run_period now later order_by run period b
    else mark_failed now RunFailure.period_unavailable run b

abbrev pub run_unless_ended : ℕ → ℕ → (List Schedule → List Schedule) → Run → Books → Books
run_unless_ended now later order_by run b =
    if is_terminal_run run.status
    then b
    else run_if_open now later order_by run (period_of run.accounting_period b.db) b

-- `execute_monthly_run`; `acquired` is what the advisory lock answers, `now` the instant of its
-- start and `later` that of its postings and its end.
unfoldable pub execute_monthly_run :
    Bool → ℕ → ℕ → (List Schedule → List Schedule) → ℕ → Books → Result Books
execute_monthly_run acquired now later order_by run_id b = do
  run ← or_raise (find_run run_id b.runs) run_missing
  ok (if acquired then run_unless_ended now later order_by run b else b)

unfoldable pub period_in : ℕ → Date → Db → Option Period
period_in org window db =
    find (λ (p : Period). p.org == org && p.year == window.year && p.month == window.month)
      db.periods

unfoldable pub run_in : ℕ → Date → List Run → Option Run
run_in org window runs = find (λ (r : Run). r.org == org && same_date r.scheduled_for window) runs

abbrev pub period_key : Option Period → Option ℕ
period_key none = none
period_key (some p) = some p.pk

abbrev pub new_run : ℕ → Date → Option Period → ℕ → Run
new_run org window period pk = record {
  pk = pk;
  org = org;
  accounting_period = period_key period;
  scheduled_for = window;
  status = RunStatus.pending;
  started_at = none;
  completed_at = none;
  failed_at = none;
  schedules_considered = 0;
  assets_considered = 0;
  entries_posted = 0;
  total_depreciation_posted = 0;
  failure = none;
}

-- A new run of a month without an open period fails at once.
abbrev pub check_period : ℕ → Run → Option Period → Books → Books
check_period now run none b = mark_failed now RunFailure.period_missing_failure run b
check_period now run (some p) b =
    if is_open_period p.status then b else mark_failed now RunFailure.period_closed_failure run b

unfoldable pub created_run : ℕ → ℕ → Date → Option Period → Books → Books
created_run now org window period b =
    let run = new_run org window period b.db.next_key in
    check_period now run period (
      log org Action.depreciation_run_scheduled run.pk
        (record b { db = record b.db { next_key = suc b.db.next_key }; runs = run ∷ b.runs }))

-- `get_or_create` of the month's run; the second component is `created`.
abbrev pub get_or_create : ℕ → ℕ → Date → Option Run → Books → Books × Bool
get_or_create now org window (some run) b = (b, false)
get_or_create now org window none b =
    (created_run now org window (period_in org window b.db) b, true)

-- `schedule_organization_depreciation`, without the task that it enqueues.
unfoldable pub schedule_organization_depreciation : ℕ → ℕ → Date → Books → Result (Books × Bool)
schedule_organization_depreciation now org window b = do
  raise_if (not (exists (λ (o : Org). o.pk == org && o.is_active) b.db.organizations))
      organization_missing
  require_write_access now org b.db
  ok (get_or_create now org (first_of_month window) (run_in org (first_of_month window) b.runs) b)
