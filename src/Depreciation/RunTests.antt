-- ===== src/Depreciation/RunTests.antt =====
-- A monthly run that is scheduled for January, posts the press and is asked for again.
use mathlib.Core.List.Memᴰ
use mathlib.Core.List.Permᴰ
use assetflow_fixed_asset_ma.Prelude.{
  ℕ, ◌≡◌, refl, Bool, true, false, ◌&&◌, ◌==◌, none, some, List, [], ◌∷◌,
}
use assetflow_fixed_asset_ma.Calendar.{
  is_leap, month_days, before, same_date, make_date, first_of_month, month_offset,
}
use assetflow_fixed_asset_ma.Result.{ok}
use assetflow_fixed_asset_ma.Table.{find, exists, filter, count, save}
use assetflow_fixed_asset_ma.Records.{Schedule, Entry, RunStatus, Run, find_asset}
use assetflow_fixed_asset_ma.Commercial.Entitlements.{writable, require_write_access}
use assetflow_fixed_asset_ma.Depreciation.Engine.{calculate_period_amount}
use assetflow_fixed_asset_ma.Depreciation.Posting.{
  organization_of, next_period_for_schedule, latest, agrees, settle, find_period, find_schedule,
  entries_of, posted_in, record_posting, post_month, post_in_organization, post_depreciation,
}
use assetflow_fixed_asset_ma.Depreciation.Automation.{
  Books, find_run, change_run, mark_failed, on_active_asset, schedules_due_for_period, is_due,
  collect_due, sum_amounts, system_entries, with_totals, persist_progress, post_all, start_run,
  complete_run, run_period, period_of, period_in, run_in, created_run,
  schedule_organization_depreciation, execute_monthly_run,
}
use assetflow_fixed_asset_ma.Depreciation.Executing.{IsEnded, execute_monthly_run_once}
use assetflow_fixed_asset_ma.Depreciation.Runs.{schedule_organization_depreciation_once}
use assetflow_fixed_asset_ma.Depreciation.Waiting.{execute_monthly_run-IsPosted}
use assetflow_fixed_asset_ma.Samples.{new_year, january, press, press_schedule, books}

abbrev idle_books : Books
idle_books = record { db = books (press 1000 3) (press_schedule 1000 3 333 ∷ []); runs = [] }

scheduled : (r : Books × Bool) × (schedule_organization_depreciation 5 1 new_year idle_books ≡ ok r)
unfolding before same_date first_of_month find exists writable require_write_access mark_failed
    change_run period_in run_in created_run schedule_organization_depreciation
scheduled = (_, refl)

access : require_write_access 6 1 idle_books.db ≡ ok tt
unfolding find writable require_write_access
access = refl

schedule_organization_depreciation_once_example :
    schedule_organization_depreciation 6 1
      (record { year = 2024; month = 1; day = 20 })
      scheduled.0.0
    ≡ ok (scheduled.0.0, false)
unfolding first_of_month
schedule_organization_depreciation_once_example =
    schedule_organization_depreciation_once 5 6 1 new_year
      (record { year = 2024; month = 1; day = 20 }) idle_books scheduled.1 refl access

stored_run : (run : Run) × (find_run 61 scheduled.0.0.runs ≡ some run)
unfolding before same_date first_of_month find exists writable require_write_access mark_failed
    change_run period_in run_in created_run schedule_organization_depreciation scheduled find_run
stored_run = (_, refl)

execute_monthly_run_once_example :
    (after : Books) × (execute_monthly_run true 7 8 (λ s. s) 61 scheduled.0.0 ≡ ok after)
    × IsEnded 61 after
    × ((acquired : Bool) (m n : ℕ) (order : List Schedule → List Schedule)
        → execute_monthly_run acquired m n order 61 after ≡ ok after)
execute_monthly_run_once_example =
    execute_monthly_run_once 7 8 (λ s. s) 61 scheduled.0.0 stored_run.0 stored_run.1

-- The run of January with the schedule of the press.
abbrev january_run : Run
january_run = record {
  pk = 81;
  org = 1;
  accounting_period = some 51;
  scheduled_for = new_year;
  status = RunStatus.pending;
  started_at = none;
  completed_at = none;
  failed_at = none;
  schedules_considered = 0;
  assets_considered = 0;
  entries_posted = 0;
  total_depreciation_posted = 0;
  failure = none;
}

abbrev waiting_books : Books
waiting_books = record idle_books { runs = january_run ∷ [] }

run_found : find_run 81 waiting_books.runs ≡ some january_run
unfolding find_run find
run_found = refl

period_found : period_of (some 51) waiting_books.db ≡ some january
unfolding find
period_found = refl

execution :
    (after : Books) × (execute_monthly_run true 7 8 (λ s. s) 81 waiting_books ≡ ok after)
    × (r : Run) × (find_run 81 after.runs ≡ some r)
    × (r.status ≡ RunStatus.completed_run)
unfolding find exists filter count save is_leap month_days before same_date make_date first_of_month
    month_offset writable require_write_access organization_of next_period_for_schedule latest
    agrees settle find_period find_schedule entries_of posted_in record_posting post_month
    post_in_organization post_depreciation calculate_period_amount find_run change_run
    on_active_asset schedules_due_for_period is_due collect_due sum_amounts system_entries
    with_totals persist_progress post_all start_run complete_run run_period execute_monthly_run
    find_asset
execution = (_, refl, _, refl, refl)

execute_monthly_run-IsPosted_example :
    exists (λ (e : Entry). e.org == 1 && e.asset == 21 && e.period == 51) execution.0.db.entries
    ≡ true
unfolding before exists month_days
execute_monthly_run-IsPosted_example =
    execute_monthly_run-IsPosted 7 8 (λ s. s) 81 waiting_books january_run january
      (press_schedule 1000 3 333) (λ l. Permᴰ.refl l) run_found refl period_found execution.1
      execution.3 execution.4 (Memᴰ.head refl) refl refl refl refl refl refl
