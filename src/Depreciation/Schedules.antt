-- ===== src/Depreciation/Schedules.antt =====
-- Accounting periods and the generation of schedules: the other operations of
-- backend/depreciation/services/posting.py.
use assetflow_fixed_asset_ma.Prelude.{
  ℕ, zero, suc, ◌-◌, Bool, not, ◌&&◌, ◌||◌, Option, none, some, ◌∷◌, ltb, leb, ◌==◌, is_set,
}
use assetflow_fixed_asset_ma.Prelude.Int.{ℤ, pos, pos_part}
use assetflow_fixed_asset_ma.Result.{
  Result, ok, ◌>>=◌, ◌>>◌, raise_if, or_raise, period_invalid, period_exists, period_missing,
  period_not_open, closure_invalid, asset_missing, asset_not_active, not_capitalized, not_available,
  available_too_early, method_unsupported, life_not_positive, cost_invalid, balance_not_initial,
  schedule_exists,
}
use assetflow_fixed_asset_ma.Table.{exists, save}
use assetflow_fixed_asset_ma.Calendar.{Date, before, schedule_end}
use assetflow_fixed_asset_ma.Depreciation.Engine.{is_slm, straight_line_periodic_amount}
use assetflow_fixed_asset_ma.Depreciation.Posting.{find_period}
use assetflow_fixed_asset_ma.Records.{
  User, Asset, is_active_asset, Period, PeriodStatus, open_period, closed_period, is_open_period,
  Schedule, ScheduleStatus, Action, Db, record_event, actor_organization, find_asset,
}

-- `uniq_period_per_org`
unfoldable pub period_taken : ℕ → ℕ → ℕ → Db → Bool
period_taken org year month db =
    exists (λ (p : Period). p.org == org && p.year == year && p.month == month) db.periods

unfoldable pub create_accounting_period : User → ℕ → ℕ → Db → Result (Db × Period)
create_accounting_period actor year month db = do
  org ← actor_organization actor
  raise_if (not (leb 1 month && leb month 12) || not (leb 1900 year && leb year 9999))
      period_invalid
  raise_if (period_taken org year month db) period_exists
  let period : Period = record {
    pk = db.next_key;
    org = org;
    year = year;
    month = month;
    status = open_period;
    closed_at = none;
    closed_by = none;
  }
  let db' : Db = record_event org (some actor.pk) Action.accounting_period_created db.next_key db
  ok (record db' { periods = period ∷ db.periods; next_key = suc db.next_key }, period)

-- `AccountingPeriod.clean`: a closed period has its closing time and actor, an open one neither.
abbrev pub closure_consistent : PeriodStatus → Period → Bool
closure_consistent open_period p = not (is_set p.closed_at || is_set p.closed_by)
closure_consistent closed_period p = is_set p.closed_at && is_set p.closed_by

unfoldable pub close_accounting_period : ℕ → User → ℕ → Db → Result (Db × Period)
close_accounting_period now actor period_id db = do
  org ← actor_organization actor
  period ← or_raise (find_period period_id org db) period_missing
  raise_if (not (is_open_period period.status)) period_not_open
  let closed : Period = record period {
    status = closed_period;
    closed_at = some now;
    closed_by = some actor.pk;
  }
  raise_if (not (closure_consistent closed.status closed)) closure_invalid
  let db' : Db = record_event org (some actor.pk) Action.accounting_period_closed period.pk db
  ok (record db' { periods = save (λ (p : Period). p.pk) closed db.periods }, closed)

abbrev pub positive_life : Option ℕ → Result ℕ
positive_life none = Result.err life_not_positive
positive_life (some zero) = Result.err life_not_positive
positive_life (some (suc n)) = ok (suc n)

unfoldable pub schedule_taken : Asset → Db → Bool
schedule_taken a db = exists (λ (s : Schedule). s.asset == a.pk) db.schedules

-- The schedule row that is created.
abbrev pub new_schedule : ℕ → Asset → ℕ → Date → Date → ℤ → Db → Schedule
new_schedule org a months start end periodic db = record {
  pk = db.next_key;
  org = org;
  asset = a.pk;
  method = a.depreciation_method;
  capitalized_cost = a.purchase_cost;
  depreciable_base = a.purchase_cost - a.residual_value;
  residual_value = a.residual_value;
  useful_life_months = months;
  start_date = start;
  end_date = end;
  periodic_depreciation = pos_part periodic;
  status = ScheduleStatus.running;
}

-- The checks of an asset with its dates at hand, and the rows that are written.
unfoldable pub schedule_asset : ℕ → User → Asset → Date → Date → Db → Result (Db × Schedule)
schedule_asset org actor a capitalized available db = do
  raise_if (before available capitalized) available_too_early
  raise_if (not (is_slm a.depreciation_method)) method_unsupported
  months ← positive_life a.useful_life_months
  raise_if (leb a.purchase_cost 0 || ltb a.purchase_cost a.residual_value) cost_invalid
  raise_if (not (a.current_book_value == a.purchase_cost) || not (a.accumulated_depreciation == 0))
      balance_not_initial
  raise_if (schedule_taken a db) schedule_exists
  periodic ←
      straight_line_periodic_amount (pos a.purchase_cost) (pos a.residual_value) (some months)
  end ← schedule_end available months
  let schedule : Schedule = new_schedule org a months available end periodic db
  let db' : Db =
      record_event org (some actor.pk) Action.depreciation_schedule_created db.next_key db
  ok (record db' { schedules = schedule ∷ db.schedules; next_key = suc db.next_key }, schedule)

unfoldable pub generate_depreciation_schedule : ℕ → User → Db → Result (Db × Schedule)
generate_depreciation_schedule asset_id actor db = do
  org ← actor_organization actor
  asset ← or_raise (find_asset asset_id org db) asset_missing
  raise_if (not (is_active_asset asset.status)) asset_not_active
  capitalized ← or_raise asset.capitalization_date not_capitalized
  available ← or_raise asset.available_for_use_date not_available
  schedule_asset org actor asset capitalized available db
