-- ===== src/Records/Ledgers.antt =====
-- Accounting periods, schedules and ledger entries: backend/depreciation/models.py.
use assetflow_fixed_asset_ma.Prelude.{ℕ, Bool, true, false, Option}
use assetflow_fixed_asset_ma.Result.{Fault}
use assetflow_fixed_asset_ma.Calendar.{Date}
use assetflow_fixed_asset_ma.Depreciation.Engine.{Method}

pub data PeriodStatus : Type 0 where
  open_period closed_period : PeriodStatus

abbrev pub is_open_period : PeriodStatus → Bool
is_open_period open_period = true
is_open_period closed_period = false

pub record Period : Type 0 where
  pub pk : ℕ
  pub org : ℕ
  pub year : ℕ
  pub month : ℕ
  pub status : PeriodStatus
  pub closed_at : Option ℕ
  pub closed_by : Option ℕ

-- `AccountingPeriod.first_day`
abbrev pub first_day : Period → Date
first_day p = record { year = p.year; month = p.month; day = 1 }

pub data ScheduleStatus : Type 0 where
  running complete : ScheduleStatus

pub record Schedule : Type 0 where
  pub pk : ℕ
  pub org : ℕ
  pub asset : ℕ
  pub method : Method
  pub capitalized_cost : ℕ
  pub depreciable_base : ℕ
  pub residual_value : ℕ
  pub useful_life_months : ℕ
  pub start_date : Date
  pub end_date : Date
  pub periodic_depreciation : ℕ
  pub status : ScheduleStatus

-- A posted month; `period` is the key of the accounting period, `year` and `month` its columns.
pub record Entry : Type 0 where
  pub pk : ℕ
  pub org : ℕ
  pub asset : ℕ
  pub schedule : ℕ
  pub period : ℕ
  pub year : ℕ
  pub month : ℕ
  pub opening_book_value : ℕ
  pub depreciation_amount : ℕ
  pub accumulated_depreciation : ℕ
  pub closing_book_value : ℕ
  pub created_by : Option ℕ

pub data RunStatus : Type 0 where
  pending running_run completed_run failed : RunStatus

-- Why a run failed: the period was missing or closed, or a step of it raised.
pub data RunFailure : Type 0 where
  period_missing_failure period_closed_failure period_unavailable : RunFailure
  schedule_behind schedule_beyond fully_posted : RunFailure
  posting_failed : Fault → RunFailure

-- A `DepreciationRun`; the source is always SCHEDULED.
pub record Run : Type 0 where
  pub pk : ℕ
  pub org : ℕ
  pub accounting_period : Option ℕ
  pub scheduled_for : Date
  pub status : RunStatus
  pub started_at : Option ℕ
  pub completed_at : Option ℕ
  pub failed_at : Option ℕ
  pub schedules_considered : ℕ
  pub assets_considered : ℕ
  pub entries_posted : ℕ
  pub total_depreciation_posted : ℕ
  pub failure : Option RunFailure
