-- ===== src/Samples.antt =====
-- Sample rows on which the theorems are applied and the services are run.
use assetflow_fixed_asset_ma.Prelude.{ℕ, true, none, some, List, [], ◌∷◌}
use assetflow_fixed_asset_ma.Calendar.{Date}
use assetflow_fixed_asset_ma.Depreciation.Engine.{slm}
use assetflow_fixed_asset_ma.Records.{
  SubscriptionState, Org, User, AssetStatus, Asset, Period, open_period, Schedule, ScheduleStatus,
  Db,
}

abbrev pub naira : List ℕ
naira = b'N' ∷ b'G' ∷ b'N' ∷ []

-- Organization 1 keeps its books in naira and has users 11 and 12.
abbrev pub org_one : Org
org_one = record {
  pk = 1;
  is_active = true;
  currency = naira;
  subscription = some (record {
    state = SubscriptionState.trial;
    trial_ends_at = some 1000;
    period_ends_at = none;
    grace_ends_at = none;
    registered_assets = some 2;
  });
}

abbrev pub ann : User
ann = record { pk = 11; org = some 1 }

abbrev pub bob : User
bob = record { pk = 12; org = some 1 }

abbrev pub new_year : Date
new_year = record { year = 2024; month = 1; day = 1 }

-- An active asset of a cost and a life, without residual value, available from January 2024.
abbrev pub press : ℕ → ℕ → Asset
press cost life = record {
  pk = 21;
  org = 1;
  asset_tag = 1 ∷ [];
  category = record {
    pk = 31;
    org = 1;
    default_useful_life_months = 60;
    default_depreciation_method = slm;
  };
  department = none;
  location = none;
  status = AssetStatus.active;
  acquisition_date = some new_year;
  capitalization_date = some new_year;
  available_for_use_date = some new_year;
  purchase_cost = cost;
  residual_value = 0;
  useful_life_months = some life;
  depreciation_method = slm;
  accumulated_depreciation = 0;
  current_book_value = cost;
  created_by = some ann;
  updated_by = some ann;
}

abbrev pub press_schedule : ℕ → ℕ → ℕ → Schedule
press_schedule cost life monthly = record {
  pk = 41;
  org = 1;
  asset = 21;
  method = slm;
  capitalized_cost = cost;
  depreciable_base = cost;
  residual_value = 0;
  useful_life_months = life;
  start_date = new_year;
  end_date = record { year = 2024; month = 3; day = 31 };
  periodic_depreciation = monthly;
  status = ScheduleStatus.running;
}

abbrev period : ℕ → ℕ → Period
period pk month = record {
  pk = pk;
  org = 1;
  year = 2024;
  month = month;
  status = open_period;
  closed_at = none;
  closed_by = none;
}

abbrev pub january : Period
january = period 51 1

abbrev periods : List Period
periods = january ∷ period 52 2 ∷ period 53 3 ∷ []

-- A database with one asset and no more than its schedules.
abbrev pub books : Asset → List Schedule → Db
books asset schedules = record {
  organizations = org_one ∷ [];
  assets = asset ∷ [];
  acquisitions = [];
  periods = periods;
  schedules = schedules;
  entries = [];
  assignments = [];
  transfers = [];
  disposals = [];
  maintenance = record { work_orders = []; plans = []; sequences = []; costs = []; records = [] };
  log = [];
  next_key = 61;
}
