-- ===== src/Calendar/Tests.antt =====
-- Dates on which the theorems on months are applied.
use assetflow_fixed_asset_ma.Prelude.{◌+◌, ◌-◌, ◌≡◌, refl, false, arith, min}
use assetflow_fixed_asset_ma.Calendar.{
  Date, is_leap, month_days, before, make_date, first_of_month, month_offset, schedule_end,
}
use assetflow_fixed_asset_ma.Calendar.Months.{
  IsMonth, month_index, month_offset_lem, schedule_end_lem,
}

abbrev last_january : Date
last_january = record { year = 2024; month = 1; day = 31 }

abbrev last_february : Date
last_february = record { year = 2024; month = 2; day = 29 }

month_offset_lem_example :
    (month_index last_february ≡ month_index last_january + 1)
    × IsMonth last_february
    × (last_february.day ≡ min 31 (month_days 2024 2))
unfolding month_offset make_date month_days is_leap
month_offset_lem_example = month_offset_lem last_january 1 refl

schedule_end_lem_example :
    (month_index last_february ≡ month_index last_january + (2 - 1))
    × (last_february.day ≡ month_days 2024 2)
    × (before last_february last_january ≡ false)
unfolding schedule_end first_of_month month_offset make_date month_days is_leap
schedule_end_lem_example =
    schedule_end_lem last_january 2 (omega arith, omega arith) (omega arith) (omega arith) refl
