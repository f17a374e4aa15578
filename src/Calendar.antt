-- ===== src/Calendar.antt =====
-- Calendar dates as `datetime.date` has them, and the month arithmetic of
-- backend/depreciation/services/posting.py.
pub mod Months
pub mod Tests
use assetflow_fixed_asset_ma.Prelude.{
  ℕ, ◌+◌, ◌-◌, ◌*◌, ◌/◌, ◌%◌, ◌≤◌, Bool, true, false, not, ◌&&◌, ◌||◌, min, ltb, leb, ◌==◌,
  if◌then◌else◌,
}
use assetflow_fixed_asset_ma.Result.{Result, ok, err, ◌>>=◌, date_out_of_range}

pub record Date : Type 0 where
  pub year : ℕ
  pub month : ℕ
  pub day : ℕ

-- `datetime.MAXYEAR`
abbrev pub max_year : ℕ
max_year = 9999

unfoldable pub is_leap : ℕ → Bool
is_leap y = (y % 4 == 0) && (not (y % 100 == 0) || (y % 400 == 0))

-- `calendar.monthrange(year, month)[1]`
unfoldable pub month_days : ℕ → ℕ → ℕ
unfolding is_leap
month_days y m =
    if m == 2
    then (if is_leap y then 29 else 28)
    else (if (m == 4) || (m == 6) || (m == 9) || (m == 11) then 30 else 31)

-- The order of dates.
unfoldable pub before : Date → Date → Bool
before a b =
    ltb a.year b.year
    || (a.year == b.year) && (ltb a.month b.month || (a.month == b.month) && ltb a.day b.day)

unfoldable pub same_date : Date → Date → Bool
same_date a b = (a.year == b.year) && (a.month == b.month) && (a.day == b.day)

-- `date(year, month, day)` for a month and a day in range: `ValueError` past the last year.
unfoldable pub make_date : ℕ → ℕ → ℕ → Result Date
make_date y m d =
    if leb y max_year then ok (record { year = y; month = m; day = d }) else err date_out_of_range

-- `value.replace(day=1)`
unfoldable pub first_of_month : Date → Date
first_of_month d = record d { day = 1 }

unfoldable pub month_offset : Date → ℕ → Result Date
unfolding make_date month_days
month_offset d offset =
    let absolute = d.year * 12 + d.month - 1 + offset in
    let y = absolute / 12 in let m = absolute % 12 + 1 in make_date y m (min d.day (month_days y m))

unfoldable pub schedule_end : Date → ℕ → Result Date
unfolding month_offset make_date month_days first_of_month
schedule_end start months = do
  final ← month_offset (first_of_month start) (months - 1)
  make_date final.year final.month (month_days final.year final.month)
