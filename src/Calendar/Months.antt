-- ===== src/Calendar/Months.antt =====
-- Months counted from year 0, and what the month arithmetic does to them.
use assetflow_fixed_asset_ma.Prelude.{ℕ, ◌+◌, ◌-◌, ◌*◌, ◌≤◌, ◌≡◌, ◌∙◌, ◌↔◌, true, false, arith, min}
use assetflow_fixed_asset_ma.Result.{ok, >>=-eq-ok}
use assetflow_fixed_asset_ma.Calendar.{
  Date, month_days, before, same_date, make_date, first_of_month, month_offset, schedule_end,
}

abbrev pub IsMonth : Date → Type 0
IsMonth d = (1 ≤ d.month) × (d.month ≤ 12)

abbrev pub month_index : Date → ℕ
month_index d = d.year * 12 + d.month - 1

month_days_bounds : (y m : ℕ) → (28 ≤ month_days y m) × (month_days y m ≤ 31)
unfolding month_days
month_days_bounds y m = ground arith

-- A date `offset` months on stands exactly `offset` months on, in a month of its year, on the same
-- day or the last day that its month has.
pub month_offset_lem :
    (d : Date) (offset : ℕ) {e : Date}
    → month_offset d offset ≡ ok e
    → (month_index e ≡ month_index d + offset)
      × IsMonth e
      × (e.day ≡ min d.day (month_days e.year e.month))
unfolding month_offset make_date
month_offset_lem d offset h = ground arith

-- The months after a first day are first days, and two counts add up.
pub month_offset_first :
    (d : Date) (offset : ℕ) {e : Date}
    → month_offset (first_of_month d) offset ≡ ok e
    → (e.day ≡ 1) × IsMonth e × (month_index e ≡ month_index d + offset)
unfolding first_of_month
month_offset_first d offset {e} h =
    let (p, q, r) = month_offset_lem (record d { day = 1 }) offset h in
    (omega (arith, r, month_days_bounds e.year e.month), q, p)

-- First days of months are equal as dates exactly when their months are counted alike.
pub same_date-first :
    (a b : Date)
    → IsMonth a
    → IsMonth b
    → a.day ≡ 1
    → b.day ≡ 1
    → (same_date a b ≡ true) ↔ (month_index a ≡ month_index b)
unfolding same_date
same_date-first a b p q x y = (λ h. ground arith, λ h. ground arith)

made_date :
    (y m d : ℕ) {e : Date} → make_date y m d ≡ ok e → (e.year ≡ y) × (e.month ≡ m) × (e.day ≡ d)
unfolding make_date
made_date y m d h = ground arith

-- A later month is a later date, and in one month the later day is.
not-before :
    (a b : Date)
    → IsMonth a
    → IsMonth b
    → month_index b ≤ month_index a
    → (month_index a ≡ month_index b → b.day ≤ a.day)
    → before a b ≡ false
unfolding before
not-before a b p q h k = ground arith

same_month :
    (a b : Date)
    → IsMonth a
    → IsMonth b
    → month_index a ≡ month_index b
    → (a.year ≡ b.year) × (a.month ≡ b.month)
same_month a b p q h = (omega arith, omega arith)

last_day_not-before :
    (a b : Date)
    → IsMonth a
    → IsMonth b
    → a.day ≡ month_days a.year a.month
    → b.day ≤ month_days b.year b.month
    → month_index b ≤ month_index a
    → before a b ≡ false
last_day_not-before a b p q last fits later =
    not-before a b p q later (λ e. let (y, m) = same_month a b p q e in rw (last, y, m) fits)

-- A schedule over at least one month ends on the last day of its last month, which does not come
-- before its first day.
pub schedule_end_lem :
    (start : Date) (months : ℕ) {e : Date}
    → IsMonth start
    → start.day ≤ month_days start.year start.month
    → 1 ≤ months
    → schedule_end start months ≡ ok e
    → (month_index e ≡ month_index start + (months - 1))
      × (e.day ≡ month_days e.year e.month)
      × (before e start ≡ false)
unfolding schedule_end
schedule_end_lem start months {e} m d one h =
    let (f, found, made) = >>=-eq-ok (month_offset (first_of_month start) (months - 1)) _ h in
    let (_, within, index) = month_offset_first start (months - 1) found in
    let (y, mo, da) = made_date f.year f.month (month_days f.year f.month) made in
    let month : IsMonth e = rw mo within in
    let last : e.day ≡ month_days e.year e.month = da ∙ cc in
    let counted : month_index e ≡ month_index start + (months - 1) = rw (y, mo) index in
    (counted, last, last_day_not-before e start month m last d (omega arith))

pub same_date-eq : (a b : Date) → same_date a b ≡ true → a ≡ b
unfolding same_date
same_date-eq a b h = ground arith
