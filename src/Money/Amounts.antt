-- ===== src/Money/Amounts.antt =====
-- `Decimal` values, `quantize(CENT, ROUND_HALF_UP)` and division in the default context.
use assetflow_fixed_asset_ma.Prelude.{
  ℕ, zero, suc, ◌+◌, ◌*◌, ◌/◌, ◌%◌, ◌^◌, ltb, leb, if◌then◌else◌,
}
use assetflow_fixed_asset_ma.Prelude.Int.{ℤ, pos, negsuc, sub_ℕ}
use assetflow_fixed_asset_ma.Result.{Result, ok, err, float_input, too_many_digits}

-- The number `coefficient` / 10 ^ `places`.
pub record Decimal : Type 0 where
  pub coefficient : ℤ
  pub places : ℕ

-- What a caller may hand to `money`: a binary float, or what becomes a `Decimal`.
pub data Amount : Type 0 where
  float_amount : Amount
  decimal_amount : Decimal → Amount

-- a / b to the nearest whole number, ties away from zero.
unfoldable pub half_up : ℕ → ℕ → ℕ
half_up a b = (2 * a + b) / (2 * b)

-- a / b to the nearest whole number, ties to the even neighbour.
unfoldable pub half_even : ℕ → ℕ → ℕ
half_even a b =
    if ltb (2 * (a % b)) b
    then a / b
    else (if ltb b (2 * (a % b)) then a / b + 1 else a / b + (a / b) % 2)

-- `InvalidOperation` for a coefficient of more than 28 digits, the precision of the default context.
abbrev pub within_precision : ℕ → ℤ → Result ℤ
within_precision magnitude c = if ltb magnitude (10 ^ 28) then ok c else err too_many_digits

-- `value.quantize(CENT, rounding=ROUND_HALF_UP)`, in cents: the magnitude is rounded.
unfoldable pub quantize : ℤ → ℕ → Result ℤ
unfolding half_up
quantize (pos m) places = let c = half_up (m * 100) (10 ^ places) in within_precision c (pos c)
quantize (negsuc m) places =
    let c = half_up (suc m * 100) (10 ^ places) in within_precision c (sub_ℕ 0 c)

unfoldable pub money : Amount → Result ℤ
unfolding quantize
money float_amount = err float_input
money (decimal_amount d) = quantize d.coefficient d.places

-- The least coefficient of 28 digits, the precision of the default context.
abbrev pub least_coefficient : ℕ
least_coefficient = 10 ^ 27

-- The number of places at which a / n has a coefficient of 28 digits, counted from `k`.
unfoldable pub quotient_places : ℕ → ℕ → ℕ → ℕ → ℕ
quotient_places zero k a n = k
quotient_places (suc fuel) k a n =
    let next = quotient_places fuel (suc k) a n in
    if leb (least_coefficient * n) (a * 10 ^ k) then k else next

-- `money(a / Decimal(n))` for `a` cents: the quotient is rounded half-even to 28 digits, and
-- that to cents half-up. For quotients below 10 ^ 28 cents, which every column is far below.
unfoldable pub divide_to_cents : ℕ → ℕ → ℕ
unfolding half_up half_even quotient_places
divide_to_cents a n =
    let k = quotient_places 60 0 a n in half_up (half_even (a * 10 ^ k) n) (10 ^ k)
