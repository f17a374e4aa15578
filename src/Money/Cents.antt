-- ===== src/Money/Cents.antt =====
-- `money` rounds to the nearest cent, up to the 28 digits of the default context, and fails past them.
use assetflow_fixed_asset_ma.Prelude.{ℕ, suc, ◌+◌, ◌*◌, ◌^◌, ◌≤◌, ◌<◌, zero, ◌≡◌, refl, ◌∙◌, arith}
use native.Mathlib.Nat.{one-le-pow, lt_of_mul-lt-mul_left}
use assetflow_fixed_asset_ma.Prelude.Int.{ℤ, pos, negsuc, sub_ℕ}
use assetflow_fixed_asset_ma.Result.{ok, err, too_many_digits}
use assetflow_fixed_asset_ma.Money.Amounts.{
  decimal_amount, half_up, within_precision, quantize, money,
}
use assetflow_fixed_asset_ma.Money.Rounding.{half_up_bounds}

small_multiple : (b x : ℕ) → 0 < b → 2 * b * x ≤ 2 * 0 + b → x ≡ 0
small_multiple b zero h p = refl
small_multiple b (suc x) h p = absurd (omega arith)

negate_suc : (m : ℕ) → sub_ℕ 0 (suc m) ≡ negsuc m
negate_suc m = ground arith

half_up_nothing : (b : ℕ) → 0 < b → half_up (0 * 100) b ≡ 0
half_up_nothing b h = let (p, q) = half_up_bounds 0 b h in small_multiple b (half_up 0 b) h p

fits : (c : ℕ) (z : ℤ) → c < 10 ^ 28 → within_precision c z ≡ ok z
fits c z h = ground (arith, h)

overflows : (c : ℕ) (z : ℤ) → 10 ^ 28 ≤ c → within_precision c z ≡ err too_many_digits
overflows c z h = ground (arith, h)

money_negated :
    (m places : ℕ)
    → money (decimal_amount (record { coefficient = sub_ℕ 0 m; places = places }))
      ≡ within_precision
          (half_up (m * 100) (10 ^ places))
          (sub_ℕ 0 (half_up (m * 100) (10 ^ places)))
unfolding money quantize
money_negated zero places =
    rw (half_up_nothing (10 ^ places) (one-le-pow places 10 (omega arith))) refl
money_negated (suc m) places = rw (negate_suc m) refl

rounds_below : (a b n : ℕ) → 0 < b → 2 * a + b < 2 * b * n → half_up a b < n
rounds_below a b n h less =
    let (lo, _) = half_up_bounds a b h in
    let product : 2 * b * half_up a b < 2 * b * n = omega (arith, lo, less) in
    lt_of_mul-lt-mul_left (2 * b) product

rounds_above : (a b n : ℕ) → 0 < b → 2 * b * n ≤ 2 * a + b → n ≤ half_up a b
rounds_above a b n h most =
    let (_, hi) = half_up_bounds a b h in
    let product : 2 * b * n < 2 * b * (half_up a b + 1) = omega (arith, hi, most) in
    let below : n < half_up a b + 1 = lt_of_mul-lt-mul_left (2 * b) product in omega (arith, below)

-- An amount whose rounding has at most 28 digits is rounded to the nearest number of cents: the
-- amount and half a cent lie from that number up to the next one, and the negated amount is rounded
-- to the negated number.
pub money_nearest :
    (m places : ℕ)
    → 2 * (m * 100) + 10 ^ places < 2 * 10 ^ places * 10 ^ 28
    → (c : ℕ) × (money (decimal_amount (record { coefficient = pos m; places = places }))
        ≡ ok (pos c))
      × (money (decimal_amount (record { coefficient = sub_ℕ 0 m; places = places }))
          ≡ ok (sub_ℕ 0 c))
      × (2 * 10 ^ places * c ≤ 2 * (m * 100) + 10 ^ places)
      × (2 * (m * 100) + 10 ^ places < 2 * 10 ^ places * c + 2 * 10 ^ places)
unfolding money quantize
money_nearest m places small =
    let cent = one-le-pow places 10 (omega arith) in
    let c = half_up (m * 100) (10 ^ places) in
    let less = rounds_below (m * 100) (10 ^ places) (10 ^ 28) cent small in
    let (lo, hi) = half_up_bounds (m * 100) (10 ^ places) cent in
    (c, fits c (pos c) less, money_negated m places ∙ fits c (sub_ℕ 0 c) less, lo, hi)

-- An amount whose rounding has more than 28 digits is refused, and so is the negated amount.
pub money_too_large :
    (m places : ℕ)
    → 2 * 10 ^ places * 10 ^ 28 ≤ 2 * (m * 100) + 10 ^ places
    → (money (decimal_amount (record { coefficient = pos m; places = places }))
        ≡ err too_many_digits)
      × (money (decimal_amount (record { coefficient = sub_ℕ 0 m; places = places }))
          ≡ err too_many_digits)
unfolding money quantize
money_too_large m places large =
    let cent = one-le-pow places 10 (omega arith) in
    let c = half_up (m * 100) (10 ^ places) in
    let most = rounds_above (m * 100) (10 ^ places) (10 ^ 28) cent large in
    (overflows c (pos c) most, money_negated m places ∙ overflows c (sub_ℕ 0 c) most)
