-- ===== src/Money/Division.antt =====
-- Division in the default context keeps enough digits: rounding its quotient to cents is rounding
-- the exact quotient.
use assetflow_fixed_asset_ma.Prelude.{
  ℕ, zero, suc, ◌+◌, ◌*◌, ◌/◌, ◌^◌, ◌≤◌, ◌<◌, ◌≡◌, inl, inr, arith, leb, Bool-cases,
}
use native.Mathlib.Decide.{dec_lt}
use native.Mathlib.Nat.{
  le-div_iff_mul-le, mul-le-mul_left, pow-suc, pow-zero, add-zero, add-suc, suc-add, zero-mul,
  one-le-pow,
}
use assetflow_fixed_asset_ma.Money.Amounts.{
  half_up, half_even, quotient_places, divide_to_cents, least_coefficient,
}
use assetflow_fixed_asset_ma.Money.Rounding.{half_up_bounds, half_even_bounds}

-- One number at most has its window of width c around N.
window_unique : (c x r N : ℕ) → c * x ≤ N → N < c * x + c → c * r ≤ N → N < c * r + c → x ≡ r
window_unique c x r N p q u v = elim (dec_lt x r) [
  | yes less ↦ absurd (omega (arith, mul-le-mul_left c less))
  | no other ↦ elim (dec_lt r x) [
    | yes more ↦ absurd (omega (arith, mul-le-mul_left c more))
    | no same ↦ omega arith
  ]
]

pub half_up_unique :
    (a b r : ℕ) → 0 < b → 2 * b * r ≤ 2 * a + b → 2 * a + b < 2 * b * r + 2 * b → half_up a b ≡ r
half_up_unique a b r h lo hi =
    let (p, q) = half_up_bounds a b h in window_unique (2 * b) (half_up a b) r (2 * a + b) p q lo hi

-- Rounding to more than the divisor's places first, half-even, does not move the rounding to
-- whole cents: the lower side.
rounded_lower :
    (a n h y r : ℕ)
    → 0 < n
    → 2 * n * r ≤ 2 * a + n
    → a * (2 * h) / n ≤ y
    → 2 * (2 * h) * r ≤ 2 * y + 2 * h
rounded_lower a n h y zero hn f e = omega arith
rounded_lower a n h y (suc s) hn f e =
    let scaled : h * (2 * n * s + n) ≤ h * (2 * a) = mul-le-mul_left h (omega arith) in
    let below : h * (2 * s + 1) ≤ a * (2 * h) / n = (le-div_iff_mul-le hn).1 (omega arith) in
    omega (arith, below, e)

-- The upper side.
rounded_upper :
    (a n h y r : ℕ)
    → n < 2 * h
    → 2 * a + n < 2 * n * r + 2 * n
    → 2 * (n * y) ≤ 2 * (a * (2 * h)) + n
    → 2 * y + 2 * h < 2 * (2 * h) * r + 2 * (2 * h)
rounded_upper a n h y r k f e = elim (dec_lt y (h * (2 * r + 1))) [
  | yes less ↦ omega (arith, less)
  | no more ↦ absurd (
      omega (
        arith,
        let above : n * (h * (2 * r + 1)) ≤ n * y = mul-le-mul_left n (omega arith) in above,
        let scaled : h * (2 * a + n + 1) ≤ h * (2 * n * r + 2 * n) =
              mul-le-mul_left h (omega arith) in
            scaled,
      ))
]

half_up-half_even :
    (a n h : ℕ) → 0 < n → n < 2 * h → half_up (half_even (a * (2 * h)) n) (2 * h) ≡ half_up a n
half_up-half_even a n h hn k =
    let y = half_even (a * (2 * h)) n in
    let (lo, hi) = half_up_bounds a n hn in
    let (e, _, floor) = half_even_bounds (a * (2 * h)) n hn in
    half_up_unique y (2 * h) (half_up a n) (omega arith)
      (rounded_lower a n h y (half_up a n) hn lo floor) (rounded_upper a n h y (half_up a n) k hi e)

divisor-lt : (a n p : ℕ) → 0 < n → a < least_coefficient → least_coefficient * n ≤ a * p → n < p
divisor-lt a n p hn small enough = elim (dec_lt n p) [
  | yes less ↦ less
  | no more ↦ absurd (
      omega (
        arith,
        let upper : a * p ≤ a * n = mul-le-mul_left a (omega arith) in upper,
        let lower : n * (a + 1) ≤ n * least_coefficient = mul-le-mul_left n (omega arith) in lower,
      ))
]

-- The places that give a quotient 28 digits are more than the divisor has.
quotient_places-lt :
    (fuel k a n : ℕ)
    → 0 < n
    → a < least_coefficient
    → least_coefficient * n ≤ a * 10 ^ (k + fuel)
    → n < 10 ^ quotient_places fuel k a n
unfolding quotient_places
quotient_places-lt zero k a n hn small enough =
    divisor-lt a n (10 ^ k) hn small (rw add-zero at enough)
quotient_places-lt (suc fuel) k a n hn small enough =
    elim (Bool-cases (leb (least_coefficient * n) (a * 10 ^ k))) [
      | inl stop ↦ rw stop (divisor-lt a n (10 ^ k) hn small (ground (arith, stop)))
      | inr more ↦
          rw more (quotient_places-lt fuel (suc k) a n hn small (rw (add-suc, ← suc-add) at enough))
    ]

-- A positive power of ten is twice a whole number.
ten_pow_half : (k n : ℕ) → 0 < n → n < 10 ^ k → (h : ℕ) × (10 ^ k ≡ 2 * h)
ten_pow_half zero n hn less = absurd (omega (arith, pow-zero 10))
ten_pow_half (suc k) n hn less = (10 ^ k * 5, omega (arith, pow-suc 10 k))

half_even_zero : (n : ℕ) → 0 < n → half_even 0 n ≡ 0
unfolding half_even
half_even_zero n hn = ground arith

half_up_zero : (n : ℕ) → 0 < n → half_up 0 n ≡ 0
half_up_zero n hn = half_up_unique 0 n 0 hn (omega arith) (omega arith)

divide_to_cents_pos :
    (a n : ℕ)
    → 0 < n
    → n ≤ 10 ^ 33
    → a < least_coefficient
    → 0 < a
    → divide_to_cents a n ≡ half_up a n
unfolding divide_to_cents
divide_to_cents_pos a n hn bound small positive =
    let k = quotient_places 60 0 a n in
    let less : n < 10 ^ k = quotient_places-lt 60 0 a n hn small (omega arith) in
    let (h, e) = ten_pow_half k n hn less in rw e (half_up-half_even a n h hn (rw e at less))

half_up-half_even_zero : (n p : ℕ) → 0 < n → 0 < p → half_up (half_even (0 * p) n) p ≡ 0
half_up-half_even_zero n p hn hp = rw (zero-mul, half_even_zero n hn) (half_up_zero p hp)

divide_to_cents_zero : (n : ℕ) → 0 < n → divide_to_cents 0 n ≡ half_up 0 n
unfolding divide_to_cents
divide_to_cents_zero n hn =
    let k = quotient_places 60 0 0 n in
    rw (half_up_zero n hn) (half_up-half_even_zero n (10 ^ k) hn (one-le-pow k 10 (omega arith)))

-- Dividing an amount below 10 ^ 27 cents by up to 10 ^ 33 and rounding to cents gives the exact
-- quotient rounded half-up: the 28 digits of the intermediate quotient never change the result.
pub divide_to_cents-eq-half_up :
    (a n : ℕ) → 0 < n → n ≤ 10 ^ 33 → a < least_coefficient → divide_to_cents a n ≡ half_up a n
divide_to_cents-eq-half_up zero n hn bound small = divide_to_cents_zero n hn
divide_to_cents-eq-half_up (suc a) n hn bound small =
    divide_to_cents_pos (suc a) n hn bound small (omega arith)
