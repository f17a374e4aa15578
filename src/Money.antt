-- ===== src/Money.antt =====
-- Amounts of money: `money` and the straight-line calculations of
-- backend/depreciation/services/engine.py, over integers that count cents.
mod Amounts
pub mod Rounding
pub mod Division
pub mod Cents
pub use Amounts.{Decimal, Amount, float_amount, decimal_amount, least_coefficient}
unfoldable pub use Amounts.{half_up, half_even, quantize, money, quotient_places, divide_to_cents}
pub mod Tests
