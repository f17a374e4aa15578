-- ===== src/Money/Rounding.antt =====
-- How far rounding may move an amount.
use assetflow_fixed_asset_ma.Prelude.{ℕ, ◌+◌, ◌*◌, ◌/◌, ◌%◌, ◌≤◌, ◌<◌, ◌≡◌, ◌⊎◌, inl, inr, arith}
use native.Mathlib.Nat.{div-add-mod, mod-lt}
use assetflow_fixed_asset_ma.Money.Amounts.{half_up, half_even}

mod_two : (q : ℕ) → (q % 2 ≡ 0) ⊎ (q % 2 ≡ 1)
mod_two q = omega arith

-- The rounded value times 2b stands within b of 2a, the tie upwards.
pub half_up_bounds :
    (a b : ℕ)
    → 0 < b
    → (2 * b * half_up a b ≤ 2 * a + b) × (2 * a + b < 2 * b * half_up a b + 2 * b)
unfolding half_up
half_up_bounds a b h =
    let below : (2 * a + b) % (2 * b) < 2 * b = mod-lt (2 * a + b) (omega arith) in
    omega (arith, div-add-mod (2 * a + b) (2 * b), below)

-- The three outcomes of rounding half to even, by what is added to the floor.
half_even-cases :
    (a b : ℕ)
    → ((half_even a b ≡ a / b) × (2 * (a % b) ≤ b))
      ⊎ ((half_even a b ≡ a / b + 1) × (b ≤ 2 * (a % b)))
unfolding half_even
half_even-cases a b = elim (mod_two (a / b)) [
  | inl even ↦ ground (arith, even)
  | inr odd ↦ ground (arith, odd)
]

pub half_even_bounds :
    (a b : ℕ)
    → 0 < b
    → (2 * (b * half_even a b) ≤ 2 * a + b)
      × (2 * a ≤ 2 * (b * half_even a b) + b)
      × (a / b ≤ half_even a b)
half_even_bounds a b h =
    let below : a % b < b = mod-lt a h in
    elim (half_even-cases a b) [
      | inl (e, r) ↦ rw e (omega (arith, div-add-mod a b, below))
      | inr (e, r) ↦ rw e (omega (arith, div-add-mod a b, below))
    ]
