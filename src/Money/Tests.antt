-- ===== src/Money/Tests.antt =====
-- Amounts on which the theorems on rounding are applied.
use assetflow_fixed_asset_ma.Prelude.{ℕ, ◌+◌, ◌*◌, ◌^◌, ◌≤◌, ◌<◌, ◌≡◌, arith}
use assetflow_fixed_asset_ma.Prelude.Int.{pos, sub_ℕ}
use assetflow_fixed_asset_ma.Result.{ok, err, too_many_digits}
use assetflow_fixed_asset_ma.Money.Amounts.{decimal_amount, half_up, money, divide_to_cents}
use assetflow_fixed_asset_ma.Money.Division.{divide_to_cents-eq-half_up}
use assetflow_fixed_asset_ma.Money.Cents.{money_nearest, money_too_large}

divide_to_cents-eq-half_up_example : divide_to_cents 1000 3 ≡ half_up 1000 3
divide_to_cents-eq-half_up_example =
    divide_to_cents-eq-half_up 1000 3 (omega arith) (omega arith) (omega arith)

money_nearest_example :
    (c : ℕ) × (money (decimal_amount (record { coefficient = pos 2005; places = 3 })) ≡ ok (pos c))
    × ((money (decimal_amount (record { coefficient = sub_ℕ 0 2005; places = 3 }))
        ≡ ok (sub_ℕ 0 c)))
    × (2 * 10 ^ 3 * c ≤ 2 * (2005 * 100) + 10 ^ 3)
    × (2 * (2005 * 100) + 10 ^ 3 < 2 * 10 ^ 3 * c + 2 * 10 ^ 3)
money_nearest_example = money_nearest 2005 3 (omega arith)

money_too_large_example :
    (money (decimal_amount (record { coefficient = pos (10 ^ 26); places = 0 }))
      ≡ err too_many_digits)
    × (money (decimal_amount (record { coefficient = sub_ℕ 0 (10 ^ 26); places = 0 }))
        ≡ err too_many_digits)
money_too_large_example = money_too_large (10 ^ 26) 0 (omega arith)
