-- ===== src/Depreciation/Engine.antt =====
-- backend/depreciation/services/engine.py over cents. The amounts that reach these functions are
-- two-place column values, and sums and differences of such, which have no cent to round; only the
-- quotient is rounded.
use assetflow_fixed_asset_ma.Prelude.{
  ℕ, zero, suc, Bool, true, false, not, ◌&&◌, ◌||◌, Option, none, some, if◌then◌else◌,
}
use assetflow_fixed_asset_ma.Prelude.Int.{ℤ, pos, pos_part, ◌-ℤ◌, ltb_ℤ, leb_ℤ, min_ℤ, eqb_ℤ}
use assetflow_fixed_asset_ma.Result.{
  Result, ok, err, life_not_positive, cost_inconsistent, method_unsupported, fully_consumed,
}
use assetflow_fixed_asset_ma.Money.{divide_to_cents}

-- `DepreciationMethod` of backend/assets/models.py
pub data Method : Type 0 where
  slm rbm uop syd : Method

abbrev pub is_slm : Method → Bool
is_slm slm = true
is_slm _ = false

periodic_amount : ℤ → ℤ → ℕ → Result ℤ
periodic_amount cost residual zero = err life_not_positive
periodic_amount cost residual (suc n) =
    if ltb_ℤ cost (pos 0) || ltb_ℤ residual (pos 0) || ltb_ℤ cost residual
    then err cost_inconsistent
    else ok (pos (divide_to_cents (pos_part (cost -ℤ residual)) (suc n)))

unfoldable pub straight_line_periodic_amount : ℤ → ℤ → Option ℕ → Result ℤ
unfolding periodic_amount
straight_line_periodic_amount cost residual none = err life_not_positive
straight_line_periodic_amount cost residual (some months) = periodic_amount cost residual months

-- The arguments in the order of the source's keywords.
unfoldable pub calculate_period_amount : Method → ℤ → ℤ → ℤ → ℤ → ℤ → Result ℤ
calculate_period_amount method opening residual base periodic accumulated =
    let remaining = base -ℤ accumulated in
    if not (is_slm method)
    then err method_unsupported
    else (if eqb_ℤ remaining (pos 0) && eqb_ℤ base (pos 0)
        then ok (pos 0)
        else (if leb_ℤ remaining (pos 0)
            then err fully_consumed
            else ok (min_ℤ (min_ℤ periodic remaining) (opening -ℤ residual))))
