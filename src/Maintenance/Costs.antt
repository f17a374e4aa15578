-- ===== src/Maintenance/Costs.antt =====
-- `create_maintenance_cost` of backend/maintenance/services.py and the total that
-- `MaintenanceCost.save` computes. Quantities count thousandths, money counts cents.
use assetflow_fixed_asset_ma.Prelude.{
  ℕ, suc, ◌*◌, ◌^◌, Bool, not, ◌&&◌, some, List, ◌∷◌, ltb, length, leb,
}
use assetflow_fixed_asset_ma.Prelude.Int.{ℤ, pos, pos_part, ltb_ℤ}
use assetflow_fixed_asset_ma.Money.{half_up}
use assetflow_fixed_asset_ma.Result.{Result, ok, ◌>>=◌, ◌>>◌, raise_if, bad_status, row_invalid}
use assetflow_fixed_asset_ma.Records.{
  User, is_open_work_order, CostType, MaintenanceCost, Action, Db, record_event, actor_organization,
}
use assetflow_fixed_asset_ma.Maintenance.Checks.{locked_order, text_given}

-- `cost.full_clean()`: the description has 240 characters at most, the quantity twelve digits and
-- the unit cost twenty.
unfoldable pub cost_valid : List ℕ → ℤ → ℤ → Bool
cost_valid description quantity unit_cost =
    text_given description
    && leb (length description) 240
    && ltb_ℤ (pos 0) quantity
    && ltb_ℤ quantity (pos (10 ^ 12))
    && not (ltb_ℤ unit_cost (pos 0))
    && ltb_ℤ unit_cost (pos (10 ^ 20))

-- `(quantity * unit_cost).quantize(Decimal("0.01"), rounding=ROUND_HALF_UP)`; a product of more
-- than 28 digits is rounded first by the default context, which the column of 24 digits excludes.
unfoldable pub cost_total : ℕ → ℕ → ℕ
unfolding half_up
cost_total quantity unit_cost = half_up (quantity * unit_cost) 1000

unfoldable pub create_maintenance_cost :
    User → ℕ → CostType → List ℕ → ℤ → ℤ → Db → Result (Db × MaintenanceCost)
create_maintenance_cost actor work_order_id type description quantity unit_cost db = do
  org ← actor_organization actor
  order ← locked_order work_order_id org db
  raise_if (not (is_open_work_order order.status)) bad_status
  raise_if (not (cost_valid description quantity unit_cost)) row_invalid
  let total : ℕ = cost_total (pos_part quantity) (pos_part unit_cost)
  raise_if (not (ltb total (10 ^ 24))) row_invalid
  let cost : MaintenanceCost = record {
    pk = db.next_key;
    org = org;
    work_order = order.pk;
    cost_type = type;
    quantity = pos_part quantity;
    unit_cost = pos_part unit_cost;
    total_cost = total;
    created_by = record { pk = actor.pk; org = org };
  }
  let db' : Db = record_event org (some actor.pk) Action.maintenance_cost_created cost.pk db
  ok (
    record db' {
      maintenance = record db.maintenance { costs = cost ∷ db.maintenance.costs };
      next_key = suc db.next_key;
    },
    cost,
  )
