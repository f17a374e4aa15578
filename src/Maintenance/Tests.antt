-- ===== src/Maintenance/Tests.antt =====
-- Runs of the maintenance services: a press that is repaired under one order while another waits.
use mathlib.Core.Path.{subst}
use assetflow_fixed_asset_ma.Prelude.{suc, ◌^◌, ℕ, ◌<◌, ◌≡◌, refl, arith, none, some, [], ◌∷◌, All}
use assetflow_fixed_asset_ma.Prelude.Int.{pos}
use assetflow_fixed_asset_ma.Result.{Result, ok, err, bad_status, some-injective}
use assetflow_fixed_asset_ma.Table.{find, exists, filter, save}
use assetflow_fixed_asset_ma.Records.{
  corrective, inspection, medium, high, CostType, WorkOrder, Sequence, MaintenanceRecord, Db,
  actor_organization, find_asset,
}
use assetflow_fixed_asset_ma.Money.{half_up}
use assetflow_fixed_asset_ma.Maintenance.Checks.{
  serviced_asset, find_order, locked_order, order_clean, number_taken, order_full_clean, same_order,
  save_order,
}
use assetflow_fixed_asset_ma.Maintenance.Orders.{
  sequence_of, next_work_order_number, store_order, create_work_order, store_rows,
  enter_maintenance, start_work_order,
}
use assetflow_fixed_asset_ma.Maintenance.Closing.{
  sum_costs, order_total, active_elsewhere, restore_asset, recorded, record_valid, store_completion,
  complete_work_order, cancel_work_order,
}
use assetflow_fixed_asset_ma.Maintenance.Costs.{cost_valid, cost_total, create_maintenance_cost}
use assetflow_fixed_asset_ma.Maintenance.Workflow.{
  Steps, here, more, opening, starting, costing, completing, cancelling,
}
use assetflow_fixed_asset_ma.Maintenance.Lifecycle.{IsKeyed, Followed, Steps-Followed}
use assetflow_fixed_asset_ma.Maintenance.Service.{Steps-IsServed}
use assetflow_fixed_asset_ma.Maintenance.Idle.{IsServed}
use assetflow_fixed_asset_ma.Maintenance.Numbering.{
  IsNumbered, Steps-IsNumbered, create_work_order-succeeds,
}
use assetflow_fixed_asset_ma.Maintenance.Completion.{
  complete_work_order-Closed, complete_work_order_once,
}
use assetflow_fixed_asset_ma.Maintenance.Restoring.{Closed}
use assetflow_fixed_asset_ma.Samples.{ann, bob, new_year, press, books}

-- The database after a call, or as it was if the call fails.
abbrev stored : {A : Type 0} → Db → Result (Db × A) → Db
stored db (ok r) = r.0
stored db (err e) = db

abbrev stored_completion : Db → Result (Db × WorkOrder × MaintenanceRecord) → Db
stored_completion db (ok r) = r.0
stored_completion db (err e) = db

abbrev start : Db
start = books (press 1000 3) []

abbrev asked : Db
asked = stored start (create_work_order 1 ann 21 corrective (7 ∷ []) medium none start)

abbrev begun : Db
begun = stored asked (start_work_order 2 61 ann asked)

abbrev second_asked : Db
second_asked = stored begun (create_work_order 3 bob 21 inspection (8 ∷ []) high none begun)

abbrev charged : Db
charged =
    stored second_asked
      (create_maintenance_cost ann 61 CostType.parts (9 ∷ []) (pos 2500) (pos 199) second_asked)

abbrev mended : Db
mended =
    stored_completion charged
      (complete_work_order 4 new_year 61 ann [] (5 ∷ []) none none none charged)

abbrev dropped : Db
dropped = stored mended (cancel_work_order 5 62 bob [] mended)

start-IsKeyed : IsKeyed start
start-IsKeyed = record { distinct = tt; below = tt }

start-IsServed : IsServed start
start-IsServed = record { distinct = (tt, tt); idle = (λ active. tt, tt) }

repair-Steps : Steps start dropped
unfolding actor_organization find_asset find exists filter save half_up serviced_asset find_order
    locked_order order_clean number_taken order_full_clean same_order save_order
    next_work_order_number store_order create_work_order store_rows enter_maintenance
    start_work_order sum_costs order_total active_elsewhere restore_asset recorded record_valid
    store_completion complete_work_order cancel_work_order cost_valid cost_total
    create_maintenance_cost
repair-Steps =
    more
      (more
        (more
          (more
            (more (more here (opening 1 ann 21 corrective (7 ∷ []) medium none refl))
              (starting 2 61 ann refl))
            (opening 3 bob 21 inspection (8 ∷ []) high none refl))
          (costing ann 61 CostType.parts (9 ∷ []) (pos 2500) (pos 199) refl))
        (completing 4 new_year 61 ann [] (5 ∷ []) none none none refl))
      (cancelling 5 62 bob [] refl)

Steps-IsServed_example : IsServed dropped
Steps-IsServed_example = Steps-IsServed repair-Steps start-IsServed

Steps-IsNumbered_example : IsNumbered dropped
Steps-IsNumbered_example = Steps-IsNumbered repair-Steps tt

asked_order : (o : WorkOrder) × (find_order 61 1 asked ≡ some o)
unfolding actor_organization find_asset find exists serviced_asset find_order order_clean
    number_taken order_full_clean next_work_order_number store_order create_work_order
asked_order = (_, refl)

asked-IsKeyed : IsKeyed asked
unfolding actor_organization find_asset find exists serviced_asset order_clean number_taken
    order_full_clean next_work_order_number store_order create_work_order
asked-IsKeyed = record { distinct = (tt, tt); below = (omega arith, tt) }

later-Steps : Steps asked dropped
unfolding actor_organization find_asset find exists filter save half_up serviced_asset find_order
    locked_order order_clean number_taken order_full_clean same_order save_order
    next_work_order_number store_order create_work_order store_rows enter_maintenance
    start_work_order sum_costs order_total active_elsewhere restore_asset recorded record_valid
    store_completion complete_work_order cancel_work_order cost_valid cost_total
    create_maintenance_cost
later-Steps =
    more
      (more
        (more
          (more (more here (starting 2 61 ann refl))
            (opening 3 bob 21 inspection (8 ∷ []) high none refl))
          (costing ann 61 CostType.parts (9 ∷ []) (pos 2500) (pos 199) refl))
        (completing 4 new_year 61 ann [] (5 ∷ []) none none none refl))
      (cancelling 5 62 bob [] refl)

Steps-Followed_example : Followed 61 1 asked_order.0 dropped
Steps-Followed_example = Steps-Followed 61 1 later-Steps asked-IsKeyed asked_order.1

asked-IsNumbered : IsNumbered asked
unfolding actor_organization find_asset find exists serviced_asset order_clean number_taken
    order_full_clean next_work_order_number store_order create_work_order
asked-IsNumbered =
    Steps-IsNumbered {db = start} {db' = asked}
      (more here (opening 1 ann 21 corrective (7 ∷ []) medium none refl)) (tt {0})

asked_asset : find_asset 21 1 asked ≡ some (press 1000 3)
unfolding actor_organization find_asset find exists serviced_asset order_clean number_taken
    order_full_clean next_work_order_number store_order create_work_order
asked_asset = refl

asked_room :
    (s : Sequence) → sequence_of 1 asked.maintenance.sequences ≡ some s → suc s.next_value < 2 ^ 63
unfolding actor_organization find_asset find exists serviced_asset order_clean number_taken
    order_full_clean next_work_order_number store_order create_work_order
asked_room s h =
    subst (λ (x : Sequence). suc x.next_value < 2 ^ 63) (some-injective h) (omega arith)

create_work_order-succeeds_example :
    (r : Db × WorkOrder) × (create_work_order 3 bob 21 inspection (8 ∷ []) high none asked ≡ ok r)
    × All
        (λ (o : WorkOrder). o.org ≡ 1 → o.work_order_number < r.1.work_order_number)
        asked.maintenance.work_orders
create_work_order-succeeds_example =
    create_work_order-succeeds 3 1 bob 21 (press 1000 3) inspection 8 [] high none asked
      asked-IsNumbered refl asked_asset refl asked_room

completion :
    (r : Db × WorkOrder × MaintenanceRecord) × (complete_work_order 4 new_year 61 ann []
        (5 ∷ [])
        none
        none
        none
        charged
      ≡ ok r)
unfolding actor_organization find_asset find exists filter save half_up serviced_asset find_order
    locked_order order_clean number_taken order_full_clean same_order save_order
    next_work_order_number store_order create_work_order store_rows enter_maintenance
    start_work_order sum_costs order_total active_elsewhere restore_asset recorded record_valid
    store_completion complete_work_order cost_valid cost_total create_maintenance_cost
completion = (_, refl)

complete_work_order-Closed_example :
    (org : ℕ) × (ann.org ≡ some org) × Closed 61 org charged completion.0
complete_work_order-Closed_example =
    complete_work_order-Closed 4 new_year 61 ann [] (5 ∷ []) none none none charged completion.1

complete_work_order_once_example :
    complete_work_order 5 new_year 61 bob (6 ∷ []) [] (some 9) none none completion.0.0
    ≡ err bad_status
complete_work_order_once_example =
    complete_work_order_once 4 new_year 61 ann [] (5 ∷ []) none none none charged 5 new_year bob
      (6 ∷ []) [] (some 9) none none 1 completion.1 refl refl refl
