-- ===== src/Maintenance/Written.antt =====
-- What each maintenance step writes to the work orders and the sequences.
use assetflow_fixed_asset_ma.Prelude.{
  ℕ, ◌^◌, ltb, ◌≡◌, refl, sym, ap, Bool, not, ◌&&◌, Option, List, ◌==◌, inl, inr,
}
use assetflow_fixed_asset_ma.Prelude.Int.{ℤ, pos_part}
use assetflow_fixed_asset_ma.Calendar.{Date}
use assetflow_fixed_asset_ma.Result.{ok, >>=-eq-ok, or_raise-then, raise_if-then, ok-injective}
use assetflow_fixed_asset_ma.Table.{find}
use assetflow_fixed_asset_ma.Records.{
  User, MaintenanceType, FrequencyUnit, WorkOrderPriority, is_open_work_order, WorkOrder,
  MaintenancePlan, CostType, MaintenanceCost, Db, actor_organization, find_asset,
}
use assetflow_fixed_asset_ma.Maintenance.Checks.{
  is_disposed, serviced_asset, order_full_clean, locked_order,
}
use assetflow_fixed_asset_ma.Maintenance.Plans.{
  PlanChange, set_plan_values, plan_asset, plan_valid, create_maintenance_plan,
  update_maintenance_plan,
}
use assetflow_fixed_asset_ma.Maintenance.Orders.{
  next_work_order_number, new_order, store_order, create_work_order,
}
use assetflow_fixed_asset_ma.Maintenance.Costs.{cost_valid, cost_total, create_maintenance_cost}
use assetflow_fixed_asset_ma.Maintenance.Workflow.{
  Step, planning, replanning, opening, assigning, starting, completing, cancelling, costing,
}
use assetflow_fixed_asset_ma.Maintenance.Moving.{
  Kept, Opened, Written, no_less, one_more, assigning-Moved, starting-Moved, cancelling-Moved,
  completing-Moved,
}

pub creation-Opened :
    (now : ℕ) (actor : User) (asset_id : ℕ) (type : MaintenanceType) (description : List ℕ)
    (priority : WorkOrderPriority) (due : Option Date) {db : Db} {r : Db × WorkOrder}
    → create_work_order now actor asset_id type description priority due db ≡ ok r
    → Opened db r.0
unfolding create_work_order store_order
creation-Opened now actor asset_id type description priority due {db} h =
    let (org, own, h1) = >>=-eq-ok (actor_organization actor) _ h in
    let (a, _, h2) = >>=-eq-ok (serviced_asset asset_id org db) _ h1 in
    let (given, allowed, h2) =
      >>=-eq-ok (next_work_order_number org db.maintenance.sequences) _ h2 in
    let row = new_order now org actor a given.1 type priority description due db in
    let (_, h3) = raise_if-then (not (order_full_clean a row db)) _ _ h2 in
    let result = sym (ok-injective h3) in
    record {
      org = org;
      row = row;
      fresh = refl;
      row_org = refl;
      opened = refl;
      allocated = given;
      allowed = allowed;
      number = refl;
      orders = ap (λ x. x.0.maintenance.work_orders) result;
      sequences = ap (λ x. x.0.maintenance.sequences) result;
      assets = ap (λ x. x.0.assets) result;
      next_key = ap (λ x. x.0.next_key) result;
    }

pub planning-Kept :
    (actor : User) (asset_id : ℕ) (type : MaintenanceType) (value : ℕ) (unit : FrequencyUnit)
    (due : Date) (active : Bool) {db : Db} {r : Db × MaintenancePlan}
    → create_maintenance_plan actor asset_id type value unit due active db ≡ ok r
    → Kept db r.0
unfolding create_maintenance_plan
planning-Kept actor asset_id type value unit due active {db} h =
    let (org, _, h1) = >>=-eq-ok (actor_organization actor) _ h in
    let (a, _, h2) = or_raise-then (find_asset asset_id org db) _ _ h1 in
    let (_, h3) = raise_if-then (active && is_disposed a.status) _ _ h2 in
    let plan : MaintenancePlan = record {
      pk = db.next_key;
      org = org;
      asset = a.pk;
      maintenance_type = type;
      frequency_value = value;
      frequency_unit = unit;
      next_due_date = due;
      active = active;
      created_by = record { pk = actor.pk; org = org };
    } in
    let (_, h4) = raise_if-then (not (plan_valid a plan)) _ _ h3 in
    let result = sym (ok-injective h4) in
    record {
      orders = ap (λ x. x.0.maintenance.work_orders) result;
      sequences = ap (λ x. x.0.maintenance.sequences) result;
      assets = ap (λ x. x.0.assets) result;
      next_key = one_more (ap (λ x. x.0.next_key) result);
    }

pub replanning-Kept :
    (pk : ℕ) (actor : User) (changes : List PlanChange) {db : Db} {r : Db × MaintenancePlan}
    → update_maintenance_plan pk actor changes db ≡ ok r
    → Kept db r.0
unfolding update_maintenance_plan
replanning-Kept pk actor changes {db} h =
    let (org, _, h1) = >>=-eq-ok (actor_organization actor) _ h in
    let (p, _, h2) =
      or_raise-then
        (find (λ (x : MaintenancePlan). x.pk == pk && x.org == org) db.maintenance.plans) _ _ h1 in
    let (a, _, h3) = or_raise-then (plan_asset p db) _ _ h2 in
    let plan = set_plan_values changes p in
    let (_, h4) = raise_if-then (is_disposed a.status && plan.active) _ _ h3 in
    let (_, h5) = raise_if-then (not (plan_valid a plan)) _ _ h4 in
    let result = sym (ok-injective h5) in
    record {
      orders = ap (λ x. x.0.maintenance.work_orders) result;
      sequences = ap (λ x. x.0.maintenance.sequences) result;
      assets = ap (λ x. x.0.assets) result;
      next_key = no_less (ap (λ x. x.0.next_key) result);
    }

pub costing-Kept :
    (actor : User) (order : ℕ) (type : CostType) (description : List ℕ) (quantity cost : ℤ)
    {db : Db} {r : Db × MaintenanceCost}
    → create_maintenance_cost actor order type description quantity cost db ≡ ok r
    → Kept db r.0
unfolding create_maintenance_cost
costing-Kept actor order type description quantity cost {db} h =
    let (org, _, h1) = >>=-eq-ok (actor_organization actor) _ h in
    let (o, _, h2) = >>=-eq-ok (locked_order order org db) _ h1 in
    let (_, h3) = raise_if-then (not (is_open_work_order o.status)) _ _ h2 in
    let (_, h4) = raise_if-then (not (cost_valid description quantity cost)) _ _ h3 in
    let total = cost_total (pos_part quantity) (pos_part cost) in
    let (_, h5) = raise_if-then (not (ltb total (10 ^ 24))) _ _ h4 in
    let result = sym (ok-injective h5) in
    record {
      orders = ap (λ x. x.0.maintenance.work_orders) result;
      sequences = ap (λ x. x.0.maintenance.sequences) result;
      assets = ap (λ x. x.0.assets) result;
      next_key = one_more (ap (λ x. x.0.next_key) result);
    }

pub Step-Written : {db db' : Db} → Step db db' → Written db db'
Step-Written (planning actor a type value unit due active h) =
    inl (planning-Kept actor a type value unit due active h)
Step-Written (replanning pk actor changes h) = inl (replanning-Kept pk actor changes h)
Step-Written (costing actor order type description quantity cost h) =
    inl (costing-Kept actor order type description quantity cost h)
Step-Written (opening now actor a type description priority due h) =
    inr (inl (creation-Opened now actor a type description priority due h))
Step-Written (assigning pk user actor h) = inr (inr (assigning-Moved pk user actor h))
Step-Written (starting now pk actor h) = inr (inr (starting-Moved now pk actor h))
Step-Written (completing now today pk actor resolution notes downtime performed_by date h) =
    inr (inr (completing-Moved now today pk actor resolution notes downtime performed_by date h))
Step-Written (cancelling now pk actor reason h) = inr (inr (cancelling-Moved now pk actor reason h))
