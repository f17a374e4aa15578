-- ===== src/Maintenance/Service.antt =====
-- Assets under work: while an order is in progress its asset is not active.
use mathlib.Core.Path.{subst}
use assetflow_fixed_asset_ma.Prelude.{ℕ, ◌≡◌, refl, sym, ◌∙◌, Option, List}
use assetflow_fixed_asset_ma.Calendar.{Date}
use assetflow_fixed_asset_ma.Result.{ok}
use assetflow_fixed_asset_ma.Table.Rows.{Distinct-find}
use assetflow_fixed_asset_ma.Records.{
  User, Ref, Asset, WorkOrder, MaintenanceRecord, Action, Db, find_asset,
}
use assetflow_fixed_asset_ma.Maintenance.Checks.{with_orders}
use assetflow_fixed_asset_ma.Maintenance.Orders.{
  assign_work_order, started_order, store_rows, start_work_order,
}
use assetflow_fixed_asset_ma.Maintenance.Closing.{
  order_total, completed_order, date_or, service_record, store_completion, complete_work_order,
  cancelled_order, cancel_work_order,
}
use assetflow_fixed_asset_ma.Maintenance.Effects.{
  saved_orders, assign_work_order-Found, start_work_order-Found, complete_work_order-Found,
  cancel_work_order-Found,
}
use assetflow_fixed_asset_ma.Maintenance.Workflow.{
  Step, planning, replanning, opening, assigning, starting, completing, cancelling, costing, Steps,
  here, more,
}
use assetflow_fixed_asset_ma.Maintenance.Written.{
  planning-Kept, replanning-Kept, costing-Kept, creation-Opened,
}
use assetflow_fixed_asset_ma.Maintenance.Idle.{
  IsServed, found_asset_key, found_order_org, Kept-IsServed, Opened-IsServed, saved-IsIdle,
  restore_asset-IsServed, enter_maintenance-IsServed, saved_others, saved_ended,
}

assigning-IsServed :
    (pk : ℕ) (user : Option Ref) (actor : User) {db : Db} {r : Db × WorkOrder}
    → assign_work_order pk user actor db ≡ ok r
    → IsServed db
    → IsServed r.0
unfolding store_rows
assigning-IsServed pk user actor {db} h w =
    let (e, result) = assign_work_order-Found pk user actor db h in
    subst (λ (x : Db × WorkOrder). IsServed x.0) (sym result)
      (record { distinct = w.distinct; idle = saved-IsIdle _ db refl w })

starting-IsServed :
    (now pk : ℕ) (actor : User) {db : Db} {r : Db × WorkOrder}
    → start_work_order now pk actor db ≡ ok r
    → IsServed db
    → IsServed r.0
unfolding store_rows find_asset
starting-IsServed now pk actor {db} h w =
    let (e, result) = start_work_order-Found now pk actor db h in
    let row = started_order now e.order in
    let (key, _) = found_asset_key e.order.asset e.org db e.found_asset in
    subst (λ (x : Db × WorkOrder). IsServed x.0) (sym result)
      (enter_maintenance-IsServed e.org actor e.asset
        (store_rows e.org actor Action.work_order_started e.order.pk (saved_orders row db) db)
        w.distinct (Distinct-find (λ (a : Asset). a.pk) _ db.assets w.distinct e.found_asset)
        (saved_others row e.asset.pk db (sym key) w))

cancelling-IsServed :
    (now pk : ℕ) (actor : User) (reason : List ℕ) {db : Db} {r : Db × WorkOrder}
    → cancel_work_order now pk actor reason db ≡ ok r
    → IsServed db
    → IsServed r.0
unfolding store_rows
cancelling-IsServed now pk actor reason {db} h w =
    let (e, result) = cancel_work_order-Found now pk actor reason db h in
    let row = cancelled_order now reason e.order in
    let (_, org) = found_asset_key e.order.asset e.org db e.found_asset in
    let back =
      (restore_asset-IsServed e.org actor row e.asset (with_orders (saved_orders row db) db)
        (org ∙ sym (found_order_org pk e.org db e.found)) (saved_ended row db refl)
        (record { distinct = w.distinct; idle = saved-IsIdle row db refl w })) in
    subst (λ (x : Db × WorkOrder). IsServed x.0) (sym result)
      (record { distinct = back.distinct; idle = back.idle })

completing-IsServed :
    (now : ℕ) (today : Date) (pk : ℕ) (actor : User) (resolution notes : List ℕ)
    (downtime : Option ℕ) (performed_by : Option Ref) (date : Option Date) {db : Db}
    {r : Db × WorkOrder × MaintenanceRecord}
    → complete_work_order now today pk actor resolution notes downtime performed_by date db ≡ ok r
    → IsServed db
    → IsServed r.0
unfolding store_completion
completing-IsServed now today pk actor resolution notes downtime performed_by date {db} h w =
    let (e, _, result) =
      complete_work_order-Found now today pk actor resolution notes downtime performed_by date db
        h in
    let row = completed_order now resolution notes e.order in
    let (_, org) = found_asset_key e.order.asset e.org db e.found_asset in
    let back =
      (restore_asset-IsServed e.org actor row e.asset
        (store_completion
          (service_record e.org e.asset row (date_or date today) (order_total e.order.pk db)
            downtime performed_by db)
          (saved_orders row db) db)
        (org ∙ sym (found_order_org pk e.org db e.found)) (saved_ended row db refl)
        (record { distinct = w.distinct; idle = saved-IsIdle row db refl w })) in
    subst (λ (x : Db × WorkOrder × MaintenanceRecord). IsServed x.0) (sym result)
      (record { distinct = back.distinct; idle = back.idle })

Step-IsServed : {db db' : Db} → Step db db' → IsServed db → IsServed db'
Step-IsServed (planning actor a type value unit due active h) w =
    Kept-IsServed (planning-Kept actor a type value unit due active h) w
Step-IsServed (replanning pk actor changes h) w =
    Kept-IsServed (replanning-Kept pk actor changes h) w
Step-IsServed (costing actor order type description quantity cost h) w =
    Kept-IsServed (costing-Kept actor order type description quantity cost h) w
Step-IsServed (opening now actor a type description priority due h) w =
    Opened-IsServed (creation-Opened now actor a type description priority due h) w
Step-IsServed (assigning pk user actor h) w = assigning-IsServed pk user actor h w
Step-IsServed (starting now pk actor h) w = starting-IsServed now pk actor h w
Step-IsServed (completing now today pk actor resolution notes downtime performed_by date h) w =
    completing-IsServed now today pk actor resolution notes downtime performed_by date h w
Step-IsServed (cancelling now pk actor reason h) w = cancelling-IsServed now pk actor reason h w

-- Through any sequence of successful maintenance calls, from a database whose assets have keys of
-- their own and where no active asset has a work order in progress, the same holds.
pub Steps-IsServed : {db db' : Db} → Steps db db' → IsServed db → IsServed db'
Steps-IsServed here w = w
Steps-IsServed (more steps step) w = Step-IsServed step (Steps-IsServed steps w)
