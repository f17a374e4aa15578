-- ===== src/Maintenance/Workflow.antt =====
-- The maintenance services as steps of the database, and the life of a work order.
use assetflow_fixed_asset_ma.Prelude.{ℕ, ◌≡◌, Bool, Option, List}
use assetflow_fixed_asset_ma.Prelude.Int.{ℤ}
use assetflow_fixed_asset_ma.Calendar.{Date}
use assetflow_fixed_asset_ma.Result.{ok}
use assetflow_fixed_asset_ma.Records.{
  User, Ref, MaintenanceType, FrequencyUnit, WorkOrderPriority, WorkOrderStatus, WorkOrder,
  MaintenancePlan, CostType, MaintenanceCost, MaintenanceRecord, Db,
}
use assetflow_fixed_asset_ma.Maintenance.Plans.{
  PlanChange, create_maintenance_plan, update_maintenance_plan,
}
use assetflow_fixed_asset_ma.Maintenance.Orders.{
  create_work_order, assign_work_order, start_work_order,
}
use assetflow_fixed_asset_ma.Maintenance.Closing.{complete_work_order, cancel_work_order}
use assetflow_fixed_asset_ma.Maintenance.Costs.{create_maintenance_cost}

-- A successful call of one of the services, by any actor at any time.
pub data Step (db : Db) : Db → Type 0 where
  planning :
      (actor : User) (asset_id : ℕ) (type : MaintenanceType) (value : ℕ) (unit : FrequencyUnit)
      (due : Date) (active : Bool) {r : Db × MaintenancePlan}
      → create_maintenance_plan actor asset_id type value unit due active db ≡ ok r
      → Step db r.0
  replanning :
      (pk : ℕ) (actor : User) (changes : List PlanChange) {r : Db × MaintenancePlan}
      → update_maintenance_plan pk actor changes db ≡ ok r
      → Step db r.0
  opening :
      (now : ℕ) (actor : User) (asset_id : ℕ) (type : MaintenanceType) (description : List ℕ)
      (priority : WorkOrderPriority) (due : Option Date) {r : Db × WorkOrder}
      → create_work_order now actor asset_id type description priority due db ≡ ok r
      → Step db r.0
  assigning :
      (pk : ℕ) (user : Option Ref) (actor : User) {r : Db × WorkOrder}
      → assign_work_order pk user actor db ≡ ok r
      → Step db r.0
  starting :
      (now pk : ℕ) (actor : User) {r : Db × WorkOrder}
      → start_work_order now pk actor db ≡ ok r
      → Step db r.0
  completing :
      (now : ℕ) (today : Date) (pk : ℕ) (actor : User) (resolution notes : List ℕ)
      (downtime : Option ℕ) (performed_by : Option Ref) (date : Option Date)
      {r : Db × WorkOrder × MaintenanceRecord}
      → complete_work_order now today pk actor resolution notes downtime performed_by date db ≡ ok r
      → Step db r.0
  cancelling :
      (now pk : ℕ) (actor : User) (reason : List ℕ) {r : Db × WorkOrder}
      → cancel_work_order now pk actor reason db ≡ ok r
      → Step db r.0
  costing :
      (actor : User) (order : ℕ) (type : CostType) (description : List ℕ) (quantity cost : ℤ)
      {r : Db × MaintenanceCost}
      → create_maintenance_cost actor order type description quantity cost db ≡ ok r
      → Step db r.0

pub data Steps (start : Db) : Db → Type 0 where
  here : Steps start start
  more : {db db' : Db} → Steps start db → Step db db' → Steps start db'

-- The life of a work order.
pub data Move : WorkOrderStatus → WorkOrderStatus → Type 0 where
  assigned_to_user : Move WorkOrderStatus.opened WorkOrderStatus.assigned
  started_at_once : Move WorkOrderStatus.opened WorkOrderStatus.in_progress
  started_by_user : Move WorkOrderStatus.assigned WorkOrderStatus.in_progress
  done : Move WorkOrderStatus.in_progress WorkOrderStatus.completed
  dropped_new : Move WorkOrderStatus.opened WorkOrderStatus.cancelled
  dropped_assigned : Move WorkOrderStatus.assigned WorkOrderStatus.cancelled
  dropped_started : Move WorkOrderStatus.in_progress WorkOrderStatus.cancelled
