-- ===== src/Maintenance/Orders.antt =====
-- Work orders up to their start: `create_work_order`, `assign_work_order` and `start_work_order` of
-- backend/maintenance/services.py.
use assetflow_fixed_asset_ma.Prelude.{
  ℕ, suc, Bool, true, false, not, Option, none, some, List, [], ◌∷◌, ◌==◌, ◌^◌, ltb, if◌then◌else◌,
}
use assetflow_fixed_asset_ma.Calendar.{Date}
use assetflow_fixed_asset_ma.Result.{
  Result, ok, ◌>>=◌, ◌>>◌, raise_if, foreign_relation, bad_status, row_invalid, number_out_of_range,
}
use assetflow_fixed_asset_ma.Table.{find, save}
use assetflow_fixed_asset_ma.Records.{
  User, Ref, AssetStatus, is_active_asset, Asset, MaintenanceType, WorkOrderPriority,
  WorkOrderStatus, WorkOrder, Sequence, Action, Db, record_event, actor_organization,
}
use assetflow_fixed_asset_ma.Maintenance.Checks.{
  is_opened, same_org, serviced_asset, locked_order, order_full_clean, save_order, with_orders,
  with_asset,
}

abbrev pub sequence_of : ℕ → List Sequence → Option Sequence
sequence_of org rows = find (λ (s : Sequence). s.org == org) rows

-- The sequences with a handed-out number: a first order creates the row, a later one moves it on.
abbrev pub allocation : ℕ → Option Sequence → List Sequence → List Sequence × ℕ
allocation org none rows = (record { org = org; next_value = 2 } ∷ rows, 1)
allocation org (some s) rows =
    (save (λ (x : Sequence). x.org) (record s { next_value = suc s.next_value }) rows, s.next_value)

-- The next value must fit its column, a PositiveBigIntegerField.
abbrev pub exhausted : Option Sequence → Bool
exhausted none = false
exhausted (some s) = not (ltb (suc s.next_value) (2 ^ 63))

-- The number that is handed out, and the sequences after it.
abbrev pub numbered : ℕ → Option Sequence → List Sequence → Result (List Sequence × ℕ)
numbered org found rows = do
  raise_if (exhausted found) number_out_of_range
  ok (allocation org found rows)

unfoldable pub next_work_order_number : ℕ → List Sequence → Result (List Sequence × ℕ)
next_work_order_number org rows = numbered org (sequence_of org rows) rows

abbrev pub new_order :
    ℕ
    → ℕ
    → User
    → Asset
    → ℕ
    → MaintenanceType
    → WorkOrderPriority
    → List ℕ
    → Option Date
    → Db
    → WorkOrder
new_order now org actor asset number type priority description due db = record {
  pk = db.next_key;
  org = org;
  work_order_number = number;
  asset = asset.pk;
  maintenance_type = type;
  priority = priority;
  status = WorkOrderStatus.opened;
  description = description;
  resolution = [];
  requested_by = record { pk = actor.pk; org = org };
  assigned_to = none;
  due_date = due;
  opened_at = now;
  started_at = none;
  completed_at = none;
  cancelled_at = none;
  completion_notes = [];
}

-- The writes of a creation.
unfoldable pub store_order : ℕ → User → WorkOrder → List Sequence → Db → Db
store_order org actor order sequences db =
    let db' : Db = record_event org (some actor.pk) Action.work_order_created order.pk db in
    record db' {
      maintenance = record db.maintenance {
        work_orders = order ∷ db.maintenance.work_orders;
        sequences = sequences;
      };
      next_key = suc db.next_key;
    }

unfoldable pub create_work_order :
    ℕ
    → User
    → ℕ
    → MaintenanceType
    → List ℕ
    → WorkOrderPriority
    → Option Date
    → Db
    → Result (Db × WorkOrder)
create_work_order now actor asset_id type description priority due db = do
  org ← actor_organization actor
  asset ← serviced_asset asset_id org db
  allocated ← next_work_order_number org db.maintenance.sequences
  let order : WorkOrder = new_order now org actor asset allocated.1 type priority description due db
  raise_if (not (order_full_clean asset order db)) row_invalid
  ok (store_order org actor order allocated.0 db, order)

abbrev pub assigned_order : Option Ref → WorkOrder → WorkOrder
assigned_order user o = record o { assigned_to = user; status = WorkOrderStatus.assigned }

-- The rows of a saved order, with the event of the call.
unfoldable pub store_rows : ℕ → User → Action → ℕ → List WorkOrder → Db → Db
store_rows org actor action entity rows db =
    with_orders rows (record_event org (some actor.pk) action entity db)

unfoldable pub assign_work_order : ℕ → Option Ref → User → Db → Result (Db × WorkOrder)
assign_work_order work_order_id assigned_to actor db = do
  org ← actor_organization actor
  raise_if (not (same_org org assigned_to)) foreign_relation
  order ← locked_order work_order_id org db
  asset ← serviced_asset order.asset org db
  raise_if (not (is_opened order.status)) bad_status
  let row : WorkOrder = assigned_order assigned_to order
  raise_if (not (order_full_clean asset row db)) row_invalid
  rows ← save_order row db.maintenance.work_orders
  ok (store_rows org actor Action.work_order_assigned order.pk rows db, row)

abbrev pub is_startable : WorkOrderStatus → Bool
is_startable WorkOrderStatus.opened = true
is_startable WorkOrderStatus.assigned = true
is_startable _ = false

abbrev pub started_order : ℕ → WorkOrder → WorkOrder
started_order now o = record o { status = WorkOrderStatus.in_progress; started_at = some now }

-- An active asset enters maintenance, with an event of its own; another stays as it is.
unfoldable pub enter_maintenance : ℕ → User → Asset → Db → Db
enter_maintenance org actor asset db =
    if is_active_asset asset.status
    then with_asset (record asset { status = AssetStatus.in_maintenance; updated_by = some actor })
        (record_event org (some actor.pk) Action.asset_entered_maintenance asset.pk db)
    else db

unfoldable pub start_work_order : ℕ → ℕ → User → Db → Result (Db × WorkOrder)
start_work_order now work_order_id actor db = do
  org ← actor_organization actor
  order ← locked_order work_order_id org db
  asset ← serviced_asset order.asset org db
  raise_if (not (is_startable order.status)) bad_status
  let row : WorkOrder = started_order now order
  raise_if (not (order_full_clean asset row db)) row_invalid
  rows ← save_order row db.maintenance.work_orders
  ok (
    enter_maintenance org actor asset
        (store_rows org actor Action.work_order_started order.pk rows db),
    row,
  )
