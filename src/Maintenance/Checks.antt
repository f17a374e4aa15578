-- ===== src/Maintenance/Checks.antt =====
-- The validation of work orders in backend/maintenance/models.py, the guard of `WorkOrder.save`, and
-- the locked lookups of backend/maintenance/services.py.
use assetflow_fixed_asset_ma.Prelude.{
  ℕ, Bool, true, false, not, ◌&&◌, Option, none, some, List, [], ◌∷◌, leb, ◌==◌, is_set, is_unset,
  same_key,
}
use assetflow_fixed_asset_ma.Texts.{same_text}
use assetflow_fixed_asset_ma.Calendar.{Date, same_date}
use assetflow_fixed_asset_ma.Result.{
  Result, ok, ◌>>=◌, ◌>>◌, raise_if, or_raise, asset_missing, work_order_missing, not_movable,
  history_immutable,
}
use assetflow_fixed_asset_ma.Table.{find, exists, save}
use assetflow_fixed_asset_ma.Records.{
  Ref, ref_key, AssetStatus, Asset, MaintenanceType, preventive, corrective, inspection, emergency,
  WorkOrderPriority, low, medium, high, critical, WorkOrderStatus, is_open_work_order, WorkOrder,
  Db, find_asset,
}

-- `asset.status in MOVABLE_MAINTENANCE_ASSET_STATES`
abbrev pub is_maintainable : AssetStatus → Bool
is_maintainable AssetStatus.active = true
is_maintainable AssetStatus.in_maintenance = true
is_maintainable AssetStatus.transferred = true
is_maintainable AssetStatus.impaired = true
is_maintainable _ = false

abbrev pub is_disposed : AssetStatus → Bool
is_disposed AssetStatus.disposed = true
is_disposed _ = false

abbrev pub is_opened : WorkOrderStatus → Bool
is_opened WorkOrderStatus.opened = true
is_opened _ = false

abbrev pub is_in_progress : WorkOrderStatus → Bool
is_in_progress WorkOrderStatus.in_progress = true
is_in_progress _ = false

-- `status in ACTIVE_WORK_ORDER_STATES`
abbrev pub is_active_order : WorkOrderStatus → Bool
is_active_order WorkOrderStatus.assigned = true
is_active_order WorkOrderStatus.in_progress = true
is_active_order _ = false

-- `_same_org(value, organization, field)`
abbrev pub same_org : ℕ → Option Ref → Bool
same_org org none = true
same_org org (some r) = r.org == org

unfoldable pub serviced_asset : ℕ → ℕ → Db → Result Asset
serviced_asset asset_id org db = do
  asset ← or_raise (find_asset asset_id org db) asset_missing
  raise_if (not (is_maintainable asset.status)) not_movable
  ok asset

unfoldable pub find_order : ℕ → ℕ → Db → Option WorkOrder
find_order pk org db =
    find (λ (o : WorkOrder). o.pk == pk && o.org == org) db.maintenance.work_orders

-- `_locked_work_order`: the order and its asset are of the organization.
unfoldable pub locked_order : ℕ → ℕ → Db → Result WorkOrder
locked_order work_order_id org db = do
  order ← or_raise (find_order work_order_id org db) work_order_missing
  asset ← or_raise (find_asset order.asset org db) work_order_missing
  ok order

-- `WorkOrder.clean` for an order on `asset`.
unfoldable pub order_clean : Asset → WorkOrder → Bool
order_clean asset o =
    asset.org == o.org
    && same_org o.org (some o.requested_by)
    && same_org o.org o.assigned_to
    && not (is_disposed asset.status)

-- `wo_workflow_state_valid`
abbrev pub order_state_valid : WorkOrderStatus → WorkOrder → Bool
order_state_valid WorkOrderStatus.opened o =
    is_unset o.started_at && is_unset o.completed_at && is_unset o.cancelled_at
order_state_valid WorkOrderStatus.assigned o =
    is_set o.assigned_to
    && is_unset o.started_at
    && is_unset o.completed_at
    && is_unset o.cancelled_at
order_state_valid WorkOrderStatus.in_progress o =
    is_set o.started_at && is_unset o.completed_at && is_unset o.cancelled_at
order_state_valid WorkOrderStatus.completed o =
    is_set o.started_at && is_set o.completed_at && is_unset o.cancelled_at
order_state_valid WorkOrderStatus.cancelled o = is_unset o.completed_at && is_set o.cancelled_at

abbrev ordered : Option ℕ → Option ℕ → Bool
ordered (some a) (some b) = leb a b
ordered _ _ = true

-- The three constraints that order the timestamps.
abbrev pub order_times_valid : WorkOrder → Bool
order_times_valid o =
    ordered (some o.opened_at) o.started_at
    && ordered o.started_at o.completed_at
    && ordered (some o.opened_at) o.cancelled_at

abbrev pub text_given : List ℕ → Bool
text_given [] = false
text_given (c ∷ s) = true

-- `uniq_wo_number_org`: another order of the organization with the number.
unfoldable pub number_taken : WorkOrder → Db → Bool
number_taken o db =
    exists
      (λ (x : WorkOrder).
        x.org == o.org && x.work_order_number == o.work_order_number && not (x.pk == o.pk))
      db.maintenance.work_orders

-- `work_order.full_clean()`
unfoldable pub order_full_clean : Asset → WorkOrder → Db → Bool
order_full_clean asset o db =
    text_given o.description
    && order_clean asset o
    && order_state_valid o.status o
    && order_times_valid o
    && not (number_taken o db)

abbrev type_code : MaintenanceType → ℕ
type_code preventive = 0
type_code corrective = 1
type_code inspection = 2
type_code emergency = 3

abbrev priority_code : WorkOrderPriority → ℕ
priority_code low = 0
priority_code medium = 1
priority_code high = 2
priority_code critical = 3

abbrev order_status_code : WorkOrderStatus → ℕ
order_status_code WorkOrderStatus.opened = 0
order_status_code WorkOrderStatus.assigned = 1
order_status_code WorkOrderStatus.in_progress = 2
order_status_code WorkOrderStatus.completed = 3
order_status_code WorkOrderStatus.cancelled = 4

abbrev same_due : Option Date → Option Date → Bool
same_due none none = true
same_due (some a) (some b) = same_date a b
same_due _ _ = false

-- No concrete field but `id` and `updated_at` differs.
unfoldable pub same_order : WorkOrder → WorkOrder → Bool
same_order a b =
    a.org == b.org
    && a.work_order_number == b.work_order_number
    && a.asset == b.asset
    && type_code a.maintenance_type == type_code b.maintenance_type
    && priority_code a.priority == priority_code b.priority
    && order_status_code a.status == order_status_code b.status
    && same_text a.description b.description
    && same_text a.resolution b.resolution
    && a.requested_by.pk == b.requested_by.pk
    && same_key (ref_key a.assigned_to) (ref_key b.assigned_to)
    && same_due a.due_date b.due_date
    && a.opened_at == b.opened_at
    && same_key a.started_at b.started_at
    && same_key a.completed_at b.completed_at
    && same_key a.cancelled_at b.cancelled_at
    && same_text a.completion_notes b.completion_notes

-- Whether the stored order is completed or cancelled and would change.
abbrev pub rewrites_terminal : Option WorkOrder → WorkOrder → Bool
rewrites_terminal none o = false
rewrites_terminal (some previous) o =
    not (is_open_work_order previous.status) && not (same_order previous o)

-- `work_order.save()` of a row that the table holds.
unfoldable pub save_order : WorkOrder → List WorkOrder → Result (List WorkOrder)
save_order o rows = do
  raise_if (rewrites_terminal (find (λ (x : WorkOrder). x.pk == o.pk) rows) o) history_immutable
  ok (save (λ (x : WorkOrder). x.pk) o rows)

abbrev pub with_orders : List WorkOrder → Db → Db
with_orders rows db = record db { maintenance = record db.maintenance { work_orders = rows } }

abbrev pub with_asset : Asset → Db → Db
with_asset a db = record db { assets = save (λ (x : Asset). x.pk) a db.assets }
