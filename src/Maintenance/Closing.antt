-- ===== src/Maintenance/Closing.antt =====
-- The end of a work order: `complete_work_order`, `cancel_work_order` and the return of its asset to
-- service, of backend/maintenance/services.py.
use assetflow_fixed_asset_ma.Prelude.{
  ℕ, suc, ◌+◌, ◌^◌, Bool, true, false, not, ◌&&◌, Option, none, some, List, [], ◌∷◌, ltb, ◌==◌,
  if◌then◌else◌,
}
use assetflow_fixed_asset_ma.Calendar.{Date}
use assetflow_fixed_asset_ma.Result.{
  Result, ok, ◌>>=◌, ◌>>◌, raise_if, foreign_relation, bad_status, row_invalid,
}
use assetflow_fixed_asset_ma.Table.{exists, filter}
use assetflow_fixed_asset_ma.Records.{
  User, Ref, AssetStatus, Asset, WorkOrderStatus, is_open_work_order, WorkOrder, MaintenanceCost,
  MaintenanceRecord, Action, Db, record_event, actor_organization,
}
use assetflow_fixed_asset_ma.Maintenance.Checks.{
  is_in_progress, is_active_order, same_org, serviced_asset, locked_order, order_full_clean,
  text_given, save_order, with_orders, with_asset,
}

unfoldable pub sum_costs : List MaintenanceCost → ℕ
sum_costs [] = 0
sum_costs (c ∷ cs) = c.total_cost + sum_costs cs

-- `work_order.costs.aggregate(total=Sum("total_cost"))`, 0 where there is none.
unfoldable pub order_total : ℕ → Db → ℕ
order_total order db =
    sum_costs (filter (λ (c : MaintenanceCost). c.work_order == order) db.maintenance.costs)

abbrev pub is_in_maintenance : AssetStatus → Bool
is_in_maintenance AssetStatus.in_maintenance = true
is_in_maintenance _ = false

-- Another assigned or started order of the asset, in the rows at hand.
unfoldable pub active_elsewhere : WorkOrder → Asset → List WorkOrder → Bool
active_elsewhere order asset rows =
    exists
      (λ (x : WorkOrder).
        x.org == order.org
        && x.asset == asset.pk
        && is_active_order x.status
        && not (x.pk == order.pk))
      rows

-- `_restore_asset_if_no_active_work`
unfoldable pub restore_asset : ℕ → User → WorkOrder → Asset → Db → Db
restore_asset org actor order asset db =
    if is_in_maintenance asset.status
      && not (active_elsewhere order asset db.maintenance.work_orders)
    then with_asset (record asset { status = AssetStatus.active; updated_by = some actor })
        (record_event org (some actor.pk) Action.asset_returned_from_maintenance asset.pk db)
    else db

abbrev pub completed_order : ℕ → List ℕ → List ℕ → WorkOrder → WorkOrder
completed_order now resolution notes o = record o {
  resolution = resolution;
  completion_notes = notes;
  status = WorkOrderStatus.completed;
  completed_at = some now;
}

-- `resolution or completion_notes or description`
abbrev pub first_text : List ℕ → List ℕ → List ℕ → List ℕ
first_text [] [] description = description
first_text [] (c ∷ s) description = c ∷ s
first_text (c ∷ s) notes description = c ∷ s

abbrev pub date_or : Option Date → Date → Date
date_or none today = today
date_or (some d) today = d

abbrev pub service_record :
    ℕ → Asset → WorkOrder → Date → ℕ → Option ℕ → Option Ref → Db → MaintenanceRecord
service_record org asset order date total downtime performed_by db = record {
  pk = db.next_key;
  org = org;
  asset = asset.pk;
  work_order = order.pk;
  maintenance_date = date;
  maintenance_type = order.maintenance_type;
  summary = first_text order.resolution order.completion_notes order.description;
  total_cost = total;
  downtime_minutes = downtime;
  performed_by = performed_by;
}

-- The one-to-one relation of a record to its order.
unfoldable pub recorded : ℕ → Db → Bool
recorded order db = exists (λ (x : MaintenanceRecord). x.work_order == order) db.maintenance.records

abbrev short_downtime : Option ℕ → Bool
short_downtime none = true
short_downtime (some n) = ltb n (2 ^ 31)

-- `record.full_clean()`
unfoldable pub record_valid : WorkOrder → MaintenanceRecord → Db → Bool
record_valid order r db =
    text_given r.summary
    && ltb r.total_cost (10 ^ 24)
    && short_downtime r.downtime_minutes
    && order.org == r.org
    && order.asset == r.asset
    && not (recorded order.pk db)

-- The rows of a completion before the asset is restored: the record and the order.
unfoldable pub store_completion : MaintenanceRecord → List WorkOrder → Db → Db
store_completion r rows db = record db {
  maintenance = record db.maintenance { work_orders = rows; records = r ∷ db.maintenance.records };
  next_key = suc db.next_key;
}

-- The two events of a completion.
abbrev pub log_completion : ℕ → User → WorkOrder → MaintenanceRecord → Db → Db
log_completion org actor order r db =
    record_event org (some actor.pk) Action.maintenance_record_created r.pk
      (record_event org (some actor.pk) Action.work_order_completed order.pk db)

unfoldable pub complete_work_order :
    ℕ
    → Date
    → ℕ
    → User
    → List ℕ
    → List ℕ
    → Option ℕ
    → Option Ref
    → Option Date
    → Db
    → Result (Db × WorkOrder × MaintenanceRecord)
complete_work_order now today work_order_id actor resolution notes downtime performed_by date db =
    do
      org ← actor_organization actor
      raise_if (not (same_org org performed_by)) foreign_relation
      order ← locked_order work_order_id org db
      asset ← serviced_asset order.asset org db
      raise_if (not (is_in_progress order.status)) bad_status
      let row : WorkOrder = completed_order now resolution notes order
      raise_if (not (order_full_clean asset row db)) row_invalid
      let r : MaintenanceRecord =
          service_record org asset row (date_or date today) (order_total order.pk db) downtime
            performed_by db
      raise_if (not (record_valid row r db)) row_invalid
      rows ← save_order row db.maintenance.work_orders
      ok (
        log_completion org actor row r
            (restore_asset org actor row asset (store_completion r rows db)),
        row,
        r,
      )

-- `if reason: work_order.completion_notes = reason`
abbrev noted : List ℕ → List ℕ → List ℕ
noted [] old = old
noted (c ∷ s) old = c ∷ s

abbrev pub cancelled_order : ℕ → List ℕ → WorkOrder → WorkOrder
cancelled_order now reason o = record o {
  status = WorkOrderStatus.cancelled;
  cancelled_at = some now;
  completion_notes = noted reason o.completion_notes;
}

unfoldable pub cancel_work_order : ℕ → ℕ → User → List ℕ → Db → Result (Db × WorkOrder)
cancel_work_order now work_order_id actor reason db = do
  org ← actor_organization actor
  order ← locked_order work_order_id org db
  asset ← serviced_asset order.asset org db
  raise_if (not (is_open_work_order order.status)) bad_status
  let row : WorkOrder = cancelled_order now reason order
  raise_if (not (order_full_clean asset row db)) row_invalid
  rows ← save_order row db.maintenance.work_orders
  ok (
    record_event org (some actor.pk) Action.work_order_cancelled order.pk
        (restore_asset org actor row asset (with_orders rows db)),
    row,
  )
