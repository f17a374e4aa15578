-- ===== src/Maintenance/Moving.antt =====
-- What the maintenance steps that move an order on write to the work orders and the sequences.
use assetflow_fixed_asset_ma.Prelude.{
  ℕ, suc, ◌≤◌, ◌≡◌, refl, ap, ◌∙◌, Bool, true, not, ◌&&◌, Option, some, List, ◌∷◌, arith, ◌⊎◌, inl,
  inr, Bool-cases,
}
use assetflow_fixed_asset_ma.Calendar.{Date}
use assetflow_fixed_asset_ma.Result.{ok}
use assetflow_fixed_asset_ma.Records.{
  Sequence, User, Ref, Asset, is_active_asset, WorkOrderStatus, is_open_work_order, WorkOrder,
  MaintenanceRecord, Action, Db,
}
use assetflow_fixed_asset_ma.Maintenance.Checks.{is_opened, is_in_progress, find_order, with_orders}
use assetflow_fixed_asset_ma.Maintenance.Orders.{
  next_work_order_number, assign_work_order, is_startable, started_order, enter_maintenance,
  store_rows, start_work_order,
}
use assetflow_fixed_asset_ma.Maintenance.Closing.{
  is_in_maintenance, active_elsewhere, restore_asset, completed_order, store_completion,
  service_record, order_total, date_or, complete_work_order, cancelled_order, cancel_work_order,
}
use assetflow_fixed_asset_ma.Maintenance.Effects.{
  saved_orders, Found, assign_work_order-Found, start_work_order-Found, complete_work_order-Found,
  cancel_work_order-Found,
}
use assetflow_fixed_asset_ma.Maintenance.Workflow.{
  Move, assigned_to_user, started_at_once, started_by_user, done, dropped_new, dropped_assigned,
  dropped_started,
}

-- The columns that a work order keeps for its life.
pub record SameRequest (a b : WorkOrder) : Type 0 where
  pub pk : b.pk ≡ a.pk
  pub org : b.org ≡ a.org
  pub number : b.work_order_number ≡ a.work_order_number
  pub asset : b.asset ≡ a.asset
  pub opened_at : b.opened_at ≡ a.opened_at

-- A step without a write to the work orders, the sequences or the assets.
pub record Kept (db db' : Db) : Type 0 where
  pub orders : db'.maintenance.work_orders ≡ db.maintenance.work_orders
  pub sequences : db'.maintenance.sequences ≡ db.maintenance.sequences
  pub assets : db'.assets ≡ db.assets
  pub next_key : db.next_key ≤ db'.next_key

-- A step that opens an order.
pub record Opened (db db' : Db) : Type 0 where
  pub org : ℕ
  pub row : WorkOrder
  pub fresh : row.pk ≡ db.next_key
  pub row_org : row.org ≡ org
  pub opened : row.status ≡ WorkOrderStatus.opened
  pub allocated : List Sequence × ℕ
  pub allowed : next_work_order_number org db.maintenance.sequences ≡ ok allocated
  pub number : row.work_order_number ≡ allocated.1
  pub orders : db'.maintenance.work_orders ≡ row ∷ db.maintenance.work_orders
  pub sequences : db'.maintenance.sequences ≡ allocated.0
  pub assets : db'.assets ≡ db.assets
  pub next_key : db'.next_key ≡ suc db.next_key

-- A step that moves an order on.
pub record Moved (db db' : Db) : Type 0 where
  pub pk : ℕ
  pub org : ℕ
  pub old : WorkOrder
  pub row : WorkOrder
  pub found : find_order pk org db ≡ some old
  pub same : SameRequest old row
  pub move : Move old.status row.status
  pub orders : db'.maintenance.work_orders ≡ saved_orders row db
  pub sequences : db'.maintenance.sequences ≡ db.maintenance.sequences
  pub next_key : db.next_key ≤ db'.next_key

abbrev pub Written : Db → Db → Type 0
Written db db' = Kept db db' ⊎ (Opened db db' ⊎ Moved db db')

pub restore_asset-maintenance :
    (org : ℕ) (actor : User) (o : WorkOrder) (a : Asset) (db : Db)
    → ((restore_asset org actor o a db).maintenance ≡ db.maintenance)
      × ((restore_asset org actor o a db).next_key ≡ db.next_key)
unfolding restore_asset
restore_asset-maintenance org actor o a db =
    elim (Bool-cases
      (is_in_maintenance a.status && not (active_elsewhere o a db.maintenance.work_orders))) [
        | inl e ↦ rw e (refl, refl)
        | inr e ↦ rw e (refl, refl)
      ]

pub enter_maintenance-maintenance :
    (org : ℕ) (actor : User) (a : Asset) (db : Db)
    → ((enter_maintenance org actor a db).maintenance ≡ db.maintenance)
      × ((enter_maintenance org actor a db).next_key ≡ db.next_key)
unfolding enter_maintenance
enter_maintenance-maintenance org actor a db = elim (Bool-cases (is_active_asset a.status)) [
  | inl e ↦ rw e (refl, refl)
  | inr e ↦ rw e (refl, refl)
]

kept_request :
    (a b : WorkOrder)
    → b ≡ record a {
      status = b.status;
      resolution = b.resolution;
      assigned_to = b.assigned_to;
      started_at = b.started_at;
      completed_at = b.completed_at;
      cancelled_at = b.cancelled_at;
      completion_notes = b.completion_notes;
    }
    → SameRequest a b
kept_request a b e = record {
  pk = ap (λ (x : WorkOrder). x.pk) e;
  org = ap (λ (x : WorkOrder). x.org) e;
  number = ap (λ (x : WorkOrder). x.work_order_number) e;
  asset = ap (λ (x : WorkOrder). x.asset) e;
  opened_at = ap (λ (x : WorkOrder). x.opened_at) e;
}

assigned-Move : (s : WorkOrderStatus) → is_opened s ≡ true → Move s WorkOrderStatus.assigned
assigned-Move WorkOrderStatus.opened h = assigned_to_user
assigned-Move WorkOrderStatus.assigned h = cc
assigned-Move WorkOrderStatus.in_progress h = cc
assigned-Move WorkOrderStatus.completed h = cc
assigned-Move WorkOrderStatus.cancelled h = cc

started-Move : (s : WorkOrderStatus) → is_startable s ≡ true → Move s WorkOrderStatus.in_progress
started-Move WorkOrderStatus.opened h = started_at_once
started-Move WorkOrderStatus.assigned h = started_by_user
started-Move WorkOrderStatus.in_progress h = cc
started-Move WorkOrderStatus.completed h = cc
started-Move WorkOrderStatus.cancelled h = cc

completed-Move : (s : WorkOrderStatus) → is_in_progress s ≡ true → Move s WorkOrderStatus.completed
completed-Move WorkOrderStatus.in_progress h = done
completed-Move WorkOrderStatus.opened h = cc
completed-Move WorkOrderStatus.assigned h = cc
completed-Move WorkOrderStatus.completed h = cc
completed-Move WorkOrderStatus.cancelled h = cc

cancelled-Move :
    (s : WorkOrderStatus) → is_open_work_order s ≡ true → Move s WorkOrderStatus.cancelled
cancelled-Move WorkOrderStatus.opened h = dropped_new
cancelled-Move WorkOrderStatus.assigned h = dropped_assigned
cancelled-Move WorkOrderStatus.in_progress h = dropped_started
cancelled-Move WorkOrderStatus.completed h = cc
cancelled-Move WorkOrderStatus.cancelled h = cc

-- What is written to the tables but the assets, whatever row restores the asset.
Found-Moved :
    {allowed : WorkOrderStatus → Bool} {set : WorkOrder → WorkOrder} {pk : ℕ} {actor : User}
    {db db' : Db} (e : Found allowed set pk actor db)
    → SameRequest e.order (set e.order)
    → Move e.order.status (set e.order).status
    → db'.maintenance.work_orders ≡ saved_orders (set e.order) db
    → db'.maintenance.sequences ≡ db.maintenance.sequences
    → db.next_key ≤ db'.next_key
    → Moved db db'
Found-Moved {set = set} {pk = pk} e same move orders sequences next = record {
  pk = pk;
  org = e.org;
  old = e.order;
  row = set e.order;
  found = e.found;
  same = same;
  move = move;
  orders = orders;
  sequences = sequences;
  next_key = next;
}

pub no_less : {m n : ℕ} → n ≡ m → m ≤ n
no_less h = omega (arith, h)

pub one_more : {m n : ℕ} → n ≡ suc m → m ≤ n
one_more h = omega (arith, h)

pub assigning-Moved :
    (pk : ℕ) (user : Option Ref) (actor : User) {db : Db} {r : Db × WorkOrder}
    → assign_work_order pk user actor db ≡ ok r
    → Moved db r.0
unfolding store_rows
assigning-Moved pk user actor {db} h =
    let (e, result) = assign_work_order-Found pk user actor db h in
    Found-Moved e (kept_request e.order _ refl) (assigned-Move e.order.status e.status_allowed)
      (ap (λ x. x.0.maintenance.work_orders) result) (ap (λ x. x.0.maintenance.sequences) result)
      (no_less (ap (λ x. x.0.next_key) result))

pub starting-Moved :
    (now pk : ℕ) (actor : User) {db : Db} {r : Db × WorkOrder}
    → start_work_order now pk actor db ≡ ok r
    → Moved db r.0
unfolding store_rows
starting-Moved now pk actor {db} h =
    let (e, result) = start_work_order-Found now pk actor db h in
    let (tables, next) = enter_maintenance-maintenance e.org actor e.asset (
      store_rows e.org actor Action.work_order_started e.order.pk
        (saved_orders (started_order now e.order) db) db) in
    Found-Moved e (kept_request e.order _ refl) (started-Move e.order.status e.status_allowed)
      (ap (λ x. x.0.maintenance.work_orders) result ∙ ap (λ x. x.work_orders) tables)
      (ap (λ x. x.0.maintenance.sequences) result ∙ ap (λ x. x.sequences) tables)
      (no_less (ap (λ x. x.0.next_key) result ∙ next))

pub cancelling-Moved :
    (now pk : ℕ) (actor : User) (reason : List ℕ) {db : Db} {r : Db × WorkOrder}
    → cancel_work_order now pk actor reason db ≡ ok r
    → Moved db r.0
unfolding store_rows
cancelling-Moved now pk actor reason {db} h =
    let (e, result) = cancel_work_order-Found now pk actor reason db h in
    let (tables, next) =
      restore_asset-maintenance e.org actor (cancelled_order now reason e.order) e.asset
        (with_orders (saved_orders (cancelled_order now reason e.order) db) db) in
    Found-Moved e (kept_request e.order _ refl) (cancelled-Move e.order.status e.status_allowed)
      (ap (λ x. x.0.maintenance.work_orders) result ∙ ap (λ x. x.work_orders) tables)
      (ap (λ x. x.0.maintenance.sequences) result ∙ ap (λ x. x.sequences) tables)
      (no_less (ap (λ x. x.0.next_key) result ∙ next))

pub completing-Moved :
    (now : ℕ) (today : Date) (pk : ℕ) (actor : User) (resolution notes : List ℕ)
    (downtime : Option ℕ) (performed_by : Option Ref) (date : Option Date) {db : Db}
    {r : Db × WorkOrder × MaintenanceRecord}
    → complete_work_order now today pk actor resolution notes downtime performed_by date db ≡ ok r
    → Moved db r.0
unfolding store_completion
completing-Moved now today pk actor resolution notes downtime performed_by date {db} h =
    let (e, _, result) =
      complete_work_order-Found now today pk actor resolution notes downtime performed_by date db
        h in
    let row = completed_order now resolution notes e.order in
    let (tables, next) = restore_asset-maintenance e.org actor row e.asset (
      store_completion
        (service_record e.org e.asset row (date_or date today) (order_total e.order.pk db) downtime
          performed_by db)
        (saved_orders row db) db) in
    Found-Moved e (kept_request e.order _ refl) (completed-Move e.order.status e.status_allowed)
      (ap (λ x. x.0.maintenance.work_orders) result ∙ ap (λ x. x.work_orders) tables)
      (ap (λ x. x.0.maintenance.sequences) result ∙ ap (λ x. x.sequences) tables)
      (one_more (ap (λ x. x.0.next_key) result ∙ next))
