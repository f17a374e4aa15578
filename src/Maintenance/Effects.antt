-- ===== src/Maintenance/Effects.antt =====
-- What each work order service has found when it succeeds, and what it writes.
use assetflow_fixed_asset_ma.Prelude.{
  not-false, ℕ, ◌≡◌, sym, ap, ◌∙◌, Bool, true, not, Option, some, List, ◌==◌,
}
use assetflow_fixed_asset_ma.Calendar.{Date}
use assetflow_fixed_asset_ma.Result.{
  ok, >>=-eq-ok, or_raise-then, or_raise-eq-ok, raise_if-then, ok-injective,
}
use assetflow_fixed_asset_ma.Table.{find, save}
use assetflow_fixed_asset_ma.Records.{
  User, Ref, Asset, WorkOrderStatus, is_open_work_order, WorkOrder, MaintenanceRecord, Action, Db,
  record_event, actor_organization, find_asset,
}
use assetflow_fixed_asset_ma.Maintenance.Checks.{
  is_maintainable, is_opened, is_in_progress, same_org, serviced_asset, find_order, locked_order,
  order_full_clean, rewrites_terminal, save_order, with_orders,
}
use assetflow_fixed_asset_ma.Maintenance.Orders.{
  assigned_order, assign_work_order, is_startable, started_order, enter_maintenance, store_rows,
  start_work_order,
}
use assetflow_fixed_asset_ma.Maintenance.Closing.{
  order_total, restore_asset, completed_order, date_or, service_record, record_valid,
  store_completion, log_completion, complete_work_order, cancelled_order, cancel_work_order,
}

pub actor_organization-eq-ok :
    (actor : User) {org : ℕ} → actor_organization actor ≡ ok org → actor.org ≡ some org
unfolding actor_organization
actor_organization-eq-ok actor h = or_raise-eq-ok actor.org _ h

pub serviced_asset-eq-ok :
    (pk org : ℕ) (db : Db) {a : Asset}
    → serviced_asset pk org db ≡ ok a
    → (find_asset pk org db ≡ some a) × (is_maintainable a.status ≡ true)
unfolding serviced_asset
serviced_asset-eq-ok pk org db h =
    let (a, found, h1) = or_raise-then (find_asset pk org db) _ _ h in
    let (movable, h2) = raise_if-then (not (is_maintainable a.status)) _ _ h1 in
    let same = ok-injective h2 in
    (
      found ∙ ap some same,
      ap (λ (x : Asset). is_maintainable x.status) (sym same) ∙ not-false _ movable,
    )

locked_order-eq-ok :
    (pk org : ℕ) (db : Db) {o : WorkOrder}
    → locked_order pk org db ≡ ok o
    → find_order pk org db ≡ some o
unfolding locked_order
locked_order-eq-ok pk org db h =
    let (o, found, h1) = or_raise-then (find_order pk org db) _ _ h in
    let (a, _, h2) = or_raise-then (find_asset o.asset org db) _ _ h1 in
    found ∙ ap some (ok-injective h2)

-- The rows after an order is saved.
abbrev pub saved_orders : WorkOrder → Db → List WorkOrder
saved_orders o db = save (λ (x : WorkOrder). x.pk) o db.maintenance.work_orders

save_order-save :
    (o : WorkOrder) (rows : List WorkOrder) {saved : List WorkOrder}
    → save_order o rows ≡ ok saved
    → saved ≡ save (λ (x : WorkOrder). x.pk) o rows
unfolding save_order
save_order-save o rows h =
    let (_, h1) =
      raise_if-then (rewrites_terminal (find (λ (x : WorkOrder). x.pk == o.pk) rows) o) _ _ h in
    sym (ok-injective h1)

-- The order of a call, in a status that the call allows, and its asset in service.
pub record Found (allowed : WorkOrderStatus → Bool) (set : WorkOrder → WorkOrder) (pk : ℕ)
    (actor : User) (db : Db) : Type 0 where
  pub org : ℕ
  pub order : WorkOrder
  pub asset : Asset
  pub own : actor.org ≡ some org
  pub found : find_order pk org db ≡ some order
  pub found_asset : find_asset order.asset org db ≡ some asset
  pub maintainable : is_maintainable asset.status ≡ true
  pub status_allowed : allowed order.status ≡ true
  pub clean : order_full_clean asset (set order) db ≡ true

pub assign_work_order-Found :
    (pk : ℕ) (user : Option Ref) (actor : User) (db : Db) {r : Db × WorkOrder}
    → assign_work_order pk user actor db ≡ ok r
    → (e : Found is_opened (assigned_order user) pk actor db) × (r ≡ (
      store_rows e.org actor Action.work_order_assigned e.order.pk
          (saved_orders (assigned_order user e.order) db)
          db,
      assigned_order user e.order,
    ))
unfolding assign_work_order
assign_work_order-Found pk user actor db h =
    let (org, own, h1) = >>=-eq-ok (actor_organization actor) _ h in
    let (_, h1) = raise_if-then (not (same_org org user)) _ _ h1 in
    let (o, found, h2) = >>=-eq-ok (locked_order pk org db) _ h1 in
    let (a, serviced, h3) = >>=-eq-ok (serviced_asset o.asset org db) _ h2 in
    let (status, h4) = raise_if-then (not (is_opened o.status)) _ _ h3 in
    let row = assigned_order user o in
    let (clean, h5) = raise_if-then (not (order_full_clean a row db)) _ _ h4 in
    let (rows, saved, h6) = >>=-eq-ok (save_order row db.maintenance.work_orders) _ h5 in
    let (found_asset, maintainable) = serviced_asset-eq-ok o.asset org db serviced in
    (
      record {
        org = org;
        order = o;
        asset = a;
        own = actor_organization-eq-ok actor own;
        found = locked_order-eq-ok pk org db found;
        found_asset = found_asset;
        maintainable = maintainable;
        status_allowed = not-false _ status;
        clean = not-false _ clean;
      },
      sym (ok-injective h6)
          ∙ ap (λ t. (store_rows org actor Action.work_order_assigned o.pk t db, row))
              (save_order-save row db.maintenance.work_orders saved),
    )

pub start_work_order-Found :
    (now pk : ℕ) (actor : User) (db : Db) {r : Db × WorkOrder}
    → start_work_order now pk actor db ≡ ok r
    → (e : Found is_startable (started_order now) pk actor db) × (r ≡ (
      enter_maintenance e.org actor e.asset (
          store_rows e.org actor Action.work_order_started e.order.pk
            (saved_orders (started_order now e.order) db)
            db),
      started_order now e.order,
    ))
unfolding start_work_order
start_work_order-Found now pk actor db h =
    let (org, own, h1) = >>=-eq-ok (actor_organization actor) _ h in
    let (o, found, h2) = >>=-eq-ok (locked_order pk org db) _ h1 in
    let (a, serviced, h3) = >>=-eq-ok (serviced_asset o.asset org db) _ h2 in
    let (status, h4) = raise_if-then (not (is_startable o.status)) _ _ h3 in
    let row = started_order now o in
    let (clean, h5) = raise_if-then (not (order_full_clean a row db)) _ _ h4 in
    let (rows, saved, h6) = >>=-eq-ok (save_order row db.maintenance.work_orders) _ h5 in
    let (found_asset, maintainable) = serviced_asset-eq-ok o.asset org db serviced in
    (
      record {
        org = org;
        order = o;
        asset = a;
        own = actor_organization-eq-ok actor own;
        found = locked_order-eq-ok pk org db found;
        found_asset = found_asset;
        maintainable = maintainable;
        status_allowed = not-false _ status;
        clean = not-false _ clean;
      },
      sym (ok-injective h6)
          ∙ ap
              (λ t. (
                enter_maintenance org actor a
                    (store_rows org actor Action.work_order_started o.pk t db),
                row,
              ))
              (save_order-save row db.maintenance.work_orders saved),
    )

pub cancel_work_order-Found :
    (now pk : ℕ) (actor : User) (reason : List ℕ) (db : Db) {r : Db × WorkOrder}
    → cancel_work_order now pk actor reason db ≡ ok r
    → (e : Found is_open_work_order (cancelled_order now reason) pk actor db) × (r ≡ (
      record_event e.org (some actor.pk) Action.work_order_cancelled e.order.pk (
          restore_asset e.org actor
            (cancelled_order now reason e.order)
            e.asset
            (with_orders (saved_orders (cancelled_order now reason e.order) db) db)),
      cancelled_order now reason e.order,
    ))
unfolding cancel_work_order
cancel_work_order-Found now pk actor reason db h =
    let (org, own, h1) = >>=-eq-ok (actor_organization actor) _ h in
    let (o, found, h2) = >>=-eq-ok (locked_order pk org db) _ h1 in
    let (a, serviced, h3) = >>=-eq-ok (serviced_asset o.asset org db) _ h2 in
    let (status, h4) = raise_if-then (not (is_open_work_order o.status)) _ _ h3 in
    let row = cancelled_order now reason o in
    let (clean, h5) = raise_if-then (not (order_full_clean a row db)) _ _ h4 in
    let (rows, saved, h6) = >>=-eq-ok (save_order row db.maintenance.work_orders) _ h5 in
    let (found_asset, maintainable) = serviced_asset-eq-ok o.asset org db serviced in
    (
      record {
        org = org;
        order = o;
        asset = a;
        own = actor_organization-eq-ok actor own;
        found = locked_order-eq-ok pk org db found;
        found_asset = found_asset;
        maintainable = maintainable;
        status_allowed = not-false _ status;
        clean = not-false _ clean;
      },
      sym (ok-injective h6)
          ∙ ap
              (λ t. (
                record_event org (some actor.pk) Action.work_order_cancelled o.pk
                    (restore_asset org actor row a (with_orders t db)),
                row,
              ))
              (save_order-save row db.maintenance.work_orders saved),
    )

pub complete_work_order-Found :
    (now : ℕ) (today : Date) (pk : ℕ) (actor : User) (resolution notes : List ℕ)
    (downtime : Option ℕ) (performed_by : Option Ref) (date : Option Date) (db : Db)
    {r : Db × WorkOrder × MaintenanceRecord}
    → complete_work_order now today pk actor resolution notes downtime performed_by date db ≡ ok r
    → (e : Found is_in_progress (completed_order now resolution notes) pk actor db) × (record_valid
          (completed_order now resolution notes e.order)
          (service_record e.org e.asset
            (completed_order now resolution notes e.order)
            (date_or date today)
            (order_total e.order.pk db)
            downtime
            performed_by
            db)
          db
        ≡ true)
      × (r ≡ (
        log_completion e.org actor
            (completed_order now resolution notes e.order)
            (service_record e.org e.asset
              (completed_order now resolution notes e.order)
              (date_or date today)
              (order_total e.order.pk db)
              downtime
              performed_by
              db)
            (restore_asset e.org actor (completed_order now resolution notes e.order) e.asset (
              store_completion
                (service_record e.org e.asset
                  (completed_order now resolution notes e.order)
                  (date_or date today)
                  (order_total e.order.pk db)
                  downtime
                  performed_by
                  db)
                (saved_orders (completed_order now resolution notes e.order) db)
                db)),
        completed_order now resolution notes e.order,
        service_record e.org e.asset
            (completed_order now resolution notes e.order)
            (date_or date today)
            (order_total e.order.pk db)
            downtime
            performed_by
            db,
      ))
unfolding complete_work_order
complete_work_order-Found now today pk actor resolution notes downtime performed_by date db h =
    let (org, own, h1) = >>=-eq-ok (actor_organization actor) _ h in
    let (_, h1) = raise_if-then (not (same_org org performed_by)) _ _ h1 in
    let (o, found, h2) = >>=-eq-ok (locked_order pk org db) _ h1 in
    let (a, serviced, h3) = >>=-eq-ok (serviced_asset o.asset org db) _ h2 in
    let (status, h4) = raise_if-then (not (is_in_progress o.status)) _ _ h3 in
    let row = completed_order now resolution notes o in
    let (clean, h5) = raise_if-then (not (order_full_clean a row db)) _ _ h4 in
    let kept =
      service_record org a row (date_or date today) (order_total o.pk db) downtime performed_by
        db in
    let (valid, h6) = raise_if-then (not (record_valid row kept db)) _ _ h5 in
    let (rows, saved, h7) = >>=-eq-ok (save_order row db.maintenance.work_orders) _ h6 in
    let (found_asset, maintainable) = serviced_asset-eq-ok o.asset org db serviced in
    (
      record {
        org = org;
        order = o;
        asset = a;
        own = actor_organization-eq-ok actor own;
        found = locked_order-eq-ok pk org db found;
        found_asset = found_asset;
        maintainable = maintainable;
        status_allowed = not-false _ status;
        clean = not-false _ clean;
      },
      not-false _ valid,
      sym (ok-injective h7)
          ∙ ap
              (λ t. (
                log_completion org actor row kept
                    (restore_asset org actor row a (store_completion kept t db)),
                row,
                kept,
              ))
              (save_order-save row db.maintenance.work_orders saved),
    )
