-- ===== src/Maintenance/Completion.antt =====
-- What a completion leaves: the order, its service record with the total of its costs, and its asset
-- back in service unless other work goes on.
use mathlib.Core.Path.{subst}
use assetflow_fixed_asset_ma.Prelude.{
  ℕ, ◌≡◌, ◌≢◌, refl, sym, ap, ◌∙◌, Bool, true, false, not, ◌&&◌, Option, some, List, arith, ◌==◌,
  All,
}
use assetflow_fixed_asset_ma.Calendar.{Date}
use assetflow_fixed_asset_ma.Result.{
  Result, ok, err, raise_if, ◌>>◌, bad_status, or_raise-step, >>=-step, raise_if-step,
  some-injective,
}
use assetflow_fixed_asset_ma.Table.{find, find-test, find-save, All-find}
use assetflow_fixed_asset_ma.Table.Rows.{find-exists, save-All_key}
use assetflow_fixed_asset_ma.Records.{
  User, Ref, WorkOrderStatus, WorkOrder, MaintenanceRecord, Db, actor_organization, find_asset,
}
use assetflow_fixed_asset_ma.Maintenance.Checks.{
  is_in_progress, is_active_order, same_org, serviced_asset, find_order, locked_order,
}
use assetflow_fixed_asset_ma.Maintenance.Closing.{
  order_total, active_elsewhere, completed_order, date_or, service_record, record_valid, recorded,
  store_completion, complete_work_order,
}
use assetflow_fixed_asset_ma.Maintenance.Effects.{saved_orders, complete_work_order-Found}
use assetflow_fixed_asset_ma.Maintenance.Moving.{restore_asset-maintenance}
use assetflow_fixed_asset_ma.Maintenance.Restoring.{
  Closed, org_is, busy_row, clash, restore_asset-Restored,
}

record_valid-unrecorded :
    (o : WorkOrder) (x : MaintenanceRecord) (db : Db)
    → record_valid o x db ≡ true
    → recorded o.pk db ≡ false
unfolding record_valid
record_valid-unrecorded o x db h = ground (arith, h)

ended_apart :
    (row : WorkOrder) (db : Db) (p : WorkOrder → Bool) {x : WorkOrder}
    → is_active_order row.status ≡ false
    → find p (saved_orders row db) ≡ some x
    → is_active_order x.status ≡ true
    → x.pk ≢ row.pk
ended_apart row db p {x} h found active k =
    let only =
      All-find (λ (y : WorkOrder). y.pk ≡ row.pk → y ≡ row) p _
        (save-All_key (λ (y : WorkOrder). y.pk) row db.maintenance.work_orders) found in
    clash active (ap (λ (y : WorkOrder). is_active_order y.status) (only k) ∙ h)

-- A successful completion found the order in progress and without a service record. It stores the
-- order as completed and adds a service record whose total is the sum of the order's costs. An asset in
-- maintenance is active again when no other order of it is assigned or in progress; when one is,
-- or the asset was not in maintenance, the assets stay as they were; and the asset is in service.
pub complete_work_order-Closed :
    (now : ℕ) (today : Date) (pk : ℕ) (actor : User) (resolution notes : List ℕ)
    (downtime : Option ℕ) (performed_by : Option Ref) (date : Option Date) (db : Db)
    {r : Db × WorkOrder × MaintenanceRecord}
    → complete_work_order now today pk actor resolution notes downtime performed_by date db ≡ ok r
    → (org : ℕ) × (actor.org ≡ some org) × Closed pk org db r
unfolding store_completion find_order find_asset active_elsewhere
complete_work_order-Closed now today pk actor resolution notes downtime performed_by date db h =
    let (e, valid, result) =
      complete_work_order-Found now today pk actor resolution notes downtime performed_by date db
        h in
    let row = completed_order now resolution notes e.order in
    let kept =
      service_record e.org e.asset row (date_or date today) (order_total e.order.pk db) downtime
        performed_by db in
    let written = store_completion kept (saved_orders row db) db in
    let (tables, _) = restore_asset-maintenance e.org actor row e.asset written in
    let test = find-test _ db.maintenance.work_orders e.found in
    let own : row.org ≡ e.org = org_is row.pk pk row.org e.org test in
    let back =
      restore_asset-Restored e.org actor row e.asset written own e.found_asset e.maintainable in
    (
      e.org,
      e.own,
      subst (Closed pk e.org db) (sym result) (record {
        order = e.order;
        asset = e.asset;
        found = e.found;
        started = e.status_allowed;
        found_asset = e.found_asset;
        stored =
            ap (λ t. find (λ (o : WorkOrder). o.pk == pk && o.org == e.org) t.work_orders) tables
            ∙ find-save (λ (x : WorkOrder). x.pk) _ row db.maintenance.work_orders e.found refl
                test;
        same_asset = refl;
        completed = refl;
        unrecorded = record_valid-unrecorded row kept db valid;
        records = ap (λ t. t.records) tables;
        record_order = refl;
        record_asset = refl;
        total = refl;
        returned = λ under rest. back.returned under (
            subst
              (All (λ (x : WorkOrder).
                x.org ≡ e.org
                → x.asset ≡ e.asset.pk
                → is_active_order x.status ≡ true
                → x.pk ≡ e.order.pk))
              (ap (λ t. t.work_orders) tables) rest);
        busy = λ k x found active same.
            let there : find (λ (o : WorkOrder). o.pk == k && o.org == e.org) (saved_orders row db)
                ≡ some x =
              sym (
                ap (λ t. find (λ (o : WorkOrder). o.pk == k && o.org == e.org) t.work_orders)
                  tables)
              ∙ found in
            let key = find-test _ (saved_orders row db) there in
            back.busy (
              find-exists _ _ (saved_orders row db) there (
                busy_row x.org row.org x.asset e.asset.pk x.pk row.pk (is_active_order x.status)
                  (org_is x.pk k x.org e.org key ∙ sym own) same active
                  (ended_apart row db _ refl there active)));
        elsewhere = λ out. back.elsewhere out;
        serviceable = back.serviceable;
      }),
    )

refused :
    {A : Type 0} (s : WorkOrderStatus)
    → s ≡ WorkOrderStatus.completed
    → (rest : Result A) → (raise_if (not (is_in_progress s)) bad_status >> rest) ≡ err bad_status
refused s e rest = rw e refl

-- Once a work order is completed, no user of the organization can complete it again, whoever is
-- named as the performer among its users.
pub complete_work_order_once :
    (now : ℕ) (today : Date) (pk : ℕ) (actor : User) (resolution notes : List ℕ)
    (downtime : Option ℕ) (performed_by : Option Ref) (date : Option Date) (db : Db)
    {r : Db × WorkOrder × MaintenanceRecord} (later : ℕ) (day : Date) (other : User)
    (resolution' notes' : List ℕ) (downtime' : Option ℕ) (performer : Option Ref)
    (date' : Option Date) (org : ℕ)
    → complete_work_order now today pk actor resolution notes downtime performed_by date db ≡ ok r
    → actor.org ≡ some org
    → other.org ≡ some org
    → same_org org performer ≡ true
    → complete_work_order later day pk other resolution' notes' downtime' performer date' r.0
      ≡ err bad_status
unfolding complete_work_order actor_organization locked_order serviced_asset
complete_work_order_once now today pk actor resolution notes downtime performed_by date db {r} later
      day other resolution' notes' downtime' performer date' org h own same fit =
    let (o, mine, w) =
      complete_work_order-Closed now today pk actor resolution notes downtime performed_by date db
        h in
    let one : o ≡ org = some-injective (sym mine ∙ own) in
    let (a, there, serviced) = w.serviceable in
    let stored : find_order pk org r.0 ≡ some r.1 =
      ap (λ n. find_order pk n r.0) (sym one) ∙ w.stored in
    let asset_there : find_asset r.1.asset org r.0 ≡ some a =
      ap (λ n. find_asset r.1.asset n r.0) (sym one)
      ∙ ap (λ n. find_asset n o r.0) w.same_asset
      ∙ there in
    or_raise-step _ _ same
    ∙ raise_if-step _ _ (ap not fit)
    ∙ >>=-step _ (or_raise-step _ _ stored ∙ or_raise-step _ _ asset_there)
    ∙ >>=-step _ (or_raise-step _ _ asset_there ∙ raise_if-step _ _ (ap not serviced))
    ∙ refused r.1.status w.completed _
