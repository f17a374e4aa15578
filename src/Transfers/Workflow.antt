-- ===== src/Transfers/Workflow.antt =====
-- The custody and transfer services as steps of the database, and what every sequence of such
-- steps keeps.
use assetflow_fixed_asset_ma.Prelude.{ℕ, suc, ◌≤◌, ◌≡◌, refl, true, false, Option, List, arith}
use assetflow_fixed_asset_ma.Result.{ok}
use assetflow_fixed_asset_ma.Table.Keys.{unit, Below-suc}
use assetflow_fixed_asset_ma.Records.{User, Ref, Asset, Assignment, is_open_transfer, Transfer, Db}
use assetflow_fixed_asset_ma.Transfers.Checks.{transfer_full_clean, open_elsewhere}
use assetflow_fixed_asset_ma.Transfers.Assigning.{
  Argument, assign_asset, return_asset, open_assignment, or_now, returned_assignment,
}
use assetflow_fixed_asset_ma.Transfers.Moving.{
  Decision, approve, is_requested, decide_transfer, request_transfer, find_transfer,
  transition_transfer, completed_transfer, complete_transfer,
}
use assetflow_fixed_asset_ma.Transfers.Effects.{
  transition_transfer-Decided, complete_transfer-Completed, request_transfer-Requested,
}
use assetflow_fixed_asset_ma.Transfers.CustodyEffects.{assign_asset-Assigned, return_asset-Returned}
use assetflow_fixed_asset_ma.Transfers.Uniqueness.{
  open_of, custody_of, IsTransfers, IsAssignments, IsTransfers-save, IsAssignments-save,
  IsTransfers-add, IsAssignments-add,
}

-- A successful call of one of the services, by any actor at any time.
pub data Step (db : Db) : Db → Type 0 where
  assigning :
      (now id : ℕ) (actor : User) (holder : Option Ref) (department location : Argument)
      (at : Option ℕ) {r : Db × Assignment}
      → assign_asset now id actor holder department location at db ≡ ok r
      → Step db r.0
  returning :
      (now id : ℕ) (actor : User) (assignment_id at : Option ℕ) {r : Db × Assignment}
      → return_asset now id actor assignment_id at db ≡ ok r
      → Step db r.0
  requesting :
      (now id : ℕ) (actor : User) (department location : Argument) (reason : List ℕ)
      {r : Db × Transfer}
      → request_transfer now id actor department location reason db ≡ ok r
      → Step db r.0
  deciding :
      (d : Decision) (now id : ℕ) (actor : User) {r : Db × Transfer}
      → transition_transfer d now id actor db ≡ ok r
      → Step db r.0
  completing :
      (now id : ℕ) (actor : User) {r : Db × Transfer}
      → complete_transfer now id actor db ≡ ok r
      → Step db r.0

pub data Steps (start : Db) : Db → Type 0 where
  here : Steps start start
  more : {db db' : Db} → Steps start db → Step db db' → Steps start db'

-- The transfers and the assignments of a database are in order.
pub record IsOrderly (db : Db) : Type 0 where
  pub transfers : IsTransfers db.next_key db.transfers
  pub assignments : IsAssignments db.next_key db.assignments

IsTransfers-later : (k : ℕ) (ts : List Transfer) → IsTransfers k ts → IsTransfers (suc k) ts
IsTransfers-later k ts w = record {
  distinct = w.distinct;
  below = Below-suc (λ (t : Transfer). t.pk) k ts w.below;
  one_open = w.one_open;
}

IsAssignments-later : (k : ℕ) (xs : List Assignment) → IsAssignments k xs → IsAssignments (suc k) xs
IsAssignments-later k xs w = record {
  distinct = w.distinct;
  below = Below-suc (λ (a : Assignment). a.pk) k xs w.below;
  one_custody = w.one_custody;
}

decided_open :
    (d : Decision) (now : ℕ) (by : Ref) (t : Transfer) (asset : ℕ)
    → is_requested t.status ≡ true
    → unit (open_of asset (decide_transfer d now by t)) ≤ unit (open_of asset t)
unfolding decide_transfer
decided_open approve now by t asset h = ground (arith, h)
decided_open _ now by t asset h = ground (arith, h)

decided_key :
    (d : Decision) (now : ℕ) (by : Ref) (t : Transfer) → t.pk ≡ (decide_transfer d now by t).pk
unfolding decide_transfer
decided_key approve now by t = refl
decided_key _ now by t = refl

deciding-IsOrderly :
    (d : Decision) (now id : ℕ) (actor : User) {db : Db} {r : Db × Transfer}
    → transition_transfer d now id actor db ≡ ok r
    → IsOrderly db
    → IsOrderly r.0
unfolding find_transfer
deciding-IsOrderly d now id actor {db} h w =
    let e = transition_transfer-Decided d now id actor db h in
    let by : Ref = record { pk = actor.pk; org = e.org } in
    record {
      transfers =
          rw (e.next_key, e.transfers, e.row)
            (IsTransfers-save db.next_key _ (decide_transfer d now by e.transfer) db.transfers
              w.transfers e.found (decided_key d now by e.transfer)
              (λ asset. decided_open d now by e.transfer asset e.requested));
      assignments = rw (e.next_key, e.assignments) w.assignments;
    }

completed_open :
    (now : ℕ) (by : Ref) (t : Transfer) (asset : ℕ)
    → unit (open_of asset (completed_transfer now by t)) ≤ unit (open_of asset t)
completed_open now by t asset = ground arith

completing-IsOrderly :
    (now id : ℕ) (actor : User) {db : Db} {r : Db × Transfer}
    → complete_transfer now id actor db ≡ ok r
    → IsOrderly db
    → IsOrderly r.0
unfolding find_transfer
completing-IsOrderly now id actor {db} h w =
    let e = complete_transfer-Completed now id actor db h in
    let by : Ref = record { pk = actor.pk; org = e.org } in
    record {
      transfers =
          rw (e.next_key, e.transfers, e.row)
            (IsTransfers-save db.next_key _ (completed_transfer now by e.transfer) db.transfers
              w.transfers e.found refl (completed_open now by e.transfer));
      assignments = rw (e.next_key, e.assignments) w.assignments;
    }

full_clean_alone :
    (a : Asset) (t : Transfer) (db : Db)
    → transfer_full_clean a t db ≡ true
    → is_open_transfer t.status ≡ true
    → open_elsewhere t db ≡ false
unfolding transfer_full_clean
full_clean_alone a t db h o = ground (arith, h, o)

requesting-IsOrderly :
    (now id : ℕ) (actor : User) (department location : Argument) (reason : List ℕ) {db : Db}
    {r : Db × Transfer}
    → request_transfer now id actor department location reason db ≡ ok r
    → IsOrderly db
    → IsOrderly r.0
requesting-IsOrderly now id actor department location reason {db} {r} h w =
    let e = request_transfer-Requested now id actor department location reason db h in
    record {
      transfers =
          rw (e.next_key, e.transfers)
            (IsTransfers-add db.next_key r.1 db w.transfers (rw e.row refl)
              (full_clean_alone e.asset r.1 db e.clean (rw e.row refl)));
      assignments =
          rw (e.next_key, e.assignments)
            (IsAssignments-later db.next_key db.assignments w.assignments);
    }

assigning-IsOrderly :
    (now id : ℕ) (actor : User) (holder : Option Ref) (department location : Argument)
    (at : Option ℕ) {db : Db} {r : Db × Assignment}
    → assign_asset now id actor holder department location at db ≡ ok r
    → IsOrderly db
    → IsOrderly r.0
assigning-IsOrderly now id actor holder department location at {db} {r} h w =
    let e = assign_asset-Assigned now id actor holder department location at db h in
    record {
      transfers =
          rw (e.next_key, e.transfers) (IsTransfers-later db.next_key db.transfers w.transfers);
      assignments =
          rw (e.next_key, e.assignments)
            (IsAssignments-add db.next_key r.1 db w.assignments (rw e.row refl)
              (rw e.row e.unassigned));
    }

returned_custody :
    (org : ℕ) (actor : User) (at : ℕ) (a : Assignment) (asset : ℕ)
    → unit (custody_of asset (returned_assignment org actor at a)) ≤ unit (custody_of asset a)
returned_custody org actor at a asset = ground arith

returning-IsOrderly :
    (now id : ℕ) (actor : User) (assignment_id at : Option ℕ) {db : Db} {r : Db × Assignment}
    → return_asset now id actor assignment_id at db ≡ ok r
    → IsOrderly db
    → IsOrderly r.0
unfolding open_assignment
returning-IsOrderly now id actor assignment_id at {db} {r} h w =
    let e = return_asset-Returned now id actor assignment_id at db h in
    record {
      transfers = rw (e.next_key, e.transfers) w.transfers;
      assignments =
          rw (e.next_key, e.assignments, e.row)
            (IsAssignments-save db.next_key _
              (returned_assignment e.org actor (or_now at now) e.open_row) db.assignments
              w.assignments e.found refl (returned_custody e.org actor (or_now at now) e.open_row));
    }

pub Step-IsOrderly : {db db' : Db} → Step db db' → IsOrderly db → IsOrderly db'
Step-IsOrderly (assigning now id actor holder d l at h) w =
    assigning-IsOrderly now id actor holder d l at h w
Step-IsOrderly (returning now id actor a at h) w = returning-IsOrderly now id actor a at h w
Step-IsOrderly (requesting now id actor d l reason h) w =
    requesting-IsOrderly now id actor d l reason h w
Step-IsOrderly (deciding d now id actor h) w = deciding-IsOrderly d now id actor h w
Step-IsOrderly (completing now id actor h) w = completing-IsOrderly now id actor h w

-- Through any sequence of successful custody and transfer calls, from a database where this holds,
-- every asset keeps at most one open transfer
-- and at most one custody, and the rows keep keys of their own.
pub Steps-IsOrderly : {db db' : Db} → Steps db db' → IsOrderly db → IsOrderly db'
Steps-IsOrderly here w = w
Steps-IsOrderly (more steps step) w = Step-IsOrderly step (Steps-IsOrderly steps w)
