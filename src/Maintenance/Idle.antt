-- ===== src/Maintenance/Idle.antt =====
-- Assets under work: what a saved order, a return to service and a start of work leave of the rule that
-- an active asset has no order in progress.
use mathlib.Core.Path.{subst}
use assetflow_fixed_asset_ma.Prelude.{
  ℕ, ◌≡◌, ◌≢◌, refl, sym, ap, ◌∙◌, Bool, true, false, not, ◌&&◌, ◌||◌, some, List, ◌∷◌, arith, ◌==◌,
  ==_iff, inl, inr, Bool-cases, All,
}
use assetflow_fixed_asset_ma.Table.{find-test, All-save}
use assetflow_fixed_asset_ma.Table.Keys.{Distinct, Distinct-save}
use assetflow_fixed_asset_ma.Table.Rows.{
  All-map, All-both, exists-All, All-save_other, save-All_key,
}
use assetflow_fixed_asset_ma.Records.{
  User, AssetStatus, is_active_asset, Asset, WorkOrderStatus, WorkOrder, Db, find_asset,
}
use assetflow_fixed_asset_ma.Maintenance.Checks.{is_in_progress, is_active_order, find_order}
use assetflow_fixed_asset_ma.Maintenance.Orders.{enter_maintenance}
use assetflow_fixed_asset_ma.Maintenance.Closing.{
  is_in_maintenance, active_elsewhere, restore_asset,
}
use assetflow_fixed_asset_ma.Maintenance.Effects.{saved_orders}
use assetflow_fixed_asset_ma.Maintenance.Moving.{Kept, Opened}

-- The order is in progress on the asset.
abbrev pub works_on : Asset → WorkOrder → Bool
works_on a o = is_in_progress o.status && (o.asset == a.pk && o.org == a.org)

-- An active asset has no order in progress.
abbrev pub IsIdle : List WorkOrder → Asset → Type 0
IsIdle rows a = is_active_asset a.status ≡ true → All (λ o. works_on a o ≡ false) rows

-- The assets have keys of their own, and no active one is under work.
pub record IsServed (db : Db) : Type 0 where
  pub distinct : Distinct (λ (a : Asset). a.pk) db.assets
  pub idle : All (IsIdle db.maintenance.work_orders) db.assets

not_working : (a : Asset) (o : WorkOrder) → is_in_progress o.status ≡ false → works_on a o ≡ false
not_working a o h = rw h refl

elsewhere : (p : Bool) (k m : ℕ) (q : Bool) → k ≢ m → (p && (k == m && q)) ≡ false
elsewhere p k m q h = ground (arith, h)

never_active : (s : AssetStatus) → is_active_asset s ≡ false → is_active_asset s ≡ true → ⊥
never_active s h k = cc

found_pk : (a b c d : ℕ) → (a == b && c == d) ≡ true → a ≡ b
found_pk a b c d h = ground (arith, h)

found_org : (a b c d : ℕ) → (a == b && c == d) ≡ true → c ≡ d
found_org a b c d h = ground (arith, h)

-- The key and the organization of a found asset.
pub found_asset_key :
    (pk org : ℕ) (db : Db) {a : Asset} → find_asset pk org db ≡ some a → (a.pk ≡ pk) × (a.org ≡ org)
unfolding find_asset
found_asset_key pk org db {a} h =
    let test = find-test _ db.assets h in
    (found_pk a.pk pk a.org org test, found_org a.pk pk a.org org test)

pub found_order_org :
    (pk org : ℕ) (db : Db) {o : WorkOrder} → find_order pk org db ≡ some o → o.org ≡ org
unfolding find_order
found_order_org pk org db {o} h =
    found_org o.pk pk o.org org (find-test _ db.maintenance.work_orders h)

pub Kept-IsServed : {db db' : Db} → Kept db db' → IsServed db → IsServed db'
Kept-IsServed s w = record {
  distinct = rw s.assets w.distinct;
  idle = rw (s.orders, s.assets) w.idle;
}

pub Opened-IsServed : {db db' : Db} → Opened db db' → IsServed db → IsServed db'
Opened-IsServed {db} s w = record {
  distinct = rw s.assets w.distinct;
  idle =
      rw (s.orders, s.assets)
        (All-map (IsIdle db.maintenance.work_orders) (IsIdle (s.row ∷ db.maintenance.work_orders))
          (λ a idle active. (not_working a s.row (rw s.opened refl), idle active)) db.assets
          w.idle);
}

-- Saving a row that is not in progress.
pub saved-IsIdle :
    (row : WorkOrder) (db : Db)
    → is_in_progress row.status ≡ false
    → IsServed db
    → All (IsIdle (saved_orders row db)) db.assets
saved-IsIdle row db h w =
    All-map (IsIdle db.maintenance.work_orders) (IsIdle (saved_orders row db))
      (λ a idle active.
        All-save (λ o. works_on a o ≡ false) (λ (o : WorkOrder). o.pk) row
          db.maintenance.work_orders (idle active) (not_working a row h))
      db.assets w.idle

-- No other assigned or started order of the asset is this row.
abbrev Absent : WorkOrder → Asset → WorkOrder → Type 0
Absent o a x =
    (x.org == o.org && x.asset == a.pk && is_active_order x.status && not (x.pk == o.pk)) ≡ false

abbrev Ended : WorkOrder → WorkOrder → Type 0
Ended o x = x.pk ≡ o.pk → is_in_progress x.status ≡ false

abbrev Only : Asset → Asset → Type 0
Only a x = x.pk ≡ a.pk → x ≡ a

abbrev Other : List WorkOrder → Asset → Asset → Type 0
Other rows a x = x.pk ≢ a.pk → IsIdle rows x

-- An asset returns to service where none of the rows of the order's key is in progress.
pub restore_asset-IsServed :
    (org : ℕ) (actor : User) (o : WorkOrder) (a : Asset) (db : Db)
    → a.org ≡ o.org
    → All
        (λ (x : WorkOrder). x.pk ≡ o.pk → is_in_progress x.status ≡ false)
        db.maintenance.work_orders
    → IsServed db
    → IsServed (restore_asset org actor o a db)
unfolding restore_asset active_elsewhere
restore_asset-IsServed org actor o a db same_org ended w =
    elim (Bool-cases
      (is_in_maintenance a.status && not (active_elsewhere o a db.maintenance.work_orders))) [
        | inl e ↦
            let back : Asset = record a { status = AssetStatus.active; updated_by = some actor } in
            let rows = db.maintenance.work_orders in
            rw e (record {
              distinct = Distinct-save (λ (x : Asset). x.pk) back db.assets w.distinct;
              idle =
                  All-save_other (λ (x : Asset). x.pk) (IsIdle rows) back db.assets
                    (All-map (IsIdle rows) (λ x. x.pk ≢ a.pk → IsIdle rows x) (λ x idle apart. idle)
                      db.assets w.idle)
                    (λ active.
                      All-map (λ x. Absent o a x × Ended o x) (λ x. works_on back x ≡ false)
                        (λ x p. resting x p.0 p.1) rows
                        (All-both (Absent o a) (Ended o) rows
                          (exists-All _ rows (second (is_in_maintenance a.status) _ e)) ended));
            })
        | inr e ↦ rw e w
      ]
  where
    second : (b c : Bool) → (b && not c) ≡ true → c ≡ false
    second b c h = ground (arith, h)

    started_active : (s : WorkOrderStatus) → (not (is_in_progress s) || is_active_order s) ≡ true
    started_active s = ground arith

    apart_rests :
        (p q u v w : Bool)
        → (not p || q) ≡ true
        → (v && u && q && not w) ≡ false
        → w ≡ false
        → (p && (u && v)) ≡ false
    apart_rests p q u v w h k l = ground (arith, h, k, l)

    resting :
        (x : WorkOrder)
        → (x.org == o.org && x.asset == a.pk && is_active_order x.status && not (x.pk == o.pk))
          ≡ false
        → (x.pk ≡ o.pk → is_in_progress x.status ≡ false)
        → (is_in_progress x.status && (x.asset == a.pk && x.org == a.org)) ≡ false
    resting x h k = elim (Bool-cases (x.pk == o.pk)) [
      | inl e ↦ rw (k ((==_iff x.pk o.pk).0 e)) refl
      | inr e ↦ rw same_org (
          apart_rests (is_in_progress x.status) (is_active_order x.status) (x.asset == a.pk)
            (x.org == o.org) (x.pk == o.pk) (started_active x.status) h e)
    ]

-- An asset leaves service where a row of the order's key may be in progress on it.
pub enter_maintenance-IsServed :
    (org : ℕ) (actor : User) (a : Asset) (db : Db)
    → Distinct (λ (x : Asset). x.pk) db.assets
    → All (λ (x : Asset). x.pk ≡ a.pk → x ≡ a) db.assets
    → All (λ (x : Asset). x.pk ≢ a.pk → IsIdle db.maintenance.work_orders x) db.assets
    → IsServed (enter_maintenance org actor a db)
unfolding enter_maintenance
enter_maintenance-IsServed org actor a db distinct only others =
    elim (Bool-cases (is_active_asset a.status)) [
      | inl e ↦
          let under : Asset = record a {
            status = AssetStatus.in_maintenance;
            updated_by = some actor;
          } in
          rw e (record {
            distinct = Distinct-save (λ (x : Asset). x.pk) under db.assets distinct;
            idle =
                All-save_other (λ (x : Asset). x.pk) (IsIdle db.maintenance.work_orders) under
                  db.assets others (λ active. absurd (never_active under.status refl active));
          })
      | inr e ↦ rw e (record {
        distinct = distinct;
        idle =
            All-map (λ x. Only a x × Other db.maintenance.work_orders a x)
              (IsIdle db.maintenance.work_orders) (λ x p. stays x p.0 p.1 e) db.assets
              (All-both (Only a) (Other db.maintenance.work_orders a) db.assets only others);
      })
    ]
  where
    stays :
        (x : Asset)
        → Only a x
        → Other db.maintenance.work_orders a x
        → is_active_asset a.status ≡ false
        → IsIdle db.maintenance.work_orders x
    stays x only other e active = elim (Bool-cases (x.pk == a.pk)) [
      | inl k ↦ absurd (
          never_active a.status e (
            subst (λ (y : Asset). is_active_asset y.status ≡ true) (only ((==_iff x.pk a.pk).0 k))
              active))
      | inr k ↦ other (λ m. never_equal ((==_iff x.pk a.pk).1 m) k) active
    ]
      where
        never_equal : {b : Bool} → b ≡ true → b ≡ false → ⊥
        never_equal h k = cc

-- Saving a row that works on one asset leaves the others idle.
pub saved_others :
    (row : WorkOrder) (k : ℕ) (db : Db)
    → row.asset ≡ k
    → IsServed db
    → All (λ (a : Asset). a.pk ≢ k → IsIdle (saved_orders row db) a) db.assets
saved_others row k db h w =
    All-map (IsIdle db.maintenance.work_orders) (λ a. a.pk ≢ k → IsIdle (saved_orders row db) a)
      (λ a idle apart active.
        All-save (λ o. works_on a o ≡ false) (λ (o : WorkOrder). o.pk) row
          db.maintenance.work_orders (idle active)
          (elsewhere (is_in_progress row.status) row.asset a.pk (row.org == a.org)
            (λ e. apart (sym e ∙ h))))
      db.assets w.idle

-- The rows of a call that ends an order: none of the order's key is in progress.
pub saved_ended :
    (row : WorkOrder) (db : Db)
    → is_in_progress row.status ≡ false
    → All (λ (x : WorkOrder). x.pk ≡ row.pk → is_in_progress x.status ≡ false) (saved_orders row db)
saved_ended row db h =
    All-map (λ (x : WorkOrder). x.pk ≡ row.pk → x ≡ row)
      (λ x. x.pk ≡ row.pk → is_in_progress x.status ≡ false)
      (λ x only k. ap (λ (y : WorkOrder). is_in_progress y.status) (only k) ∙ h) _
      (save-All_key (λ (x : WorkOrder). x.pk) row db.maintenance.work_orders)
