-- ===== src/Maintenance/Restoring.antt =====
-- What a completion and the return of its asset to service leave of the tables.
use assetflow_fixed_asset_ma.Prelude.{
  ℕ, ◌≡◌, ◌≢◌, refl, ◌∙◌, Bool, true, false, not, ◌&&◌, some, ◌∷◌, arith, ◌==◌, ==_iff, inl, inr,
  Bool-cases, All,
}
use assetflow_fixed_asset_ma.Table.{find-test, find-save}
use assetflow_fixed_asset_ma.Table.Rows.{All-map, exists-none}
use assetflow_fixed_asset_ma.Records.{
  User, AssetStatus, Asset, WorkOrderStatus, WorkOrder, MaintenanceRecord, Db, find_asset,
}
use assetflow_fixed_asset_ma.Maintenance.Checks.{
  is_maintainable, is_in_progress, is_active_order, find_order,
}
use assetflow_fixed_asset_ma.Maintenance.Closing.{
  order_total, is_in_maintenance, active_elsewhere, restore_asset, recorded,
}

-- The rows after a completion by a user of the organization.
pub record Closed (pk org : ℕ) (db : Db) (r : Db × WorkOrder × MaintenanceRecord) : Type 0 where
  pub order : WorkOrder
  pub asset : Asset
  pub found : find_order pk org db ≡ some order
  pub started : is_in_progress order.status ≡ true
  pub found_asset : find_asset order.asset org db ≡ some asset
  pub stored : find_order pk org r.0 ≡ some r.1
  pub same_asset : r.1.asset ≡ order.asset
  pub completed : r.1.status ≡ WorkOrderStatus.completed
  pub unrecorded : recorded order.pk db ≡ false
  pub records : r.0.maintenance.records ≡ r.2 ∷ db.maintenance.records
  pub record_order : r.2.work_order ≡ order.pk
  pub record_asset : r.2.asset ≡ asset.pk
  pub total : r.2.total_cost ≡ order_total order.pk db
  pub returned :
      is_in_maintenance asset.status ≡ true
      → All
          (λ (x : WorkOrder).
            x.org ≡ org → x.asset ≡ asset.pk → is_active_order x.status ≡ true → x.pk ≡ order.pk)
          r.0.maintenance.work_orders
      → (a : Asset) × (find_asset order.asset org r.0 ≡ some a) × (a.status ≡ AssetStatus.active)
  pub busy :
      (k : ℕ) (x : WorkOrder)
      → find_order k org r.0 ≡ some x
      → is_active_order x.status ≡ true
      → x.asset ≡ asset.pk
      → r.0.assets ≡ db.assets
  pub elsewhere : is_in_maintenance asset.status ≡ false → r.0.assets ≡ db.assets
  pub serviceable :
      (a : Asset) × (find_asset order.asset org r.0 ≡ some a) × (is_maintainable a.status ≡ true)

key_is : (a b c d : ℕ) → (a == b && c == d) ≡ true → a ≡ b
key_is a b c d h = ground (arith, h)

pub org_is : (a b c d : ℕ) → (a == b && c == d) ≡ true → c ≡ d
org_is a b c d h = ground (arith, h)

idle_row :
    (m n k l : ℕ) (q w : Bool)
    → (m ≡ n → k ≡ l → q ≡ true → w ≡ true)
    → (m == n && k == l && q && not w) ≡ false
idle_row m n k l q w h = elim (Bool-cases (m == n && k == l && q)) [
  | inl e ↦ all_true (h (first e) (second e) (third e))
  | inr e ↦ some_false e
]
  where
    first : (m == n && k == l && q) ≡ true → m ≡ n
    first e = ground (arith, e)

    second : (m == n && k == l && q) ≡ true → k ≡ l
    second e = ground (arith, e)

    third : (m == n && k == l && q) ≡ true → q ≡ true
    third e = ground (arith, e)

    all_true : w ≡ true → (m == n && k == l && q && not w) ≡ false
    all_true e = ground (arith, e)

    some_false : (m == n && k == l && q) ≡ false → (m == n && k == l && q && not w) ≡ false
    some_false e = ground (arith, e)

pub busy_row :
    (m n k l p s : ℕ) (q : Bool)
    → m ≡ n
    → k ≡ l
    → q ≡ true
    → p ≢ s
    → (m == n && k == l && q && not (p == s)) ≡ true
busy_row m n k l p s q e f g h = ground (arith, e, f, g, h)

-- What a restoration leaves of the assets, for an order and an asset of the organization.
pub record Restored (org : ℕ) (o : WorkOrder) (a : Asset) (db db' : Db) : Type 0 where
  pub returned :
      is_in_maintenance a.status ≡ true
      → All
          (λ (x : WorkOrder).
            x.org ≡ org → x.asset ≡ a.pk → is_active_order x.status ≡ true → x.pk ≡ o.pk)
          db.maintenance.work_orders
      → (b : Asset) × (find_asset o.asset org db' ≡ some b) × (b.status ≡ AssetStatus.active)
  pub busy : active_elsewhere o a db.maintenance.work_orders ≡ true → db'.assets ≡ db.assets
  pub elsewhere : is_in_maintenance a.status ≡ false → db'.assets ≡ db.assets
  pub serviceable :
      (b : Asset) × (find_asset o.asset org db' ≡ some b) × (is_maintainable b.status ≡ true)

pub clash : {b : Bool} → b ≡ true → b ≡ false → ⊥
clash h k = cc

pub restore_asset-Restored :
    (org : ℕ) (actor : User) (o : WorkOrder) (a : Asset) (db : Db)
    → o.org ≡ org
    → find_asset o.asset org db ≡ some a
    → is_maintainable a.status ≡ true
    → Restored org o a db (restore_asset org actor o a db)
unfolding restore_asset find_asset active_elsewhere
restore_asset-Restored org actor o a db own found fit =
    elim (Bool-cases
      (is_in_maintenance a.status && not (active_elsewhere o a db.maintenance.work_orders))) [
        | inl e ↦
            let back : Asset = record a { status = AssetStatus.active; updated_by = some actor } in
            let there =
              find-save (λ (x : Asset). x.pk) _ back db.assets found refl
                (find-test _ db.assets found) in
            rw e (record {
              returned = λ h rest. (back, there, refl);
              busy = λ h. absurd (clash h (quiet _ _ e));
              elsewhere = λ h. absurd (clash (under _ _ e) h);
              serviceable = (back, there, refl);
            })
        | inr e ↦ rw e (record {
          returned = λ h rest. absurd (
              clash (wanted _ _ e h) (
                exists-none _ db.maintenance.work_orders (
                  All-map
                    (λ x.
                      x.org ≡ org → x.asset ≡ a.pk → is_active_order x.status ≡ true → x.pk ≡ o.pk)
                    (λ x.
                      (x.org == o.org
                        && x.asset == a.pk
                        && is_active_order x.status
                        && not (x.pk == o.pk))
                      ≡ false)
                    (λ x own_key.
                      idle_row x.org o.org x.asset a.pk (is_active_order x.status) (x.pk == o.pk)
                        (λ k l q. (==_iff x.pk o.pk).1 (own_key (k ∙ own) l q)))
                    db.maintenance.work_orders rest)));
          busy = λ h. refl;
          elsewhere = λ h. refl;
          serviceable = (a, found, fit);
        })
      ]
  where
    quiet : (b c : Bool) → (b && not c) ≡ true → c ≡ false
    quiet b c h = ground (arith, h)

    under : (b c : Bool) → (b && not c) ≡ true → b ≡ true
    under b c h = ground (arith, h)

    wanted : (b c : Bool) → (b && not c) ≡ false → b ≡ true → c ≡ true
    wanted b c h k = ground (arith, h, k)
