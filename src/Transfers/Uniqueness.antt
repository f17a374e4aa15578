-- ===== src/Transfers/Uniqueness.antt =====
-- At most one open transfer and one custody for each asset, under the writes of the services.
use assetflow_fixed_asset_ma.Prelude.{
  ℕ, suc, ◌≤◌, ◌<◌, ◌≡◌, ◌≢◌, refl, Bool, true, false, not, ◌&&◌, List, [], ◌∷◌, All, arith, ◌==◌,
  is_unset, some,
}
use assetflow_fixed_asset_ma.Table.{find, count, exists, save, All-find}
use assetflow_fixed_asset_ma.Table.Keys.{
  unit, Distinct, Below, Below-suc, Below-save, Distinct-save, Below-fresh, count-save,
  count-exists_false,
}
use assetflow_fixed_asset_ma.Records.{Assignment, is_open_transfer, Transfer, Db}
use assetflow_fixed_asset_ma.Transfers.Checks.{open_elsewhere}
use assetflow_fixed_asset_ma.Transfers.Assigning.{has_custody}

abbrev pub open_of : ℕ → Transfer → Bool
open_of asset t = t.asset == asset && is_open_transfer t.status

abbrev pub custody_of : ℕ → Assignment → Bool
custody_of asset a = a.asset == asset && is_unset a.returned_at

-- Keys are distinct and were handed out before; an asset has one open transfer and one custody at
-- most.
pub record IsTransfers (next : ℕ) (ts : List Transfer) : Type 0 where
  pub distinct : Distinct (λ (t : Transfer). t.pk) ts
  pub below : Below (λ (t : Transfer). t.pk) next ts
  pub one_open : (asset : ℕ) → count (open_of asset) ts ≤ 1

pub record IsAssignments (next : ℕ) (xs : List Assignment) : Type 0 where
  pub distinct : Distinct (λ (a : Assignment). a.pk) xs
  pub below : Below (λ (a : Assignment). a.pk) next xs
  pub one_custody : (asset : ℕ) → count (custody_of asset) xs ≤ 1

-- A row that is not open for an asset where the row that it replaces was not.
pub IsTransfers-save :
    (next : ℕ) (p : Transfer → Bool) (r : Transfer) (ts : List Transfer) {old : Transfer}
    → IsTransfers next ts
    → find p ts ≡ some old
    → old.pk ≡ r.pk
    → ((asset : ℕ) → unit (open_of asset r) ≤ unit (open_of asset old))
    → IsTransfers next (save (λ (t : Transfer). t.pk) r ts)
IsTransfers-save next p r ts w found e no_more = record {
  distinct = Distinct-save (λ (t : Transfer). t.pk) r ts w.distinct;
  below =
      Below-save (λ (t : Transfer). t.pk) next r ts w.below
        (rw (← e) (All-find (λ (t : Transfer). t.pk < next) p ts w.below found));
  one_open = λ asset. omega (
    arith,
    w.one_open asset,
    no_more asset,
    count-save (λ (t : Transfer). t.pk) (open_of asset) p r ts w.distinct found e,
  );
}

pub IsAssignments-save :
    (next : ℕ) (p : Assignment → Bool) (r : Assignment) (xs : List Assignment) {old : Assignment}
    → IsAssignments next xs
    → find p xs ≡ some old
    → old.pk ≡ r.pk
    → ((asset : ℕ) → unit (custody_of asset r) ≤ unit (custody_of asset old))
    → IsAssignments next (save (λ (a : Assignment). a.pk) r xs)
IsAssignments-save next p r xs w found e no_more = record {
  distinct = Distinct-save (λ (a : Assignment). a.pk) r xs w.distinct;
  below =
      Below-save (λ (a : Assignment). a.pk) next r xs w.below
        (rw (← e) (All-find (λ (a : Assignment). a.pk < next) p xs w.below found));
  one_custody = λ asset. omega (
    arith,
    w.one_custody asset,
    no_more asset,
    count-save (λ (a : Assignment). a.pk) (custody_of asset) p r xs w.distinct found e,
  );
}

none_open :
    (asset pk : ℕ) (ts : List Transfer)
    → All (λ (t : Transfer). t.pk ≢ pk) ts
    → exists
        (λ (x : Transfer). x.asset == asset && is_open_transfer x.status && not (x.pk == pk))
        ts
      ≡ false
    → count (open_of asset) ts ≡ 0
unfolding exists count
none_open asset pk [] ne h = refl
none_open asset pk (x ∷ ts) (ne, rest) h = ground (arith, ne, h, none_open asset pk ts rest)

count_added :
    (q : Transfer → Bool) (r : Transfer) (ts : List Transfer)
    → count q ts ≤ 1
    → (q r ≡ true → count q ts ≡ 0)
    → count q (r ∷ ts) ≤ 1
unfolding count
count_added q r ts h k = ground (arith, h, k)

count_added_custody :
    (q : Assignment → Bool) (r : Assignment) (xs : List Assignment)
    → count q xs ≤ 1
    → (q r ≡ true → count q xs ≡ 0)
    → count q (r ∷ xs) ≤ 1
unfolding count
count_added_custody q r xs h k = ground (arith, h, k)

of_asset : (asset : ℕ) (r : Transfer) → open_of asset r ≡ true → r.asset ≡ asset
of_asset asset r h = ground (arith, h)

custody_asset : (asset : ℕ) (r : Assignment) → custody_of asset r ≡ true → r.asset ≡ asset
custody_asset asset r h = ground (arith, h)

pub IsTransfers-add :
    (next : ℕ) (r : Transfer) (db : Db)
    → IsTransfers next db.transfers
    → r.pk ≡ next
    → open_elsewhere r db ≡ false
    → IsTransfers (suc next) (r ∷ db.transfers)
unfolding open_elsewhere
IsTransfers-add next r db w e alone = record {
  distinct = (rw e (Below-fresh (λ (t : Transfer). t.pk) next db.transfers w.below), w.distinct);
  below = (omega arith, Below-suc (λ (t : Transfer). t.pk) next db.transfers w.below);
  one_open = λ asset. count_added (open_of asset) r db.transfers (w.one_open asset) (λ h.
      let same : r.asset ≡ asset = of_asset asset r h in
      none_open asset r.pk db.transfers
        (rw e (Below-fresh (λ (t : Transfer). t.pk) next db.transfers w.below))
        (rw (← same) alone));
}

pub IsAssignments-add :
    (next : ℕ) (r : Assignment) (db : Db)
    → IsAssignments next db.assignments
    → r.pk ≡ next
    → has_custody r.asset db ≡ false
    → IsAssignments (suc next) (r ∷ db.assignments)
unfolding has_custody
IsAssignments-add next r db w e alone = record {
  distinct =
      (rw e (Below-fresh (λ (a : Assignment). a.pk) next db.assignments w.below), w.distinct);
  below = (omega arith, Below-suc (λ (a : Assignment). a.pk) next db.assignments w.below);
  one_custody = λ asset.
      count_added_custody (custody_of asset) r db.assignments (w.one_custody asset) (λ h.
        let same : r.asset ≡ asset = custody_asset asset r h in
        count-exists_false (custody_of asset) db.assignments (rw (← same) alone));
}
