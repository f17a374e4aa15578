-- ===== src/Disposals/Accounting.antt =====
-- What the derecognition of an asset does to its books.
use assetflow_fixed_asset_ma.Prelude.{
  ℕ, ◌-◌, ◌≤◌, ◌≡◌, refl, sym, ap, ◌∙◌, false, not, ◌||◌, some, arith, ◌==◌, ==_iff, ltb,
}
use assetflow_fixed_asset_ma.Prelude.Int.{ℤ, pos, ◌-ℤ◌, ltb_ℤ, eqb_ℤ}
use assetflow_fixed_asset_ma.Calendar.{Date}
use assetflow_fixed_asset_ma.Result.{ok, or_raise-then, or_raise-eq-ok}
use assetflow_fixed_asset_ma.Table.{find, find-test, find-save}
use assetflow_fixed_asset_ma.Records.{
  Org, Ref, actor_organization, User, AssetStatus, Asset, Disposal, Db, find_asset,
}
use assetflow_fixed_asset_ma.Disposals.Requests.{own_organization, find_disposal}
use assetflow_fixed_asset_ma.Disposals.Completion.{
  in_custody, in_transfer, in_repair, carrying_of, completed_disposal, derecognized_asset,
  complete_disposal,
}
use assetflow_fixed_asset_ma.Disposals.Derecognition.{complete_disposal-Derecognized}

-- An active asset without custody, transfer or repair, whose book value is its cost less its
-- depreciation and not below the residual value, has left the books at that value.
pub record OffTheBooks (pk org : ℕ) (actor : User) (db : Db) (r : Db × Disposal) : Type 0 where
  pub old : Disposal
  pub asset : Asset
  pub found : find_disposal pk org db ≡ some old
  pub found_asset : find_asset old.asset org db ≡ some asset
  pub no_custody : in_custody asset.pk db ≡ false
  pub no_transfer : in_transfer asset.pk db ≡ false
  pub no_repair : in_repair asset.pk db ≡ false
  pub covered : asset.accumulated_depreciation ≤ asset.purchase_cost
  pub book_value : asset.current_book_value ≡ asset.purchase_cost - asset.accumulated_depreciation
  pub above_residual : asset.residual_value ≤ asset.current_book_value
  pub carrying : r.1.carrying_amount ≡ some (pos asset.current_book_value)
  pub gain : r.1.gain_or_loss ≡ some (old.proceeds -ℤ pos asset.current_book_value)
  pub stored : find_disposal pk org r.0 ≡ some r.1
  pub retired :
      find_asset old.asset org r.0
      ≡ some (record asset { status = AssetStatus.disposed; updated_by = some actor })

le_of : (c a : ℕ) → ltb c a ≡ false → a ≤ c
le_of c a h = ground (arith, h)

difference : (c a : ℕ) → a ≤ c → (pos c -ℤ pos a) ≡ pos (c - a)
difference c a h = ground (arith, h)

agreement :
    (x v b : ℕ) → (ltb_ℤ (pos x) (pos v) || not (eqb_ℤ (pos x) (pos b))) ≡ false → (v ≤ b) × (b ≡ x)
agreement x v b h = (ground (arith, h), ground (arith, h))

own_key :
    (actor : User) (db : Db) {o : Org} → own_organization actor db ≡ ok o → actor.org ≡ some o.pk
unfolding own_organization actor_organization
own_key actor db h =
    let (pk, e, h1) = or_raise-then _ _ _ h in
    let found = or_raise-eq-ok (find (λ (o : Org). o.pk == pk) db.organizations) _ h1 in
    e ∙ ap some (sym ((==_iff _ pk).0 (find-test _ db.organizations found)))

-- A completed disposal takes the asset off the books: the asset was free of custody, transfer and
-- work orders, its book value was its cost less accumulated depreciation and at least the residual
-- value, the disposal records that carrying amount and the gain over it, and the asset is stored
-- with the status DISPOSED and its other columns but `updated_by` unchanged.
pub complete_disposal-OffTheBooks :
    (now : ℕ) (today : Date) (pk : ℕ) (actor : User) (db : Db) {r : Db × Disposal}
    → complete_disposal now today pk actor db ≡ ok r
    → (org : ℕ) × (actor.org ≡ some org) × OffTheBooks pk org actor db r
unfolding find_asset find_disposal completed_disposal derecognized_asset
complete_disposal-OffTheBooks now today pk actor db {r} h =
    let e = complete_disposal-Derecognized now today pk actor db h in
    let a = e.asset in
    let by : Ref = record { pk = actor.pk; org = e.org.pk } in
    let covered = le_of a.purchase_cost a.accumulated_depreciation e.consistent in
    let whole = difference a.purchase_cost a.accumulated_depreciation covered in
    let books =
      agreement (a.purchase_cost - a.accumulated_depreciation) a.residual_value a.current_book_value
        (rw whole at e.agreed) in
    let carried : carrying_of a ≡ pos a.current_book_value = whole ∙ ap pos (sym books.1) in
    (
      e.org.pk,
      own_key actor db e.own,
      record {
        old = e.disposal;
        asset = a;
        found = e.found;
        found_asset = e.found_asset;
        no_custody = e.returned;
        no_transfer = e.settled;
        no_repair = e.repaired;
        covered = covered;
        book_value = books.1;
        above_residual = books.0;
        carrying = ap (λ (d : Disposal). d.carrying_amount) e.row ∙ ap some carried;
        gain =
            ap (λ (d : Disposal). d.gain_or_loss) e.row
            ∙ ap (λ (k : ℤ). some (e.disposal.proceeds -ℤ k)) carried;
        stored = rw e.disposals (
            find-save (λ (x : Disposal). x.pk) _ r.1 db.disposals e.found
              (ap (λ (d : Disposal). d.pk) (sym e.row))
              (rw e.row (find-test _ db.disposals e.found)));
        retired = rw e.assets (
            find-save (λ (x : Asset). x.pk) _ (derecognized_asset actor a) db.assets e.found_asset
              refl (find-test _ db.assets e.found_asset));
      },
    )
