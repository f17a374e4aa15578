-- ===== src/Disposals/Derecognition.antt =====
-- What `complete_disposal` has found when it succeeds, and what it writes.
use mathlib.Core.Path.{subst}
use assetflow_fixed_asset_ma.Prelude.{
  not-false, ℕ, ◌≡◌, sym, ap, ◌∙◌, true, false, not, ◌||◌, some, arith, ltb, is_unset,
}
use assetflow_fixed_asset_ma.Prelude.Int.{pos, ltb_ℤ, eqb_ℤ}
use assetflow_fixed_asset_ma.Texts.{same_text}
use assetflow_fixed_asset_ma.Calendar.{Date, before}
use assetflow_fixed_asset_ma.Result.{ok, >>=-eq-ok, or_raise-then, ok-injective, raise_if-then}
use assetflow_fixed_asset_ma.Table.{save}
use assetflow_fixed_asset_ma.Records.{Org, User, Asset, is_active_asset, Disposal, Db, find_asset}
use assetflow_fixed_asset_ma.Disposals.Checks.{
  is_approved_disposal, self_approved, disposal_full_clean,
}
use assetflow_fixed_asset_ma.Disposals.Saving.{save_disposal}
use assetflow_fixed_asset_ma.Disposals.Requests.{
  own_organization, find_disposal, locked_disposal, disposable_asset, actor_ref,
}
use assetflow_fixed_asset_ma.Disposals.Completion.{
  in_custody, in_transfer, in_repair, carrying_of, completed_disposal, derecognized_asset,
  complete_disposal,
}
use assetflow_fixed_asset_ma.Disposals.Effects.{save_disposal-save, find_locked}

pub record Derecognized (now : ℕ) (today : Date) (pk : ℕ) (actor : User) (db : Db)
    (r : Db × Disposal) : Type 0 where
  pub org : Org
  pub disposal : Disposal
  pub asset : Asset
  pub own : own_organization actor db ≡ ok org
  pub found : find_disposal pk org.pk db ≡ some disposal
  pub found_asset : find_asset disposal.asset org.pk db ≡ some asset
  pub active : is_active_asset asset.status ≡ true
  pub approved : is_approved_disposal disposal.status ≡ true
  pub approver : self_approved disposal ≡ false
  pub due : before today disposal.disposal_date ≡ false
  pub returned : in_custody asset.pk db ≡ false
  pub settled : in_transfer asset.pk db ≡ false
  pub repaired : in_repair asset.pk db ≡ false
  pub consistent : ltb asset.purchase_cost asset.accumulated_depreciation ≡ false
  pub agreed :
      (ltb_ℤ (carrying_of asset) (pos asset.residual_value)
        || not (eqb_ℤ (carrying_of asset) (pos asset.current_book_value)))
      ≡ false
  pub row : r.1 ≡ completed_disposal now (actor_ref actor org) asset disposal
  pub clean : disposal_full_clean org asset r.1 db ≡ true
  pub disposals : r.0.disposals ≡ save (λ (x : Disposal). x.pk) r.1 db.disposals
  pub assets : r.0.assets ≡ save (λ (x : Asset). x.pk) (derecognized_asset actor asset) db.assets
  pub next_key : r.0.next_key ≡ db.next_key

find_disposable :
    (pk org : ℕ) (db : Db) {a : Asset}
    → disposable_asset pk org db ≡ ok a
    → (find_asset pk org db ≡ some a) × (is_active_asset a.status ≡ true)
unfolding disposable_asset
find_disposable pk org db h =
    let (a, found, h1) = or_raise-then (find_asset pk org db) _ _ h in
    let (active, h2) = raise_if-then (not (is_active_asset a.status)) _ _ h1 in
    let (_, h3) = raise_if-then (is_unset a.capitalization_date) _ _ h2 in
    (ground (arith, h3, found), ground (arith, h3, active))

pub complete_disposal-Derecognized :
    (now : ℕ) (today : Date) (pk : ℕ) (actor : User) (db : Db) {r : Db × Disposal}
    → complete_disposal now today pk actor db ≡ ok r
    → Derecognized now today pk actor db r
unfolding complete_disposal
complete_disposal-Derecognized now today pk actor db h =
    let (org, own, h1) = >>=-eq-ok (own_organization actor db) _ h in
    let (d, found, h2) = >>=-eq-ok (locked_disposal pk org.pk db) _ h1 in
    let (a, lock, h3) = >>=-eq-ok (disposable_asset d.asset org.pk db) _ h2 in
    let (approved, h4) = raise_if-then (not (is_approved_disposal d.status)) _ _ h3 in
    let (approver, h5) = raise_if-then (self_approved d) _ _ h4 in
    let (due, h6) = raise_if-then (before today d.disposal_date) _ _ h5 in
    let (_, h7) = raise_if-then (not (same_text d.currency org.currency)) _ _ h6 in
    let (returned, h8) = raise_if-then (in_custody a.pk db) _ _ h7 in
    let (settled, h9) = raise_if-then (in_transfer a.pk db) _ _ h8 in
    let (repaired, h10) = raise_if-then (in_repair a.pk db) _ _ h9 in
    let (consistent, h11) =
      raise_if-then (ltb a.purchase_cost a.accumulated_depreciation) _ _ h10 in
    let (agreed, h12) =
      raise_if-then
        (ltb_ℤ (carrying_of a) (pos a.residual_value)
          || not (eqb_ℤ (carrying_of a) (pos a.current_book_value)))
        _ _ h11 in
    let new = completed_disposal now (actor_ref actor org) a d in
    let (clean, h13) = raise_if-then (not (disposal_full_clean org a new db)) _ _ h12 in
    let (rows, saved, h14) = >>=-eq-ok (save_disposal new db.disposals) _ h13 in
    let result = sym (ok-injective h14) in
    let row = ap (λ (x : Db × Disposal). x.1) result in
    let written = save_disposal-save new db.disposals saved in
    record {
      org = org;
      disposal = d;
      asset = a;
      own = own;
      found = find_locked pk org.pk db found;
      found_asset = (find_disposable d.asset org.pk db lock).0;
      active = (find_disposable d.asset org.pk db lock).1;
      approved = not-false _ approved;
      approver = approver;
      due = due;
      returned = returned;
      settled = settled;
      repaired = repaired;
      consistent = consistent;
      agreed = agreed;
      row = row;
      clean =
          subst (λ (x : Disposal). disposal_full_clean org a x db ≡ true) (sym row)
            (not-false _ clean);
      disposals =
          ap (λ (x : Db × Disposal). x.0.disposals) result
          ∙ written
          ∙ ap (λ (x : Disposal). save (λ (y : Disposal). y.pk) x db.disposals) (sym row);
      assets = ap (λ (x : Db × Disposal). x.0.assets) result;
      next_key = ap (λ (x : Db × Disposal). x.0.next_key) result;
    }
