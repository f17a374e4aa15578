-- ===== src/Assets/Effects.antt =====
-- What the capitalization of an acquisition has found when it succeeds, and what it writes.
use assetflow_fixed_asset_ma.Prelude.{not-false, ℕ, ◌≡◌, sym, ◌∙◌, true, not, some}
use assetflow_fixed_asset_ma.Calendar.{Date}
use assetflow_fixed_asset_ma.Result.{ok, >>=-eq-ok, or_raise-then, raise_if-then, ok-injective}
use assetflow_fixed_asset_ma.Records.{Org, User, Asset, Acquisition, Db, find_asset}
use assetflow_fixed_asset_ma.Assets.Checks.{
  is_draft_acquisition, asset_valid, stripped_asset, full_clean_asset, acquisition_valid,
  totalled_acquisition, full_clean_acquisition,
}
use assetflow_fixed_asset_ma.Assets.Acquiring.{organization_row, find_acquisition}
use assetflow_fixed_asset_ma.Assets.Capitalizing.{
  capitalized_asset, capitalized_acquisition, capitalizable, store_capitalization,
  capitalize_acquisition,
}

pub full_clean_asset-eq-ok :
    (a : Asset) (db : Db) {b : Asset}
    → full_clean_asset a db ≡ ok b
    → (b ≡ stripped_asset a) × (asset_valid (stripped_asset a) db ≡ true)
unfolding full_clean_asset
full_clean_asset-eq-ok a db h =
    let (valid, h1) = raise_if-then (not (asset_valid (stripped_asset a) db)) _ _ h in
    (sym (ok-injective h1), not-false _ valid)

pub full_clean_acquisition-eq-ok :
    (org : Org) (a : Asset) (q : Acquisition) (db : Db) {p : Acquisition}
    → full_clean_acquisition org a q db ≡ ok p
    → (p ≡ totalled_acquisition q) × (acquisition_valid org a (totalled_acquisition q) db ≡ true)
unfolding full_clean_acquisition
full_clean_acquisition-eq-ok org a q db h =
    let (_, h1) = raise_if-then _ _ _ h in
    let (valid, h2) =
      raise_if-then (not (acquisition_valid org a (totalled_acquisition q) db)) _ _ h1 in
    (sym (ok-injective h2), not-false _ valid)

pub record Capitalized (pk : ℕ) (actor : User) (db : Db) (r : Db × Acquisition) : Type 0 where
  pub org : Org
  pub acquisition : Acquisition
  pub date : Date
  pub asset : Asset
  pub own : organization_row actor db ≡ ok org
  pub found : find_acquisition pk org.pk db ≡ some acquisition
  pub was_draft : is_draft_acquisition acquisition.status ≡ true
  pub dated : acquisition.capitalization_date ≡ some date
  pub found_asset : find_asset acquisition.asset org.pk db ≡ some asset
  pub fit : capitalizable org acquisition date asset ≡ ok tt
  pub valid :
      asset_valid (stripped_asset (capitalized_asset actor acquisition date asset)) db ≡ true
  pub result :
      r
      ≡ store_capitalization org actor asset
          (stripped_asset (capitalized_asset actor acquisition date asset))
          (totalled_acquisition (capitalized_acquisition actor acquisition))
          db

stored_rows :
    (org : Org) (actor : User) (asset : Asset) (db : Db) {a b : Asset} {p q : Acquisition}
    → a ≡ b
    → p ≡ q
    → store_capitalization org actor asset a p db ≡ store_capitalization org actor asset b q db
stored_rows org actor asset db e f = cc

pub capitalize_acquisition-Capitalized :
    (pk : ℕ) (actor : User) (db : Db) {r : Db × Acquisition}
    → capitalize_acquisition pk actor db ≡ ok r
    → Capitalized pk actor db r
unfolding capitalize_acquisition
capitalize_acquisition-Capitalized pk actor db h =
    let (org, own, h1) = >>=-eq-ok (organization_row actor db) _ h in
    let (q, found, h2) = or_raise-then (find_acquisition pk org.pk db) _ _ h1 in
    let (draft, h3) = raise_if-then (not (is_draft_acquisition q.status)) _ _ h2 in
    let (date, dated, h4) = or_raise-then q.capitalization_date _ _ h3 in
    let (a, found_asset, h5) = or_raise-then (find_asset q.asset org.pk db) _ _ h4 in
    let (_, fit, h6) = >>=-eq-ok (capitalizable org q date a) _ h5 in
    let (active, valid, h7) =
      >>=-eq-ok (full_clean_asset (capitalized_asset actor q date a) db) _ h6 in
    let (done, clean, h8) =
      >>=-eq-ok (full_clean_acquisition org a (capitalized_acquisition actor q) db) _ h7 in
    let (active_row, ok_asset) =
      full_clean_asset-eq-ok (capitalized_asset actor q date a) db valid in
    let (done_row, _) =
      full_clean_acquisition-eq-ok org a (capitalized_acquisition actor q) db clean in
    record {
      org = org;
      acquisition = q;
      date = date;
      asset = a;
      own = own;
      found = found;
      was_draft = not-false _ draft;
      dated = dated;
      found_asset = found_asset;
      fit = fit;
      valid = ok_asset;
      result = sym (ok-injective h8) ∙ stored_rows org actor a db active_row done_row;
    }
