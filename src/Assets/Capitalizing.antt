-- ===== src/Assets/Capitalizing.antt =====
-- `capitalize_acquisition` of backend/assets/services/acquisition.py.
use assetflow_fixed_asset_ma.Prelude.{ℕ, not, ◌||◌, Option, none, some, leb, ltb, ◌==◌}
use assetflow_fixed_asset_ma.Texts.{same_text, strip, upper}
use assetflow_fixed_asset_ma.Calendar.{Date}
use assetflow_fixed_asset_ma.Result.{
  Result, ok, ◌>>=◌, ◌>>◌, raise_if, or_raise, acquisition_missing, asset_missing, bad_status,
  capitalization_date_missing, capitalization_conflict, has_balance, acquisition_date_mismatch,
  cost_not_positive, residual_exceeds_cost, wrong_currency,
}
use assetflow_fixed_asset_ma.Table.{save}
use assetflow_fixed_asset_ma.Records.{
  Org, User, AssetStatus, Asset, AcquisitionStatus, Acquisition, Action, Db, record_event,
  find_asset,
}
use assetflow_fixed_asset_ma.Assets.Checks.{
  is_draft_asset, is_draft_acquisition, dates_agree, calculate_capitalized_cost, full_clean_asset,
  full_clean_acquisition,
}
use assetflow_fixed_asset_ma.Assets.Acquiring.{organization_row, find_acquisition}

-- `asset.available_for_use_date or acquisition.capitalization_date`
abbrev pub available_or : Option Date → Date → Date
available_or none d = d
available_or (some e) d = e

-- The asset's own life, or its category's default.
abbrev pub life_or_default : Option ℕ → ℕ → ℕ
life_or_default none default = default
life_or_default (some n) default = n

abbrev pub capitalized_asset : User → Acquisition → Date → Asset → Asset
capitalized_asset actor q date a = record a {
  purchase_cost = calculate_capitalized_cost q;
  current_book_value = calculate_capitalized_cost q;
  acquisition_date = some q.acquisition_date;
  capitalization_date = some date;
  available_for_use_date = some (available_or a.available_for_use_date date);
  useful_life_months =
      some (life_or_default a.useful_life_months a.category.default_useful_life_months);
  status = AssetStatus.active;
  updated_by = some actor;
}

abbrev pub capitalized_acquisition : User → Acquisition → Acquisition
capitalized_acquisition actor q = record q {
  status = AcquisitionStatus.capitalized;
  updated_by = some actor;
}

-- What the acquisition and its asset must satisfy, in the order of the tests.
unfoldable pub capitalizable : Org → Acquisition → Date → Asset → Result (Unit {0})
capitalizable org q date a = do
  raise_if (not (is_draft_asset a.status)) bad_status
  raise_if (not (dates_agree a.capitalization_date date)) capitalization_conflict
  raise_if (not (a.current_book_value == 0) || not (a.accumulated_depreciation == 0)) has_balance
  raise_if (not (dates_agree a.acquisition_date q.acquisition_date)) acquisition_date_mismatch
  raise_if (leb (calculate_capitalized_cost q) 0) cost_not_positive
  raise_if (ltb (calculate_capitalized_cost q) a.residual_value) residual_exceeds_cost
  raise_if (not (same_text q.currency (upper (strip org.currency)))) wrong_currency

-- The columns that `asset.save(update_fields=...)` names; the tag keeps its stored text.
abbrev pub saved_columns : Asset → Asset → Asset
saved_columns asset active = record active { asset_tag = asset.asset_tag }

-- The two events and the two saves.
unfoldable pub store_capitalization :
    Org → User → Asset → Asset → Acquisition → Db → Db × Acquisition
store_capitalization org actor asset active done db =
    let db' : Db = record_event org.pk (some actor.pk) Action.asset_capitalized active.pk db in
    let db'' : Db =
      record_event org.pk (some actor.pk) Action.acquisition_capitalized done.pk db' in
    (
      record db'' {
        assets = save (λ (x : Asset). x.pk) (saved_columns asset active) db.assets;
        acquisitions = save (λ (x : Acquisition). x.pk) done db.acquisitions;
      },
      done,
    )

unfoldable pub capitalize_acquisition : ℕ → User → Db → Result (Db × Acquisition)
capitalize_acquisition acquisition_id actor db = do
  org ← organization_row actor db
  acquisition ← or_raise (find_acquisition acquisition_id org.pk db) acquisition_missing
  raise_if (not (is_draft_acquisition acquisition.status)) bad_status
  date ← or_raise acquisition.capitalization_date capitalization_date_missing
  asset ← or_raise (find_asset acquisition.asset org.pk db) asset_missing
  capitalizable org acquisition date asset
  active ← full_clean_asset (capitalized_asset actor acquisition date asset) db
  done ← full_clean_acquisition org asset (capitalized_acquisition actor acquisition) db
  ok (store_capitalization org actor asset active done db)
