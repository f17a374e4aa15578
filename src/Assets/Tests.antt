-- ===== src/Assets/Tests.antt =====
-- Runs of the asset services: a mill that is acquired for 900 with 100 of freight, and capitalized.
use assetflow_fixed_asset_ma.Prelude.{arith, ℕ, ◌≡◌, refl, none, some, [], ◌∷◌}
use assetflow_fixed_asset_ma.Texts.{
  is_space, strip_left, strip_right, strip, upper, is_currency_code,
}
use assetflow_fixed_asset_ma.Calendar.{before, same_date, schedule_end}
use assetflow_fixed_asset_ma.Result.{ok, err, bad_status}
use assetflow_fixed_asset_ma.Table.{find, exists, save}
use assetflow_fixed_asset_ma.Depreciation.Schedules.{schedule_taken, generate_depreciation_schedule}
use assetflow_fixed_asset_ma.Records.{
  AssetStatus, Asset, Schedule, AcquisitionStatus, Acquisition, Db, actor_organization, find_asset,
}
use assetflow_fixed_asset_ma.Assets.Checks.{
  tag_taken, asset_valid, full_clean_asset, calculate_capitalized_cost, acquisition_taken,
  acquisition_valid, full_clean_acquisition,
}
use assetflow_fixed_asset_ma.Assets.Acquiring.{organization_row, find_acquisition}
use assetflow_fixed_asset_ma.Assets.Capitalizing.{
  capitalizable, store_capitalization, capitalize_acquisition,
}
use assetflow_fixed_asset_ma.Assets.Master.{AssetChange, set_fields, update_asset}
use assetflow_fixed_asset_ma.Assets.Capitalization.{Activated, capitalize_acquisition-Activated}
use assetflow_fixed_asset_ma.Assets.Once.{capitalize_acquisition_once, Activated-schedulable}
use assetflow_fixed_asset_ma.Assets.Locked.{update_asset-SameBasis, update_asset-SamePlace}
use assetflow_fixed_asset_ma.Assets.Kept.{SameBasis, SamePlace}
use assetflow_fixed_asset_ma.Samples.{ann, bob, new_year, naira, press, books}

abbrev mill : Asset
mill = record (press 0 3) {
  status = AssetStatus.draft;
  capitalization_date = none;
  available_for_use_date = none;
}

abbrev mill_acquisition : Acquisition
mill_acquisition = record {
  pk = 71;
  org = 1;
  asset = 21;
  acquisition_date = new_year;
  capitalization_date = some new_year;
  currency = naira;
  purchase_price = 900;
  freight_cost = 100;
  installation_cost = 0;
  civil_works_cost = 0;
  other_capitalizable_cost = 0;
  total_cost = 1000;
  status = AcquisitionStatus.draft;
  created_by = some ann;
  updated_by = some ann;
}

abbrev ordered_db : Db
ordered_db = record (books mill []) { acquisitions = mill_acquisition ∷ [] }

capitalization : (r : Db × Acquisition) × (capitalize_acquisition 71 ann ordered_db ≡ ok r)
unfolding is_space strip_left strip_right strip upper is_currency_code before same_date find exists
    save actor_organization find_asset tag_taken asset_valid full_clean_asset
    calculate_capitalized_cost acquisition_taken acquisition_valid full_clean_acquisition
    organization_row find_acquisition capitalizable store_capitalization capitalize_acquisition
capitalization = (_, refl)

capitalize_acquisition-Activated_example :
    (org : ℕ) × (ann.org ≡ some org) × Activated 71 org ann ordered_db capitalization.0
capitalize_acquisition-Activated_example =
    capitalize_acquisition-Activated 71 ann ordered_db capitalization.1

capitalize_acquisition_once_example :
    capitalize_acquisition 71 bob capitalization.0.0 ≡ err bad_status
capitalize_acquisition_once_example =
    capitalize_acquisition_once 71 ann bob ordered_db capitalization.1 refl

activated : Activated 71 1 ann ordered_db capitalization.0
unfolding is_space strip_left strip_right strip upper is_currency_code before same_date find exists
    save actor_organization find_asset tag_taken asset_valid full_clean_asset
    calculate_capitalized_cost acquisition_taken acquisition_valid full_clean_acquisition
    organization_row find_acquisition capitalizable store_capitalization capitalize_acquisition
    capitalization
activated = record {
  old = mill_acquisition;
  date = new_year;
  draft = mill;
  asset = _;
  found = refl;
  was_draft = refl;
  dated = refl;
  found_asset = refl;
  draft_asset = refl;
  no_book_value = refl;
  no_depreciation = refl;
  stored = refl;
  active = refl;
  cost = refl;
  book_value = refl;
  undepreciated = refl;
  positive = omega arith;
  residual = omega arith;
  acquired = refl;
  capitalized = refl;
  available = refl;
  life = refl;
  ordered = refl;
  life_positive = omega arith;
  acquisition_stored = refl;
  acquisition_capitalized = refl;
  total = refl;
}

Activated-schedulable_example :
    (s : Db × Schedule) × (generate_depreciation_schedule 21 ann capitalization.0.0 ≡ ok s)
unfolding is_space strip_left strip_right strip upper is_currency_code before same_date find exists
    save actor_organization find_asset tag_taken asset_valid full_clean_asset
    calculate_capitalized_cost acquisition_taken acquisition_valid full_clean_acquisition
    organization_row find_acquisition capitalizable store_capitalization capitalize_acquisition
    capitalization activated schedule_taken schedule_end
Activated-schedulable_example =
    Activated-schedulable 71 1 2 ann ordered_db (record { year = 2024; month = 3; day = 31 })
      activated refl refl refl refl refl

master_update :
    (r : Db × Asset) × (update_asset 21 ann
        (AssetChange.set_tag (2 ∷ []) ∷ AssetChange.set_department none ∷ [])
        (books (press 1000 3) [])
      ≡ ok r)
unfolding is_space strip_left strip_right strip before same_date find exists save actor_organization
    find_asset tag_taken asset_valid full_clean_asset organization_row set_fields update_asset
master_update = (_, refl)

press_found : find_asset 21 1 (books (press 1000 3) []) ≡ some (press 1000 3)
unfolding find_asset find
press_found = refl

update_asset-SameBasis_example :
    (b : Asset) × (find_asset 21 1 master_update.0.0 ≡ some b) × SameBasis (press 1000 3) b
update_asset-SameBasis_example =
    update_asset-SameBasis 21 1 ann
      (AssetChange.set_tag (2 ∷ []) ∷ AssetChange.set_department none ∷ [])
      (books (press 1000 3) []) (press 1000 3) refl press_found refl master_update.1

update_asset-SamePlace_example :
    (b : Asset) × (find_asset 21 1 master_update.0.0 ≡ some b) × SamePlace (press 1000 3) b
update_asset-SamePlace_example =
    update_asset-SamePlace 21 1 ann
      (AssetChange.set_tag (2 ∷ []) ∷ AssetChange.set_department none ∷ [])
      (books (press 1000 3) []) (press 1000 3) refl press_found refl master_update.1
