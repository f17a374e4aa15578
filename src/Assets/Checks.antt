-- ===== src/Assets/Checks.antt =====
-- The validation of backend/assets/models.py and backend/assets/services/validation.py. A money
-- column holds less than 10 ^ 20 cents.
use assetflow_fixed_asset_ma.Prelude.{
  ℕ, zero, suc, ◌+◌, ◌^◌, Bool, true, false, not, ◌&&◌, Option, none, some, List, [], ◌∷◌, leb, ltb,
  ◌==◌, length,
}
use assetflow_fixed_asset_ma.Prelude.Int.{ℤ, pos, negsuc}
use assetflow_fixed_asset_ma.Texts.{same_text, strip, upper, is_currency_code}
use assetflow_fixed_asset_ma.Calendar.{Date, before, same_date}
use assetflow_fixed_asset_ma.Result.{Result, ok, err, ◌>>◌, raise_if, row_invalid}
use assetflow_fixed_asset_ma.Table.{exists}
use assetflow_fixed_asset_ma.Records.{
  Org, User, Ref, AssetStatus, Category, Asset, AcquisitionStatus, Acquisition, Db,
}

-- `status in (AssetStatus.DRAFT, AssetStatus.PENDING_CAPITALIZATION)`
abbrev pub is_draft_asset : AssetStatus → Bool
is_draft_asset AssetStatus.draft = true
is_draft_asset AssetStatus.pending_capitalization = true
is_draft_asset _ = false

abbrev pub is_draft_acquisition : AcquisitionStatus → Bool
is_draft_acquisition AcquisitionStatus.draft = true
is_draft_acquisition AcquisitionStatus.capitalized = false

-- A date that is not earlier than another, where both are set.
abbrev pub not_earlier_date : Option Date → Option Date → Bool
not_earlier_date (some d) (some start) = not (before d start)
not_earlier_date _ _ = true

-- `related_object.organization_id == organization.pk`, where there is a related object.
abbrev pub related_in : ℕ → Option Ref → Bool
related_in org none = true
related_in org (some r) = r.org == org

-- `validate_organization_relationships`
abbrev pub relations_valid : ℕ → Category → Option Ref → Option Ref → Bool
relations_valid org category department location =
    category.org == org && related_in org department && related_in org location

-- `not user or user.organization_id in (None, organization_id)`
abbrev user_org_in : ℕ → Option ℕ → Bool
user_org_in org none = true
user_org_in org (some o) = o == org

abbrev pub user_allowed : ℕ → Option User → Bool
user_allowed org none = true
user_allowed org (some u) = user_org_in org u.org

abbrev pub positive_if_set : Option ℕ → Bool
positive_if_set none = true
positive_if_set (some zero) = false
positive_if_set (some (suc n)) = true

abbrev pub fits_column : ℕ → Bool
fits_column cents = ltb cents (10 ^ 20)

abbrev tag_fits : List ℕ → Bool
tag_fits [] = false
tag_fits (c ∷ s) = leb (length (c ∷ s)) 64

-- `uniq_asset_tag_per_org`: another asset of the organization with the tag.
unfoldable pub tag_taken : Asset → Db → Bool
tag_taken a db =
    exists
      (λ (x : Asset). x.org == a.org && same_text x.asset_tag a.asset_tag && not (x.pk == a.pk))
      db.assets

-- `asset.full_clean()` of an asset whose tag is stripped: `Asset.clean`, the field validators, and
-- the CHECK and unique constraints.
unfoldable pub asset_valid : Asset → Db → Bool
asset_valid a db =
    tag_fits a.asset_tag
    && leb a.residual_value a.purchase_cost
    && fits_column a.purchase_cost
    && fits_column a.accumulated_depreciation
    && fits_column a.current_book_value
    && positive_if_set a.useful_life_months
    && not_earlier_date a.capitalization_date a.acquisition_date
    && not_earlier_date a.available_for_use_date a.capitalization_date
    && relations_valid a.org a.category a.department a.location
    && user_allowed a.org a.created_by
    && user_allowed a.org a.updated_by
    && not (tag_taken a db)

abbrev pub stripped_asset : Asset → Asset
stripped_asset a = record a { asset_tag = strip a.asset_tag }

unfoldable pub full_clean_asset : Asset → Db → Result Asset
full_clean_asset a db = do
  raise_if (not (asset_valid (stripped_asset a) db)) row_invalid
  ok (stripped_asset a)

-- A submitted amount in a column that takes no negative value.
abbrev pub cost_column : ℤ → Result ℕ
cost_column (pos n) = ok n
cost_column (negsuc n) = err row_invalid

-- `Acquisition.calculate_capitalized_cost`
unfoldable pub calculate_capitalized_cost : Acquisition → ℕ
calculate_capitalized_cost q =
    q.purchase_price + q.freight_cost + q.installation_cost + q.civil_works_cost
    + q.other_capitalizable_cost

abbrev pub dates_agree : Option Date → Date → Bool
dates_agree none d = true
dates_agree (some e) d = same_date e d

-- `assets_acquisition_asset_id_key`: another acquisition of the asset.
unfoldable pub acquisition_taken : Acquisition → Db → Bool
acquisition_taken q db =
    exists (λ (x : Acquisition). x.asset == q.asset && not (x.pk == q.pk)) db.acquisitions

-- `acquisition.full_clean()` for an acquisition of `asset` in `org`, once its total is computed and
-- its currency is normalized.
unfoldable pub acquisition_valid : Org → Asset → Acquisition → Db → Bool
acquisition_valid org asset q db =
    is_currency_code q.currency
    && fits_column q.purchase_price
    && fits_column q.freight_cost
    && fits_column q.installation_cost
    && fits_column q.civil_works_cost
    && fits_column q.other_capitalizable_cost
    && ltb 0 q.total_cost
    && fits_column q.total_cost
    && not_earlier_date q.capitalization_date (some q.acquisition_date)
    && asset.org == q.org
    && dates_agree asset.acquisition_date q.acquisition_date
    && same_text q.currency (upper (strip org.currency))
    && user_allowed q.org q.created_by
    && user_allowed q.org q.updated_by
    && not (acquisition_taken q db)

-- The total and the currency as `Acquisition.clean` sets them.
abbrev pub totalled_acquisition : Acquisition → Acquisition
totalled_acquisition q = record q {
  total_cost = calculate_capitalized_cost q;
  currency = upper (strip q.currency);
}

-- The choices of the currency are tested on the text as it was given, before `clean` changes it.
unfoldable pub full_clean_acquisition : Org → Asset → Acquisition → Db → Result Acquisition
full_clean_acquisition org asset q db = do
  raise_if (not (is_currency_code q.currency)) row_invalid
  raise_if (not (acquisition_valid org asset (totalled_acquisition q) db)) row_invalid
  ok (totalled_acquisition q)
