-- ===== src/Assets/Master.antt =====
-- `create_asset` and `update_asset` of backend/assets/services/assets.py. The descriptive columns
-- (name, description, serial and model number, manufacturer, condition) are one kind of change.
use assetflow_fixed_asset_ma.Prelude.{
  ℕ, suc, Bool, true, false, not, ◌&&◌, ◌||◌, Option, none, some, List, [], ◌∷◌, ◌==◌, same_key,
}
use assetflow_fixed_asset_ma.Prelude.Int.{ℤ, pos_part, neg_part}
use assetflow_fixed_asset_ma.Texts.{same_text, strip}
use assetflow_fixed_asset_ma.Calendar.{Date, same_date}
use assetflow_fixed_asset_ma.Result.{
  Result, ok, ◌>>=◌, ◌>>◌, raise_if, or_raise, unsupported_field, category_required,
  foreign_relation, asset_missing, placement_locked, accounting_basis_locked,
}
use assetflow_fixed_asset_ma.Table.{save}
use assetflow_fixed_asset_ma.Depreciation.Engine.{Method, slm, rbm, uop, syd}
use assetflow_fixed_asset_ma.Records.{
  Org, User, Ref, ref_key, AssetStatus, is_active_asset, Category, Asset, Action, Db, record_event,
  find_asset,
}
use assetflow_fixed_asset_ma.Commercial.Capacity.{require_capacity}
use assetflow_fixed_asset_ma.Assets.Checks.{
  is_draft_asset, relations_valid, cost_column, full_clean_asset,
}
use assetflow_fixed_asset_ma.Assets.Acquiring.{organization_row}

-- The submitted values of a creation; an inner `none` is a value given as `None`.
pub record AssetData : Type 0 where
  pub unsupported : Bool
  pub asset_tag : List ℕ
  pub category : Option Category
  pub department : Option Ref
  pub location : Option Ref
  pub acquisition_date : Option Date
  pub capitalization_date : Option Date
  pub available_for_use_date : Option Date
  pub purchase_cost : ℤ
  pub residual_value : ℤ
  pub useful_life_months : Option (Option ℕ)
  pub depreciation_method : Option Method

abbrev pub given_or {ℓ} : {A : Type ℓ} → Option A → A → A
given_or none default = default
given_or (some x) default = x

unfoldable pub create_asset : ℕ → User → AssetData → Db → Result (Db × Asset)
create_asset now actor values db = do
  org ← organization_row actor db
  raise_if values.unsupported unsupported_field
  category ← or_raise values.category category_required
  raise_if (not (relations_valid org.pk category values.department values.location))
      foreign_relation
  require_capacity now org.pk db
  cost ← cost_column values.purchase_cost
  residual ← cost_column values.residual_value
  asset ←
      full_clean_asset
        (record {
          pk = db.next_key;
          org = org.pk;
          asset_tag = strip values.asset_tag;
          category = category;
          department = values.department;
          location = values.location;
          status = AssetStatus.draft;
          acquisition_date = values.acquisition_date;
          capitalization_date = values.capitalization_date;
          available_for_use_date = values.available_for_use_date;
          purchase_cost = cost;
          residual_value = residual;
          useful_life_months =
              given_or values.useful_life_months (some category.default_useful_life_months);
          depreciation_method =
              given_or values.depreciation_method category.default_depreciation_method;
          accumulated_depreciation = 0;
          current_book_value = 0;
          created_by = some actor;
          updated_by = some actor;
        })
        db
  let db' : Db = record_event org.pk (some actor.pk) Action.asset_created db.next_key db
  ok (record db' { assets = asset ∷ db.assets; next_key = suc db.next_key }, asset)

-- One submitted value of an update; `describe` says whether a descriptive column differs.
pub data AssetChange : Type 0 where
  set_tag : List ℕ → AssetChange
  set_category : Category → AssetChange
  set_department set_location : Option Ref → AssetChange
  set_acquisition_date set_capitalization_date set_available_date : Option Date → AssetChange
  set_purchase_cost set_residual_value : ℤ → AssetChange
  set_useful_life : Option ℕ → AssetChange
  set_method : Method → AssetChange
  describe : Bool → AssetChange
  unsupported : AssetChange

abbrev pub any_change : (AssetChange → Bool) → List AssetChange → Bool
any_change test [] = false
any_change test (c ∷ changes) = test c || any_change test changes

abbrev pub is_unsupported : AssetChange → Bool
is_unsupported unsupported = true
is_unsupported _ = false

-- A key of ASSET_ACCOUNTING_FIELDS.
abbrev pub is_accounting : AssetChange → Bool
is_accounting (set_acquisition_date d) = true
is_accounting (set_capitalization_date d) = true
is_accounting (set_available_date d) = true
is_accounting (set_purchase_cost z) = true
is_accounting (set_residual_value z) = true
is_accounting (set_useful_life n) = true
is_accounting (set_method m) = true
is_accounting _ = false

-- A department or location other than the asset's.
abbrev pub moves : Asset → AssetChange → Bool
moves a (set_department r) = not (same_key (ref_key a.department) (ref_key r))
moves a (set_location r) = not (same_key (ref_key a.location) (ref_key r))
moves a _ = false

abbrev pub set_field : AssetChange → Asset → Result Asset
set_field (set_tag t) a = ok (record a { asset_tag = strip t })
set_field (set_category c) a = ok (record a { category = c })
set_field (set_department r) a = ok (record a { department = r })
set_field (set_location r) a = ok (record a { location = r })
set_field (set_acquisition_date d) a = ok (record a { acquisition_date = d })
set_field (set_capitalization_date d) a = ok (record a { capitalization_date = d })
set_field (set_available_date d) a = ok (record a { available_for_use_date = d })
set_field (set_purchase_cost z) a = cost_column z >>= λ n. ok (record a { purchase_cost = n })
set_field (set_residual_value z) a = cost_column z >>= λ n. ok (record a { residual_value = n })
set_field (set_useful_life n) a = ok (record a { useful_life_months = n })
set_field (set_method m) a = ok (record a { depreciation_method = m })
set_field (describe d) a = ok a
set_field unsupported a = ok a

unfoldable pub set_fields : List AssetChange → Asset → Result Asset
set_fields [] a = ok a
set_fields (c ∷ changes) a = set_field c a >>= set_fields changes

abbrev method_number : Method → ℕ
method_number slm = 0
method_number rbm = 1
method_number uop = 2
method_number syd = 3

abbrev same_optional_date : Option Date → Option Date → Bool
same_optional_date none none = true
same_optional_date (some d) (some e) = same_date d e
same_optional_date _ _ = false

-- `old_value != new_value` of `_capture_changes`; related rows are compared by their keys.
abbrev pub differs : Asset → AssetChange → Bool
differs a (set_tag t) = not (same_text a.asset_tag (strip t))
differs a (set_category c) = not (a.category.pk == c.pk)
differs a (set_department r) = not (same_key (ref_key a.department) (ref_key r))
differs a (set_location r) = not (same_key (ref_key a.location) (ref_key r))
differs a (set_acquisition_date d) = not (same_optional_date a.acquisition_date d)
differs a (set_capitalization_date d) = not (same_optional_date a.capitalization_date d)
differs a (set_available_date d) = not (same_optional_date a.available_for_use_date d)
differs a (set_purchase_cost z) = not (a.purchase_cost == pos_part z && neg_part z == 0)
differs a (set_residual_value z) = not (a.residual_value == pos_part z && neg_part z == 0)
differs a (set_useful_life n) = not (same_key a.useful_life_months n)
differs a (set_method m) = not (method_number a.depreciation_method == method_number m)
differs a (describe d) = d
differs a unsupported = false

-- The writes of an update; without a change nothing is written.
abbrev pub stored_asset : Bool → User → Org → Asset → Db → Db
stored_asset false actor org a db = db
stored_asset true actor org a db =
    let db' : Db = record_event org.pk (some actor.pk) Action.asset_updated a.pk db in
    record db' { assets = save (λ (x : Asset). x.pk) a db.assets }

unfoldable pub update_asset : ℕ → User → List AssetChange → Db → Result (Db × Asset)
update_asset asset_id actor changes db = do
  org ← organization_row actor db
  raise_if (any_change is_unsupported changes) unsupported_field
  asset ← or_raise (find_asset asset_id org.pk db) asset_missing
  raise_if (is_active_asset asset.status && any_change (moves asset) changes) placement_locked
  raise_if (not (is_draft_asset asset.status) && any_change is_accounting changes)
      accounting_basis_locked
  changed ← set_fields changes asset
  raise_if (not (relations_valid org.pk changed.category changed.department changed.location))
      foreign_relation
  updated ← full_clean_asset (record changed { updated_by = some actor }) db
  ok (stored_asset (any_change (differs asset) changes) actor org updated db, updated)
