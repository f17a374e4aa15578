-- ===== src/Records/Assets.antt =====
-- The asset master record and its acquisition: backend/assets/models.py.
use assetflow_fixed_asset_ma.Prelude.{ℕ, Bool, true, false, Option, List}
use assetflow_fixed_asset_ma.Calendar.{Date}
use assetflow_fixed_asset_ma.Depreciation.Engine.{Method}
use assetflow_fixed_asset_ma.Records.Organizations.{User, Ref}

pub data AssetStatus : Type 0 where
  draft pending_capitalization active in_maintenance transferred impaired disposed : AssetStatus

-- `status == AssetStatus.ACTIVE`
abbrev pub is_active_asset : AssetStatus → Bool
is_active_asset AssetStatus.active = true
is_active_asset _ = false

pub record Category : Type 0 where
  pub pk : ℕ
  pub org : ℕ
  pub default_useful_life_months : ℕ
  pub default_depreciation_method : Method

-- The money columns count cents; their CHECK constraints keep them from falling below zero.
pub record Asset : Type 0 where
  pub pk : ℕ
  pub org : ℕ
  pub asset_tag : List ℕ
  pub category : Category
  pub department : Option Ref
  pub location : Option Ref
  pub status : AssetStatus
  pub acquisition_date : Option Date
  pub capitalization_date : Option Date
  pub available_for_use_date : Option Date
  pub purchase_cost : ℕ
  pub residual_value : ℕ
  pub useful_life_months : Option ℕ
  pub depreciation_method : Method
  pub accumulated_depreciation : ℕ
  pub current_book_value : ℕ
  pub created_by : Option User
  pub updated_by : Option User

pub data AcquisitionStatus : Type 0 where
  draft capitalized : AcquisitionStatus

pub record Acquisition : Type 0 where
  pub pk : ℕ
  pub org : ℕ
  pub asset : ℕ
  pub acquisition_date : Date
  pub capitalization_date : Option Date
  pub currency : List ℕ
  pub purchase_price : ℕ
  pub freight_cost : ℕ
  pub installation_cost : ℕ
  pub civil_works_cost : ℕ
  pub other_capitalizable_cost : ℕ
  pub total_cost : ℕ
  pub status : AcquisitionStatus
  pub created_by : Option User
  pub updated_by : Option User
