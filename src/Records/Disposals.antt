-- ===== src/Records/Disposals.antt =====
-- Disposals: backend/disposals/models.py.
use assetflow_fixed_asset_ma.Prelude.{ℕ, Option, List}
use assetflow_fixed_asset_ma.Prelude.Int.{ℤ}
use assetflow_fixed_asset_ma.Calendar.{Date}
use assetflow_fixed_asset_ma.Records.Organizations.{Ref}

pub data DisposalMethod : Type 0 where
  sale scrap donation write_off transfer_out : DisposalMethod

pub data DisposalStatus : Type 0 where
  draft pending_approval approved rejected cancelled completed : DisposalStatus

pub record Disposal : Type 0 where
  pub pk : ℕ
  pub org : ℕ
  pub asset : ℕ
  pub disposal_date : Date
  pub disposal_method : DisposalMethod
  pub reason : List ℕ
  pub proceeds : ℤ
  pub currency : List ℕ
  pub capitalized_cost_at_disposal : Option ℕ
  pub accumulated_depreciation_at_disposal : Option ℕ
  pub carrying_amount : Option ℤ
  pub gain_or_loss : Option ℤ
  pub status : DisposalStatus
  pub requested_by : Ref
  pub submitted_by : Option Ref
  pub submitted_at : Option ℕ
  pub approved_by : Option Ref
  pub approved_at : Option ℕ
  pub rejected_by : Option Ref
  pub rejected_at : Option ℕ
  pub cancelled_by : Option Ref
  pub cancelled_at : Option ℕ
  pub completed_at : Option ℕ
  pub created_by : Ref
  pub updated_by : Ref
  pub created_at : ℕ
