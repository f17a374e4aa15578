-- ===== src/Records/Custody.antt =====
-- Custody episodes and transfers: backend/transfers/models.py.
use assetflow_fixed_asset_ma.Prelude.{ℕ, Bool, true, false, Option, List}
use assetflow_fixed_asset_ma.Records.Organizations.{Ref}

pub record Assignment : Type 0 where
  pub pk : ℕ
  pub org : ℕ
  pub asset : ℕ
  pub assigned_to : Option Ref
  pub department : Option Ref
  pub location : Option Ref
  pub assigned_at : ℕ
  pub returned_at : Option ℕ
  pub returned_by : Option Ref
  pub created_by : Ref

pub data TransferStatus : Type 0 where
  requested approved completed rejected cancelled : TransferStatus

-- `status in (TransferStatus.REQUESTED, TransferStatus.APPROVED)`
abbrev pub is_open_transfer : TransferStatus → Bool
is_open_transfer TransferStatus.requested = true
is_open_transfer TransferStatus.approved = true
is_open_transfer _ = false

pub record Transfer : Type 0 where
  pub pk : ℕ
  pub org : ℕ
  pub asset : ℕ
  pub from_department : Option Ref
  pub from_location : Option Ref
  pub to_department : Option Ref
  pub to_location : Option Ref
  pub requested_by : Ref
  pub approved_by : Option Ref
  pub completed_by : Option Ref
  pub rejected_by : Option Ref
  pub cancelled_by : Option Ref
  pub requested_at : ℕ
  pub approved_at : Option ℕ
  pub completed_at : Option ℕ
  pub rejected_at : Option ℕ
  pub cancelled_at : Option ℕ
  pub status : TransferStatus
  pub reason : List ℕ
