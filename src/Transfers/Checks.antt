-- ===== src/Transfers/Checks.antt =====
-- What the custody and transfer services check: the lifecycle states that permit movement, the
-- organizations of related rows, and the model validation of backend/transfers/models.py.
use assetflow_fixed_asset_ma.Prelude.{
  ℕ, Bool, true, false, not, ◌&&◌, Option, none, some, List, [], ◌∷◌, leb, ◌==◌, is_set, is_unset,
  same_key, length,
}
use assetflow_fixed_asset_ma.Result.{
  Result, ok, ◌>>=◌, ◌>>◌, raise_if, or_raise, asset_missing, not_movable,
}
use assetflow_fixed_asset_ma.Table.{exists}
use assetflow_fixed_asset_ma.Records.{
  Ref, ref_key, AssetStatus, Asset, Assignment, TransferStatus, is_open_transfer, Transfer, Db,
  find_asset,
}

-- `asset.status in MOVABLE_STATUSES`
abbrev pub is_movable : AssetStatus → Bool
is_movable AssetStatus.active = true
is_movable AssetStatus.in_maintenance = true
is_movable AssetStatus.transferred = true
is_movable AssetStatus.impaired = true
is_movable _ = false

unfoldable pub locked_asset : ℕ → ℕ → Db → Result Asset
locked_asset asset_id org db = do
  asset ← or_raise (find_asset asset_id org db) asset_missing
  raise_if (not (is_movable asset.status)) not_movable
  ok asset

-- Whether a related row, if there is one, belongs to the organization.
abbrev pub in_org : ℕ → Option Ref → Bool
in_org org none = true
in_org org (some r) = r.org == org

abbrev pub same_place : Option Ref → Option Ref → Bool
same_place a b = same_key (ref_key a) (ref_key b)

-- `returned_at >= assigned_at` where there is a return.
abbrev pub not_earlier : Option ℕ → ℕ → Bool
not_earlier none start = true
not_earlier (some t) start = leb start t

abbrev pub both_or_neither : Bool → Bool → Bool
both_or_neither true b = b
both_or_neither false b = not b

-- `AssetAssignment.clean` for an assignment of `asset`; the two CHECK constraints of the table
-- state its first two tests again.
unfoldable pub assignment_clean : Asset → Assignment → Bool
assignment_clean asset a =
    not_earlier a.returned_at a.assigned_at
    && both_or_neither (is_set a.returned_at) (is_set a.returned_by)
    && asset.org == a.org
    && in_org a.org a.assigned_to
    && in_org a.org a.returned_by
    && in_org a.org (some a.created_by)
    && in_org a.org a.department
    && in_org a.org a.location

-- `AssetTransfer.clean` for a transfer of `asset`.
unfoldable pub transfer_clean : Asset → Transfer → Bool
transfer_clean asset t =
    asset.org == t.org
    && in_org t.org t.from_department
    && in_org t.org t.from_location
    && in_org t.org t.to_department
    && in_org t.org t.to_location
    && in_org t.org (some t.requested_by)
    && in_org t.org t.approved_by
    && in_org t.org t.completed_by
    && in_org t.org t.rejected_by
    && in_org t.org t.cancelled_by
    && not
        (same_place t.from_department t.to_department && same_place t.from_location t.to_location)

abbrev stamped : Option ℕ → Option Ref → Bool
stamped at by = is_set at && is_set by

abbrev unstamped : Option ℕ → Option Ref → Bool
unstamped at by = is_unset at && is_unset by

-- The CHECK constraint `transfer_state_fields_valid`: each status has its timestamps and actors.
abbrev state_fields : TransferStatus → Transfer → Bool
state_fields TransferStatus.requested t =
    unstamped t.approved_at t.approved_by
    && unstamped t.completed_at t.completed_by
    && unstamped t.rejected_at t.rejected_by
    && unstamped t.cancelled_at t.cancelled_by
state_fields TransferStatus.approved t =
    stamped t.approved_at t.approved_by
    && unstamped t.completed_at t.completed_by
    && unstamped t.rejected_at t.rejected_by
    && unstamped t.cancelled_at t.cancelled_by
state_fields TransferStatus.completed t =
    stamped t.approved_at t.approved_by
    && stamped t.completed_at t.completed_by
    && unstamped t.rejected_at t.rejected_by
    && unstamped t.cancelled_at t.cancelled_by
state_fields TransferStatus.rejected t =
    unstamped t.approved_at t.approved_by
    && unstamped t.completed_at t.completed_by
    && stamped t.rejected_at t.rejected_by
    && unstamped t.cancelled_at t.cancelled_by
state_fields TransferStatus.cancelled t =
    unstamped t.approved_at t.approved_by
    && unstamped t.completed_at t.completed_by
    && unstamped t.rejected_at t.rejected_by
    && stamped t.cancelled_at t.cancelled_by

unfoldable pub transfer_state_fields_valid : Transfer → Bool
transfer_state_fields_valid t = state_fields t.status t

-- The four CHECK constraints that no decision precedes the request.
unfoldable pub transfer_times_valid : Transfer → Bool
transfer_times_valid t =
    not_earlier t.approved_at t.requested_at
    && not_earlier t.completed_at t.requested_at
    && not_earlier t.rejected_at t.requested_at
    && not_earlier t.cancelled_at t.requested_at

-- `reason` is required, of 240 characters at most.
abbrev reason_valid : List ℕ → Bool
reason_valid [] = false
reason_valid (c ∷ cs) = leb (length (c ∷ cs)) 240

-- The unique constraint `uniq_open_transfer_asset`: another open transfer of the same asset.
unfoldable pub open_elsewhere : Transfer → Db → Bool
open_elsewhere t db =
    exists (λ (x : Transfer). x.asset == t.asset && is_open_transfer x.status && not (x.pk == t.pk))
      db.transfers

-- `transfer.full_clean()`
unfoldable pub transfer_full_clean : Asset → Transfer → Db → Bool
transfer_full_clean asset t db =
    reason_valid t.reason
    && transfer_clean asset t
    && transfer_state_fields_valid t
    && transfer_times_valid t
    && not (is_open_transfer t.status && open_elsewhere t db)
