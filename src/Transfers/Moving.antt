-- ===== src/Transfers/Moving.antt =====
-- Transfers: `request_transfer`, the three decisions on a request and `complete_transfer` of
-- backend/transfers/services.py.
use assetflow_fixed_asset_ma.Prelude.{
  ℕ, suc, Bool, true, false, not, ◌&&◌, ◌||◌, Option, none, some, List, ◌∷◌, ◌==◌,
}
use assetflow_fixed_asset_ma.Result.{
  Result, ok, ◌>>=◌, ◌>>◌, raise_if, or_raise, foreign_relation, same_destination, bad_status,
  transfer_missing, asset_missing, not_movable, stale_source, row_invalid,
}
use assetflow_fixed_asset_ma.Table.{find, save}
use assetflow_fixed_asset_ma.Records.{
  User, Ref, Asset, TransferStatus, Transfer, Action, Db, record_event, actor_organization,
  find_asset,
}
use assetflow_fixed_asset_ma.Transfers.Checks.{
  is_movable, locked_asset, in_org, same_place, transfer_full_clean,
}
use assetflow_fixed_asset_ma.Transfers.Assigning.{Argument, chosen}

abbrev pub new_transfer : ℕ → ℕ → User → Asset → Option Ref → Option Ref → List ℕ → Db → Transfer
new_transfer now org actor asset to_department to_location reason db = record {
  pk = db.next_key;
  org = org;
  asset = asset.pk;
  from_department = asset.department;
  from_location = asset.location;
  to_department = to_department;
  to_location = to_location;
  requested_by = record { pk = actor.pk; org = org };
  approved_by = none;
  completed_by = none;
  rejected_by = none;
  cancelled_by = none;
  requested_at = now;
  approved_at = none;
  completed_at = none;
  rejected_at = none;
  cancelled_at = none;
  status = TransferStatus.requested;
  reason = reason;
}

unfoldable pub request_transfer :
    ℕ → ℕ → User → Argument → Argument → List ℕ → Db → Result (Db × Transfer)
request_transfer now asset_id actor to_department to_location reason db = do
  org ← actor_organization actor
  asset ← locked_asset asset_id org db
  let d = chosen to_department asset.department
  let l = chosen to_location asset.location
  raise_if (not (in_org org d)) foreign_relation
  raise_if (not (in_org org l)) foreign_relation
  raise_if (same_place asset.department d && same_place asset.location l) same_destination
  let transfer : Transfer = new_transfer now org actor asset d l reason db
  raise_if (not (transfer_full_clean asset transfer db)) row_invalid
  let db' : Db = record_event org (some actor.pk) Action.asset_transfer_requested db.next_key db
  ok (record db' { transfers = transfer ∷ db.transfers; next_key = suc db.next_key }, transfer)

unfoldable pub find_transfer : ℕ → ℕ → Db → Option Transfer
find_transfer pk org db = find (λ (t : Transfer). t.pk == pk && t.org == org) db.transfers

-- The three decisions on a requested transfer.
pub data Decision : Type 0 where
  approve reject cancel : Decision

abbrev pub is_requested : TransferStatus → Bool
is_requested TransferStatus.requested = true
is_requested _ = false

abbrev pub is_approved : TransferStatus → Bool
is_approved TransferStatus.approved = true
is_approved _ = false

-- The actor field, the timestamp field and the status that a decision sets.
unfoldable pub decide_transfer : Decision → ℕ → Ref → Transfer → Transfer
decide_transfer approve now by t = record t {
  approved_by = some by;
  approved_at = some now;
  status = TransferStatus.approved;
}
decide_transfer reject now by t = record t {
  rejected_by = some by;
  rejected_at = some now;
  status = TransferStatus.rejected;
}
decide_transfer cancel now by t = record t {
  cancelled_by = some by;
  cancelled_at = some now;
  status = TransferStatus.cancelled;
}

abbrev decision_action : Decision → Action
decision_action approve = Action.asset_transfer_approved
decision_action reject = Action.asset_transfer_rejected
decision_action cancel = Action.asset_transfer_cancelled

-- `_transition_transfer`; the row is looked up together with its asset, in one organization.
unfoldable pub transition_transfer : Decision → ℕ → ℕ → User → Db → Result (Db × Transfer)
transition_transfer decision now transfer_id actor db = do
  org ← actor_organization actor
  transfer ← or_raise (find_transfer transfer_id org db) transfer_missing
  asset ← or_raise (find_asset transfer.asset org db) transfer_missing
  raise_if (not (is_requested transfer.status)) bad_status
  let decided : Transfer =
      decide_transfer decision now (record { pk = actor.pk; org = org }) transfer
  raise_if (not (transfer_full_clean asset decided db)) row_invalid
  let db' : Db = record_event org (some actor.pk) (decision_action decision) transfer.pk db
  ok (record db' { transfers = save (λ (x : Transfer). x.pk) decided db.transfers }, decided)

abbrev pub moved_asset : User → Transfer → Asset → Asset
moved_asset actor t asset = record asset {
  department = t.to_department;
  location = t.to_location;
  updated_by = some actor;
}

abbrev pub completed_transfer : ℕ → Ref → Transfer → Transfer
completed_transfer now by t = record t {
  completed_by = some by;
  completed_at = some now;
  status = TransferStatus.completed;
}

unfoldable pub complete_transfer : ℕ → ℕ → User → Db → Result (Db × Transfer)
complete_transfer now transfer_id actor db = do
  org ← actor_organization actor
  transfer ← or_raise (find_transfer transfer_id org db) transfer_missing
  asset ← or_raise (find_asset transfer.asset org db) asset_missing
  raise_if (not (is_approved transfer.status)) bad_status
  raise_if (not (is_movable asset.status)) not_movable
  raise_if
      (not (same_place asset.department transfer.from_department)
        || not (same_place asset.location transfer.from_location))
      stale_source
  let moved : Asset = moved_asset actor transfer asset
  let done : Transfer = completed_transfer now (record { pk = actor.pk; org = org }) transfer
  raise_if (not (transfer_full_clean moved done db)) row_invalid
  let db' : Db = record_event org (some actor.pk) Action.asset_transfer_completed transfer.pk db
  ok (
    record db' {
      assets = save (λ (x : Asset). x.pk) moved db.assets;
      transfers = save (λ (x : Transfer). x.pk) done db.transfers;
    },
    done,
  )
