-- ===== src/Disposals/Decisions.antt =====
-- The decisions on a disposal of backend/disposals/services.py: submit, approve, reject, cancel.
use assetflow_fixed_asset_ma.Prelude.{ℕ, not, Option, some, List, [], ◌∷◌, ◌==◌}
use assetflow_fixed_asset_ma.Result.{
  Result, ok, ◌>>=◌, ◌>>◌, raise_if, or_raise, asset_missing, bad_status, self_approval,
  row_invalid,
}
use assetflow_fixed_asset_ma.Table.{find}
use assetflow_fixed_asset_ma.Records.{
  User, Ref, Asset, DisposalStatus, Disposal, Action, Db, record_event,
}
use assetflow_fixed_asset_ma.Disposals.Checks.{
  is_draft, is_pending, is_open_disposal, disposal_full_clean,
}
use assetflow_fixed_asset_ma.Disposals.Saving.{save_disposal}
use assetflow_fixed_asset_ma.Disposals.Requests.{
  own_organization, locked_disposal, disposable_asset, actor_ref,
}

abbrev pub submitted : ℕ → Ref → Disposal → Disposal
submitted now by d = record d {
  status = DisposalStatus.pending_approval;
  submitted_by = some by;
  submitted_at = some now;
  updated_by = by;
}

unfoldable pub submit_disposal : ℕ → ℕ → User → Db → Result (Db × Disposal)
submit_disposal now disposal_id actor db = do
  org ← own_organization actor db
  disposal ← locked_disposal disposal_id org.pk db
  asset ← disposable_asset disposal.asset org.pk db
  raise_if (not (is_draft disposal.status)) bad_status
  let row : Disposal = submitted now (actor_ref actor org) disposal
  raise_if (not (disposal_full_clean org asset row db)) row_invalid
  rows ← save_disposal row db.disposals
  let db' : Db = record_event org.pk (some actor.pk) Action.disposal_submitted disposal.pk db
  ok (record db' { disposals = rows }, row)

abbrev pub approved_by_actor : ℕ → Ref → Disposal → Disposal
approved_by_actor now by d = record d {
  status = DisposalStatus.approved;
  approved_by = some by;
  approved_at = some now;
  updated_by = by;
}

unfoldable pub approve_disposal : ℕ → ℕ → User → Db → Result (Db × Disposal)
approve_disposal now disposal_id actor db = do
  org ← own_organization actor db
  disposal ← locked_disposal disposal_id org.pk db
  asset ← disposable_asset disposal.asset org.pk db
  raise_if (not (is_pending disposal.status)) bad_status
  raise_if (disposal.requested_by.pk == actor.pk) self_approval
  let row : Disposal = approved_by_actor now (actor_ref actor org) disposal
  raise_if (not (disposal_full_clean org asset row db)) row_invalid
  rows ← save_disposal row db.disposals
  let db' : Db = record_event org.pk (some actor.pk) Action.disposal_approved disposal.pk db
  ok (record db' { disposals = rows }, row)

-- `if reason: disposal.reason = reason`
abbrev replaced_reason : List ℕ → List ℕ → List ℕ
replaced_reason [] old = old
replaced_reason (c ∷ cs) old = c ∷ cs

abbrev pub rejected_by_actor : ℕ → Ref → List ℕ → Disposal → Disposal
rejected_by_actor now by reason d = record d {
  status = DisposalStatus.rejected;
  rejected_by = some by;
  rejected_at = some now;
  updated_by = by;
  reason = replaced_reason reason d.reason;
}

-- `disposal.asset`, which the validation of a rejection or a cancellation reads.
unfoldable pub related_asset : ℕ → Db → Option Asset
related_asset pk db = find (λ (a : Asset). a.pk == pk) db.assets

unfoldable pub reject_disposal : ℕ → ℕ → User → List ℕ → Db → Result (Db × Disposal)
reject_disposal now disposal_id actor reason db = do
  org ← own_organization actor db
  disposal ← locked_disposal disposal_id org.pk db
  raise_if (not (is_pending disposal.status)) bad_status
  let row : Disposal = rejected_by_actor now (actor_ref actor org) reason disposal
  asset ← or_raise (related_asset disposal.asset db) asset_missing
  raise_if (not (disposal_full_clean org asset row db)) row_invalid
  rows ← save_disposal row db.disposals
  let db' : Db = record_event org.pk (some actor.pk) Action.disposal_rejected disposal.pk db
  ok (record db' { disposals = rows }, row)

abbrev pub cancelled_by_actor : ℕ → Ref → List ℕ → Disposal → Disposal
cancelled_by_actor now by reason d = record d {
  status = DisposalStatus.cancelled;
  cancelled_by = some by;
  cancelled_at = some now;
  updated_by = by;
  reason = replaced_reason reason d.reason;
}

unfoldable pub cancel_disposal : ℕ → ℕ → User → List ℕ → Db → Result (Db × Disposal)
cancel_disposal now disposal_id actor reason db = do
  org ← own_organization actor db
  disposal ← locked_disposal disposal_id org.pk db
  raise_if (not (is_open_disposal disposal.status)) bad_status
  let row : Disposal = cancelled_by_actor now (actor_ref actor org) reason disposal
  asset ← or_raise (related_asset disposal.asset db) asset_missing
  raise_if (not (disposal_full_clean org asset row db)) row_invalid
  rows ← save_disposal row db.disposals
  let db' : Db = record_event org.pk (some actor.pk) Action.disposal_cancelled disposal.pk db
  ok (record db' { disposals = rows }, row)
