-- ===== src/Disposals/Completion.antt =====
-- `complete_disposal` of backend/disposals/services.py: the derecognition of an asset.
use assetflow_fixed_asset_ma.Prelude.{ℕ, Bool, not, ◌&&◌, ◌||◌, some, ltb, ◌==◌, is_unset}
use assetflow_fixed_asset_ma.Prelude.Int.{ℤ, pos, ◌-ℤ◌, ltb_ℤ, eqb_ℤ}
use assetflow_fixed_asset_ma.Texts.{same_text}
use assetflow_fixed_asset_ma.Calendar.{Date, before}
use assetflow_fixed_asset_ma.Result.{
  Result, ok, ◌>>=◌, ◌>>◌, raise_if, bad_status, self_approval, future_disposal, wrong_currency,
  custody_open, transfer_pending, work_order_open, accounting_inconsistent, carrying_mismatch,
  row_invalid,
}
use assetflow_fixed_asset_ma.Table.{exists, save}
use assetflow_fixed_asset_ma.Records.{
  User, Ref, AssetStatus, Asset, Assignment, is_open_transfer, Transfer, DisposalStatus, Disposal,
  is_open_work_order, WorkOrder, Action, Db, record_event,
}
use assetflow_fixed_asset_ma.Disposals.Checks.{
  is_approved_disposal, self_approved, disposal_full_clean,
}
use assetflow_fixed_asset_ma.Disposals.Saving.{save_disposal}
use assetflow_fixed_asset_ma.Disposals.Requests.{
  own_organization, locked_disposal, disposable_asset, actor_ref,
}

-- The three queries of `_assert_no_open_operations`.
unfoldable pub in_custody : ℕ → Db → Bool
in_custody asset db =
    exists (λ (x : Assignment). x.asset == asset && is_unset x.returned_at) db.assignments

unfoldable pub in_transfer : ℕ → Db → Bool
in_transfer asset db =
    exists (λ (x : Transfer). x.asset == asset && is_open_transfer x.status) db.transfers

unfoldable pub in_repair : ℕ → Db → Bool
in_repair asset db =
    exists (λ (x : WorkOrder). x.asset == asset && is_open_work_order x.status)
      db.maintenance.work_orders

-- `capitalized_cost - accumulated`, which may fall below zero before the checks.
abbrev pub carrying_of : Asset → ℤ
carrying_of asset = pos asset.purchase_cost -ℤ pos asset.accumulated_depreciation

unfoldable pub completed_disposal : ℕ → Ref → Asset → Disposal → Disposal
completed_disposal now by asset d = record d {
  capitalized_cost_at_disposal = some asset.purchase_cost;
  accumulated_depreciation_at_disposal = some asset.accumulated_depreciation;
  carrying_amount = some (carrying_of asset);
  gain_or_loss = some (d.proceeds -ℤ carrying_of asset);
  status = DisposalStatus.completed;
  completed_at = some now;
  updated_by = by;
}

unfoldable pub derecognized_asset : User → Asset → Asset
derecognized_asset actor asset = record asset {
  status = AssetStatus.disposed;
  updated_by = some actor;
}

-- `today` is `timezone.localdate()`.
unfoldable pub complete_disposal : ℕ → Date → ℕ → User → Db → Result (Db × Disposal)
complete_disposal now today disposal_id actor db = do
  org ← own_organization actor db
  disposal ← locked_disposal disposal_id org.pk db
  asset ← disposable_asset disposal.asset org.pk db
  raise_if (not (is_approved_disposal disposal.status)) bad_status
  raise_if (self_approved disposal) self_approval
  raise_if (before today disposal.disposal_date) future_disposal
  raise_if (not (same_text disposal.currency org.currency)) wrong_currency
  raise_if (in_custody asset.pk db) custody_open
  raise_if (in_transfer asset.pk db) transfer_pending
  raise_if (in_repair asset.pk db) work_order_open
  raise_if (ltb asset.purchase_cost asset.accumulated_depreciation) accounting_inconsistent
  raise_if
      (ltb_ℤ (carrying_of asset) (pos asset.residual_value)
        || not (eqb_ℤ (carrying_of asset) (pos asset.current_book_value)))
      carrying_mismatch
  let row : Disposal = completed_disposal now (actor_ref actor org) asset disposal
  raise_if (not (disposal_full_clean org asset row db)) row_invalid
  rows ← save_disposal row db.disposals
  let gone : Asset = derecognized_asset actor asset
  let db' : Db = record_event org.pk (some actor.pk) Action.asset_derecognized asset.pk db
  let db'' : Db = record_event org.pk (some actor.pk) Action.disposal_completed disposal.pk db'
  ok (record db'' { assets = save (λ (x : Asset). x.pk) gone db.assets; disposals = rows }, row)
