-- ===== src/Disposals/Saving.antt =====
-- `Disposal.save` of backend/disposals/models.py, which keeps the history of a completed disposal.
use assetflow_fixed_asset_ma.Prelude.{
  ℕ, Bool, true, false, not, ◌&&◌, Option, none, some, List, ◌==◌, same_key,
}
use assetflow_fixed_asset_ma.Prelude.Int.{ℤ, eqb_ℤ}
use assetflow_fixed_asset_ma.Texts.{same_text}
use assetflow_fixed_asset_ma.Calendar.{same_date}
use assetflow_fixed_asset_ma.Result.{Result, ok, ◌>>◌, raise_if, history_immutable}
use assetflow_fixed_asset_ma.Table.{find, save}
use assetflow_fixed_asset_ma.Records.{
  ref_key, DisposalMethod, sale, scrap, donation, write_off, transfer_out, DisposalStatus, Disposal,
}
use assetflow_fixed_asset_ma.Disposals.Checks.{is_completed_disposal}

abbrev method_code : DisposalMethod → ℕ
method_code sale = 0
method_code scrap = 1
method_code donation = 2
method_code write_off = 3
method_code transfer_out = 4

abbrev status_code : DisposalStatus → ℕ
status_code DisposalStatus.draft = 0
status_code DisposalStatus.pending_approval = 1
status_code DisposalStatus.approved = 2
status_code DisposalStatus.rejected = 3
status_code DisposalStatus.cancelled = 4
status_code DisposalStatus.completed = 5

abbrev same_amount : Option ℤ → Option ℤ → Bool
same_amount none none = true
same_amount (some a) (some b) = eqb_ℤ a b
same_amount _ _ = false

-- No concrete field but `id` and `updated_at` differs.
unfoldable pub same_columns : Disposal → Disposal → Bool
same_columns a b =
    (a.org == b.org)
    && (a.asset == b.asset)
    && same_date a.disposal_date b.disposal_date
    && (method_code a.disposal_method == method_code b.disposal_method)
    && same_text a.reason b.reason
    && eqb_ℤ a.proceeds b.proceeds
    && same_text a.currency b.currency
    && same_key a.capitalized_cost_at_disposal b.capitalized_cost_at_disposal
    && same_key a.accumulated_depreciation_at_disposal b.accumulated_depreciation_at_disposal
    && same_amount a.carrying_amount b.carrying_amount
    && same_amount a.gain_or_loss b.gain_or_loss
    && (status_code a.status == status_code b.status)
    && (a.requested_by.pk == b.requested_by.pk)
    && same_key (ref_key a.submitted_by) (ref_key b.submitted_by)
    && same_key a.submitted_at b.submitted_at
    && same_key (ref_key a.approved_by) (ref_key b.approved_by)
    && same_key a.approved_at b.approved_at
    && same_key (ref_key a.rejected_by) (ref_key b.rejected_by)
    && same_key a.rejected_at b.rejected_at
    && same_key (ref_key a.cancelled_by) (ref_key b.cancelled_by)
    && same_key a.cancelled_at b.cancelled_at
    && same_key a.completed_at b.completed_at
    && (a.created_by.pk == b.created_by.pk)
    && (a.updated_by.pk == b.updated_by.pk)
    && (a.created_at == b.created_at)

-- Whether the stored row is a completed disposal that the new row would change.
abbrev pub rewrites_history : Option Disposal → Disposal → Bool
rewrites_history none d = false
rewrites_history (some previous) d =
    is_completed_disposal previous.status && not (same_columns previous d)

-- `disposal.save()` of a row that the table holds.
unfoldable pub save_disposal : Disposal → List Disposal → Result (List Disposal)
save_disposal d rows = do
  raise_if (rewrites_history (find (λ (x : Disposal). x.pk == d.pk) rows) d) history_immutable
  ok (save (λ (x : Disposal). x.pk) d rows)
