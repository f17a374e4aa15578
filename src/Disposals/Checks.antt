-- ===== src/Disposals/Checks.antt =====
-- The validation of backend/disposals/models.py: `Disposal.clean`, the CHECK and the unique
-- constraints.
use assetflow_fixed_asset_ma.Prelude.{
  ℕ, Bool, true, false, not, ◌&&◌, ◌||◌, Option, none, some, List, [], ◌∷◌, ◌^◌, leb, ◌==◌, is_set,
  is_unset, same_key,
}
use assetflow_fixed_asset_ma.Prelude.Int.{ℤ, pos, ltb_ℤ, ◌-ℤ◌, eqb_ℤ}
use assetflow_fixed_asset_ma.Texts.{same_text, is_currency_code}
use assetflow_fixed_asset_ma.Calendar.{Date, before}
use assetflow_fixed_asset_ma.Table.{exists}
use assetflow_fixed_asset_ma.Records.{Org, Ref, ref_key, Asset, DisposalStatus, Disposal, Db}

abbrev pub is_draft : DisposalStatus → Bool
is_draft DisposalStatus.draft = true
is_draft _ = false

abbrev pub is_pending : DisposalStatus → Bool
is_pending DisposalStatus.pending_approval = true
is_pending _ = false

abbrev pub is_approved_disposal : DisposalStatus → Bool
is_approved_disposal DisposalStatus.approved = true
is_approved_disposal _ = false

abbrev pub is_completed_disposal : DisposalStatus → Bool
is_completed_disposal DisposalStatus.completed = true
is_completed_disposal _ = false

-- `status in (DRAFT, PENDING_APPROVAL, APPROVED)`
abbrev pub is_open_disposal : DisposalStatus → Bool
is_open_disposal DisposalStatus.draft = true
is_open_disposal DisposalStatus.pending_approval = true
is_open_disposal DisposalStatus.approved = true
is_open_disposal _ = false

abbrev user_in : ℕ → Option Ref → Bool
user_in org none = true
user_in org (some u) = u.org == org

abbrev not_before : Date → Option Date → Bool
not_before d none = true
not_before d (some start) = not (before d start)

abbrev at_most : Option ℕ → Option ℕ → Bool
at_most (some a) (some b) = leb a b
at_most _ _ = true

-- `approved_by_id == requested_by_id`
abbrev pub self_approved : Disposal → Bool
self_approved d = same_key (ref_key d.approved_by) (some d.requested_by.pk)

-- `Disposal.clean` for a disposal of `asset` in `org`.
unfoldable pub disposal_clean : Org → Asset → Disposal → Bool
disposal_clean org asset d =
    asset.org == d.org
    && user_in d.org (some d.requested_by)
    && user_in d.org d.submitted_by
    && user_in d.org d.approved_by
    && user_in d.org d.rejected_by
    && user_in d.org d.cancelled_by
    && user_in d.org (some d.created_by)
    && user_in d.org (some d.updated_by)
    && same_text d.currency org.currency
    && not_before d.disposal_date asset.capitalization_date
    && not (ltb_ℤ d.proceeds (pos 0))
    && not (is_completed_disposal d.status && self_approved d)
    && not (
        is_completed_disposal d.status
        && not (at_most d.accumulated_depreciation_at_disposal d.capitalized_cost_at_disposal))

-- `disposal_separation_of_duties`
abbrev pub separated : DisposalStatus → Disposal → Bool
separated DisposalStatus.approved d = not (self_approved d)
separated DisposalStatus.completed d = not (self_approved d)
separated _ d = true

abbrev approval_blank : Disposal → Bool
approval_blank d = is_unset d.approved_at && is_unset d.approved_by

abbrev rejection_blank : Disposal → Bool
rejection_blank d = is_unset d.rejected_at && is_unset d.rejected_by

abbrev cancellation_blank : Disposal → Bool
cancellation_blank d = is_unset d.cancelled_at && is_unset d.cancelled_by

abbrev snapshot_blank : Disposal → Bool
snapshot_blank d =
    is_unset d.completed_at
    && is_unset d.carrying_amount
    && is_unset d.gain_or_loss
    && is_unset d.capitalized_cost_at_disposal
    && is_unset d.accumulated_depreciation_at_disposal

abbrev snapshot_set : Disposal → Bool
snapshot_set d =
    is_set d.completed_at
    && is_set d.carrying_amount
    && is_set d.gain_or_loss
    && is_set d.capitalized_cost_at_disposal
    && is_set d.accumulated_depreciation_at_disposal

-- `disposal_workflow_consistent`: the columns that each status requires and forbids.
abbrev pub workflow_consistent : DisposalStatus → Disposal → Bool
workflow_consistent DisposalStatus.draft d =
    is_unset d.submitted_at
    && is_unset d.submitted_by
    && approval_blank d
    && rejection_blank d
    && cancellation_blank d
    && snapshot_blank d
workflow_consistent DisposalStatus.pending_approval d =
    is_set d.submitted_at
    && is_set d.submitted_by
    && approval_blank d
    && rejection_blank d
    && cancellation_blank d
    && snapshot_blank d
workflow_consistent DisposalStatus.approved d =
    is_set d.submitted_at
    && is_set d.submitted_by
    && is_set d.approved_at
    && is_set d.approved_by
    && rejection_blank d
    && cancellation_blank d
    && snapshot_blank d
workflow_consistent DisposalStatus.rejected d =
    is_set d.submitted_at
    && is_set d.rejected_at
    && is_set d.rejected_by
    && approval_blank d
    && cancellation_blank d
    && snapshot_blank d
workflow_consistent DisposalStatus.cancelled d =
    is_set d.cancelled_at && is_set d.cancelled_by && rejection_blank d && snapshot_blank d
workflow_consistent DisposalStatus.completed d =
    is_set d.submitted_at
    && is_set d.approved_at
    && is_set d.approved_by
    && snapshot_set d
    && rejection_blank d
    && cancellation_blank d

-- The snapshot columns with their values; a comparison with NULL does not fail a CHECK constraint.
abbrev pub snapshot_values : Option ℕ → Option ℕ → Option ℤ → Option ℤ → ℤ → Bool
snapshot_values (some cost) (some accumulated) (some carrying) (some gain) proceeds =
    not (ltb_ℤ carrying (pos 0))
    && leb accumulated cost
    && eqb_ℤ carrying (pos cost -ℤ pos accumulated)
    && eqb_ℤ gain (proceeds -ℤ carrying)
snapshot_values _ _ _ _ proceeds = true

-- `disposal_snapshot_matches`
abbrev pub snapshot_matches : Disposal → Bool
snapshot_matches d =
    not (is_completed_disposal d.status)
    || snapshot_values d.capitalized_cost_at_disposal d.accumulated_depreciation_at_disposal
        d.carrying_amount d.gain_or_loss d.proceeds

-- The five constraints that order the timestamps.
abbrev pub disposal_times : Disposal → Bool
disposal_times d =
    at_most (some d.created_at) d.submitted_at
    && at_most d.submitted_at d.approved_at
    && at_most d.approved_at d.completed_at
    && at_most d.submitted_at d.rejected_at
    && at_most (some d.created_at) d.cancelled_at

-- `reason` is required; `proceeds` has twenty digits at most.
abbrev disposal_fields : List ℕ → ℤ → Bool
disposal_fields [] proceeds = false
disposal_fields (c ∷ cs) proceeds = ltb_ℤ proceeds (pos (10 ^ 20))

-- The unique constraints: another row of the same asset that is open, or that is completed.
unfoldable pub disposal_elsewhere : (DisposalStatus → Bool) → Disposal → Db → Bool
disposal_elsewhere test d db =
    exists (λ (x : Disposal). x.asset == d.asset && test x.status && not (x.pk == d.pk))
      db.disposals

-- `disposal.full_clean()`
unfoldable pub disposal_full_clean : Org → Asset → Disposal → Db → Bool
disposal_full_clean org asset d db =
    disposal_fields d.reason d.proceeds
    && is_currency_code d.currency
    && disposal_clean org asset d
    && separated d.status d
    && workflow_consistent d.status d
    && snapshot_matches d
    && disposal_times d
    && not (is_open_disposal d.status && disposal_elsewhere is_open_disposal d db)
    && not (is_completed_disposal d.status && disposal_elsewhere is_completed_disposal d db)
