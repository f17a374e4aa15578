-- ===== src/Disposals/Requests.antt =====
-- `create_disposal` and `update_disposal` of backend/disposals/services.py, and the locked lookups
-- that all the services of the file share. A change of proceeds comes with
-- the cents that `money` makes of it.
use assetflow_fixed_asset_ma.Prelude.{
  ℕ, suc, Bool, true, false, not, ◌&&◌, Option, none, some, List, [], ◌∷◌, ◌==◌, is_unset,
}
use assetflow_fixed_asset_ma.Prelude.Int.{ℤ}
use assetflow_fixed_asset_ma.Calendar.{Date}
use assetflow_fixed_asset_ma.Money.{Amount, money}
use assetflow_fixed_asset_ma.Result.{
  Result, ok, ◌>>=◌, ◌>>◌, raise_if, or_raise, organization_missing, disposal_missing,
  asset_missing, asset_not_active, not_capitalized, bad_status, field_not_editable, row_invalid,
}
use assetflow_fixed_asset_ma.Table.{find}
use assetflow_fixed_asset_ma.Records.{
  Org, User, Ref, Asset, is_active_asset, DisposalMethod, DisposalStatus, Disposal, Action, Db,
  record_event, actor_organization, find_asset,
}
use assetflow_fixed_asset_ma.Disposals.Checks.{is_draft, disposal_full_clean}
use assetflow_fixed_asset_ma.Disposals.Saving.{save_disposal}

-- `_organization(actor)`
unfoldable pub own_organization : User → Db → Result Org
own_organization actor db = do
  pk ← actor_organization actor
  or_raise (find (λ (o : Org). o.pk == pk) db.organizations) organization_missing

unfoldable pub find_disposal : ℕ → ℕ → Db → Option Disposal
find_disposal pk org db = find (λ (d : Disposal). d.pk == pk && d.org == org) db.disposals

unfoldable pub locked_disposal : ℕ → ℕ → Db → Result Disposal
locked_disposal disposal_id org db = or_raise (find_disposal disposal_id org db) disposal_missing

unfoldable pub disposable_asset : ℕ → ℕ → Db → Result Asset
disposable_asset asset_id org db = do
  asset ← or_raise (find_asset asset_id org db) asset_missing
  raise_if (not (is_active_asset asset.status)) asset_not_active
  raise_if (is_unset asset.capitalization_date) not_capitalized
  ok asset

-- The actor as a referenced user of their organization.
abbrev pub actor_ref : User → Org → Ref
actor_ref actor org = record { pk = actor.pk; org = org.pk }

-- `currency or organization.currency`
abbrev currency_or : Option (List ℕ) → Org → List ℕ
currency_or none org = org.currency
currency_or (some []) org = org.currency
currency_or (some (c ∷ cs)) org = c ∷ cs

abbrev pub new_disposal :
    ℕ → Org → User → Asset → Date → DisposalMethod → List ℕ → ℤ → Option (List ℕ) → Db → Disposal
new_disposal now org actor asset date method reason proceeds currency db = record {
  pk = db.next_key;
  org = org.pk;
  asset = asset.pk;
  disposal_date = date;
  disposal_method = method;
  reason = reason;
  proceeds = proceeds;
  currency = currency_or currency org;
  capitalized_cost_at_disposal = none;
  accumulated_depreciation_at_disposal = none;
  carrying_amount = none;
  gain_or_loss = none;
  status = DisposalStatus.draft;
  requested_by = actor_ref actor org;
  submitted_by = none;
  submitted_at = none;
  approved_by = none;
  approved_at = none;
  rejected_by = none;
  rejected_at = none;
  cancelled_by = none;
  cancelled_at = none;
  completed_at = none;
  created_by = actor_ref actor org;
  updated_by = actor_ref actor org;
  created_at = now;
}

unfoldable pub create_disposal :
    ℕ
    → User
    → ℕ
    → Date
    → DisposalMethod
    → List ℕ
    → Amount
    → Option (List ℕ)
    → Db
    → Result (Db × Disposal)
create_disposal now actor asset_id date method reason proceeds currency db = do
  org ← own_organization actor db
  asset ← disposable_asset asset_id org.pk db
  cents ← money proceeds
  let disposal : Disposal = new_disposal now org actor asset date method reason cents currency db
  raise_if (not (disposal_full_clean org asset disposal db)) row_invalid
  let db' : Db = record_event org.pk (some actor.pk) Action.disposal_created db.next_key db
  ok (record db' { disposals = disposal ∷ db.disposals; next_key = suc db.next_key }, disposal)

-- One item of the `changes` dictionary; `other_field` is a key that is not in `allowed`.
pub data Change : Type 0 where
  change_date : Date → Change
  change_method : DisposalMethod → Change
  change_reason : List ℕ → Change
  change_proceeds : ℤ → Change
  change_currency : List ℕ → Change
  other_field : Change

abbrev pub has_other : List Change → Bool
has_other [] = false
has_other (other_field ∷ changes) = true
has_other (c ∷ changes) = has_other changes

abbrev change_field : Change → Disposal → Disposal
change_field (change_date x) d = record d { disposal_date = x }
change_field (change_method x) d = record d { disposal_method = x }
change_field (change_reason x) d = record d { reason = x }
change_field (change_proceeds x) d = record d { proceeds = x }
change_field (change_currency x) d = record d { currency = x }
change_field other_field d = d

unfoldable pub change_fields : List Change → Disposal → Disposal
change_fields [] d = d
change_fields (c ∷ changes) d = change_fields changes (change_field c d)

abbrev pub updated_disposal : Ref → List Change → Disposal → Disposal
updated_disposal by changes d =
    let changed = change_fields changes d in record changed { updated_by = by }

unfoldable pub update_disposal : ℕ → User → List Change → Db → Result (Db × Disposal)
update_disposal disposal_id actor changes db = do
  org ← own_organization actor db
  disposal ← locked_disposal disposal_id org.pk db
  asset ← disposable_asset disposal.asset org.pk db
  raise_if (not (is_draft disposal.status)) bad_status
  raise_if (has_other changes) field_not_editable
  let updated : Disposal = updated_disposal (actor_ref actor org) changes disposal
  raise_if (not (disposal_full_clean org asset updated db)) row_invalid
  rows ← save_disposal updated db.disposals
  let db' : Db = record_event org.pk (some actor.pk) Action.disposal_updated disposal.pk db
  ok (record db' { disposals = rows }, updated)
