-- ===== src/Assets/Acquiring.antt =====
-- `create_acquisition` and `update_acquisition` of backend/assets/services/acquisition.py. The
-- descriptive columns (vendor, invoice, reference, notes) are one kind of change.
use assetflow_fixed_asset_ma.Prelude.{
  ℕ, suc, Bool, true, false, not, ◌&&◌, ◌||◌, Option, none, some, List, [], ◌∷◌, ◌==◌,
}
use assetflow_fixed_asset_ma.Prelude.Int.{ℤ}
use assetflow_fixed_asset_ma.Texts.{same_text}
use assetflow_fixed_asset_ma.Calendar.{Date, same_date}
use assetflow_fixed_asset_ma.Result.{
  Result, ok, ◌>>=◌, ◌>>◌, raise_if, or_raise, organization_missing, asset_required,
  unsupported_field, asset_missing, bad_status, acquisition_date_mismatch, acquisition_missing,
  row_invalid,
}
use assetflow_fixed_asset_ma.Table.{find, save}
use assetflow_fixed_asset_ma.Records.{
  Org, User, AcquisitionStatus, Acquisition, Action, Db, record_event, actor_organization,
  find_asset,
}
use assetflow_fixed_asset_ma.Assets.Checks.{
  is_draft_asset, is_draft_acquisition, cost_column, full_clean_acquisition,
}

-- `_actor_organization(actor)`
unfoldable pub organization_row : User → Db → Result Org
organization_row actor db = do
  pk ← actor_organization actor
  or_raise (find (λ (o : Org). o.pk == pk) db.organizations) organization_missing

-- The submitted values of a creation; `unsupported` says that a key is not in ACQUISITION_FIELDS.
pub record AcquisitionData : Type 0 where
  pub asset : Option ℕ
  pub unsupported : Bool
  pub acquisition_date : Option Date
  pub capitalization_date : Option Date
  pub currency : Option (List ℕ)
  pub purchase_price : ℤ
  pub freight_cost : ℤ
  pub installation_cost : ℤ
  pub civil_works_cost : ℤ
  pub other_capitalizable_cost : ℤ

-- `values.setdefault("currency", organization.currency)`
abbrev currency_given : Option (List ℕ) → Org → List ℕ
currency_given none org = org.currency
currency_given (some c) org = c

-- `asset.acquisition_date and values.get("acquisition_date") != asset.acquisition_date`
abbrev pub date_differs : Option Date → Option Date → Bool
date_differs none given = false
date_differs (some d) none = true
date_differs (some d) (some e) = not (same_date e d)

unfoldable pub create_acquisition : User → AcquisitionData → Db → Result (Db × Acquisition)
create_acquisition actor values db = do
  org ← organization_row actor db
  asset_id ← or_raise values.asset asset_required
  raise_if values.unsupported unsupported_field
  asset ← or_raise (find_asset asset_id org.pk db) asset_missing
  raise_if (not (is_draft_asset asset.status)) bad_status
  raise_if (date_differs asset.acquisition_date values.acquisition_date) acquisition_date_mismatch
  date ← or_raise values.acquisition_date row_invalid
  purchase ← cost_column values.purchase_price
  freight ← cost_column values.freight_cost
  installation ← cost_column values.installation_cost
  civil ← cost_column values.civil_works_cost
  other ← cost_column values.other_capitalizable_cost
  acquisition ←
      full_clean_acquisition org asset
        (record {
          pk = db.next_key;
          org = org.pk;
          asset = asset.pk;
          acquisition_date = date;
          capitalization_date = values.capitalization_date;
          currency = currency_given values.currency org;
          purchase_price = purchase;
          freight_cost = freight;
          installation_cost = installation;
          civil_works_cost = civil;
          other_capitalizable_cost = other;
          total_cost = 0;
          status = AcquisitionStatus.draft;
          created_by = some actor;
          updated_by = some actor;
        })
        db
  let db' : Db = record_event org.pk (some actor.pk) Action.acquisition_created db.next_key db
  ok (
    record db' { acquisitions = acquisition ∷ db.acquisitions; next_key = suc db.next_key },
    acquisition,
  )

-- One submitted value of an update; `describe` says whether a descriptive column differs.
pub data AcquisitionChange : Type 0 where
  set_acquisition_date : Date → AcquisitionChange
  set_capitalization_date : Option Date → AcquisitionChange
  set_currency : List ℕ → AcquisitionChange
  set_purchase_price set_freight_cost set_installation_cost : ℤ → AcquisitionChange
  set_civil_works_cost set_other_capitalizable_cost : ℤ → AcquisitionChange
  describe : Bool → AcquisitionChange
  unsupported : AcquisitionChange

abbrev pub has_unsupported : List AcquisitionChange → Bool
has_unsupported [] = false
has_unsupported (unsupported ∷ changes) = true
has_unsupported (c ∷ changes) = has_unsupported changes

abbrev set_value : AcquisitionChange → Acquisition → Result Acquisition
set_value (set_acquisition_date d) q = ok (record q { acquisition_date = d })
set_value (set_capitalization_date d) q = ok (record q { capitalization_date = d })
set_value (set_currency c) q = ok (record q { currency = c })
set_value (set_purchase_price z) q = cost_column z >>= λ n. ok (record q { purchase_price = n })
set_value (set_freight_cost z) q = cost_column z >>= λ n. ok (record q { freight_cost = n })
set_value (set_installation_cost z) q =
    cost_column z >>= λ n. ok (record q { installation_cost = n })
set_value (set_civil_works_cost z) q = cost_column z >>= λ n. ok (record q { civil_works_cost = n })
set_value (set_other_capitalizable_cost z) q =
    cost_column z >>= λ n. ok (record q { other_capitalizable_cost = n })
set_value (describe d) q = ok q
set_value unsupported q = ok q

unfoldable pub set_values : List AcquisitionChange → Acquisition → Result Acquisition
set_values [] q = ok q
set_values (c ∷ changes) q = set_value c q >>= set_values changes

abbrev described : List AcquisitionChange → Bool
described [] = false
described (describe d ∷ changes) = d || described changes
described (c ∷ changes) = described changes

abbrev same_optional : Option Date → Option Date → Bool
same_optional none none = true
same_optional (some a) (some b) = same_date a b
same_optional _ _ = false

-- Whether `_changes` finds any: a descriptive column, or one of the others against its old value.
-- `clean` may also change the currency and the total; the total is compared with them.
unfoldable pub acquisition_changed : List AcquisitionChange → Acquisition → Acquisition → Bool
acquisition_changed changes old new =
    described changes
    || not (
        same_date old.acquisition_date new.acquisition_date
        && same_optional old.capitalization_date new.capitalization_date
        && same_text old.currency new.currency
        && old.purchase_price == new.purchase_price
        && old.freight_cost == new.freight_cost
        && old.installation_cost == new.installation_cost
        && old.civil_works_cost == new.civil_works_cost
        && old.other_capitalizable_cost == new.other_capitalizable_cost
        && old.total_cost == new.total_cost)

unfoldable pub find_acquisition : ℕ → ℕ → Db → Option Acquisition
find_acquisition pk org db = find (λ (q : Acquisition). q.pk == pk && q.org == org) db.acquisitions

-- The writes of an update; without a change nothing is written.
abbrev stored_update : Bool → User → Org → Acquisition → Db → Db
stored_update false actor org q db = db
stored_update true actor org q db =
    let db' : Db = record_event org.pk (some actor.pk) Action.acquisition_updated q.pk db in
    record db' { acquisitions = save (λ (x : Acquisition). x.pk) q db.acquisitions }

unfoldable pub update_acquisition :
    ℕ → User → List AcquisitionChange → Db → Result (Db × Acquisition)
update_acquisition acquisition_id actor changes db = do
  org ← organization_row actor db
  raise_if (has_unsupported changes) unsupported_field
  acquisition ← or_raise (find_acquisition acquisition_id org.pk db) acquisition_missing
  raise_if (not (is_draft_acquisition acquisition.status)) bad_status
  asset ← or_raise (find_asset acquisition.asset org.pk db) asset_missing
  changed ← set_values changes acquisition
  updated ← full_clean_acquisition org asset (record changed { updated_by = some actor }) db
  ok (stored_update (acquisition_changed changes acquisition updated) actor org updated db, updated)
