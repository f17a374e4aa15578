-- ===== src/Maintenance/Plans.antt =====
-- `create_maintenance_plan` and `update_maintenance_plan` of backend/maintenance/services.py with
-- `MaintenancePlan.clean` of backend/maintenance/models.py.
use assetflow_fixed_asset_ma.Prelude.{
  ℕ, suc, ◌^◌, Bool, not, ◌&&◌, Option, some, List, [], ◌∷◌, ltb, ◌==◌,
}
use assetflow_fixed_asset_ma.Calendar.{Date}
use assetflow_fixed_asset_ma.Result.{
  Result, ok, ◌>>=◌, ◌>>◌, raise_if, or_raise, asset_missing, disposed_plan, plan_missing,
  row_invalid,
}
use assetflow_fixed_asset_ma.Table.{find, save}
use assetflow_fixed_asset_ma.Records.{
  User, Asset, MaintenanceType, FrequencyUnit, MaintenancePlan, Action, Db, record_event,
  actor_organization, find_asset,
}
use assetflow_fixed_asset_ma.Maintenance.Checks.{is_disposed}

-- `plan.full_clean()` for a plan of `asset`; the frequency is a positive 32-bit column.
unfoldable pub plan_valid : Asset → MaintenancePlan → Bool
plan_valid asset p =
    asset.org == p.org
    && not (p.active && is_disposed asset.status)
    && ltb 0 p.frequency_value
    && ltb p.frequency_value (2 ^ 31)

abbrev with_plans : List MaintenancePlan → Db → Db
with_plans rows db = record db { maintenance = record db.maintenance { plans = rows } }

unfoldable pub create_maintenance_plan :
    User
    → ℕ
    → MaintenanceType
    → ℕ
    → FrequencyUnit
    → Date
    → Bool
    → Db
    → Result (Db × MaintenancePlan)
create_maintenance_plan actor asset_id type value unit due active db = do
  org ← actor_organization actor
  asset ← or_raise (find_asset asset_id org db) asset_missing
  raise_if (active && is_disposed asset.status) disposed_plan
  let plan : MaintenancePlan = record {
    pk = db.next_key;
    org = org;
    asset = asset.pk;
    maintenance_type = type;
    frequency_value = value;
    frequency_unit = unit;
    next_due_date = due;
    active = active;
    created_by = record { pk = actor.pk; org = org };
  }
  raise_if (not (plan_valid asset plan)) row_invalid
  let db' : Db = record_event org (some actor.pk) Action.maintenance_plan_created plan.pk db
  ok (with_plans (plan ∷ db.maintenance.plans) (record db' { next_key = suc db.next_key }), plan)

-- One submitted value of an update: the keys that the serializer of the view, the only caller, lets
-- through. The service itself sets any attribute that it is given.
pub data PlanChange : Type 0 where
  set_type : MaintenanceType → PlanChange
  set_frequency : ℕ → PlanChange
  set_unit : FrequencyUnit → PlanChange
  set_due : Date → PlanChange
  set_active : Bool → PlanChange
  set_instructions : PlanChange

abbrev set_plan_value : PlanChange → MaintenancePlan → MaintenancePlan
set_plan_value (set_type t) p = record p { maintenance_type = t }
set_plan_value (set_frequency n) p = record p { frequency_value = n }
set_plan_value (set_unit u) p = record p { frequency_unit = u }
set_plan_value (set_due d) p = record p { next_due_date = d }
set_plan_value (set_active b) p = record p { active = b }
set_plan_value set_instructions p = p

unfoldable pub set_plan_values : List PlanChange → MaintenancePlan → MaintenancePlan
set_plan_values [] p = p
set_plan_values (c ∷ changes) p = set_plan_values changes (set_plan_value c p)

-- `plan.asset`
unfoldable pub plan_asset : MaintenancePlan → Db → Option Asset
plan_asset p db = find (λ (a : Asset). a.pk == p.asset) db.assets

unfoldable pub update_maintenance_plan :
    ℕ → User → List PlanChange → Db → Result (Db × MaintenancePlan)
update_maintenance_plan plan_id actor changes db = do
  org ← actor_organization actor
  old ←
      or_raise
        (find (λ (p : MaintenancePlan). p.pk == plan_id && p.org == org) db.maintenance.plans)
        plan_missing
  asset ← or_raise (plan_asset old db) asset_missing
  let plan : MaintenancePlan = set_plan_values changes old
  raise_if (is_disposed asset.status && plan.active) disposed_plan
  raise_if (not (plan_valid asset plan)) row_invalid
  let db' : Db = record_event org (some actor.pk) Action.maintenance_plan_updated plan.pk db
  ok (with_plans (save (λ (p : MaintenancePlan). p.pk) plan db.maintenance.plans) db', plan)
