-- ===== src/Records/Store.antt =====
-- The database: a table for each model, the audit log, newest event first, and the next fresh key.
use assetflow_fixed_asset_ma.Prelude.{ℕ, Option, none, some, List, ◌∷◌, ◌==◌, ◌&&◌}
use assetflow_fixed_asset_ma.Result.{Result, or_raise, organization_required}
use assetflow_fixed_asset_ma.Table.{find}
use assetflow_fixed_asset_ma.Records.Organizations.{Org, User}
use assetflow_fixed_asset_ma.Records.Assets.{Asset, Acquisition}
use assetflow_fixed_asset_ma.Records.Ledgers.{Period, Schedule, Entry}
use assetflow_fixed_asset_ma.Records.Custody.{Assignment, Transfer}
use assetflow_fixed_asset_ma.Records.Disposals.{Disposal}
use assetflow_fixed_asset_ma.Records.Servicing.{Maintenance}

-- The audited actions.
pub data Action : Type 0 where
  asset_created asset_updated acquisition_created acquisition_updated asset_capitalized : Action
  acquisition_capitalized accounting_period_created accounting_period_closed : Action
  depreciation_schedule_created depreciation_posted asset_assigned : Action
  asset_assignment_returned asset_transfer_requested asset_transfer_approved : Action
  asset_transfer_rejected asset_transfer_cancelled asset_transfer_completed : Action
  disposal_created disposal_updated disposal_submitted disposal_approved : Action
  disposal_rejected disposal_cancelled asset_derecognized disposal_completed : Action
  maintenance_plan_created maintenance_plan_updated work_order_created work_order_assigned : Action
  work_order_started asset_entered_maintenance asset_returned_from_maintenance : Action
  work_order_completed maintenance_record_created work_order_cancelled : Action
  maintenance_cost_created depreciation_run_scheduled depreciation_run_started : Action
  depreciation_run_completed depreciation_run_failed : Action

-- An `AuditLog` row: who did what to which row.
pub record Event : Type 0 where
  pub org : ℕ
  pub user : Option ℕ
  pub action : Action
  pub entity : ℕ

pub record Db : Type 0 where
  pub organizations : List Org
  pub assets : List Asset
  pub acquisitions : List Acquisition
  pub periods : List Period
  pub schedules : List Schedule
  pub entries : List Entry
  pub assignments : List Assignment
  pub transfers : List Transfer
  pub disposals : List Disposal
  pub maintenance : Maintenance
  pub log : List Event
  pub next_key : ℕ

-- `record_event(...)`
abbrev pub record_event : ℕ → Option ℕ → Action → ℕ → Db → Db
record_event org user action entity db = record db {
  log = record { org = org; user = user; action = action; entity = entity } ∷ db.log;
}

abbrev pub user_key : Option User → Option ℕ
user_key none = none
user_key (some u) = some u.pk

-- `_organization(actor)` of the services that take an authenticated user only.
unfoldable pub actor_organization : User → Result ℕ
actor_organization u = or_raise u.org organization_required

-- `Asset.objects.get(pk=pk, organization=org)`
unfoldable pub find_asset : ℕ → ℕ → Db → Option Asset
find_asset pk org db = find (λ (a : Asset). a.pk == pk && a.org == org) db.assets
