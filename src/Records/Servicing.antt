-- ===== src/Records/Servicing.antt =====
-- Maintenance: backend/maintenance/models.py. Quantities count thousandths, money counts cents.
use assetflow_fixed_asset_ma.Prelude.{ℕ, Bool, true, false, Option, List}
use assetflow_fixed_asset_ma.Calendar.{Date}
use assetflow_fixed_asset_ma.Records.Organizations.{Ref}

pub data MaintenanceType : Type 0 where
  preventive corrective inspection emergency : MaintenanceType

pub data FrequencyUnit : Type 0 where
  days weeks months : FrequencyUnit

pub data WorkOrderPriority : Type 0 where
  low medium high critical : WorkOrderPriority

pub data WorkOrderStatus : Type 0 where
  opened assigned in_progress completed cancelled : WorkOrderStatus

-- `status in (OPEN, ASSIGNED, IN_PROGRESS)`
abbrev pub is_open_work_order : WorkOrderStatus → Bool
is_open_work_order WorkOrderStatus.completed = false
is_open_work_order WorkOrderStatus.cancelled = false
is_open_work_order _ = true

pub data CostType : Type 0 where
  labor parts service other : CostType

pub record MaintenancePlan : Type 0 where
  pub pk : ℕ
  pub org : ℕ
  pub asset : ℕ
  pub maintenance_type : MaintenanceType
  pub frequency_value : ℕ
  pub frequency_unit : FrequencyUnit
  pub next_due_date : Date
  pub active : Bool
  pub created_by : Ref

-- The work-order number n stands for the text `WO-` with n in six digits at least.
pub record WorkOrder : Type 0 where
  pub pk : ℕ
  pub org : ℕ
  pub work_order_number : ℕ
  pub asset : ℕ
  pub maintenance_type : MaintenanceType
  pub priority : WorkOrderPriority
  pub status : WorkOrderStatus
  pub description : List ℕ
  pub resolution : List ℕ
  pub requested_by : Ref
  pub assigned_to : Option Ref
  pub due_date : Option Date
  pub opened_at : ℕ
  pub started_at : Option ℕ
  pub completed_at : Option ℕ
  pub cancelled_at : Option ℕ
  pub completion_notes : List ℕ

-- `WorkOrderSequence`: the next number of an organization.
pub record Sequence : Type 0 where
  pub org : ℕ
  pub next_value : ℕ

pub record MaintenanceCost : Type 0 where
  pub pk : ℕ
  pub org : ℕ
  pub work_order : ℕ
  pub cost_type : CostType
  pub quantity : ℕ
  pub unit_cost : ℕ
  pub total_cost : ℕ
  pub created_by : Ref

pub record MaintenanceRecord : Type 0 where
  pub pk : ℕ
  pub org : ℕ
  pub asset : ℕ
  pub work_order : ℕ
  pub maintenance_date : Date
  pub maintenance_type : MaintenanceType
  pub summary : List ℕ
  pub total_cost : ℕ
  pub downtime_minutes : Option ℕ
  pub performed_by : Option Ref

-- The tables of the maintenance models.
pub record Maintenance : Type 0 where
  pub work_orders : List WorkOrder
  pub plans : List MaintenancePlan
  pub sequences : List Sequence
  pub costs : List MaintenanceCost
  pub records : List MaintenanceRecord
