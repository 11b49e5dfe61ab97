-- ===== src/Database.antt =====
-- The tables that the approval and elevation services share (packages/schema/src/tables).
-- A table without an `order by` has no order; the newest row stands first.
use cloudable.Base.{ℕ, Bool, Option, List, Text}
use cloudable.Setting.{SettingRow}
use cloudable.Audit.{ActionType, ApprovalMode, ApprovalStatus, ElevationLevel, Event}

pub record ApprovalRow : Type 0 where
  pub id : ℕ
  pub org_id : ℕ
  pub action_type : ActionType
  pub mode : ApprovalMode
  pub status : ApprovalStatus
  pub requested_by_person_id : ℕ
  pub target_machine_id : Option ℕ
  pub target_person_id : Option ℕ
  pub reason : Text
  pub payload : Option Text
  pub required_approvals : ℕ
  pub created_at : ℕ
  pub expires_at : ℕ
  pub decided_at : Option ℕ

pub data DecisionValue : Type 0 where
  approves rejects : DecisionValue

pub record ApprovalDecision : Type 0 where
  pub approval_id : ℕ
  pub person_id : ℕ
  pub decision : DecisionValue

pub data ElevationStatus : Type 0 where
  requested granted expired denied : ElevationStatus

pub record Elevation : Type 0 where
  pub id : ℕ
  pub org_id : ℕ
  pub person_id : ℕ
  pub machine_id : ℕ
  pub level : ElevationLevel
  pub reason : Text
  pub approval_id : Option ℕ
  pub granted_at : Option ℕ
  pub expires_at : Option ℕ
  pub status : ElevationStatus

pub record MachineRecord : Type 0 where
  pub id : ℕ
  pub org_id : ℕ
  pub template_id : Option ℕ
  pub owner_person_id : Option ℕ
  pub name : Text

pub record PersonRecord : Type 0 where
  pub id : ℕ
  pub org_id : ℕ
  pub active : Bool

pub record Notification : Type 0 where
  pub org_id : ℕ
  pub owner_person_id : ℕ
  pub elevation_id : ℕ

-- The values of the settings table that hold modes, and those that hold minutes.
pub record Db : Type 0 where
  pub approvals : List ApprovalRow
  pub decisions : List ApprovalDecision
  pub elevations : List Elevation
  pub notifications : List Notification
  pub machines : List MachineRecord
  pub people : List PersonRecord
  pub mode_settings : List (SettingRow ApprovalMode)
  pub minute_settings : List (SettingRow ℕ)
  pub events : List Event
