-- ===== src/Audit.antt =====
-- The enumerations of the approval and elevation tables (packages/schema/src/tables/approval.ts,
-- elevation.ts) and the events about them (packages/events/src/domains). `EventBus` assigns an
-- event's own id and its recording time when it writes the row, so neither is part of an event here.
use cloudable.Base.{ℕ, String, Option, List, Text}

pub data ActionType : Type 0 where
  snapshot_restore break_glass admin_access offboarding package_install : ActionType
  approval_settings_change : ActionType

pub data ApprovalMode : Type 0 where
  none single dual : ApprovalMode

pub data ApprovalStatus : Type 0 where
  pending approved rejected expired : ApprovalStatus

pub data ElevationLevel : Type 0 where
  file_recovery shell : ElevationLevel

pub data Actor : Type 0 where
  person : ℕ → Actor
  system : String → Actor

pub data Payload : Type 0 where
  approval_requested : ActionType → (action_ref : ℕ) → (reason : Text) → ApprovalMode → Payload
  approval_granted : (approver_ids : List ℕ) → ActionType → Payload
  approval_denied : (approver_ids : List ℕ) → ActionType → (reason : Text) → Payload
  approval_expired : ActionType → Payload
  elevation_requested : ElevationLevel → (reason : Text) → (approval_id : ℕ) → Payload
  elevation_granted : ElevationLevel → (expires_at : ℕ) → (approval_id : ℕ) → Payload
  elevation_expired : ElevationLevel → Payload

pub record Event : Type 0 where
  pub occurred_at : ℕ
  pub org_id : ℕ
  pub actor : Actor
  pub machine_id : Option ℕ
  pub correlation_id : ℕ
  pub payload : Payload

-- `APPROVAL_MODE_RANK`.
abbrev pub mode_rank : ApprovalMode → ℕ
mode_rank none = 0
mode_rank single = 1
mode_rank dual = 2
