-- ===== src/Restore.antt =====
-- apps/control-plane/src/domain/archive/restore.ts, with perform-restore.ts and the restore requests
-- of queries.ts. `MachineService.create` is the argument `service`; the malware protection that a
-- restored machine is handed is left out.
pub mod Checks
pub mod Resume
pub mod Refused
pub mod Quiet
pub mod PutBack
pub mod Gate
pub mod Evident
pub mod Resumed
pub mod Approved
mod Examples
use cloudable.Base.{
  ◌&&◌, ℕ, Bool, true, false, not, ◌||◌, String, Option, none, some, List, [], ◌∷◌, ◌++◌, ◌==◌,
  number_eq, Text, codes, Result, ok, err, any, find, if◌then◌else◌, update_where,
}
use cloudable.Audit.{
  ApprovalMode, ApprovalStatus, pending, approved, rejected, expired, snapshot_restore, person,
  mode_rank,
}
use cloudable.Database.{ApprovalRow, Db}
use cloudable.Approval
use cloudable.Approval.{ApprovalRequest, ApprovalResult, ApprovalError, request}
use cloudable.Archive.{
  RestoreMode, data_only, config, full, RestoreTargetKind, resolve_restore_approval_floor,
}
use cloudable.Lifecycle.{
  Machine, MachineState, provisioning, error, CapturedDisk, SnapshotRow, RestoreRequest,
  snapshot_restored, LifecycleEvent, World, ProvisioningError, Provisioning, ArchiveError, Env,
  machine_at, update_machine, append_event,
}
use cloudable.Snapshots.Archiving.{is_archived}

pub data RestoreTarget : Type 0 where
  new_machine : (owner_person_id : ℕ) → (name : Option String) → RestoreTarget
  existing_machine : (machine_id : ℕ) → (confirm_destroys_data : Bool) → RestoreTarget

pub record RestoreSnapshotInput : Type 0 where
  pub snapshot_id : ℕ
  pub mode : RestoreMode
  pub requested_by_person_id : ℕ
  pub target : RestoreTarget
  pub reason : Text
  pub confirm_secret_bindings : Bool

pub record RestoreSnapshotResult : Type 0 where
  pub snapshot_id : ℕ
  pub target_machine_id : Option ℕ
  pub mode : RestoreMode
  pub approval_id : ℕ
  pub approval_status : ApprovalStatus
  pub restored : Bool

pub data RestoreError : Type 0 where
  archive_error : ArchiveError → RestoreError
  restore_mode_unsupported snapshot_empty snapshot_expired snapshot_data_missing : RestoreError
  full_restore_not_acknowledged restore_source_incompatible : RestoreError
  restore_target_not_confirmed approval_request_failed restore_not_approved : RestoreError
  restore_failed invalid_restore_approval db_failed : RestoreError

-- What `MachineService.create` is asked for.
pub record NewMachine : Type 0 where
  pub source : Machine
  pub disk : ℕ
  pub owner_person_id : ℕ
  pub name : Option String
  pub actor_person_id : ℕ

-- A creation that fails gives no row; one whose provisioning fails gives a row in state "error".
pub record MachineService (S : Type 0) : Type 0 where
  pub create : NewMachine → S → Option Machine × S

pub record RestoreEnv : Type 0 where
  pub approvals : Approval.Env
  pub archive : Env
  pub find_down : Bool
  pub save_down : Bool
  pub mark_down : Bool

abbrev pub mode_word : RestoreMode → String
mode_word data_only = "data"
mode_word config = "config"
mode_word full = "full"

abbrev pub floor_word : ApprovalMode → String
floor_word ApprovalMode.none = "none"
floor_word ApprovalMode.single = "single"
floor_word ApprovalMode.dual = "dual"

unfoldable pub annotated_reason : RestoreMode → ApprovalMode → Text → Text
annotated_reason mode floor reason =
    codes "[snapshot restore | mode="
    ++ (codes (mode_word mode)
        ++ (codes " | approval-floor=" ++ (codes (floor_word floor) ++ (codes "] " ++ reason))))

abbrev pub target_id : Option Machine → Option ℕ
target_id none = none
target_id (some m) = some m.id

unfoldable pub target_kind_of : Option Machine → RestoreTargetKind
target_kind_of none = RestoreTargetKind.new_machine
target_kind_of (some m) =
    if is_archived m.state
    then RestoreTargetKind.archived_machine
    else RestoreTargetKind.live_machine

abbrev pub request_for : RestoreSnapshotInput → SnapshotRow → Option Machine → ApprovalRequest
request_for input snapshot target =
    let floor = resolve_restore_approval_floor input.mode (target_kind_of target) in
    record {
      org_id = snapshot.org_id;
      action_type = snapshot_restore;
      requested_by_person_id = input.requested_by_person_id;
      target_machine_id = target_id target;
      target_person_id = none;
      reason = annotated_reason input.mode floor input.reason;
      payload = none;
      required_mode_floor = some floor;
    }

abbrev pub is_new : RestoreTarget → Bool
is_new (new_machine owner name) = true
is_new (existing_machine id confirm) = false

abbrev pub owner_of : RestoreTarget → Option ℕ
owner_of (new_machine owner name) = some owner
owner_of (existing_machine id confirm) = none

abbrev pub name_of : RestoreTarget → Option String
name_of (new_machine owner name) = name
name_of (existing_machine id confirm) = none

abbrev pub confirms : RestoreTarget → Bool
confirms (new_machine owner name) = false
confirms (existing_machine id confirm) = confirm

abbrev pub restored_event :
    Env → (org machine requested_by approval : ℕ) → RestoreMode → (created : Bool) → LifecycleEvent
restored_event env org machine requested_by approval mode created = record {
  org_id = org;
  machine_id = some machine;
  correlation_id = env.correlation_id;
  actor = person requested_by;
  payload = snapshot_restored mode machine approval created;
}

abbrev pub failed_row : Machine → Machine
failed_row m = record m { state = error; has_last_error = true; external_resource_id = none }

abbrev pub restored_row : Option ℕ → Machine → Machine
restored_row external m = record m {
  state = provisioning;
  has_last_error = false;
  external_resource_id = external;
}

abbrev pub is_error : MachineState → Bool
is_error error = true
is_error _ = false

-- `claimMachineForRestore`, which nothing calls.
abbrev pub is_restorable_onto : MachineState → Bool
is_restorable_onto MachineState.running = true
is_restorable_onto MachineState.stopped = true
is_restorable_onto MachineState.error = true
is_restorable_onto MachineState.archived_restorable = true
is_restorable_onto _ = false

abbrev pub claimed_row : Machine → Machine
claimed_row m = record m { state = provisioning; has_last_error = false; archived_at = none }

module _ {S : Type 0} where
  -- `recordRestoreOutcome`: a write that fails is passed over.
  unfoldable pub record_restore_outcome : Env → (Machine → Machine) → ℕ → World S → World S
  record_restore_outcome env f id w = if env.write_down id then w else update_machine f id w

  unfoldable pub perform_restore_onto_machine :
      Provisioning S → Env → Machine → CapturedDisk → World S → Option ℕ × World S
  unfolding record_restore_outcome
  perform_restore_onto_machine p env machine disk w =
      let (answer, cloud) = p.restore_data_disk machine disk.external_id w.cloud in
      let w' = record w { cloud = cloud } in
      elim answer [
        | err e ↦ (none, record_restore_outcome env failed_row machine.id w')
        | ok external ↦
            (some machine.id, record_restore_outcome env (restored_row external) machine.id w')
      ]

  -- The state of the new row is read back; a lookup that fails counts as no error.
  unfoldable pub perform_restore_into_new_machine :
      MachineService S → Env → NewMachine → World S → Option ℕ × World S
  perform_restore_into_new_machine service env wanted w =
      let (made, cloud) = service.create wanted w.cloud in
      let w' = record w { cloud = cloud } in
      elim made [
        | none ↦ (none, w')
        | some m ↦
            let w'' = record w' { machines = m ∷ w.machines } in
            if not env.lookup_down && is_error m.state then (none, w'') else (some m.id, w'')
      ]

  claim_found : Env → Option Machine → World S → Option MachineState × World S
  claim_found env none w = (none, w)
  claim_found env (some m) w =
      if is_restorable_onto m.state && not (env.write_down m.id)
      then (some m.state, update_machine claimed_row m.id w)
      else (none, w)

  unfoldable pub claim_machine_for_restore : Env → ℕ → World S → Option MachineState × World S
  unfolding claim_found
  claim_machine_for_restore env id w =
      if env.lookup_down then (none, w) else claim_found env (find (machine_at id) w.machines) w
