-- ===== src/Lifecycle.antt =====
-- The tables, events and ports that archiving, restoring and offboarding of machines share:
-- packages/schema/src/tables/snapshot.ts, machine.ts, restore-request.ts and certificate.ts, the
-- events of packages/events/src/domains/snapshot.ts, and the part of
-- apps/control-plane/src/services/ProvisioningService.ts that they call.
pub mod Samples
use cloudable.Base.{
  ℕ, Bool, true, String, Option, none, some, List, ◌==◌, number_eq, Text, Result, ok, err, find,
  if◌then◌else◌, update_where, ◌++◌, ◌∷◌, [],
}
use cloudable.Audit.{Actor, system}
use cloudable.Database.{Db}
use cloudable.Archive.{RestoreMode}

pub data Provider : Type 0 where
  azure docker fake : Provider

pub data MachineState : Type 0 where
  provisioning running stopped archived_restorable archived_expired error : MachineState

-- What the agent last measured: a part is missing where the JSON has no usable number.
pub record VolumeUsage : Type 0 where
  pub persistent : Option ℕ
  pub root : Option ℕ

-- The columns of the machines table that these parts read and write.
pub record Machine : Type 0 where
  pub id : ℕ
  pub org_id : ℕ
  pub owner_person_id : Option ℕ
  pub provider : Provider
  pub region : Option String
  pub state : MachineState
  pub has_last_error : Bool
  pub external_resource_id : Option ℕ
  pub legal_hold : Bool
  pub volume_usage : VolumeUsage
  pub archived_at : Option ℕ

pub data DiskKind : Type 0 where
  os data_disk : DiskKind

pub record CapturedDisk : Type 0 where
  pub kind : DiskKind
  pub external_id : ℕ
  pub size_bytes : ℕ

pub data SnapshotTrigger : Type 0 where
  archive upgrade manual : SnapshotTrigger

pub data SnapshotScope : Type 0 where
  full shallow : SnapshotScope

pub data HoldReason : Type 0 where
  inherited : HoldReason
  given : Text → HoldReason

pub record SnapshotRow : Type 0 where
  pub id : ℕ
  pub org_id : ℕ
  pub machine_id : ℕ
  pub trigger : SnapshotTrigger
  pub region : Option String
  pub size_bytes : ℕ
  pub used_bytes : Option ℕ
  pub scope : SnapshotScope
  pub captured_disks : List CapturedDisk
  pub contains_data : Bool
  pub contains_config : Bool
  pub retention_days : ℕ
  pub created_at : ℕ
  pub expires_at : ℕ
  pub legal_hold : Bool
  pub legal_hold_reason : Option HoldReason
  pub expired_at : Option ℕ
  pub data_missing_at : Option ℕ

pub record RestoreRequest : Type 0 where
  pub approval_id : ℕ
  pub snapshot_id : ℕ
  pub for_new_machine : Bool
  pub target_machine_id : Option ℕ
  pub owner_person_id : Option ℕ
  pub new_machine_name : Option String
  pub confirm_destroys_data : Bool
  pub mode : RestoreMode
  pub confirm_secret_bindings : Bool
  pub requested_by_person_id : ℕ
  pub reason : Text
  pub completed_at : Option ℕ

pub record Certificate : Type 0 where
  pub id : ℕ
  pub person_id : ℕ
  pub revoked_at : Option ℕ

pub data LifecyclePayload : Type 0 where
  snapshot_created :
      SnapshotTrigger → Option String → (size_bytes : ℕ) → SnapshotScope → LifecyclePayload
  snapshot_restored :
      RestoreMode → (target approval : ℕ) → (created_new_machine : Bool) → LifecyclePayload
  snapshot_expired : (created_at retention_days : ℕ) → (deleted : List ℕ) → LifecyclePayload
  snapshot_data_missing : (missing : List ℕ) → (recorded_disks expires_at : ℕ) → LifecyclePayload
  legal_hold_set legal_hold_cleared : Text → LifecyclePayload
  machine_archived : (snapshot retention_expires_at : ℕ) → LifecyclePayload
  machine_stopped : LifecyclePayload
  machine_owner_cleared : (previous_person : ℕ) → LifecyclePayload
  machine_offboarded : (previous_owner approval : ℕ) → LifecyclePayload
  certificate_revoked : (certificate : ℕ) → (reason : Text) → LifecyclePayload

pub record LifecycleEvent : Type 0 where
  pub org_id : ℕ
  pub machine_id : Option ℕ
  pub correlation_id : ℕ
  pub actor : Actor
  pub payload : LifecyclePayload

abbrev pub system_actor : Actor
system_actor = system "system"

-- The tables, and `cloud`, what the providers keep.
pub record World (S : Type 0) : Type 0 where
  pub db : Db
  pub machines : List Machine
  pub snapshots : List SnapshotRow
  pub restore_requests : List RestoreRequest
  pub certificates : List Certificate
  pub events : List LifecycleEvent
  pub cloud : S

pub data ProvisioningError : Type 0 where
  not_found provider_error : ProvisioningError

-- The calls of the port. A call may change what the providers keep, also where it fails.
pub record Provisioning (S : Type 0) : Type 0 where
  pub snapshot :
      Machine
      → SnapshotScope
      → (snapshot_id : ℕ) → (quiesce : Bool) → S
      → Result ProvisioningError (List CapturedDisk) × S
  pub tear_down : Machine → S → Result ProvisioningError (Unit {0}) × S
  pub delete_snapshot_disk : Provider → (disk : ℕ) → S → Result ProvisioningError (Unit {0}) × S
  pub snapshot_disk_exists : Provider → (disk : ℕ) → S → Result ProvisioningError Bool
  pub restore_data_disk : Machine → (disk : ℕ) → S → Result ProvisioningError (Option ℕ) × S

pub data ArchiveError : Type 0 where
  db_error machine_not_found snapshot_not_found machine_already_archived : ArchiveError
  invalid_legal_hold_reason : ArchiveError
  provisioning_failed : ProvisioningError → ArchiveError

-- What the effects of a call read from outside: the clock, generated ids, whether queries fail, and
-- those whose failure counts as nothing found (`lookup_down`), which writes and which publications
-- fail, by the id of the row that a statement writes or an event is about, and what the file system
-- of a copy says it holds.
pub record Env : Type 0 where
  pub now : ℕ
  pub new_id : ℕ
  pub correlation_id : ℕ
  pub query_down : Bool
  pub lookup_down : Bool
  pub write_down : ℕ → Bool
  pub publish_down : ℕ → Bool
  pub measured : Option ℕ

abbrev pub machine_at : ℕ → Machine → Bool
machine_at id m = m.id == id

abbrev pub snapshot_at : ℕ → SnapshotRow → Bool
snapshot_at id r = r.id == id

-- An `orgId` that is not given matches every organisation.
abbrev pub in_org : Option ℕ → ℕ → Bool
in_org none org = true
in_org (some wanted) org = org == wanted

unfoldable pub scoped_machine : Option ℕ → Option Machine → Result ArchiveError Machine
scoped_machine org none = err machine_not_found
scoped_machine org (some m) = if in_org org m.org_id then ok m else err machine_not_found

unfoldable pub scoped_snapshot : Option ℕ → Option SnapshotRow → Result ArchiveError SnapshotRow
scoped_snapshot org none = err snapshot_not_found
scoped_snapshot org (some r) = if in_org org r.org_id then ok r else err snapshot_not_found

module _ {S : Type 0} where
  unfoldable pub fetch_machine : Env → ℕ → Option ℕ → World S → Result ArchiveError Machine
  unfolding scoped_machine
  fetch_machine env id org w =
      if env.query_down then err db_error else scoped_machine org (find (machine_at id) w.machines)

  unfoldable pub fetch_snapshot : Env → ℕ → Option ℕ → World S → Result ArchiveError SnapshotRow
  unfolding scoped_snapshot
  fetch_snapshot env id org w =
      if env.query_down
      then err db_error
      else scoped_snapshot org (find (snapshot_at id) w.snapshots)

  abbrev pub update_machine : (Machine → Machine) → ℕ → World S → World S
  update_machine f id w = record w { machines = update_where (machine_at id) f w.machines }

  abbrev pub update_snapshot : (SnapshotRow → SnapshotRow) → ℕ → World S → World S
  update_snapshot f id w = record w { snapshots = update_where (snapshot_at id) f w.snapshots }

  abbrev pub append_event : LifecycleEvent → World S → World S
  append_event e w = record w { events = w.events ++ e ∷ [] }
