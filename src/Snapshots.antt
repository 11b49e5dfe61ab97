-- ===== src/Snapshots.antt =====
-- apps/control-plane/src/domain/archive/snapshot.ts: taking a snapshot and holding it. The sweeps of
-- the same file are in Snapshots/Sweeps, `archiveMachine` in Snapshots/Archiving.
pub mod Sweeps
pub mod Archiving
pub mod Cloud
pub mod Archived
pub mod Copies
pub mod Keeping
pub mod Expired
pub mod Expiring
pub mod Spared
pub mod Held
pub mod Missing
mod Examples
use cloudable.Base.{
  ◌&&◌, ℕ, ◌+◌, ◌*◌, String, Bool, true, false, not, ◌||◌, Option, none, some, List, [], ◌∷◌, ◌==◌,
  text_eq, number_eq, Text, trim, Result, ok, err, filter, any, if◌then◌else◌, is_empty, length,
  or_default, map,
}
use cloudable.Setting.{SettingRow, ResolvedSetting, resolve_setting}
use cloudable.Database.{Db}
use cloudable.Archive.{Snapshot, CapturedDisks}
use cloudable.Lifecycle.{
  Machine, VolumeUsage, DiskKind, os, data_disk, CapturedDisk, SnapshotTrigger, SnapshotScope, full,
  shallow, HoldReason, inherited, given, SnapshotRow, LifecyclePayload, snapshot_created,
  legal_hold_set, legal_hold_cleared, LifecycleEvent, system_actor, World, ProvisioningError,
  not_found, provider_error, Provisioning, Provider, ArchiveError, db_error,
  invalid_legal_hold_reason, provisioning_failed, Env, snapshot_at, fetch_snapshot, update_snapshot,
  append_event,
}

abbrev pub day_ms : ℕ
day_ms = 1000 * 60 * 60 * 24

abbrev pub default_retention_days : ℕ
default_retention_days = 30

abbrev pub days_or_default : Option (ResolvedSetting ℕ) → ℕ
days_or_default none = default_retention_days
days_or_default (some r) = r.value

-- A failed read of the settings counts as no settings.
unfoldable pub resolve_retention_days : Env → (org machine : ℕ) → Db → ℕ
resolve_retention_days env org machine db =
    let key : String = "archive.retentionDays" in
    let rows =
      filter (λ (r : SettingRow ℕ). r.key == key && (r.scope_id == org || r.scope_id == machine))
        db.minute_settings in
    days_or_default (
      resolve_setting key (if env.lookup_down then [] else rows)
        (record { org_id = org; template_id = none; machine_id = machine }))

both_used : Option ℕ → Option ℕ → Option ℕ
both_used (some persistent) (some root) = some (persistent + root)
both_used _ _ = none

unfoldable pub measured_used_bytes : VolumeUsage → SnapshotScope → Option ℕ
unfolding both_used
measured_used_bytes usage shallow = usage.persistent
measured_used_bytes usage full = both_used usage.persistent usage.root

abbrev pub is_data : DiskKind → Bool
is_data data_disk = true
is_data os = false

-- Only a copy of one data disk alone is read; `measured` is what its superblock says, if it can be
-- reached.
unfoldable pub measure_from_snapshot : Env → List CapturedDisk → Option ℕ
measure_from_snapshot env (disk ∷ []) = if is_data disk.kind then env.measured else none
measure_from_snapshot env _ = none

unfoldable pub used_bytes_of : Env → VolumeUsage → SnapshotScope → List CapturedDisk → Option ℕ
used_bytes_of env usage scope disks = elim (measured_used_bytes usage scope) [
  | some n ↦ some n
  | none ↦ measure_from_snapshot env disks
]

abbrev pub total_size : List CapturedDisk → ℕ
total_size [] = 0
total_size (d ∷ ds) = d.size_bytes + total_size ds

abbrev pub snapshot_row :
    Env → Machine → SnapshotTrigger → SnapshotScope → ℕ → List CapturedDisk → SnapshotRow
snapshot_row env machine trigger scope days disks = record {
  id = env.new_id;
  org_id = machine.org_id;
  machine_id = machine.id;
  trigger = trigger;
  region = machine.region;
  size_bytes = total_size disks;
  used_bytes = used_bytes_of env machine.volume_usage scope disks;
  scope = scope;
  captured_disks = disks;
  contains_data = not (is_empty disks);
  contains_config = false;
  retention_days = days;
  created_at = env.now;
  expires_at = env.now + days * day_ms;
  legal_hold = machine.legal_hold;
  legal_hold_reason = if machine.legal_hold then some inherited else none;
  expired_at = none;
  data_missing_at = none;
}

-- A row as sub-state.ts reads it.
abbrev pub view_of : SnapshotRow → Snapshot
view_of r = record {
  expired_at = r.expired_at;
  data_missing_at = r.data_missing_at;
  captured_disks = CapturedDisks.disks (length r.captured_disks);
}

abbrev pub snapshot_event : Env → SnapshotRow → LifecyclePayload → LifecycleEvent
snapshot_event env row payload = record {
  org_id = row.org_id;
  machine_id = some row.machine_id;
  correlation_id = env.correlation_id;
  actor = system_actor;
  payload = payload;
}

abbrev pub Outcome : Type 0 → Type 0 → Type 0
Outcome S A = Result ArchiveError A × World S

module _ {S : Type 0} where
  abbrev pub insert_fails : Env → World S → Bool
  insert_fails env w = env.write_down env.new_id || any (snapshot_at env.new_id) w.snapshots

  -- `publishOrDie`: what was written before stays.
  unfoldable pub publish : {A : Type 0} → Env → ℕ → LifecycleEvent → A → World S → Outcome S A
  publish env about event a w =
      if env.publish_down about then (err db_error, w) else (ok a, append_event event w)

-- A machine whose infrastructure is gone has nothing to copy.
unfoldable pub tolerate_not_found :
    Result ProvisioningError (List CapturedDisk) → Result ProvisioningError (List CapturedDisk)
tolerate_not_found (err not_found) = ok []
tolerate_not_found r = r

module _ {S : Type 0} (p : Provisioning S) where
  -- `rollbackCapturedDisks`: a deletion that fails is only logged.
  unfoldable pub rollback_captured_disks : Provider → List CapturedDisk → S → S
  rollback_captured_disks provider [] s = s
  rollback_captured_disks provider (d ∷ ds) s =
      rollback_captured_disks provider ds (p.delete_snapshot_disk provider d.external_id s).1

  unfoldable pub record_snapshot :
      Env
      → Machine
      → SnapshotTrigger
      → SnapshotScope
      → ℕ
      → List CapturedDisk
      → World S
      → Outcome S SnapshotRow
  record_snapshot env machine trigger scope days disks w =
      let row = snapshot_row env machine trigger scope days disks in
      if insert_fails env w
      then (
        err db_error,
        record w { cloud = rollback_captured_disks machine.provider disks w.cloud },
      )
      else publish env row.id
          (snapshot_event env row (snapshot_created trigger row.region row.size_bytes scope)) row
          (record w { snapshots = row ∷ w.snapshots })

  -- The machine is `knownMachine`, or the one that the caller has looked up.
  unfoldable pub create_snapshot :
      Env
      → Machine
      → SnapshotTrigger
      → SnapshotScope
      → (quiesce : Bool) → World S
      → Outcome S SnapshotRow
  create_snapshot env machine trigger scope quiesce w =
      let days = resolve_retention_days env machine.org_id machine.id w.db in
      let (answer, cloud) = p.snapshot machine scope env.new_id quiesce w.cloud in
      let w' = record w { cloud = cloud } in
      elim (tolerate_not_found answer) [
        | ok disks ↦ record_snapshot env machine trigger scope days disks w'
        | err e ↦ (err (provisioning_failed e), w')
      ]

module _ {S : Type 0} where
  -- `setLegalHold` and `clearLegalHold`: what to write, and the event.
  change_hold :
      Env
      → (id org : ℕ) → Bool
      → Option HoldReason
      → LifecyclePayload
      → World S
      → Outcome S SnapshotRow
  change_hold env id org hold reason payload w = elim (fetch_snapshot env id (some org) w) [
    | err e ↦ (err e, w)
    | ok row ↦
        let write =
          λ (r : SnapshotRow). record r { legal_hold = hold; legal_hold_reason = reason } in
        if env.write_down id
        then (err db_error, w)
        else publish env id (snapshot_event env row payload) (write row)
            (update_snapshot write id w)
  ]

  unfoldable pub set_legal_hold : Env → (id org : ℕ) → Text → World S → Outcome S SnapshotRow
  unfolding change_hold
  set_legal_hold env id org reason w =
      if is_empty (trim reason)
      then (err invalid_legal_hold_reason, w)
      else change_hold env id org true (some (given reason)) (legal_hold_set reason) w

  unfoldable pub clear_legal_hold : Env → (id org : ℕ) → Text → World S → Outcome S SnapshotRow
  unfolding change_hold
  clear_legal_hold env id org reason w =
      if is_empty (trim reason)
      then (err invalid_legal_hold_reason, w)
      else change_hold env id org false none (legal_hold_cleared reason) w
