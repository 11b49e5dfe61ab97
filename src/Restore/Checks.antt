-- ===== src/Restore/Checks.antt =====
-- `restoreSnapshot`: the checks before an approval is asked for, the gate, and the restore.
use cloudable.Base.{
  or_default, is_some, ℕ, Bool, true, false, not, ◌||◌, String, Option, none, some, ◌∷◌, ◌==◌,
  number_eq, text_eq, Result, ok, err, ◌>>=◌, ◌>>◌, any, find, if◌then◌else◌,
}
use cloudable.Audit.{ApprovalStatus, pending, approved, rejected, expired}
use cloudable.Database.{ApprovalRow}
use cloudable.Approval.{request}
use cloudable.Archive.{
  RestoreMode, data_only, full, SnapshotSubState, get_snapshot_sub_state, captured_nothing,
}
use cloudable.Lifecycle.{
  Machine, MachineState, provisioning, archived_expired, Provider, azure, CapturedDisk, SnapshotRow,
  RestoreRequest, World, Provisioning, ArchiveError, Env, fetch_machine, fetch_snapshot,
  append_event,
}
use cloudable.Snapshots.{is_data, view_of}
use cloudable.Snapshots.Archiving.{is_archived}
use cloudable.Restore.{
  RestoreTarget, new_machine, existing_machine, RestoreSnapshotInput, RestoreSnapshotResult,
  RestoreError, archive_error, restore_mode_unsupported, snapshot_empty, snapshot_expired,
  snapshot_data_missing, full_restore_not_acknowledged, restore_source_incompatible,
  restore_target_not_confirmed, approval_request_failed, restore_not_approved, restore_failed,
  db_failed, MachineService, NewMachine, RestoreEnv, request_for, target_id, is_new, owner_of,
  name_of, confirms, restored_event, perform_restore_onto_machine, perform_restore_into_new_machine,
}

-- What the checks hand on.
pub record Checked : Type 0 where
  pub snapshot : SnapshotRow
  pub source : Machine
  pub target : Option Machine
  pub disk : CapturedDisk

abbrev pub guard : Bool → RestoreError → Result RestoreError (Unit {0})
guard true e = ok tt
guard false e = err e

abbrev pub lift : {A : Type 0} → Result ArchiveError A → Result RestoreError A
lift (ok a) = ok a
lift (err e) = err (archive_error e)

abbrev pub is_data_only : RestoreMode → Bool
is_data_only data_only = true
is_data_only _ = false

abbrev pub is_full : RestoreMode → Bool
is_full full = true
is_full _ = false

abbrev pub is_expired : SnapshotSubState → Bool
is_expired SnapshotSubState.expired = true
is_expired _ = false

abbrev pub is_data_missing : SnapshotSubState → Bool
is_data_missing SnapshotSubState.data_missing = true
is_data_missing _ = false

abbrev pub is_azure : Provider → Bool
is_azure azure = true
is_azure _ = false

abbrev pub is_archived_expired : MachineState → Bool
is_archived_expired archived_expired = true
is_archived_expired _ = false

abbrev pub is_provisioning : MachineState → Bool
is_provisioning provisioning = true
is_provisioning _ = false

-- Both regions are known, and they differ.
abbrev pub regions_differ : Option String → Option String → Bool
regions_differ (some a) (some b) = not (a == b)
regions_differ _ _ = false

unfoldable pub data_disk_of : SnapshotRow → Option CapturedDisk
data_disk_of s = find (λ d. is_data d.kind) s.captured_disks

abbrev pub require_data_disk : Option CapturedDisk → Result RestoreError CapturedDisk
require_data_disk none = err restore_source_incompatible
require_data_disk (some d) = ok d

unfoldable pub require_existing : Machine → (confirm : Bool) → Result RestoreError (Unit {0})
require_existing m confirm = do
  guard (not (is_archived_expired m.state)) restore_source_incompatible
  guard (not (is_provisioning m.state)) restore_source_incompatible
  guard (is_archived m.state || confirm) restore_target_not_confirmed

abbrev pub machine_or_source : Machine → Option Machine → Machine
machine_or_source source none = source
machine_or_source source (some m) = m

abbrev pub require_target : Option Machine → RestoreTarget → Result RestoreError (Unit {0})
require_target (some m) (existing_machine id confirm) = require_existing m confirm
require_target _ _ = ok tt

unfoldable pub require_restorable_target :
    SnapshotRow → Machine → Option Machine → RestoreTarget → Result RestoreError (Unit {0})
unfolding require_existing
require_restorable_target snapshot source target wanted = do
  let machine = machine_or_source source target
  guard (is_azure machine.provider) restore_source_incompatible
  guard (not (regions_differ snapshot.region machine.region)) restore_source_incompatible
  require_target target wanted

module _ {S : Type 0} where
  unfoldable pub fetch_target :
      Env → ℕ → RestoreTarget → World S → Result RestoreError (Option Machine)
  fetch_target env org (new_machine owner name) w = ok none
  fetch_target env org (existing_machine id confirm) w = do
    m ← lift (fetch_machine env id (some org) w)
    ok (some m)

  -- The checks on the snapshot that has been found, in the order of the source.
  unfoldable pub check_found :
      Env → RestoreSnapshotInput → SnapshotRow → World S → Result RestoreError Checked
  unfolding require_restorable_target
  check_found env input snapshot w = do
    guard (is_data_only input.mode) restore_mode_unsupported
    source ← lift (fetch_machine env snapshot.machine_id (some snapshot.org_id) w)
    target ← fetch_target env snapshot.org_id input.target w
    guard (not (captured_nothing (view_of snapshot))) snapshot_empty
    guard (not (is_expired (get_snapshot_sub_state (view_of snapshot)))) snapshot_expired
    guard (not (is_data_missing (get_snapshot_sub_state (view_of snapshot)))) snapshot_data_missing
    guard (not (is_full input.mode) || input.confirm_secret_bindings) full_restore_not_acknowledged
    disk ← require_data_disk (data_disk_of snapshot)
    require_restorable_target snapshot source target input.target
    ok (record { snapshot = snapshot; source = source; target = target; disk = disk })

  unfoldable pub check_restore : Env → RestoreSnapshotInput → World S → Result RestoreError Checked
  check_restore env input w = do
    snapshot ← lift (fetch_snapshot env input.snapshot_id none w)
    check_found env input snapshot w

abbrev pub result_of :
    RestoreSnapshotInput
    → Checked
    → Option ℕ
    → ApprovalRow
    → (restored : Bool) → RestoreSnapshotResult
result_of input c target a restored = record {
  snapshot_id = c.snapshot.id;
  target_machine_id = target;
  mode = input.mode;
  approval_id = a.id;
  approval_status = a.status;
  restored = restored;
}

abbrev pub request_row : RestoreSnapshotInput → Checked → ApprovalRow → RestoreRequest
request_row input c a = record {
  approval_id = a.id;
  snapshot_id = c.snapshot.id;
  for_new_machine = is_new input.target;
  target_machine_id = target_id c.target;
  owner_person_id = owner_of input.target;
  new_machine_name = name_of input.target;
  confirm_destroys_data = confirms input.target;
  mode = input.mode;
  confirm_secret_bindings = input.confirm_secret_bindings;
  requested_by_person_id = input.requested_by_person_id;
  reason = input.reason;
  completed_at = none;
}

abbrev pub wanted_machine : Machine → CapturedDisk → (owner : ℕ) → Option String → ℕ → NewMachine
wanted_machine source disk owner name actor = record {
  source = source;
  disk = disk.external_id;
  owner_person_id = owner;
  name = name;
  actor_person_id = actor;
}

abbrev pub Restoring : Type 0 → Type 0
Restoring S = Result RestoreError RestoreSnapshotResult × World S

module _ {S : Type 0} (p : Provisioning S) (service : MachineService S) (env : RestoreEnv) where
  unfoldable pub save_restore_request :
      RestoreSnapshotInput → Checked → ApprovalRow → World S → Restoring S
  save_restore_request input c a w =
      if env.save_down || any (λ r. r.approval_id == a.id) w.restore_requests
      then (err db_failed, w)
      else (
        ok (result_of input c (target_id c.target) a false),
        record w { restore_requests = request_row input c a ∷ w.restore_requests },
      )

  unfoldable pub perform : RestoreSnapshotInput → Checked → World S → Option ℕ × World S
  perform input c w = elim c.target [
    | none ↦
        perform_restore_into_new_machine service env.archive
          (wanted_machine c.source c.disk (or_default (owner_of input.target) 0)
            (name_of input.target) input.requested_by_person_id)
          w
    | some m ↦ perform_restore_onto_machine p env.archive m c.disk w
  ]

  -- The event comes after the provider's work.
  unfoldable pub publish_restored :
      RestoreSnapshotInput → Checked → ApprovalRow → Option ℕ → World S → Restoring S
  publish_restored input c a none w = (err restore_failed, w)
  publish_restored input c a (some id) w =
      if env.archive.publish_down id then (err db_failed, w) else (
        ok (result_of input c (some id) a true),
        append_event
            (restored_event env.archive c.snapshot.org_id id input.requested_by_person_id a.id
              input.mode (not (is_some c.target)))
            w,
      )

  unfoldable pub by_approval :
      RestoreSnapshotInput → Checked → ApprovalRow → ApprovalStatus → World S → Restoring S
  by_approval input c a rejected w = (err restore_not_approved, w)
  by_approval input c a expired w = (err restore_not_approved, w)
  by_approval input c a pending w = save_restore_request input c a w
  by_approval input c a approved w =
      let (done, w') = perform input c w in publish_restored input c a done w'

  unfoldable pub gate : RestoreSnapshotInput → Checked → World S → Restoring S
  gate input c w =
      let (answer, db) = request env.approvals (request_for input c.snapshot c.target) w.db in
      let w' = record w { db = db } in
      elim answer [
        | err e ↦ (err approval_request_failed, w')
        | ok a ↦ by_approval input c a.row a.row.status w'
      ]

  unfoldable pub restore_snapshot : RestoreSnapshotInput → World S → Restoring S
  restore_snapshot input w = elim (check_restore env.archive input w) [
    | err e ↦ (err e, w)
    | ok c ↦ gate input c w
  ]
