-- ===== src/Snapshots/Archiving.antt =====
-- apps/control-plane/src/domain/archive/archive.ts: `archiveMachine`.
use cloudable.Base.{
  ℕ, Bool, true, false, ◌&&◌, Option, none, some, ◌==◌, number_eq, find, Result, ok, err,
  if◌then◌else◌,
}
use cloudable.Audit.{ApprovalStatus, approved, Actor, person}
use cloudable.Database.{ApprovalRow, Db}
use cloudable.Lifecycle.{
  Machine, MachineState, archived_restorable, archived_expired, archive, full, SnapshotRow,
  machine_archived, LifecycleEvent, system_actor, World, ProvisioningError, not_found, Provisioning,
  machine_already_archived, provisioning_failed, db_error, Env, fetch_machine, update_machine,
}
use cloudable.Snapshots.{Outcome, publish, create_snapshot}

abbrev pub is_archived : MachineState → Bool
is_archived archived_restorable = true
is_archived archived_expired = true
is_archived _ = false

abbrev pub is_approved : ApprovalStatus → Bool
is_approved approved = true
is_approved _ = false

abbrev pub usable_actor : Machine → Option ApprovalRow → Actor
usable_actor machine none = system_actor
usable_actor machine (some a) =
    if a.org_id == machine.org_id && is_approved a.status
    then person a.requested_by_person_id
    else system_actor

-- A failed lookup counts as none.
unfoldable pub resolve_archive_actor : Env → Option ℕ → Machine → Db → Actor
resolve_archive_actor env none machine db = system_actor
resolve_archive_actor env (some id) machine db =
    if env.lookup_down
    then system_actor
    else usable_actor machine (find (λ a. a.id == id) db.approvals)

abbrev pub archived_row : ℕ → Machine → Machine
archived_row now m = record m { state = archived_restorable; archived_at = some now }

abbrev pub archived_event : Env → Option ℕ → Machine → SnapshotRow → Db → LifecycleEvent
archived_event env approval machine snapshot db = record {
  org_id = machine.org_id;
  machine_id = some machine.id;
  correlation_id = env.correlation_id;
  actor = resolve_archive_actor env approval machine db;
  payload = machine_archived snapshot.id snapshot.expires_at;
}

-- Infrastructure that is not there has been torn down.
unfoldable pub torn_down : Result ProvisioningError (Unit {0}) → Option ProvisioningError
torn_down (ok done) = none
torn_down (err not_found) = none
torn_down (err e) = some e

module _ {S : Type 0} (p : Provisioning S) where
  unfoldable pub finish_archive :
      Env → Option ℕ → Machine → SnapshotRow → World S → Outcome S (Unit {0})
  finish_archive env approval machine snapshot w =
      if env.write_down machine.id
      then (err db_error, w)
      else publish env machine.id (archived_event env approval machine snapshot w.db) tt
          (update_machine (archived_row env.now) machine.id w)

  -- The teardown comes after the snapshot.
  unfoldable pub tear_down_after :
      Env → Option ℕ → Machine → SnapshotRow → World S → Outcome S (Unit {0})
  unfolding torn_down finish_archive
  tear_down_after env approval machine snapshot w =
      let (answer, cloud) = p.tear_down machine w.cloud in
      let w' = record w { cloud = cloud } in
      elim (torn_down answer) [
        | some e ↦ (err (provisioning_failed e), w')
        | none ↦ finish_archive env approval machine snapshot w'
      ]

  unfoldable pub archive_live : Env → Option ℕ → Machine → World S → Outcome S (Unit {0})
  unfolding tear_down_after
  archive_live env approval machine w =
      let (answer, w') = create_snapshot p env machine archive full true w in
      elim answer [
        | err e ↦ (err e, w')
        | ok snapshot ↦ tear_down_after env approval machine snapshot w'
      ]

  unfoldable pub archive_machine : Env → ℕ → Option ℕ → World S → Outcome S (Unit {0})
  unfolding archive_live
  archive_machine env id approval w = elim (fetch_machine env id none w) [
    | err e ↦ (err e, w)
    | ok machine ↦
        if is_archived machine.state
        then (err machine_already_archived, w)
        else archive_live env approval machine w
  ]
