-- ===== src/Restore/Approved.antt =====
-- An approved restore is carried out by the next resume.
use cloudable.Base.{ℕ, ◌≡◌, true, false, Option, none, some, arith, ok, find, number_eq}
use cloudable.Audit.{approved}
use cloudable.Approval.{ApprovalResult}
use cloudable.Approval.Decide.{status}
use cloudable.Lifecycle.{
  Machine, CapturedDisk, SnapshotRow, RestoreRequest, World, Provisioning, machine_at, snapshot_at,
  scoped_machine, scoped_snapshot, fetch_machine, fetch_snapshot,
}
use cloudable.Restore.{
  MachineService, RestoreEnv, record_restore_outcome, perform_restore_onto_machine,
}
use cloudable.Restore.Checks.{data_disk_of}
use cloudable.Restore.Resume.{
  request_at, resumed_result, resume_existing, resume_target_of, complete, resume_snapshot,
  resume_approved, resume_by, resume_request, resume_found, resume_restore,
}

-- A request for a restore onto this machine waits, its approval has been given, and what it names is
-- found in the caller's organisation.
pub record Waiting {S : Type 0} (env : RestoreEnv) (approval org : ℕ) (w : World S) : Type 0 where
  pub row : RestoreRequest
  pub snapshot : SnapshotRow
  pub disk : CapturedDisk
  pub machine : Machine
  pub answer : ApprovalResult
  pub requested : find (request_at approval) w.restore_requests ≡ some row
  pub not_completed : row.completed_at ≡ none
  pub onto_machine : row.for_new_machine ≡ false
  pub names : row.target_machine_id ≡ some machine.id
  pub given : status env.approvals approval org w.db ≡ ok answer
  pub is_approved : answer.row.status ≡ approved
  pub snapshot_found : find (snapshot_at row.snapshot_id) w.snapshots ≡ some snapshot
  pub snapshot_org : snapshot.org_id ≡ org
  pub has_disk : data_disk_of snapshot ≡ some disk
  pub machine_found : find (machine_at machine.id) w.machines ≡ some machine
  pub machine_org : machine.org_id ≡ org

-- The tables and the events answer.
pub record Up (env : RestoreEnv) : Type 0 where
  pub find_up : env.find_down ≡ false
  pub query_up : env.archive.query_down ≡ false
  pub mark_up : env.mark_down ≡ false
  pub publish_up : (id : ℕ) → env.archive.publish_down id ≡ false

module _ {S : Type 0} (p : Provisioning S) (service : MachineService S) (env : RestoreEnv)
    (up : Up env) (approval org : ℕ) (w : World S) (wait : Waiting env approval org w) where
  machine_fetched : fetch_machine env.archive wait.machine.id (some org) w ≡ ok wait.machine
  unfolding fetch_machine scoped_machine
  machine_fetched = ground (arith, up.query_up, wait.machine_found, wait.machine_org)

  snapshot_fetched : fetch_snapshot env.archive wait.row.snapshot_id (some org) w ≡ ok wait.snapshot
  unfolding fetch_snapshot scoped_snapshot
  snapshot_fetched = ground (arith, up.query_up, wait.snapshot_found, wait.snapshot_org)

  abbrev work : Option ℕ × World S
  work = perform_restore_onto_machine p env.archive wait.machine wait.disk w

  targeted : resume_target_of p service env wait.row wait.snapshot wait.disk org w ≡ work
  unfolding resume_target_of resume_existing
  targeted = ground (arith, wait.onto_machine, wait.names, machine_fetched)

  restored_by :
      (ext : Option ℕ)
      → (p.restore_data_disk wait.machine wait.disk.external_id w.cloud).0 ≡ ok ext
      → work.0 ≡ some wait.machine.id
  unfolding perform_restore_onto_machine
  restored_by ext h = ground arith

  restored_cloud : work.1.cloud ≡ (p.restore_data_disk wait.machine wait.disk.external_id w.cloud).1
  unfolding perform_restore_onto_machine record_restore_outcome
  restored_cloud = ground arith

  -- The next resume of a restore onto a machine whose approval has been given carries it out, if the
  -- tables, the events and the provider answer: it replaces the machine's data disk and says so. This
  -- holds whatever state the machine is in by then, whether or not anybody agreed to losing its data,
  -- and whether or not the snapshot has expired or its disks are known to be missing.
  pub resume_restore_carries_out :
      (ext : Option ℕ)
      → (p.restore_data_disk wait.machine wait.disk.external_id w.cloud).0 ≡ ok ext
      → ((resume_restore p service env approval org w).0
          ≡ ok (resumed_result wait.row approval (some wait.machine.id) approved true))
        × ((resume_restore p service env approval org w).1.cloud
            ≡ (p.restore_data_disk wait.machine wait.disk.external_id w.cloud).1)
  unfolding resume_restore resume_found resume_request resume_by resume_approved resume_snapshot
      complete
  resume_restore_carries_out ext h = (
    ground (
      arith,
      up.find_up,
      up.mark_up,
      up.publish_up wait.machine.id,
      wait.requested,
      wait.not_completed,
      wait.given,
      wait.is_approved,
      wait.has_disk,
      snapshot_fetched,
      targeted,
      restored_by ext h,
    ),
    ground (
      arith,
      up.find_up,
      up.mark_up,
      up.publish_up wait.machine.id,
      wait.requested,
      wait.not_completed,
      wait.given,
      wait.is_approved,
      wait.has_disk,
      snapshot_fetched,
      targeted,
      restored_by ext h,
      restored_cloud,
    ),
  )
