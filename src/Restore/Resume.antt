-- ===== src/Restore/Resume.antt =====
-- `resumeRestore`: a restore that waited for its approval.
use cloudable.Base.{
  ℕ, Bool, true, false, Option, none, some, ◌==◌, number_eq, ok, err, find, if◌then◌else◌, is_some,
  update_where,
}
use cloudable.Audit.{ApprovalStatus, pending, approved, rejected, expired}
use cloudable.Approval.Decide.{status}
use cloudable.Lifecycle.{
  CapturedDisk, SnapshotRow, RestoreRequest, World, Provisioning, fetch_machine, fetch_snapshot,
  append_event,
}
use cloudable.Restore.{
  RestoreSnapshotResult, restore_not_approved, restore_failed, invalid_restore_approval, db_failed,
  MachineService, RestoreEnv, restored_event, perform_restore_onto_machine,
  perform_restore_into_new_machine,
}
use cloudable.Restore.Checks.{data_disk_of, wanted_machine, Restoring}

abbrev pub request_at : ℕ → RestoreRequest → Bool
request_at id r = r.approval_id == id

abbrev pub resumed_result :
    RestoreRequest → (approval : ℕ) → Option ℕ → ApprovalStatus → Bool → RestoreSnapshotResult
resumed_result r approval target status restored = record {
  snapshot_id = r.snapshot_id;
  target_machine_id = target;
  mode = r.mode;
  approval_id = approval;
  approval_status = status;
  restored = restored;
}

abbrev pub completed_row : ℕ → ℕ → RestoreRequest → RestoreRequest
completed_row now machine r = record r { completed_at = some now; target_machine_id = some machine }

module _ {S : Type 0} (p : Provisioning S) (service : MachineService S) (env : RestoreEnv) where
  unfoldable pub resume_new :
      RestoreRequest → SnapshotRow → CapturedDisk → ℕ → Option ℕ → World S → Option ℕ × World S
  resume_new r snapshot disk org none w = (none, w)
  resume_new r snapshot disk org (some owner) w =
      elim (fetch_machine env.archive snapshot.machine_id (some org) w) [
        | err e ↦ (none, w)
        | ok source ↦
            perform_restore_into_new_machine service env.archive
              (wanted_machine source disk owner r.new_machine_name r.requested_by_person_id) w
      ]

  unfoldable pub resume_existing : CapturedDisk → ℕ → Option ℕ → World S → Option ℕ × World S
  resume_existing disk org none w = (none, w)
  resume_existing disk org (some target) w = elim (fetch_machine env.archive target (some org) w) [
    | err e ↦ (none, w)
    | ok m ↦ perform_restore_onto_machine p env.archive m disk w
  ]

  unfoldable pub resume_target_of :
      RestoreRequest → SnapshotRow → CapturedDisk → ℕ → World S → Option ℕ × World S
  resume_target_of r snapshot disk org w =
      if r.for_new_machine
      then resume_new r snapshot disk org r.owner_person_id w
      else resume_existing disk org r.target_machine_id w

  -- The event, and then the mark on the request.
  unfoldable pub complete : RestoreRequest → (approval org : ℕ) → Option ℕ → World S → Restoring S
  complete r approval org none w = (err restore_failed, w)
  complete r approval org (some id) w =
      let event =
        restored_event env.archive org id r.requested_by_person_id approval r.mode
          r.for_new_machine in
      if env.archive.publish_down id
      then (err db_failed, w)
      else if env.mark_down
      then (err db_failed, append_event event w)
      else (
        ok (resumed_result r approval (some id) approved true),
        append_event event (record w {
          restore_requests =
              update_where (request_at approval) (completed_row env.archive.now id)
                w.restore_requests;
        }),
      )

  unfoldable pub resume_snapshot :
      RestoreRequest
      → (approval org : ℕ) → SnapshotRow
      → Option CapturedDisk
      → World S
      → Restoring S
  resume_snapshot r approval org snapshot none w = (err restore_failed, w)
  resume_snapshot r approval org snapshot (some disk) w =
      let (done, w') = resume_target_of r snapshot disk org w in complete r approval org done w'

  unfoldable pub resume_approved : RestoreRequest → (approval org : ℕ) → World S → Restoring S
  resume_approved r approval org w = elim (fetch_snapshot env.archive r.snapshot_id (some org) w) [
    | err e ↦ (err invalid_restore_approval, w)
    | ok snapshot ↦ resume_snapshot r approval org snapshot (data_disk_of snapshot) w
  ]

  unfoldable pub resume_by :
      RestoreRequest → (approval org : ℕ) → ApprovalStatus → World S → Restoring S
  resume_by r approval org pending w =
      (ok (resumed_result r approval r.target_machine_id pending false), w)
  resume_by r approval org rejected w = (err restore_not_approved, w)
  resume_by r approval org expired w = (err restore_not_approved, w)
  resume_by r approval org approved w = resume_approved r approval org w

  unfoldable pub resume_request : RestoreRequest → (approval org : ℕ) → World S → Restoring S
  resume_request r approval org w =
      if is_some r.completed_at
      then (ok (resumed_result r approval r.target_machine_id approved true), w)
      else elim (status env.approvals approval org w.db) [
        | err e ↦ (err invalid_restore_approval, w)
        | ok a ↦ resume_by r approval org a.row.status w
      ]

  unfoldable pub resume_found : Option RestoreRequest → (approval org : ℕ) → World S → Restoring S
  resume_found none approval org w = (err invalid_restore_approval, w)
  resume_found (some r) approval org w = resume_request r approval org w

  unfoldable pub resume_restore : (approval org : ℕ) → World S → Restoring S
  resume_restore approval org w =
      if env.find_down
      then (err db_failed, w)
      else resume_found (find (request_at approval) w.restore_requests) approval org w
