-- ===== src/Restore/Resumed.antt =====
-- A restore that waited for its approval: it is carried out once, whatever has become of the machine.
use cloudable.Base.{
  if_keeps, ℕ, ◌≡◌, refl, ap, ◌∙◌, true, false, Option, none, some, arith, Result, ok, err, find,
  find-update_where, is_some, number_eq,
}
use cloudable.Audit.{approved, pending, rejected, expired, ApprovalStatus}
use cloudable.Approval.{ApprovalResult, ApprovalError}
use cloudable.Approval.Decide.{status}
use cloudable.Lifecycle.{
  ArchiveError, Machine, CapturedDisk, SnapshotRow, RestoreRequest, World, Provisioning,
  fetch_machine, fetch_snapshot,
}
use cloudable.Restore.{
  perform_restore_into_new_machine, invalid_restore_approval, RestoreSnapshotResult, MachineService,
  RestoreEnv, perform_restore_onto_machine,
}
use cloudable.Restore.Checks.{wanted_machine, Restoring, data_disk_of}
use cloudable.Restore.Resume.{
  request_at, resumed_result, completed_row, resume_new, resume_existing, resume_target_of,
  complete, resume_snapshot, resume_approved, resume_by, resume_request, resume_found,
  resume_restore,
}
use cloudable.Restore.Quiet.{Quiet, perform_onto-Quiet, perform_into-Quiet}

-- The request is there, is completed, and has the machine of this result.
pub record Completed {S : Type 0} (approval : ℕ) (r : RestoreSnapshotResult) (w : World S)
    : Type 0 where
  pub row : RestoreRequest
  pub found : find (request_at approval) w.restore_requests ≡ some row
  pub done : is_some row.completed_at ≡ true
  pub shown : r ≡ resumed_result row approval row.target_machine_id approved true

Quiet-self : {S : Type 0} (w : World S) → Quiet w w
Quiet-self w = record { same_db = refl; same_events = refl; same_requests = refl }

module _ {S : Type 0} (p : Provisioning S) (service : MachineService S) where
  -- A completed request is answered from the table.
  same_answer_again :
      (env : RestoreEnv) (approval org : ℕ) (r : RestoreSnapshotResult) (w : World S)
      → env.find_down ≡ false
      → Completed approval r w
      → resume_restore p service env approval org w ≡ (ok r, w)
  unfolding resume_restore resume_found resume_request
  same_answer_again env approval org r w up c = ground (arith, c.found, c.done, c.shown)

  module _ (env : RestoreEnv) (approval org : ℕ) (row : RestoreRequest) where
    abbrev Done : Restoring S → Type 0
    Done out =
        (r : RestoreSnapshotResult) → out.0 ≡ ok r → r.restored ≡ true → Completed approval r out.1

    complete-Done :
        (target : Option ℕ) (w : World S)
        → find (request_at approval) w.restore_requests ≡ some row
        → Done (complete p service env row approval org target w)
    unfolding complete
    complete-Done none w found = λ r h t. absurd (cc)
    complete-Done (some id) w found =
        if_keeps Done (env.archive.publish_down id) _ _ (λ _ r h t. absurd (cc))
          (λ _.
            if_keeps Done env.mark_down _ _ (λ _ r h t. absurd (cc))
              (λ _ r h t. record {
                row = completed_row env.archive.now id row;
                found =
                    find-update_where (request_at approval) (completed_row env.archive.now id)
                      (λ x hit. hit) w.restore_requests row found;
                done = refl;
                shown = cc h;
              }))

    resume_new-Quiet :
        (snapshot : SnapshotRow) (disk : CapturedDisk) (owner : Option ℕ) (w : World S)
        → Quiet w (resume_new p service env row snapshot disk org owner w).1
    unfolding resume_new
    resume_new-Quiet snapshot disk none w = Quiet-self w
    resume_new-Quiet snapshot disk (some owner) w =
        go (fetch_machine env.archive snapshot.machine_id (some org) w)
      where
        go :
            (r : Result ArchiveError Machine)
            → let out : Option ℕ × World S = elim r [
              | err e ↦ (none, w)
              | ok source ↦
                  perform_restore_into_new_machine service env.archive
                    (wanted_machine source disk owner row.new_machine_name
                      row.requested_by_person_id)
                    w
            ] in
              Quiet w out.1
        go (err e) = Quiet-self w
        go (ok source) = perform_into-Quiet service env.archive _ w

    resume_existing-Quiet :
        (disk : CapturedDisk) (target : Option ℕ) (w : World S)
        → Quiet w (resume_existing p service env disk org target w).1
    unfolding resume_existing
    resume_existing-Quiet disk none w = Quiet-self w
    resume_existing-Quiet disk (some target) w = go (fetch_machine env.archive target (some org) w)
      where
        go :
            (r : Result ArchiveError Machine)
            → let out : Option ℕ × World S = elim r [
              | err e ↦ (none, w)
              | ok m ↦ perform_restore_onto_machine p env.archive m disk w
            ] in
              Quiet w out.1
        go (err e) = Quiet-self w
        go (ok m) = perform_onto-Quiet p env.archive m disk w

    resume_target_of-Quiet :
        (snapshot : SnapshotRow) (disk : CapturedDisk) (w : World S)
        → Quiet w (resume_target_of p service env row snapshot disk org w).1
    unfolding resume_target_of
    resume_target_of-Quiet snapshot disk w =
        if_keeps (λ (out : Option ℕ × World S). Quiet w out.1) row.for_new_machine _ _
          (λ _. resume_new-Quiet snapshot disk row.owner_person_id w)
          (λ _. resume_existing-Quiet disk row.target_machine_id w)

    module _ (w : World S) (found : find (request_at approval) w.restore_requests ≡ some row) where
      resume_snapshot-Done :
          (snapshot : SnapshotRow) (disk : Option CapturedDisk)
          → Done (resume_snapshot p service env row approval org snapshot disk w)
      unfolding resume_snapshot
      resume_snapshot-Done snapshot none = λ r h t. absurd (cc)
      resume_snapshot-Done snapshot (some disk) =
          let work = resume_target_of p service env row snapshot disk org w in
          let quiet = resume_target_of-Quiet snapshot disk w in
          complete-Done work.0 work.1
            (ap (λ rs. find (request_at approval) rs) quiet.same_requests ∙ found)

      resume_approved-Done : Done (resume_approved p service env row approval org w)
      unfolding resume_approved
      resume_approved-Done = go (fetch_snapshot env.archive row.snapshot_id (some org) w)
        where
          go :
              (r : Result ArchiveError SnapshotRow)
              → Done (elim r [
                | err e ↦ (err invalid_restore_approval, w)
                | ok s ↦ resume_snapshot p service env row approval org s (data_disk_of s) w
              ])
          go (err e) = λ r h t. absurd (cc)
          go (ok s) = resume_snapshot-Done s (data_disk_of s)

      resume_by-Done : (s : ApprovalStatus) → Done (resume_by p service env row approval org s w)
      unfolding resume_by
      resume_by-Done pending = λ r h t. absurd (ground arith)
      resume_by-Done rejected = λ r h t. absurd (cc)
      resume_by-Done expired = λ r h t. absurd (cc)
      resume_by-Done approved = resume_approved-Done

      resume_request-Done : Done (resume_request p service env row approval org w)
      unfolding resume_request
      resume_request-Done =
          if_keeps Done (is_some row.completed_at) _ _
            (λ completed r h t. record { row = row; found = found; done = completed; shown = cc h })
            (λ _. go (status env.approvals approval org w.db))
        where
          go :
              (r : Result ApprovalError ApprovalResult)
              → Done (elim r [
                | err e ↦ (err invalid_restore_approval, w)
                | ok a ↦ resume_by p service env row approval org a.row.status w
              ])
          go (err e) = λ r h t. absurd (cc)
          go (ok a) = resume_by-Done a.row.status

  resume_none :
      (env : RestoreEnv) (approval org : ℕ) (w : World S) (r : RestoreSnapshotResult)
      → let out = resume_found p service env none approval org w in
        out.0 ≡ ok r → r.restored ≡ true → Completed approval r out.1
  unfolding resume_found
  resume_none env approval org w r h t = absurd (cc)

  resume_some :
      (env : RestoreEnv) (approval org : ℕ) (w : World S) (r : RestoreSnapshotResult)
      (row : RestoreRequest)
      → find (request_at approval) w.restore_requests ≡ some row
      → let out = resume_found p service env (some row) approval org w in
        out.0 ≡ ok r → r.restored ≡ true → Completed approval r out.1
  unfolding resume_found
  resume_some env approval org w r row found h t =
      resume_request-Done env approval org row w found r h t

  resume_restore-Completed :
      (env : RestoreEnv) (approval org : ℕ) (w : World S) (r : RestoreSnapshotResult)
      → (resume_restore p service env approval org w).0 ≡ ok r
      → r.restored ≡ true
      → Completed approval r (resume_restore p service env approval org w).1
  unfolding resume_restore
  resume_restore-Completed env approval org w r =
      if_keeps
        (λ (out : Restoring S). out.0 ≡ ok r → r.restored ≡ true → Completed approval r out.1)
        env.find_down _ _ (λ _ h t. absurd (cc))
        (λ _. go (find (request_at approval) w.restore_requests) refl)
    where
      go :
          (o : Option RestoreRequest)
          → find (request_at approval) w.restore_requests ≡ o
          → let out = resume_found p service env o approval org w in
            out.0 ≡ ok r → r.restored ≡ true → Completed approval r out.1
      go none found = resume_none env approval org w r
      go (some row) found = resume_some env approval org w r row found

  -- Resuming a restore that has been carried out changes nothing and answers the same, if the request
  -- can be read: the data is put back once. It answers the same for every organisation, also for
  -- another one than that of the restore.
  pub resume_restore_once :
      (env again : RestoreEnv) (approval org org' : ℕ) (w : World S) (r : RestoreSnapshotResult)
      → again.find_down ≡ false
      → (resume_restore p service env approval org w).0 ≡ ok r
      → r.restored ≡ true
      → let w' = (resume_restore p service env approval org w).1 in
        resume_restore p service again approval org' w' ≡ (ok r, w')
  resume_restore_once env again approval org org' w r up answered restored =
      same_answer_again again approval org' r (resume_restore p service env approval org w).1 up
        (resume_restore-Completed env approval org w r answered restored)
