-- ===== src/Offboarding/Sequence.antt =====
-- The sequence of offboardPerson.ts, and the two calls that lead to it.
use cloudable.Base.{
  ℕ, not, Option, none, some, List, [], ◌∷◌, number_eq, Text, ok, err, if◌then◌else◌,
}
use cloudable.Database.{ApprovalRow}
use cloudable.Lifecycle.{
  Machine, machine_stopped, machine_owner_cleared, machine_offboarded, World, Provisioning, Env,
  update_machine, append_event,
}
use cloudable.Snapshots.Archiving.{is_approved, torn_down, archive_machine}
use cloudable.Offboarding.{
  MachineEnv, OffboardEnv, OffboardPersonOutcome, Offboarded, Step, offboarding_event, stopped_row,
  cleared_row, request_for, is_offboarding, wrap_archive, wrap_stop, ◌>>=◌, ◌>>◌, pure, fail,
  change, find_person, revoke_each, find_live_certificate_ids, find_owned_machines,
  request_approval, approval_status, invalid_approval,
}

module _ {S : Type 0} (p : Provisioning S) where
  -- `provisioning.archive`, where infrastructure that is gone counts as stopped.
  unfoldable pub stop_machine : Machine → Step S (Unit {0})
  stop_machine machine w =
      let (answer, cloud) = p.tear_down machine w.cloud in
      (wrap_stop (torn_down answer), record w { cloud = cloud })

  unfoldable pub archive_step : Env → ℕ → ℕ → Step S (Unit {0})
  archive_step env id approval w =
      let (answer, w') = archive_machine p env id (some approval) w in (wrap_archive answer, w')

  unfoldable pub offboard_one_machine : MachineEnv → Offboarded → Machine → Step S (Unit {0})
  offboard_one_machine env o machine = do
    stop_machine machine
    change env.stop_down (update_machine stopped_row machine.id)
    change env.stopped_event_down
        (append_event (offboarding_event o (some machine.id) machine_stopped))
    change env.clear_down (update_machine cleared_row machine.id)
    change env.cleared_event_down
        (append_event (offboarding_event o (some machine.id) (machine_owner_cleared o.person_id)))
    archive_step env.archiving machine.id o.approval_id
    change env.terminate_down (λ w. w)
    change env.offboarded_event_down (
        append_event
          (offboarding_event o (some machine.id) (machine_offboarded o.person_id o.approval_id)))

  -- One machine that fails does not stop the others.
  unfoldable pub offboard_each :
      OffboardEnv → Offboarded → List Machine → World S → List ℕ × List ℕ × World S
  offboard_each env o [] w = ([], [], w)
  offboard_each env o (m ∷ ms) w =
      let (answer, w') = offboard_one_machine (env.machine m.id) o m w in
      let (done, failed, w'') = offboard_each env o ms w' in
      elim answer [ ok a ↦ (m.id ∷ done, failed, w'') | err e ↦ (done, m.id ∷ failed, w'') ]

  unfoldable pub attempt_each : OffboardEnv → Offboarded → List Machine → Step S (List ℕ × List ℕ)
  attempt_each env o ms w =
      let (done, failed, w') = offboard_each env o ms w in (ok (done, failed), w')

  unfoldable pub run_offboarding_sequence : OffboardEnv → Offboarded → Step S (List ℕ × List ℕ)
  run_offboarding_sequence env o = do
    ids ← find_live_certificate_ids env o.person_id
    revoke_each env o ids
    ms ← find_owned_machines env o.person_id
    attempt_each env o ms

  abbrev pub outcome_of : ApprovalRow → List ℕ × List ℕ → OffboardPersonOutcome
  outcome_of a (done, failed) = record {
    approval_id = a.id;
    status = a.status;
    machines_offboarded = done;
    machine_failures = failed;
  }

  unfoldable pub proceed : OffboardEnv → ApprovalRow → Offboarded → Step S OffboardPersonOutcome
  proceed env a o = do attempts ← run_offboarding_sequence env o; pure (outcome_of a attempts)

  unfoldable pub proceed_if_approved :
      OffboardEnv → ApprovalRow → Offboarded → Step S OffboardPersonOutcome
  proceed_if_approved env a o =
      if is_approved a.status then proceed env a o else pure (outcome_of a ([], []))

  unfoldable pub offboard_person_detailed :
      OffboardEnv → (target by : ℕ) → Text → Step S OffboardPersonOutcome
  unfolding proceed_if_approved
  offboard_person_detailed env id by reason = do
    found ← find_person env id
    a ← request_approval env (request_for found.org_id id by reason)
    proceed_if_approved env a.row (record {
      org_id = found.org_id;
      person_id = found.id;
      approval_id = a.row.id;
      requested_by = by;
      reason = reason;
    })

  unfoldable pub resume_for : OffboardEnv → ApprovalRow → Option ℕ → Step S OffboardPersonOutcome
  resume_for env a none = fail invalid_approval
  resume_for env a (some target) =
      if not (is_offboarding a.action_type)
      then fail invalid_approval
      else if not (is_approved a.status)
      then pure (outcome_of a ([], []))
      else do
        found ← find_person env target
        proceed env a (record {
          org_id = found.org_id;
          person_id = found.id;
          approval_id = a.id;
          requested_by = a.requested_by_person_id;
          reason = a.reason;
        })

  unfoldable pub resume_offboarding :
      OffboardEnv → (approval org : ℕ) → Step S OffboardPersonOutcome
  unfolding resume_for
  resume_offboarding env id org = do
    a ← approval_status env id org
    resume_for env a.row a.row.target_person_id
