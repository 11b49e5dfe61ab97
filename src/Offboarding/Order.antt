-- ===== src/Offboarding/Order.antt =====
-- What offboarding a machine does, and in which order.
use cloudable.Base.{
  ◌≡◌, ap, ◌∙◌, none, some, [], ◌∷◌, ◌++◌, ok, find, find-update_where, update_where, append_assoc,
}
use cloudable.Lifecycle.{
  Machine, machine_stopped, machine_owner_cleared, machine_offboarded, SnapshotRow, World,
  Provisioning, machine_at, append_event, update_machine,
}
use cloudable.Snapshots.Archiving.{torn_down, archived_row, archived_event}
use cloudable.Snapshots.Archived.{created_event, Archived, archive_machine-Archived}
use cloudable.Offboarding.{MachineEnv, Offboarded, offboarding_event, stopped_row, cleared_row}
use cloudable.Offboarding.Sequence.{stop_machine, archive_step, offboard_one_machine}
use cloudable.Offboarding.Steps.{
  finish, from_terminate, from_archive, from_cleared_event, from_clear, from_stopped_event,
  from_stop, then-eq-ok, change-eq-ok, change_last, stop_machine-eq-ok, archive_step-eq-ok,
}

module _ {S : Type 0} (p : Provisioning S) (env : MachineEnv) (o : Offboarded) (m : Machine) where
  -- The world in which the archive starts: torn down, stopped, and without an owner.
  abbrev pub before_archive : World S → World S
  before_archive w =
      append_event (offboarding_event o (some m.id) (machine_owner_cleared o.person_id)) (
        update_machine cleared_row m.id (
          append_event (offboarding_event o (some m.id) machine_stopped)
            (update_machine stopped_row m.id (record w { cloud = (p.tear_down m w.cloud).1 }))))

  -- The machine as the archive finds it.
  abbrev pub bare : Machine
  bare = cleared_row (stopped_row m)

  -- What a success says of its steps.
  pub record Done (w w' : World S) : Type 0 where
    pub stopped : torn_down (p.tear_down m w.cloud).0 ≡ none
    pub after : World S
    pub archived : Archived p env.archiving (some o.approval_id) bare (before_archive w) after
    pub finished :
        w'
        ≡ append_event
            (offboarding_event o (some m.id) (machine_offboarded o.person_id o.approval_id))
            after

  found_bare :
      (w : World S)
      → find (machine_at m.id) w.machines ≡ some m
      → find (machine_at m.id) (before_archive w).machines ≡ some bare
  found_bare w found =
      find-update_where (machine_at m.id) cleared_row (λ x e. e) _ (stopped_row m)
        (find-update_where (machine_at m.id) stopped_row (λ x e. e) w.machines m found)

  pub offboard_one_machine-Done :
      (w : World S)
      → find (machine_at m.id) w.machines ≡ some m
      → (offboard_one_machine p env o m w).0 ≡ ok tt
      → Done w (offboard_one_machine p env o m w).1
  unfolding offboard_one_machine stop_machine archive_step
  offboard_one_machine-Done w found h =
      let w1 = (stop_machine p m w).1 in
      let s1 = then-eq-ok (stop_machine p m) (from_stop p env o m) w tt h in
      let s2 = change-eq-ok env.stop_down _ (from_stopped_event p env o m) w1 tt s1.1 in
      let s3 = change-eq-ok env.stopped_event_down _ (from_clear p env o m) _ tt s2.0 in
      let s4 = change-eq-ok env.clear_down _ (from_cleared_event p env o m) _ tt s3.0 in
      let s5 = change-eq-ok env.cleared_event_down _ (from_archive p env o m) _ tt s4.0 in
      let w5 = before_archive w in
      let s6 =
        then-eq-ok (archive_step p env.archiving m.id o.approval_id) (from_terminate p env o m) w5
          tt s5.0 in
      let after = (archive_step p env.archiving m.id o.approval_id w5).1 in
      let s7 = change-eq-ok env.terminate_down (λ x. x) (finish p env o m) after tt s6.1 in
      let last = change_last env.offboarded_event_down _ after s7.0 in
      let archived =
        archive_machine-Archived p env.archiving m.id (some o.approval_id) w5 bare
          (found_bare w found) (archive_step-eq-ok p env.archiving m.id o.approval_id w5 s6.0) in
      record {
        stopped = stop_machine-eq-ok p m w s1.0;
        after = after;
        archived = archived.1;
        finished = ap (λ r. r.1) (s1.2 ∙ s2.1 ∙ s3.1 ∙ s4.1 ∙ s5.1 ∙ s6.2 ∙ s7.1) ∙ last;
      }

  -- A machine is offboarded in this order: the provider tears it down, it is marked as stopped, it
  -- loses its owner, a snapshot is taken, and it is archived; the events of these
  -- steps and `machine.offboarded` stand in the record in this order.
  offboard_one_machine_exact :
      (w : World S)
      → find (machine_at m.id) w.machines ≡ some m
      → (offboard_one_machine p env o m w).0 ≡ ok tt
      → let w' = (offboard_one_machine p env o m w).1 in
        (snapshot : SnapshotRow) × (w'.snapshots ≡ snapshot ∷ w.snapshots)
        × (w'.events
            ≡ w.events
              ++ (offboarding_event o (some m.id) machine_stopped
                  ∷ offboarding_event o (some m.id) (machine_owner_cleared o.person_id)
                  ∷ created_event env.archiving snapshot
                  ∷ archived_event env.archiving (some o.approval_id) bare snapshot w.db
                  ∷ offboarding_event o (some m.id) (machine_offboarded o.person_id o.approval_id)
                  ∷ []))
        × (find (machine_at m.id) w'.machines ≡ some (archived_row env.archiving.now bare))
  offboard_one_machine_exact w found h =
      let d = offboard_one_machine-Done w found h in
      let a = d.archived in
      let t = a.taken in
      let last = offboarding_event o (some m.id) (machine_offboarded o.person_id o.approval_id) in
      let archived =
        archived_event env.archiving (some o.approval_id) bare a.snapshot (before_archive w).db in
      let events =
        ap (λ x. x.events) d.finished
        ∙ ap (λ x. x.events ++ last ∷ []) a.finished
        ∙ ap (λ x. (x.events ++ archived ∷ []) ++ last ∷ []) t.written in
      (
        a.snapshot,
        ap (λ x. x.snapshots) d.finished
            ∙ ap (λ x. x.snapshots) a.finished
            ∙ ap (λ x. x.snapshots) t.written,
        events ∙ simp append_assoc,
        ap (λ x. find (machine_at m.id) x.machines) (d.finished)
            ∙ ap (λ x. find (machine_at m.id) x.machines) a.finished
            ∙ ap
                (λ x.
                  find (machine_at m.id)
                    (update_where (machine_at m.id) (archived_row env.archiving.now) x.machines))
                t.written
            ∙ find-update_where (machine_at m.id) (archived_row env.archiving.now) (λ x e. e) _ bare
                (found_bare w found),
      )
