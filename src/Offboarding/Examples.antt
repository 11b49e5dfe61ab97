-- ===== src/Offboarding/Examples.antt =====
-- The offboarding of one person with a running machine, under single approval; and the machine's
-- steps, where nothing fails.
use cloudable.Base.{◌≡◌, ◌⊎◌, refl, false, [], ◌∷◌, arith, ok}
use cloudable.Archive.{empty, get_snapshot_sub_state}
use cloudable.Approval
use cloudable.Lifecycle.{fetch_machine, running, Machine, SnapshotRow, World}
use cloudable.Lifecycle.Samples.{forget, Kept, provider, env, machine_in, world_of}
use cloudable.Snapshots.{publish, record_snapshot, create_snapshot, tolerate_not_found, view_of}
use cloudable.Snapshots.Archiving.{archive_machine, torn_down}
use cloudable.Offboarding.{change, MachineEnv, OffboardEnv, Offboarded}
use cloudable.Offboarding.Sequence.{
  archive_step, stop_machine, offboard_one_machine, offboard_person_detailed,
}
use cloudable.Offboarding.Emptied.{TearDownLaws, offboard_one_machine-KeepsNothing}
use cloudable.Offboarding.Approved.{Idle, HasApproval, offboard_person_detailed-Guarded}

laws : TearDownLaws provider
unfolding tolerate_not_found
laws = record {
  leaves_nothing = λ m m' scope id quiesce s same kind resource h.
      let torn : forget m.id s m'.id ≡ false = ground (arith, same) in rw torn;
}

abbrev steps : MachineEnv
steps = record {
  archiving = env;
  stop_down = false;
  stopped_event_down = false;
  clear_down = false;
  cleared_event_down = false;
  terminate_down = false;
  offboarded_event_down = false;
}

abbrev leaver : Offboarded
leaver = record { org_id = 1; person_id = 5; approval_id = 200; requested_by = 6; reason = 97 ∷ [] }

abbrev machine : Machine
machine = machine_in running

abbrev world : World Kept
world = world_of running

runs : (offboard_one_machine provider steps leaver machine world).0 ≡ ok tt
unfolding offboard_one_machine stop_machine torn_down change archive_step archive_machine
    fetch_machine create_snapshot tolerate_not_found record_snapshot publish
runs = refl

offboard_one_machine-KeepsNothing_example :
    (snapshot : SnapshotRow) × ((offboard_one_machine provider steps leaver machine
        world).1.snapshots
      ≡ snapshot ∷ world.snapshots)
    × (snapshot.machine_id ≡ 10)
    × (snapshot.captured_disks ≡ [])
    × (get_snapshot_sub_state (view_of snapshot) ≡ empty)
offboard_one_machine-KeepsNothing_example =
    offboard_one_machine-KeepsNothing provider laws steps leaver machine world refl runs

abbrev approvals : Approval.Env
approvals = record {
  now = 100;
  new_id = 200;
  correlation_id = 900;
  query_down = false;
  transaction_down = false;
}

abbrev office : OffboardEnv
office = record {
  approvals = approvals;
  now = 100;
  person_down = false;
  certificates_down = false;
  revoke_down = λ id. false;
  revoked_event_down = λ id. false;
  machines_down = false;
  machine = λ id. steps;
}

offboard_person_detailed-Guarded_example :
    let w' = (offboard_person_detailed provider office 5 6 (97 ∷ []) world).1 in
    Idle 5 (97 ∷ []) world w' ⊎ HasApproval 5 w'.db
offboard_person_detailed-Guarded_example =
    offboard_person_detailed-Guarded provider office 5 6 (97 ∷ []) world
