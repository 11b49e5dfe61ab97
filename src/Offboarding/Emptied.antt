-- ===== src/Offboarding/Emptied.antt =====
-- The snapshot of a machine that is offboarded.
use cloudable.Base.{true, ℕ, Bool, ◌≡◌, refl, ap, ◌∙◌, none, some, [], ◌∷◌, ok, find, ap}
use cloudable.Archive.{empty, get_snapshot_sub_state}
use cloudable.Lifecycle.{Machine, SnapshotScope, full, SnapshotRow, World, Provisioning, machine_at}
use cloudable.Snapshots.{tolerate_not_found, view_of}
use cloudable.Snapshots.Archiving.{torn_down}
use cloudable.Offboarding.{MachineEnv, Offboarded}
use cloudable.Offboarding.Sequence.{offboard_one_machine}
use cloudable.Offboarding.Order.{bare, offboard_one_machine-Done}

-- A teardown deletes the machine's disks, so that nothing is left to copy.
pub record TearDownLaws {S : Type 0} (p : Provisioning S) : Type 0 where
  pub leaves_nothing :
      (m m' : Machine) (scope : SnapshotScope) (id : ℕ) (quiesce : Bool) (s : S)
      → m'.id ≡ m.id
      → m'.provider ≡ m.provider
      → m'.external_resource_id ≡ m.external_resource_id
      → torn_down (p.tear_down m s).0 ≡ none
      → tolerate_not_found (p.snapshot m' scope id quiesce (p.tear_down m s).1).0 ≡ ok []

-- A machine that is offboarded keeps no data: by the law of the teardown, the only snapshot that is
-- taken names no disk and can never be restored, since the provider has torn the machine down before
-- the archive copies it.
pub offboard_one_machine-KeepsNothing :
    {S : Type 0} (p : Provisioning S)
    → TearDownLaws p
    → (env : MachineEnv) (o : Offboarded) (m : Machine) (w : World S)
    → find (machine_at m.id) w.machines ≡ some m
    → (offboard_one_machine p env o m w).0 ≡ ok tt
    → (snapshot : SnapshotRow) × ((offboard_one_machine p env o m w).1.snapshots
        ≡ snapshot ∷ w.snapshots)
      × (snapshot.machine_id ≡ m.id)
      × (snapshot.captured_disks ≡ [])
      × (get_snapshot_sub_state (view_of snapshot) ≡ empty)
unfolding get_snapshot_sub_state
offboard_one_machine-KeepsNothing p laws env o m w found h =
    let d = offboard_one_machine-Done p env o m w found h in
    let a = d.archived in
    let t = a.taken in
    let nothing =
      laws.leaves_nothing m (bare p env o m) full env.archiving.new_id true w.cloud refl refl refl
        d.stopped in
    let none_copied : t.disks ≡ [] = cc (t.copied, nothing) in
    let names_none : a.snapshot.captured_disks ≡ [] =
      ap (λ r. r.captured_disks) t.names ∙ none_copied in
    (
      a.snapshot,
      ap (λ x. x.snapshots) d.finished
          ∙ ap (λ x. x.snapshots) a.finished
          ∙ ap (λ x. x.snapshots) t.written,
      ap (λ r. r.machine_id) t.names,
      names_none,
      rw names_none,
    )
