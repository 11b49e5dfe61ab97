-- ===== src/Snapshots/Archived.antt =====
-- What an archive that succeeds has done.
use cloudable.Base.{
  subst, ℕ, ◌≡◌, refl, sym, ap, ◌∙◌, Bool, true, false, Option, none, some, List, ◌∷◌, arith,
  Bool-cases, inl, inr, Result, ok, err, find, if◌then◌else◌,
}
use cloudable.Lifecycle.{
  Machine, CapturedDisk, SnapshotTrigger, SnapshotScope, full, archive, SnapshotRow, LifecycleEvent,
  snapshot_created, World, ProvisioningError, Provisioning, ArchiveError, provisioning_failed,
  machine_already_archived, Env, machine_at, scoped_machine, fetch_machine, append_event,
  update_machine,
}
use cloudable.Snapshots.{
  Outcome, insert_fails, publish, snapshot_row, snapshot_event, resolve_retention_days,
  record_snapshot, tolerate_not_found, create_snapshot,
}
use cloudable.Snapshots.Archiving.{
  is_archived, archived_row, archived_event, torn_down, finish_archive, tear_down_after,
  archive_live, archive_machine,
}

abbrev pub created_event : Env → SnapshotRow → LifecycleEvent
created_event env row =
    snapshot_event env row (snapshot_created row.trigger row.region row.size_bytes row.scope)

module _ {S : Type 0} (p : Provisioning S) where
  record_snapshot-eq-ok :
      (env : Env) (machine : Machine) (trigger : SnapshotTrigger) (scope : SnapshotScope) (days : ℕ)
      (disks : List CapturedDisk) (w : World S) (snapshot : SnapshotRow)
      → (record_snapshot p env machine trigger scope days disks w).0 ≡ ok snapshot
      → let row = snapshot_row env machine trigger scope days disks in
        (snapshot ≡ row)
        × ((record_snapshot p env machine trigger scope days disks w).1
            ≡ append_event (created_event env row) (record w { snapshots = row ∷ w.snapshots }))
  unfolding record_snapshot publish
  record_snapshot-eq-ok env machine trigger scope days disks w snapshot h =
      elim (Bool-cases (insert_fails env w)) [
        | inl e ↦ absurd (ground arith)
        | inr e ↦ elim (Bool-cases (env.publish_down env.new_id)) [
          | inl f ↦ absurd (ground arith)
          | inr f ↦ (ground arith, ground arith)
        ]
      ]

  -- The copies that a snapshot names, and what it wrote.
  pub record Taken (env : Env) (machine : Machine) (w : World S) (snapshot : SnapshotRow)
      (w' : World S) : Type 0 where
    pub disks : List CapturedDisk
    pub copied : tolerate_not_found (p.snapshot machine full env.new_id true w.cloud).0 ≡ ok disks
    pub names :
        snapshot
        ≡ snapshot_row env machine archive full
            (resolve_retention_days env machine.org_id machine.id w.db)
            disks
    pub written :
        w'
        ≡ append_event (created_event env snapshot) (record w {
          cloud = (p.snapshot machine full env.new_id true w.cloud).1;
          snapshots = snapshot ∷ w.snapshots;
        })

  create_snapshot-Taken :
      (env : Env) (machine : Machine) (w : World S) (snapshot : SnapshotRow)
      → (create_snapshot p env machine archive full true w).0 ≡ ok snapshot
      → Taken env machine w snapshot (create_snapshot p env machine archive full true w).1
  unfolding create_snapshot
  create_snapshot-Taken env machine w snapshot h =
      go (tolerate_not_found (p.snapshot machine full env.new_id true w.cloud).0) refl h
    where
      go :
          (answer : Result ProvisioningError (List CapturedDisk))
          → tolerate_not_found (p.snapshot machine full env.new_id true w.cloud).0 ≡ answer
          → let w' = record w { cloud = (p.snapshot machine full env.new_id true w.cloud).1 } in
            let o : Outcome S SnapshotRow = elim answer [
              | ok ds ↦
                  record_snapshot p env machine archive full
                    (resolve_retention_days env machine.org_id machine.id w.db)
                    ds
                    w'
              | err e ↦ (err (provisioning_failed e), w')
            ] in
            o.0 ≡ ok snapshot → Taken env machine w snapshot o.1
      go (err e) same k = absurd (cc)
      go (ok ds) same k =
          let w' = record w { cloud = (p.snapshot machine full env.new_id true w.cloud).1 } in
          let days = resolve_retention_days env machine.org_id machine.id w.db in
          let taken = record_snapshot-eq-ok env machine archive full days ds w' snapshot k in
          record {
            disks = ds;
            copied = same;
            names = taken.0;
            written =
                taken.1
                ∙ ap
                    (λ (r : SnapshotRow).
                      append_event (created_event env r)
                        (record w' { snapshots = r ∷ w.snapshots }))
                    (sym taken.0);
          }

  tear_down_after-eq-ok :
      (env : Env) (approval : Option ℕ) (machine : Machine) (snapshot : SnapshotRow) (w : World S)
      → (tear_down_after p env approval machine snapshot w).0 ≡ ok tt
      → (torn_down (p.tear_down machine w.cloud).0 ≡ none)
        × ((tear_down_after p env approval machine snapshot w).1
            ≡ append_event (archived_event env approval machine snapshot w.db) (
                update_machine
                  (archived_row env.now)
                  machine.id
                  (record w { cloud = (p.tear_down machine w.cloud).1 })))
  unfolding tear_down_after finish_archive publish
  tear_down_after-eq-ok env approval machine snapshot w h =
      go (torn_down (p.tear_down machine w.cloud).0) refl h
    where
      go :
          (answer : Option ProvisioningError)
          → torn_down (p.tear_down machine w.cloud).0 ≡ answer
          → let w' = record w { cloud = (p.tear_down machine w.cloud).1 } in
            let o : Outcome S (Unit {0}) = elim answer [
              | some e ↦ (err (provisioning_failed e), w')
              | none ↦ finish_archive p env approval machine snapshot w'
            ] in
            o.0 ≡ ok tt
            → (torn_down (p.tear_down machine w.cloud).0 ≡ none)
              × (o.1
                  ≡ append_event
                      (archived_event env approval machine snapshot w.db)
                      (update_machine (archived_row env.now) machine.id w'))
      go (some e) same k = absurd (cc)
      go none same k = elim (Bool-cases (env.write_down machine.id)) [
        | inl e ↦ absurd (ground arith)
        | inr e ↦ elim (Bool-cases (env.publish_down machine.id)) [
          | inl f ↦ absurd (ground arith)
          | inr f ↦ (same, ground arith)
        ]
      ]

  -- The state of the world when the snapshot has been taken, and what was written then and after.
  pub record Archived (env : Env) (approval : Option ℕ) (machine : Machine) (w w' : World S)
      : Type 0 where
    pub snapshot : SnapshotRow
    pub between : World S
    pub taken : Taken env machine w snapshot between
    pub gone : torn_down (p.tear_down machine between.cloud).0 ≡ none
    pub finished :
        w'
        ≡ append_event (archived_event env approval machine snapshot w.db) (
            update_machine
              (archived_row env.now)
              machine.id
              (record between { cloud = (p.tear_down machine between.cloud).1 }))

  archive_live-Archived :
      (env : Env) (approval : Option ℕ) (machine : Machine) (w : World S)
      → (archive_live p env approval machine w).0 ≡ ok tt
      → Archived env approval machine w (archive_live p env approval machine w).1
  unfolding archive_live
  archive_live-Archived env approval machine w h =
      go (create_snapshot p env machine archive full true w).0
        (create_snapshot p env machine archive full true w).1 (create_snapshot-Taken env machine w)
        h
    where
      go :
          (answer : Result ArchiveError SnapshotRow) (w' : World S)
          → ((snapshot : SnapshotRow) → answer ≡ ok snapshot → Taken env machine w snapshot w')
          → let o : Outcome S (Unit {0}) = elim answer [
            | err e ↦ (err e, w')
            | ok snapshot ↦ tear_down_after p env approval machine snapshot w'
          ] in
            o.0 ≡ ok tt → Archived env approval machine w o.1
      go (err e) w' taken k = absurd (cc)
      go (ok snapshot) w' taken k =
          let end = tear_down_after-eq-ok env approval machine snapshot w' k in
          let db : w'.db ≡ w.db = ap (λ x. x.db) (taken snapshot refl).written in
          record {
            snapshot = snapshot;
            between = w';
            taken = taken snapshot refl;
            gone = end.0;
            finished =
                end.1
                ∙ ap
                    (λ d. append_event (archived_event env approval machine snapshot d) (
                      update_machine (archived_row env.now) machine.id
                        (record w' { cloud = (p.tear_down machine w'.cloud).1 })))
                    db;
          }

  fetched :
      (env : Env) (id : ℕ) (w : World S) (machine : Machine)
      → find (machine_at id) w.machines ≡ some machine
      → (m : Machine) → fetch_machine env id none w ≡ ok m
      → m ≡ machine
  unfolding fetch_machine scoped_machine
  fetched env id w machine found m h = elim (Bool-cases env.query_down) [
    | inl e ↦ absurd (ground arith)
    | inr e ↦ ground arith
  ]

  live_only :
      (env : Env) (approval : Option ℕ) (machine : Machine) (w : World S)
      → let o : Outcome S (Unit {0}) =
          if is_archived machine.state
          then (err machine_already_archived, w)
          else archive_live p env approval machine w in
        o.0 ≡ ok tt → (is_archived machine.state ≡ false) × Archived env approval machine w o.1
  live_only env approval machine w = go (is_archived machine.state)
    where
      go :
          (b : Bool)
          → let o : Outcome S (Unit {0}) =
              if b
              then (err machine_already_archived, w)
              else archive_live p env approval machine w in
            o.0 ≡ ok tt → (b ≡ false) × Archived env approval machine w o.1
      go true k = absurd (cc)
      go false k = (refl, archive_live-Archived env approval machine w k)

  -- An archive succeeds only for a machine that is not archived. It has then copied the machine's
  -- disks as they were before the teardown, stored one snapshot that names exactly these copies, kept
  -- for the days that the settings resolve to and on hold if the machine is, torn the machine down,
  -- marked it as archived, and appended `snapshot.created` and `machine.archived`.
  pub archive_machine-Archived :
      (env : Env) (id : ℕ) (approval : Option ℕ) (w : World S) (machine : Machine)
      → find (machine_at id) w.machines ≡ some machine
      → (archive_machine p env id approval w).0 ≡ ok tt
      → (is_archived machine.state ≡ false)
        × Archived env approval machine w (archive_machine p env id approval w).1
  unfolding archive_machine
  archive_machine-Archived env id approval w machine found h =
      go (fetch_machine env id none w) (fetched env id w machine found) h
    where
      go :
          (r : Result ArchiveError Machine)
          → ((m : Machine) → r ≡ ok m → m ≡ machine)
          → let o : Outcome S (Unit {0}) = elim r [
            | err e ↦ (err e, w)
            | ok m ↦
                if is_archived m.state
                then (err machine_already_archived, w)
                else archive_live p env approval m w
          ] in
            o.0 ≡ ok tt → (is_archived machine.state ≡ false) × Archived env approval machine w o.1
      go (err e) same k = absurd (cc)
      go (ok m) same k =
          subst
            (λ (x : Machine).
              (let o : Outcome S (Unit {0}) =
                  if is_archived x.state
                  then (err machine_already_archived, w)
                  else archive_live p env approval x w in
                o.0 ≡ ok tt
                → (is_archived machine.state ≡ false) × Archived env approval machine w o.1))
            (sym (same m refl)) (live_only env approval machine w) k
