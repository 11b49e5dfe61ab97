-- ===== src/Snapshots/Sweeps.antt =====
-- The sweeps of snapshot.ts: `computeExpirySweepCandidates`, `expireOverdueSnapshots` and
-- `detectMissingSnapshotData`. The source draws a correlation id for each event of an expiry sweep;
-- here one for the sweep.
use cloudable.Base.{
  ℕ, ◌+◌, Bool, true, false, not, ◌&&◌, Option, none, some, List, [], ◌∷◌, ltb, Result, ok, err,
  filter, find, if◌then◌else◌, is_empty, is_some, length, map,
}
use cloudable.Lifecycle.{
  in_org, Machine, CapturedDisk, SnapshotRow, snapshot_expired, snapshot_data_missing,
  LifecycleEvent, system_actor, World, Provisioning, Provider, ArchiveError, db_error, Env,
  machine_at, update_snapshot,
}
use cloudable.Snapshots.{Outcome, snapshot_event, publish}

-- Past its time, not expired yet, and not under legal hold; of one organisation, or of all.
abbrev pub is_due : ℕ → SnapshotRow → Bool
is_due now r = ltb r.expires_at now && (not (is_some r.expired_at) && not r.legal_hold)

-- Disks that were destroyed, and whether one could not be.
abbrev pub Deletions : Type 0 → Type 0
Deletions S = List ℕ × Bool × S

abbrev pub expire_row : ℕ → SnapshotRow → SnapshotRow
expire_row now r = record r { expired_at = some now }

abbrev pub expired_event : Env → SnapshotRow → List ℕ → LifecycleEvent
expired_event env r deleted =
    snapshot_event env r (snapshot_expired r.created_at r.retention_days deleted)

abbrev pub lost_row : ℕ → SnapshotRow → SnapshotRow
lost_row now r = record r { data_missing_at = some now }

abbrev pub is_answered : {E A : Type 0} → Result E A → Bool
is_answered (ok a) = true
is_answered (err e) = false

-- A row whose machine is gone does not come through the join.
abbrev pub is_checked : SnapshotRow → Bool
is_checked r = not (is_some r.expired_at) && not (is_some r.data_missing_at)

abbrev pub missing_event : Env → SnapshotRow → List ℕ → LifecycleEvent
missing_event env row missing = record {
  org_id = row.org_id;
  machine_id = some row.machine_id;
  correlation_id = row.id;
  actor = system_actor;
  payload = snapshot_data_missing missing (length row.captured_disks) row.expires_at;
}

module _ {S : Type 0} where
  -- The sweep asks for no organisation, and reads the whole fleet.
  unfoldable pub compute_expiry_sweep_candidates :
      Env → Option ℕ → World S → Result ArchiveError (List SnapshotRow)
  compute_expiry_sweep_candidates env org w =
      if env.query_down
      then err db_error
      else ok (filter (λ r. in_org org r.org_id && is_due env.now r) w.snapshots)

module _ {S : Type 0} (p : Provisioning S) where
  -- The loop over a snapshot's disks: one that cannot be deleted does not stop the others.
  unfoldable pub delete_disks : Provider → List CapturedDisk → S → Deletions S
  delete_disks provider [] s = ([], false, s)
  delete_disks provider (d ∷ ds) s =
      let (answer, s') = p.delete_snapshot_disk provider d.external_id s in
      let (deleted, failed, s'') = delete_disks provider ds s' in
      if is_answered answer then (d.external_id ∷ deleted, failed, s'') else (deleted, true, s'')

  -- The body of the loop for a snapshot whose disks have been tried. `true`: it is expired now.
  unfoldable pub expire_one : Env → SnapshotRow → List ℕ → Bool → World S → Outcome S Bool
  expire_one env row deleted true w = (ok false, w)
  expire_one env row deleted false w =
      if env.write_down row.id
      then (err db_error, w)
      else publish env row.id (expired_event env row deleted) true
          (update_snapshot (expire_row env.now) row.id w)

  unfoldable pub sweep_one : Env → Option Machine → SnapshotRow → World S → Outcome S Bool
  unfolding expire_one delete_disks
  sweep_one env none row w = (ok false, w)
  sweep_one env (some m) row w =
      let (deleted, failed, cloud) = delete_disks m.provider row.captured_disks w.cloud in
      expire_one env row deleted failed (record w { cloud = cloud })

  -- `providerFor` was read once, before the loop.
  unfoldable pub sweep_each : Env → List Machine → ℕ → List SnapshotRow → World S → Outcome S ℕ
  sweep_each env machines count [] w = (ok count, w)
  sweep_each env machines count (row ∷ rows) w =
      let (answer, w') = sweep_one env (find (machine_at row.machine_id) machines) row w in
      elim answer [
        | err e ↦ (err e, w')
        | ok expired ↦ sweep_each env machines (if expired then count + 1 else count) rows w'
      ]

  unfoldable pub expire_overdue_snapshots : Env → World S → Outcome S ℕ
  expire_overdue_snapshots env w = elim (compute_expiry_sweep_candidates env none w) [
    | err e ↦ (err e, w)
    | ok rows ↦ sweep_each env w.machines 0 rows w
  ]

  -- A provider that cannot answer counts as having the disk.
  abbrev pub is_missing : Provider → S → CapturedDisk → Bool
  is_missing provider s d = elim (p.snapshot_disk_exists provider d.external_id s) [
    | ok exists ↦ not exists
    | err e ↦ false
  ]

  abbrev pub missing_disks : Provider → S → List CapturedDisk → List ℕ
  missing_disks provider s ds = map (λ d. d.external_id) (filter (is_missing provider s) ds)

  unfoldable pub check_one : Env → Option Machine → SnapshotRow → World S → Outcome S Bool
  check_one env none row w = (ok false, w)
  check_one env (some m) row w =
      let missing = missing_disks m.provider w.cloud row.captured_disks in
      if is_empty missing
      then (ok false, w)
      else if env.write_down row.id
      then (err db_error, w)
      else publish env row.id (missing_event env row missing) true
          (update_snapshot (lost_row env.now) row.id w)

  unfoldable pub check_each : Env → List Machine → ℕ → List SnapshotRow → World S → Outcome S ℕ
  check_each env machines count [] w = (ok count, w)
  check_each env machines count (row ∷ rows) w =
      let (answer, w') = check_one env (find (machine_at row.machine_id) machines) row w in
      elim answer [
        | err e ↦ (err e, w')
        | ok flagged ↦ check_each env machines (if flagged then count + 1 else count) rows w'
      ]

  unfoldable pub detect_missing_snapshot_data : Env → World S → Outcome S ℕ
  detect_missing_snapshot_data env w =
      if env.query_down
      then (err db_error, w)
      else check_each env w.machines 0 (filter is_checked w.snapshots) w
