-- ===== src/Snapshots/Expiring.antt =====
-- What a sweep does where nothing fails, and what it spares whatever fails.
use cloudable.Base.{
  ℕ, ◌+◌, ◌≡◌, refl, sym, ap, subst, Bool, true, false, Option, none, some, List, [], ◌∷◌, ◌++◌,
  map, arith, Bool-cases, inl, inr, All, All-map, Result, ok, err, filter, find, if◌then◌else◌,
  is_some, length, append_assoc, append-nil, update_where, has_id,
}
use cloudable.Lifecycle.{
  LifecycleEvent, Machine, CapturedDisk, SnapshotRow, World, Provisioning, ArchiveError, Env,
  Provider, machine_at, snapshot_at,
}
use cloudable.Snapshots.{Outcome, publish}
use cloudable.Snapshots.Sweeps.{
  is_answered, is_due, expire_row, expired_event, delete_disks, expire_one, sweep_one, sweep_each,
  compute_expiry_sweep_candidates, expire_overdue_snapshots,
}
use cloudable.Snapshots.Cloud.{disk_ids}

-- Where the database, the events and the provider answer.
pub record Answers {S : Type 0} (p : Provisioning S) (env : Env) : Type 0 where
  pub query_up : env.query_down ≡ false
  pub write_up : (id : ℕ) → env.write_down id ≡ false
  pub publish_up : (id : ℕ) → env.publish_down id ≡ false
  pub deletes :
      (provider : Provider) (d : ℕ) (s : S)
      → is_answered (p.delete_snapshot_disk provider d s).0 ≡ true

abbrev pub HasMachine : List Machine → SnapshotRow → Type 0
HasMachine machines r = is_some (find (machine_at r.machine_id) machines) ≡ true

abbrev pub ids_of : List SnapshotRow → List ℕ
ids_of rows = map (λ r. r.id) rows

-- The events of a sweep of these snapshots, all of them deleted.
abbrev pub expired_events : Env → List SnapshotRow → List LifecycleEvent
expired_events env rows = map (λ r. expired_event env r (disk_ids r.captured_disks)) rows

-- Every row that is due is one of those still to come.
abbrev DueAmong : ℕ → List ℕ → List SnapshotRow → Type 0
DueAmong now ids rows = All (λ r. is_due now r ≡ true → has_id r.id ids ≡ true) rows

DueAmong-expire :
    (now id : ℕ) (ids : List ℕ) (rows : List SnapshotRow)
    → DueAmong now (id ∷ ids) rows
    → DueAmong now ids (update_where (snapshot_at id) (expire_row now) rows)
DueAmong-expire now id ids [] h = tt
DueAmong-expire now id ids (r ∷ rows) h =
    (λ due. ground (arith, h.0), DueAmong-expire now id ids rows h.1)

DueAmong-none :
    (now : ℕ) (rows : List SnapshotRow) → DueAmong now [] rows → filter (is_due now) rows ≡ []
DueAmong-none now [] h = refl
DueAmong-none now (r ∷ rows) h = ground (arith, h.0, DueAmong-none now rows h.1)

has_id_self : (a : ℕ) (before ids : List ℕ) → has_id a (before ++ a ∷ ids) ≡ true
has_id_self a [] ids = ground arith
has_id_self a (b ∷ before) ids = ground (arith, has_id_self a before ids)

DueAmong-first :
    (now a : ℕ) (ids : List ℕ) (rows : List SnapshotRow)
    → DueAmong now ids rows
    → DueAmong now (a ∷ ids) rows
DueAmong-first now a ids rows h =
    All-map (λ x. is_due now x ≡ true → has_id x.id ids ≡ true)
      (λ x. is_due now x ≡ true → has_id x.id (a ∷ ids) ≡ true) (λ x k due. ground (arith, k due))
      rows h

DueAmong-own :
    (now : ℕ) (rows : List SnapshotRow) → DueAmong now (ids_of (filter (is_due now) rows)) rows
DueAmong-own now [] = tt
DueAmong-own now (r ∷ rows) =
    let among = DueAmong-own now rows in
    elim (Bool-cases (is_due now r)) [
      | inl e ↦
          let first : filter (is_due now) (r ∷ rows) ≡ r ∷ filter (is_due now) rows = rw e in
          subst (λ cs. DueAmong now (ids_of cs) (r ∷ rows)) (sym first)
            (λ _. ground arith, DueAmong-first now r.id _ rows among)
      | inr e ↦
          let first : filter (is_due now) (r ∷ rows) ≡ filter (is_due now) rows = rw e in
          subst (λ cs. DueAmong now (ids_of cs) (r ∷ rows)) (sym first) (λ due. absurd (cc), among)
    ]

module _ {S : Type 0} (p : Provisioning S) (env : Env) (up : Answers p env) where
  delete_disks_all :
      (provider : Provider) (ds : List CapturedDisk) (s : S)
      → ((delete_disks p provider ds s).0 ≡ disk_ids ds)
        × ((delete_disks p provider ds s).1 ≡ false)
  unfolding delete_disks
  delete_disks_all provider [] s = (refl, refl)
  delete_disks_all provider (d ∷ ds) s =
      let rest = delete_disks_all provider ds (p.delete_snapshot_disk provider d.external_id s).1 in
      let here = up.deletes provider d.external_id s in
      (ground (arith, rest, here), ground (arith, rest, here))

  -- What one round comes to.
  abbrev Expires : SnapshotRow → World S → Outcome S Bool → Type 0
  Expires row w o =
      (o.0 ≡ ok true)
      × (o.1.events ≡ w.events ++ expired_event env row (disk_ids row.captured_disks) ∷ [])
      × (o.1.snapshots ≡ update_where (snapshot_at row.id) (expire_row env.now) w.snapshots)

  expire_one-Expires :
      (row : SnapshotRow) (deleted : List ℕ) (failed : Bool) (w : World S)
      → deleted ≡ disk_ids row.captured_disks
      → failed ≡ false
      → Expires row w (expire_one p env row deleted failed w)
  unfolding expire_one publish
  expire_one-Expires row deleted true w all none_failed = absurd (cc)
  expire_one-Expires row deleted false w all none_failed =
      let written = up.write_up row.id in
      let published = up.publish_up row.id in
      (simp (written, published), simp (written, published, all), simp (written, published))

  sweep_one-Expires :
      (m : Option Machine) (row : SnapshotRow) (w : World S)
      → is_some m ≡ true
      → Expires row w (sweep_one p env m row w)
  unfolding sweep_one
  sweep_one-Expires none row w h = absurd (cc)
  sweep_one-Expires (some m) row w h =
      let tried = delete_disks p m.provider row.captured_disks w.cloud in
      let all = delete_disks_all m.provider row.captured_disks w.cloud in
      expire_one-Expires row tried.0 tried.1 (record w { cloud = tried.2 }) all.0 all.1

  -- What the loop comes to, from any count on.
  record Swept (count : ℕ) (cs : List SnapshotRow) (w : World S) (o : Outcome S ℕ) : Type 0 where
    counted : o.0 ≡ ok (count + length cs)
    recorded : o.1.events ≡ w.events ++ expired_events env cs
    none_left : filter (is_due env.now) o.1.snapshots ≡ []

  sweep_each-Swept :
      (machines : List Machine) (count : ℕ) (cs : List SnapshotRow) (w : World S)
      → All (HasMachine machines) cs
      → DueAmong env.now (ids_of cs) w.snapshots
      → Swept count cs w (sweep_each p env machines count cs w)
  unfolding sweep_each
  sweep_each-Swept machines count [] w found due = record {
    counted = ap ok (omega arith);
    recorded = sym (append-nil w.events);
    none_left = DueAmong-none env.now w.snapshots due;
  }
  sweep_each-Swept machines count (row ∷ cs) w found due =
      let m = find (machine_at row.machine_id) machines in
      go (sweep_each-Swept machines (count + 1) cs) (sweep_one p env m row w).0
        (sweep_one p env m row w).1 (sweep_one-Expires m row w found.0)
    where
      go :
          ((w' : World S)
            → All (HasMachine machines) cs
            → DueAmong env.now (ids_of cs) w'.snapshots
            → Swept (count + 1) cs w' (sweep_each p env machines (count + 1) cs w'))
          → (answer : Result ArchiveError Bool) (w' : World S) → Expires row w (answer, w')
          → Swept count (row ∷ cs) w (elim answer [
            | err e ↦ (err e, w')
            | ok expired ↦ sweep_each p env machines (if expired then count + 1 else count) cs w'
          ])
      go rest (err e) w' (answered, _, _) = absurd (cc)
      go rest (ok false) w' (answered, _, _) = absurd (cc)
      go rest (ok true) w' (answered, events, rows) =
          let later = rest w' found.1 (
            subst (DueAmong env.now (ids_of cs)) (sym rows)
              (DueAmong-expire env.now row.id (ids_of cs) w.snapshots due)) in
          record {
            counted = ground (arith, later.counted);
            recorded = simp (later.recorded, events, append_assoc);
            none_left = later.none_left;
          }

  candidates_up :
      (w : World S)
      → compute_expiry_sweep_candidates env none w ≡ ok (filter (is_due env.now) w.snapshots)
  unfolding compute_expiry_sweep_candidates
  candidates_up w = simp up.query_up

  -- Where nothing fails and every overdue snapshot has its machine, a sweep returns how many
  -- snapshots were overdue and not held, appends for each of them one `snapshot.expired` with all of
  -- its disks, and leaves none that is overdue and not held.
  pub expire_overdue_snapshots_exact :
      (w : World S)
      → All (HasMachine w.machines) (filter (is_due env.now) w.snapshots)
      → let (answer, w') = expire_overdue_snapshots p env w in
        let due = filter (is_due env.now) w.snapshots in
        (answer ≡ ok (length due))
        × (w'.events ≡ w.events ++ expired_events env due)
        × (filter (is_due env.now) w'.snapshots ≡ [])
  unfolding expire_overdue_snapshots
  expire_overdue_snapshots_exact w found =
      let whole = go (compute_expiry_sweep_candidates env none w) (candidates_up w) (
        sweep_each-Swept w.machines 0 (filter (is_due env.now) w.snapshots) w found
          (DueAmong-own env.now w.snapshots)) in
      (ground (arith, whole.counted), whole.recorded, whole.none_left)
    where
      go :
          (r : Result ArchiveError (List SnapshotRow))
          → r ≡ ok (filter (is_due env.now) w.snapshots)
          → Swept 0
              (filter (is_due env.now) w.snapshots)
              w
              (sweep_each p env w.machines 0 (filter (is_due env.now) w.snapshots) w)
          → Swept 0
              (filter (is_due env.now) w.snapshots)
              w
              (elim r [ err e ↦ (err e, w) | ok rows ↦ sweep_each p env w.machines 0 rows w ])
      go (err e) asked swept = absurd (cc)
      go (ok cs) asked swept =
          subst
            (λ rows.
              Swept 0 (filter (is_due env.now) w.snapshots) w
                (sweep_each p env w.machines 0 rows w))
            (cc asked) swept
