-- ===== src/Snapshots/Expired.antt =====
-- Whatever fails during a sweep, a snapshot that is marked as expired has none of its disks left.
use cloudable.Base.{
  same_key, ap, ℕ, ◌+◌, ◌≡◌, refl, sym, subst, Bool, true, false, Option, none, some, List, [], ◌∷◌,
  map, arith, All, All-map, All-filter_of, Result, ok, err, filter, find, if◌then◌else◌, if_keeps,
  is_some, number_eq, update_where, All-update_where, All-update_where_each, distinct_ids,
}
use cloudable.Lifecycle.{
  Machine, CapturedDisk, SnapshotRow, World, Provisioning, ArchiveError, Env, machine_at,
  snapshot_at, update_snapshot,
}
use cloudable.Snapshots.{Outcome, publish}
use cloudable.Snapshots.Sweeps.{
  is_due, expire_row, delete_disks, expire_one, sweep_one, sweep_each,
  compute_expiry_sweep_candidates, expire_overdue_snapshots,
}
use cloudable.Snapshots.Cloud.{CopyLaws, AllGone, delete_disks-stays_gone, delete_disks-AllGone}

-- The rows of the table that have a snapshot's identifier have its disks.
abbrev pub Named : List SnapshotRow → SnapshotRow → Type 0
Named rows c = All (λ r. r.id ≡ c.id → r.captured_disks ≡ c.captured_disks) rows

-- With distinct identifiers each row of the table is named by itself.
pub all-Named :
    (rows : List SnapshotRow)
    → distinct_ids (map (λ (x : SnapshotRow). x.id) rows) ≡ true
    → All (Named rows) rows
all-Named rows keys =
    All-map (λ c. All (λ r. r.id ≡ c.id → r ≡ c) rows) (Named rows)
      (λ c h.
        All-map (λ r. r.id ≡ c.id → r ≡ c) (λ r. r.id ≡ c.id → r.captured_disks ≡ c.captured_disks)
          (λ r same e. ap (λ x. x.captured_disks) (same e)) rows h)
      rows (same_key (λ (x : SnapshotRow). x.id) rows keys)

Named-expire :
    (now id : ℕ) (rows : List SnapshotRow) (c : SnapshotRow)
    → Named rows c
    → Named (update_where (snapshot_at id) (expire_row now) rows) c
Named-expire now id rows c h =
    All-update_where (λ r. r.id ≡ c.id → r.captured_disks ≡ c.captured_disks) (snapshot_at id)
      (expire_row now) (λ a hit k. k) rows h

pub candidates-eq-ok :
    {S : Type 0} (env : Env) (w : World S) (cs : List SnapshotRow)
    → compute_expiry_sweep_candidates env none w ≡ ok cs
    → cs ≡ filter (is_due env.now) w.snapshots
unfolding compute_expiry_sweep_candidates
candidates-eq-ok env w cs h = ground arith

module _ {S : Type 0} (p : Provisioning S) (exists : ℕ → S → Bool) (laws : CopyLaws p exists) where
  abbrev pub ExpiredRowsGone : List SnapshotRow → S → Type 0
  ExpiredRowsGone rows s =
      All (λ r. is_some r.expired_at ≡ true → AllGone p exists laws r.captured_disks s) rows

  -- Every snapshot that is marked as expired has lost all its disks.
  abbrev pub ExpiredGone : World S → Type 0
  ExpiredGone w = ExpiredRowsGone w.snapshots w.cloud

  -- What the loop keeps: the invariant, and the names of the snapshots that are still to come.
  abbrev Kept : List SnapshotRow → World S → Type 0
  Kept cs w = ExpiredGone w × All (Named w.snapshots) cs

  AllGone-later :
      (s s' : S) (ds : List CapturedDisk)
      → ((x : ℕ) → exists x s ≡ false → exists x s' ≡ false)
      → AllGone p exists laws ds s
      → AllGone p exists laws ds s'
  AllGone-later s s' ds later h =
      All-map (λ d. exists d.external_id s ≡ false) (λ d. exists d.external_id s' ≡ false)
        (λ d. later d.external_id) ds h

  ExpiredRowsGone-later :
      (s s' : S) (rows : List SnapshotRow)
      → ((x : ℕ) → exists x s ≡ false → exists x s' ≡ false)
      → ExpiredRowsGone rows s
      → ExpiredRowsGone rows s'
  ExpiredRowsGone-later s s' rows later h =
      All-map (λ r. is_some r.expired_at ≡ true → AllGone p exists laws r.captured_disks s)
        (λ r. is_some r.expired_at ≡ true → AllGone p exists laws r.captured_disks s')
        (λ r k e. AllGone-later s s' r.captured_disks later (k e)) rows h

  -- Marking a snapshot whose disks are gone.
  mark-ExpiredRowsGone :
      (now : ℕ) (row : SnapshotRow) (rows : List SnapshotRow) (s : S)
      → Named rows row
      → AllGone p exists laws row.captured_disks s
      → ExpiredRowsGone rows s
      → ExpiredRowsGone (update_where (snapshot_at row.id) (expire_row now) rows) s
  mark-ExpiredRowsGone now row rows s named gone h =
      All-update_where_each
        (λ r. is_some r.expired_at ≡ true → AllGone p exists laws r.captured_disks s)
        (snapshot_at row.id) (expire_row now) rows
        (All-map (λ r. r.id ≡ row.id → r.captured_disks ≡ row.captured_disks)
          (λ r.
            snapshot_at row.id r ≡ true
            → is_some (expire_row now r).expired_at ≡ true
            → AllGone p exists laws r.captured_disks s)
          (λ r same hit e.
            subst (λ ds. AllGone p exists laws ds s)
              (sym (same ((number_eq.same_iff r.id row.id).0 hit))) gone)
          rows named)
        h

  expire_one-Kept :
      (env : Env) (row : SnapshotRow) (deleted : List ℕ) (failed : Bool) (cs : List SnapshotRow)
      (w : World S)
      → Named w.snapshots row
      → (failed ≡ false → AllGone p exists laws row.captured_disks w.cloud)
      → Kept cs w
      → Kept cs (expire_one p env row deleted failed w).1
  unfolding expire_one publish
  expire_one-Kept env row deleted true cs w named gone k = k
  expire_one-Kept env row deleted false cs w named gone k =
      let marked : Kept cs (update_snapshot (expire_row env.now) row.id w) = (
        mark-ExpiredRowsGone env.now row w.snapshots w.cloud named (gone refl) k.0,
        All-map (Named w.snapshots)
            (Named (update_where (snapshot_at row.id) (expire_row env.now) w.snapshots))
            (Named-expire env.now row.id w.snapshots) cs k.1,
      ) in
      if_keeps (λ (o : Outcome S Bool). Kept cs o.1) (env.write_down row.id) _ _ (λ _. k)
        (λ _.
          if_keeps (λ (o : Outcome S Bool). Kept cs o.1) (env.publish_down row.id) _ _ (λ _. marked)
            (λ _. marked))

  sweep_one-Kept :
      (env : Env) (m : Option Machine) (row : SnapshotRow) (cs : List SnapshotRow) (w : World S)
      → Named w.snapshots row
      → Kept cs w
      → Kept cs (sweep_one p env m row w).1
  unfolding sweep_one
  sweep_one-Kept env none row cs w named k = k
  sweep_one-Kept env (some m) row cs w named k =
      let tried = delete_disks p m.provider row.captured_disks w.cloud in
      expire_one-Kept env row tried.0 tried.1 cs (record w { cloud = tried.2 }) named
        (λ done. (delete_disks-AllGone p exists laws m.provider row.captured_disks w.cloud done).0)
        (
          ExpiredRowsGone-later w.cloud tried.2 w.snapshots
              (λ x. delete_disks-stays_gone p exists laws m.provider row.captured_disks x w.cloud)
              k.0,
          k.1,
        )

  abbrev After : Outcome S ℕ → Type 0
  After o = ExpiredGone o.1

  sweep_each-Kept :
      (env : Env) (machines : List Machine) (count : ℕ) (cs : List SnapshotRow) (w : World S)
      → Kept cs w
      → ExpiredGone (sweep_each p env machines count cs w).1
  unfolding sweep_each
  sweep_each-Kept env machines count [] w k = k.0
  sweep_each-Kept env machines count (row ∷ cs) w k =
      let m = find (machine_at row.machine_id) machines in
      go (λ n w' k'. sweep_each-Kept env machines n cs w' k') (sweep_one p env m row w).0
        (sweep_one p env m row w).1 (sweep_one-Kept env m row cs w k.1.0 (k.0, k.1.1))
    where
      go :
          ((n : ℕ) (w' : World S) → Kept cs w' → ExpiredGone (sweep_each p env machines n cs w').1)
          → (answer : Result ArchiveError Bool) (w' : World S) → Kept cs w'
          → After (elim answer [
            | err e ↦ (err e, w')
            | ok expired ↦ sweep_each p env machines (if expired then count + 1 else count) cs w'
          ])
      go rest (err e) w' k' = k'.0
      go rest (ok expired) w' k' = rest (if expired then count + 1 else count) w' k'

  -- A sweep, whatever of it fails, keeps this: a snapshot that is marked as expired has none of its
  -- disks left at the provider.
  pub expire_overdue_snapshots-ExpiredGone :
      (env : Env) (w : World S)
      → distinct_ids (map (λ (r : SnapshotRow). r.id) w.snapshots) ≡ true
      → ExpiredGone w
      → ExpiredGone (expire_overdue_snapshots p env w).1
  unfolding expire_overdue_snapshots
  expire_overdue_snapshots-ExpiredGone env w keys h =
      go (compute_expiry_sweep_candidates env none w) (λ cs e.
        subst (λ xs. All (Named w.snapshots) xs) (sym (candidates-eq-ok env w cs e))
          (All-filter_of (Named w.snapshots) (is_due env.now) w.snapshots
            (all-Named w.snapshots keys)))
    where
      go :
          (r : Result ArchiveError (List SnapshotRow))
          → ((cs : List SnapshotRow) → r ≡ ok cs → All (Named w.snapshots) cs)
          → After (elim r [ err e ↦ (err e, w) | ok rows ↦ sweep_each p env w.machines 0 rows w ])
      go (err e) named = h
      go (ok cs) named = sweep_each-Kept env w.machines 0 cs w (h, named cs refl)
