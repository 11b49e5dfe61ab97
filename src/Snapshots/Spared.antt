-- ===== src/Snapshots/Spared.antt =====
-- What a sweep leaves alone, whatever of it fails.
use cloudable.Base.{
  ℕ, ◌+◌, ◌≤◌, ◌≡◌, ◌≢◌, ◌⊎◌, refl, sym, subst, Bool, true, false, Option, none, some, List, [],
  ◌∷◌, map, Memᴰ, arith, inl, inr, All, All-zip, All-mem, All-filter, All-filter_of, Result, ok,
  err, filter, find, if◌then◌else◌, if_keeps, is_some, distinct_ids, same_key, mem-update_where,
}
use cloudable.Lifecycle.{
  Machine, CapturedDisk, SnapshotRow, World, Provisioning, ArchiveError, Env, Provider, machine_at,
  snapshot_at, update_snapshot,
}
use cloudable.Snapshots.{Outcome, publish}
use cloudable.Snapshots.Sweeps.{
  is_due, expire_row, delete_disks, expire_one, sweep_one, sweep_each,
  compute_expiry_sweep_candidates, expire_overdue_snapshots,
}
use cloudable.Snapshots.Cloud.{CopyLaws}
use cloudable.Snapshots.Expired.{candidates-eq-ok}

-- Held, still within its time, or expired already.
abbrev pub Spared : ℕ → SnapshotRow → Type 0
Spared now r = (r.legal_hold ≡ true) ⊎ ((now ≤ r.expires_at) ⊎ (is_some r.expired_at ≡ true))

-- A copy that no other snapshot which the sweep may take names as its own.
abbrev pub Unshared : ℕ → List SnapshotRow → ℕ → Type 0
Unshared now rows x =
    All (λ c. ((Spared now c → ⊥) → All (λ d. d.external_id ≢ x) c.captured_disks)) rows

not_due : (now : ℕ) (r : SnapshotRow) → Spared now r → is_due now r ≡ false
not_due now r (inl held) = ground arith
not_due now r (inr (inl early)) = ground arith
not_due now r (inr (inr done)) = ground arith

not-Spared : (now : ℕ) (r : SnapshotRow) → is_due now r ≡ true → Spared now r → ⊥
not-Spared now r due spared = cc (not_due now r spared)

module _ {S : Type 0} (p : Provisioning S) (exists : ℕ → S → Bool) (laws : CopyLaws p exists) where
  delete_disks-others_stay :
      (provider : Provider) (ds : List CapturedDisk) (x : ℕ) (s : S)
      → All (λ d. d.external_id ≢ x) ds
      → exists x s ≡ true
      → exists x (delete_disks p provider ds s).2 ≡ true
  unfolding delete_disks
  delete_disks-others_stay provider [] x s other h = h
  delete_disks-others_stay provider (d ∷ ds) x s other h =
      let s' = (p.delete_snapshot_disk provider d.external_id s).1 in
      let rest =
        delete_disks-others_stay provider ds x s' other.1
          (laws.others_stay provider d.external_id x s other.0 h) in
      ground (arith, rest)

  module _ (r : SnapshotRow) (x : ℕ) where
    -- The row is in the table, and the copy, if it was there at first, still is.
    abbrev Stays : (at_first : Bool) → World S → Type 0
    Stays at_first w = Memᴰ r w.snapshots × (at_first ≡ true → exists x w.cloud ≡ true)

    -- A candidate that is another snapshot, and does not have the copy.
    abbrev Other : SnapshotRow → Type 0
    Other c = (c.id ≡ r.id → ⊥) × All (λ d. d.external_id ≢ x) c.captured_disks

    expire_one-Stays :
        (env : Env) (b : Bool) (row : SnapshotRow) (deleted : List ℕ) (failed : Bool) (w : World S)
        → Other row
        → Stays b w
        → Stays b (expire_one p env row deleted failed w).1
    unfolding expire_one publish
    expire_one-Stays env b row deleted true w other k = k
    expire_one-Stays env b row deleted false w other k =
        let other_id : snapshot_at row.id r ≡ false = ground (arith, other.0) in
        let marked : Stays b (update_snapshot (expire_row env.now) row.id w) = (
          mem-update_where (snapshot_at row.id) (expire_row env.now) w.snapshots r k.0 other_id,
          k.1,
        ) in
        if_keeps (λ (o : Outcome S Bool). Stays b o.1) (env.write_down row.id) _ _ (λ _. k)
          (λ _.
            if_keeps (λ (o : Outcome S Bool). Stays b o.1) (env.publish_down row.id) _ _
              (λ _. marked) (λ _. marked))

    sweep_one-Stays :
        (env : Env) (b : Bool) (m : Option Machine) (row : SnapshotRow) (w : World S)
        → Other row
        → Stays b w
        → Stays b (sweep_one p env m row w).1
    unfolding sweep_one
    sweep_one-Stays env b none row w other k = k
    sweep_one-Stays env b (some m) row w other k =
        let tried = delete_disks p m.provider row.captured_disks w.cloud in
        expire_one-Stays env b row tried.0 tried.1 (record w { cloud = tried.2 }) other
          (
            k.0,
            λ e. delete_disks-others_stay m.provider row.captured_disks x w.cloud other.1 (k.1 e),
          )

    abbrev After : Bool → Outcome S ℕ → Type 0
    After b o = Stays b o.1

    sweep_each-Stays :
        (env : Env) (b : Bool) (machines : List Machine) (count : ℕ) (cs : List SnapshotRow)
        (w : World S)
        → All Other cs
        → Stays b w
        → After b (sweep_each p env machines count cs w)
    unfolding sweep_each
    sweep_each-Stays env b machines count [] w other k = k
    sweep_each-Stays env b machines count (row ∷ cs) w other k =
        let m = find (machine_at row.machine_id) machines in
        go (λ n w' k'. sweep_each-Stays env b machines n cs w' other.1 k')
          (sweep_one p env m row w).0 (sweep_one p env m row w).1
          (sweep_one-Stays env b m row w other.0 k)
      where
        go :
            ((n : ℕ) (w' : World S) → Stays b w' → After b (sweep_each p env machines n cs w'))
            → (answer : Result ArchiveError Bool) (w' : World S) → Stays b w'
            → After b (elim answer [
              | err e ↦ (err e, w')
              | ok expired ↦ sweep_each p env machines (if expired then count + 1 else count) cs w'
            ])
        go rest (err e) w' k' = k'
        go rest (ok expired) w' k' = rest (if expired then count + 1 else count) w' k'

  -- The snapshots that are due, seen from one that is spared.
  due-Other :
      (now : ℕ) (r : SnapshotRow) (x : ℕ) (rows : List SnapshotRow)
      → Memᴰ r rows
      → distinct_ids (map (λ (c : SnapshotRow). c.id) rows) ≡ true
      → Spared now r
      → Unshared now rows x
      → All (Other r x) (filter (is_due now) rows)
  due-Other now r x rows m keys spared own =
      All-zip (λ c. is_due now c ≡ true)
        (λ c.
          All (λ s. s.id ≡ c.id → s ≡ c) rows
          × ((Spared now c → ⊥) → All (λ d. d.external_id ≢ x) c.captured_disks))
        (Other r x)
        (λ c due (same, free). (
          λ e. not-Spared now c due (
              subst (Spared now) (All-mem (λ s. s.id ≡ c.id → s ≡ c) rows r m same (sym e)) spared),
          free (not-Spared now c due),
        ))
        (filter (is_due now) rows) (All-filter (is_due now) rows)
        (All-filter_of _ (is_due now) rows (
          All-zip (λ c. All (λ s. s.id ≡ c.id → s ≡ c) rows)
            (λ c. (Spared now c → ⊥) → All (λ d. d.external_id ≢ x) c.captured_disks) _
            (λ c a b. (a, b)) rows (same_key (λ (c : SnapshotRow). c.id) rows keys) own))

  -- Whatever of a sweep fails: a snapshot that is under legal hold, within its time or expired
  -- already stays in the table as it is, and a copy of a disk that no overdue snapshot names is not
  -- deleted.
  pub expire_overdue_snapshots_spares :
      (env : Env) (w : World S) (r : SnapshotRow) (x : ℕ)
      → distinct_ids (map (λ (c : SnapshotRow). c.id) w.snapshots) ≡ true
      → Memᴰ r w.snapshots
      → Spared env.now r
      → Unshared env.now w.snapshots x
      → exists x w.cloud ≡ true
      → let w' = (expire_overdue_snapshots p env w).1 in
        Memᴰ r w'.snapshots × (exists x w'.cloud ≡ true)
  unfolding expire_overdue_snapshots
  expire_overdue_snapshots_spares env w r x keys m spared own there =
      let stays = go (compute_expiry_sweep_candidates env none w) (λ cs e.
        subst (All (Other r x)) (sym (candidates-eq-ok env w cs e))
          (due-Other env.now r x w.snapshots m keys spared own)) in
      (stays.0, stays.1 refl)
    where
      go :
          (a : Result ArchiveError (List SnapshotRow))
          → ((cs : List SnapshotRow) → a ≡ ok cs → All (Other r x) cs)
          → After r x true
              (elim a [ err e ↦ (err e, w) | ok rows ↦ sweep_each p env w.machines 0 rows w ])
      go (err e) other = (m, λ _. there)
      go (ok cs) other =
          sweep_each-Stays r x env true w.machines 0 cs w (other cs refl) (m, λ _. there)
