-- ===== src/Snapshots/Copies.antt =====
-- No copy of a disk is lost from sight: a snapshot names what was copied, or the copies are deleted.
use cloudable.Base.{
  if_keeps, subst, ℕ, ◌≡◌, ◌⊎◌, refl, Bool, true, false, List, [], ◌∷◌, Memᴰ, inl, inr, Result, ok,
  err,
}
use cloudable.Lifecycle.{
  Machine, CapturedDisk, SnapshotTrigger, SnapshotScope, SnapshotRow, World, ProvisioningError,
  Provisioning, Provider, db_error, provisioning_failed, Env,
}
use cloudable.Snapshots.{
  Outcome, insert_fails, publish, snapshot_row, resolve_retention_days, rollback_captured_disks,
  record_snapshot, tolerate_not_found, create_snapshot,
}
use cloudable.Snapshots.Sweeps.{is_answered}
use cloudable.Snapshots.Cloud.{CopyLaws, AllGone}

-- A row of the table about this machine that names these disks, on hold if the machine is.
pub record Named (machine : Machine) (disks : List CapturedDisk) (rows : List SnapshotRow)
    : Type 0 where
  pub row : SnapshotRow
  pub present : Memᴰ row rows
  pub about : row.machine_id ≡ machine.id
  pub names : row.captured_disks ≡ disks
  pub held : row.legal_hold ≡ machine.legal_hold

module _ {S : Type 0} (p : Provisioning S) (exists : ℕ → S → Bool) (laws : CopyLaws p exists)
    (deletes : (provider : Provider) (d : ℕ) (s : S)
      → is_answered (p.delete_snapshot_disk provider d s).0 ≡ true) where
  rollback-stays_gone :
      (provider : Provider) (ds : List CapturedDisk) (x : ℕ) (s : S)
      → exists x s ≡ false
      → exists x (rollback_captured_disks p provider ds s) ≡ false
  unfolding rollback_captured_disks
  rollback-stays_gone provider [] x s h = h
  rollback-stays_gone provider (d ∷ ds) x s h =
      rollback-stays_gone provider ds x (p.delete_snapshot_disk provider d.external_id s).1
        (laws.stays_gone provider d.external_id x s h)

  rollback-AllGone :
      (provider : Provider) (ds : List CapturedDisk) (s : S)
      → AllGone p exists laws ds (rollback_captured_disks p provider ds s)
  unfolding rollback_captured_disks
  rollback-AllGone provider [] s = tt
  rollback-AllGone provider (d ∷ ds) s =
      let s' = (p.delete_snapshot_disk provider d.external_id s).1 in
      (
        rollback-stays_gone provider ds d.external_id s'
            (laws.deleted_gone provider d.external_id s (deletes provider d.external_id s)),
        rollback-AllGone provider ds s',
      )

  abbrev Accounted : Machine → List CapturedDisk → Outcome S SnapshotRow → Type 0
  Accounted machine disks o =
      Named machine disks o.1.snapshots
      ⊎ ((o.0 ≡ err db_error) × AllGone p exists laws disks o.1.cloud)

  record_snapshot-Accounted :
      (env : Env) (machine : Machine) (trigger : SnapshotTrigger) (scope : SnapshotScope) (days : ℕ)
      (disks : List CapturedDisk) (w : World S)
      → Accounted machine disks (record_snapshot p env machine trigger scope days disks w)
  unfolding record_snapshot publish
  record_snapshot-Accounted env machine trigger scope days disks w =
      let row = snapshot_row env machine trigger scope days disks in
      let named : Named machine disks (row ∷ w.snapshots) = record {
        row = row;
        present = Memᴰ.head refl;
        about = refl;
        names = refl;
        held = refl;
      } in
      if_keeps (Accounted machine disks) (insert_fails env w) _ _
        (λ _. inr (refl, rollback-AllGone machine.provider disks w.cloud))
        (λ _.
          if_keeps (Accounted machine disks) (env.publish_down row.id) _ _ (λ _. inl named)
            (λ _. inl named))

  -- Where the provider deletes what it is told to, every disk that a call of `create_snapshot` copies
  -- is named by a row of the table about that machine, on hold if the machine is; or the row could
  -- not be written, and the call fails with the copies deleted.
  pub create_snapshot-Accounted :
      (env : Env) (machine : Machine) (trigger : SnapshotTrigger) (scope : SnapshotScope)
      (quiesce : Bool) (w : World S) (disks : List CapturedDisk)
      → tolerate_not_found (p.snapshot machine scope env.new_id quiesce w.cloud).0 ≡ ok disks
      → let (answer, w') = create_snapshot p env machine trigger scope quiesce w in
        Named machine disks w'.snapshots
        ⊎ ((answer ≡ err db_error) × AllGone p exists laws disks w'.cloud)
  unfolding create_snapshot
  create_snapshot-Accounted env machine trigger scope quiesce w disks copied =
      go (tolerate_not_found (p.snapshot machine scope env.new_id quiesce w.cloud).0) copied
    where
      go :
          (answer : Result ProvisioningError (List CapturedDisk))
          → answer ≡ ok disks
          → let w' = record w { cloud = (p.snapshot machine scope env.new_id quiesce w.cloud).1 } in
            Accounted machine disks (elim answer [
              | ok ds ↦
                  record_snapshot p env machine trigger scope
                    (resolve_retention_days env machine.org_id machine.id w.db)
                    ds
                    w'
              | err e ↦ (err (provisioning_failed e), w')
            ])
      go (err e) same = absurd (cc)
      go (ok ds) same =
          let w' = record w { cloud = (p.snapshot machine scope env.new_id quiesce w.cloud).1 } in
          let days = resolve_retention_days env machine.org_id machine.id w.db in
          let e : ds ≡ disks = cc same in
          subst
            (λ xs. Accounted machine xs (record_snapshot p env machine trigger scope days ds w')) e
            (record_snapshot-Accounted env machine trigger scope days ds w')
