-- ===== src/Snapshots/Cloud.antt =====
-- What is assumed of the providers' copies of disks, and what deleting a snapshot's disks comes to.
use cloudable.Base.{
  ℕ, ◌≡◌, ◌≢◌, refl, Bool, true, false, List, [], ◌∷◌, map, arith, Bool-cases, inl, inr, All,
}
use cloudable.Lifecycle.{CapturedDisk, Provider, Provisioning}
use cloudable.Snapshots.Sweeps.{is_answered, delete_disks}

-- `exists` says which copies a provider keeps. A deletion that is answered has taken place, and
-- none, answered or not, brings a copy back or touches another one.
pub record CopyLaws {S : Type 0} (p : Provisioning S) (exists : ℕ → S → Bool) : Type 0 where
  pub deleted_gone :
      (provider : Provider) (d : ℕ) (s : S)
      → is_answered (p.delete_snapshot_disk provider d s).0 ≡ true
      → exists d (p.delete_snapshot_disk provider d s).1 ≡ false
  pub stays_gone :
      (provider : Provider) (d x : ℕ) (s : S)
      → exists x s ≡ false
      → exists x (p.delete_snapshot_disk provider d s).1 ≡ false
  pub others_stay :
      (provider : Provider) (d x : ℕ) (s : S)
      → d ≢ x
      → exists x s ≡ true
      → exists x (p.delete_snapshot_disk provider d s).1 ≡ true

abbrev pub disk_ids : List CapturedDisk → List ℕ
disk_ids ds = map (λ d. d.external_id) ds

module _ {S : Type 0} (p : Provisioning S) (exists : ℕ → S → Bool) (laws : CopyLaws p exists) where
  abbrev pub AllGone : List CapturedDisk → S → Type 0
  AllGone ds s = All (λ d. exists d.external_id s ≡ false) ds

  pub delete_disks-stays_gone :
      (provider : Provider) (ds : List CapturedDisk) (x : ℕ) (s : S)
      → exists x s ≡ false
      → exists x (delete_disks p provider ds s).2 ≡ false
  unfolding delete_disks
  delete_disks-stays_gone provider [] x s h = h
  delete_disks-stays_gone provider (d ∷ ds) x s h =
      let s' = (p.delete_snapshot_disk provider d.external_id s).1 in
      let rest =
        delete_disks-stays_gone provider ds x s' (laws.stays_gone provider d.external_id x s h) in
      ground (arith, rest)

  -- If none failed, none is left, and all are reported.
  pub delete_disks-AllGone :
      (provider : Provider) (ds : List CapturedDisk) (s : S)
      → (delete_disks p provider ds s).1 ≡ false
      → AllGone ds (delete_disks p provider ds s).2
        × ((delete_disks p provider ds s).0 ≡ disk_ids ds)
  unfolding delete_disks
  delete_disks-AllGone provider [] s h = (tt, refl)
  delete_disks-AllGone provider (d ∷ ds) s h =
      let call = p.delete_snapshot_disk provider d.external_id s in
      elim (Bool-cases (is_answered call.0)) [
        | inl e ↦
            let rest = delete_disks-AllGone provider ds call.1 (ground arith) in
            let here =
              delete_disks-stays_gone provider ds d.external_id call.1
                (laws.deleted_gone provider d.external_id s e) in
            ((ground (arith, here), ground (arith, rest)), ground (arith, rest))
        | inr e ↦ absurd (ground arith)
      ]
