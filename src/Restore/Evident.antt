-- ===== src/Restore/Evident.antt =====
-- A restore is recorded exactly if it has happened, and it happens at once only where nothing is lost.
use cloudable.Base.{
  ℕ, ◌≡◌, ◌⊎◌, refl, sym, ap, subst, ◌∙◌, Bool, true, Option, none, some, List, inl, inr, ok, err,
  find, number_eq,
}
use cloudable.Lifecycle.{Machine, World, Provisioning, machine_at}
use cloudable.Snapshots.Archiving.{is_archived}
use cloudable.Restore.{
  RestoreError, RestoreTarget, new_machine, existing_machine, RestoreSnapshotInput,
  RestoreSnapshotResult, MachineService, RestoreEnv,
}
use cloudable.Restore.Checks.{Checked, gate, restore_snapshot}
use cloudable.Restore.Refused.{Admitted, TargetOk, restore_snapshot-Refuses}
use cloudable.Restore.Gate.{Restored, Untold, gate-Restored, restored-archived}

module _ {S : Type 0} (p : Provisioning S) (service : MachineService S) (env : RestoreEnv)
    (input : RestoreSnapshotInput) (w : World S) where
  -- A call that says that it has restored a snapshot had one that passes the checks, asked for the
  -- approval with the floor of this restore, was given it at once, and has put the data back: the
  -- provider has replaced the disk of the target by the snapshot's data disk, and the row of the target
  -- says so if it could be written, or the machine that was wanted has been made from that disk. It has
  -- then appended exactly one `snapshot.restored`, with that approval and the machine that has the data.
  -- Every other call says that nothing is restored and appends none.
  pub restore_snapshot-Evident :
      let out = restore_snapshot p service env input w in
      ((c : Checked) × Admitted input w c × Restored p service env input c w out)
      ⊎ Untold p service env w out
  restore_snapshot-Evident = go (restore_snapshot-Refuses p service env input w)
    where
      after :
          (c : Checked)
          → Admitted input w c
          → let out = gate p service env input c w in
            Restored p service env input c w out ⊎ Untold p service env w out
            → ((c : Checked) × Admitted input w c × Restored p service env input c w out)
              ⊎ Untold p service env w out
      after c admitted (inl done) = inl (c, admitted, done)
      after c admitted (inr none_done) = inr none_done

      go :
          ((e : RestoreError) × (restore_snapshot p service env input w ≡ (err e, w)))
            ⊎ ((c : Checked) × Admitted input w c
                × (restore_snapshot p service env input w ≡ gate p service env input c w))
          → let out = restore_snapshot p service env input w in
            ((c : Checked) × Admitted input w c × Restored p service env input c w out)
            ⊎ Untold p service env w out
      go (inl (e, same)) =
          inr (subst (Untold p service env w) (sym same) (λ r k. absurd (cc), refl))
      go (inr (c, admitted, same)) =
          subst
            (λ out.
              ((c : Checked) × Admitted input w c × Restored p service env input c w out)
              ⊎ Untold p service env w out)
            (sym same) (after c admitted (gate-Restored p service env input c w))

  existing_target :
      (machines : List Machine) (t : Option Machine) (wanted : RestoreTarget) (id : ℕ)
      (confirm : Bool) (m : Machine)
      → wanted ≡ existing_machine id confirm
      → TargetOk machines t wanted
      → find (machine_at id) machines ≡ some m
      → t ≡ some m
  existing_target machines (some x) (existing_machine i b) id confirm m e ok_target found =
      let same_id : i ≡ id = cc e in
      sym (ok_target.0) ∙ ap (λ n. find (machine_at n) machines) same_id ∙ found
  existing_target machines none (existing_machine i b) id confirm m e ok_target found =
      absurd ok_target
  existing_target machines t (new_machine owner name) id confirm m e ok_target found = absurd (cc)

  -- A restore that is carried out in the call that asks for it, so with nobody's agreement, overwrites
  -- no machine that could lose data: if its target is a machine, that machine is archived.
  restore_at_once_spares :
      (r : RestoreSnapshotResult) (id : ℕ) (confirm : Bool) (m : Machine)
      → (restore_snapshot p service env input w).0 ≡ ok r
      → r.restored ≡ true
      → input.target ≡ existing_machine id confirm
      → find (machine_at id) w.machines ≡ some m
      → is_archived m.state ≡ true
  restore_at_once_spares r id confirm m answered restored target found = go restore_snapshot-Evident
    where
      go :
          (let out = restore_snapshot p service env input w in
            ((c : Checked) × Admitted input w c × Restored p service env input c w out)
            ⊎ Untold p service env w out)
          → is_archived m.state ≡ true
      go (inl (c, admitted, done)) =
          restored-archived p service env input c w done.approval m done.requested done.given (
            existing_target w.machines c.target input.target id confirm m target admitted.target_ok
              found)
      go (inr (untold, _)) = absurd (cc (untold r answered))
