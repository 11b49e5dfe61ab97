-- ===== src/Restore/Quiet.antt =====
-- What carrying out a restore leaves alone.
use cloudable.Base.{
  if_keeps, not, or_default, ℕ, ◌≡◌, ◌⊎◌, refl, true, false, Option, none, some, ◌∷◌, ◌&&◌,
  number_eq, Bool-cases, inl, inr, Result, ok, err, if◌then◌else◌,
}
use cloudable.Lifecycle.{Machine, World, Provisioning, ProvisioningError, CapturedDisk, Env}
use cloudable.Restore.{
  is_error, name_of, owner_of, restored_row, failed_row, RestoreSnapshotInput, MachineService,
  NewMachine, RestoreEnv, record_restore_outcome, perform_restore_onto_machine,
  perform_restore_into_new_machine,
}
use cloudable.Restore.Checks.{wanted_machine, Checked, perform}

-- The provider's work leaves the approvals, the restore requests and the record alone.
pub record Quiet {S : Type 0} (w w' : World S) : Type 0 where
  pub same_db : w'.db ≡ w.db
  pub same_events : w'.events ≡ w.events
  pub same_requests : w'.restore_requests ≡ w.restore_requests

module _ {S : Type 0} where
  pub perform_onto-Quiet :
      (p : Provisioning S) (env : Env) (m : Machine) (disk : CapturedDisk) (w : World S)
      → Quiet w (perform_restore_onto_machine p env m disk w).1
  unfolding perform_restore_onto_machine record_restore_outcome
  perform_onto-Quiet p env m disk w =
      go (p.restore_data_disk m disk.external_id w.cloud).0 (Bool-cases (env.write_down m.id))
    where
      go :
          (r : Result ProvisioningError (Option ℕ))
          → ((env.write_down m.id ≡ true) ⊎ (env.write_down m.id ≡ false))
          → let w' = record w { cloud = (p.restore_data_disk m disk.external_id w.cloud).1 } in
            let out : Option ℕ × World S = elim r [
              | err e ↦ (none, record_restore_outcome env failed_row m.id w')
              | ok x ↦ (some m.id, record_restore_outcome env (restored_row x) m.id w')
            ] in
            Quiet w out.1
      go (err e) (inl d) =
          rw d (record { same_db = refl; same_events = refl; same_requests = refl })
      go (err e) (inr d) =
          rw d (record { same_db = refl; same_events = refl; same_requests = refl })
      go (ok x) (inl d) = rw d (record { same_db = refl; same_events = refl; same_requests = refl })
      go (ok x) (inr d) = rw d (record { same_db = refl; same_events = refl; same_requests = refl })

  pub perform_into-Quiet :
      (service : MachineService S) (env : Env) (wanted : NewMachine) (w : World S)
      → Quiet w (perform_restore_into_new_machine service env wanted w).1
  unfolding perform_restore_into_new_machine
  perform_into-Quiet service env wanted w = go (service.create wanted w.cloud).0
    where
      go :
          (made : Option Machine)
          → let w' = record w { cloud = (service.create wanted w.cloud).1 } in
            let out : Option ℕ × World S = elim made [
              | none ↦ (none, w')
              | some m ↦
                  let w'' = record w' { machines = m ∷ w.machines } in
                  if not env.lookup_down && is_error m.state then (none, w'') else (some m.id, w'')
            ] in
            Quiet w out.1
      go none = record { same_db = refl; same_events = refl; same_requests = refl }
      go (some m) =
          if_keeps (λ (out : Option ℕ × World S). Quiet w out.1)
            (not env.lookup_down && is_error m.state) _ _
            (λ _. record { same_db = refl; same_events = refl; same_requests = refl })
            (λ _. record { same_db = refl; same_events = refl; same_requests = refl })

module _ {S : Type 0} (p : Provisioning S) (service : MachineService S) (env : RestoreEnv) where
  pub perform-Quiet :
      (input : RestoreSnapshotInput) (c : Checked) (w : World S)
      → Quiet w (perform p service env input c w).1
  unfolding perform
  perform-Quiet input c w = go c.target
    where
      go :
          (t : Option Machine)
          → let out : Option ℕ × World S = elim t [
            | none ↦
                perform_restore_into_new_machine service env.archive
                  (wanted_machine c.source c.disk
                    (or_default (owner_of input.target) 0)
                    (name_of input.target)
                    input.requested_by_person_id)
                  w
            | some m ↦ perform_restore_onto_machine p env.archive m c.disk w
          ] in
            Quiet w out.1
      go none = perform_into-Quiet service env.archive _ w
      go (some m) = perform_onto-Quiet p env.archive m c.disk w
