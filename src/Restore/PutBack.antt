-- ===== src/Restore/PutBack.antt =====
-- A restore that answers with a machine has put the data back there: the provider's restore, or
-- `MachineService.create` for a machine that is to be made, was called and succeeded.
use cloudable.Base.{
  if_keeps, not, or_default, ℕ, ◌≡◌, refl, false, Option, none, some, ◌∷◌, ◌&&◌, number_eq, arith,
  Bool-cases, inl, inr, Result, ok, err, if◌then◌else◌, update_where,
}
use cloudable.Lifecycle.{
  Machine, World, Provisioning, ProvisioningError, CapturedDisk, Env, machine_at, append_event,
  LifecycleEvent,
}
use cloudable.Restore.{
  is_error, name_of, owner_of, restored_row, failed_row, RestoreSnapshotInput, MachineService,
  NewMachine, RestoreEnv, record_restore_outcome, perform_restore_onto_machine,
  perform_restore_into_new_machine,
}
use cloudable.Restore.Checks.{wanted_machine, Checked, perform}

module _ {S : Type 0} where
  -- The provider has put the disk back onto the machine `m`, and the machine's row says so if it could
  -- be written.
  pub record Overwritten (p : Provisioning S) (env : Env) (m : Machine) (disk : CapturedDisk)
      (w w' : World S) : Type 0 where
    pub external : Option ℕ
    pub called : (p.restore_data_disk m disk.external_id w.cloud).0 ≡ ok external
    pub after : w'.cloud ≡ (p.restore_data_disk m disk.external_id w.cloud).1
    pub written : w'.machines ≡ (
        if env.write_down m.id
        then w.machines
        else update_where (machine_at m.id) (restored_row external) w.machines)

  -- The service has made the machine that was wanted, and unless its state could not be read it is
  -- not in error.
  pub record MadeAnew (service : MachineService S) (env : Env) (wanted : NewMachine) (id : ℕ)
      (w w' : World S) : Type 0 where
    pub made : Machine
    pub named : made.id ≡ id
    pub called : (service.create wanted w.cloud).0 ≡ some made
    pub after : w'.cloud ≡ (service.create wanted w.cloud).1
    pub present : w'.machines ≡ made ∷ w.machines
    pub sound : env.lookup_down ≡ false → is_error made.state ≡ false

  perform_onto-Overwritten :
      (p : Provisioning S) (env : Env) (m : Machine) (disk : CapturedDisk) (w : World S) (id : ℕ)
      → let out = perform_restore_onto_machine p env m disk w in
        out.0 ≡ some id → (m.id ≡ id) × Overwritten p env m disk w out.1
  unfolding perform_restore_onto_machine record_restore_outcome
  perform_onto-Overwritten p env m disk w id =
      go (p.restore_data_disk m disk.external_id w.cloud).0 refl
    where
      go :
          (r : Result ProvisioningError (Option ℕ))
          → (p.restore_data_disk m disk.external_id w.cloud).0 ≡ r
          → let w' = record w { cloud = (p.restore_data_disk m disk.external_id w.cloud).1 } in
            let out : Option ℕ × World S = elim r [
              | err e ↦ (none, record_restore_outcome env failed_row m.id w')
              | ok x ↦ (some m.id, record_restore_outcome env (restored_row x) m.id w')
            ] in
            out.0 ≡ some id → (m.id ≡ id) × Overwritten p env m disk w out.1
      go (err e) came h = absurd (cc)
      go (ok x) came h = (
        cc h,
        elim (Bool-cases (env.write_down m.id)) [
          | inl d ↦ rw d (record { external = x; called = came; after = refl; written = rw d refl })
          | inr d ↦ rw d (record { external = x; called = came; after = refl; written = rw d refl })
        ],
      )

  perform_into-MadeAnew :
      (service : MachineService S) (env : Env) (wanted : NewMachine) (w : World S) (id : ℕ)
      → let out = perform_restore_into_new_machine service env wanted w in
        out.0 ≡ some id → MadeAnew service env wanted id w out.1
  unfolding perform_restore_into_new_machine
  perform_into-MadeAnew service env wanted w id = go (service.create wanted w.cloud).0 refl
    where
      go :
          (made : Option Machine)
          → (service.create wanted w.cloud).0 ≡ made
          → let w' = record w { cloud = (service.create wanted w.cloud).1 } in
            let out : Option ℕ × World S = elim made [
              | none ↦ (none, w')
              | some m ↦
                  let w'' = record w' { machines = m ∷ w.machines } in
                  if not env.lookup_down && is_error m.state then (none, w'') else (some m.id, w'')
            ] in
            out.0 ≡ some id → MadeAnew service env wanted id w out.1
      go none came = λ h. absurd (cc)
      go (some m) came =
          if_keeps
            (λ (out : Option ℕ × World S). out.0 ≡ some id → MadeAnew service env wanted id w out.1)
            (not env.lookup_down && is_error m.state) _ _ (λ _ h. absurd (cc))
            (λ fine h. record {
              made = m;
              named = cc h;
              called = came;
              after = refl;
              present = refl;
              sound = λ up. ground arith;
            })

module _ {S : Type 0} (p : Provisioning S) (service : MachineService S) (env : RestoreEnv)
    (input : RestoreSnapshotInput) (c : Checked) where
  -- The data is back on the machine `id`: on the target, or on a machine made for it.
  abbrev pub PutBackOn : Option Machine → ℕ → World S → World S → Type 0
  PutBackOn (some m) id w w' = (m.id ≡ id) × Overwritten p env.archive m c.disk w w'
  PutBackOn none id w w' =
      MadeAnew service env.archive
        (wanted_machine c.source c.disk (or_default (owner_of input.target) 0)
          (name_of input.target) input.requested_by_person_id)
        id w w'

  pub perform-PutBackOn :
      (w : World S) (id : ℕ)
      → (perform p service env input c w).0 ≡ some id
      → PutBackOn c.target id w (perform p service env input c w).1
  unfolding perform
  perform-PutBackOn w id = go c.target
    where
      go :
          (t : Option Machine)
          → let out : Option ℕ × World S = elim t [
            | none ↦
                perform_restore_into_new_machine service env.archive
                  (wanted_machine c.source c.disk
                    (or_default (owner_of input.target) 0)
                    (name_of input.target)
                    input.requested_by_person_id)
                  w
            | some m ↦ perform_restore_onto_machine p env.archive m c.disk w
          ] in
            out.0 ≡ some id → PutBackOn t id w out.1
      go none = perform_into-MadeAnew service env.archive _ w id
      go (some m) = perform_onto-Overwritten p env.archive m c.disk w id

  -- An event that is appended afterwards takes nothing back.
  pub append_event-PutBackOn :
      (t : Option Machine) (id : ℕ) (e : LifecycleEvent) (w w' : World S)
      → PutBackOn t id w w'
      → PutBackOn t id w (append_event e w')
  append_event-PutBackOn (some m) id e w w' (same, back) = (
    same,
    record {
      external = back.external;
      called = back.called;
      after = back.after;
      written = back.written;
    },
  )
  append_event-PutBackOn none id e w w' back = record {
    made = back.made;
    named = back.named;
    called = back.called;
    after = back.after;
    present = back.present;
    sound = back.sound;
  }
