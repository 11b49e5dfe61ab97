-- ===== src/Offboarding/Steps.antt =====
-- How a sequence of steps that succeeds is taken apart.
use cloudable.Base.{ℕ, ◌≡◌, refl, Bool, true, false, Option, none, some, Result, ok, err}
use cloudable.Lifecycle.{ArchiveError, Machine, World, ProvisioningError, Provisioning, Env}
use cloudable.Lifecycle.{
  machine_stopped, machine_owner_cleared, machine_offboarded, append_event, update_machine,
}
use cloudable.Offboarding.{
  MachineEnv, Offboarded, offboarding_event, stopped_row, cleared_row, OffboardingError, Step, ◌>>◌,
  change, wrap_stop, wrap_archive,
}
use cloudable.Offboarding.Sequence.{stop_machine, archive_step}
use cloudable.Snapshots.Archiving.{torn_down, archive_machine}

module _ {S A : Type 0} where
  -- A sequence that succeeds: its first step did, and the rest went on from there.
  pub then-eq-ok :
      (m : Step S (Unit {0})) (k : Step S A) (w : World S) (a : A)
      → ((m >> k) w).0 ≡ ok a
      → ((m w).0 ≡ ok tt) × ((k (m w).1).0 ≡ ok a) × ((m >> k) w ≡ k (m w).1)
  then-eq-ok m k w a h = go (m w).0 (m w).1 h
    where
      go :
          (r : Result OffboardingError (Unit {0})) (w' : World S)
          → let o : Result OffboardingError A × World S = elim r [
            | ok x ↦ k w'
            | err e ↦ (err e, w')
          ] in
            o.0 ≡ ok a → (r ≡ ok tt) × ((k w').0 ≡ ok a) × (o ≡ k w')
      go (ok x) w' e = (refl, e, refl)
      go (err x) w' e = absurd (cc)

  pub change-eq-ok :
      (down : Bool) (f : World S → World S) (k : Step S A) (w : World S) (a : A)
      → ((change down f >> k) w).0 ≡ ok a
      → ((k (f w)).0 ≡ ok a) × ((change down f >> k) w ≡ k (f w))
  unfolding change
  change-eq-ok true f k w a h = absurd (cc)
  change-eq-ok false f k w a h = (h, refl)

module _ {S : Type 0} where
  pub change_last :
      (down : Bool) (f : World S → World S) (w : World S)
      → (change down f w).0 ≡ ok tt
      → (change down f w).1 ≡ f w
  unfolding change
  change_last true f w h = absurd (cc)
  change_last false f w h = refl

module _ {S : Type 0} (p : Provisioning S) where
  pub stop_machine-eq-ok :
      (machine : Machine) (w : World S)
      → (stop_machine p machine w).0 ≡ ok tt
      → torn_down (p.tear_down machine w.cloud).0 ≡ none
  unfolding stop_machine
  stop_machine-eq-ok machine w h = go (torn_down (p.tear_down machine w.cloud).0) h
    where
      go : (o : Option ProvisioningError) → wrap_stop o ≡ ok tt → o ≡ none
      go none e = refl
      go (some x) e = absurd (cc)

  pub archive_step-eq-ok :
      (env : Env) (id approval : ℕ) (w : World S)
      → (archive_step p env id approval w).0 ≡ ok tt
      → (archive_machine p env id (some approval) w).0 ≡ ok tt
  unfolding archive_step
  archive_step-eq-ok env id approval w h = go (archive_machine p env id (some approval) w).0 h
    where
      go : (r : Result ArchiveError (Unit {0})) → wrap_archive r ≡ ok tt → r ≡ ok tt
      go (ok x) e = refl
      go (err x) e = absurd (cc)

module _ {S : Type 0} (p : Provisioning S) (env : MachineEnv) (o : Offboarded) (m : Machine) where
  -- The steps that follow the teardown, from the last one back.
  abbrev pub finish : Step S (Unit {0})
  finish = change env.offboarded_event_down (
      append_event (offboarding_event o (some m.id) (machine_offboarded o.person_id o.approval_id)))

  abbrev pub from_terminate : Step S (Unit {0})
  from_terminate = change env.terminate_down (λ w. w) >> finish

  abbrev pub from_archive : Step S (Unit {0})
  from_archive = archive_step p env.archiving m.id o.approval_id >> from_terminate

  abbrev pub from_cleared_event : Step S (Unit {0})
  from_cleared_event =
      change env.cleared_event_down
        (append_event (offboarding_event o (some m.id) (machine_owner_cleared o.person_id)))
      >> from_archive

  abbrev pub from_clear : Step S (Unit {0})
  from_clear = change env.clear_down (update_machine cleared_row m.id) >> from_cleared_event

  abbrev pub from_stopped_event : Step S (Unit {0})
  from_stopped_event =
      change env.stopped_event_down (append_event (offboarding_event o (some m.id) machine_stopped))
      >> from_clear

  abbrev pub from_stop : Step S (Unit {0})
  from_stop = change env.stop_down (update_machine stopped_row m.id) >> from_stopped_event
