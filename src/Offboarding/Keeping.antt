-- ===== src/Offboarding/Keeping.antt =====
-- The sequence that follows an approval leaves the approval tables as they are.
use cloudable.Base.{
  ℕ, ◌≡◌, refl, ◌∙◌, Bool, true, false, none, some, List, [], ◌∷◌, arith, Result, ok, err,
}
use cloudable.Database.{ApprovalRow}
use cloudable.Lifecycle.{
  machine_owner_cleared, machine_stopped, update_machine, Machine, certificate_revoked,
  append_event, World, Provisioning, Env,
}
use cloudable.Snapshots.Keeping.{archive_machine-Same}
use cloudable.Offboarding.Steps.{
  finish, from_terminate, from_archive, from_cleared_event, from_clear, from_stopped_event,
  from_stop,
}
use cloudable.Offboarding.{
  cleared_row, stopped_row, pure, OffboardEnv, MachineEnv, Offboarded, OffboardingError, Step,
  ◌>>=◌, ◌>>◌, offboarding_event, revoke_reason, change, find_person, revoke_certificate,
  revoke_each, find_live_certificate_ids, find_owned_machines,
}
use cloudable.Offboarding.Sequence.{
  outcome_of, stop_machine, archive_step, offboard_one_machine, offboard_each, attempt_each,
  run_offboarding_sequence, proceed,
}

abbrev pub KeepsDb : {S A : Type 0} → Step S A → Type 0
KeepsDb {S = S} m = (w : World S) → (m w).1.db ≡ w.db

module _ {S : Type 0} where
  >>=-KeepsDb :
      {A B : Type 0} (m : Step S A) (f : A → Step S B)
      → KeepsDb m
      → ((a : A) → KeepsDb (f a))
      → KeepsDb (m >>= f)
  >>=-KeepsDb {A} {B} m f km kf w = go (m w).0 (m w).1 (km w)
    where
      go :
          (r : Result OffboardingError A) (w' : World S)
          → w'.db ≡ w.db
          → let o : Result OffboardingError B × World S = elim r [
            | ok a ↦ f a w'
            | err e ↦ (err e, w')
          ] in
            o.1.db ≡ w.db
      go (ok a) w' e = kf a w' ∙ e
      go (err x) w' e = e

  change-KeepsDb :
      (down : Bool) (f : World S → World S)
      → ((w : World S) → (f w).db ≡ w.db)
      → KeepsDb (change down f)
  unfolding change
  change-KeepsDb true f k w = refl
  change-KeepsDb false f k w = k w

  pub find_person-world : (env : OffboardEnv) (id : ℕ) (w : World S) → (find_person env id w).1 ≡ w
  unfolding find_person
  find_person-world env id w = ground arith

  revoke_certificate-KeepsDb :
      (env : OffboardEnv) (id : ℕ) → KeepsDb (revoke_certificate {S = S} env id)
  unfolding revoke_certificate
  revoke_certificate-KeepsDb env id w = ground arith

  revoke_each-KeepsDb :
      (env : OffboardEnv) (o : Offboarded) (ids : List ℕ) → KeepsDb (revoke_each {S = S} env o ids)
  unfolding revoke_each
  revoke_each-KeepsDb env o [] w = refl
  revoke_each-KeepsDb env o (id ∷ ids) w =
      let event = offboarding_event o none (certificate_revoked id (revoke_reason o.reason)) in
      >>=-KeepsDb (revoke_certificate env id)
        (λ _. change (env.revoked_event_down id) (append_event event) >> revoke_each env o ids)
        (revoke_certificate-KeepsDb env id)
        (λ _.
          >>=-KeepsDb (change (env.revoked_event_down id) (append_event event))
            (λ _. revoke_each env o ids) (change-KeepsDb (env.revoked_event_down id) _ (λ w. refl))
            (λ _. revoke_each-KeepsDb env o ids))
        w

  find_live-KeepsDb :
      (env : OffboardEnv) (id : ℕ) → KeepsDb (find_live_certificate_ids {S = S} env id)
  unfolding find_live_certificate_ids
  find_live-KeepsDb env id w = ground arith

  find_owned-KeepsDb : (env : OffboardEnv) (id : ℕ) → KeepsDb (find_owned_machines {S = S} env id)
  unfolding find_owned_machines
  find_owned-KeepsDb env id w = ground arith

module _ {S : Type 0} (p : Provisioning S) where
  stop_machine-KeepsDb : (m : Machine) → KeepsDb (stop_machine p m)
  unfolding stop_machine
  stop_machine-KeepsDb m w = refl

  archive_step-KeepsDb : (env : Env) (id approval : ℕ) → KeepsDb (archive_step p env id approval)
  unfolding archive_step
  archive_step-KeepsDb env id approval w = archive_machine-Same p env id (some approval) w

  then-KeepsDb :
      {A : Type 0} (down : Bool) (f : World S → World S) (k : Step S A)
      → ((w : World S) → (f w).db ≡ w.db)
      → KeepsDb k
      → KeepsDb (change down f >> k)
  then-KeepsDb down f k kf kk =
      >>=-KeepsDb (change down f) (λ _. k) (change-KeepsDb down f kf) (λ _. kk)

  offboard_one_machine-KeepsDb :
      (env : MachineEnv) (o : Offboarded) (m : Machine) → KeepsDb (offboard_one_machine p env o m)
  unfolding offboard_one_machine
  offboard_one_machine-KeepsDb env o m =
      >>=-KeepsDb (stop_machine p m) (λ _. from_stop p env o m) (stop_machine-KeepsDb m)
        (λ _.
          then-KeepsDb env.stop_down (update_machine stopped_row m.id)
            (from_stopped_event p env o m) (λ w. refl)
            (then-KeepsDb env.stopped_event_down
              (append_event (offboarding_event o (some m.id) machine_stopped))
              (from_clear p env o m) (λ w. refl)
              (then-KeepsDb env.clear_down (update_machine cleared_row m.id)
                (from_cleared_event p env o m) (λ w. refl)
                (then-KeepsDb env.cleared_event_down
                  (append_event
                    (offboarding_event o (some m.id) (machine_owner_cleared o.person_id)))
                  (from_archive p env o m) (λ w. refl)
                  (>>=-KeepsDb (archive_step p env.archiving m.id o.approval_id)
                    (λ _. from_terminate p env o m)
                    (archive_step-KeepsDb env.archiving m.id o.approval_id)
                    (λ _.
                      then-KeepsDb env.terminate_down (λ w. w) (finish p env o m) (λ w. refl)
                        (change-KeepsDb env.offboarded_event_down _ (λ w. refl))))))))

  offboard_each-KeepsDb :
      (env : OffboardEnv) (o : Offboarded) (ms : List Machine) (w : World S)
      → (offboard_each p env o ms w).2.db ≡ w.db
  unfolding offboard_each
  offboard_each-KeepsDb env o [] w = refl
  offboard_each-KeepsDb env o (m ∷ ms) w =
      let step = offboard_one_machine p (env.machine m.id) o m w in
      let here = offboard_one_machine-KeepsDb (env.machine m.id) o m w in
      let rest = offboard_each-KeepsDb env o ms step.1 in go step.0 (rest ∙ here)
    where
      go :
          (answer : Result OffboardingError (Unit {0}))
          → let tail =
              offboard_each p env o ms (offboard_one_machine p (env.machine m.id) o m w).1 in
            tail.2.db ≡ w.db
            → let r : List ℕ × List ℕ × World S = elim answer [
              | ok a ↦ (m.id ∷ tail.0, tail.1, tail.2)
              | err e ↦ (tail.0, m.id ∷ tail.1, tail.2)
            ] in
              r.2.db ≡ w.db
      go (ok a) same = same
      go (err e) same = same

  attempt_each-KeepsDb :
      (env : OffboardEnv) (o : Offboarded) (ms : List Machine) → KeepsDb (attempt_each p env o ms)
  unfolding attempt_each
  attempt_each-KeepsDb env o ms w = offboard_each-KeepsDb env o ms w

  abbrev from_owned : OffboardEnv → Offboarded → Step S (List ℕ × List ℕ)
  from_owned env o = find_owned_machines env o.person_id >>= attempt_each p env o

  abbrev from_revoke : OffboardEnv → Offboarded → List ℕ → Step S (List ℕ × List ℕ)
  from_revoke env o ids = revoke_each env o ids >> from_owned env o

  run_offboarding_sequence-KeepsDb :
      (env : OffboardEnv) (o : Offboarded) → KeepsDb (run_offboarding_sequence p env o)
  unfolding run_offboarding_sequence
  run_offboarding_sequence-KeepsDb env o =
      >>=-KeepsDb (find_live_certificate_ids env o.person_id) (from_revoke env o)
        (find_live-KeepsDb env o.person_id)
        (λ ids.
          >>=-KeepsDb (revoke_each env o ids) (λ _. from_owned env o)
            (revoke_each-KeepsDb env o ids)
            (λ _.
              >>=-KeepsDb (find_owned_machines env o.person_id) (attempt_each p env o)
                (find_owned-KeepsDb env o.person_id) (attempt_each-KeepsDb env o)))

  pub proceed-KeepsDb :
      (env : OffboardEnv) (a : ApprovalRow) (o : Offboarded) → KeepsDb (proceed p env a o)
  unfolding proceed
  proceed-KeepsDb env a o =
      >>=-KeepsDb (run_offboarding_sequence p env o) (λ r. pure (outcome_of p a r))
        (run_offboarding_sequence-KeepsDb env o) (λ _ w. refl)
