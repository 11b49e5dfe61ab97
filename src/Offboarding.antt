-- ===== src/Offboarding.antt =====
-- apps/control-plane/src/domain/offboarding: the types and effects of offboardPerson.ts, its repository
-- (OffboardingRepo.drizzle.ts), and `revokeCertificate` of domain/certificates. The machines and the
-- calls themselves are in Offboarding/Sequence; the archiver there is `archive_machine` of
-- Snapshots/Archiving. Every failure of a part is `sub_operation_failed`. That a machine's live
-- sessions end is an effect outside the tables: only whether it fails is modelled.
pub mod Sequence
pub mod Steps
pub mod Order
pub mod Emptied
pub mod Keeping
pub mod Approved
pub mod Resumption
mod Examples
use cloudable.Base.{
  ◌||◌, ℕ, Bool, true, false, not, ◌&&◌, Option, none, some, List, [], ◌∷◌, ◌++◌, map, ◌==◌,
  number_eq, Text, Result, ok, err, filter, find, any, if◌then◌else◌, is_some, is_some_of,
  update_where,
}
use cloudable.Audit.{ActionType, offboarding, ApprovalStatus, approved, person}
use cloudable.Database.{ApprovalRow, PersonRecord, Db}
use cloudable.Approval
use cloudable.Approval.{ApprovalRequest, ApprovalResult, ApprovalError, request}
use cloudable.Approval.Decide.{status}
use cloudable.Lifecycle.{
  Machine, MachineState, stopped, Certificate, LifecyclePayload, machine_stopped,
  machine_owner_cleared, machine_offboarded, certificate_revoked, LifecycleEvent, World,
  ProvisioningError, Provisioning, Env, update_machine, append_event, ArchiveError,
}
use cloudable.Snapshots.{Outcome}
use cloudable.Snapshots.Archiving.{is_archived, is_approved, torn_down, archive_machine}

pub data OffboardingError : Type 0 where
  person_not_found sub_operation_failed invalid_approval : OffboardingError

-- What the steps of one machine read from outside.
pub record MachineEnv : Type 0 where
  pub archiving : Env
  pub stop_down : Bool
  pub stopped_event_down : Bool
  pub clear_down : Bool
  pub cleared_event_down : Bool
  pub terminate_down : Bool
  pub offboarded_event_down : Bool

pub record OffboardEnv : Type 0 where
  pub approvals : Approval.Env
  pub now : ℕ
  pub person_down : Bool
  pub certificates_down : Bool
  pub revoke_down : ℕ → Bool
  pub revoked_event_down : ℕ → Bool
  pub machines_down : Bool
  pub machine : ℕ → MachineEnv

pub record OffboardPersonOutcome : Type 0 where
  pub approval_id : ℕ
  pub status : ApprovalStatus
  pub machines_offboarded : List ℕ
  pub machine_failures : List ℕ

-- Who is offboarded, by which approval, on whose request, and why.
pub record Offboarded : Type 0 where
  pub org_id : ℕ
  pub person_id : ℕ
  pub approval_id : ℕ
  pub requested_by : ℕ
  pub reason : Text

abbrev pub Step : Type 0 → Type 0 → Type 0
Step S A = World S → Result OffboardingError A × World S

-- `offboarding: ` before the reason.
abbrev pub revoke_reason : Text → Text
revoke_reason reason =
    111 ∷ 102 ∷ 102 ∷ 98 ∷ 111 ∷ 97 ∷ 114 ∷ 100 ∷ 105 ∷ 110 ∷ 103 ∷ 58 ∷ 32 ∷ reason

abbrev pub offboarding_event : Offboarded → Option ℕ → LifecyclePayload → LifecycleEvent
offboarding_event o machine payload = record {
  org_id = o.org_id;
  machine_id = machine;
  correlation_id = o.approval_id;
  actor = person o.requested_by;
  payload = payload;
}

abbrev pub is_live_certificate : ℕ → Certificate → Bool
is_live_certificate id c = c.id == id && not (is_some c.revoked_at)

abbrev pub is_owned : ℕ → Machine → Bool
is_owned owner m = is_some_of m.owner_person_id owner && not (is_archived m.state)

abbrev pub stopped_row : Machine → Machine
stopped_row m = record m { state = stopped }

abbrev pub cleared_row : Machine → Machine
cleared_row m = record m { owner_person_id = none }

abbrev pub request_for : ℕ → ℕ → ℕ → Text → ApprovalRequest
request_for org target by reason = record {
  org_id = org;
  action_type = offboarding;
  requested_by_person_id = by;
  target_machine_id = none;
  target_person_id = some target;
  reason = reason;
  payload = none;
  required_mode_floor = none;
}

abbrev pub is_offboarding : ActionType → Bool
is_offboarding offboarding = true
is_offboarding _ = false

abbrev pub wrap_archive : Result ArchiveError (Unit {0}) → Result OffboardingError (Unit {0})
wrap_archive (ok a) = ok a
wrap_archive (err e) = err sub_operation_failed

abbrev pub wrap_approval :
    Result ApprovalError ApprovalResult → Result OffboardingError ApprovalResult
wrap_approval (ok a) = ok a
wrap_approval (err e) = err sub_operation_failed

abbrev pub wrap_stop : Option ProvisioningError → Result OffboardingError (Unit {0})
wrap_stop none = ok tt
wrap_stop (some e) = err sub_operation_failed

module _ {S : Type 0} where
  infixl 5 ◌>>=◌ ◌>>◌
  abbrev pub ◌>>=◌ : {A B : Type 0} → Step S A → (A → Step S B) → Step S B
  ◌>>=◌ m f w = let (r, w') = m w in elim r [ ok a ↦ f a w' | err e ↦ (err e, w') ]

  abbrev pub ◌>>◌ : {B : Type 0} → Step S (Unit {0}) → Step S B → Step S B
  m >> k = m >>= λ _. k

  abbrev pub pure : {A : Type 0} → A → Step S A
  pure a w = (ok a, w)

  abbrev pub fail : {A : Type 0} → OffboardingError → Step S A
  fail e w = (err e, w)

  -- A statement or a publication that fails writes nothing.
  unfoldable pub change : Bool → (World S → World S) → Step S (Unit {0})
  change down f w = if down then (err sub_operation_failed, w) else (ok tt, f w)

  unfoldable pub find_person : OffboardEnv → ℕ → Step S PersonRecord
  find_person env id w =
      if env.person_down
      then (err sub_operation_failed, w)
      else elim (find (λ p. p.id == id) w.db.people) [
        | none ↦ (err person_not_found, w)
        | some p ↦ (ok p, w)
      ]

  unfoldable pub revoke_certificate : OffboardEnv → ℕ → Step S (Unit {0})
  revoke_certificate env id w =
      if env.revoke_down id || not (any (is_live_certificate id) w.certificates)
      then (err sub_operation_failed, w)
      else (
        ok tt,
        record w {
          certificates =
              update_where (is_live_certificate id) (λ c. record c { revoked_at = some env.now })
                w.certificates;
        },
      )

  unfoldable pub revoke_each : OffboardEnv → Offboarded → List ℕ → Step S (Unit {0})
  revoke_each env o [] = pure tt
  revoke_each env o (id ∷ ids) = do
    revoke_certificate env id
    change (env.revoked_event_down id)
        (append_event (offboarding_event o none (certificate_revoked id (revoke_reason o.reason))))
    revoke_each env o ids

  unfoldable pub find_live_certificate_ids : OffboardEnv → ℕ → Step S (List ℕ)
  find_live_certificate_ids env holder w =
      if env.certificates_down then (err sub_operation_failed, w) else (
        ok (
            map (λ (c : Certificate). c.id)
              (filter (λ c. c.person_id == holder && not (is_some c.revoked_at)) w.certificates)),
        w,
      )

  unfoldable pub find_owned_machines : OffboardEnv → ℕ → Step S (List Machine)
  find_owned_machines env owner w =
      if env.machines_down
      then (err sub_operation_failed, w)
      else (ok (filter (is_owned owner) w.machines), w)

  unfoldable pub request_approval : OffboardEnv → ApprovalRequest → Step S ApprovalResult
  request_approval env req w =
      let (answer, db) = request env.approvals req w.db in
      (wrap_approval answer, record w { db = db })

  unfoldable pub approval_status : OffboardEnv → ℕ → ℕ → Step S ApprovalResult
  approval_status env id org w = (wrap_approval (status env.approvals id org w.db), w)
