-- ===== src/Offboarding/Approved.antt =====
-- Nothing is offboarded without an approval.
use cloudable.Base.{
  ℕ, ◌≡◌, ◌⊎◌, refl, sym, ap, subst, true, false, some, [], ◌∷◌, ◌++◌, Memᴰ, arith, inl, inr,
  Result, ok, err, Text, if_keeps,
}
use cloudable.Audit.{offboarding, approved, pending, ApprovalMode, Event, approval_requested}
use cloudable.Database.{ApprovalRow, PersonRecord, Db}
use cloudable.Approval.{ApprovalResult, ApprovalError, request}
use cloudable.Approval.Results.{Recorded, request-Recorded, Asked, request-Asked}
use cloudable.Offboarding.Keeping.{find_person-world, proceed-KeepsDb}
use cloudable.Lifecycle.{World, Provisioning}
use cloudable.Snapshots.Archiving.{is_approved}
use cloudable.Offboarding.{
  OffboardEnv, Offboarded, OffboardPersonOutcome, OffboardingError, Step, ◌>>=◌, find_person,
  request_approval, request_for, wrap_approval,
}
use cloudable.Offboarding.Sequence.{proceed, proceed_if_approved, offboard_person_detailed}

-- The call has written one pending approval of this person's offboarding, with its event in the audit
-- log, and nothing else.
pub record Awaits {S : Type 0} (person : ℕ) (reason : Text) (w w' : World S) : Type 0 where
  pub row : ApprovalRow
  pub undecided : row.status ≡ pending
  pub about : row.target_person_id ≡ some person
  pub kind : row.action_type ≡ offboarding
  pub mode : ApprovalMode
  pub event : Event
  pub told : event.payload ≡ approval_requested offboarding person reason mode
  pub only : w' ≡ record w {
    db = record w.db { approvals = row ∷ w.db.approvals; events = w.db.events ++ event ∷ [] };
  }

-- The call has changed nothing at all, or has only asked for the approval.
abbrev pub Idle : {S : Type 0} → ℕ → Text → World S → World S → Type 0
Idle person reason w w' = (w' ≡ w) ⊎ Awaits person reason w w'

-- An approval of this person's offboarding that has been given, in these tables.
pub record HasApproval (person : ℕ) (db : Db) : Type 0 where
  pub row : ApprovalRow
  pub present : Memᴰ row db.approvals
  pub given : row.status ≡ approved
  pub about : row.target_person_id ≡ some person
  pub kind : row.action_type ≡ offboarding

pub approved_only : (a : ApprovalRow) → is_approved a.status ≡ true → a.status ≡ approved
approved_only a h = ground arith

pending-Awaits :
    {S : Type 0} (id org by : ℕ) (reason : Text) (a : ApprovalResult) (w : World S) (db : Db)
    → is_approved a.row.status ≡ false
    → Asked (request_for org id by reason) w.db (ok a) db
    → Awaits id reason w (record w { db = db })
pending-Awaits id org by reason a w db not_given (inl given) = absurd (ground arith)
pending-Awaits id org by reason a w db not_given
      (inr (undecided, recorded, (mode, event, told, written))) =
    record {
      row = a.row;
      undecided = undecided;
      about = recorded.target_person;
      kind = recorded.action;
      mode = mode;
      event = event;
      told = told;
      only = ap (λ x. record w { db = x }) written;
    }

module _ {S : Type 0} (p : Provisioning S) where
  -- What a call that is about this person may have done.
  abbrev Guarded :
      ℕ → Text → World S → Result OffboardingError OffboardPersonOutcome × World S → Type 0
  Guarded id reason w out = Idle id reason w out.1 ⊎ HasApproval id out.1.db

  proceed-Guarded :
      (env : OffboardEnv) (id : ℕ) (reason : Text) (a : ApprovalRow) (o : Offboarded)
      (w w1 : World S)
      → HasApproval id w1.db
      → Guarded id reason w (proceed p env a o w1)
  proceed-Guarded env id reason a o w w1 has =
      inr (subst (HasApproval id) (sym (proceed-KeepsDb p env a o w1)) has)

  requested-Guarded :
      (env : OffboardEnv) (id org by : ℕ) (reason : Text) (o : ApprovalResult → Offboarded)
      (w : World S)
      → Guarded id reason w (
          (request_approval env (request_for org id by reason) >>= λ a.
          proceed_if_approved p env a.row (o a))
            w)
  unfolding request_approval proceed_if_approved
  requested-Guarded env id org by reason o w =
      go (request env.approvals (request_for org id by reason) w.db).0
        (request-Asked env.approvals (request_for org id by reason) w.db)
        (λ a. request-Recorded env.approvals (request_for org id by reason) w.db a)
    where
      go :
          (answer : Result ApprovalError ApprovalResult)
          → let db = (request env.approvals (request_for org id by reason) w.db).1 in
            Asked (request_for org id by reason) w.db answer db
            → ((a : ApprovalResult)
                → answer ≡ ok a
                → Recorded (request_for org id by reason) db.approvals a.row)
            → Guarded id reason w (elim (wrap_approval answer) [
              | ok a ↦ proceed_if_approved p env a.row (o a) (record w { db = db })
              | err e ↦ (err e, record w { db = db })
            ])
      go (err e) same recorded = inl (inl (ap (λ db. record w { db = db }) same))
      go (ok a) asked recorded =
          let w1 = record w {
            db = (request env.approvals (request_for org id by reason) w.db).1;
          } in
          let r = recorded a refl in
          if_keeps (λ (s : Step S OffboardPersonOutcome). Guarded id reason w (s w1))
            (is_approved a.row.status) (proceed p env a.row (o a)) _
            (λ yes_given. proceed-Guarded env id reason a.row (o a) w w1 (record {
              row = a.row;
              present = r.present;
              given = approved_only a.row yes_given;
              about = r.target_person;
              kind = r.action;
            }))
            (λ not_given. inl (inr (pending-Awaits id org by reason a w w1.db not_given asked)))

  -- Whatever fails: either the call has changed nothing, in the tables or at the provider, or nothing
  -- but that it has entered one pending approval of this person's offboarding with its event in the
  -- audit log; or the tables have an approval of this person's offboarding that has been given.
  pub offboard_person_detailed-Guarded :
      (env : OffboardEnv) (id by : ℕ) (reason : Text) (w : World S)
      → let w' = (offboard_person_detailed p env id by reason w).1 in
        Idle id reason w w' ⊎ HasApproval id w'.db
  unfolding offboard_person_detailed
  offboard_person_detailed-Guarded env id by reason w =
      go (find_person env id w).0 (find_person env id w).1 (find_person-world env id w)
    where
      go :
          (r : Result OffboardingError PersonRecord) (w1 : World S)
          → w1 ≡ w
          → Guarded id reason w (elim r [
            | ok found ↦
                (request_approval env (request_for found.org_id id by reason) >>= λ a.
                proceed_if_approved p env a.row (record {
                  org_id = found.org_id;
                  person_id = found.id;
                  approval_id = a.row.id;
                  requested_by = by;
                  reason = reason;
                }))
                  w1
            | err e ↦ (err e, w1)
          ])
      go (err e) w1 same = inl (inl same)
      go (ok found) w1 same =
          subst
            (λ x. Guarded id reason x (
              (request_approval env (request_for found.org_id id by reason) >>= λ a.
              proceed_if_approved p env a.row (record {
                org_id = found.org_id;
                person_id = found.id;
                approval_id = a.row.id;
                requested_by = by;
                reason = reason;
              }))
                w1))
            same
            (requested-Guarded env id found.org_id by reason
              (λ a. record {
                org_id = found.org_id;
                person_id = found.id;
                approval_id = a.row.id;
                requested_by = by;
                reason = reason;
              })
              w1)
