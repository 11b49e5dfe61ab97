-- ===== src/Offboarding/Resumption.antt =====
-- Resuming an offboarding takes a given approval too.
use cloudable.Base.{
  ℕ, ◌≡◌, ◌⊎◌, refl, sym, ap, subst, ◌∙◌, true, not, Option, none, some, Memᴰ, arith, inl, inr,
  Result, ok, err, find, if_keeps, mem-find,
}
use cloudable.Audit.{ActionType, offboarding}
use cloudable.Database.{ApprovalRow, PersonRecord}
use cloudable.Approval.{ApprovalResult, ApprovalError, with_id}
use cloudable.Approval.Decide.{status}
use cloudable.Approval.Reachable.{status-eq-ok}
use cloudable.Offboarding.Keeping.{find_person-world, proceed-KeepsDb}
use cloudable.Lifecycle.{World, Provisioning}
use cloudable.Snapshots.Archiving.{is_approved}
use cloudable.Offboarding.{
  OffboardEnv, Offboarded, OffboardPersonOutcome, OffboardingError, Step, find_person,
  approval_status, is_offboarding, wrap_approval,
}
use cloudable.Offboarding.Sequence.{proceed, resume_for, resume_offboarding}
use cloudable.Offboarding.Approved.{HasApproval, approved_only}

offboarding_only : (k : ActionType) → is_offboarding k ≡ true → k ≡ offboarding
offboarding_only k h = ground arith

module _ {S : Type 0} (p : Provisioning S) where
  -- What a resumed call may have done: its approval says whom it is about.
  abbrev Resumed : World S → Result OffboardingError OffboardPersonOutcome × World S → Type 0
  Resumed w out = (out.1 ≡ w) ⊎ ((id : ℕ) × HasApproval id out.1.db)

  resume_for-Resumed :
      (env : OffboardEnv) (a : ApprovalRow) (target : Option ℕ) (w : World S)
      → a.target_person_id ≡ target
      → Memᴰ a w.db.approvals
      → Resumed w (resume_for p env a target w)
  unfolding resume_for
  resume_for-Resumed env a none w about present = inl refl
  resume_for-Resumed env a (some t) w about present =
      if_keeps (λ (s : Step S OffboardPersonOutcome). Resumed w (s w))
        (not (is_offboarding a.action_type)) _ _ (λ _. inl refl)
        (λ kind.
          if_keeps (λ (s : Step S OffboardPersonOutcome). Resumed w (s w))
            (not (is_approved a.status)) _ _ (λ _. inl refl)
            (λ given.
              go (find_person env t w).0 (find_person env t w).1 (find_person-world env t w)
                (record {
                  row = a;
                  present = present;
                  given = approved_only a (ground arith);
                  about = about;
                  kind = offboarding_only a.action_type (ground arith);
                })))
    where
      go :
          (r : Result OffboardingError PersonRecord) (w1 : World S)
          → w1 ≡ w
          → HasApproval t w.db
          → Resumed w (elim r [
            | ok found ↦
                proceed p env a
                  (record {
                    org_id = found.org_id;
                    person_id = found.id;
                    approval_id = a.id;
                    requested_by = a.requested_by_person_id;
                    reason = a.reason;
                  })
                  w1
            | err e ↦ (err e, w1)
          ])
      go (err e) w1 same has = inl same
      go (ok found) w1 same has =
          let o : Offboarded = record {
            org_id = found.org_id;
            person_id = found.id;
            approval_id = a.id;
            requested_by = a.requested_by_person_id;
            reason = a.reason;
          } in
          inr (
            t,
            subst (HasApproval t) (sym (proceed-KeepsDb p env a o w1 ∙ ap (λ x. x.db) same)) has,
          )

  -- Resuming does the same only by an approval of an offboarding that has been given.
  resume_offboarding-Resumed :
      (env : OffboardEnv) (id org : ℕ) (w : World S)
      → let w' = (resume_offboarding p env id org w).1 in
        (w' ≡ w) ⊎ ((person : ℕ) × HasApproval person w'.db)
  unfolding resume_offboarding approval_status
  resume_offboarding-Resumed env id org w =
      go (status env.approvals id org w.db) (λ a. status-eq-ok env.approvals id org w.db a)
    where
      go :
          (r : Result ApprovalError ApprovalResult)
          → ((a : ApprovalResult) → r ≡ ok a → find (with_id id) w.db.approvals ≡ some a.row)
          → Resumed w (elim (wrap_approval r) [
            | ok a ↦ resume_for p env a.row a.row.target_person_id w
            | err e ↦ (err e, w)
          ])
      go (err e) found = inl refl
      go (ok a) found =
          resume_for-Resumed env a.row a.row.target_person_id w refl
            (mem-find (with_id id) w.db.approvals a.row (found a refl))
