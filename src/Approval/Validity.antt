-- ===== src/Approval/Validity.antt =====
-- The invariant of the approval tables: no status without the decisions that it stands for.
use cloudable.Base.{
  ℕ, ◌≤◌, ◌≡◌, Bool, true, false, none, some, List, ◌∷◌, ◌==◌, number_eq, All, distinct_ids, arith,
  Bool-cases, inl, inr, length,
}
use cloudable.Audit.{approved, pending}
use cloudable.Database.{ApprovalRow, ApprovalDecision, DecisionValue, Db}
use cloudable.Approval.{is_some_of, required_approvals_by_mode}
use cloudable.Approval.Decide.{approvers, decided_by}
use cloudable.Approval.Decisions.{ids, Known, has_id-approvers}

abbrev pub target_decided : ApprovalRow → List ApprovalDecision → Bool
target_decided r ds = elim r.target_person_id [ none ↦ false | some p ↦ decided_by r.id p ds ]

-- An approved row has as many distinct approvers as its mode requires; neither the requester nor
-- the person that the request is about has decided on it.
pub record RowValid (ds : List ApprovalDecision) (r : ApprovalRow) : Type 0 where
  pub mode_count : r.required_approvals ≡ required_approvals_by_mode r.mode
  pub quorum : r.status ≡ approved → r.required_approvals ≤ length (approvers r.id ds)
  pub apart : distinct_ids (approvers r.id ds) ≡ true
  pub not_self : decided_by r.id r.requested_by_person_id ds ≡ false
  pub not_target : target_decided r ds ≡ false
  pub undecided : r.status ≡ pending → r.decided_at ≡ none

pub record Valid (db : Db) : Type 0 where
  pub rows : All (RowValid db.decisions) db.approvals
  pub primary_key : distinct_ids (ids db.approvals) ≡ true
  pub foreign_key : Known db.approvals db.decisions

abbrev pub decision_of : ApprovalRow → ℕ → DecisionValue → ApprovalDecision
decision_of row p v = record { approval_id = row.id; person_id = p; decision = v }

-- One more decision by an outsider who had not decided keeps every row valid.
pub RowValid_decision :
    (ds : List ApprovalDecision) (row : ApprovalRow) (p : ℕ) (v : DecisionValue) (r : ApprovalRow)
    → (row.requested_by_person_id == p) ≡ false
    → is_some_of row.target_person_id p ≡ false
    → decided_by row.id p ds ≡ false
    → (r.id ≡ row.id → r ≡ row)
    → RowValid ds r
    → RowValid (decision_of row p v ∷ ds) r
RowValid_decision ds row p v r self target once same h = elim (Bool-cases (row.id == r.id)) [
  | inl e ↦
      let r_row : r ≡ row = same (ground arith) in
      record {
        mode_count = h.mode_count;
        quorum = λ a. ground (arith, h.quorum a);
        apart = ground (arith, h.apart, has_id-approvers row.id p ds);
        not_self = ground (arith, h.not_self);
        not_target = ground (arith, h.not_target);
        undecided = h.undecided;
      }
  | inr e ↦ record {
    mode_count = h.mode_count;
    quorum = λ a. rw e (h.quorum a);
    apart = rw e h.apart;
    not_self = rw e h.not_self;
    not_target = ground (arith, h.not_target);
    undecided = h.undecided;
  }
]
