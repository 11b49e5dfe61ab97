-- ===== src/Approval/Evidence.antt =====
-- The audit trail: what a call writes to the event log, read off its result alone.
use cloudable.Base.{
  sym, Option-cases, ℕ, ◌≡◌, refl, not, ◌&&◌, Option, none, some, List, [], ◌∷◌, ◌++◌, append-nil,
  is_empty, trim, Text, arith, Bool-cases, inl, inr, Result, ok, err,
}
use cloudable.Audit.{
  ApprovalMode, pending, approved, rejected, Event, person, system, approval_granted,
  approval_denied,
}
use cloudable.Database.{ApprovalRow, DecisionValue, approves, rejects, ApprovalDecision, Db}
use cloudable.Approval.{
  Env, ApprovalRequest, ApprovalResult, ApprovalError, auto_approve, insert_pending, request_with,
  request, request_mode, event_about, requested_event,
}
use cloudable.Approval.Decide.{
  is_approval, decide, decide_found, record_decision, check_decision, find_approval, approvers,
}

-- What a decision has to leave in the log: nothing while the approval stays pending, otherwise one
-- event with the outcome, the approvers and the person who decided last.
abbrev pub decision_evidence :
    Env → ℕ → Text → List ApprovalDecision → Result ApprovalError ApprovalResult → List Event
decision_evidence env p reason ds (err e) = []
decision_evidence env p reason ds (ok res) = elim res.row.status [
  | approved ↦
      event_about env res.row (person p)
        (approval_granted (approvers res.row.id ds) res.row.action_type)
      ∷ []
  | rejected ↦
      event_about env res.row (person p)
        (approval_denied (p ∷ []) res.row.action_type (trim reason))
      ∷ []
  | _ ↦ []
]

-- The log after the call is the log before it and the evidence of the result.
abbrev pub Evident : Env → ℕ → Text → Db → Result ApprovalError ApprovalResult × Db → Type 0
Evident env p reason db o =
    o.1.events ≡ db.events ++ decision_evidence env p reason o.1.decisions o.0

record_decision-Evident :
    (env : Env) (row : ApprovalRow) (p : ℕ) (value : DecisionValue) (reason : Text) (db : Db)
    → row.status ≡ pending
    → Evident env p reason db (record_decision env row p value reason db)
unfolding record_decision
record_decision-Evident env row p rejects reason db undecided = refl
record_decision-Evident env row p approves reason db undecided =
    ground (arith, append-nil db.events)

clear_pending :
    (db : Db) (row : ApprovalRow) (p : ℕ) → check_decision db row p ≡ none → row.status ≡ pending
unfolding check_decision
clear_pending db row p h = ground arith

decide_found-Evident :
    (env : Env) (o : Option ApprovalRow) (p : ℕ) (value : DecisionValue) (reason : Text) (db : Db)
    → Evident env p reason db (decide_found env o p value reason db)
unfolding decide_found
decide_found-Evident env none p value reason db = ground (arith, append-nil db.events)
decide_found-Evident env (some row) p value reason db =
    elim (Option-cases (check_decision db row p)) [
      | inl e ↦
          rw (e, decide_found)
            (record_decision-Evident env row p value reason db (clear_pending db row p e))
      | inr (x, e) ↦ rw (e, decide_found) (sym (append-nil db.events))
    ]

-- Every decision that settles an approval, granted or denied, appends exactly one event with the
-- outcome, the approvers and the reason, and no other call to `decide` appends anything.
pub decide-Evident :
    (env : Env) (id org p : ℕ) (value : DecisionValue) (reason : Text) (db : Db)
    → Evident env p reason db (decide env id org p value reason db)
unfolding decide
decide-Evident env id org p value reason db =
    elim (Bool-cases (not (is_approval value) && is_empty (trim reason))) [
      | inl e ↦ rw e (sym (append-nil db.events))
      | inr e ↦ rw e (elim (Bool-cases env.transaction_down) [
        | inl f ↦ simp f (sym (append-nil db.events))
        | inr f ↦ simp f (decide_found-Evident env (find_approval id org db) p value reason db)
      ])
    ]

-- What a request has to leave in the log: itself, and its grant if it was approved at once.
abbrev pub request_evidence :
    Env → ApprovalRequest → Result ApprovalError ApprovalResult → List Event
request_evidence env req (err e) = []
request_evidence env req (ok res) = elim res.row.status [
  | approved ↦
      requested_event env req res.row.mode
      ∷ event_about env res.row (system "system") (approval_granted [] res.row.action_type)
      ∷ []
  | _ ↦ requested_event env req res.row.mode ∷ []
]

auto_approve_evident :
    (env : Env) (req : ApprovalRequest) (mode : ApprovalMode) (db : Db)
    → (auto_approve env req mode db).1.events
      ≡ db.events ++ request_evidence env req (auto_approve env req mode db).0
unfolding auto_approve
auto_approve_evident env req mode db = ground (arith, append-nil db.events)

request_with_evident :
    (env : Env) (req : ApprovalRequest) (mode : ApprovalMode) (db : Db)
    → (request_with env req mode db).1.events
      ≡ db.events ++ request_evidence env req (request_with env req mode db).0
unfolding request_with insert_pending
request_with_evident env req ApprovalMode.none db =
    auto_approve_evident env req ApprovalMode.none db
request_with_evident env req mode db = ground (arith, append-nil db.events)

-- A successful request appends `approval.requested`, and `approval.granted` with no approver behind
-- it exactly if it was approved at once; a failed one appends nothing.
request_evident :
    (env : Env) (req : ApprovalRequest) (db : Db)
    → (request env req db).1.events ≡ db.events ++ request_evidence env req (request env req db).0
unfolding request
request_evident env req db =
    ground (arith, append-nil db.events, request_with_evident env req (request_mode req db) db)
