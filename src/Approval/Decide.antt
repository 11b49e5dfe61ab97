-- ===== src/Approval/Decide.antt =====
-- `decide`, `status` and the expiry sweep of ApprovalService.ts.
use cloudable.Base.{
  ℕ, Bool, true, false, not, ◌&&◌, ◌||◌, Option, none, some, List, [], ◌∷◌, ◌++◌, map, ltb, leb,
  ◌==◌, number_eq, if◌then◌else◌, is_some_of, is_empty, length, filter, find, any, Result, ok, err,
  Text, trim, update_where, returning,
}
use cloudable.Audit.{
  ApprovalStatus, pending, approved, rejected, expired, person, system, Event, approval_granted,
  approval_denied, approval_expired,
}
use cloudable.Database.{
  ApprovalRow, DecisionValue, approves, rejects, ApprovalDecision, MachineRecord, Db,
}
use cloudable.Approval.{
  ApprovalResult, ApprovalError, not_found, already_decided, duplicate_decision, self_approval,
  conflict_of_interest, reason_required, query_failed, Env, to_result, event_about, decide_row,
  with_id,
}

abbrev pub is_pending : ApprovalStatus → Bool
is_pending pending = true
is_pending _ = false

abbrev pub is_approval : DecisionValue → Bool
is_approval approves = true
is_approval rejects = false

-- `select personId from approval_decisions where approvalId = id and decision = 'approved'`
abbrev pub approvers : ℕ → List ApprovalDecision → List ℕ
approvers id ds =
    map (λ d. d.person_id) (filter (λ d. (d.approval_id == id) && is_approval d.decision) ds)

abbrev pub decided_by : ℕ → ℕ → List ApprovalDecision → Bool
decided_by id p ds = any (λ d. (d.approval_id == id) && (d.person_id == p)) ds

abbrev pub owned_by : ℕ → Option MachineRecord → Bool
owned_by p none = false
owned_by p (some m) = is_some_of m.owner_person_id p

-- The decider is the person the request is about, or owns the machine it is about.
unfoldable pub has_conflict : Db → ApprovalRow → ℕ → Bool
has_conflict db row p = is_some_of row.target_person_id p || (elim row.target_machine_id [
  | none ↦ false
  | some t ↦ owned_by p (find (λ m. m.id == t) db.machines)
])

abbrev pub visible : ℕ → Option ApprovalRow → Option ApprovalRow
visible org none = none
visible org (some row) = if row.org_id == org then some row else none

abbrev pub find_approval : ℕ → ℕ → Db → Option ApprovalRow
find_approval id org db = visible org (find (with_id id) db.approvals)

-- The end of the transaction: the status flip with its event, or the decision alone.
unfoldable pub record_decision :
    Env → ApprovalRow → ℕ → DecisionValue → Text → Db → Result ApprovalError ApprovalResult × Db
record_decision env row p rejects reason db =
    let updated = decide_row rejected env.now row in
    (
      ok (to_result updated 0),
      record db {
        approvals = update_where (with_id row.id) (decide_row rejected env.now) db.approvals;
        decisions =
            record { approval_id = row.id; person_id = p; decision = rejects } ∷ db.decisions;
        events =
            db.events
            ++ event_about env updated (person p)
                (approval_denied (p ∷ []) updated.action_type (trim reason))
              ∷ [];
      },
    )
record_decision env row p approves reason db =
    let decisions =
      record { approval_id = row.id; person_id = p; decision = approves } ∷ db.decisions in
    let approver_ids = approvers row.id decisions in
    let updated = decide_row approved env.now row in
    if leb row.required_approvals (length approver_ids)
    then (
      ok (to_result updated (length approver_ids)),
      record db {
        approvals = update_where (with_id row.id) (decide_row approved env.now) db.approvals;
        decisions = decisions;
        events =
            db.events
            ++ event_about env updated (person p)
                (approval_granted approver_ids updated.action_type)
              ∷ [];
      },
    )
    else (ok (to_result row (length approver_ids)), record db { decisions = decisions })

-- The checks on the locked row, in the order of the source.
unfoldable pub check_decision : Db → ApprovalRow → ℕ → Option ApprovalError
unfolding has_conflict
check_decision db row p =
    if not (is_pending row.status)
    then some already_decided
    else if row.requested_by_person_id == p
    then some self_approval
    else if has_conflict db row p
    then some conflict_of_interest
    else if decided_by row.id p db.decisions
    then some duplicate_decision
    else none

unfoldable pub decide_found :
    Env
    → Option ApprovalRow
    → ℕ
    → DecisionValue
    → Text
    → Db
    → Result ApprovalError ApprovalResult × Db
decide_found env none p decision reason db = (err not_found, db)
decide_found env (some row) p decision reason db = elim (check_decision db row p) [
  | some e ↦ (err e, db)
  | none ↦ record_decision env row p decision reason db
]

-- `reason` is the empty text where the caller gives none.
unfoldable pub decide :
    Env
    → (approval_id org_id person_id : ℕ) → DecisionValue
    → Text
    → Db
    → Result ApprovalError ApprovalResult × Db
unfolding decide_found check_decision record_decision
decide env id org p decision reason db =
    if not (is_approval decision) && is_empty (trim reason)
    then (err reason_required, db)
    else if env.transaction_down
    then (err query_failed, db)
    else decide_found env (find_approval id org db) p decision reason db

unfoldable pub status_of : ℕ → Option ApprovalRow → Db → Result ApprovalError ApprovalResult
status_of id none db = err not_found
status_of id (some row) db = ok (to_result row (length (approvers id db.decisions)))

unfoldable pub status : Env → ℕ → ℕ → Db → Result ApprovalError ApprovalResult
unfolding status_of
status env id org db =
    if env.query_down then err query_failed else status_of id (find_approval id org db) db

abbrev pub overdue : ℕ → ApprovalRow → Bool
overdue now row = is_pending row.status && ltb row.expires_at now

abbrev pub expire_row : ApprovalRow → ApprovalRow
expire_row row = record row { status = expired }

abbrev pub expired_event : Env → ApprovalRow → Event
expired_event env row = event_about env row (system "system") (approval_expired row.action_type)

-- `expireOverdueApprovals`. The source draws a correlation id for each event; here one for the sweep.
unfoldable pub expire_overdue_approvals : Env → Db → Result ApprovalError ℕ × Db
expire_overdue_approvals env db =
    let rows = returning (overdue env.now) expire_row db.approvals in
    if env.transaction_down then (err query_failed, db) else (
      ok (length rows),
      record db {
        approvals = update_where (overdue env.now) expire_row db.approvals;
        events = db.events ++ map (expired_event env) rows;
      },
    )
