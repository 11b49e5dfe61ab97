-- ===== src/Approval/Reachable.antt =====
-- The approval tables stay valid under decisions and sweeps, and so in every reachable state.
use cloudable.Base.{
  keys-update_where, only_row, has_id-find, All-map, find-eq-some, sym, All-all, ap,
  All-update_where, subst, ℕ, ◌≡◌, refl, true, not, ◌&&◌, none, some, List, ◌∷◌, number_eq, arith,
  Bool-cases, Option-cases, inl, inr, Text, find, All-zip,
}
use cloudable.Audit.{approved, rejected}
use cloudable.Database.{ApprovalRow, ApprovalDecision, DecisionValue, approves, rejects, Db}
use cloudable.Approval.{
  ok, ApprovalResult, trim, length, is_empty, leb, Env, ApprovalRequest, with_id, request,
  request_auto_approved,
}
use cloudable.Approval.Decide.{
  status, visible, is_approval, record_decision, check_decision, decide_found, decide,
  find_approval, overdue, expire_row, expire_overdue_approvals, approvers,
}
use cloudable.Approval.Decisions.{row_id}
use cloudable.Approval.Validity.{RowValid, Valid, RowValid_decision, decision_of}
use cloudable.Approval.Preservation.{
  Backed, flip-Valid, same_tables, request-Valid, request_auto_approved-Valid,
}

-- One more decision on the row that is alone under its id keeps the tables valid.
decision-Valid :
    (db : Db) (row : ApprovalRow) (p : ℕ) (value : DecisionValue)
    → Valid db
    → find (with_id row.id) db.approvals ≡ some row
    → check_decision db row p ≡ none
    → Valid (record db { decisions = decision_of row p value ∷ db.decisions })
unfolding check_decision
decision-Valid db row p value v found clear = record {
  rows =
      All-zip (λ r. r.id ≡ row.id → r ≡ row) (RowValid db.decisions)
        (RowValid (decision_of row p value ∷ db.decisions))
        (λ r same h.
          RowValid_decision db.decisions row p value r (ground arith) (ground arith) (ground arith)
            same h)
        db.approvals (only_row row_id row.id db.approvals row v.primary_key found) v.rows;
  primary_key = v.primary_key;
  foreign_key = (has_id-find row_id row.id db.approvals row found, v.foreign_key);
}

record_decision-Valid :
    (env : Env) (row : ApprovalRow) (p : ℕ) (value : DecisionValue) (reason : Text) (db : Db)
    → Valid db
    → find (with_id row.id) db.approvals ≡ some row
    → check_decision db row p ≡ none
    → Valid (record_decision env row p value reason db).1
unfolding record_decision
record_decision-Valid env row p rejects reason db v found clear = same_tables _ _ refl refl (
    flip-Valid (record db { decisions = decision_of row p rejects ∷ db.decisions }) row.id env.now
      rejected (λ e. cc) (decision-Valid db row p rejects v found clear)
      (All-all _ (λ r _ e. absurd (cc)) db.approvals))
record_decision-Valid env row p approves reason db v found clear =
    let w = decision-Valid db row p approves v found clear in
    let ds = decision_of row p approves ∷ db.decisions in
    elim (Bool-cases (leb row.required_approvals (length (approvers row.id ds)))) [
      | inl e ↦ rw e (
          same_tables _ _ refl refl (
            flip-Valid (record db { decisions = ds }) row.id env.now approved (λ k. cc) w
              (All-map (λ r. r.id ≡ row.id → r ≡ row) (Backed ds row.id approved)
                (λ r same k _. ground (arith, same k)) db.approvals
                (only_row row_id row.id db.approvals row v.primary_key found))))
      | inr e ↦ rw e w
    ]

-- The row that a call may see is the row of the id, in the caller's organisation.
pub find_approval-eq-some :
    (id org : ℕ) (db : Db) (row : ApprovalRow)
    → find_approval id org db ≡ some row
    → (find (with_id id) db.approvals ≡ some row) × (row.id ≡ id) × (row.org_id ≡ org)
find_approval-eq-some id org db row h = elim (Option-cases (find (with_id id) db.approvals)) [
  | inl e ↦ absurd (cc (ap (visible org) e))
  | inr (r, e) ↦
      let t = find-eq-some (with_id id) db.approvals r e in
      let h' : visible org (some r) ≡ some row = rw e at h in
      (ground (arith, e), ground arith, ground arith)
]

decide_found-Valid :
    (env : Env) (id org p : ℕ) (value : DecisionValue) (reason : Text) (db : Db)
    → Valid db
    → Valid (decide_found env (find_approval id org db) p value reason db).1
unfolding decide_found
decide_found-Valid env id org p value reason db v = elim (Option-cases (find_approval id org db)) [
  | inl e ↦ rw e v
  | inr (row, e) ↦ rw e (elim (Option-cases (check_decision db row p)) [
    | inl clear ↦
        let seen = find_approval-eq-some id org db row e in
        rw (clear, decide_found)
          (record_decision-Valid env row p value reason db v
            (subst (λ k. find (with_id k) db.approvals ≡ some row) (sym seen.1) seen.0) clear)
    | inr (x, refused) ↦ rw (refused, decide_found) v
  ])
]

pub decide-Valid :
    (env : Env) (id org p : ℕ) (value : DecisionValue) (reason : Text) (db : Db)
    → Valid db
    → Valid (decide env id org p value reason db).1
unfolding decide
decide-Valid env id org p value reason db v =
    elim (Bool-cases (not (is_approval value) && is_empty (trim reason))) [
      | inl e ↦ rw e v
      | inr e ↦ rw e (elim (Bool-cases env.transaction_down) [
        | inl f ↦ simp f v
        | inr f ↦ simp f (decide_found-Valid env id org p value reason db v)
      ])
    ]

expire_row-RowValid :
    (ds : List ApprovalDecision) (now : ℕ) (r : ApprovalRow)
    → overdue now r ≡ true
    → RowValid ds r
    → RowValid ds (expire_row r)
expire_row-RowValid ds now r e h = record {
  mode_count = h.mode_count;
  quorum = λ a. absurd (cc);
  apart = h.apart;
  not_self = h.not_self;
  not_target = ground (arith, h.not_target);
  undecided = λ a. absurd (cc);
}

pub expire_overdue_approvals-Valid :
    (env : Env) (db : Db) → Valid db → Valid (expire_overdue_approvals env db).1
unfolding expire_overdue_approvals
expire_overdue_approvals-Valid env db v = elim (Bool-cases env.transaction_down) [
  | inl e ↦ simp e v
  | inr e ↦
      let same = keys-update_where row_id (overdue env.now) expire_row (λ r. refl) db.approvals in
      simp e (record {
        rows =
            All-update_where (RowValid db.decisions) (overdue env.now) expire_row
              (expire_row-RowValid db.decisions env.now) db.approvals v.rows;
        primary_key = rw same v.primary_key;
        foreign_key = rw same v.foreign_key;
      })
]

-- One call of the service, or a change of the tables that it only reads.
pub data Step (db : Db) : Db → Type 0 where
  requests : (env : Env) (req : ApprovalRequest) → Step db (request env req db).1
  requests_auto : (env : Env) (req : ApprovalRequest) → Step db (request_auto_approved env req db).1
  decides :
      (env : Env) (id org p : ℕ) (value : DecisionValue) (reason : Text)
      → Step db (decide env id org p value reason db).1
  sweeps : (env : Env) → Step db (expire_overdue_approvals env db).1
  elsewhere : (db' : Db) → db'.approvals ≡ db.approvals → db'.decisions ≡ db.decisions → Step db db'

pub data Reach (db : Db) : Db → Type 0 where
  here : Reach db db
  next : {db' db'' : Db} → Reach db db' → Step db' db'' → Reach db db''

pub Step-Valid : {db db' : Db} → Step db db' → Valid db → Valid db'
Step-Valid {db} (requests env req) v = request-Valid env req db v
Step-Valid {db} (requests_auto env req) v = request_auto_approved-Valid env req db v
Step-Valid {db} (decides env id org p value reason) v = decide-Valid env id org p value reason db v
Step-Valid {db} (sweeps env) v = expire_overdue_approvals-Valid env db v
Step-Valid {db} (elsewhere db' a d) v = same_tables db db' a d v

pub Reach-Valid : {db db' : Db} → Reach db db' → Valid db → Valid db'
Reach-Valid here v = v
Reach-Valid (next r s) v = Step-Valid s (Reach-Valid r v)

pub status-eq-ok :
    (env : Env) (a org : ℕ) (db : Db) (res : ApprovalResult)
    → status env a org db ≡ ok res
    → find (with_id a) db.approvals ≡ some res.row
unfolding status
status-eq-ok env a org db res h = elim (Option-cases (find_approval a org db)) [
  | inl e ↦ absurd (ground arith)
  | inr (row, e) ↦
      let same : row ≡ res.row = ground arith in
      subst (λ r. find (with_id a) db.approvals ≡ some r) same
        (find_approval-eq-some a org db row e).0
]
