-- ===== src/Approval/Guards.antt =====
-- Who may decide on what, and that a refused call changes nothing.
use cloudable.Base.{
  ℕ, ◌≡◌, refl, ◌≢◌, false, Option, none, some, find, is_empty, trim, Text, arith, Result, ok, err,
  number_eq,
}
use cloudable.Audit.{pending}
use cloudable.Database.{ApprovalRow, DecisionValue, approves, rejects, Db}
use cloudable.Approval.{
  ApprovalMode, Env, ApprovalRequest, ApprovalResult, ApprovalError, with_id, auto_approve,
  insert_pending, request_with, request, request_mode,
}
use cloudable.Approval.Decide.{
  decide, decide_found, record_decision, check_decision, find_approval, has_conflict, decided_by,
}
use cloudable.Approval.Reachable.{find_approval-eq-some}

abbrev Outcome : Type 0
Outcome = Result ApprovalError ApprovalResult × Db

-- A refused call leaves the tables as they were.
abbrev pub IsAtomic : Db → Outcome → Type 0
IsAtomic db o = (e : ApprovalError) → o.0 ≡ err e → o.1 ≡ db

-- What has to hold of the row for a person to decide on it.
pub record MayDecide (db : Db) (id org p : ℕ) : Type 0 where
  pub row : ApprovalRow
  pub found : find (with_id id) db.approvals ≡ some row
  pub same_org : row.org_id ≡ org
  pub open_row : row.status ≡ pending
  pub not_requester : row.requested_by_person_id ≢ p
  pub no_conflict : has_conflict db row p ≡ false
  pub first_time : decided_by row.id p db.decisions ≡ false

record_decision-IsAtomic :
    (env : Env) (row : ApprovalRow) (p : ℕ) (value : DecisionValue) (reason : Text) (db : Db)
    → IsAtomic db (record_decision env row p value reason db)
unfolding record_decision
record_decision-IsAtomic env row p rejects reason db e h = cc
record_decision-IsAtomic env row p approves reason db e h = ground arith

decide_found-IsAtomic :
    (env : Env) (o : Option ApprovalRow) (p : ℕ) (value : DecisionValue) (reason : Text) (db : Db)
    → IsAtomic db (decide_found env o p value reason db)
unfolding decide_found
decide_found-IsAtomic env none p value reason db e h = refl
decide_found-IsAtomic env (some row) p value reason db e h =
    ground (arith, record_decision-IsAtomic env row p value reason db e)

-- A decision that is refused, or whose transaction fails, changes no table.
decide-IsAtomic :
    (env : Env) (id org p : ℕ) (value : DecisionValue) (reason : Text) (db : Db)
    → IsAtomic db (decide env id org p value reason db)
unfolding decide
decide-IsAtomic env id org p value reason db e h =
    ground (arith, decide_found-IsAtomic env (find_approval id org db) p value reason db e)

auto_approve-IsAtomic :
    (env : Env) (req : ApprovalRequest) (mode : ApprovalMode) (db : Db)
    → IsAtomic db (auto_approve env req mode db)
unfolding auto_approve
auto_approve-IsAtomic env req mode db e h = ground arith

insert_pending-IsAtomic :
    (env : Env) (req : ApprovalRequest) (mode : ApprovalMode) (db : Db)
    → IsAtomic db (insert_pending env req mode db)
unfolding insert_pending
insert_pending-IsAtomic env req mode db e h = ground arith

request_with-IsAtomic :
    (env : Env) (req : ApprovalRequest) (mode : ApprovalMode) (db : Db)
    → IsAtomic db (request_with env req mode db)
unfolding request_with
request_with-IsAtomic env req ApprovalMode.none db =
    auto_approve-IsAtomic env req ApprovalMode.none db
request_with-IsAtomic env req mode db = insert_pending-IsAtomic env req mode db

-- A request that is refused, or whose transaction fails, changes no table.
request-IsAtomic : (env : Env) (req : ApprovalRequest) (db : Db) → IsAtomic db (request env req db)
unfolding request
request-IsAtomic env req db e h =
    ground (arith, request_with-IsAtomic env req (request_mode req db) db e)

may_decide :
    (db : Db) (id org p : ℕ) (row : ApprovalRow)
    → find_approval id org db ≡ some row
    → check_decision db row p ≡ none
    → MayDecide db id org p
unfolding check_decision
may_decide db id org p row seen clear =
    let parts = find_approval-eq-some id org db row seen in
    record {
      row = row;
      found = parts.0;
      same_org = parts.2;
      open_row = ground arith;
      not_requester = λ e. ground arith;
      no_conflict = ground arith;
      first_time = ground arith;
    }

decide_found_clear :
    (env : Env) (o : Option ApprovalRow) (p : ℕ) (value : DecisionValue) (reason : Text) (db : Db)
    (res : ApprovalResult)
    → (decide_found env o p value reason db).0 ≡ ok res
    → (row : ApprovalRow) × (o ≡ some row) × (check_decision db row p ≡ none)
unfolding decide_found
decide_found_clear env none p value reason db res h = absurd (cc)
decide_found_clear env (some row) p value reason db res h = (row, refl, ground arith)

-- A decision is taken only on a pending approval of the caller's organisation, by a person who did
-- not request it, is not its target, does not own its target machine, and has not decided on it
-- before; and a rejection states a reason.
pub decide_guarded :
    (env : Env) (id org p : ℕ) (value : DecisionValue) (reason : Text) (db : Db)
    (res : ApprovalResult)
    → (decide env id org p value reason db).0 ≡ ok res
    → MayDecide db id org p × (value ≡ rejects → is_empty (trim reason) ≡ false)
unfolding decide
decide_guarded env id org p value reason db res h =
    let (row, seen, clear) =
      decide_found_clear env (find_approval id org db) p value reason db res (ground arith) in
    (may_decide db id org p row seen clear, λ e. ground arith)
