-- ===== src/Approval/Preservation.antt =====
-- Every operation of the approval service keeps the tables valid.
use cloudable.Base.{
  any-key, keys-update_where, no_row, ◌≢◌, has_id, All-map, ℕ, ◌≤◌, ◌≡◌, refl, false, List, [], ◌∷◌,
  ◌==◌, number_eq, All, arith, Bool-cases, Option-cases, inl, inr,
}
use cloudable.Audit.{ApprovalMode, ApprovalStatus, approved, pending}
use cloudable.Database.{ApprovalRow, ApprovalDecision, Db}
use cloudable.Approval.{
  request_mode, update_where, trim, is_empty, length, Env, ApprovalRequest, with_id, decide_row,
  new_row, insert_fails, auto_approve, insert_pending, request_with, request, request_auto_approved,
}
use cloudable.Approval.Decide.{approvers}
use cloudable.Approval.Decisions.{row_id, ids, Known, decided_by_new, approvers_new}
use cloudable.Approval.Validity.{RowValid, Valid}

-- A row under a new id has no decisions.
new_row-RowValid :
    (env : Env) (req : ApprovalRequest) (mode : ApprovalMode) (db : Db)
    → Valid db
    → has_id env.new_id (ids db.approvals) ≡ false
    → RowValid db.decisions (new_row env req mode)
new_row-RowValid env req mode db v free =
    let nobody =
      λ (p : ℕ). decided_by_new env.new_id p db.approvals db.decisions v.foreign_key free in
    record {
      mode_count = refl;
      quorum = λ a. absurd (cc);
      apart = rw (approvers_new env.new_id db.approvals db.decisions v.foreign_key free);
      not_self = nobody req.requested_by_person_id;
      not_target = elim (Option-cases req.target_person_id) [
        | inl e ↦ ground (arith, e)
        | inr (p, e) ↦ ground (arith, e, nobody p)
      ];
      undecided = λ _. refl;
    }

insert_free :
    (env : Env) (db : Db)
    → insert_fails env db ≡ false
    → has_id env.new_id (ids db.approvals) ≡ false
insert_free env db h = ground (arith, any-key row_id env.new_id db.approvals)

Known-new :
    (row : ApprovalRow) (rows : List ApprovalRow) (ds : List ApprovalDecision)
    → Known rows ds
    → Known (row ∷ rows) ds
Known-new row rows ds k = All-map _ _ (λ d h. ground (arith, h)) ds k

-- Only the approvals and their decisions matter.
pub same_tables :
    (db db' : Db)
    → db'.approvals ≡ db.approvals
    → db'.decisions ≡ db.decisions
    → Valid db
    → Valid db'
same_tables db db' a d v = record {
  rows = rw (a, d) v.rows;
  primary_key = rw a v.primary_key;
  foreign_key = rw (a, d) v.foreign_key;
}

inserted-Valid :
    (env : Env) (req : ApprovalRequest) (mode : ApprovalMode) (db : Db)
    → Valid db
    → insert_fails env db ≡ false
    → Valid (record db { approvals = new_row env req mode ∷ db.approvals })
inserted-Valid env req mode db v e =
    let free = insert_free env db e in
    record {
      rows = (new_row-RowValid env req mode db v free, v.rows);
      primary_key = ground (arith, free, v.primary_key);
      foreign_key = Known-new (new_row env req mode) db.approvals db.decisions v.foreign_key;
    }

insert_pending-Valid :
    (env : Env) (req : ApprovalRequest) (mode : ApprovalMode) (db : Db)
    → Valid db
    → Valid (insert_pending env req mode db).1
unfolding insert_pending
insert_pending-Valid env req mode db v = elim (Bool-cases (insert_fails env db)) [
  | inl e ↦ rw e v
  | inr e ↦ rw e (same_tables _ _ refl refl (inserted-Valid env req mode db v e))
]

-- The new status of the rows of an id is backed by their decisions.
abbrev pub Backed : List ApprovalDecision → ℕ → ApprovalStatus → ApprovalRow → Type 0
Backed ds id status r =
    r.id ≡ id → status ≡ approved → r.required_approvals ≤ length (approvers id ds)

flip-RowValid :
    (ds : List ApprovalDecision) (id now : ℕ) (status : ApprovalStatus)
    → status ≢ pending
    → (r : ApprovalRow) → r.id ≡ id
    → RowValid ds r
    → Backed ds id status r
    → RowValid ds (decide_row status now r)
flip-RowValid ds id now status decided r e h backed = record {
  mode_count = h.mode_count;
  quorum = λ a. ground (arith, backed e a);
  apart = h.apart;
  not_self = h.not_self;
  not_target = ground (arith, h.not_target);
  undecided = λ a. absurd (decided a);
}

flip_rows :
    (ds : List ApprovalDecision) (id now : ℕ) (status : ApprovalStatus)
    → status ≢ pending
    → (rows : List ApprovalRow) → All (RowValid ds) rows
    → All (Backed ds id status) rows
    → All (RowValid ds) (update_where (with_id id) (decide_row status now) rows)
flip_rows ds id now status decided [] h b = tt
flip_rows ds id now status decided (r ∷ rows) h b = (
  elim (Bool-cases (r.id == id)) [
    | inl e ↦ rw e (flip-RowValid ds id now status decided r (ground arith) h.0 b.0)
    | inr e ↦ rw e h.0
  ],
  flip_rows ds id now status decided rows h.1 b.1,
)

-- Flipping the rows of one id keeps the tables valid.
pub flip-Valid :
    (db : Db) (id now : ℕ) (status : ApprovalStatus)
    → status ≢ pending
    → Valid db
    → All (Backed db.decisions id status) db.approvals
    → Valid
        (record db { approvals = update_where (with_id id) (decide_row status now) db.approvals })
flip-Valid db id now status decided v backed =
    let same =
      keys-update_where row_id (with_id id) (decide_row status now) (λ r. refl) db.approvals in
    record {
      rows = flip_rows db.decisions id now status decided db.approvals v.rows backed;
      primary_key = rw same v.primary_key;
      foreign_key = rw same v.foreign_key;
    }

auto_approve-Valid :
    (env : Env) (req : ApprovalRequest) (db : Db)
    → Valid db
    → Valid (auto_approve env req ApprovalMode.none db).1
unfolding auto_approve
auto_approve-Valid env req db v = elim (Bool-cases (is_empty (trim req.reason))) [
  | inl e ↦ rw e v
  | inr e ↦ rw e (elim (Bool-cases (insert_fails env db)) [
    | inl f ↦ rw f v
    | inr f ↦ rw f (
        same_tables _ _ refl refl (
          flip-Valid (record db { approvals = new_row env req ApprovalMode.none ∷ db.approvals })
            env.new_id env.now approved (λ p. cc) (inserted-Valid env req ApprovalMode.none db v f)
            (
              λ _ _. omega arith,
              All-map (λ r. r.id ≡ env.new_id → ⊥) (Backed db.decisions env.new_id approved)
                  (λ r other k. absurd (other k)) db.approvals
                  (no_row row_id env.new_id db.approvals (insert_free env db f)),
            )))
  ])
]

request_with-Valid :
    (env : Env) (req : ApprovalRequest) (mode : ApprovalMode) (db : Db)
    → Valid db
    → Valid (request_with env req mode db).1
unfolding request_with
request_with-Valid env req ApprovalMode.none db v = auto_approve-Valid env req db v
request_with-Valid env req mode db v = insert_pending-Valid env req mode db v

pub request-Valid :
    (env : Env) (req : ApprovalRequest) (db : Db) → Valid db → Valid (request env req db).1
unfolding request
request-Valid env req db v = elim (Bool-cases (is_empty (trim req.reason))) [
  | inl e ↦ rw e v
  | inr e ↦ rw e (elim (Bool-cases env.query_down) [
    | inl f ↦ simp f v
    | inr f ↦ simp f (request_with-Valid env req (request_mode req db) db v)
  ])
]

pub request_auto_approved-Valid :
    (env : Env) (req : ApprovalRequest) (db : Db)
    → Valid db
    → Valid (request_auto_approved env req db).1
unfolding request_auto_approved
request_auto_approved-Valid env req db v = auto_approve-Valid env req db v
