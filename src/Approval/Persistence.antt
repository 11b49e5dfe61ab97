-- ===== src/Approval/Persistence.antt =====
-- Approvals persist: no call removes one, moves it to another requester or machine, or takes an
-- approval back.
use cloudable.Base.{
  ◌∙◌, ◌&&◌, All-all, ℕ, ◌≡◌, refl, sym, subst, Bool, true, not, Option, none, some, List, [], ◌∷◌,
  All, All-map, Memᴰ, arith, Bool-cases, inl, inr, find, update_where, only_row, Text, trim,
  is_empty,
}
use cloudable.Audit.{ApprovalMode, ApprovalStatus, approved, rejected}
use cloudable.Database.{ApprovalRow, DecisionValue, approves, rejects, Db}
use cloudable.Approval.{
  length, ApprovalError, leb, Env, ApprovalRequest, with_id, decide_row, insert_fails, new_row,
  auto_approve, insert_pending, request_with, request, request_auto_approved, request_mode,
}
use cloudable.Approval.Decide.{
  record_decision, check_decision, decide_found, decide, find_approval, overdue, expire_row,
  expire_overdue_approvals, approvers, is_approval,
}
use cloudable.Approval.Decisions.{row_id}
use cloudable.Approval.Validity.{Valid}
use cloudable.Approval.Reachable.{
  Step, requests, requests_auto, decides, sweeps, elsewhere, Reach, here, next, Reach-Valid,
  find_approval-eq-some,
}

pub record Same (r r' : ApprovalRow) : Type 0 where
  pub same_id : r'.id ≡ r.id
  pub same_requester : r'.requested_by_person_id ≡ r.requested_by_person_id
  pub same_machine : r'.target_machine_id ≡ r.target_machine_id
  pub still_approved : r.status ≡ approved → r'.status ≡ approved

abbrev pub Persists : List ApprovalRow → List ApprovalRow → Type 0
Persists rows rows' =
    (r : ApprovalRow) → Memᴰ r rows → (r' : ApprovalRow) × Memᴰ r' rows' × Same r r'

Same-refl : (r : ApprovalRow) → Same r r
Same-refl r = record {
  same_id = refl;
  same_requester = refl;
  same_machine = refl;
  still_approved = λ a. a;
}

Persists-refl : (rows : List ApprovalRow) → Persists rows rows
Persists-refl rows r m = (r, m, Same-refl r)

pub Persists-trans : (a b c : List ApprovalRow) → Persists a b → Persists b c → Persists a c
Persists-trans a b c p q r m =
    let (r', m', s) = p r m in
    let (r'', m'', t) = q r' m' in
    (
      r'',
      m'',
      record {
        same_id = t.same_id ∙ s.same_id;
        same_requester = t.same_requester ∙ s.same_requester;
        same_machine = t.same_machine ∙ s.same_machine;
        still_approved = λ k. t.still_approved (s.still_approved k);
      },
    )

Persists-cons : (x : ApprovalRow) (rows : List ApprovalRow) → Persists rows (x ∷ rows)
Persists-cons x rows r m = (r, Memᴰ.tail m, Same-refl r)

Persists-update_where :
    (p : ApprovalRow → Bool) (f : ApprovalRow → ApprovalRow) (rows : List ApprovalRow)
    → All (λ r. p r ≡ true → Same r (f r)) rows
    → Persists rows (update_where p f rows)
Persists-update_where p f [] h r m = elim m [ ]
Persists-update_where p f (x ∷ rows) h r (Memᴰ.head e) = elim (Bool-cases (p x)) [
  | inl t ↦ (f x, Memᴰ.head (rw t), subst (λ y. Same y (f x)) (sym e) (h.0 t))
  | inr t ↦ (x, Memᴰ.head (rw t), subst (λ y. Same y x) (sym e) (Same-refl x))
]
Persists-update_where p f (x ∷ rows) h r (Memᴰ.tail m) =
    let (r', m', s) = Persists-update_where p f rows h.1 r m in (r', Memᴰ.tail m', s)

approve-Same : (now : ℕ) (r : ApprovalRow) → Same r (decide_row approved now r)
approve-Same now r = record {
  same_id = refl;
  same_requester = refl;
  same_machine = refl;
  still_approved = λ _. refl;
}

auto_approve-Persists :
    (env : Env) (req : ApprovalRequest) (db : Db)
    → Persists db.approvals (auto_approve env req ApprovalMode.none db).1.approvals
unfolding auto_approve
auto_approve-Persists env req db = elim (Bool-cases (is_empty (trim req.reason))) [
  | inl e ↦ rw e (Persists-refl db.approvals)
  | inr e ↦ rw e (elim (Bool-cases (insert_fails env db)) [
    | inl f ↦ rw f (Persists-refl db.approvals)
    | inr f ↦
        let row = new_row env req ApprovalMode.none in
        rw f (
          Persists-trans db.approvals (row ∷ db.approvals) _ (Persists-cons row db.approvals) (
            Persists-update_where (with_id row.id) (decide_row approved env.now)
              (row ∷ db.approvals)
              (All-all _ (λ r _. approve-Same env.now r) (row ∷ db.approvals))))
  ])
]

insert_pending-Persists :
    (env : Env) (req : ApprovalRequest) (mode : ApprovalMode) (db : Db)
    → Persists db.approvals (insert_pending env req mode db).1.approvals
unfolding insert_pending
insert_pending-Persists env req mode db = elim (Bool-cases (insert_fails env db)) [
  | inl f ↦ rw f (Persists-refl db.approvals)
  | inr f ↦ rw f (Persists-cons (new_row env req mode) db.approvals)
]

request_with-Persists :
    (env : Env) (req : ApprovalRequest) (mode : ApprovalMode) (db : Db)
    → Persists db.approvals (request_with env req mode db).1.approvals
unfolding request_with
request_with-Persists env req ApprovalMode.none db = auto_approve-Persists env req db
request_with-Persists env req mode db = insert_pending-Persists env req mode db

request-Persists :
    (env : Env) (req : ApprovalRequest) (db : Db)
    → Persists db.approvals (request env req db).1.approvals
unfolding request
request-Persists env req db = elim (Bool-cases (is_empty (trim req.reason))) [
  | inl e ↦ rw e (Persists-refl db.approvals)
  | inr e ↦ rw e (elim (Bool-cases env.query_down) [
    | inl f ↦ simp f (Persists-refl db.approvals)
    | inr f ↦ simp f (request_with-Persists env req (request_mode req db) db)
  ])
]

-- Settling a row that was pending takes no approval back.
settle-Persists :
    (db : Db) (row : ApprovalRow) (p now : ℕ) (status : ApprovalStatus)
    → Valid db
    → find (with_id row.id) db.approvals ≡ some row
    → check_decision db row p ≡ none
    → Persists db.approvals (update_where (with_id row.id) (decide_row status now) db.approvals)
unfolding check_decision
settle-Persists db row p now status v found clear =
    Persists-update_where (with_id row.id) (decide_row status now) db.approvals (
      All-map (λ r. r.id ≡ row.id → r ≡ row)
        (λ r. with_id row.id r ≡ true → Same r (decide_row status now r))
        (λ r same t.
          let e : r ≡ row = same (ground arith) in
          record {
            same_id = refl;
            same_requester = refl;
            same_machine = refl;
            still_approved = λ a. absurd (ground arith);
          })
        db.approvals (only_row row_id row.id db.approvals row v.primary_key found))

record_decision-Persists :
    (env : Env) (row : ApprovalRow) (p : ℕ) (value : DecisionValue) (reason : Text) (db : Db)
    → Valid db
    → find (with_id row.id) db.approvals ≡ some row
    → check_decision db row p ≡ none
    → Persists db.approvals (record_decision env row p value reason db).1.approvals
unfolding record_decision
record_decision-Persists env row p rejects reason db v found clear =
    settle-Persists db row p env.now rejected v found clear
record_decision-Persists env row p approves reason db v found clear =
    elim (Bool-cases (
      leb row.required_approvals (
        length (
          approvers row.id (
            record { approval_id = row.id; person_id = p; decision = approves }
            ∷ db.decisions))))) [
              | inl e ↦ rw e (settle-Persists db row p env.now approved v found clear)
              | inr e ↦ rw e (Persists-refl db.approvals)
            ]

decide-Persists :
    (env : Env) (id org p : ℕ) (value : DecisionValue) (reason : Text) (db : Db)
    → Valid db
    → Persists db.approvals (decide env id org p value reason db).1.approvals
unfolding decide
decide-Persists env id org p value reason db v =
    elim (Bool-cases (not (is_approval value) && is_empty (trim reason))) [
      | inl e ↦ rw e (Persists-refl db.approvals)
      | inr e ↦ rw e (elim (Bool-cases env.transaction_down) [
        | inl f ↦ simp f (Persists-refl db.approvals)
        | inr f ↦ simp f (found-Persists (find_approval id org db) refl)
      ])
    ]
  where
    checked-Persists :
        (row : ApprovalRow) (c : Option ApprovalError)
        → find (with_id row.id) db.approvals ≡ some row
        → check_decision db row p ≡ c
        → Persists db.approvals (decide_found env (some row) p value reason db).1.approvals
    checked-Persists row none found e =
        rw (e, decide_found) (record_decision-Persists env row p value reason db v found e)
    checked-Persists row (some x) found e = rw (e, decide_found) (Persists-refl db.approvals)

    found-Persists :
        (o : Option ApprovalRow)
        → find_approval id org db ≡ o
        → Persists db.approvals (decide_found env o p value reason db).1.approvals
    found-Persists none e = Persists-refl db.approvals
    found-Persists (some row) e =
        let seen = find_approval-eq-some id org db row e in
        checked-Persists row (check_decision db row p)
          (subst (λ k. find (with_id k) db.approvals ≡ some row) (sym seen.1) seen.0) refl

expire-Persists :
    (env : Env) (db : Db) → Persists db.approvals (expire_overdue_approvals env db).1.approvals
unfolding expire_overdue_approvals
expire-Persists env db = elim (Bool-cases env.transaction_down) [
  | inl e ↦ simp e (Persists-refl db.approvals)
  | inr e ↦ simp e (
      Persists-update_where (overdue env.now) expire_row db.approvals (
        All-all (λ r. overdue env.now r ≡ true → Same r (expire_row r))
          (λ r t. record {
            same_id = refl;
            same_requester = refl;
            same_machine = refl;
            still_approved = λ a. absurd (ground arith);
          })
          db.approvals))
]

Step-Persists : {db db' : Db} → Step db db' → Valid db → Persists db.approvals db'.approvals
unfolding request_auto_approved
Step-Persists {db} (requests env req) v = request-Persists env req db
Step-Persists {db} (requests_auto env req) v = auto_approve-Persists env req db
Step-Persists {db} (decides env id org p value reason) v =
    decide-Persists env id org p value reason db v
Step-Persists {db} (sweeps env) v = expire-Persists env db
Step-Persists {db} (elsewhere db' a d) v = rw a (Persists-refl db.approvals)

-- From valid tables, whatever the service does, every approval stays in the table with its
-- requester and its target machine, and what is approved stays approved.
pub Reach-Persists : {db db' : Db} → Valid db → Reach db db' → Persists db.approvals db'.approvals
Reach-Persists {db} v here = Persists-refl db.approvals
Reach-Persists {db} v (next {db'} {db''} reach step) =
    Persists-trans db.approvals db'.approvals db''.approvals (Reach-Persists v reach)
      (Step-Persists step (Reach-Valid reach v))
