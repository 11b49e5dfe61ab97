-- ===== src/Approval/Results.antt =====
-- What a successful call hands back to its caller stands in the table.
use cloudable.Base.{
  if_keeps, ◌⊎◌, [], ◌++◌, err, Result, ap, sym, subst, ◌≡◌, refl, List, ◌∷◌, Memᴰ, arith,
  Bool-cases, inl, inr, ok, number_eq, ==_refl,
}
use cloudable.Audit.{ApprovalMode, approved, pending, Event, approval_requested}
use cloudable.Database.{ApprovalRow, Db}
use cloudable.Approval.{
  request_auto_approved, update_where, trim, is_empty, Env, ApprovalRequest, ApprovalResult,
  insert_fails, new_row, auto_approve, insert_pending, request_with, request, request_mode, with_id,
  decide_row, requested_event, action_ref, ApprovalError,
}

-- The row of the result is in the table, and is the caller's.
pub record Recorded (req : ApprovalRequest) (rows : List ApprovalRow) (r : ApprovalRow)
    : Type 0 where
  pub present : Memᴰ r rows
  pub requester : r.requested_by_person_id ≡ req.requested_by_person_id
  pub machine : r.target_machine_id ≡ req.target_machine_id
  pub target_person : r.target_person_id ≡ req.target_person_id
  pub action : r.action_type ≡ req.action_type

new_row-Recorded :
    (env : Env) (req : ApprovalRequest) (mode : ApprovalMode) (rows : List ApprovalRow)
    → Recorded req (new_row env req mode ∷ rows) (new_row env req mode)
new_row-Recorded env req mode rows = record {
  present = Memᴰ.head refl;
  requester = refl;
  machine = refl;
  target_person = refl;
  action = refl;
}

module _ (env : Env) (req : ApprovalRequest) (db : Db) (a : ApprovalResult) where
  auto_approve-Recorded :
      (auto_approve env req ApprovalMode.none db).0 ≡ ok a
      → Recorded req (auto_approve env req ApprovalMode.none db).1.approvals a.row
        × (a.row.status ≡ approved)
  unfolding auto_approve
  auto_approve-Recorded h = elim (Bool-cases (is_empty (trim req.reason))) [
    | inl e ↦ absurd (ground arith)
    | inr e ↦ elim (Bool-cases (insert_fails env db)) [
      | inl f ↦ absurd (ground arith)
      | inr f ↦
          let granted = decide_row approved env.now (new_row env req ApprovalMode.none) in
          let same : a.row ≡ granted = ground arith in
          (
            rw (e, f)
                (subst
                  (Recorded req (
                    update_where (with_id env.new_id) (decide_row approved env.now)
                      (new_row env req ApprovalMode.none ∷ db.approvals)))
                  (sym same)
                  (record {
                    present = Memᴰ.head (rw (==_refl env.new_id));
                    requester = refl;
                    machine = refl;
                    target_person = refl;
                    action = refl;
                  })),
            ap (λ (r : ApprovalRow). r.status) same,
          )
    ]
  ]

  insert_pending-Recorded :
      (mode : ApprovalMode)
      → (insert_pending env req mode db).0 ≡ ok a
      → Recorded req (insert_pending env req mode db).1.approvals a.row
  unfolding insert_pending
  insert_pending-Recorded mode h = elim (Bool-cases (insert_fails env db)) [
    | inl e ↦ absurd (ground arith)
    | inr e ↦
        let same : a.row ≡ new_row env req mode = ground arith in
        rw e (
          subst (Recorded req (new_row env req mode ∷ db.approvals)) (sym same)
            (new_row-Recorded env req mode db.approvals))
  ]

  request_with-Recorded :
      (mode : ApprovalMode)
      → (request_with env req mode db).0 ≡ ok a
      → Recorded req (request_with env req mode db).1.approvals a.row
  unfolding request_with
  request_with-Recorded ApprovalMode.none h = (auto_approve-Recorded h).0
  request_with-Recorded ApprovalMode.single h = insert_pending-Recorded _ h
  request_with-Recorded ApprovalMode.dual h = insert_pending-Recorded _ h

  pub request-Recorded :
      (request env req db).0 ≡ ok a → Recorded req (request env req db).1.approvals a.row
  unfolding request
  request-Recorded h = elim (Bool-cases (is_empty (trim req.reason))) [
    | inl e ↦ absurd (ground arith)
    | inr e ↦ elim (Bool-cases env.query_down) [
      | inl f ↦ absurd (ground arith)
      | inr f ↦ rw e (simp f (request_with-Recorded (request_mode req db) (ground arith)))
    ]
  ]

  pub request_auto_approved-Recorded :
      (request_auto_approved env req db).0 ≡ ok a
      → Recorded req (request_auto_approved env req db).1.approvals a.row
        × (a.row.status ≡ approved)
  unfolding request_auto_approved
  request_auto_approved-Recorded h = auto_approve-Recorded h

-- The service writes no elevation.
module _ (env : Env) (req : ApprovalRequest) (db : Db) where
  auto_approve-elevations :
      (mode : ApprovalMode) → (auto_approve env req mode db).1.elevations ≡ db.elevations
  unfolding auto_approve
  auto_approve-elevations mode = ground arith

  pub request_auto_approved-elevations :
      (request_auto_approved env req db).1.elevations ≡ db.elevations
  unfolding request_auto_approved
  request_auto_approved-elevations = auto_approve-elevations ApprovalMode.none

  request_with-elevations :
      (mode : ApprovalMode) → (request_with env req mode db).1.elevations ≡ db.elevations
  unfolding request_with insert_pending
  request_with-elevations ApprovalMode.none = auto_approve-elevations ApprovalMode.none
  request_with-elevations mode = ground arith

  pub request-elevations : (request env req db).1.elevations ≡ db.elevations
  unfolding request
  request-elevations = ground (arith, request_with-elevations (request_mode req db))

-- What a request has done: nothing where it fails; where it does not, one new row and its event in
-- the audit log, or an approval that is given at once.
abbrev pub Asked : ApprovalRequest → Db → Result ApprovalError ApprovalResult → Db → Type 0
Asked req db (err e) db' = db' ≡ db
Asked req db (ok a) db' =
    (a.row.status ≡ approved)
    ⊎ ((a.row.status ≡ pending)
        × Recorded req db'.approvals a.row
        × ((mode : ApprovalMode) × (event : Event) × (event.payload
              ≡ approval_requested req.action_type (action_ref req) req.reason mode)
            × (db' ≡ record db {
              approvals = a.row ∷ db.approvals;
              events = db.events ++ event ∷ [];
            })))

module _ (env : Env) (req : ApprovalRequest) (db : Db) where
  auto_approve-Asked :
      let out = auto_approve env req ApprovalMode.none db in Asked req db out.0 out.1
  unfolding auto_approve
  auto_approve-Asked =
      if_keeps (λ (out : Result ApprovalError ApprovalResult × Db). Asked req db out.0 out.1)
        (is_empty (trim req.reason)) _ _ (λ _. refl)
        (λ _.
          if_keeps (λ (out : Result ApprovalError ApprovalResult × Db). Asked req db out.0 out.1)
            (insert_fails env db) _ _ (λ _. refl) (λ _. inl refl))

  insert_pending-Asked :
      (mode : ApprovalMode) → let out = insert_pending env req mode db in Asked req db out.0 out.1
  unfolding insert_pending
  insert_pending-Asked mode =
      if_keeps (λ (out : Result ApprovalError ApprovalResult × Db). Asked req db out.0 out.1)
        (insert_fails env db) _ _ (λ _. refl)
        (λ _. inr (
          refl,
          new_row-Recorded env req mode db.approvals,
          (mode, requested_event env req mode, refl, refl),
        ))

  request_with-Asked :
      (mode : ApprovalMode) → let out = request_with env req mode db in Asked req db out.0 out.1
  unfolding request_with
  request_with-Asked ApprovalMode.none = auto_approve-Asked
  request_with-Asked ApprovalMode.single = insert_pending-Asked _
  request_with-Asked ApprovalMode.dual = insert_pending-Asked _

  pub request-Asked : let out = request env req db in Asked req db out.0 out.1
  unfolding request
  request-Asked =
      if_keeps (λ (out : Result ApprovalError ApprovalResult × Db). Asked req db out.0 out.1)
        (is_empty (trim req.reason)) _ _ (λ _. refl)
        (λ _.
          if_keeps (λ (out : Result ApprovalError ApprovalResult × Db). Asked req db out.0 out.1)
            env.query_down _ _ (λ _. refl) (λ _. request_with-Asked (request_mode req db)))
