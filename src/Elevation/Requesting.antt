-- ===== src/Elevation/Requesting.antt =====
-- A request for elevation, under any policy and with any failure on the way, keeps the system valid.
use cloudable.Base.{
  if_keeps, ℕ, ◌≤◌, ◌≡◌, refl, true, false, List, [], arith, any-key, Bool-cases, inl, inr, Result,
  ok, err, number_eq,
}
use cloudable.Audit.{approved, ApprovalStatus, Event}
use cloudable.Database.{ApprovalRow, Elevation, ElevationStatus, MachineRecord, Db}
use cloudable.Approval.{ApprovalResult, ApprovalError, request, request_auto_approved}
use cloudable.Approval.Reachable.{requests, requests_auto, elsewhere, here, next}
use cloudable.Approval.Preservation.{same_tables}
use cloudable.Approval.Results.{
  Recorded, request-Recorded, request_auto_approved-Recorded, request-elevations,
  request_auto_approved-elevations,
}
use cloudable.Elevation.{
  required_approval_mode_floor, configured_mode, approval_mode_satisfies_floor, ElevationError, Env,
  RequestElevationInput, AdminAccessPolicy, never, always, with_approval, admit,
}
use cloudable.Elevation.Service.{
  notify_if_owned, publish, finalize_grant, open_elevation, elevation_row, insert_fails,
  insert_elevation, is_granted, initial_status, grant_always, request_approval, by_policy,
  request_elevation, approval_request, expiry, Outcome, after_approval,
}
use cloudable.Elevation.Backing.{was_granted, Backed, elevation_id, SystemValid, Reach-SystemValid}

-- Events and notifications do not matter to it.
pub same_system :
    (db db' : Db)
    → db'.approvals ≡ db.approvals
    → db'.decisions ≡ db.decisions
    → db'.elevations ≡ db.elevations
    → SystemValid db
    → SystemValid db'
same_system db db' a d e v = Reach-SystemValid (next here (elsewhere db' a d)) e v

pub notify_if_owned-SystemValid :
    (env : Env) (machine : MachineRecord) (e : Elevation) (db : Db)
    → SystemValid db
    → SystemValid (notify_if_owned env machine e db)
unfolding notify_if_owned
notify_if_owned-SystemValid env machine e db v =
    same_system db (notify_if_owned env machine e db) (ground arith) (ground arith) (ground arith) v

pub finalize_grant-SystemValid :
    (env : Env) (batch : List Event) (machine : MachineRecord) (e : Elevation) (db : Db)
    → SystemValid db
    → SystemValid (finalize_grant env batch machine e db).1
unfolding finalize_grant
finalize_grant-SystemValid env batch machine e db v = elim (Bool-cases env.publish_down) [
  | inl f ↦ simp f v
  | inr f ↦ simp f (
      notify_if_owned-SystemValid env machine e (publish batch db)
        (same_system db (publish batch db) refl refl refl v))
]

inserted-SystemValid :
    (env : Env) (e : Elevation) (db : Db)
    → e.id ≡ env.new_id
    → insert_fails env db ≡ false
    → Backed db.approvals e
    → SystemValid db
    → SystemValid (insert_elevation e db)
inserted-SystemValid env e db same free b v = record {
  approvals_valid = same_tables db (insert_elevation e db) refl refl v.approvals_valid;
  backed = (b, v.backed);
  primary_key = ground (arith, any-key elevation_id env.new_id db.elevations, v.primary_key);
}

abbrev After : Outcome Elevation → Type 0
After o = SystemValid o.1

-- The row that a request inserts is backed by the approval that it has just made.
elevation_row-Backed :
    (env : Env) (input : RequestElevationInput) (machine : MachineRecord) (status : ElevationStatus)
    (a : ApprovalResult) (expires : ℕ) (rows : List ApprovalRow)
    → Recorded (approval_request input machine) rows a.row
    → (was_granted status ≡ true → (a.row.status ≡ approved) × (is_granted status ≡ true))
    → env.now ≤ expires
    → Backed rows (elevation_row env input machine status a.row.id expires)
unfolding elevation_row
elevation_row-Backed env input machine status a expires rows r granted later = record {
  row = a.row;
  present = r.present;
  linked = refl;
  same_requester = r.requester;
  same_machine = r.machine;
  approval = λ g. (granted g).0;
  timed = λ g. record {
    from = env.now;
    until = expires;
    starts = rw (granted g).1;
    ends = rw (granted g).1;
    in_order = later;
  };
}

open_elevation-SystemValid :
    (env : Env) (input : RequestElevationInput) (machine : MachineRecord) (status : ElevationStatus)
    (a : ApprovalResult) (extra : List Event) (expires : ℕ) (db : Db)
    → Recorded (approval_request input machine) db.approvals a.row
    → (was_granted status ≡ true → (a.row.status ≡ approved) × (is_granted status ≡ true))
    → env.now ≤ expires
    → SystemValid db
    → SystemValid (open_elevation env input machine status a extra expires db).1
unfolding open_elevation
open_elevation-SystemValid env input machine status a extra expires db r granted later v =
    let e = elevation_row env input machine status a.row.id expires in
    if_keeps After (insert_fails env db) _ _ (λ _. v)
      λ free.
        let w =
          inserted-SystemValid env e db refl free
            (elevation_row-Backed env input machine status a expires db.approvals r granted later)
            v in
        if_keeps After (is_granted status) _ _
          (λ _. finalize_grant-SystemValid env _ machine e (insert_elevation e db) w)
          (λ _.
            if_keeps After env.publish_down _ _ (λ _. w)
              (λ _. same_system (insert_elevation e db) _ refl refl refl w))

-- The approval call is a step of the approval service; what follows it may use its result.
after_approval-SystemValid :
    (next_step : ApprovalResult → Db → Outcome Elevation) (db db' : Db)
    (res : Result ApprovalError ApprovalResult)
    → SystemValid db'
    → ((a : ApprovalResult) → res ≡ ok a → SystemValid (next_step a db').1)
    → SystemValid (after_approval next_step (res, db')).1
unfolding after_approval
after_approval-SystemValid next_step db db' (ok a) v then_valid = then_valid a refl
after_approval-SystemValid next_step db db' (err e) v then_valid = v

grant_always-SystemValid :
    (env : Env) (input : RequestElevationInput) (machine : MachineRecord) (db : Db)
    → SystemValid db
    → SystemValid (grant_always env input machine db).1
unfolding grant_always
grant_always-SystemValid env input machine db v =
    let req = approval_request input machine in
    let called = request_auto_approved env.approval req db in
    let w =
      Reach-SystemValid (next here (requests_auto env.approval req))
        (request_auto_approved-elevations env.approval req db) v in
    after_approval-SystemValid _ db called.1 called.0 w λ a h.
      let recorded = request_auto_approved-Recorded env.approval req db a h in
      open_elevation-SystemValid env input machine ElevationStatus.granted a _
        (expiry env machine db) called.1 recorded.0 (λ _. (recorded.1, refl)) (omega arith) w

initial_status_granted :
    (s : ApprovalStatus)
    → was_granted (initial_status s) ≡ true
    → (s ≡ approved) × (is_granted (initial_status s) ≡ true)
initial_status_granted s h = ground arith

request_approval-SystemValid :
    (env : Env) (input : RequestElevationInput) (machine : MachineRecord) (db : Db)
    → SystemValid db
    → SystemValid (request_approval env input machine db).1
unfolding request_approval
request_approval-SystemValid env input machine db v =
    let req = approval_request input machine in
    let called = request env.approval req db in
    let w =
      Reach-SystemValid (next here (requests env.approval req))
        (request-elevations env.approval req db) v in
    if_keeps After
      (approval_mode_satisfies_floor (configured_mode db machine)
        (required_approval_mode_floor input.level))
      _ _
      (λ _. after_approval-SystemValid _ db called.1 called.0 w λ a h.
        open_elevation-SystemValid env input machine (initial_status a.row.status) a []
          (expiry env machine db) called.1 (request-Recorded env.approval req db a h)
          (initial_status_granted a.row.status) (omega arith) w)
      (λ _. v)

by_policy-SystemValid :
    (policy : AdminAccessPolicy) (env : Env) (input : RequestElevationInput)
    (machine : MachineRecord) (db : Db)
    → SystemValid db
    → SystemValid (by_policy policy env input machine db).1
unfolding by_policy
by_policy-SystemValid never env input machine db v = v
by_policy-SystemValid always env input machine db v =
    grant_always-SystemValid env input machine db v
by_policy-SystemValid with_approval env input machine db v =
    request_approval-SystemValid env input machine db v

pub request_elevation-SystemValid :
    (env : Env) (input : RequestElevationInput) (db : Db)
    → SystemValid db
    → SystemValid (request_elevation env input db).1
unfolding request_elevation
request_elevation-SystemValid env input db v = go (admit env input db)
  where
    go :
        (r : Result ElevationError MachineRecord)
        → After (elim r [ err e ↦ (err e, db) | ok m ↦ by_policy env.policy env input m db ])
    go (err e) = v
    go (ok m) = by_policy-SystemValid env.policy env input m db v
