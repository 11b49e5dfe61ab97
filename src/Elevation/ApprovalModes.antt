-- ===== src/Elevation/ApprovalModes.antt =====
-- The approval that a request for elevation asks for. `request` passes no mode floor to
-- `approvals.request`, which resolves a mode from a setting of its own.
use cloudable.Base.{
  [], if_keeps, List, ℕ, ◌≡◌, refl, Memᴰ, some, Result, ok, err, sym, subst, ap, ◌∙◌, arith,
}
use cloudable.Audit.{ApprovalMode, Event, Event, admin_access}
use cloudable.Database.{ElevationStatus, ApprovalRow, Elevation, MachineRecord, Db}
use cloudable.Approval
use cloudable.Approval.{
  apply_mode_floor, ApprovalResult, ApprovalRequest, resolve_approval_mode, request, request_mode,
}
use cloudable.Approval.Floor.{request_own_mode}
use cloudable.Approval.Results.{Recorded, request-Recorded}
use cloudable.Elevation.{
  policy_denied, Env, ElevationError, RequestElevationInput, with_approval, admit,
}
use cloudable.Elevation.Service.{
  insert_notification, notify_if_owned, finalize_grant, Outcome, open_elevation, request_elevation,
  request_approval, after_approval, approval_request, expiry, initial_status, elevation_row,
  by_policy,
}
use cloudable.Elevation.Guards.{open_elevation-eq-ok, decided}

-- The elevation names a row of the table whose mode is the approval service's own setting.
abbrev pub AsksForOwnMode : Db → Db → Elevation → Type 0
AsksForOwnMode db db' e =
    (r : ApprovalRow) × Memᴰ r db'.approvals
    × (e.approval_id ≡ some r.id)
    × (r.mode ≡ resolve_approval_mode db e.org_id (some e.machine_id) admin_access)

abbrev answered :
    Env
    → RequestElevationInput
    → MachineRecord
    → Db
    → Result Approval.ApprovalError ApprovalResult × Db
    → Outcome Elevation
answered env input m db called =
    after_approval
      (λ a db'. open_elevation env input m (initial_status a.row.status) a [] (expiry env m db) db')
      called

open_elevation-approvals :
    (env : Env) (input : RequestElevationInput) (m : MachineRecord) (s : ElevationStatus)
    (a : ApprovalResult) (extra : List Event) (expires : ℕ) (db : Db)
    → (open_elevation env input m s a extra expires db).1.approvals ≡ db.approvals
unfolding open_elevation finalize_grant notify_if_owned insert_notification
open_elevation-approvals env input m s a extra expires db = ground arith

abbrev own_mode : Db → MachineRecord → ApprovalMode
own_mode db m = resolve_approval_mode db m.org_id (some m.id) admin_access

after_approval-AsksForOwnMode :
    (env : Env) (input : RequestElevationInput) (m : MachineRecord) (db : Db)
    (called : Result Approval.ApprovalError ApprovalResult × Db) (e : Elevation)
    → ((a : ApprovalResult)
        → called.0 ≡ ok a
        → Recorded (approval_request input m) called.1.approvals a.row
          × (a.row.mode ≡ own_mode db m))
    → (answered env input m db called).0 ≡ ok e
    → AsksForOwnMode db (answered env input m db called).1 e
unfolding after_approval elevation_row
after_approval-AsksForOwnMode env input m db (ok a, db') e recorded h =
    let (r, mode) = recorded a refl in
    let s = initial_status a.row.status in
    let row = elevation_row env input m s a.row.id (expiry env m db) in
    let same : e ≡ row = open_elevation-eq-ok env input m s a [] (expiry env m db) db' e h in
    (
      a.row,
      subst (Memᴰ a.row) (sym (open_elevation-approvals env input m s a [] (expiry env m db) db'))
          r.present,
      ap (λ (x : Elevation). x.approval_id) same,
      mode
          ∙ ap
              (λ (x : Elevation).
                resolve_approval_mode db x.org_id (some x.machine_id) admin_access)
              (sym same),
    )
after_approval-AsksForOwnMode env input m db (err x, db') e recorded h = absurd (cc)

request_approval-AsksForOwnMode :
    (env : Env) (input : RequestElevationInput) (m : MachineRecord) (db : Db) (e : Elevation)
    → (request_approval env input m db).0 ≡ ok e
    → AsksForOwnMode db (request_approval env input m db).1 e
unfolding request_approval
request_approval-AsksForOwnMode env input m db e =
    if_keeps (λ (o : Outcome Elevation). o.0 ≡ ok e → AsksForOwnMode db o.1 e) _ _
      (err policy_denied, db)
      (λ _ h.
        after_approval-AsksForOwnMode env input m db
          (request env.approval (approval_request input m) db) e
          (λ a k. (
            request-Recorded env.approval (approval_request input m) db a k,
            request_own_mode env.approval (approval_request input m) db a refl refl k,
          ))
          h)
      (λ _ h. absurd (cc))

-- Under policy "with_approval" a request for elevation, of either level, is linked to an approval
-- that has the mode of the setting `approval_mode:admin_access` (one approver where it has no value),
-- and not the mode that the level's floor is compared with.
pub request_elevation-AsksForOwnMode :
    (env : Env) (input : RequestElevationInput) (db : Db) (e : Elevation)
    → env.policy ≡ with_approval
    → (request_elevation env input db).0 ≡ ok e
    → AsksForOwnMode db (request_elevation env input db).1 e
unfolding request_elevation by_policy
request_elevation-AsksForOwnMode env input db e policy = go (admit env input db)
  where
    go :
        (r : Result ElevationError MachineRecord)
        → (decided env input db r).0 ≡ ok e
        → AsksForOwnMode db (decided env input db r).1 e
    go (err x) h = absurd (cc)
    go (ok m) h = rw policy (request_approval-AsksForOwnMode env input m db e (rw policy at h))
