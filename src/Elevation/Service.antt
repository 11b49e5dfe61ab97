-- ===== src/Elevation/Service.antt =====
-- The operations of ElevationService.ts after the checks of `admit`: grants, synchronisation with
-- the approval, expiry, and the owner's notification.
use cloudable.Base.{
  ℕ, ◌+◌, ◌*◌, Bool, true, false, ◌||◌, Option, none, some, List, [], ◌∷◌, ◌++◌, ◌==◌, number_eq,
  if◌then◌else◌, any, Result, ok, err, trim,
}
use cloudable.Audit.{
  admin_access, approval_granted, elevation_requested, elevation_granted, elevation_expired, person,
  system, Event, ApprovalStatus, pending, approved, Actor,
}
use cloudable.Database.{Elevation, ElevationStatus, MachineRecord, Notification, Db}
use cloudable.Approval.{
  ApprovalRequest, ApprovalResult, ApprovalError, request, request_auto_approved,
}
use cloudable.Approval.Decide.{status}
use cloudable.Elevation.{
  Env, RequestElevationInput, AdminAccessPolicy, never, always, with_approval, ElevationError,
  policy_denied, infra, approval_service, approval_mode_satisfies_floor,
  required_approval_mode_floor, configured_mode, ttl_minutes, admit, event_about,
}

abbrev pub Outcome : Type 0 → Type 0
Outcome A = Result ElevationError A × Db

-- `approvalId` of a row that has been inserted by `request` is never null.
abbrev id_of : Option ℕ → ℕ
id_of none = 0
id_of (some a) = a

abbrev pub requested_event : ℕ → Actor → Elevation → Event
requested_event now actor e =
    event_about now actor e (elevation_requested e.level e.reason (id_of e.approval_id))

abbrev pub granted_event : ℕ → Actor → Elevation → Event
granted_event now actor e =
    event_about now actor e (elevation_granted e.level (id_of e.expires_at) (id_of e.approval_id))

abbrev pub expired_event : ℕ → Elevation → Event
expired_event now e = event_about now (system "elevation-expiry") e (elevation_expired e.level)

abbrev pub notified : ℕ → Notification → Bool
notified id n = n.elevation_id == id

-- `insertNotification`: the table holds one notification for an elevation at most.
unfoldable pub insert_notification : Elevation → ℕ → Db → Db
insert_notification e owner db = if any (notified e.id) db.notifications then db else record db {
  notifications =
      record { org_id = e.org_id; owner_person_id = owner; elevation_id = e.id } ∷ db.notifications;
}

-- Best effort: a failure is logged, and the grant stands.
unfoldable pub notify_if_owned : Env → MachineRecord → Elevation → Db → Db
unfolding insert_notification
notify_if_owned env machine e db = elim machine.owner_person_id [
  | none ↦ db
  | some owner ↦ if env.notification_down then db else insert_notification e owner db
]

abbrev pub publish : List Event → Db → Db
publish batch db = record db { events = db.events ++ batch }

-- `finalizeGrant`: the events, and then the notification.
unfoldable pub finalize_grant :
    Env → List Event → MachineRecord → Elevation → Db → Outcome Elevation
unfolding notify_if_owned
finalize_grant env batch machine e db =
    if env.publish_down
    then (err infra, db)
    else (ok e, notify_if_owned env machine e (publish batch db))

abbrev pub approval_request : RequestElevationInput → MachineRecord → ApprovalRequest
approval_request input machine = record {
  org_id = machine.org_id;
  action_type = admin_access;
  requested_by_person_id = input.person_id;
  target_machine_id = some machine.id;
  target_person_id = none;
  reason = trim input.reason;
  payload = none;
  required_mode_floor = none;
}

abbrev pub expiry : Env → MachineRecord → Db → ℕ
expiry env machine db = env.now + ttl_minutes db machine * 60000

abbrev pub is_granted : ElevationStatus → Bool
is_granted ElevationStatus.granted = true
is_granted _ = false

-- The row that `request` inserts; times are set exactly if it is granted.
unfoldable pub elevation_row :
    Env
    → RequestElevationInput
    → MachineRecord
    → ElevationStatus
    → (approval_id expires : ℕ) → Elevation
elevation_row env input machine status approval_id expires = record {
  id = env.new_id;
  org_id = machine.org_id;
  person_id = input.person_id;
  machine_id = machine.id;
  level = input.level;
  reason = trim input.reason;
  approval_id = some approval_id;
  granted_at = if is_granted status then some env.now else none;
  expires_at = if is_granted status then some expires else none;
  status = status;
}

abbrev pub with_id : ℕ → Elevation → Bool
with_id id e = e.id == id

abbrev pub insert_fails : Env → Db → Bool
insert_fails env db = env.write_down || any (with_id env.new_id) db.elevations

abbrev pub insert_elevation : Elevation → Db → Db
insert_elevation e db = record db { elevations = e ∷ db.elevations }

-- `"approved" → "granted"`, `"pending" → "requested"`, else `"denied"`.
abbrev pub initial_status : ApprovalStatus → ElevationStatus
initial_status approved = ElevationStatus.granted
initial_status pending = ElevationStatus.requested
initial_status _ = ElevationStatus.denied

-- The end of `request`: the row, its events, and the owner's notification if it is granted.
unfoldable pub open_elevation :
    Env
    → RequestElevationInput
    → MachineRecord
    → ElevationStatus
    → ApprovalResult
    → List Event
    → ℕ
    → Db
    → Outcome Elevation
unfolding elevation_row finalize_grant
open_elevation env input machine status approval extra expires db =
    let e = elevation_row env input machine status approval.row.id expires in
    let actor = person input.person_id in
    let db' = insert_elevation e db in
    if insert_fails env db
    then (err infra, db)
    else if is_granted status
    then finalize_grant env
        (requested_event env.now actor e ∷ granted_event env.now actor e ∷ extra) machine e db'
    else if env.publish_down
    then (err infra, db')
    else (ok e, publish (requested_event env.now actor e ∷ []) db')

-- `buildAutoApprovalGrantedEvent`
abbrev pub auto_approval_event : Env → RequestElevationInput → MachineRecord → Event
auto_approval_event env input machine = record {
  occurred_at = env.now;
  org_id = machine.org_id;
  actor = person input.person_id;
  machine_id = some machine.id;
  correlation_id = env.new_id;
  payload = approval_granted [] admin_access;
}

unfoldable pub after_approval :
    (ApprovalResult → Db → Outcome Elevation)
    → Result ApprovalError ApprovalResult × Db
    → Outcome Elevation
after_approval next (ok a, db) = next a db
after_approval next (err e, db) = (err (approval_service e), db)

-- Policy "always": an auto-approved approval, and a grant. The settings are read before the call.
unfoldable pub grant_always : Env → RequestElevationInput → MachineRecord → Db → Outcome Elevation
unfolding after_approval open_elevation
grant_always env input machine db =
    after_approval
      (λ a db'.
        open_elevation env input machine ElevationStatus.granted a
          (auto_approval_event env input machine ∷ []) (expiry env machine db) db')
      (request_auto_approved env.approval (approval_request input machine) db)

-- Policy "with_approval": the configured mode has to reach the level's floor.
unfoldable pub request_approval :
    Env → RequestElevationInput → MachineRecord → Db → Outcome Elevation
unfolding after_approval open_elevation
request_approval env input machine db =
    if approval_mode_satisfies_floor (configured_mode db machine)
      (required_approval_mode_floor input.level)
    then after_approval
        (λ a db'.
          open_elevation env input machine (initial_status a.row.status) a []
            (expiry env machine db) db')
        (request env.approval (approval_request input machine) db)
    else (err policy_denied, db)

unfoldable pub by_policy :
    AdminAccessPolicy → Env → RequestElevationInput → MachineRecord → Db → Outcome Elevation
unfolding grant_always request_approval
by_policy never env input machine db = (err policy_denied, db)
by_policy always env input machine db = grant_always env input machine db
by_policy with_approval env input machine db = request_approval env input machine db

unfoldable pub request_elevation : Env → RequestElevationInput → Db → Outcome Elevation
unfolding by_policy
request_elevation env input db = elim (admit env input db) [
  | err e ↦ (err e, db)
  | ok machine ↦ by_policy env.policy env input machine db
]
