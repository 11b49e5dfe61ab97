-- ===== src/Elevation/Sync.antt =====
-- `syncApproval`, `expire`, `get` and the expiry sweep of ElevationService.ts.
use cloudable.Base.{
  ℕ, Bool, false, ◌&&◌, ◌||◌, Option, none, some, [], ◌∷◌, ◌++◌, map, ltb, if◌then◌else◌, length,
  Result, ok, err, update_where, returning,
}
use cloudable.Audit.{pending, approved, person, ApprovalStatus}
use cloudable.Database.{Elevation, ElevationStatus, Db}
use cloudable.Approval.{ApprovalResult, ApprovalError}
use cloudable.Approval.Decide.{status}
use cloudable.Elevation.{
  Env, ElevationError, wrong_state, infra, approval_service, load_machine, load_elevation,
}
use cloudable.Elevation.Service.{
  Outcome, granted_event, expired_event, notify_if_owned, publish, finalize_grant, expiry,
  is_granted, with_id,
}

abbrev pub grant_row : ℕ → ℕ → Elevation → Elevation
grant_row now expires e = record e {
  status = ElevationStatus.granted;
  granted_at = some now;
  expires_at = some expires;
}

abbrev pub set_status : ElevationStatus → Elevation → Elevation
set_status s e = record e { status = s }

abbrev pub update_elevation : (Elevation → Elevation) → ℕ → Db → Db
update_elevation f id db = record db { elevations = update_where (with_id id) f db.elevations }

-- An already granted elevation: only the notification is tried again.
unfoldable pub renotify : Env → Elevation → Db → Outcome Elevation
renotify env e db = elim (load_machine env e.machine_id db) [
  | err x ↦ (err x, db)
  | ok machine ↦ (ok e, notify_if_owned env machine e db)
]

-- The approval came through: the grant, its event and the notification.
unfoldable pub grant_requested : Env → Elevation → Db → Outcome Elevation
grant_requested env e db = elim (load_machine env e.machine_id db) [
  | err x ↦ (err x, db)
  | ok machine ↦
      let expires = expiry env machine db in
      let updated = grant_row env.now expires e in
      if env.settings_down || env.write_down
      then (err infra, db)
      else finalize_grant env (granted_event env.now (person e.person_id) updated ∷ []) machine
          updated (update_elevation (grant_row env.now expires) e.id db)
]

unfoldable pub deny : Env → Elevation → Db → Outcome Elevation
deny env e db = if env.write_down then (err infra, db) else (
  ok (set_status ElevationStatus.denied e),
  update_elevation (set_status ElevationStatus.denied) e.id db,
)

unfoldable pub by_approval_status : ApprovalStatus → Env → Elevation → Db → Outcome Elevation
unfolding grant_requested deny
by_approval_status pending env e db = (ok e, db)
by_approval_status approved env e db = grant_requested env e db
by_approval_status _ env e db = deny env e db

-- The status of the approval, asked for in the caller's organisation.
unfoldable pub sync_with :
    Result ApprovalError ApprovalResult → Env → Elevation → Db → Outcome Elevation
unfolding by_approval_status
sync_with (err x) env e db = (err (approval_service x), db)
sync_with (ok a) env e db = by_approval_status a.row.status env e db

unfoldable pub sync_requested : Option ℕ → Env → ℕ → Elevation → Db → Outcome Elevation
unfolding sync_with
sync_requested none env org e db = (err infra, db)
sync_requested (some a) env org e db = sync_with (status env.approval a org db) env e db

unfoldable pub by_status : ElevationStatus → Env → ℕ → Elevation → Db → Outcome Elevation
unfolding renotify sync_requested
by_status ElevationStatus.granted env org e db = renotify env e db
by_status ElevationStatus.requested env org e db = sync_requested e.approval_id env org e db
by_status _ env org e db = (ok e, db)

unfoldable pub sync_approval : Env → (elevation_id org_id : ℕ) → Db → Outcome Elevation
unfolding by_status
sync_approval env id org db = elim (load_elevation env id org db) [
  | err x ↦ (err x, db)
  | ok e ↦ by_status e.status env org e db
]

-- `now >= expiresAt`; the event follows the status, and its failure leaves the status.
unfoldable pub expire_granted : Env → Option ℕ → Elevation → Db → Outcome (Unit {0})
expire_granted env none e db = (err wrong_state, db)
expire_granted env (some t) e db =
    let db' = update_elevation (set_status ElevationStatus.expired) e.id db in
    if ltb env.now t
    then (err wrong_state, db)
    else if env.write_down
    then (err infra, db)
    else if env.publish_down
    then (err infra, db')
    else (ok tt, publish (expired_event env.now e ∷ []) db')

unfoldable pub expire : Env → (elevation_id org_id : ℕ) → Db → Outcome (Unit {0})
unfolding expire_granted
expire env id org db = elim (load_elevation env id org db) [
  | err x ↦ (err x, db)
  | ok e ↦
      if is_granted e.status then expire_granted env e.expires_at e db else (err wrong_state, db)
]

unfoldable pub get : Env → ℕ → ℕ → Db → Result ElevationError Elevation
get env id org db = load_elevation env id org db

abbrev pub past : ℕ → Option ℕ → Bool
past now none = false
past now (some t) = ltb t now

abbrev pub overdue : ℕ → Elevation → Bool
overdue now e = is_granted e.status && past now e.expires_at

-- `expireOverdueElevations`: one transaction, that fails as a whole.
unfoldable pub expire_overdue_elevations : Env → Db → Outcome ℕ
expire_overdue_elevations env db =
    let rows = returning (overdue env.now) (set_status ElevationStatus.expired) db.elevations in
    if env.write_down then (err infra, db) else (
      ok (length rows),
      record db {
        elevations =
            update_where (overdue env.now) (set_status ElevationStatus.expired) db.elevations;
        events = db.events ++ map (expired_event env.now) rows;
      },
    )
