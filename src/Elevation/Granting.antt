-- ===== src/Elevation/Granting.antt =====
-- That an approval which came through does lead to access.
use cloudable.Base.{
  ℕ, ◌+◌, ◌*◌, ◌≡◌, refl, ap, ◌∙◌, ◌||◌, true, false, not, some, [], ◌∷◌, ◌++◌, ok, arith, any,
  find, filter, ◌==◌, number_eq, ==_refl, Bool-cases, inl, inr, find-update_where,
  filter-update_where_other,
}
use cloudable.Audit.{approved, person}
use cloudable.Database.{Elevation, ElevationStatus, MachineRecord, Db}
use cloudable.Approval.{ApprovalResult}
use cloudable.Approval.Decide.{status}
use cloudable.Elevation.{Env, load_machine, load_elevation, ttl_minutes}
use cloudable.Elevation.Service.{
  publish, insert_notification, Outcome, granted_event, expiry, finalize_grant, notify_if_owned,
  with_id, notified,
}
use cloudable.Elevation.Sync.{
  grant_row, grant_requested, by_approval_status, sync_with, sync_requested, by_status,
  sync_approval, update_elevation,
}
use cloudable.Elevation.Rows.{load_elevation-eq-ok}

-- That nothing stands in the way of a grant at the moment of a synchronisation.
pub record Ready (env : Env) (org : ℕ) (db : Db) (e : Elevation) (m : MachineRecord) : Type 0 where
  pub requested : e.status ≡ ElevationStatus.requested
  pub approval : ApprovalResult
  pub approval_id : ℕ
  pub linked : e.approval_id ≡ some approval_id
  pub answered : status env.approval approval_id org db ≡ ok approval
  pub came_through : approval.row.status ≡ approved
  pub machine_known : load_machine env e.machine_id db ≡ ok m
  pub settings_up : (env.settings_down || env.write_down) ≡ false
  pub events_up : env.publish_down ≡ false

-- What a grant has done: the table has this elevation, and only this one, as granted from now on for
-- the configured number of minutes; the event is appended; and there is a notification for an owner.
pub record IsGranted (env : Env) (db : Db) (e : Elevation) (m : MachineRecord)
    (o : Outcome Elevation) : Type 0 where
  pub granted : Elevation
  pub answered : o.0 ≡ ok granted
  pub stored : find (with_id e.id) o.1.elevations ≡ some granted
  pub others :
      filter (λ x. not (with_id e.id x)) o.1.elevations
      ≡ filter (λ x. not (with_id e.id x)) db.elevations
  pub access : granted.status ≡ ElevationStatus.granted
  pub since : granted.granted_at ≡ some env.now
  pub until : granted.expires_at ≡ some (env.now + ttl_minutes db m * 60000)
  pub same : granted ≡ record e {
    status = granted.status;
    granted_at = granted.granted_at;
    expires_at = granted.expires_at;
  }
  pub recorded : o.1.events ≡ db.events ++ granted_event env.now (person e.person_id) granted ∷ []
  pub told :
      (owner : ℕ)
      → m.owner_person_id ≡ some owner
      → env.notification_down ≡ false
      → any (λ n. n.elevation_id == e.id) o.1.notifications ≡ true
  pub rest : o.1 ≡ record db {
    elevations = o.1.elevations;
    notifications = o.1.notifications;
    events = o.1.events;
  }

notify-rest :
    (env : Env) (m : MachineRecord) (e : Elevation) (db : Db)
    → let db' = notify_if_owned env m e db in db' ≡ record db { notifications = db'.notifications }
unfolding notify_if_owned insert_notification
notify-rest env m e db = ground arith

notify-told :
    (env : Env) (m : MachineRecord) (e : Elevation) (db : Db) (owner : ℕ)
    → m.owner_person_id ≡ some owner
    → env.notification_down ≡ false
    → any (λ n. n.elevation_id == e.id) (notify_if_owned env m e db).notifications ≡ true
unfolding notify_if_owned insert_notification
notify-told env m e db owner owned up = elim (Bool-cases (any (notified e.id) db.notifications)) [
  | inl there ↦ rw (owned, up, there) there
  | inr missing ↦ rw (owned, up, missing) (rw (==_refl e.id) refl)
]

-- The row is written under its id, and no other.
update-stored :
    (f : Elevation → Elevation) (e : Elevation) (db : Db)
    → ((x : Elevation) → (f x).id ≡ x.id)
    → find (with_id e.id) db.elevations ≡ some e
    → let rows = (update_elevation f e.id db).elevations in
      (find (with_id e.id) rows ≡ some (f e))
      × (filter (λ x. not (with_id e.id x)) rows ≡ filter (λ x. not (with_id e.id x)) db.elevations)
update-stored f e db same found = (
  find-update_where (with_id e.id) f (λ x hit. ground (arith, same x)) db.elevations e found,
  filter-update_where_other (λ x. not (with_id e.id x)) (with_id e.id) f
      (λ x hit. (ground arith, ground (arith, same x))) db.elevations,
)

finalize_grant-IsGranted :
    (env : Env) (m : MachineRecord) (e : Elevation) (db : Db)
    → find (with_id e.id) db.elevations ≡ some e
    → env.publish_down ≡ false
    → IsGranted env db e m (
        finalize_grant env
          (granted_event env.now (person e.person_id) (grant_row env.now (expiry env m db) e) ∷ [])
          m
          (grant_row env.now (expiry env m db) e)
          (update_elevation (grant_row env.now (expiry env m db)) e.id db))
unfolding finalize_grant
finalize_grant-IsGranted env m e db found up =
    let granted = grant_row env.now (expiry env m db) e in
    let written = update_elevation (grant_row env.now (expiry env m db)) e.id db in
    let published = publish (granted_event env.now (person e.person_id) granted ∷ []) written in
    let (stored, others) =
      update-stored (grant_row env.now (expiry env m db)) e db (λ x. refl) found in
    let quiet = notify-rest env m granted published in
    rw up (record {
      granted = granted;
      answered = refl;
      stored = ap (λ d. find (with_id e.id) d.elevations) quiet ∙ stored;
      others = ap (λ d. filter (λ x. not (with_id e.id x)) d.elevations) quiet ∙ others;
      access = refl;
      since = refl;
      until = refl;
      same = refl;
      recorded = ap (λ d. d.events) quiet;
      told = λ owner owned open_. notify-told env m granted published owner owned open_;
      rest = cc quiet;
    })

sync_reaches_grant :
    (env : Env) (id org a : ℕ) (db : Db) (e : Elevation) (res : ApprovalResult)
    → load_elevation env id org db ≡ ok e
    → e.status ≡ ElevationStatus.requested
    → e.approval_id ≡ some a
    → status env.approval a org db ≡ ok res
    → res.row.status ≡ approved
    → sync_approval env id org db ≡ grant_requested env e db
unfolding sync_approval by_status sync_requested sync_with by_approval_status
sync_reaches_grant env id org a db e res seen requested linked answered came_through =
    rw (seen, sync_approval) (rw requested (rw linked (rw answered (rw came_through refl))))

grant_requested-IsGranted :
    (env : Env) (e : Elevation) (m : MachineRecord) (db : Db)
    → find (with_id e.id) db.elevations ≡ some e
    → load_machine env e.machine_id db ≡ ok m
    → (env.settings_down || env.write_down) ≡ false
    → env.publish_down ≡ false
    → IsGranted env db e m (grant_requested env e db)
unfolding grant_requested
grant_requested-IsGranted env e m db found known up events_up =
    rw (known, grant_requested) (rw up (finalize_grant-IsGranted env m e db found events_up))

-- A requested elevation whose approval has come through is granted by the next synchronisation that
-- reaches its database and its events. The row of the table then says so, for the configured number
-- of minutes from then on, and is what the call answers; all other elevations, approvals, people,
-- machines and settings are as they were; exactly one event is appended; and if the machine has an
-- owner and notifications can be written, there is a notification of this elevation.
pub sync_approval-IsGranted :
    (env : Env) (id org : ℕ) (db : Db) (e : Elevation) (m : MachineRecord)
    → load_elevation env id org db ≡ ok e
    → Ready env org db e m
    → IsGranted env db e m (sync_approval env id org db)
sync_approval-IsGranted env id org db e m seen r =
    rw
      (sync_reaches_grant env id org r.approval_id db e r.approval seen r.requested r.linked
        r.answered r.came_through)
      (grant_requested-IsGranted env e m db (load_elevation-eq-ok env id org db e seen)
        r.machine_known r.settings_up r.events_up)
