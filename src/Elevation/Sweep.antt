-- ===== src/Elevation/Sweep.antt =====
-- The expiry sweep of elevations.
use cloudable.Base.{
  ap, ◌≡◌, refl, false, ℕ, List, [], ◌++◌, map, length, filter, ok, append-nil, length-map,
  update_where, filter-update_where, update_where_none,
}
use cloudable.Database.{Elevation, ElevationStatus, Db}
use cloudable.Elevation.{Env}
use cloudable.Elevation.Service.{expired_event}
use cloudable.Elevation.Sync.{overdue, set_status, expire_overdue_elevations}

-- The elevations that have run out and are still marked as granted.
abbrev pub run_out : ℕ → Db → List Elevation
run_out now db = filter (overdue now) db.elevations

abbrev pub mark_expired : Elevation → Elevation
mark_expired = set_status ElevationStatus.expired

-- A sweep that succeeds returns how many granted elevations had run out, appends one
-- `access.elevation_expired` for each of them, leaves none of them granted, touches no approval and
-- no notification, and does nothing when it is run again at that time.
expire_overdue_elevations_exact :
    (env : Env) (db : Db)
    → env.write_down ≡ false
    → let (res, db') = expire_overdue_elevations env db in
      (res ≡ ok (length (run_out env.now db)))
      × (db'.events
          ≡ db.events ++ map (expired_event env.now) (map mark_expired (run_out env.now db)))
      × (run_out env.now db' ≡ [])
      × (db'.approvals ≡ db.approvals)
      × (db'.notifications ≡ db.notifications)
      × (expire_overdue_elevations env db' ≡ (ok 0, db'))
unfolding expire_overdue_elevations
expire_overdue_elevations_exact env db up =
    let none_left =
      filter-update_where (overdue env.now) mark_expired (λ r h. refl) db.elevations in
    (
      simp up (ap ok (length-map mark_expired (run_out env.now db))),
      simp up refl,
      simp up none_left,
      simp up,
      simp up,
      simp up (
          simp (
            none_left,
            update_where_none (overdue env.now) mark_expired
                (update_where (overdue env.now) mark_expired db.elevations) none_left,
            append-nil,
          )),
    )
