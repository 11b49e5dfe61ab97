-- ===== src/Elevation/Syncing.antt =====
-- Synchronisation with the approval, expiry and the sweep keep the system valid.
use cloudable.Base.{
  ℕ, ◌||◌, ltb, ap, if◌then◌else◌, ◌≡◌, refl, true, Option, none, some, [], ◌∷◌, All-map, arith,
  Result, ok, err, number_eq, find, if_keeps, update_where,
}
use cloudable.Audit.{person, approved, pending, rejected, expired, ApprovalStatus}
use cloudable.Database.{Elevation, ElevationStatus, MachineRecord, Db}
use cloudable.Approval.{ApprovalResult, ApprovalError}
use cloudable.Approval.Decide.{status}
use cloudable.Elevation.{Env, ElevationError, infra, wrong_state, load_machine, load_elevation}
use cloudable.Elevation.Service.{
  Outcome, notify_if_owned, granted_event, finalize_grant, expiry, is_granted, with_id,
}
use cloudable.Elevation.Sync.{
  grant_row, set_status, update_elevation, renotify, grant_requested, deny, by_approval_status,
  sync_with, sync_requested, by_status, sync_approval, expire_granted, expire, overdue,
  expire_overdue_elevations,
}
use cloudable.Elevation.Backing.{was_granted, Backed, SystemValid}
use cloudable.Elevation.Requesting.{
  same_system, notify_if_owned-SystemValid, finalize_grant-SystemValid,
}
use cloudable.Approval.Reachable.{status-eq-ok}
use cloudable.Elevation.Rows.{
  updated_rows, update_elevation-SystemValid, load_elevation-eq-ok, linked_approval, Backed-found,
  grant_row-Backed, set_status-Backed,
}

abbrev After : {A : Type 0} → Outcome A → Type 0
After o = SystemValid o.1

module _ (env : Env) (e : Elevation) (db : Db) (v : SystemValid db)
    (found : find (with_id e.id) db.elevations ≡ some e) where
  renotify-SystemValid : After (renotify env e db)
  unfolding renotify
  renotify-SystemValid = go (load_machine env e.machine_id db)
    where
      go :
          (r : Result ElevationError MachineRecord)
          → After (elim r [ err x ↦ (err x, db) | ok m ↦ (ok e, notify_if_owned env m e db) ])
      go (err x) = v
      go (ok m) = notify_if_owned-SystemValid env m e db v

  grant_requested-SystemValid :
      (b : Backed db.approvals e) → b.row.status ≡ approved → After (grant_requested env e db)
  unfolding grant_requested
  grant_requested-SystemValid b approval = go (load_machine env e.machine_id db)
    where
      go :
          (r : Result ElevationError MachineRecord)
          → After (elim r [
            | err x ↦ (err x, db)
            | ok machine ↦
                let expires = expiry env machine db in
                let updated = grant_row env.now expires e in
                if env.settings_down || env.write_down
                then (err infra, db)
                else finalize_grant env
                    (granted_event env.now (person e.person_id) updated ∷ [])
                    machine
                    updated
                    (update_elevation (grant_row env.now expires) e.id db)
          ])
      go (err x) = v
      go (ok m) =
          if_keeps After (env.settings_down || env.write_down) _ _ (λ _. v)
            (λ _. finalize_grant-SystemValid env _ m (grant_row env.now (expiry env m db) e) _ (
              update_elevation-SystemValid (grant_row env.now (expiry env m db)) e db (λ x. refl)
                found
                (grant_row-Backed db.approvals env.now (expiry env m db) e b approval (omega arith))
                v))

  set_status-SystemValid :
      (s : ElevationStatus)
      → (was_granted s ≡ true → was_granted e.status ≡ true)
      → SystemValid (update_elevation (set_status s) e.id db)
  set_status-SystemValid s weaker =
      update_elevation-SystemValid (set_status s) e db (λ x. refl) found
        (set_status-Backed db.approvals s e weaker (Backed-found db e v found)) v

  deny-SystemValid : After (deny env e db)
  unfolding deny
  deny-SystemValid =
      if_keeps After env.write_down _ _ (λ _. v)
        (λ _. set_status-SystemValid ElevationStatus.denied (λ k. absurd (cc)))

  -- The answer is the status of the approval that the row is linked to.
  by_approval_status-SystemValid :
      (b : Backed db.approvals e) (s : ApprovalStatus)
      → b.row.status ≡ s
      → After (by_approval_status s env e db)
  unfolding by_approval_status
  by_approval_status-SystemValid b pending same = v
  by_approval_status-SystemValid b approved same = grant_requested-SystemValid b same
  by_approval_status-SystemValid b rejected same = deny-SystemValid
  by_approval_status-SystemValid b expired same = deny-SystemValid

  sync_with-SystemValid :
      (a org : ℕ) (b : Backed db.approvals e) (r : Result ApprovalError ApprovalResult)
      → e.approval_id ≡ some a
      → status env.approval a org db ≡ r
      → After (sync_with r env e db)
  unfolding sync_with
  sync_with-SystemValid a org b (err x) linked seen = v
  sync_with-SystemValid a org b (ok res) linked seen =
      by_approval_status-SystemValid b res.row.status (
        ap (λ r. r.status)
          (linked_approval db e a res.row v b linked (status-eq-ok env.approval a org db res seen)))

  sync_requested-SystemValid :
      (org : ℕ) (o : Option ℕ) → e.approval_id ≡ o → After (sync_requested o env org e db)
  unfolding sync_requested
  sync_requested-SystemValid org none linked = v
  sync_requested-SystemValid org (some a) linked =
      sync_with-SystemValid a org (Backed-found db e v found) (status env.approval a org db) linked
        refl

  by_status-SystemValid : (org : ℕ) (s : ElevationStatus) → After (by_status s env org e db)
  unfolding by_status
  by_status-SystemValid org ElevationStatus.granted = renotify-SystemValid
  by_status-SystemValid org ElevationStatus.requested =
      sync_requested-SystemValid org e.approval_id refl
  by_status-SystemValid org ElevationStatus.denied = v
  by_status-SystemValid org ElevationStatus.expired = v

  expire_granted-SystemValid :
      (t : Option ℕ) → e.status ≡ ElevationStatus.granted → After (expire_granted env t e db)
  unfolding expire_granted
  expire_granted-SystemValid none granted = v
  expire_granted-SystemValid (some t) granted =
      let w = set_status-SystemValid ElevationStatus.expired (λ _. rw granted refl) in
      if_keeps After (ltb env.now t) _ _ (λ _. v)
        (λ _.
          if_keeps After env.write_down _ _ (λ _. v)
            (λ _.
              if_keeps After env.publish_down _ _ (λ _. w)
                (λ _.
                  same_system (update_elevation (set_status ElevationStatus.expired) e.id db) _ refl
                    refl refl w)))

pub sync_approval-SystemValid :
    (env : Env) (id org : ℕ) (db : Db)
    → SystemValid db
    → SystemValid (sync_approval env id org db).1
unfolding sync_approval
sync_approval-SystemValid env id org db v = go (load_elevation env id org db) refl
  where
    go :
        (r : Result ElevationError Elevation)
        → load_elevation env id org db ≡ r
        → After (elim r [ err x ↦ (err x, db) | ok e ↦ by_status e.status env org e db ])
    go (err x) seen = v
    go (ok e) seen =
        by_status-SystemValid env e db v (load_elevation-eq-ok env id org db e seen) org e.status

pub expire-SystemValid :
    (env : Env) (id org : ℕ) (db : Db) → SystemValid db → SystemValid (expire env id org db).1
unfolding expire
expire-SystemValid env id org db v = go (load_elevation env id org db) refl
  where
    go :
        (r : Result ElevationError Elevation)
        → load_elevation env id org db ≡ r
        → After (elim r [
          | err x ↦ (err x, db)
          | ok e ↦
              if is_granted e.status
              then expire_granted env e.expires_at e db
              else (err wrong_state, db)
        ])
    go (err x) seen = v
    go (ok e) seen =
        if_keeps After (is_granted e.status) _ _
          (λ g.
            expire_granted-SystemValid env e db v (load_elevation-eq-ok env id org db e seen)
              e.expires_at (ground (arith, g)))
          (λ _. v)

pub expire_overdue_elevations-SystemValid :
    (env : Env) (db : Db) → SystemValid db → SystemValid (expire_overdue_elevations env db).1
unfolding expire_overdue_elevations
expire_overdue_elevations-SystemValid env db v =
    if_keeps After env.write_down _ _ (λ _. v)
      (λ _.
        let f = set_status ElevationStatus.expired in
        same_system (record db { elevations = update_where (overdue env.now) f db.elevations }) _
          refl refl refl
          (updated_rows (overdue env.now) f db (λ e. refl)
            (All-map (Backed db.approvals)
              (λ e. overdue env.now e ≡ true → Backed db.approvals (f e))
              (λ e b t.
                set_status-Backed db.approvals ElevationStatus.expired e (λ _. ground (arith, t)) b)
              db.elevations v.backed)
            v))
