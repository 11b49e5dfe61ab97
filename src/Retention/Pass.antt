-- ===== src/Retention/Pass.antt =====
-- `expireEventsPastRetention` of sweep.ts: one pass over the organisations, each with its own window.
use cloudable.Base.{ℕ, ◌+◌, List, [], ◌∷◌, Result, ok, err, if◌then◌else◌}
use cloudable.Lifecycle.{Machine, SnapshotRow}
use cloudable.Retention.{
  LogEvent, Env, StoredDays, effective_events_retention_days, expire_org_events,
}
use cloudable.Retention.Scans.{ScanTables, expire_org_vulnerability_data}

pub data EventRetentionError : Type 0 where
  event_retention_error : EventRetentionError

pub record Tables : Type 0 where
  pub events : List LogEvent
  pub scanning : ScanTables

module _ (env : Env) (machines : List Machine) (snapshots : List SnapshotRow)
    (stored : ℕ → StoredDays) where
  -- The window of an organisation, in days.
  abbrev pub window_of : ℕ → ℕ
  window_of org = effective_events_retention_days (stored org)

  -- What one organisation loses. A failure of one transaction does not stop the other one.
  unfoldable pub expire_org : ℕ → Tables → ℕ × Tables
  expire_org org t =
      let (n, events) = expire_org_events env snapshots org (window_of org) t.events in
      let (answer, scanning) =
        expire_org_vulnerability_data env machines snapshots org (window_of org) t.scanning in
      (n, record { events = events; scanning = scanning })

  -- The loop: the events that were deleted are counted.
  unfoldable pub expire_each : List ℕ → Tables → ℕ × Tables
  expire_each [] t = (0, t)
  expire_each (org ∷ orgs) t =
      let (n, t') = expire_org org t in let (m, t'') = expire_each orgs t' in (n + m, t'')

  -- The organisations and their settings are read first.
  unfoldable pub expire_events_past_retention :
      List ℕ → Tables → Result EventRetentionError ℕ × Tables
  expire_events_past_retention orgs t =
      if env.query_down
      then (err event_retention_error, t)
      else let (n, t') = expire_each orgs t in (ok n, t')
