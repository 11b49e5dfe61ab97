-- ===== src/Retention.antt =====
-- apps/control-plane/src/domain/retention: the windows of policy.ts, and the sweep of one
-- organisation's events in sweep.ts. The sweep of its vulnerability data is in Retention/Scans, the
-- pass over all organisations in Retention/Pass.
pub mod Rows
pub mod Groups
pub mod Scans
pub mod Pass
pub mod Lookback
pub mod History
mod Examples
use cloudable.Base.{
  ℕ, ◌+◌, ◌-◌, ◌*◌, max, Bool, true, false, not, ◌&&◌, ◌||◌, Option, none, some, List, [], ◌∷◌,
  ◌++◌, map, ltb, leb, ◌==◌, number_eq, Result, ok, err, filter, find, any, take, sort_by, is_empty,
  length, has_id, if◌then◌else◌, is_some_of,
}
use cloudable.Lifecycle.{SnapshotRow}
use cloudable.Snapshots.{day_ms}

-- What the sweep reads of a row of the events table.
pub record LogEvent : Type 0 where
  pub id : ℕ
  pub org_id : ℕ
  pub machine_id : Option ℕ
  pub correlation_id : ℕ
  pub occurred_at : ℕ

-- A stored setting: a finite number, rounded down and taken as 0 where it is below, or anything else,
-- also nothing.
pub data StoredDays : Type 0 where
  unreadable : StoredDays
  number : ℕ → StoredDays

abbrev pub default_events_retention_days : ℕ
default_events_retention_days = 365

abbrev pub min_events_retention_days : ℕ
min_events_retention_days = 90

unfoldable pub effective_events_retention_days : StoredDays → ℕ
effective_events_retention_days unreadable = default_events_retention_days
effective_events_retention_days (number n) = max min_events_retention_days n

-- What an administrator may save; `none` stands for what is no whole number of days.
unfoldable pub is_valid_events_retention_days : Option ℕ → Bool
is_valid_events_retention_days none = false
is_valid_events_retention_days (some n) = leb min_events_retention_days n

abbrev pub max_events_deleted_per_run : ℕ
max_events_deleted_per_run = 50000

-- The times and ids of a pass, whether its first queries fail, and the organisations whose
-- transaction on events or on vulnerability data fails.
pub record Env : Type 0 where
  pub query_down : Bool
  pub now : ℕ
  pub new_id : ℕ → ℕ
  pub correlation_id : ℕ → ℕ
  pub down : ℕ → Bool
  pub scans_down : ℕ → Bool

abbrev pub cutoff_of : Env → ℕ → ℕ
cutoff_of env days = env.now - days * day_ms

abbrev pub is_held : List SnapshotRow → ℕ → Option ℕ → Bool
is_held snapshots org none = false
is_held snapshots org (some machine) =
    any (λ s. s.org_id == org && (s.legal_hold && s.machine_id == machine)) snapshots

-- The sibling that protects: of the same organisation and operation, and inside the window or of a
-- held machine.
abbrev pub protects : ℕ → List SnapshotRow → ℕ → LogEvent → LogEvent → Bool
protects cutoff snapshots org candidate sibling =
    sibling.org_id == candidate.org_id
    && (sibling.correlation_id == candidate.correlation_id
        && (leb cutoff sibling.occurred_at || is_held snapshots org sibling.machine_id))

unfoldable pub is_expirable : ℕ → List SnapshotRow → ℕ → List LogEvent → LogEvent → Bool
is_expirable cutoff snapshots org rows candidate =
    candidate.org_id == org
    && (ltb candidate.occurred_at cutoff
        && not (any (protects cutoff snapshots org candidate) rows))

abbrev pub not_later : LogEvent → LogEvent → Bool
not_later a b = leb a.occurred_at b.occurred_at

-- The oldest of them, up to the limit of a run.
unfoldable pub expirable : ℕ → List SnapshotRow → ℕ → List LogEvent → List LogEvent
expirable cutoff snapshots org rows =
    take max_events_deleted_per_run
      (sort_by not_later (filter (is_expirable cutoff snapshots org rows) rows))

abbrev pub is_deleted : ℕ → List LogEvent → LogEvent → Bool
is_deleted org batch e = e.org_id == org && has_id e.id (map (λ b. b.id) batch)

abbrev pub expired_record : Env → ℕ → LogEvent
expired_record env org = record {
  id = env.new_id org;
  org_id = org;
  machine_id = none;
  correlation_id = env.correlation_id org;
  occurred_at = env.now;
}

unfoldable pub delete_and_record : Env → ℕ → List LogEvent → List LogEvent → ℕ × List LogEvent
delete_and_record env org batch rows =
    let deleted = filter (is_deleted org batch) rows in
    let left = filter (λ e. not (is_deleted org batch e)) rows in
    if is_empty deleted then (0, left) else (length deleted, left ++ expired_record env org ∷ [])

-- A transaction that fails leaves the table as it was, and counts as nothing deleted in a pass.
unfoldable pub expire_org_events :
    Env → List SnapshotRow → (org days : ℕ) → List LogEvent → ℕ × List LogEvent
unfolding delete_and_record
expire_org_events env snapshots org days rows =
    if env.down org
    then (0, rows)
    else delete_and_record env org (expirable (cutoff_of env days) snapshots org rows) rows
