-- ===== src/PackageActions.antt =====
-- apps/control-plane/src/domain/machine/package-actions.ts: requests to install or uninstall one
-- package on one machine, handed to the agent by its poll and closed by its report or by time.
mod Names
pub mod OneOutstanding
pub mod Closed
pub mod Collection
mod Examples
unfoldable pub use Names.{matches_pattern, is_valid_package_name}
use cloudable.Base.{
  ℕ, suc, ◌+◌, ◌*◌, Bool, true, false, not, ◌&&◌, ◌||◌, Option, none, some, List, [], ◌∷◌, ltb, leb,
  ◌==◌, number_eq, if◌then◌else◌, length, any, Result, ok, err, Text, update_where, returning,
}

pub data Op : Type 0 where
  install uninstall : Op

pub data ActionStatus : Type 0 where
  pending running succeeded failed expired : ActionStatus

pub record ActionRow : Type 0 where
  pub id : ℕ
  pub machine_id : ℕ
  pub package_name : Text
  pub op : Op
  pub status : ActionStatus
  pub version_pin : Option Text
  pub requested_by_person_id : ℕ
  pub requested_at : ℕ
  pub started_at : Option ℕ
  pub finished_at : Option ℕ
  pub failure_reason : Option Text
  pub correlation_id : ℕ

-- The column `desired_state_version` of a machine.
pub record MachineVersion : Type 0 where
  pub id : ℕ
  pub desired_state_version : ℕ

pub record Tables : Type 0 where
  pub actions : List ActionRow
  pub machines : List MachineVersion

pub data PackageActionError : Type 0 where
  invalid_package_name baseline_package already_pending write_failed : PackageActionError

-- What a call reads from outside; `update_fails` is asked for each of a report's updates in turn.
pub record Env : Type 0 where
  pub now : ℕ
  pub new_id : ℕ
  pub query_down : Bool
  pub write_down : Bool
  pub update_fails : ℕ → Bool

pub record EnqueueInput : Type 0 where
  pub machine_id : ℕ
  pub package_name : Text
  pub op : Op
  pub version_pin : Option Text
  pub requested_by_person_id : ℕ
  pub correlation_id : ℕ
  pub is_baseline_package : Bool

abbrev pub Outcome : Type 0 → Type 0
Outcome A = Result PackageActionError A × Tables

abbrev pub action_expiry_ms : ℕ
action_expiry_ms = 5 * 60 * 1000

pub same_name : Text → Text → Bool
same_name [] [] = true
same_name [] (d ∷ ds) = false
same_name (c ∷ cs) [] = false
same_name (c ∷ cs) (d ∷ ds) = (c == d) && same_name cs ds

-- `OUTSTANDING`
abbrev pub is_outstanding : ActionStatus → Bool
is_outstanding pending = true
is_outstanding running = true
is_outstanding _ = false

abbrev pub outstanding_for : ℕ → Text → ActionRow → Bool
outstanding_for machine name row =
    (row.machine_id == machine) && (same_name row.package_name name && is_outstanding row.status)

abbrev pub new_action : Env → EnqueueInput → ActionRow
new_action env input = record {
  id = env.new_id;
  machine_id = input.machine_id;
  package_name = input.package_name;
  op = input.op;
  status = pending;
  version_pin = input.version_pin;
  requested_by_person_id = input.requested_by_person_id;
  requested_at = env.now;
  started_at = none;
  finished_at = none;
  failure_reason = none;
  correlation_id = input.correlation_id;
}

-- `update machines set desired_state_version = desired_state_version + 1 where id = ...`
abbrev pub bump_version : ℕ → List MachineVersion → List MachineVersion
bump_version machine machines =
    update_where (λ m. m.id == machine)
      (λ m. record m { desired_state_version = m.desired_state_version + 1 }) machines

abbrev pub insert_fails : Env → Tables → Bool
insert_fails env t = env.write_down || any (λ r. r.id == env.new_id) t.actions

pub enqueue_package_action : Env → EnqueueInput → Tables → Outcome ActionRow
enqueue_package_action env input t =
    if not (is_valid_package_name input.package_name)
    then (err invalid_package_name, t)
    else if input.is_baseline_package
    then (err baseline_package, t)
    else if env.query_down
    then (err write_failed, t)
    else if any (outstanding_for input.machine_id input.package_name) t.actions
    then (err already_pending, t)
    else if insert_fails env t
    then (err write_failed, t)
    else (
      ok (new_action env input),
      record {
        actions = new_action env input ∷ t.actions;
        machines = bump_version input.machine_id t.machines;
      },
    )

abbrev pub is_pending : ActionStatus → Bool
is_pending pending = true
is_pending _ = false

abbrev pub is_running : ActionStatus → Bool
is_running running = true
is_running _ = false

abbrev pub collectable : ℕ → ActionRow → Bool
collectable machine row = (row.machine_id == machine) && is_pending row.status

abbrev pub start_row : ℕ → ActionRow → ActionRow
start_row now row = record row { status = running; started_at = some now }

pub collect_pending_actions : Env → ℕ → Tables → Outcome (List ActionRow)
collect_pending_actions env machine t = if env.write_down then (err write_failed, t) else (
  ok (returning (collectable machine) (start_row env.now) t.actions),
  record t { actions = update_where (collectable machine) (start_row env.now) t.actions },
)

pub data Verdict : Type 0 where
  done : Verdict
  broken : (detail : Option Text) → Verdict

pub record ActionOutcome : Type 0 where
  pub id : ℕ
  pub outcome : Verdict

abbrev verdict_status : Verdict → ActionStatus
verdict_status done = succeeded
verdict_status (broken detail) = failed

abbrev verdict_detail : Verdict → Option Text
verdict_detail done = none
verdict_detail (broken detail) = detail

abbrev pub reported : ℕ → ActionOutcome → ActionRow → Bool
reported machine result row =
    (row.id == result.id) && ((row.machine_id == machine) && is_running row.status)

abbrev pub finish_row : ℕ → Verdict → ActionRow → ActionRow
finish_row now verdict row = record row {
  status = verdict_status verdict;
  finished_at = some now;
  failure_reason = verdict_detail verdict;
}

abbrev pub apply_one : Env → ℕ → ActionOutcome → Tables → Tables
apply_one env machine result t = record t {
  actions = update_where (reported machine result) (finish_row env.now result.outcome) t.actions;
}

-- `const row = rows[0]; if (row) updated.push(row)`, before the rows of the later results.
abbrev push_first : List ActionRow → Outcome (List ActionRow) → Outcome (List ActionRow)
push_first rows (err e, t) = (err e, t)
push_first [] (ok later, t) = (ok later, t)
push_first (r ∷ rows) (ok later, t) = (ok (r ∷ later), t)

-- The loop over the results: an update that fails leaves those before it.
pub apply_from : ℕ → Env → ℕ → List ActionOutcome → Tables → Outcome (List ActionRow)
apply_from i env machine [] t = (ok [], t)
apply_from i env machine (result ∷ results) t =
    let rest = apply_from (suc i) env machine results (apply_one env machine result t) in
    if env.update_fails i
    then (err write_failed, t)
    else push_first
        (returning (reported machine result) (finish_row env.now result.outcome) t.actions) rest

pub apply_action_results : Env → ℕ → List ActionOutcome → Tables → Outcome (List ActionRow)
apply_action_results env machine results t = apply_from 0 env machine results t

-- `started_at < now - ACTION_EXPIRY_MS`; a null is not less than anything.
abbrev pub started_before : ℕ → Option ℕ → Bool
started_before now none = false
started_before now (some s) = ltb (s + action_expiry_ms) now

abbrev pub is_stale : ℕ → ℕ → ActionRow → Bool
is_stale now machine row =
    (row.machine_id == machine) && (is_running row.status && started_before now row.started_at)

abbrev pub expire_row : ℕ → ActionRow → ActionRow
expire_row now row = record row { status = expired; finished_at = some now }

pub expire_stale_actions : Env → ℕ → Tables → Outcome (List ActionRow)
expire_stale_actions env machine t = if env.write_down then (err write_failed, t) else (
  ok (returning (is_stale env.now machine) (expire_row env.now) t.actions),
  record t { actions = update_where (is_stale env.now machine) (expire_row env.now) t.actions },
)
