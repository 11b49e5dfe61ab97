-- ===== src/Approval.antt =====
-- apps/control-plane/src/services/ApprovalService.ts. A call takes an `Env` with what its effects
-- read from outside (the clock, read once; generated ids; which database calls fail), and returns
-- its result with the tables after it. A transaction writes all or nothing.
pub mod Floor
pub mod Quorum
pub mod Decide
pub mod Guards
pub mod Decisions
pub mod Validity
pub mod Preservation
pub mod Reachable
pub mod Persistence
pub mod Results
pub mod Evidence
pub mod Sweep
pub mod Listing
mod Examples
use cloudable.Base.{
  ℕ, ◌+◌, ◌*◌, String, Bool, true, false, not, ◌&&◌, ◌||◌, Option, List, [], ◌∷◌, ◌++◌, map, ltb,
  leb, ◌==◌, number_eq, text_eq, if◌then◌else◌, or_default, is_some_of, is_empty, length, filter,
  find, any, Result, ok, err, Text, trim, update_where, returning, some,
}
use cloudable.Setting.{SettingRow, ResolvedSetting, same_scope, template, resolve_setting}
use cloudable.Audit.{
  ActionType, snapshot_restore, break_glass, admin_access, offboarding, package_install,
  approval_settings_change, ApprovalMode, single, dual, ApprovalStatus, pending, approved, rejected,
  expired, Actor, person, system, Event, Payload, approval_requested, approval_granted,
  approval_denied, approval_expired, mode_rank,
}
use cloudable.Database.{
  ApprovalRow, DecisionValue, approves, rejects, ApprovalDecision, MachineRecord, Db,
}

pub record ApprovalRequest : Type 0 where
  pub org_id : ℕ
  pub action_type : ActionType
  pub requested_by_person_id : ℕ
  pub target_machine_id : Option ℕ
  pub target_person_id : Option ℕ
  pub reason : Text
  pub payload : Option Text
  pub required_mode_floor : Option ApprovalMode

pub record ApprovalResult : Type 0 where
  pub row : ApprovalRow
  pub approved_count : ℕ

pub data ApprovalError : Type 0 where
  not_found already_decided duplicate_decision self_approval : ApprovalError
  conflict_of_interest reason_required query_failed insert_failed : ApprovalError

pub record Env : Type 0 where
  pub now : ℕ
  pub new_id : ℕ
  pub correlation_id : ℕ
  pub query_down : Bool
  pub transaction_down : Bool

abbrev pub default_approval_mode : ApprovalMode
default_approval_mode = single

abbrev pub required_approvals_by_mode : ApprovalMode → ℕ
required_approvals_by_mode ApprovalMode.none = 0
required_approvals_by_mode single = 1
required_approvals_by_mode dual = 2

unfoldable pub apply_mode_floor : ApprovalMode → Option ApprovalMode → ApprovalMode
apply_mode_floor configured Option.none = configured
apply_mode_floor configured (some floor) =
    if ltb (mode_rank configured) (mode_rank floor) then floor else configured

abbrev pub approval_ttl_ms : ℕ
approval_ttl_ms = 24 * 60 * 60 * 1000

abbrev pub nil_machine_id : ℕ
nil_machine_id = 0

abbrev pub setting_key_for : ActionType → String
setting_key_for snapshot_restore = "approval_mode:snapshot_restore"
setting_key_for break_glass = "approval_mode:break_glass"
setting_key_for admin_access = "approval_mode:admin_access"
setting_key_for offboarding = "approval_mode:offboarding"
setting_key_for package_install = "approval_mode:package_install"
setting_key_for approval_settings_change = "approval_mode:approval_settings_change"

abbrev value_or_default : Option (ResolvedSetting ApprovalMode) → ApprovalMode
value_or_default Option.none = default_approval_mode
value_or_default (some r) = r.value

unfoldable pub resolve_approval_mode : Db → ℕ → Option ℕ → ActionType → ApprovalMode
resolve_approval_mode db org target action =
    let key = setting_key_for action in
    let rows = filter (λ (r : SettingRow ApprovalMode). r.key == key) db.mode_settings in
    value_or_default (
      resolve_setting key (filter (λ r. not (same_scope r.scope_type template)) rows) (record {
        org_id = org;
        template_id = Option.none;
        machine_id = or_default target nil_machine_id;
      }))

abbrev pub to_result : ApprovalRow → ℕ → ApprovalResult
to_result row count = record { row = row; approved_count = count }

-- `baseEnvelope` with its type and payload.
abbrev pub event_about : Env → ApprovalRow → Actor → Payload → Event
event_about env row actor payload = record {
  occurred_at = env.now;
  org_id = row.org_id;
  actor = actor;
  machine_id = row.target_machine_id;
  correlation_id = env.correlation_id;
  payload = payload;
}

abbrev pub new_row : Env → ApprovalRequest → ApprovalMode → ApprovalRow
new_row env req mode = record {
  id = env.new_id;
  org_id = req.org_id;
  action_type = req.action_type;
  mode = mode;
  status = pending;
  requested_by_person_id = req.requested_by_person_id;
  target_machine_id = req.target_machine_id;
  target_person_id = req.target_person_id;
  reason = req.reason;
  payload = req.payload;
  required_approvals = required_approvals_by_mode mode;
  created_at = env.now;
  expires_at = env.now + approval_ttl_ms;
  decided_at = Option.none;
}

-- `req.targetMachineId ?? req.targetPersonId ?? req.requestedByPersonId`
abbrev pub action_ref : ApprovalRequest → ℕ
action_ref req =
    or_default req.target_machine_id (or_default req.target_person_id req.requested_by_person_id)

abbrev pub requested_event : Env → ApprovalRequest → ApprovalMode → Event
requested_event env req mode =
    event_about env (new_row env req mode) (person req.requested_by_person_id)
      (approval_requested req.action_type (action_ref req) req.reason mode)

abbrev pub decide_row : ApprovalStatus → ℕ → ApprovalRow → ApprovalRow
decide_row status now row = record row { status = status; decided_at = some now }

abbrev pub with_id : ℕ → ApprovalRow → Bool
with_id id row = row.id == id

-- The primary key: an insert under an id that is taken fails, and its transaction with it.
abbrev pub insert_fails : Env → Db → Bool
insert_fails env db = env.transaction_down || any (with_id env.new_id) db.approvals

unfoldable pub auto_approve :
    Env → ApprovalRequest → ApprovalMode → Db → Result ApprovalError ApprovalResult × Db
auto_approve env req mode db =
    let requested = new_row env req mode in
    let granted = decide_row approved env.now requested in
    if is_empty (trim req.reason)
    then (err reason_required, db)
    else if insert_fails env db
    then (err insert_failed, db)
    else (
      ok (to_result granted 0),
      record db {
        approvals =
            update_where (with_id requested.id) (decide_row approved env.now)
              (requested ∷ db.approvals);
        events =
            db.events
            ++ (requested_event env req mode
                ∷ event_about env granted (system "system") (approval_granted [] req.action_type)
                ∷ []);
      },
    )

abbrev pub request_floor : ApprovalRequest → Option ApprovalMode
request_floor req = elim req.action_type [
  | approval_settings_change ↦ some (apply_mode_floor single req.required_mode_floor)
  | _ ↦ req.required_mode_floor
]

unfoldable pub request_mode : ApprovalRequest → Db → ApprovalMode
request_mode req db =
    apply_mode_floor (resolve_approval_mode db req.org_id req.target_machine_id req.action_type)
      (request_floor req)

unfoldable pub insert_pending :
    Env → ApprovalRequest → ApprovalMode → Db → Result ApprovalError ApprovalResult × Db
insert_pending env req mode db = if insert_fails env db then (err insert_failed, db) else (
  ok (to_result (new_row env req mode) 0),
  record db {
    approvals = new_row env req mode ∷ db.approvals;
    events = db.events ++ requested_event env req mode ∷ [];
  },
)

unfoldable pub request_with :
    Env → ApprovalRequest → ApprovalMode → Db → Result ApprovalError ApprovalResult × Db
request_with env req ApprovalMode.none db = auto_approve env req ApprovalMode.none db
request_with env req mode db = insert_pending env req mode db

unfoldable pub request : Env → ApprovalRequest → Db → Result ApprovalError ApprovalResult × Db
request env req db =
    if is_empty (trim req.reason)
    then (err reason_required, db)
    else if env.query_down
    then (err query_failed, db)
    else request_with env req (request_mode req db) db

unfoldable pub request_auto_approved :
    Env → ApprovalRequest → Db → Result ApprovalError ApprovalResult × Db
request_auto_approved env req db = auto_approve env req ApprovalMode.none db
