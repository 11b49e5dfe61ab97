-- ===== src/Archive/Examples.antt =====
-- A restore onto a running machine under an organisation's mode "none".
use cloudable.Base.{◌≡◌, ◌≢◌, refl, false, none, some, [], ◌∷◌, inr, trim}
use cloudable.Setting.{org, resolve_setting, by_scope}
use cloudable.Audit.{ApprovalMode, approved, pending, snapshot_restore}
use cloudable.Database.{ApprovalRow, Db}
use cloudable.Approval.{
  Env, ApprovalRequest, to_result, request, request_with, request_mode, apply_mode_floor,
  resolve_approval_mode, insert_pending,
}
use cloudable.Archive.{data_only, live_machine, resolve_restore_approval_floor}
use cloudable.Archive.Restoring.{destructive_restore_dual}

abbrev env : Env
env = record {
  now = 100;
  new_id = 200;
  correlation_id = 900;
  query_down = false;
  transaction_down = false;
}

abbrev base : Db
base = record {
  approvals = [];
  decisions = [];
  elevations = [];
  notifications = [];
  machines = [];
  people = [];
  mode_settings =
      record {
        scope_type = org;
        scope_id = 1;
        key = "approval_mode:snapshot_restore";
        value = ApprovalMode.none;
        source = org;
      }
      ∷ [];
  minute_settings = [];
  events = [];
}

abbrev restore : ApprovalRequest
restore = record {
  org_id = 1;
  action_type = snapshot_restore;
  requested_by_person_id = 6;
  target_machine_id = some 10;
  target_person_id = none;
  reason = 97 ∷ [];
  payload = none;
  required_mode_floor = some (resolve_restore_approval_floor data_only live_machine);
}

abbrev restore_row : ApprovalRow
restore_row = record {
  id = 200;
  org_id = 1;
  action_type = snapshot_restore;
  mode = ApprovalMode.dual;
  status = pending;
  requested_by_person_id = 6;
  target_machine_id = some 10;
  target_person_id = none;
  reason = 97 ∷ [];
  payload = none;
  required_approvals = 2;
  created_at = 100;
  expires_at = 86400100;
  decided_at = none;
}

destructive_restore_dual_example :
    (restore_row.mode ≡ ApprovalMode.dual) × (restore_row.status ≢ approved)
unfolding trim request request_with request_mode apply_mode_floor resolve_approval_mode
    resolve_setting by_scope insert_pending resolve_restore_approval_floor
destructive_restore_dual_example =
    destructive_restore_dual env restore base (to_result restore_row 0) data_only live_machine
      (inr refl) refl refl
