-- ===== src/Approval/Examples.antt =====
-- Runs of the approval service: a dual-control request that two people approve, and its refusals.
use cloudable.Base.{◌≡◌, ◌≢◌, refl, ◌≤◌, ℕ, false, none, some, [], ◌∷◌, Memᴰ, trim, is_empty}
use cloudable.Setting.{org, resolve_setting, by_scope}
use cloudable.Audit.{
  ApprovalMode, pending, approved, break_glass, approval_settings_change, mode_rank,
}
use cloudable.Database.{ApprovalRow, approves, rejects, Db}
use cloudable.Approval.{
  Env, ApprovalRequest, to_result, request, insert_pending, request_with, request_mode,
  apply_mode_floor, resolve_approval_mode,
}
use cloudable.Approval.Decide.{decide}
use cloudable.Approval.Validity.{Valid}
use cloudable.Approval.Reachable.{Reach, requests, decides, here, next}
use cloudable.Approval.Quorum.{HasQuorum, approved-HasQuorum}
use cloudable.Approval.Guards.{MayDecide, decide_guarded}
use cloudable.Approval.Floor.{request_mode_floor}
use cloudable.Approval.Evidence.{Evident, decide-Evident}

abbrev env_at : ℕ → ℕ → Env
env_at t id = record {
  now = t;
  new_id = id;
  correlation_id = 900;
  query_down = false;
  transaction_down = false;
}

abbrev base : Db
base = record {
  approvals = [];
  decisions = [];
  elevations = [];
  notifications = [];
  machines =
      record { id = 10; org_id = 1; template_id = none; owner_person_id = some 5; name = [] } ∷ [];
  people = [];
  mode_settings =
      record {
        scope_type = org;
        scope_id = 1;
        key = "approval_mode:break_glass";
        value = ApprovalMode.dual;
        source = org;
      }
      ∷ [];
  minute_settings = [];
  events = [];
}

abbrev break_in : ApprovalRequest
break_in = record {
  org_id = 1;
  action_type = break_glass;
  requested_by_person_id = 6;
  target_machine_id = some 10;
  target_person_id = none;
  reason = 97 ∷ [];
  payload = none;
  required_mode_floor = some ApprovalMode.single;
}

base-Valid : Valid base
base-Valid = record { rows = tt; primary_key = refl; foreign_key = tt }

abbrev asked : Db
asked = (request (env_at 100 200) break_in base).1

abbrev half_way : Db
half_way = (decide (env_at 110 0) 200 1 7 approves [] asked).1

abbrev settled : Db
settled = (decide (env_at 120 0) 200 1 8 approves [] half_way).1

run : Reach base settled
run =
    next
      (next (next here (requests (env_at 100 200) break_in))
        (decides (env_at 110 0) 200 1 7 approves []))
      (decides (env_at 120 0) 200 1 8 approves [])

abbrev settled_row : ApprovalRow
settled_row = record {
  id = 200;
  org_id = 1;
  action_type = break_glass;
  mode = ApprovalMode.dual;
  status = approved;
  requested_by_person_id = 6;
  target_machine_id = some 10;
  target_person_id = none;
  reason = 97 ∷ [];
  payload = none;
  required_approvals = 2;
  created_at = 100;
  expires_at = 86400100;
  decided_at = some 120;
}

abbrev asked_row : ApprovalRow
asked_row = record settled_row { status = pending; decided_at = none }

settled_run : settled.approvals ≡ settled_row ∷ []
unfolding trim request request_with request_mode apply_mode_floor resolve_approval_mode
    resolve_setting by_scope insert_pending decide
settled_run = refl

approved-HasQuorum_example : HasQuorum settled settled_row
unfolding trim request request_with request_mode apply_mode_floor resolve_approval_mode
    resolve_setting by_scope insert_pending decide
approved-HasQuorum_example = approved-HasQuorum settled_row base-Valid run (Memᴰ.head refl) refl

decide_guarded_example : MayDecide asked 200 1 7 × (approves ≡ rejects → is_empty (trim []) ≡ false)
unfolding trim request request_with request_mode apply_mode_floor resolve_approval_mode
    resolve_setting by_scope insert_pending decide
decide_guarded_example =
    decide_guarded (env_at 110 0) 200 1 7 approves [] asked (to_result asked_row 1) refl

request_mode_floor_example :
    (mode_rank (resolve_approval_mode base 1 (some 10) break_glass) ≤ 2)
    × (1 ≤ 2)
    × (pending ≡ approved → ApprovalMode.dual ≡ ApprovalMode.none)
    × (break_glass ≡ approval_settings_change → pending ≢ approved)
unfolding trim request request_with request_mode apply_mode_floor resolve_approval_mode
    resolve_setting by_scope insert_pending
request_mode_floor_example =
    request_mode_floor (env_at 100 200) break_in base (to_result asked_row 0) refl

decide-Evident_example :
    Evident (env_at 120 0) 8 [] half_way (decide (env_at 120 0) 200 1 8 approves [] half_way)
decide-Evident_example = decide-Evident (env_at 120 0) 200 1 8 approves [] half_way
