-- ===== src/Elevation/Examples.antt =====
-- A shell elevation from its request to its grant, while the organisation's modes say "dual" for
-- elevations and nothing for approvals of admin access.
use cloudable.Base.{◌≡◌, refl, ℕ, true, false, none, some, [], ◌∷◌, Memᴰ, trim}
use cloudable.Setting.{org, resolve_setting, by_scope}
use cloudable.Audit.{approved, ApprovalMode, shell, admin_access}
use cloudable.Database.{Elevation, ElevationStatus, MachineRecord, approves, Db, ApprovalRow}
use cloudable.Approval.{
  request, request_with, request_mode, apply_mode_floor, resolve_approval_mode, insert_pending,
  to_result,
}
use cloudable.Approval.Decide.{decide, status}
use cloudable.Approval.Reachable.{decides}
use cloudable.Elevation.{
  Env, RequestElevationInput, with_approval, admit, approval_mode_satisfies_floor,
  required_approval_mode_floor, configured_mode, ttl_minutes, resolve_admin_access_approval_mode,
  resolve_elevation_ttl_minutes, find_setting_rows,
}
use cloudable.Elevation.Service.{request_elevation}
use cloudable.Elevation.Sync.{sync_approval}
use cloudable.Elevation.Backing.{SystemValid}
use cloudable.Elevation.Granting.{Ready, IsGranted, sync_approval-IsGranted}
use cloudable.Elevation.Histories.{
  History, start, then, requests, syncs, elsewhere, RestsOnQuorum, access-RestsOnQuorum,
  History-SystemValid,
}
use cloudable.Elevation.Guards.{Admits, PolicyAllows, Opened, request_elevation_guarded}
use cloudable.Elevation.ApprovalModes.{AsksForOwnMode, request_elevation-AsksForOwnMode}

abbrev env_at : ℕ → Env
env_at t = record {
  approval = record {
    now = t;
    new_id = 200;
    correlation_id = 900;
    query_down = false;
    transaction_down = false;
  };
  policy = with_approval;
  now = t;
  new_id = 100;
  machine_first = true;
  machine_down = false;
  person_down = false;
  elevation_down = false;
  settings_down = false;
  write_down = false;
  publish_down = false;
  notification_down = false;
}

abbrev laptop : MachineRecord
laptop = record { id = 10; org_id = 1; template_id = none; owner_person_id = some 5; name = [] }

abbrev base : Db
base = record {
  approvals = [];
  decisions = [];
  elevations = [];
  notifications = [];
  machines = laptop ∷ [];
  people = record { id = 6; org_id = 1; active = true } ∷ [];
  mode_settings =
      record {
        scope_type = org;
        scope_id = 1;
        key = "admin_access_approval_mode";
        value = ApprovalMode.dual;
        source = org;
      }
      ∷ [];
  minute_settings = [];
  events = [];
}

base-SystemValid : SystemValid base
base-SystemValid = record {
  approvals_valid = record { rows = tt; primary_key = refl; foreign_key = tt };
  backed = tt;
  primary_key = refl;
}

abbrev input : RequestElevationInput
input = record { person_id = 6; machine_id = 10; level = shell; reason = 97 ∷ [] }

abbrev asked : Db
asked = (request_elevation (env_at 100) input base).1

abbrev agreed : Db
agreed = (decide (env_at 110).approval 200 1 7 approves [] asked).1

abbrev synced : Db
synced = (sync_approval (env_at 120) 100 1 agreed).1

abbrev open_row : Elevation
open_row = record {
  id = 100;
  org_id = 1;
  person_id = 6;
  machine_id = 10;
  level = shell;
  reason = 97 ∷ [];
  approval_id = some 200;
  granted_at = none;
  expires_at = none;
  status = ElevationStatus.requested;
}

abbrev granted_row : Elevation
granted_row = record open_row {
  granted_at = some 120;
  expires_at = some 3600120;
  status = ElevationStatus.granted;
}

asked_same : agreed.elevations ≡ asked.elevations
unfolding decide trim request_elevation admit approval_mode_satisfies_floor
    required_approval_mode_floor configured_mode resolve_admin_access_approval_mode resolve_setting
    by_scope find_setting_rows request request_with request_mode apply_mode_floor
    resolve_approval_mode insert_pending
asked_same = refl

run : History base synced
run =
    then
      (then (then start (requests (env_at 100) input))
        (elsewhere (decides (env_at 110).approval 200 1 7 approves []) asked_same))
      (syncs (env_at 120) 100 1)

access-RestsOnQuorum_example : RestsOnQuorum synced granted_row
unfolding sync_approval decide ttl_minutes resolve_elevation_ttl_minutes status trim
    request_elevation admit approval_mode_satisfies_floor required_approval_mode_floor
    configured_mode resolve_admin_access_approval_mode resolve_setting by_scope find_setting_rows
    request request_with request_mode apply_mode_floor resolve_approval_mode insert_pending
access-RestsOnQuorum_example =
    access-RestsOnQuorum granted_row base-SystemValid run (Memᴰ.head refl) refl

History-SystemValid_example : SystemValid synced
History-SystemValid_example = History-SystemValid base-SystemValid run

request_elevation_guarded_example :
    (m : MachineRecord) × Admits (env_at 100) input base m
    × PolicyAllows with_approval base input m
    × Opened (env_at 100) input base m open_row
unfolding trim request_elevation admit approval_mode_satisfies_floor required_approval_mode_floor
    configured_mode resolve_admin_access_approval_mode resolve_setting by_scope find_setting_rows
    request request_with request_mode apply_mode_floor resolve_approval_mode insert_pending
request_elevation_guarded_example = request_elevation_guarded (env_at 100) input base open_row refl

request_elevation-AsksForOwnMode_example : AsksForOwnMode base asked open_row
unfolding trim request_elevation admit approval_mode_satisfies_floor required_approval_mode_floor
    configured_mode resolve_admin_access_approval_mode resolve_setting by_scope find_setting_rows
    request request_with request_mode apply_mode_floor resolve_approval_mode insert_pending
request_elevation-AsksForOwnMode_example =
    request_elevation-AsksForOwnMode (env_at 100) input base open_row refl refl

abbrev agreed_row : ApprovalRow
agreed_row = record {
  id = 200;
  org_id = 1;
  action_type = admin_access;
  mode = ApprovalMode.single;
  status = approved;
  requested_by_person_id = 6;
  target_machine_id = some 10;
  target_person_id = none;
  reason = 97 ∷ [];
  payload = none;
  required_approvals = 1;
  created_at = 100;
  expires_at = 86400100;
  decided_at = some 110;
}

ready : Ready (env_at 120) 1 agreed open_row laptop
unfolding trim request_elevation admit approval_mode_satisfies_floor required_approval_mode_floor
    configured_mode resolve_admin_access_approval_mode resolve_setting by_scope find_setting_rows
    request request_with request_mode apply_mode_floor resolve_approval_mode insert_pending decide
    status
ready = record {
  requested = refl;
  approval = to_result agreed_row 1;
  approval_id = 200;
  linked = refl;
  answered = refl;
  came_through = refl;
  machine_known = refl;
  settings_up = refl;
  events_up = refl;
}

sync_approval-IsGranted_example :
    IsGranted (env_at 120) agreed open_row laptop (sync_approval (env_at 120) 100 1 agreed)
unfolding trim request_elevation admit approval_mode_satisfies_floor required_approval_mode_floor
    configured_mode resolve_admin_access_approval_mode resolve_setting by_scope find_setting_rows
    request request_with request_mode apply_mode_floor resolve_approval_mode insert_pending decide
    status
sync_approval-IsGranted_example =
    sync_approval-IsGranted (env_at 120) 100 1 agreed open_row laptop refl ready
