-- ===== src/Restore/Examples.antt =====
-- A restore onto an archived machine, in an organisation that asks nobody; and one that waited for its
-- approval.
use cloudable.Base.{◌≡◌, ◌⊎◌, refl, true, false, none, some, [], ◌∷◌, ok}
use cloudable.Approval.Decide.{status}
use cloudable.Setting.{org}
use cloudable.Audit.{ApprovalMode, approved, snapshot_restore}
use cloudable.Database.{ApprovalRow}
use cloudable.Approval.{to_result}
use cloudable.Archive.{data_only}
use cloudable.Lifecycle.{RestoreRequest, running, archived_restorable, World}
use cloudable.Lifecycle.Samples
use cloudable.Lifecycle.Samples.{Kept, provider, machine_in, taken, copy_of, tables, world_of}
use cloudable.Restore.{existing_machine, RestoreSnapshotInput, MachineService, RestoreEnv}
use cloudable.Restore.Checks.{data_disk_of, data_disk_of, Checked, restore_snapshot}
use cloudable.Restore.Resume.{resumed_result, resume_restore}
use cloudable.Restore.Refused.{Admitted}
use cloudable.Restore.Gate.{Restored, Untold}
use cloudable.Restore.Evident.{restore_snapshot-Evident}
use cloudable.Restore.Resumed.{resume_restore_once}
use cloudable.Restore.Approved.{Waiting, Up, resume_restore_carries_out}

abbrev service : MachineService Kept
service = record { create = λ wanted s. (none, s) }

abbrev env : RestoreEnv
env = record {
  approvals = record {
    now = 100;
    new_id = 200;
    correlation_id = 900;
    query_down = false;
    transaction_down = false;
  };
  archive = Samples.env;
  find_down = false;
  save_down = false;
  mark_down = false;
}

abbrev world : World Kept
world = record (world_of archived_restorable) {
  db = record tables {
    mode_settings =
        record {
          scope_type = org;
          scope_id = 1;
          key = "approval_mode:snapshot_restore";
          value = ApprovalMode.none;
          source = org;
        }
        ∷ [];
  };
}

abbrev input : RestoreSnapshotInput
input = record {
  snapshot_id = 53;
  mode = data_only;
  requested_by_person_id = 6;
  target = existing_machine 10 false;
  reason = 97 ∷ [];
  confirm_secret_bindings = false;
}

restore_snapshot-Evident_example :
    let out = restore_snapshot provider service env input world in
    ((c : Checked) × Admitted input world c × Restored provider service env input c world out)
    ⊎ Untold provider service env world out
restore_snapshot-Evident_example = restore_snapshot-Evident provider service env input world

abbrev agreement : ApprovalRow
agreement = record {
  id = 200;
  org_id = 1;
  action_type = snapshot_restore;
  mode = ApprovalMode.dual;
  status = approved;
  requested_by_person_id = 6;
  target_machine_id = some 10;
  target_person_id = none;
  reason = 97 ∷ [];
  payload = none;
  required_approvals = 2;
  created_at = 100;
  expires_at = 86400100;
  decided_at = some 300;
}

abbrev wanted : RestoreRequest
wanted = record {
  approval_id = 200;
  snapshot_id = 51;
  for_new_machine = false;
  target_machine_id = some 10;
  owner_person_id = none;
  new_machine_name = none;
  confirm_destroys_data = false;
  mode = data_only;
  confirm_secret_bindings = false;
  requested_by_person_id = 6;
  reason = 97 ∷ [];
  completed_at = none;
}

abbrev agreed : World Kept
agreed = record (world_of running) {
  db = record tables { approvals = agreement ∷ [] };
  restore_requests = wanted ∷ [];
}

up : Up env
up = record { find_up = refl; query_up = refl; mark_up = refl; publish_up = λ id. refl }

waiting : Waiting env 200 1 agreed
unfolding status data_disk_of
waiting = record {
  row = wanted;
  snapshot = taken 51 500 false;
  disk = copy_of 51;
  machine = machine_in running;
  answer = to_result agreement 0;
  requested = refl;
  not_completed = refl;
  onto_machine = refl;
  names = refl;
  given = refl;
  is_approved = refl;
  snapshot_found = refl;
  snapshot_org = refl;
  has_disk = refl;
  machine_found = refl;
  machine_org = refl;
}

resume_restore_carries_out_example :
    let out = resume_restore provider service env 200 1 agreed in
    (out.0 ≡ ok (resumed_result wanted 200 (some 10) approved true))
    × (out.1.cloud ≡ (provider.restore_data_disk (machine_in running) 51 agreed.cloud).1)
unfolding waiting
resume_restore_carries_out_example =
    resume_restore_carries_out provider service env up 200 1 agreed waiting (some 10) refl

resume_restore_once_example :
    let w' = (resume_restore provider service env 200 1 agreed).1 in
    resume_restore provider service env 200 1 w'
    ≡ (ok (resumed_result wanted 200 (some 10) approved true), w')
resume_restore_once_example =
    resume_restore_once provider service env env 200 1 1 agreed
      (resumed_result wanted 200 (some 10) approved true) refl resume_restore_carries_out_example.0
      refl
