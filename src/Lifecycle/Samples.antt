-- ===== src/Lifecycle/Samples.antt =====
-- Test data: a provider that keeps each resource and each copy of a disk under its identifier, a
-- machine with snapshots, and the tables of an organisation.
use cloudable.Base.{
  ℕ, Bool, true, false, none, some, [], ◌∷◌, ◌==◌, number_eq, ok, err, if◌then◌else◌,
}
use cloudable.Database.{Db}
use cloudable.Lifecycle.{
  azure, MachineState, Machine, data_disk, CapturedDisk, archive, full, SnapshotRow, World,
  not_found, Provisioning, Env,
}

-- Which identifiers are in use.
abbrev pub Kept : Type 0
Kept = ℕ → Bool

abbrev pub forget : ℕ → Kept → Kept
forget id s x = if x == id then false else s x

abbrev pub keep : ℕ → Kept → Kept
keep id s x = if x == id then true else s x

abbrev pub copy_of : ℕ → CapturedDisk
copy_of id = record { kind = data_disk; external_id = id; size_bytes = 4096 }

-- A machine's resource has the machine's identifier, a copy the snapshot's.
abbrev pub provider : Provisioning Kept
provider = record {
  snapshot = λ m scope id quiesce s.
      if s m.id then (ok (copy_of id ∷ []), keep id s) else (err not_found, s);
  tear_down = λ m s. (ok tt, forget m.id s);
  delete_snapshot_disk = λ kind d s. (ok tt, forget d s);
  snapshot_disk_exists = λ kind d s. ok (s d);
  restore_data_disk = λ m d s. (ok m.external_resource_id, s);
}

abbrev pub in_use : ℕ → Kept → Bool
in_use x s = s x

abbrev pub env : Env
env = record {
  now = 1000;
  new_id = 70;
  correlation_id = 900;
  query_down = false;
  lookup_down = false;
  write_down = λ id. false;
  publish_down = λ id. false;
  measured = none;
}

abbrev pub machine_in : MachineState → Machine
machine_in state = record {
  id = 10;
  org_id = 1;
  owner_person_id = some 5;
  provider = azure;
  region = some "westeurope";
  state = state;
  has_last_error = false;
  external_resource_id = some 10;
  legal_hold = false;
  volume_usage = record { persistent = none; root = none };
  archived_at = none;
}

abbrev pub taken : (id expires_at : ℕ) → (hold : Bool) → SnapshotRow
taken id expires_at hold = record {
  id = id;
  org_id = 1;
  machine_id = 10;
  trigger = archive;
  region = some "westeurope";
  size_bytes = 4096;
  used_bytes = none;
  scope = full;
  captured_disks = copy_of id ∷ [];
  contains_data = true;
  contains_config = false;
  retention_days = 30;
  created_at = 0;
  expires_at = expires_at;
  legal_hold = hold;
  legal_hold_reason = none;
  expired_at = none;
  data_missing_at = none;
}

abbrev pub tables : Db
tables = record {
  approvals = [];
  decisions = [];
  elevations = [];
  notifications = [];
  machines = [];
  people = record { id = 5; org_id = 1; active = true } ∷ [];
  mode_settings = [];
  minute_settings = [];
  events = [];
}

-- Three snapshots: one that is overdue, one under legal hold, one within its time.
abbrev pub world_of : MachineState → World Kept
world_of state = record {
  db = tables;
  machines = machine_in state ∷ [];
  snapshots = taken 51 500 false ∷ taken 52 500 true ∷ taken 53 5000 false ∷ [];
  restore_requests = [];
  certificates = record { id = 80; person_id = 5; revoked_at = none } ∷ [];
  events = [];
  cloud = λ id. true;
}
