-- ===== src/Elevation.antt =====
-- apps/control-plane/src/domain/elevation (policy.ts, ElevationService.ts, ElevationRepo.live.ts,
-- notify.ts, events.ts): who may be granted time-boxed access to a machine of somebody else.
-- The deployment's `config.adminAccessPolicy`, the clock, generated ids and failing database calls
-- come with the `Env` of a call; a failed call leaves what it wrote before.
pub mod Service
pub mod Sync
mod Rows
pub mod Backing
pub mod Requesting
pub mod Syncing
pub mod Histories
pub mod Sweep
pub mod Granting
pub mod Guards
pub mod ApprovalModes
mod Examples
use cloudable.Base.{
  ℕ, ◌+◌, ◌*◌, String, Bool, true, false, not, ◌&&◌, ◌||◌, Option, none, some, List, [], ◌∷◌, ◌++◌,
  leb, ◌==◌, number_eq, text_eq, if◌then◌else◌, is_some_of, is_empty, filter, find, any, has_id,
  Result, ok, err, ◌>>=◌, ◌>>◌, Text, trim,
}
use cloudable.Setting.{SettingRow, ResolvedSetting, SettingsChain, resolve_setting}
use cloudable.Audit.{
  ApprovalMode, single, dual, ElevationLevel, file_recovery, shell, Actor, Event, Payload,
  elevation_requested, elevation_granted, elevation_expired, mode_rank,
}
use cloudable.Database.{Elevation, MachineRecord, PersonRecord, Notification, Db}
use cloudable.Approval.{ApprovalError}
use cloudable.Approval

pub data AdminAccessPolicy : Type 0 where
  never always with_approval : AdminAccessPolicy

pub record RequestElevationInput : Type 0 where
  pub person_id : ℕ
  pub machine_id : ℕ
  pub level : ElevationLevel
  pub reason : Text

pub data ElevationError : Type 0 where
  validation machine_not_found person_not_found elevation_not_found : ElevationError
  self_owned_machine policy_denied wrong_state infra : ElevationError
  approval_service : ApprovalError → ElevationError

-- `machine_first`: of two lookups that run at once and both fail, the one whose error is reported.
pub record Env : Type 0 where
  pub approval : Approval.Env
  pub policy : AdminAccessPolicy
  pub now : ℕ
  pub new_id : ℕ
  pub machine_first : Bool
  pub machine_down : Bool
  pub person_down : Bool
  pub elevation_down : Bool
  pub settings_down : Bool
  pub write_down : Bool
  pub publish_down : Bool
  pub notification_down : Bool

abbrev pub admin_access_policy_setting_key : String
admin_access_policy_setting_key = "admin_access_policy"

abbrev pub admin_access_approval_mode_setting_key : String
admin_access_approval_mode_setting_key = "admin_access_approval_mode"

abbrev pub admin_access_elevation_ttl_minutes_setting_key : String
admin_access_elevation_ttl_minutes_setting_key = "admin_access_elevation_ttl_minutes"

abbrev pub default_elevation_ttl_minutes : ℕ
default_elevation_ttl_minutes = 60

unfoldable pub approval_mode_satisfies_floor : ApprovalMode → ApprovalMode → Bool
approval_mode_satisfies_floor configured floor = leb (mode_rank floor) (mode_rank configured)

unfoldable pub required_approval_mode_floor : ElevationLevel → ApprovalMode
required_approval_mode_floor shell = dual
required_approval_mode_floor file_recovery = single

-- `SETTING_KEYS`
abbrev setting_keys : List String
setting_keys =
    admin_access_policy_setting_key ∷ admin_access_approval_mode_setting_key
    ∷ admin_access_elevation_ttl_minutes_setting_key ∷ []

abbrev pub scope_ids_for : SettingsChain → List ℕ
scope_ids_for chain = elim chain.template_id [
  | some t ↦ chain.org_id ∷ chain.machine_id ∷ t ∷ []
  | none ↦ chain.org_id ∷ chain.machine_id ∷ []
]

-- `findSettingRows`: the rows of these keys at these scopes.
unfoldable pub find_setting_rows {ℓ} :
    {V : Type ℓ} → List String → List ℕ → List (SettingRow V) → List (SettingRow V)
find_setting_rows keys scopes rows =
    filter (λ r. any (λ k. r.key == k) keys && has_id r.scope_id scopes) rows

abbrev pub value_or {ℓ} : {V : Type ℓ} → V → Option (ResolvedSetting V) → V
value_or d none = d
value_or d (some r) = r.value

abbrev pub chain_of : MachineRecord → SettingsChain
chain_of m = record { org_id = m.org_id; template_id = m.template_id; machine_id = m.id }

unfoldable pub resolve_admin_access_approval_mode :
    List (SettingRow ApprovalMode) → SettingsChain → ApprovalMode
resolve_admin_access_approval_mode rows chain =
    value_or single (resolve_setting admin_access_approval_mode_setting_key rows chain)

unfoldable pub resolve_elevation_ttl_minutes : List (SettingRow ℕ) → SettingsChain → ℕ
resolve_elevation_ttl_minutes rows chain =
    value_or default_elevation_ttl_minutes
      (resolve_setting admin_access_elevation_ttl_minutes_setting_key rows chain)

-- The two settings as the service reads them for a machine.
unfoldable pub configured_mode : Db → MachineRecord → ApprovalMode
configured_mode db m =
    resolve_admin_access_approval_mode
      (find_setting_rows setting_keys (scope_ids_for (chain_of m)) db.mode_settings) (chain_of m)

unfoldable pub ttl_minutes : Db → MachineRecord → ℕ
ttl_minutes db m =
    resolve_elevation_ttl_minutes
      (find_setting_rows setting_keys (scope_ids_for (chain_of m)) db.minute_settings) (chain_of m)

abbrev pub found {ℓ} : {A : Type ℓ} → ElevationError → Option A → Result ElevationError A
found e none = err e
found e (some a) = ok a

abbrev if_active : Option PersonRecord → Option PersonRecord
if_active none = none
if_active (some p) = if p.active then some p else none

abbrev pub load_machine : Env → ℕ → Db → Result ElevationError MachineRecord
load_machine env id db =
    if env.machine_down
    then err infra
    else found machine_not_found (find (λ m. m.id == id) db.machines)

abbrev pub load_person : Env → ℕ → Db → Result ElevationError PersonRecord
load_person env id db =
    if env.person_down
    then err infra
    else found person_not_found (if_active (find (λ p. p.id == id) db.people))

-- `Effect.all` of the two lookups, unbounded.
abbrev both :
    Bool
    → Result ElevationError MachineRecord
    → Result ElevationError PersonRecord
    → Result ElevationError (MachineRecord × PersonRecord)
both machine_first (ok m) (ok p) = ok (m, p)
both machine_first (ok m) (err e) = err e
both machine_first (err e) (ok p) = err e
both machine_first (err e) (err f) = err (if machine_first then e else f)

abbrev pub visible : ℕ → Option Elevation → Option Elevation
visible org none = none
visible org (some e) = if e.org_id == org then some e else none

abbrev pub load_elevation : Env → ℕ → ℕ → Db → Result ElevationError Elevation
load_elevation env id org db =
    if env.elevation_down
    then err infra
    else found elevation_not_found (visible org (find (λ e. e.id == id) db.elevations))

abbrev require : Bool → ElevationError → Result ElevationError (Unit {0})
require true e = ok tt
require false e = err e

-- The checks of `request` before the policy is asked: the machine, if they pass.
unfoldable pub admit : Env → RequestElevationInput → Db → Result ElevationError MachineRecord
admit env input db = do
  require (not (is_empty (trim input.reason))) validation
  (machine, person) ←
      both env.machine_first (load_machine env input.machine_id db)
        (load_person env input.person_id db)
  require (person.org_id == machine.org_id) person_not_found
  require (not (is_some_of machine.owner_person_id input.person_id)) self_owned_machine
  require (not env.settings_down) infra
  ok machine

-- `buildElevation…Event`; the elevation's id is the correlation id.
abbrev pub event_about : ℕ → Actor → Elevation → Payload → Event
event_about now actor e payload = record {
  occurred_at = now;
  org_id = e.org_id;
  actor = actor;
  machine_id = some e.machine_id;
  correlation_id = e.id;
  payload = payload;
}
