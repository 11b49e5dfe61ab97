-- ===== src/MachineEvents.antt =====
-- apps/control-plane/src/domain/machine/events.ts, `deriveEvents`: the events that a machine's report
-- warrants. Left out: what is the same in every event (an empty id, the schema version, the kind of actor).
pub mod Bags
pub mod Reports
mod Examples
use cloudable.Base.{
  ℕ, Bool, true, false, not, ◌&&◌, ◌||◌, Option, none, some, is_some, List, [], ◌∷◌, ◌++◌, Text,
  same_text, text_le, is_empty, length, nat_beq, if◌then◌else◌, sort_by,
}

pub data MachineState : Type 0 where
  provisioning running stopped archived_restorable archived_expired error : MachineState

pub record MachineStateSnapshot : Type 0 where
  pub state : MachineState
  pub packages_hash : Text
  pub undeclared_packages : List Text
  pub external_resource_id : Option Text
  pub running_access_methods : List Text

pub record MachineReportedState : Type 0 where
  pub snapshot : MachineStateSnapshot
  pub agent_version : Text

pub record DeriveEventsContext : Type 0 where
  pub org_id : ℕ
  pub machine_id : ℕ
  pub correlation_id : ℕ
  pub occurred_at : ℕ

-- A field that changed, with its value before and after.
abbrev pub Change : Type 0 → Type 0
Change A = Option (A × A)

pub record Changes : Type 0 where
  pub state : Change MachineState
  pub packages_hash : Change Text
  pub external_resource_id : Change (Option Text)
  pub undeclared_packages : Change (List Text)
  pub running_access_methods : Change (List Text)

pub data MachinePayload : Type 0 where
  first_seen : (agent_version : Text) → MachinePayload
  state_reported : (changes : Changes) → MachinePayload
  drift_detected : (undeclared_packages : List Text) → MachinePayload
  drift_resolved : (removed : List Text) → MachinePayload

-- The machine itself is the actor.
pub record MachineEvent : Type 0 where
  pub occurred_at : ℕ
  pub recorded_at : ℕ
  pub org_id : ℕ
  pub machine_id : ℕ
  pub correlation_id : ℕ
  pub actor_id : ℕ
  pub payload : MachinePayload

abbrev pub same_state : MachineState → MachineState → Bool
same_state provisioning provisioning = true
same_state running running = true
same_state stopped stopped = true
same_state archived_restorable archived_restorable = true
same_state archived_expired archived_expired = true
same_state error error = true
same_state _ _ = false

abbrev pub same_resource : Option Text → Option Text → Bool
same_resource none none = true
same_resource (some a) (some b) = same_text a b
same_resource _ _ = false

-- `every` over the first list, with what the second has at the same index.
abbrev pub every_same : List Text → List Text → Bool
every_same [] ys = true
every_same (x ∷ xs) [] = false
every_same (x ∷ xs) (y ∷ ys) = same_text x y && every_same xs ys

pub same_string_set : List Text → List Text → Bool
same_string_set a b =
    if not (nat_beq (length a) (length b))
    then false
    else every_same (sort_by text_le a) (sort_by text_le b)

abbrev pub changed : {A : Type 0} → Bool → A → A → Change A
changed same from to = if same then none else some (from, to)

pub changes_between : MachineStateSnapshot → MachineStateSnapshot → Changes
unfolding same_string_set
changes_between previous reported = record {
  state = changed (same_state previous.state reported.state) previous.state reported.state;
  packages_hash =
      changed (same_text previous.packages_hash reported.packages_hash) previous.packages_hash
        reported.packages_hash;
  external_resource_id =
      changed (same_resource previous.external_resource_id reported.external_resource_id)
        previous.external_resource_id reported.external_resource_id;
  undeclared_packages =
      changed (same_string_set previous.undeclared_packages reported.undeclared_packages)
        previous.undeclared_packages reported.undeclared_packages;
  running_access_methods =
      changed (same_string_set previous.running_access_methods reported.running_access_methods)
        previous.running_access_methods reported.running_access_methods;
}

-- `Object.keys(changes).length > 0`.
abbrev pub any_change : Changes → Bool
any_change c =
    is_some c.state
    || is_some c.packages_hash
    || is_some c.external_resource_id
    || is_some c.undeclared_packages
    || is_some c.running_access_methods

abbrev pub envelope : DeriveEventsContext → MachinePayload → MachineEvent
envelope ctx payload = record {
  occurred_at = ctx.occurred_at;
  recorded_at = ctx.occurred_at;
  org_id = ctx.org_id;
  machine_id = ctx.machine_id;
  correlation_id = ctx.correlation_id;
  actor_id = ctx.machine_id;
  payload = payload;
}

pub drift_events :
    DeriveEventsContext → MachineStateSnapshot → MachineStateSnapshot → Bool → List MachineEvent
drift_events ctx previous reported undeclared_changed =
    let was_drifted = not (is_empty previous.undeclared_packages) in
    let is_drifted = not (is_empty reported.undeclared_packages) in
    if is_drifted && undeclared_changed
    then envelope ctx (drift_detected reported.undeclared_packages) ∷ []
    else if was_drifted && not is_drifted
    then envelope ctx (drift_resolved previous.undeclared_packages) ∷ []
    else []

pub derive_events :
    Option MachineStateSnapshot → MachineReportedState → DeriveEventsContext → List MachineEvent
unfolding changes_between drift_events
derive_events none reported ctx = envelope ctx (first_seen reported.agent_version) ∷ []
derive_events (some previous) reported ctx =
    let changes = changes_between previous reported.snapshot in
    (if any_change changes then envelope ctx (state_reported changes) ∷ [] else [])
    ++ drift_events ctx previous reported.snapshot
        (not (same_string_set previous.undeclared_packages reported.snapshot.undeclared_packages))
