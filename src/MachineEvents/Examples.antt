-- ===== src/MachineEvents/Examples.antt =====
-- A machine whose two undeclared packages are reported in another order, and then are gone.
use cloudable.Base.{
  ◌≡◌, refl, ◌↔◌, true, false, none, some, List, [], ◌∷◌, Text, any, sort_by, insert_sorted,
}
use cloudable.MachineEvents.{
  running, MachineStateSnapshot, MachineReportedState, DeriveEventsContext, derive_events,
  changes_between, drift_events, same_string_set,
}
use cloudable.MachineEvents.Bags.{SameBag}
use cloudable.MachineEvents.Reports.{
  Unchanged, is_drift_detected, is_drift_resolved, derive_events_exact,
}

abbrev seen : List Text → MachineStateSnapshot
seen undeclared = record {
  state = running;
  packages_hash = 1 ∷ [];
  undeclared_packages = undeclared;
  external_resource_id = none;
  running_access_methods = [];
}

abbrev before : MachineStateSnapshot
before = seen ((97 ∷ []) ∷ (98 ∷ []) ∷ [])

abbrev reordered : MachineReportedState
reordered = record { snapshot = seen ((98 ∷ []) ∷ (97 ∷ []) ∷ []); agent_version = 49 ∷ [] }

abbrev ctx : DeriveEventsContext
ctx = record { org_id = 1; machine_id = 10; correlation_id = 900; occurred_at = 50 }

derive_events_exact_example :
    ((derive_events (some before) reordered ctx ≡ []) ↔ Unchanged before reordered.snapshot)
    × ((any is_drift_detected (derive_events (some before) reordered ctx) ≡ true) ↔ (
        (false ≡ false)
        × ¬ SameBag before.undeclared_packages reordered.snapshot.undeclared_packages))
    × ((any is_drift_resolved (derive_events (some before) reordered ctx) ≡ true)
        ↔ ((false ≡ false) × (false ≡ true)))
derive_events_exact_example = derive_events_exact before reordered ctx

reordered_quiet : derive_events (some before) reordered ctx ≡ []
unfolding derive_events changes_between drift_events same_string_set sort_by insert_sorted
reordered_quiet = refl

abbrev cleaned : MachineReportedState
cleaned = record { snapshot = seen []; agent_version = 49 ∷ [] }

cleaned_resolved : any is_drift_resolved (derive_events (some before) cleaned ctx) ≡ true
unfolding derive_events changes_between drift_events same_string_set sort_by insert_sorted
cleaned_resolved = refl
