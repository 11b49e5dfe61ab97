-- ===== src/MachineEvents/Reports.antt =====
-- Which events a report gives: the rules of `deriveEvents`.
use cloudable.Base.{
  inl, inr, Bool-cases, ◌≡◌, refl, ◌↔◌, Bool, true, false, ◌&&◌, Option, none, some, List, [], Text,
  same_text, same_text_iff, any, is_empty, arith,
}
use cloudable.MachineEvents.{
  MachineState, MachineStateSnapshot, MachineReportedState, DeriveEventsContext, MachineEvent,
  drift_detected, drift_resolved, same_state, same_resource, same_string_set, changes_between,
  drift_events, derive_events,
}
use cloudable.MachineEvents.Bags.{SameBag, same_string_set_iff}

same_state_iff : (a b : MachineState) → (same_state a b ≡ true) ↔ (a ≡ b)
same_state_iff a b = ground arith

same_resource_iff : (a b : Option Text) → (same_resource a b ≡ true) ↔ (a ≡ b)
same_resource_iff none none = ground arith
same_resource_iff none (some b) = ground arith
same_resource_iff (some a) none = ground arith
same_resource_iff (some a) (some b) = ground (arith, same_text_iff a b)

-- A report that says nothing new; the order of its lists does not count.
pub record Unchanged (previous reported : MachineStateSnapshot) : Type 0 where
  pub state : previous.state ≡ reported.state
  pub packages_hash : previous.packages_hash ≡ reported.packages_hash
  pub external_resource_id : previous.external_resource_id ≡ reported.external_resource_id
  pub undeclared_packages : SameBag previous.undeclared_packages reported.undeclared_packages
  pub running_access_methods :
      SameBag previous.running_access_methods reported.running_access_methods

abbrev pub is_drift_detected : MachineEvent → Bool
is_drift_detected e = elim e.payload [ drift_detected packages ↦ true | _ ↦ false ]

abbrev pub is_drift_resolved : MachineEvent → Bool
is_drift_resolved e = elim e.payload [ drift_resolved packages ↦ true | _ ↦ false ]

-- The five tests of the code.
abbrev all_same : MachineStateSnapshot → MachineStateSnapshot → Bool
all_same p r =
    same_state p.state r.state
    && same_text p.packages_hash r.packages_hash
    && same_resource p.external_resource_id r.external_resource_id
    && same_string_set p.undeclared_packages r.undeclared_packages
    && same_string_set p.running_access_methods r.running_access_methods

all_same-Unchanged : (p r : MachineStateSnapshot) → (all_same p r ≡ true) ↔ Unchanged p r
all_same-Unchanged p r = (
  λ h. record {
    state = (same_state_iff p.state r.state).0 (ground arith);
    packages_hash = (same_text_iff p.packages_hash r.packages_hash).0 (ground arith);
    external_resource_id =
        (same_resource_iff p.external_resource_id r.external_resource_id).0 (ground arith);
    undeclared_packages =
        (same_string_set_iff p.undeclared_packages r.undeclared_packages).0 (ground arith);
    running_access_methods =
        (same_string_set_iff p.running_access_methods r.running_access_methods).0 (ground arith);
  },
  λ u.
      let e0 = (same_state_iff p.state r.state).1 u.state in
      let e1 = (same_text_iff p.packages_hash r.packages_hash).1 u.packages_hash in
      let e2 =
        (same_resource_iff p.external_resource_id r.external_resource_id).1
          u.external_resource_id in
      let e3 =
        (same_string_set_iff p.undeclared_packages r.undeclared_packages).1 u.undeclared_packages in
      let e4 =
        (same_string_set_iff p.running_access_methods r.running_access_methods).1
          u.running_access_methods in
      rw (e0, e1, e2, e3, e4) refl,
)

module _ (p : MachineStateSnapshot) (r : MachineReportedState) (ctx : DeriveEventsContext) where
  abbrev events : List MachineEvent
  events = derive_events (some p) r ctx

  quiet : (events ≡ []) ↔ (all_same p r.snapshot ≡ true)
  unfolding derive_events drift_events changes_between
  quiet = ground arith

  detected : (any is_drift_detected events ≡ true) ↔ (
      (is_empty r.snapshot.undeclared_packages ≡ false)
      × (same_string_set p.undeclared_packages r.snapshot.undeclared_packages ≡ false))
  unfolding derive_events drift_events changes_between
  detected = ground arith

  resolved : (any is_drift_resolved events ≡ true) ↔ (
      (is_empty p.undeclared_packages ≡ false) × (is_empty r.snapshot.undeclared_packages ≡ true))
  unfolding derive_events drift_events changes_between
  resolved = ground arith

  -- A report of a machine that has reported before gives no event exactly if it says nothing new: the
  -- same state, packages and resource, and the same undeclared packages and access methods in whatever
  -- order. It gives a drift_detected exactly if there are undeclared packages and they are others than
  -- before, and a drift_resolved exactly if there were some and there are none.
  pub derive_events_exact :
      ((derive_events (some p) r ctx ≡ []) ↔ Unchanged p r.snapshot)
      × ((any is_drift_detected (derive_events (some p) r ctx) ≡ true) ↔ (
          (is_empty r.snapshot.undeclared_packages ≡ false)
          × ¬ SameBag p.undeclared_packages r.snapshot.undeclared_packages))
      × ((any is_drift_resolved (derive_events (some p) r ctx) ≡ true) ↔ (
          (is_empty p.undeclared_packages ≡ false)
          × (is_empty r.snapshot.undeclared_packages ≡ true)))
  derive_events_exact =
      let bags = same_string_set_iff p.undeclared_packages r.snapshot.undeclared_packages in
      let same = all_same-Unchanged p r.snapshot in
      (
        (λ h. same.0 (quiet.0 h), λ u. quiet.1 (same.1 u)),
        (
          λ h.
              let (some_left, differ) = detected.0 h in
              (some_left, λ bag. absurd (cc (bags.1 bag, differ))),
          λ (some_left, differ). detected.1 (some_left, not_same differ),
        ),
        resolved,
      )
    where
      not_same :
          ¬ SameBag p.undeclared_packages r.snapshot.undeclared_packages
          → same_string_set p.undeclared_packages r.snapshot.undeclared_packages ≡ false
      not_same differ =
          elim (Bool-cases (same_string_set p.undeclared_packages r.snapshot.undeclared_packages)) [
            | inl e ↦ absurd (
                differ
                  ((same_string_set_iff p.undeclared_packages r.snapshot.undeclared_packages).0 e))
            | inr e ↦ e
          ]
