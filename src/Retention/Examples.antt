-- ===== src/Retention/Examples.antt =====
-- A sweep of four events, two of an operation that has aged out and two of one that has a recent
-- event, and of the scans of one machine.
use cloudable.Base.{refl, false, none, List, [], ◌∷◌, Memᴰ, arith, inl, ℕ}
use cloudable.Lifecycle.{running, Machine}
use cloudable.Lifecycle.Samples.{machine_in}
use cloudable.Retention.{
  StoredDays, number, effective_events_retention_days, is_expirable, LogEvent, Env,
  expire_org_events,
}
use cloudable.Retention.Scans.{ScanOutcome, completed, failed, Scan}
use cloudable.Retention.Pass.{Tables, expire_events_past_retention}
use cloudable.Retention.Groups.{aged_event_goes}
use cloudable.Retention.Lookback.{protected_event_outlasts_pass}
use cloudable.Retention.History.{SameHistory, expire_events_past_retention-SameHistory}

abbrev entry : (id operation at : ℕ) → LogEvent
entry id operation at = record {
  id = id;
  org_id = 1;
  machine_id = none;
  correlation_id = operation;
  occurred_at = at;
}

abbrev log : List LogEvent
log = entry 1 21 10 ∷ entry 2 21 20 ∷ entry 3 22 30 ∷ entry 4 22 50000000000 ∷ []

abbrev env : Env
env = record {
  query_down = false;
  now = 50000000000;
  new_id = λ org. 99;
  correlation_id = λ org. 98;
  down = λ org. false;
  scans_down = λ org. false;
}

abbrev scanned : (id machine at : ℕ) → ScanOutcome → Scan
scanned id machine at outcome = record {
  id = id;
  machine_id = machine;
  outcome = outcome;
  finished_at = at;
}

abbrev tables : Tables
tables = record {
  events = log;
  scanning = record {
    findings = record { id = 1; machine_id = 10; resolved_at = none } ∷ [];
    scans = scanned 1 10 10 completed ∷ scanned 2 10 20 completed ∷ scanned 3 10 30 failed ∷ [];
  };
}

abbrev stored : ℕ → StoredDays
stored org = number 90

abbrev machines : List Machine
machines = machine_in running ∷ []

protected_event_outlasts_pass_example :
    Memᴰ
      (entry 3 22 30)
      (expire_events_past_retention env machines [] stored (1 ∷ []) tables).1.events
unfolding effective_events_retention_days
protected_event_outlasts_pass_example =
    protected_event_outlasts_pass env machines [] stored (1 ∷ []) tables (entry 3 22 30) refl
      (omega arith) (Memᴰ.tail (Memᴰ.tail (Memᴰ.head refl)))
      (record {
        sibling = entry 4 22 50000000000;
        present = Memᴰ.tail (Memᴰ.tail (Memᴰ.tail (Memᴰ.head refl)));
        same_org = refl;
        same_operation = refl;
        reason = inl (omega arith);
      })

expire_events_past_retention-SameHistory_example :
    SameHistory [] 10 tables.scanning
      (expire_events_past_retention env machines [] stored (1 ∷ []) tables).1.scanning
expire_events_past_retention-SameHistory_example =
    expire_events_past_retention-SameHistory env machines [] stored (1 ∷ []) 10 tables

aged_event_goes_example : ¬ Memᴰ (entry 1 21 10) (expire_org_events env [] 1 90 log).1
unfolding is_expirable
aged_event_goes_example =
    aged_event_goes env [] 1 log (entry 1 21 10) 90 refl (omega arith) refl (Memᴰ.head refl) (
      λ o c. (omega arith, refl),
      (
        λ o c. (omega arith, refl),
        (λ o c. absurd (omega (arith, c)), (λ o c. absurd (omega (arith, c)), tt)),
      ),
    )
