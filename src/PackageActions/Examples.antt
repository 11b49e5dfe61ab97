-- ===== src/PackageActions/Examples.antt =====
-- An install from its request to its report, and a second request for it.
use cloudable.Base.{ℕ, refl, false, Option, none, [], ◌∷◌, Memᴰ, arith, number_eq}
use cloudable.PackageActions.{
  ActionRow, ActionOutcome, ActionStatus, EnqueueInput, Env, Tables, install, done,
  enqueue_package_action, collect_pending_actions, apply_action_results, apply_from,
  is_valid_package_name, matches_pattern, same_name,
}
use cloudable.PackageActions.OneOutstanding.{
  Run, idle, then, enqueues, collects, reports, IsSerial, Run-IsSerial,
}
use cloudable.PackageActions.Closed.{closed_action_stays}

abbrev env_at : ℕ → ℕ → Env
env_at t id = record {
  now = t;
  new_id = id;
  query_down = false;
  write_down = false;
  update_fails = λ i. false;
}

abbrev tables : Tables
tables = record { actions = []; machines = record { id = 10; desired_state_version = 4 } ∷ [] }

abbrev install_vim : EnqueueInput
install_vim = record {
  machine_id = 10;
  package_name = 118 ∷ 105 ∷ 109 ∷ [];
  op = install;
  version_pin = none;
  requested_by_person_id = 6;
  correlation_id = 900;
  is_baseline_package = false;
}

abbrev vim_done : ActionOutcome
vim_done = record { id = 1; outcome = done }

abbrev asked : Tables
asked = (enqueue_package_action (env_at 100 1) install_vim tables).1

abbrev collected : Tables
collected = (collect_pending_actions (env_at 110 0) 10 asked).1

abbrev reported_back : Tables
reported_back = (apply_action_results (env_at 120 0) 10 (vim_done ∷ []) collected).1

abbrev asked_again : Tables
asked_again = (enqueue_package_action (env_at 130 2) install_vim reported_back).1

run : Run tables asked_again
run =
    then
      (then (then (then idle (enqueues (env_at 100 1) install_vim)) (collects (env_at 110 0) 10))
        (reports (env_at 120 0) 10 (vim_done ∷ [])))
      (enqueues (env_at 130 2) install_vim)

last_request : Run reported_back asked_again
last_request = then idle (enqueues (env_at 130 2) install_vim)

abbrev installed : ActionRow
installed = record {
  id = 1;
  machine_id = 10;
  package_name = 118 ∷ 105 ∷ 109 ∷ [];
  op = install;
  status = ActionStatus.succeeded;
  version_pin = none;
  requested_by_person_id = 6;
  requested_at = 100;
  started_at = Option.some 110;
  finished_at = Option.some 120;
  failure_reason = none;
  correlation_id = 900;
}

tables-IsSerial : IsSerial tables
tables-IsSerial machine name = omega arith

Run-IsSerial_example : IsSerial asked_again
Run-IsSerial_example = Run-IsSerial run tables-IsSerial

closed_action_stays_example : Memᴰ installed asked_again.actions
unfolding enqueue_package_action is_valid_package_name collect_pending_actions apply_action_results
    apply_from same_name matches_pattern
closed_action_stays_example = closed_action_stays installed refl last_request (Memᴰ.head refl)
