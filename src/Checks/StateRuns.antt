-- ===== src/Checks/StateRuns.antt =====
-- The results on results, services and machines, at concrete rows.
use alphaping.Prelude.{
  ℕ, zero, suc, ◌+◌, ◌*◌, ◌≤◌, ◌<◌, ◌≡◌, ◌⊎◌, refl, Bool, true, false, none, some, List, [], ◌∷◌,
  ◌++◌, length, arith, String, if◌then◌else◌, ltb, leb,
}
use alphaping.Prelude.Outcome.{ok}
use alphaping.Checks.Result.{
  ResultState, healthy, degraded, down, ExecutedCheck, CheckState, known, checked,
}
use alphaping.Checks.Confirmation.{ConfirmationState, WindowConfig, apply_results, has_failed}
use alphaping.Checks.Confirmation.Window.{apply_results-failing, apply_results-recovering}
use alphaping.Checks.ServiceState.{
  LatestCheck, ServiceTables, service_state, next_service, service_state_statements, same_state,
  is_some,
}
use alphaping.Checks.ServiceState.Query.{next_service-eq-service_state}
use alphaping.Checks.ServiceState.Transition.{
  state_of, transition_event, service_state_statements_record,
}
use alphaping.Checks.Rollups.{
  ClosedRollups, StatusBucket, add_result, empty_rollup, prepare_closed_rollups, status_bucket,
}
use alphaping.Checks.Rollups.Counts.{IsClosed, prepare_closed_rollups_sound}
use alphaping.Checks.Liveness as Liveness
use alphaping.Checks.Liveness.{MachineControlRow, LivenessTables, reconcile_machine_liveness}
use alphaping.Checks.Liveness.Stale.{AreSettled, reconcile_machine_liveness_sound}
use alphaping.Checks.Batches.{execute_with_retries}
use alphaping.Checks.Batches.Progress.{IsLastAttempt, execute_with_retries-IsLastAttempt}

abbrev result_of : ResultState → ExecutedCheck
result_of state = record {
  state = state;
  latency_ms = some 120;
  failure_code = none;
  failure_summary = none;
}

abbrev window : WindowConfig
window = record { failure_confirmations = 2; recovery_confirmations = 3 }

abbrev stored_check : CheckState → ConfirmationState
stored_check state = record {
  state = state;
  failure_code = none;
  failure_summary = none;
  consecutive_failures = 0;
  consecutive_successes = 0;
}

abbrev keep_text : String → String
keep_text text = text

abbrev two_failures : List ExecutedCheck
two_failures = result_of down ∷ result_of degraded ∷ []

abbrev two_successes : List ExecutedCheck
two_successes = result_of healthy ∷ result_of healthy ∷ []

apply_results-failing_example :
    ((length two_failures < 2)
      × ((apply_results keep_text window (stored_check (known healthy)) two_failures).state
          ≡ known healthy))
    ⊎ ((2 ≤ length two_failures)
        × (has_failed
              (apply_results keep_text window (stored_check (known healthy)) two_failures).state
            ≡ true))
apply_results-failing_example =
    apply_results-failing keep_text window (stored_check (known healthy)) two_failures (omega arith)
      refl refl ((λ e. cc), ((λ e. cc), tt))

apply_results-recovering_example :
    ((length two_successes < 3)
      × ((apply_results keep_text window (stored_check (known down)) two_successes).state
          ≡ known down))
    ⊎ ((3 ≤ length two_successes)
        × ((apply_results keep_text window (stored_check (known down)) two_successes).state
            ≡ known healthy))
apply_results-recovering_example =
    apply_results-recovering keep_text window (stored_check (known down)) two_successes
      (omega arith) (λ e. cc) refl (refl, (refl, tt))

abbrev two_checks : List LatestCheck
two_checks =
    record { state = known down; critical = 0 }
    ∷ record { state = known healthy; critical = 1 }
    ∷ []

next_service-eq-service_state_example :
    next_service two_checks (some 50) 100 ≡ service_state two_checks (some 50) 100
next_service-eq-service_state_example = next_service-eq-service_state two_checks (some 50) 100

abbrev service_tables : ServiceTables
service_tables = record {
  latest = some (record {
    workspace_pk = 1;
    state = checked (known healthy);
    status_since = 10;
    reason_code = "check_healthy";
    last_transition_at = 10;
    updated_at = 10;
  });
  events = [];
}

abbrev down_recorded : ServiceTables
down_recorded = service_state_statements 1 99 7 true (checked (known down)) service_tables

service_state_statements_record_example :
    (state_of down_recorded.latest ≡ checked (known down))
    × (is_some down_recorded.latest ≡ true)
    × (down_recorded.events ≡ (
        if same_state (checked (known healthy)) (checked (known down))
        then []
        else [] ++ transition_event 1 99 7 (checked (known down)) service_tables ∷ []))
    × (service_state_statements 1 99 7 false (checked (known down)) service_tables ≡ service_tables)
service_state_statements_record_example =
    service_state_statements_record 1 99 7 (checked (known down)) service_tables refl refl

prepare_closed_rollups_sound_example :
    (closed : ClosedRollups) × (prepare_closed_rollups 3540000
        (result_of down)
        (some (result_of healthy) ∷ none ∷ [])
        (record {
          total_count = 5;
          healthy_count = 4;
          degraded_count = 0;
          down_count = 1;
          latency_avg_ms = some 80;
          latency_max_ms = some 90;
        }
          ∷ [])
      ≡ ok closed)
    × IsClosed 3540000
        (result_of down)
        (some (result_of healthy) ∷ none ∷ [])
        (record {
          total_count = 5;
          healthy_count = 4;
          degraded_count = 0;
          down_count = 1;
          latency_avg_ms = some 80;
          latency_max_ms = some 90;
        }
          ∷ [])
        closed
prepare_closed_rollups_sound_example =
    prepare_closed_rollups_sound 3540000 (result_of down) (some (result_of healthy) ∷ none ∷ [])
      (record {
        total_count = 5;
        healthy_count = 4;
        degraded_count = 0;
        down_count = 1;
        latency_avg_ms = some 80;
        latency_max_ms = some 90;
      }
        ∷ [])
      (record { counted = refl; averaged = omega arith }, tt)

abbrev bucket_of : ResultState → StatusBucket
bucket_of state = status_bucket none 1 3540000 (add_result empty_rollup (result_of state))

abbrev machines : List MachineControlRow
machines = record { telemetry_pk = 4; offline_after_seconds = 60; maintenance_until = none } ∷ []

abbrev liveness_tables : LivenessTables
liveness_tables = record {
  latest =
      record { machine_pk = 4; workspace_pk = 1; received_at = 1000; state = Liveness.healthy }
      ∷ [];
  events = [];
}

abbrev pair_key : ℕ → ℕ → ℕ
pair_key machine_pk occurred_at = machine_pk + 100 * occurred_at

reconcile_machine_liveness_sound_example :
    AreSettled machines 70000 liveness_tables.latest
      (reconcile_machine_liveness pair_key liveness_tables.latest liveness_tables 70000
        machines).0.latest
reconcile_machine_liveness_sound_example =
    reconcile_machine_liveness_sound pair_key liveness_tables.latest liveness_tables 70000 machines

abbrev few_left : List ℕ → Bool
few_left batch = leb 3 (length batch)

abbrev is_small : ℕ → Bool
is_small n = ltb n 4

abbrev own_key : ℕ → ℕ
own_key n = n

abbrev seven : List ℕ
seven = 1 ∷ 2 ∷ 3 ∷ 4 ∷ 5 ∷ 6 ∷ 7 ∷ []

abbrev second_try : ℕ → ExecutedCheck
second_try zero = result_of down
second_try (suc n) = result_of healthy

execute_with_retries-IsLastAttempt_example :
    IsLastAttempt second_try 0 3 (execute_with_retries second_try 3)
execute_with_retries-IsLastAttempt_example = execute_with_retries-IsLastAttempt second_try 3
