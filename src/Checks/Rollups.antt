-- ===== src/Checks/Rollups.antt =====
-- Rollups and status buckets of workers/checks/src/persistence.ts.
pub mod Bounds
pub mod Tally
pub mod Counts
pub mod Merge
use alphaping.Prelude.{
  ℕ, zero, suc, ◌+◌, ◌-◌, ◌*◌, ◌/◌, ◌%◌, max, min, Bool, true, false, Option, none, some, ltb, ◌==◌,
  if◌then◌else◌, String, List, [], ◌∷◌, ◌||◌, not,
}
use alphaping.Prelude.Outcome.{Outcome, ok, ◌>>=◌}
use alphaping.Contracts.Telemetry.{floor_to_five_minute_block, report_slot}
use alphaping.Checks.Result.{
  healthy, degraded, down, ExecutedCheck, known, unknown, ServiceState, checked, maintenance,
  is_healthy, is_degraded, is_down,
}
use alphaping.Checks.ServiceState.{in_maintenance, service_reason, same_state}

pub record CheckRollup : Type 0 where
  pub total_count : ℕ
  pub healthy_count : ℕ
  pub degraded_count : ℕ
  pub down_count : ℕ
  pub latency_total_ms : ℕ
  pub latency_count : ℕ
  pub latency_max_ms : Option ℕ

-- A row of check_rollups_5m or check_rollups_1h.
pub record StoredCheckRollup : Type 0 where
  pub total_count : ℕ
  pub healthy_count : ℕ
  pub degraded_count : ℕ
  pub down_count : ℕ
  pub latency_avg_ms : Option ℕ
  pub latency_max_ms : Option ℕ

abbrev pub empty_rollup : CheckRollup
empty_rollup = record {
  total_count = 0;
  healthy_count = 0;
  degraded_count = 0;
  down_count = 0;
  latency_total_ms = 0;
  latency_count = 0;
  latency_max_ms = none;
}

-- `rollup.x += 1` under a test.
abbrev pub bump : Bool → ℕ → ℕ
bump true n = n + 1
bump false n = n

-- `Math.max(rollup.latencyMaxMs ?? 0, value)`
abbrev pub raise_max : Option ℕ → ℕ → Option ℕ
raise_max none value = some (max 0 value)
raise_max (some most) value = some (max most value)

abbrev pub add_latency : Option ℕ → CheckRollup → CheckRollup
add_latency none rollup = rollup
add_latency (some latency) rollup = record rollup {
  latency_total_ms = rollup.latency_total_ms + latency;
  latency_count = rollup.latency_count + 1;
  latency_max_ms = raise_max rollup.latency_max_ms latency;
}

unfoldable pub add_result : CheckRollup → ExecutedCheck → CheckRollup
add_result rollup result = add_latency result.latency_ms (record rollup {
  total_count = rollup.total_count + 1;
  healthy_count = bump (is_healthy result.state) rollup.healthy_count;
  degraded_count = bump (is_degraded result.state) rollup.degraded_count;
  down_count = bump (is_down result.state) rollup.down_count;
})

abbrev pub add_average : Option ℕ → ℕ → CheckRollup → CheckRollup
add_average none total_count rollup = rollup
add_average (some average) total_count rollup = record rollup {
  latency_total_ms = rollup.latency_total_ms + average * total_count;
  latency_count = rollup.latency_count + total_count;
}

abbrev pub add_max : Option ℕ → CheckRollup → CheckRollup
add_max none rollup = rollup
add_max (some most) rollup = record rollup { latency_max_ms = raise_max rollup.latency_max_ms most }

unfoldable pub add_stored_rollup : CheckRollup → StoredCheckRollup → CheckRollup
add_stored_rollup rollup stored = add_max stored.latency_max_ms (
    add_average stored.latency_avg_ms stored.total_count (record rollup {
      total_count = rollup.total_count + stored.total_count;
      healthy_count = rollup.healthy_count + stored.healthy_count;
      degraded_count = rollup.degraded_count + stored.degraded_count;
      down_count = rollup.down_count + stored.down_count;
    }))

-- `Math.round(a / b)` of natural numbers: halves go up.
abbrev pub round_div : ℕ → ℕ → ℕ
round_div a b = (2 * a + b) / (2 * b)

-- The average that is stored.
unfoldable pub latency_average : CheckRollup → Option ℕ
latency_average rollup =
    if rollup.latency_count == 0
    then none
    else some (round_div rollup.latency_total_ms rollup.latency_count)

-- The values that `prepareRollupStatement` binds, and the row that `prepareClosedRollups` adds last.
unfoldable pub stored_rollup : CheckRollup → StoredCheckRollup
unfolding latency_average
stored_rollup rollup = record {
  total_count = rollup.total_count;
  healthy_count = rollup.healthy_count;
  degraded_count = rollup.degraded_count;
  down_count = rollup.down_count;
  latency_avg_ms = latency_average rollup;
  latency_max_ms = rollup.latency_max_ms;
}

-- The loops `for (… of …) addResult(…)`; a payload that cannot be read is skipped.
unfoldable pub add_results : CheckRollup → List (Option ExecutedCheck) → CheckRollup
add_results rollup [] = rollup
add_results rollup (none ∷ results) = add_results rollup results
add_results rollup (some result ∷ results) = add_results (add_result rollup result) results

unfoldable pub add_stored_rollups : CheckRollup → List StoredCheckRollup → CheckRollup
add_stored_rollups rollup [] = rollup
add_stored_rollups rollup (stored ∷ rest) =
    add_stored_rollups (add_stored_rollup rollup stored) rest

pub record ClosedRollups : Type 0 where
  pub five_minute : Option CheckRollup
  pub hourly : Option CheckRollup

-- `block` is the results in slots 0 to 3 of the block, as far as they can be read, and `previous` the
-- rows of the hour before the block.
unfoldable pub prepare_closed_rollups :
    ℕ → ExecutedCheck → List (Option ExecutedCheck) → List StoredCheckRollup → Outcome ClosedRollups
prepare_closed_rollups nominal_minute current block previous = do
  slot ← report_slot nominal_minute
  let five_minute = add_result (add_results empty_rollup block) current
  let hourly =
      add_stored_rollup (add_stored_rollups empty_rollup previous) (stored_rollup five_minute)
  ok (
      if not (slot == 4)
      then record { five_minute = none; hourly = none }
      else if not (nominal_minute % 3600000 / 60000 == 59)
      then record { five_minute = some five_minute; hourly = none }
      else record { five_minute = some five_minute; hourly = some hourly })

-- A row of status_buckets about a service.
pub record StatusBucket : Type 0 where
  pub state : ServiceState
  pub availability_permille : ℕ
  pub latency_avg_ms : Option ℕ
  pub latency_max_ms : Option ℕ
  pub summary_code : String

unfoldable pub bucket_state : Option ℕ → ℕ → ℕ → CheckRollup → ServiceState
bucket_state maintenance_until critical nominal_minute rollup =
    if in_maintenance maintenance_until nominal_minute
    then maintenance
    else if ltb 0 rollup.down_count
    then (if critical == 1 then checked (known down) else checked (known degraded))
    else if ltb 0 rollup.degraded_count
    then checked (known degraded)
    else if ltb 0 rollup.healthy_count
    then checked (known healthy)
    else checked unknown

-- `Math.round((healthyCount / totalCount) * 1_000)`, in exact arithmetic.
unfoldable pub availability : CheckRollup → ℕ
availability rollup =
    if rollup.total_count == 0
    then 0
    else round_div (rollup.healthy_count * 1000) rollup.total_count

-- The row that `prepareStatusBucket` binds.
unfoldable pub status_bucket : Option ℕ → ℕ → ℕ → CheckRollup → StatusBucket
unfolding bucket_state availability latency_average
status_bucket maintenance_until critical nominal_minute rollup = record {
  state = bucket_state maintenance_until critical nominal_minute rollup;
  availability_permille = availability rollup;
  latency_avg_ms = latency_average rollup;
  latency_max_ms = rollup.latency_max_ms;
  summary_code = service_reason (bucket_state maintenance_until critical nominal_minute rollup);
}

abbrev pub either_is : ServiceState → ServiceState → ServiceState → Bool
either_is state a b = same_state a state || same_state b state

-- The CASE on the two states in ON CONFLICT DO UPDATE.
unfoldable pub merged_state : ServiceState → ServiceState → ServiceState
merged_state stored excluded =
    if either_is maintenance stored excluded
    then maintenance
    else if either_is (checked (known down)) stored excluded
    then checked (known down)
    else if either_is (checked (known degraded)) stored excluded
    then checked (known degraded)
    else if either_is (checked (known healthy)) stored excluded
    then checked (known healthy)
    else checked unknown

-- The CASE on a latency.
abbrev pub merged_latency : Option ℕ → Option ℕ → Option ℕ
merged_latency none excluded = excluded
merged_latency (some stored) none = some stored
merged_latency (some stored) (some excluded) = some (max stored excluded)

unfoldable pub merged_summary : ServiceState → ServiceState → String → String
merged_summary stored excluded summary_code =
    if either_is maintenance stored excluded
    then "maintenance_window"
    else if either_is (checked (known down)) stored excluded
    then "check_down"
    else if either_is (checked (known degraded)) stored excluded
    then "check_degraded"
    else summary_code

-- ON CONFLICT DO UPDATE, for a row of the same workspace.
unfoldable pub merge_bucket : StatusBucket → StatusBucket → StatusBucket
unfolding merged_state merged_summary
merge_bucket stored excluded = record {
  state = merged_state stored.state excluded.state;
  availability_permille = min stored.availability_permille excluded.availability_permille;
  latency_avg_ms = merged_latency stored.latency_avg_ms excluded.latency_avg_ms;
  latency_max_ms = merged_latency stored.latency_max_ms excluded.latency_max_ms;
  summary_code = merged_summary stored.state excluded.state excluded.summary_code;
}
