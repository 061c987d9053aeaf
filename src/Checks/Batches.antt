-- ===== src/Checks/Batches.antt =====
-- processCheckBatches of workers/checks/src/index.ts, and executeWithRetries of executor.ts.
-- `process` of a candidate is whether its promise is fulfilled; the promises of a batch are awaited
-- together, and only their outcomes are read.
pub mod Progress
use alphaping.Prelude.{
  ℕ, zero, suc, ◌+◌, ◌-◌, ◌≤◌, Bool, true, false, not, Option, none, some, List, [], ◌∷◌, ltb, leb,
  if◌then◌else◌, ◌&&◌, length, take, drop,
}
use alphaping.Prelude.Outcome.{Outcome, ok, stuck}
use alphaping.Checks.Result.{ExecutedCheck, is_down}

abbrev pub max_concurrency : ℕ
max_concurrency = 5

pub record CheckBatchProgress : Type 0 where
  pub processed : ℕ
  pub failed : ℕ
  pub last_cursor : Option ℕ
  pub deadline_reached : Bool

module _ {T : Type 0} (telemetry_pk : T → ℕ) (can_start : List T → Bool) (process : T → Bool) where
  -- `outcomes.filter((outcome) => outcome.status === "rejected").length`
  unfoldable pub count_rejected : List T → ℕ
  count_rejected [] = 0
  count_rejected (candidate ∷ batch) =
      let rest = count_rejected batch in if process candidate then rest else suc rest

  -- `batch.at(-1)?.telemetry_pk ?? lastCursor`
  unfoldable pub last_pk : List T → Option ℕ → Option ℕ
  last_pk [] cursor = cursor
  last_pk (candidate ∷ batch) cursor = last_pk batch (some (telemetry_pk candidate))

  -- The loop; the list holds the candidates from the offset on.
  unfoldable pub batch_loop : ℕ → List T → ℕ → ℕ → Option ℕ → Outcome CheckBatchProgress
  batch_loop fuel [] processed failed last_cursor = ok (record {
    processed = processed;
    failed = failed;
    last_cursor = last_cursor;
    deadline_reached = false;
  })
  batch_loop zero (candidate ∷ candidates) processed failed last_cursor = stuck
  batch_loop (suc fuel) (candidate ∷ candidates) processed failed last_cursor =
      let batch = take max_concurrency (candidate ∷ candidates) in
      let rest =
        batch_loop fuel (drop max_concurrency (candidate ∷ candidates)) (processed + length batch)
          (failed + count_rejected batch) (last_pk batch last_cursor) in
      if not (can_start batch)
      then ok (record {
        processed = processed;
        failed = failed;
        last_cursor = last_cursor;
        deadline_reached = true;
      })
      else rest

  -- A round takes a candidate at least.
  unfoldable pub process_check_batches : List T → Outcome CheckBatchProgress
  unfolding batch_loop count_rejected last_pk
  process_check_batches candidates = batch_loop (length candidates) candidates 0 0 none

-- The attempts are numbered from the first; the loop's count is that of the retries made.
unfoldable pub retry_loop : (ℕ → ExecutedCheck) → ℕ → ℕ → ExecutedCheck → ExecutedCheck × ℕ
retry_loop execute zero retry result = (result, retry + 1)
retry_loop execute (suc left) retry result =
    let again = retry_loop execute left (retry + 1) (execute (retry + 1)) in
    if is_down result.state then again else (result, retry + 1)

-- The result, with the number of attempts made.
unfoldable pub execute_with_retries : (ℕ → ExecutedCheck) → ℕ → ExecutedCheck × ℕ
unfolding retry_loop
execute_with_retries execute retry_count = retry_loop execute retry_count 0 (execute 0)
