-- ===== src/Checks/Rollups/Counts.antt =====
-- Rollups of workers/checks/src/persistence.ts: what the rollups of a block and of an hour count.
use alphaping.Prelude.{
  ℕ, suc, ◌+◌, ◌/◌, ◌%◌, ◌≡◌, ◌≢◌, refl, Option, none, some, List, [], ◌∷◌, All, arith, ◌==◌,
  Bool-cases, inl, inr, not, if◌then◌else◌,
}
use alphaping.Prelude.Outcome.{ok}
use alphaping.Contracts.Telemetry.{slot_of, report_slot_total}
use alphaping.Checks.Result.{ExecutedCheck}
use alphaping.Checks.Rollups.{
  CheckRollup, StoredCheckRollup, empty_rollup, add_result, add_stored_rollup, stored_rollup,
  add_results, add_stored_rollups, ClosedRollups, prepare_closed_rollups,
}
use alphaping.Checks.Rollups.Bounds.{
  IsRollup, IsStored, add_result-IsRollup, add_stored_rollup-IsRollup, stored_rollup-IsStored,
  add_results-IsRollup, add_stored_rollups-IsRollup, empty-IsRollup,
}
use alphaping.Checks.Rollups.Tally.{Counts, CountsHour, closing-Counts, closing-CountsHour}

-- The results that could be read.
abbrev pub readable : List (Option ExecutedCheck) → ℕ
readable [] = 0
readable (none ∷ results) = readable results
readable (some result ∷ results) = suc (readable results)

abbrev pub sum_totals : List StoredCheckRollup → ℕ
sum_totals [] = 0
sum_totals (s ∷ rows) = s.total_count + sum_totals rows

add_result-total :
    (r : CheckRollup) (result : ExecutedCheck)
    → (add_result r result).total_count ≡ r.total_count + 1
unfolding add_result
add_result-total r result = ground arith

add_results-total :
    (r : CheckRollup) (results : List (Option ExecutedCheck))
    → (add_results r results).total_count ≡ r.total_count + readable results
unfolding add_results
add_results-total r [] = omega arith
add_results-total r (none ∷ results) = add_results-total r results
add_results-total r (some result ∷ results) =
    omega (arith, add_results-total (add_result r result) results, add_result-total r result)

add_stored_rollup-total :
    (r : CheckRollup) (s : StoredCheckRollup)
    → (add_stored_rollup r s).total_count ≡ r.total_count + s.total_count
unfolding add_stored_rollup
add_stored_rollup-total r s = ground arith

add_stored_rollups-total :
    (r : CheckRollup) (rows : List StoredCheckRollup)
    → (add_stored_rollups r rows).total_count ≡ r.total_count + sum_totals rows
unfolding add_stored_rollups
add_stored_rollups-total r [] = omega arith
add_stored_rollups-total r (s ∷ rows) =
    omega
      (arith, add_stored_rollups-total (add_stored_rollup r s) rows, add_stored_rollup-total r s)

stored_rollup-total : (r : CheckRollup) → (stored_rollup r).total_count ≡ r.total_count
unfolding stored_rollup
stored_rollup-total r = refl

-- What closing a block gives: nothing in an earlier slot, a five-minute rollup in the last, and an
-- hourly one too in the last minute of an hour.
pub data IsClosed (nominal_minute : ℕ) (current : ExecutedCheck)
    (block : List (Option ExecutedCheck)) (previous : List StoredCheckRollup)
    : ClosedRollups → Type 0 where
  block_open :
      slot_of nominal_minute ≢ 4
      → IsClosed nominal_minute current block previous record { five_minute = none; hourly = none }
  block_closed :
      (five_minute : CheckRollup)
      → slot_of nominal_minute ≡ 4
      → nominal_minute % 3600000 / 60000 ≢ 59
      → IsRollup five_minute
      → Counts empty_rollup five_minute (some current ∷ block)
      → five_minute.total_count ≡ readable block + 1
      → IsStored (stored_rollup five_minute)
      → IsClosed nominal_minute current block previous
          record { five_minute = some five_minute; hourly = none }
  hour_closed :
      (five_minute hourly : CheckRollup)
      → slot_of nominal_minute ≡ 4
      → nominal_minute % 3600000 / 60000 ≡ 59
      → IsRollup five_minute
      → Counts empty_rollup five_minute (some current ∷ block)
      → five_minute.total_count ≡ readable block + 1
      → IsStored (stored_rollup five_minute)
      → IsRollup hourly
      → CountsHour previous five_minute hourly
      → hourly.total_count ≡ sum_totals previous + readable block + 1
      → IsStored (stored_rollup hourly)
      → IsClosed nominal_minute current block previous
          record { five_minute = some five_minute; hourly = some hourly }

-- The result, given its two rollups.
closed_of : ℕ → CheckRollup → CheckRollup → ClosedRollups
closed_of nominal_minute f h =
    if not (slot_of nominal_minute == 4)
    then record { five_minute = none; hourly = none }
    else if not (nominal_minute % 3600000 / 60000 == 59)
    then record { five_minute = some f; hourly = none }
    else record { five_minute = some f; hourly = some h }

closed_of-IsClosed :
    (nominal_minute : ℕ) (current : ExecutedCheck) (block : List (Option ExecutedCheck))
    (previous : List StoredCheckRollup) (f h : CheckRollup)
    → IsRollup f
    → Counts empty_rollup f (some current ∷ block)
    → f.total_count ≡ readable block + 1
    → IsStored (stored_rollup f)
    → IsRollup h
    → CountsHour previous f h
    → h.total_count ≡ sum_totals previous + readable block + 1
    → IsStored (stored_rollup h)
    → IsClosed nominal_minute current block previous (closed_of nominal_minute f h)
unfolding closed_of
closed_of-IsClosed nominal_minute current block previous f h a k b c a' k' b' c' =
    elim (Bool-cases (slot_of nominal_minute == 4)) [
      | inr early ↦ rw early (IsClosed.block_open (λ e. ground arith))
      | inl last ↦ elim (Bool-cases (nominal_minute % 3600000 / 60000 == 59)) [
        | inr within ↦
            rw (last, within) (IsClosed.block_closed f (ground arith) (λ e. ground arith) a k b c)
        | inl hour ↦
            rw (last, hour)
              (IsClosed.hour_closed f h (ground arith) (ground arith) a k b c a' k' b' c')
      ]
    ]

-- For every minute the rollups are computed, with no refusal. The five-minute rollup is there
-- exactly in the last slot of the block and counts the readable results and the current one, each under
-- its own state and each latency with them; the hourly one is there exactly in the last minute of an hour
-- and counts, state by state, the rows of the hour and that block. In both the states' counts add up to the
-- total, and the average latency that is stored is within the maximum, if so it is in the rows of the hour.
pub prepare_closed_rollups_sound :
    (nominal_minute : ℕ) (current : ExecutedCheck) (block : List (Option ExecutedCheck))
    (previous : List StoredCheckRollup)
    → All IsStored previous
    → (closed : ClosedRollups) × (prepare_closed_rollups nominal_minute current block previous
        ≡ ok closed)
      × IsClosed nominal_minute current block previous closed
unfolding prepare_closed_rollups
prepare_closed_rollups_sound nominal_minute current block previous stored =
    let f = add_result (add_results empty_rollup block) current in
    let h = add_stored_rollup (add_stored_rollups empty_rollup previous) (stored_rollup f) in
    let f-IsRollup =
      add_result-IsRollup _ current (add_results-IsRollup empty_rollup block empty-IsRollup) in
    let f-IsStored = stored_rollup-IsStored f f-IsRollup in
    let h-IsRollup =
      add_stored_rollup-IsRollup _ _
        (add_stored_rollups-IsRollup empty_rollup previous empty-IsRollup stored) f-IsStored in
    let f-total : f.total_count ≡ readable block + 1 = omega (
      arith,
      add_result-total (add_results empty_rollup block) current,
      add_results-total empty_rollup block,
    ) in
    let h-total : h.total_count ≡ sum_totals previous + readable block + 1 = omega (
      arith,
      add_stored_rollup-total (add_stored_rollups empty_rollup previous) (stored_rollup f),
      add_stored_rollups-total empty_rollup previous,
      stored_rollup-total f,
    ) in
    (
      closed_of nominal_minute f h,
      rw ((report_slot_total nominal_minute).0) (unfold closed_of in refl),
      closed_of-IsClosed nominal_minute current block previous f h f-IsRollup
          (closing-Counts block current) f-total f-IsStored h-IsRollup
          (closing-CountsHour previous f) h-total (stored_rollup-IsStored h h-IsRollup),
    )
