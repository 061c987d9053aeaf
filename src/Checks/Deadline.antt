-- ===== src/Checks/Deadline.antt =====
-- The test of `runChecks` in workers/checks/src/index.ts: whether a batch can be started.
use mathlib.Core.List.{Memᴰ}
use alphaping.Prelude.{ℕ, ◌+◌, ◌*◌, ◌≤◌, ◌≡◌, Bool, true, leb, max, arith, List, [], ◌∷◌}

abbrev pub retry_delay_ms : ℕ
retry_delay_ms = 100

-- The fields of CheckConfigRow that the test reads, and the key.
pub record CheckTiming : Type 0 where
  pub telemetry_pk : ℕ
  pub timeout_ms : ℕ
  pub retry_count : ℕ

unfoldable pub longest_run : CheckTiming → ℕ
longest_run row = row.timeout_ms * (row.retry_count + 1) + row.retry_count * retry_delay_ms

-- `batch.reduce((maximum, row) => Math.max(maximum, …), 0)`; the maximum is kept on the way.
unfoldable pub maximum_duration : ℕ → List CheckTiming → ℕ
maximum_duration maximum [] = maximum
maximum_duration maximum (row ∷ batch) = maximum_duration (max maximum (longest_run row)) batch

unfoldable pub can_start : ℕ → ℕ → List CheckTiming → Bool
unfolding maximum_duration
can_start deadline now batch = leb (now + maximum_duration 0 batch) deadline

maximum-le : (maximum : ℕ) (batch : List CheckTiming) → maximum ≤ maximum_duration maximum batch
unfolding maximum_duration
maximum-le maximum [] = omega arith
maximum-le maximum (row ∷ batch) = omega (arith, maximum-le (max maximum (longest_run row)) batch)

member-le :
    (maximum : ℕ) (batch : List CheckTiming) (row : CheckTiming)
    → Memᴰ row batch
    → longest_run row ≤ maximum_duration maximum batch
unfolding maximum_duration
member-le maximum [] row m = elim m [ ]
member-le maximum (first ∷ batch) row (Memᴰ.head e) =
    rw e (omega (arith, maximum-le (max maximum (longest_run first)) batch))
member-le maximum (first ∷ batch) row (Memᴰ.tail m) =
    member-le (max maximum (longest_run first)) batch row m

-- A check of a batch that may start, run as often as its retries allow, each time to its timeout and
-- with the delay between the attempts, ends by the deadline.
can_start-longest_run :
    (deadline now : ℕ) (batch : List CheckTiming) (row : CheckTiming)
    → can_start deadline now batch ≡ true
    → Memᴰ row batch
    → now + longest_run row ≤ deadline
unfolding can_start
can_start-longest_run deadline now batch row e m =
    let bound = member-le 0 batch row m in ground arith
