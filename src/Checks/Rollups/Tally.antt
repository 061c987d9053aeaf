-- ===== src/Checks/Rollups/Tally.antt =====
-- Rollups of workers/checks/src/persistence.ts: what is counted, state by state.
use alphaping.Prelude.{ℕ, ◌+◌, ◌≡◌, refl, Option, none, some, List, [], ◌∷◌, arith, length}
use alphaping.Checks.Result.{
  ResultState, healthy, degraded, down, ExecutedCheck, is_healthy, is_degraded, is_down,
}
use alphaping.Checks.Rollups.{
  CheckRollup, StoredCheckRollup, empty_rollup, add_result, add_stored_rollup, stored_rollup,
  add_results, add_stored_rollups, add_latency, bump,
}

-- How many of the readable results have a state, and their latencies.
abbrev pub one_of : ResultState → ResultState → ℕ
one_of healthy healthy = 1
one_of degraded degraded = 1
one_of down down = 1
one_of _ _ = 0

abbrev pub tally : ResultState → List (Option ExecutedCheck) → ℕ
tally state [] = 0
tally state (none ∷ results) = tally state results
tally state (some result ∷ results) = one_of state result.state + tally state results

abbrev pub latency_list : Option ℕ → List ℕ → List ℕ
latency_list none latencies = latencies
latency_list (some latency) latencies = latency ∷ latencies

abbrev pub latencies_of : List (Option ExecutedCheck) → List ℕ
latencies_of [] = []
latencies_of (none ∷ results) = latencies_of results
latencies_of (some result ∷ results) = latency_list result.latency_ms (latencies_of results)

abbrev pub sum_list : List ℕ → ℕ
sum_list [] = 0
sum_list (x ∷ xs) = x + sum_list xs

-- Past what is in a rollup, another counts each result under its own state, and each latency.
pub record Counts (before after : CheckRollup) (results : List (Option ExecutedCheck))
    : Type 0 where
  pub healthy_counted : after.healthy_count ≡ before.healthy_count + tally healthy results
  pub degraded_counted : after.degraded_count ≡ before.degraded_count + tally degraded results
  pub down_counted : after.down_count ≡ before.down_count + tally down results
  pub latencies_counted : after.latency_count ≡ before.latency_count + length (latencies_of results)
  pub latencies_added :
      after.latency_total_ms ≡ before.latency_total_ms + sum_list (latencies_of results)

abbrev pub sum_of : (StoredCheckRollup → ℕ) → List StoredCheckRollup → ℕ
sum_of count [] = 0
sum_of count (s ∷ rows) = count s + sum_of count rows

-- An hourly rollup counts the rows before the block and the block's own.
pub record CountsHour (previous : List StoredCheckRollup) (block hour : CheckRollup) : Type 0 where
  pub healthy_counted :
      hour.healthy_count ≡ sum_of (λ s. s.healthy_count) previous + block.healthy_count
  pub degraded_counted :
      hour.degraded_count ≡ sum_of (λ s. s.degraded_count) previous + block.degraded_count
  pub down_counted : hour.down_count ≡ sum_of (λ s. s.down_count) previous + block.down_count

bump-healthy : (state : ResultState) (n : ℕ) → bump (is_healthy state) n ≡ n + one_of healthy state
bump-healthy healthy n = refl
bump-healthy degraded n = omega arith
bump-healthy down n = omega arith

bump-degraded :
    (state : ResultState) (n : ℕ) → bump (is_degraded state) n ≡ n + one_of degraded state
bump-degraded healthy n = omega arith
bump-degraded degraded n = refl
bump-degraded down n = omega arith

bump-down : (state : ResultState) (n : ℕ) → bump (is_down state) n ≡ n + one_of down state
bump-down healthy n = omega arith
bump-down degraded n = omega arith
bump-down down n = refl

add_latency-Counts :
    (l : Option ℕ) (r : CheckRollup)
    → ((add_latency l r).latency_count ≡ r.latency_count + length (latency_list l []))
      × ((add_latency l r).latency_total_ms ≡ r.latency_total_ms + sum_list (latency_list l []))
add_latency-Counts none r = (omega arith, omega arith)
add_latency-Counts (some l) r = (omega arith, omega arith)

add_latency-keeps :
    (l : Option ℕ) (r : CheckRollup)
    → ((add_latency l r).healthy_count ≡ r.healthy_count)
      × ((add_latency l r).degraded_count ≡ r.degraded_count)
      × ((add_latency l r).down_count ≡ r.down_count)
add_latency-keeps none r = (refl, refl, refl)
add_latency-keeps (some l) r = (refl, refl, refl)

add_result-Counts :
    (r : CheckRollup) (result : ExecutedCheck) → Counts r (add_result r result) (some result ∷ [])
unfolding add_result
add_result-Counts r result =
    let counted : CheckRollup = record r {
      total_count = r.total_count + 1;
      healthy_count = bump (is_healthy result.state) r.healthy_count;
      degraded_count = bump (is_degraded result.state) r.degraded_count;
      down_count = bump (is_down result.state) r.down_count;
    } in
    let (healthy_same, degraded_same, down_same) = add_latency-keeps result.latency_ms counted in
    let (count, total) = add_latency-Counts result.latency_ms counted in
    record {
      healthy_counted = omega (arith, healthy_same, bump-healthy result.state r.healthy_count);
      degraded_counted = omega (arith, degraded_same, bump-degraded result.state r.degraded_count);
      down_counted = omega (arith, down_same, bump-down result.state r.down_count);
      latencies_counted = count;
      latencies_added = total;
    }

latency_list-append :
    (l : Option ℕ) (xs : List ℕ)
    → (length (latency_list l xs) ≡ length (latency_list l []) + length xs)
      × (sum_list (latency_list l xs) ≡ sum_list (latency_list l []) + sum_list xs)
latency_list-append none xs = (omega arith, omega arith)
latency_list-append (some l) xs = (omega arith, omega arith)

add_results-Counts :
    (r : CheckRollup) (results : List (Option ExecutedCheck))
    → Counts r (add_results r results) results
unfolding add_results
add_results-Counts r [] = omega arith
add_results-Counts r (none ∷ results) =
    let rest = add_results-Counts r results in
    record {
      healthy_counted = rest.healthy_counted;
      degraded_counted = rest.degraded_counted;
      down_counted = rest.down_counted;
      latencies_counted = rest.latencies_counted;
      latencies_added = rest.latencies_added;
    }
add_results-Counts r (some result ∷ results) =
    let first = add_result-Counts r result in
    let rest = add_results-Counts (add_result r result) results in
    let (count, total) = latency_list-append result.latency_ms (latencies_of results) in
    let a = first.healthy_counted in
    let a' = rest.healthy_counted in
    let b = first.degraded_counted in
    let b' = rest.degraded_counted in
    let c = first.down_counted in
    let c' = rest.down_counted in
    let d = first.latencies_counted in
    let d' = rest.latencies_counted in
    let e = first.latencies_added in
    let e' = rest.latencies_added in
    record {
      healthy_counted = omega (arith, a, a');
      degraded_counted = omega (arith, b, b');
      down_counted = omega (arith, c, c');
      latencies_counted = omega (arith, d, d', count);
      latencies_added = omega (arith, e, e', total);
    }

pub closing-Counts :
    (block : List (Option ExecutedCheck)) (current : ExecutedCheck)
    → Counts empty_rollup
        (add_result (add_results empty_rollup block) current)
        (some current ∷ block)
closing-Counts block current =
    let first = add_results-Counts empty_rollup block in
    let last = add_result-Counts (add_results empty_rollup block) current in
    let (count, total) = latency_list-append current.latency_ms (latencies_of block) in
    let a = first.healthy_counted in
    let a' = last.healthy_counted in
    let b = first.degraded_counted in
    let b' = last.degraded_counted in
    let c = first.down_counted in
    let c' = last.down_counted in
    let d = first.latencies_counted in
    let d' = last.latencies_counted in
    let e = first.latencies_added in
    let e' = last.latencies_added in
    record {
      healthy_counted = omega (arith, a, a');
      degraded_counted = omega (arith, b, b');
      down_counted = omega (arith, c, c');
      latencies_counted = omega (arith, d, d', count);
      latencies_added = omega (arith, e, e', total);
    }

add_stored_rollup-states :
    (r : CheckRollup) (s : StoredCheckRollup)
    → ((add_stored_rollup r s).healthy_count ≡ r.healthy_count + s.healthy_count)
      × ((add_stored_rollup r s).degraded_count ≡ r.degraded_count + s.degraded_count)
      × ((add_stored_rollup r s).down_count ≡ r.down_count + s.down_count)
unfolding add_stored_rollup
add_stored_rollup-states r s = (ground arith, ground arith, ground arith)

add_stored_rollups-states :
    (r : CheckRollup) (rows : List StoredCheckRollup)
    → ((add_stored_rollups r rows).healthy_count
        ≡ r.healthy_count + sum_of (λ s. s.healthy_count) rows)
      × ((add_stored_rollups r rows).degraded_count
          ≡ r.degraded_count + sum_of (λ s. s.degraded_count) rows)
      × ((add_stored_rollups r rows).down_count ≡ r.down_count + sum_of (λ s. s.down_count) rows)
unfolding add_stored_rollups
add_stored_rollups-states r [] = (omega arith, omega arith, omega arith)
add_stored_rollups-states r (s ∷ rows) =
    let (a, b, c) = add_stored_rollup-states r s in
    let (a', b', c') = add_stored_rollups-states (add_stored_rollup r s) rows in
    (omega (arith, a, a'), omega (arith, b, b'), omega (arith, c, c'))

pub closing-CountsHour :
    (previous : List StoredCheckRollup) (f : CheckRollup)
    → CountsHour previous f
        (add_stored_rollup (add_stored_rollups empty_rollup previous) (stored_rollup f))
unfolding stored_rollup
closing-CountsHour previous f =
    let (a, b, c) = add_stored_rollups-states empty_rollup previous in
    let (a', b', c') =
      add_stored_rollup-states (add_stored_rollups empty_rollup previous) (stored_rollup f) in
    record {
      healthy_counted = omega (arith, a, a');
      degraded_counted = omega (arith, b, b');
      down_counted = omega (arith, c, c');
    }
