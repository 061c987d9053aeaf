-- ===== src/Checks/Rollups/Bounds.antt =====
-- Rollups of workers/checks/src/persistence.ts: the invariant of a rollup and of a stored row.
use native.Mathlib.Nat.{div-add-mod}
use native.Mathlib.Decide.{dec_lt}
use alphaping.Prelude.{
  ℕ, zero, suc, ◌+◌, ◌*◌, ◌≤◌, ◌<◌, ◌≡◌, refl, max, Option, none, some, List, [], ◌∷◌, All, arith,
  ◌==◌, if◌then◌else◌,
}
use alphaping.Checks.Result.{ExecutedCheck}
use alphaping.Checks.Rollups.{
  CheckRollup, StoredCheckRollup, empty_rollup, add_result, add_stored_rollup, round_div,
  stored_rollup, add_results, add_stored_rollups, add_latency, raise_max, add_average, add_max,
}

abbrev pub or_zero : Option ℕ → ℕ
or_zero none = 0
or_zero (some n) = n

-- Every result is counted under one state, latencies are no more than results, and their sum is
-- within their number of maxima.
pub record IsRollup (r : CheckRollup) : Type 0 where
  pub counted : r.total_count ≡ r.healthy_count + r.degraded_count + r.down_count
  pub covered : r.latency_count ≤ r.total_count
  pub bounded : r.latency_total_ms ≤ r.latency_count * or_zero r.latency_max_ms

-- A stored row: an average lies within the maximum.
pub record IsStored (s : StoredCheckRollup) : Type 0 where
  pub counted : s.total_count ≡ s.healthy_count + s.degraded_count + s.down_count
  pub averaged : or_zero s.latency_avg_ms ≤ or_zero s.latency_max_ms

mul_mono : (n a b : ℕ) → a ≤ b → n * a ≤ n * b
mul_mono n a b h = grind arith

mul_mono_left : (a b n : ℕ) → a ≤ b → a * n ≤ b * n
mul_mono_left a b n h = grind arith

round_div-le : (a b m : ℕ) → 0 < b → a ≤ b * m → round_div a b ≤ m
round_div-le a b m p h = elim (dec_lt m (round_div a b)) [
  | yes lt ↦ absurd (
      omega (
        arith,
        div-add-mod (2 * a + b) (2 * b),
        mul_mono (2 * b) (m + 1) (round_div a b) (omega arith),
      ))
  | no ge ↦ omega arith
]

max_bound : (t c l x : ℕ) → t ≤ c * x → (t + l ≤ (c + 1) * max x l)
max_bound t c l x h = omega (arith, mul_mono c x (max x l) (omega arith))

latency_bound :
    (t c l : ℕ) (m : Option ℕ) → t ≤ c * or_zero m → t + l ≤ (c + 1) * or_zero (raise_max m l)
latency_bound t c l none h = max_bound t c l 0 h
latency_bound t c l (some x) h = max_bound t c l x h

average_bound : (t c n a x y : ℕ) → t ≤ c * x → a ≤ y → t + a * n ≤ (c + n) * max x y
average_bound t c n a x y h k =
    omega (arith, mul_mono c x (max x y) (omega arith), mul_mono n a (max x y) (omega arith))

higher_bound : (t c x y : ℕ) → t ≤ c * x → t ≤ c * max x y
higher_bound t c x y h = omega (arith, mul_mono c x (max x y) (omega arith))

or_zero-raise_max : (m : Option ℕ) (y : ℕ) → or_zero (raise_max m y) ≡ max (or_zero m) y
or_zero-raise_max none y = refl
or_zero-raise_max (some x) y = refl

abbrev IsBounded : CheckRollup → Type 0
IsBounded r = r.latency_total_ms ≤ r.latency_count * or_zero r.latency_max_ms

add_latency-IsBounded : (l : Option ℕ) (r : CheckRollup) → IsBounded r → IsBounded (add_latency l r)
add_latency-IsBounded none r h = h
add_latency-IsBounded (some l) r h =
    latency_bound r.latency_total_ms r.latency_count l r.latency_max_ms h

add_average-IsBounded :
    (a y : Option ℕ) (n : ℕ) (r : CheckRollup)
    → IsBounded r
    → or_zero a ≤ or_zero y
    → IsBounded (add_max y (add_average a n r))
add_average-IsBounded none none n r h e = h
add_average-IsBounded none (some y) n r h e =
    rw (or_zero-raise_max r.latency_max_ms y)
      (higher_bound r.latency_total_ms r.latency_count (or_zero r.latency_max_ms) y h)
add_average-IsBounded (some a) none n r h e =
    let c : ℕ = r.latency_count in
    let nothing : a ≡ 0 = omega arith in
    rw nothing (omega (arith, h, mul_mono_left c (c + n) (or_zero r.latency_max_ms) (omega arith)))
add_average-IsBounded (some a) (some y) n r h e =
    rw (or_zero-raise_max r.latency_max_ms y)
      (average_bound r.latency_total_ms r.latency_count n a (or_zero r.latency_max_ms) y h e)

pub add_result-IsRollup :
    (r : CheckRollup) (result : ExecutedCheck) → IsRollup r → IsRollup (add_result r result)
unfolding add_result
add_result-IsRollup r result h = record {
  counted = ground arith;
  covered = ground arith;
  bounded = add_latency-IsBounded result.latency_ms _ h.bounded;
}

pub add_stored_rollup-IsRollup :
    (r : CheckRollup) (s : StoredCheckRollup)
    → IsRollup r
    → IsStored s
    → IsRollup (add_stored_rollup r s)
unfolding add_stored_rollup
add_stored_rollup-IsRollup r s h k = record {
  counted = ground arith;
  covered = ground arith;
  bounded =
      add_average-IsBounded s.latency_avg_ms s.latency_max_ms s.total_count _ h.bounded k.averaged;
}

pub stored_rollup-IsStored : (r : CheckRollup) → IsRollup r → IsStored (stored_rollup r)
unfolding stored_rollup
stored_rollup-IsStored r h = record {
  counted = h.counted;
  averaged = average r.latency_count r.latency_max_ms h.bounded;
}
  where
    average :
        (c : ℕ) (m : Option ℕ)
        → r.latency_total_ms ≤ c * or_zero m
        → or_zero (if c == 0 then none else some (round_div r.latency_total_ms c)) ≤ or_zero m
    average zero m b = omega arith
    average (suc c) m b =
        ground (arith, round_div-le r.latency_total_ms (suc c) (or_zero m) (omega arith) b)

pub add_results-IsRollup :
    (r : CheckRollup) (results : List (Option ExecutedCheck))
    → IsRollup r
    → IsRollup (add_results r results)
unfolding add_results
add_results-IsRollup r [] h = h
add_results-IsRollup r (none ∷ results) h = add_results-IsRollup r results h
add_results-IsRollup r (some result ∷ results) h =
    add_results-IsRollup (add_result r result) results (add_result-IsRollup r result h)

pub add_stored_rollups-IsRollup :
    (r : CheckRollup) (rows : List StoredCheckRollup)
    → IsRollup r
    → All IsStored rows
    → IsRollup (add_stored_rollups r rows)
unfolding add_stored_rollups
add_stored_rollups-IsRollup r [] h k = h
add_stored_rollups-IsRollup r (s ∷ rows) h k =
    add_stored_rollups-IsRollup (add_stored_rollup r s) rows (add_stored_rollup-IsRollup r s h k.0)
      k.1

pub empty-IsRollup : IsRollup empty_rollup
empty-IsRollup = omega arith
