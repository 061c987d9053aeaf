-- ===== src/Checks/Rollups/Merge.antt =====
-- Merging the status bucket of a result into the one that is stored.
use alphaping.Prelude.{ℕ, ◌≡◌, ◌≢◌, refl, max, min, Option, none, some, arith}
use alphaping.Checks.Result.{
  healthy, degraded, down, known, unknown, ServiceState, checked, maintenance,
}
use alphaping.Checks.ServiceState.{service_reason}
use alphaping.Checks.Rollups.{
  CheckRollup, StatusBucket, status_bucket, merged_state, merged_latency, merge_bucket,
}

-- How bad a state is.
abbrev pub severity : ServiceState → ℕ
severity maintenance = 4
severity (checked (known down)) = 3
severity (checked (known degraded)) = 2
severity (checked (known healthy)) = 1
severity (checked unknown) = 0

abbrev pub or_zero : Option ℕ → ℕ
or_zero none = 0
or_zero (some n) = n

merged_state-severity :
    (a b : ServiceState) → severity (merged_state a b) ≡ max (severity a) (severity b)
unfolding merged_state
merged_state-severity a b = ground arith

merged_latency-or_zero :
    (a b : Option ℕ) → or_zero (merged_latency a b) ≡ max (or_zero a) (or_zero b)
merged_latency-or_zero a b = ground arith

-- A bucket whose text is that of its state, as every bucket that is written.
abbrev pub IsNamed : StatusBucket → Type 0
IsNamed bucket = bucket.summary_code ≡ service_reason bucket.state

-- A merged bucket has the text of its state, if the new bucket has, and a state that is not unknown.
pub merged_summary-IsNamed :
    (stored excluded : StatusBucket)
    → IsNamed excluded
    → excluded.state ≢ checked unknown
    → IsNamed (merge_bucket stored excluded)
unfolding merge_bucket
merged_summary-IsNamed stored excluded n k = ground arith

-- The merged bucket has the worse of the two states, the lower availability and the higher of each
-- latency.
merge_bucket_worst :
    (stored excluded : StatusBucket)
    → let merged = merge_bucket stored excluded in
      (severity merged.state ≡ max (severity stored.state) (severity excluded.state))
      × (merged.availability_permille
          ≡ min stored.availability_permille excluded.availability_permille)
      × (or_zero merged.latency_avg_ms
          ≡ max (or_zero stored.latency_avg_ms) (or_zero excluded.latency_avg_ms))
      × (or_zero merged.latency_max_ms
          ≡ max (or_zero stored.latency_max_ms) (or_zero excluded.latency_max_ms))
merge_bucket_worst stored excluded = (
  unfold merge_bucket in merged_state-severity stored.state excluded.state,
  unfold merge_bucket in refl,
  unfold merge_bucket in merged_latency-or_zero stored.latency_avg_ms excluded.latency_avg_ms,
  unfold merge_bucket in merged_latency-or_zero stored.latency_max_ms excluded.latency_max_ms,
)

-- Writing the bucket of a rollup a second time changes nothing.
merge_bucket_idempotent :
    (maintenance_until : Option ℕ) (critical nominal_minute : ℕ) (rollup : CheckRollup)
    → let bucket = status_bucket maintenance_until critical nominal_minute rollup in
      merge_bucket bucket bucket ≡ bucket
merge_bucket_idempotent maintenance_until critical nominal_minute rollup =
    again (status_bucket maintenance_until critical nominal_minute rollup)
      (unfold status_bucket in refl)
  where
    again : (bucket : StatusBucket) → IsNamed bucket → merge_bucket bucket bucket ≡ bucket
    again bucket n = unfold merge_bucket in ground arith
