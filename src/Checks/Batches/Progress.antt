-- ===== src/Checks/Batches/Progress.antt =====
-- What the progress of a run of batches reports, and how many attempts a check is given.
use alphaping.Prelude.{
  ℕ, zero, suc, ◌+◌, ◌≤◌, ◌≡◌, ◌⊎◌, inl, inr, refl, ap, ◌∙◌, Bool, true, false, none, List, arith,
  length, take, drop, Bool-cases,
}
use alphaping.Prelude.Outcome.{Outcome}
use alphaping.Checks.Result.{ExecutedCheck, is_down}
use alphaping.Checks.Batches.{
  CheckBatchProgress, max_concurrency, count_rejected, last_pk, retry_loop, execute_with_retries,
}

-- The counts are those of the candidates handled, a prefix; the rest waits because of the deadline.
pub record IsProgress {T : Type 0} (telemetry_pk : T → ℕ) (can_start : List T → Bool)
    (process : T → Bool) (candidates : List T) (progress : CheckBatchProgress) : Type 0 where
  pub within : progress.processed ≤ length candidates
  pub failed :
      progress.failed
      ≡ count_rejected telemetry_pk can_start process (take progress.processed candidates)
  pub cursor :
      progress.last_cursor
      ≡ last_pk telemetry_pk can_start process (take progress.processed candidates) none
  pub stop :
      ((progress.deadline_reached ≡ false) × (progress.processed ≡ length candidates))
      ⊎ ((progress.deadline_reached ≡ true)
          × (can_start (take max_concurrency (drop progress.processed candidates)) ≡ false))

-- `count` results from one on are down.
abbrev pub AreDown : (ℕ → ExecutedCheck) → ℕ → ℕ → Type 0
AreDown execute first zero = Unit
AreDown execute first (suc count) =
    (is_down (execute first).state ≡ true) × AreDown execute (first + 1) count

-- What a run of the retries tells: the result is that of the last attempt, the attempts before it
-- were down, and it is down only if no retry is left.
pub record IsLastAttempt (execute : ℕ → ExecutedCheck) (first left : ℕ) (run : ExecutedCheck × ℕ)
    : Type 0 where
  pub retries : ℕ
  pub at_most : retries ≤ left
  pub attempts : run.1 ≡ first + retries + 1
  pub last : run.0 ≡ execute (first + retries)
  pub retried : AreDown execute first retries
  pub exhausted : (is_down run.0.state ≡ false) ⊎ (retries ≡ left)

retry_loop-IsLastAttempt :
    (execute : ℕ → ExecutedCheck) (left first : ℕ)
    → IsLastAttempt execute first left (retry_loop execute left first (execute first))
unfolding retry_loop
retry_loop-IsLastAttempt execute zero first = record {
  retries = 0;
  at_most = omega arith;
  attempts = omega arith;
  last = ap execute (omega arith);
  retried = tt;
  exhausted = inr refl;
}
retry_loop-IsLastAttempt execute (suc left) first =
    elim (Bool-cases (is_down (execute first).state)) [
      | inl down ↦
          let ih = retry_loop-IsLastAttempt execute left (first + 1) in
          rw down (record {
            retries = suc ih.retries;
            at_most = omega (arith, ih.at_most);
            attempts = omega (arith, ih.attempts);
            last = ih.last ∙ ap execute (omega arith);
            retried = (down, ih.retried);
            exhausted = elim ih.exhausted [ inl up ↦ inl up | inr e ↦ inr (omega arith) ];
          })
      | inr up ↦ rw up (record {
        retries = 0;
        at_most = omega arith;
        attempts = omega arith;
        last = ap execute (omega arith);
        retried = tt;
        exhausted = inl up;
      })
    ]

-- A check is executed once and at most `retry_count` times more: the result is that of the last
-- attempt, every attempt before the last was down, and a result that is down has used all attempts.
pub execute_with_retries-IsLastAttempt :
    (execute : ℕ → ExecutedCheck) (retry_count : ℕ)
    → IsLastAttempt execute 0 retry_count (execute_with_retries execute retry_count)
unfolding execute_with_retries
execute_with_retries-IsLastAttempt execute retry_count =
    retry_loop-IsLastAttempt execute retry_count 0
