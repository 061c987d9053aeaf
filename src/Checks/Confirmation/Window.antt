-- ===== src/Checks/Confirmation/Window.antt =====
-- The hysteresis of the confirmation window over runs of results.
use alphaping.Prelude.{
  ◌+◌, ◌≤◌, ◌<◌, ◌≡◌, ◌≢◌, ◌∙◌, ◌⊎◌, inl, inr, refl, true, false, String, List, [], ◌∷◌, All, arith,
  length, Bool-cases,
}
use native.Mathlib.Decide.{dec_lt}
use alphaping.Checks.Result.{healthy, degraded, down, ExecutedCheck, CheckState, known, unknown}
use alphaping.Checks.Confirmation.{
  ConfirmationState, WindowConfig, next_state, apply_results, has_failed,
}

abbrev pub IsFailure : ExecutedCheck → Type 0
IsFailure result = result.state ≢ healthy

abbrev pub IsSuccess : ExecutedCheck → Type 0
IsSuccess result = result.state ≡ healthy

module _ (clip : String → String) (config : WindowConfig) where
  next : ConfirmationState → ExecutedCheck → ConfirmationState
  unfolding next_state
  next = next_state clip config

  -- A failing result adds to the failures, clears the successes, and moves a state that is not a
  -- failure only with enough failures.
  next-failure :
      (previous : ConfirmationState) (result : ExecutedCheck)
      → IsFailure result
      → ((next previous result).consecutive_failures ≡ previous.consecutive_failures + 1)
        × ((next previous result).consecutive_successes ≡ 0)
        × (has_failed previous.state ≡ false
            → previous.consecutive_failures + 1 < config.failure_confirmations
            → (next previous result).state ≡ previous.state)
        × ((has_failed previous.state ≡ true)
              ⊎ (config.failure_confirmations ≤ previous.consecutive_failures + 1)
            → has_failed (next previous result).state ≡ true)
        × (previous.state ≡ known down → (next previous result).state ≡ known down)
  unfolding next
  next-failure previous result fails =
      (ground arith, ground arith, (λ f lt. ground arith), failed, (λ d. ground arith))
    where
      failed :
          (has_failed previous.state ≡ true)
            ⊎ (config.failure_confirmations ≤ previous.consecutive_failures + 1)
          → has_failed (next previous result).state ≡ true
      failed (inl before) = ground arith
      failed (inr enough) = ground arith

  -- The same for a healthy result and the recovery.
  next-success :
      (previous : ConfirmationState) (result : ExecutedCheck)
      → IsSuccess result
      → ((next previous result).consecutive_successes ≡ previous.consecutive_successes + 1)
        × ((next previous result).consecutive_failures ≡ 0)
        × (previous.state ≢ known healthy
            → previous.consecutive_successes + 1 < config.recovery_confirmations
            → (next previous result).state ≡ previous.state)
        × ((previous.state ≡ known healthy)
              ⊎ (config.recovery_confirmations ≤ previous.consecutive_successes + 1)
            → (next previous result).state ≡ known healthy)
  unfolding next
  next-success previous result succeeds =
      (ground arith, ground arith, (λ f lt. ground arith), healed)
    where
      healed :
          (previous.state ≡ known healthy)
            ⊎ (config.recovery_confirmations ≤ previous.consecutive_successes + 1)
          → (next previous result).state ≡ known healthy
      healed (inl before) = ground arith
      healed (inr enough) = ground arith

dec_healthy : (state : CheckState) → Dec (state ≡ known healthy)
dec_healthy (known healthy) = yes refl
dec_healthy (known degraded) = no (λ e. cc)
dec_healthy (known down) = no (λ e. cc)
dec_healthy unknown = no (λ e. cc)

-- Runs of results, from any stored state.
module _ (clip : String → String) (config : WindowConfig) where
  run-failures-below :
      (previous : ConfirmationState) (results : List ExecutedCheck)
      → All IsFailure results
      → has_failed previous.state ≡ false
      → previous.consecutive_failures + length results < config.failure_confirmations
      → (apply_results clip config previous results).state ≡ previous.state
  unfolding apply_results next
  run-failures-below previous [] a f lt = refl
  run-failures-below previous (r ∷ results) a f lt =
      let step = next-failure clip config previous r a.0 in
      let same = step.2 f (omega arith) in
      let next = next_state clip config previous r in
      let same_failed : has_failed next.state ≡ false = rw same f in
      run-failures-below next results a.1 same_failed (omega (arith, step.0)) ∙ same

  run-failures-enough :
      (previous : ConfirmationState) (results : List ExecutedCheck)
      → All IsFailure results
      → (has_failed previous.state ≡ true)
        ⊎ ((0 < length results)
            × (config.failure_confirmations ≤ previous.consecutive_failures + length results))
      → has_failed (apply_results clip config previous results).state ≡ true
  unfolding apply_results next
  run-failures-enough previous [] a (inl failed) = failed
  run-failures-enough previous [] a (inr some_there) = absurd (omega (arith, some_there))
  run-failures-enough previous (r ∷ results) a h =
      let step = next-failure clip config previous r a.0 in
      let next = next_state clip config previous r in
      run-failures-enough next results a.1 (elim (Bool-cases (has_failed next.state)) [
        | inl failed ↦ inl failed
        | inr healthy_still ↦ inr (elim h [
          | inl failed ↦ absurd (cc (step.3 (inl failed)))
          | inr enough ↦
              elim (dec_lt (previous.consecutive_failures + 1) config.failure_confirmations) [
                | yes lt ↦ omega (arith, step.0, enough)
                | no ge ↦ absurd (cc (step.3 (inr (omega arith))))
              ]
        ])
      ])

  run-successes-below :
      (previous : ConfirmationState) (results : List ExecutedCheck)
      → All IsSuccess results
      → previous.state ≢ known healthy
      → previous.consecutive_successes + length results < config.recovery_confirmations
      → (apply_results clip config previous results).state ≡ previous.state
  unfolding apply_results next
  run-successes-below previous [] a f lt = refl
  run-successes-below previous (r ∷ results) a f lt =
      let step = next-success clip config previous r a.0 in
      let same = step.2 f (omega arith) in
      let next = next_state clip config previous r in
      run-successes-below next results a.1 (rw same f) (omega (arith, step.0)) ∙ same

  run-successes-enough :
      (previous : ConfirmationState) (results : List ExecutedCheck)
      → All IsSuccess results
      → (previous.state ≡ known healthy)
        ⊎ ((0 < length results)
            × (config.recovery_confirmations ≤ previous.consecutive_successes + length results))
      → (apply_results clip config previous results).state ≡ known healthy
  unfolding apply_results next
  run-successes-enough previous [] a (inl well) = well
  run-successes-enough previous [] a (inr some_there) = absurd (omega (arith, some_there))
  run-successes-enough previous (r ∷ results) a h =
      let step = next-success clip config previous r a.0 in
      let next = next_state clip config previous r in
      run-successes-enough next results a.1 (elim (dec_healthy next.state) [
        | yes well ↦ inl well
        | no ill ↦ inr (elim h [
          | inl well ↦ absurd (ill (step.3 (inl well)))
          | inr enough ↦
              elim (dec_lt (previous.consecutive_successes + 1) config.recovery_confirmations) [
                | yes lt ↦ omega (arith, step.0, enough)
                | no ge ↦ absurd (ill (step.3 (inr (omega arith))))
              ]
        ])
      ])

-- A check that is healthy, with no failure counted, stays healthy over a run of failing results that
-- is shorter than the failure window, and is down or degraded after one as long as the window or
-- longer.
pub apply_results-failing :
    (clip : String → String) (config : WindowConfig) (previous : ConfirmationState)
    (results : List ExecutedCheck)
    → 0 < length results
    → previous.state ≡ known healthy
    → previous.consecutive_failures ≡ 0
    → All IsFailure results
    → ((length results < config.failure_confirmations)
        × ((apply_results clip config previous results).state ≡ known healthy))
      ⊎ ((config.failure_confirmations ≤ length results)
          × (has_failed (apply_results clip config previous results).state ≡ true))
apply_results-failing clip config previous results some_there well fresh fail =
    elim (dec_lt (length results) config.failure_confirmations) [
      | yes short ↦ inl (
        short,
        run-failures-below clip config previous results fail (rw well) (omega arith) ∙ well,
      )
      | no long ↦ inr (
        omega arith,
        run-failures-enough clip config previous results fail (inr (some_there, omega arith)),
      )
    ]

-- A check that is not healthy, with no success counted, keeps its state over a run of healthy results
-- that is shorter than the recovery window, and is healthy after one as long as the window or longer.
pub apply_results-recovering :
    (clip : String → String) (config : WindowConfig) (previous : ConfirmationState)
    (results : List ExecutedCheck)
    → 0 < length results
    → previous.state ≢ known healthy
    → previous.consecutive_successes ≡ 0
    → All IsSuccess results
    → ((length results < config.recovery_confirmations)
        × ((apply_results clip config previous results).state ≡ previous.state))
      ⊎ ((config.recovery_confirmations ≤ length results)
          × ((apply_results clip config previous results).state ≡ known healthy))
apply_results-recovering clip config previous results some_there ill fresh succeed =
    elim (dec_lt (length results) config.recovery_confirmations) [
      | yes short ↦
          inl (short, run-successes-below clip config previous results succeed ill (omega arith))
      | no long ↦ inr (
        omega arith,
        run-successes-enough clip config previous results succeed (inr (some_there, omega arith)),
      )
    ]

-- A check that is down stays down, not degraded, over any run of results of which none is healthy.
apply_results-down :
    (clip : String → String) (config : WindowConfig) (previous : ConfirmationState)
    (results : List ExecutedCheck)
    → previous.state ≡ known down
    → All IsFailure results
    → (apply_results clip config previous results).state ≡ known down
unfolding apply_results next
apply_results-down clip config previous [] d a = d
apply_results-down clip config previous (r ∷ results) d a =
    let step = next-failure clip config previous r a.0 in
    apply_results-down clip config (next_state clip config previous r) results (step.4 d) a.1
