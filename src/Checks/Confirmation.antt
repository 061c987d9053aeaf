-- ===== src/Checks/Confirmation.antt =====
-- applyConfirmationWindow of workers/checks/src/persistence.ts: a state changes only after enough
-- results in a row.
pub mod Window
use alphaping.Prelude.{
  ℕ, ◌+◌, Bool, true, false, Option, none, some, ◌&&◌, ◌||◌, leb, if◌then◌else◌, String, List, [],
  ◌∷◌,
}
use alphaping.Checks.Result.{
  ResultState, healthy, degraded, down, ExecutedCheck, CheckState, known, unknown,
}

pub record ConfirmationState : Type 0 where
  pub state : CheckState
  pub failure_code : Option String
  pub failure_summary : Option String
  pub consecutive_failures : ℕ
  pub consecutive_successes : ℕ

pub record ConfirmedResult : Type 0 where
  pub state : CheckState
  pub latency_ms : Option ℕ
  pub failure_code : Option String
  pub failure_summary : Option String
  pub consecutive_failures : ℕ
  pub consecutive_successes : ℕ

-- The two fields of CheckConfigRow that the window reads.
pub record WindowConfig : Type 0 where
  pub failure_confirmations : ℕ
  pub recovery_confirmations : ℕ

-- `value ?? other`
abbrev pub or_else {ℓ} : {A : Type ℓ} → Option A → A → A
or_else none other = other
or_else (some value) other = value

abbrev pub or_option {ℓ} : {A : Type ℓ} → Option A → Option A → Option A
or_option none other = other
or_option (some value) other = some value

abbrev pub is_known_healthy : CheckState → Bool
is_known_healthy (known healthy) = true
is_known_healthy _ = false

abbrev pub is_known_down : CheckState → Bool
is_known_down (known down) = true
is_known_down _ = false

abbrev pub has_failed : CheckState → Bool
has_failed (known down) = true
has_failed (known degraded) = true
has_failed _ = false

-- The branch for a healthy result; the first argument is `previous`.
unfoldable pub confirm_success :
    WindowConfig → Option ConfirmationState → ExecutedCheck → ConfirmedResult
confirm_success config none result = record {
  state = known healthy;
  latency_ms = result.latency_ms;
  failure_code = none;
  failure_summary = none;
  consecutive_failures = 0;
  consecutive_successes = 1;
}
confirm_success config (some previous) result =
    let successes = previous.consecutive_successes + 1 in
    let confirmed =
      is_known_healthy previous.state || leb config.recovery_confirmations successes in
    record {
      state = if confirmed then known healthy else previous.state;
      latency_ms = result.latency_ms;
      failure_code =
          if confirmed then none else some (or_else previous.failure_code "recovery_pending");
      failure_summary =
          if confirmed then none else some (or_else previous.failure_summary "recovery_pending");
      consecutive_failures = 0;
      consecutive_successes = successes;
    }

abbrev pub prior_failures : Option ConfirmationState → ℕ
prior_failures none = 0
prior_failures (some previous) = previous.consecutive_failures

abbrev pub prior_state : Option ConfirmationState → CheckState
prior_state none = unknown
prior_state (some previous) = previous.state

abbrev pub is_degraded_result : ResultState → Bool
is_degraded_result degraded = true
is_degraded_result _ = false

-- The branch for the other results.
unfoldable pub confirm_failure :
    WindowConfig → Option ConfirmationState → ExecutedCheck → ConfirmedResult
confirm_failure config previous result =
    let failures = prior_failures previous + 1 in
    let prior = prior_state previous in
    let confirmed = has_failed prior || leb config.failure_confirmations failures in
    record {
      state =
          if is_known_down prior && is_degraded_result result.state
          then known down
          else if confirmed
          then known result.state
          else prior;
      latency_ms = result.latency_ms;
      failure_code = if confirmed then result.failure_code else some "failure_pending";
      failure_summary =
          if confirmed
          then result.failure_summary
          else or_option result.failure_summary result.failure_code;
      consecutive_failures = failures;
      consecutive_successes = 0;
    }

abbrev pub window_branch :
    ResultState → WindowConfig → Option ConfirmationState → ExecutedCheck → ConfirmedResult
window_branch healthy = confirm_success
window_branch degraded = confirm_failure
window_branch down = confirm_failure

unfoldable pub apply_confirmation_window :
    WindowConfig → Option ConfirmationState → ExecutedCheck → ConfirmedResult
unfolding confirm_success confirm_failure
apply_confirmation_window config previous result = window_branch result.state config previous result

-- The columns of check_latest that the next result meets as `previous`. `clip` is
-- `summary.slice(0, 160)`.
abbrev pub stored_state : (String → String) → ConfirmedResult → ConfirmationState
stored_state clip confirmed = record {
  state = confirmed.state;
  failure_code = confirmed.failure_code;
  failure_summary = elim confirmed.failure_summary [ none ↦ none | some text ↦ some (clip text) ];
  consecutive_failures = confirmed.consecutive_failures;
  consecutive_successes = confirmed.consecutive_successes;
}

-- What the row holds after a result.
unfoldable pub next_state :
    (String → String) → WindowConfig → ConfirmationState → ExecutedCheck → ConfirmationState
unfolding apply_confirmation_window
next_state clip config previous result =
    stored_state clip (apply_confirmation_window config (some previous) result)

-- Results one after another, each stored before the next.
unfoldable pub apply_results :
    (String → String) → WindowConfig → ConfirmationState → List ExecutedCheck → ConfirmationState
apply_results clip config previous [] = previous
apply_results clip config previous (result ∷ results) =
    apply_results clip config (next_state clip config previous result) results
