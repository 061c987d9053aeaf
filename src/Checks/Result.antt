-- ===== src/Checks/Result.antt =====
-- The result types of workers/checks/src/types.ts and persistence.ts.
use alphaping.Prelude.{ℕ, Bool, true, false, Option, String}

-- ExecutedCheck["state"]
pub data ResultState : Type 0 where
  healthy degraded down : ResultState

pub record ExecutedCheck : Type 0 where
  pub state : ResultState
  pub latency_ms : Option ℕ
  pub failure_code : Option String
  pub failure_summary : Option String

-- CheckState of persistence.ts: a result's state, or unknown.
pub data CheckState : Type 0 where
  known : ResultState → CheckState
  unknown : CheckState

-- ServiceState of persistence.ts.
pub data ServiceState : Type 0 where
  checked : CheckState → ServiceState
  maintenance : ServiceState

abbrev pub is_healthy : ResultState → Bool
is_healthy healthy = true
is_healthy degraded = false
is_healthy down = false

abbrev pub is_degraded : ResultState → Bool
is_degraded healthy = false
is_degraded degraded = true
is_degraded down = false

abbrev pub is_down : ResultState → Bool
is_down healthy = false
is_down degraded = false
is_down down = true
