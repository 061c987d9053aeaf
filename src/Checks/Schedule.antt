-- ===== src/Checks/Schedule.antt =====
-- workers/checks/src/schedule.ts, and the test of the query of `loadDueChecks` in index.ts.
pub mod Laws
use alphaping.Prelude.{ℕ, ◌+◌, ◌-◌, ◌*◌, ◌/◌, Bool, leb, if◌then◌else◌}
use alphaping.Prelude.Int.{ℤ, pos, negsuc, sub_ℕ, ltb_ℤ}

-- `Math.floor(a / b)` where `a` may be negative: a quotient below zero is rounded away from it.
unfoldable pub floor_div : ℤ → ℕ → ℤ
floor_div (pos a) b = pos (a / b)
floor_div (negsuc a) b = negsuc (a / b)

-- `q * interval + phase`
abbrev pub scale : ℤ → ℕ → ℕ → ℤ
scale (pos q) interval phase = pos (q * interval + phase)
scale (negsuc q) interval phase = sub_ℕ phase ((q + 1) * interval)

unfoldable pub due_slot : ℕ → ℕ → ℕ → ℤ
unfolding floor_div
due_slot now_ms interval_seconds phase_seconds =
    let now_seconds = now_ms / 1000 in
    let shifted = sub_ℕ now_seconds phase_seconds in
    scale (floor_div shifted interval_seconds) interval_seconds phase_seconds

unfoldable pub is_due : ℕ → ℕ → ℕ → ℤ → Bool
is_due now_ms interval_seconds phase_seconds last_claimed_slot =
    ltb_ℤ last_claimed_slot (due_slot now_ms interval_seconds phase_seconds)

-- The quotient of SQLite, which `CAST (… AS INTEGER)` leaves as it is: rounded towards zero.
unfoldable pub sql_div : ℤ → ℕ → ℤ
sql_div (pos a) b = pos (a / b)
sql_div (negsuc a) b = sub_ℕ 0 ((a + 1) / b)

-- The WHERE condition on the slot.
unfoldable pub sql_is_due : ℕ → ℕ → ℕ → ℤ → Bool
unfolding sql_div
sql_is_due scheduled_at interval_seconds phase_seconds last_claimed_slot =
    let shifted = sub_ℕ (scheduled_at / 1000) phase_seconds in
    ltb_ℤ last_claimed_slot
      (scale (sql_div shifted interval_seconds) interval_seconds phase_seconds)
