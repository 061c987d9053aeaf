-- ===== src/Contracts/Telemetry.antt =====
-- packages/contracts/src/telemetry.ts: minutes, five-minute blocks and the slot of a report in its
-- block. A timestamp is a natural number of milliseconds.
use alphaping.Prelude.{ℕ, ◌+◌, ◌-◌, ◌*◌, ◌/◌, ◌≤◌, ◌<◌, ◌≡◌, leb, ltb, ◌||◌, arith, if◌then◌else◌}
use alphaping.Prelude.Outcome.{Outcome, ok, throw}

abbrev pub reports_per_block : ℕ
reports_per_block = 5

-- REPORT_INTERVAL_SECONDS * REPORTS_PER_BLOCK * 1_000
abbrev pub block_interval_ms : ℕ
block_interval_ms = 60 * reports_per_block * 1000

unfoldable pub floor_to_minute : ℕ → ℕ
floor_to_minute timestamp_ms = timestamp_ms / 60000 * 60000

unfoldable pub floor_to_five_minute_block : ℕ → ℕ
floor_to_five_minute_block timestamp_ms = timestamp_ms / block_interval_ms * block_interval_ms

-- The first test is the source's `slot < 0`: the difference would be negative.
unfoldable pub report_slot : ℕ → Outcome ℕ
unfolding floor_to_minute floor_to_five_minute_block
report_slot timestamp_ms =
    let minute = floor_to_minute timestamp_ms in
    let block = floor_to_five_minute_block timestamp_ms in
    let slot = (minute - block) / 60000 in
    if ltb minute block || leb reports_per_block slot then throw "invalid report slot" else ok slot

-- The slot of a timestamp, as a plain quotient.
abbrev pub slot_of : ℕ → ℕ
slot_of timestamp_ms = timestamp_ms / 60000 - timestamp_ms / 300000 * 5

-- The slot is found for every timestamp: no report is refused. It is one of the five of the block,
-- the block and the slot together give back the minute, and the timestamp lies in that minute.
pub report_slot_total :
    (t : ℕ)
    → (report_slot t ≡ ok (slot_of t))
      × (slot_of t < reports_per_block)
      × (floor_to_five_minute_block t + slot_of t * 60000 ≡ floor_to_minute t)
      × (floor_to_minute t ≤ t)
      × (t < floor_to_minute t + 60000)
unfolding report_slot
report_slot_total t = (ground arith, omega arith, omega arith, omega arith, omega arith)
