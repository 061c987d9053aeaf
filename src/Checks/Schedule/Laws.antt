-- ===== src/Checks/Schedule/Laws.antt =====
-- When a check is due.
use alphaping.Prelude.{ℕ, ◌+◌, ◌-◌, ◌*◌, ◌/◌, ◌≤◌, ◌<◌, ◌≡◌, ◌↔◌, refl, ap, true, arith}
use native.Mathlib.Nat.{div-add-mod, mod-lt}
use native.Mathlib.Decide.{dec_lt}
use alphaping.Prelude.Int.{ℤ, pos}
use alphaping.Checks.Schedule.{due_slot, is_due, sql_is_due}

-- From the phase on the slot is the last multiple of the interval behind the phase.
due_slot_pos :
    (now_ms interval phase : ℕ)
    → phase ≤ now_ms / 1000
    → due_slot now_ms interval phase ≡ pos ((now_ms / 1000 - phase) / interval * interval + phase)
unfolding due_slot
due_slot_pos now_ms interval phase h = ground arith

-- The slot is the start of the running interval: not after the present second, and less than an
-- interval before it.
due_slot_window :
    (now_ms interval phase : ℕ)
    → 0 < interval
    → phase ≤ now_ms / 1000
    → (slot : ℕ) × (due_slot now_ms interval phase ≡ pos slot)
      × (slot ≤ now_ms / 1000)
      × (now_ms / 1000 < slot + interval)
      × ((k : ℕ) × (slot ≡ k * interval + phase))
due_slot_window now_ms interval phase pos_interval h =
    let k : ℕ = (now_ms / 1000 - phase) / interval in
    let split = div-add-mod (now_ms / 1000 - phase) interval in
    (
      k * interval + phase,
      due_slot_pos now_ms interval phase h,
      omega (arith, split, h),
      omega (arith, split, h, mod-lt (now_ms / 1000 - phase) pos_interval),
      (k, refl),
    )

mul_step : (p q i : ℕ) → p * i < q * i → p * i + i ≤ q * i
mul_step p q i h = elim (dec_lt p q) [
  | yes lt ↦
      let e : q ≡ p + 1 + (q - (p + 1)) = omega arith in omega (arith, ap (λ (t : ℕ). t * i) e)
  | no ge ↦ let e : p ≡ q + (p - q) = omega arith in absurd (omega (arith, ap (λ (t : ℕ). t * i) e))
]

-- A multiple below the quotient of `b` is one whose successor does not pass `b`.
quotient_step :
    (p b i : ℕ) → 0 < i → (p * i < b / i * i → p * i + i ≤ b) × (p * i + i ≤ b → p * i < b / i * i)
quotient_step p b i h = (
  λ e. omega (arith, mul_step p (b / i) i e, div-add-mod b i),
  λ e. omega (arith, div-add-mod b i, mod-lt b h),
)

is_due_pos :
    (now_ms interval phase last : ℕ)
    → phase ≤ now_ms / 1000
    → (is_due now_ms interval phase (pos last) ≡ true)
      ↔ (last < (now_ms / 1000 - phase) / interval * interval + phase)
unfolding is_due
is_due_pos now_ms interval phase last h = ground (arith, due_slot_pos now_ms interval phase h)

-- Once the slot of a time is claimed, the check is due again exactly when the next slot begins.
pub is_due_after_claim :
    (claimed_ms now_ms interval phase : ℕ)
    → 0 < interval
    → phase ≤ claimed_ms / 1000
    → claimed_ms ≤ now_ms
    → (slot : ℕ) × (due_slot claimed_ms interval phase ≡ pos slot)
      × ((is_due now_ms interval phase (pos slot) ≡ true) ↔ (slot + interval ≤ now_ms / 1000))
is_due_after_claim claimed_ms now_ms interval phase pos_interval h later =
    let a : ℕ = claimed_ms / 1000 - phase in
    let b : ℕ = now_ms / 1000 - phase in
    let behind : phase ≤ now_ms / 1000 = omega arith in
    let due = is_due_pos now_ms interval phase (a / interval * interval + phase) behind in
    let (to, from) = quotient_step (a / interval) b interval pos_interval in
    (
      a / interval * interval + phase,
      due_slot_pos claimed_ms interval phase h,
      (
        (λ e. omega (arith, to (omega (arith, due.0 e)))),
        (λ e. due.1 (omega (arith, from (omega arith)))),
      ),
    )

-- The query and the function agree from the phase on.
sql_is_due-eq :
    (now_ms interval phase : ℕ) (last : ℤ)
    → phase ≤ now_ms / 1000
    → sql_is_due now_ms interval phase last ≡ is_due now_ms interval phase last
unfolding sql_is_due is_due due_slot
sql_is_due-eq now_ms interval phase last h = ground arith
