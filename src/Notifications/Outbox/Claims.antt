-- ===== src/Notifications/Outbox/Claims.antt =====
-- Rows of the outbox under any interleaving of the claims and ends of deliveries.
use alphaping.Prelude.{
  ℕ, zero, suc, ◌+◌, ◌-◌, ◌^◌, ◌≤◌, ◌<◌, ◌≡◌, ◌≢◌, ◌⊎◌, inl, inr, refl, true, false, not, Option,
  none, some, ◌||◌, leb, if◌then◌else◌, min, List, [], ◌∷◌, arith, All, Bool-cases, String,
}
use alphaping.Prelude.Outcome.{Outcome}
use alphaping.Notifications.Outbox.{
  claim_ms, max_attempts, pending, delivering, sent, dead, DeliveryRow, DeliveryResult, ChannelRow,
  DeliveryOutcome, delivered, failed, skipped, retry_delay_ms, is_claimable, claim_delivery,
  has_token, finish_delivery, delivery_result, deliver_one,
}
use alphaping.Notifications.Outbox.Answers.{Gives, delivery_result-Gives}

pow_pos : (n : ℕ) → 1 ≤ 2 ^ n
pow_pos zero = omega arith
pow_pos (suc n) = omega (arith, pow_pos n)

pow_mono : (m n : ℕ) → m ≤ n → 2 ^ m ≤ 2 ^ n
pow_mono zero n h = pow_pos n
pow_mono (suc m) zero h = absurd (omega arith)
pow_mono (suc m) (suc n) h = omega (arith, pow_mono m n (omega arith))

-- A retry waits for a minute at least and an hour at most, and for a later attempt no shorter.
retry_delay_ms_bounds :
    (attempt later : ℕ)
    → attempt ≤ later
    → (60000 ≤ retry_delay_ms attempt)
      × (retry_delay_ms attempt ≤ retry_delay_ms later)
      × (retry_delay_ms later ≤ 3600000)
unfolding retry_delay_ms
retry_delay_ms_bounds attempt later h =
    let grows : 2 ^ (attempt - 1) ≤ 2 ^ (later - 1) =
      pow_mono (attempt - 1) (later - 1) (omega arith) in
    let one = pow_pos (attempt - 1) in (omega arith, omega arith, omega arith)

-- What the runs of the worker do to a row: a claim with a fresh token, or the end of a delivery.
pub data Event : Type 0 where
  claim : ℕ → ℕ → Event
  finish : ℕ → ℕ → DeliveryResult → ℕ → Event

abbrev count_granted : Option ℕ → ℕ
count_granted none = 0
count_granted (some attempts) = 1

-- The row behind the event, and the number of claims granted.
abbrev pub apply_event : DeliveryRow → Event → DeliveryRow × ℕ
apply_event row (claim token now) =
    ((claim_delivery row token now).0, count_granted (claim_delivery row token now).1)
apply_event row (finish token attempts result now) =
    (finish_delivery row token attempts result now, 0)

abbrev pub apply_events : DeliveryRow → List Event → DeliveryRow × ℕ
apply_events row [] = (row, 0)
apply_events row (event ∷ events) = (
  (apply_events (apply_event row event).0 events).0,
  (apply_event row event).1 + (apply_events (apply_event row event).0 events).1,
)

claim-attempts :
    (row : DeliveryRow) (token now : ℕ)
    → row.attempt_count ≤ max_attempts
    → (apply_event row (claim token now)).1 + row.attempt_count
        ≤ (apply_event row (claim token now)).0.attempt_count
      × ((apply_event row (claim token now)).0.attempt_count ≤ max_attempts)
unfolding claim_delivery is_claimable
claim-attempts row token now h = (ground arith, ground arith)

finish-attempts :
    (row : DeliveryRow) (token attempts now : ℕ) (result : DeliveryResult)
    → (finish_delivery row token attempts result now).attempt_count ≡ row.attempt_count
unfolding finish_delivery
finish-attempts row token attempts now result = ground arith

finish_terminal :
    (row : DeliveryRow) (token attempts now : ℕ) (result : DeliveryResult)
    → row.state ≢ delivering
    → finish_delivery row token attempts result now ≡ row
unfolding finish_delivery
finish_terminal row token attempts now result h = ground arith

claim_terminal :
    (row : DeliveryRow) (token now : ℕ)
    → (row.state ≡ sent) ⊎ (row.state ≡ dead)
    → claim_delivery row token now ≡ (row, none)
unfolding claim_delivery is_claimable
claim_terminal row token now h = ground arith

stale_finish :
    (row : DeliveryRow) (token held attempts now : ℕ) (result : DeliveryResult)
    → row.claim_token ≡ some held
    → token ≢ held
    → finish_delivery row token attempts result now ≡ row
unfolding finish_delivery
stale_finish row token held attempts now result e n = ground arith

claim_refused :
    (row : DeliveryRow) (token now until : ℕ)
    → row.state ≡ delivering
    → row.claim_until ≡ some until
    → now < until
    → claim_delivery row token now ≡ (row, none)
unfolding claim_delivery is_claimable
claim_refused row token now until e u lt = ground arith

claim_granted :
    (row : DeliveryRow) (token now : ℕ) {attempts : ℕ}
    → (claim_delivery row token now).1 ≡ some attempts
    → ((claim_delivery row token now).0.state ≡ delivering)
      × ((claim_delivery row token now).0.claim_token ≡ some token)
      × ((claim_delivery row token now).0.claim_until ≡ some (now + claim_ms))
      × ((claim_delivery row token now).0.attempt_count ≡ attempts)
unfolding claim_delivery
claim_granted row token now e = (ground arith, ground arith, ground arith, ground arith)

apply_events_step :
    (row : DeliveryRow) (events : List Event)
    → apply_events row events ≡ (row, 0)
    → Path (DeliveryRow × ℕ) ((apply_events row events).0, 0 + (apply_events row events).1) (row, 0)
apply_events_step row events e = rw e refl

-- Under any sequence of events a row with at most six attempts keeps at most six, and the claims
-- granted are no more than the attempts that were left.
pub apply_events-attempts :
    (row : DeliveryRow) (events : List Event)
    → row.attempt_count ≤ max_attempts
    → ((apply_events row events).1 + row.attempt_count ≤ (apply_events row events).0.attempt_count)
      × ((apply_events row events).0.attempt_count ≤ max_attempts)
apply_events-attempts row [] h = (omega arith, h)
apply_events-attempts row (claim token now ∷ events) h =
    let (grows, bounded) = claim-attempts row token now h in
    let ih = apply_events-attempts (apply_event row (claim token now)).0 events bounded in
    (omega (arith, grows, ih.0), ih.1)
apply_events-attempts row (finish token attempts result now ∷ events) h =
    let same = finish-attempts row token attempts now result in
    let ih =
      apply_events-attempts (finish_delivery row token attempts result now) events
        (omega (arith, same)) in
    (omega (arith, same, ih.0), ih.1)

-- No event changes a row that was sent or is dead, and none is granted a claim on it.
apply_events-terminal :
    (row : DeliveryRow) (events : List Event)
    → (row.state ≡ sent) ⊎ (row.state ≡ dead)
    → apply_events row events ≡ (row, 0)
apply_events-terminal row [] h = refl
apply_events-terminal row (claim token now ∷ events) h =
    rw (claim_terminal row token now h)
      (apply_events_step row events (apply_events-terminal row events h))
apply_events-terminal row (finish token attempts result now ∷ events) h =
    rw (finish_terminal row token attempts now result (λ d. ground arith))
      (apply_events_step row events (apply_events-terminal row events h))

-- A claim before `until`, or an end that bears another token.
abbrev pub KeepsClaim : ℕ → ℕ → Event → Type 0
KeepsClaim token until (claim other now) = now < until
KeepsClaim token until (finish other attempts result now) = other ≢ token

claimed_row_kept :
    (row : DeliveryRow) (token until : ℕ) (events : List Event)
    → row.state ≡ delivering
    → row.claim_token ≡ some token
    → row.claim_until ≡ some until
    → All (KeepsClaim token until) events
    → apply_events row events ≡ (row, 0)
claimed_row_kept row token until [] s t u k = refl
claimed_row_kept row token until (claim other now ∷ events) s t u k =
    rw (claim_refused row other now until s u k.0)
      (apply_events_step row events (claimed_row_kept row token until events s t u k.1))
claimed_row_kept row token until (finish other attempts result now ∷ events) s t u k =
    rw (stale_finish row other token attempts now result t k.0)
      (apply_events_step row events (claimed_row_kept row token until events s t u k.1))

-- After a granted claim, until its thirty seconds are over, no other claim is granted, and ends of
-- deliveries that bear other tokens change nothing.
pub claim_excludes :
    (row : DeliveryRow) (token now attempts : ℕ) (events : List Event)
    → (claim_delivery row token now).1 ≡ some attempts
    → All (KeepsClaim token (now + claim_ms)) events
    → apply_events (claim_delivery row token now).0 events ≡ ((claim_delivery row token now).0, 0)
claim_excludes row token now attempts events granted k =
    let (s, t, u, _) = claim_granted row token now granted in
    claimed_row_kept (claim_delivery row token now).0 token (now + claim_ms) events s t u k

-- The state of a row after an attempt at delivery whose result is that of the channel and the provider.
pub data IsEnded (row ended : DeliveryRow) (channel : ChannelRow)
    (send : String → Outcome DeliveryResult) (now later : ℕ) : DeliveryOutcome → Type 0 where
  kept :
      is_claimable row now ≡ false → ended ≡ row → IsEnded row ended channel send now later skipped
  exhausted :
      is_claimable row now ≡ true
      → max_attempts ≤ row.attempt_count
      → ended.state ≡ dead
      → ended.claim_token ≡ none
      → IsEnded row ended channel send now later skipped
  was_sent :
      (result : DeliveryResult)
      → Gives channel send result
      → result.ok ≡ true
      → ended.state ≡ sent
      → ended.sent_at ≡ some later
      → ended.claim_token ≡ none
      → ended.response_status ≡ result.status
      → ended.attempt_count ≡ row.attempt_count + 1
      → IsEnded row ended channel send now later delivered
  gave_up :
      (result : DeliveryResult)
      → Gives channel send result
      → result.ok ≡ false
      → (result.retryable ≡ false) ⊎ (max_attempts ≤ ended.attempt_count)
      → ended.state ≡ dead
      → ended.sent_at ≡ none
      → ended.claim_token ≡ none
      → ended.response_status ≡ result.status
      → ended.attempt_count ≡ row.attempt_count + 1
      → IsEnded row ended channel send now later failed
  retries :
      (result : DeliveryResult)
      → Gives channel send result
      → result.ok ≡ false
      → result.retryable ≡ true
      → ended.state ≡ pending
      → ended.claim_token ≡ none
      → ended.response_status ≡ result.status
      → ended.attempt_count ≡ row.attempt_count + 1
      → ended.attempt_count < max_attempts
      → ended.next_attempt_at ≡ later + retry_delay_ms ended.attempt_count
      → IsEnded row ended channel send now later failed

has_token_self : (token : ℕ) → has_token (some token) token ≡ true
has_token_self token = ground arith

finish-IsEnded :
    (row claimed : DeliveryRow) (channel : ChannelRow) (send : String → Outcome DeliveryResult)
    (token attempts now later : ℕ) (result : DeliveryResult)
    → Gives channel send result
    → claimed.state ≡ delivering
    → claimed.claim_token ≡ some token
    → claimed.attempt_count ≡ row.attempt_count + 1
    → attempts ≡ row.attempt_count + 1
    → IsEnded row
        (finish_delivery claimed token attempts result later)
        channel
        send
        now
        later
        (if result.ok then delivered else failed)
unfolding finish_delivery
finish-IsEnded row claimed channel send token attempts now later result gives s t c a =
    elim (Bool-cases result.ok) [
      | inl done ↦
          rw (s, t, has_token_self token, done) (was_sent result gives done refl refl refl refl c)
      | inr open_yet ↦ elim (Bool-cases (not result.retryable || leb max_attempts attempts)) [
        | inl is_dead ↦
            rw (s, t, has_token_self token, open_yet, is_dead)
              (gave_up result gives open_yet
                (last_try claimed.attempt_count (ground (arith, a, c)) is_dead) refl refl refl refl
                c)
        | inr again ↦
            rw (s, t, has_token_self token, open_yet, again)
              (retries result gives open_yet (ground (arith, again)) refl refl refl c (ground arith)
                (rw (c, a) refl))
      ]
    ]
  where
    last_try :
        (count : ℕ)
        → count ≡ attempts
        → not result.retryable || leb max_attempts attempts ≡ true
        → (result.retryable ≡ false) ⊎ (max_attempts ≤ count)
    last_try count e h = elim (Bool-cases result.retryable) [
      | inr final ↦ inl final
      | inl again ↦ inr (ground (arith, e, h, again))
    ]

-- A delivery that is skipped left the row as it is, which could not be claimed, or made it dead because its
-- attempts were used up. One is delivered, and marked as sent, where the channel may be used and the
-- provider answers that it was accepted. One that failed is dead where the channel may not be used, the
-- answer is not to be repeated or the attempt was the sixth; where the answer is to be repeated, or sending
-- throws, it waits for another attempt with one of the six left. Each that was claimed leaves no token.
pub deliver_one-IsEnded :
    (row : DeliveryRow) (channel : ChannelRow) (send : String → Outcome DeliveryResult)
    (token now later : ℕ)
    → IsEnded row
        (deliver_one row channel send token now later).0
        channel
        send
        now
        later
        (deliver_one row channel send token now later).1
unfolding deliver_one claim_delivery
deliver_one-IsEnded row channel send token now later = elim (Bool-cases (is_claimable row now)) [
  | inr idle ↦ rw (idle, deliver_one, claim_delivery) (kept idle (rw idle refl))
  | inl due ↦ elim (Bool-cases (leb max_attempts row.attempt_count)) [
    | inl full ↦
        rw (due, full, deliver_one, claim_delivery)
          (exhausted due (ground arith) (rw (due, full) refl) (rw (due, full) refl))
    | inr left ↦
        rw (due, left, deliver_one, claim_delivery)
          (finish-IsEnded row (claim_delivery row token now).0 channel send token
            (min (row.attempt_count + 1) max_attempts) now later (delivery_result channel send)
            (delivery_result-Gives channel send) (rw (due, left) refl) (rw (due, left) refl)
            (ground arith) (ground arith))
  ]
]
