-- ===== src/Notifications/Outbox.antt =====
-- workers/notifications/src/outbox.ts: a row of notification_deliveries, and the statements on it.
-- The tokens are numbers here; crypto.randomUUID makes each.
pub mod Answers
pub mod Claims
use alphaping.Prelude.{
  ℕ, ◌+◌, ◌-◌, ◌*◌, ◌^◌, ◌≡◌, refl, Bool, true, false, not, Option, none, some, ◌&&◌, ◌||◌, leb,
  ◌==◌, if◌then◌else◌, min, max, List, [], ◌∷◌, String, str_eq,
}
use alphaping.Prelude.Outcome.{Outcome, ok, throw, stuck}

abbrev pub claim_ms : ℕ
claim_ms = 30000

abbrev pub max_attempts : ℕ
max_attempts = 6

pub data DeliveryState : Type 0 where
  pending delivering sent dead : DeliveryState

-- The columns of notification_deliveries that these statements read or write; the error's text is
-- left out.
pub record DeliveryRow : Type 0 where
  pub state : DeliveryState
  pub attempt_count : ℕ
  pub next_attempt_at : ℕ
  pub claim_token : Option ℕ
  pub claim_until : Option ℕ
  pub response_status : Option ℕ
  pub updated_at : ℕ
  pub sent_at : Option ℕ

-- DeliveryResult of types.ts, without the error's text.
pub record DeliveryResult : Type 0 where
  pub ok : Bool
  pub retryable : Bool
  pub status : Option ℕ

-- What the SELECT of a claim adds to the row: the channel, if one is joined, and the rule.
pub record ChannelRow : Type 0 where
  pub provider : Option String
  pub wrapping_key_id : Option String
  pub channel_enabled : Bool
  pub rule_available : Bool

pub data DeliveryOutcome : Type 0 where
  delivered failed skipped : DeliveryOutcome

unfoldable pub retry_delay_ms : ℕ → ℕ
retry_delay_ms attempt = min (60 * 60000) (60000 * 2 ^ (attempt - 1))

-- A NULL is on no side of a comparison.
abbrev pub is_past : Option ℕ → ℕ → Bool
is_past none now = false
is_past (some until) now = leb until now

-- The condition of the claim's UPDATE, and of the SELECT of candidates.
unfoldable pub is_claimable : DeliveryRow → ℕ → Bool
is_claimable row now = elim row.state [
  | pending ↦ leb row.next_attempt_at now
  | delivering ↦ is_past row.claim_until now
  | sent ↦ false
  | dead ↦ false
]

-- The row behind the statement, and the attempt count that the SELECT reads. A row that became dead
-- has no token, so that the SELECT by the token finds none.
unfoldable pub claim_delivery : DeliveryRow → ℕ → ℕ → DeliveryRow × Option ℕ
unfolding is_claimable
claim_delivery row token now =
    let exhausted = leb max_attempts row.attempt_count in
    let attempts = min (row.attempt_count + 1) max_attempts in
    if not (is_claimable row now)
    then (row, none)
    else if exhausted
    then (
      record row {
        state = dead;
        claim_token = none;
        claim_until = none;
        attempt_count = attempts;
        updated_at = now;
      },
      none,
    )
    else (
      record row {
        state = delivering;
        claim_token = some token;
        claim_until = some (now + claim_ms);
        attempt_count = attempts;
        updated_at = now;
      },
      some attempts,
    )

abbrev pub has_token : Option ℕ → ℕ → Bool
has_token none token = false
has_token (some held) token = held == token

abbrev pub is_delivering : DeliveryState → Bool
is_delivering delivering = true
is_delivering _ = false

-- `attempts` is the attempt count of the claimed row.
unfoldable pub finish_delivery : DeliveryRow → ℕ → ℕ → DeliveryResult → ℕ → DeliveryRow
finish_delivery row token attempts result now =
    let is_dead = not result.ok && (not result.retryable || leb max_attempts attempts) in
    let next_state = if result.ok then sent else if is_dead then dead else pending in
    let next_attempt_at = if result.ok || is_dead then 0 else now + retry_delay_ms attempts in
    if is_delivering row.state && has_token row.claim_token token
    then record row {
      state = next_state;
      next_attempt_at = next_attempt_at;
      claim_token = none;
      claim_until = none;
      response_status = result.status;
      updated_at = now;
      sent_at = if result.ok then some now else none;
    }
    else row

abbrev pub unavailable_result : Bool → DeliveryResult
unavailable_result retryable = record { ok = false; retryable = retryable; status = none }

abbrev pub is_v1 : Option String → Bool
is_v1 none = false
is_v1 (some key) = str_eq key "v1"

-- `send` unwraps the channel's configuration, parses the payload and calls the provider; an error
-- thrown there is caught.
unfoldable pub delivery_result : ChannelRow → (String → Outcome DeliveryResult) → DeliveryResult
delivery_result channel send = elim channel.provider [
  | none ↦ unavailable_result false
  | some provider ↦
      if not channel.channel_enabled || not (is_v1 channel.wrapping_key_id)
      then unavailable_result false
      else if not channel.rule_available
      then unavailable_result false
      else elim (send provider) [
        | ok result ↦ result
        | throw message ↦ unavailable_result true
        | stuck ↦ unavailable_result true
      ]
]

-- One delivery that nothing else interleaves, which ends at `later`.
unfoldable pub deliver_one :
    DeliveryRow
    → ChannelRow
    → (String → Outcome DeliveryResult)
    → ℕ
    → ℕ
    → ℕ
    → DeliveryRow × DeliveryOutcome
unfolding claim_delivery delivery_result finish_delivery
deliver_one row channel send token now later =
    let result = delivery_result channel send in
    let (claimed, attempts) = claim_delivery row token now in
    elim attempts [
      | none ↦ (claimed, skipped)
      | some count ↦ (
        finish_delivery claimed token count result later,
        if result.ok then delivered else failed,
      )
    ]
