-- ===== src/Notifications/Outbox/Answers.antt =====
-- `deliverOne` of workers/notifications/src/outbox.ts: what an attempt gives, by the channel and the answer.
use mathlib.Core.Path.{subst}
use alphaping.Prelude.{
  ◌≡◌, ◌≢◌, inl, inr, refl, true, false, not, Option, none, some, ◌||◌, arith, Bool-cases, String,
  eq_iff, sym, ap,
}
use alphaping.Prelude.Outcome.{Outcome, ok, throw, stuck}
use alphaping.Notifications.Outbox.{
  DeliveryResult, ChannelRow, delivery_result, unavailable_result, is_v1,
}

-- A channel to which a delivery may be sent by the provider.
pub record IsUsable (channel : ChannelRow) (provider : String) : Type 0 where
  pub joined : channel.provider ≡ some provider
  pub enabled : channel.channel_enabled ≡ true
  pub wrapped : channel.wrapping_key_id ≡ some "v1"
  pub ruled : channel.rule_available ≡ true

-- What an attempt gives: a final failure without sending where the channel may not be used, else what the
-- provider answers, and a failure to be repeated where sending throws.
pub data Gives (channel : ChannelRow) (send : String → Outcome DeliveryResult)
    : DeliveryResult → Type 0 where
  not_sent :
      (result : DeliveryResult)
      → ((provider : String) → ¬ IsUsable channel provider)
      → result ≡ record { ok = false; retryable = false; status = none }
      → Gives channel send result
  answered :
      (provider : String) (result : DeliveryResult)
      → IsUsable channel provider
      → send provider ≡ Outcome.ok result
      → Gives channel send result
  refused :
      (provider : String) (result : DeliveryResult)
      → IsUsable channel provider
      → ((answer : DeliveryResult) → send provider ≢ Outcome.ok answer)
      → result ≡ record { ok = false; retryable = true; status = none }
      → Gives channel send result

is_v1-eq : (key : Option String) → is_v1 key ≡ true → key ≡ some "v1"
is_v1-eq none e = cc
is_v1-eq (some key) e = let same : key ≡ "v1" = ground (arith, eq_iff key "v1", e) in rw same refl

pub delivery_result-Gives :
    (channel : ChannelRow) (send : String → Outcome DeliveryResult)
    → Gives channel send (delivery_result channel send)
unfolding delivery_result
delivery_result-Gives channel send = by_provider channel.provider refl
  where
    given :
        (result : DeliveryResult)
        → delivery_result channel send ≡ result
        → Gives channel send result
        → Gives channel send (delivery_result channel send)
    given result e gives = subst (λ r. Gives channel send r) (sym e) gives

    by_answer :
        (provider : String) (answer : Outcome DeliveryResult)
        → send provider ≡ answer
        → IsUsable channel provider
        → not channel.channel_enabled || not (is_v1 channel.wrapping_key_id) ≡ false
        → not channel.rule_available ≡ false
        → Gives channel send (delivery_result channel send)
    by_answer provider (ok result) a usable on ruled =
        let e = usable.joined in
        given result (rw (delivery_result, e, on, ruled, a) refl)
          (Gives.answered provider result usable a)
    by_answer provider (throw message) a usable on ruled =
        let e = usable.joined in
        given (unavailable_result true) (rw (delivery_result, e, on, ruled, a) refl)
          (Gives.refused provider _ usable (λ answer e'. cc) refl)
    by_answer provider stuck a usable on ruled =
        let e = usable.joined in
        given (unavailable_result true) (rw (delivery_result, e, on, ruled, a) refl)
          (Gives.refused provider _ usable (λ answer e'. cc) refl)

    by_provider :
        (provider : Option String)
        → channel.provider ≡ provider
        → Gives channel send (delivery_result channel send)
    by_provider none e =
        given (unavailable_result false) (rw (delivery_result, e) refl)
          (Gives.not_sent _ (λ provider usable. let j = usable.joined in cc) refl)
    by_provider (some provider) e =
        elim (Bool-cases (not channel.channel_enabled || not (is_v1 channel.wrapping_key_id))) [
          | inl off ↦ given (unavailable_result false) (rw (delivery_result, e, off) refl) (
              Gives.not_sent _
                (λ other usable.
                  let on = usable.enabled in
                  let wrapped = usable.wrapped in
                  let key : is_v1 channel.wrapping_key_id ≡ true = ap is_v1 wrapped in
                  ground (arith, off, on, key))
                refl)
          | inr on ↦ elim (Bool-cases (not channel.rule_available)) [
            | inl unruled ↦
                given (unavailable_result false) (rw (delivery_result, e, on, unruled) refl) (
                  Gives.not_sent _
                    (λ other usable. let ruled = usable.ruled in ground (arith, unruled, ruled))
                    refl)
            | inr ruled ↦
                by_answer provider (send provider) refl
                  (record {
                    joined = e;
                    enabled = ground (arith, on);
                    wrapped = is_v1-eq channel.wrapping_key_id (ground (arith, on));
                    ruled = ground (arith, ruled);
                  })
                  on ruled
          ]
        ]
