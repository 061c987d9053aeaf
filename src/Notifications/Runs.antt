-- ===== src/Notifications/Runs.antt =====
-- The results on the outbox, at a concrete row.
use alphaping.Prelude.{◌+◌, ◌≤◌, ◌≡◌, refl, true, false, none, some, List, [], ◌∷◌, arith, String}
use alphaping.Prelude.Outcome.{Outcome, ok}
use alphaping.Notifications.Outbox.{
  pending, DeliveryRow, DeliveryResult, ChannelRow, claim_delivery, is_claimable, deliver_one,
}
use alphaping.Notifications.Outbox.Claims.{
  Event, apply_events, IsEnded, apply_events-attempts, claim_excludes, deliver_one-IsEnded,
}

abbrev fresh_row : DeliveryRow
fresh_row = record {
  state = pending;
  attempt_count = 2;
  next_attempt_at = 100;
  claim_token = none;
  claim_until = none;
  response_status = none;
  updated_at = 50;
  sent_at = none;
}

abbrev refused : DeliveryResult
refused = record { ok = false; retryable = true; status = some 503 }

abbrev events : List Event
events = Event.claim 8 200 ∷ Event.finish 9 3 refused 300 ∷ []

apply_events-attempts_example :
    ((apply_events fresh_row events).1 + 2 ≤ (apply_events fresh_row events).0.attempt_count)
    × ((apply_events fresh_row events).0.attempt_count ≤ 6)
apply_events-attempts_example = apply_events-attempts fresh_row events (omega arith)

claimed : (claim_delivery fresh_row 7 150).1 ≡ some 3
unfolding claim_delivery is_claimable
claimed = refl

claim_excludes_example :
    apply_events (claim_delivery fresh_row 7 150).0 events ≡ ((claim_delivery fresh_row 7 150).0, 0)
claim_excludes_example =
    claim_excludes fresh_row 7 150 3 events claimed (omega arith, ((λ e. absurd (omega arith)), tt))

abbrev channel : ChannelRow
channel = record {
  provider = some "webhook";
  wrapping_key_id = some "v1";
  channel_enabled = true;
  rule_available = true;
}

abbrev refuse : String → Outcome DeliveryResult
refuse provider = ok refused

deliver_one-IsEnded_example :
    IsEnded fresh_row
      (deliver_one fresh_row channel refuse 7 150 400).0
      channel
      refuse
      150
      400
      (deliver_one fresh_row channel refuse 7 150 400).1
deliver_one-IsEnded_example = deliver_one-IsEnded fresh_row channel refuse 7 150 400
