-- ===== src/Notifications/Discovery/Identified.antt =====
-- `discoverNotificationEvents` of workers/notifications/src/discovery.ts: the deliveries of one channel and
-- event, by what their ids are digests of.
use alphaping.Prelude.{◌≡◌, refl, true, String, eq_iff, List, All, arith}
use alphaping.Prelude.Outcome.{Outcome}
use alphaping.Notifications.Discovery.{
  ResourceType, machine, service, Identity, DeliveryInsert, DeliveryRow, same_type, same_key,
}
use alphaping.Notifications.Discovery.Run.{same_identity}

same_type-eq : (a b : ResourceType) → same_type a b ≡ true → a ≡ b
same_type-eq machine machine e = refl
same_type-eq service service e = refl
same_type-eq machine service e = cc
same_type-eq service machine e = cc

pub same_identity-eq : (a b : Identity) → same_identity a b ≡ true → a ≡ b
same_identity-eq a b e = λ i. record {
  channel_id = channel i;
  key = record {
    workspace_pk = workspace i;
    resource_type = type i;
    resource_pk = resource i;
    occurred_at = time i;
    event_id = event i;
  };
}
  where
    channel : a.channel_id ≡ b.channel_id
    channel = ground (arith, eq_iff a.channel_id b.channel_id, e)

    same : same_key a.key b.key ≡ true
    same = ground (arith, e)

    workspace : a.key.workspace_pk ≡ b.key.workspace_pk
    workspace = ground (arith, same)

    type : a.key.resource_type ≡ b.key.resource_type
    type = same_type-eq a.key.resource_type b.key.resource_type (ground (arith, same))

    resource : a.key.resource_pk ≡ b.key.resource_pk
    resource = ground (arith, same)

    time : a.key.occurred_at ≡ b.key.occurred_at
    time = ground (arith, same)

    event : a.key.event_id ≡ b.key.event_id
    event = ground (arith, eq_iff a.key.event_id b.key.event_id, same)

module _ (digest_id : Identity → String) where
  -- The id of each row is the digest of its channel and event.
  abbrev pub AreIdentified : List DeliveryRow → Type 0
  AreIdentified rows = All (λ row. row.delivery.id ≡ digest_id row.delivery.identity) rows

  abbrev AreDigested : List DeliveryInsert → Type 0
  AreDigested deliveries = All (λ delivery. delivery.id ≡ digest_id delivery.identity) deliveries
