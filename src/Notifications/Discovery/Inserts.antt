-- ===== src/Notifications/Discovery/Inserts.antt =====
-- `prepareDeliveries` and `persistDeliveries` of workers/notifications/src/discovery.ts: each delivery is
-- inserted or known.
use mathlib.Core.List.{Memᴰ}
use mathlib.Core.List.Memᴰ
use text.Mathlib.TextPositions.{eq_refl}
use alphaping.Prelude.{
  ℕ, zero, suc, ◌≡◌, refl, Bool, true, Bool-cases, inl, inr, ◌||◌, some, Option-cases, String,
  str_eq, List, [], ◌∷◌, map, any, take, drop, Memᴰ-filter, Memᴰ-take-drop, any-append_left,
  any-append_right,
}
use alphaping.Prelude.Outcome.{ok}
use alphaping.Notifications.Discovery.{
  StateEventRow, ResolvedResource, RuleRow, Identity, DeliveryInsert, DeliveryRow, Write, insert,
  insert_batch, get_resource,
}
use alphaping.Notifications.Discovery.Rules.{same_rule_key, rule_key, get_rules}
use alphaping.Notifications.Discovery.Requested.{same_rule_key_of_eq}
use alphaping.Notifications.Discovery.Run.{
  same_identity, insert_or_ignore, insert_all, delivery_of, prepare_deliveries, persist_deliveries,
}

-- A row has the id, or is of the same channel and event.
abbrev pub is_known : List DeliveryRow → DeliveryInsert → Bool
is_known rows delivery =
    any
      (λ row.
        str_eq row.delivery.id delivery.id || same_identity row.delivery.identity delivery.identity)
      rows

module _ (now : ℕ) where
  insert_or_ignore-keeps :
      (rows : List DeliveryRow) (other delivery : DeliveryInsert)
      → is_known rows delivery ≡ true
      → is_known (insert_or_ignore now rows other) delivery ≡ true
  unfolding insert_or_ignore
  insert_or_ignore-keeps rows other delivery e = elim (Bool-cases (is_known rows other)) [
    | inl h ↦ rw h e
    | inr h ↦ rw h (
        any-append_left
          (λ row.
            str_eq row.delivery.id delivery.id
            || same_identity row.delivery.identity delivery.identity)
          rows (record { delivery = other; created_at = now } ∷ []) e)
  ]

  insert_or_ignore-known :
      (rows : List DeliveryRow) (delivery : DeliveryInsert)
      → is_known (insert_or_ignore now rows delivery) delivery ≡ true
  unfolding insert_or_ignore
  insert_or_ignore-known rows delivery = elim (Bool-cases (is_known rows delivery)) [
    | inl h ↦ rw h h
    | inr h ↦ rw h (
        any-append_right
          (λ row.
            str_eq row.delivery.id delivery.id
            || same_identity row.delivery.identity delivery.identity)
          rows (record { delivery = delivery; created_at = now } ∷ [])
          (rw (eq_refl delivery.id) refl))
  ]

  pub insert_all-keeps :
      (rows : List DeliveryRow) (others : List DeliveryInsert) (delivery : DeliveryInsert)
      → is_known rows delivery ≡ true
      → is_known (insert_all now rows others) delivery ≡ true
  unfolding insert_all
  insert_all-keeps rows [] delivery e = e
  insert_all-keeps rows (other ∷ others) delivery e =
      insert_all-keeps (insert_or_ignore now rows other) others delivery
        (insert_or_ignore-keeps rows other delivery e)

  pub insert_all-known :
      (rows : List DeliveryRow) (deliveries : List DeliveryInsert) (delivery : DeliveryInsert)
      → Memᴰ delivery deliveries
      → is_known (insert_all now rows deliveries) delivery ≡ true
  unfolding insert_all
  insert_all-known rows [] delivery m = elim m [ ]
  insert_all-known rows (first ∷ deliveries) delivery (Memᴰ.head e) = rw e (
      insert_all-keeps (insert_or_ignore now rows first) deliveries first
        (insert_or_ignore-known rows first))
  insert_all-known rows (first ∷ deliveries) delivery (Memᴰ.tail m) =
      insert_all-known (insert_or_ignore now rows first) deliveries delivery m

module _ (digest_id : Identity → String) (order_by : List RuleRow → List RuleRow) where
  pub prepare_deliveries-Memᴰ :
      (resources : List ResolvedResource) (rules : List RuleRow) (rows : List StateEventRow)
      (row : StateEventRow) (found : ResolvedResource) (rule : RuleRow)
      → Memᴰ row rows
      → get_resource resources row.event.key ≡ some found
      → Memᴰ rule rules
      → rule.key ≡ rule_key found row.event
      → Memᴰ
          (delivery_of digest_id order_by row found rule)
          (prepare_deliveries digest_id order_by resources rules rows)
  unfolding prepare_deliveries
  prepare_deliveries-Memᴰ resources rules [] row found rule m resolved m' same = elim m [ ]
  prepare_deliveries-Memᴰ resources rules (first ∷ rows) row found rule (Memᴰ.head e) resolved m'
        same =
      let resolved' : get_resource resources first.event.key ≡ some found = rw (← e) resolved in
      let same' : rule.key ≡ rule_key found first.event = rw (← e) same in
      rw (prepare_deliveries, resolved', e)
        (Memᴰ.append_left (prepare_deliveries digest_id order_by resources rules rows) (
          Memᴰ.map (delivery_of digest_id order_by first found) (
            Memᴰ-filter (λ other. same_rule_key other.key (rule_key found first.event)) rules m'
              (same_rule_key_of_eq rule.key (rule_key found first.event) same'))))
  prepare_deliveries-Memᴰ resources rules (first ∷ rows) row found rule (Memᴰ.tail m) resolved m'
        same =
      let later = prepare_deliveries-Memᴰ resources rules rows row found rule m resolved m' same in
      elim (Option-cases (get_resource resources first.event.key)) [
        | inl h ↦ rw (prepare_deliveries, h) later
        | inr (other, h) ↦
            rw (prepare_deliveries, h)
              (Memᴰ.append_right
                (map (delivery_of digest_id order_by first other)
                  (get_rules rules (rule_key other first.event)))
                later)
      ]

  module _ (available : Write → Bool) (now : ℕ) where
    -- Whatever is refused, what is known stays known.
    pub persist_deliveries-keeps :
        (fuel batch : ℕ) (deliveries : List DeliveryInsert) (rows : List DeliveryRow)
        (delivery : DeliveryInsert)
        → is_known rows delivery ≡ true
        → is_known
            (persist_deliveries digest_id order_by available now fuel batch deliveries rows).0
            delivery
          ≡ true
    unfolding persist_deliveries
    persist_deliveries-keeps fuel batch [] rows delivery e = e
    persist_deliveries-keeps zero batch (first ∷ deliveries) rows delivery e = e
    persist_deliveries-keeps (suc fuel) batch (first ∷ deliveries) rows delivery e =
        elim (Bool-cases (available (insert batch))) [
          | inr h ↦ rw (persist_deliveries, h) e
          | inl h ↦
              rw (persist_deliveries, h)
                (persist_deliveries-keeps fuel (suc batch) (drop insert_batch (first ∷ deliveries))
                  (insert_all now rows (take insert_batch (first ∷ deliveries))) delivery
                  (insert_all-keeps now rows (take insert_batch (first ∷ deliveries)) delivery e))
        ]

    pub persist_deliveries-known :
        (fuel batch : ℕ) (deliveries : List DeliveryInsert) (rows : List DeliveryRow)
        (delivery : DeliveryInsert)
        → (persist_deliveries digest_id order_by available now fuel batch deliveries rows).1 ≡ ok tt
        → Memᴰ delivery deliveries
        → is_known
            (persist_deliveries digest_id order_by available now fuel batch deliveries rows).0
            delivery
          ≡ true
    unfolding persist_deliveries
    persist_deliveries-known fuel batch [] rows delivery e m = elim m [ ]
    persist_deliveries-known zero batch (first ∷ deliveries) rows delivery e m = cc
    persist_deliveries-known (suc fuel) batch (first ∷ deliveries) rows delivery e m =
        elim (Bool-cases (available (insert batch))) [
          | inr h ↦ cc (rw (persist_deliveries, h) at e)
          | inl h ↦
              let rest = drop insert_batch (first ∷ deliveries) in
              let written = insert_all now rows (take insert_batch (first ∷ deliveries)) in
              rw (persist_deliveries, h)
                (elim (Memᴰ-take-drop insert_batch (first ∷ deliveries) m) [
                  | inl early ↦ persist_deliveries-keeps fuel (suc batch) rest written delivery (
                      insert_all-known now rows (take insert_batch (first ∷ deliveries)) delivery
                        early)
                  | inr late ↦
                      persist_deliveries-known fuel (suc batch) rest written delivery
                        (rw (persist_deliveries, h) at e) late
                ])
        ]
