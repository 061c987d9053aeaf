-- ===== src/Notifications/Discovery/Run.antt =====
-- `discoverNotificationEvents` of workers/notifications/src/discovery.ts, and the deliveries it inserts.
use alphaping.Prelude.{
  ℕ, zero, suc, Bool, true, false, ◌||◌, ◌==◌, Option, none, some, if◌then◌else◌, String, str_eq,
  List, [], ◌∷◌, ◌++◌, map, any, take, drop, length,
}
use alphaping.Prelude.Outcome.{Outcome, ok, throw, stuck}
use alphaping.Notifications.Discovery.{
  CursorRow, StateEventRow, ResolvedResource, RuleRow, Identity, DeliveryInsert, DeliveryRow,
  DiscoveryResult, Tables, Databases, Write, initialize, move_cursor, clean, insert, event_limit,
  insert_batch, same_key, dimension_for_event, newest_sequence, update_cursor,
  clean_consumed_events, load_events, resolve_resources, get_resource,
}
use alphaping.Notifications.Discovery.Rules.{rule_key, load_rules, get_rules}

-- `events.at(-1)?.sequence ?? cursor.last_sequence`
abbrev pub sequence_after : ℕ → List StateEventRow → ℕ
sequence_after sequence [] = sequence
sequence_after sequence (row ∷ rows) = sequence_after row.sequence rows

abbrev pub same_identity : Identity → Identity → Bool
same_identity a b = if str_eq a.channel_id b.channel_id then same_key a.key b.key else false

-- INSERT OR IGNORE: nothing, where a row has the id or is of the same channel and event.
unfoldable pub insert_or_ignore : ℕ → List DeliveryRow → DeliveryInsert → List DeliveryRow
insert_or_ignore now rows delivery =
    if any
      (λ row.
        str_eq row.delivery.id delivery.id || same_identity row.delivery.identity delivery.identity)
      rows
    then rows
    else rows ++ (record { delivery = delivery; created_at = now } ∷ [])

unfoldable pub insert_all : ℕ → List DeliveryRow → List DeliveryInsert → List DeliveryRow
unfolding insert_or_ignore
insert_all now rows [] = rows
insert_all now rows (delivery ∷ deliveries) =
    insert_all now (insert_or_ignore now rows delivery) deliveries

-- The digest of an identity's text, and the order of the rules.
module _ (digest_id : Identity → String) (order_by : List RuleRow → List RuleRow) where
  unfoldable pub delivery_of : StateEventRow → ResolvedResource → RuleRow → DeliveryInsert
  unfolding dimension_for_event
  delivery_of row resource rule =
      let identity : Identity = record { channel_id = rule.channel_id; key = row.event.key } in
      record {
        id = digest_id identity;
        workspace_id = resource.workspace_id;
        identity = identity;
        dimension = dimension_for_event row.event;
        payload = record {
          workspace = resource.workspace_name;
          resource_type = row.event.key.resource_type;
          resource_name = resource.name;
          dimension = dimension_for_event row.event;
          previous_state = row.event.previous_state;
          current_state = row.event.current_state;
          reason_code = row.event.reason_code;
          occurred_at = row.event.key.occurred_at;
        };
      }

  unfoldable pub prepare_deliveries :
      List ResolvedResource → List RuleRow → List StateEventRow → List DeliveryInsert
  unfolding delivery_of rule_key get_resource
  prepare_deliveries resources rules [] = []
  prepare_deliveries resources rules (row ∷ rows) =
      let rest = prepare_deliveries resources rules rows in
      elim (get_resource resources row.event.key) [
        | none ↦ rest
        | some resource ↦
            map (delivery_of row resource) (get_rules rules (rule_key resource row.event)) ++ rest
      ]

  module _ (available : Write → Bool) (now : ℕ) where
    -- The batches in turn, each of which is written as a whole or refused. The first number is fuel.
    unfoldable pub persist_deliveries :
        ℕ → ℕ → List DeliveryInsert → List DeliveryRow → List DeliveryRow × Outcome (Unit {0})
    unfolding insert_all
    persist_deliveries fuel batch [] rows = (rows, ok tt)
    persist_deliveries zero batch (delivery ∷ deliveries) rows = (rows, stuck)
    persist_deliveries (suc fuel) batch (delivery ∷ deliveries) rows =
        let written = insert_all now rows (take insert_batch (delivery ∷ deliveries)) in
        let rest =
          persist_deliveries fuel (suc batch) (drop insert_batch (delivery ∷ deliveries)) written in
        if available (insert batch) then rest else (rows, throw "d1_error")

    unfoldable pub clean_up : Databases → ℕ → DiscoveryResult → Databases × Outcome DiscoveryResult
    unfolding clean_consumed_events
    clean_up databases sequence result =
        if available clean
        then (
          record databases { queue = clean_consumed_events event_limit sequence databases.queue },
          ok result,
        )
        else (databases, throw "d1_error")

    abbrev pub update_row : Option CursorRow → ℕ → Option CursorRow
    update_row none sequence = none
    update_row (some cursor) sequence = some (update_cursor cursor sequence now)

    -- The last two writes, where all is persisted.
    unfoldable pub finish_run :
        ℕ → DiscoveryResult → Databases → Outcome (Unit {0}) → Databases × Outcome DiscoveryResult
    unfolding update_cursor clean_up
    finish_run sequence result databases persisted = elim persisted [
      | throw message ↦ (databases, throw message)
      | stuck ↦ (databases, stuck)
      | ok _ ↦
          if available move_cursor
          then clean_up (record databases { cursor = update_row databases.cursor sequence })
              sequence result
          else (databases, throw "d1_error")
    ]

    -- What follows the rules of the events that are not none.
    unfoldable pub deliver_rows :
        ℕ
        → List ResolvedResource
        → List StateEventRow
        → Databases
        → Outcome (List RuleRow)
        → Databases × Outcome DiscoveryResult
    unfolding prepare_deliveries persist_deliveries finish_run
    deliver_rows sequence resources rows databases found = elim found [
      | throw message ↦ (databases, throw message)
      | stuck ↦ (databases, stuck)
      | ok rules ↦
          let deliveries = prepare_deliveries resources rules rows in
          let (written, persisted) =
            persist_deliveries (length deliveries) 0 deliveries databases.deliveries in
          finish_run (sequence_after sequence rows)
            (record { scanned = length rows; enqueued = length deliveries; bootstrapped = false })
            (record databases { deliveries = written }) persisted
    ]

    unfoldable pub deliver_events :
        Tables → CursorRow → Databases → Databases × Outcome DiscoveryResult
    unfolding load_events resolve_resources load_rules deliver_rows clean_up
    deliver_events tables cursor databases =
        let rows = load_events tables databases cursor in
        let resources = resolve_resources tables rows in
        if length rows == 0
        then clean_up databases cursor.last_sequence
            (record { scanned = 0; enqueued = 0; bootstrapped = false })
        else deliver_rows cursor.last_sequence resources rows databases
            (load_rules order_by tables resources rows)

    -- The first run of all, and the row that another first run may have written since the cursor was read.
    unfoldable pub bootstrap :
        Tables → Option CursorRow → Databases → Databases × Outcome DiscoveryResult
    unfolding clean_up deliver_events
    bootstrap tables other databases =
        let sequence = newest_sequence databases.queue in
        let current : Databases = elim other [
          | none ↦ databases
          | some row ↦ record databases { cursor = some row }
        ] in
        if available initialize
        then elim current.cursor [
          | none ↦ (current, throw "notification_cursor_missing")
          | some cursor ↦
              if cursor.updated_at == 0
              then clean_up
                  (record current {
                    cursor = some (record { last_sequence = sequence; updated_at = now });
                  })
                  sequence (record { scanned = 0; enqueued = 0; bootstrapped = true })
              else deliver_events tables cursor current
        ]
        else (current, throw "d1_error")

    unfoldable pub discover_notification_events :
        Tables → Option CursorRow → Databases → Databases × Outcome DiscoveryResult
    unfolding bootstrap deliver_events
    discover_notification_events tables other databases = elim databases.cursor [
      | none ↦ (databases, throw "notification_cursor_missing")
      | some cursor ↦
          if cursor.updated_at == 0
          then bootstrap tables other databases
          else deliver_events tables cursor databases
    ]
