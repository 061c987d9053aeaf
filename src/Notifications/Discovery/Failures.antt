-- ===== src/Notifications/Discovery/Failures.antt =====
-- `discoverNotificationEvents` of workers/notifications/src/discovery.ts: what a run that throws leaves.
use alphaping.Prelude.{
  ℕ, ◌≡◌, ◌⊎◌, refl, Bool, false, Bool-cases, inl, inr, ◌==◌, Option, some, String, List, length,
}
use alphaping.Prelude.Outcome.{Outcome, ok, throw, stuck}
use alphaping.Notifications.Discovery.{
  CursorRow, StateEventRow, ResolvedResource, RuleRow, Identity, DiscoveryResult, Tables, Databases,
  Write, clean, move_cursor, load_events, resolve_resources,
}
use alphaping.Notifications.Discovery.Rules.{load_rules}
use alphaping.Notifications.Discovery.Run.{
  sequence_after, prepare_deliveries, persist_deliveries, clean_up, update_row, finish_run,
  deliver_rows, deliver_events, discover_notification_events,
}
use alphaping.Notifications.Discovery.Progress.{discover-deliver_events}

module _ (digest_id : Identity → String) (order_by : List RuleRow → List RuleRow)
    (available : Write → Bool) (now : ℕ) where
  -- The queue is as it was, and the cursor too, where the last write is not the one refused.
  pub IsLeft : Databases → Databases → Type 0
  IsLeft before after =
      (after.queue ≡ before.queue) × ((after.cursor ≡ before.cursor) ⊎ (available clean ≡ false))

  clean_up-throw :
      (databases : Databases) (sequence : ℕ) (result : DiscoveryResult) (message : String)
      → (clean_up digest_id order_by available now databases sequence result).1 ≡ throw message
      → (available clean ≡ false)
        × ((clean_up digest_id order_by available now databases sequence result).0.queue
            ≡ databases.queue)
  unfolding clean_up
  clean_up-throw databases sequence result message e = elim (Bool-cases (available clean)) [
    | inl h ↦ cc (rw h at e)
    | inr h ↦ rw h (refl, refl)
  ]

  finish_run-throw :
      (sequence : ℕ) (result : DiscoveryResult) (databases : Databases)
      (persisted : Outcome (Unit {0})) (message : String)
      → (finish_run digest_id order_by available now sequence result databases persisted).1
        ≡ throw message
      → IsLeft databases
          (finish_run digest_id order_by available now sequence result databases persisted).0
  unfolding finish_run IsLeft
  finish_run-throw sequence result databases (throw refused) message e = (refl, inl refl)
  finish_run-throw sequence result databases stuck message e = (refl, inl refl)
  finish_run-throw sequence result databases (ok unit) message e =
      elim (Bool-cases (available move_cursor)) [
        | inr h ↦ rw (finish_run, h) (refl, inl refl)
        | inl h ↦
            let (refused, same) =
              clean_up-throw
                (record databases {
                  cursor = update_row digest_id order_by available now databases.cursor sequence;
                })
                sequence result message (rw (finish_run, h) at e) in
            rw (finish_run, h) (same, inr refused)
      ]

  deliver_rows-throw :
      (sequence : ℕ) (resources : List ResolvedResource) (rows : List StateEventRow)
      (databases : Databases) (loaded : Outcome (List RuleRow)) (message : String)
      → (deliver_rows digest_id order_by available now sequence resources rows databases loaded).1
        ≡ throw message
      → IsLeft databases
          (deliver_rows digest_id order_by available now sequence resources rows databases loaded).0
  unfolding deliver_rows IsLeft
  deliver_rows-throw sequence resources rows databases (throw refused) message e = (refl, inl refl)
  deliver_rows-throw sequence resources rows databases stuck message e = (refl, inl refl)
  deliver_rows-throw sequence resources rows databases (ok rules) message e =
      let deliveries = prepare_deliveries digest_id order_by resources rules rows in
      let written =
        persist_deliveries digest_id order_by available now (length deliveries) 0 deliveries
          databases.deliveries in
      finish_run-throw (sequence_after sequence rows)
        (record { scanned = length rows; enqueued = length deliveries; bootstrapped = false })
        (record databases { deliveries = written.0 }) written.1 message e

  -- A run past the first that throws leaves the queue as it was, and the cursor too, unless it is the
  -- cleaning of the queue, the last write, that is refused.
  pub discover_notification_events-throw :
      (tables : Tables) (other : Option CursorRow) (databases : Databases) (cursor : CursorRow)
      (message : String)
      → databases.cursor ≡ some cursor
      → (cursor.updated_at == 0) ≡ false
      → (discover_notification_events digest_id order_by available now tables other databases).1
        ≡ throw message
      → IsLeft databases
          (discover_notification_events digest_id order_by available now tables other databases).0
  unfolding deliver_events IsLeft
  discover_notification_events-throw tables other databases cursor message at_cursor later e =
      let same =
        discover-deliver_events digest_id order_by available now tables other databases cursor
          at_cursor later in
      let e' = rw same at e in
      let rows = load_events tables databases cursor in
      let resources = resolve_resources tables rows in
      rw same (elim (Bool-cases (length rows == 0)) [
        | inl empty ↦
            let (refused, kept) =
              clean_up-throw databases cursor.last_sequence
                (record { scanned = 0; enqueued = 0; bootstrapped = false }) message
                (rw (deliver_events, empty) at e') in
            rw (deliver_events, empty) (kept, inr refused)
        | inr some_rows ↦
            rw (deliver_events, some_rows)
              (deliver_rows-throw cursor.last_sequence resources rows databases
                (load_rules order_by tables resources rows) message
                (rw (deliver_events, some_rows) at e'))
      ])
