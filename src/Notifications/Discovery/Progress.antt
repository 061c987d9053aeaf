-- ===== src/Notifications/Discovery/Progress.antt =====
-- `discoverNotificationEvents` of workers/notifications/src/discovery.ts: what a run keeps, whatever fails.
use alphaping.Prelude.{
  if◌then◌else◌, ℕ, ◌≤◌, ◌≡◌, refl, Bool, false, Bool-cases, inl, inr, ◌==◌, Option, none, some,
  String, List, length, All-intro, arith,
}
use alphaping.Prelude.Outcome.{Outcome, ok, throw, stuck}
use alphaping.Notifications.Discovery.{
  CursorRow, StateEventRow, ResolvedResource, RuleRow, Identity, DiscoveryResult, Tables, Databases,
  Write, clean, move_cursor, event_limit, load_events, resolve_resources, update_cursor,
}
use alphaping.Notifications.Discovery.Rules.{load_rules}
use alphaping.Notifications.Discovery.Run.{
  sequence_after, prepare_deliveries, persist_deliveries, clean_up, update_row, finish_run,
  deliver_rows, deliver_events, bootstrap, discover_notification_events,
}
use alphaping.Notifications.Discovery.Delivered.{cursor_at}
use alphaping.Notifications.Discovery.Kept.{
  Advances, Advances-refl, Advances-trans, clean_consumed_events-Memᴰ, persist_deliveries-Memᴰ,
}

module _ (digest_id : Identity → String) (order_by : List RuleRow → List RuleRow)
    (available : Write → Bool) (now : ℕ) where
  clean_up-Advances :
      (databases : Databases) (sequence : ℕ) (result : DiscoveryResult)
      → sequence ≤ cursor_at databases.cursor
      → Advances databases (clean_up digest_id order_by available now databases sequence result).0
  unfolding clean_up
  clean_up-Advances databases sequence result bound = elim (Bool-cases (available clean)) [
    | inr h ↦ rw h (Advances-refl databases)
    | inl h ↦ rw h (record {
      cursor_le = omega arith;
      queue_kept = All-intro _ databases.queue (λ queued m.
          elim (clean_consumed_events-Memᴰ event_limit sequence databases.queue queued m) [
            | inl m' ↦ inl m'
            | inr below ↦ inr (omega (arith, below, bound))
          ]);
      deliveries_kept = All-intro _ databases.deliveries (λ row m. m);
    })
  ]

  update_row-le :
      (cursor : CursorRow) (sequence : ℕ)
      → (sequence ≤ cursor_at (update_row digest_id order_by available now (some cursor) sequence))
        × (cursor.last_sequence
            ≤ cursor_at (update_row digest_id order_by available now (some cursor) sequence))
  unfolding update_cursor
  update_row-le cursor sequence = (ground arith, ground arith)

  finish_run-Advances :
      (sequence : ℕ) (result : DiscoveryResult) (databases : Databases)
      (persisted : Outcome (Unit {0})) (cursor : CursorRow)
      → databases.cursor ≡ some cursor
      → Advances databases
          (finish_run digest_id order_by available now sequence result databases persisted).0
  unfolding finish_run
  finish_run-Advances sequence result databases (throw message) cursor e = Advances-refl databases
  finish_run-Advances sequence result databases stuck cursor e = Advances-refl databases
  finish_run-Advances sequence result databases (ok unit) cursor e =
      elim (Bool-cases (available move_cursor)) [
        | inr h ↦ rw (finish_run, h) (Advances-refl databases)
        | inl h ↦
            let moved : Databases = record databases {
              cursor = update_row digest_id order_by available now databases.cursor sequence;
            } in
            let (reached, kept) = update_row-le cursor sequence in
            let reached' : sequence ≤ cursor_at moved.cursor = rw e reached in
            rw (finish_run, h)
              (Advances-trans databases moved
                (clean_up digest_id order_by available now moved sequence result).0
                (record {
                  cursor_le = rw e kept;
                  queue_kept = All-intro _ databases.queue (λ queued m. inl m);
                  deliveries_kept = All-intro _ databases.deliveries (λ row m. m);
                })
                (clean_up-Advances moved sequence result reached'))
      ]

  deliver_rows-Advances :
      (sequence : ℕ) (resources : List ResolvedResource) (rows : List StateEventRow)
      (databases : Databases) (loaded : Outcome (List RuleRow)) (cursor : CursorRow)
      → databases.cursor ≡ some cursor
      → Advances databases
          (deliver_rows digest_id order_by available now sequence resources rows databases loaded).0
  unfolding deliver_rows
  deliver_rows-Advances sequence resources rows databases (throw message) cursor e =
      Advances-refl databases
  deliver_rows-Advances sequence resources rows databases stuck cursor e = Advances-refl databases
  deliver_rows-Advances sequence resources rows databases (ok rules) cursor e =
      let deliveries = prepare_deliveries digest_id order_by resources rules rows in
      let written =
        persist_deliveries digest_id order_by available now (length deliveries) 0 deliveries
          databases.deliveries in
      let persisted : Databases = record databases { deliveries = written.0 } in
      let result : DiscoveryResult = record {
        scanned = length rows;
        enqueued = length deliveries;
        bootstrapped = false;
      } in
      Advances-trans databases persisted
        (finish_run digest_id order_by available now (sequence_after sequence rows) result persisted
          written.1).0
        (record {
          cursor_le = omega arith;
          queue_kept = All-intro _ databases.queue (λ queued m. inl m);
          deliveries_kept = All-intro _ databases.deliveries (λ row m.
              persist_deliveries-Memᴰ digest_id order_by available now (length deliveries) 0
                deliveries databases.deliveries row m);
        })
        (finish_run-Advances (sequence_after sequence rows) result persisted written.1 cursor e)

  deliver_events-Advances :
      (tables : Tables) (databases : Databases) (cursor : CursorRow)
      → databases.cursor ≡ some cursor
      → Advances databases
          (deliver_events digest_id order_by available now tables cursor databases).0
  unfolding deliver_events
  deliver_events-Advances tables databases cursor at_cursor =
      let rows = load_events tables databases cursor in
      let resources = resolve_resources tables rows in
      elim (Bool-cases (length rows == 0)) [
        | inl empty ↦
            rw (deliver_events, empty)
              (clean_up-Advances databases cursor.last_sequence
                (record { scanned = 0; enqueued = 0; bootstrapped = false })
                (rw at_cursor (omega arith)))
        | inr some_rows ↦
            rw (deliver_events, some_rows)
              (deliver_rows-Advances cursor.last_sequence resources rows databases
                (load_rules order_by tables resources rows) cursor at_cursor)
      ]

  from_cursor :
      (tables : Tables) (other : Option CursorRow) (databases : Databases) (cursor : CursorRow)
      (read : Option CursorRow)
      → read ≡ some cursor
      → (cursor.updated_at == 0) ≡ false
      → (elim read [
        | none ↦ (databases, throw "notification_cursor_missing")
        | some row ↦
            if row.updated_at == 0
            then bootstrap digest_id order_by available now tables other databases
            else deliver_events digest_id order_by available now tables row databases
      ])
        ≡ deliver_events digest_id order_by available now tables cursor databases
  from_cursor tables other databases cursor read e later = rw (e, later) refl

  pub discover-deliver_events :
      (tables : Tables) (other : Option CursorRow) (databases : Databases) (cursor : CursorRow)
      → databases.cursor ≡ some cursor
      → (cursor.updated_at == 0) ≡ false
      → discover_notification_events digest_id order_by available now tables other databases
        ≡ deliver_events digest_id order_by available now tables cursor databases
  unfolding discover_notification_events
  discover-deliver_events tables other databases cursor at_cursor later =
      from_cursor tables other databases cursor databases.cursor at_cursor later

  -- A run past the first, whatever writes are refused, does not move the cursor back, removes from the queue
  -- only events that the cursor has passed, and keeps every delivery.
  pub discover_notification_events-Advances :
      (tables : Tables) (other : Option CursorRow) (databases : Databases) (cursor : CursorRow)
      → databases.cursor ≡ some cursor
      → (cursor.updated_at == 0) ≡ false
      → Advances databases
          (discover_notification_events digest_id order_by available now tables other databases).0
  discover_notification_events-Advances tables other databases cursor at_cursor later =
      rw (discover-deliver_events tables other databases cursor at_cursor later)
        (deliver_events-Advances tables databases cursor at_cursor)
