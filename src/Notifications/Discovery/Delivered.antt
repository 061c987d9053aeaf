-- ===== src/Notifications/Discovery/Delivered.antt =====
-- `discoverNotificationEvents` of workers/notifications/src/discovery.ts: what the cursor passes has its
-- deliveries.
use mathlib.Core.List.{Memᴰ}
use alphaping.Prelude.{
  ℕ, ◌≤◌, ◌<◌, ◌≡◌, refl, Bool, true, false, Bool-cases, inl, inr, ◌==◌, Option, none, some, String,
  List, length, arith,
}
use alphaping.Prelude.Outcome.{Outcome, ok, throw, stuck}
use alphaping.Notifications.Discovery.{
  CursorRow, QueuedEvent, StateEvent, StateEventRow, ResolvedResource, RuleRow, Identity,
  DiscoveryResult, Tables, Databases, Write, clean, move_cursor, find_event, load_events,
  resolve_resources, get_resource, update_cursor,
}
use alphaping.Notifications.Discovery.Rules.{rule_key, is_active, load_rules}
use alphaping.Notifications.Discovery.Run.{
  sequence_after, delivery_of, prepare_deliveries, persist_deliveries, clean_up, update_row,
  finish_run, deliver_rows, deliver_events, discover_notification_events,
}
use alphaping.Notifications.Discovery.Events.{IsIncreasing, load_events-Memᴰ}
use alphaping.Notifications.Discovery.Requested.{load_rules-Memᴰ}
use alphaping.Notifications.Discovery.Inserts.{
  is_known, prepare_deliveries-Memᴰ, persist_deliveries-known,
}

abbrev pub cursor_at : Option CursorRow → ℕ
cursor_at none = 0
cursor_at (some cursor) = cursor.last_sequence

module _ (digest_id : Identity → String) (order_by : List RuleRow → List RuleRow)
    (available : Write → Bool) (now : ℕ) where
  clean_up-cursor :
      (databases : Databases) (sequence : ℕ) (result : DiscoveryResult)
      → (clean_up digest_id order_by available now databases sequence result).0.cursor
        ≡ databases.cursor
  unfolding clean_up
  clean_up-cursor databases sequence result = elim (Bool-cases (available clean)) [
    | inl h ↦ rw h refl
    | inr h ↦ rw h refl
  ]

  pub clean_up-deliveries :
      (databases : Databases) (sequence : ℕ) (result : DiscoveryResult)
      → (clean_up digest_id order_by available now databases sequence result).0.deliveries
        ≡ databases.deliveries
  unfolding clean_up
  clean_up-deliveries databases sequence result = elim (Bool-cases (available clean)) [
    | inl h ↦ rw h refl
    | inr h ↦ rw h refl
  ]

  pub finish_run-deliveries :
      (sequence : ℕ) (result : DiscoveryResult) (databases : Databases)
      (persisted : Outcome (Unit {0}))
      → (finish_run digest_id order_by available now sequence result databases
          persisted).0.deliveries
        ≡ databases.deliveries
  unfolding finish_run
  finish_run-deliveries sequence result databases (throw message) = refl
  finish_run-deliveries sequence result databases stuck = refl
  finish_run-deliveries sequence result databases (ok unit) =
      elim (Bool-cases (available move_cursor)) [
        | inl h ↦
            rw (finish_run, h)
              (clean_up-deliveries
                (record databases {
                  cursor = update_row digest_id order_by available now databases.cursor sequence;
                })
                sequence result)
        | inr h ↦ rw (finish_run, h) refl
      ]

  update_row-le :
      (cursor : Option CursorRow) (sequence : ℕ)
      → cursor_at cursor < cursor_at (update_row digest_id order_by available now cursor sequence)
      → cursor_at (update_row digest_id order_by available now cursor sequence) ≤ sequence
  unfolding update_cursor
  update_row-le none sequence h = omega arith
  update_row-le (some cursor) sequence h = ground (arith, h)

  -- The cursor moves where all is persisted only, and to the sequence at most.
  finish_run-cursor :
      (sequence : ℕ) (result : DiscoveryResult) (databases : Databases)
      (persisted : Outcome (Unit {0}))
      → cursor_at databases.cursor
        < cursor_at
            (finish_run digest_id order_by available now sequence result databases
              persisted).0.cursor
      → (persisted ≡ ok tt)
        × (cursor_at
              (finish_run digest_id order_by available now sequence result databases
                persisted).0.cursor
            ≤ sequence)
  unfolding finish_run
  finish_run-cursor sequence result databases (throw message) h = absurd (omega (arith, h))
  finish_run-cursor sequence result databases stuck h = absurd (omega (arith, h))
  finish_run-cursor sequence result databases (ok unit) h =
      elim (Bool-cases (available move_cursor)) [
        | inr refused ↦ absurd (let h' = rw (finish_run, refused) at h in omega (arith, h'))
        | inl moved ↦
            let moved_to : Databases = record databases {
              cursor = update_row digest_id order_by available now databases.cursor sequence;
            } in
            let same = clean_up-cursor moved_to sequence result in
            (
              refl,
              rw (finish_run, moved, same)
                  (update_row-le databases.cursor sequence (rw (finish_run, moved, same) at h)),
            )
      ]

  -- What a row gives is known, where the cursor passes it.
  deliver_rows-known :
      (sequence : ℕ) (resources : List ResolvedResource) (rows : List StateEventRow)
      (databases : Databases) (rules : List RuleRow) (row : StateEventRow)
      (found : ResolvedResource) (rule : RuleRow)
      → Memᴰ row rows
      → get_resource resources row.event.key ≡ some found
      → Memᴰ rule rules
      → rule.key ≡ rule_key found row.event
      → cursor_at databases.cursor
        < cursor_at
            (deliver_rows digest_id order_by available now sequence resources rows databases
              (ok rules)).0.cursor
      → is_known
          (deliver_rows digest_id order_by available now sequence resources rows databases
            (ok rules)).0.deliveries
          (delivery_of digest_id order_by row found rule)
        ≡ true
  unfolding deliver_rows
  deliver_rows-known sequence resources rows databases rules row found rule m resolved m' same h =
      let deliveries = prepare_deliveries digest_id order_by resources rules rows in
      let (persisted, _) = finish_run-cursor _ _ _ _ h in
      rw (finish_run-deliveries _ _ _ _) (
        persist_deliveries-known digest_id order_by available now (length deliveries) 0 deliveries
          databases.deliveries (delivery_of digest_id order_by row found rule) persisted
          (prepare_deliveries-Memᴰ digest_id order_by resources rules rows row found rule m resolved
            m' same))

  -- The rules are loaded, and the new cursor is not past the rows, where it moves.
  deliver_rows-cursor :
      (sequence : ℕ) (resources : List ResolvedResource) (rows : List StateEventRow)
      (databases : Databases) (loaded : Outcome (List RuleRow))
      → cursor_at databases.cursor
        < cursor_at
            (deliver_rows digest_id order_by available now sequence resources rows databases
              loaded).0.cursor
      → (rules : List RuleRow) × (loaded ≡ ok rules)
        × (cursor_at
              (deliver_rows digest_id order_by available now sequence resources rows databases
                loaded).0.cursor
            ≤ sequence_after sequence rows)
  unfolding deliver_rows
  deliver_rows-cursor sequence resources rows databases (throw message) h =
      absurd (omega (arith, h))
  deliver_rows-cursor sequence resources rows databases stuck h = absurd (omega (arith, h))
  deliver_rows-cursor sequence resources rows databases (ok rules) h =
      let deliveries = prepare_deliveries digest_id order_by resources rules rows in
      let written =
        persist_deliveries digest_id order_by available now (length deliveries) 0 deliveries
          databases.deliveries in
      let (_, bound) =
        finish_run-cursor (sequence_after sequence rows)
          (record { scanned = length rows; enqueued = length deliveries; bootstrapped = false })
          (record databases { deliveries = written.0 }) written.1 h in
      (rules, refl, bound)

  module _
      (ordered : (rules : List RuleRow) (rule : RuleRow)
        → Memᴰ rule rules
        → Memᴰ rule (order_by rules))
      (tables : Tables) (databases : Databases) (cursor : CursorRow) where
    deliver_events-known :
        (queued : QueuedEvent) (event : StateEvent) (found : ResolvedResource) (rule : RuleRow)
        → databases.cursor ≡ some cursor
        → IsIncreasing databases.queue
        → Memᴰ queued databases.queue
        → cursor.last_sequence < queued.sequence
        → queued.sequence
          ≤ cursor_at
              (deliver_events digest_id order_by available now tables cursor databases).0.cursor
        → find_event tables.events queued.key ≡ some event
        → get_resource (resolve_resources tables (load_events tables databases cursor)) event.key
          ≡ some found
        → Memᴰ rule tables.rules
        → is_active tables rule ≡ true
        → rule.key ≡ rule_key found event
        → is_known
            (deliver_events digest_id order_by available now tables cursor databases).0.deliveries
            (delivery_of digest_id order_by
              (record { sequence = queued.sequence; event = event })
              found
              rule)
          ≡ true
    unfolding deliver_events
    deliver_events-known queued event found rule at_cursor sorted m past passed exists resolved m'
          active same =
        let rows = load_events tables databases cursor in
        let resources = resolve_resources tables rows in
        let row : StateEventRow = record { sequence = queued.sequence; event = event } in
        elim (Bool-cases (length rows == 0)) [
          | inl empty ↦
              let h =
                rw
                  (
                    deliver_events,
                    empty,
                    clean_up-cursor databases cursor.last_sequence
                        (record { scanned = 0; enqueued = 0; bootstrapped = false }),
                    at_cursor,
                  )
                  at passed in
              absurd (omega (arith, h, past))
          | inr some_rows ↦
              let loaded = load_rules order_by tables resources rows in
              let h = rw (deliver_events, some_rows) at passed in
              let moved : cursor_at databases.cursor
                  < cursor_at
                      (deliver_rows digest_id order_by available now cursor.last_sequence resources
                        rows databases loaded).0.cursor =
                (let here : cursor_at databases.cursor ≡ cursor.last_sequence = rw at_cursor refl in
                  omega (arith, here, h, past)) in
              let (rules, e, bound) =
                deliver_rows-cursor cursor.last_sequence resources rows databases loaded moved in
              let m'' =
                load_events-Memᴰ tables databases cursor queued event sorted m past exists
                  (omega (arith, h, bound)) in
              rw (deliver_events, some_rows, e)
                (deliver_rows-known cursor.last_sequence resources rows databases rules row found
                  rule m'' resolved
                  (load_rules-Memᴰ tables order_by ordered resources rows row found rule rules e m''
                    resolved m' active same)
                  same (rw e at moved))
        ]

    -- For a run past the first, whatever writes are refused: a queued event that the cursor passes in it,
    -- whose event and resource are there, has a delivery for each active rule of its workspace, resource and
    -- dimension. The order of the rules keeps each.
    pub discover_notification_events-known :
        (other : Option CursorRow) (queued : QueuedEvent) (event : StateEvent)
        (found : ResolvedResource) (rule : RuleRow)
        → databases.cursor ≡ some cursor
        → (cursor.updated_at == 0) ≡ false
        → IsIncreasing databases.queue
        → Memᴰ queued databases.queue
        → cursor.last_sequence < queued.sequence
        → queued.sequence
          ≤ cursor_at
              (discover_notification_events digest_id order_by available now tables other
                databases).0.cursor
        → find_event tables.events queued.key ≡ some event
        → get_resource (resolve_resources tables (load_events tables databases cursor)) event.key
          ≡ some found
        → Memᴰ rule tables.rules
        → is_active tables rule ≡ true
        → rule.key ≡ rule_key found event
        → is_known
            (discover_notification_events digest_id order_by available now tables other
              databases).0.deliveries
            (delivery_of digest_id order_by
              (record { sequence = queued.sequence; event = event })
              found
              rule)
          ≡ true
    unfolding discover_notification_events
    discover_notification_events-known other queued event found rule at_cursor later sorted m past
          passed exists resolved m' active same =
        rw (discover_notification_events, at_cursor, later)
          (deliver_events-known queued event found rule at_cursor sorted m past
            (rw (discover_notification_events, at_cursor, later) at passed) exists resolved m'
            active same)
