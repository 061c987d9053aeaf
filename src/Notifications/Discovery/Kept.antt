-- ===== src/Notifications/Discovery/Kept.antt =====
-- `discoverNotificationEvents` of workers/notifications/src/discovery.ts: what each write keeps.
use mathlib.Core.List.{Memᴰ}
use mathlib.Core.List.Memᴰ
use alphaping.Prelude.{
  ℕ, zero, suc, ◌≤◌, ◌⊎◌, Bool, Bool-cases, inl, inr, leb, leb→le, String, List, [], ◌∷◌, take,
  drop, All, All-mono, All-intro, All-Memᴰ, arith,
}
use alphaping.Notifications.Discovery.{
  QueuedEvent, RuleRow, Identity, DeliveryInsert, DeliveryRow, Databases, Write, insert,
  insert_batch, clean_consumed_events,
}
use alphaping.Notifications.Discovery.Run.{insert_or_ignore, insert_all, persist_deliveries}
use alphaping.Notifications.Discovery.Delivered.{cursor_at}
use alphaping.Notifications.Discovery.Inserts.{is_known}

-- The cursor does not go back, an event that is no longer queued is not past it, and no delivery is lost.
pub record Advances (before after : Databases) : Type 0 where
  pub cursor_le : cursor_at before.cursor ≤ cursor_at after.cursor
  pub queue_kept :
      All
        (λ queued. Memᴰ queued after.queue ⊎ (queued.sequence ≤ cursor_at after.cursor))
        before.queue
  pub deliveries_kept : All (λ row. Memᴰ row after.deliveries) before.deliveries

pub Advances-refl : (databases : Databases) → Advances databases databases
Advances-refl databases = record {
  cursor_le = omega arith;
  queue_kept = All-intro _ databases.queue (λ queued m. inl m);
  deliveries_kept = All-intro _ databases.deliveries (λ row m. m);
}

pub Advances-trans : (a b c : Databases) → Advances a b → Advances b c → Advances a c
Advances-trans a b c ab bc =
    let le = ab.cursor_le in
    let le' = bc.cursor_le in
    record {
      cursor_le = omega (arith, le, le');
      queue_kept =
          All-mono {P = λ queued. Memᴰ queued b.queue ⊎ (queued.sequence ≤ cursor_at b.cursor)}
            a.queue
            (λ queued kept. elim kept [
              | inl m ↦
                  All-Memᴰ (λ queued. Memᴰ queued c.queue ⊎ (queued.sequence ≤ cursor_at c.cursor))
                    b.queue bc.queue_kept m
              | inr passed ↦ inr (omega (arith, passed, le'))
            ])
            ab.queue_kept;
      deliveries_kept =
          All-mono {P = λ row. Memᴰ row b.deliveries} a.deliveries
            (λ row m. All-Memᴰ (λ row. Memᴰ row c.deliveries) b.deliveries bc.deliveries_kept m)
            ab.deliveries_kept;
    }

pub clean_consumed_events-Memᴰ :
    (limit sequence : ℕ) (queue : List QueuedEvent) (queued : QueuedEvent)
    → Memᴰ queued queue
    → Memᴰ queued (clean_consumed_events limit sequence queue) ⊎ (queued.sequence ≤ sequence)
unfolding clean_consumed_events
clean_consumed_events-Memᴰ limit sequence [] queued m = elim m [ ]
clean_consumed_events-Memᴰ zero sequence (first ∷ queue) queued m = inl m
clean_consumed_events-Memᴰ (suc limit) sequence (first ∷ queue) queued (Memᴰ.head e) =
    elim (Bool-cases (leb first.sequence sequence)) [
      | inl passed ↦ inr (rw e (leb→le first.sequence sequence passed))
      | inr kept ↦ rw (clean_consumed_events, kept) (inl (Memᴰ.head e))
    ]
clean_consumed_events-Memᴰ (suc limit) sequence (first ∷ queue) queued (Memᴰ.tail m) =
    elim (Bool-cases (leb first.sequence sequence)) [
      | inl passed ↦
          rw (clean_consumed_events, passed)
            (clean_consumed_events-Memᴰ limit sequence queue queued m)
      | inr kept ↦
          rw (clean_consumed_events, kept)
            (elim (clean_consumed_events-Memᴰ (suc limit) sequence queue queued m) [
              | inl m' ↦ inl (Memᴰ.tail m')
              | inr below ↦ inr below
            ])
    ]

insert_all-Memᴰ :
    (now : ℕ) (rows : List DeliveryRow) (deliveries : List DeliveryInsert) (row : DeliveryRow)
    → Memᴰ row rows
    → Memᴰ row (insert_all now rows deliveries)
unfolding insert_all insert_or_ignore
insert_all-Memᴰ now rows [] row m = m
insert_all-Memᴰ now rows (delivery ∷ deliveries) row m =
    insert_all-Memᴰ now (insert_or_ignore now rows delivery) deliveries row
      (elim (Bool-cases (is_known rows delivery)) [
        | inl h ↦ rw h m
        | inr h ↦ rw h (Memᴰ.append_left (record { delivery = delivery; created_at = now } ∷ []) m)
      ])

module _ (digest_id : Identity → String) (order_by : List RuleRow → List RuleRow)
    (available : Write → Bool) (now : ℕ) where
  pub persist_deliveries-Memᴰ :
      (fuel batch : ℕ) (deliveries : List DeliveryInsert) (rows : List DeliveryRow)
      (row : DeliveryRow)
      → Memᴰ row rows
      → Memᴰ row (persist_deliveries digest_id order_by available now fuel batch deliveries rows).0
  unfolding persist_deliveries
  persist_deliveries-Memᴰ fuel batch [] rows row m = m
  persist_deliveries-Memᴰ zero batch (first ∷ deliveries) rows row m = m
  persist_deliveries-Memᴰ (suc fuel) batch (first ∷ deliveries) rows row m =
      elim (Bool-cases (available (insert batch))) [
        | inr h ↦ rw (persist_deliveries, h) m
        | inl h ↦
            rw (persist_deliveries, h)
              (persist_deliveries-Memᴰ fuel (suc batch) (drop insert_batch (first ∷ deliveries))
                (insert_all now rows (take insert_batch (first ∷ deliveries))) row
                (insert_all-Memᴰ now rows (take insert_batch (first ∷ deliveries)) row m))
      ]
