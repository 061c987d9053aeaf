-- ===== src/Notifications/Batch.antt =====
-- deliverNotificationOutbox of workers/notifications/src/outbox.ts. The candidates are in the order of
-- the query; `deliver` of a row is `deliverOne`, and only its outcome is counted.
use alphaping.Prelude.{ℕ, zero, suc, ◌+◌, List, [], ◌∷◌, take, drop, filter, length}
use alphaping.Prelude.Outcome.{Outcome, ok, stuck}
use alphaping.Notifications.Outbox.{
  DeliveryRow, DeliveryOutcome, delivered, failed, skipped, is_claimable,
}

abbrev pub delivery_limit : ℕ
delivery_limit = 50

abbrev pub concurrency : ℕ
concurrency = 5

pub record DeliveryBatchResult : Type 0 where
  pub attempted : ℕ
  pub sent : ℕ
  pub failed : ℕ

-- WHERE … LIMIT ?
unfoldable pub candidates_of : List DeliveryRow → ℕ → List DeliveryRow
candidates_of rows now = take delivery_limit (filter (λ row. is_claimable row now) rows)

module _ (deliver : DeliveryRow → DeliveryOutcome) where
  unfoldable pub count_sent : List DeliveryRow → ℕ
  count_sent [] = 0
  count_sent (row ∷ batch) =
      let rest = count_sent batch in
      elim (deliver row) [ delivered ↦ suc rest | failed ↦ rest | skipped ↦ rest ]

  unfoldable pub count_failed : List DeliveryRow → ℕ
  count_failed [] = 0
  count_failed (row ∷ batch) =
      let rest = count_failed batch in
      elim (deliver row) [ delivered ↦ rest | failed ↦ suc rest | skipped ↦ rest ]

  -- The list holds the candidates from the offset on.
  unfoldable pub delivery_loop : ℕ → List DeliveryRow → ℕ → ℕ → Outcome DeliveryBatchResult
  unfolding count_sent count_failed
  delivery_loop fuel [] sent failures =
      ok (record { attempted = sent + failures; sent = sent; failed = failures })
  delivery_loop zero (row ∷ rows) sent failures = stuck
  delivery_loop (suc fuel) (row ∷ rows) sent failures =
      let batch = take concurrency (row ∷ rows) in
      delivery_loop fuel (drop concurrency (row ∷ rows)) (sent + count_sent batch)
        (failures + count_failed batch)

  -- A round takes a candidate at least.
  unfoldable pub deliver_notification_outbox : List DeliveryRow → ℕ → Outcome DeliveryBatchResult
  unfolding candidates_of delivery_loop
  deliver_notification_outbox rows now =
      let candidates = candidates_of rows now in delivery_loop (length candidates) candidates 0 0
