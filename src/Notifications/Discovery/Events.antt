-- ===== src/Notifications/Discovery/Events.antt =====
-- `loadEvents` of workers/notifications/src/discovery.ts: an event that the new cursor passes is loaded.
use mathlib.Core.List.{Memᴰ}
use alphaping.Prelude.{
  ℕ, zero, suc, ◌≤◌, ◌<◌, ◌≡◌, Bool, true, Bool-cases, inl, inr, ltb, lt→ltb, some, Option-cases,
  List, [], ◌∷◌, filter, take, All, All-mono, All-filter, All-Memᴰ, Memᴰ-filter, arith, ap,
}
use alphaping.Notifications.Discovery.{
  CursorRow, QueuedEvent, StateEvent, StateEventRow, Tables, Databases, event_limit, find_event,
  join_events, load_events,
}
use alphaping.Notifications.Discovery.Run.{sequence_after}

-- Rows in the order of the primary key.
abbrev pub IsIncreasing : List QueuedEvent → Type 0
IsIncreasing [] = Unit
IsIncreasing (queued ∷ queue) =
    All (λ later. queued.sequence < later.sequence) queue × IsIncreasing queue

abbrev IsSorted : List StateEventRow → Type 0
IsSorted [] = Unit
IsSorted (row ∷ rows) = All (λ later. row.sequence < later.sequence) rows × IsSorted rows

filter-IsIncreasing :
    (test : QueuedEvent → Bool) (queue : List QueuedEvent)
    → IsIncreasing queue
    → IsIncreasing (filter test queue)
filter-IsIncreasing test [] sorted = tt
filter-IsIncreasing test (queued ∷ queue) (below, sorted) = elim (Bool-cases (test queued)) [
  | inl e ↦ rw e (
    All-mono {P = λ later. (queued.sequence < later.sequence) × (test later ≡ true)}
        (filter test queue) (λ later (less, _). less)
        (All-filter (λ later. queued.sequence < later.sequence) test queue below),
    filter-IsIncreasing test queue sorted,
  )
  | inr e ↦ rw e (filter-IsIncreasing test queue sorted)
]

module _ (events : List StateEvent) where
  join_events-All :
      (P : ℕ → Type 0) (queue : List QueuedEvent)
      → All (λ queued. P queued.sequence) queue
      → All (λ row. P row.sequence) (join_events events queue)
  unfolding join_events
  join_events-All P [] ps = tt
  join_events-All P (queued ∷ queue) (p, ps) = elim (Option-cases (find_event events queued.key)) [
    | inl e ↦ rw (join_events, e) (join_events-All P queue ps)
    | inr (event, e) ↦ rw (join_events, e) (p, join_events-All P queue ps)
  ]

  join_events-IsSorted :
      (queue : List QueuedEvent) → IsIncreasing queue → IsSorted (join_events events queue)
  unfolding join_events
  join_events-IsSorted [] sorted = tt
  join_events-IsSorted (queued ∷ queue) (below, sorted) =
      elim (Option-cases (find_event events queued.key)) [
        | inl e ↦ rw (join_events, e) (join_events-IsSorted queue sorted)
        | inr (event, e) ↦
            rw (join_events, e)
              (
                join_events-All (λ sequence. queued.sequence < sequence) queue below,
                join_events-IsSorted queue sorted,
              )
      ]

  join_events-Memᴰ :
      (queue : List QueuedEvent) (queued : QueuedEvent) (event : StateEvent)
      → Memᴰ queued queue
      → find_event events queued.key ≡ some event
      → Memᴰ (record { sequence = queued.sequence; event = event }) (join_events events queue)
  unfolding join_events
  join_events-Memᴰ [] queued event m e = elim m [ ]
  join_events-Memᴰ (first ∷ queue) queued event (Memᴰ.head same) e =
      let e' : find_event events first.key ≡ some event = rw (← same) e in
      rw (join_events, e')
        (Memᴰ.head (
          ap {B = StateEventRow}
            (λ (q : QueuedEvent). record { sequence = q.sequence; event = event }) same))
  join_events-Memᴰ (first ∷ queue) queued event (Memᴰ.tail m) e =
      elim (Option-cases (find_event events first.key)) [
        | inl e' ↦ rw (join_events, e') (join_events-Memᴰ queue queued event m e)
        | inr (other, e') ↦
            rw (join_events, e') (Memᴰ.tail (join_events-Memᴰ queue queued event m e))
      ]

last-le :
    (n sequence : ℕ) (rows : List StateEventRow) (bound : ℕ)
    → sequence < bound
    → All (λ row. row.sequence < bound) rows
    → sequence_after sequence (take n rows) < bound
last-le zero sequence rows bound less below = less
last-le (suc n) sequence [] bound less below = less
last-le (suc n) sequence (row ∷ rows) bound less (first, below) =
    last-le n row.sequence rows bound first below

-- Of sorted rows, one that is not past the last of the first few is among them.
take-Memᴰ :
    (n sequence : ℕ) (rows : List StateEventRow) (row : StateEventRow)
    → IsSorted rows
    → Memᴰ row rows
    → sequence < row.sequence
    → row.sequence ≤ sequence_after sequence (take n rows)
    → Memᴰ row (take n rows)
take-Memᴰ zero sequence rows row sorted m less bound = absurd (omega (arith, less, bound))
take-Memᴰ (suc n) sequence [] row sorted m less bound = elim m [ ]
take-Memᴰ (suc n) sequence (first ∷ rows) row sorted (Memᴰ.head e) less bound = Memᴰ.head e
take-Memᴰ (suc n) sequence (first ∷ rows) row (below, sorted) (Memᴰ.tail m) less bound = Memᴰ.tail (
    take-Memᴰ n first.sequence rows row sorted m
      (All-Memᴰ (λ later. first.sequence < later.sequence) rows below m) bound)

-- A queued event past the cursor and not past the last loaded row, whose event is there, is loaded.
pub load_events-Memᴰ :
    (tables : Tables) (databases : Databases) (cursor : CursorRow) (queued : QueuedEvent)
    (event : StateEvent)
    → IsIncreasing databases.queue
    → Memᴰ queued databases.queue
    → cursor.last_sequence < queued.sequence
    → find_event tables.events queued.key ≡ some event
    → queued.sequence ≤ sequence_after cursor.last_sequence (load_events tables databases cursor)
    → Memᴰ
        (record { sequence = queued.sequence; event = event })
        (load_events tables databases cursor)
unfolding load_events
load_events-Memᴰ tables databases cursor queued event sorted m past e bound =
    let is_new : QueuedEvent → Bool = λ queued. ltb cursor.last_sequence queued.sequence in
    let fresh = filter is_new databases.queue in
    take-Memᴰ event_limit cursor.last_sequence (join_events tables.events fresh)
      (record { sequence = queued.sequence; event = event })
      (join_events-IsSorted tables.events fresh (filter-IsIncreasing is_new databases.queue sorted))
      (join_events-Memᴰ tables.events fresh queued event
        (Memᴰ-filter is_new databases.queue m (lt→ltb cursor.last_sequence queued.sequence past)) e)
      past bound
