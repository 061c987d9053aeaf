-- ===== src/Checks/Liveness/Stale.antt =====
-- Which machines a reconciliation marks offline, also where other writers came in between.
use mathlib.Core.List.{Memᴰ}
use mathlib.Core.Path.{subst}
use alphaping.Prelude.{
  ℕ, ◌+◌, ◌*◌, ◌≤◌, ◌≡◌, ◌≢◌, ◌⊎◌, inl, inr, refl, ap, ◌∙◌, true, false, some, List, [], ◌∷◌, map,
  arith, All, Bool-cases, Option-cases, sym,
}
use alphaping.Checks.Liveness.{
  MachineState, offline, maintenance, same_state, MachineControlRow, MachineLatestRow,
  OfflineTransition, LivenessTables, is_after, offline_transition_at, find_latest, is_unchanged,
  mark_offline, insert_events, persist_offline_transitions, offline_transitions,
  reconcile_machine_liveness,
}

-- All updates of a row, one after another.
abbrev pub settle : List OfflineTransition → MachineLatestRow → MachineLatestRow
settle [] row = row
settle (transition ∷ transitions) row = settle transitions (mark_offline transition row)

map-map :
    (f g : MachineLatestRow → MachineLatestRow) (rows : List MachineLatestRow)
    → map g (map f rows) ≡ map (λ row. g (f row)) rows
map-map f g [] = refl
map-map f g (row ∷ rows) = ap (λ t. g (f row) ∷ t) (map-map f g rows)

map-same : (rows : List MachineLatestRow) → map (λ row. row) rows ≡ rows
map-same [] = refl
map-same (row ∷ rows) = ap (λ t. row ∷ t) (map-same rows)

persist-latest :
    (transitions : List OfflineTransition) (tables : LivenessTables)
    → (persist_offline_transitions transitions tables).0.latest
      ≡ map (settle transitions) tables.latest
unfolding persist_offline_transitions
persist-latest [] tables = rw (map-same tables.latest)
persist-latest (t ∷ ts) tables =
    persist-latest ts (record {
      latest = map (mark_offline t) tables.latest;
      events = insert_events t tables.latest tables.events;
    })
    ∙ map-map (mark_offline t) (settle ts) tables.latest

-- The machine has not been heard of for its window, is not in maintenance, and was not offline.
pub record IsStale (machines : List MachineControlRow) (now machine_pk received_at : ℕ)
    (state : MachineState) : Type 0 where
  pub machine : MachineControlRow
  pub listed : Memᴰ machine machines
  pub same_machine : machine.telemetry_pk ≡ machine_pk
  pub overdue : received_at + machine.offline_after_seconds * 1000 ≤ now
  pub not_maintained : is_after machine.maintenance_until now ≡ false
  pub not_offline : state ≢ offline
  pub not_maintenance : state ≢ maintenance

abbrev IsJustified : List MachineControlRow → ℕ → OfflineTransition → Type 0
IsJustified machines now t = IsStale machines now t.machine_pk t.received_at t.previous_state

transition_facts :
    (machine : MachineControlRow) (row : MachineLatestRow) (now : ℕ) {at : ℕ}
    → offline_transition_at machine row now ≡ some at
    → (row.received_at + machine.offline_after_seconds * 1000 ≤ now)
      × (is_after machine.maintenance_until now ≡ false)
      × (row.state ≢ offline)
      × (row.state ≢ maintenance)
unfolding offline_transition_at
transition_facts machine row now e =
    (ground arith, ground arith, (λ s. ground arith), (λ s. ground arith))

IsStale-cons :
    (m : MachineControlRow) (ms : List MachineControlRow) (now pk received : ℕ)
    (state : MachineState)
    → IsStale ms now pk received state
    → IsStale (m ∷ ms) now pk received state
IsStale-cons m ms now pk received state s = record {
  machine = s.machine;
  listed = Memᴰ.tail s.listed;
  same_machine = s.same_machine;
  overdue = s.overdue;
  not_maintained = s.not_maintained;
  not_offline = s.not_offline;
  not_maintenance = s.not_maintenance;
}

All-cons :
    (m : MachineControlRow) (ms : List MachineControlRow) (now : ℕ) (ts : List OfflineTransition)
    → All (IsJustified ms now) ts
    → All (IsJustified (m ∷ ms) now) ts
All-cons m ms now [] a = tt
All-cons m ms now (t ∷ ts) a = (
  IsStale-cons m ms now t.machine_pk t.received_at t.previous_state a.0,
  All-cons m ms now ts a.1,
)

module _ (event_id : ℕ → ℕ → ℕ) (read : List MachineLatestRow) (now : ℕ) where
  transitions-IsJustified :
      (machines : List MachineControlRow)
      → All (IsJustified machines now) (offline_transitions event_id read now machines)
  unfolding offline_transitions
  transitions-IsJustified [] = tt
  transitions-IsJustified (m ∷ ms) =
      let rest = All-cons m ms now _ (transitions-IsJustified ms) in
      elim (Option-cases (find_latest read m.telemetry_pk)) [
        | inl missing ↦ rw (missing, offline_transitions, All) rest
        | inr (row, found) ↦ elim (Option-cases (offline_transition_at m row now)) [
          | inl none_due ↦ rw (found, none_due, offline_transitions, All) rest
          | inr (at, due) ↦
              let (overdue, not_maintained, not_offline, not_maintenance) =
                transition_facts m row now due in
              rw (found, due, offline_transitions, All)
                (
                  record {
                    machine = m;
                    listed = Memᴰ.head refl;
                    same_machine = refl;
                    overdue = overdue;
                    not_maintained = not_maintained;
                    not_offline = not_offline;
                    not_maintenance = not_maintenance;
                  },
                  rest,
                )
        ]
      ]

-- A row that is offline, or that no transition fits, stays as it is.
abbrev IsSettled : List MachineControlRow → ℕ → MachineLatestRow → MachineLatestRow → Type 0
IsSettled machines now row final =
    (final ≡ row)
    ⊎ ((final ≡ record row { state = offline })
        × IsStale machines now row.machine_pk row.received_at row.state)

same_state-eq : (a b : MachineState) → same_state a b ≡ true → a ≡ b
same_state-eq a b e = ground arith

unchanged_fields :
    (t : OfflineTransition) (current : MachineLatestRow)
    → is_unchanged t current ≡ true
    → (t.machine_pk ≡ current.machine_pk)
      × (t.received_at ≡ current.received_at)
      × (t.previous_state ≡ current.state)
unchanged_fields t current e =
    (ground arith, ground arith, sym (same_state-eq current.state t.previous_state (ground arith)))

unchanged-IsStale :
    (machines : List MachineControlRow) (now : ℕ) (t : OfflineTransition)
    (current : MachineLatestRow)
    → IsJustified machines now t
    → is_unchanged t current ≡ true
    → IsStale machines now current.machine_pk current.received_at current.state
unchanged-IsStale machines now t current j e =
    let (same_pk, same_received, same) = unchanged_fields t current e in
    rw (← same_pk, ← same_received, ← same) j

mark-IsSettled :
    (machines : List MachineControlRow) (now : ℕ) (t : OfflineTransition)
    (row current : MachineLatestRow)
    → IsJustified machines now t
    → IsSettled machines now row current
    → IsSettled machines now row (mark_offline t current)
unfolding mark_offline
mark-IsSettled machines now t row current j s = elim (Bool-cases (is_unchanged t current)) [
  | inl unchanged ↦ rw unchanged (elim s [
    | inl e ↦
        subst (λ r. IsSettled machines now r (record current { state = offline })) e
          (inr (refl, unchanged-IsStale machines now t current j unchanged))
    | inr (e, _) ↦
        elim (j.not_offline ((unchanged_fields t current unchanged).2 ∙ ap (λ r. r.state) e)) [ ]
  ])
  | inr changed ↦ rw changed s
]

settle-IsSettled :
    (machines : List MachineControlRow) (now : ℕ) (ts : List OfflineTransition)
    (row current : MachineLatestRow)
    → All (IsJustified machines now) ts
    → IsSettled machines now row current
    → IsSettled machines now row (settle ts current)
settle-IsSettled machines now [] row current j s = s
settle-IsSettled machines now (t ∷ ts) row current j s =
    settle-IsSettled machines now ts row (mark_offline t current) j.1
      (mark-IsSettled machines now t row current j.0 s)

-- The states of two lists of rows, one after another, are related as `IsSettled` says.
abbrev pub AreSettled :
    List MachineControlRow → ℕ → List MachineLatestRow → List MachineLatestRow → Type 0
AreSettled machines now [] [] = Unit
AreSettled machines now (row ∷ rows) (final ∷ finals) =
    IsSettled machines now row final × AreSettled machines now rows finals
AreSettled machines now _ _ = ⊥

map-AreSettled :
    (machines : List MachineControlRow) (now : ℕ) (ts : List OfflineTransition)
    → All (IsJustified machines now) ts
    → (rows : List MachineLatestRow) → AreSettled machines now rows (map (settle ts) rows)
map-AreSettled machines now ts j [] = tt
map-AreSettled machines now ts j (row ∷ rows) =
    (settle-IsSettled machines now ts row row j (inl refl), map-AreSettled machines now ts j rows)

-- Whatever rows were read before, a reconciliation changes no row of the tables that it meets but by
-- marking it offline, and then a listed machine with the row's key is overdue by that row's own time
-- of receipt and not in maintenance, and the row was neither offline nor in maintenance.
pub reconcile_machine_liveness_sound :
    (event_id : ℕ → ℕ → ℕ) (read : List MachineLatestRow) (tables : LivenessTables) (now : ℕ)
    (machines : List MachineControlRow)
    → AreSettled machines now tables.latest
        (reconcile_machine_liveness event_id read tables now machines).0.latest
unfolding reconcile_machine_liveness
reconcile_machine_liveness_sound event_id read tables now machines =
    subst (AreSettled machines now tables.latest)
      (sym (persist-latest (offline_transitions event_id read now machines) tables))
      (map-AreSettled machines now (offline_transitions event_id read now machines)
        (transitions-IsJustified event_id read now machines) tables.latest)
