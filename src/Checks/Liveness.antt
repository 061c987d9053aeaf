-- ===== src/Checks/Liveness.antt =====
-- workers/checks/src/machine-liveness.ts: machines that stopped reporting become offline.
pub mod Stale
use alphaping.Prelude.{
  ℕ, suc, ◌+◌, ◌*◌, ◌≤◌, ◌<◌, ◌≡◌, ◌≢◌, ◌⊎◌, inl, inr, refl, sym, Bool, true, false, Option, none,
  some, ◌&&◌, ◌||◌, not, leb, ltb, ◌==◌, if◌then◌else◌, List, [], ◌∷◌, ◌++◌, map, arith, length,
  Bool-cases, Option-cases, any,
}

pub data MachineState : Type 0 where
  healthy degraded down offline maintenance unknown : MachineState

abbrev pub same_state : MachineState → MachineState → Bool
same_state healthy healthy = true
same_state degraded degraded = true
same_state down down = true
same_state offline offline = true
same_state maintenance maintenance = true
same_state unknown unknown = true
same_state _ _ = false

pub record MachineControlRow : Type 0 where
  pub telemetry_pk : ℕ
  pub offline_after_seconds : ℕ
  pub maintenance_until : Option ℕ

-- The columns of machine_latest that this code uses.
pub record MachineLatestRow : Type 0 where
  pub machine_pk : ℕ
  pub workspace_pk : ℕ
  pub received_at : ℕ
  pub state : MachineState

pub record OfflineTransition : Type 0 where
  pub event_id : ℕ
  pub machine_pk : ℕ
  pub occurred_at : ℕ
  pub previous_state : MachineState
  pub received_at : ℕ

-- A row of state_events for a machine.
pub record OfflineEvent : Type 0 where
  pub workspace_pk : ℕ
  pub machine_pk : ℕ
  pub occurred_at : ℕ
  pub event_id : ℕ
  pub previous_state : MachineState

pub record LivenessTables : Type 0 where
  pub latest : List MachineLatestRow
  pub events : List OfflineEvent

abbrev pub is_after : Option ℕ → ℕ → Bool
is_after none now = false
is_after (some until) now = ltb now until

unfoldable pub offline_transition_at : MachineControlRow → MachineLatestRow → ℕ → Option ℕ
offline_transition_at machine latest now =
    let transition_at = latest.received_at + machine.offline_after_seconds * 1000 in
    if same_state latest.state offline
      || same_state latest.state maintenance
      || is_after machine.maintenance_until now
    then none
    else if leb transition_at now
    then some transition_at
    else none

-- The map that `loadLatestRows` fills: the row of a machine. The key is primary, so it has one.
unfoldable pub find_latest : List MachineLatestRow → ℕ → Option MachineLatestRow
find_latest [] machine_pk = none
find_latest (row ∷ rows) machine_pk =
    if row.machine_pk == machine_pk then some row else find_latest rows machine_pk

-- `WHERE machine_pk = ? AND received_at = ? AND state = ?`
abbrev pub is_unchanged : OfflineTransition → MachineLatestRow → Bool
is_unchanged transition row =
    row.machine_pk == transition.machine_pk
    && (row.received_at == transition.received_at && same_state row.state transition.previous_state)

abbrev pub has_event : OfflineTransition → List OfflineEvent → Bool
has_event transition = any (λ event.
    event.machine_pk == transition.machine_pk
    && (event.occurred_at == transition.occurred_at && event.event_id == transition.event_id))

-- INSERT OR IGNORE … SELECT: an event for the row, if it is as it was read.
unfoldable pub insert_events :
    OfflineTransition → List MachineLatestRow → List OfflineEvent → List OfflineEvent
insert_events transition [] events = events
insert_events transition (row ∷ rows) events = insert_events transition rows (
    if is_unchanged transition row && not (has_event transition events)
    then events
      ++ record {
        workspace_pk = row.workspace_pk;
        machine_pk = row.machine_pk;
        occurred_at = transition.occurred_at;
        event_id = transition.event_id;
        previous_state = row.state;
      }
        ∷ []
    else events)

-- UPDATE machine_latest SET state = 'offline', for a row.
unfoldable pub mark_offline : OfflineTransition → MachineLatestRow → MachineLatestRow
mark_offline transition row =
    if is_unchanged transition row then record row { state = offline } else row

-- `meta.changes` of the update.
unfoldable pub count_unchanged : OfflineTransition → List MachineLatestRow → ℕ
count_unchanged transition [] = 0
count_unchanged transition (row ∷ rows) =
    let rest = count_unchanged transition rows in
    if is_unchanged transition row then suc rest else rest

-- The statements of the batches, which the database runs in their order.
unfoldable pub persist_offline_transitions :
    List OfflineTransition → LivenessTables → LivenessTables × ℕ
unfolding insert_events mark_offline count_unchanged
persist_offline_transitions [] tables = (tables, 0)
persist_offline_transitions (transition ∷ transitions) tables =
    let changes = count_unchanged transition tables.latest in
    let (final, transitioned) = persist_offline_transitions transitions (record {
      latest = map (mark_offline transition) tables.latest;
      events = insert_events transition tables.latest tables.events;
    }) in
    (final, changes + transitioned)

-- `event_id` is the digest of a machine and a time, as a number. The rows are read first; other
-- writers may come before the statements, so the tables that these meet are an argument.
module _ (event_id : ℕ → ℕ → ℕ) where
  unfoldable pub offline_transitions :
      List MachineLatestRow → ℕ → List MachineControlRow → List OfflineTransition
  offline_transitions read now [] = []
  offline_transitions read now (machine ∷ machines) =
      let rest = offline_transitions read now machines in
      elim (find_latest read machine.telemetry_pk) [
        | none ↦ rest
        | some latest ↦ elim (offline_transition_at machine latest now) [
          | none ↦ rest
          | some occurred_at ↦
              record {
                event_id = event_id machine.telemetry_pk occurred_at;
                machine_pk = machine.telemetry_pk;
                occurred_at = occurred_at;
                previous_state = latest.state;
                received_at = latest.received_at;
              }
              ∷ rest
        ]
      ]

  unfoldable pub reconcile_machine_liveness :
      List MachineLatestRow → LivenessTables → ℕ → List MachineControlRow → LivenessTables × (ℕ × ℕ)
  unfolding offline_transitions persist_offline_transitions
  reconcile_machine_liveness read tables now machines =
      let (final, transitioned) =
        persist_offline_transitions (offline_transitions read now machines) tables in
      (final, (length machines, transitioned))
