-- ===== src/Checks/ServiceState/Transition.antt =====
-- What the three statements of prepareServiceStateStatements leave in the tables.
use alphaping.Prelude.{
  ℕ, ◌≡◌, refl, true, false, inl, inr, Bool-cases, Option, none, some, List, [], ◌∷◌, ◌++◌, arith,
  if◌then◌else◌,
}
use alphaping.Checks.Result.{unknown, ServiceState, checked}
use alphaping.Checks.ServiceState.{
  ServiceLatest, StateEvent, ServiceTables, service_reason, same_state, has_key, previous_state,
  is_foreign, insert_event, find_event, upsert_latest, ensure_latest, service_state_statements,
  is_some,
}

same_state-eq : (a b : ServiceState) → same_state a b ≡ true → a ≡ b
same_state-eq a b e = ground arith

module _ (workspace_pk observed_at result_id : ℕ) where
  -- With no event of that key there is none to find, and the appended one is found.
  find_event-none :
      (events : List StateEvent)
      → has_key observed_at result_id events ≡ false
      → find_event workspace_pk observed_at result_id events ≡ none
  unfolding find_event
  find_event-none [] h = refl
  find_event-none (event ∷ events) h = ground (arith, find_event-none events)

  find_event-append :
      (events : List StateEvent) (event : StateEvent)
      → has_key observed_at result_id events ≡ false
      → event.workspace_pk ≡ workspace_pk
      → event.occurred_at ≡ observed_at
      → event.event_id ≡ result_id
      → find_event workspace_pk observed_at result_id (events ++ event ∷ []) ≡ some event
  unfolding find_event
  find_event-append [] event h w o i = ground arith
  find_event-append (e ∷ events) event h w o i = ground (arith, find_event-append events event)

-- The state that the row has, unknown without a row.
abbrev pub state_of : Option ServiceLatest → ServiceState
state_of none = checked unknown
state_of (some row) = row.state

abbrev pub IsOurs : ℕ → Option ServiceLatest → Type 0
IsOurs workspace_pk none = Unit {0}
IsOurs workspace_pk (some row) = row.workspace_pk ≡ workspace_pk

-- The event that a transition appends.
abbrev pub transition_event : ℕ → ℕ → ℕ → ServiceState → ServiceTables → StateEvent
transition_event workspace_pk observed_at result_id next tables = record {
  workspace_pk = workspace_pk;
  occurred_at = observed_at;
  event_id = result_id;
  previous_state = state_of tables.latest;
  current_state = next;
  reason_code = service_reason next;
}

module _ (workspace_pk observed_at result_id : ℕ) (next : ServiceState) (tables : ServiceTables)
    (ours : IsOurs workspace_pk tables.latest)
    (fresh : has_key observed_at result_id tables.events ≡ false) where
  statements : ServiceTables
  statements = service_state_statements workspace_pk observed_at result_id true next tables

  previous-eq : previous_state workspace_pk tables.latest ≡ state_of tables.latest
  previous-eq = go tables.latest ours
    where
      go :
          (row : Option ServiceLatest)
          → IsOurs workspace_pk row
          → previous_state workspace_pk row ≡ state_of row
      go none o = refl
      go (some row) o = ground arith

  not_foreign : is_foreign workspace_pk tables.latest ≡ false
  not_foreign = go tables.latest ours
    where
      go :
          (row : Option ServiceLatest)
          → IsOurs workspace_pk row
          → is_foreign workspace_pk row ≡ false
      go none o = refl
      go (some row) o = ground arith

  when_same :
      same_state (state_of tables.latest) next ≡ true
      → (state_of statements.latest ≡ next)
        × (is_some statements.latest ≡ true)
        × (statements.events ≡ tables.events)
  unfolding statements service_state_statements insert_event upsert_latest ensure_latest
  when_same same =
      let none_there = find_event-none workspace_pk observed_at result_id tables.events fresh in
      let equal = same_state-eq (state_of tables.latest) next same in
      ground (arith, previous-eq, not_foreign, none_there, equal)

  when_changed :
      same_state (state_of tables.latest) next ≡ false
      → (state_of statements.latest ≡ next)
        × (is_some statements.latest ≡ true)
        × (statements.events
            ≡ tables.events ++ transition_event workspace_pk observed_at result_id next tables ∷ [])
  unfolding statements service_state_statements insert_event upsert_latest ensure_latest
  when_changed changed =
      let event = transition_event workspace_pk observed_at result_id next tables in
      let found =
        find_event-append workspace_pk observed_at result_id tables.events event fresh refl refl
          refl in
      ground (arith, previous-eq, not_foreign, found)

without_result :
    (workspace_pk observed_at result_id : ℕ) (next : ServiceState) (tables : ServiceTables)
    → service_state_statements workspace_pk observed_at result_id false next tables ≡ tables
unfolding service_state_statements insert_event upsert_latest ensure_latest
without_result workspace_pk observed_at result_id next tables = ground arith

-- Recording a result that is the check's current one, for a service of this workspace or a new
-- one, and with an event key that is not taken: the row ends in the state that was computed; an event
-- is appended exactly when the state differs from the one before (unknown without a row), and it
-- names both states. Where the result is not the current one, nothing changes.
pub service_state_statements_record :
    (workspace_pk observed_at result_id : ℕ) (next : ServiceState) (tables : ServiceTables)
    → IsOurs workspace_pk tables.latest
    → has_key observed_at result_id tables.events ≡ false
    → let after = service_state_statements workspace_pk observed_at result_id true next tables in
      (state_of after.latest ≡ next)
      × (is_some after.latest ≡ true)
      × (after.events ≡ (
          if same_state (state_of tables.latest) next
          then tables.events
          else tables.events
            ++ transition_event workspace_pk observed_at result_id next tables ∷ []))
      × (service_state_statements workspace_pk observed_at result_id false next tables ≡ tables)
unfolding statements
service_state_statements_record workspace_pk observed_at result_id next tables ours fresh =
    elim (Bool-cases (same_state (state_of tables.latest) next)) [
      | inl same ↦
          let (state, there, events) =
            when_same workspace_pk observed_at result_id next tables ours fresh same in
          rw same (state, there, events, inert)
      | inr changed ↦
          let (state, there, events) =
            when_changed workspace_pk observed_at result_id next tables ours fresh changed in
          rw changed (state, there, events, inert)
    ]
  where
    inert : service_state_statements workspace_pk observed_at result_id false next tables ≡ tables
    inert = without_result workspace_pk observed_at result_id next tables
