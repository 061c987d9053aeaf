-- ===== src/Checks/ServiceState.antt =====
-- The state of a service in workers/checks/src/persistence.ts: the function, the query that computes
-- the same from check_latest, and the three statements that record a transition.
pub mod Query
pub mod Transition
use alphaping.Prelude.{
  ℕ, zero, suc, ◌+◌, max, Bool, true, false, Option, none, some, ◌&&◌, ◌||◌, not, ltb, ◌==◌,
  if◌then◌else◌, String, List, [], ◌∷◌, ◌++◌, any,
}
use alphaping.Checks.Result.{
  ResultState, healthy, degraded, down, CheckState, known, unknown, ServiceState, checked,
  maintenance,
}

-- What the function reads of a check.
pub record LatestCheck : Type 0 where
  pub state : CheckState
  pub critical : ℕ

abbrev pub state_is_down : CheckState → Bool
state_is_down (known down) = true
state_is_down _ = false

abbrev pub state_is_failing : CheckState → Bool
state_is_failing (known down) = true
state_is_failing (known degraded) = true
state_is_failing _ = false

abbrev pub state_is_healthy : CheckState → Bool
state_is_healthy (known healthy) = true
state_is_healthy _ = false

-- `maintenanceUntil !== null && maintenanceUntil > now`, and `? > ?` of the query, where NULL
-- is not greater.
abbrev pub in_maintenance : Option ℕ → ℕ → Bool
in_maintenance none now = false
in_maintenance (some until) now = ltb now until

unfoldable pub service_state : List LatestCheck → Option ℕ → ℕ → ServiceState
service_state checks maintenance_until now =
    if in_maintenance maintenance_until now
    then maintenance
    else if any (λ check. check.critical == 1 && state_is_down check.state) checks
    then checked (known down)
    else if any (λ check. state_is_failing check.state) checks
    then checked (known degraded)
    else if any (λ check. state_is_healthy check.state) checks
    then checked (known healthy)
    else checked unknown

-- The CASE expression of the query, for one row.
abbrev pub check_rank : LatestCheck → ℕ
check_rank check =
    if check.critical == 1 && state_is_down check.state
    then 3
    else if state_is_failing check.state
    then 2
    else if state_is_healthy check.state
    then 1
    else 0

-- COALESCE(MAX(…), 0)
unfoldable pub service_aggregate : List LatestCheck → ℕ
service_aggregate [] = 0
service_aggregate (check ∷ checks) = max (check_rank check) (service_aggregate checks)

-- The second CASE expression.
unfoldable pub next_service : List LatestCheck → Option ℕ → ℕ → ServiceState
next_service checks maintenance_until now =
    let rank = service_aggregate checks in
    if in_maintenance maintenance_until now
    then maintenance
    else if rank == 3
    then checked (known down)
    else if rank == 2
    then checked (known degraded)
    else if rank == 1
    then checked (known healthy)
    else checked unknown

abbrev pub service_reason : ServiceState → String
service_reason maintenance = "maintenance_window"
service_reason (checked (known down)) = "check_down"
service_reason (checked (known degraded)) = "check_degraded"
service_reason (checked (known healthy)) = "check_healthy"
service_reason (checked unknown) = "check_unknown"

abbrev pub same_state : ServiceState → ServiceState → Bool
same_state maintenance maintenance = true
same_state (checked (known down)) (checked (known down)) = true
same_state (checked (known degraded)) (checked (known degraded)) = true
same_state (checked (known healthy)) (checked (known healthy)) = true
same_state (checked unknown) (checked unknown) = true
same_state _ _ = false

-- A row of service_latest; the key is the service.
pub record ServiceLatest : Type 0 where
  pub workspace_pk : ℕ
  pub state : ServiceState
  pub status_since : ℕ
  pub reason_code : String
  pub last_transition_at : ℕ
  pub updated_at : ℕ

-- A row of state_events about the service; a digest is the number that its bytes spell.
pub record StateEvent : Type 0 where
  pub workspace_pk : ℕ
  pub occurred_at : ℕ
  pub event_id : ℕ
  pub previous_state : ServiceState
  pub current_state : ServiceState
  pub reason_code : String

-- The rows of the two tables about one service.
pub record ServiceTables : Type 0 where
  pub latest : Option ServiceLatest
  pub events : List StateEvent

abbrev pub has_key : ℕ → ℕ → List StateEvent → Bool
has_key occurred_at event_id =
    any (λ event. event.occurred_at == occurred_at && event.event_id == event_id)

-- COALESCE(previous.state, 'unknown') over the join with our workspace.
abbrev pub previous_state : ℕ → Option ServiceLatest → ServiceState
previous_state workspace_pk none = checked unknown
previous_state workspace_pk (some row) =
    if row.workspace_pk == workspace_pk then row.state else checked unknown

abbrev pub is_foreign : ℕ → Option ServiceLatest → Bool
is_foreign workspace_pk none = false
is_foreign workspace_pk (some row) = not (row.workspace_pk == workspace_pk)

-- The first statement, with what `changes()` reports. `current_result` is the EXISTS on check_latest.
unfoldable pub insert_event : ℕ → ℕ → ℕ → Bool → ServiceState → ServiceTables → ServiceTables × ℕ
insert_event workspace_pk observed_at result_id current_result next tables =
    let previous = previous_state workspace_pk tables.latest in
    let event : StateEvent = record {
      workspace_pk = workspace_pk;
      occurred_at = observed_at;
      event_id = result_id;
      previous_state = previous;
      current_state = next;
      reason_code = service_reason next;
    } in
    if current_result
      && not (is_foreign workspace_pk tables.latest)
      && not (same_state previous next)
      && not (has_key observed_at result_id tables.events)
    then (record tables { events = tables.events ++ event ∷ [] }, 1)
    else (tables, 0)

abbrev pub row_at : ℕ → ServiceState → String → ℕ → ServiceLatest
row_at workspace_pk state reason_code observed_at = record {
  workspace_pk = workspace_pk;
  state = state;
  status_since = observed_at;
  reason_code = reason_code;
  last_transition_at = observed_at;
  updated_at = observed_at;
}

-- The event of this result in our workspace, for the SELECT of the second statement.
unfoldable pub find_event : ℕ → ℕ → ℕ → List StateEvent → Option StateEvent
find_event workspace_pk observed_at result_id [] = none
find_event workspace_pk observed_at result_id (event ∷ events) =
    if event.workspace_pk == workspace_pk
      && (event.occurred_at == observed_at && event.event_id == result_id)
    then some event
    else find_event workspace_pk observed_at result_id events

-- The second statement.
unfoldable pub upsert_latest : ℕ → ℕ → ℕ → ℕ → ServiceTables → ServiceTables
unfolding find_event
upsert_latest workspace_pk observed_at result_id changes tables =
    elim (find_event workspace_pk observed_at result_id tables.events) [
      | none ↦ tables
      | some event ↦
          if changes == 1 && not (is_foreign workspace_pk tables.latest)
          then record tables {
            latest = some (row_at workspace_pk event.current_state event.reason_code observed_at);
          }
          else tables
    ]

abbrev pub is_some {ℓ} : {A : Type ℓ} → Option A → Bool
is_some none = false
is_some (some a) = true

-- The third statement.
unfoldable pub ensure_latest : ℕ → ℕ → ℕ → Bool → ServiceTables → ServiceTables
unfolding find_event
ensure_latest workspace_pk observed_at result_id current_result tables =
    if current_result
      && not (is_some (find_event workspace_pk observed_at result_id tables.events))
      && not (is_some tables.latest)
    then record tables {
      latest = some (row_at workspace_pk (checked unknown) "check_unknown" observed_at);
    }
    else tables

-- The three statements in the batch.
unfoldable pub service_state_statements :
    ℕ → ℕ → ℕ → Bool → ServiceState → ServiceTables → ServiceTables
service_state_statements workspace_pk observed_at result_id current_result next tables =
    let (inserted, changes) =
      insert_event workspace_pk observed_at result_id current_result next tables in
    let updated = upsert_latest workspace_pk observed_at result_id changes inserted in
    ensure_latest workspace_pk observed_at result_id current_result updated
