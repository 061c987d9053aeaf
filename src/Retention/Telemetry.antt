-- ===== src/Retention/Telemetry.antt =====
-- workers/retention/src/telemetry-retention.ts: the removal of old telemetry and of old state events. A
-- table is the list of its rows in the order of its primary key, and a time before 1970 is negative.
pub mod Removed
pub mod Cleaned
use alphaping.Prelude.{
  ℕ, zero, suc, ◌+◌, ◌*◌, Bool, true, false, ◌&&◌, ltb, leb, ◌==◌, Option, none, some,
  if◌then◌else◌, List, [], ◌∷◌, map, filter, take, length, not,
}
use alphaping.Prelude.Int.{ℤ, pos, sub_ℕ, ltb_ℤ}

abbrev pub day_ms : ℕ
day_ms = 86400000

abbrev pub resource_batch : ℕ
resource_batch = 40

abbrev pub row_batch : ℕ
row_batch = 200

-- The columns of RetentionPolicyRow that are read here.
pub record RetentionPolicyRow : Type 0 where
  pub workspace_pk : ℕ
  pub raw_days : ℕ
  pub rollup_5m_days : ℕ
  pub rollup_1h_days : ℕ
  pub event_days : ℕ

pub data RetentionDays : Type 0 where
  raw_days rollup_5m_days rollup_1h_days : RetentionDays

abbrev pub policy_days : RetentionPolicyRow → RetentionDays → ℕ
policy_days policy days = elim days [
  | raw_days ↦ policy.raw_days
  | rollup_5m_days ↦ policy.rollup_5m_days
  | rollup_1h_days ↦ policy.rollup_1h_days
]

-- The tables of the control database that name the resources.
pub data ControlTable : Type 0 where
  machines check_configs services : ControlTable

-- What a target says of its table; the names of the table and of its columns are its position in the list.
pub record RetentionTarget : Type 0 where
  pub control_table : ControlTable
  pub retention_days : RetentionDays
  pub resource_type : Option ℕ
  pub bucket_seconds : Option ℕ

abbrev pub plain_target : ControlTable → RetentionDays → RetentionTarget
plain_target table days = record {
  control_table = table;
  retention_days = days;
  resource_type = none;
  bucket_seconds = none;
}

abbrev pub targets : List RetentionTarget
targets =
    plain_target machines raw_days
    ∷ plain_target machines rollup_5m_days
    ∷ plain_target machines rollup_1h_days
    ∷ plain_target check_configs raw_days
    ∷ plain_target check_configs rollup_5m_days
    ∷ plain_target check_configs rollup_1h_days
    ∷ record {
      control_table = services;
      retention_days = rollup_5m_days;
      resource_type = some 2;
      bucket_seconds = some 300;
    }
    ∷ []

-- A row of a target's table, with the two columns that only some tables have.
pub record TelemetryRow : Type 0 where
  pub resource_pk : ℕ
  pub time : ℕ
  pub resource_type : ℕ
  pub bucket_seconds : ℕ

-- A row of the control table joined with its workspace.
pub record ResourceRow : Type 0 where
  pub telemetry_pk : ℕ
  pub workspace_pk : ℕ

pub record RetentionCursor : Type 0 where
  pub resource_pk : ℕ
  pub time_cursor : ℤ

abbrev pub holds : Option ℕ → ℕ → Bool
holds none value = true
holds (some expected) value = value == expected

-- `targetPredicates`
abbrev pub target_predicates : RetentionTarget → TelemetryRow → Bool
target_predicates target row =
    holds target.resource_type row.resource_type && holds target.bucket_seconds row.bucket_seconds

abbrev pub is_old : RetentionTarget → ℕ → ℤ → TelemetryRow → Bool
is_old target resource_pk cutoff row =
    (row.resource_pk == resource_pk)
    && (target_predicates target row && ltb_ℤ (pos row.time) cutoff)

-- DELETE of the first rows of a test, at most as many as the limit, and `meta.changes`.
unfoldable pub delete_first {ℓ} : {A : Type ℓ} → ℕ → (A → Bool) → List A → List A × ℕ
delete_first limit test [] = ([], 0)
delete_first zero test (row ∷ rows) = (row ∷ rows, 0)
delete_first (suc limit) test (row ∷ rows) =
    let (kept, changes) = delete_first limit test rows in
    let (kept', changes') = delete_first (suc limit) test rows in
    if test row then (kept, suc changes) else (row ∷ kept', changes')

unfoldable pub delete_resource_rows :
    RetentionTarget → List TelemetryRow → ℕ → ℤ → ℕ → List TelemetryRow × ℕ
unfolding delete_first
delete_resource_rows target rows resource_pk cutoff limit =
    delete_first limit (is_old target resource_pk cutoff) rows

-- The variables of the loop over the resources.
pub record Pass : Type 0 where
  pub rows : List TelemetryRow
  pub deleted : ℕ
  pub next_resource_cursor : ℕ
  pub completed_cutoff : ℤ
  pub target_batch_filled : Bool

unfoldable pub clean_resources : RetentionTarget → ℤ → ℕ → List ResourceRow → Pass → Pass
unfolding delete_resource_rows
clean_resources target cutoff limit [] pass = pass
clean_resources target cutoff limit (resource ∷ resources) pass =
    let (rows, changes) =
      delete_resource_rows target pass.rows resource.telemetry_pk cutoff limit in
    let stopped : Pass = record pass {
      rows = rows;
      deleted = pass.deleted + changes;
      target_batch_filled = true;
    } in
    let rest = clean_resources target cutoff limit resources (record {
      rows = rows;
      deleted = pass.deleted + changes;
      next_resource_cursor = resource.telemetry_pk;
      completed_cutoff = cutoff;
      target_batch_filled = pass.target_batch_filled;
    }) in
    if leb limit changes then stopped else rest

abbrev pub cursor_resource : Option RetentionCursor → ℕ
cursor_resource none = 0
cursor_resource (some cursor) = cursor.resource_pk

abbrev pub cursor_time : Option RetentionCursor → ℤ
cursor_time none = pos 0
cursor_time (some cursor) = cursor.time_cursor

-- The table of a target and the row of retention_cursors of the workspace and its kind.
pub record TargetState : Type 0 where
  pub rows : List TelemetryRow
  pub cursor : Option RetentionCursor

abbrev pub cutoff_of : RetentionPolicyRow → RetentionTarget → ℕ → ℤ
cutoff_of policy target now = sub_ℕ now (policy_days policy target.retention_days * day_ms)

-- The resources of the workspace after the cursor.
unfoldable pub select_resources : List ResourceRow → ℕ → ℕ → ℕ → List ResourceRow
select_resources resources workspace_pk cursor limit = take limit (
    filter (λ resource. (resource.workspace_pk == workspace_pk) && ltb cursor resource.telemetry_pk)
      resources)

unfoldable pub clean_telemetry_target :
    List ResourceRow
    → RetentionPolicyRow
    → RetentionTarget
    → ℕ
    → ℕ
    → ℕ
    → TargetState
    → TargetState × ℕ
unfolding select_resources clean_resources
clean_telemetry_target resources policy target now resource_limit row_limit state =
    let previous = cursor_resource state.cursor in
    let cutoff = cutoff_of policy target now in
    let selected = select_resources resources policy.workspace_pk previous resource_limit in
    let pass = clean_resources target cutoff row_limit selected (record {
      rows = state.rows;
      deleted = 0;
      next_resource_cursor = previous;
      completed_cutoff = cursor_time state.cursor;
      target_batch_filled = false;
    }) in
    let is_wrapped = not pass.target_batch_filled && ltb (length selected) resource_limit in
    (
      record {
        rows = pass.rows;
        cursor = some (record {
          resource_pk = if is_wrapped then 0 else pass.next_resource_cursor;
          time_cursor = if is_wrapped then cutoff else pass.completed_cutoff;
        });
      },
      pass.deleted,
    )

-- The targets in turn, each with its state; the resources are those of its control table.
unfoldable pub clean_targets :
    (ControlTable → List ResourceRow)
    → RetentionPolicyRow
    → ℕ
    → List (RetentionTarget × TargetState)
    → List TargetState × ℕ
unfolding clean_telemetry_target
clean_targets resources policy now [] = ([], 0)
clean_targets resources policy now ((target, state) ∷ rest) =
    let (state', deleted) =
      clean_telemetry_target (resources target.control_table) policy target now resource_batch
        row_batch state in
    let (states, more) = clean_targets resources policy now rest in
    (state' ∷ states, deleted + more)

pub record StateEvent : Type 0 where
  pub workspace_pk : ℕ
  pub occurred_at : ℕ

-- The rows are in the order of their times here, by which the SELECT orders them.
unfoldable pub clean_state_events :
    List StateEvent → RetentionPolicyRow → ℤ → ℕ → ℕ → List StateEvent × ℕ × ℤ
unfolding delete_first
clean_state_events events policy previous_time_cursor now limit =
    let cutoff = sub_ℕ now (policy.event_days * day_ms) in
    let (kept, deleted) =
      delete_first limit
        (λ (event : StateEvent).
          (event.workspace_pk == policy.workspace_pk) && ltb_ℤ (pos event.occurred_at) cutoff)
        events in
    (kept, deleted, if ltb deleted limit then cutoff else previous_time_cursor)
