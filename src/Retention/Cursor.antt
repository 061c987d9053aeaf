-- ===== src/Retention/Cursor.antt =====
-- workers/retention/src/cursor.ts: the lease of each workspace, a row of retention_cursors. The rows are
-- those with table_kind 'event'; the key of such a row is its workspace.
pub mod Lease
use alphaping.Prelude.{
  ℕ, ◌+◌, ◌*◌, ◌≤◌, ◌<◌, ◌≡◌, ◌≢◌, refl, Bool, true, false, Option, none, some, leb, ◌==◌, ◌&&◌,
  arith, List, [], ◌∷◌, All, if◌then◌else◌, Bool-cases, Option-cases, inl, inr,
}
use alphaping.Prelude.Outcome.{Outcome, ok, throw}

abbrev pub workspace_lease_ms : ℕ
workspace_lease_ms = 15 * 60000

pub record WorkspaceRetentionLease : Type 0 where
  pub workspace_pk : ℕ
  pub lease_until : ℕ
  pub event_time_cursor : ℕ

pub record RetentionCursorRow : Type 0 where
  pub workspace_pk : ℕ
  pub time_cursor : ℕ
  pub lease_until : ℕ
  pub updated_at : ℕ

abbrev new_row : ℕ → ℕ → RetentionCursorRow
new_row workspace_pk now = record {
  workspace_pk = workspace_pk;
  time_cursor = 0;
  lease_until = now + workspace_lease_ms;
  updated_at = now;
}

-- INSERT … ON CONFLICT DO UPDATE … WHERE … RETURNING time_cursor: the table behind it, and the
-- cursor if a row is returned.
unfoldable pub upsert_lease : List RetentionCursorRow → ℕ → ℕ → List RetentionCursorRow × Option ℕ
upsert_lease [] workspace_pk now = (new_row workspace_pk now ∷ [], some 0)
upsert_lease (row ∷ rows) workspace_pk now =
    let (rest, returned) = upsert_lease rows workspace_pk now in
    if row.workspace_pk == workspace_pk
    then (if leb row.lease_until now
        then (
          record row { lease_until = now + workspace_lease_ms; updated_at = now } ∷ rows,
          some row.time_cursor,
        )
        else (row ∷ rows, none))
    else (row ∷ rest, returned)

unfoldable pub acquire_workspace_retention_lease :
    List RetentionCursorRow → ℕ → ℕ → List RetentionCursorRow × Option WorkspaceRetentionLease
unfolding upsert_lease
acquire_workspace_retention_lease rows workspace_pk now =
    let (after, returned) = upsert_lease rows workspace_pk now in
    (
      after,
      elim returned [
        | none ↦ none
        | some time_cursor ↦ some (record {
          workspace_pk = workspace_pk;
          lease_until = now + workspace_lease_ms;
          event_time_cursor = time_cursor;
        })
      ],
    )

-- The UPDATE, and `meta.changes`.
unfoldable pub update_lease :
    List RetentionCursorRow → WorkspaceRetentionLease → ℕ → ℕ → List RetentionCursorRow × ℕ
update_lease [] lease event_time_cursor now = ([], 0)
update_lease (row ∷ rows) lease event_time_cursor now =
    let (rest, changes) = update_lease rows lease event_time_cursor now in
    if row.workspace_pk == lease.workspace_pk && row.lease_until == lease.lease_until
    then (
      record row { time_cursor = event_time_cursor; lease_until = 0; updated_at = now } ∷ rest,
      1 + changes,
    )
    else (row ∷ rest, changes)

-- The table behind the call, and how it ends.
unfoldable pub release_workspace_retention_lease :
    List RetentionCursorRow
    → WorkspaceRetentionLease
    → ℕ
    → ℕ
    → List RetentionCursorRow × Outcome (Unit {0})
unfolding update_lease
release_workspace_retention_lease rows lease event_time_cursor now =
    let (after, changes) = update_lease rows lease event_time_cursor now in
    (after, if changes == 1 then ok tt else throw "retention_lease_lost")

-- The row of a workspace.
abbrev pub find_cursor : List RetentionCursorRow → ℕ → Option RetentionCursorRow
find_cursor [] workspace_pk = none
find_cursor (row ∷ rows) workspace_pk =
    if row.workspace_pk == workspace_pk then some row else find_cursor rows workspace_pk

abbrev pub cursor_of : Option RetentionCursorRow → ℕ
cursor_of none = 0
cursor_of (some row) = row.time_cursor

abbrev pub held_until : Option RetentionCursorRow → ℕ
held_until none = 0
held_until (some row) = row.lease_until
