-- ===== src/Retention/Runs.antt =====
-- The results on the retention leases, at a table of two workspaces.
use alphaping.Prelude.{◌+◌, ◌≤◌, ◌<◌, ◌≡◌, ◌⊎◌, refl, none, some, List, [], ◌∷◌, arith}
use alphaping.Prelude.Outcome.{Outcome}
use alphaping.Retention.Cursor.{
  workspace_lease_ms, WorkspaceRetentionLease, RetentionCursorRow, upsert_lease,
  acquire_workspace_retention_lease, release_workspace_retention_lease, find_cursor, cursor_of,
  held_until,
}
use alphaping.Retention.Cursor.Lease.{acquire_workspace_retention_lease_lem}

abbrev cursors : List RetentionCursorRow
cursors =
    record { workspace_pk = 7; time_cursor = 900; lease_until = 0; updated_at = 10 }
    ∷ record { workspace_pk = 8; time_cursor = 30; lease_until = 5000; updated_at = 20 }
    ∷ []

acquire_workspace_retention_lease_lem_example :
    (((1000 < held_until (find_cursor cursors 8))
        × (acquire_workspace_retention_lease cursors 8 1000 ≡ (cursors, none)))
      ⊎ ((held_until (find_cursor cursors 8) ≤ 1000)
          × ((acquire_workspace_retention_lease cursors 8 1000).1
              ≡ some (record {
                workspace_pk = 8;
                lease_until = 1000 + workspace_lease_ms;
                event_time_cursor = cursor_of (find_cursor cursors 8);
              }))
          × (find_cursor (acquire_workspace_retention_lease cursors 8 1000).0 8
              ≡ some (record {
                workspace_pk = 8;
                time_cursor = cursor_of (find_cursor cursors 8);
                lease_until = 1000 + workspace_lease_ms;
                updated_at = 1000;
              }))))
    × (find_cursor (acquire_workspace_retention_lease cursors 8 1000).0 7 ≡ find_cursor cursors 7)
acquire_workspace_retention_lease_lem_example =
    acquire_workspace_retention_lease_lem cursors 8 7 1000 (λ e. absurd (omega arith))

abbrev lease : WorkspaceRetentionLease
lease = record { workspace_pk = 7; lease_until = 901000; event_time_cursor = 900 }

granted : (acquire_workspace_retention_lease cursors 7 1000).1 ≡ some lease
unfolding acquire_workspace_retention_lease upsert_lease
granted = refl

abbrev released : List RetentionCursorRow × Outcome (Unit {0})
released =
    release_workspace_retention_lease (acquire_workspace_retention_lease cursors 7 1000).0 lease
      1200 2000
