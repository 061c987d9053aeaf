-- ===== src/Retention/Cursor/Lease.antt =====
-- Who holds the lease of a workspace, and what the next holder gets.
use mathlib.Core.Path.{subst}
use alphaping.Prelude.{
  ℕ, ◌+◌, ◌≤◌, ◌<◌, ◌≡◌, ◌≢◌, ◌⊎◌, refl, sym, ap, true, Option, none, some, leb, ◌==◌, arith, List,
  [], ◌∷◌, All, Bool-cases, inl, inr,
}
use alphaping.Prelude.Outcome.{ok}
use alphaping.Retention.Cursor.{
  workspace_lease_ms, WorkspaceRetentionLease, RetentionCursorRow, upsert_lease,
  acquire_workspace_retention_lease, update_lease, release_workspace_retention_lease, find_cursor,
  cursor_of, held_until,
}

upsert_other :
    (rows : List RetentionCursorRow) (workspace_pk other now : ℕ)
    → other ≢ workspace_pk
    → find_cursor (upsert_lease rows workspace_pk now).0 other ≡ find_cursor rows other
unfolding upsert_lease
upsert_other [] workspace_pk other now n = ground arith
upsert_other (row ∷ rows) workspace_pk other now n =
    let ih = upsert_other rows workspace_pk other now n in ground arith

upsert_refused :
    (rows : List RetentionCursorRow) (workspace_pk now : ℕ)
    → now < held_until (find_cursor rows workspace_pk)
    → upsert_lease rows workspace_pk now ≡ (rows, none)
unfolding upsert_lease
upsert_refused [] workspace_pk now h = absurd (omega arith)
upsert_refused (row ∷ rows) workspace_pk now h =
    elim (Bool-cases (row.workspace_pk == workspace_pk)) [
      | inl ours ↦ ground arith
      | inr theirs ↦ let ih = upsert_refused rows workspace_pk now (rw theirs at h) in ground arith
    ]

upsert_granted :
    (rows : List RetentionCursorRow) (workspace_pk now : ℕ)
    → held_until (find_cursor rows workspace_pk) ≤ now
    → ((upsert_lease rows workspace_pk now).1 ≡ some (cursor_of (find_cursor rows workspace_pk)))
      × (find_cursor (upsert_lease rows workspace_pk now).0 workspace_pk
          ≡ some (record {
            workspace_pk = workspace_pk;
            time_cursor = cursor_of (find_cursor rows workspace_pk);
            lease_until = now + workspace_lease_ms;
            updated_at = now;
          }))
unfolding upsert_lease
upsert_granted [] workspace_pk now h = ground arith
upsert_granted (row ∷ rows) workspace_pk now h =
    elim (Bool-cases (row.workspace_pk == workspace_pk)) [
      | inl ours ↦ ground arith
      | inr theirs ↦ let ih = upsert_granted rows workspace_pk now (rw theirs at h) in ground arith
    ]

-- Keys are unique.
abbrev pub IsTable : List RetentionCursorRow → Type 0
IsTable [] = Unit
IsTable (row ∷ rows) = All (λ r. r.workspace_pk ≢ row.workspace_pk) rows × IsTable rows

upsert-All :
    (rows : List RetentionCursorRow) (workspace_pk now key : ℕ)
    → workspace_pk ≢ key
    → All (λ r. r.workspace_pk ≢ key) rows
    → All (λ r. r.workspace_pk ≢ key) (upsert_lease rows workspace_pk now).0
unfolding upsert_lease
upsert-All [] workspace_pk now key n a = (n, tt)
upsert-All (row ∷ rows) workspace_pk now key n a =
    let ih = upsert-All rows workspace_pk now key n a.1 in
    elim (Bool-cases (row.workspace_pk == workspace_pk)) [
      | inr theirs ↦ rw theirs (a.0, ih)
      | inl ours ↦ elim (Bool-cases (leb row.lease_until now)) [
        | inl free ↦ rw (ours, free) (a.0, a.1)
        | inr held ↦ rw (ours, held) (a.0, a.1)
      ]
    ]

upsert-IsTable :
    (rows : List RetentionCursorRow) (workspace_pk now : ℕ)
    → IsTable rows
    → IsTable (upsert_lease rows workspace_pk now).0
unfolding upsert_lease
upsert-IsTable [] workspace_pk now t = (tt, tt)
upsert-IsTable (row ∷ rows) workspace_pk now t =
    elim (Bool-cases (row.workspace_pk == workspace_pk)) [
      | inr theirs ↦ rw theirs (
        upsert-All rows workspace_pk now row.workspace_pk (λ e. ground arith) t.0,
        upsert-IsTable rows workspace_pk now t.1,
      )
      | inl ours ↦ elim (Bool-cases (leb row.lease_until now)) [
        | inl free ↦ rw (ours, free) (t.0, t.1)
        | inr held ↦ rw (ours, held) (t.0, t.1)
      ]
    ]

update_absent :
    (rows : List RetentionCursorRow) (lease : WorkspaceRetentionLease) (event_time_cursor now : ℕ)
    → All (λ r. r.workspace_pk ≢ lease.workspace_pk) rows
    → update_lease rows lease event_time_cursor now ≡ (rows, 0)
unfolding update_lease
update_absent [] lease event_time_cursor now a = refl
update_absent (row ∷ rows) lease event_time_cursor now a =
    let ih = update_absent rows lease event_time_cursor now a.1 in let other = a.0 in ground arith

some_injective : (a b : RetentionCursorRow) → some a ≡ some b → a ≡ b
some_injective a b e = cc

-- The update of the holder of a lease writes its row and no other.
update_held :
    (rows : List RetentionCursorRow) (lease : WorkspaceRetentionLease) (event_time_cursor now : ℕ)
    (row : RetentionCursorRow)
    → IsTable rows
    → find_cursor rows lease.workspace_pk ≡ some row
    → row.lease_until ≡ lease.lease_until
    → ((update_lease rows lease event_time_cursor now).1 ≡ 1)
      × (find_cursor (update_lease rows lease event_time_cursor now).0 lease.workspace_pk
          ≡ some
              (record row { time_cursor = event_time_cursor; lease_until = 0; updated_at = now }))
unfolding update_lease
update_held [] lease event_time_cursor now row t f e = cc
update_held (first ∷ rows) lease event_time_cursor now row t f e =
    elim (Bool-cases (first.workspace_pk == lease.workspace_pk)) [
      | inl ours ↦
          let same : first ≡ row = some_injective first row (rw ours at f) in
          let key : first.workspace_pk ≡ lease.workspace_pk = ground arith in
          let until : (first.lease_until == lease.lease_until) ≡ true =
            ground (arith, ap (λ r. r.lease_until) same) in
          let absent = update_absent rows lease event_time_cursor now (rw key at (t.0)) in
          rw (absent, ours, until)
            (
              refl,
              rw ours (
                  ap {B = Option RetentionCursorRow}
                    (λ r. some (record r {
                      time_cursor = event_time_cursor;
                      lease_until = 0;
                      updated_at = now;
                    }))
                    same),
            )
      | inr theirs ↦
          let ih = update_held rows lease event_time_cursor now row t.1 (rw theirs at f) e in
          ground arith
    ]

refused_none :
    (rows : List RetentionCursorRow) (workspace_pk now : ℕ)
    → now < held_until (find_cursor rows workspace_pk)
    → acquire_workspace_retention_lease rows workspace_pk now ≡ (rows, none)
unfolding acquire_workspace_retention_lease
refused_none rows workspace_pk now runs =
    rw (upsert_refused rows workspace_pk now runs, acquire_workspace_retention_lease) refl

acquire-granted :
    (rows : List RetentionCursorRow) (workspace_pk now : ℕ)
    → held_until (find_cursor rows workspace_pk) ≤ now
    → (acquire_workspace_retention_lease rows workspace_pk now).1
      ≡ some (record {
        workspace_pk = workspace_pk;
        lease_until = now + workspace_lease_ms;
        event_time_cursor = cursor_of (find_cursor rows workspace_pk);
      })
unfolding acquire_workspace_retention_lease
acquire-granted rows workspace_pk now h =
    rw ((upsert_granted rows workspace_pk now h).0, acquire_workspace_retention_lease) refl

-- For every table and workspace: while the workspace's lease runs, acquiring is refused and leaves the
-- table as it is; else the lease that is returned has the workspace's cursor, or zero without a row,
-- and lasts fifteen minutes, and the workspace's row has that cursor and is leased until then. In both
-- cases the rows of another workspace stay as they are.
pub acquire_workspace_retention_lease_lem :
    (rows : List RetentionCursorRow) (workspace_pk other now : ℕ)
    → other ≢ workspace_pk
    → (((now < held_until (find_cursor rows workspace_pk))
          × (acquire_workspace_retention_lease rows workspace_pk now ≡ (rows, none)))
        ⊎ ((held_until (find_cursor rows workspace_pk) ≤ now)
            × ((acquire_workspace_retention_lease rows workspace_pk now).1
                ≡ some (record {
                  workspace_pk = workspace_pk;
                  lease_until = now + workspace_lease_ms;
                  event_time_cursor = cursor_of (find_cursor rows workspace_pk);
                }))
            × (find_cursor (acquire_workspace_retention_lease rows workspace_pk now).0 workspace_pk
                ≡ some (record {
                  workspace_pk = workspace_pk;
                  time_cursor = cursor_of (find_cursor rows workspace_pk);
                  lease_until = now + workspace_lease_ms;
                  updated_at = now;
                }))))
      × (find_cursor (acquire_workspace_retention_lease rows workspace_pk now).0 other
          ≡ find_cursor rows other)
unfolding acquire_workspace_retention_lease
acquire_workspace_retention_lease_lem rows workspace_pk other now n = (
  elim (Bool-cases (leb (held_until (find_cursor rows workspace_pk)) now)) [
    | inl free ↦
        let at_most : held_until (find_cursor rows workspace_pk) ≤ now = ground arith in
        inr (
          at_most,
          acquire-granted rows workspace_pk now at_most,
          (upsert_granted rows workspace_pk now at_most).1,
        )
    | inr held ↦
        let runs : now < held_until (find_cursor rows workspace_pk) = ground arith in
        inl (runs, refused_none rows workspace_pk now runs)
  ],
  upsert_other rows workspace_pk other now n,
)

granted_lease :
    (rows : List RetentionCursorRow) (workspace_pk now : ℕ) (lease : WorkspaceRetentionLease)
    → (acquire_workspace_retention_lease rows workspace_pk now).1 ≡ some lease
    → (held_until (find_cursor rows workspace_pk) ≤ now)
      × (lease.workspace_pk ≡ workspace_pk)
      × (lease.lease_until ≡ now + workspace_lease_ms)
granted_lease rows workspace_pk now lease e =
    elim (Bool-cases (leb (held_until (find_cursor rows workspace_pk)) now)) [
      | inl free ↦
          let at_most : held_until (find_cursor rows workspace_pk) ≤ now = ground arith in
          let given = acquire-granted rows workspace_pk now at_most in (at_most, cc, cc)
      | inr held ↦
          let runs : now < held_until (find_cursor rows workspace_pk) = ground arith in
          let none_there = refused_none rows workspace_pk now runs in cc
    ]

next_holder :
    (rows : List RetentionCursorRow) (workspace_pk now event_time_cursor end : ℕ)
    → find_cursor rows workspace_pk
      ≡ some (record {
        workspace_pk = workspace_pk;
        time_cursor = event_time_cursor;
        lease_until = 0;
        updated_at = end;
      })
    → (acquire_workspace_retention_lease rows workspace_pk now).1
      ≡ some (record {
        workspace_pk = workspace_pk;
        lease_until = now + workspace_lease_ms;
        event_time_cursor = event_time_cursor;
      })
next_holder rows workspace_pk now event_time_cursor end found =
    rw (acquire-granted rows workspace_pk now (rw found (omega arith)), found) refl

-- In a table with one row to a workspace, the holder of a lease can release it: the release does not
-- fail, and whoever acquires the workspace next, at any time, gets the cursor that it left.
release_workspace_retention_lease-acquire :
    (rows : List RetentionCursorRow) (workspace_pk start end now event_time_cursor : ℕ)
    (lease : WorkspaceRetentionLease)
    → IsTable rows
    → (acquire_workspace_retention_lease rows workspace_pk start).1 ≡ some lease
    → let released =
        release_workspace_retention_lease
          (acquire_workspace_retention_lease rows workspace_pk start).0
          lease
          event_time_cursor
          end in
      (released.1 ≡ ok tt)
      × ((acquire_workspace_retention_lease released.0 workspace_pk now).1
          ≡ some (record {
            workspace_pk = workspace_pk;
            lease_until = now + workspace_lease_ms;
            event_time_cursor = event_time_cursor;
          }))
unfolding acquire_workspace_retention_lease release_workspace_retention_lease
release_workspace_retention_lease-acquire rows workspace_pk start end now event_time_cursor lease t
      e =
    let (free, key, until) = granted_lease rows workspace_pk start lease e in
    let held : RetentionCursorRow = record {
      workspace_pk = workspace_pk;
      time_cursor = cursor_of (find_cursor rows workspace_pk);
      lease_until = start + workspace_lease_ms;
      updated_at = start;
    } in
    let stored : find_cursor (upsert_lease rows workspace_pk start).0 lease.workspace_pk
        ≡ some held =
      rw key ((upsert_granted rows workspace_pk start free).1) in
    let (changed, found) =
      update_held (upsert_lease rows workspace_pk start).0 lease event_time_cursor end held
        (upsert-IsTable rows workspace_pk start t) stored (sym until) in
    (
      rw changed refl,
      next_holder
          (update_lease (upsert_lease rows workspace_pk start).0 lease event_time_cursor end).0
          workspace_pk now event_time_cursor end
          (subst
            (λ k.
              find_cursor
                (update_lease (upsert_lease rows workspace_pk start).0 lease event_time_cursor
                  end).0
                k
              ≡ some (record {
                workspace_pk = workspace_pk;
                time_cursor = event_time_cursor;
                lease_until = 0;
                updated_at = end;
              }))
            key found),
    )
