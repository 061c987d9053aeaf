-- ===== src/Checks/SchedulerState.antt =====
-- workers/checks/src/scheduler-state.ts: the lease of the scheduler, one row of the control database.
use alphaping.Prelude.{
  ℕ, ◌+◌, ◌*◌, ◌<◌, ◌≡◌, ◌≢◌, Bool, true, false, Option, none, some, leb, ◌==◌, arith, List, [],
  ◌∷◌, All, if◌then◌else◌,
}

abbrev pub scheduler_lease_ms : ℕ
scheduler_lease_ms = 15 * 60000

pub record SchedulerLease : Type 0 where
  pub check_cursor : ℕ
  pub machine_cursor : ℕ
  pub lease_until : ℕ

-- The row of check_scheduler_state, if it is there.
pub record SchedulerStateRow : Type 0 where
  pub check_cursor : ℕ
  pub machine_cursor : ℕ
  pub lease_until : ℕ
  pub updated_at : ℕ

abbrev lease_of : SchedulerStateRow → SchedulerLease
lease_of row = record {
  check_cursor = row.check_cursor;
  machine_cursor = row.machine_cursor;
  lease_until = row.lease_until;
}

abbrev claimed_row : SchedulerStateRow → ℕ → SchedulerStateRow
claimed_row row now = record row { lease_until = now + scheduler_lease_ms; updated_at = now }

-- INSERT … ON CONFLICT DO UPDATE … WHERE … RETURNING: the row behind it, and the row returned.
unfoldable pub acquire_scheduler_lease :
    Option SchedulerStateRow → ℕ → Option SchedulerStateRow × Option SchedulerLease
acquire_scheduler_lease none now =
    let row : SchedulerStateRow = record {
      check_cursor = 0;
      machine_cursor = 0;
      lease_until = now + scheduler_lease_ms;
      updated_at = now;
    } in
    (some row, some (lease_of row))
acquire_scheduler_lease (some row) now =
    if leb row.lease_until now
    then (some (claimed_row row now), some (lease_of (claimed_row row now)))
    else (some row, none)

unfoldable pub release_scheduler_lease :
    Option SchedulerStateRow → SchedulerLease → ℕ → ℕ → ℕ → Option SchedulerStateRow × Bool
release_scheduler_lease none lease check_cursor machine_cursor now = (none, false)
release_scheduler_lease (some row) lease check_cursor machine_cursor now =
    if row.lease_until == lease.lease_until
    then (
      some (record {
        check_cursor = check_cursor;
        machine_cursor = machine_cursor;
        lease_until = 0;
        updated_at = now;
      }),
      true,
    )
    else (some row, false)

-- What the runs of the scheduler do to the row. A run that lost its lease may still try to release.
pub data Event : Type 0 where
  acquire : ℕ → Event
  release : SchedulerLease → ℕ → ℕ → ℕ → Event

unfoldable pub apply_event : Option SchedulerStateRow → Event → Option SchedulerStateRow
unfolding acquire_scheduler_lease release_scheduler_lease
apply_event row (acquire now) = (acquire_scheduler_lease row now).0
apply_event row (release lease check_cursor machine_cursor now) =
    (release_scheduler_lease row lease check_cursor machine_cursor now).0

unfoldable pub apply_events : Option SchedulerStateRow → List Event → Option SchedulerStateRow
apply_events row [] = row
apply_events row (event ∷ events) = apply_events (apply_event row event) events

-- No event releases the lease `until`, and each comes before that time.
abbrev pub KeepsLease : ℕ → Event → Type 0
KeepsLease until (acquire now) = now < until
KeepsLease until (release lease check_cursor machine_cursor now) = lease.lease_until ≢ until

abbrev HeldUntil : ℕ → Option SchedulerStateRow → Type 0
HeldUntil until none = ⊥
HeldUntil until (some row) = row.lease_until ≡ until

apply_event-HeldUntil :
    (until : ℕ) (row : Option SchedulerStateRow) (event : Event)
    → HeldUntil until row
    → KeepsLease until event
    → HeldUntil until (apply_event row event)
unfolding apply_event
apply_event-HeldUntil until none event h k = elim h [ ]
apply_event-HeldUntil until (some row) (acquire now) h k = ground arith
apply_event-HeldUntil until (some row) (release lease c m now) h k = ground arith

apply_events-HeldUntil :
    (until : ℕ) (row : Option SchedulerStateRow) (events : List Event)
    → HeldUntil until row
    → All (KeepsLease until) events
    → HeldUntil until (apply_events row events)
unfolding apply_events
apply_events-HeldUntil until row [] h k = h
apply_events-HeldUntil until row (event ∷ events) h k =
    apply_events-HeldUntil until (apply_event row event) events
      (apply_event-HeldUntil until row event h k.0) k.1

refused_while_held :
    (until now : ℕ) (row : Option SchedulerStateRow)
    → HeldUntil until row
    → now < until
    → acquire_scheduler_lease row now ≡ (row, none)
unfolding acquire_scheduler_lease
refused_while_held until now none h lt = elim h [ ]
refused_while_held until now (some row) h lt = ground arith

acquire-HeldUntil :
    (row : Option SchedulerStateRow) (now : ℕ) (lease : SchedulerLease)
    → (acquire_scheduler_lease row now).1 ≡ some lease
    → HeldUntil lease.lease_until (acquire_scheduler_lease row now).0
      × (lease.lease_until ≡ now + scheduler_lease_ms)
unfolding acquire_scheduler_lease
acquire-HeldUntil none now lease e = ground arith
acquire-HeldUntil (some row) now lease e = ground arith

-- Mutual exclusion: once a run has acquired the lease, and until its fifteen minutes have passed,
-- every other acquisition is refused and leaves the row alone, whatever acquisitions and releases
-- came in between, as long as none of the releases is of this very lease.
pub acquire_excludes :
    (row : Option SchedulerStateRow) (start now : ℕ) (lease : SchedulerLease) (events : List Event)
    → (acquire_scheduler_lease row start).1 ≡ some lease
    → All (KeepsLease lease.lease_until) events
    → now < start + scheduler_lease_ms
    → let held = apply_events (acquire_scheduler_lease row start).0 events in
      acquire_scheduler_lease held now ≡ (held, none)
acquire_excludes row start now lease events e keeps lt =
    let (held, until) = acquire-HeldUntil row start lease e in
    refused_while_held lease.lease_until now _
      (apply_events-HeldUntil lease.lease_until _ events held keeps) (omega arith)

-- A release by the holder succeeds, and the next acquisition, at any time, gets the cursors that it
-- left and a lease of fifteen minutes.
acquire-release :
    (row : Option SchedulerStateRow) (start end now check_cursor machine_cursor : ℕ)
    (lease : SchedulerLease)
    → (acquire_scheduler_lease row start).1 ≡ some lease
    → let released =
        release_scheduler_lease
          (acquire_scheduler_lease row start).0
          lease
          check_cursor
          machine_cursor
          end in
      (released.1 ≡ true)
      × ((acquire_scheduler_lease released.0 now).1
          ≡ some (record {
            check_cursor = check_cursor;
            machine_cursor = machine_cursor;
            lease_until = now + scheduler_lease_ms;
          }))
unfolding acquire_scheduler_lease release_scheduler_lease
acquire-release none start end now check_cursor machine_cursor lease e = ground arith
acquire-release (some row) start end now check_cursor machine_cursor lease e = ground arith

-- A run whose lease has run out and was given to another cannot release it: its release fails and
-- changes nothing.
stale_release :
    (row : Option SchedulerStateRow) (start later end check_cursor machine_cursor : ℕ)
    (lease lease' : SchedulerLease)
    → (acquire_scheduler_lease row start).1 ≡ some lease
    → (acquire_scheduler_lease (acquire_scheduler_lease row start).0 later).1 ≡ some lease'
    → let held = (acquire_scheduler_lease (acquire_scheduler_lease row start).0 later).0 in
      release_scheduler_lease held lease check_cursor machine_cursor end ≡ (held, false)
unfolding acquire_scheduler_lease release_scheduler_lease
stale_release none start later end check_cursor machine_cursor lease lease' e e' = ground arith
stale_release (some row) start later end check_cursor machine_cursor lease lease' e e' =
    ground arith
