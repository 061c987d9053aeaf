-- ===== src/Checks/Runs.antt =====
-- The results on the checks worker, at concrete rows and times.
use alphaping.Prelude.{
  ℕ, ◌+◌, ◌/◌, ◌≤◌, ◌≡◌, ◌↔◌, refl, Bool, true, Option, none, some, List, [], ◌∷◌, arith,
}
use alphaping.Prelude.Int.{pos}
use alphaping.Checks.Deadline.{CheckTiming, longest_run, maximum_duration, can_start}
use alphaping.Checks.Schedule.{due_slot, is_due}
use alphaping.Checks.Schedule.Laws.{is_due_after_claim}
use alphaping.Checks.SchedulerState.{
  SchedulerLease, SchedulerStateRow, acquire_scheduler_lease, release_scheduler_lease, Event,
  apply_events, acquire_excludes,
}

abbrev timing : CheckTiming
timing = record { telemetry_pk = 4; timeout_ms = 5000; retry_count = 2 }

startable : can_start 20000 1000 (timing ∷ []) ≡ true
unfolding can_start maximum_duration longest_run
startable = refl

is_due_after_claim_example :
    (slot : ℕ) × (due_slot 125000 60 7 ≡ pos slot)
    × ((is_due 190000 60 7 (pos slot) ≡ true) ↔ (slot + 60 ≤ 190000 / 1000))
is_due_after_claim_example =
    is_due_after_claim 125000 190000 60 7 (omega arith) (omega arith) (omega arith)

abbrev first_lease : SchedulerLease
first_lease = record { check_cursor = 0; machine_cursor = 0; lease_until = 901000 }

first_acquired : (acquire_scheduler_lease none 1000).1 ≡ some first_lease
unfolding acquire_scheduler_lease
first_acquired = refl

abbrev other_events : List Event
other_events =
    Event.acquire 2000 ∷ Event.release (record first_lease { lease_until = 5 }) 1 1 3000 ∷ []

acquire_excludes_example :
    acquire_scheduler_lease (apply_events (acquire_scheduler_lease none 1000).0 other_events) 4000
    ≡ (apply_events (acquire_scheduler_lease none 1000).0 other_events, none)
acquire_excludes_example =
    acquire_excludes none 1000 4000 first_lease other_events first_acquired
      (omega arith, ((λ e. absurd (omega arith)), tt)) (omega arith)

abbrev released : Option SchedulerStateRow × Bool
released = release_scheduler_lease (acquire_scheduler_lease none 1000).0 first_lease 12 34 5000

abbrev second_lease : SchedulerLease
second_lease = record { check_cursor = 0; machine_cursor = 0; lease_until = 1900000 }

second_acquired :
    (acquire_scheduler_lease (acquire_scheduler_lease none 1000).0 1000000).1 ≡ some second_lease
unfolding acquire_scheduler_lease
second_acquired = refl
