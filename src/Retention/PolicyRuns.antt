-- ===== src/Retention/PolicyRuns.antt =====
-- The results on the removal of telemetry and on the runs, at a table of three rows and two workspaces.
use mathlib.Core.List.{Memᴰ}
use alphaping.Prelude.{
  ◌≤◌, ◌∙◌, sym, ℕ, suc, ◌+◌, ◌*◌, ◌<◌, ◌≡◌, ◌≢◌, ◌⊎◌, inl, inr, refl, Bool, true, false, none,
  some, List, [], ◌∷◌, length, All, arith,
}
use alphaping.Prelude.Outcome.{Outcome, ok, throw}
use alphaping.Retention.Telemetry.{
  machines, RetentionDays, RetentionPolicyRow, RetentionTarget, TelemetryRow, ResourceRow,
  TargetState, plain_target, cursor_resource, clean_telemetry_target,
}
use alphaping.Retention.Telemetry.Removed.{IsExpired, clean_telemetry_target-removed}
use alphaping.Retention.Telemetry.Cleaned.{clean_telemetry_target-IsClean}
use alphaping.Retention.Policies.{
  RetentionRun, RetentionPolicyBatch, WorkspaceCleanupResult, RetentionPolicyProgress, RunWrite,
  previous_cursor, load_retention_policy_batch, process_retention_policies,
  resolve_retention_workspace_cursor, run_retention,
}
use alphaping.Retention.Policies.Starts.{StartsAt, IsCompleted}
use alphaping.Retention.Policies.Batch.{load_retention_policy_batch-Memᴰ}
use alphaping.Retention.Policies.Progress.{Cleaned, process_retention_policies-Cleaned}
use alphaping.Retention.Policies.Failure.{run_retention-throw}

abbrev policy : RetentionPolicyRow
policy = record {
  workspace_pk = 7;
  raw_days = 2;
  rollup_5m_days = 30;
  rollup_1h_days = 365;
  event_days = 90;
}

abbrev raw_target : RetentionTarget
raw_target = plain_target machines RetentionDays.raw_days

abbrev sample : ℕ → ℕ → TelemetryRow
sample resource time = record {
  resource_pk = resource;
  time = time;
  resource_type = 1;
  bucket_seconds = 0;
}

abbrev owned : List ResourceRow
owned =
    record { telemetry_pk = 3; workspace_pk = 7 }
    ∷ record { telemetry_pk = 5; workspace_pk = 7 }
    ∷ []

abbrev samples : TargetState
samples = record {
  rows = sample 3 1000 ∷ sample 3 (5 * 86400000) ∷ sample 5 2000 ∷ [];
  cursor = none;
}

clean_telemetry_target-removed_example :
    All
      (λ row.
        Memᴰ row
          (clean_telemetry_target owned policy raw_target (6 * 86400000) 40 200 samples).0.rows
        ⊎ ((resource : ResourceRow) × Memᴰ resource owned
            × (resource.workspace_pk ≡ 7)
            × IsExpired policy raw_target (6 * 86400000) resource row))
      samples.rows
    × ((clean_telemetry_target owned policy raw_target (6 * 86400000) 40 200 samples).1
          + length
              (clean_telemetry_target owned policy raw_target (6 * 86400000) 40 200 samples).0.rows
        ≡ 3)
clean_telemetry_target-removed_example =
    clean_telemetry_target-removed owned policy raw_target (6 * 86400000) 40 200 samples

few_removed : (clean_telemetry_target owned policy raw_target (6 * 86400000) 40 200 samples).1 < 200
unfolding clean_telemetry_target
few_removed = omega arith

wrapped :
    cursor_resource
      (clean_telemetry_target owned policy raw_target (6 * 86400000) 40 200 samples).0.cursor
    ≡ 0
unfolding clean_telemetry_target
wrapped = refl

clean_telemetry_target-IsClean_example :
    All
      (λ row.
        ¬ IsExpired policy raw_target
          (6 * 86400000)
          (record { telemetry_pk = 3; workspace_pk = 7 })
          row)
      (clean_telemetry_target owned policy raw_target (6 * 86400000) 40 200 samples).0.rows
clean_telemetry_target-IsClean_example =
    clean_telemetry_target-IsClean owned policy raw_target (6 * 86400000) 40 200 samples
      (record { telemetry_pk = 3; workspace_pk = 7 }) (omega arith) ((omega arith, tt), (tt, tt))
      (Memᴰ.head refl) refl (omega arith) (inr (wrapped, few_removed))

-- A step that counts the workspaces it cleans, and one that throws.
abbrev count_clean : ℕ → ℕ → ℕ × Outcome WorkspaceCleanupResult
count_clean count workspace = (suc count, ok (record { deleted_rows = 1; processed = true }))

abbrev no_clean : ℕ → ℕ → ℕ × Outcome WorkspaceCleanupResult
no_clean count workspace = (count, throw "d1_error")

abbrev stopped_clock : ℕ → ℕ
stopped_clock index = 0

abbrev batch : RetentionPolicyBatch
batch = record { policies = 7 ∷ 8 ∷ []; workspace_cursor = 5; next_workspace_cursor = 0 }

abbrev counts : RetentionPolicyProgress
counts = record { deleted_rows = 2; skipped_workspaces = 0; deadline_reached = false }

cleans : (process_retention_policies count_clean stopped_clock 10 batch.policies 0).1 ≡ ok counts
unfolding process_retention_policies
cleans = refl

moves : resolve_retention_workspace_cursor batch 0 ≢ 5
unfolding resolve_retention_workspace_cursor
moves e = absurd (omega (arith, e))

process_retention_policies-Cleaned_example :
    Cleaned count_clean stopped_clock 10 0
      (7 ∷ 8 ∷ [])
      0
      (process_retention_policies count_clean stopped_clock 10 batch.policies 0).0
process_retention_policies-Cleaned_example =
    process_retention_policies-Cleaned count_clean stopped_clock 10 batch counts 0 cleans moves

abbrev done_run : RetentionRun
done_run = record {
  run_id = 100;
  completed_at = some 120;
  deleted_rows = 4;
  workspace_cursor = 5;
  error_code = none;
}

abbrev failed_run : RetentionRun
failed_run = record {
  run_id = 150;
  completed_at = some 160;
  deleted_rows = 0;
  workspace_cursor = 8;
  error_code = some "retention_failed";
}

abbrev past_runs : List RetentionRun
past_runs = done_run ∷ failed_run ∷ []

past_runs-keys :
    (a b : RetentionRun) → Memᴰ a past_runs → Memᴰ b past_runs → a.run_id ≡ b.run_id → a ≡ b
past_runs-keys a b (Memᴰ.head p) (Memᴰ.head q) e = p ∙ sym q
past_runs-keys a b (Memᴰ.head p) (Memᴰ.tail (Memᴰ.head q)) e =
    let e' = rw (p, q) at e in absurd (omega (arith, e'))
past_runs-keys a b (Memᴰ.tail (Memᴰ.head p)) (Memᴰ.head q) e =
    let e' = rw (p, q) at e in absurd (omega (arith, e'))
past_runs-keys a b (Memᴰ.tail (Memᴰ.head p)) (Memᴰ.tail (Memᴰ.head q)) e = p ∙ sym q
past_runs-keys a b (Memᴰ.head p) (Memᴰ.tail (Memᴰ.tail m)) e = elim m [ ]
past_runs-keys a b (Memᴰ.tail (Memᴰ.head p)) (Memᴰ.tail (Memᴰ.tail m)) e = elim m [ ]
past_runs-keys a b (Memᴰ.tail (Memᴰ.tail m)) _ e = elim m [ ]

past_runs-last :
    (run : RetentionRun) → Memᴰ run past_runs → IsCompleted 200 run → run.run_id ≤ done_run.run_id
past_runs-last run (Memᴰ.head p) completed = rw p (omega arith)
past_runs-last run (Memᴰ.tail (Memᴰ.head p)) completed = let well = rw p at (completed.well) in cc
past_runs-last run (Memᴰ.tail (Memᴰ.tail m)) completed = elim m [ ]

past_runs-StartsAt : StartsAt past_runs 200 5
past_runs-StartsAt =
    StartsAt.after_run done_run (Memᴰ.head refl)
      (record { earlier = omega arith; ended = λ e. cc; well = refl }) past_runs-last refl

load_retention_policy_batch-Memᴰ_example :
    ((load_retention_policy_batch (4 ∷ 8 ∷ 9 ∷ []) past_runs 200 1).workspace_cursor ≡ 5)
    × Memᴰ 8 (load_retention_policy_batch (4 ∷ 8 ∷ 9 ∷ []) past_runs 200 1).policies
unfolding load_retention_policy_batch
load_retention_policy_batch-Memᴰ_example =
    load_retention_policy_batch-Memᴰ (4 ∷ 8 ∷ 9 ∷ []) past_runs 200 1 5 8 (omega arith)
      ((omega arith, (omega arith, tt)), ((omega arith, tt), (tt, tt))) past_runs-keys
      past_runs-StartsAt (Memᴰ.tail (Memᴰ.head refl)) (omega arith) (inl (omega arith))

abbrev finish_none : ℕ → ℕ × Outcome ℕ
finish_none count = (count, ok 0)

abbrev all_written : RunWrite → Bool
all_written write = true

throws :
    (run_retention no_clean stopped_clock finish_none all_written
      (4 ∷ 8 ∷ [])
      200
      1000
      1100
      (done_run ∷ [])
      0).1
    ≡ throw "d1_error"
unfolding run_retention
throws = refl

run_retention-throw_example :
    previous_cursor
      (run_retention no_clean stopped_clock finish_none all_written
        (4 ∷ 8 ∷ [])
        200
        1000
        1100
        (done_run ∷ [])
        0).0.1
      300
    ≡ previous_cursor (done_run ∷ []) 300
run_retention-throw_example =
    run_retention-throw no_clean stopped_clock finish_none all_written (4 ∷ 8 ∷ []) 200 1000 1100
      300 (done_run ∷ []) 0 "d1_error" throws
