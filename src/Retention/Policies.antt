-- ===== src/Retention/Policies.antt =====
-- workers/retention/src/index.ts: the workspaces that a run cleans, and the cursor that it leaves. The run's
-- id is its time: the texts `retention:…` of times of equally many digits compare as the times do. The
-- cleaning of a workspace, and what follows all of them, are steps of a state, and may throw.
pub mod Starts
pub mod Batch
pub mod Progress
pub mod Failure
use alphaping.Prelude.{
  ℕ, zero, suc, ◌+◌, ◌*◌, Bool, true, false, not, ◌&&◌, ltb, leb, ◌==◌, Option, none, some,
  if◌then◌else◌, String, List, [], ◌∷◌, ◌++◌, map, filter, any, take, length,
}
use alphaping.Prelude.Outcome.{Outcome, ok, throw, stuck}

abbrev pub policy_batch : ℕ
policy_batch = 100

abbrev pub run_work_budget_ms : ℕ
run_work_budget_ms = 12 * 60000

pub record RetentionRun : Type 0 where
  pub run_id : ℕ
  pub completed_at : Option ℕ
  pub deleted_rows : ℕ
  pub workspace_cursor : ℕ
  pub error_code : Option String

pub record RetentionPolicyBatch : Type 0 where
  pub policies : List ℕ
  pub workspace_cursor : ℕ
  pub next_workspace_cursor : ℕ

pub record WorkspaceCleanupResult : Type 0 where
  pub deleted_rows : ℕ
  pub processed : Bool

pub record RetentionPolicyProgress : Type 0 where
  pub deleted_rows : ℕ
  pub skipped_workspaces : ℕ
  pub deadline_reached : Bool

unfoldable pub resolve_retention_workspace_cursor : RetentionPolicyBatch → ℕ → ℕ
resolve_retention_workspace_cursor batch skipped_workspaces =
    if skipped_workspaces == 0 then batch.next_workspace_cursor else batch.workspace_cursor

abbrev pub is_null {ℓ} : {A : Type ℓ} → Option A → Bool
is_null none = true
is_null (some value) = false

abbrev pub is_complete : ℕ → RetentionRun → Bool
is_complete run_id run =
    ltb run.run_id run_id && (not (is_null run.completed_at) && is_null run.error_code)

abbrev pub later_run :
    (RetentionRun → Bool) → RetentionRun → Option RetentionRun → Option RetentionRun
later_run test run rest =
    if test run
    then elim rest [
      | none ↦ some run
      | some other ↦ if ltb run.run_id other.run_id then some other else some run
    ]
    else rest

-- The run with the greatest id of those that a test picks.
unfoldable pub latest_run : (RetentionRun → Bool) → List RetentionRun → Option RetentionRun
latest_run test [] = none
latest_run test (run ∷ runs) = later_run test run (latest_run test runs)

unfoldable pub previous_cursor : List RetentionRun → ℕ → ℕ
unfolding latest_run
previous_cursor runs run_id = elim (latest_run (is_complete run_id) runs) [
  | none ↦ 0
  | some run ↦ run.workspace_cursor
]

abbrev pub last_or : ℕ → List ℕ → ℕ
last_or default [] = default
last_or default (x ∷ xs) = last_or x xs

-- The policies are those of the workspaces with the keys, in their order.
unfoldable pub load_retention_policy_batch :
    List ℕ → List RetentionRun → ℕ → ℕ → RetentionPolicyBatch
unfolding previous_cursor
load_retention_policy_batch workspaces runs run_id limit =
    let workspace_cursor = previous_cursor runs run_id in
    let rows = take (limit + 1) (filter (ltb workspace_cursor) workspaces) in
    let policies = take limit rows in
    record {
      policies = policies;
      workspace_cursor = workspace_cursor;
      next_workspace_cursor = if ltb limit (length rows) then last_or 0 policies else 0;
    }

-- INSERT OR IGNORE of the run: none, where there is one with the id.
unfoldable pub claim_run : List RetentionRun → ℕ → Option (List RetentionRun)
claim_run runs run_id =
    if any (λ run. run.run_id == run_id) runs
    then none
    else some (
        runs
        ++ (record {
          run_id = run_id;
          completed_at = none;
          deleted_rows = 0;
          workspace_cursor = 0;
          error_code = none;
        }
            ∷ []))

-- The two UPDATEs of the run's row.
unfoldable pub update_run :
    (RetentionRun → RetentionRun) → ℕ → List RetentionRun → List RetentionRun
update_run change run_id runs = map (λ run. if run.run_id == run_id then change run else run) runs

abbrev pub complete_run : ℕ → ℕ → ℕ → RetentionRun → RetentionRun
complete_run now deleted workspace_cursor run = record run {
  completed_at = some now;
  deleted_rows = deleted;
  workspace_cursor = workspace_cursor;
}

abbrev pub fail_run : ℕ → RetentionRun → RetentionRun
fail_run now run = record run { completed_at = some now; error_code = some "retention_failed" }

-- `meta.changes` of an UPDATE of the run's row.
abbrev pub count_runs : ℕ → List RetentionRun → ℕ
count_runs run_id [] = 0
count_runs run_id (run ∷ runs) =
    let rest = count_runs run_id runs in if run.run_id == run_id then suc rest else rest

-- The writes of the run's row.
pub data RunWrite : Type 0 where
  claim complete fail : RunWrite

module _ {S : Type 0} (clean : S → ℕ → S × Outcome WorkspaceCleanupResult) (clock : ℕ → ℕ) where
  -- The loop, with the index and what is counted so far; `clock` is what the clock shows at an index.
  unfoldable pub process_policies :
      ℕ → ℕ → List ℕ → RetentionPolicyProgress → S → S × Outcome RetentionPolicyProgress
  process_policies deadline index [] progress state = (state, ok progress)
  process_policies deadline index (policy ∷ policies) progress state =
      if ltb (clock index) deadline
      then elim (clean state policy).1 [
        | throw message ↦ ((clean state policy).0, throw message)
        | stuck ↦ ((clean state policy).0, stuck)
        | ok result ↦
            process_policies deadline (suc index) policies
              (record {
                deleted_rows = progress.deleted_rows + result.deleted_rows;
                skipped_workspaces =
                    if result.processed
                    then progress.skipped_workspaces
                    else progress.skipped_workspaces + 1;
                deadline_reached = false;
              })
              (clean state policy).0
      ]
      else (
        state,
        ok (record {
          deleted_rows = progress.deleted_rows;
          skipped_workspaces = progress.skipped_workspaces + length (policy ∷ policies);
          deadline_reached = true;
        }),
      )

  unfoldable pub process_retention_policies : ℕ → List ℕ → S → S × Outcome RetentionPolicyProgress
  unfolding process_policies
  process_retention_policies deadline policies state =
      process_policies deadline 0 policies
        (record { deleted_rows = 0; skipped_workspaces = 0; deadline_reached = false }) state

  -- What follows the workspaces, `finish`, gives the number of commands that it deletes.
  module _ (finish : S → S × Outcome ℕ) where
    -- The part of a run in its `try`.
    unfoldable pub run_batch : ℕ → RetentionPolicyBatch → S → S × Outcome (ℕ × ℕ)
    unfolding process_retention_policies resolve_retention_workspace_cursor
    run_batch deadline batch state =
        let (cleaned, processed) = process_retention_policies deadline batch.policies state in
        elim processed [
          | throw message ↦ (cleaned, throw message)
          | stuck ↦ (cleaned, stuck)
          | ok progress ↦ elim (finish cleaned).1 [
            | throw message ↦ ((finish cleaned).0, throw message)
            | stuck ↦ ((finish cleaned).0, stuck)
            | ok deleted ↦ (
              (finish cleaned).0,
              ok (
                progress.deleted_rows + deleted,
                resolve_retention_workspace_cursor batch progress.skipped_workspaces,
              ),
            )
          ]
        ]

    -- A database may refuse each write of the run's row.
    module _ (available : RunWrite → Bool) where
      -- The `catch`.
      unfoldable pub fail_with :
          List RetentionRun → ℕ → ℕ → String → List RetentionRun × Outcome (Unit {0})
      unfolding update_run
      fail_with runs run_id now message =
          if available fail
          then (update_run (fail_run now) run_id runs, throw message)
          else (runs, throw "d1_error")

      -- The row of a run by what its `try` gives, up to the row's completion, which must be of one row.
      unfoldable pub settle_run :
          List RetentionRun → ℕ → ℕ → Outcome (ℕ × ℕ) → List RetentionRun × Outcome (Unit {0})
      unfolding update_run fail_with
      settle_run runs run_id now (ok (deleted, cursor)) =
          let completed = update_run (complete_run now deleted cursor) run_id runs in
          if not (available complete)
          then fail_with runs run_id now "d1_error"
          else if not (count_runs run_id runs == 1)
          then fail_with completed run_id now "retention_run_completion_conflict"
          else (completed, ok tt)
      settle_run runs run_id now (throw message) = fail_with runs run_id now message
      settle_run runs run_id now stuck = (runs, stuck)

      -- A run that begins at `now` and ends at `later`; the old rows of other runs are left out.
      unfoldable pub run_retention :
          List ℕ → ℕ → ℕ → ℕ → List RetentionRun → S → (S × List RetentionRun) × Outcome (Unit {0})
      unfolding claim_run load_retention_policy_batch run_batch settle_run
      run_retention workspaces run_id now later runs state =
          if not (available claim)
          then ((state, runs), throw "d1_error")
          else elim (claim_run runs run_id) [
            | none ↦ ((state, runs), ok tt)
            | some claimed ↦
                let batch = load_retention_policy_batch workspaces claimed run_id policy_batch in
                let (state', result) = run_batch (now + run_work_budget_ms) batch state in
                let (settled, outcome) = settle_run claimed run_id later result in
                ((state', settled), outcome)
          ]
