-- ===== src/Retention/Policies/Failure.antt =====
-- `runRetention` of workers/retention/src/index.ts: a run that throws.
use alphaping.Prelude.{
  ℕ, ◌⊎◌, Bool, ◌+◌, ◌≡◌, refl, ap, ◌∙◌, true, false, Bool-cases, inl, inr, any, ◌==◌, Option, none,
  some, String, List, [], ◌∷◌, arith, if◌then◌else◌, ltb, ◌++◌,
}
use alphaping.Prelude.Outcome.{Outcome, ok, throw, stuck}
use alphaping.Retention.Policies.{
  RetentionRun, WorkspaceCleanupResult, is_complete, later_run, latest_run, previous_cursor,
  update_run, fail_run, RunWrite, claim, complete, fail, count_runs, fail_with, settle_run,
  run_retention, claim_run, run_batch, load_retention_policy_batch, policy_batch,
  run_work_budget_ms,
}

abbrev cursor_of : Option RetentionRun → ℕ
cursor_of none = 0
cursor_of (some run) = run.workspace_cursor

-- The row of a claimed run, before it ends.
abbrev pub new_run : ℕ → RetentionRun
new_run run_id = record {
  run_id = run_id;
  completed_at = none;
  deleted_rows = 0;
  workspace_cursor = 0;
  error_code = none;
}

same_id : (run_id : ℕ) → (run_id == run_id) ≡ true
same_id run_id = ground arith

-- What a failed run writes does not count for a later one.
fail_run-latest_run :
    (later now run_id : ℕ) (runs : List RetentionRun)
    → any (λ run. run.run_id == run_id) runs ≡ false
    → latest_run
        (is_complete later)
        (update_run (fail_run now) run_id (runs ++ (new_run run_id ∷ [])))
      ≡ latest_run (is_complete later) runs
unfolding latest_run update_run
fail_run-latest_run later now run_id [] fresh =
    rw (same_id run_id)
      (elim (Bool-cases (ltb run_id later)) [ inl h ↦ rw h refl | inr h ↦ rw h refl ])
fail_run-latest_run later now run_id (run ∷ runs) fresh = elim (Bool-cases (run.run_id == run_id)) [
  | inl same ↦ cc (rw same at fresh)
  | inr other ↦
      let after = update_run (fail_run now) run_id (runs ++ (new_run run_id ∷ [])) in
      let row : (if run.run_id == run_id then fail_run now run else run) ≡ run = rw other refl in
      ap
        (λ (r : RetentionRun).
          later_run (is_complete later) r (latest_run (is_complete later) after))
        row
      ∙ ap (later_run (is_complete later) run)
          (fail_run-latest_run later now run_id runs (rw other at fresh))
]

-- Nor does a run that is claimed and not ended.
new_run-latest_run :
    (later run_id : ℕ) (runs : List RetentionRun)
    → latest_run (is_complete later) (runs ++ (new_run run_id ∷ []))
      ≡ latest_run (is_complete later) runs
unfolding latest_run
new_run-latest_run later run_id [] = elim (Bool-cases (ltb run_id later)) [
  | inl h ↦ rw h refl
  | inr h ↦ rw h refl
]
new_run-latest_run later run_id (run ∷ runs) =
    ap (later_run (is_complete later) run) (new_run-latest_run later run_id runs)

count_runs-new_run :
    (run_id : ℕ) (runs : List RetentionRun)
    → any (λ run. run.run_id == run_id) runs ≡ false
    → count_runs run_id (runs ++ (new_run run_id ∷ [])) ≡ 1
count_runs-new_run run_id [] fresh = rw (same_id run_id) refl
count_runs-new_run run_id (run ∷ runs) fresh = elim (Bool-cases (run.run_id == run_id)) [
  | inl same ↦ cc (rw same at fresh)
  | inr other ↦ rw other (count_runs-new_run run_id runs (rw other at fresh))
]

module _ {S : Type 0} (clean : S → ℕ → S × Outcome WorkspaceCleanupResult) (clock : ℕ → ℕ)
    (finish : S → S × Outcome ℕ) (available : RunWrite → Bool) where
  fail_with-rows :
      (runs : List RetentionRun) (run_id now : ℕ) (message : String)
      → ((fail_with clean clock finish available runs run_id now message).0
          ≡ update_run (fail_run now) run_id runs)
        ⊎ ((fail_with clean clock finish available runs run_id now message).0 ≡ runs)
  unfolding fail_with
  fail_with-rows runs run_id now message = elim (Bool-cases (available fail)) [
    | inl h ↦ inl (rw h refl)
    | inr h ↦ inr (rw h refl)
  ]

  settle_run-throw :
      (runs : List RetentionRun) (run_id now : ℕ) (result : Outcome (ℕ × ℕ)) (message : String)
      → count_runs run_id runs ≡ 1
      → (settle_run clean clock finish available runs run_id now result).1 ≡ throw message
      → ((settle_run clean clock finish available runs run_id now result).0
          ≡ update_run (fail_run now) run_id runs)
        ⊎ ((settle_run clean clock finish available runs run_id now result).0 ≡ runs)
  unfolding settle_run
  settle_run-throw runs run_id now (ok (deleted, cursor)) message one e =
      elim (Bool-cases (available complete)) [
        | inl h ↦ cc (rw (settle_run, h, one) at e)
        | inr h ↦ rw (settle_run, h) (fail_with-rows runs run_id now "d1_error")
      ]
  settle_run-throw runs run_id now (throw refused) message one e =
      fail_with-rows runs run_id now refused
  settle_run-throw runs run_id now stuck message one e = cc

  -- A run that throws leaves the cursor at which any later run begins as it was, whichever writes of its row
  -- are refused.
  pub run_retention-throw :
      (workspaces : List ℕ) (run_id now ended later : ℕ) (runs : List RetentionRun) (s : S)
      (message : String)
      → (run_retention clean clock finish available workspaces run_id now ended runs s).1
        ≡ throw message
      → previous_cursor
          (run_retention clean clock finish available workspaces run_id now ended runs s).0.1
          later
        ≡ previous_cursor runs later
  unfolding run_retention claim_run previous_cursor
  run_retention-throw workspaces run_id now ended later runs s message e =
      elim (Bool-cases (available claim)) [
        | inr refused ↦ rw (run_retention, refused) refl
        | inl written ↦ elim (Bool-cases (any (λ run. run.run_id == run_id) runs)) [
          | inl claimed ↦ cc (rw (run_retention, written, claimed) at e)
          | inr fresh ↦
              let claimed = runs ++ (new_run run_id ∷ []) in
              let batch = load_retention_policy_batch workspaces claimed run_id policy_batch in
              let result = (run_batch clean clock finish (now + run_work_budget_ms) batch s).1 in
              rw (run_retention, written, fresh)
                (elim (settle_run-throw claimed run_id ended result message
                  (count_runs-new_run run_id runs fresh)
                  (rw (run_retention, written, fresh) at e)) [
                    | inl failed ↦
                        ap (λ (after : List RetentionRun). previous_cursor after later) failed
                        ∙ ap cursor_of (fail_run-latest_run later ended run_id runs fresh)
                    | inr kept ↦
                        ap (λ (after : List RetentionRun). previous_cursor after later) kept
                        ∙ ap cursor_of (new_run-latest_run later run_id runs)
                  ])
        ]
      ]
