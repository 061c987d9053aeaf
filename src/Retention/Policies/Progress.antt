-- ===== src/Retention/Policies/Progress.antt =====
-- `processRetentionPolicies` of workers/retention/src/index.ts: when the run's cursor moves.
use alphaping.Prelude.{
  ℕ, suc, ◌+◌, ◌≤◌, ◌≡◌, ◌≢◌, refl, ap, true, false, Bool-cases, inl, inr, ltb, ltb→lt, ◌<◌, ◌==◌,
  if◌then◌else◌, List, [], ◌∷◌, length, arith,
}
use alphaping.Prelude.Outcome.{Outcome, ok, throw, stuck, ok_injective}
use alphaping.Retention.Policies.{
  RetentionPolicyBatch, WorkspaceCleanupResult, RetentionPolicyProgress,
  resolve_retention_workspace_cursor, process_policies, process_retention_policies,
}

module _ {S : Type 0} (clean : S → ℕ → S × Outcome WorkspaceCleanupResult) where
  module _ (clock : ℕ → ℕ) (deadline : ℕ) where
    -- From an index on, each workspace in turn is cleaned under its lease, from a state to a state, and the
    -- clock is before the deadline when its cleaning begins.
    pub data Cleaned : ℕ → List ℕ → S → S → Type 0 where
      done : (index : ℕ) (s : S) → Cleaned index [] s s
      clean_next :
          (index policy : ℕ) (policies : List ℕ) (s s' : S) (result : WorkspaceCleanupResult)
          → clock index < deadline
          → (clean s policy).1 ≡ ok result
          → result.processed ≡ true
          → Cleaned (suc index) policies (clean s policy).0 s'
          → Cleaned index (policy ∷ policies) s s'

    abbrev counted : RetentionPolicyProgress → WorkspaceCleanupResult → RetentionPolicyProgress
    counted progress result = record {
      deleted_rows = progress.deleted_rows + result.deleted_rows;
      skipped_workspaces =
          if result.processed then progress.skipped_workspaces else progress.skipped_workspaces + 1;
      deadline_reached = false;
    }

    -- A step of the loop that ends well.
    process_policies-step :
        (index policy : ℕ) (policies : List ℕ) (progress final : RetentionPolicyProgress) (s : S)
        → ltb (clock index) deadline ≡ true
        → (process_policies clean clock deadline index (policy ∷ policies) progress s).1 ≡ ok final
        → (result : WorkspaceCleanupResult) × ((clean s policy).1 ≡ ok result)
          × (process_policies clean clock deadline index (policy ∷ policies) progress s
              ≡ process_policies clean clock deadline
                  (suc index)
                  policies
                  (counted progress result)
                  (clean s policy).0)
    unfolding process_policies
    process_policies-step index policy policies progress final s in_time e =
        by_result (clean s policy).1 refl
      where
        by_result :
            (outcome : Outcome WorkspaceCleanupResult)
            → (clean s policy).1 ≡ outcome
            → (result : WorkspaceCleanupResult) × ((clean s policy).1 ≡ ok result)
              × (process_policies clean clock deadline index (policy ∷ policies) progress s
                  ≡ process_policies clean clock deadline
                      (suc index)
                      policies
                      (counted progress result)
                      (clean s policy).0)
        by_result (throw message) h = cc (rw (process_policies, in_time, h) at e)
        by_result stuck h = cc (rw (process_policies, in_time, h) at e)
        by_result (ok result) h = (result, h, rw (process_policies, in_time, h) refl)

    process_policies-skipped :
        (index : ℕ) (policies : List ℕ) (progress final : RetentionPolicyProgress) (s : S)
        → (process_policies clean clock deadline index policies progress s).1 ≡ ok final
        → progress.skipped_workspaces ≤ final.skipped_workspaces
    unfolding process_policies
    process_policies-skipped index [] progress final s e = rw (← ok_injective _ _ e) (omega arith)
    process_policies-skipped index (policy ∷ policies) progress final s e =
        elim (Bool-cases (ltb (clock index) deadline)) [
          | inr late ↦ rw (← ok_injective _ _ (rw (process_policies, late) at e)) (omega arith)
          | inl in_time ↦
              let (result, _, same) =
                process_policies-step index policy policies progress final s in_time e in
              let more =
                process_policies-skipped (suc index) policies (counted progress result) final
                  (clean s policy).0 (rw same at e) in
              ground (arith, more)
        ]

    process_policies-Cleaned :
        (index : ℕ) (policies : List ℕ) (progress final : RetentionPolicyProgress) (s : S)
        → (process_policies clean clock deadline index policies progress s).1 ≡ ok final
        → final.skipped_workspaces ≡ progress.skipped_workspaces
        → Cleaned index policies s
            (process_policies clean clock deadline index policies progress s).0
    unfolding process_policies
    process_policies-Cleaned index [] progress final s e none_skipped = done index s
    process_policies-Cleaned index (policy ∷ policies) progress final s e none_skipped =
        elim (Bool-cases (ltb (clock index) deadline)) [
          | inr late ↦
              let same = ok_injective _ _ (rw (process_policies, late) at e) in
              let counts : progress.skipped_workspaces + suc (length policies)
                  ≡ final.skipped_workspaces =
                ap (λ (p : RetentionPolicyProgress). p.skipped_workspaces) same in
              absurd (omega (arith, counts, none_skipped))
          | inl in_time ↦
              let (result, gave, same) =
                process_policies-step index policy policies progress final s in_time e in
              let e' = rw same at e in
              let more =
                process_policies-skipped (suc index) policies (counted progress result) final
                  (clean s policy).0 e' in
              elim (Bool-cases result.processed) [
                | inr skipped ↦
                    let more' = rw skipped at more in absurd (omega (arith, more', none_skipped))
                | inl processed ↦ rw same (
                    clean_next index policy policies s _ result (ltb→lt _ _ in_time) gave processed
                      (process_policies-Cleaned (suc index) policies (counted progress result) final
                        (clean s policy).0 e' (rw processed none_skipped)))
              ]
        ]

  -- A loop that ends well leaves a cursor other than the one it began with only where it has cleaned each
  -- workspace of the batch in turn, none being leased to another run and each begun before the deadline.
  pub process_retention_policies-Cleaned :
      (clock : ℕ → ℕ) (deadline : ℕ) (batch : RetentionPolicyBatch)
      (progress : RetentionPolicyProgress) (s : S)
      → (process_retention_policies clean clock deadline batch.policies s).1 ≡ ok progress
      → resolve_retention_workspace_cursor batch progress.skipped_workspaces
        ≢ batch.workspace_cursor
      → Cleaned clock deadline 0 batch.policies s
          (process_retention_policies clean clock deadline batch.policies s).0
  unfolding process_retention_policies resolve_retention_workspace_cursor
  process_retention_policies-Cleaned clock deadline batch progress s e moved =
      elim (Bool-cases (progress.skipped_workspaces == 0)) [
        | inl none_skipped ↦
            process_policies-Cleaned clock deadline 0 batch.policies
              (record { deleted_rows = 0; skipped_workspaces = 0; deadline_reached = false })
              progress s e (ground (arith, none_skipped))
        | inr some_skipped ↦
            absurd (moved (rw (resolve_retention_workspace_cursor, some_skipped) refl))
      ]
