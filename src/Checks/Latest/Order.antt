-- ===== src/Checks/Latest/Order.antt =====
-- The row of a check never goes back, and a result that is delivered again has no effect.
use alphaping.Prelude.{
  ℕ, ◌≤◌, ◌<◌, ◌≡◌, ap, ◌⊎◌, inl, inr, refl, true, false, Option, none, some, String, List, [], ◌∷◌,
  arith, Bool-cases,
}
use alphaping.Checks.Result.{ExecutedCheck}
use alphaping.Checks.Latest.{
  CheckKeys, CheckLatestRow, select_latest, is_dropped, latest_row, upsert_check_latest,
  persist_latest,
}

-- A call of the function, with the row that it had read before.
pub record Call : Type 0 where
  pub seen : Option CheckLatestRow
  pub config : CheckKeys
  pub observed_at : ℕ
  pub result_id : ℕ
  pub result : ExecutedCheck

abbrev pub persist_all :
    (String → String) → Option CheckLatestRow → List Call → Option CheckLatestRow
persist_all clip stored [] = stored
persist_all clip stored (call ∷ calls) =
    persist_all clip
      (persist_latest clip call.seen stored call.config call.observed_at call.result_id call.result)
      calls

-- The second row is as new as the first, in the order of revisions and then of times, and of the same
-- workspace.
abbrev pub IsNewer : CheckLatestRow → Option CheckLatestRow → Type 0
IsNewer old none = ⊥
IsNewer old (some new) =
    (new.workspace_pk ≡ old.workspace_pk)
    × ((old.config_revision < new.config_revision)
        ⊎ ((old.config_revision ≡ new.config_revision) × (old.observed_at ≤ new.observed_at)))

upsert-IsNewer :
    (first stored excluded : CheckLatestRow)
    → IsNewer first (some stored)
    → IsNewer first (some (upsert_check_latest (some stored) excluded))
unfolding upsert_check_latest
upsert-IsNewer first stored excluded h = (ground arith, ground arith)

persist-IsNewer :
    (clip : String → String) (first : CheckLatestRow) (stored : Option CheckLatestRow) (call : Call)
    → IsNewer first stored
    → IsNewer first (
        persist_latest clip call.seen stored call.config call.observed_at call.result_id
          call.result)
unfolding persist_latest
persist-IsNewer clip first none call h = elim h [ ]
persist-IsNewer clip first (some stored) call h =
    let previous = select_latest call.config.workspace_pk call.seen in
    elim (Bool-cases (is_dropped previous call.config call.result_id)) [
      | inl dropped ↦ rw (dropped, IsNewer) h
      | inr kept ↦
          rw (kept, IsNewer)
            (upsert-IsNewer first stored
              (latest_row clip previous call.config call.observed_at call.result_id call.result) h)
    ]

-- Under any sequence of calls, whatever row each had read before, the row of a check stays, keeps its
-- workspace, and goes back neither to an older revision nor, within a revision, to an older time.
pub persist_all-IsNewer :
    (clip : String → String) (first : CheckLatestRow) (calls : List Call)
    → IsNewer first (persist_all clip (some first) calls)
persist_all-IsNewer clip first calls = go (some first) calls (refl, inr (refl, omega arith))
  where
    go :
        (stored : Option CheckLatestRow) (calls : List Call)
        → IsNewer first stored
        → IsNewer first (persist_all clip stored calls)
    go stored [] h = h
    go stored (call ∷ calls) h =
        go
          (persist_latest clip call.seen stored call.config call.observed_at call.result_id
            call.result)
          calls (persist-IsNewer clip first stored call h)

dropped_same :
    (clip : String → String) (stored : Option CheckLatestRow) (config : CheckKeys)
    (observed_at result_id : ℕ) (result : ExecutedCheck)
    → is_dropped (select_latest config.workspace_pk stored) config result_id ≡ true
    → persist_latest clip stored stored config observed_at result_id result ≡ stored
unfolding persist_latest
dropped_same clip stored config observed_at result_id result e = rw (e, persist_latest) refl

stored_dropped :
    (clip : String → String) (previous : Option CheckLatestRow) (config : CheckKeys)
    (observed_at result_id : ℕ) (result : ExecutedCheck)
    → is_dropped
        (select_latest config.workspace_pk
          (some (latest_row clip previous config observed_at result_id result)))
        config
        result_id
      ≡ true
unfolding is_dropped latest_row
stored_dropped clip previous config observed_at result_id result = ground arith

upsert_cases :
    (stored : Option CheckLatestRow) (excluded : CheckLatestRow)
    → (upsert_check_latest stored excluded ≡ excluded)
      ⊎ (some (upsert_check_latest stored excluded) ≡ stored)
unfolding upsert_check_latest
upsert_cases none excluded = inl refl
upsert_cases (some stored) excluded = ground arith

module _ (clip : String → String) (stored : Option CheckLatestRow) (config : CheckKeys)
    (observed_at result_id : ℕ) (result : ExecutedCheck)
    (kept : is_dropped (select_latest config.workspace_pk stored) config result_id ≡ false) where
  written_row :
      upsert_check_latest stored (
          latest_row clip
            (select_latest config.workspace_pk stored)
            config
            observed_at
            result_id
            result)
        ≡ latest_row clip
            (select_latest config.workspace_pk stored)
            config
            observed_at
            result_id
            result
      → persist_latest clip stored stored config observed_at result_id result
        ≡ some (
            latest_row clip
              (select_latest config.workspace_pk stored)
              config
              observed_at
              result_id
              result)
  unfolding persist_latest
  written_row written = rw (kept, persist_latest) (ap some written)

  left_row :
      some (
          upsert_check_latest stored (
            latest_row clip
              (select_latest config.workspace_pk stored)
              config
              observed_at
              result_id
              result))
        ≡ stored
      → persist_latest clip stored stored config observed_at result_id result ≡ stored
  unfolding persist_latest
  left_row left = rw (kept, persist_latest) left

-- Delivering a result a second time, one call after another, leaves the row of the check as the first
-- time left it.
persist_latest_idempotent :
    (clip : String → String) (stored : Option CheckLatestRow) (config : CheckKeys)
    (observed_at result_id : ℕ) (result : ExecutedCheck)
    → let after = persist_latest clip stored stored config observed_at result_id result in
      persist_latest clip after after config observed_at result_id result ≡ after
persist_latest_idempotent clip stored config observed_at result_id result =
    let previous = select_latest config.workspace_pk stored in
    let row = latest_row clip previous config observed_at result_id result in
    elim (Bool-cases (is_dropped previous config result_id)) [
      | inl dropped ↦
          let same = dropped_same clip stored config observed_at result_id result dropped in
          rw (same, same) refl
      | inr kept ↦ elim (upsert_cases stored row) [
        | inl written ↦
            let after = written_row clip stored config observed_at result_id result kept written in
            rw after (
              dropped_same clip (some row) config observed_at result_id result
                (stored_dropped clip previous config observed_at result_id result))
        | inr left ↦
            let same = left_row clip stored config observed_at result_id result kept left in
            rw (same, same) refl
      ]
    ]
