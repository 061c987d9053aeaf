-- ===== src/Checks/Latest.antt =====
-- persistCheckResult of workers/checks/src/persistence.ts: which results are dropped, and the row of
-- check_latest. A digest is the number that its bytes spell.
pub mod Order
use alphaping.Prelude.{
  ℕ, ◌+◌, Bool, true, false, Option, none, some, ◌&&◌, ◌||◌, ltb, leb, ◌==◌, if◌then◌else◌, String,
}
use alphaping.Checks.Result.{ExecutedCheck}
use alphaping.Checks.Confirmation.{
  ConfirmationState, ConfirmedResult, WindowConfig, apply_confirmation_window, stored_state,
}

-- What the function reads of the check's configuration, besides the window.
pub record CheckKeys : Type 0 where
  pub workspace_pk : ℕ
  pub service_pk : ℕ
  pub critical : ℕ
  pub config_revision : ℕ
  pub window : WindowConfig

-- A row of check_latest; the key is the check.
pub record CheckLatestRow : Type 0 where
  pub workspace_pk : ℕ
  pub service_pk : ℕ
  pub observed_at : ℕ
  pub latency_ms : Option ℕ
  pub confirmation : ConfirmationState
  pub critical : ℕ
  pub config_revision : ℕ
  pub result_id : ℕ

-- The SELECT, by workspace and check.
abbrev pub select_latest : ℕ → Option CheckLatestRow → Option CheckLatestRow
select_latest workspace_pk none = none
select_latest workspace_pk (some row) = if row.workspace_pk == workspace_pk then some row else none

-- The two early returns.
unfoldable pub is_dropped : Option CheckLatestRow → CheckKeys → ℕ → Bool
is_dropped none config result_id = false
is_dropped (some previous) config result_id =
    ltb config.config_revision previous.config_revision || previous.result_id == result_id

abbrev pub confirmation_of : Option CheckLatestRow → Option ConfirmationState
confirmation_of none = none
confirmation_of (some row) = some row.confirmation

-- The values that are bound.
unfoldable pub latest_row :
    (String → String) → Option CheckLatestRow → CheckKeys → ℕ → ℕ → ExecutedCheck → CheckLatestRow
latest_row clip previous config observed_at result_id result =
    let confirmed = apply_confirmation_window config.window (confirmation_of previous) result in
    record {
      workspace_pk = config.workspace_pk;
      service_pk = config.service_pk;
      observed_at = observed_at;
      latency_ms = confirmed.latency_ms;
      confirmation = stored_state clip confirmed;
      critical = config.critical;
      config_revision = config.config_revision;
      result_id = result_id;
    }

-- INSERT … ON CONFLICT DO UPDATE … WHERE.
unfoldable pub upsert_check_latest : Option CheckLatestRow → CheckLatestRow → CheckLatestRow
upsert_check_latest none excluded = excluded
upsert_check_latest (some stored) excluded =
    if stored.workspace_pk == excluded.workspace_pk
      && (ltb stored.config_revision excluded.config_revision
          || (stored.config_revision == excluded.config_revision
              && leb stored.observed_at excluded.observed_at))
    then excluded
    else stored

-- The row behind a call. `seen` is the row when it was read, `stored` the row that the statement meets.
unfoldable pub persist_latest :
    (String → String)
    → Option CheckLatestRow
    → Option CheckLatestRow
    → CheckKeys
    → ℕ
    → ℕ
    → ExecutedCheck
    → Option CheckLatestRow
unfolding is_dropped latest_row upsert_check_latest
persist_latest clip seen stored config observed_at result_id result =
    let previous = select_latest config.workspace_pk seen in
    if is_dropped previous config result_id
    then stored
    else some
        (upsert_check_latest stored (latest_row clip previous config observed_at result_id result))
