-- ===== src/Checks/LatestRuns.antt =====
-- The results on the rows of checks, at concrete rows.
use alphaping.Prelude.{Option, none, some, String, List, [], ◌∷◌}
use alphaping.Checks.Result.{ExecutedCheck, healthy, down, known}
use alphaping.Checks.Latest.{CheckKeys, CheckLatestRow, persist_latest}
use alphaping.Checks.Latest.Order.{Call, IsNewer, persist_all, persist_all-IsNewer}

abbrev keep_text : String → String
keep_text text = text

abbrev keys : CheckKeys
keys = record {
  workspace_pk = 1;
  service_pk = 2;
  critical = 1;
  config_revision = 3;
  window = record { failure_confirmations = 2; recovery_confirmations = 2 };
}

abbrev row : CheckLatestRow
row = record {
  workspace_pk = 1;
  service_pk = 2;
  observed_at = 500;
  latency_ms = some 40;
  confirmation = record {
    state = known healthy;
    failure_code = none;
    failure_summary = none;
    consecutive_failures = 0;
    consecutive_successes = 4;
  };
  critical = 1;
  config_revision = 3;
  result_id = 77;
}

abbrev failure : ExecutedCheck
failure = record {
  state = down;
  latency_ms = none;
  failure_code = some "timeout";
  failure_summary = none;
}

abbrev calls : List Call
calls =
    record { seen = none; config = keys; observed_at = 400; result_id = 76; result = failure }
    ∷ record { seen = some row; config = keys; observed_at = 600; result_id = 78; result = failure }
    ∷ []

persist_all-IsNewer_example : IsNewer row (persist_all keep_text (some row) calls)
persist_all-IsNewer_example = persist_all-IsNewer keep_text row calls

abbrev once : Option CheckLatestRow
once = persist_latest keep_text (some row) (some row) keys 600 78 failure
