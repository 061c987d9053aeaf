-- ===== src/Checks/Assertions/Verdict.antt =====
-- `evaluateAssertions` of workers/checks/src/assertions.ts: the verdict it gives.
use mathlib.Core.List.{Memᴰ}
use alphaping.Prelude.{◌≡◌, ◌⊎◌, Option, none, some, if◌then◌else◌, String, List, any, All}
use alphaping.Prelude.Outcome.{ok}
use alphaping.Prelude.Json.{Value}
use alphaping.Checks.Result.{healthy, degraded, down}
use alphaping.Checks.Assertions.{
  fails, CheckAssertion, AssertionEvaluation, Platform, is_jsonpath, candidates_of,
}
use alphaping.Checks.Assertions.Operators.{Passes}

module _ {N : Type 0} (platform : Platform N) where
  module _ (get_header : String → Option String) where
    pub record HasPassed (content : String) (json : Option (Value N)) (assertion : CheckAssertion N)
        : Type 0 where
      pub candidates : List (Option (Value N))
      pub are_candidates : candidates_of platform get_header assertion content json ≡ ok candidates
      pub passes : Passes platform assertion candidates

    -- A content that is JSON is parsed where some assertion selects from it.
    abbrev pub parsed : List (CheckAssertion N) → String → Option (Value N)
    parsed assertions content =
        if any is_jsonpath assertions then platform.parse_json content else none

    pub data IsVerdict (content : String) (json : Option (Value N))
        (assertions : List (CheckAssertion N)) (evaluation : AssertionEvaluation) : Type 0 where
      all_passed :
          All (HasPassed content json) assertions
          → evaluation.state ≡ healthy
          → evaluation.failure_code ≡ none
          → IsVerdict content json assertions evaluation
      one_fails :
          (assertion : CheckAssertion N)
          → Memᴰ assertion assertions
          → ¬ HasPassed content json assertion
          → assertion.severity ≡ fails
          → evaluation.state ≡ down
          → evaluation.failure_code ≡ some "assertion_failed"
          → IsVerdict content json assertions evaluation
      some_degrade :
          (assertion : CheckAssertion N)
          → Memᴰ assertion assertions
          → ¬ HasPassed content json assertion
          → All (λ other. other.severity ≡ fails → HasPassed content json other) assertions
          → evaluation.state ≡ degraded
          → evaluation.failure_code ≡ some "assertion_failed"
          → IsVerdict content json assertions evaluation

    module _ (content : String) (json : Option (Value N)) where
      abbrev AreSorted : List (CheckAssertion N) → List (CheckAssertion N) → Type 0
      AreSorted assertions failures =
          All (λ assertion. HasPassed content json assertion ⊎ Memᴰ assertion failures) assertions
          × All (λ assertion. Memᴰ assertion assertions × (¬ HasPassed content json assertion))
              failures
