-- ===== src/Checks/Assertions.antt =====
-- workers/checks/src/assertions.ts: what is asserted of a response. JSON's numbers, JSON.parse, JSONPath
-- and regular expressions are parameters; `undefined` is `none`.
pub mod Operators
pub mod Verdict
use alphaping.Prelude.{
  ℕ, suc, ◌+◌, Bool, true, false, Option, none, some, ◌&&◌, ◌||◌, ◌==◌, if◌then◌else◌, String,
  str_eq, List, [], ◌∷◌, ◌++◌, map, any, take, not,
}
use alphaping.Prelude.Json.{
  Value, null, boolean, number, text, array, object, Items, nil, cons, Fields, end, field,
  get_field,
}
use alphaping.Prelude.Outcome.{Outcome, ok, throw, stuck, ◌>>=◌, ◌>>◌, throw_if}
use alphaping.Checks.Result.{ResultState, healthy, degraded, down}

pub data AssertionSource : Type 0 where
  header jsonpath body : AssertionSource

pub data AssertionOperator : Type 0 where
  exists equals contains matches type greater_than less_than : AssertionOperator

pub data Severity : Type 0 where
  degrades fails : Severity

pub record CheckAssertion (N : Type 0) : Type 0 where
  pub source : AssertionSource
  pub operator : AssertionOperator
  pub selector : Option String
  pub expected : Option (Value N)
  pub severity : Severity

pub record AssertionEvaluation : Type 0 where
  pub state : ResultState
  pub failure_code : Option String
  pub failure_summary : Option String

abbrev pub same_boolean : Bool → Bool → Bool
same_boolean true true = true
same_boolean false false = true
same_boolean _ _ = false

abbrev pub count_fields : {N : Type 0} → Fields N → ℕ
count_fields end = 0
count_fields (field name value fields) = suc (count_fields fields)

-- What JavaScript and the packages give: Object.is and `<` on numbers, `includes` of strings, RE2's `find`,
-- which throws where the pattern is none, whether Headers accept a name, JSON.parse, JSONPath, wrapped in an array, and the joining of
-- summaries by commas, each of a source and an operator.
pub record Platform (N : Type 0) : Type 0 where
  pub same_number : N → N → Bool
  pub less_than_number : N → N → Bool
  pub includes : String → String → Bool
  pub find : String → String → Outcome Bool
  pub is_header_name : String → Bool
  pub parse_json : String → Option (Value N)
  pub select : String → Value N → Option (List (Option (Value N)))
  pub join : List (String × String) → String

abbrev pub value_type : {N : Type 0} → Option (Value N) → String
value_type none = "undefined"
value_type (some null) = "null"
value_type (some (boolean b)) = "boolean"
value_type (some (number n)) = "number"
value_type (some (text t)) = "string"
value_type (some (array items)) = "array"
value_type (some (object fields)) = "object"

abbrev pub is_typed : {N : Type 0} → Option (Value N) → Option (Value N) → Bool
is_typed candidate (some (text expected)) = str_eq (value_type candidate) expected
is_typed candidate _ = false

abbrev pub is_defined : {N : Type 0} → Option (Value N) → Bool
is_defined none = false
is_defined (some value) = true

abbrev pub is_jsonpath : {N : Type 0} → CheckAssertion N → Bool
is_jsonpath assertion = elim assertion.source [ jsonpath ↦ true | header ↦ false | body ↦ false ]

abbrev pub is_failing : {N : Type 0} → CheckAssertion N → Bool
is_failing assertion = elim assertion.severity [ fails ↦ true | degrades ↦ false ]

abbrev pub source_name : AssertionSource → String
source_name header = "header"
source_name jsonpath = "jsonpath"
source_name body = "body"

abbrev pub operator_name : AssertionOperator → String
operator_name exists = "exists"
operator_name equals = "equals"
operator_name contains = "contains"
operator_name matches = "matches"
operator_name type = "type"
operator_name greater_than = "greater_than"
operator_name less_than = "less_than"

module _ {N : Type 0} (platform : Platform N) where
  open platform use {
    same_number, less_than_number, includes, find, is_header_name, parse_json, select, join,
  }

  unfoldable mutual
    unfolding get_field

    pub structurally_equal : Value N → Value N → Bool
    structurally_equal null null = true
    structurally_equal (boolean a) (boolean b) = same_boolean a b
    structurally_equal (number a) (number b) = same_number a b
    structurally_equal (text a) (text b) = str_eq a b
    structurally_equal (array left) (array right) = equal_items left right
    structurally_equal (object left) (object right) =
        count_fields left == count_fields right && equal_fields left right
    structurally_equal _ _ = false

    pub equal_items : Items N → Items N → Bool
    equal_items nil nil = true
    equal_items (cons a left) (cons b right) = structurally_equal a b && equal_items left right
    equal_items _ _ = false

    pub equal_fields : Fields N → Fields N → Bool
    equal_fields end right = true
    equal_fields (field name value left) right =
        elim (get_field right name) [ none ↦ false | some other ↦ structurally_equal value other ]
        && equal_fields left right

  -- `structurallyEqual` where a side may be undefined.
  abbrev pub equal_options : Option (Value N) → Option (Value N) → Bool
  equal_options none none = true
  equal_options (some a) (some b) = structurally_equal a b
  equal_options _ _ = false

  -- `candidate.some(…)`
  unfoldable pub some_item : Items N → Option (Value N) → Bool
  some_item nil expected = false
  some_item (cons item items) expected =
      equal_options (some item) expected || some_item items expected

  abbrev pub is_contained : Option (Value N) → Option (Value N) → Bool
  is_contained (some (text a)) (some (text b)) = includes a b
  is_contained (some (array items)) expected = some_item items expected
  is_contained _ _ = false

  abbrev pub is_matched : Option (Value N) → Option (Value N) → Outcome Bool
  is_matched (some (text a)) (some (text b)) = find b a
  is_matched _ _ = ok false

  abbrev pub is_greater : Option (Value N) → Option (Value N) → Bool
  is_greater (some (number a)) (some (number b)) = less_than_number b a
  is_greater _ _ = false

  abbrev pub is_less : Option (Value N) → Option (Value N) → Bool
  is_less (some (number a)) (some (number b)) = less_than_number a b
  is_less _ _ = false

  unfoldable pub compare_value :
      AssertionOperator → Option (Value N) → Option (Value N) → Outcome Bool
  unfolding some_item structurally_equal
  compare_value exists candidate expected = ok (is_defined candidate)
  compare_value equals candidate expected = ok (equal_options candidate expected)
  compare_value contains candidate expected = ok (is_contained candidate expected)
  compare_value matches candidate expected = is_matched candidate expected
  compare_value type candidate expected = ok (is_typed candidate expected)
  compare_value greater_than candidate expected = ok (is_greater candidate expected)
  compare_value less_than candidate expected = ok (is_less candidate expected)

  -- `candidates.some(…)` in the `try`: it stops at the first that passes, and an error is a failure.
  unfoldable pub some_candidate : CheckAssertion N → List (Option (Value N)) → Bool
  unfolding compare_value
  some_candidate assertion [] = false
  some_candidate assertion (candidate ∷ candidates) =
      let rest = some_candidate assertion candidates in
      elim (compare_value assertion.operator candidate assertion.expected) [
        | ok passed ↦ if passed then true else rest
        | throw message ↦ false
        | stuck ↦ false
      ]

  unfoldable pub body_candidates :
      CheckAssertion N → String → Option (Value N) → List (Option (Value N))
  body_candidates assertion content parsed_json = elim assertion.source [
    | body ↦ some (text content) ∷ []
    | header ↦ []
    | jsonpath ↦ elim assertion.selector [
      | none ↦ []
      | some selector ↦ elim parsed_json [
        | none ↦ []
        | some value ↦ elim (select selector value) [ none ↦ [] | some selected ↦ selected ]
      ]
    ]
  ]

  -- `headers.get`, which throws a TypeError where the name is none of a header.
  module _ (get_header : String → Option String) where
    abbrev pub found_value : Option String → Option (Value N)
    found_value none = none
    found_value (some value) = some (text value)

    abbrev pub header_value : Option String → Outcome (Option (Value N))
    header_value none = ok none
    header_value (some name) =
        throw_if (not (is_header_name name)) "TypeError" >> ok (found_value (get_header name))

    unfoldable pub candidates_of :
        CheckAssertion N → String → Option (Value N) → Outcome (List (Option (Value N)))
    unfolding body_candidates
    candidates_of assertion content parsed_json = elim assertion.source [
      | header ↦ header_value assertion.selector >>= (λ value. ok (value ∷ []))
      | jsonpath ↦ ok (body_candidates assertion content parsed_json)
      | body ↦ ok (body_candidates assertion content parsed_json)
    ]

    -- The failed assertions, in their order; an error of the headers ends the evaluation.
    unfoldable pub failures_of :
        String → Option (Value N) → List (CheckAssertion N) → Outcome (List (CheckAssertion N))
    unfolding candidates_of some_candidate
    failures_of content parsed_json [] = ok []
    failures_of content parsed_json (assertion ∷ assertions) =
        let rest = failures_of content parsed_json assertions in
        candidates_of assertion content parsed_json >>= (λ candidates. rest >>= λ failures.
        ok (if some_candidate assertion candidates then failures else assertion ∷ failures))

    abbrev pub summary_of : List (CheckAssertion N) → String
    summary_of failures =
        join (map (λ a. (source_name a.source, operator_name a.operator)) (take 3 failures))

    abbrev pub verdict : List (CheckAssertion N) → AssertionEvaluation
    verdict [] = record { state = healthy; failure_code = none; failure_summary = none }
    verdict (failure ∷ failures) = record {
      state = if any is_failing (failure ∷ failures) then down else degraded;
      failure_code = some "assertion_failed";
      failure_summary = some (summary_of (failure ∷ failures));
    }

    unfoldable pub evaluate_assertions :
        List (CheckAssertion N) → String → Outcome AssertionEvaluation
    unfolding failures_of
    evaluate_assertions assertions content =
        failures_of content (if any is_jsonpath assertions then parse_json content else none)
          assertions
        >>= λ failures. ok (verdict failures)
