-- ===== src/Checks/Http.antt =====
-- `executeHttp` of workers/checks/src/executor.ts. `fetch`, the URL parser, the decoder of text and the
-- printing of numbers are parameters; the clock is read in the answers. A DOMException named TimeoutError is
-- the error "TimeoutError".
pub mod Steps
pub mod Headers
pub mod Requests
pub mod Answers
pub mod Healthy
use Prim.Native.String.{◌++◌ as append_text}
use alphaping.Prelude.{
  ℕ, zero, suc, ◌+◌, Bool, true, false, not, ◌&&◌, ◌||◌, ltb, leb, ◌==◌, Option, none, some,
  if◌then◌else◌, String, str_eq, List, [], ◌∷◌, ◌++◌, map, filter, any, length,
}
use alphaping.Prelude.Outcome.{Outcome, ok, throw, stuck, ◌>>=◌, ◌>>◌, throw_if}
use alphaping.Checks.Result.{ResultState, healthy, degraded, down, is_down, ExecutedCheck}
use alphaping.Checks.Assertions.{
  CheckAssertion, AssertionSource, header, jsonpath, body, AssertionEvaluation, Platform,
  evaluate_assertions,
}
use alphaping.Checks.Hostname.{Url, Network, assert_public_hostname}

pub data Method : Type 0 where
  get head post put patch delete : Method

-- The name and the value of each header.
abbrev pub Headers : Type 0
Headers = List (String × String)

pub record HttpCheckRequest (N : Type 0) : Type 0 where
  pub url : String
  pub method : Method
  pub headers : Headers
  pub sensitive_headers : List String
  pub content : Option String
  pub expected_status : List ℕ
  pub degraded_after_ms : Option ℕ
  pub down_after_ms : Option ℕ
  pub max_redirects : ℕ
  pub max_response_bytes : ℕ
  pub assertions : List (CheckAssertion N)

-- A response's body: bytes of each read, then the end or the error of a read.
pub data Stream : Type 0 where
  ended : Stream
  chunk : List ℕ → Stream → Stream
  broken : String → Stream

-- An answer of `fetch`, with the clock's readings since the start, rounded: on its arrival and after its
-- body is read or cancelled.
pub record Response : Type 0 where
  pub status : ℕ
  pub get_header : String → Option String
  pub content : Option Stream
  pub arrived_ms : ℕ
  pub finished_ms : ℕ

pub data Answer : Type 0 where
  answered : Response → Answer
  rejected : String → Answer

pub record Request : Type 0 where
  pub url : Url
  pub method : Method
  pub headers : Headers
  pub content : Option String

-- The variables of the loop are those of its next request.
pub data Step : Type 0 where
  finish : ExecutedCheck → Step
  follow : Request → Step

-- What is sent, and what is returned.
pub record Execution : Type 0 where
  pub requests : List Request
  pub result : ExecutedCheck

abbrev pub failed_outcome : String → ExecutedCheck
failed_outcome code = record {
  state = down;
  latency_ms = none;
  failure_code = some code;
  failure_summary = none;
}

abbrev pub includes_text : List String → String → Bool
includes_text texts text = any (str_eq text) texts

abbrev pub includes_number : List ℕ → ℕ → Bool
includes_number numbers number = any (λ n. number == n) numbers

abbrev pub is_head : Method → Bool
is_head method = elim method [
  | head ↦ true
  | get ↦ false
  | post ↦ false
  | put ↦ false
  | patch ↦ false
  | delete ↦ false
]

abbrev pub is_post : Method → Bool
is_post method = elim method [
  | post ↦ true
  | get ↦ false
  | head ↦ false
  | put ↦ false
  | patch ↦ false
  | delete ↦ false
]

abbrev pub has_no_body : Method → Bool
has_no_body method = elim method [
  | get ↦ true
  | head ↦ true
  | post ↦ false
  | put ↦ false
  | patch ↦ false
  | delete ↦ false
]

-- A body that is neither null nor empty.
abbrev pub is_truthy : Option String → Bool
is_truthy none = false
is_truthy (some content) = not (str_eq content "")

abbrev pub is_redirect : ℕ → Bool
is_redirect status = includes_number (301 ∷ 302 ∷ 303 ∷ 307 ∷ 308 ∷ []) status

abbrev pub redirect_sensitive_headers : List String
redirect_sensitive_headers = "authorization" ∷ "cookie" ∷ "proxy-authorization" ∷ "x-api-key" ∷ []

abbrev pub content_headers : List String
content_headers =
    "content-type" ∷ "content-length" ∷ "content-encoding" ∷ "content-language" ∷ "content-location"
    ∷ []

-- `if (size > maximumBytes) throw` for the size so far.
unfoldable pub read_bounded : ℕ → List ℕ → Stream → Outcome (List ℕ)
read_bounded maximum_bytes received ended = ok received
read_bounded maximum_bytes received (chunk bytes stream) =
    let received' = received ++ bytes in
    let rest = read_bounded maximum_bytes received' stream in
    if ltb maximum_bytes (length received') then throw "response_too_large" else rest
read_bounded maximum_bytes received (broken message) = throw message

-- `new URL`
abbrev pub resolved : Option Url → Outcome Url
resolved none = throw "Invalid URL"
resolved (some url) = ok url

module _ (network : Network) where
  open network use {to_lower_case, parse_url, resolve, new_headers}

  -- `headers.delete(name)`, by the lower case of the names.
  abbrev pub delete_header : Headers → String → Headers
  delete_header headers name =
      filter (λ header. not (str_eq (to_lower_case header.0) (to_lower_case name))) headers

  abbrev pub is_sensitive : List String → String → Bool
  is_sensitive sensitive_headers name =
      includes_text redirect_sensitive_headers (to_lower_case name)
      || includes_text sensitive_headers (to_lower_case name)

  unfoldable pub delete_names : Headers → List String → Headers
  delete_names headers [] = headers
  delete_names headers (name ∷ names) = delete_names (delete_header headers name) names

  -- The names are those of the headers before the deletions, in lower case.
  unfoldable pub redirect_headers : Headers → Url → Url → List String → Headers
  unfolding delete_names
  redirect_headers configured from to sensitive_headers =
      if str_eq from.origin to.origin
      then configured
      else delete_names configured (
          filter (is_sensitive sensitive_headers)
            (map (λ header. to_lower_case header.0) configured))

  abbrev pub is_web : Url → Bool
  is_web url = str_eq url.protocol "http:" || str_eq url.protocol "https:"

  unfoldable pub assert_public_url : Url → Outcome (Unit {0})
  unfolding assert_public_hostname
  assert_public_url url =
      throw_if (not (is_web url) || (not (str_eq url.username "") || not (str_eq url.password "")))
        "url_credentials_unsupported"
      >> assert_public_hostname network url.hostname

  -- The method, the body and the headers of the next request by the status of a redirect.
  abbrev pub is_get_redirect : ℕ → Method → Bool
  is_get_redirect status method =
      ((status == 301 || status == 302) && is_post method)
      || (status == 303 && not (is_head method))

  unfoldable pub redirect_content : ℕ → Request → Request
  unfolding delete_names
  redirect_content status request =
      if is_get_redirect status request.method
      then record {
        url = request.url;
        method = get;
        headers = delete_names request.headers content_headers;
        content = none;
      }
      else request

  unfoldable pub next_step : List String → ℕ → Request → Url → Step
  unfolding redirect_content redirect_headers
  next_step sensitive_headers status request next_target =
      if str_eq request.url.protocol "https:" && not (str_eq next_target.protocol "https:")
      then finish (failed_outcome "redirect_downgrade")
      else let request' = redirect_content status request in
        if is_truthy request'.content && not (str_eq request.url.origin next_target.origin)
        then finish (failed_outcome "redirect_body_blocked")
        else follow (record {
          url = next_target;
          method = request'.method;
          headers = redirect_headers request'.headers request.url next_target sensitive_headers;
          content = request'.content;
        })

  -- An answer that redirects, `is_last` in the last round.
  unfoldable pub redirected : List String → Bool → Request → Response → Outcome Step
  unfolding next_step assert_public_url
  redirected sensitive_headers is_last request response = elim (response.get_header "location") [
    | none ↦ ok (finish (failed_outcome "redirect_limit"))
    | some location ↦
        if is_last
        then ok (finish (failed_outcome "redirect_limit"))
        else resolved (resolve location request.url) >>= λ next_target.
            (assert_public_url next_target
              >> ok (next_step sensitive_headers response.status request next_target))
  ]

  module _ {N : Type 0} (platform : Platform N) (decode : List ℕ → String)
      (print : ℕ → String) where
    abbrev pub is_content_assertion : CheckAssertion N → Bool
    is_content_assertion assertion = elim assertion.source [
      | header ↦ false
      | jsonpath ↦ true
      | body ↦ true
    ]

    unfoldable pub read_content : HttpCheckRequest N → Response → Outcome String
    unfolding read_bounded
    read_content config response =
        if any is_content_assertion config.assertions
        then elim response.content [
          | none ↦ ok ""
          | some stream ↦
              read_bounded config.max_response_bytes [] stream
              >>= (λ received. ok (decode received))
        ]
        else ok ""

    abbrev pub reaches : Option ℕ → ℕ → Bool
    reaches none latency_ms = false
    reaches (some threshold) latency_ms = leb threshold latency_ms

    abbrev pub threshold_summary : Option ℕ → Option String
    threshold_summary none = none
    threshold_summary (some threshold) =
        some (append_text "latency>=" (append_text (print threshold) "ms"))

    unfoldable pub judge : HttpCheckRequest N → ℕ → AssertionEvaluation → ExecutedCheck
    judge config latency_ms assertions =
        if reaches config.down_after_ms latency_ms
        then record {
          state = down;
          latency_ms = some latency_ms;
          failure_code = some "latency_threshold";
          failure_summary = threshold_summary config.down_after_ms;
        }
        else if not (is_down assertions.state) && reaches config.degraded_after_ms latency_ms
        then record {
          state = degraded;
          latency_ms = some latency_ms;
          failure_code = some "latency_threshold";
          failure_summary = threshold_summary config.degraded_after_ms;
        }
        else record {
          state = assertions.state;
          latency_ms = some latency_ms;
          failure_code = assertions.failure_code;
          failure_summary = assertions.failure_summary;
        }

    -- An answer that does not redirect.
    unfoldable pub concluded : HttpCheckRequest N → Response → Outcome ExecutedCheck
    unfolding read_content judge evaluate_assertions
    concluded config response =
        if includes_number config.expected_status response.status
        then read_content config response >>= (λ content.
          evaluate_assertions platform response.get_header config.assertions content
          >>= λ assertions. ok (judge config response.finished_ms assertions))
        else ok (record {
          state = down;
          latency_ms = some response.arrived_ms;
          failure_code = some "unexpected_status";
          failure_summary = some (append_text "status:" (print response.status));
        })

    unfoldable pub respond : HttpCheckRequest N → Bool → Request → Response → Outcome Step
    unfolding redirected concluded
    respond config is_last request response =
        if is_redirect response.status
        then redirected config.sensitive_headers is_last request response
        else concluded config response >>= λ result. ok (finish result)

    abbrev pub caught : String → ExecutedCheck
    caught message =
        if str_eq message "response_too_large"
        then failed_outcome "response_too_large"
        else if str_eq message "TimeoutError"
        then failed_outcome "timeout"
        else failed_outcome "network"

    -- `fetch` at each round.
    module _ (fetch : ℕ → Request → Answer) (config : HttpCheckRequest N) where
      unfoldable pub answer_step : Bool → Request → Answer → Outcome Step
      unfolding respond
      answer_step is_last request (answered response) = respond config is_last request response
      answer_step is_last request (rejected message) = throw message

      -- The rest of the loop after a round: what `next` does with the request that follows.
      abbrev pub continue_with : Outcome Step → (Request → Execution) → Execution
      continue_with (ok (finish result)) next = record { requests = []; result = result }
      continue_with (ok (follow request)) next = next request
      continue_with (throw message) next = record { requests = []; result = caught message }
      continue_with stuck next = record { requests = []; result = caught "stuck" }

      abbrev pub send : Request → Execution → Execution
      send request execution = record {
        requests = request ∷ execution.requests;
        result = execution.result;
      }

      -- A round: a request to a blocked address is not sent.
      unfoldable pub round : ℕ → Bool → Request → (Request → Execution) → Execution
      unfolding assert_public_url answer_step
      round number is_last request next = elim (assert_public_url request.url) [
        | ok _ ↦
            send request (continue_with (answer_step is_last request (fetch number request)) next)
        | throw message ↦ record { requests = []; result = caught message }
        | stuck ↦ record { requests = []; result = caught "stuck" }
      ]

      -- The loop, with the rounds left after this one.
      unfoldable pub visit : ℕ → ℕ → Request → Execution
      unfolding round
      visit zero number request =
          round number true request
            (λ request'. record { requests = []; result = failed_outcome "internal" })
      visit (suc left) number request =
          round number false request (λ request'. visit left (number + 1) request')

      -- An invalid address or header is an error of the call, before its `try`.
      unfoldable pub execute_http : Outcome Execution
      unfolding visit
      execute_http = resolved (parse_url config.url) >>= λ url. elim (new_headers config.headers) [
        | none ↦ throw "Invalid header"
        | some headers ↦ ok (
            visit config.max_redirects 0 (record {
              url = url;
              method = config.method;
              headers = headers;
              content = if has_no_body config.method then none else config.content;
            }))
      ]
