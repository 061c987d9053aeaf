-- ===== src/Checks/Http/Healthy.antt =====
-- `executeHttp` of workers/checks/src/executor.ts: what a healthy result tells.
use mathlib.Core.List.{Memᴰ}
use alphaping.Prelude.{
  ℕ, ◌≡◌, ◌≢◌, refl, Bool, true, false, Bool-cases, inl, inr, not, Option-cases, String, List, ap,
  ◌&&◌, str_eq,
}
use alphaping.Prelude.Outcome.{ok, ok_injective, >>=-ok, ◌>>◌, ◌>>=◌}
use alphaping.Checks.Assertions.{Platform, AssertionEvaluation, evaluate_assertions}
use alphaping.Checks.Result.{ExecutedCheck, healthy, is_down}
use alphaping.Checks.Hostname.{Url, Network}
use alphaping.Checks.Http.{
  HttpCheckRequest, Response, Answer, answered, rejected, Request, Execution, finish,
  assert_public_url, includes_number, reaches, caught, is_truthy, is_redirect, resolved,
  redirect_content, next_step, redirected, respond, read_content, judge, concluded, answer_step,
  execute_http,
}
use alphaping.Checks.Http.Answers.{by_answer, by_error, execute_http-Ending}

finish_injective : (a b : ExecutedCheck) → finish a ≡ finish b → a ≡ b
finish_injective a b e = cc

module _ (network : Network) {N : Type 0} (platform : Platform N) (decode : List ℕ → String)
    (print : ℕ → String) (fetch : ℕ → Request → Answer) (config : HttpCheckRequest N) where
  -- What a check has seen that is healthy.
  pub record HealthyAnswer (r : Request) : Type 0 where
    pub number : ℕ
    pub response : Response
    pub content : String
    pub evaluation : AssertionEvaluation
    pub is_answer : fetch number r ≡ answered response
    pub is_expected : includes_number config.expected_status response.status ≡ true
    pub is_read : read_content network platform decode print config response ≡ ok content
    pub is_evaluated :
        evaluate_assertions platform response.get_header config.assertions content ≡ ok evaluation
    pub is_asserted : evaluation.state ≡ healthy
    pub is_fast :
        (reaches network platform decode print config.down_after_ms response.finished_ms ≡ false)
        × (reaches network platform decode print config.degraded_after_ms response.finished_ms
            ≡ false)

  caught-not_healthy :
      (message : String) → (caught network platform decode print message).state ≢ healthy
  caught-not_healthy message e = elim (Bool-cases (str_eq message "response_too_large")) [
    | inl large ↦ cc (rw large at e)
    | inr other ↦ elim (Bool-cases (str_eq message "TimeoutError")) [
      | inl late ↦ cc (rw (other, late) at e)
      | inr network_error ↦ cc (rw (other, network_error) at e)
    ]
  ]

  judge-healthy :
      (latency_ms : ℕ) (assertions : AssertionEvaluation)
      → (judge network platform decode print config latency_ms assertions).state ≡ healthy
      → (assertions.state ≡ healthy)
        × (reaches network platform decode print config.down_after_ms latency_ms ≡ false)
        × (reaches network platform decode print config.degraded_after_ms latency_ms ≡ false)
  unfolding judge
  judge-healthy latency_ms assertions e =
      elim (Bool-cases (reaches network platform decode print config.down_after_ms latency_ms)) [
        | inl late ↦ cc (rw (late, judge) at e)
        | inr in_time ↦
            elim (Bool-cases (
              not (is_down assertions.state)
              && reaches network platform decode print config.degraded_after_ms latency_ms)) [
                | inl slow ↦ cc (rw (in_time, slow, judge) at e)
                | inr fast ↦
                    let well : assertions.state ≡ healthy = rw (in_time, fast, judge) at e in
                    (well, in_time, rw well at fast)
              ]
      ]

  concluded-healthy :
      (number : ℕ) (r : Request) (response : Response) (result : ExecutedCheck)
      → fetch number r ≡ answered response
      → concluded network platform decode print config response ≡ ok result
      → result.state ≡ healthy
      → HealthyAnswer r
  unfolding concluded
  concluded-healthy number r response result answer e h =
      elim (Bool-cases (includes_number config.expected_status response.status)) [
        | inr unexpected ↦ cc (
          ap (λ (x : ExecutedCheck). x.state) (ok_injective _ _ (rw (unexpected, concluded) at e)),
          h,
        )
        | inl expected ↦
            let (content, read, judged) =
              >>=-ok (read_content network platform decode print config response)
                (λ content.
                  evaluate_assertions platform response.get_header config.assertions content
                  >>= λ assertions.
                      ok (
                        judge network platform decode print config response.finished_ms assertions))
                result (rw (expected, concluded) at e) in
            let (evaluation, evaluated, judged') =
              >>=-ok (evaluate_assertions platform response.get_header config.assertions content)
                (λ assertions.
                  ok (judge network platform decode print config response.finished_ms assertions))
                result judged in
            let (well, in_time, fast) =
              judge-healthy response.finished_ms evaluation (rw (ok_injective _ _ judged') h) in
            record {
              number = number;
              response = response;
              content = content;
              evaluation = evaluation;
              is_evaluated = evaluated;
              is_answer = answer;
              is_expected = expected;
              is_read = read;
              is_asserted = well;
              is_fast = (in_time, fast);
            }
      ]

  next_step-finish :
      (status : ℕ) (r : Request) (next_target : Url) (result : ExecutedCheck)
      → next_step network config.sensitive_headers status r next_target ≡ finish result
      → result.state ≢ healthy
  unfolding next_step
  next_step-finish status r next_target result e h =
      elim (Bool-cases
        (str_eq r.url.protocol "https:" && not (str_eq next_target.protocol "https:"))) [
          | inl insecure ↦ cc (rw insecure at e, h)
          | inr secure ↦
              elim (Bool-cases (
                is_truthy (redirect_content network status r).content
                && not (str_eq r.url.origin next_target.origin))) [
                  | inl blocked ↦ cc (rw (secure, blocked) at e, h)
                  | inr sent ↦ cc (rw (secure, sent) at e)
                ]
        ]

  redirected-finish :
      (is_last : Bool) (r : Request) (response : Response) (result : ExecutedCheck)
      → redirected network config.sensitive_headers is_last r response ≡ ok (finish result)
      → result.state ≢ healthy
  unfolding redirected
  redirected-finish is_last r response result e h =
      elim (Option-cases (response.get_header "location")) [
        | inl none_there ↦ cc (rw (none_there, redirected) at e, h)
        | inr (location, there) ↦ elim (Bool-cases is_last) [
          | inl last ↦ cc (rw (there, last, redirected) at e, h)
          | inr more ↦
              let (next_target, _, e') =
                >>=-ok (resolved (network.resolve location r.url))
                  (λ next_target.
                    (assert_public_url network next_target
                      >> ok (
                          next_step network config.sensitive_headers response.status r
                            next_target)))
                  (finish result) (rw (there, more, redirected) at e) in
              let (_, _, e'') =
                >>=-ok (assert_public_url network next_target)
                  (λ _.
                    ok (next_step network config.sensitive_headers response.status r next_target))
                  (finish result) e' in
              next_step-finish response.status r next_target result (ok_injective _ _ e'') h
        ]
      ]

  answer_step-healthy :
      (number : ℕ) (is_last : Bool) (r : Request) (result : ExecutedCheck) (answer : Answer)
      → fetch number r ≡ answer
      → answer_step network platform decode print fetch config is_last r answer ≡ ok (finish result)
      → result.state ≡ healthy
      → HealthyAnswer r
  unfolding answer_step respond
  answer_step-healthy number is_last r result (rejected message) fetched e h = cc
  answer_step-healthy number is_last r result (answered response) fetched e h =
      elim (Bool-cases (is_redirect response.status)) [
        | inl redirects ↦ absurd (redirected-finish is_last r response result (rw redirects at e) h)
        | inr answers ↦
            let (result', e', same) =
              >>=-ok (concluded network platform decode print config response)
                (λ result. ok (finish result)) (finish result) (rw answers at e) in
            concluded-healthy number r response result' fetched e'
              (rw (finish_injective result' result (ok_injective _ _ same)) h)
      ]

  -- A call that returns a healthy result has sent a request that was answered with an expected status, in a
  -- time below both thresholds, and with a content that passes the assertions.
  pub execute_http-healthy :
      (execution : Execution)
      → execute_http network platform decode print fetch config ≡ ok execution
      → execution.result.state ≡ healthy
      → (r : Request) × Memᴰ r execution.requests × HealthyAnswer r
  execute_http-healthy execution e h =
      elim (execute_http-Ending network platform decode print fetch config execution e).0 [
        | by_answer number is_last r m e' ↦
            (r, m, answer_step-healthy number is_last r execution.result (fetch number r) refl e' h)
        | by_error message e' ↦ absurd (caught-not_healthy message (rw e' at h))
      ]
