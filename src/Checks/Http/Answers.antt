-- ===== src/Checks/Http/Answers.antt =====
-- `executeHttp` of workers/checks/src/executor.ts: how a call ends, and what it returns.
use mathlib.Core.List.{Memᴰ}
use alphaping.Prelude.{
  ℕ, zero, suc, ◌+◌, ◌≤◌, ◌≡◌, refl, Bool, true, false, String, List, length, arith,
}
use alphaping.Prelude.Outcome.{Outcome, ok, throw, stuck}
use alphaping.Checks.Assertions.{Platform}
use alphaping.Checks.Hostname.{Network}
use alphaping.Checks.Http.{
  HttpCheckRequest, Answer, Request, Execution, Step, finish, follow, assert_public_url, caught,
  answer_step, continue_with, send, round, visit, execute_http,
}
use alphaping.Checks.Http.Steps.{answer_step-follow}
use alphaping.Checks.Http.Requests.{executed}

module _ (network : Network) {N : Type 0} (platform : Platform N) (decode : List ℕ → String)
    (print : ℕ → String) (fetch : ℕ → Request → Answer) (config : HttpCheckRequest N) where
  -- The result is that of an answer to a request sent, or of an error.
  pub data Ending (execution : Execution) : Type 0 where
    by_answer :
        (number : ℕ) (is_last : Bool) (r : Request)
        → Memᴰ r execution.requests
        → answer_step network platform decode print fetch config is_last r (fetch number r)
          ≡ ok (finish execution.result)
        → Ending execution
    by_error :
        (message : String)
        → execution.result ≡ caught network platform decode print message
        → Ending execution

  Ending-send :
      (r : Request) (execution : Execution)
      → Ending execution
      → Ending (send network platform decode print fetch config r execution)
  Ending-send r execution (by_answer number is_last r' m e) =
      by_answer number is_last r' (Memᴰ.tail m) e
  Ending-send r execution (by_error message e) = by_error message e

  round-Ending :
      (number : ℕ) (is_last : Bool) (r : Request) (next : Request → Execution)
      → ((r' : Request) → is_last ≡ false → Ending (next r'))
      → Ending (round network platform decode print fetch config number is_last r next)
  unfolding round
  round-Ending number is_last r next rest = allow (assert_public_url network r.url) refl
    where
      answer :
          (step : Outcome Step)
          → answer_step network platform decode print fetch config is_last r (fetch number r) ≡ step
          → Ending (
              send network platform decode print fetch config r
                (continue_with network platform decode print fetch config step next))
      answer (ok (finish result)) e = by_answer number is_last r (Memᴰ.head refl) e
      answer (ok (follow r')) e =
          let (_, last) =
            answer_step-follow network platform decode print fetch config is_last r r'
              (fetch number r) e in
          Ending-send r (next r') (rest r' last)
      answer (throw message) e = by_error message refl
      answer stuck e = by_error "stuck" refl

      allow :
          (m : Outcome (Unit {0}))
          → assert_public_url network r.url ≡ m
          → Ending (round network platform decode print fetch config number is_last r next)
      allow (ok unit) e =
          rw (round, e)
            (answer
              (answer_step network platform decode print fetch config is_last r (fetch number r))
              refl)
      allow (throw message) e = rw (round, e) (by_error message refl)
      allow stuck e = rw (round, e) (by_error "stuck" refl)

  visit-Ending :
      (left number : ℕ) (r : Request)
      → Ending (visit network platform decode print fetch config left number r)
  unfolding visit
  visit-Ending zero number r = round-Ending number true r _ (λ r' last. cc)
  visit-Ending (suc left) number r =
      round-Ending number false r _ (λ r' last. visit-Ending left (number + 1) r')

  round-length :
      (number : ℕ) (is_last : Bool) (r : Request) (next : Request → Execution) (most : ℕ)
      → ((r' : Request) → length (next r').requests ≤ most)
      → length (round network platform decode print fetch config number is_last r next).requests
        ≤ suc most
  unfolding round
  round-length number is_last r next most bound = allow (assert_public_url network r.url) refl
    where
      answer :
          (step : Outcome Step)
          → length (continue_with network platform decode print fetch config step next).requests
            ≤ most
      answer (ok (finish result)) = omega arith
      answer (ok (follow r')) = bound r'
      answer (throw message) = omega arith
      answer stuck = omega arith

      allow :
          (m : Outcome (Unit {0}))
          → assert_public_url network r.url ≡ m
          → length (round network platform decode print fetch config number is_last r next).requests
            ≤ suc most
      allow (ok unit) e =
          let bounded =
            answer
              (answer_step network platform decode print fetch config is_last r (fetch number r)) in
          rw (round, e) (omega (arith, bounded))
      allow (throw message) e = rw (round, e) (omega arith)
      allow stuck e = rw (round, e) (omega arith)

  visit-length :
      (left number : ℕ) (r : Request)
      → length (visit network platform decode print fetch config left number r).requests ≤ suc left
  unfolding visit
  visit-length zero number r = round-length number true r _ 0 (λ r'. omega arith)
  visit-length (suc left) number r =
      round-length number false r _ (suc left) (λ r'. visit-length left (number + 1) r')

  -- A call sends at most one request more than its redirects, and its result is that of an answer to a
  -- request that it sent, or of an error: it does not run out of rounds.
  pub execute_http-Ending :
      (execution : Execution)
      → execute_http network platform decode print fetch config ≡ ok execution
      → Ending execution × (length execution.requests ≤ suc config.max_redirects)
  execute_http-Ending execution e =
      let (first, _, run) = executed network platform decode print fetch config execution e in
      rw (← run)
        (visit-Ending config.max_redirects 0 first, visit-length config.max_redirects 0 first)
