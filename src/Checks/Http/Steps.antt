-- ===== src/Checks/Http/Steps.antt =====
-- `executeHttp`: the step from a request to the next, and what holds of every request sent.
use mathlib.Core.Path.{subst}
use alphaping.Prelude.{
  ℕ, zero, suc, ◌+◌, ◌≡◌, refl, Bool, true, false, Bool-cases, inl, inr, not, ◌&&◌, Option-cases,
  String, str_eq, List, All,
}
use alphaping.Prelude.Outcome.{Outcome, ok, throw, stuck, ok_injective, >>=-ok, ◌>>=◌, ◌>>◌}
use alphaping.Checks.Assertions.{Platform}
use alphaping.Checks.Result.{ExecutedCheck}
use alphaping.Checks.Hostname.{Url, Network}
use alphaping.Checks.Http.{
  HttpCheckRequest, Response, Answer, answered, rejected, Request, Step, finish, follow, Execution,
  is_truthy, is_redirect, assert_public_url, redirect_content, redirect_headers, next_step,
  resolved, redirected, respond, answer_step, concluded, continue_with, round, visit,
}

pub follow_injective : (a b : Request) → follow a ≡ follow b → a ≡ b
follow_injective a b e = cc

finish-ne-follow :
    (m : Outcome ExecutedCheck) (r : Request)
    → (m >>= λ result. ok (finish result)) ≡ ok (follow r)
    → ⊥
finish-ne-follow (ok result) r e = cc
finish-ne-follow (throw message) r e = cc
finish-ne-follow stuck r e = cc

module _ (network : Network) where
  -- The request that follows a redirect with the status to the next target.
  unfoldable pub next_request : List String → ℕ → Request → Url → Request
  next_request sensitive_headers status request next_target = record {
    url = next_target;
    method = (redirect_content network status request).method;
    headers =
        redirect_headers network (redirect_content network status request).headers request.url
          next_target sensitive_headers;
    content = (redirect_content network status request).content;
  }

  -- What a redirect that is followed has passed.
  pub record Followed (sensitive_headers : List String) (request next : Request) : Type 0 where
    pub status : ℕ
    pub is_next : next ≡ next_request sensitive_headers status request next.url
    pub keeps_https :
        (str_eq request.url.protocol "https:" && not (str_eq next.url.protocol "https:")) ≡ false
    pub keeps_content :
        (is_truthy (redirect_content network status request).content
          && not (str_eq request.url.origin next.url.origin))
        ≡ false

  next_step-follow :
      (sensitive_headers : List String) (status : ℕ) (request : Request) (next_target : Url)
      (next : Request)
      → next_step network sensitive_headers status request next_target ≡ follow next
      → Followed sensitive_headers request next
  unfolding next_step next_request
  next_step-follow sensitive_headers status request next_target next e =
      elim (Bool-cases
        (str_eq request.url.protocol "https:" && not (str_eq next_target.protocol "https:"))) [
          | inl h ↦ cc (rw h at e)
          | inr h ↦
              elim (Bool-cases (
                is_truthy (redirect_content network status request).content
                && not (str_eq request.url.origin next_target.origin))) [
                  | inl h' ↦ cc (rw (h, h') at e)
                  | inr h' ↦
                      subst (Followed sensitive_headers request)
                        (follow_injective
                          (next_request sensitive_headers status request next_target) next
                          (rw (h, h') at e))
                        (record {
                          status = status;
                          is_next = refl;
                          keeps_https = h;
                          keeps_content = h';
                        })
                ]
        ]

  module _ {N : Type 0} (platform : Platform N) (decode : List ℕ → String) (print : ℕ → String)
      (fetch : ℕ → Request → Answer) (config : HttpCheckRequest N) where
    redirected-follow :
        (is_last : Bool) (request next : Request) (response : Response)
        → redirected network config.sensitive_headers is_last request response ≡ ok (follow next)
        → Followed config.sensitive_headers request next × (is_last ≡ false)
    unfolding redirected
    redirected-follow is_last request next response e =
        elim (Option-cases (response.get_header "location")) [
          | inl h ↦ cc (rw (h, redirected) at e)
          | inr (location, h) ↦ elim (Bool-cases is_last) [
            | inl l ↦ cc (rw (h, l, redirected) at e)
            | inr l ↦
                let (next_target, _, e') =
                  >>=-ok (resolved (network.resolve location request.url))
                    (λ next_target.
                      (assert_public_url network next_target
                        >> ok (
                            next_step network config.sensitive_headers response.status request
                              next_target)))
                    (follow next) (rw (h, l, redirected) at e) in
                let (_, _, e'') =
                  >>=-ok (assert_public_url network next_target)
                    (λ _. ok (
                      next_step network config.sensitive_headers response.status request
                        next_target))
                    (follow next) e' in
                (
                  next_step-follow config.sensitive_headers response.status request next_target next
                      (ok_injective _ _ e''),
                  l,
                )
          ]
        ]

    pub answer_step-follow :
        (is_last : Bool) (request next : Request) (answer : Answer)
        → answer_step network platform decode print fetch config is_last request answer
          ≡ ok (follow next)
        → Followed config.sensitive_headers request next × (is_last ≡ false)
    unfolding answer_step respond
    answer_step-follow is_last request next (answered response) e =
        elim (Bool-cases (is_redirect response.status)) [
          | inl h ↦ redirected-follow is_last request next response (rw h at e)
          | inr h ↦ absurd (
              finish-ne-follow (concluded network platform decode print config response) next
                (rw h at e))
        ]
    answer_step-follow is_last request next (rejected message) e = cc

    -- What holds of the first request, and passes to each that follows, gives what holds of those sent.
    module _ (Inv P : Request → Type 0)
        (holds : (r : Request) → Inv r → assert_public_url network r.url ≡ ok tt → P r)
        (keeps : (r next : Request)
          → Inv r
          → assert_public_url network r.url ≡ ok tt
          → Followed config.sensitive_headers r next
          → Inv next) where
      continue_with-All :
          (is_last : Bool) (r : Request) (answer : Answer) (next : Request → Execution)
          → Inv r
          → assert_public_url network r.url ≡ ok tt
          → ((r' : Request) → Inv r' → All P (next r').requests)
          → All P
              (continue_with network platform decode print fetch config
                (answer_step network platform decode print fetch config is_last r answer)
                next).requests
      continue_with-All is_last r answer next inv allowed rest =
          go (answer_step network platform decode print fetch config is_last r answer) refl
        where
          go :
              (step : Outcome Step)
              → answer_step network platform decode print fetch config is_last r answer ≡ step
              → All P (continue_with network platform decode print fetch config step next).requests
          go (ok (finish result)) e = tt
          go (ok (follow r')) e =
              let (followed, _) = answer_step-follow is_last r r' answer e in
              rest r' (keeps r r' inv allowed followed)
          go (throw message) e = tt
          go stuck e = tt

      round-All :
          (number : ℕ) (is_last : Bool) (r : Request) (next : Request → Execution)
          → Inv r
          → ((r' : Request) → Inv r' → All P (next r').requests)
          → All P (round network platform decode print fetch config number is_last r next).requests
      unfolding round
      round-All number is_last r next inv rest = go (assert_public_url network r.url) refl
        where
          go :
              (m : Outcome (Unit {0}))
              → assert_public_url network r.url ≡ m
              → All P
                  (round network platform decode print fetch config number is_last r next).requests
          go (ok unit) e =
              rw (round, e)
                (holds r inv e, continue_with-All is_last r (fetch number r) next inv e rest)
          go (throw message) e = rw (round, e) tt
          go stuck e = rw (round, e) tt

      pub visit-All :
          (left number : ℕ) (r : Request)
          → Inv r
          → All P (visit network platform decode print fetch config left number r).requests
      unfolding visit
      visit-All zero number r inv = round-All number true r _ inv (λ r' inv'. tt)
      visit-All (suc left) number r inv =
          round-All number false r _ inv (λ r' inv'. visit-All left (number + 1) r' inv')
