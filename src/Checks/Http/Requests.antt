-- ===== src/Checks/Http/Requests.antt =====
-- `executeHttp` of workers/checks/src/executor.ts: which requests are sent.
use alphaping.Prelude.{
  ℕ, ◌≡◌, refl, sym, ◌∙◌, ap, Bool, true, false, Bool-cases, ◌⊎◌, inl, inr, not, ◌||◌, none, some,
  Option-cases, if◌then◌else◌, String, str_eq, eq_iff, List, All, filter, map, arith,
}
use alphaping.Prelude.Outcome.{ok, throw_if, ok_injective, >>=-ok}
use alphaping.Checks.Assertions.{Platform}
use alphaping.Checks.Hostname.{Url, Network, is_blocked, assert_public_hostname}
use alphaping.Checks.Http.{
  HttpCheckRequest, Headers, Answer, Request, Execution, is_truthy, is_web, is_sensitive,
  is_get_redirect, has_no_body, content_headers, assert_public_url, redirect_content,
  redirect_headers, resolved, visit, execute_http,
}
use alphaping.Checks.Http.Headers.{delete_names-keeps, delete_names-sensitive}
use alphaping.Checks.Http.Steps.{Followed, next_request, visit-All}

throw_if-ok : (test : Bool) (message : String) → throw_if test message ≡ ok tt → test ≡ false
throw_if-ok true message e = cc
throw_if-ok false message e = refl

module _ (network : Network) where
  -- A web address without credentials, of a host that is not blocked.
  pub IsAllowed : Url → Type 0
  IsAllowed url =
      (is_web network url ≡ true)
      × (url.username ≡ "")
      × (url.password ≡ "")
      × (is_blocked network url.hostname ≡ false)

  assert_public_url-IsAllowed : (url : Url) → assert_public_url network url ≡ ok tt → IsAllowed url
  unfolding IsAllowed assert_public_url assert_public_hostname
  assert_public_url-IsAllowed url e =
      let (_, e', e'') =
        >>=-ok
          (throw_if
            (not (is_web network url)
              || (not (str_eq url.username "") || not (str_eq url.password "")))
            "url_credentials_unsupported")
          (λ _. assert_public_hostname network url.hostname) tt e in
      let passed = throw_if-ok _ _ e' in
      (
        ground (arith, passed),
        (eq_iff url.username "").0 (ground (arith, passed)),
        (eq_iff url.password "").0 (ground (arith, passed)),
        throw_if-ok _ _ e'',
      )

  -- No sensitive header and no body.
  pub IsStripped : List String → Request → Type 0
  IsStripped sensitive_headers r =
      All (λ header. is_sensitive network sensitive_headers header.0 ≡ false) r.headers
      × (is_truthy r.content ≡ false)

  redirect_headers-All :
      (P : (String × String) → Type 0) (headers : Headers) (from to : Url) (names : List String)
      → All P headers
      → All P (redirect_headers network headers from to names)
  unfolding redirect_headers
  redirect_headers-All P headers from to names ps =
      elim (Bool-cases (str_eq from.origin to.origin)) [
        | inl e ↦ rw e ps
        | inr e ↦ rw e (
            delete_names-keeps network P
              (filter (is_sensitive network names)
                (map (λ header. network.to_lower_case header.0) headers))
              headers ps)
      ]

  redirect_content-IsStripped :
      (sensitive_headers : List String) (status : ℕ) (r : Request)
      → IsStripped sensitive_headers r
      → IsStripped sensitive_headers (redirect_content network status r)
  unfolding redirect_content IsStripped
  redirect_content-IsStripped sensitive_headers status r (headers, content) =
      elim (Bool-cases (is_get_redirect network status r.method)) [
        | inl e ↦ rw e (
          delete_names-keeps network
              (λ header. is_sensitive network sensitive_headers header.0 ≡ false) content_headers
              r.headers headers,
          refl,
        )
        | inr e ↦ rw e (headers, content)
      ]

  Followed-IsStripped :
      (sensitive_headers : List String) (r next : Request)
      → Followed network sensitive_headers r next
      → IsStripped sensitive_headers r
      → IsStripped sensitive_headers next
  unfolding IsStripped next_request
  Followed-IsStripped sensitive_headers r next followed stripped =
      let (headers, content) =
        redirect_content-IsStripped sensitive_headers followed.status r stripped in
      (
        rw (ap (λ (q : Request). q.headers) followed.is_next) (
            redirect_headers-All (λ header. is_sensitive network sensitive_headers header.0 ≡ false)
              (redirect_content network followed.status r).headers r.url next.url sensitive_headers
              headers),
        rw (ap (λ (q : Request). q.content) followed.is_next) content,
      )

  -- A redirect to another origin.
  crossed-IsStripped :
      (lower_lower : (s : String)
        → network.to_lower_case (network.to_lower_case s) ≡ network.to_lower_case s)
      (sensitive_headers : List String) (r next : Request)
      → Followed network sensitive_headers r next
      → str_eq r.url.origin next.url.origin ≡ false
      → IsStripped sensitive_headers next
  unfolding IsStripped next_request redirect_headers
  crossed-IsStripped lower_lower sensitive_headers r next followed crossed =
      let keeps_content = followed.keeps_content in
      (
        rw (ap (λ (q : Request). q.headers) followed.is_next, crossed)
            (delete_names-sensitive network lower_lower sensitive_headers
              (redirect_content network followed.status r).headers),
        rw (ap (λ (q : Request). q.content) followed.is_next)
            (ground (arith, keeps_content, crossed)),
      )

  module _ {N : Type 0} (platform : Platform N) (decode : List ℕ → String) (print : ℕ → String)
      (fetch : ℕ → Request → Answer) (config : HttpCheckRequest N) (execution : Execution) where
    -- The run of the loop that a call gives.
    pub executed :
        execute_http network platform decode print fetch config ≡ ok execution
        → (first : Request) × (resolved (network.parse_url config.url) ≡ ok first.url)
          × (visit network platform decode print fetch config config.max_redirects 0 first
              ≡ execution)
    unfolding execute_http
    executed e = elim (Option-cases (network.parse_url config.url)) [
      | inl h ↦ cc (rw (h, execute_http) at e)
      | inr (url, h) ↦ elim (Option-cases (network.new_headers config.headers)) [
        | inl h' ↦ cc (rw (h, h', execute_http) at e)
        | inr (headers, h') ↦ (
          record {
            url = url;
            method = config.method;
            headers = headers;
            content = if has_no_body config.method then none else config.content;
          },
          rw h refl,
          ok_injective _ _ (rw (h, h', execute_http) at e),
        )
      ]
    ]

    -- What the first request has, and each that follows has from the one before, gives what those sent have.
    execute_http-All :
        (Inv P : Request → Type 0)
        → ((r : Request) → Inv r → assert_public_url network r.url ≡ ok tt → P r)
        → ((r next : Request) → Inv r → Followed network config.sensitive_headers r next → Inv next)
        → ((first : Request) → resolved (network.parse_url config.url) ≡ ok first.url → Inv first)
        → execute_http network platform decode print fetch config ≡ ok execution
        → All P execution.requests
    execute_http-All Inv P holds keeps starts e =
        let (first, found, run) = executed e in
        rw (← run) (
          visit-All network platform decode print fetch config Inv P holds
            (λ r next inv allowed. keeps r next inv) config.max_redirects 0 first
            (starts first found))

    -- Every request that a call sends goes to an http or https address without credentials, of a host that
    -- is not blocked.
    pub execute_http-IsAllowed :
        execute_http network platform decode print fetch config ≡ ok execution
        → All (λ r. IsAllowed r.url) execution.requests
    execute_http-IsAllowed =
        execute_http-All (λ r. Unit) (λ r. IsAllowed r.url)
          (λ r inv. assert_public_url-IsAllowed r.url) (λ r next inv followed. tt)
          (λ first found. tt)

    -- Where lower-casing is idempotent, a request that a call sends to another origin than that of its first
    -- address has neither a sensitive header nor a body that is not empty.
    pub execute_http-IsStripped :
        (lower_lower : (s : String)
          → network.to_lower_case (network.to_lower_case s) ≡ network.to_lower_case s)
        (url : Url)
        → network.parse_url config.url ≡ some url
        → execute_http network platform decode print fetch config ≡ ok execution
        → All
            (λ r. (r.url.origin ≡ url.origin) ⊎ IsStripped config.sensitive_headers r)
            execution.requests
    execute_http-IsStripped lower_lower url parsed =
        let Inv : Request → Type 0 =
          λ r. (r.url.origin ≡ url.origin) ⊎ IsStripped config.sensitive_headers r in
        execute_http-All Inv Inv (λ r inv allowed. inv)
          (λ r next inv followed. elim inv [
            | inr stripped ↦
                inr (Followed-IsStripped config.sensitive_headers r next followed stripped)
            | inl home ↦ elim (Bool-cases (str_eq r.url.origin next.url.origin)) [
              | inl stays ↦ inl (sym ((eq_iff r.url.origin next.url.origin).0 stays) ∙ home)
              | inr crossed ↦
                  inr (
                    crossed-IsStripped lower_lower config.sensitive_headers r next followed crossed)
            ]
          ])
          (λ first found.
            let same : url ≡ first.url = ok_injective _ _ (rw parsed at found) in
            inl (rw same refl))

    -- A call to an https address sends requests to https addresses only.
    pub execute_http-https :
        (url : Url)
        → network.parse_url config.url ≡ some url
        → str_eq url.protocol "https:" ≡ true
        → execute_http network platform decode print fetch config ≡ ok execution
        → All (λ r. str_eq r.url.protocol "https:" ≡ true) execution.requests
    execute_http-https url parsed secure =
        let Inv : Request → Type 0 = λ r. str_eq r.url.protocol "https:" ≡ true in
        execute_http-All Inv Inv (λ r inv allowed. inv)
          (λ r next inv followed.
            let keeps_https = followed.keeps_https in ground (arith, keeps_https, inv))
          (λ first found.
            let same : url ≡ first.url = ok_injective _ _ (rw parsed at found) in
            rw (← same) secure)
