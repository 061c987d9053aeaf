-- ===== src/Contracts/LiveTicket/Verified.antt =====
-- `verifyLiveTicket` of packages/contracts/src/live-ticket.ts: what a ticket that is accepted has.
use Prim.Native.String.{len}
use alphaping.Prelude.{
  ℕ, ◌+◌, ◌*◌, ◌≤◌, ◌≡◌, refl, Bool, true, false, Bool-cases, inl, inr, not, ◌&&◌, ltb, leb, ◌==◌,
  String, List, [], ◌∷◌, ◌++◌, length, arith, ap, ◌∙◌, ◌<◌, str_eq, ◌||◌,
}
use alphaping.Prelude.Json.{Value, null, boolean, number, text, array, object, Fields, get_field}
use alphaping.Prelude.Outcome.{
  Outcome, ok, throw, stuck, ok_injective, >>=-ok, ◌>>=◌, ◌>>◌, throw_if,
}
use alphaping.Contracts.LiveTicket.{
  same_bytes, Role, viewer, agent, LiveTicketClaims, TicketPlatform, timing_safe_equal,
  decode_base64url, keyed_digest, scope_of, timestamp_of, topic_of, bytes_of_length, is_text,
  is_undefined, is_out_of_time, role_of, claims_of, parse_claims, parts_of, verify_live_ticket,
}

-- Every value that the code gives has the property.
pub record Gives {ℓ κ} {A : Type ℓ} (P : A → Type κ) (m : Outcome A) : Type (ℓ ⊔ κ) where
  pub at_value : (a : A) → m ≡ ok a → P a

module _ {ℓ κ μ} {A : Type ℓ} {B : Type κ} {P : B → Type μ} where
  Gives-bind :
      (m : Outcome A) (f : A → Outcome B) → ((a : A) → m ≡ ok a → Gives P (f a)) → Gives P (m >>= f)
  Gives-bind (ok a) f k = k a refl
  Gives-bind (throw message) f k = record { at_value = λ b e. cc }
  Gives-bind stuck f k = record { at_value = λ b e. cc }

module _ {κ μ} {B : Type κ} {P : B → Type μ} where
  Gives-throw_if :
      (test : Bool) (message : String) {m : Outcome B}
      → (test ≡ false → Gives P m)
      → Gives P (throw_if test message >> m)
  Gives-throw_if true message k = record { at_value = λ b e. cc }
  Gives-throw_if false message k = k refl

  Gives-ok : (b : B) → P b → Gives P (ok b)
  Gives-ok b p = record { at_value = λ b' e. rw (← ok_injective _ _ e) p }

not-false : (b : Bool) → not b ≡ false → b ≡ true
not-false b h = ground arith

-- How long a ticket of the role may be valid.
abbrev pub lifetime : Role → ℕ
lifetime viewer = 5 * 60000
lifetime (agent session_id nonce_prefix) = 15 * 60000

-- The times of the claims allow the present time, with clocks five seconds apart at most, and their distance
-- is that of the role at most.
pub record IsTimely (now : ℕ) (claims : LiveTicketClaims) : Type 0 where
  pub begun : claims.not_before ≤ now + 5000
  pub open_yet : now < claims.expires_at
  pub issued : claims.issued_at ≤ now + 5000
  pub ordered : claims.issued_at ≤ claims.not_before + 5000
  pub short : claims.expires_at ≤ claims.issued_at + lifetime claims.role

same_bytes-eq : (left right : List ℕ) → same_bytes left right ≡ true → left ≡ right
same_bytes-eq [] [] e = refl
same_bytes-eq [] (y ∷ ys) e = cc
same_bytes-eq (x ∷ xs) [] e = cc
same_bytes-eq (x ∷ xs) (y ∷ ys) e =
    let first : x ≡ y = ground arith in let rest = same_bytes-eq xs ys (ground arith) in cc

timing_safe_equal-eq :
    (left right : List ℕ)
    → timing_safe_equal left right ≡ true
    → (left ≡ right) × (length left ≡ 32)
unfolding timing_safe_equal
timing_safe_equal-eq left right e = (same_bytes-eq left right (ground arith), ground arith)

module _ {N : Type 0} (platform : TicketPlatform N) where
  parts_of-eq :
      (parts : List String) (payload signature : String)
      → parts_of platform parts ≡ ok (payload, signature)
      → parts ≡ payload ∷ signature ∷ []
  parts_of-eq [] payload signature e = cc
  parts_of-eq (a ∷ []) payload signature e = cc
  parts_of-eq (a ∷ b ∷ c ∷ rest) payload signature e = cc
  parts_of-eq (a ∷ b ∷ []) payload signature e =
      let (_, _, e') =
        >>=-ok (throw_if (str_eq a "" || str_eq b "") "invalid_ticket") (λ _. ok (a, b))
          (payload, signature) e in
      let same = ok_injective _ _ e' in
      let first : a ≡ payload = ap (λ (p : String × String). p.0) same in
      let second : b ≡ signature = ap (λ (p : String × String). p.1) same in cc

  role_of-lifetime :
      (fields : Fields N) (issued_at expires_at : ℕ)
      → Gives
          (λ role. expires_at ≤ issued_at + lifetime role)
          (role_of platform fields issued_at expires_at)
  unfolding role_of
  role_of-lifetime fields issued_at expires_at =
      let is_viewer =
        (is_text platform "viewer" (get_field fields "role")
          && is_text platform "machine-summary" (get_field fields "projection"))
        && (leb expires_at (issued_at + 5 * 60000)
            && (is_undefined platform (get_field fields "sessionId")
                && is_undefined platform (get_field fields "noncePrefix"))) in
      let is_agent =
        (is_text platform "agent" (get_field fields "role")
          && is_text platform "internal" (get_field fields "projection"))
        && leb expires_at (issued_at + 15 * 60000) in
      elim (Bool-cases is_viewer) [
        | inl h ↦ rw (role_of, h) (Gives-ok viewer (ground (arith, h)))
        | inr h ↦ elim (Bool-cases is_agent) [
          | inr h' ↦ rw (role_of, h, h') (record { at_value = λ role e. cc })
          | inl h' ↦
              rw (role_of, h, h')
                (Gives-bind (bytes_of_length platform 16 (get_field fields "sessionId")) _
                  (λ session_id _.
                    Gives-bind (bytes_of_length platform 4 (get_field fields "noncePrefix")) _
                      (λ nonce_prefix _.
                        Gives-ok (agent session_id nonce_prefix) (ground (arith, h')))))
        ]
      ]

  claims_of-IsTimely :
      (fields : Fields N) (now : ℕ) → Gives (IsTimely now) (claims_of platform fields now)
  unfolding claims_of
  claims_of-IsTimely fields now =
      Gives-bind (timestamp_of platform (get_field fields "version")) _ (λ version _.
        Gives-throw_if (not (version == 1)) "invalid_ticket" (λ _.
          Gives-bind (scope_of platform 128 (get_field fields "workspaceId")) _ (λ workspace_id _.
            Gives-bind (scope_of platform 128 (get_field fields "subjectId")) _ (λ subject_id _.
              Gives-bind (topic_of platform (get_field fields "topics")) _ (λ topic _.
                Gives-bind (timestamp_of platform (get_field fields "issuedAt")) _ (λ issued_at _.
                  Gives-bind (timestamp_of platform (get_field fields "notBefore")) _
                    (λ not_before _.
                      Gives-bind (timestamp_of platform (get_field fields "expiresAt")) _
                        (λ expires_at _.
                          Gives-throw_if
                            (is_out_of_time platform now issued_at not_before expires_at)
                            "invalid_ticket"
                            (λ in_time.
                              Gives-bind (role_of platform fields issued_at expires_at) _ (λ role e.
                                Gives-ok _ (record {
                                  begun = ground (arith, in_time);
                                  open_yet = ground (arith, in_time);
                                  issued = ground (arith, in_time);
                                  ordered = ground (arith, in_time);
                                  short =
                                      (role_of-lifetime fields issued_at expires_at).at_value role
                                        e;
                                })))))))))))

  -- The token is a payload and a signature, and the signature decodes to the 32 bytes of the HMAC of the
  -- payload under the secret, in the domain of live tickets.
  pub record IsSigned (secret token : String) : Type 0 where
    pub payload : String
    pub signature : String
    pub bytes : List ℕ
    pub is_split : platform.split_dots token ≡ payload ∷ signature ∷ []
    pub is_decoded : decode_base64url platform 32 signature ≡ ok bytes
    pub is_digest :
        platform.hmac
          (platform.encode secret)
          (platform.encode "alphaping/v1/live-ticket" ++ (0 ∷ platform.encode payload))
        ≡ bytes
    pub has_length : length bytes ≡ 32

  digest_of : String → String → List ℕ
  digest_of secret payload =
      platform.hmac (platform.encode secret)
        (platform.encode "alphaping/v1/live-ticket" ++ (0 ∷ platform.encode payload))

  keyed_digest-hmac :
      (secret payload : String) (digest : List ℕ)
      → keyed_digest platform secret "alphaping/v1/live-ticket" (platform.encode payload)
        ≡ ok digest
      → digest_of secret payload ≡ digest
  unfolding keyed_digest digest_of
  keyed_digest-hmac secret payload digest e =
      let (_, _, e') =
        >>=-ok (throw_if (ltb (length (platform.encode secret)) 32) "invalid_live_ticket_secret")
          (λ _. ok (digest_of secret payload)) digest e in
      ok_injective _ _ e'

  parse_claims-IsTimely :
      (parsed : Value N) (now : ℕ) → Gives (IsTimely now) (parse_claims platform parsed now)
  unfolding parse_claims
  parse_claims-IsTimely null now = record { at_value = λ claims e. cc }
  parse_claims-IsTimely (boolean b) now = record { at_value = λ claims e. cc }
  parse_claims-IsTimely (number n) now = record { at_value = λ claims e. cc }
  parse_claims-IsTimely (text t) now = record { at_value = λ claims e. cc }
  parse_claims-IsTimely (array items) now = record { at_value = λ claims e. cc }
  parse_claims-IsTimely (object fields) now = claims_of-IsTimely fields now

  verify_live_ticket-Gives :
      (token secret : String) (now : ℕ)
      → Gives
          (λ claims. IsSigned secret token × IsTimely now claims)
          (verify_live_ticket platform token secret now)
  unfolding verify_live_ticket digest_of
  verify_live_ticket-Gives token secret now =
      Gives-throw_if (ltb 4096 (len token)) "invalid_ticket" (λ _.
        Gives-bind (parts_of platform (platform.split_dots token)) _ (λ (payload, signature) split.
          Gives-bind
            (keyed_digest platform secret "alphaping/v1/live-ticket" (platform.encode payload)) _
            (λ expected digest.
              Gives-bind (decode_base64url platform 32 signature) _ (λ actual decoded.
                Gives-throw_if (not (timing_safe_equal expected actual)) "invalid_ticket" (λ equal.
                  let signed : IsSigned secret token = record {
                    payload = payload;
                    signature = signature;
                    bytes = actual;
                    is_split = parts_of-eq (platform.split_dots token) payload signature split;
                    is_decoded = decoded;
                    is_digest =
                        keyed_digest-hmac secret payload expected digest
                        ∙ (timing_safe_equal-eq expected actual (not-false _ equal)).0;
                    has_length =
                        rw (← (timing_safe_equal-eq expected actual (not-false _ equal)).0)
                          ((timing_safe_equal-eq expected actual (not-false _ equal)).1);
                  } in
                  Gives-bind (decode_base64url platform 4096 payload) _ (λ bytes _.
                    Gives-bind (platform.parse_json bytes) _ (λ parsed _. record {
                      at_value = λ claims e.
                          (signed, (parse_claims-IsTimely parsed now).at_value claims e);
                    })))))))

  -- A ticket that is accepted at a time is a payload and a signature that decodes to the 32 bytes of the
  -- payload's HMAC under the secret; it has begun, was issued in the past and not after it begins, each up to
  -- five seconds of difference between clocks, has not expired, and expires at most five minutes after it is
  -- issued for a viewer and fifteen for an agent.
  pub verify_live_ticket-IsTimely :
      (token secret : String) (now : ℕ) (claims : LiveTicketClaims)
      → verify_live_ticket platform token secret now ≡ ok claims
      → IsSigned secret token × IsTimely now claims
  verify_live_ticket-IsTimely token secret now =
      (verify_live_ticket-Gives token secret now).at_value
