-- ===== src/Contracts/LiveTicket.antt =====
-- packages/contracts/src/live-ticket.ts: the tickets by which agents and viewers join a hub. HMAC, Base64,
-- UTF-8, JSON and the regular expressions are parameters. A text is ASCII where its length is read.
pub mod Verified
use Prim.Native.String.{len, slice}
use package.text.Mathlib.Text.{starts_with}
use alphaping.Prelude.{
  ℕ, ◌+◌, ◌-◌, ◌*◌, Bool, true, false, not, ◌&&◌, ◌||◌, ltb, leb, ◌==◌, Option, none, some,
  if◌then◌else◌, String, str_eq, List, [], ◌∷◌, ◌++◌, any, length,
}
use alphaping.Prelude.Json.{
  Value, null, boolean, number, text, array, object, Items, nil, cons, Fields, get_field,
}
use alphaping.Prelude.Outcome.{Outcome, ok, throw, stuck, ◌>>=◌, ◌>>◌, throw_if}

abbrev pub live_protocol : String
live_protocol = "alphaping.v1"

abbrev pub live_ticket_protocol_prefix : String
live_ticket_protocol_prefix = "alphaping.ticket."

pub data Role : Type 0 where
  viewer : Role
  agent : (session_id nonce_prefix : String) → Role

-- The claims of a ticket, of one of two roles with its projection.
pub record LiveTicketClaims : Type 0 where
  pub workspace_id : String
  pub subject_id : String
  pub topic : String
  pub issued_at : ℕ
  pub not_before : ℕ
  pub expires_at : ℕ
  pub role : Role

-- `safe_integer` is the natural number that a number of JSON is, if it is safe; `parse_json` reads the text
-- that bytes decode to; `decode_base64` is atob after the letters are exchanged and the text padded.
pub record TicketPlatform (N : Type 0) : Type 0 where
  pub safe_integer : N → Option ℕ
  pub encode : String → List ℕ
  pub hmac : List ℕ → List ℕ → List ℕ
  pub is_base64url : String → Bool
  pub decode_base64 : String → Outcome (List ℕ)
  pub is_machine_topic : String → Bool
  pub split_dots : String → List String
  pub parse_json : List ℕ → Outcome (Value N)

abbrev pub same_bytes : List ℕ → List ℕ → Bool
same_bytes [] [] = true
same_bytes (x ∷ xs) (y ∷ ys) = (x == y) && same_bytes xs ys
same_bytes _ _ = false

-- The difference of the loop is zero where each byte is the same.
unfoldable pub timing_safe_equal : List ℕ → List ℕ → Bool
timing_safe_equal left right =
    if (length left == 32) && (length right == 32) then same_bytes left right else false

-- `Math.ceil(maximumBytes * 4 / 3)`
abbrev pub longest_text : ℕ → ℕ → Bool
longest_text maximum_bytes characters = leb (3 * characters) (maximum_bytes * 4 + 2)

module _ {N : Type 0} (platform : TicketPlatform N) where
  open platform use {
    safe_integer, encode, hmac, is_base64url, decode_base64, is_machine_topic, split_dots,
    parse_json,
  }

  unfoldable pub decode_base64url : ℕ → String → Outcome (List ℕ)
  decode_base64url maximum_bytes value =
      throw_if (not (is_base64url value) || not (longest_text maximum_bytes (len value)))
        "invalid_base64url"
      >> (decode_base64 value >>= λ bytes.
          (throw_if (ltb maximum_bytes (length bytes)) "invalid_base64url" >> ok bytes))

  -- The label, a zero and the part, in bytes, under the secret.
  unfoldable pub keyed_digest : String → String → List ℕ → Outcome (List ℕ)
  keyed_digest secret label part =
      throw_if (ltb (length (encode secret)) 32) "invalid_live_ticket_secret"
      >> ok (hmac (encode secret) (encode label ++ (0 ∷ part)))

  abbrev pub scope_of : ℕ → Option (Value N) → Outcome String
  scope_of maximum (some (text scope)) =
      throw_if ((len scope == 0) || ltb maximum (len scope)) "invalid_ticket" >> ok scope
  scope_of maximum _ = throw "invalid_ticket"

  abbrev pub required : Option ℕ → Outcome ℕ
  required none = throw "invalid_ticket"
  required (some n) = ok n

  abbrev pub timestamp_of : Option (Value N) → Outcome ℕ
  timestamp_of (some (number n)) = required (safe_integer n)
  timestamp_of _ = throw "invalid_ticket"

  -- The array of one topic.
  abbrev pub topic_of : Option (Value N) → Outcome String
  topic_of (some (array (cons (text topic) nil))) =
      throw_if (not (is_machine_topic topic)) "invalid_ticket" >> ok topic
  topic_of _ = throw "invalid_ticket"

  abbrev pub is_text : String → Option (Value N) → Bool
  is_text expected (some (text content)) = str_eq content expected
  is_text expected _ = false

  abbrev pub is_undefined : Option (Value N) → Bool
  is_undefined none = true
  is_undefined (some value) = false

  -- The text of a field of an agent's claims, which decodes to so many bytes.
  abbrev pub bytes_of_length : ℕ → Option (Value N) → Outcome String
  unfolding decode_base64url
  bytes_of_length size (some (text content)) = decode_base64url size content >>= λ bytes.
      (throw_if (not (length bytes == size)) "invalid_ticket" >> ok content)
  bytes_of_length size _ = throw "invalid_ticket"

  -- The times that are accepted at the present time.
  abbrev pub is_out_of_time : ℕ → ℕ → ℕ → ℕ → Bool
  is_out_of_time now issued_at not_before expires_at =
      ltb (now + 5000) not_before
      || (leb expires_at now || (ltb (now + 5000) issued_at || ltb (not_before + 5000) issued_at))

  unfoldable pub role_of : Fields N → ℕ → ℕ → Outcome Role
  unfolding get_field bytes_of_length
  role_of fields issued_at expires_at =
      let is_viewer =
        (is_text "viewer" (get_field fields "role")
          && is_text "machine-summary" (get_field fields "projection"))
        && (leb expires_at (issued_at + 5 * 60000)
            && (is_undefined (get_field fields "sessionId")
                && is_undefined (get_field fields "noncePrefix"))) in
      let is_agent =
        (is_text "agent" (get_field fields "role")
          && is_text "internal" (get_field fields "projection"))
        && leb expires_at (issued_at + 15 * 60000) in
      if is_viewer
      then ok viewer
      else if is_agent
      then bytes_of_length 16 (get_field fields "sessionId") >>= (λ session_id.
        bytes_of_length 4 (get_field fields "noncePrefix") >>= λ nonce_prefix.
        ok (agent session_id nonce_prefix))
      else throw "invalid_ticket"

  unfoldable pub claims_of : Fields N → ℕ → Outcome LiveTicketClaims
  unfolding get_field role_of
  claims_of fields now = timestamp_of (get_field fields "version") >>= λ version.
      (throw_if (not (version == 1)) "invalid_ticket"
        >> (scope_of 128 (get_field fields "workspaceId") >>= λ workspace_id.
            (scope_of 128 (get_field fields "subjectId") >>= λ subject_id.
            (topic_of (get_field fields "topics") >>= λ topic.
            (timestamp_of (get_field fields "issuedAt") >>= λ issued_at.
            (timestamp_of (get_field fields "notBefore") >>= λ not_before.
            (timestamp_of (get_field fields "expiresAt") >>= λ expires_at.
            (throw_if (is_out_of_time now issued_at not_before expires_at) "invalid_ticket"
              >> (role_of fields issued_at expires_at >>= λ role. ok (record {
                workspace_id = workspace_id;
                subject_id = subject_id;
                topic = topic;
                issued_at = issued_at;
                not_before = not_before;
                expires_at = expires_at;
                role = role;
              }))))))))))

  abbrev pub parse_claims : Value N → ℕ → Outcome LiveTicketClaims
  unfolding claims_of
  parse_claims (object fields) now = claims_of fields now
  parse_claims _ now = throw "invalid_ticket"

  -- The payload and the signature of a token of two parts that are not empty.
  abbrev pub parts_of : List String → Outcome (String × String)
  parts_of (payload ∷ signature ∷ []) =
      throw_if (str_eq payload "" || str_eq signature "") "invalid_ticket"
      >> ok (payload, signature)
  parts_of _ = throw "invalid_ticket"

  unfoldable pub verify_live_ticket : String → String → ℕ → Outcome LiveTicketClaims
  unfolding keyed_digest decode_base64url timing_safe_equal parse_claims
  verify_live_ticket token secret now =
      throw_if (ltb 4096 (len token)) "invalid_ticket"
      >> (parts_of (split_dots token) >>= λ (payload, signature).
          (keyed_digest secret "alphaping/v1/live-ticket" (encode payload) >>= λ expected.
          (decode_base64url 32 signature >>= λ actual.
          (throw_if (not (timing_safe_equal expected actual)) "invalid_ticket"
            >> (decode_base64url 4096 payload >>= λ bytes.
                (parse_json bytes >>= λ parsed. parse_claims parsed now))))))

-- `protocols.find(…)`, without its prefix.
unfoldable pub first_ticket : List String → Outcome String
first_ticket [] = throw "missing_ticket"
first_ticket (protocol ∷ protocols) =
    let rest = first_ticket protocols in
    if starts_with protocol live_ticket_protocol_prefix
    then ok (slice protocol (len live_ticket_protocol_prefix) (len protocol))
    else rest

-- The parts of the header, trimmed, if it is there.
unfoldable pub ticket_from_protocols : Option (List String) → Outcome String
unfolding first_ticket
ticket_from_protocols none = throw "missing_live_protocol"
ticket_from_protocols (some protocols) =
    if any (str_eq live_protocol) protocols
    then first_ticket protocols
    else throw "missing_live_protocol"
