-- ===== src/Contracts/TicketRuns.antt =====
-- The result on live tickets, at a viewer's ticket of one machine.
use alphaping.Prelude.{ℕ, ◌≡◌, refl, true, some, if◌then◌else◌, str_eq, [], ◌∷◌, replicate}
use alphaping.Prelude.Json.{number, text, array, object, nil, cons, end, field}
use alphaping.Prelude.Outcome.{ok}
use alphaping.Contracts.LiveTicket.{viewer, LiveTicketClaims, TicketPlatform, verify_live_ticket}
use alphaping.Contracts.LiveTicket.Verified.{IsSigned, IsTimely, verify_live_ticket-IsTimely}

abbrev claims : LiveTicketClaims
claims = record {
  workspace_id = "w";
  subject_id = "u";
  topic = "machine:4";
  issued_at = 1000000;
  not_before = 995000;
  expires_at = 1300000;
  role = viewer;
}

abbrev platform : TicketPlatform ℕ
platform = record {
  safe_integer = λ n. some n;
  encode = λ content. replicate 32 1;
  hmac = λ key content. replicate 32 7;
  is_base64url = λ content. true;
  decode_base64 = λ content. if str_eq content "s" then ok (replicate 32 7) else ok (1 ∷ []);
  is_machine_topic = λ topic. true;
  split_dots = λ token. "p" ∷ "s" ∷ [];
  parse_json = λ bytes. ok (
      object (
        field "version" (number 1) (
          field "workspaceId" (text "w") (
            field "subjectId" (text "u") (
              field "topics" (array (cons (text "machine:4") nil)) (
                field "issuedAt" (number 1000000) (
                  field "notBefore" (number 995000) (
                    field "expiresAt" (number 1300000) (
                      field "role" (text "viewer")
                        (field "projection" (text "machine-summary") end))))))))));
}

accepted : verify_live_ticket platform "p.s" "secret" 1001000 ≡ ok claims
unfolding verify_live_ticket
accepted = refl

verify_live_ticket-IsTimely_example : IsSigned platform "secret" "p.s" × IsTimely 1001000 claims
verify_live_ticket-IsTimely_example =
    verify_live_ticket-IsTimely platform "p.s" "secret" 1001000 claims accepted
