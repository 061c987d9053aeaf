-- ===== src/Checks/HttpRuns.antt =====
-- The results on the execution of checks, at concrete requests and answers.
use mathlib.Core.List.{Memᴰ}
use alphaping.Prelude.{
  ℕ, zero, suc, ◌≤◌, ◌≡◌, ◌↔◌, ◌⊎◌, refl, true, false, none, some, if◌then◌else◌, ltb, ◌==◌, String,
  str_eq, List, [], ◌∷◌, All, length,
}
use alphaping.Prelude.Outcome.{ok}
use alphaping.Checks.Result.{ExecutedCheck, healthy, down}
use alphaping.Prelude.Json.{text, object, field, end, number}
use alphaping.Checks.Assertions.{
  CheckAssertion, body, contains, fails, Platform, structurally_equal, AssertionEvaluation,
}
use alphaping.Checks.Hostname.{Url, Network, is_blocked}
use alphaping.Checks.Http.{
  get, HttpCheckRequest, ended, chunk, Response, Answer, answered, Request, Execution, execute_http,
}
use alphaping.Checks.Http.Requests.{
  IsAllowed, IsStripped, execute_http-IsAllowed, execute_http-IsStripped, execute_http-https,
}
use alphaping.Checks.Http.Answers.{Ending, execute_http-Ending}
use alphaping.Checks.Http.Healthy.{HealthyAnswer, execute_http-healthy}
use alphaping.Checks.Tcp.{TcpCheckRequest, Socket, execute_tcp, write_payload}
use alphaping.Checks.Tcp.Prefix.{read_bytes, StartsWith, execute_tcp-healthy}

-- JSON's numbers are natural here; a text contains and matches what it equals.
abbrev plain : Platform ℕ
plain = record {
  same_number = λ a b. a == b;
  less_than_number = ltb;
  includes = str_eq;
  find = λ pattern content. ok (str_eq content pattern);
  is_header_name = λ name. true;
  parse_json = λ content. none;
  select = λ selector value. none;
  join = λ parts. "";
}

abbrev shop : Url
shop = record {
  protocol = "https:";
  username = "";
  password = "";
  hostname = "shop.example";
  origin = "https://shop.example";
}

abbrev mirror : Url
mirror = record {
  protocol = "https:";
  username = "";
  password = "";
  hostname = "mirror.example";
  origin = "https://mirror.example";
}

abbrev web : Network
web = record {
  to_lower_case = λ s. s;
  parse_url = λ address. if str_eq address "https://shop.example/" then some shop else none;
  resolve =
      λ location base. if str_eq location "https://mirror.example/" then some mirror else none;
  address_range = λ address. none;
  new_headers = λ headers. some headers;
}

abbrev page_contains : CheckAssertion ℕ
page_contains = record {
  source = body;
  operator = contains;
  selector = none;
  expected = some (text "up");
  severity = fails;
}

abbrev page_check : HttpCheckRequest ℕ
page_check = record {
  url = "https://shop.example/";
  method = get;
  headers = ("cookie", "a=1") ∷ ("accept", "text/html") ∷ [];
  sensitive_headers = "x-token" ∷ [];
  content = none;
  expected_status = 200 ∷ [];
  degraded_after_ms = some 500;
  down_after_ms = some 900;
  max_redirects = 2;
  max_response_bytes = 10;
  assertions = page_contains ∷ [];
}

abbrev moved : Response
moved = record {
  status = 302;
  get_header = λ name. if str_eq name "location" then some "https://mirror.example/" else none;
  content = none;
  arrived_ms = 20;
  finished_ms = 20;
}

abbrev page : Response
page = record {
  status = 200;
  get_header = λ name. none;
  content = some (chunk (117 ∷ 112 ∷ []) ended);
  arrived_ms = 40;
  finished_ms = 60;
}

abbrev decode_up : List ℕ → String
decode_up bytes = if length bytes == 2 then "up" else ""

abbrev print_number : ℕ → String
print_number n = ""

abbrev serve : ℕ → Request → Answer
serve zero request = answered moved
serve (suc round) request = answered page

abbrev followed : Execution
followed = record {
  requests =
      record {
        url = shop;
        method = get;
        headers = ("cookie", "a=1") ∷ ("accept", "text/html") ∷ [];
        content = none;
      }
      ∷ record {
        url = mirror;
        method = get;
        headers = ("accept", "text/html") ∷ [];
        content = none;
      }
      ∷ [];
  result = record {
    state = healthy;
    latency_ms = some 60;
    failure_code = none;
    failure_summary = none;
  };
}

follows : execute_http web plain decode_up print_number serve page_check ≡ ok followed
unfolding execute_http
follows = refl

execute_http-IsAllowed_example : All (λ r. IsAllowed web r.url) followed.requests
execute_http-IsAllowed_example =
    execute_http-IsAllowed web plain decode_up print_number serve page_check followed follows

execute_http-IsStripped_example :
    All
      (λ r. (r.url.origin ≡ shop.origin) ⊎ IsStripped web page_check.sensitive_headers r)
      followed.requests
execute_http-IsStripped_example =
    execute_http-IsStripped web plain decode_up print_number serve page_check followed (λ s. refl)
      shop refl follows

execute_http-https_example : All (λ r. str_eq r.url.protocol "https:" ≡ true) followed.requests
execute_http-https_example =
    execute_http-https web plain decode_up print_number serve page_check followed shop refl refl
      follows

execute_http-Ending_example :
    Ending web plain decode_up print_number serve page_check followed
    × (length followed.requests ≤ 3)
execute_http-Ending_example =
    execute_http-Ending web plain decode_up print_number serve page_check followed follows

execute_http-healthy_example :
    (r : Request) × Memᴰ r followed.requests
    × HealthyAnswer web plain decode_up print_number serve page_check r
execute_http-healthy_example =
    execute_http-healthy web plain decode_up print_number serve page_check followed follows refl

abbrev page_off : AssertionEvaluation
page_off = record {
  state = down;
  failure_code = some "assertion_failed";
  failure_summary = some "";
}

-- An object of JSON whose one key is `__proto__` equals one with another key.
prototype_equal :
    structurally_equal plain
      (object (field "__proto__" (object end) end))
      (object (field "x" (number 1) end))
    ≡ true
unfolding structurally_equal
prototype_equal = refl

abbrev banner : TcpCheckRequest
banner = record { hostname = "mail.example"; payload = none; response_prefix = some (50 ∷ 50 ∷ []) }

abbrev mail : Socket
mail = record {
  opened = ok tt;
  write = λ bytes. ok tt;
  reads = chunk (50 ∷ []) (chunk (50 ∷ 48 ∷ []) ended);
  ended_ms = 12;
}

mail_public : is_blocked web "mail.example" ≡ false
unfolding is_blocked
mail_public = refl

execute_tcp-healthy_example :
    (result : ExecutedCheck) × (execute_tcp web mail banner ≡ ok result)
    × ((result.state ≡ healthy) ↔ (
        (mail.opened ≡ ok tt)
        × (write_payload mail banner.payload ≡ ok tt)
        × StartsWith banner.response_prefix (read_bytes mail.reads)))
execute_tcp-healthy_example = execute_tcp-healthy web mail banner mail_public
