-- ===== src/Checks/Hostname.antt =====
-- `assertPublicHostname` of workers/checks/src/validation.ts: which hosts a check may reach. The URL parser,
-- the package ipaddr.js and lower-casing are parameters. A host name is ASCII, as a parsed URL gives it, so
-- that its bytes are its characters.
use Prim.Native.String.{len, slice, ◌++◌}
use text.Mathlib.Text.{starts_with}
use alphaping.Prelude.{
  ◌-◌, Bool, false, not, ◌&&◌, ◌||◌, ltb, leb, ◌==◌, Option, none, some, if◌then◌else◌, String,
  str_eq, List, [], ◌∷◌,
}
use alphaping.Prelude.Outcome.{Outcome, throw_if}

-- The fields of a parsed URL that are read.
pub record Url : Type 0 where
  pub protocol : String
  pub username : String
  pub password : String
  pub hostname : String
  pub origin : String

-- `toLowerCase`, `new URL(text)` and `new URL(text, base)`, which throw where there is no URL, and the
-- range of ipaddr.js of a text that is an address; `new Headers`.
pub record Network : Type 0 where
  pub to_lower_case : String → String
  pub parse_url : String → Option Url
  pub resolve : String → Url → Option Url
  pub address_range : String → Option String
  pub new_headers : List (String × String) → Option (List (String × String))

abbrev pub ends_with : String → String → Bool
ends_with s suffix =
    leb (len suffix) (len s) && str_eq (slice s (len s - len suffix) (len s)) suffix

unfoldable pub without_ipv6_brackets : String → String
without_ipv6_brackets hostname =
    if starts_with hostname "[" && ends_with hostname "]"
    then slice hostname 1 (len hostname - 1)
    else hostname

unfoldable pub without_final_dot : String → String
without_final_dot hostname =
    if ends_with hostname "." then slice hostname 0 (len hostname - 1) else hostname

module _ (network : Network) where
  open network use {to_lower_case, parse_url, address_range}

  -- The range of the first candidate that is an address.
  unfoldable pub first_range : List String → Option String
  first_range [] = none
  first_range (candidate ∷ candidates) =
      let rest = first_range candidates in
      elim (address_range candidate) [ none ↦ rest | some range ↦ some range ]

  -- `parseAddressLiteral(hostname)?.range()`
  unfoldable pub range_of : String → Option String
  unfolding without_ipv6_brackets first_range
  range_of hostname = first_range (
      without_ipv6_brackets hostname ∷ elim (parse_url ("http://" ++ hostname)) [
        | none ↦ []
        | some url ↦ without_ipv6_brackets url.hostname ∷ []
      ])

  abbrev pub is_not_unicast : Option String → Bool
  is_not_unicast none = false
  is_not_unicast (some range) = not (str_eq range "unicast")

  unfoldable pub normalized_hostname : String → String
  unfolding without_final_dot
  normalized_hostname hostname = without_final_dot (to_lower_case hostname)

  unfoldable pub is_blocked : String → Bool
  unfolding range_of normalized_hostname
  is_blocked hostname =
      let normalized = normalized_hostname hostname in
      len normalized == 0
      || (ltb 253 (len normalized)
          || (ends_with normalized ".local"
              || (ends_with normalized ".internal"
                  || ((str_eq normalized "localhost" || str_eq normalized "localhost.localdomain")
                      || is_not_unicast (range_of normalized)))))

  unfoldable pub assert_public_hostname : String → Outcome (Unit {0})
  unfolding is_blocked
  assert_public_hostname hostname = throw_if (is_blocked hostname) "blocked_target"
