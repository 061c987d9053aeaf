-- ===== src/Checks/Tcp.antt =====
-- `executeTcp` of workers/checks/src/executor.ts. The socket is a parameter: what
-- its opening, its writes and its reads give, a late one being the error "TimeoutError"; the clock is read
-- at the end.
pub mod Prefix
use alphaping.Prelude.{
  ℕ, zero, suc, ◌-◌, Bool, true, false, ◌&&◌, ltb, ◌==◌, Option, none, some, if◌then◌else◌, String,
  str_eq, List, [], ◌∷◌, ◌++◌, take, length,
}
use alphaping.Prelude.Outcome.{Outcome, ok, throw, stuck, ◌>>=◌, ◌>>◌}
use alphaping.Checks.Result.{ExecutedCheck, healthy, down, is_down}
use alphaping.Checks.Hostname.{Network, assert_public_hostname}
use alphaping.Checks.Http.{Stream, ended, chunk, broken, failed_outcome}

pub record TcpCheckRequest : Type 0 where
  pub hostname : String
  pub payload : Option (List ℕ)
  pub response_prefix : Option (List ℕ)

pub record Socket : Type 0 where
  pub opened : Outcome (Unit {0})
  pub write : List ℕ → Outcome (Unit {0})
  pub reads : Stream
  pub ended_ms : ℕ

-- `received.every((value, index) => value === expected[index])`, of arrays as long as each other.
abbrev pub same_bytes : List ℕ → List ℕ → Bool
same_bytes [] [] = true
same_bytes (x ∷ xs) (y ∷ ys) = (x == y) && same_bytes xs ys
same_bytes _ _ = false

-- The loop of the reads, with the bytes received up to the offset.
unfoldable pub receive : List ℕ → List ℕ → Stream → Outcome Bool
receive expected received ended =
    ok (if ltb (length received) (length expected) then false else same_bytes received expected)
receive expected received (broken message) =
    if ltb (length received) (length expected)
    then throw message
    else ok (same_bytes received expected)
receive expected received (chunk bytes stream) =
    let rest =
      receive expected (received ++ take (length expected - length received) bytes) stream in
    if ltb (length received) (length expected) then rest else ok (same_bytes received expected)

abbrev pub write_payload : Socket → Option (List ℕ) → Outcome (Unit {0})
write_payload socket none = ok tt
write_payload socket (some payload) = socket.write payload

unfoldable pub receive_prefix : Option (List ℕ) → Stream → Outcome Bool
unfolding receive
receive_prefix none reads = ok true
receive_prefix (some expected) reads = receive expected [] reads

unfoldable pub exchange_tcp_payload : Socket → TcpCheckRequest → Outcome Bool
unfolding receive_prefix
exchange_tcp_payload socket config =
    write_payload socket config.payload >> receive_prefix config.response_prefix socket.reads

abbrev pub tcp_outcome : Socket → Outcome Bool → ExecutedCheck
tcp_outcome socket (ok true) = record {
  state = healthy;
  latency_ms = some socket.ended_ms;
  failure_code = none;
  failure_summary = none;
}
tcp_outcome socket (ok false) = record {
  state = down;
  latency_ms = some socket.ended_ms;
  failure_code = some "prefix_mismatch";
  failure_summary = none;
}
tcp_outcome socket (throw message) =
    if str_eq message "TimeoutError" then failed_outcome "timeout" else failed_outcome "network"
tcp_outcome socket stuck = failed_outcome "network"

-- A blocked host is an error of the call, before its `try`, and nothing is connected.
unfoldable pub execute_tcp : Network → Socket → TcpCheckRequest → Outcome ExecutedCheck
unfolding assert_public_hostname exchange_tcp_payload
execute_tcp network socket config =
    assert_public_hostname network config.hostname
    >> ok (tcp_outcome socket (socket.opened >> exchange_tcp_payload socket config))
