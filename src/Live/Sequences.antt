-- ===== src/Live/Sequences.antt =====
-- webSocketMessage and webSocketClose of workers/live/src/live-hub.ts: the sequence numbers of the
-- frames of one agent session. The handler is suspended while a frame is decrypted, so that another
-- message can come in between: `begin_frame` is the handler up to there, `end_frame` the rest.
pub mod Replay
use alphaping.Contracts.LiveFrame.{live_freshness_ms}
use alphaping.Prelude.{
  ℕ, zero, suc, ◌+◌, ◌-◌, ◌*◌, Bool, true, false, not, Option, none, some, ◌&&◌, ◌||◌, leb, ltb,
  ◌==◌, if◌then◌else◌, min, max, List, [], ◌∷◌, map, filter, any, length,
}

abbrev pub max_live_sequence : ℕ
max_live_sequence = 1000000

abbrev pub max_sequence_jump : ℕ
max_sequence_jump = 1024

-- An agent's socket, with the `highestSequence` of its attachment.
pub record AgentSocket : Type 0 where
  pub socket_id : ℕ
  pub highest_sequence : Option ℕ

-- The session's open sockets, and the entry of the session
-- in `sequenceStates`, which the object loses when it hibernates.
pub record SessionSequenceState : Type 0 where
  pub committed : Option ℕ
  pub pending : List ℕ

pub record Session : Type 0 where
  pub sockets : List AgentSocket
  pub state : Option SessionSequenceState

-- `Math.max(stored ?? 0, value)`
abbrev pub max_of : Option ℕ → ℕ → ℕ
max_of none value = max 0 value
max_of (some stored) value = max stored value

-- The loop over the session's sockets, which the socket of the message is one of.
unfoldable pub committed_of : Option ℕ → List AgentSocket → Option ℕ
committed_of committed [] = committed
committed_of committed (socket ∷ sockets) = elim socket.highest_sequence [
  | none ↦ committed_of committed sockets
  | some value ↦ committed_of (some (max_of committed value)) sockets
]

-- The session's entry, made if it is missing, with what the sockets have committed.
unfoldable pub session_state : Option SessionSequenceState → List AgentSocket → SessionSequenceState
unfolding committed_of
session_state none sockets = record { committed = committed_of none sockets; pending = [] }
session_state (some state) sockets = elim (committed_of none sockets) [
  | none ↦ state
  | some committed ↦ record state { committed = some (max_of state.committed committed) }
]

-- `for (const pending of …) highest = Math.max(highest ?? 0, pending)`
unfoldable pub highest_of : Option ℕ → List ℕ → Option ℕ
highest_of highest [] = highest
highest_of highest (value ∷ pending) = highest_of (some (max_of highest value)) pending

abbrev pub is_replay : Option ℕ → ℕ → Bool
is_replay none sequence = false
is_replay (some highest) sequence =
    leb sequence highest || ltb (highest + max_sequence_jump) sequence

-- The handler until the frame is decrypted: whether the frame is refused, and the session then. The
-- times are those of the frame and of the clock; the machine's key is checked with the topic.
unfoldable pub begin_frame : Session → ℕ → ℕ → ℕ → Session × Bool
unfolding session_state highest_of
begin_frame session sequence observed_at now =
    let state = session_state session.state session.sockets in
    if leb sequence 0
      || (ltb max_live_sequence sequence
          || (ltb (observed_at + live_freshness_ms) now || ltb (now + 5000) observed_at))
    then (session, false)
    else if is_replay (highest_of state.committed state.pending) sequence
    then (record session { state = some state }, false)
    else (
      record session { state = some (record state { pending = sequence ∷ state.pending }) },
      true,
    )

-- `Set.delete`
abbrev pub delete : ℕ → List ℕ → List ℕ
delete value = filter (λ other. not (other == value))

-- A socket among those that the handler found, with a lower number, is given the committed one.
unfoldable pub raise_socket : List ℕ → ℕ → AgentSocket → AgentSocket
raise_socket found committed socket =
    if any (λ id. id == socket.socket_id) found && ltb (max_of socket.highest_sequence 0) committed
    then record socket { highest_sequence = some committed }
    else socket

-- The handler after the decryption, which succeeded or not. The entry with a pending frame is not
-- deleted meanwhile, so the state that the handler holds is that of the session still.
unfoldable pub end_frame : Session → ℕ → List ℕ → Bool → Session
unfolding raise_socket
end_frame session sequence found decrypted = elim session.state [
  | none ↦ session
  | some state ↦
      let pending = delete sequence state.pending in
      let committed = max_of state.committed sequence in
      if not decrypted
      then record session { state = some (record state { pending = pending }) }
      else record {
        sockets = map (raise_socket found committed) session.sockets;
        state = some (record { committed = some committed; pending = pending });
      }
]

-- `fetch` accepts a socket, whose attachment has no number yet.
unfoldable pub open_socket : Session → ℕ → Session
open_socket session id = record session {
  sockets = record { socket_id = id; highest_sequence = none } ∷ session.sockets;
}

abbrev pub is_idle : Option SessionSequenceState → Bool
is_idle none = true
is_idle (some state) = length state.pending == 0

-- webSocketClose: the entry goes with the last socket, unless a frame is pending.
unfoldable pub close_socket : Session → ℕ → Session
close_socket session id =
    let others = filter (λ socket. not (socket.socket_id == id)) session.sockets in
    record {
      sockets = others;
      state = if length others == 0 && is_idle session.state then none else session.state;
    }
