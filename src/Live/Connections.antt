-- ===== src/Live/Connections.antt =====
-- workers/live/src/live-hub.ts: the sockets of the hub, the limit on connections, and the demand that the
-- agents are told of. The sockets of a list are those that getWebSockets gives for a tag.
use alphaping.Prelude.{
  ℕ, ◌+◌, Bool, true, false, Option, none, some, ◌&&◌, not, leb, ltb, ◌==◌, if◌then◌else◌, String,
  List, [], ◌∷◌, ◌++◌, any,
}

abbrev pub demand_ttl_ms : ℕ
demand_ttl_ms = 30000

abbrev pub max_agent_connections_per_session : ℕ
max_agent_connections_per_session = 2

abbrev pub max_viewer_connections_per_topic : ℕ
max_viewer_connections_per_topic = 4

-- A count is a natural number here, and so a safe integer that is not negative.
unfoldable pub live_connection_available : ℕ → ℕ → Bool
live_connection_available active_connections limit = ltb active_connections limit

pub data Role : Type 0 where
  agent : (session_id nonce_prefix : String) (highest_sequence : Option ℕ) → Role
  viewer : Role

pub record SocketAttachment : Type 0 where
  pub subject_id : String
  pub topic : String
  pub expires_at : ℕ
  pub role : Role

-- A socket, with its attachment as far as it can be read.
pub record HubSocket : Type 0 where
  pub socket_id : ℕ
  pub attachment : Option SocketAttachment

abbrev pub same_role : Role → Role → Bool
same_role (agent _ _ _) (agent _ _ _) = true
same_role viewer viewer = true
same_role _ _ = false

abbrev pub is_live : Option SocketAttachment → ℕ → Bool
is_live none now = false
is_live (some current) now = ltb now current.expires_at

abbrev pub has_role : Option SocketAttachment → Role → Bool
has_role none role = false
has_role (some current) role = same_role current.role role

-- The number of active sockets, and the sockets that are closed on the way.
unfoldable pub active_connections : List HubSocket → Role → ℕ → ℕ × List ℕ
active_connections [] role now = (0, [])
active_connections (socket ∷ sockets) role now =
    let (active, closed) = active_connections sockets role now in
    if not (is_live socket.attachment now)
    then (active, socket.socket_id ∷ closed)
    else if has_role socket.attachment role
    then (active + 1, closed)
    else (active, closed)

abbrev pub is_excluded : Option ℕ → ℕ → Bool
is_excluded none id = false
is_excluded (some excluded) id = id == excluded

unfoldable pub has_viewer : List HubSocket → Option ℕ → ℕ → Bool
has_viewer sockets excluded now =
    any
      (λ socket.
        not (is_excluded excluded socket.socket_id)
        && (has_role socket.attachment viewer && is_live socket.attachment now))
      sockets

pub record DemandMessage : Type 0 where
  pub receiver : ℕ
  pub topic : String
  pub session_id : String
  pub active : Bool
  pub expires_at : ℕ

-- The message to a socket: only an agent whose ticket has not run out gets one.
abbrev pub demand_for : String → Bool → ℕ → ℕ → Option SocketAttachment → List DemandMessage
demand_for topic active now id none = []
demand_for topic active now id (some current) = elim current.role [
  | viewer ↦ []
  | agent session_id nonce_prefix highest_sequence ↦
      if leb current.expires_at now
      then []
      else record {
        receiver = id;
        topic = topic;
        session_id = session_id;
        active = active;
        expires_at = if active then now + demand_ttl_ms else now;
      }
        ∷ []
]

-- The messages that are sent, in their order. A socket whose send fails is closed, which is left out.
unfoldable pub demands : List HubSocket → String → Bool → ℕ → List DemandMessage
demands [] topic active now = []
demands (socket ∷ sockets) topic active now =
    demand_for topic active now socket.socket_id socket.attachment
    ++ demands sockets topic active now

unfoldable pub send_demand : List HubSocket → String → Option ℕ → ℕ → List DemandMessage
unfolding has_viewer demands
send_demand sockets topic excluded_viewer now =
    demands sockets topic (has_viewer sockets excluded_viewer now) now
