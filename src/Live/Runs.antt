-- ===== src/Live/Runs.antt =====
-- The results on the hub, at a session of one socket whose frames end in another order.
use alphaping.Prelude.{◌≡◌, refl, true, none, List, [], ◌∷◌}
use alphaping.Live.Sequences.{
  AgentSocket, Session, session_state, begin_frame, end_frame, highest_of, committed_of,
  raise_socket,
}

abbrev one_socket : List AgentSocket
one_socket = record { socket_id = 1; highest_sequence = none } ∷ []

abbrev opened : Session
opened = record { sockets = one_socket; state = none }

abbrev two_begun : Session
two_begun = (begin_frame (begin_frame opened 5 1000 1000).0 6 1000 1000).0

abbrev second_ended : Session
second_ended = end_frame two_begun 6 (1 ∷ []) true

abbrev both_ended : Session
both_ended = end_frame second_ended 5 (1 ∷ []) true

accepted : (begin_frame both_ended 9 1000 1000).1 ≡ true
unfolding begin_frame session_state highest_of committed_of end_frame raise_socket
accepted = refl
