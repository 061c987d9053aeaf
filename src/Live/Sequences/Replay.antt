-- ===== src/Live/Sequences/Replay.antt =====
-- A session forwards no sequence number twice, whatever the order in which decryptions end.
use alphaping.Prelude.{
  ℕ, ◌≤◌, ◌<◌, ◌≡◌, ◌≢◌, ◌⊎◌, inl, inr, refl, true, false, Option, none, some, ◌==◌, List, [], ◌∷◌,
  All, arith, Bool-cases, Option-cases,
}
use alphaping.Live.Sequences.{
  max_live_sequence, AgentSocket, SessionSequenceState, Session, max_of, committed_of,
  session_state, highest_of, is_replay, begin_frame, delete, end_frame, open_socket, close_socket,
}

abbrev NotIn : ℕ → List ℕ → Type 0
NotIn x xs = All (λ y. y ≢ x) xs

abbrev pub AreDistinct : List ℕ → Type 0
AreDistinct [] = Unit
AreDistinct (x ∷ xs) = NotIn x xs × AreDistinct xs

abbrev pub Contains : ℕ → List ℕ → Type 0
Contains x [] = ⊥
Contains x (y ∷ ys) = (y ≡ x) ⊎ Contains x ys

abbrev pub IsPending : ℕ → Option SessionSequenceState → Type 0
IsPending sequence none = ⊥
IsPending sequence (some state) = Contains sequence state.pending

-- The sessions that a socket's messages lead to, with the numbers forwarded to the viewers, the last
-- first. The object does not hibernate with the session open; a session ends with its entry.
pub data Reachable : Session → List ℕ → Type 0 where
  starts : (sockets : List AgentSocket) → Reachable record { sockets = sockets; state = none } []
  opens :
      (session : Session) (forwarded : List ℕ) (id : ℕ)
      → Reachable session forwarded
      → Reachable (open_socket session id) forwarded
  closes :
      (session : Session) (forwarded : List ℕ) (id : ℕ)
      → Reachable session forwarded
      → (close_socket session id).state ≡ session.state
      → Reachable (close_socket session id) forwarded
  ends :
      (session : Session) (forwarded : List ℕ) (id : ℕ)
      → Reachable session forwarded
      → (close_socket session id).state ≡ none
      → Reachable (close_socket session id) []
  begins :
      (session : Session) (forwarded : List ℕ) (sequence observed_at now : ℕ)
      → Reachable session forwarded
      → Reachable (begin_frame session sequence observed_at now).0 forwarded
  fails :
      (session : Session) (forwarded : List ℕ) (sequence : ℕ) (found : List ℕ)
      → Reachable session forwarded
      → IsPending sequence session.state
      → Reachable (end_frame session sequence found false) forwarded
  forwards :
      (session : Session) (forwarded : List ℕ) (sequence : ℕ) (found : List ℕ)
      → Reachable session forwarded
      → IsPending sequence session.state
      → Reachable (end_frame session sequence found true) (sequence ∷ forwarded)

abbrev IsSound : Option SessionSequenceState → List ℕ → Type 0
IsSound none forwarded = forwarded ≡ []
IsSound (some state) forwarded =
    AreDistinct forwarded
    × All (λ f. f ≤ max_of state.committed 0) forwarded
    × All (λ p. NotIn p forwarded) state.pending

All-map : {P Q : ℕ → Type 0} (xs : List ℕ) → ((x : ℕ) → P x → Q x) → All P xs → All Q xs
All-map [] f a = tt
All-map (x ∷ xs) f a = (f x a.0, All-map xs f a.1)

above-NotIn : (s m : ℕ) (xs : List ℕ) → All (λ f. f ≤ m) xs → m < s → NotIn s xs
above-NotIn s m xs a h = All-map xs (λ x le e. absurd (omega arith)) a

above_highest :
    (committed : Option ℕ) (pending : List ℕ) (sequence : ℕ)
    → 0 < sequence
    → is_replay (highest_of committed pending) sequence ≡ false
    → (max_of committed 0 < sequence) × All (λ p. p < sequence) pending
unfolding highest_of
above_highest none [] sequence pos e = (omega arith, tt)
above_highest (some c) [] sequence pos e = (ground arith, tt)
above_highest none (p ∷ pending) sequence pos e =
    let (below, rest) = above_highest (some (max_of none p)) pending sequence pos e in
    (omega arith, (omega arith, rest))
above_highest (some c) (p ∷ pending) sequence pos e =
    let (below, rest) = above_highest (some (max_of (some c) p)) pending sequence pos e in
    (omega arith, (omega arith, rest))

Contains-NotIn :
    (x : ℕ) (pending forwarded : List ℕ)
    → All (λ p. NotIn p forwarded) pending
    → Contains x pending
    → NotIn x forwarded
Contains-NotIn x [] forwarded a c = elim c [ ]
Contains-NotIn x (p ∷ pending) forwarded a (inl e) = rw (← e) a.0
Contains-NotIn x (p ∷ pending) forwarded a (inr c) = Contains-NotIn x pending forwarded a.1 c

delete-All : (P : ℕ → Type 0) (x : ℕ) (xs : List ℕ) → All P xs → All P (delete x xs)
delete-All P x [] a = tt
delete-All P x (y ∷ ys) a = elim (Bool-cases (y == x)) [
  | inl same ↦ rw same (delete-All P x ys a.1)
  | inr other ↦ rw other (a.0, delete-All P x ys a.1)
]

delete-NotIn :
    (x : ℕ) (pending forwarded : List ℕ)
    → All (λ p. NotIn p forwarded) pending
    → All (λ p. NotIn p (x ∷ forwarded)) (delete x pending)
delete-NotIn x [] forwarded a = tt
delete-NotIn x (y ∷ ys) forwarded a = elim (Bool-cases (y == x)) [
  | inl same ↦ rw same (delete-NotIn x ys forwarded a.1)
  | inr other ↦ rw other (((λ e. ground arith), a.0), delete-NotIn x ys forwarded a.1)
]

committed_grows :
    (a b : Option ℕ) (forwarded : List ℕ)
    → max_of a 0 ≤ max_of b 0
    → All (λ f. f ≤ max_of a 0) forwarded
    → All (λ f. f ≤ max_of b 0) forwarded
committed_grows a b forwarded h all = All-map forwarded (λ x le. omega arith) all

max_of-grows : (a : Option ℕ) (value : ℕ) → max_of a 0 ≤ max_of (some (max_of a value)) 0
max_of-grows none value = omega arith
max_of-grows (some a) value = omega arith

max_of-value : (a : Option ℕ) (value : ℕ) → value ≤ max_of (some (max_of a value)) 0
max_of-value none value = omega arith
max_of-value (some a) value = omega arith

session_state-IsSound :
    (state : Option SessionSequenceState) (sockets : List AgentSocket) (forwarded : List ℕ)
    → IsSound state forwarded
    → IsSound (some (session_state state sockets)) forwarded
unfolding session_state
session_state-IsSound none sockets [] h = (tt, tt, tt)
session_state-IsSound none sockets (x ∷ xs) h = cc
session_state-IsSound (some state) sockets forwarded h =
    elim (Option-cases (committed_of none sockets)) [
      | inl fresh ↦ rw (fresh, session_state) h
      | inr (value, known) ↦
          rw (known, session_state)
            (
              h.0,
              committed_grows state.committed (some (max_of state.committed value)) forwarded
                  (max_of-grows state.committed value) h.1,
              h.2,
            )
    ]

-- What the tests of the handler say of a frame that is not refused.
begin_frame_facts :
    (session : Session) (sequence observed_at now : ℕ)
    → (begin_frame session sequence observed_at now).1 ≡ true
    → (0 < sequence)
      × (sequence ≤ max_live_sequence)
      × (is_replay
            (highest_of
              (session_state session.state session.sockets).committed
              (session_state session.state session.sockets).pending)
            sequence
          ≡ false)
unfolding begin_frame
begin_frame_facts session sequence observed_at now e = (ground arith, ground arith, ground arith)

begin_frame-accepts :
    (session : Session) (sequence observed_at now : ℕ)
    → (begin_frame session sequence observed_at now).1 ≡ true
    → (max_of (session_state session.state session.sockets).committed 0 < sequence)
      × All (λ p. p < sequence) (session_state session.state session.sockets).pending
begin_frame-accepts session sequence observed_at now e =
    let (positive, _, fresh) = begin_frame_facts session sequence observed_at now e in
    above_highest (session_state session.state session.sockets).committed
      (session_state session.state session.sockets).pending sequence positive fresh

begin_frame_accepted :
    (session : Session) (sequence observed_at now : ℕ)
    → (begin_frame session sequence observed_at now).1 ≡ true
    → (begin_frame session sequence observed_at now).0.state
      ≡ some (record {
        committed = (session_state session.state session.sockets).committed;
        pending = sequence ∷ (session_state session.state session.sockets).pending;
      })
unfolding begin_frame
begin_frame_accepted session sequence observed_at now e = ground arith

begin_frame_refused :
    (session : Session) (sequence observed_at now : ℕ)
    → (begin_frame session sequence observed_at now).1 ≡ false
    → ((begin_frame session sequence observed_at now).0.state ≡ session.state)
      ⊎ ((begin_frame session sequence observed_at now).0.state
          ≡ some (session_state session.state session.sockets))
unfolding begin_frame
begin_frame_refused session sequence observed_at now e = ground arith

begin_frame-IsSound :
    (session : Session) (forwarded : List ℕ) (sequence observed_at now : ℕ)
    → IsSound session.state forwarded
    → IsSound (begin_frame session sequence observed_at now).0.state forwarded
begin_frame-IsSound session forwarded sequence observed_at now h =
    let sound = session_state-IsSound session.state session.sockets forwarded h in
    elim (Bool-cases (begin_frame session sequence observed_at now).1) [
      | inl accepted ↦
          let (above, _) = begin_frame-accepts session sequence observed_at now accepted in
          rw (begin_frame_accepted session sequence observed_at now accepted, IsSound)
            (sound.0, sound.1, (above-NotIn sequence _ forwarded sound.1 above, sound.2))
      | inr refused ↦ elim (begin_frame_refused session sequence observed_at now refused) [
        | inl kept ↦ rw (kept, IsSound) h
        | inr made ↦ rw (made, IsSound) sound
      ]
    ]

end_frame-IsSound :
    (session : Session) (forwarded : List ℕ) (sequence : ℕ) (found : List ℕ)
    → IsPending sequence session.state
    → IsSound session.state forwarded
    → IsSound (end_frame session sequence found false).state forwarded
      × IsSound (end_frame session sequence found true).state (sequence ∷ forwarded)
unfolding end_frame
end_frame-IsSound session forwarded sequence found p h = elim (Option-cases session.state) [
  | inl missing ↦ elim (rw (missing, IsPending) at p) [ ]
  | inr (state, entry) ↦
      let (distinct, below, apart) : IsSound (some state) forwarded = rw (entry, IsSound) at h in
      let pending : IsPending sequence (some state) = rw (entry, IsPending) at p in
      rw (entry, IsSound)
        (
          (distinct, below, delete-All (λ q. NotIn q forwarded) sequence state.pending apart),
          (
            (Contains-NotIn sequence state.pending forwarded apart pending, distinct),
            (
              max_of-value state.committed sequence,
              committed_grows state.committed (some (max_of state.committed sequence)) forwarded
                  (max_of-grows state.committed sequence) below,
            ),
            delete-NotIn sequence state.pending forwarded apart,
          ),
        )
]

open_socket-IsSound :
    (session : Session) (forwarded : List ℕ) (id : ℕ)
    → IsSound session.state forwarded
    → IsSound (open_socket session id).state forwarded
unfolding open_socket
open_socket-IsSound session forwarded id h = h

Reachable-IsSound :
    (session : Session) (forwarded : List ℕ)
    → Reachable session forwarded
    → IsSound session.state forwarded
Reachable-IsSound _ _ (Reachable.starts sockets) = refl
Reachable-IsSound _ _ (Reachable.opens session forwarded id r) =
    open_socket-IsSound session forwarded id (Reachable-IsSound session forwarded r)
Reachable-IsSound _ _ (Reachable.closes session forwarded id r e) =
    rw e (Reachable-IsSound session forwarded r)
Reachable-IsSound _ _ (Reachable.ends session forwarded id r e) = rw e refl
Reachable-IsSound _ _ (Reachable.begins session forwarded sequence observed_at now r) =
    begin_frame-IsSound session forwarded sequence observed_at now
      (Reachable-IsSound session forwarded r)
Reachable-IsSound _ _ (Reachable.fails session forwarded sequence found r p) =
    (end_frame-IsSound session forwarded sequence found p (Reachable-IsSound session forwarded r)).0
Reachable-IsSound _ _ (Reachable.forwards session forwarded sequence found r p) =
    (end_frame-IsSound session forwarded sequence found p (Reachable-IsSound session forwarded r)).1

-- A frame that a reached session takes up for decryption has a sequence number from one to the limit,
-- above every number that the session has forwarded and every number whose frame is pending.
begin_frame-above :
    (session : Session) (forwarded : List ℕ) (sequence observed_at now : ℕ)
    → Reachable session forwarded
    → (begin_frame session sequence observed_at now).1 ≡ true
    → (0 < sequence)
      × (sequence ≤ max_live_sequence)
      × All (λ f. f < sequence) forwarded
      × All (λ p. p < sequence) (session_state session.state session.sockets).pending
begin_frame-above session forwarded sequence observed_at now r accepted =
    let (positive, bounded, _) = begin_frame_facts session sequence observed_at now accepted in
    let (above, pending) = begin_frame-accepts session sequence observed_at now accepted in
    let sound =
      session_state-IsSound session.state session.sockets forwarded
        (Reachable-IsSound session forwarded r) in
    (positive, bounded, All-map forwarded (λ x le. omega arith) sound.1, pending)
