-- ===== src/Checks/Tcp/Prefix.antt =====
-- `executeTcp` of workers/checks/src/executor.ts: a check is healthy by the bytes that are read.
use alphaping.Prelude.{
  ℕ, zero, suc, ◌+◌, ◌-◌, ◌≤◌, ◌≡◌, ◌≢◌, ◌↔◌, refl, ap, Bool, true, false, Bool-cases, inl, inr,
  ltb, ltb→lt, Option, none, some, List, [], ◌∷◌, ◌++◌, str_eq, take, length, length-take,
  length-append, arith,
}
use alphaping.Prelude.Outcome.{Outcome, ok, throw, stuck, ok_injective, >>=-ok, ◌>>◌}
use alphaping.Checks.Result.{ExecutedCheck, healthy}
use alphaping.Checks.Hostname.{Network, is_blocked, assert_public_hostname}
use alphaping.Checks.Http.{Stream, ended, chunk, broken}
use alphaping.Checks.Tcp.{
  TcpCheckRequest, Socket, same_bytes, receive, write_payload, receive_prefix, exchange_tcp_payload,
  tcp_outcome, execute_tcp,
}

-- Every byte that the reads give.
pub read_bytes : Stream → List ℕ
read_bytes ended = []
read_bytes (chunk bytes stream) = bytes ++ read_bytes stream
read_bytes (broken message) = []

same_bytes_iff : (xs ys : List ℕ) → (same_bytes xs ys ≡ true) ↔ (xs ≡ ys)
same_bytes_iff [] [] = (λ e. refl, λ e. refl)
same_bytes_iff [] (y ∷ ys) = (λ e. cc, λ e. cc)
same_bytes_iff (x ∷ xs) [] = (λ e. cc, λ e. cc)
same_bytes_iff (x ∷ xs) (y ∷ ys) =
    let (to, from) = same_bytes_iff xs ys in
    (
      λ e. ground (arith, e, to),
      λ e.
          let head_same : x ≡ y = cc in
          let tail_same : xs ≡ ys = cc in
          let rest = from tail_same in ground (arith, head_same, rest),
    )

take-append_short : (n : ℕ) (xs ys : List ℕ) → length xs ≡ n → take n (xs ++ ys) ≡ xs
take-append_short zero [] ys e = refl
take-append_short zero (x ∷ xs) ys e = absurd (omega (arith, e))
take-append_short (suc n) [] ys e = absurd (omega (arith, e))
take-append_short (suc n) (x ∷ xs) ys e =
    ap (λ l. x ∷ l) (take-append_short n xs ys (omega (arith, e)))

take-take_append : (n : ℕ) (xs ys : List ℕ) → take n (take n xs ++ ys) ≡ take n (xs ++ ys)
take-take_append zero xs ys = refl
take-take_append (suc n) [] ys = refl
take-take_append (suc n) (x ∷ xs) ys = ap (λ l. x ∷ l) (take-take_append n xs ys)

-- What is cut off a chunk is past the prefix.
take-append_cut :
    (n m : ℕ) (received bytes rest : List ℕ)
    → n ≡ length received + m
    → take n ((received ++ take m bytes) ++ rest) ≡ take n (received ++ (bytes ++ rest))
take-append_cut n m [] bytes rest e =
    let same : n ≡ m = omega (arith, e) in rw same (take-take_append m bytes rest)
take-append_cut zero m (x ∷ received) bytes rest e = absurd (omega (arith, e))
take-append_cut (suc n) m (x ∷ received) bytes rest e =
    ap (λ l. x ∷ l) (take-append_cut n m received bytes rest (omega (arith, e)))

module _ (expected received : List ℕ) (bound : length received ≤ length expected) where
  -- As many bytes as expected have been received.
  full_iff :
      (rest : List ℕ)
      → ltb (length received) (length expected) ≡ false
      → (ok (same_bytes received expected) ≡ ok true)
        ↔ (take (length expected) (received ++ rest) ≡ expected)
  full_iff rest full =
      let (to, from) = same_bytes_iff received expected in
      rw (take-append_short (length expected) received rest (ground (arith, full, bound)))
        (λ e. to (ok_injective _ _ e), λ e. ap ok (from e))

  short_ne :
      ltb (length received) (length expected) ≡ true
      → take (length expected) (received ++ []) ≢ expected
  short_ne short e =
      let least = ltb→lt (length received) (length expected) short in
      omega (
        arith,
        least,
        length-take (length expected) (received ++ []),
        length-append received [],
        ap length e,
      )

receive_iff :
    (expected received : List ℕ) (stream : Stream)
    → length received ≤ length expected
    → (receive expected received stream ≡ ok true)
      ↔ (take (length expected) (received ++ read_bytes stream) ≡ expected)
unfolding receive read_bytes
receive_iff expected received ended bound =
    elim (Bool-cases (ltb (length received) (length expected))) [
      | inl short ↦
          rw (short, receive) (λ e. cc, λ e. absurd (short_ne expected received bound short e))
      | inr full ↦ rw (full, receive) (full_iff expected received bound [] full)
    ]
receive_iff expected received (broken message) bound =
    elim (Bool-cases (ltb (length received) (length expected))) [
      | inl short ↦
          rw (short, receive) (λ e. cc, λ e. absurd (short_ne expected received bound short e))
      | inr full ↦ rw (full, receive) (full_iff expected received bound [] full)
    ]
receive_iff expected received (chunk bytes stream) bound =
    elim (Bool-cases (ltb (length received) (length expected))) [
      | inl short ↦
          let short' = ltb→lt (length received) (length expected) short in
          let missing = length expected - length received in
          rw
            (
              short,
              receive,
              ← take-append_cut (length expected) missing received bytes (read_bytes stream)
                  (omega (arith, bound)),
            )
            (receive_iff expected (received ++ take missing bytes) stream (
              omega (
                arith,
                short',
                length-append received (take missing bytes),
                length-take missing bytes,
              )))
      | inr full ↦
          rw (full, receive) (full_iff expected received bound (bytes ++ read_bytes stream) full)
    ]

-- What the bytes read must start with.
pub StartsWith : Option (List ℕ) → List ℕ → Type 0
StartsWith none bytes = Unit
StartsWith (some expected) bytes = take (length expected) bytes ≡ expected

receive_prefix_iff :
    (response_prefix : Option (List ℕ)) (reads : Stream)
    → (receive_prefix response_prefix reads ≡ ok true)
      ↔ StartsWith response_prefix (read_bytes reads)
unfolding StartsWith receive_prefix
receive_prefix_iff none reads = (λ e. tt, λ s. refl)
receive_prefix_iff (some expected) reads = receive_iff expected [] reads (omega arith)

tcp_outcome-healthy :
    (socket : Socket) (exchanged : Outcome Bool)
    → ((tcp_outcome socket exchanged).state ≡ healthy) ↔ (exchanged ≡ ok true)
tcp_outcome-healthy socket (ok true) = (λ e. refl, λ e. refl)
tcp_outcome-healthy socket (ok false) = (λ e. cc, λ e. cc)
tcp_outcome-healthy socket (throw message) = elim (Bool-cases (str_eq message "TimeoutError")) [
  | inl late ↦ (λ e. cc (rw late at e), λ e. cc)
  | inr other ↦ (λ e. cc (rw other at e), λ e. cc)
]
tcp_outcome-healthy socket stuck = (λ e. cc, λ e. cc)

-- A check of a host that is not blocked is healthy where and only where the socket opens, the payload, if
-- there is one, is written, and the bytes that its reads give start with the prefix that is expected, if
-- there is one.
pub execute_tcp-healthy :
    (network : Network) (socket : Socket) (config : TcpCheckRequest)
    → is_blocked network config.hostname ≡ false
    → (result : ExecutedCheck) × (execute_tcp network socket config ≡ ok result)
      × ((result.state ≡ healthy) ↔ (
          (socket.opened ≡ ok tt)
          × (write_payload socket config.payload ≡ ok tt)
          × StartsWith config.response_prefix (read_bytes socket.reads)))
unfolding execute_tcp assert_public_hostname exchange_tcp_payload StartsWith
execute_tcp-healthy network socket config public = (
  tcp_outcome socket (socket.opened >> exchange_tcp_payload socket config),
  rw public refl,
  (
    (λ e.
        let (_, open_first, e') =
          >>=-ok socket.opened (λ _. exchange_tcp_payload socket config) true
            ((tcp_outcome-healthy socket (socket.opened >> exchange_tcp_payload socket config)).0
              e) in
        let (_, write_first, e'') =
          >>=-ok (write_payload socket config.payload)
            (λ _. receive_prefix config.response_prefix socket.reads) true e' in
        (open_first, write_first, (receive_prefix_iff config.response_prefix socket.reads).0 e'')),
    (λ (opens, writes, starts).
        (tcp_outcome-healthy socket (socket.opened >> exchange_tcp_payload socket config)).1
          (rw (opens, writes) ((receive_prefix_iff config.response_prefix socket.reads).1 starts))),
  ),
)
