-- ===== src/Contracts/LiveFrame/Header.antt =====
-- The header of a live frame: parsing the layout that the agent writes, and what any frame that
-- is accepted looks like.
use mathlib.Core.List.{append_assoc}
use native.Mathlib.Nat.{pow-suc}
use alphaping.Prelude.{
  ℕ, zero, suc, ◌+◌, ◌-◌, ◌*◌, ◌/◌, ◌%◌, ◌^◌, ◌≤◌, ◌<◌, ◌≡◌, refl, ap, List, [], ◌∷◌, ◌++◌, arith,
  length, length-append, ltb, ◌||◌, ◌==◌, true, false, not, take, drop,
}
use alphaping.Prelude.Outcome.{ok}
use alphaping.Contracts.Protobuf.{max_safe_integer, safe_protobuf_number}
use alphaping.Contracts.LiveFrame.{
  live_magic, slice, big_endian, read_unsigned64, every_at, bytes_of, parse_agent_live_frame,
}

drop-append : (xs ys : List ℕ) → drop (length xs) (xs ++ ys) ≡ ys
drop-append [] ys = refl
drop-append (x ∷ xs) ys = drop-append xs ys

take-append : (xs ys : List ℕ) → take (length xs) (xs ++ ys) ≡ xs
take-append [] ys = refl
take-append (x ∷ xs) ys = ap (λ t. x ∷ t) (take-append xs ys)

-- The piece between two others.
slice_middle :
    (bytes xs ys zs : List ℕ) (first last : ℕ)
    → bytes ≡ xs ++ (ys ++ zs)
    → length xs ≡ first
    → length ys ≡ last - first
    → slice bytes first last ≡ ys
slice_middle bytes xs ys zs first last e p q = rw (e, ← q, ← p) (rw drop-append (take-append ys zs))

big_endian-append :
    (acc b : ℕ) (bs : List ℕ) → big_endian acc (bs ++ b ∷ []) ≡ big_endian acc bs * 256 + b
unfolding big_endian
big_endian-append acc b [] = refl
big_endian-append acc b (c ∷ bs) = big_endian-append (acc * 256 + c) b bs

pub length-bytes_of : (k n : ℕ) → length (bytes_of k n) ≡ k
unfolding bytes_of
length-bytes_of zero n = refl
length-bytes_of (suc k) n =
    omega (arith, length-append (bytes_of k (n / 256)) (n % 256 ∷ []), length-bytes_of k (n / 256))

-- A number that fits is read back from its bytes.
big_endian-bytes_of : (k n : ℕ) → n < 256 ^ k → big_endian 0 (bytes_of k n) ≡ n
unfolding bytes_of
big_endian-bytes_of zero n h = unfold big_endian in omega arith
big_endian-bytes_of (suc k) n h = omega (
  arith,
  big_endian-append 0 (n % 256) (bytes_of k (n / 256)),
  big_endian-bytes_of k (n / 256) (omega (arith, pow-suc 256 k)),
)

-- The bytes that the agent sends for a header: magic, session, three numbers of eight bytes, the
-- length of the ciphertext in four, and the ciphertext.
unfoldable pub build_frame : List ℕ → ℕ → ℕ → ℕ → List ℕ → List ℕ
build_frame session machine_pk sequence observed_at ciphertext =
    live_magic
    ++ (session
        ++ (bytes_of 8 machine_pk
            ++ (bytes_of 8 sequence
                ++ (bytes_of 8 observed_at ++ (bytes_of 4 (length ciphertext) ++ ciphertext)))))

-- The part that the tag authenticates: all before the length.
abbrev pub frame_aad : List ℕ → ℕ → ℕ → ℕ → List ℕ
frame_aad session machine_pk sequence observed_at =
    live_magic
    ++ (session ++ (bytes_of 8 machine_pk ++ (bytes_of 8 sequence ++ bytes_of 8 observed_at)))

read_unsigned64-bytes_of :
    (bytes xs zs : List ℕ) (offset n : ℕ)
    → bytes ≡ xs ++ (bytes_of 8 n ++ zs)
    → length xs ≡ offset
    → n ≤ max_safe_integer
    → read_unsigned64 bytes offset ≡ ok n
unfolding read_unsigned64 safe_protobuf_number
read_unsigned64-bytes_of bytes xs zs offset n e p h =
    rw
      (slice_middle bytes xs (bytes_of 8 n) zs offset (offset + 8) e p
        (rw length-bytes_of (omega arith)))
      (rw (big_endian-bytes_of 8 n (omega arith)) (ground arith))

module _ (session : List ℕ) (machine_pk sequence observed_at : ℕ) (ciphertext : List ℕ)
    (session_size : length session ≡ 16) where
  frame : List ℕ
  frame = build_frame session machine_pk sequence observed_at ciphertext

  length-frame : length frame ≡ 48 + length ciphertext
  unfolding frame build_frame
  length-frame = simp (length-append, length-bytes_of) (omega arith)

  frame-magic : every_at live_magic frame ≡ true
  unfolding frame build_frame every_at
  frame-magic = refl

  frame-session : slice frame 4 20 ≡ session
  unfolding frame build_frame
  frame-session = slice_middle frame live_magic session _ 4 20 refl refl session_size

  frame-machine_pk : machine_pk ≤ max_safe_integer → read_unsigned64 frame 20 ≡ ok machine_pk
  unfolding frame build_frame
  frame-machine_pk =
      read_unsigned64-bytes_of frame (live_magic ++ session)
        (bytes_of 8 sequence
          ++ (bytes_of 8 observed_at ++ (bytes_of 4 (length ciphertext) ++ ciphertext)))
        20 machine_pk (simp append_assoc) (simp length-append (omega arith))

  frame-sequence : sequence ≤ max_safe_integer → read_unsigned64 frame 28 ≡ ok sequence
  unfolding frame build_frame
  frame-sequence =
      read_unsigned64-bytes_of frame (live_magic ++ (session ++ bytes_of 8 machine_pk))
        (bytes_of 8 observed_at ++ (bytes_of 4 (length ciphertext) ++ ciphertext)) 28 sequence
        (simp append_assoc) (simp (length-append, length-bytes_of) (omega arith))

  frame-observed_at : observed_at ≤ max_safe_integer → read_unsigned64 frame 36 ≡ ok observed_at
  unfolding frame build_frame
  frame-observed_at =
      read_unsigned64-bytes_of frame
        (live_magic ++ (session ++ (bytes_of 8 machine_pk ++ bytes_of 8 sequence)))
        (bytes_of 4 (length ciphertext) ++ ciphertext) 36 observed_at (simp append_assoc)
        (simp (length-append, length-bytes_of) (omega arith))

  aad : List ℕ
  aad = frame_aad session machine_pk sequence observed_at

  length-aad : length aad ≡ 44
  unfolding aad
  length-aad = simp (length-append, length-bytes_of) (omega arith)

  frame-split : frame ≡ aad ++ (bytes_of 4 (length ciphertext) ++ ciphertext)
  unfolding frame build_frame aad
  frame-split = simp append_assoc

  frame-length : length ciphertext ≤ 16336 → big_endian 0 (slice frame 44 48) ≡ length ciphertext
  frame-length h =
      rw
        (slice_middle frame aad (bytes_of 4 (length ciphertext)) ciphertext 44 48 frame-split
          length-aad (length-bytes_of 4 (length ciphertext)))
        (big_endian-bytes_of 4 (length ciphertext) (omega arith))

  frame-aad : slice frame 0 44 ≡ aad
  frame-aad = slice_middle frame [] aad _ 0 44 frame-split refl length-aad

  frame-ciphertext : drop 48 frame ≡ ciphertext
  frame-ciphertext =
      let head : List ℕ = aad ++ bytes_of 4 (length ciphertext) in
      let size : length head ≡ 48 = omega (
        arith,
        length-append aad (bytes_of 4 (length ciphertext)),
        length-aad,
        length-bytes_of 4 (length ciphertext),
      ) in
      rw (frame-split, ← append_assoc aad (bytes_of 4 (length ciphertext)) ciphertext, ← size)
        (drop-append head ciphertext)

  -- Parsing what the agent sends gives back its parts, with the authenticated bytes.
  pub parse_agent_live_frame-build_frame :
      machine_pk ≤ max_safe_integer
      → sequence ≤ max_safe_integer
      → observed_at ≤ max_safe_integer
      → 16 ≤ length ciphertext
      → length ciphertext ≤ 16336
      → parse_agent_live_frame (build_frame session machine_pk sequence observed_at ciphertext)
        ≡ ok (record {
          session_id = session;
          machine_pk = machine_pk;
          sequence = sequence;
          observed_at = observed_at;
          aad = frame_aad session machine_pk sequence observed_at;
          ciphertext = ciphertext;
        })
  unfolding parse_agent_live_frame
  parse_agent_live_frame-build_frame h₁ h₂ h₃ h₄ h₅ = unfold frame aad in parsed
    where
      size : (ltb (length frame) 64 || ltb 16384 (length frame)) ≡ false
      size = ground (arith, length-frame)

      fits : (ltb (length ciphertext) 16 || not (48 + length ciphertext == length frame)) ≡ false
      fits = ground (arith, length-frame)

      parsed :
          parse_agent_live_frame frame
          ≡ ok (record {
            session_id = session;
            machine_pk = machine_pk;
            sequence = sequence;
            observed_at = observed_at;
            aad = aad;
            ciphertext = ciphertext;
          })
      parsed = rw (
        size,
        frame-magic,
        frame-length h₅,
        fits,
        frame-machine_pk h₁,
        frame-sequence h₂,
        frame-observed_at h₃,
        frame-session,
        frame-aad,
        frame-ciphertext,
      )
