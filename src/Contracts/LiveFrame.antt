-- ===== src/Contracts/LiveFrame.antt =====
-- packages/contracts/src/live-frame.ts: the header of an agent's live frame and the sample in it.
-- An ArrayBuffer is the list of its bytes; base64 and AES-GCM are parameters.
pub mod Header
pub mod Sample
pub mod Decrypt
use Prim.Native.Nat.{bit_and}
use mathlib.Core.List.{foldl}
use alphaping.Prelude.{
  ℕ, zero, suc, ◌+◌, ◌-◌, ◌*◌, ◌/◌, ◌^◌, ◌%◌, Bool, true, false, ◌&&◌, ◌||◌, not, Option, List, [],
  ◌∷◌, ◌++◌, ltb, leb, ◌==◌, String, if◌then◌else◌, length, take, drop,
}
use alphaping.Prelude.Outcome.{Outcome, ok, throw, ◌>>=◌, ◌>>◌, throw_if}
use alphaping.Contracts.Protobuf.{max_safe_integer, safe_protobuf_number}
use alphaping.Contracts.MetricFields.{MetricSample, initial_values, metric_loop, sample_of}

abbrev pub max_live_frame_bytes : ℕ
max_live_frame_bytes = 16 * 1024

abbrev pub live_freshness_ms : ℕ
live_freshness_ms = 20000

abbrev pub frame_header_bytes : ℕ
frame_header_bytes = 48

abbrev pub authenticated_header_bytes : ℕ
authenticated_header_bytes = 44

abbrev pub live_magic : List ℕ
live_magic = 0x41 ∷ 0x50 ∷ 0x4c ∷ 0x31 ∷ []

pub record AgentLiveFrameHeader : Type 0 where
  pub session_id : List ℕ
  pub machine_pk : ℕ
  pub sequence : ℕ
  pub observed_at : ℕ
  pub aad : List ℕ
  pub ciphertext : List ℕ

-- `bytes.slice(first, last)`
abbrev pub slice : List ℕ → ℕ → ℕ → List ℕ
slice bytes first last = take (last - first) (drop first bytes)

-- A big-endian number.
unfoldable pub big_endian : ℕ → List ℕ → ℕ
big_endian acc [] = acc
big_endian acc (b ∷ bs) = big_endian (acc * 256 + b) bs

unfoldable pub read_unsigned64 : List ℕ → ℕ → Outcome ℕ
read_unsigned64 bytes offset = safe_protobuf_number (big_endian 0 (slice bytes offset (offset + 8)))

-- `expected.every((value, index) => bytes[index] === value)`
unfoldable pub every_at : List ℕ → List ℕ → Bool
every_at [] bytes = true
every_at (value ∷ values) [] = false
every_at (value ∷ values) (b ∷ bytes) = b == value && every_at values bytes

unfoldable pub parse_agent_live_frame : List ℕ → Outcome AgentLiveFrameHeader
parse_agent_live_frame bytes = do
  throw_if (ltb (length bytes) (frame_header_bytes + 16) || ltb max_live_frame_bytes (length bytes))
      "invalid_live_frame_size"
  throw_if (not (every_at live_magic bytes)) "invalid_live_frame_magic"
  let ciphertext_bytes = big_endian 0 (slice bytes 44 48)
  throw_if (ltb ciphertext_bytes 16 || not (frame_header_bytes + ciphertext_bytes == length bytes))
      "invalid_live_frame_length"
  machine_pk ← read_unsigned64 bytes 20
  sequence ← read_unsigned64 bytes 28
  observed_at ← read_unsigned64 bytes 36
  ok (record {
    session_id = slice bytes 4 20;
    machine_pk = machine_pk;
    sequence = sequence;
    observed_at = observed_at;
    aad = slice bytes 0 authenticated_header_bytes;
    ciphertext = drop frame_header_bytes bytes;
  })

unfoldable pub decode_live_metric_sample : List ℕ → Outcome MetricSample
decode_live_metric_sample bytes = do
  throw_if (length bytes == 0 || ltb 2048 (length bytes)) "invalid_live_metric_size"
  values ← metric_loop "invalid_live_metric_wire_type" (length bytes) bytes 0 initial_values
  let sample = sample_of values
  throw_if (leb sample.observed_at 0 || ltb 1000 sample.cpu_permille) "invalid_live_metric_value"
  ok sample

-- Eight bytes, big-endian.
unfoldable pub bytes_of : ℕ → ℕ → List ℕ
bytes_of zero n = []
bytes_of (suc k) n = bytes_of k (n / 256) ++ (n % 256) ∷ []

unfoldable pub nonce : List ℕ → ℕ → Outcome (List ℕ)
unfolding bytes_of
nonce prefix sequence = do
  throw_if (not (length prefix == 4) || ltb max_safe_integer sequence || leb sequence 0)
      "invalid_live_nonce"
  ok (prefix ++ bytes_of 8 sequence)

pub record ExpectedScope : Type 0 where
  pub session_id : String
  pub nonce_prefix : String
  pub machine_pk : ℕ

pub record LiveViewerSnapshot : Type 0 where
  pub machine_pk : ℕ
  pub sample : MetricSample

-- `decode_base64_url` and `derive_agent_live_key` are those of live-ticket.ts, with the secret given;
-- `decrypt key iv additional_data ciphertext` is AES-GCM with a tag of 128 bits.
module _ (decode_base64_url : String → ℕ → Outcome (List ℕ))
    (derive_agent_live_key : String → Outcome (List ℕ))
    (decrypt : List ℕ → List ℕ → List ℕ → List ℕ → Outcome (List ℕ)) where
  unfoldable pub decrypt_agent_live_frame :
      AgentLiveFrameHeader → ExpectedScope → Outcome LiveViewerSnapshot
  decrypt_agent_live_frame frame expected = do
    expected_session ← decode_base64_url expected.session_id 16
    throw_if
        (not (length expected_session == 16)
          || not (every_at expected_session frame.session_id)
          || not (frame.machine_pk == expected.machine_pk))
        "live_frame_scope_mismatch"
    key ← derive_agent_live_key expected.session_id
    prefix ← decode_base64_url expected.nonce_prefix 4
    iv ← nonce prefix frame.sequence
    plaintext ← decrypt key iv frame.aad frame.ciphertext
    sample ← decode_live_metric_sample plaintext
    throw_if (not (sample.observed_at == frame.observed_at)) "live_frame_time_mismatch"
    ok (record { machine_pk = frame.machine_pk; sample = sample })
