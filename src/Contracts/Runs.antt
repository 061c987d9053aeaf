-- ===== src/Contracts/Runs.antt =====
-- The results on the contracts, at concrete bytes.
use alphaping.Prelude.{
  ℕ, ◌+◌, ◌==◌, if◌then◌else◌, ◌≤◌, ◌≡◌, refl, none, some, List, [], ◌∷◌, ◌++◌, length, arith, All,
  String,
}
use alphaping.Prelude.Outcome.{Outcome, ok, throw, Yields, yields, raises, Yields-if}
use alphaping.Contracts.Protobuf.{IsByte, read_protobuf_varint}
use alphaping.Contracts.Protobuf.RoundTrip.{encode_varint, read_protobuf_varint-encode_varint}
use alphaping.Contracts.MetricFields.{MetricSample}
use alphaping.Contracts.LiveFrame.{
  AgentLiveFrameHeader, ExpectedScope, parse_agent_live_frame, decode_live_metric_sample,
  decrypt_agent_live_frame,
}
use alphaping.Contracts.LiveFrame.Header.{
  build_frame, frame_aad, parse_agent_live_frame-build_frame,
}
use alphaping.Contracts.LiveFrame.Sample.{
  IsLiveSample, encode_sample, decode_live_metric_sample-encode_sample,
}
use alphaping.Contracts.LiveFrame.Decrypt.{IsBound, decrypt_agent_live_frame-Yields}
use alphaping.Contracts.MachineReport.{decode_compressed_machine_samples}
use alphaping.Contracts.MachineReport.Samples.{
  IsMachineSample, decode_compressed_machine_samples-Yields,
}

read_protobuf_varint-encode_varint_example :
    read_protobuf_varint ((1 ∷ []) ++ (encode_varint 300 ++ 7 ∷ [])) 1
    ≡ ok (record { value = 300; next = 1 + length (encode_varint 300) })
read_protobuf_varint-encode_varint_example =
    read_protobuf_varint-encode_varint (1 ∷ []) (7 ∷ []) 300 (omega arith) (omega arith)

abbrev session : List ℕ
session = 1 ∷ 2 ∷ 3 ∷ 4 ∷ 5 ∷ 6 ∷ 7 ∷ 8 ∷ 9 ∷ 10 ∷ 11 ∷ 12 ∷ 13 ∷ 14 ∷ 15 ∷ 16 ∷ []

parse_agent_live_frame-build_frame_example :
    parse_agent_live_frame (build_frame session 9 3 1700000000000 session)
    ≡ ok (record {
      session_id = session;
      machine_pk = 9;
      sequence = 3;
      observed_at = 1700000000000;
      aad = frame_aad session 9 3 1700000000000;
      ciphertext = session;
    })
parse_agent_live_frame-build_frame_example =
    parse_agent_live_frame-build_frame session 9 3 1700000000000 session refl (omega arith)
      (omega arith) (omega arith) (omega arith) (omega arith)

-- Fields 1 and 2.
abbrev short_sample : List ℕ
short_sample = 8 ∷ 5 ∷ 16 ∷ 100 ∷ []

short_sample-IsByte : All IsByte short_sample
short_sample-IsByte = (omega arith, (omega arith, (omega arith, (omega arith, tt))))

abbrev sample : MetricSample
sample = record {
  observed_at = 1700000000000;
  cpu_permille = 125;
  memory_used_bytes = 1000;
  memory_total_bytes = 4000;
  storage_used_bytes = 10;
  storage_total_bytes = 20;
  network_rx_bps = 0;
  network_tx_bps = 2;
  network_rx_total = 3;
  network_tx_total = 4;
  load1m_milli = some 70;
  uptime_seconds = none;
}

sample-IsLiveSample : IsLiveSample sample
sample-IsLiveSample = record {
  safe = record {
    observed_at = omega arith;
    cpu_permille = omega arith;
    memory_used_bytes = omega arith;
    memory_total_bytes = omega arith;
    storage_used_bytes = omega arith;
    storage_total_bytes = omega arith;
    network_rx_bps = omega arith;
    network_tx_bps = omega arith;
    network_rx_total = omega arith;
    network_tx_total = omega arith;
    load1m_milli = omega arith;
    uptime_seconds = tt;
  };
  observed = omega arith;
  cpu = omega arith;
}

decode_live_metric_sample-encode_sample_example :
    decode_live_metric_sample (encode_sample sample) ≡ ok sample
decode_live_metric_sample-encode_sample_example =
    decode_live_metric_sample-encode_sample sample sample-IsLiveSample

-- A base64 decoder that knows two texts, a key derivation, and a cipher that opens every frame.
abbrev decode_texts : String → ℕ → Outcome (List ℕ)
decode_texts text size =
    if size == 16
    then ok session
    else if size == 4
    then ok (1 ∷ 2 ∷ 3 ∷ 4 ∷ [])
    else throw "invalid_base64url"

abbrev derive_same : String → Outcome (List ℕ)
derive_same text = ok session

abbrev open_frame : List ℕ → List ℕ → List ℕ → List ℕ → Outcome (List ℕ)
open_frame key iv aad ciphertext = ok short_sample

decode_texts-Yields : (text : String) (size : ℕ) → Yields (λ b. Unit {0}) (decode_texts text size)
decode_texts-Yields text size =
    Yields-if (size == 16) (λ _. yields _ tt)
      (λ _. Yields-if (size == 4) (λ _. yields _ tt) (λ _. raises "invalid_base64url"))

abbrev live_frame : AgentLiveFrameHeader
live_frame = record {
  session_id = session;
  machine_pk = 9;
  sequence = 3;
  observed_at = 5;
  aad = frame_aad session 9 3 5;
  ciphertext = session;
}

abbrev scope : ExpectedScope
scope = record { session_id = "session"; nonce_prefix = "prefix"; machine_pk = 9 }

decrypt_agent_live_frame-Yields_example :
    Yields
      (IsBound decode_texts derive_same open_frame live_frame scope)
      (decrypt_agent_live_frame decode_texts derive_same open_frame live_frame scope)
decrypt_agent_live_frame-Yields_example =
    decrypt_agent_live_frame-Yields decode_texts derive_same open_frame decode_texts-Yields
      (λ text. yields session tt) (λ key iv aad ciphertext. yields short_sample short_sample-IsByte)
      live_frame scope

-- A decompressor that gives a report of one sample in two chunks.
abbrev decompress_two : List ℕ → List (Outcome (List ℕ))
decompress_two compressed = ok (42 ∷ 4 ∷ []) ∷ ok short_sample ∷ []

decode_compressed_machine_samples-Yields_example :
    Yields
      (λ s. All IsMachineSample s × (length s ≤ 60) × (1 ≤ length s))
      (decode_compressed_machine_samples decompress_two session)
decode_compressed_machine_samples-Yields_example =
    decode_compressed_machine_samples-Yields decompress_two session
      (yields _ (omega arith, (omega arith, tt)), (yields _ short_sample-IsByte, tt))
