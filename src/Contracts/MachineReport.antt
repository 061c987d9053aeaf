-- ===== src/Contracts/MachineReport.antt =====
-- packages/contracts/src/machine-report.ts: the samples of a durable machine report.
-- DecompressionStream is a parameter: the chunks that its reader yields for the compressed bytes.
pub mod Samples
use Prim.Native.Nat.{bit_and}
use alphaping.Prelude.{
  ℕ, zero, suc, ◌+◌, ◌-◌, ◌*◌, ◌/◌, Bool, ◌&&◌, ◌||◌, not, List, [], ◌∷◌, ◌++◌, ltb, leb, ◌==◌,
  if◌then◌else◌, length,
}
use alphaping.Prelude.Outcome.{Outcome, ok, throw, stuck, ◌>>=◌, ◌>>◌, throw_if}
use alphaping.Contracts.Protobuf.{
  Varint, safe_protobuf_number, read_protobuf_varint, skip_protobuf_field,
}
use alphaping.Contracts.MetricFields.{MetricSample, initial_values, metric_loop, sample_of}
use alphaping.Contracts.LiveFrame.{slice}

abbrev pub max_compressed_bytes : ℕ
max_compressed_bytes = 64 * 1024

abbrev pub max_decompressed_bytes : ℕ
max_decompressed_bytes = 256 * 1024

-- The loop over the reader, whose reads may fail, and the copy of the chunks into one array.
unfoldable pub read_chunks : ℕ → List (Outcome (List ℕ)) → Outcome (List ℕ)
read_chunks total [] = ok []
read_chunks total (throw message ∷ chunks) = throw message
read_chunks total (stuck ∷ chunks) = stuck
read_chunks total (ok chunk ∷ chunks) =
    let total' = total + length chunk in
    let more = read_chunks total' chunks in
    if ltb max_decompressed_bytes total'
    then throw "machine_report_too_large"
    else (do decoded ← more; ok (chunk ++ decoded))

unfoldable pub inflate_zlib : (List ℕ → List (Outcome (List ℕ))) → List ℕ → Outcome (List ℕ)
unfolding read_chunks
inflate_zlib decompress bytes = do
  throw_if (length bytes == 0 || ltb max_compressed_bytes (length bytes))
      "invalid_machine_report_size"
  read_chunks 0 (decompress bytes)

abbrev pub sample_rejected : MetricSample → Bool
sample_rejected s =
    leb s.observed_at 0
    || ltb 1000 s.cpu_permille
    || (ltb 0 s.memory_total_bytes && ltb s.memory_total_bytes s.memory_used_bytes)
    || (ltb 0 s.storage_total_bytes && ltb s.storage_total_bytes s.storage_used_bytes)

unfoldable pub decode_metric_sample : List ℕ → Outcome MetricSample
decode_metric_sample bytes = do
  values ← metric_loop "invalid_machine_metric_wire_type" (length bytes) bytes 0 initial_values
  throw_if (sample_rejected (sample_of values)) "invalid_machine_metric_value"
  ok (sample_of values)

-- The branch for field 5: a sample, and the position behind it.
unfoldable pub report_sample : List ℕ → ℕ → ℕ → List MetricSample → Outcome (ℕ × List MetricSample)
report_sample bytes offset wire_type samples = do
  throw_if (not (wire_type == 2)) "invalid_machine_report_wire_type"
  size ← read_protobuf_varint bytes offset
  number ← safe_protobuf_number size.value
  let last = size.next + number
  throw_if (ltb (length bytes) last) "invalid_machine_report_field"
  sample ← decode_metric_sample (slice bytes size.next last)
  let samples' = samples ++ sample ∷ []
  throw_if (ltb 60 (length samples')) "machine_report_sample_limit"
  ok (last, samples')

-- A round of the loop behind the tag.
unfoldable pub report_field : List ℕ → Varint → List MetricSample → Outcome (ℕ × List MetricSample)
report_field bytes tag samples =
    let wire_type = bit_and tag.value 7 in
    if tag.value / 8 == 5
    then report_sample bytes tag.next wire_type samples
    else (do next ← skip_protobuf_field bytes tag.next wire_type; ok (next, samples))

unfoldable pub report_loop : ℕ → List ℕ → ℕ → List MetricSample → Outcome (List MetricSample)
report_loop zero bytes offset samples = if ltb offset (length bytes) then stuck else ok samples
report_loop (suc fuel) bytes offset samples =
    let more = (do
      tag ← read_protobuf_varint bytes offset
      (next, samples') ← report_field bytes tag samples
      report_loop fuel bytes next samples') in
    if ltb offset (length bytes) then more else ok samples

unfoldable pub decode_compressed_machine_samples :
    (List ℕ → List (Outcome (List ℕ))) → List ℕ → Outcome (List MetricSample)
decode_compressed_machine_samples decompress compressed = do
  bytes ← inflate_zlib decompress compressed
  samples ← report_loop (length bytes) bytes 0 []
  throw_if (length samples == 0) "machine_report_samples_missing"
  ok samples
