-- ===== src/Contracts/MachineReport/Samples.antt =====
-- A report that is decoded: the decoder ends, and the samples that it yields are 1 to 60 and valid.
use Prim.Native.Nat.{bit_and}
use alphaping.Prelude.{
  ℕ, zero, suc, ◌+◌, ◌-◌, ◌/◌, ◌≤◌, ◌<◌, ◌≡◌, ◌⊎◌, List, [], ◌∷◌, ◌++◌, All, arith, length,
  length-append, ltb, ◌==◌, ◌||◌, not, take, drop,
}
use alphaping.Prelude.Outcome.{
  Outcome, ok, throw, stuck, Yields, yields, raises, Yields-bind, Yields-throw_if, Yields-if,
}
use alphaping.Contracts.Protobuf.{IsByte}
use alphaping.Contracts.MetricFields.{MetricSample, initial_values, sample_of}
use alphaping.Contracts.MetricFields.Total.{
  metric_loop-Yields, read_protobuf_varint-Yields, safe_protobuf_number-Yields,
  skip_protobuf_field-Yields,
}
use alphaping.Contracts.LiveFrame.{slice}
use alphaping.Contracts.LiveFrame.Sample.{IsSafeSample, sample_of-IsSafeSample}
use alphaping.Contracts.MachineReport.{
  max_decompressed_bytes, read_chunks, inflate_zlib, sample_rejected, decode_metric_sample,
  report_sample, report_field, report_loop, decode_compressed_machine_samples,
}

pub record IsMachineSample (s : MetricSample) : Type 0 where
  pub safe : IsSafeSample s
  pub observed : 0 < s.observed_at
  pub cpu : s.cpu_permille ≤ 1000
  pub memory : (s.memory_total_bytes ≡ 0) ⊎ (s.memory_used_bytes ≤ s.memory_total_bytes)
  pub storage : (s.storage_total_bytes ≡ 0) ⊎ (s.storage_used_bytes ≤ s.storage_total_bytes)

All-append : (P : ℕ → Type 0) (xs ys : List ℕ) → All P xs → All P ys → All P (xs ++ ys)
All-append P [] ys a b = b
All-append P (x ∷ xs) ys a b = (a.0, All-append P xs ys a.1 b)

All-snoc :
    (xs : List MetricSample) (x : MetricSample)
    → All IsMachineSample xs
    → IsMachineSample x
    → All IsMachineSample (xs ++ x ∷ [])
All-snoc [] x a p = (p, tt)
All-snoc (y ∷ xs) x a p = (a.0, All-snoc xs x a.1 p)

All-take : (n : ℕ) (xs : List ℕ) → All IsByte xs → All IsByte (take n xs)
All-take zero xs a = tt
All-take (suc n) [] a = tt
All-take (suc n) (x ∷ xs) a = (a.0, All-take n xs a.1)

All-drop : (n : ℕ) (xs : List ℕ) → All IsByte xs → All IsByte (drop n xs)
All-drop zero xs a = a
All-drop (suc n) [] a = tt
All-drop (suc n) (x ∷ xs) a = All-drop n xs a.1

decode_metric_sample-Yields :
    (bytes : List ℕ) → All IsByte bytes → Yields IsMachineSample (decode_metric_sample bytes)
unfolding decode_metric_sample
decode_metric_sample-Yields bytes b =
    Yields-bind _ _
      (metric_loop-Yields "invalid_machine_metric_wire_type" (length bytes) bytes 0 initial_values b
        (omega arith) (omega arith))
      λ values safe.
        let s = sample_of values in
        Yields-throw_if (sample_rejected s) "invalid_machine_metric_value" λ accepted.
          yields _ (record {
            safe = sample_of-IsSafeSample values safe;
            observed = ground arith;
            cpu = ground arith;
            memory = ground arith;
            storage = ground arith;
          })

-- A state that the loop may be in.
abbrev IsProgress : List ℕ → ℕ → ℕ × List MetricSample → Type 0
IsProgress bytes offset (next, samples) =
    (offset < next) × All IsMachineSample samples × (length samples ≤ 60)

module _ (bytes : List ℕ) (b : All IsByte bytes) where
  report_sample-Yields :
      (offset wire_type : ℕ) (samples : List MetricSample)
      → All IsMachineSample samples
      → Yields (IsProgress bytes offset) (report_sample bytes offset wire_type samples)
  unfolding report_sample
  report_sample-Yields offset wire_type samples a =
      Yields-throw_if (not (wire_type == 2)) "invalid_machine_report_wire_type" λ _.
        Yields-bind _ _ (read_protobuf_varint-Yields bytes offset b) λ size moved.
          Yields-bind _ _ (safe_protobuf_number-Yields size.value) λ number _.
            let last = size.next + number in
            Yields-throw_if (ltb (length bytes) last) "invalid_machine_report_field" λ _.
              Yields-bind _ _
                (decode_metric_sample-Yields (slice bytes size.next last)
                  (All-take (last - size.next) _ (All-drop size.next bytes b)))
                λ sample valid.
                  Yields-throw_if (ltb 60 (length (samples ++ sample ∷ [])))
                    "machine_report_sample_limit"
                    λ few.
                      yields _ (omega (arith, moved), All-snoc samples sample a valid, ground arith)

  report_loop-Yields :
      (fuel offset : ℕ) (samples : List MetricSample)
      → All IsMachineSample samples
      → length samples ≤ 60
      → length bytes ≤ offset + fuel
      → Yields
          (λ s. All IsMachineSample s × (length s ≤ 60))
          (report_loop fuel bytes offset samples)
  unfolding report_loop report_field
  report_loop-Yields zero offset samples a few f =
      Yields-if (ltb offset (length bytes)) (λ more. absurd (ground arith))
        (λ _. yields samples (a, few))
  report_loop-Yields (suc fuel) offset samples a few f =
      Yields-if (ltb offset (length bytes))
        (λ _. Yields-bind _ _ (read_protobuf_varint-Yields bytes offset b) λ tag read.
          let wire_type = bit_and tag.value 7 in
          Yields-bind {P = IsProgress bytes tag.next} _ _
            (Yields-if (tag.value / 8 == 5) (λ _. report_sample-Yields tag.next wire_type samples a)
              (λ _.
                Yields-bind _ _ (skip_protobuf_field-Yields bytes tag.next wire_type b)
                  λ next moved. yields _ (omega (arith, moved), a, few)))
            λ r moved. report_loop-Yields fuel r.0 r.1 moved.1 moved.2 (omega (arith, read, moved)))
        (λ _. yields samples (a, few))

read_chunks-Yields :
    (total : ℕ) (chunks : List (Outcome (List ℕ)))
    → total ≤ max_decompressed_bytes
    → All (Yields (All IsByte)) chunks
    → Yields
        (λ d. (total + length d ≤ max_decompressed_bytes) × All IsByte d)
        (read_chunks total chunks)
unfolding read_chunks
read_chunks-Yields total [] h a = yields [] (omega arith, tt)
read_chunks-Yields total (throw message ∷ chunks) h a = raises message
read_chunks-Yields total (stuck ∷ chunks) h a = elim a.0 [ ]
read_chunks-Yields total (ok chunk ∷ chunks) h (yields _ bytes, a) =
    let total' = total + length chunk in
    Yields-if (ltb max_decompressed_bytes total') (λ _. raises "machine_report_too_large")
      λ small. Yields-bind _ _ (read_chunks-Yields total' chunks (ground arith) a) λ d ok'.
        yields _ (omega (arith, ok', length-append chunk d), All-append IsByte chunk d bytes ok'.1)

-- Where each read of the decompressor ends by bytes or an error, decoding a report ends: by an error, or
-- with 1 to 60 samples whose numbers are safe integers, whose processor share is at most 1000
-- permille, and whose memory and storage in use are within their totals where those are known.
pub decode_compressed_machine_samples-Yields :
    (decompress : List ℕ → List (Outcome (List ℕ))) (compressed : List ℕ)
    → All (Yields (All IsByte)) (decompress compressed)
    → Yields
        (λ s. All IsMachineSample s × (length s ≤ 60) × (1 ≤ length s))
        (decode_compressed_machine_samples decompress compressed)
unfolding decode_compressed_machine_samples inflate_zlib
decode_compressed_machine_samples-Yields decompress compressed chunks =
    Yields-bind _ _
      (Yields-throw_if (length compressed == 0 || ltb 65536 (length compressed))
        "invalid_machine_report_size"
        λ _. read_chunks-Yields 0 (decompress compressed) (omega arith) chunks)
      λ bytes b.
        Yields-bind _ _
          (report_loop-Yields bytes b.1 (length bytes) 0 [] tt (omega arith) (omega arith))
          λ samples valid.
            Yields-throw_if (length samples == 0) "machine_report_samples_missing"
              λ some_there. yields samples (valid.0, valid.1, ground arith)
