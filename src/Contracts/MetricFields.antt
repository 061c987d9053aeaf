-- ===== src/Contracts/MetricFields.antt =====
-- The loop over the fields of a metric sample, which packages/contracts/src/live-frame.ts and
-- machine-report.ts both hold: fields 1 to 12 are varints, all others are skipped.
pub mod Total
pub mod RoundTrip
use Prim.Native.Nat.{bit_and}
use alphaping.Prelude.{
  ℕ, zero, suc, ◌+◌, ◌-◌, ◌/◌, Bool, ◌&&◌, Option, none, some, List, [], ◌∷◌, ltb, leb, ◌==◌, not,
  if◌then◌else◌, length, get_elem?, set, replicate, ◌++◌, String,
}
use alphaping.Prelude.Outcome.{Outcome, ok, throw, stuck, ◌>>=◌, ◌>>◌, throw_if}
use alphaping.Contracts.Protobuf.{
  Varint, safe_protobuf_number, read_protobuf_varint, skip_protobuf_field,
}

-- RawMachineMetricSample, and the metrics of LiveViewerSnapshot.
pub record MetricSample : Type 0 where
  pub observed_at : ℕ
  pub cpu_permille : ℕ
  pub memory_used_bytes : ℕ
  pub memory_total_bytes : ℕ
  pub storage_used_bytes : ℕ
  pub storage_total_bytes : ℕ
  pub network_rx_bps : ℕ
  pub network_tx_bps : ℕ
  pub network_rx_total : ℕ
  pub network_tx_total : ℕ
  pub load1m_milli : Option ℕ
  pub uptime_seconds : Option ℕ

-- Ten zeros and two nulls.
abbrev pub initial_values : List (Option ℕ)
initial_values = replicate 10 (some 0) ++ replicate 2 none

-- `values[index] ?? null`
abbrev pub value_at : List (Option ℕ) → ℕ → Option ℕ
value_at values index = elim (get_elem? values index) [ none ↦ none | some value ↦ value ]

-- `values[index] ?? 0`
abbrev pub value_or_zero : List (Option ℕ) → ℕ → ℕ
value_or_zero values index = elim (value_at values index) [ none ↦ 0 | some value ↦ value ]

-- The branch for a field that the sample has: its varint goes to its place in the values.
unfoldable pub metric_value :
    String → List ℕ → ℕ → ℕ → ℕ → List (Option ℕ) → Outcome (ℕ × List (Option ℕ))
metric_value wire_error bytes offset field wire_type values = do
  throw_if (not (wire_type == 0)) wire_error
  decoded ← read_protobuf_varint bytes offset
  number ← safe_protobuf_number decoded.value
  ok (decoded.next, set values (field - 1) (some number))

-- A round of the loop behind the tag: the next position and the values.
unfoldable pub metric_field :
    String → List ℕ → Varint → List (Option ℕ) → Outcome (ℕ × List (Option ℕ))
metric_field wire_error bytes tag values =
    let field = tag.value / 8 in
    let wire_type = bit_and tag.value 7 in
    if leb 1 field && leb field 12
    then metric_value wire_error bytes tag.next field wire_type values
    else (do next ← skip_protobuf_field bytes tag.next wire_type; ok (next, values))

-- `while (offset < bytes.length)`
unfoldable pub metric_loop : String → ℕ → List ℕ → ℕ → List (Option ℕ) → Outcome (List (Option ℕ))
metric_loop wire_error zero bytes offset values =
    if ltb offset (length bytes) then stuck else ok values
metric_loop wire_error (suc fuel) bytes offset values =
    let more = (do
      tag ← read_protobuf_varint bytes offset
      (next, values') ← metric_field wire_error bytes tag values
      metric_loop wire_error fuel bytes next values') in
    if ltb offset (length bytes) then more else ok values

-- The fields of the object that is returned.
unfoldable pub sample_of : List (Option ℕ) → MetricSample
sample_of values = record {
  observed_at = value_or_zero values 0;
  cpu_permille = value_or_zero values 1;
  memory_used_bytes = value_or_zero values 2;
  memory_total_bytes = value_or_zero values 3;
  storage_used_bytes = value_or_zero values 4;
  storage_total_bytes = value_or_zero values 5;
  network_rx_bps = value_or_zero values 6;
  network_tx_bps = value_or_zero values 7;
  network_rx_total = value_or_zero values 8;
  network_tx_total = value_or_zero values 9;
  load1m_milli = value_at values 10;
  uptime_seconds = value_at values 11;
}
