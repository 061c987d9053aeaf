-- ===== src/Contracts/LiveFrame/Sample.antt =====
-- The sample in a live frame: what is accepted, and the round trip.
use alphaping.Prelude.{
  ℕ, zero, suc, ◌+◌, ◌-◌, ◌∙◌, set, ◌*◌, ◌≤◌, ◌<◌, ◌≡◌, refl, Option, none, some, List, [], ◌∷◌,
  ◌++◌, All, arith, length, length-append, leb, ltb, ◌||◌, false, ◌==◌,
}
use alphaping.Prelude.Outcome.{ok, Yields, yields, Yields-bind, Yields-throw_if}
use alphaping.Contracts.Protobuf.{IsByte, max_safe_integer}
use alphaping.Contracts.Protobuf.RoundTrip.{encode_varint, encode_varint_pos, length-encode_varint}
use alphaping.Contracts.MetricFields.{
  MetricSample, initial_values, sample_of, value_at, value_or_zero,
}
use alphaping.Contracts.MetricFields.Total.{IsSafeValue, metric_loop-Yields}
use alphaping.Contracts.MetricFields.RoundTrip.{
  encode_fields, encode_field, store_fields, IsField, metric_loop-encode_fields,
}
use alphaping.Contracts.LiveFrame.{decode_live_metric_sample}

-- All numbers of a sample are safe integers.
pub record IsSafeSample (s : MetricSample) : Type 0 where
  pub observed_at : s.observed_at ≤ max_safe_integer
  pub cpu_permille : s.cpu_permille ≤ max_safe_integer
  pub memory_used_bytes : s.memory_used_bytes ≤ max_safe_integer
  pub memory_total_bytes : s.memory_total_bytes ≤ max_safe_integer
  pub storage_used_bytes : s.storage_used_bytes ≤ max_safe_integer
  pub storage_total_bytes : s.storage_total_bytes ≤ max_safe_integer
  pub network_rx_bps : s.network_rx_bps ≤ max_safe_integer
  pub network_tx_bps : s.network_tx_bps ≤ max_safe_integer
  pub network_rx_total : s.network_rx_total ≤ max_safe_integer
  pub network_tx_total : s.network_tx_total ≤ max_safe_integer
  pub load1m_milli : IsSafeValue s.load1m_milli
  pub uptime_seconds : IsSafeValue s.uptime_seconds

-- What a live sample that is accepted satisfies.
pub record IsLiveSample (s : MetricSample) : Type 0 where
  pub safe : IsSafeSample s
  pub observed : 0 < s.observed_at
  pub cpu : s.cpu_permille ≤ 1000

value_at-IsSafeValue :
    (values : List (Option ℕ)) (i : ℕ) → All IsSafeValue values → IsSafeValue (value_at values i)
value_at-IsSafeValue [] i a = tt
value_at-IsSafeValue (v ∷ values) zero a = a.0
value_at-IsSafeValue (v ∷ values) (suc i) a = value_at-IsSafeValue values i a.1

or_zero-le : (v : Option ℕ) → IsSafeValue v → (elim v [ none ↦ 0 | some n ↦ n ]) ≤ max_safe_integer
or_zero-le none h = omega arith
or_zero-le (some n) h = h

pub sample_of-IsSafeSample :
    (values : List (Option ℕ)) → All IsSafeValue values → IsSafeSample (sample_of values)
unfolding sample_of
sample_of-IsSafeSample values a = record {
  observed_at = at_most 0;
  cpu_permille = at_most 1;
  memory_used_bytes = at_most 2;
  memory_total_bytes = at_most 3;
  storage_used_bytes = at_most 4;
  storage_total_bytes = at_most 5;
  network_rx_bps = at_most 6;
  network_tx_bps = at_most 7;
  network_rx_total = at_most 8;
  network_tx_total = at_most 9;
  load1m_milli = value_at-IsSafeValue values 10 a;
  uptime_seconds = value_at-IsSafeValue values 11 a;
}
  where
    at_most : (i : ℕ) → value_or_zero values i ≤ max_safe_integer
    at_most i = or_zero-le (value_at values i) (value_at-IsSafeValue values i a)

-- Decoding ends on every list of bytes, and a sample that it yields is in range.
pub decode_live_metric_sample-Yields :
    (bytes : List ℕ) → All IsByte bytes → Yields IsLiveSample (decode_live_metric_sample bytes)
unfolding decode_live_metric_sample
decode_live_metric_sample-Yields bytes b =
    Yields-throw_if (length bytes == 0 || ltb 2048 (length bytes)) "invalid_live_metric_size" λ _.
      Yields-bind _ _
        (metric_loop-Yields "invalid_live_metric_wire_type" (length bytes) bytes 0 initial_values b
          (omega arith) (omega arith))
        λ values safe.
          let s = sample_of values in
          Yields-throw_if (leb s.observed_at 0 || ltb 1000 s.cpu_permille)
            "invalid_live_metric_value"
            λ in_range. yields _ (record {
              safe = sample_of-IsSafeSample values safe;
              observed = ground arith;
              cpu = ground arith;
            })

optional_field : ℕ → Option ℕ → List (ℕ × ℕ)
optional_field field none = []
optional_field field (some value) = (field, value) ∷ []

-- A field without `optional`, which proto3 leaves out where it is zero.
abbrev scalar_field : ℕ → ℕ → List (ℕ × ℕ)
scalar_field field zero = []
scalar_field field (suc n) = (field, suc n) ∷ []

-- The fields of a sample as the agent writes them: a zero is left out, and so is a null.
pub sample_fields : MetricSample → List (ℕ × ℕ)
unfolding optional_field
sample_fields s =
    scalar_field 1 s.observed_at
    ++ (scalar_field 2 s.cpu_permille
        ++ (scalar_field 3 s.memory_used_bytes
            ++ (scalar_field 4 s.memory_total_bytes
                ++ (scalar_field 5 s.storage_used_bytes
                    ++ (scalar_field 6 s.storage_total_bytes
                        ++ (scalar_field 7 s.network_rx_bps
                            ++ (scalar_field 8 s.network_tx_bps
                                ++ (scalar_field 9 s.network_rx_total
                                    ++ (scalar_field 10 s.network_tx_total
                                        ++ (optional_field 11 s.load1m_milli
                                            ++ optional_field 12 s.uptime_seconds))))))))))

unfoldable pub encode_sample : MetricSample → List ℕ
encode_sample s = encode_fields (sample_fields s)

-- A field that is left out is 0 already.
store-scalar_field :
    (index value : ℕ) (fs : List (ℕ × ℕ)) (values : List (Option ℕ))
    → set values index (some 0) ≡ values
    → store_fields (scalar_field (index + 1) value ++ fs) values
      ≡ store_fields fs (set values index (some value))
store-scalar_field index zero fs values e = rw e refl
store-scalar_field index (suc n) fs values e =
    let same : index + 1 - 1 ≡ index = omega arith in rw same refl

-- Storing the fields of a sample gives the sample.
module _ (o c mu mt su st rx tx rt tt' : ℕ) (load uptime : Option ℕ) where
  abbrev the_sample : MetricSample
  the_sample = record {
    observed_at = o;
    cpu_permille = c;
    memory_used_bytes = mu;
    memory_total_bytes = mt;
    storage_used_bytes = su;
    storage_total_bytes = st;
    network_rx_bps = rx;
    network_tx_bps = tx;
    network_rx_total = rt;
    network_tx_total = tt';
    load1m_milli = load;
    uptime_seconds = uptime;
  }

  scalars-stored :
      store_fields (sample_fields the_sample) initial_values
      ≡ store_fields (optional_field 11 load ++ optional_field 12 uptime) (
          some o
          ∷ some c
          ∷ some mu
          ∷ some mt
          ∷ some su
          ∷ some st
          ∷ some rx
          ∷ some tx
          ∷ some rt
          ∷ some tt'
          ∷ none
          ∷ none
          ∷ [])
  unfolding sample_fields
  scalars-stored =
      store-scalar_field 0 o _ _ refl
      ∙ (store-scalar_field 1 c _ _ refl
          ∙ (store-scalar_field 2 mu _ _ refl
              ∙ (store-scalar_field 3 mt _ _ refl
                  ∙ (store-scalar_field 4 su _ _ refl
                      ∙ (store-scalar_field 5 st _ _ refl
                          ∙ (store-scalar_field 6 rx _ _ refl
                              ∙ (store-scalar_field 7 tx _ _ refl
                                  ∙ (store-scalar_field 8 rt _ _ refl
                                      ∙ store-scalar_field 9 tt' _ _ refl))))))))

sample_of-store_fields :
    (o c mu mt su st rx tx rt tt' : ℕ) (load uptime : Option ℕ)
    → sample_of (
        store_fields
          (sample_fields (the_sample o c mu mt su st rx tx rt tt' load uptime))
          initial_values)
      ≡ the_sample o c mu mt su st rx tx rt tt' load uptime
unfolding sample_of optional_field
sample_of-store_fields o c mu mt su st rx tx rt tt' none none =
    rw (scalars-stored o c mu mt su st rx tx rt tt' none none) refl
sample_of-store_fields o c mu mt su st rx tx rt tt' none (some u) =
    rw (scalars-stored o c mu mt su st rx tx rt tt' none (some u)) refl
sample_of-store_fields o c mu mt su st rx tx rt tt' (some l) none =
    rw (scalars-stored o c mu mt su st rx tx rt tt' (some l) none) refl
sample_of-store_fields o c mu mt su st rx tx rt tt' (some l) (some u) =
    rw (scalars-stored o c mu mt su st rx tx rt tt' (some l) (some u)) refl

optional_fields-IsField :
    (load uptime : Option ℕ)
    → IsSafeValue load
    → IsSafeValue uptime
    → All IsField (optional_field 11 load ++ optional_field 12 uptime)
unfolding optional_field
optional_fields-IsField none none p q = tt
optional_fields-IsField none (some u) p q = omega arith
optional_fields-IsField (some l) none p q = omega arith
optional_fields-IsField (some l) (some u) p q = omega arith

scalar_field-IsField :
    (field value : ℕ) (fs : List (ℕ × ℕ))
    → 1 ≤ field
    → field ≤ 12
    → value ≤ max_safe_integer
    → All IsField fs
    → All IsField (scalar_field field value ++ fs)
scalar_field-IsField field zero fs one twelve safe rest = rest
scalar_field-IsField field (suc n) fs one twelve safe rest = ((one, twelve, safe), rest)

sample_fields-IsField : (s : MetricSample) → IsSafeSample s → All IsField (sample_fields s)
unfolding sample_fields
sample_fields-IsField s h =
    scalar_field-IsField 1 s.observed_at _ (omega arith) (omega arith) h.observed_at (
      scalar_field-IsField 2 s.cpu_permille _ (omega arith) (omega arith) h.cpu_permille (
        scalar_field-IsField 3 s.memory_used_bytes _ (omega arith) (omega arith) h.memory_used_bytes
          (scalar_field-IsField 4 s.memory_total_bytes _ (omega arith) (omega arith)
            h.memory_total_bytes
            (scalar_field-IsField 5 s.storage_used_bytes _ (omega arith) (omega arith)
              h.storage_used_bytes
              (scalar_field-IsField 6 s.storage_total_bytes _ (omega arith) (omega arith)
                h.storage_total_bytes
                (scalar_field-IsField 7 s.network_rx_bps _ (omega arith) (omega arith)
                  h.network_rx_bps
                  (scalar_field-IsField 8 s.network_tx_bps _ (omega arith) (omega arith)
                    h.network_tx_bps
                    (scalar_field-IsField 9 s.network_rx_total _ (omega arith) (omega arith)
                      h.network_rx_total
                      (scalar_field-IsField 10 s.network_tx_total _ (omega arith) (omega arith)
                        h.network_tx_total
                        (optional_fields-IsField s.load1m_milli s.uptime_seconds h.load1m_milli
                          h.uptime_seconds))))))))))

length-encode_fields : (fs : List (ℕ × ℕ)) → length (encode_fields fs) ≤ 20 * length fs
unfolding encode_fields
length-encode_fields [] = omega arith
length-encode_fields ((k, v) ∷ fs) = omega (
  arith,
  length-append (encode_field (k, v)) (encode_fields fs),
  length-append (encode_varint (8 * k)) (encode_varint v),
  length-encode_varint (8 * k),
  length-encode_varint v,
  length-encode_fields fs,
)

length-scalar_field :
    (field value n : ℕ) (fs : List (ℕ × ℕ))
    → length fs ≤ n
    → length (scalar_field field value ++ fs) ≤ n + 1
length-scalar_field field zero n fs h = omega (arith, h)
length-scalar_field field (suc v) n fs h = omega (arith, h)

length-optional_fields :
    (load uptime : Option ℕ) → length (optional_field 11 load ++ optional_field 12 uptime) ≤ 2
unfolding optional_field
length-optional_fields none none = omega arith
length-optional_fields none (some u) = omega arith
length-optional_fields (some l) none = omega arith
length-optional_fields (some l) (some u) = omega arith

length-sample_fields : (s : MetricSample) → length (sample_fields s) ≤ 12
unfolding sample_fields
length-sample_fields s = length-scalar_field 1 s.observed_at 11 _ (
    length-scalar_field 2 s.cpu_permille 10 _ (
      length-scalar_field 3 s.memory_used_bytes 9 _ (
        length-scalar_field 4 s.memory_total_bytes 8 _ (
          length-scalar_field 5 s.storage_used_bytes 7 _ (
            length-scalar_field 6 s.storage_total_bytes 6 _ (
              length-scalar_field 7 s.network_rx_bps 5 _ (
                length-scalar_field 8 s.network_tx_bps 4 _ (
                  length-scalar_field 9 s.network_rx_total 3 _ (
                    length-scalar_field 10 s.network_tx_total 2 _
                      (length-optional_fields s.load1m_milli s.uptime_seconds))))))))))

encode_fields_pos :
    (field value : ℕ) (fs : List (ℕ × ℕ)) → 0 < length (encode_fields ((field, value) ∷ fs))
unfolding encode_fields
encode_fields_pos field value fs = omega (
  arith,
  length-append (encode_field (field, value)) (encode_fields fs),
  length-append (encode_varint (8 * field)) (encode_varint value),
  encode_varint_pos value,
)

scalar_field_pos :
    (field value : ℕ) (fs : List (ℕ × ℕ))
    → 0 < value
    → 0 < length (encode_fields (scalar_field field value ++ fs))
scalar_field_pos field zero fs h = absurd (omega (arith, h))
scalar_field_pos field (suc n) fs h = encode_fields_pos field (suc n) fs

encode_sample_pos :
    (s : MetricSample) → 0 < s.observed_at → 0 < length (encode_fields (sample_fields s))
unfolding sample_fields
encode_sample_pos s h = scalar_field_pos 1 s.observed_at _ h

-- Decoding what an agent writes for a sample in range, which leaves out each number that is zero and each
-- optional one that is null, gives the sample.
pub decode_live_metric_sample-encode_sample :
    (s : MetricSample) → IsLiveSample s → decode_live_metric_sample (encode_sample s) ≡ ok s
unfolding decode_live_metric_sample encode_sample
decode_live_metric_sample-encode_sample s h =
    let fs = sample_fields s in
    let bytes = encode_fields fs in
    let short = length-encode_fields fs in
    let few = length-sample_fields s in
    let loop =
      metric_loop-encode_fields "invalid_live_metric_wire_type" fs (length bytes) bytes [] 0
        initial_values refl refl (sample_fields-IsField s h.safe) (omega (arith, short, few))
        (omega arith) in
    let stored =
      sample_of-store_fields s.observed_at s.cpu_permille s.memory_used_bytes s.memory_total_bytes
        s.storage_used_bytes s.storage_total_bytes s.network_rx_bps s.network_tx_bps
        s.network_rx_total s.network_tx_total s.load1m_milli s.uptime_seconds in
    let size : (length bytes == 0 || ltb 2048 (length bytes)) ≡ false =
      ground (arith, short, few, encode_sample_pos s h.observed) in
    let in_range : (leb s.observed_at 0 || ltb 1000 s.cpu_permille) ≡ false =
      ground (arith, h.observed, h.cpu) in
    rw (size, loop, stored, in_range)
