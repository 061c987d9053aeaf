-- ===== src/Contracts/MetricFields/RoundTrip.antt =====
-- The field loop against the encoder of a sample: each field as its tag and its varint.
use Prim.Native.Nat.{bit_and}
use mathlib.Core.List.{append_assoc}
use alphaping.Prelude.{
  ℕ, zero, suc, ◌+◌, ◌-◌, ◌*◌, ◌/◌, ◌^◌, ◌≤◌, ◌<◌, ◌≡◌, refl, sym, ap, ◌∙◌, Option, some, List, [],
  ◌∷◌, ◌++◌, All, arith, length, length-append, String, set, leb, ltb, ◌&&◌, ◌==◌, true, false,
  ==_iff,
}
use alphaping.Prelude.Bits.{holds_below, holds_below_sound}
use alphaping.Prelude.Outcome.{ok}
use alphaping.Contracts.Protobuf.{max_safe_integer, safe_protobuf_number, read_protobuf_varint}
use alphaping.Contracts.Protobuf.RoundTrip.{
  encode_varint, encode_varint_pos, read_protobuf_varint-encode_varint,
}
use alphaping.Contracts.MetricFields.{metric_value, metric_field, metric_loop}

-- A field of the wire format: its number, and its value.
abbrev pub encode_field : ℕ × ℕ → List ℕ
encode_field (field, value) = encode_varint (8 * field) ++ encode_varint value

unfoldable pub encode_fields : List (ℕ × ℕ) → List ℕ
encode_fields [] = []
encode_fields (f ∷ fs) = encode_field f ++ encode_fields fs

-- What the fields leave in the values.
abbrev pub store_fields : List (ℕ × ℕ) → List (Option ℕ) → List (Option ℕ)
store_fields [] values = values
store_fields ((field, value) ∷ fs) values = store_fields fs (set values (field - 1) (some value))

abbrev pub IsField : ℕ × ℕ → Type 0
IsField (field, value) = (1 ≤ field) × (field ≤ 12) × (value ≤ max_safe_integer)

wire_table : holds_below 13 (λ field. bit_and (8 * field) 7 == 0) ≡ true
unfolding holds_below
wire_table = refl

-- The tag of a field of ours holds wire type 0.
wire_type_zero : (field : ℕ) → field ≤ 12 → bit_and (8 * field) 7 ≡ 0
wire_type_zero field h = (==_iff _ _).0 (holds_below_sound 13 _ field wire_table (omega arith))

-- A varint at a position inside the bytes.
pub read_at :
    (bytes front rest : List ℕ) (offset value : ℕ)
    → bytes ≡ front ++ (encode_varint value ++ rest)
    → offset ≡ length front
    → value < 2 ^ 64
    → length front ≤ max_safe_integer
    → read_protobuf_varint bytes offset
      ≡ ok (record { value = value; next = offset + length (encode_varint value) })
read_at bytes front rest offset value eb eo h p =
    rw (eb, eo) (read_protobuf_varint-encode_varint front rest value h p)

module _ (wire_error : String) (bytes front rest : List ℕ) (offset field value : ℕ)
    (values : List (Option ℕ)) (eb : bytes ≡ front ++ (encode_varint value ++ rest))
    (eo : offset ≡ length front) (h : IsField (field, value))
    (p : length front ≤ max_safe_integer) where
  metric_value-encode :
      metric_value wire_error bytes offset field 0 values
      ≡ ok (offset + length (encode_varint value), set values (field - 1) (some value))
  unfolding metric_value safe_protobuf_number
  metric_value-encode =
      let small : value < 2 ^ 64 = omega (arith, h) in
      rw (read_at bytes front rest offset value eb eo small p) (ground arith)

  metric_field-encode :
      metric_field wire_error bytes (record { value = 8 * field; next = offset }) values
      ≡ ok (offset + length (encode_varint value), set values (field - 1) (some value))
  unfolding metric_field
  metric_field-encode =
      let same : 8 * field / 8 ≡ field = omega arith in
      let known : leb 1 field && leb field 12 ≡ true = ground arith in
      rw (same, wire_type_zero field (h.1), known) metric_value-encode

-- A round of the loop at a field that the encoder wrote.
metric_loop_round :
    (wire_error : String) (fuel : ℕ) (bytes front rest : List ℕ) (offset field value : ℕ)
    (values : List (Option ℕ))
    → bytes ≡ front ++ (encode_field (field, value) ++ rest)
    → offset ≡ length front
    → IsField (field, value)
    → length bytes ≤ max_safe_integer
    → metric_loop wire_error (suc fuel) bytes offset values
      ≡ metric_loop wire_error fuel bytes
          (offset + length (encode_field (field, value)))
          (set values (field - 1) (some value))
unfolding metric_loop
metric_loop_round wire_error fuel bytes front rest offset field value values eb eo h p =
    let tag : List ℕ = encode_varint (8 * field) in
    let body : List ℕ = encode_varint value in
    let size = ap length eb ∙ length-append front ((tag ++ body) ++ rest) in
    let size' = length-append (tag ++ body) rest in
    let size'' = length-append tag body in
    let eb₁ : bytes ≡ front ++ (tag ++ (body ++ rest)) =
      eb ∙ ap (λ t. front ++ t) (append_assoc tag body rest) in
    let eb₂ : bytes ≡ (front ++ tag) ++ (body ++ rest) =
      eb₁ ∙ sym (append_assoc front tag (body ++ rest)) in
    let inside : ltb offset (length bytes) ≡ true =
      ground (arith, size, size', size'', encode_varint_pos value) in
    let tag_read =
      read_at bytes front (body ++ rest) offset (8 * field) eb₁ eo (omega arith)
        (omega (arith, size)) in
    let field_read =
      metric_field-encode wire_error bytes (front ++ tag) rest (offset + length tag) field value
        values eb₂ (omega (arith, length-append front tag)) h
        (omega (arith, size, size', size'', length-append front tag)) in
    rw (inside, tag_read)
      (rw field_read (
        rw size'' (
          ap (λ n. metric_loop wire_error fuel bytes n (set values (field - 1) (some value)))
            (omega arith))))

-- Fields that the encoder wrote to the end of the bytes: the loop stores them in their order.
pub metric_loop-encode_fields :
    (wire_error : String) (fs : List (ℕ × ℕ)) (fuel : ℕ) (bytes front : List ℕ) (offset : ℕ)
    (values : List (Option ℕ))
    → bytes ≡ front ++ encode_fields fs
    → offset ≡ length front
    → All IsField fs
    → length bytes ≤ max_safe_integer
    → length bytes ≤ offset + fuel
    → metric_loop wire_error fuel bytes offset values ≡ ok (store_fields fs values)
unfolding metric_loop encode_fields
metric_loop-encode_fields wire_error [] zero bytes front offset values eb eo h p f =
    let size = ap length eb ∙ length-append front [] in ground (arith, size)
metric_loop-encode_fields wire_error [] (suc fuel) bytes front offset values eb eo h p f =
    let size = ap length eb ∙ length-append front [] in
    let done : ltb offset (length bytes) ≡ false = ground (arith, size) in rw done
metric_loop-encode_fields wire_error ((k, v) ∷ fs) zero bytes front offset values eb eo h p f =
    absurd (
      omega (
        arith,
        eo,
        ap length eb ∙ length-append front (encode_field (k, v) ++ encode_fields fs),
        length-append (encode_field (k, v)) (encode_fields fs),
        length-append (encode_varint (8 * k)) (encode_varint v),
        encode_varint_pos v,
      ))
metric_loop-encode_fields wire_error ((k, v) ∷ fs) (suc fuel) bytes front offset values eb eo h p
      f =
    let this : List ℕ = encode_field (k, v) in
    metric_loop_round wire_error fuel bytes front (encode_fields fs) offset k v values eb eo h.0 p
    ∙ metric_loop-encode_fields wire_error fs fuel bytes (front ++ this) (offset + length this)
        (set values (k - 1) (some v)) (eb ∙ sym (append_assoc front this (encode_fields fs)))
        (omega (arith, length-append front this)) h.1 p
        (omega
          (arith, length-append (encode_varint (8 * k)) (encode_varint v), encode_varint_pos v))
