-- ===== src/Contracts/MetricFields/Total.antt =====
-- The field loop ends within a round for each byte, and every value that it stores is a safe integer.
use Prim.Native.Nat.{bit_and}
use alphaping.Prelude.{
  ℕ, zero, suc, ◌+◌, ◌-◌, ◌≤◌, ◌<◌, ◌≡◌, ◌≢◌, refl, false, Option, none, some, List, [], ◌∷◌, All,
  arith, length, String, set, ltb, leb, ◌&&◌, ◌/◌,
}
use alphaping.Prelude.Outcome.{
  Outcome, ok, throw, stuck, Yields, yields, Yields-intro, Yields-bind, Yields-throw_if, Yields-if,
}
use alphaping.Contracts.Protobuf.{
  IsByte, Varint, max_safe_integer, safe_protobuf_number, read_varint_loop, read_protobuf_varint,
  skip_protobuf_field, field_end,
}
use alphaping.Contracts.Protobuf.Bounds.{read_protobuf_varint_bounds, skip_protobuf_field_bounds}
use alphaping.Contracts.MetricFields.{metric_value, metric_field, metric_loop}

-- A stored value is null or a safe integer.
abbrev pub IsSafeValue : Option ℕ → Type 0
IsSafeValue none = Unit {0}
IsSafeValue (some n) = n ≤ max_safe_integer

All-set {ℓ κ} :
    {A : Type ℓ} (P : A → Type κ) (xs : List A) (i : ℕ) (v : A)
    → All P xs
    → P v
    → All P (set xs i v)
All-set P [] i v a p = a
All-set P (x ∷ xs) zero v a p = (p, a.1)
All-set P (x ∷ xs) (suc i) v a p = (a.0, All-set P xs i v a.1 p)

read_varint_loop-ne-stuck :
    (rounds : ℕ) (bytes : List ℕ) (start offset value shift : ℕ)
    → read_varint_loop rounds bytes start offset value shift ≢ stuck
unfolding read_varint_loop
read_varint_loop-ne-stuck zero bytes start offset value shift e = cc
read_varint_loop-ne-stuck (suc rounds) bytes start offset value shift e =
    grind (arith, read_varint_loop-ne-stuck rounds bytes start)

pub read_protobuf_varint-ne-stuck :
    (bytes : List ℕ) (start : ℕ) → read_protobuf_varint bytes start ≢ stuck
unfolding read_protobuf_varint
read_protobuf_varint-ne-stuck bytes start e =
    ground (arith, read_varint_loop-ne-stuck 10 bytes start start 0 0)

-- A varint that is read, or an error: in no case does the reader run out of rounds.
pub read_protobuf_varint-Yields :
    (bytes : List ℕ) (start : ℕ)
    → All IsByte bytes
    → Yields (λ v. (start < v.next) × (v.next ≤ length bytes)) (read_protobuf_varint bytes start)
read_protobuf_varint-Yields bytes start b =
    Yields-intro _ (read_protobuf_varint-ne-stuck bytes start)
      (λ v e. omega (arith, read_protobuf_varint_bounds bytes start v b e))

pub safe_protobuf_number-Yields :
    (value : ℕ) → Yields (λ n. (n ≡ value) × (n ≤ max_safe_integer)) (safe_protobuf_number value)
unfolding safe_protobuf_number
safe_protobuf_number-Yields value = Yields-intro _ (λ e. ground arith) (λ n e. ground arith)

field_end-ne-stuck : (bytes : List ℕ) (r : Outcome Varint) → r ≢ stuck → field_end bytes r ≢ stuck
unfolding field_end safe_protobuf_number
field_end-ne-stuck bytes (ok v) h e = ground arith
field_end-ne-stuck bytes (throw m) h e = cc
field_end-ne-stuck bytes stuck h e = h refl

pub skip_protobuf_field-Yields :
    (bytes : List ℕ) (offset wire_type : ℕ)
    → All IsByte bytes
    → Yields
        (λ next. (offset < next) × (next ≤ length bytes))
        (skip_protobuf_field bytes offset wire_type)
skip_protobuf_field-Yields bytes offset wire_type b =
    Yields-intro _ ends (λ n e. skip_protobuf_field_bounds bytes offset wire_type b e)
  where
    ends : skip_protobuf_field bytes offset wire_type ≢ stuck
    ends e =
        unfold skip_protobuf_field in
        ground (
          arith,
          read_protobuf_varint-ne-stuck bytes offset,
          field_end-ne-stuck bytes (read_protobuf_varint bytes offset)
              (read_protobuf_varint-ne-stuck bytes offset),
        )

-- What a round may leave: a position further on within the bytes, and values that are safe.
abbrev pub IsAfter : List ℕ → ℕ → ℕ × List (Option ℕ) → Type 0
IsAfter bytes offset (next, values) =
    (offset < next) × (next ≤ length bytes) × All IsSafeValue values

metric_value-Yields :
    (wire_error : String) (bytes : List ℕ) (offset field wire_type : ℕ) (values : List (Option ℕ))
    → All IsByte bytes
    → All IsSafeValue values
    → Yields (IsAfter bytes offset) (metric_value wire_error bytes offset field wire_type values)
unfolding metric_value
metric_value-Yields wire_error bytes offset field wire_type values b a =
    Yields-throw_if _ wire_error λ _.
      Yields-bind _ _ (read_protobuf_varint-Yields bytes offset b) λ decoded moved.
        Yields-bind _ _ (safe_protobuf_number-Yields decoded.value) λ number safe.
          yields _ (moved.0, moved.1, All-set IsSafeValue values (field - 1) (some number) a safe.1)

metric_field-Yields :
    (wire_error : String) (bytes : List ℕ) (tag : Varint) (values : List (Option ℕ))
    → All IsByte bytes
    → All IsSafeValue values
    → Yields (IsAfter bytes tag.next) (metric_field wire_error bytes tag values)
unfolding metric_field
metric_field-Yields wire_error bytes tag values b a =
    Yields-if (leb 1 (tag.value / 8) && leb (tag.value / 8) 12)
      (λ _.
        metric_value-Yields wire_error bytes tag.next (tag.value / 8) (bit_and tag.value 7) values b
          a)
      (λ _.
        Yields-bind _ _ (skip_protobuf_field-Yields bytes tag.next (bit_and tag.value 7) b)
          λ next moved. yields _ (moved.0, moved.1, a))

-- With a round for each byte the loop ends, whatever the bytes are, and its values are safe.
pub metric_loop-Yields :
    (wire_error : String) (fuel : ℕ) (bytes : List ℕ) (offset : ℕ) (values : List (Option ℕ))
    → All IsByte bytes
    → All IsSafeValue values
    → length bytes ≤ offset + fuel
    → Yields (All IsSafeValue) (metric_loop wire_error fuel bytes offset values)
unfolding metric_loop
metric_loop-Yields wire_error zero bytes offset values b a f =
    let done : ltb offset (length bytes) ≡ false = ground arith in rw done (yields values a)
metric_loop-Yields wire_error (suc fuel) bytes offset values b a f =
    Yields-if (ltb offset (length bytes))
      (λ _. Yields-bind _ _ (read_protobuf_varint-Yields bytes offset b) λ tag read.
        Yields-bind _ _ (metric_field-Yields wire_error bytes tag values b a) λ r moved.
          metric_loop-Yields wire_error fuel bytes r.0 r.1 b moved.2 (omega (arith, read, moved)))
      (λ _. yields values a)
