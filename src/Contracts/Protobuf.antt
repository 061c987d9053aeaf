-- ===== src/Contracts/Protobuf.antt =====
-- packages/contracts/src/protobuf.ts. A Uint8Array is a list of numbers below 256; a bigint and a
-- safe integer are both natural numbers.
pub mod Bounds
pub mod RoundTrip
use Prim.Native.Nat.{bit_and, bit_or}
use alphaping.Prelude.{
  ℕ, zero, suc, ◌+◌, ◌-◌, ◌*◌, ◌^◌, ◌<◌, Bool, ◌&&◌, ◌||◌, Option, none, some, List, ltb, leb, ◌==◌,
  if◌then◌else◌, length, get_elem?,
}
use alphaping.Prelude.Outcome.{Outcome, ok, throw, ◌>>=◌, ◌>>◌, throw_if}

abbrev pub IsByte : ℕ → Type 0
IsByte b = b < 256

-- Number.MAX_SAFE_INTEGER
abbrev pub max_safe_integer : ℕ
max_safe_integer = 9007199254740991

unfoldable pub safe_protobuf_number : ℕ → Outcome ℕ
safe_protobuf_number value =
    if ltb max_safe_integer value then throw "protobuf_integer_out_of_range" else ok value

-- The pair { value, next } that the reader returns.
pub record Varint : Type 0 where
  pub value : ℕ
  pub next : ℕ

-- The loop of `readProtobufVarint`; the first argument counts the rounds left before start + 10.
unfoldable pub read_varint_loop : ℕ → List ℕ → ℕ → ℕ → ℕ → ℕ → Outcome Varint
read_varint_loop zero bytes start offset value shift = throw "invalid_protobuf_varint"
read_varint_loop (suc rounds) bytes start offset value shift = elim (get_elem? bytes offset) [
  | none ↦ throw "invalid_protobuf_varint"
  | some current ↦
      let value' = bit_or value (bit_and current 0x7f * 2 ^ shift) in
      let rest = read_varint_loop rounds bytes start (offset + 1) value' (shift + 7) in
      if offset == start + 9 && ltb 1 current
      then throw "invalid_protobuf_varint"
      else if bit_and current 0x80 == 0
      then ok (record { value = value'; next = offset + 1 })
      else rest
]

unfoldable pub read_protobuf_varint : List ℕ → ℕ → Outcome Varint
unfolding read_varint_loop
read_protobuf_varint bytes start =
    if ltb max_safe_integer start || leb (length bytes) start
    then throw "invalid_protobuf_varint"
    else read_varint_loop 10 bytes start start 0 0

-- The end of a length-delimited field, whose length has been read.
unfoldable pub field_end : List ℕ → Outcome Varint → Outcome ℕ
unfolding safe_protobuf_number
field_end bytes read = do
  length_varint ← read
  size ← safe_protobuf_number length_varint.value
  throw_if (ltb (length bytes) (length_varint.next + size)) "invalid_protobuf_field"
  ok (length_varint.next + size)

-- The position behind the field at `offset`.
unfoldable pub skip_protobuf_field : List ℕ → ℕ → ℕ → Outcome ℕ
unfolding field_end
skip_protobuf_field bytes offset wire_type =
    if wire_type == 0
    then (do v ← read_protobuf_varint bytes offset; ok v.next)
    else if wire_type == 1
    then (do throw_if (ltb (length bytes) (offset + 8)) "invalid_protobuf_field"; ok (offset + 8))
    else if wire_type == 2
    then field_end bytes (read_protobuf_varint bytes offset)
    else if wire_type == 5
    then (do throw_if (ltb (length bytes) (offset + 4)) "invalid_protobuf_field"; ok (offset + 4))
    else throw "invalid_protobuf_wire_type"
