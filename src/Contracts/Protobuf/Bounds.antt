-- ===== src/Contracts/Protobuf/Bounds.antt =====
-- What the readers of protobuf.ts return on any input: bounds on the position and on the value.
use Prim.Native.Nat.{bit_and, bit_or}
use mathlib.Core.Path.{subst}
use native.Mathlib.Nat.{pow-le-pow_right}
use native.Mathlib.Numerals.{towards_suc}
use alphaping.Prelude.{
  ℕ, zero, suc, ◌+◌, ◌*◌, ◌%◌, ◌^◌, ◌≤◌, ◌<◌, ◌≡◌, refl, sym, some, List, [], ◌∷◌, All, arith,
  length, get_elem?, Option-cases, inl, inr, ◌⊎◌,
}
use alphaping.Prelude.Bits.{bit_or-disjoint, bit_and-low}
use alphaping.Prelude.Outcome.{Outcome, ok, throw, stuck, ◌>>=◌}
use alphaping.Contracts.Protobuf.{
  IsByte, Varint, safe_protobuf_number, read_varint_loop, read_protobuf_varint, skip_protobuf_field,
  field_end,
}

pub get_elem?-lt {ℓ} :
    {A : Type ℓ} (xs : List A) (i : ℕ) {x : A} → get_elem? xs i ≡ some x → i < length xs
get_elem?-lt [] i h = cc
get_elem?-lt (y ∷ xs) zero h = omega arith
get_elem?-lt (y ∷ xs) (suc i) h = omega (arith, get_elem?-lt xs i h)

pub get_elem?-IsByte :
    (xs : List ℕ) (i : ℕ) {x : ℕ} → All IsByte xs → get_elem? xs i ≡ some x → IsByte x
get_elem?-IsByte [] i a h = cc
get_elem?-IsByte (y ∷ xs) zero a h = ground (arith, a.0)
get_elem?-IsByte (y ∷ xs) (suc i) a h = get_elem?-IsByte xs i a.1 h

pub shift_seven : (s : ℕ) → 2 ^ (s + 7) ≡ 128 * 2 ^ s
shift_seven s = simp towards_suc (omega arith)

-- One round adds a group of seven bits above those that are there.
pub add_group :
    (value current shift : ℕ)
    → IsByte current
    → value < 2 ^ shift
    → (bit_or value (bit_and current 0x7f * 2 ^ shift) ≡ value + current % 128 * 2 ^ shift)
      × (value + current % 128 * 2 ^ shift < 2 ^ (shift + 7))
add_group value current shift b h = (
  rw (bit_and-low current b) (bit_or-disjoint shift value (current % 128) h),
  grind (arith, shift_seven shift),
)

tenth :
    (value current shift : ℕ)
    → value < 2 ^ shift
    → shift ≡ 63
    → current ≤ 1
    → value + current % 128 * 2 ^ shift < 2 ^ 64
tenth value current shift h s c =
    subst (λ k. value < 2 ^ k → value + current % 128 * 2 ^ k < 2 ^ 64) (sym s) (λ h'. omega arith)
      h

-- Nine groups fit a word of 64 bits, and so does a tenth of one bit.
round_value :
    (value current shift : ℕ)
    → IsByte current
    → value < 2 ^ shift
    → (shift + 7 ≤ 63) ⊎ ((shift ≡ 63) × (current ≤ 1))
    → bit_or value (bit_and current 0x7f * 2 ^ shift) < 2 ^ 64
round_value value current shift b h (inl low) =
    let (same, bound) = add_group value current shift b h in
    omega (arith, same, bound, pow-le-pow_right {n = 2} (omega arith) low)
round_value value current shift b h (inr (s, c)) =
    let (same, bound) = add_group value current shift b h in
    rw same (tenth value current shift h s c)

pub read_varint_loop_bounds :
    (rounds : ℕ) (bytes : List ℕ) (start offset value shift : ℕ) (v : Varint)
    → All IsByte bytes
    → value < 2 ^ shift
    → shift + 7 * rounds ≡ 70
    → offset + rounds ≡ start + 10
    → read_varint_loop rounds bytes start offset value shift ≡ ok v
    → (offset < v.next) × (v.next ≤ length bytes) × (v.next ≤ start + 10) × (v.value < 2 ^ 64)
unfolding read_varint_loop
read_varint_loop_bounds zero bytes start offset value shift v b h s o e = cc
read_varint_loop_bounds (suc rounds) bytes start offset value shift v b h s o e =
    elim (Option-cases (get_elem? bytes offset)) [
      | inl missing ↦ absurd (cc (rw (missing, read_varint_loop) at e))
      | inr (current, found) ↦
          let e' = rw (found, read_varint_loop) at e in
          let byte = get_elem?-IsByte bytes offset b found in
          let value' : ℕ = bit_or value (bit_and current 0x7f * 2 ^ shift) in
          ground (
            arith,
            get_elem?-lt bytes offset found,
            add_group value current shift byte h,
            round_value value current shift byte h,
            read_varint_loop_bounds rounds bytes start (offset + 1) value' (shift + 7) v b,
          )
    ]

-- A varint that is read moves the position on, within the bytes and by ten at most, and its value
-- fits a word of 64 bits.
pub read_protobuf_varint_bounds :
    (bytes : List ℕ) (start : ℕ) (v : Varint)
    → All IsByte bytes
    → read_protobuf_varint bytes start ≡ ok v
    → (start < v.next) × (v.next ≤ length bytes) × (v.next ≤ start + 10) × (v.value < 2 ^ 64)
unfolding read_protobuf_varint
read_protobuf_varint_bounds bytes start v b e =
    ground (arith, read_varint_loop_bounds 10 bytes start start 0 0 v b (omega arith) refl refl)

sized_bounds :
    (bytes : List ℕ) (start : ℕ) (r : Outcome Varint) {next : ℕ}
    → ((v : Varint) → r ≡ ok v → (start < v.next) × (v.next ≤ length bytes))
    → field_end bytes r ≡ ok next
    → (start < next) × (next ≤ length bytes)
unfolding field_end safe_protobuf_number
sized_bounds bytes start (ok v) h e = ground (arith, h v refl)
sized_bounds bytes start (throw m) h e = cc
sized_bounds bytes start stuck h e = cc

varint_bounds :
    (bytes : List ℕ) (start : ℕ) (r : Outcome Varint) {next : ℕ}
    → ((v : Varint) → r ≡ ok v → (start < v.next) × (v.next ≤ length bytes))
    → (r >>= λ v. ok v.next) ≡ ok next
    → (start < next) × (next ≤ length bytes)
varint_bounds bytes start (ok v) h e = ground (arith, h v refl)
varint_bounds bytes start (throw m) h e = cc
varint_bounds bytes start stuck h e = cc

-- A field that is skipped moves the position on and stays within the bytes, for every wire type.
pub skip_protobuf_field_bounds :
    (bytes : List ℕ) (offset wire_type : ℕ) {next : ℕ}
    → All IsByte bytes
    → skip_protobuf_field bytes offset wire_type ≡ ok next
    → (offset < next) × (next ≤ length bytes)
unfolding skip_protobuf_field
skip_protobuf_field_bounds bytes offset wire_type {next} b e = ground (
  arith,
  varint_bounds bytes offset (read_protobuf_varint bytes offset) {next = next} reads,
  sized_bounds bytes offset (read_protobuf_varint bytes offset) {next = next} reads,
)
  where
    reads :
        (v : Varint)
        → read_protobuf_varint bytes offset ≡ ok v
        → (offset < v.next) × (v.next ≤ length bytes)
    reads v h = omega (arith, read_protobuf_varint_bounds bytes offset v b h)
