-- ===== src/Contracts/Protobuf/RoundTrip.antt =====
-- The varint reader of protobuf.ts against the encoder of the wire format: seven bits to a byte,
-- lowest first, with the top bit set on all bytes but the last.
use native.Mathlib.Nat.{div-add-mod, pow-suc}
use alphaping.Prelude.{
  ℕ, zero, suc, ◌+◌, ◌*◌, ◌/◌, ◌%◌, ◌^◌, ◌≤◌, ◌<◌, ◌≡◌, ◌≢◌, refl, sym, ap, ◌∙◌, some, List, [],
  ◌∷◌, ◌++◌, arith, length, length-append, get_elem?, ltb, if◌then◌else◌, Bool-cases, inl, inr,
}
use mathlib.Core.List.{append_assoc}
use alphaping.Prelude.Bits.{bit_and-top}
use alphaping.Prelude.Outcome.{ok}
use alphaping.Contracts.Protobuf.{IsByte, max_safe_integer, read_varint_loop, read_protobuf_varint}
use alphaping.Contracts.Protobuf.Bounds.{add_group, shift_seven}

-- At most `k + 1` groups.
unfoldable pub encode_groups : ℕ → ℕ → List ℕ
encode_groups zero v = v ∷ []
encode_groups (suc k) v =
    let more = encode_groups k (v / 128) in if ltb v 128 then v ∷ [] else (128 + v % 128) ∷ more

-- The encoding of a 64-bit value.
unfoldable pub encode_varint : ℕ → List ℕ
encode_varint v = encode_groups 9 v

pub get_elem?-append {ℓ} :
    {A : Type ℓ} (front rest : List A) (x : A)
    → get_elem? (front ++ x ∷ rest) (length front) ≡ some x
get_elem?-append [] rest x = refl
get_elem?-append (y ∷ front) rest x = get_elem?-append front rest x

module _ (rounds : ℕ) (bytes : List ℕ) (start offset value shift current : ℕ)
    (found : get_elem? bytes offset ≡ some current) (fits : value < 2 ^ shift) where
  last_round :
      current < 128
      → (offset ≡ start + 9 → current ≤ 1)
      → read_varint_loop (suc rounds) bytes start offset value shift
        ≡ ok (record { value = value + current * 2 ^ shift; next = offset + 1 })
  unfolding read_varint_loop
  last_round small tenth =
      rw (found, read_varint_loop)
        (ground (
          arith,
          tenth,
          bit_and-top current (omega arith),
          add_group value current shift (omega arith) fits,
          ap (λ (t : ℕ). t * 2 ^ shift) (mod_small current small),
        ))
    where
      mod_small : (c : ℕ) → c < 128 → c % 128 ≡ c
      mod_small c h = omega arith

  more_round :
      128 ≤ current
      → IsByte current
      → offset ≢ start + 9
      → read_varint_loop (suc rounds) bytes start offset value shift
        ≡ read_varint_loop rounds bytes start
            (offset + 1)
            (value + current % 128 * 2 ^ shift)
            (shift + 7)
  unfolding read_varint_loop
  more_round large byte early =
      rw (found, read_varint_loop)
        (rw ((add_group value current shift byte fits).0)
          (ground (arith, bit_and-top current byte)))

-- The number that is still to be read, split at its lowest group.
lowest_group :
    (number shift : ℕ)
    → number * 2 ^ shift ≡ number / 128 * 2 ^ (shift + 7) + number % 128 * 2 ^ shift
lowest_group number shift =
    let parts = div-add-mod number 128 in
    let scaled = ap (λ n. n * 2 ^ shift) parts in
    let higher = ap (λ power. number / 128 * power) (shift_seven shift) in
    omega (arith, scaled, higher)

-- A group with the top bit set stands for its lower seven bits.
low_seven : (w : ℕ) → (128 + w % 128) % 128 ≡ w % 128
low_seven w = omega arith

same_group : (w s : ℕ) → (128 + w % 128) % 128 * 2 ^ s ≡ w % 128 * 2 ^ s
same_group w s = rw (low_seven w)

tenth : (value shift w : ℕ) → shift ≡ 63 → value + w * 2 ^ shift < 2 ^ 64 → w ≤ 1
tenth value shift w s fits = omega (arith, ap (λ (k : ℕ). w * 2 ^ k) s)

pub encode_groups_pos : (k v : ℕ) → 0 < length (encode_groups k v)
unfolding encode_groups
encode_groups_pos zero v = omega arith
encode_groups_pos (suc k) v = ground arith

-- The bytes and the position are variables with an equation, so that a round changes neither form.
read_encode_groups :
    (k : ℕ) (bytes front rest : List ℕ) (start offset value shift w : ℕ)
    → bytes ≡ front ++ (encode_groups k w ++ rest)
    → offset ≡ length front
    → value < 2 ^ shift
    → w < 128 ^ suc k
    → shift + 7 * k ≡ 63
    → offset + k ≡ start + 9
    → value + w * 2 ^ shift < 2 ^ 64
    → read_varint_loop (suc k) bytes start offset value shift
      ≡ ok (record { value = value + w * 2 ^ shift; next = offset + length (encode_groups k w) })
unfolding encode_groups
read_encode_groups zero bytes front rest start offset value shift w eb eo v lt s o fits =
    last_round 0 bytes start offset value shift w (rw (eb, eo) (get_elem?-append front rest w)) v lt
      (λ e. tenth value shift w (omega arith) fits)
read_encode_groups (suc k) bytes front rest start offset value shift w eb eo v lt s o fits =
    elim (Bool-cases (ltb w 128)) [
      | inl small ↦
          let eb' : bytes ≡ front ++ w ∷ rest = rw small at eb in
          rw small (
            last_round (suc k) bytes start offset value shift w
              (rw (eb', eo) (get_elem?-append front rest w)) v (ground arith)
              (λ e. absurd (omega arith)))
      | inr large ↦
          let c : ℕ = 128 + w % 128 in
          let groups : List ℕ = encode_groups k (w / 128) in
          let eb' : bytes ≡ front ++ c ∷ (groups ++ rest) = rw large at eb in
          let step =
            more_round (suc k) bytes start offset value shift c
              (rw (eb', eo) (get_elem?-append front (groups ++ rest) c)) v (omega arith)
              (omega arith) (omega arith) in
          let ih =
            read_encode_groups k bytes (front ++ c ∷ []) rest start (offset + 1)
              (value + c % 128 * 2 ^ shift) (shift + 7) (w / 128)
              (eb' ∙ sym (append_assoc front (c ∷ []) (groups ++ rest)))
              (omega (arith, length-append front (c ∷ [])))
              ((add_group value c shift (omega arith) v).1) (omega (arith, pow-suc 128 (suc k)))
              (omega arith) (omega arith)
              (omega (arith, lowest_group w shift, same_group w shift)) in
          rw large (step ∙ ih ∙ ground (arith, lowest_group w shift, same_group w shift))
    ]

-- Reading back what the encoder wrote gives the value, and the position behind it, whatever stands
-- before and after.
pub read_protobuf_varint-encode_varint :
    (front rest : List ℕ) (value : ℕ)
    → value < 2 ^ 64
    → length front ≤ max_safe_integer
    → read_protobuf_varint (front ++ (encode_varint value ++ rest)) (length front)
      ≡ ok (record { value = value; next = length front + length (encode_varint value) })
unfolding read_protobuf_varint encode_varint
read_protobuf_varint-encode_varint front rest value h p = ground (
  arith,
  in_bytes,
  read_encode_groups 9 (front ++ (encode_groups 9 value ++ rest)) front rest (length front)
      (length front) 0 0 value refl refl (omega arith) (omega arith) refl refl (omega arith),
)
  where
    in_bytes : length front < length (front ++ (encode_groups 9 value ++ rest))
    in_bytes = rw (length-append, length-append) (omega (arith, encode_groups_pos 9 value))

pub encode_varint_pos : (value : ℕ) → 0 < length (encode_varint value)
unfolding encode_varint
encode_varint_pos value = encode_groups_pos 9 value

length-encode_groups : (k v : ℕ) → length (encode_groups k v) ≤ k + 1
unfolding encode_groups
length-encode_groups zero v = omega arith
length-encode_groups (suc k) v = ground (arith, length-encode_groups k (v / 128))

pub length-encode_varint : (value : ℕ) → length (encode_varint value) ≤ 10
unfolding encode_varint
length-encode_varint value = length-encode_groups 9 value
