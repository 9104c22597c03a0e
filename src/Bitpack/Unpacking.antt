-- ===== src/Bitpack/Unpacking.antt =====
-- What `_unpack` makes of the bytes of `_pack`.
use kvserve.Common.{
  ℕ, suc, ◌+◌, ◌-◌, ◌*◌, ◌/◌, ◌%◌, ◌^◌, ◌≤◌, ◌<◌, ◌≡◌, refl, ap, ◌∙◌, ◌&&◌, List, ltb, arith, max,
}
use Prim.Native.Nat.{bit_or}
use native.Mathlib.Nat.{mul-le-mul_right, one-le-pow, pow-le-pow_right}
use native.Mathlib.Decide.{dec_lt}
use kvserve.Bitpack.{numel, at, load, to_u32, to_i32, packed_size, pack_byte, unpack_symbol}
use kvserve.Bitpack.Bits.{
  bit, bit_lt, bit-bit_or, bit-bit_and, bit-left_low, bit-left, bit-right, bit-low, bit_above,
  bit_mask, same_bits,
}
use kvserve.Bitpack.Packing.{byte_index, bit-pack_byte}

module _ (source payload : List ℕ) (bits : ℕ) (positive : 0 < bits) (narrow : bits ≤ 8)
    (short : numel source * bits ≤ 0x80000000) (small : (i : ℕ) → at i source < 2 ^ bits)
    (stored : (b : ℕ)
      → b < packed_size (numel source) bits
      → at (16 + b) payload ≡ pack_byte source (numel source) bits b) where
  module _ (i : ℕ) (inside : i < numel source) where
    abbrev byte : ℕ
    byte = to_i32 (i * bits) / 8

    abbrev offset : ℕ
    offset = to_i32 (i * bits) % 8

    abbrev size : ℕ
    size = packed_size (numel source) bits

    abbrev lo : ℕ
    lo = load payload (16 + byte) (ltb i (numel source) && ltb byte size)

    abbrev hi : ℕ
    hi =
        load payload (16 + byte + 1)
          (ltb i (numel source) && (ltb (byte + 1) size && ltb 8 (offset + bits)))

    room : i * bits + bits ≤ numel source * bits
    room = omega (arith, mul-le-mul_right {m = suc i} {n = numel source} bits inside)

    index : to_i32 (i * bits) ≡ i * bits
    index = omega (arith, room, positive, short)

    byte_inside : byte < size
    unfolding packed_size
    byte_inside = omega (arith, room, positive, index)

    lo_lem : lo ≡ pack_byte source (numel source) bits byte
    lo_lem = ground (arith, inside, byte_inside, stored byte byte_inside)

    next_inside : (k : ℕ) → k < bits → 8 ≤ offset + k → byte + 1 < size
    unfolding packed_size
    next_inside k h far = omega (arith, room, h, far, index)

    hi_lem :
        (k : ℕ) → k < bits → 8 ≤ offset + k → hi ≡ pack_byte source (numel source) bits (byte + 1)
    hi_lem k h far =
        let there : at (16 + byte + 1) payload ≡ pack_byte source (numel source) bits (byte + 1) =
          ap (λ (t : ℕ). at t payload) (omega arith) ∙ stored (byte + 1) (next_inside k h far) in
        ground (arith, inside, next_inside k h far, far, h, there)

    high_low : (k : ℕ) → offset + k < 8 → bit (offset + k) (to_u32 (hi * 2 ^ 8)) ≡ 0
    high_low k near =
        bit-low 32 (offset + k) _ (omega (arith, near)) ∙ bit-left_low 8 (offset + k) hi near

    low_high : (k : ℕ) → 8 ≤ offset + k → bit (offset + k) lo ≡ 0
    unfolding pack_byte
    low_high k far = bit_above 8 (offset + k) lo (omega (arith, lo_lem, pack_byte-lt)) far
      where
        pack_byte-lt : pack_byte source (numel source) bits byte < 2 ^ 8
        pack_byte-lt = omega arith

    -- Digit `offset + k` of the two bytes is digit `k` of the symbol.
    window :
        (k : ℕ)
        → k < bits
        → bit (offset + k) (bit_or lo (to_u32 (hi * 2 ^ 8))) ≡ bit k (at i source)
    window k h = bit-bit_or (offset + k) lo _ ∙ elim (dec_lt (offset + k) 8) [
      | yes near ↦ omega (
        arith,
        high_low k near,
        ap (bit (offset + k)) lo_lem
            ∙ bit-pack_byte source bits byte positive small byte_inside
                (byte_index (numel source) bits byte short byte_inside) (offset + k) i k near
                (omega (arith, index)) h,
      )
      | no far ↦ beyond (omega (arith, far))
    ]
      where
        beyond :
            8 ≤ offset + k
            → max (bit (offset + k) lo) (bit (offset + k) (to_u32 (hi * 2 ^ 8)))
              ≡ bit k (at i source)
        beyond far = omega (
          arith,
          low_high k far,
          bit-low 32 (offset + k) (hi * 2 ^ 8) (omega (arith, h, narrow)),
          bit-left 8 (offset + k - 8) (offset + k) hi (omega (arith, far)),
          ap (bit (offset + k - 8)) (hi_lem k h far)
              ∙ bit-pack_byte source bits (byte + 1) positive small (next_inside k h far)
                  (byte_index (numel source) bits (byte + 1) short (next_inside k h far))
                  (offset + k - 8) i k (omega (arith, h, narrow)) (omega (arith, far, index)) h,
        )

    digit :
        (k : ℕ) → k < 8 → bit k (unpack_symbol payload (numel source) bits i) ≡ bit k (at i source)
    unfolding unpack_symbol
    digit k h = bit-low 8 k _ h ∙ bit-bit_and k _ (2 ^ bits - 1) ∙ elim (dec_lt k bits) [
      | yes p ↦ omega (
        arith,
        bit_mask bits k p,
        bit-right offset k (offset + k) (bit_or lo (to_u32 (hi * 2 ^ 8))) refl,
        window k p,
        bit_lt k (at i source),
      )
      | no p ↦ omega (
        arith,
        bit_above bits k (2 ^ bits - 1) (omega (arith, one-le-pow bits 2)) (omega (arith, p)),
        bit_above bits k (at i source) (small i) (omega (arith, p)),
      )
    ]

    pub unpack_symbol-at : unpack_symbol payload (numel source) bits i ≡ at i source
    unfolding unpack_symbol
    unpack_symbol-at =
        same_bits 8 _ _ unpack_symbol-lt
          (omega (arith, small i, pow-le-pow_right {n = 2} (omega arith) {i = bits} {j = 8} narrow))
          digit
      where
        unpack_symbol-lt : unpack_symbol payload (numel source) bits i < 2 ^ 8
        unpack_symbol-lt = omega arith
