-- ===== src/Bitpack/Packing.antt =====
-- The digits of a byte that `_pack` stores.
use kvserve.Common.{
  ℕ, zero, suc, ◌+◌, ◌-◌, ◌*◌, ◌/◌, ◌^◌, ◌≤◌, ◌<◌, ◌≡◌, refl, ap, ◌∙◌, List, [], ◌∷◌, arith,
}
use native.Mathlib.Nat.{
  mod-add-div, mod-lt, mul_comm, mul-le-mul_right, mul-sub, le-div_iff_mul-le, one-le-pow,
}
use native.Mathlib.Decide.{dec_lt}
use kvserve.Bitpack.{
  numel, at, to_u32, to_i32, packed_size, first, offset, symbol, packed, rounds, pack_byte,
}
use kvserve.Bitpack.Bits.{bit, bit-bit_or, bit-left_low, bit-left, bit-right, bit-low, bit_above}

pub at_beyond : (xs : List ℕ) (i : ℕ) → numel xs ≤ i → at i xs ≡ 0
unfolding at numel
at_beyond [] i h = refl
at_beyond (x ∷ xs) zero h = absurd (omega (arith, h))
at_beyond (x ∷ xs) (suc i) h = at_beyond xs i (omega (arith, h))

-- The packed stream has fewer than 2 ^ 31 bits behind the beginning of its last byte.
pub byte_index :
    (n bits byte : ℕ) → n * bits ≤ 0x80000000 → byte < packed_size n bits → byte * 8 < 0x80000000
unfolding packed_size
byte_index n bits byte h l = omega (arith, h, l)

module _ (source : List ℕ) (bits byte : ℕ) where
  abbrev pub f : ℕ
  f = first source (numel source) bits byte

  abbrev pub o : ℕ
  o = offset source (numel source) bits byte

  abbrev pub v : ℕ → ℕ
  v j = symbol source (numel source) bits byte j

  pub first-offset : 0 < bits → byte * 8 < 0x80000000 → byte * 8 ≡ f * bits + o
  unfolding first offset
  first-offset h i =
      omega
        (arith, i, mod-add-div (to_i32 (byte * 8)) bits, mul_comm bits (to_i32 (byte * 8) / bits))

  pub offset-lt : 0 < bits → o < bits
  unfolding offset
  offset-lt h = mod-lt (to_i32 (byte * 8)) h

  pub symbol-zero : byte < packed_size (numel source) bits → v 0 ≡ at f source
  unfolding symbol
  symbol-zero h = elim (dec_lt f (numel source)) [
    | yes p ↦ ground (arith, h, p)
    | no p ↦ ground (arith, h, p, at_beyond source f (omega (arith, p)))
  ]

  pub symbol-near :
      (j : ℕ)
      → byte < packed_size (numel source) bits
      → suc j * bits - o < 8
      → v (suc j) ≡ at (f + suc j) source
  unfolding symbol
  symbol-near j h near = elim (dec_lt (f + suc j) (numel source)) [
    | yes p ↦ ground (arith, h, near, p)
    | no p ↦ ground (arith, h, near, p, at_beyond source (f + suc j) (omega (arith, p)))
  ]

  pub symbol-lt : ((i : ℕ) → at i source < 2 ^ bits) → (j : ℕ) → v j < 2 ^ bits
  unfolding symbol
  symbol-lt small zero = ground (arith, small f, one-le-pow bits 2)
  symbol-lt small (suc j) = ground (arith, small (f + suc j), one-le-pow bits 2)

  module _ (positive : 0 < bits) (small : (i : ℕ) → at i source < 2 ^ bits)
      (inside : byte < packed_size (numel source) bits) (k q r : ℕ) (low : k < 8)
      (split : k + o ≡ q * bits + r) (rest : r < bits) where
    -- What round `suc j` adds to digit `k`.
    piece : ℕ → ℕ
    piece j = bit k (to_u32 (v (suc j) * 2 ^ (suc j * bits - o)))

    piece-shifted : (j : ℕ) → piece j ≡ bit k (v (suc j) * 2 ^ (suc j * bits - o))
    unfolding piece
    piece-shifted j = bit-low 32 k _ (omega (arith, low))

    shift : (j : ℕ) → (suc j * bits - o) + o ≡ suc j * bits
    shift j =
        omega (arith, offset-lt positive, mul-le-mul_right {m = 1} {n = suc j} bits (omega arith))

    piece_before : (j : ℕ) → q ≤ j → piece j ≡ 0
    piece_before j h =
        piece-shifted j
        ∙ bit-left_low (suc j * bits - o) k _ (
            omega (
              arith,
              shift j,
              split,
              rest,
              mul-le-mul_right {m = suc q} {n = suc j} bits (omega (arith, h)),
            ))

    piece_after : (j : ℕ) → suc j < q → piece j ≡ 0
    piece_after j h =
        let there : suc j * bits + bits ≤ q * bits =
          omega (arith, mul-le-mul_right {m = suc (suc j)} {n = q} bits h) in
        let s = suc j * bits - o in
        piece-shifted j
        ∙ bit-left s (k - s) k (v (suc j)) (omega (arith, shift j, split, there))
        ∙ bit_above bits (k - s) _ (symbol-lt small (suc j)) (omega (arith, shift j, split, there))

    piece-at : (j : ℕ) → suc j ≡ q → piece j ≡ bit r (at (f + q) source)
    piece-at j h =
        let there : suc j * bits ≡ q * bits = ap (λ (t : ℕ). t * bits) h in
        let s = suc j * bits - o in
        piece-shifted j
        ∙ bit-left s r k (v (suc j)) (omega (arith, shift j, split, there))
        ∙ ap (bit r) (
            symbol-near j inside (omega (arith, shift j, split, there, low))
            ∙ ap (λ (t : ℕ). at (f + t) source) h)

    packed_yet : (j : ℕ) → j < q → bit k (packed source (numel source) bits byte j) ≡ 0
    unfolding packed piece
    packed_yet zero h =
        let there : 1 * bits ≤ q * bits = mul-le-mul_right {m = 1} {n = q} bits h in
        bit-right o k (o + k) (v 0) refl
        ∙ bit_above bits (o + k) (v 0) (symbol-lt small 0) (omega (arith, split, there))
    packed_yet (suc j) h =
        bit-bit_or k _ _ ∙ omega (arith, packed_yet j (omega (arith, h)), piece_after j h)

    packed_done :
        (j : ℕ)
        → q ≤ j
        → bit k (packed source (numel source) bits byte j) ≡ bit r (at (f + q) source)
    unfolding packed piece
    packed_done zero h =
        let none : q ≡ 0 = omega (arith, h) in
        let nothing : q * bits ≡ 0 = omega (arith, ap (λ (t : ℕ). t * bits) none) in
        bit-right o k r (v 0) (omega (arith, split, nothing))
        ∙ ap (bit r) (symbol-zero inside ∙ ap (λ (t : ℕ). at t source) (omega (arith, none)))
    packed_done (suc j) h = elim (dec_lt j q) [
      | yes p ↦ bit-bit_or k _ _ ∙ omega (arith, packed_yet j p, piece-at j (omega (arith, p, h)))
      | no p ↦
          bit-bit_or k _ _
          ∙ omega (arith, packed_done j (omega (arith, p)), piece_before j (omega (arith, p)))
    ]

    packed_all : bit k (pack_byte source (numel source) bits byte) ≡ bit r (at (f + q) source)
    unfolding pack_byte
    packed_all =
        let q_rounds : q * bits ≤ 7 + bits - 1 = omega (arith, split, low, offset-lt positive) in
        bit-low 8 k _ low
        ∙ packed_done (rounds source (numel source) bits byte)
            ((le-div_iff_mul-le {x = q} {y = 7 + bits - 1} positive).1 q_rounds)

  -- Digit `k` of a byte is digit `r` of the symbol that the packed stream has there.
  pub bit-pack_byte :
      0 < bits
      → ((i : ℕ) → at i source < 2 ^ bits)
      → byte < packed_size (numel source) bits
      → byte * 8 < 0x80000000
      → (k m r : ℕ) → k < 8
      → byte * 8 + k ≡ m * bits + r
      → r < bits
      → bit k (pack_byte source (numel source) bits byte) ≡ bit r (at m source)
  bit-pack_byte positive small inside index k m r low e rest =
      let apart : (m - f) * bits ≡ m * bits - f * bits =
        omega (arith, mul-sub bits m f, mul_comm bits (m - f), mul_comm bits m, mul_comm bits f) in
      let there : f * bits ≤ m * bits = mul-le-mul_right bits f_le in
      packed_all positive small inside k (m - f) r low
        (omega (arith, e, first-offset positive index, apart, there)) rest
      ∙ ap (λ (t : ℕ). bit r (at t source)) (omega (arith, f_le))
    where
      f_le : f ≤ m
      f_le = elim (dec_lt m f) [
        | yes p ↦ absurd (
            omega (
              arith,
              e,
              first-offset positive index,
              rest,
              mul-le-mul_right {m = suc m} {n = f} bits p,
            ))
        | no p ↦ omega (arith, p)
      ]
