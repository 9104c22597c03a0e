-- ===== src/Bitpack/Roundtrip.antt =====
-- From the bytes of an encoding back to its symbols.
use kvserve.Common.{
  ℕ, zero, suc, ◌+◌, ◌*◌, ◌^◌, ◌≤◌, ◌<◌, ◌≡◌, refl, ap, ap₂, ◌∙◌, Bool, true, Bool-cases, inl, inr,
  List, [], ◌∷◌, ◌++◌, All, ◌==◌, arith,
}
use native.Mathlib.Nat.{one-le-pow, mul-le-mul_right}
use kvserve.Bitpack.{
  is_index, ok, numel, at, tabulate_from, all_below, header_bytes, packed_size, header_byte, fits,
  pack_byte, byte_fits, rounds, pack, unpack_symbol, unpack, Argument, absent, other, integer,
  width_of, bind, encode, prod, decode,
}
use kvserve.Bitpack.Packing.{byte_index, symbol-lt}
use kvserve.Bitpack.Unpacking.{unpack_symbol-at}

pub numel-append : (xs ys : List ℕ) → numel (xs ++ ys) ≡ numel xs + numel ys
unfolding numel
numel-append [] ys = omega arith
numel-append (x ∷ xs) ys = omega (arith, numel-append xs ys)

pub numel-tabulate_from : (f : ℕ → ℕ) (i n : ℕ) → numel (tabulate_from f i n) ≡ n
unfolding numel tabulate_from
numel-tabulate_from f i zero = refl
numel-tabulate_from f i (suc n) = omega (arith, numel-tabulate_from f (suc i) n)

pub at-append : (xs ys : List ℕ) (i j : ℕ) → j ≡ numel xs + i → at j (xs ++ ys) ≡ at i ys
unfolding at numel
at-append [] ys i j e = let same : j ≡ i = omega (arith, e) in ap (λ (t : ℕ). at t ys) same
at-append (x ∷ xs) ys i zero e = absurd (omega (arith, e))
at-append (x ∷ xs) ys i (suc j) e = at-append xs ys i j (omega (arith, e))

pub at-append_left : (xs ys : List ℕ) (i : ℕ) → i < numel xs → at i (xs ++ ys) ≡ at i xs
unfolding at numel
at-append_left [] ys i h = absurd (omega (arith, h))
at-append_left (x ∷ xs) ys zero h = refl
at-append_left (x ∷ xs) ys (suc i) h = at-append_left xs ys i (omega (arith, h))

pub at-tabulate_from : (f : ℕ → ℕ) (i n j : ℕ) → j < n → at j (tabulate_from f i n) ≡ f (i + j)
unfolding at tabulate_from
at-tabulate_from f i zero j h = absurd (omega (arith, h))
at-tabulate_from f i (suc n) zero h = ap f (omega arith)
at-tabulate_from f i (suc n) (suc j) h =
    at-tabulate_from f (suc i) n j (omega (arith, h)) ∙ ap f (omega arith)

tabulate_from-at :
    (f : ℕ → ℕ) (i : ℕ) (xs : List ℕ)
    → ((j : ℕ) → j < numel xs → f (i + j) ≡ at j xs)
    → tabulate_from f i (numel xs) ≡ xs
unfolding at tabulate_from numel
tabulate_from-at f i [] h = refl
tabulate_from-at f i (x ∷ xs) h =
    let head : f i ≡ x = ap f (omega arith) ∙ h 0 (omega arith) in
    ap₂ ◌∷◌ head
      (tabulate_from-at f (suc i) xs (λ j l. ap f (omega arith) ∙ h (suc j) (omega (arith, l))))

pub all_below-true : (p : ℕ → Bool) (n : ℕ) → ((i : ℕ) → i < n → p i ≡ true) → all_below p n ≡ true
unfolding all_below
all_below-true p zero h = refl
all_below-true p (suc n) h =
    ground (arith, h n (omega arith), all_below-true p n (λ i l. h i (omega (arith, l))))

pub below-all_below : (p : ℕ → Bool) (n i : ℕ) → all_below p n ≡ true → i < n → p i ≡ true
unfolding all_below
below-all_below p zero i h l = absurd (omega (arith, l))
below-all_below p (suc n) i h l = elim (Bool-cases (i == n)) [
  | inl e ↦ let same : i ≡ n = ground (arith, e) in ap p same ∙ ground (arith, h)
  | inr e ↦ below-all_below p n i (ground (arith, h)) (ground (arith, l, e))
]

pub All-at : (b : ℕ) (xs : List ℕ) → 0 < b → All (λ x. x < b) xs → (i : ℕ) → at i xs < b
unfolding at
All-at b [] p h i = p
All-at b (x ∷ xs) p h zero = h.0
All-at b (x ∷ xs) p h (suc i) = All-at b xs p h.1 i

pub width_of-bounds :
    (self bits : ℕ) (argument : Argument)
    → width_of self argument ≡ ok bits
    → (1 ≤ bits) × (bits ≤ 8)
unfolding width_of
width_of-bounds self bits absent h = ground (arith, h)
width_of-bounds self bits other h = absurd (ground (arith, h))
width_of-bounds self bits (integer w) h = ground (arith, h)

-- The payload of an encoding.
abbrev pub payload_of : List ℕ → ℕ → List ℕ
payload_of source bits =
    tabulate_from (header_byte (numel source) bits) 0 header_bytes
    ++ tabulate_from (pack_byte source (numel source) bits) 0 (packed_size (numel source) bits)

fits-true :
    (source : List ℕ) (bits byte : ℕ)
    → ((i : ℕ) → at i source < 2 ^ bits)
    → (j : ℕ) → fits source (numel source) bits byte j ≡ true
unfolding fits
fits-true source bits byte small zero = ground (arith, symbol-lt source bits byte small 0)
fits-true source bits byte small (suc j) =
    ground (arith, symbol-lt source bits byte small (suc j), fits-true source bits byte small j)

pub pack_indices :
    (n bits : ℕ)
    → n * bits ≤ 0x80000000
    → all_below (λ byte. is_index (byte * 8)) (packed_size n bits) ≡ true
unfolding is_index
pack_indices n bits h =
    all_below-true _ (packed_size n bits) (λ b l. ground (arith, byte_index n bits b h l))

unpack_indices :
    (n bits : ℕ) → 0 < bits → n * bits ≤ 0x80000000 → all_below (λ i. is_index (i * bits)) n ≡ true
unfolding is_index
unpack_indices n bits p h = all_below-true _ n (λ i l.
    let room : suc i * bits ≤ n * bits = mul-le-mul_right {m = suc i} {n = n} bits l in
    let next : suc i * bits ≡ i * bits + bits = omega arith in
    let low : i * bits < 0x80000000 = omega (arith, p, h, room, next) in ground (arith, low))

pub pack-ok :
    (source : List ℕ) (bits : ℕ)
    → numel source * bits ≤ 0x80000000
    → ((i : ℕ) → at i source < 2 ^ bits)
    → pack source (numel source) bits ≡ ok (payload_of source bits)
unfolding pack byte_fits
pack-ok source bits short small =
    rw
      (
        pack_indices (numel source) bits short,
        all_below-true (byte_fits source (numel source) bits) (packed_size (numel source) bits)
            (λ b h. fits-true source bits b small (rounds source (numel source) bits b)),
      )
      refl

pub payload_of-header :
    (source : List ℕ) (bits h : ℕ)
    → h < 16
    → at h (payload_of source bits) ≡ header_byte (numel source) bits h
payload_of-header source bits h l =
    at-append_left _ _ h
      (omega (arith, l, numel-tabulate_from (header_byte (numel source) bits) 0 16))
    ∙ at-tabulate_from (header_byte (numel source) bits) 0 16 h l
    ∙ ap (header_byte (numel source) bits) (omega arith)

pub payload_of-byte :
    (source : List ℕ) (bits b : ℕ)
    → b < packed_size (numel source) bits
    → at (16 + b) (payload_of source bits) ≡ pack_byte source (numel source) bits b
payload_of-byte source bits b h =
    at-append (tabulate_from (header_byte (numel source) bits) 0 16) _ b (16 + b)
      (omega (arith, numel-tabulate_from (header_byte (numel source) bits) 0 16))
    ∙ at-tabulate_from (pack_byte source (numel source) bits) 0 (packed_size (numel source) bits) b
        h
    ∙ ap (pack_byte source (numel source) bits) (omega arith)

pub numel-payload_of :
    (source : List ℕ) (bits : ℕ)
    → numel (payload_of source bits) ≡ 16 + packed_size (numel source) bits
numel-payload_of source bits = omega (
  arith,
  numel-append (tabulate_from (header_byte (numel source) bits) 0 16)
      (tabulate_from (pack_byte source (numel source) bits) 0 (packed_size (numel source) bits)),
  numel-tabulate_from (header_byte (numel source) bits) 0 16,
  numel-tabulate_from (pack_byte source (numel source) bits) 0 (packed_size (numel source) bits),
)

pub unpack-ok :
    (source : List ℕ) (bits : ℕ)
    → 0 < bits
    → bits ≤ 8
    → numel source * bits ≤ 0x80000000
    → ((i : ℕ) → at i source < 2 ^ bits)
    → unpack (payload_of source bits) (numel source) bits ≡ ok source
unfolding unpack
unpack-ok source bits positive narrow short small =
    let same : all_below (λ h. at h (payload_of source bits) == header_byte (numel source) bits h)
          header_bytes
        ≡ true =
      all_below-true _ header_bytes (λ h l. ground (arith, payload_of-header source bits h l)) in
    rw (unpack_indices (numel source) bits positive short, same)
      (ap ok (
        tabulate_from-at (unpack_symbol (payload_of source bits) (numel source) bits) 0 source
          (λ j l.
            ap (unpack_symbol (payload_of source bits) (numel source) bits) (omega arith)
            ∙ unpack_symbol-at source (payload_of source bits) bits positive narrow short small
                (payload_of-byte source bits) j l)))

-- Where every symbol is below 2 ^ bits for the width `bits` that both sides have, and the shape has as many
-- elements as the tensor, and the symbols have at most 2 ^ 31 bits together, the tensor is encoded, and decoding
-- the payload gives the same tensor.
pub decode-encode_tensor :
    (self other_self bits : ℕ) (argument other_argument : Argument) (shape tensor : List ℕ)
    → width_of self argument ≡ ok bits
    → width_of other_self other_argument ≡ ok bits
    → prod shape ≡ numel tensor
    → numel tensor * bits ≤ 0x80000000
    → All (λ x. x < 2 ^ bits) tensor
    → bind (encode self argument tensor) (decode other_self other_argument shape) ≡ ok tensor
unfolding encode decode
decode-encode_tensor self other_self bits argument other_argument shape tensor e e' same short
      symbols =
    let small = All-at (2 ^ bits) tensor (one-le-pow bits 2 (omega arith)) symbols in
    let (positive, narrow) = width_of-bounds self bits argument e in
    rw (e, pack-ok tensor bits short small, e', same, numel-payload_of tensor bits)
      (ground (arith, unpack-ok tensor bits positive narrow short small))
