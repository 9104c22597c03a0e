-- ===== src/Bitpack/Refusal.antt =====
-- What the assertions of the kernels refuse.
use kvserve.Common.{
  ℕ, zero, suc, ◌+◌, ◌-◌, ◌*◌, ◌/◌, ◌%◌, ◌^◌, ◌≤◌, ◌<◌, ◌≡◌, refl, ap, ◌∙◌, true, inl, inr, List,
  arith,
}
use native.Mathlib.Nat.{one-le-pow, mul-sub, mul_comm, mul-le-mul_right, le-div_iff_mul-le}
use native.Mathlib.Decide.{dec_lt}
use kvserve.Bitpack.{
  Outcome, ok, value_error, device_assert, wild_access, numel, at, all_below, packed_size, fits,
  byte_fits, rounds, pack, Argument, width_of, encode,
}
use kvserve.Common.{◌⊎◌}
use kvserve.Bitpack.Packing.{
  byte_index, f, o, v, first-offset, offset-lt, symbol-zero, symbol-near, at_beyond,
}
use kvserve.Bitpack.Roundtrip.{pack_indices, below-all_below, width_of-bounds}

symbol-fits :
    (source : List ℕ) (bits byte m j : ℕ)
    → fits source (numel source) bits byte m ≡ true
    → j ≤ m
    → v source bits byte j < 2 ^ bits
unfolding fits
symbol-fits source bits byte zero j h l =
    let same : 0 ≡ j = omega (arith, l) in
    let first_fits : v source bits byte 0 < 2 ^ bits = ground (arith, h) in
    omega (arith, first_fits, ap (λ (t : ℕ). v source bits byte t) same)
symbol-fits source bits byte (suc m) j h l = elim (dec_lt m j) [
  | yes p ↦
      let same : suc m ≡ j = omega (arith, p, l) in
      let last_fits : v source bits byte (suc m) < 2 ^ bits = ground (arith, h) in
      omega (arith, last_fits, ap (λ (t : ℕ). v source bits byte t) same)
  | no p ↦ symbol-fits source bits byte m j (ground (arith, h)) (omega (arith, p))
]

-- Every symbol is loaded by the byte in which it begins.
module _ (source : List ℕ) (bits i : ℕ) (positive : 0 < bits)
    (short : numel source * bits ≤ 0x80000000) (inside : i < numel source) where
  abbrev home : ℕ
  home = i * bits / 8

  home_inside : home < packed_size (numel source) bits
  unfolding packed_size
  home_inside = omega (arith, mul-le-mul_right {m = suc i} {n = numel source} bits inside, positive)

  home_index : home * 8 < 0x80000000
  home_index = byte_index (numel source) bits home short home_inside

  first-le : f source bits home ≤ i
  first-le = elim (dec_lt i (f source bits home)) [
    | yes p ↦ absurd (
        omega (
          arith,
          mul-le-mul_right {m = suc i} {n = f source bits home} bits p,
          first-offset source bits home positive home_index,
          positive,
        ))
    | no p ↦ omega (arith, p)
  ]

  round : ℕ
  round = i - f source bits home

  round_bits : round * bits ≡ o source bits home + i * bits % 8
  unfolding round
  round_bits = omega (
    arith,
    first-offset source bits home positive home_index,
    mul-sub bits i (f source bits home),
    mul_comm bits (i - f source bits home),
    mul_comm bits i,
    mul_comm bits (f source bits home),
    mul-le-mul_right bits first-le,
  )

  round-le : round ≤ rounds source (numel source) bits home
  round-le =
      (le-div_iff_mul-le {x = round} {y = 7 + bits - 1} positive).1
        (omega (arith, round_bits, offset-lt source bits home positive))

  symbol-round : (j : ℕ) → j ≡ round → v source bits home j ≡ at i source
  unfolding round
  symbol-round zero e =
      let same : f source bits home ≡ i = omega (arith, e, first-le) in
      symbol-zero source bits home home_inside ∙ ap (λ (t : ℕ). at t source) same
  symbol-round (suc j) e =
      let same : f source bits home + suc j ≡ i = omega (arith, e, first-le) in
      let near : suc j * bits - o source bits home < 8 =
        omega (arith, round_bits, ap (λ (t : ℕ). t * bits) e) in
      symbol-near source bits home j home_inside near ∙ ap (λ (t : ℕ). at t source) same

  pub pack-fits :
      (payload : List ℕ) → pack source (numel source) bits ≡ ok payload → at i source < 2 ^ bits
  unfolding pack byte_fits
  pack-fits payload e =
      let all : all_below (byte_fits source (numel source) bits) (packed_size (numel source) bits)
          ≡ true =
        ground (arith, pack_indices (numel source) bits short, e) in
      let here = below-all_below (byte_fits source (numel source) bits) _ home all home_inside in
      omega (
        arith,
        symbol-fits source bits home (rounds source (numel source) bits home) round here round-le,
        symbol-round round refl,
      )

Outcome-cases {ℓ} :
    {A : Type ℓ} (r : Outcome A)
    → ((a : A) × (r ≡ ok a)) ⊎ ((r ≡ value_error) ⊎ ((r ≡ device_assert) ⊎ (r ≡ wild_access)))
Outcome-cases (ok a) = inl (a, refl)
Outcome-cases value_error = inr (inl refl)
Outcome-cases device_assert = inr (inr (inl refl))
Outcome-cases wild_access = inr (inr (inr refl))

pack_total : (source : List ℕ) (n bits : ℕ) → pack source n bits ≡ value_error → ⊥
unfolding pack
pack_total source n bits e = ground (arith, e)

pack_tame :
    (source : List ℕ) (n bits : ℕ) → n * bits ≤ 0x80000000 → pack source n bits ≡ wild_access → ⊥
unfolding pack
pack_tame source n bits h e = ground (arith, pack_indices n bits h, e)

-- With a width that is accepted, a tensor with a symbol of 2 ^ bits or more, whose symbols have at most
-- 2 ^ 31 bits together, is not encoded: an assertion fails.
pub encode_refused :
    (self bits : ℕ) (argument : Argument) (tensor : List ℕ) (i : ℕ)
    → width_of self argument ≡ ok bits
    → numel tensor * bits ≤ 0x80000000
    → 2 ^ bits ≤ at i tensor
    → encode self argument tensor ≡ device_assert
unfolding encode
encode_refused self bits argument tensor i e short h =
    rw e (elim (Outcome-cases (pack tensor (numel tensor) bits)) [
      | inl (payload, q) ↦ absurd (
          omega (
            arith,
            h,
            pack-fits tensor bits i (width_of-bounds self bits argument e).0 short inside payload q,
          ))
      | inr (inl q) ↦ absurd (pack_total tensor (numel tensor) bits q)
      | inr (inr (inl q)) ↦ q
      | inr (inr (inr q)) ↦ absurd (pack_tame tensor (numel tensor) bits short q)
    ])
  where
    inside : i < numel tensor
    inside = elim (dec_lt i (numel tensor)) [
      | yes p ↦ p
      | no p ↦
          absurd (
            omega
              (arith, h, at_beyond tensor i (omega (arith, p)), one-le-pow bits 2 (omega arith)))
    ]
