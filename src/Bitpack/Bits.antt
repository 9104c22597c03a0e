-- ===== src/Bitpack/Bits.antt =====
-- The digits of a number in base two, under the operations of machine words.
use kvserve.Common.{
  ℕ, zero, suc, ◌+◌, ◌-◌, ◌*◌, ◌/◌, ◌%◌, ◌^◌, ◌≤◌, ◌<◌, ◌≡◌, refl, sym, ap, ◌∙◌, arith, min, max,
}
use Prim.Native.Nat.{digits, bitwise, bit_and, bit_or, bit_and-bitwise, bit_or-bitwise}
use native.Mathlib.Nat.{
  le_refl, pow-suc, one-le-pow, div-one, div-div-eq-div-mul, mod-add-div, mul_comm,
}

-- Digit `k` of `x`.
abbrev pub bit : ℕ → ℕ → ℕ
bit zero x = x % 2
bit (suc k) x = bit k (x / 2)

module _ (last : ℕ → ℕ) (f : ℕ → ℕ → ℕ) where
  enough : (n m a b : ℕ) → a ≤ n → a ≤ m → digits last f n a b ≡ digits last f m a b
  enough zero zero a b p q = refl
  enough zero (suc m) zero b p q = refl
  enough (suc n) zero zero b p q = refl
  enough (suc n) (suc m) zero b p q = refl
  enough zero (suc m) (suc a) b p q = absurd (omega (arith, p))
  enough (suc n) zero (suc a) b p q = absurd (omega (arith, q))
  enough (suc n) (suc m) (suc a) b p q =
      omega (arith, enough n m (suc a / 2) (b / 2) (omega (arith, p)) (omega (arith, q)))

  lowest :
      (a b : ℕ)
      → bitwise last f (suc a) b ≡ bitwise last f (suc a / 2) (b / 2) * 2 + f (suc a % 2) (b % 2)
  lowest a b = omega (arith, enough a (suc a / 2) (suc a / 2) (b / 2) (omega arith) (le_refl _))

or_halves : (a b : ℕ) → bit_or a b ≡ bit_or (a / 2) (b / 2) * 2 + max (a % 2) (b % 2)
or_halves zero b = simp bit_or-bitwise (omega arith)
or_halves (suc a) b = simp bit_or-bitwise (lowest (λ y. y) max a b)

and_halves : (a b : ℕ) → bit_and a b ≡ bit_and (a / 2) (b / 2) * 2 + min (a % 2) (b % 2)
and_halves zero b = simp bit_and-bitwise (omega arith)
and_halves (suc a) b = simp bit_and-bitwise (lowest (λ y. 0) min a b)

pub bit-bit_or : (k a b : ℕ) → bit k (bit_or a b) ≡ max (bit k a) (bit k b)
bit-bit_or zero a b = omega (arith, or_halves a b)
bit-bit_or (suc k) a b = ap (bit k) (omega (arith, or_halves a b)) ∙ bit-bit_or k (a / 2) (b / 2)

pub bit-bit_and : (k a b : ℕ) → bit k (bit_and a b) ≡ min (bit k a) (bit k b)
bit-bit_and zero a b = omega (arith, and_halves a b)
bit-bit_and (suc k) a b = ap (bit k) (omega (arith, and_halves a b)) ∙ bit-bit_and k (a / 2) (b / 2)

pub bit_lt : (k x : ℕ) → bit k x < 2
bit_lt zero x = omega arith
bit_lt (suc k) x = bit_lt k (x / 2)

bit-zero : (k : ℕ) → bit k 0 ≡ 0
bit-zero zero = refl
bit-zero (suc k) = bit-zero k

-- Shifts to the left, with a field below.
double : (x q s : ℕ) → x + q * 2 ^ suc s ≡ x + q * 2 ^ s * 2
double x q s = omega (arith, ap (λ (p : ℕ). q * p) (pow-suc 2 s))

pub bit-fields_low : (s k x q : ℕ) → k < s → bit k (x + q * 2 ^ s) ≡ bit k x
bit-fields_low zero k x q h = absurd (omega (arith, h))
bit-fields_low (suc s) zero x q h = omega (arith, double x q s)
bit-fields_low (suc s) (suc k) x q h =
    let e : (x + q * 2 ^ suc s) / 2 ≡ x / 2 + q * 2 ^ s = omega (arith, double x q s) in
    ap (bit k) e ∙ bit-fields_low s k (x / 2) q (omega (arith, h))

pub bit-left_low : (s k x : ℕ) → k < s → bit k (x * 2 ^ s) ≡ 0
bit-left_low s k x h =
    let e : x * 2 ^ s ≡ 0 + x * 2 ^ s = omega arith in
    ap (bit k) e ∙ bit-fields_low s k 0 x h ∙ bit-zero k

pub bit-left : (s k n x : ℕ) → n ≡ s + k → bit n (x * 2 ^ s) ≡ bit k x
bit-left zero k n x h =
    let e : x * 2 ^ 0 ≡ x = omega arith in
    let i : n ≡ k = omega (arith, h) in ap (bit n) e ∙ ap (λ (m : ℕ). bit m x) i
bit-left (suc s) k zero x h = absurd (omega (arith, h))
bit-left (suc s) k (suc n) x h =
    let e : x * 2 ^ suc s / 2 ≡ x * 2 ^ s = omega (arith, double 0 x s) in
    ap (bit n) e ∙ bit-left s k n x (omega (arith, h))

pub bit-right : (s k n x : ℕ) → n ≡ s + k → bit k (x / 2 ^ s) ≡ bit n x
bit-right zero k n x h =
    let e : x / 2 ^ 0 ≡ x = div-one x in
    let i : k ≡ n = omega (arith, h) in ap (bit k) e ∙ ap (λ (m : ℕ). bit m x) i
bit-right (suc s) k zero x h = absurd (omega (arith, h))
bit-right (suc s) k (suc n) x h =
    let e : x / 2 ^ suc s ≡ x / 2 / 2 ^ s =
      ap (λ (p : ℕ). x / p) (omega (arith, pow-suc 2 s)) ∙ sym (div-div-eq-div-mul x 2 (2 ^ s)) in
    ap (bit k) e ∙ bit-right s k n (x / 2) (omega (arith, h))

-- The low digits.
pub bit-low : (w k x : ℕ) → k < w → bit k (x % 2 ^ w) ≡ bit k x
bit-low w k x h =
    let e : x ≡ x % 2 ^ w + x / 2 ^ w * 2 ^ w =
      omega (arith, mod-add-div x (2 ^ w), mul_comm (2 ^ w) (x / 2 ^ w)) in
    sym (ap (bit k) e ∙ bit-fields_low w k (x % 2 ^ w) (x / 2 ^ w) h)

pub bit_above : (w k x : ℕ) → x < 2 ^ w → w ≤ k → bit k x ≡ 0
bit_above zero k x h l = let e : x ≡ 0 = omega (arith, h) in ap (bit k) e ∙ bit-zero k
bit_above (suc w) zero x h l = absurd (omega (arith, l))
bit_above (suc w) (suc k) x h l =
    bit_above w k (x / 2) (omega (arith, h, pow-suc 2 w)) (omega (arith, l))

pub bit_mask : (w k : ℕ) → k < w → bit k (2 ^ w - 1) ≡ 1
bit_mask zero k h = absurd (omega (arith, h))
bit_mask (suc w) zero h = omega (arith, pow-suc 2 w, one-le-pow w 2)
bit_mask (suc w) (suc k) h =
    let e : (2 ^ suc w - 1) / 2 ≡ 2 ^ w - 1 = omega (arith, pow-suc 2 w, one-le-pow w 2) in
    ap (bit k) e ∙ bit_mask w k (omega (arith, h))

-- Two numbers below 2 ^ w with the same digits are the same.
pub same_bits : (w x y : ℕ) → x < 2 ^ w → y < 2 ^ w → ((k : ℕ) → k < w → bit k x ≡ bit k y) → x ≡ y
same_bits zero x y p q h = omega (arith, p, q)
same_bits (suc w) x y p q h =
    let halves : x / 2 ≡ y / 2 =
      same_bits w (x / 2) (y / 2) (omega (arith, p, pow-suc 2 w)) (omega (arith, q, pow-suc 2 w))
        (λ k l. h (suc k) (omega (arith, l))) in
    omega (arith, halves, h 0 (omega arith))
