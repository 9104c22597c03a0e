-- ===== src/Scores/Tables.antt =====
-- Dictionaries, ranges and masks of scores.py.
use kvserve.Common.{
  ℕ, zero, suc, ◌+◌, ◌≤◌, ◌<◌, ◌≡◌, refl, ap, Bool, true, false, Option, none, some, List, [], ◌∷◌,
  ◌++◌, length, ◌==◌, if◌then◌else◌, Bool-cases, inl, inr, arith,
}
use kvserve.Scores.{put, range, low_heads, high_heads, set_true}

module _ {ℓ} {A : Type ℓ} where
  abbrev pub lookup : ℕ → List (ℕ × A) → Option A
  lookup key [] = none
  lookup key ((k, a) ∷ rest) = if key == k then some a else lookup key rest

  pub lookup-put_same : (key : ℕ) (a : A) (d : List (ℕ × A)) → lookup key (put key a d) ≡ some a
  unfolding put
  lookup-put_same key a [] = ground arith
  lookup-put_same key a ((k, b) ∷ rest) = ground (arith, lookup-put_same key a rest)

  pub lookup-put_other :
      (key other : ℕ) (a : A) (d : List (ℕ × A))
      → (other == key) ≡ false
      → lookup other (put key a d) ≡ lookup other d
  unfolding put
  lookup-put_other key other a [] h = ground (arith, h)
  lookup-put_other key other a ((k, b) ∷ rest) h =
      ground (arith, h, lookup-put_other key other a rest h)

-- How often a number stands in a list.
abbrev pub count : ℕ → List ℕ → ℕ
count h [] = 0
count h (x ∷ xs) = (if h == x then 1 else 0) + count h xs

pub count-append : (h : ℕ) (xs ys : List ℕ) → count h (xs ++ ys) ≡ count h xs + count h ys
count-append h [] ys = omega arith
count-append h (x ∷ xs) ys = omega (arith, count-append h xs ys)

-- Both kinds of heads of a mask, from index `i` on.
kinds_below :
    (i h : ℕ) (mask : List Bool)
    → h < i
    → count h (low_heads i mask) + count h (high_heads i mask) ≡ 0
unfolding low_heads high_heads
kinds_below i h [] l = refl
kinds_below i h (true ∷ mask) l = ground (arith, l, kinds_below (suc i) h mask (omega (arith, l)))
kinds_below i h (false ∷ mask) l = ground (arith, l, kinds_below (suc i) h mask (omega (arith, l)))

pub kinds_once :
    (i h : ℕ) (mask : List Bool)
    → i ≤ h
    → h < i + length mask
    → count h (low_heads i mask) + count h (high_heads i mask) ≡ 1
unfolding low_heads high_heads
kinds_once i h [] l m = absurd (omega (arith, l, m))
kinds_once i h (true ∷ mask) l m = elim (Bool-cases (h == i)) [
  | inl e ↦ ground (arith, e, kinds_below (suc i) h mask (ground (arith, e)))
  | inr e ↦ ground (arith, e, kinds_once (suc i) h mask (ground (arith, e, l)) (omega (arith, m)))
]
kinds_once i h (false ∷ mask) l m = elim (Bool-cases (h == i)) [
  | inl e ↦ ground (arith, e, kinds_below (suc i) h mask (ground (arith, e)))
  | inr e ↦ ground (arith, e, kinds_once (suc i) h mask (ground (arith, e, l)) (omega (arith, m)))
]

pub kinds_length :
    (i : ℕ) (mask : List Bool)
    → length (low_heads i mask) + length (high_heads i mask) ≡ length mask
unfolding low_heads high_heads
kinds_length i [] = refl
kinds_length i (true ∷ mask) = omega (arith, kinds_length (suc i) mask)
kinds_length i (false ∷ mask) = omega (arith, kinds_length (suc i) mask)

pub length-set_true : (i : ℕ) (mask : List Bool) → length (set_true i mask) ≡ length mask
unfolding set_true
length-set_true i [] = refl
length-set_true zero (b ∷ mask) = refl
length-set_true (suc i) (b ∷ mask) = ap suc (length-set_true i mask)

pub length-range : (start n : ℕ) → length (range start n) ≡ n
unfolding range
length-range start zero = refl
length-range start (suc n) = ap suc (length-range (suc start) n)

range_below : (start n h : ℕ) → h < start → count h (range start n) ≡ 0
unfolding range
range_below start zero h l = refl
range_below start (suc n) h l = ground (arith, l, range_below (suc start) n h (omega (arith, l)))

pub range_once : (start n h : ℕ) → start ≤ h → h < start + n → count h (range start n) ≡ 1
unfolding range
range_once start zero h l m = absurd (omega (arith, l, m))
range_once start (suc n) h l m = elim (Bool-cases (h == start)) [
  | inl e ↦ ground (arith, e, range_below (suc start) n h (ground (arith, e)))
  | inr e ↦ ground (arith, e, range_once (suc start) n h (ground (arith, e, l)) (omega (arith, m)))
]
