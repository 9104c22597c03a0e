-- ===== src/Session/Ranks.antt =====
-- `handshake_target_ranks` of session_ipc.py: the remote ranks that a rank pairs with.
use kvserve.Common.{
  ℕ, zero, suc, ◌+◌, ◌*◌, ◌/◌, ◌≤◌, ◌<◌, ◌≡◌, ◌↔◌, ap, Bool, true, false, ◌||◌, Bool-cases, inl,
  inr, List, [], ◌∷◌, leb, ◌==◌, if◌then◌else◌, arith,
}
use native.Mathlib.Decide.{dec_lt}
use native.Mathlib.Nat.{
  mul-div_cancel, div-mul-le_self, lt-div-mul-add, div-eq_of_lt-le, div_self, div-one,
  mul-le-mul_right,
}

-- [base + index, base + index + 1, ...], `n` of them.
unfoldable pub ranks : ℕ → ℕ → ℕ → List ℕ
ranks base index zero = []
ranks base index (suc n) = (base + index) ∷ ranks base (suc index) n

unfoldable pub handshake_target_ranks : ℕ → ℕ → ℕ → List ℕ
handshake_target_ranks tp_rank tp_size remote_tp_size =
    let ratio = remote_tp_size / tp_size in
    if leb remote_tp_size tp_size
    then (tp_rank / (tp_size / remote_tp_size)) ∷ []
    else ranks (tp_rank * ratio) 0 ratio

abbrev pub is_target : ℕ → List ℕ → Bool
is_target r [] = false
is_target r (rank ∷ rest) = (rank == r) || is_target r rest

is_target-ranks :
    (r base index n : ℕ)
    → base + index ≤ r
    → r < base + index + n
    → is_target r (ranks base index n) ≡ true
unfolding ranks
is_target-ranks r base index zero h k = absurd (omega (arith, h, k))
is_target-ranks r base index (suc n) h k = elim (Bool-cases (base + index == r)) [
  | inl e ↦ ground (arith, e)
  | inr e ↦
      ground
        (arith, e, is_target-ranks r base (suc index) n (ground (arith, h, e)) (omega (arith, k)))
]

ranks-is_target :
    (r base index n : ℕ)
    → is_target r (ranks base index n) ≡ true
    → (base + index ≤ r) × (r < base + index + n)
unfolding ranks
ranks-is_target r base index zero h = absurd (ground (arith, h))
ranks-is_target r base index (suc n) h = elim (Bool-cases (base + index == r)) [
  | inl e ↦ (ground (arith, e), ground (arith, e))
  | inr e ↦
      let (a, b) = ranks-is_target r base (suc index) n (ground (arith, h, e)) in
      (omega (arith, a), omega (arith, b))
]

-- The side with more ranks: each has one target.
target-one :
    (ratio few t : ℕ)
    → 0 < ratio
    → 0 < few
    → handshake_target_ranks t (ratio * few) few ≡ (t / ratio) ∷ []
unfolding handshake_target_ranks
target-one ratio few t h k = rw (mul-div_cancel ratio k) (ground (arith, mul-le-mul_right few h))

-- The side with fewer ranks: each has as many targets as there are ranks for one.
target-many :
    (ratio few r : ℕ)
    → 1 < ratio
    → 0 < few
    → handshake_target_ranks r few (ratio * few) ≡ ranks (r * ratio) 0 ratio
unfolding handshake_target_ranks
target-many ratio few r h k = rw (mul-div_cancel ratio k) (ground (arith, mul-le-mul_right few h))

target-same : (few r : ℕ) → 0 < few → handshake_target_ranks r few (1 * few) ≡ r ∷ []
unfolding handshake_target_ranks
target-same few r k = same (1 * few) (omega arith)
  where
    same : (many : ℕ) → many ≡ few → handshake_target_ranks r few many ≡ r ∷ []
    same many e = rw (e, div_self k, div-one r) (ground arith)

quotient-ranks :
    (ratio t r : ℕ) → 0 < ratio → t / ratio ≡ r → is_target t (ranks (r * ratio) 0 ratio) ≡ true
quotient-ranks ratio t r h e =
    is_target-ranks t (r * ratio) 0 ratio
      (omega (arith, ap (λ q. q * ratio) e, div-mul-le_self t ratio))
      (omega (arith, ap (λ q. q * ratio) e, lt-div-mul-add {a = t} h))

ranks-quotient :
    (ratio t r : ℕ) → 0 < ratio → is_target t (ranks (r * ratio) 0 ratio) ≡ true → t / ratio ≡ r
ranks-quotient ratio t r h e =
    let (low, high) = ranks-is_target t (r * ratio) 0 ratio e in
    div-eq_of_lt-le ratio (omega (arith, low)) (omega (arith, high))

-- Where one side has `ratio` times as many ranks as the other, each side computes the same pairs: `r` is a
-- target of `t` exactly when `t` is a target of `r`.
pub handshake-pairs :
    (ratio few t r : ℕ)
    → 0 < ratio
    → 0 < few
    → (is_target r (handshake_target_ranks t (ratio * few) few) ≡ true)
      ↔ (is_target t (handshake_target_ranks r few (ratio * few)) ≡ true)
handshake-pairs ratio few t r h k = elim (dec_lt 1 ratio) [
  | yes p ↦
      rw (target-one ratio few t h k, target-many ratio few r p k)
        (
          λ e. quotient-ranks ratio t r h (ground (arith, e)),
          λ e. ground (arith, ranks-quotient ratio t r h e),
        )
  | no p ↦ one (omega (arith, h, p))
]
  where
    one :
        ratio ≡ 1
        → (is_target r (handshake_target_ranks t (ratio * few) few) ≡ true)
          ↔ (is_target t (handshake_target_ranks r few (ratio * few)) ≡ true)
    one e =
        rw (e, target-one 1 few t (omega arith) k, target-same few r k, div-one t)
          (λ c. ground (arith, c), λ c. ground (arith, c))
