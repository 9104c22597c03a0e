-- ===== src/Session/Totals.antt =====
-- Sums of a weight over the tasks, and how one task's change shows in them.
use kvserve.Common.{
  ℕ, zero, suc, ◌+◌, ◌≤◌, ◌<◌, ◌≡◌, refl, Bool, true, false, ◌==◌, List, [], ◌∷◌, ◌++◌, arith,
}
use native.Mathlib.Decide.{dec_lt}
use kvserve.Session.State.{Task, queued, encoding, draining, update}

abbrev pub total {ℓ} : {A : Type ℓ} → (A → ℕ) → (ℕ → A) → ℕ → ℕ
total w f zero = 0
total w f (suc n) = w (f n) + total w f n

module _ {ℓ} {A : Type ℓ} (w : A → ℕ) (f : ℕ → A) where
  total-update_above : (t : ℕ) (v : A) (n : ℕ) → n ≤ t → total w (update f t v) n ≡ total w f n
  total-update_above t v zero h = refl
  total-update_above t v (suc n) h = ground (arith, total-update_above t v n (omega (arith, h)))

  pub total-update :
      (t : ℕ) (v : A) (n : ℕ) → t < n → total w (update f t v) n + w (f t) ≡ total w f n + w v
  total-update t v zero h = absurd (omega (arith, h))
  total-update t v (suc n) h = elim (dec_lt t n) [
    | yes p ↦ ground (arith, total-update t v n p)
    | no p ↦ here (omega (arith, h, p))
  ]
    where
      here : n ≡ t → total w (update f t v) (suc n) + w (f t) ≡ total w f (suc n) + w v
      here e = ground (arith, total-update_above t v n (omega (arith, e)))

  pub total-update_last : (v : A) (n : ℕ) → total w (update f n v) (suc n) ≡ total w f n + w v
  total-update_last v n = ground (arith, total-update_above n v n (omega arith))

  pub total-at : (t n : ℕ) → t < n → w (f t) ≤ total w f n
  total-at t zero h = absurd (omega (arith, h))
  total-at t (suc n) h = elim (dec_lt t n) [
    | yes p ↦ omega (arith, total-at t n p)
    | no p ↦ here (omega (arith, h, p))
  ]
    where
      here : n ≡ t → w (f t) ≤ total w f (suc n)
      here e = rw e (omega arith)

abbrev pub one_if : Bool → ℕ
one_if true = 1
one_if false = 0

abbrev pub count : ℕ → List ℕ → ℕ
count x [] = 0
count x (y ∷ ys) = one_if (y == x) + count x ys

pub count-append : (x : ℕ) (xs ys : List ℕ) → count x (xs ++ ys) ≡ count x xs + count x ys
count-append x [] ys = omega arith
count-append x (y ∷ xs) ys = omega (arith, count-append x xs ys)

-- The task has this slot.
abbrev pub holds : ℕ → Task → ℕ
holds x (encoding key op i slot) = one_if (slot == x)
holds x (draining key op i slot) = one_if (slot == x)
holds x other = 0

-- The task is a chunk of this session in flight.
abbrev pub serves : ℕ → Task → ℕ
serves k (queued key op i) = one_if (i == k)
serves k (encoding key op i slot) = one_if (i == k)
serves k (draining key op i slot) = one_if (i == k)
serves k other = 0
