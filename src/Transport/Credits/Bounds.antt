-- ===== src/Transport/Credits/Bounds.antt =====
-- What the byte budget promises: who is admitted, and how much is staged at a time.
use kvserve.Common.{
  ℕ, zero, suc, ◌+◌, ◌≤◌, ◌<◌, ◌≡◌, ◌≢◌, ◌↔◌, refl, false, Option, none, some, List, [], ◌∷◌,
  String, arith, if◌then◌else◌, max, str_eq, str_eq_iff, str_eq_refl, Option-cases, inl, inr, ◌⊎◌,
  get_elem?, erase_idx,
}
use kvserve.Transport.Credits.{Credits, init, contains, reserve, release, expect}
use kvserve.Transport.Credits.Staging.{
  Staging, Event, arrives, leaves, schedules, start, admitted, freed, step, run,
}

-- A payload is refused exactly when the buffer is in use, the payload does not fit in what is left
-- and the request is not scheduled or the one extra place is taken. So an empty buffer admits every
-- payload, however large.
pub reserve_refused :
    (rid : String) (n : ℕ) (c : Credits)
    → (reserve rid n c ≡ none) ↔ (
        (0 < c.reserved)
        × (c.capacity < c.reserved + n)
        × ((contains rid c.expected ≡ false) ⊎ (c.priority ≢ none)))
unfolding reserve
reserve_refused rid n c = (λ h. ground arith, λ h. ground arith)

-- The bytes that a request has staged.
abbrev pub amount : String → List (String × ℕ) → ℕ
amount r [] = 0
amount r (p ∷ ps) = (if str_eq p.0 r then p.1 else 0) + amount r ps

-- The bytes in the extra place.
abbrev pub extra : Staging → ℕ
extra s = elim s.credits.priority [ none ↦ 0 | some p ↦ amount p s.staged ]

-- No request has two payloads staged.
abbrev Distinct : List (String × ℕ) → Type 0
Distinct [] = Unit
Distinct (p ∷ ps) = (amount p.0 ps ≡ 0) × (0 < p.1) × Distinct ps

-- Every payload that arrives has between 1 and `largest` bytes, and its request has none staged.
abbrev pub IsSingle : ℕ → Staging → List Event → Type 0
IsSingle largest s [] = Unit
IsSingle largest s (arrives rid n ∷ es) =
    ((0 < n) × (n ≤ largest) × (amount rid s.staged ≡ 0))
    × IsSingle largest (step s (arrives rid n)) es
IsSingle largest s (e ∷ es) = IsSingle largest (step s e) es

amount-erase_idx :
    (q : String) (ps : List (String × ℕ)) (i : ℕ) {r : String} {n : ℕ}
    → get_elem? ps i ≡ some (r, n)
    → (if str_eq r q then n else 0) + amount q (erase_idx ps i) ≡ amount q ps
amount-erase_idx q [] i e = cc
amount-erase_idx q (p ∷ ps) zero e = ground arith
amount-erase_idx q (p ∷ ps) (suc i) e = omega (arith, amount-erase_idx q ps i e)

amount-erase_idx-le :
    (q : String) (ps : List (String × ℕ)) (i : ℕ) → amount q (erase_idx ps i) ≤ amount q ps
amount-erase_idx-le q [] i = omega arith
amount-erase_idx-le q (p ∷ ps) zero = omega arith
amount-erase_idx-le q (p ∷ ps) (suc i) = omega (arith, amount-erase_idx-le q ps i)

Distinct-erase_idx : (ps : List (String × ℕ)) (i : ℕ) → Distinct ps → Distinct (erase_idx ps i)
Distinct-erase_idx [] i d = tt
Distinct-erase_idx (p ∷ ps) zero d = d.2
Distinct-erase_idx (p ∷ ps) (suc i) d =
    (omega (arith, amount-erase_idx-le p.0 ps i), d.1, Distinct-erase_idx ps i d.2)

-- What a request has staged is its one payload.
amount_of_one :
    (ps : List (String × ℕ)) (i : ℕ) {r : String} {n : ℕ}
    → Distinct ps
    → get_elem? ps i ≡ some (r, n)
    → (amount r ps ≡ n) × (0 < n)
amount_of_one [] i d e = absurd (cc)
amount_of_one (p ∷ ps) zero {r} d e = ground (arith, str_eq_iff p.0 r)
amount_of_one (p ∷ ps) (suc i) {r} d e = ground (arith, amount_of_one ps i d.2 e, str_eq_iff p.0 r)

pub record IsBounded (largest capacity : ℕ) (s : Staging) : Type 0 where
  pub same : s.credits.capacity ≡ capacity
  pub within : s.credits.reserved ≤ max capacity largest + extra s
  pub small : extra s ≤ largest
  distinct : Distinct s.staged

module _ (largest capacity : ℕ) where
  arrives-IsBounded :
      (s : Staging) (rid : String) (n : ℕ)
      → 0 < n
      → n ≤ largest
      → amount rid s.staged ≡ 0
      → IsBounded largest capacity s
      → IsBounded largest capacity (admitted s rid n (reserve rid n s.credits))
  unfolding reserve
  arrives-IsBounded s rid n h le fresh b = elim (Option-cases s.credits.priority) [
    | inl e ↦ ground (arith, str_eq_refl rid)
    | inr (p, e) ↦ ground (arith, str_eq_iff rid p)
  ]

  leaves-IsBounded :
      (s : Staging) (i : ℕ) (r : Option (String × ℕ))
      → get_elem? s.staged i ≡ r
      → IsBounded largest capacity s
      → IsBounded largest capacity (freed s i r)
  unfolding release
  leaves-IsBounded s i none e b = b
  leaves-IsBounded s i (some (rid, n)) e b = elim (Option-cases s.credits.priority) [
    | inl none_taken ↦ record {
      same = ground arith;
      within = ground arith;
      small = ground arith;
      distinct = Distinct-erase_idx s.staged i b.distinct;
    }
    | inr (p, taken) ↦ record {
      same = ground arith;
      within = ground (
        arith,
        amount-erase_idx p s.staged i e,
        amount_of_one s.staged i b.distinct e,
        str_eq_iff p rid,
        str_eq_iff rid p,
      );
      small = ground (arith, amount-erase_idx p s.staged i e);
      distinct = Distinct-erase_idx s.staged i b.distinct;
    }
  ]

  step-IsBounded :
      (s : Staging) (e : Event) (es : List Event)
      → IsSingle largest s (e ∷ es)
      → IsBounded largest capacity s
      → IsBounded largest capacity (step s e) × IsSingle largest (step s e) es
  unfolding step expect
  step-IsBounded s (arrives rid n) es h b = (arrives-IsBounded s rid n h.0.0 h.0.1 h.0.2 b, h.1)
  step-IsBounded s (leaves i) es h b = (leaves-IsBounded s i _ refl b, h)
  step-IsBounded s (schedules rids) es h b =
      (record { same = b.same; within = b.within; small = b.small; distinct = b.distinct }, h)

  run-IsBounded :
      (es : List Event) (s : Staging)
      → IsSingle largest s es
      → IsBounded largest capacity s
      → IsBounded largest capacity (run s es)
  unfolding run
  run-IsBounded [] s h b = b
  run-IsBounded (e ∷ es) s h b =
      let (b', h') = step-IsBounded s e es h b in run-IsBounded es (step s e) h' b'

-- If every payload has between 1 and `largest` bytes and arrives while its request has none staged,
-- then at no time more is staged than the capacity, or one payload where that is larger, and one
-- extra payload.
pub run-start-bounded :
    (size largest : ℕ) (es : List Event)
    → IsSingle largest (start size) es
    → (run (start size) es).credits.reserved ≤ max (max 1 size) largest + largest
unfolding init
run-start-bounded size largest es h =
    let b = run-IsBounded largest (max 1 size) es (start size) h begin in
    omega (arith, b.within, b.small)
  where
    begin : IsBounded largest (max 1 size) (start size)
    begin = record { same = refl; within = omega arith; small = omega arith; distinct = tt }
