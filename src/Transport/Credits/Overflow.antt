-- ===== src/Transport/Credits/Overflow.antt =====
-- The extra place is given back with any payload of its request. With several payloads of one request
-- in the buffer, as several sends under one key make them, the extra place can be taken again while
-- the payload that took it is still staged.
use kvserve.Common.{
  ℕ, zero, suc, ◌+◌, ◌*◌, ◌≤◌, ◌<◌, ◌≡◌, refl, ap, ap₂, ◌∙◌, Option, none, some, List, [], ◌∷◌,
  ◌++◌, String, arith, str_eq_refl, get_elem?, erase_idx, replicate,
}
use kvserve.Transport.Credits.{Credits, init, reserve, release, expect}
use kvserve.Transport.Credits.Staging.{Staging, Event, arrives, leaves, schedules, start, step, run}

module _ (rid : String) (n : ℕ) where
  -- A payload of `n` bytes takes the extra place, and a payload of one byte gives it back.
  abbrev pub rounds : ℕ → ℕ → List Event
  rounds j zero = []
  rounds j (suc m) = arrives rid n ∷ leaves (suc j) ∷ rounds (suc j) m

  abbrev pub filling : ℕ → List Event → List Event
  filling zero es = es
  filling (suc k) es = arrives rid 1 ∷ filling k es

  -- Fill the buffer with payloads of one byte, then let each make place for one of `n`.
  abbrev pub overflow : ℕ → List Event
  overflow capacity = schedules (rid ∷ []) ∷ filling capacity (rounds 0 capacity)

  abbrev pieces : ℕ → ℕ → List (String × ℕ)
  pieces j m = replicate j (rid, n) ++ replicate m (rid, 1)

  abbrev credits : ℕ → ℕ → Option String → Credits
  credits capacity reserved priority = record {
    capacity = capacity;
    reserved = reserved;
    expected = rid ∷ [];
    priority = priority;
  }

  abbrev mixed : ℕ → ℕ → ℕ → Staging
  mixed capacity j m = record { credits = credits capacity (j * n + m) none; staged = pieces j m }

  get-pieces : (j m : ℕ) → get_elem? (pieces j (suc m)) j ≡ some (rid, 1)
  get-pieces zero m = refl
  get-pieces (suc j) m = get-pieces j m

  erase-pieces : (j m : ℕ) → erase_idx (pieces j (suc m)) j ≡ pieces j m
  erase-pieces zero m = refl
  erase-pieces (suc j) m = ap (◌∷◌ (rid, n)) (erase-pieces j m)

  -- A payload that does not fit takes the extra place, if that is free.
  reserve-extra :
      (capacity reserved : ℕ)
      → 0 < reserved
      → capacity < reserved + n
      → reserve rid n (credits capacity reserved none)
        ≡ some (credits capacity (reserved + n) (some rid))
  unfolding reserve
  reserve-extra capacity reserved used over = ground (arith, str_eq_refl rid)

  release-one :
      (capacity reserved : ℕ)
      → release rid 1 (credits capacity (suc reserved) (some rid)) ≡ credits capacity reserved none
  unfolding release
  release-one capacity reserved = ground (arith, str_eq_refl rid)

  one_round :
      (capacity j m : ℕ)
      → capacity < j * n + suc m + n
      → step (step (mixed capacity j (suc m)) (arrives rid n)) (leaves (suc j))
        ≡ mixed capacity (suc j) m
  unfolding step
  one_round capacity j m over = rw (reserve-extra capacity (j * n + suc m) (omega arith) over) (
      rw (get-pieces j m) (
        ap₂ (λ c l. record { credits = c; staged = l })
          (ap (λ r. release rid 1 (credits capacity r (some rid))) more ∙ release-one capacity _)
          (ap (◌∷◌ (rid, n)) (erase-pieces j m))))
    where
      more : j * n + suc m + n ≡ suc (suc j * n + m)
      more = omega arith

  run-rounds :
      (capacity m j : ℕ)
      → 1 < n
      → capacity ≡ j + m
      → run (mixed capacity j m) (rounds j m) ≡ mixed capacity (j + m) 0
  unfolding run
  run-rounds capacity zero j big full = ap (λ k. mixed capacity k 0) (omega arith)
  run-rounds capacity (suc m) j big full =
      ap (λ s. run s (rounds (suc j) m)) (one_round capacity j m (over n big))
      ∙ run-rounds capacity m (suc j) big (omega arith)
      ∙ ap (λ k. mixed capacity k 0) (omega arith)
    where
      over : (n : ℕ) → 1 < n → capacity < j * n + suc m + n
      over zero h = absurd (omega arith)
      over (suc zero) h = absurd (omega arith)
      over (suc (suc b)) h = omega arith

  piece :
      (capacity m : ℕ)
      → m < capacity
      → step (mixed capacity 0 m) (arrives rid 1) ≡ mixed capacity 0 (suc m)
  unfolding step reserve
  piece capacity m h = ground arith

  run-filling :
      (capacity k m : ℕ) (es : List Event)
      → k + m ≤ capacity
      → run (mixed capacity 0 m) (filling k es) ≡ run (mixed capacity 0 (k + m)) es
  unfolding run step
  run-filling capacity zero m es h = ap (λ i. run (mixed capacity 0 i) es) (omega arith)
  run-filling capacity (suc k) m es h =
      ap (λ s. run s (filling k es)) (piece capacity m (omega arith))
      ∙ run-filling capacity k (suc m) es (omega arith)
      ∙ ap (λ i. run (mixed capacity 0 i) es) (omega arith)

  scheduled :
      (capacity : ℕ)
      → 0 < capacity
      → step (start capacity) (schedules (rid ∷ [])) ≡ mixed capacity 0 0
  unfolding step init expect
  scheduled capacity used = ground arith

  -- Whatever the capacity, as many payloads of `n` bytes as it has bytes are staged in the end, each
  -- of them by the extra place.
  pub run-overflow :
      (capacity : ℕ)
      → 0 < capacity
      → 1 < n
      → (run (start capacity) (overflow capacity)).credits.reserved ≡ capacity * n
  unfolding run
  run-overflow capacity used big =
      ap (λ s. s.credits.reserved)
        (ap (λ s. run s (filling capacity (rounds 0 capacity))) (scheduled capacity used)
          ∙ run-filling capacity capacity 0 (rounds 0 capacity) (omega arith)
          ∙ ap (λ m. run (mixed capacity 0 m) (rounds 0 capacity)) (omega arith)
          ∙ run-rounds capacity capacity 0 big (omega arith))
      ∙ (omega arith)
