-- ===== src/Tokens/Sums.antt =====
-- The token counts of all chunks of a transfer.
use kvserve.Common.{
  some, sym, ℕ, zero, suc, ◌+◌, ◌-◌, ◌*◌, ◌/◌, ◌%◌, ◌≤◌, ◌<◌, ◌≡◌, min, refl, ap, ap₂, ◌∙◌, List,
  [], ◌∷◌, ◌==◌, false, arith,
}
use native.Mathlib.Nat.{mul_comm, mul-le-mul_right, lt-div-mul-add, div-mul-le_self, mul-sub}
use native.Mathlib.Decide.{dec_lt}
use kvserve.Tokens.{
  ℤ, pos, difference, subtract, minimum, times, suffix_count, chunk_count, total_chunks,
  chunk_window,
}

-- The token count of a chunk.
abbrev pub window_count : ℤ → ℕ → ℕ × ℤ × ℕ → ℤ
window_count valid block_size (start, count, part) = chunk_count valid block_size start count

-- The counts of the `m` chunks 2 k + part, 2 (k + 1) + part, ...
abbrev pub part_counts : ℤ → ℕ → ℕ → ℕ → ℕ → ℕ → ℕ → List ℤ
part_counts valid block_size blocks per_chunk part k zero = []
part_counts valid block_size blocks per_chunk part k (suc m) =
    window_count valid block_size (chunk_window (2 * k + part) blocks per_chunk)
    ∷ part_counts valid block_size blocks per_chunk part (suc k) m

abbrev pub sum : List ℕ → ℕ
sum [] = 0
sum (x ∷ xs) = x + sum xs

abbrev pub all_pos : List ℕ → List ℤ
all_pos [] = []
all_pos (x ∷ xs) = pos x ∷ all_pos xs

pub difference-le : (a b : ℕ) → b ≤ a → difference a b ≡ pos (a - b)
unfolding difference
difference-le a b h = ground (arith, h)

mul_add : (a b c : ℕ) → (a + b) * c ≡ a * c + b * c
mul_add a b c = omega arith

-- A chunk that begins with one of the blocks and one of the tokens.
window-pos :
    (valid block_size blocks per_chunk start : ℕ)
    → start ≤ blocks
    → start * block_size ≤ valid
    → chunk_count (pos valid) block_size start (minimum (pos per_chunk) (difference blocks start))
      ≡ pos (min (valid - start * block_size) (min per_chunk (blocks - start) * block_size))
unfolding chunk_count subtract minimum times
window-pos valid block_size blocks per_chunk start h l =
    rw (difference-le blocks start h, difference-le valid (start * block_size) l) refl

module _ (valid block_size blocks per_chunk : ℕ) (low : valid ≤ blocks * block_size)
    (high : blocks * block_size < valid + block_size) where
  begins : (start : ℕ) → start < blocks → start * block_size ≤ valid
  begins start h = omega (arith, mul-le-mul_right {m = suc start} {n = blocks} block_size h, high)

  -- A chunk from block `start`, not the last and the last.
  chunk_full :
      (start : ℕ)
      → start + per_chunk < blocks
      → chunk_count (pos valid) block_size start (minimum (pos per_chunk) (difference blocks start))
        ≡ pos (per_chunk * block_size)
  chunk_full start h =
      window-pos valid block_size blocks per_chunk start (omega (arith, h))
        (begins start (omega (arith, h)))
      ∙ ap pos (
          omega (
            arith,
            ap (λ (t : ℕ). t * block_size) {x = min per_chunk (blocks - start)} {y = per_chunk}
                (omega (arith, h)),
            begins (start + per_chunk) h,
            mul_add start per_chunk block_size,
          ))

  chunk_last :
      (start : ℕ)
      → start < blocks
      → blocks ≤ start + per_chunk
      → chunk_count (pos valid) block_size start (minimum (pos per_chunk) (difference blocks start))
        ≡ pos (valid - start * block_size)
  chunk_last start h l =
      window-pos valid block_size blocks per_chunk start (omega (arith, h)) (begins start h)
      ∙ ap pos (
          omega (
            arith,
            ap (λ (t : ℕ). t * block_size) {x = min per_chunk (blocks - start)} {y = blocks - start}
                (omega (arith, l)),
            low,
            begins start h,
            mul_rest start,
          ))
    where
      mul_rest :
          (start : ℕ) → (blocks - start) * block_size ≡ blocks * block_size - start * block_size
      mul_rest start = omega (
        arith,
        mul-sub block_size blocks start,
        mul_comm block_size (blocks - start),
        mul_comm block_size blocks,
        mul_comm block_size start,
      )

  module _ (rounds part : ℕ) (two : part < 2) (enough : blocks ≤ rounds * per_chunk)
      (needed : (k : ℕ) → k < rounds → k * per_chunk < blocks) where
    window_lem :
        (k : ℕ)
        → chunk_window (2 * k + part) blocks per_chunk
          ≡ (k * per_chunk, minimum (pos per_chunk) (difference blocks (k * per_chunk)), part)
    unfolding chunk_window
    window_lem k =
        let half : (2 * k + part) / 2 ≡ k = omega (arith, two) in
        let odd : (2 * k + part) % 2 ≡ part = omega (arith, two) in rw (half, odd) refl

    parts_sum :
        (k m : ℕ)
        → k < rounds
        → k + suc m ≡ rounds
        → (ks : List ℕ) × (part_counts (pos valid) block_size blocks per_chunk part k (suc m)
            ≡ all_pos ks)
          × (sum ks + k * per_chunk * block_size ≡ valid)
    parts_sum k zero h e =
        let last : rounds * per_chunk ≡ k * per_chunk + per_chunk =
          omega (arith, ap (λ (t : ℕ). t * per_chunk) e) in
        let there = begins (k * per_chunk) (needed k h) in
        (
          (valid - k * per_chunk * block_size) ∷ [],
          rw (window_lem k) (
              ap (λ (z : ℤ). z ∷ [])
                (chunk_last (k * per_chunk) (needed k h) (omega (arith, enough, last)))),
          omega (arith, there),
        )
    parts_sum k (suc m) h e =
        let (ks, same, adds) = parts_sum (suc k) m (omega (arith, e)) (omega (arith, e)) in
        let next : suc k * per_chunk ≡ k * per_chunk + per_chunk = omega arith in
        let full : k * per_chunk + per_chunk < blocks =
          omega (arith, needed (suc k) (omega (arith, e)), next) in
        (
          (per_chunk * block_size) ∷ ks,
          ap₂ ◌∷◌ (rw (window_lem k) (chunk_full (k * per_chunk) full)) same,
          omega (
            arith,
            adds,
            ap (λ (t : ℕ). t * block_size) next,
            mul_add (k * per_chunk) per_chunk block_size,
          ),
        )

    parts_from :
        0 < rounds
        → (ks : List ℕ) × (part_counts (pos valid) block_size blocks per_chunk part 0 rounds
            ≡ all_pos ks)
          × (sum ks ≡ valid)
    parts_from h =
        let one : suc (rounds - 1) ≡ rounds = omega (arith, h) in
        let (ks, same, adds) = parts_sum 0 (rounds - 1) h (omega (arith, h)) in
        (
          ks,
          ap (part_counts (pos valid) block_size blocks per_chunk part 0) (sym one) ∙ same,
          omega (arith, adds),
        )

positive : (rounds per_chunk blocks : ℕ) → blocks ≤ rounds * per_chunk → 0 < blocks → 0 < rounds
positive rounds per_chunk blocks e h = elim (dec_lt 0 rounds) [
  | yes p ↦ p
  | no p ↦
      absurd
        (omega (arith, e, h, ap (λ (t : ℕ). t * per_chunk) {x = rounds} {y = 0} (omega (arith, p))))
]

suffix_count-pos :
    (num_tokens block_size count : ℕ)
    → 0 < block_size
    → 0 < count
    → count ≤ (num_tokens + block_size - 1) / block_size
    → (v : ℕ) × (suffix_count num_tokens block_size count ≡ pos v)
      × (v + ((num_tokens + block_size - 1) / block_size - count) * block_size ≡ num_tokens)
      × (v ≤ count * block_size)
      × (count * block_size < v + block_size)
unfolding suffix_count
suffix_count-pos num_tokens block_size count h c l =
    let full = (num_tokens + block_size - 1) / block_size in
    let above : num_tokens ≤ full * block_size =
      omega (arith, lt-div-mul-add {a = num_tokens + block_size - 1} h) in
    let below : full * block_size < num_tokens + block_size =
      omega (arith, div-mul-le_self (num_tokens + block_size - 1) block_size, h) in
    let first : 1 * block_size ≤ count * block_size =
      mul-le-mul_right {m = 1} {n = count} block_size c in
    let all : count * block_size ≤ full * block_size = mul-le-mul_right block_size l in
    let apart : (full - count) * block_size ≡ full * block_size - count * block_size = omega (
      arith,
      mul-sub block_size full count,
      mul_comm block_size (full - count),
      mul_comm block_size full,
      mul_comm block_size count,
    ) in
    let some_blocks : (count == 0) ≡ false = ground (arith, c) in
    (
      num_tokens + count * block_size - full * block_size,
      rw some_blocks (
          difference-le (num_tokens + count * block_size) (full * block_size)
            (omega (arith, below, first))),
      omega (arith, apart, above, below, first, all),
      omega (arith, above),
      omega (arith, below, first),
    )

-- Where the transferred suffix has a block and no more blocks than the tokens fill, there are `rounds` chunks
-- of keys and as many of values; the token counts of each kind are not negative, and with the whole
-- blocks of the prefix they add up to the tokens.
pub chunks_cover :
    (num_tokens block_size count per_chunk part : ℕ)
    → 0 < block_size
    → 0 < per_chunk
    → 0 < count
    → count ≤ (num_tokens + block_size - 1) / block_size
    → part < 2
    → (rounds : ℕ) × (total_chunks count per_chunk ≡ some (rounds * 2))
      × (ks : List ℕ) × (part_counts
            (suffix_count num_tokens block_size count)
            block_size
            count
            per_chunk
            part
            0
            rounds
          ≡ all_pos ks)
      × (sum ks + ((num_tokens + block_size - 1) / block_size - count) * block_size ≡ num_tokens)
unfolding total_chunks
chunks_cover num_tokens block_size count per_chunk part b p c l two =
    let rounds = (count + per_chunk - 1) / per_chunk in
    let enough : count ≤ rounds * per_chunk =
      omega (arith, lt-div-mul-add {a = count + per_chunk - 1} p) in
    let tight : rounds * per_chunk < count + per_chunk =
      omega (arith, div-mul-le_self (count + per_chunk - 1) per_chunk, p) in
    let needed : (k : ℕ) → k < rounds → k * per_chunk < count =
      (λ k h. omega (arith, mul-le-mul_right {m = suc k} {n = rounds} per_chunk h, tight)) in
    let (v, is_v, whole, low, high) = suffix_count-pos num_tokens block_size count b c l in
    let (ks, same, adds) =
      parts_from v block_size count per_chunk low high rounds part two enough needed
        (positive rounds per_chunk count enough c) in
    (rounds, ground (arith, p), ks, rw is_v same, omega (arith, adds, whole))
