-- ===== src/Workspace/Cover.antt =====
-- How many blocks of a list hold a byte, and that the allocator's list operations move bytes
-- without losing or doubling one.
use kvserve.Common.{
  ℕ, zero, suc, ◌+◌, ◌-◌, ◌≤◌, ◌≡◌, refl, false, ◌&&◌, some, List, [], ◌∷◌, ◌++◌, arith, ltb, leb,
  ◌==◌, if◌then◌else◌, get_elem?, Bool-cases, inl, inr, ap, ==_iff,
}
use kvserve.Workspace.{
  Block, block_le, Workspace, delete, carve, insert, sort, merge_from, merge, release,
}

-- 1 if the block holds byte `x`.
unfoldable pub hits : ℕ → Block → ℕ
hits x b = if leb b.0 x && ltb x (b.0 + b.1) then 1 else 0

abbrev pub cover : ℕ → List Block → ℕ
cover x [] = 0
cover x (b ∷ bs) = hits x b + cover x bs

abbrev pub total : List Block → ℕ
total [] = 0
total (b ∷ bs) = b.1 + total bs

pub cover-append : (x : ℕ) (bs cs : List Block) → cover x (bs ++ cs) ≡ cover x bs + cover x cs
cover-append x [] cs = omega arith
cover-append x (b ∷ bs) cs = omega (arith, cover-append x bs cs)

pub total-append : (bs cs : List Block) → total (bs ++ cs) ≡ total bs + total cs
total-append [] cs = omega arith
total-append (b ∷ bs) cs = omega (arith, total-append bs cs)

cover-insert : (x : ℕ) (b : Block) (bs : List Block) → cover x (insert b bs) ≡ hits x b + cover x bs
unfolding insert
cover-insert x b [] = refl
cover-insert x b (c ∷ cs) = elim (Bool-cases (block_le b c)) [
  | inl e ↦ rw e
  | inr e ↦ rw e (omega (arith, cover-insert x b cs))
]

total-insert : (b : Block) (bs : List Block) → total (insert b bs) ≡ b.1 + total bs
unfolding insert
total-insert b [] = refl
total-insert b (c ∷ cs) = ground (arith, total-insert b cs)

pub cover-sort : (x : ℕ) (bs : List Block) → cover x (sort bs) ≡ cover x bs
unfolding sort
cover-sort x [] = refl
cover-sort x (b ∷ bs) = omega (arith, cover-insert x b (sort bs), cover-sort x bs)

-- Two blocks that touch hold what their union holds.
hits_join : (x o l m : ℕ) → hits x (o, l + m) ≡ hits x (o, l) + hits x (o + l, m)
unfolding hits
hits_join x o l m = ground arith

cover-merge_from :
    (x : ℕ) (b : Block) (bs : List Block) → cover x (merge_from b bs) ≡ hits x b + cover x bs
unfolding merge_from
cover-merge_from x (o, l) [] = refl
cover-merge_from x (o, l) ((p, m) ∷ rest) = elim (Bool-cases (o + l == p)) [
  | inl e ↦
      rw (e, merge_from)
        (rw (cover-merge_from x (o, l + m) rest, hits_join x o l m, (==_iff (o + l) p).0 e)
          (omega arith))
  | inr e ↦ rw (e, merge_from) (omega (arith, cover-merge_from x (p, m) rest))
]

total-merge_from : (b : Block) (bs : List Block) → total (merge_from b bs) ≡ b.1 + total bs
unfolding merge_from
total-merge_from (o, l) [] = refl
total-merge_from (o, l) ((p, m) ∷ rest) = elim (Bool-cases (o + l == p)) [
  | inl e ↦ rw (e, merge_from) (omega (arith, total-merge_from (o, l + m) rest))
  | inr e ↦ rw (e, merge_from) (omega (arith, total-merge_from (p, m) rest))
]

cover-merge : (x : ℕ) (bs : List Block) → cover x (merge bs) ≡ cover x bs
unfolding merge
cover-merge x [] = refl
cover-merge x (b ∷ bs) = cover-merge_from x b bs

total-sort : (bs : List Block) → total (sort bs) ≡ total bs
unfolding sort
total-sort [] = refl
total-sort (b ∷ bs) = omega (arith, total-insert b (sort bs), total-sort bs)

total-merge : (bs : List Block) → total (merge bs) ≡ total bs
unfolding merge
total-merge [] = refl
total-merge (b ∷ bs) = total-merge_from b bs

-- Releasing adds exactly the bytes of the block, whatever is sorted and merged on the way.
pub cover-release :
    (x : ℕ) (b : Block) (w : Workspace) → cover x (release b w).free ≡ cover x w.free + hits x b
unfolding release
cover-release x b w = omega (
  arith,
  cover-merge x (sort (w.free ++ (b ∷ []))),
  cover-sort x (w.free ++ (b ∷ [])),
  cover-append x w.free (b ∷ []),
)

pub total-release : (b : Block) (w : Workspace) → total (release b w).free ≡ total w.free + b.1
unfolding release
total-release b w = omega (
  arith,
  total-merge (sort (w.free ++ (b ∷ []))),
  total-sort (w.free ++ (b ∷ [])),
  total-append w.free (b ∷ []),
)

-- Deleting a block that is there removes its bytes.
pub cover-delete :
    (x i : ℕ) (bs : List Block) {b : Block}
    → get_elem? bs i ≡ some b
    → hits x b + cover x (delete i bs) ≡ cover x bs
unfolding delete
cover-delete x i [] h = cc
cover-delete x zero (c ∷ cs) {b} h = omega (arith, ap (hits x) (same h))
  where
    same : some c ≡ some b → c ≡ b
    same e = cc
cover-delete x (suc i) (c ∷ cs) h = omega (arith, cover-delete x i cs h)

total-delete :
    (i : ℕ) (bs : List Block) {b : Block}
    → get_elem? bs i ≡ some b
    → b.1 + total (delete i bs) ≡ total bs
unfolding delete
total-delete i [] h = cc
total-delete zero (c ∷ cs) h = ground arith
total-delete (suc i) (c ∷ cs) h = omega (arith, total-delete i cs h)

module _ (x size len index offset : ℕ) (free : List Block)
    (found : get_elem? free index ≡ some (offset, len)) (fits : size ≤ len) where
  -- What a carved block takes out of the free list is its own bytes.
  pub cover-carve :
      let (block, kept) = carve size (len, index, offset) free in
      hits x block + cover x kept ≡ cover x free
  unfolding carve
  cover-carve = elim (Bool-cases (ltb size len)) [
    | inl e ↦ rw e (
        omega (
          arith,
          cover-append x (delete index free) ((offset + size, len - size) ∷ []),
          cover-delete x index free found,
          hits_join x offset size (len - size),
          ap (λ l. hits x (offset, l)) split,
        ))
    | inr e ↦
        rw e
          (omega (arith, cover-delete x index free found, ap (λ l. hits x (offset, l)) (whole e)))
  ]
    where
      split : len ≡ size + (len - size)
      split = omega arith

      whole : ltb size len ≡ false → len ≡ size
      whole e = ground arith

  pub total-carve :
      let (block, kept) = carve size (len, index, offset) free in block.1 + total kept ≡ total free
  unfolding carve
  total-carve = elim (Bool-cases (ltb size len)) [
    | inl e ↦ rw e (
        omega (
          arith,
          total-append (delete index free) ((offset + size, len - size) ∷ []),
          total-delete index free found,
        ))
    | inr e ↦ rw e (ground (arith, total-delete index free found))
  ]
