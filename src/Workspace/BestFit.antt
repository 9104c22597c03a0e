-- ===== src/Workspace/BestFit.antt =====
-- `__call__` takes the shortest free block that is long enough, the first of equals, and raises only
-- where no block is.
use kvserve.Common.{
  ℕ, zero, suc, ◌+◌, ◌≤◌, ◌<◌, ◌≡◌, refl, ◌⊎◌, inl, inr, true, false, Option, none, some, List, [],
  ◌∷◌, subst, sym, arith, leb, get_elem?, All, Bool-cases, leb→le, le→leb,
}
use kvserve.Workspace.{
  Block, Candidate, Workspace, round_up, alignment, candidates, lex_lt, min_from, minimum, carve,
  alloc,
}

-- A candidate stands for an entry of the free list that is long enough.
abbrev Fits : ℕ → ℕ → List Block → Candidate → Type 0
Fits size index free c =
    (j : ℕ) × (c.1 ≡ index + j) × (get_elem? free j ≡ some (c.2, c.0)) × (size ≤ c.0)

All-shift :
    (size index : ℕ) (b : Block) (free : List Block) (cs : List Candidate)
    → All (Fits size (index + 1) free) cs
    → All (Fits size index (b ∷ free)) cs
All-shift size index b free [] h = tt
All-shift size index b free (c ∷ cs) h =
    ((suc h.0.0, omega arith, h.0.2, h.0.3), All-shift size index b free cs h.1)

candidates-Fits :
    (size index : ℕ) (free : List Block) → All (Fits size index free) (candidates size index free)
unfolding candidates
candidates-Fits size index [] = tt
candidates-Fits size index ((o, l) ∷ free) =
    let later =
      All-shift size index (o, l) free (candidates size (index + 1) free)
        (candidates-Fits size (index + 1) free) in
    elim (Bool-cases (leb size l)) [
      | inl e ↦ rw e ((0, omega arith, refl, leb→le size l e), later)
      | inr e ↦ rw e later
    ]

-- Every entry that is long enough is a candidate.
candidates_complete {ℓ} :
    (Q : Candidate → Type ℓ) (size index : ℕ) (free : List Block)
    → All Q (candidates size index free)
    → (j : ℕ) (b : Block) → get_elem? free j ≡ some b
    → size ≤ b.1
    → Q (b.1, index + j, b.0)
unfolding candidates
candidates_complete Q size index [] h j b e fits = cc
candidates_complete Q size index ((o, l) ∷ free) h zero b e fits =
    let same : (o, l) ≡ b = cc in
    subst (λ (c : Block). Q (c.1, index + 0, c.0)) same
      (subst (λ k. Q (l, k, o)) {x = index} (omega arith) (opened (le→leb size l (ground arith))))
  where
    opened : leb size l ≡ true → Q (l, index, o)
    opened t = (rw t at h).0
candidates_complete Q size index ((o, l) ∷ free) h (suc j) b e fits =
    subst (λ k. Q (b.1, k, b.0)) (omega arith)
      (candidates_complete Q size (index + 1) free later j b e fits)
  where
    later : All Q (candidates size (index + 1) free)
    later = elim (Bool-cases (leb size l)) [ inl t ↦ (rw t at h).1 | inr t ↦ (rw t at h) ]

-- The first component less, or equal and the second not greater.
abbrev pub Before : ℕ → ℕ → ℕ → ℕ → Type 0
Before a i b j = (a < b) ⊎ ((a ≡ b) × (i ≤ j))

Before-trans : {a i b j c k : ℕ} → Before a i b j → Before b j c k → Before a i c k
Before-trans p q = ground arith

lex_lt-Before : (c d : Candidate) → lex_lt c d ≡ true → Before c.0 c.1 d.0 d.1
unfolding lex_lt
lex_lt-Before (a, b, c) (x, y, z) h = ground arith

not-lex_lt-Before : (c d : Candidate) → lex_lt c d ≡ false → Before d.0 d.1 c.0 c.1
unfolding lex_lt
not-lex_lt-Before (a, b, c) (x, y, z) h = ground arith

abbrev Least : Candidate → List Candidate → Type 0
Least m = All (λ c. Before m.0 m.1 c.0 c.1)

min_from-step :
    (best c : Candidate) (cs : List Candidate)
    → ((lex_lt c best ≡ true) × (min_from best (c ∷ cs) ≡ min_from c cs))
      ⊎ ((lex_lt c best ≡ false) × (min_from best (c ∷ cs) ≡ min_from best cs))
unfolding min_from
min_from-step best c cs = elim (Bool-cases (lex_lt c best)) [
  | inl e ↦ inl (e, rw (e, min_from))
  | inr e ↦ inr (e, rw (e, min_from))
]

min_from-Least : (best : Candidate) (cs : List Candidate) → Least (min_from best cs) (best ∷ cs)
unfolding min_from
min_from-Least best [] = (inr (refl, omega arith), tt)
min_from-Least best (c ∷ cs) =
    let first = min_from-Least c cs in
    let kept = min_from-Least best cs in
    elim (min_from-step best c cs) [
      | inl (e, p) ↦
          subst (λ m. Least m (best ∷ c ∷ cs)) (sym p)
            (Before-trans first.0 (lex_lt-Before c best e), first)
      | inr (e, p) ↦
          subst (λ m. Least m (best ∷ c ∷ cs)) (sym p)
            (kept.0, (Before-trans kept.0 (not-lex_lt-Before c best e), kept.1))
    ]

min_from-All {ℓ} :
    (P : Candidate → Type ℓ) (best : Candidate) (cs : List Candidate)
    → All P (best ∷ cs)
    → P (min_from best cs)
unfolding min_from
min_from-All P best [] h = h.0
min_from-All P best (c ∷ cs) h = elim (Bool-cases (lex_lt c best)) [
  | inl e ↦ rw (e, min_from) (min_from-All P c cs h.1)
  | inr e ↦ rw (e, min_from) (min_from-All P best cs (h.0, h.1.1))
]

-- What `__call__` returns on each branch: it raises when every free block is too short; otherwise
-- it carves from the entry `index` of the free list, which is long enough, no longer than any other
-- that is, and the first of that length.
pub data Outcome (nbytes : ℕ) (w : Workspace) : Option (Block × Workspace) → Type 0 where
  raises :
      ((j : ℕ) (b : Block) → get_elem? w.free j ≡ some b → b.1 < round_up nbytes alignment)
      → Outcome nbytes w none
  carves :
      (len index offset : ℕ)
      → get_elem? w.free index ≡ some (offset, len)
      → round_up nbytes alignment ≤ len
      → ((j : ℕ) (b : Block)
          → get_elem? w.free j ≡ some b
          → round_up nbytes alignment ≤ b.1
          → Before len index b.1 j)
      → Outcome nbytes w (
          some (
            (offset, round_up nbytes alignment),
            record w { free = (carve (round_up nbytes alignment) (len, index, offset) w.free).1 },
          ))

module _ (nbytes : ℕ) (w : Workspace) where
  need : ℕ
  need = round_up nbytes alignment

  no_candidates :
      candidates need 0 w.free ≡ [] → (j : ℕ) (b : Block) → get_elem? w.free j ≡ some b → b.1 < need
  no_candidates e j b found = elim (Bool-cases (leb need b.1)) [
    | inl t ↦ absurd (
        candidates_complete (λ _. ⊥) need 0 w.free (subst (All (λ _. ⊥)) (sym e) tt) j b found
          (leb→le need b.1 t))
    | inr t ↦ ground arith
  ]

  chosen :
      (c : Candidate) (cs : List Candidate)
      → candidates need 0 w.free ≡ c ∷ cs
      → Outcome nbytes w (
          some (
            (carve need (min_from c cs) w.free).0,
            record w { free = (carve need (min_from c cs) w.free).1 },
          ))
  unfolding need carve
  chosen c cs e =
      let best = min_from c cs in
      let (j, at, found, fits) =
        min_from-All (Fits need 0 w.free) c cs
          (subst (All (Fits need 0 w.free)) e (candidates-Fits need 0 w.free)) in
      carves best.0 best.1 best.2
        (subst (λ k. get_elem? w.free k ≡ some (best.2, best.0)) (omega arith) found) fits
        (λ k b h f. subst (Before best.0 best.1 b.1) (omega arith) (
          candidates_complete (λ d. Before best.0 best.1 d.0 d.1) need 0 w.free
            (subst (Least best) (sym e) (min_from-Least c cs)) k b h f))

  alloc_by_candidates :
      (cs : List Candidate) → candidates need 0 w.free ≡ cs → Outcome nbytes w (alloc nbytes w)
  unfolding alloc minimum need
  alloc_by_candidates [] e = rw (e, alloc, minimum) (raises (no_candidates e))
  alloc_by_candidates (c ∷ cs) e = rw (e, alloc, minimum) (chosen c cs e)

-- `__call__` behaves as `Outcome` says, for every free list and every request.
pub alloc-Outcome : (nbytes : ℕ) (w : Workspace) → Outcome nbytes w (alloc nbytes w)
unfolding need
alloc-Outcome nbytes w =
    alloc_by_candidates nbytes w (candidates (round_up nbytes alignment) 0 w.free) refl
