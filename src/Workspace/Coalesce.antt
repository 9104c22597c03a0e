-- ===== src/Workspace/Coalesce.antt =====
-- What `release` leaves: sorted free blocks of positive length with a gap between any two.
use kvserve.Common.{
  ℕ, suc, ◌+◌, ◌≤◌, ◌<◌, ◌≡◌, refl, inl, inr, true, false, List, [], ◌∷◌, ◌++◌, arith, ltb, ◌==◌,
  if◌then◌else◌, All, All-append, Bool-cases, subst, ap, ◌-◌,
}
use kvserve.Workspace.{Block, Workspace, block_le, insert, sort, merge_from, merge, release}
use kvserve.Workspace.Cover.{hits, cover, cover-append, cover-sort}

abbrev pub Positive : List Block → Type 0
Positive = All (λ b. 0 < b.1)

abbrev SortedFrom : ℕ → List Block → Type 0
SortedFrom k [] = Unit
SortedFrom k (b ∷ bs) = (k ≤ b.0) × SortedFrom b.0 bs

-- Sorted, and no two blocks overlap.
abbrev SpacedFrom : ℕ → List Block → Type 0
SpacedFrom k [] = Unit
SpacedFrom k (b ∷ bs) = (k ≤ b.0) × (0 < b.1) × SpacedFrom (b.0 + b.1) bs

-- Sorted, and no two blocks overlap or touch.
abbrev pub GappedFrom : ℕ → List Block → Type 0
GappedFrom k [] = Unit
GappedFrom k (b ∷ bs) = (k ≤ b.0) × (0 < b.1) × GappedFrom (suc (b.0 + b.1)) bs

SortedFrom-le : (j k : ℕ) (bs : List Block) → j ≤ k → SortedFrom k bs → SortedFrom j bs
SortedFrom-le j k [] h s = tt
SortedFrom-le j k (b ∷ bs) h s = (omega arith, s.1)

insert-SortedFrom :
    (k : ℕ) (b : Block) (bs : List Block) → k ≤ b.0 → SortedFrom k bs → SortedFrom k (insert b bs)
unfolding insert
insert-SortedFrom k b [] h s = (h, tt)
insert-SortedFrom k b (c ∷ cs) h s = elim (Bool-cases (block_le b c)) [
  | inl e ↦ rw e ((h, (le_of_test e, s.1)))
  | inr e ↦ rw e ((s.0, insert-SortedFrom c.0 b cs (le_of_not_test e) s.1))
]
  where
    le_of_test : block_le b c ≡ true → b.0 ≤ c.0
    le_of_test e = ground arith

    le_of_not_test : block_le b c ≡ false → c.0 ≤ b.0
    le_of_not_test e = ground arith

insert-Positive : (b : Block) (bs : List Block) → 0 < b.1 → Positive bs → Positive (insert b bs)
unfolding insert
insert-Positive b [] h p = (h, tt)
insert-Positive b (c ∷ cs) h p = elim (Bool-cases (block_le b c)) [
  | inl e ↦ rw e ((h, p))
  | inr e ↦ rw e ((p.0, insert-Positive b cs h p.1))
]

sort-SortedFrom : (bs : List Block) → SortedFrom 0 (sort bs)
unfolding sort
sort-SortedFrom [] = tt
sort-SortedFrom (b ∷ bs) = insert-SortedFrom 0 b (sort bs) (omega arith) (sort-SortedFrom bs)

sort-Positive : (bs : List Block) → Positive bs → Positive (sort bs)
unfolding sort
sort-Positive [] p = tt
sort-Positive (b ∷ bs) p = insert-Positive b (sort bs) p.0 (sort-Positive bs p.1)

-- Two positive blocks in order that share no byte do not overlap.
no_overlap : (b c : Block) → b.0 ≤ c.0 → 0 < c.1 → hits c.0 b + hits c.0 c ≤ 1 → b.0 + b.1 ≤ c.0
unfolding hits
no_overlap (o, l) (p, m) s h one = ground arith

SpacedFrom-of_cover :
    (k : ℕ) (bs : List Block)
    → SortedFrom k bs
    → Positive bs
    → ((x : ℕ) → cover x bs ≤ 1)
    → SpacedFrom k bs
SpacedFrom-of_cover k [] s p one = tt
SpacedFrom-of_cover k (b ∷ []) s p one = (s.0, p.0, tt)
SpacedFrom-of_cover k (b ∷ c ∷ bs) s p one = (
  s.0,
  p.0,
  SpacedFrom-of_cover (b.0 + b.1) (c ∷ bs) (apart, s.1.1) p.1 (λ x. omega (arith, one x)),
)
  where
    apart : b.0 + b.1 ≤ c.0
    apart = no_overlap b c s.1.0 p.1.0 (omega (arith, one c.0))

merge_from-GappedFrom :
    (k o l : ℕ) (bs : List Block)
    → k ≤ o
    → 0 < l
    → SpacedFrom (o + l) bs
    → GappedFrom k (merge_from (o, l) bs)
unfolding merge_from
merge_from-GappedFrom k o l [] h p s = (h, p, tt)
merge_from-GappedFrom k o l ((q, m) ∷ bs) h p s = elim (Bool-cases (o + l == q)) [
  | inl e ↦
      rw (e, merge_from)
        (merge_from-GappedFrom k o (l + m) bs h (omega arith)
          (subst (λ i. SpacedFrom i bs) (joined e) s.2))
  | inr e ↦
      rw (e, merge_from) ((h, p, merge_from-GappedFrom (suc (o + l)) q m bs (ground arith) s.1 s.2))
]
  where
    joined : (o + l == q) ≡ true → q + m ≡ o + (l + m)
    joined e = ground arith

-- A release into blocks of positive length that share no byte leaves gapped blocks.
pub release-GappedFrom :
    (b : Block) (w : Workspace)
    → 0 < b.1
    → Positive w.free
    → ((x : ℕ) → cover x w.free + hits x b ≤ 1)
    → GappedFrom 0 (release b w).free
unfolding release merge
release-GappedFrom b w h p one =
    merged (sort all) (sort-SortedFrom all) (sort-Positive all positive)
      λ x. omega (arith, one x, cover-sort x all, cover-append x w.free (b ∷ []))
  where
    all : List Block
    all = w.free ++ (b ∷ [])

    positive : Positive all
    positive = All-append (λ b. 0 < b.1) w.free (b ∷ []) p (h, tt)

    merged :
        (bs : List Block)
        → SortedFrom 0 bs
        → Positive bs
        → ((x : ℕ) → cover x bs ≤ 1)
        → GappedFrom 0 (merge bs)
    merged [] s p one = tt
    merged ((o, l) ∷ bs) s p one =
        let spaced = SpacedFrom-of_cover 0 ((o, l) ∷ bs) s p one in
        merge_from-GappedFrom 0 o l bs (omega arith) p.0 spaced.2

pub GappedFrom-Positive : (k : ℕ) (bs : List Block) → GappedFrom k bs → Positive bs
GappedFrom-Positive k [] g = tt
GappedFrom-Positive k (b ∷ bs) g = (g.1, GappedFrom-Positive (suc (b.0 + b.1)) bs g.2)

cover_below : (x k : ℕ) (bs : List Block) → x < k → GappedFrom k bs → cover x bs ≡ 0
unfolding hits
cover_below x k [] h g = refl
cover_below x k ((o, l) ∷ bs) h g =
    let rest : cover x bs ≡ 0 = cover_below x (suc (o + l)) bs (omega arith) g.2 in ground arith

module _ (size o l : ℕ) (bs : List Block) (large : 0 < size) (g : GappedFrom 0 ((o, l) ∷ bs))
    (all : (x : ℕ) → cover x ((o, l) ∷ bs) ≡ (if ltb x size then 1 else 0)) where
  -- The first of such blocks is the whole buffer.
  first_block : (o ≡ 0) × (l ≡ size)
  unfolding hits
  first_block =
      let low : cover 0 bs ≡ 0 = cover_below 0 (suc (o + l)) bs (omega arith) g.2 in
      let end : cover (o + l) bs ≡ 0 = cover_below (o + l) (suc (o + l)) bs (omega arith) g.2 in
      let before : cover (o + l - 1) bs ≡ 0 =
        cover_below (o + l - 1) (suc (o + l)) bs (omega arith) g.2 in
      ground (arith, all 0, all (o + l), all (o + l - 1))

  no_second : (p m : ℕ) (rest : List Block) → bs ≡ (p, m) ∷ rest → ⊥
  unfolding hits
  no_second p m rest e =
      let g' : GappedFrom (suc (o + l)) ((p, m) ∷ rest) = subst (GappedFrom (suc (o + l))) e g.2 in
      let at : cover p bs ≡ cover p ((p, m) ∷ rest) = ap (cover p) e in
      ground (arith, all p, first_block)

-- Gapped blocks that hold each byte below `size`, and no other, are one block.
pub one_block :
    (size : ℕ) (bs : List Block)
    → 0 < size
    → GappedFrom 0 bs
    → ((x : ℕ) → cover x bs ≡ (if ltb x size then 1 else 0))
    → bs ≡ (0, size) ∷ []
one_block size [] h g all = absurd (omega (arith, none_hit (all 0)))
  where
    none_hit : ◌≡◌ {A = ℕ} 0 (if ltb 0 size then 1 else 0) → size ≡ 0
    none_hit e = ground arith
one_block size ((o, l) ∷ []) h g all = let (o', l') = first_block size o l [] h g all in rw (o', l')
one_block size ((o, l) ∷ (p, m) ∷ rest) h g all =
    absurd (no_second size o l ((p, m) ∷ rest) h g all p m rest refl)
