-- ===== src/Workspace.antt =====
-- kvserve_v1/compression/runtime/memory.py, class FixedWorkspaceAllocator: the best-fit allocator
-- that nvCOMP takes its scratch memory from, and spec.py's round_up. A free block is the pair
-- (offset, length) that the source keeps. The lock makes each call atomic, so a history is a list.
pub mod Cover
pub mod BestFit
pub mod Coalesce
pub mod History
mod Tests
use kvserve.Common.{
  ℕ, zero, suc, ◌+◌, ◌-◌, ◌*◌, ◌/◌, Bool, true, false, ◌&&◌, ◌||◌, Option, none, some, List, [],
  ◌∷◌, ◌++◌, ltb, leb, ◌==◌, if◌then◌else◌,
}

-- (value + alignment - 1) // alignment * alignment
unfoldable pub round_up : ℕ → ℕ → ℕ
round_up value alignment = (value + alignment - 1) / alignment * alignment

abbrev pub alignment : ℕ
alignment = 256

abbrev pub Block : Type 0
Block = ℕ × ℕ

-- The tuple (length, index, offset) that the best fit is the minimum of.
abbrev pub Candidate : Type 0
Candidate = ℕ × ℕ × ℕ

pub record Workspace : Type 0 where
  pub size : ℕ
  pub free : List Block

pub init : ℕ → Workspace
init size = record { size = size; free = (0, size) ∷ [] }

-- The order of Python's tuples.
pub lex_lt : Candidate → Candidate → Bool
lex_lt (a, b, c) (x, y, z) = ltb a x || (a == x && (ltb b y || (b == y && ltb c z)))

pub candidates : ℕ → ℕ → List Block → List Candidate
candidates size index [] = []
candidates size index ((offset, len) ∷ rest) =
    let others = candidates size (index + 1) rest in
    if leb size len then (len, index, offset) ∷ others else others

min_from : Candidate → List Candidate → Candidate
min_from best [] = best
min_from best (c ∷ cs) = min_from (if lex_lt c best then c else best) cs

-- `min` of an empty sequence raises.
pub minimum : List Candidate → Option Candidate
unfolding min_from
minimum [] = none
minimum (c ∷ cs) = some (min_from c cs)

-- del self._free[index]
pub delete : ℕ → List Block → List Block
delete index [] = []
delete zero (b ∷ bs) = bs
delete (suc index) (b ∷ bs) = b ∷ delete index bs

pub carve : ℕ → Candidate → List Block → Block × List Block
carve size (len, index, offset) free =
    let kept = delete index free in
    ((offset, size), if ltb size len then kept ++ ((offset + size, len - size) ∷ []) else kept)

-- `__call__`: the allocation's offset and accounted size, or the exception of an empty `min`.
pub alloc : ℕ → Workspace → Option (Block × Workspace)
alloc nbytes w = elim (minimum (candidates (round_up nbytes alignment) 0 w.free)) [
  | none ↦ none
  | some best ↦
      let (block, free) = carve (round_up nbytes alignment) best w.free in
      some (block, record w { free = free })
]

block_le : Block → Block → Bool
block_le (a, b) (x, y) = ltb a x || (a == x && leb b y)

pub insert : Block → List Block → List Block
unfolding block_le
insert b [] = b ∷ []
insert b (c ∷ cs) = let later = insert b cs in if block_le b c then b ∷ c ∷ cs else c ∷ later

-- self._free.sort()
pub sort : List Block → List Block
sort [] = []
sort (b ∷ bs) = insert b (sort bs)

-- The merge loop: `last` is merged[-1], what stands before it is final.
pub merge_from : Block → List Block → List Block
merge_from last [] = last ∷ []
merge_from (offset, len) ((o, l) ∷ rest) = elim (offset + len == o) [
  | true ↦ merge_from (offset, len + l) rest
  | false ↦ (offset, len) ∷ merge_from (o, l) rest
]

pub merge : List Block → List Block
unfolding merge_from
merge [] = []
merge (b ∷ bs) = merge_from b bs

pub release : Block → Workspace → Workspace
release block w = record w { free = merge (sort (w.free ++ (block ∷ []))) }
