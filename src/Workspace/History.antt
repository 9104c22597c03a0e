-- ===== src/Workspace/History.antt =====
-- A history of the allocator with the allocations that are alive (class _PoolAllocation): a request
-- makes one, and its `__del__`, run once, releases it. A request that raises changes nothing.
pub mod Reuse
pub mod Aligned
use kvserve.Common.{
  ℕ, ◌+◌, ◌≡◌, refl, Option, none, some, List, [], ◌∷◌, arith, ltb, if◌then◌else◌, get_elem?,
}
use kvserve.Workspace.{Block, Workspace, init, round_up, alignment, delete, carve, alloc, release}
use kvserve.Workspace.Cover.{hits, cover, cover-carve, cover-delete, cover-release}
use kvserve.Workspace.BestFit.{Outcome, raises, carves, alloc-Outcome}

pub record State : Type 0 where
  pub pool : Workspace
  pub live : List Block

pub data Call : Type 0 where
  request : ℕ → Call
  drop : ℕ → Call

abbrev pub start : ℕ → State
start size = record { pool = init size; live = [] }

abbrev granted : State → Option (Block × Workspace) → State
granted s none = s
granted s (some (b, w)) = record { pool = w; live = b ∷ s.live }

abbrev dropped : State → ℕ → Option Block → State
dropped s i none = s
dropped s i (some b) = record { pool = release b s.pool; live = delete i s.live }

unfoldable pub step : State → Call → State
step s (request nbytes) = granted s (alloc nbytes s.pool)
step s (drop i) = dropped s i (get_elem? s.live i)

unfoldable pub run : State → List Call → State
run s [] = s
run s (c ∷ cs) = run (step s c) cs

-- Each byte of the buffer is in exactly one free or live block, and no block leaves the buffer.
abbrev pub IsPartition : ℕ → State → Type 0
IsPartition size s = (x : ℕ) → cover x s.pool.free + cover x s.live ≡ (if ltb x size then 1 else 0)

request-IsPartition :
    (size nbytes : ℕ) (s : State) (r : Option (Block × Workspace))
    → Outcome nbytes s.pool r
    → IsPartition size s
    → IsPartition size (granted s r)
unfolding carve
request-IsPartition size nbytes s none (raises short) p x = p x
request-IsPartition size nbytes s (some (b, w)) (carves len index offset found fits least) p x =
    omega (
      arith,
      p x,
      cover-carve x (round_up nbytes alignment) len index offset s.pool.free found fits,
    )

drop-IsPartition :
    (size i : ℕ) (s : State) (r : Option Block)
    → get_elem? s.live i ≡ r
    → IsPartition size s
    → IsPartition size (dropped s i r)
drop-IsPartition size i s none e p x = p x
drop-IsPartition size i s (some b) e p x =
    omega (arith, p x, cover-release x b s.pool, cover-delete x i s.live e)

step-IsPartition :
    (size : ℕ) (s : State) (c : Call) → IsPartition size s → IsPartition size (step s c)
unfolding step
step-IsPartition size s (request n) p = request-IsPartition size n s _ (alloc-Outcome n s.pool) p
step-IsPartition size s (drop i) p = drop-IsPartition size i s _ refl p

run-IsPartition :
    (size : ℕ) (s : State) (cs : List Call) → IsPartition size s → IsPartition size (run s cs)
unfolding run
run-IsPartition size s [] p = p
run-IsPartition size s (c ∷ cs) p = run-IsPartition size (step s c) cs (step-IsPartition size s c p)

start-IsPartition : (size : ℕ) → IsPartition size (start size)
unfolding init hits
start-IsPartition size x = ground arith

-- After every history of requests and releases on a buffer of `size` bytes, each byte below `size`
-- lies in exactly one free or live block, and no byte beyond it lies in any: no two live
-- allocations share a byte, and none is lost.
pub run-start-IsPartition : (size : ℕ) (cs : List Call) → IsPartition size (run (start size) cs)
run-start-IsPartition size cs = run-IsPartition size (start size) cs (start-IsPartition size)
