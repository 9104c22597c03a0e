-- ===== src/Layout/TailBounds.antt =====
-- The raw tail: what raw_tail_bytes counts fits in raw_tail_capacity.
use kvserve.Common.{ℕ, ◌-◌, ◌%◌, ◌≤◌, ◌≡◌, ◌⊎◌, inl, inr, false, List, [], ◌∷◌, All, arith, max}
use native.Mathlib.Nat.{mod-lt, mul-le-mul_right}
use kvserve.Layout.Data.{LayerPart, Layout}
use kvserve.Layout.Tail.{parts, tail_room, tail_bytes, raw_tail_bytes, raw_tail_capacity}
use kvserve.Layout.Streams.{round_up_ge}

-- A block holds one token or more.
abbrev pub Blocked : LayerPart → Type 0
Blocked p = 1 ≤ LayerPart.block_size p

parts-Blocked : (k : ℕ) (ps : List LayerPart) → All Blocked ps → All Blocked (parts k ps)
unfolding parts
parts-Blocked k [] hs = tt
parts-Blocked k (p ∷ ps) hs = ground (arith, parts-Blocked k ps)

mod-le_pred : (n m : ℕ) → 1 ≤ m → n % m ≤ m - 1
mod-le_pred n m h = omega (arith, mod-lt n {m = m} h)

tail_bytes-tail_room :
    (tokens : ℕ → ℕ) (ps : List LayerPart) → All Blocked ps → tail_bytes tokens ps ≤ tail_room ps
unfolding tail_bytes tail_room
tail_bytes-tail_room tokens [] hs = omega arith
tail_bytes-tail_room tokens (p ∷ ps) hs = omega (
  arith,
  tail_bytes-tail_room tokens ps hs.1,
  mul-le-mul_right 2 (
      mul-le-mul_right (LayerPart.head_size p) (
        mul-le-mul_right (LayerPart.num_heads p)
          (mod-le_pred (tokens (LayerPart.group_index p)) (LayerPart.block_size p) hs.0))),
)

-- Where no layer part has empty blocks and nothing is aggregated, the bytes of the tokens behind the
-- last full block of every group, of either KV part, fit in the capacity of the raw tail.
raw_tail_bytes-le :
    (layout : Layout) (k : ℕ) (tokens : ℕ → ℕ)
    → Layout.aggregates layout ≡ false
    → All Blocked (Layout.layer_parts layout)
    → (k ≡ 0) ⊎ (k ≡ 1)
    → raw_tail_bytes layout k tokens ≤ raw_tail_capacity layout
unfolding raw_tail_bytes raw_tail_capacity
raw_tail_bytes-le layout k tokens unaggregated blocked (inl key) =
    rw (unaggregated, key)
      (omega (
        arith,
        tail_bytes-tail_room tokens (parts 0 (Layout.layer_parts layout))
            (parts-Blocked 0 _ blocked),
        round_up_ge (
            max (tail_room (parts 0 (Layout.layer_parts layout)))
              (tail_room (parts 1 (Layout.layer_parts layout)))),
      ))
raw_tail_bytes-le layout k tokens unaggregated blocked (inr value) =
    rw (unaggregated, value)
      (omega (
        arith,
        tail_bytes-tail_room tokens (parts 1 (Layout.layer_parts layout))
            (parts-Blocked 1 _ blocked),
        round_up_ge (
            max (tail_room (parts 0 (Layout.layer_parts layout)))
              (tail_room (parts 1 (Layout.layer_parts layout)))),
      ))
