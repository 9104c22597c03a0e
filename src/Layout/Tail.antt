-- ===== src/Layout/Tail.antt =====
-- What is asked of a layout that is built: parts, raw_tail_capacity, raw_tail_bytes, has_body.
use kvserve.Common.{
  ℕ, ◌+◌, ◌-◌, ◌*◌, ◌%◌, Bool, false, ◌||◌, List, [], ◌∷◌, leb, ◌==◌, if◌then◌else◌, max,
}
use kvserve.Layout.Data.{LayerPart, Layout}
use kvserve.Workspace.{round_up, alignment}

-- `parts`
unfoldable pub parts : ℕ → List LayerPart → List LayerPart
parts k [] = []
parts k (p ∷ ps) = let rest = parts k ps in if LayerPart.kv_part p == k then p ∷ rest else rest

-- `sum((part.block_size - 1) * part.num_heads * part.head_size * 2 ...)`
unfoldable pub tail_room : List LayerPart → ℕ
tail_room [] = 0
tail_room (p ∷ ps) =
    (LayerPart.block_size p - 1) * LayerPart.num_heads p * LayerPart.head_size p * 2 + tail_room ps

unfoldable pub raw_tail_capacity : Layout → ℕ
raw_tail_capacity layout =
    if Layout.aggregates layout
    then 0
    else round_up
        (max (tail_room (parts 0 (Layout.layer_parts layout)))
          (tail_room (parts 1 (Layout.layer_parts layout))))
        alignment

unfoldable pub tail_bytes : (ℕ → ℕ) → List LayerPart → ℕ
tail_bytes tokens [] = 0
tail_bytes tokens (p ∷ ps) =
    (tokens (LayerPart.group_index p) % LayerPart.block_size p)
      * LayerPart.num_heads p
      * LayerPart.head_size p
      * 2
    + tail_bytes tokens ps

-- `raw_tail_bytes`
unfoldable pub raw_tail_bytes : Layout → ℕ → (ℕ → ℕ) → ℕ
raw_tail_bytes layout k tokens = tail_bytes tokens (parts k (Layout.layer_parts layout))

unfoldable pub any_full_block : (ℕ → ℕ) → List LayerPart → Bool
any_full_block tokens [] = false
any_full_block tokens (p ∷ ps) =
    leb (LayerPart.block_size p) (tokens (LayerPart.group_index p)) || any_full_block tokens ps

-- `has_body`
unfoldable pub has_body : Layout → (ℕ → ℕ) → Bool
has_body layout tokens = any_full_block tokens (parts 0 (Layout.layer_parts layout))
