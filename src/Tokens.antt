-- ===== src/Tokens.antt =====
-- kvsfuse-vllm0.30.0/mooncake/compression/tokens.py, and the chunks of a transfer in mooncake_connector.py. Python's integers may go below 0, so a count is an integer.
pub mod Sums
pub mod Tests
use kvserve.Common.{
  ℕ, zero, suc, ◌+◌, ◌-◌, ◌*◌, ◌/◌, ◌%◌, min, Option, none, some, List, [], ◌∷◌, leb, ◌==◌,
  if◌then◌else◌,
}

pub data ℤ : Type 0 where
  pos negsuc : ℕ → ℤ

unfoldable pub difference : ℕ → ℕ → ℤ
difference a b = if leb b a then pos (a - b) else negsuc (b - a - 1)

unfoldable pub subtract : ℤ → ℕ → ℤ
subtract (pos a) b = difference a b
subtract (negsuc a) b = negsuc (a + b)

unfoldable pub minimum : ℤ → ℤ → ℤ
minimum (pos a) (pos b) = pos (min a b)
minimum (negsuc a) (pos b) = negsuc a
minimum (pos a) (negsuc b) = negsuc b
minimum (negsuc a) (negsuc b) = if leb a b then negsuc b else negsuc a

unfoldable pub times : ℤ → ℕ → ℤ
times (pos a) b = pos (a * b)
times (negsuc a) b = if b == 0 then pos 0 else negsuc (suc a * b - 1)

-- One group of `suffix_token_counts` with `count` blocks; (full_blocks - count) * block_size is multiplied
-- out, since full_blocks - count may be negative.
unfoldable pub suffix_count : ℕ → ℕ → ℕ → ℤ
suffix_count num_tokens block_size count =
    let full_blocks = (num_tokens + block_size - 1) / block_size in
    if count == 0
    then pos 0
    else difference (num_tokens + count * block_size) (full_blocks * block_size)

unfoldable pub size : List ℕ → ℕ
size [] = 0
size (x ∷ xs) = suc (size xs)

-- `len(block_ids[group]) if block_ids else 0`; none is the IndexError.
unfoldable pub count_in : List (List ℕ) → ℕ → Option ℕ
count_in [] group = none
count_in (ids ∷ rest) zero = some (size ids)
count_in (ids ∷ rest) (suc group) = count_in rest group

unfoldable pub block_count : List (List ℕ) → ℕ → Option ℕ
block_count [] group = some 0
block_count (ids ∷ rest) group = count_in (ids ∷ rest) group

-- `result[group] = ...`, for the groups in the order of the dictionary.
abbrev pub entry : ℕ → Option ℤ → Option (List (ℕ × ℤ)) → Option (List (ℕ × ℤ))
entry group none rest = none
entry group (some count) none = none
entry group (some count) (some rest) = some ((group, count) ∷ rest)

-- none is the error of a division by 0 too.
unfoldable pub with_count : ℕ → ℕ → Option ℕ → Option ℤ
with_count num_tokens block_size none = none
with_count num_tokens block_size (some count) =
    if block_size == 0 then none else some (suffix_count num_tokens block_size count)

unfoldable pub suffix_token_counts : ℕ → List (List ℕ) → List (ℕ × ℕ) → Option (List (ℕ × ℤ))
suffix_token_counts num_tokens block_ids [] = some []
suffix_token_counts num_tokens block_ids ((group, block_size) ∷ rest) =
    entry group (with_count num_tokens block_size (block_count block_ids group))
      (suffix_token_counts num_tokens block_ids rest)

-- One group of `chunk_token_counts`.
unfoldable pub chunk_count : ℤ → ℕ → ℕ → ℤ → ℤ
chunk_count valid block_size logical_start logical_count =
    minimum (subtract valid (logical_start * block_size)) (times logical_count block_size)

unfoldable pub find_tokens : ℕ → List (ℕ × ℤ) → Option ℤ
find_tokens group [] = none
find_tokens group ((g, count) ∷ rest) =
    let found = find_tokens group rest in if g == group then some count else found

unfoldable pub with_valid : ℕ → ℕ → ℤ → Option ℤ → Option ℤ
with_valid block_size start count none = none
with_valid block_size start count (some valid) = some (chunk_count valid block_size start count)

unfoldable pub chunk_token_counts : List (ℕ × ℤ) → List (ℕ × ℕ) → ℕ → ℤ → Option (List (ℕ × ℤ))
chunk_token_counts valid_tokens_by_group [] logical_start logical_count = some []
chunk_token_counts valid_tokens_by_group ((group, block_size) ∷ rest) logical_start logical_count =
    entry group
      (with_valid block_size logical_start logical_count (find_tokens group valid_tokens_by_group))
      (chunk_token_counts valid_tokens_by_group rest logical_start logical_count)

-- `_compression_total_chunks`: two chunks, for keys and values, of each run of blocks.
unfoldable pub total_chunks : ℕ → ℕ → Option ℕ
total_chunks logical_block_count logical_blocks_per_chunk =
    if logical_blocks_per_chunk == 0
    then none
    else some ((logical_block_count + logical_blocks_per_chunk - 1) / logical_blocks_per_chunk * 2)

-- `_compression_chunk_window`: the first block, the number of blocks, and keys or values.
unfoldable pub chunk_window : ℕ → ℕ → ℕ → ℕ × ℤ × ℕ
chunk_window chunk_id logical_block_count logical_blocks_per_chunk =
    let logical_start = chunk_id / 2 * logical_blocks_per_chunk in
    (
      logical_start,
      minimum (pos logical_blocks_per_chunk) (difference logical_block_count logical_start),
      chunk_id % 2,
    )
