-- ===== src/Tokens/Tests.antt =====
-- The counts that the unit tests of tokens.py expect, and the chunks of a transfer.
use kvserve.Common.{ℕ, ◌≡◌, refl, ◌*◌, ◌+◌, ◌-◌, ◌/◌, none, some, List, [], ◌∷◌, arith}
use kvserve.Tokens.{
  pos, negsuc, difference, subtract, minimum, times, suffix_count, size, count_in, block_count,
  with_count, suffix_token_counts, chunk_count, find_tokens, with_valid, chunk_token_counts,
  total_chunks, chunk_window,
}
use kvserve.Tokens.Sums.{part_counts, all_pos, sum, chunks_cover}

two_groups :
    suffix_token_counts 1000
      ((0 ∷ 1 ∷ 2 ∷ []) ∷ (7 ∷ 8 ∷ 9 ∷ 10 ∷ []) ∷ [])
      ((0, 16) ∷ (1, 32) ∷ [])
    ≡ some ((0, pos 40) ∷ (1, pos 104) ∷ [])
unfolding suffix_token_counts with_count block_count count_in size suffix_count difference
two_groups = refl

full_prefix_hit : suffix_token_counts 1000 [] ((0, 16) ∷ []) ≡ some ((0, pos 0) ∷ [])
unfolding suffix_token_counts with_count block_count suffix_count
full_prefix_hit = refl

group_without_blocks : suffix_token_counts 1000 ((0 ∷ []) ∷ []) ((1, 16) ∷ []) ≡ none
unfolding suffix_token_counts with_count block_count count_in
group_without_blocks = refl

no_block_size : suffix_token_counts 3 ((0 ∷ []) ∷ []) ((0, 0) ∷ []) ≡ none
unfolding suffix_token_counts with_count block_count count_in size
no_block_size = refl

first_chunk :
    chunk_token_counts ((3, pos 1371) ∷ []) ((3, 784) ∷ []) 0 (pos 1) ≡ some ((3, pos 784) ∷ [])
unfolding chunk_token_counts with_valid find_tokens chunk_count subtract difference minimum times
first_chunk = refl

second_chunk :
    chunk_token_counts ((3, pos 1371) ∷ []) ((3, 784) ∷ []) 1 (pos 1) ≡ some ((3, pos 587) ∷ [])
unfolding chunk_token_counts with_valid find_tokens chunk_count subtract difference minimum times
second_chunk = refl

both_chunks :
    chunk_token_counts ((3, pos 1371) ∷ []) ((3, 784) ∷ []) 0 (pos 2) ≡ some ((3, pos 1371) ∷ [])
unfolding chunk_token_counts with_valid find_tokens chunk_count subtract difference minimum times
both_chunks = refl

unknown_group : chunk_token_counts ((3, pos 1371) ∷ []) ((2, 784) ∷ []) 0 (pos 2) ≡ none
unfolding chunk_token_counts with_valid find_tokens
unknown_group = refl

last_window : chunk_window 3 7 4 ≡ (4, pos 3, 1)
unfolding chunk_window minimum difference
last_window = refl

behind_the_end : chunk_window 4 7 4 ≡ (8, negsuc 0, 0)
unfolding chunk_window minimum difference
behind_the_end = refl

four_chunks : total_chunks 7 4 ≡ some 4
unfolding total_chunks
four_chunks = refl

-- 1000 tokens in blocks of 16; the last seven blocks are sent, in chunks of four.
chunks_cover_example :
    (rounds : ℕ) × (total_chunks 7 4 ≡ some (rounds * 2))
    × (ks : List ℕ) × (part_counts (suffix_count 1000 16 7) 16 7 4 1 0 rounds ≡ all_pos ks)
    × (sum ks + ((1000 + 16 - 1) / 16 - 7) * 16 ≡ 1000)
chunks_cover_example =
    chunks_cover 1000 16 7 4 1 (omega arith) (omega arith) (omega arith) (omega arith) (omega arith)
