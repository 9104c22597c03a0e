-- ===== src/Consumer/Failures.antt =====
-- `_all_blocks`, and the blocks that `_recv_request` reports as failed.
use kvserve.Common.{
  ℕ, ◌≡◌, refl, Bool, true, false, not, ◌&&◌, ◌||◌, Option, none, some, List, [], ◌∷◌, ltb, ◌==◌,
  if◌then◌else◌, arith,
}

-- A set of block ids is the sorted list of its elements.
unfoldable pub add_block : ℕ → List ℕ → List ℕ
add_block b [] = b ∷ []
add_block b (x ∷ rest) =
    let others = add_block b rest in
    if b == x then x ∷ rest else (if ltb b x then b ∷ x ∷ rest else x ∷ others)

unfoldable pub add_blocks : List ℕ → List ℕ → List ℕ
add_blocks [] blocks = blocks
add_blocks (b ∷ bs) blocks = add_block b (add_blocks bs blocks)

unfoldable pub group_blocks : ℕ → List ℕ → List ℕ → List ℕ
group_blocks null [] blocks = blocks
group_blocks null (b ∷ group) blocks =
    let others = group_blocks null group blocks in if b == null then others else add_block b others

-- `_all_blocks`; NULL_BLOCK_ID is vLLM's.
unfoldable pub all_blocks : ℕ → List (List ℕ) → List ℕ
all_blocks null [] = []
all_blocks null (group ∷ groups) = group_blocks null group (all_blocks null groups)

-- What `_run_consumer_session` returns.
unfoldable pub session_result : ℕ → List (List ℕ) → Bool → List ℕ
session_result null block_ids true = []
session_result null block_ids false = all_blocks null block_ids

unfoldable pub failed_of : ℕ → List (List ℕ) → List Bool → List ℕ
failed_of null block_ids [] = []
failed_of null block_ids (good ∷ rest) =
    add_blocks (session_result null block_ids good) (failed_of null block_ids rest)

-- `failed_blocks` of the RecvDone: none stands for an exception before the sessions run.
unfoldable pub recv_done : ℕ → List (List ℕ) → Option (List Bool) → List ℕ
recv_done null block_ids none = all_blocks null block_ids
recv_done null block_ids (some results) = failed_of null block_ids results

abbrev pub contains : ℕ → List ℕ → Bool
contains b [] = false
contains b (x ∷ rest) = (x == b) || contains b rest

abbrev pub in_groups : ℕ → List (List ℕ) → Bool
in_groups b [] = false
in_groups b (group ∷ groups) = contains b group || in_groups b groups

abbrev pub any_failed : Option (List Bool) → Bool
any_failed none = true
any_failed (some []) = false
any_failed (some (good ∷ rest)) = not good || any_failed (some rest)

contains-add_block :
    (b c : ℕ) (blocks : List ℕ) → contains c (add_block b blocks) ≡ ((b == c) || contains c blocks)
unfolding add_block
contains-add_block b c [] = refl
contains-add_block b c (x ∷ rest) = ground (arith, contains-add_block b c rest)

contains-add_blocks :
    (bs blocks : List ℕ) (c : ℕ)
    → contains c (add_blocks bs blocks) ≡ (contains c bs || contains c blocks)
unfolding add_blocks
contains-add_blocks [] blocks c = refl
contains-add_blocks (b ∷ bs) blocks c =
    ground (arith, contains-add_block b c (add_blocks bs blocks), contains-add_blocks bs blocks c)

contains-group_blocks :
    (null c : ℕ) (group blocks : List ℕ)
    → contains c (group_blocks null group blocks)
      ≡ ((not (c == null) && contains c group) || contains c blocks)
unfolding group_blocks
contains-group_blocks null c [] blocks = ground arith
contains-group_blocks null c (b ∷ group) blocks = ground (
  arith,
  contains-group_blocks null c group blocks,
  contains-add_block b c (group_blocks null group blocks),
)

contains-all_blocks :
    (null c : ℕ) (groups : List (List ℕ))
    → contains c (all_blocks null groups) ≡ (not (c == null) && in_groups c groups)
unfolding all_blocks
contains-all_blocks null c [] = ground arith
contains-all_blocks null c (group ∷ groups) = ground (
  arith,
  contains-group_blocks null c group (all_blocks null groups),
  contains-all_blocks null c groups,
)

contains-failed_of :
    (null c : ℕ) (groups : List (List ℕ)) (results : List Bool)
    → contains c (failed_of null groups results)
      ≡ (any_failed (some results) && (not (c == null) && in_groups c groups))
unfolding failed_of session_result
contains-failed_of null c groups [] = ground arith
contains-failed_of null c groups (true ∷ rest) = ground (
  arith,
  contains-add_blocks [] (failed_of null groups rest) c,
  contains-failed_of null c groups rest,
)
contains-failed_of null c groups (false ∷ rest) = ground (
  arith,
  contains-add_blocks (all_blocks null groups) (failed_of null groups rest) c,
  contains-failed_of null c groups rest,
  contains-all_blocks null c groups,
)

-- A block is reported as failed exactly when a session of the request has failed, or none was run, and the
-- block is one of the request's and not the null block.
pub contains-recv_done :
    (null c : ℕ) (groups : List (List ℕ)) (results : Option (List Bool))
    → contains c (recv_done null groups results)
      ≡ (any_failed results && (not (c == null) && in_groups c groups))
unfolding recv_done
contains-recv_done null c groups none = contains-all_blocks null c groups
contains-recv_done null c groups (some results) = contains-failed_of null c groups results
