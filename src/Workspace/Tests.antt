-- ===== src/Workspace/Tests.antt =====
-- Runs of the allocator, and its theorems at concrete histories.
use kvserve.Common.{◌+◌, ◌≡◌, refl, none, some, List, [], ◌∷◌, arith, All}
use kvserve.Workspace.{
  Workspace, init, round_up, alloc, release, candidates, lex_lt, minimum, carve, delete, insert,
  sort, merge,
}
use kvserve.Workspace.Cover.{cover, hits, cover-release}
use kvserve.Workspace.BestFit.{Outcome, alloc-Outcome}
use kvserve.Workspace.History.{
  Call, request, drop, start, step, run, IsPartition, run-start-IsPartition,
}
use kvserve.Workspace.History.Reuse.{run-whole}
use kvserve.Workspace.History.Aligned.{IsAligned, run-live-IsAligned}

abbrev split_pool : Workspace
split_pool = record { size = 2048; free = (0, 512) ∷ (768, 256) ∷ (1280, 256) ∷ (1792, 256) ∷ [] }

abbrev history : List Call
history = request 300 ∷ request 100 ∷ drop 1 ∷ request 200 ∷ drop 0 ∷ drop 0 ∷ []

-- 300 bytes fit the first block only, 200 fit the first of the short ones.
alloc_first_shortest :
    alloc 200 split_pool
    ≡ some ((768, 256), record split_pool { free = (0, 512) ∷ (1280, 256) ∷ (1792, 256) ∷ [] })
unfolding alloc candidates minimum lex_lt carve delete round_up
alloc_first_shortest = refl

alloc_too_long : alloc 600 split_pool ≡ none
unfolding alloc candidates minimum round_up
alloc_too_long = refl

release_joins :
    release (512, 256) split_pool
    ≡ record split_pool { free = (0, 1024) ∷ (1280, 256) ∷ (1792, 256) ∷ [] }
unfolding release sort insert merge
release_joins = refl

-- Requests of no bytes: the empty block that they leave inside the buffer stays between the two
-- halves, so that the buffer, with nothing alive, is in three blocks and not in one.
empty_block_splits :
    run (start 1024) (request 256 ∷ request 0 ∷ drop 1 ∷ drop 0 ∷ request 512 ∷ drop 0 ∷ [])
    ≡ record {
      pool = record { size = 1024; free = (0, 512) ∷ (256, 0) ∷ (512, 512) ∷ [] };
      live = [];
    }
unfolding run step init alloc candidates minimum lex_lt carve delete round_up release sort insert
    merge
empty_block_splits = refl

alloc-Outcome_example : Outcome 200 split_pool (alloc 200 split_pool)
alloc-Outcome_example = alloc-Outcome 200 split_pool

cover-release_example :
    cover 600 (release (512, 256) split_pool).free ≡ cover 600 split_pool.free + hits 600 (512, 256)
cover-release_example = cover-release 600 (512, 256) split_pool

run-start-IsPartition_example : IsPartition 2048 (run (start 2048) history)
run-start-IsPartition_example = run-start-IsPartition 2048 history

run-whole_example : (run (start 2048) history).pool.free ≡ (0, 2048) ∷ []
unfolding run step init alloc candidates minimum lex_lt carve delete round_up release sort insert
    merge
run-whole_example = run-whole 2048 history (omega arith) (omega arith) refl

run-live-IsAligned_example : All IsAligned (run (start 2048) (request 300 ∷ request 100 ∷ [])).live
run-live-IsAligned_example = run-live-IsAligned 2048 (request 300 ∷ request 100 ∷ [])
