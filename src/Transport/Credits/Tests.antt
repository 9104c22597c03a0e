-- ===== src/Transport/Credits/Tests.antt =====
-- The credits at concrete histories.
use kvserve.Common.{
  ◌+◌, ◌*◌, ◌≤◌, ◌<◌, ◌≡◌, ◌≢◌, ◌↔◌, ◌⊎◌, refl, false, none, some, List, [], ◌∷◌, ◌++◌, max, arith,
}
use kvserve.Transport.Credits.{Credits, init, contains, reserve, release, expect}
use kvserve.Transport.Credits.Staging.{
  Event, arrives, leaves, schedules, start, run, IsExact, run-start-IsExact,
}
use kvserve.Transport.Credits.Bounds.{reserve_refused, run-start-bounded}
use kvserve.Transport.Credits.Overflow.{overflow, run-overflow}

-- tests/test_receiver_credits.py, test_one_scheduled_overflow_unblocks_next_decode_step
abbrev decode_step : List Event
decode_step =
    arrives "future" 100
    ∷ schedules ("current-1" ∷ "current-2" ∷ [])
    ∷ arrives "current-1" 100
    ∷ arrives "current-2" 100
    ∷ []

one_extra : (run (start 100) decode_step).credits.reserved ≡ 200
unfolding run init expect reserve
one_extra = refl

abbrev decode_step_then : List Event → List Event
decode_step_then es = decode_step ++ es

next_extra :
    (run (start 100) (decode_step_then (leaves 0 ∷ arrives "current-2" 100 ∷ []))).credits
    ≡ record {
      capacity = 100;
      reserved = 200;
      expected = "current-1" ∷ "current-2" ∷ [];
      priority = some "current-2";
    }
unfolding run init expect reserve release
next_extra = refl

abbrev half_full : Credits
half_full = record { capacity = 100; reserved = 50; expected = []; priority = none }

reserve_refused_example :
    (reserve "b" 60 half_full ≡ none)
    ↔ ((0 < 50) × (100 < 50 + 60) × ((contains "b" [] ≡ false) ⊎ (half_full.priority ≢ none)))
reserve_refused_example = reserve_refused "b" 60 half_full

run-start-IsExact_example : IsExact (run (start 100) decode_step)
run-start-IsExact_example = run-start-IsExact 100 decode_step

run-start-bounded_example :
    (run (start 100) decode_step).credits.reserved ≤ max (max 1 100) 100 + 100
unfolding run init expect reserve
run-start-bounded_example = run-start-bounded 100 100 decode_step (omega arith)

run-overflow_example : (run (start 3) (overflow "r" 1000 3)).credits.reserved ≡ 3 * 1000
run-overflow_example = run-overflow "r" 1000 3 (omega arith) (omega arith)
