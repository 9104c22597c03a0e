-- ===== src/Consumer/Tests.antt =====
-- A session of two chunks with two slots.
use kvserve.Common.{
  ℕ, zero, suc, ◌+◌, ◌≡◌, ◌<◌, ◌&&◌, not, ◌==◌, refl, Bool, true, false, some, List, [], ◌∷◌, arith,
}
use kvserve.Session.Totals.{count, total}
use kvserve.Consumer.State.{ended, Receive, new_receive, Helper, take_out, discard}
use kvserve.Consumer.Actions.{
  ready, error, opened, issues, receives, decoded, decode_fails, gathered, answered, drains,
  drained, set_stage, close, open_answered, issue_one, receive_ready, release, lose, is_empty, act,
  Event, connects, acts, step, run, start,
}
use kvserve.Consumer.Runs.{run-receiver_slots, run-success}
use kvserve.Consumer.Back.{run-slots_back}
use kvserve.Consumer.Failures.{
  add_block, add_blocks, group_blocks, all_blocks, session_result, failed_of, recv_done, contains,
  in_groups, any_failed, contains-recv_done,
}

abbrev two_slots : List ℕ
two_slots = 7 ∷ 8 ∷ []

abbrev both_decoded : List Event
both_decoded =
    connects
    ∷ acts 0 (opened (some 2))
    ∷ acts 0 (issues true)
    ∷ acts 0 (issues true)
    ∷ acts 0 (receives (ready 1))
    ∷ acts 0 (decoded 1)
    ∷ acts 0 (receives (ready 0))
    ∷ acts 0 (decoded 0)
    ∷ acts 0 gathered
    ∷ acts 0 drains
    ∷ []

-- The decode of the first chunk fails in a round in which the loop does not wake.
abbrev one_lost : List Event
one_lost =
    connects
    ∷ acts 0 (opened (some 2))
    ∷ acts 0 (issues true)
    ∷ acts 0 (issues true)
    ∷ acts 0 (receives (ready 0))
    ∷ acts 0 (decode_fails 0 false)
    ∷ acts 0 (receives (ready 1))
    ∷ acts 0 (decoded 1)
    ∷ acts 0 gathered
    ∷ acts 0 drains
    ∷ acts 0 drained
    ∷ []

abbrev refused_chunk : List Event
refused_chunk =
    connects
    ∷ acts 0 (opened (some 2))
    ∷ acts 0 (issues true)
    ∷ acts 0 (receives error)
    ∷ acts 0 answered
    ∷ acts 0 drains
    ∷ acts 0 drained
    ∷ []

stage-both_decoded :
    Receive.stage (Helper.sessions (run (start two_slots) both_decoded) 0) ≡ ended true
unfolding run step act start new_receive open_answered close issue_one receive_ready take_out
    release discard is_empty set_stage
stage-both_decoded = refl

-- The session reports no failed block, although its first chunk was never written.
stage-one_lost : Receive.stage (Helper.sessions (run (start two_slots) one_lost) 0) ≡ ended true
unfolding run step act start new_receive open_answered close issue_one receive_ready take_out
    release discard is_empty set_stage lose
stage-one_lost = refl

stage-refused_chunk :
    Receive.stage (Helper.sessions (run (start two_slots) refused_chunk) 0) ≡ ended false
unfolding run step act start new_receive open_answered close issue_one is_empty set_stage
stage-refused_chunk = refl

one_session : 0 < Helper.session_count (run (start two_slots) both_decoded)
unfolding run step act start new_receive open_answered close issue_one receive_ready take_out
    release discard is_empty set_stage
one_session = omega arith

every_ended :
    (n : ℕ)
    → n < Helper.session_count (run (start two_slots) both_decoded)
    → (good : Bool) × (Receive.stage (Helper.sessions (run (start two_slots) both_decoded) n)
        ≡ ended good)
unfolding run step act start new_receive open_answered close issue_one receive_ready take_out
    release discard is_empty set_stage
every_ended zero h = (true, refl)
every_ended (suc n) h = absurd (omega (arith, h))

run-receiver_slots_example :
    let s = run (start two_slots) both_decoded in
    count 7 s.receiver_slots + total (λ r. count 7 (Receive.owned r)) s.sessions s.session_count
    ≡ count 7 two_slots
run-receiver_slots_example = run-receiver_slots two_slots both_decoded 7

run-success_example :
    let r = Helper.sessions (run (start two_slots) both_decoded) 0 in
    (r.issued ≡ r.total_chunks)
    × (r.completed ≡ r.total_chunks)
    × (r.inflight ≡ [])
    × (r.decode_tasks ≡ [])
run-success_example = run-success two_slots both_decoded 0 one_session stage-both_decoded

run-slots_back_example :
    count 7 (Helper.receiver_slots (run (start two_slots) both_decoded)) ≡ count 7 two_slots
run-slots_back_example = run-slots_back two_slots both_decoded 7 every_ended

failed_blocks :
    recv_done 0 ((3 ∷ 0 ∷ []) ∷ (1 ∷ 3 ∷ []) ∷ []) (some (true ∷ false ∷ [])) ≡ 1 ∷ 3 ∷ []
unfolding recv_done failed_of session_result add_blocks all_blocks group_blocks add_block
failed_blocks = refl

contains-recv_done_example :
    contains 3 (recv_done 0 ((3 ∷ 0 ∷ []) ∷ (1 ∷ 3 ∷ []) ∷ []) (some (true ∷ false ∷ []))) ≡ (
      any_failed (some (true ∷ false ∷ []))
      && (not (3 == 0) && in_groups 3 ((3 ∷ 0 ∷ []) ∷ (1 ∷ 3 ∷ []) ∷ [])))
contains-recv_done_example =
    contains-recv_done 0 3 ((3 ∷ 0 ∷ []) ∷ (1 ∷ 3 ∷ []) ∷ []) (some (true ∷ false ∷ []))
