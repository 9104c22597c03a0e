-- ===== src/Session/Tests.antt =====
-- The service on one transfer of two chunks with one slot.
use kvserve.Common.{ℕ, ◌+◌, ◌≡◌, refl, true, false, some, List, [], ◌∷◌, ◌++◌}
use kvserve.Common.{◌<◌, ◌≤◌, arith}
use kvserve.Session.State.{
  OperationKey, SessionKey, Session, sending, Service, same_operation, same_key, find, pop, put,
  is_active, is_over, set_task, add_task, set_session,
}
use kvserve.Session.Run.{
  Event, announces, opens, gives_up, proceeds, opened, pulls, takes, encoded, drained, aborts,
  answers, encode_late, leave, left_jobs, forget, start, step, run,
}
use kvserve.Session.Totals.{total, count, holds, serves}
use kvserve.Session.Watching.{is_working, is_left}
use kvserve.Session.Safety.{has_drained, IsAt, abort-quiet}
use kvserve.Common.{◌↔◌, ◌*◌}
use kvserve.Session.Ranks.{ranks, handshake_target_ranks, is_target, handshake-pairs}
use kvserve.Session.Conservation.{run-slots, run-inflight}
use kvserve.Session.Sending.{
  sent_all, finish_send_meta, operation_of, complete_session, unclaim, discard_session,
  discard_if_over,
}
use kvserve.Session.Open.{
  set_send_state, new_state, make_ready, announce, open_begins, clean_up, open_fails, give_up,
  claim, open_proceeds, new_session, add_session, open_returns,
}
use kvserve.Session.Serve.{
  fail_session, count_up, count_down, pull_begins, take_slot, give_back, chunk_done, encode_returns,
  drain_returns,
}
use kvserve.Session.Abort.{
  purge, purge_closed, operation?, operations_of, find_operation, session_of, cancel, abort_begins,
  is_ended, all_ended, is_drained, cancel_all, abort_returns,
}

abbrev one_key : SessionKey
one_key = record { identity = "d"; transfer_id = "t"; d_req_id = "r" }

abbrev one_op : OperationKey
one_op = record { transfer_id = "t"; d_req_id = "r"; nonce = "n" }

abbrev one_slot : List ℕ
one_slot = 7 ∷ []

-- Announced, opened, and the first chunk encoding.
abbrev opened_once : List Event
opened_once =
    announces 0 "t" "p"
    ∷ opens 5 one_key one_op
    ∷ proceeds 1 0
    ∷ opened 6 (some 2) 0
    ∷ pulls 7 one_key one_op
    ∷ takes 1
    ∷ []

abbrev both_sent : List Event
both_sent =
    opened_once ++ (encoded 8 true 1 ∷ pulls 9 one_key one_op ∷ takes 2 ∷ encoded 10 true 2 ∷ [])

-- An abort comes while the chunk encodes.
abbrev aborted_once : List Event
aborted_once =
    opened_once ++ (aborts 8 one_key one_op ∷ encoded 9 false 1 ∷ drained 1 ∷ answers true 2 ∷ [])

abbrev refused_open : List Event
refused_open =
    opens 5 one_key one_op ∷ aborts 6 one_key one_op ∷ gives_up false 0 ∷ answers true 1 ∷ []

finals-both_sent : Service.finals (run (start one_slot) both_sent) ≡ sending "p" ∷ []
unfolding run step start announce make_ready new_state set_send_state find pop put open_begins
    open_proceeds claim open_returns add_session new_session set_task add_task pull_begins take_slot
    encode_returns chunk_done give_back discard_if_over count_up count_down set_session
    complete_session finish_send_meta sent_all operation_of purge_closed purge is_active is_over
    same_key same_operation
finals-both_sent = refl

slots-aborted_once : Service.slots (run (start one_slot) aborted_once) ≡ one_slot
unfolding run step start announce make_ready new_state set_send_state find pop put open_begins
    open_proceeds claim open_returns add_session new_session set_task add_task pull_begins take_slot
    encode_returns drain_returns give_up clean_up open_fails abort_begins abort_returns session_of
    find_operation operations_of operation? is_drained all_ended is_ended cancel cancel_all
    discard_session unclaim discard_if_over fail_session chunk_done give_back count_up count_down
    set_session complete_session finish_send_meta sent_all operation_of purge_closed purge is_active
    is_over same_key same_operation
slots-aborted_once = refl

finals-aborted_once : Service.finals (run (start one_slot) aborted_once) ≡ sending "p" ∷ []
unfolding run step start announce make_ready new_state set_send_state find pop put open_begins
    open_proceeds claim open_returns add_session new_session set_task add_task pull_begins take_slot
    encode_returns drain_returns give_up clean_up open_fails abort_begins abort_returns session_of
    find_operation operations_of operation? is_drained all_ended is_ended cancel cancel_all
    discard_session unclaim discard_if_over fail_session chunk_done give_back count_up count_down
    set_session complete_session finish_send_meta sent_all operation_of purge_closed purge is_active
    is_over same_key same_operation
finals-aborted_once = refl

send_meta-refused_open : Service.send_meta (run (start one_slot) refused_open) ≡ []
unfolding run step start announce make_ready new_state set_send_state find pop put open_begins
    open_proceeds claim open_returns add_session new_session set_task add_task pull_begins take_slot
    encode_returns drain_returns give_up clean_up open_fails abort_begins abort_returns session_of
    find_operation operations_of operation? is_drained all_ended is_ended cancel cancel_all
    discard_session unclaim discard_if_over fail_session chunk_done give_back count_up count_down
    set_session complete_session finish_send_meta sent_all operation_of purge_closed purge is_active
    is_over same_key same_operation
send_meta-refused_open = refl

run-slots_example :
    let s = run (start one_slot) opened_once in
    count 7 s.slots + total (holds 7) s.tasks s.task_count ≡ count 7 one_slot
run-slots_example = run-slots one_slot opened_once 7

run-inflight_example :
    let s = run (start one_slot) opened_once in
    Session.inflight_chunks (s.heap 0) ≡ total (serves 0) s.tasks s.task_count
run-inflight_example = run-inflight one_slot opened_once 0

-- The state in which the first chunk encodes.
abbrev encoding_once : Service
encoding_once = run (start one_slot) opened_once

abbrev after_abort : List Event
after_abort = encoded 9 false 1 ∷ drained 1 ∷ []

abbrev pulled_again : List Event
pulled_again = pulls 10 one_key one_op ∷ opens 11 one_key one_op ∷ proceeds 1 3 ∷ []

drained_once :
    has_drained
      (Service.tasks (step encoding_once (aborts 8 one_key one_op)) encoding_once.task_count)
      (run (step encoding_once (aborts 8 one_key one_op)) after_abort)
    ≡ true
unfolding run step start announce make_ready new_state set_send_state find pop put open_begins
    open_proceeds claim open_returns add_session new_session set_task add_task pull_begins take_slot
    encode_returns drain_returns give_up clean_up open_fails abort_begins abort_returns session_of
    find_operation operations_of operation? is_drained all_ended is_ended cancel cancel_all
    discard_session unclaim discard_if_over fail_session chunk_done give_back count_up count_down
    set_session complete_session finish_send_meta sent_all operation_of purge_closed purge is_active
    is_over same_key same_operation
drained_once = refl

below_once :
    1
    < Service.task_count
        (run (run (step encoding_once (aborts 8 one_key one_op)) after_abort) pulled_again)
unfolding run step start announce make_ready new_state set_send_state find pop put open_begins
    open_proceeds claim open_returns add_session new_session set_task add_task pull_begins take_slot
    encode_returns drain_returns give_up clean_up open_fails abort_begins abort_returns session_of
    find_operation operations_of operation? is_drained all_ended is_ended cancel cancel_all
    discard_session unclaim discard_if_over fail_session chunk_done give_back count_up count_down
    set_session complete_session finish_send_meta sent_all operation_of purge_closed purge is_active
    is_over same_key same_operation
below_once = omega arith

at : (now : ℕ) → 8 ≤ now → now < 540008 → IsAt 8 now
at now a b = record { after = a; before = b }

nothing_left : is_left one_op encoding_once.left ≡ false
unfolding run step start announce make_ready new_state set_send_state find pop put open_begins
    open_proceeds claim open_returns add_session new_session set_task add_task pull_begins take_slot
    count_up set_session purge_closed purge is_active same_key same_operation
nothing_left = refl

abort-quiet_example :
    (is_working one_op (
        Service.tasks
          (run (run (step encoding_once (aborts 8 one_key one_op)) after_abort) pulled_again)
          1)
      ≡ false)
    × (is_left one_op (
          Service.left
            (run (run (step encoding_once (aborts 8 one_key one_op)) after_abort) pulled_again))
        ≡ false)
abort-quiet_example =
    abort-quiet 8 one_key one_op encoding_once after_abort pulled_again 1 nothing_left
      (at 9 (omega arith) (omega arith), (tt, tt))
      (at 10 (omega arith) (omega arith), (at 11 (omega arith) (omega arith), (tt, tt)))
      drained_once below_once

-- An encode job that outlives its wait is still at the engine when the abort has drained.
abbrev after_late : List Event
after_late = encode_late 9 1 ∷ drained 1 ∷ []

drained_late :
    has_drained
      (Service.tasks (step encoding_once (aborts 8 one_key one_op)) encoding_once.task_count)
      (run (step encoding_once (aborts 8 one_key one_op)) after_late)
    ≡ true
unfolding leave left_jobs run step start announce make_ready new_state set_send_state find pop put
    open_begins open_proceeds claim open_returns add_session new_session set_task add_task
    pull_begins take_slot encode_returns drain_returns give_up clean_up open_fails abort_begins
    abort_returns session_of find_operation operations_of operation? is_drained all_ended is_ended
    cancel cancel_all discard_session unclaim discard_if_over fail_session chunk_done give_back
    count_up count_down set_session complete_session finish_send_meta sent_all operation_of
    purge_closed purge is_active is_over same_key same_operation
drained_late = refl

left_late :
    is_left one_op (Service.left (run (step encoding_once (aborts 8 one_key one_op)) after_late))
    ≡ true
unfolding leave left_jobs run step start announce make_ready new_state set_send_state find pop put
    open_begins open_proceeds claim open_returns add_session new_session set_task add_task
    pull_begins take_slot encode_returns drain_returns give_up clean_up open_fails abort_begins
    abort_returns session_of find_operation operations_of operation? is_drained all_ended is_ended
    cancel cancel_all discard_session unclaim discard_if_over fail_session chunk_done give_back
    count_up count_down set_session complete_session finish_send_meta sent_all operation_of
    purge_closed purge is_active is_over same_key same_operation
left_late = refl

finished_late : forget one_op (one_op ∷ []) ≡ []
unfolding forget same_operation
finished_late = refl

targets_same : handshake_target_ranks 3 4 4 ≡ 3 ∷ []
unfolding handshake_target_ranks
targets_same = refl

targets_more : handshake_target_ranks 1 2 8 ≡ 4 ∷ 5 ∷ 6 ∷ 7 ∷ []
unfolding handshake_target_ranks ranks
targets_more = refl

handshake-pairs_example :
    (is_target 1 (handshake_target_ranks 6 (4 * 2) 2) ≡ true)
    ↔ (is_target 6 (handshake_target_ranks 1 2 (4 * 2)) ≡ true)
handshake-pairs_example = handshake-pairs 4 2 6 1 (omega arith) (omega arith)
