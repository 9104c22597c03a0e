-- ===== src/Session/Conservation.antt =====
-- Slots and chunks in flight, over sequences of events.
use kvserve.Common.{
  ℕ, ◌+◌, ◌≡◌, inl, inr, refl, sym, ap, ◌∙◌, Bool, true, false, not, ◌||◌, Bool-cases, none, List,
  [], ◌∷◌, arith,
}
use kvserve.Session.State.{
  OperationKey, SessionKey, Session, Task, waiting, opening, queued, encoding, draining, aborting,
  ended, Service, same_operation, put, pending_req_expiry,
}
use kvserve.Session.Serve.{chunk_done, encode_returns, drain_returns}
use kvserve.Session.Abort.{session_of, abort_begins, is_ended, is_drained, abort_returns}
use kvserve.Session.Run.{
  Event, announces, publishes, drops, opens, gives_up, proceeds, opened, pulls, takes, encoded,
  drained, open_late, encode_late, finishes, aborts, answers, sweeps, start, leave, step, run,
}
use kvserve.Session.Totals.{total, count, holds, serves}
use kvserve.Session.Frames.{
  Calm, Calm-trans, fail_session-Calm, cancel_target-Calm, cancel_all-Calm, chunk_done-Calm,
  announce-Calm, publish-Calm, drop_meta-Calm, sweep-Calm, purge_closed-Calm,
}
use kvserve.Session.Slots.{IsKept, Calm-IsKept}
use kvserve.Session.Interleaving.{
  give_up-IsKept, open_proceeds-IsKept, open_returns-IsKept, pull_begins-IsKept,
}
use kvserve.Session.Rest.{is_ended-false, go_on, add_task-IsKept, open_begins-IsKept}
use kvserve.Session.Giving.{take_slot-IsKept, give_back-IsKept}

encode_returns-IsKept :
    (slots : List ℕ) (now : ℕ) (good : Bool) (t : ℕ) (s : Service)
    → IsKept slots s
    → IsKept slots (encode_returns now good t s)
unfolding encode_returns is_ended
encode_returns-IsKept slots now good t s k = returned_kept (s.tasks t) good refl
  where
    returned_kept :
        (v : Task) (answer : Bool) → s.tasks t ≡ v → IsKept slots (encode_returns now answer t s)
    returned_kept (encoding key op i slot) true e =
        let c = chunk_done-Calm now i s in
        let at_t : Service.tasks (chunk_done now i s) t ≡ encoding key op i slot =
          ap (λ (f : ℕ → Task). f t) c.tasks ∙ e in
        rw e (
          give_back-IsKept slots t i slot (chunk_done now i s) (is_ended-false _ _ at_t refl)
            (λ x. ap (holds x) at_t) (λ n. ap (serves n) at_t) (Calm-IsKept slots s _ c k))
    returned_kept (encoding key op i slot) false e = rw e (
        go_on slots s _ t _ (fail_session-Calm i s) (is_ended-false _ _ e refl) (λ x. rw e refl)
          (λ n. rw e refl) k)
    returned_kept (waiting key op j created) answer e = rw e k
    returned_kept (opening key op j created) answer e = rw e k
    returned_kept (queued key op i) answer e = rw e k
    returned_kept (draining key op i slot) answer e = rw e k
    returned_kept (aborting op session pending) answer e = rw e k
    returned_kept ended answer e = rw e k

drain_returns-IsKept :
    (slots : List ℕ) (t : ℕ) (s : Service) → IsKept slots s → IsKept slots (drain_returns t s)
unfolding drain_returns is_ended
drain_returns-IsKept slots t s k = returned_kept (s.tasks t) refl
  where
    returned_kept : (v : Task) → s.tasks t ≡ v → IsKept slots (drain_returns t s)
    returned_kept (draining key op i slot) e = rw e (
        give_back-IsKept slots t i slot s (is_ended-false _ _ e refl) (λ x. rw e refl)
          (λ n. rw e refl) k)
    returned_kept (waiting key op j created) e = rw e k
    returned_kept (opening key op j created) e = rw e k
    returned_kept (queued key op i) e = rw e k
    returned_kept (encoding key op i slot) e = rw e k
    returned_kept (aborting op session pending) e = rw e k
    returned_kept ended e = rw e k

abort_begins-IsKept :
    (slots : List ℕ) (now : ℕ) (key : SessionKey) (op : OperationKey) (s : Service)
    → IsKept slots s
    → IsKept slots (abort_begins now key op s)
unfolding abort_begins
abort_begins-IsKept slots now key op s k =
    let shut : Service = record s {
      closed = put same_operation op (now + pending_req_expiry) s.closed;
    } in
    let closed_calm : Calm s shut = record {
      tasks = refl;
      task_count = refl;
      slots = refl;
      session_count = refl;
      left = refl;
      inflight = λ i. refl;
      made = λ h. h;
    } in
    add_task-IsKept slots _ _ (λ x. refl) (λ i. refl)
      (Calm-IsKept slots s _
        (Calm-trans s shut _ closed_calm (cancel_target-Calm op (session_of key op shut) shut)) k)

abort_returns-IsKept :
    (slots : List ℕ) (in_time : Bool) (t : ℕ) (s : Service)
    → IsKept slots s
    → IsKept slots (abort_returns in_time t s)
unfolding abort_returns is_ended
abort_returns-IsKept slots in_time t s k = returned_kept (s.tasks t) refl
  where
    returned_kept : (v : Task) → s.tasks t ≡ v → IsKept slots (abort_returns in_time t s)
    returned_kept (aborting op session pending) e =
        elim (Bool-cases (not in_time || is_drained op session pending s)) [
          | inl c ↦
              rw (e, c)
                (go_on slots s _ t _ (cancel_all-Calm op s.sessions s) (is_ended-false _ _ e refl)
                  (λ x. rw e refl) (λ n. rw e refl) k)
          | inr c ↦ rw (e, c) k
        ]
    returned_kept (waiting key op j created) e = rw e k
    returned_kept (opening key op j created) e = rw e k
    returned_kept (queued key op i) e = rw e k
    returned_kept (encoding key op i slot) e = rw e k
    returned_kept (draining key op i slot) e = rw e k
    returned_kept ended e = rw e k

-- What is left at the engine changes nothing of it.
left-IsKept :
    (slots : List ℕ) (left : List OperationKey) (s : Service)
    → IsKept slots s
    → IsKept slots (record s { left = left })
left-IsKept slots left s k = record {
  fresh = k.fresh;
  kept = k.kept;
  counted = k.counted;
  made = k.made;
  above = k.above;
}

step-IsKept : (slots : List ℕ) (e : Event) (s : Service) → IsKept slots s → IsKept slots (step s e)
unfolding step leave
step-IsKept slots (announces now transfer_id p_req_id) s k =
    Calm-IsKept slots s _ (announce-Calm now transfer_id p_req_id s) k
step-IsKept slots (publishes transfer_id p_req_id) s k =
    Calm-IsKept slots s _ (publish-Calm transfer_id p_req_id s) k
step-IsKept slots (drops transfer_id) s k = Calm-IsKept slots s _ (drop_meta-Calm transfer_id s) k
step-IsKept slots (opens now key op) s k =
    open_begins-IsKept slots key op _ (Calm-IsKept slots s _ (purge_closed-Calm now s) k)
step-IsKept slots (gives_up late t) s k = give_up-IsKept slots late t s k
step-IsKept slots (proceeds targets t) s k = open_proceeds-IsKept slots targets t s k
step-IsKept slots (opened now result t) s k = open_returns-IsKept slots now result t s k
step-IsKept slots (pulls now key op) s k =
    pull_begins-IsKept slots key op _ (Calm-IsKept slots s _ (purge_closed-Calm now s) k)
step-IsKept slots (takes t) s k = take_slot-IsKept slots t s k
step-IsKept slots (encoded now good t) s k = encode_returns-IsKept slots now good t s k
step-IsKept slots (open_late now t) s k =
    open_returns-IsKept slots now none t (leave t s) (left-IsKept slots _ s k)
step-IsKept slots (encode_late now t) s k =
    encode_returns-IsKept slots now false t (leave t s) (left-IsKept slots _ s k)
step-IsKept slots (finishes op) s k = left-IsKept slots _ s k
step-IsKept slots (drained t) s k = drain_returns-IsKept slots t s k
step-IsKept slots (aborts now key op) s k =
    abort_begins-IsKept slots now key op _ (Calm-IsKept slots s _ (purge_closed-Calm now s) k)
step-IsKept slots (answers in_time t) s k = abort_returns-IsKept slots in_time t s k
step-IsKept slots (sweeps now) s k = Calm-IsKept slots s _ (sweep-Calm now s.send_meta s) k

run-IsKept :
    (slots : List ℕ) (s : Service) (es : List Event) → IsKept slots s → IsKept slots (run s es)
unfolding run
run-IsKept slots s [] k = k
run-IsKept slots s (e ∷ es) k = run-IsKept slots (step s e) es (step-IsKept slots e s k)

start-IsKept : (slots : List ℕ) → IsKept slots (start slots)
unfolding start
start-IsKept slots = record {
  fresh = λ t h. refl;
  kept = λ x. omega arith;
  counted = λ i. refl;
  made = tt;
  above = λ i h. refl;
}

-- After any events from the start, in any order, a slot stands in the queue and with pulls as often as the
-- queue was given it at the start.
pub run-slots :
    (slots : List ℕ) (es : List Event) (x : ℕ)
    → let s = run (start slots) es in
      count x s.slots + total (holds x) s.tasks s.task_count ≡ count x slots
run-slots slots es = IsKept.kept (run-IsKept slots (start slots) es (start-IsKept slots))

-- After any events from the start, in any order, `inflight_chunks` of every session is the number of tasks
-- that are a pull of it, waiting for a slot, encoding or draining.
pub run-inflight :
    (slots : List ℕ) (es : List Event) (i : ℕ)
    → let s = run (start slots) es in
      Session.inflight_chunks (s.heap i) ≡ total (serves i) s.tasks s.task_count
run-inflight slots es i =
    sym (IsKept.counted (run-IsKept slots (start slots) es (start-IsKept slots)) i)
