-- ===== src/Consumer/Runs.antt =====
-- Receiver slots and successful sessions, over sequences of events.
use kvserve.Common.{
  ℕ, ◌+◌, ◌<◌, ◌≡◌, inl, inr, refl, true, Bool-cases, List, [], ◌∷◌, ltb, ◌==◌, arith,
}
use kvserve.Session.State.{update}
use kvserve.Session.Totals.{count, total, total-update, total-update_last}
use kvserve.Consumer.State.{ended, Pull, Receive, new_receive, Helper}
use kvserve.Consumer.Actions.{Action, act, Event, connects, acts, step, run, start}
use kvserve.Consumer.Fine.{size, IsFine, at-stage}
use kvserve.Consumer.Slots.{act-Kept}

record IsKept (slots : List ℕ) (s : Helper) : Type 0 where
  sound : (n : ℕ) → n < s.session_count → IsFine (s.sessions n)
  kept :
      (x : ℕ)
      → count x s.receiver_slots + total (λ r. count x (Receive.owned r)) s.sessions s.session_count
        ≡ count x slots

new_receive-IsFine : IsFine new_receive
unfolding new_receive
new_receive-IsFine = record {
  covered = λ x. omega arith;
  rest = tt;
  counted = refl;
  within = omega arith;
  room = tt;
  at = (refl, refl);
}

connects-IsKept : (slots : List ℕ) (s : Helper) → IsKept slots s → IsKept slots (step s connects)
unfolding step new_receive
connects-IsKept slots s k = record {
  sound = λ n h. elim (Bool-cases (n == s.session_count)) [
    | inl e ↦ rw e new_receive-IsFine
    | inr e ↦ rw e (k.sound n (ground (arith, h, e)))
  ];
  kept = λ x. omega (
    arith,
    total-update_last (λ (r : Receive). count x (Receive.owned r)) s.sessions new_receive
        s.session_count,
    k.kept x,
  );
}

acts-IsKept :
    (slots : List ℕ) (s : Helper) (n : ℕ) (action : Action)
    → IsKept slots s
    → IsKept slots (step s (acts n action))
unfolding step
acts-IsKept slots s n action k = elim (Bool-cases (ltb n s.session_count)) [
  | inr e ↦ rw e k
  | inl e ↦ rw e (acted (ground (arith, e)))
]
  where
    acted :
        n < s.session_count
        → IsKept slots (record s {
          sessions = update s.sessions n (
              (act action
                (Receive.stage (s.sessions n))
                (Receive.issue_task (s.sessions n))
                s.receiver_slots
                (s.sessions n)).0);
          receiver_slots =
              (act action
                (Receive.stage (s.sessions n))
                (Receive.issue_task (s.sessions n))
                s.receiver_slots
                (s.sessions n)).1;
        })
    acted below =
        let r = s.sessions n in
        let a =
          act-Kept action r.stage r.issue_task s.receiver_slots r refl refl (k.sound n below) in
        record {
          sound = λ m h. elim (Bool-cases (m == n)) [
            | inl e ↦ rw e a.fine
            | inr e ↦ rw e (k.sound m h)
          ];
          kept = λ x. omega (
            arith,
            total-update (λ (r : Receive). count x (Receive.owned r)) s.sessions n
                ((act action r.stage r.issue_task s.receiver_slots r).0) s.session_count below,
            a.same x,
            k.kept x,
          );
        }

run-IsKept :
    (slots : List ℕ) (s : Helper) (es : List Event) → IsKept slots s → IsKept slots (run s es)
unfolding run
run-IsKept slots s [] k = k
run-IsKept slots s (connects ∷ es) k =
    run-IsKept slots (step s connects) es (connects-IsKept slots s k)
run-IsKept slots s (acts n action ∷ es) k =
    run-IsKept slots (step s (acts n action)) es (acts-IsKept slots s n action k)

start-IsKept : (slots : List ℕ) → IsKept slots (start slots)
unfolding start
start-IsKept slots = record { sound = λ n h. absurd (omega (arith, h)); kept = λ x. omega arith }

-- After any events from the start, in any order, a slot stands in the queue and in the `owned` sets of the
-- sessions as often as the queue was given it at the start.
pub run-receiver_slots :
    (slots : List ℕ) (es : List Event) (x : ℕ)
    → let s = run (start slots) es in
      count x s.receiver_slots + total (λ r. count x (Receive.owned r)) s.sessions s.session_count
      ≡ count x slots
run-receiver_slots slots es = IsKept.kept (run-IsKept slots (start slots) es (start-IsKept slots))

-- After any events from the start, in any order, a session that has returned no failed block has sent a pull
-- for each of its chunks, has got data for each pull, and has no decode task left.
pub run-success :
    (slots : List ℕ) (es : List Event) (n : ℕ)
    → n < Helper.session_count (run (start slots) es)
    → Receive.stage (Helper.sessions (run (start slots) es) n) ≡ ended true
    → let r = Helper.sessions (run (start slots) es) n in
      (r.issued ≡ r.total_chunks)
      × (r.completed ≡ r.total_chunks)
      × (r.inflight ≡ [])
      × (r.decode_tasks ≡ [])
run-success slots es n below e =
    let r = Helper.sessions (run (start slots) es) n in
    let f = IsKept.sound (run-IsKept slots (start slots) es (start-IsKept slots)) n below in
    let done : r.completed ≡ r.total_chunks = at-stage r (ended true) e f in
    (
      omega (arith, f.counted, f.within, done),
      done,
      none_left r.inflight (omega (arith, f.counted, f.within, done)),
      rw e at f.rest,
    )
  where
    none_left : (ps : List Pull) → size ps ≡ 0 → ps ≡ []
    none_left [] q = refl
    none_left (p ∷ ps) q = absurd (omega (arith, q))
