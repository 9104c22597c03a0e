-- ===== src/Session/Safety.antt =====
-- Aborts and the jobs of their operations, over sequences of events.
use kvserve.Common.{
  ℕ, zero, suc, ◌+◌, ◌≤◌, ◌<◌, ◌≡◌, inl, inr, refl, sym, ap, ◌∙◌, Bool, true, false, Bool-cases,
  Option, List, [], ◌∷◌, ◌==◌, All, arith,
}
use kvserve.Session.State.{
  OperationKey, SessionKey, Task, waiting, opening, queued, encoding, draining, aborting, ended,
  Service, same_operation, put, pending_req_expiry, add_task,
}
use kvserve.Session.Open.{drop_meta}
use kvserve.Session.Abort.{
  purge_closed, operation?, is_operation, operations_of, session_of, cancel_target, abort_begins,
  is_ended, all_ended, is_drained,
}
use kvserve.Session.Frames.{
  Calm, cancel_target-Calm, announce-Calm, publish-Calm, drop_meta-Calm, sweep-Calm,
}
use kvserve.Session.Closing.{
  is_shut, put-is_shut, cancel_target-closed, announce-closed, publish-closed, sweep-closed,
}
use kvserve.Session.Run.{
  Event, announces, publishes, drops, opens, gives_up, proceeds, opened, pulls, takes, encoded,
  drained, open_late, encode_late, finishes, forget, aborts, answers, sweeps, step, run,
}
use kvserve.Session.Watching.{
  is_working, is_listed, is_left, IsWatched, same-IsWatched, add_task-IsWatched,
  open_begins-IsWatched, give_up-IsWatched, open_proceeds-IsWatched,
}
use kvserve.Session.Draining.{purge_closed-IsWatched, open_returns-IsWatched, pull_begins-IsWatched}
use native.Mathlib.Decide.{dec_lt}
use kvserve.Session.Quiet.{
  take_slot-IsWatched, encode_returns-IsWatched, drain_returns-IsWatched, abort_begins-IsWatched,
  abort_returns-IsWatched,
}

-- The clock from `t0` on, before an entry made at `t0` is purged, and no wait for the engine that is cut off.
pub record IsAt (t0 now : ℕ) : Type 0 where
  pub after : t0 ≤ now
  pub before : now < t0 + pending_req_expiry

abbrev pub IsWithin : ℕ → Event → Type 0
IsWithin t0 (opens now key op) = IsAt t0 now
IsWithin t0 (opened now result t) = IsAt t0 now
IsWithin t0 (pulls now key op) = IsAt t0 now
IsWithin t0 (encoded now good t) = IsAt t0 now
IsWithin t0 (aborts now key op) = IsAt t0 now
IsWithin t0 (open_late now t) = ⊥
IsWithin t0 (encode_late now t) = ⊥
IsWithin t0 other = Unit

forget_clear :
    (op op' : OperationKey) (left : List OperationKey)
    → is_left op left ≡ false
    → is_left op (forget op' left) ≡ false
unfolding forget
forget_clear op op' [] h = refl
forget_clear op op' (other ∷ rest) h = ground (arith, h, forget_clear op op' rest)

module _ (op : OperationKey) (t0 : ℕ) (pending : List ℕ) where
  step-IsWatched :
      (e : Event) (s : Service)
      → IsWithin t0 e
      → IsWatched op (t0 + pending_req_expiry) pending s
      → IsWatched op (t0 + pending_req_expiry) pending (step s e)
  unfolding step drop_meta
  step-IsWatched (announces now transfer_id p_req_id) s h w =
      same-IsWatched op _ pending s _ (announce-Calm now transfer_id p_req_id s)
        (announce-closed now transfer_id p_req_id s) w
  step-IsWatched (publishes transfer_id p_req_id) s h w =
      same-IsWatched op _ pending s _ (publish-Calm transfer_id p_req_id s)
        (publish-closed transfer_id p_req_id s) w
  step-IsWatched (drops transfer_id) s h w =
      same-IsWatched op _ pending s _ (drop_meta-Calm transfer_id s) refl w
  step-IsWatched (opens now key op') s h w =
      open_begins-IsWatched op _ pending key op' _
        (purge_closed-IsWatched op _ pending now s h.before w)
  step-IsWatched (gives_up late t) s h w = give_up-IsWatched op _ pending late t s w
  step-IsWatched (proceeds targets t) s h w = open_proceeds-IsWatched op _ pending targets t s w
  step-IsWatched (opened now result t) s h w =
      open_returns-IsWatched op _ pending now result t s (omega (arith, h.after)) w
  step-IsWatched (pulls now key op') s h w =
      pull_begins-IsWatched op _ pending key op' _
        (purge_closed-IsWatched op _ pending now s h.before w)
  step-IsWatched (takes t) s h w = take_slot-IsWatched op _ pending t s w
  step-IsWatched (encoded now good t) s h w =
      encode_returns-IsWatched op _ pending now good t s (omega (arith, h.after)) w
  step-IsWatched (open_late now t) s h w = absurd h
  step-IsWatched (encode_late now t) s h w = absurd h
  step-IsWatched (finishes op') s h w = record {
    shut = w.shut;
    clear = forget_clear op op' s.left w.clear;
    listed = w.listed;
  }
  step-IsWatched (drained t) s h w = drain_returns-IsWatched op _ pending t s w
  step-IsWatched (aborts now key op') s h w =
      abort_begins-IsWatched op _ pending now key op' _ (omega (arith, h.after))
        (purge_closed-IsWatched op _ pending now s h.before w)
  step-IsWatched (answers in_time t) s h w = abort_returns-IsWatched op _ pending in_time t s w
  step-IsWatched (sweeps now) s h w =
      same-IsWatched op _ pending s _ (sweep-Calm now s.send_meta s)
        (sweep-closed now s.send_meta s) w

  run-IsWatched :
      (es : List Event) (s : Service)
      → All (IsWithin t0) es
      → IsWatched op (t0 + pending_req_expiry) pending s
      → IsWatched op (t0 + pending_req_expiry) pending (run s es)
  unfolding run
  run-IsWatched [] s h w = w
  run-IsWatched (e ∷ es) s h w = run-IsWatched es (step s e) h.1 (step-IsWatched e s h.0 w)

is_working-is_operation :
    (op : OperationKey) (v : Task) → is_working op v ≡ true → is_operation op (operation? v) ≡ true
unfolding operation?
is_working-is_operation op (opening key op' j created) g = g
is_working-is_operation op (encoding key op' i slot) g = g
is_working-is_operation op (waiting key op' j created) g = absurd (ground (arith, g))
is_working-is_operation op (queued key op' i) g = absurd (ground (arith, g))
is_working-is_operation op (draining key op' i slot) g = absurd (ground (arith, g))
is_working-is_operation op (aborting op' session others) g = absurd (ground (arith, g))
is_working-is_operation op ended g = absurd (ground (arith, g))

is_listed-operations_of :
    (op : OperationKey) (tasks : ℕ → Task) (n u : ℕ)
    → u < n
    → is_working op (tasks u) ≡ true
    → is_listed u (operations_of op tasks n) ≡ true
unfolding operations_of operation?
is_listed-operations_of op tasks zero u h g = absurd (omega (arith, h))
is_listed-operations_of op tasks (suc n) u h g = elim (dec_lt u n) [
  | yes p ↦ ground (arith, is_listed-operations_of op tasks n u p g)
  | no p ↦ last (omega (arith, h, p))
]
  where
    last : n ≡ u → is_listed u (operations_of op tasks (suc n)) ≡ true
    last e =
        let there : is_operation op (operation? (tasks n)) ≡ true =
          ap (λ x. is_operation op (operation? (tasks x))) e
          ∙ is_working-is_operation op (tasks u) g in
        rw there (ground (arith, e))

all_ended-is_ended :
    (tasks : ℕ → Task) (ts : List ℕ) (u : ℕ)
    → all_ended tasks ts ≡ true
    → is_listed u ts ≡ true
    → is_ended (tasks u) ≡ true
unfolding all_ended
all_ended-is_ended tasks [] u h g = absurd (ground (arith, g))
all_ended-is_ended tasks (t ∷ ts) u h g = elim (Bool-cases (t == u)) [
  | inl e ↦
      let same : u ≡ t = ground (arith, e) in ap (λ x. is_ended (tasks x)) same ∙ ground (arith, h)
  | inr e ↦ all_ended-is_ended tasks ts u (ground (arith, h)) (ground (arith, g, e))
]

-- `drain()` of this abort has returned.
abbrev pub has_drained : Task → Service → Bool
has_drained (aborting op session pending) s = is_drained op session pending s
has_drained other s = false

-- The state right after an abort has closed its operation and cancelled its session.
abort_begins-IsWatched_first :
    (now : ℕ) (key : SessionKey) (op : OperationKey) (s : Service)
    → is_left op s.left ≡ false
    → let shut : Service = record s {
      closed = put same_operation op (now + pending_req_expiry) s.closed;
    } in
      let s' = cancel_target op (session_of key op shut) shut in
      IsWatched op
        (now + pending_req_expiry)
        (operations_of op s'.tasks s'.task_count)
        (abort_begins now key op s)
unfolding abort_begins
abort_begins-IsWatched_first now key op s clear =
    let shut : Service = record s {
      closed = put same_operation op (now + pending_req_expiry) s.closed;
    } in
    let found = session_of key op shut in
    let s' = cancel_target op found shut in
    add_task-IsWatched op _ _ _ s' refl (record {
      shut =
          ap (is_shut op (now + pending_req_expiry)) (cancel_target-closed op found shut)
          ∙ put-is_shut op _ s.closed;
      clear = ap (is_left op) (Calm.left (cancel_target-Calm op found shut)) ∙ clear;
      listed = is_listed-operations_of op s'.tasks s'.task_count;
    })

first_task :
    (now : ℕ) (key : SessionKey) (op : OperationKey) (s : Service)
    → let shut : Service = record s {
      closed = put same_operation op (now + pending_req_expiry) s.closed;
    } in
      let s' = cancel_target op (session_of key op shut) shut in
      Service.tasks (abort_begins now key op s) s.task_count
      ≡ aborting op (session_of key op shut) (operations_of op s'.tasks s'.task_count)
unfolding abort_begins add_task
first_task now key op s =
    let shut : Service = record s {
      closed = put same_operation op (now + pending_req_expiry) s.closed;
    } in
    let c = cancel_target-Calm op (session_of key op shut) shut in ground (arith, c.task_count)

-- Nothing works for the operation: the list of what still runs is empty.
quiet :
    (op : OperationKey) (bound : ℕ) (s : Service)
    → IsWatched op bound [] s
    → (u : ℕ) → u < s.task_count
    → is_working op (s.tasks u) ≡ false
quiet op bound s w u h = elim (Bool-cases (is_working op (s.tasks u))) [
  | inl e ↦ absurd (ground (arith, w.listed u h e))
  | inr e ↦ e
]

is_working-is_ended :
    (op : OperationKey) (v : Task) → is_working op v ≡ true → is_ended v ≡ true → ⊥
unfolding is_ended
is_working-is_ended op ended g e = absurd (ground (arith, g))
is_working-is_ended op (opening key op' j created) g e = ground (arith, e)
is_working-is_ended op (encoding key op' i slot) g e = ground (arith, e)
is_working-is_ended op (waiting key op' j created) g e = ground (arith, g)
is_working-is_ended op (queued key op' i) g e = ground (arith, g)
is_working-is_ended op (draining key op' i slot) g e = ground (arith, g)
is_working-is_ended op (aborting op' session others) g e = ground (arith, g)

drained-IsWatched :
    (op : OperationKey) (bound : ℕ) (found : Option ℕ) (pending : List ℕ) (s : Service)
    → is_drained op found pending s ≡ true
    → IsWatched op bound pending s
    → IsWatched op bound [] s
unfolding is_drained
drained-IsWatched op bound found pending s d w = record {
  shut = w.shut;
  clear = w.clear;
  listed = λ u h g. absurd (
      is_working-is_ended op (s.tasks u) g
        (all_ended-is_ended s.tasks pending u (ground (arith, d)) (w.listed u h g)));
}

-- An abort that comes at `now`, with no job of its operation left at the engine by a wait that timed out, has
-- drained after the events `es`. Then after any events `later`, if all events are of a clock between `now`
-- and `now` plus the expiry of `_closed` and none is a wait for the engine that times out, no task waits for
-- an encode or open job of its operation, and none such is left at the engine.
pub abort-quiet :
    (now : ℕ) (key : SessionKey) (op : OperationKey) (s : Service) (es later : List Event) (u : ℕ)
    → is_left op s.left ≡ false
    → All (IsWithin now) es
    → All (IsWithin now) later
    → has_drained
        (Service.tasks (step s (aborts now key op)) s.task_count)
        (run (step s (aborts now key op)) es)
      ≡ true
    → u < Service.task_count (run (run (step s (aborts now key op)) es) later)
    → (is_working op (Service.tasks (run (run (step s (aborts now key op)) es) later) u) ≡ false)
      × (is_left op (Service.left (run (run (step s (aborts now key op)) es) later)) ≡ false)
unfolding step purge_closed
abort-quiet now key op s es later u clear within within_later d h =
    let s1 = abort_begins now key op (purge_closed now s) in
    let w =
      run-IsWatched op now _ es s1 within
        (abort_begins-IsWatched_first now key op (purge_closed now s) clear) in
    let last =
      (run-IsWatched op now [] later (run s1 es) within_later (
        drained-IsWatched op _ _ _ (run s1 es)
          (ap (λ v. has_drained v (run s1 es)) (sym (first_task now key op (purge_closed now s)))
            ∙ d)
          w)) in
    (quiet op _ _ last u h, last.clear)
