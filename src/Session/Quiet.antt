-- ===== src/Session/Quiet.antt =====
-- The invariant of a draining abort for slots, encode jobs and other aborts.
use kvserve.Common.{
  ℕ, ◌+◌, ◌≤◌, ◌≡◌, inl, inr, refl, sym, subst, Bool, true, false, not, ◌||◌, Bool-cases, List, [],
  ◌∷◌, arith,
}
use kvserve.Session.State.{
  OperationKey, SessionKey, Session, Task, waiting, opening, queued, encoding, draining, aborting,
  ended, Service, same_operation, find, put, is_some, is_active, pending_req_expiry, set_task,
}
use kvserve.Session.Serve.{fail_session, take_slot, encode_returns, drain_returns}
use kvserve.Session.Abort.{session_of, abort_begins, is_drained, abort_returns}
use kvserve.Session.Frames.{cancel_target-Calm, cancel_all-Calm, chunk_done-Calm}
use kvserve.Session.Closing.{
  is_shut-put, cancel_target-closed, cancel_all-closed, chunk_done-is_shut,
}
use kvserve.Session.Watching.{
  IsWatched, Calm-IsWatched, same-IsWatched, set_task-IsWatched, add_task-IsWatched, open-IsWorking,
}
use kvserve.Session.Draining.{fail_session-IsWatched, slots-IsWatched, give_back-IsWatched}

module _ (op : OperationKey) (bound : ℕ) (pending : List ℕ) where
  pub take_slot-IsWatched :
      (t : ℕ) (s : Service)
      → IsWatched op bound pending s
      → IsWatched op bound pending (take_slot t s)
  unfolding take_slot
  take_slot-IsWatched t s w = took_watched (s.tasks t) s.slots refl refl
    where
      refused :
          (i slot : ℕ) (rest : List ℕ) (key : SessionKey) (op' : OperationKey)
          → s.tasks t ≡ queued key op' i
          → s.slots ≡ slot ∷ rest
          → (not (is_active (Session.phase (s.heap i)))
              || is_some (find same_operation op' s.closed))
            ≡ true
          → take_slot t s
            ≡ set_task t (draining key op' i slot) (fail_session i (record s { slots = rest }))
      refused i slot rest key op' e q c = ground (arith, e, q, c)

      used :
          (i slot : ℕ) (rest : List ℕ) (key : SessionKey) (op' : OperationKey)
          → s.tasks t ≡ queued key op' i
          → s.slots ≡ slot ∷ rest
          → (not (is_active (Session.phase (s.heap i)))
              || is_some (find same_operation op' s.closed))
            ≡ false
          → take_slot t s ≡ set_task t (encoding key op' i slot) (record s { slots = rest })
      used i slot rest key op' e q c = ground (arith, e, q, c)

      empty :
          {key : SessionKey} {op' : OperationKey} {i : ℕ}
          → s.tasks t ≡ queued key op' i
          → s.slots ≡ []
          → take_slot t s ≡ s
      empty e q = ground (arith, e, q)

      took_watched :
          (v : Task) (queue : List ℕ)
          → s.tasks t ≡ v
          → s.slots ≡ queue
          → IsWatched op bound pending (take_slot t s)
      took_watched (queued key op' i) [] e q =
          subst (IsWatched op bound pending) (sym (empty e q)) w
      took_watched (queued key op' i) (slot ∷ rest) e q =
          elim (Bool-cases (
            not (is_active (Session.phase (s.heap i)))
            || is_some (find same_operation op' s.closed))) [
              | inl c ↦
                  subst (IsWatched op bound pending) (sym (refused i slot rest key op' e q c)) (
                    set_task-IsWatched op bound pending t _ _ (λ g. absurd (ground (arith, g)))
                      (fail_session-IsWatched op bound pending i _
                        (slots-IsWatched op bound pending rest s w)))
              | inr c ↦ subst (IsWatched op bound pending) (sym (used i slot rest key op' e q c)) (
                  set_task-IsWatched op bound pending t _ _
                    (λ g. absurd (open-IsWorking op bound pending op' s (ground (arith, c)) w g))
                    (slots-IsWatched op bound pending rest s w))
            ]
      took_watched (waiting key op' j created) queue e q = rw e w
      took_watched (opening key op' j created) queue e q = rw e w
      took_watched (encoding key op' i slot) queue e q = rw e w
      took_watched (draining key op' i slot) queue e q = rw e w
      took_watched (aborting op' session others) queue e q = rw e w
      took_watched ended queue e q = rw e w

  pub encode_returns-IsWatched :
      (now : ℕ) (good : Bool) (t : ℕ) (s : Service)
      → bound ≤ now + pending_req_expiry
      → IsWatched op bound pending s
      → IsWatched op bound pending (encode_returns now good t s)
  unfolding encode_returns
  encode_returns-IsWatched now good t s h w = returned_watched (s.tasks t) good refl
    where
      returned_watched :
          (v : Task) (answer : Bool)
          → s.tasks t ≡ v
          → IsWatched op bound pending (encode_returns now answer t s)
      returned_watched (encoding key op' i slot) true e = rw e (
          give_back-IsWatched op bound pending t i slot _ (
            Calm-IsWatched op bound pending s _ (chunk_done-Calm now i s)
              (chunk_done-is_shut op bound now i s h w.shut) w))
      returned_watched (encoding key op' i slot) false e = rw e (
          set_task-IsWatched op bound pending t _ _ (λ g. absurd (ground (arith, g)))
            (fail_session-IsWatched op bound pending i s w))
      returned_watched (waiting key op' j created) answer e = rw e w
      returned_watched (opening key op' j created) answer e = rw e w
      returned_watched (queued key op' i) answer e = rw e w
      returned_watched (draining key op' i slot) answer e = rw e w
      returned_watched (aborting op' session others) answer e = rw e w
      returned_watched ended answer e = rw e w

  pub drain_returns-IsWatched :
      (t : ℕ) (s : Service)
      → IsWatched op bound pending s
      → IsWatched op bound pending (drain_returns t s)
  unfolding drain_returns
  drain_returns-IsWatched t s w = returned_watched (s.tasks t) refl
    where
      returned_watched : (v : Task) → s.tasks t ≡ v → IsWatched op bound pending (drain_returns t s)
      returned_watched (draining key op' i slot) e =
          rw e (give_back-IsWatched op bound pending t i slot s w)
      returned_watched (waiting key op' j created) e = rw e w
      returned_watched (opening key op' j created) e = rw e w
      returned_watched (queued key op' i) e = rw e w
      returned_watched (encoding key op' i slot) e = rw e w
      returned_watched (aborting op' session others) e = rw e w
      returned_watched ended e = rw e w

  pub abort_begins-IsWatched :
      (now : ℕ) (key : SessionKey) (op' : OperationKey) (s : Service)
      → bound ≤ now + pending_req_expiry
      → IsWatched op bound pending s
      → IsWatched op bound pending (abort_begins now key op' s)
  unfolding abort_begins
  abort_begins-IsWatched now key op' s h w =
      let shut : Service = record s {
        closed = put same_operation op' (now + pending_req_expiry) s.closed;
      } in
      let found = session_of key op' shut in
      add_task-IsWatched op bound pending _ _ refl (
        same-IsWatched op bound pending shut _ (cancel_target-Calm op' found shut)
          (cancel_target-closed op' found shut)
          (record {
            shut = is_shut-put op op' bound _ s.closed h w.shut;
            clear = w.clear;
            listed = w.listed;
          }))

  pub abort_returns-IsWatched :
      (in_time : Bool) (t : ℕ) (s : Service)
      → IsWatched op bound pending s
      → IsWatched op bound pending (abort_returns in_time t s)
  unfolding abort_returns
  abort_returns-IsWatched in_time t s w = returned_watched (s.tasks t) refl
    where
      returned_watched :
          (v : Task) → s.tasks t ≡ v → IsWatched op bound pending (abort_returns in_time t s)
      returned_watched (aborting op' session others) e =
          elim (Bool-cases (not in_time || is_drained op' session others s)) [
            | inl c ↦
                rw (e, c)
                  (set_task-IsWatched op bound pending t _ _ (λ g. absurd (ground (arith, g)))
                    (same-IsWatched op bound pending s _ (cancel_all-Calm op' s.sessions s)
                      (cancel_all-closed op' s.sessions s) w))
            | inr c ↦ rw (e, c) w
          ]
      returned_watched (waiting key op' j created) e = rw e w
      returned_watched (opening key op' j created) e = rw e w
      returned_watched (queued key op' i) e = rw e w
      returned_watched (encoding key op' i slot) e = rw e w
      returned_watched (draining key op' i slot) e = rw e w
      returned_watched ended e = rw e w
