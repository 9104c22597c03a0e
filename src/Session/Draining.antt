-- ===== src/Session/Draining.antt =====
-- The invariant of a draining abort for the answers of the engine and for pulls.
use kvserve.Common.{
  ℕ, ◌+◌, ◌≤◌, ◌<◌, ◌≡◌, inl, inr, refl, true, Bool-cases, Option, Option-cases, none, some, List,
  ◌==◌, arith,
}
use kvserve.Session.State.{
  OperationKey, SessionKey, Session, Task, waiting, opening, queued, encoding, draining, aborting,
  ended, Service, same_key, find, is_active, pending_req_expiry, set_session,
}
use kvserve.Session.Sending.{discard_if_over}
use kvserve.Session.Open.{new_session, add_session, open_returns}
use kvserve.Session.Serve.{fail_session, count_up, count_down, pull_begins, give_back}
use kvserve.Session.Abort.{purge_closed}
use kvserve.Session.Frames.{discard_if_over-Calm, purge_closed-Calm, complete_session-Calm}
use kvserve.Session.Closing.{is_shut-purge, discard_if_over-closed, complete_session-is_shut}
use kvserve.Session.Watching.{
  IsWatched, Calm-IsWatched, same-IsWatched, set_task-IsWatched, add_task-IsWatched,
  open_fails-IsWatched,
}

module _ (op : OperationKey) (bound : ℕ) (pending : List ℕ) where
  pub purge_closed-IsWatched :
      (now : ℕ) (s : Service)
      → now < bound
      → IsWatched op bound pending s
      → IsWatched op bound pending (purge_closed now s)
  unfolding purge_closed
  purge_closed-IsWatched now s h w =
      Calm-IsWatched op bound pending s _ (purge_closed-Calm now s)
        (is_shut-purge op bound now s.closed h w.shut) w

  pub add_session-IsWatched :
      (session : Session) (s : Service)
      → IsWatched op bound pending s
      → IsWatched op bound pending (add_session session s)
  unfolding add_session
  add_session-IsWatched session s w = record { shut = w.shut; clear = w.clear; listed = w.listed }

  pub open_returns-IsWatched :
      (now : ℕ) (result : Option ℕ) (t : ℕ) (s : Service)
      → bound ≤ now + pending_req_expiry
      → IsWatched op bound pending s
      → IsWatched op bound pending (open_returns now result t s)
  unfolding open_returns
  open_returns-IsWatched now result t s h w = returned_watched (s.tasks t) result refl
    where
      returned_watched :
          (v : Task) (answer : Option ℕ)
          → s.tasks t ≡ v
          → IsWatched op bound pending (open_returns now answer t s)
      returned_watched (opening key op' j created) none e =
          rw e (open_fails-IsWatched op bound pending t j created true s w)
      returned_watched (opening key op' j created) (some chunks) e =
          let over =
            set_task-IsWatched op bound pending t ended _ (λ g. absurd (ground (arith, g)))
              (add_session-IsWatched (new_session key op' chunks j) s w) in
          rw e (elim (Bool-cases (chunks == 0)) [
            | inl c ↦ rw c (
                Calm-IsWatched op bound pending _ _ (complete_session-Calm now s.session_count _)
                  (complete_session-is_shut op bound now s.session_count _ h over.shut) over)
            | inr c ↦ rw c over
          ])
      returned_watched (waiting key op' j created) answer e = rw e w
      returned_watched (queued key op' i) answer e = rw e w
      returned_watched (encoding key op' i slot) answer e = rw e w
      returned_watched (draining key op' i slot) answer e = rw e w
      returned_watched (aborting op' session others) answer e = rw e w
      returned_watched ended answer e = rw e w

  pub fail_session-IsWatched :
      (i : ℕ) (s : Service)
      → IsWatched op bound pending s
      → IsWatched op bound pending (fail_session i s)
  unfolding fail_session set_session
  fail_session-IsWatched i s w = record { shut = w.shut; clear = w.clear; listed = w.listed }

  pub count_up-IsWatched :
      (i : ℕ) (s : Service)
      → IsWatched op bound pending s
      → IsWatched op bound pending (count_up i s)
  unfolding count_up set_session
  count_up-IsWatched i s w = record { shut = w.shut; clear = w.clear; listed = w.listed }

  pub count_down-IsWatched :
      (i : ℕ) (s : Service)
      → IsWatched op bound pending s
      → IsWatched op bound pending (count_down i s)
  unfolding count_down set_session
  count_down-IsWatched i s w = record { shut = w.shut; clear = w.clear; listed = w.listed }

  pub discard_if_over-IsWatched :
      (i : ℕ) (s : Service)
      → IsWatched op bound pending s
      → IsWatched op bound pending (discard_if_over i s)
  discard_if_over-IsWatched i s w =
      same-IsWatched op bound pending s _ (discard_if_over-Calm i s) (discard_if_over-closed i s) w

  pub pull_begins-IsWatched :
      (key : SessionKey) (op' : OperationKey) (s : Service)
      → IsWatched op bound pending s
      → IsWatched op bound pending (pull_begins key op' s)
  unfolding pull_begins
  pull_begins-IsWatched key op' s w = elim (Option-cases (find same_key key s.sessions)) [
    | inl e ↦ rw e w
    | inr (i, e) ↦ elim (Bool-cases (is_active (Session.phase (s.heap i)))) [
      | inl a ↦ rw (e, a) (add_task-IsWatched op bound pending _ _ refl (count_up-IsWatched i s w))
      | inr a ↦ rw (e, a) (discard_if_over-IsWatched i _ (fail_session-IsWatched i s w))
    ]
  ]

  pub slots-IsWatched :
      (slots : List ℕ) (s : Service)
      → IsWatched op bound pending s
      → IsWatched op bound pending (record s { slots = slots })
  slots-IsWatched slots s w = record { shut = w.shut; clear = w.clear; listed = w.listed }

  pub give_back-IsWatched :
      (t i slot : ℕ) (s : Service)
      → IsWatched op bound pending s
      → IsWatched op bound pending (give_back t i slot s)
  unfolding give_back
  give_back-IsWatched t i slot s w = discard_if_over-IsWatched i _ (
      count_down-IsWatched i _ (
        set_task-IsWatched op bound pending t ended _ (λ g. absurd (ground (arith, g)))
          (slots-IsWatched _ s w)))
