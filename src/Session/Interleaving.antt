-- ===== src/Session/Interleaving.antt =====
-- The invariant of the slots and of the chunks in flight, for opens and for pulls that begin.
use kvserve.Common.{
  ℕ, suc, ◌<◌, ◌≡◌, inl, inr, refl, sym, ◌∙◌, Bool, true, false, not, ◌&&◌, ◌||◌, Bool-cases,
  Option, Option-cases, none, some, List, ◌==◌, arith,
}
use kvserve.Session.State.{
  SendState, OperationKey, SessionKey, Session, Task, waiting, opening, queued, encoding, draining,
  aborting, ended, Service, update, same_operation, same_key, find, is_some, is_active, add_task,
  set_session,
}
use kvserve.Session.Open.{give_up, open_proceeds, new_session, add_session, open_returns}
use kvserve.Session.Serve.{count_up, pull_begins}
use kvserve.Session.Abort.{is_ended}
use kvserve.Session.Frames.{
  calm, Calm-trans, discard_if_over-Calm, fail_session-Calm, claim-Calm, complete_session-Calm,
}
use kvserve.Session.Tables.{IsMade-suc, All-put, All-find}
use kvserve.Session.Slots.{IsKept, Calm-IsKept, Added-IsKept}
use kvserve.Session.Rest.{is_ended-false, go_on, open_fails-IsKept}

pub give_up-IsKept :
    (slots : List ℕ) (late : Bool) (t : ℕ) (s : Service)
    → IsKept slots s
    → IsKept slots (give_up late t s)
unfolding give_up is_ended
give_up-IsKept slots late t s k = gave_up_kept (s.tasks t) refl
  where
    gave_up_kept : (v : Task) → s.tasks t ≡ v → IsKept slots (give_up late t s)
    gave_up_kept (waiting key op j created) e =
        elim (Bool-cases (
          not (SendState.ready (s.send_states j))
          && (is_some (find same_operation op s.closed) || late))) [
            | inr r ↦ rw (e, r) k
            | inl r ↦
                rw (e, r)
                  (open_fails-IsKept slots s s t j created false (calm s)
                    (is_ended-false _ _ e refl) (λ x. rw e refl) (λ i. rw e refl) k)
          ]
    gave_up_kept (opening key op j created) e = rw e k
    gave_up_kept (queued key op i) e = rw e k
    gave_up_kept (encoding key op i slot) e = rw e k
    gave_up_kept (draining key op i slot) e = rw e k
    gave_up_kept (aborting op session pending) e = rw e k
    gave_up_kept ended e = rw e k

pub open_proceeds-IsKept :
    (slots : List ℕ) (targets t : ℕ) (s : Service)
    → IsKept slots s
    → IsKept slots (open_proceeds targets t s)
unfolding open_proceeds is_ended
open_proceeds-IsKept slots targets t s k = proceeded_kept (s.tasks t) refl
  where
    proceeded_kept : (v : Task) → s.tasks t ≡ v → IsKept slots (open_proceeds targets t s)
    proceeded_kept (waiting key op j created) e =
        elim (Bool-cases (SendState.ready (s.send_states j))) [
          | inr r ↦ rw (e, r) k
          | inl r ↦ elim (Bool-cases (is_some (find same_operation op s.closed))) [
            | inl c ↦
                rw (e, r, c)
                  (open_fails-IsKept slots s _ t j created true (claim-Calm targets j s)
                    (is_ended-false _ _ e refl) (λ x. rw e refl) (λ i. rw e refl) k)
            | inr c ↦
                rw (e, r, c)
                  (go_on slots s _ t _ (claim-Calm targets j s) (is_ended-false _ _ e refl)
                    (λ x. rw e refl) (λ i. rw e refl) k)
          ]
        ]
    proceeded_kept (opening key op j created) e = rw e k
    proceeded_kept (queued key op i) e = rw e k
    proceeded_kept (encoding key op i slot) e = rw e k
    proceeded_kept (draining key op i slot) e = rw e k
    proceeded_kept (aborting op session pending) e = rw e k
    proceeded_kept ended e = rw e k

-- A session that starts with nothing in flight.
pub add_session-IsKept :
    (slots : List ℕ) (session : Session) (s : Service)
    → session.inflight_chunks ≡ 0
    → IsKept slots s
    → IsKept slots (add_session session s)
unfolding add_session
add_session-IsKept slots session s none_yet k = record {
  fresh = k.fresh;
  kept = k.kept;
  counted = λ i. k.counted i ∙ sym (same i);
  made =
      All-put (λ i. i < suc s.session_count) same_key _ _ s.sessions (omega arith)
        (IsMade-suc s.session_count s.sessions k.made);
  above = λ i h. same i ∙ k.above i (omega (arith, h));
}
  where
    same :
        (i : ℕ)
        → Session.inflight_chunks (update s.heap s.session_count session i)
          ≡ Session.inflight_chunks (s.heap i)
    same i = ground (arith, k.above s.session_count (omega arith), none_yet)

pub open_returns-IsKept :
    (slots : List ℕ) (now : ℕ) (result : Option ℕ) (t : ℕ) (s : Service)
    → IsKept slots s
    → IsKept slots (open_returns now result t s)
unfolding open_returns is_ended new_session add_session
open_returns-IsKept slots now result t s k = returned_kept (s.tasks t) result refl
  where
    returned_kept :
        (v : Task) (answer : Option ℕ) → s.tasks t ≡ v → IsKept slots (open_returns now answer t s)
    returned_kept (opening key op j created) none e = rw e (
        open_fails-IsKept slots s s t j created true (calm s) (is_ended-false _ _ e refl)
          (λ x. rw e refl) (λ i. rw e refl) k)
    returned_kept (opening key op j created) (some chunks) e =
        let made = add_session-IsKept slots (new_session key op chunks j) s refl k in
        let over =
          go_on slots _ _ t ended (calm _) (is_ended-false _ _ e refl) (λ x. rw e refl)
            (λ i. rw e refl) made in
        rw e (elim (Bool-cases (chunks == 0)) [
          | inl c ↦ rw c (Calm-IsKept slots _ _ (complete_session-Calm now s.session_count _) over)
          | inr c ↦ rw c over
        ])
    returned_kept (waiting key op j created) result e = rw e k
    returned_kept (queued key op i) result e = rw e k
    returned_kept (encoding key op i slot) result e = rw e k
    returned_kept (draining key op i slot) result e = rw e k
    returned_kept (aborting op session pending) result e = rw e k
    returned_kept ended result e = rw e k

pub counted_up-IsKept :
    (slots : List ℕ) (key : SessionKey) (op : OperationKey) (i : ℕ) (s : Service)
    → i < s.session_count
    → IsKept slots s
    → IsKept slots (add_task (queued key op i) (count_up i s))
unfolding add_task count_up set_session
counted_up-IsKept slots key op i s below k =
    Added-IsKept slots s _ (queued key op i)
      (record {
        tasks = refl;
        task_count = refl;
        session_count = refl;
        slots = refl;
        inflight = λ n. ground arith;
        free = λ x. refl;
        known_session = λ n h. ground (arith, below, h);
        made = refl;
      })
      k

pub pull_begins-IsKept :
    (slots : List ℕ) (key : SessionKey) (op : OperationKey) (s : Service)
    → IsKept slots s
    → IsKept slots (pull_begins key op s)
unfolding pull_begins is_active
pull_begins-IsKept slots key op s k = elim (Option-cases (find same_key key s.sessions)) [
  | inl e ↦ rw e k
  | inr (i, e) ↦ elim (Bool-cases (is_active (Session.phase (s.heap i)))) [
    | inl a ↦
        rw (e, a)
          (queued_kept i (All-find (λ n. n < s.session_count) same_key key i s.sessions k.made e))
    | inr a ↦
        rw (e, a)
          (Calm-IsKept slots s _
            (Calm-trans s _ _ (fail_session-Calm i s) (discard_if_over-Calm i _)) k)
  ]
]
  where
    queued_kept :
        (i : ℕ) → i < s.session_count → IsKept slots (add_task (queued key op i) (count_up i s))
    queued_kept i h = counted_up-IsKept slots key op i s h k
