-- ===== src/Session/Giving.antt =====
-- Slots that a pull takes and gives back.
use kvserve.Common.{
  ℕ, ◌≤◌, ◌≡◌, ◌≢◌, inl, inr, refl, sym, subst, true, false, not, ◌||◌, Bool-cases, List, [], ◌∷◌,
  ◌==◌, arith,
}
use kvserve.Session.State.{
  OperationKey, SessionKey, Session, Task, waiting, opening, queued, encoding, draining, aborting,
  ended, Service, same_operation, find, is_some, is_active, set_task, set_session,
}
use kvserve.Session.Serve.{fail_session, count_down, take_slot, give_back}
use kvserve.Session.Abort.{is_ended}
use kvserve.Session.Totals.{one_if, count-append, holds, serves}
use kvserve.Session.Frames.{discard_if_over-Calm, fail_session-Calm}
use kvserve.Session.Slots.{IsKept, Calm-IsKept, Move-IsKept, known}
use kvserve.Session.Totals.{total-at}
use kvserve.Session.Rest.{is_ended-false}

pub take-IsKept :
    (slots : List ℕ) (key : SessionKey) (op : OperationKey) (i slot : ℕ) (rest : List ℕ) (t : ℕ)
    (v : Task) (s : Service)
    → s.tasks t ≡ queued key op i
    → s.slots ≡ slot ∷ rest
    → ((x : ℕ) → holds x v ≡ one_if (slot == x))
    → ((n : ℕ) → serves n v ≡ one_if (i == n))
    → IsKept slots s
    → IsKept slots (set_task t v (record s { slots = rest }))
unfolding set_task is_ended
take-IsKept slots key op i slot rest t v s e q same_slot same_chunk k =
    Move-IsKept slots s _ t v
      (record {
        busy = is_ended-false _ _ e refl;
        tasks = refl;
        task_count = refl;
        session_count = refl;
        slots = λ x. rw (e, q) (omega (arith, same_slot x));
        inflight = λ n. rw e (omega (arith, same_chunk n));
        no_more = λ n. rw e (omega (arith, same_chunk n));
        made = refl;
      })
      k

pub take_slot-IsKept :
    (slots : List ℕ) (t : ℕ) (s : Service) → IsKept slots s → IsKept slots (take_slot t s)
unfolding take_slot is_ended fail_session set_session set_task
take_slot-IsKept slots t s k = took_kept (s.tasks t) s.slots refl refl
  where
    here :
        {key : SessionKey} {op : OperationKey} {i : ℕ}
        → s.tasks t ≡ queued key op i
        → s.slots ≡ []
        → take_slot t s ≡ s
    here e q = ground (arith, e, q)

    refused :
        (i slot : ℕ) (rest : List ℕ) (key : SessionKey) (op : OperationKey)
        → s.tasks t ≡ queued key op i
        → s.slots ≡ slot ∷ rest
        → (not (is_active (Session.phase (s.heap i))) || is_some (find same_operation op s.closed))
          ≡ true
        → take_slot t s
          ≡ set_task t (draining key op i slot) (fail_session i (record s { slots = rest }))
    refused i slot rest key op e q c = ground (arith, e, q, c)

    used :
        (i slot : ℕ) (rest : List ℕ) (key : SessionKey) (op : OperationKey)
        → s.tasks t ≡ queued key op i
        → s.slots ≡ slot ∷ rest
        → (not (is_active (Session.phase (s.heap i))) || is_some (find same_operation op s.closed))
          ≡ false
        → take_slot t s ≡ set_task t (encoding key op i slot) (record s { slots = rest })
    used i slot rest key op e q c = ground (arith, e, q, c)

    took_kept :
        (v : Task) (queue : List ℕ) → s.tasks t ≡ v → s.slots ≡ queue → IsKept slots (take_slot t s)
    took_kept (queued key op i) [] e q = subst (IsKept slots) (sym (here e q)) k
    took_kept (queued key op i) (slot ∷ rest) e q =
        elim (Bool-cases (
          not (is_active (Session.phase (s.heap i)))
          || is_some (find same_operation op s.closed))) [
            | inl c ↦ subst (IsKept slots) (sym (refused i slot rest key op e q c)) (
                Calm-IsKept slots _ _ (fail_session-Calm i _)
                  (take-IsKept slots key op i slot rest t _ s e q (λ x. refl) (λ n. refl) k))
            | inr c ↦
                subst (IsKept slots) (sym (used i slot rest key op e q c))
                  (take-IsKept slots key op i slot rest t _ s e q (λ x. refl) (λ n. refl) k)
          ]
    took_kept (waiting key op j created) queue e q = rw e k
    took_kept (opening key op j created) queue e q = rw e k
    took_kept (encoding key op i slot) queue e q = rw e k
    took_kept (draining key op i slot) queue e q = rw e k
    took_kept (aborting op session pending) queue e q = rw e k
    took_kept ended queue e q = rw e k

pub give_back-IsKept :
    (slots : List ℕ) (t i slot : ℕ) (s : Service)
    → s.tasks t ≢ ended
    → ((x : ℕ) → holds x (s.tasks t) ≡ one_if (slot == x))
    → ((n : ℕ) → serves n (s.tasks t) ≡ one_if (i == n))
    → IsKept slots s
    → IsKept slots (give_back t i slot s)
unfolding give_back count_down set_session set_task
give_back-IsKept slots t i slot s busy same_slot same_chunk k =
    Calm-IsKept slots _ _ (discard_if_over-Calm i _) (
      Move-IsKept slots s _ t ended
        (record {
          busy = busy;
          tasks = refl;
          task_count = refl;
          session_count = refl;
          slots = λ x. omega (arith, same_slot x, count-append x s.slots (slot ∷ []));
          inflight = λ n. ground (arith, same_chunk n, in_flight);
          no_more = λ n. omega arith;
          made = refl;
        })
        k)
  where
    in_flight : 1 ≤ Session.inflight_chunks (s.heap i)
    in_flight = ground (
      arith,
      k.counted i,
      same_chunk i,
      total-at (serves i) s.tasks t s.task_count (known slots s t k busy),
    )
