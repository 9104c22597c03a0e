-- ===== src/Session/Serve.antt =====
-- `_serve_producer_chunk`. The key that a session was found under is its own.
use kvserve.Common.{
  ℕ, suc, ◌-◌, Bool, true, false, not, ◌&&◌, ◌||◌, Option, none, some, List, [], ◌∷◌, ◌++◌, ◌==◌,
  if◌then◌else◌,
}
use kvserve.Session.State.{
  OperationKey, SessionKey, failed, Session, Task, queued, encoding, draining, ended, Service,
  same_operation, same_key, find, is_some, is_active, set_task, add_task, set_session,
}
use kvserve.Session.Sending.{complete_session, discard_if_over}

-- `session.state = "FAILED"`
unfoldable pub fail_session : ℕ → Service → Service
fail_session i s = set_session i (record (s.heap i) { phase = failed }) s

unfoldable pub count_up : ℕ → Service → Service
count_up i s =
    set_session i (record (s.heap i) { inflight_chunks = suc (Session.inflight_chunks (s.heap i)) })
      s

-- `session.inflight_chunks -= 1`
unfoldable pub count_down : ℕ → Service → Service
count_down i s =
    set_session i (record (s.heap i) { inflight_chunks = Session.inflight_chunks (s.heap i) - 1 }) s

-- A pull begins: it is refused, or counted and waits for a slot.
unfoldable pub pull_begins : SessionKey → OperationKey → Service → Service
pull_begins key op s = pulled key op (find same_key key s.sessions) s
  where
    pulled : SessionKey → OperationKey → Option ℕ → Service → Service
    pulled key op none s = s
    pulled key op (some i) s =
        if is_active (Session.phase (s.heap i))
        then add_task (queued key op i) (count_up i s)
        else discard_if_over i (fail_session i s)

-- A slot is free for a pull that waits for one.
unfoldable pub take_slot : ℕ → Service → Service
take_slot t s = took (s.tasks t) s.slots t s
  where
    took : Task → List ℕ → ℕ → Service → Service
    took (queued key op i) (slot ∷ rest) t s =
        let s' = record s { slots = rest } in
        if not (is_active (Session.phase (s.heap i))) || is_some (find same_operation op s.closed)
        then set_task t (draining key op i slot) (fail_session i s')
        else set_task t (encoding key op i slot) s'
    took other slots t s = s

-- The `finally` block of a pull that holds a slot, after the slot was drained where it had to be.
unfoldable pub give_back : ℕ → ℕ → ℕ → Service → Service
give_back t i slot s =
    discard_if_over i
      (count_down i (set_task t ended (record s { slots = s.slots ++ (slot ∷ []) })))

-- `session.completed_chunks += 1`, and the session is complete with the last chunk.
unfoldable pub chunk_done : ℕ → ℕ → Service → Service
chunk_done now i s =
    let session = s.heap i in
    let s' = set_session i (record session { completed_chunks = suc session.completed_chunks }) s in
    if is_active session.phase && (suc session.completed_chunks == session.total_chunks)
    then complete_session now i s'
    else s'

-- The engine has answered the encode job; a wait that times out ends like a failure (`encode_late` of Run,
-- which keeps the job).
unfoldable pub encode_returns : ℕ → Bool → ℕ → Service → Service
encode_returns now good t s = returned (s.tasks t) now good t s
  where
    returned : Task → ℕ → Bool → ℕ → Service → Service
    returned (encoding key op i slot) now true t s = give_back t i slot (chunk_done now i s)
    returned (encoding key op i slot) now false t s =
        set_task t (draining key op i slot) (fail_session i s)
    returned other now good t s = s

-- The drain job is over, well or not.
unfoldable pub drain_returns : ℕ → Service → Service
drain_returns t s = returned (s.tasks t) t s
  where
    returned : Task → ℕ → Service → Service
    returned (draining key op i slot) t s = give_back t i slot s
    returned other t s = s
