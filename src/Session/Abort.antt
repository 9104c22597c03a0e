-- ===== src/Session/Abort.antt =====
-- `_abort_producer`, and the purge of `_closed` that `_dispatch_producer` makes.
use kvserve.Common.{
  ℕ, zero, suc, ◌+◌, Bool, true, false, not, ◌&&◌, ◌||◌, Option, none, some, List, [], ◌∷◌, str_eq,
  ltb, ◌==◌, if◌then◌else◌,
}
use kvserve.Session.State.{
  OperationKey, SessionKey, cancelled, Session, Task, waiting, opening, queued, encoding, draining,
  aborting, ended, Service, same_operation, same_key, find, put, pending_req_expiry, set_task,
  add_task, set_session,
}
use kvserve.Session.Sending.{operation_of, discard_session}

-- `self._closed = {key: expiry ... if expiry > now}`
unfoldable pub purge : ℕ → List (OperationKey × ℕ) → List (OperationKey × ℕ)
purge now [] = []
purge now ((op, expiry) ∷ rest) =
    let others = purge now rest in if ltb now expiry then (op, expiry) ∷ others else others

unfoldable pub purge_closed : ℕ → Service → Service
purge_closed now s = record s { closed = purge now s.closed }

-- The operation of a task that `_operations` lists: every request but an abort.
unfoldable pub operation? : Task → Option OperationKey
operation? (waiting key op j created) = some op
operation? (opening key op j created) = some op
operation? (queued key op i) = some op
operation? (encoding key op i slot) = some op
operation? (draining key op i slot) = some op
operation? (aborting op session pending) = none
operation? ended = none

abbrev pub is_operation : OperationKey → Option OperationKey → Bool
is_operation op none = false
is_operation op (some other) = same_operation other op

-- `self._operations.get(operation_key, ())`: the tasks below `n` of this operation.
unfoldable pub operations_of : OperationKey → (ℕ → Task) → ℕ → List ℕ
operations_of op tasks zero = []
operations_of op tasks (suc n) =
    let rest = operations_of op tasks n in
    if is_operation op (operation? (tasks n)) then n ∷ rest else rest

-- `next(candidate ... if ... == ...)`
unfoldable pub find_operation : OperationKey → (ℕ → Session) → List (SessionKey × ℕ) → Option ℕ
find_operation op heap [] = none
find_operation op heap ((key, i) ∷ rest) =
    let found = find_operation op heap rest in
    if same_operation (operation_of (heap i)) op then some i else found

abbrev pub or_else {ℓ} : {A : Type ℓ} → Option A → Option A → Option A
or_else none other = other
or_else (some a) other = some a

-- The session that an abort is for, if its nonce is the request's.
unfoldable pub session_of : SessionKey → OperationKey → Service → Option ℕ
session_of key op s = or_else (find same_key key s.sessions) (find_operation op s.heap s.sessions)

unfoldable pub cancel : ℕ → Service → Service
cancel i s =
    let s' = set_session i (record (s.heap i) { phase = cancelled }) s in
    if Session.inflight_chunks (s.heap i) == 0 then discard_session i s' else s'

abbrev pub cancel_target : OperationKey → Option ℕ → Service → Service
cancel_target op none s = s
cancel_target op (some i) s =
    if str_eq (Session.nonce (s.heap i)) (OperationKey.nonce op) then cancel i s else s

-- An abort begins: the operation is closed, its session cancelled, and what still runs is looked up.
unfoldable pub abort_begins : ℕ → SessionKey → OperationKey → Service → Service
abort_begins now key op s =
    let shut = record s { closed = put same_operation op (now + pending_req_expiry) s.closed } in
    let found = session_of key op shut in
    let s' = cancel_target op found shut in
    add_task (aborting op found (operations_of op s'.tasks s'.task_count)) s'

unfoldable pub is_ended : Task → Bool
is_ended ended = true
is_ended _ = false

unfoldable pub all_ended : (ℕ → Task) → List ℕ → Bool
all_ended tasks [] = true
all_ended tasks (t ∷ ts) = is_ended (tasks t) && all_ended tasks ts

-- Nothing of the session with the request's nonce is in flight.
abbrev pub at_rest : OperationKey → Option ℕ → Service → Bool
at_rest op none s = true
at_rest op (some i) s =
    not (str_eq (Session.nonce (s.heap i)) (OperationKey.nonce op))
    || (Session.inflight_chunks (s.heap i) == 0)

-- `drain()` has returned.
unfoldable pub is_drained : OperationKey → Option ℕ → List ℕ → Service → Bool
is_drained op session pending s = all_ended s.tasks pending && at_rest op session s

-- The last loop, over the items of the dictionary as they were.
unfoldable pub cancel_all : OperationKey → List (SessionKey × ℕ) → Service → Service
cancel_all op [] s = s
cancel_all op ((key, i) ∷ rest) s =
    cancel_all op rest (if same_operation (operation_of (s.heap i)) op then cancel i s else s)

-- The abort is answered, once drain() has returned or when the time is over, and then with an error.
unfoldable pub abort_returns : Bool → ℕ → Service → Service
abort_returns in_time t s = returned (s.tasks t) in_time t s
  where
    returned : Task → Bool → ℕ → Service → Service
    returned (aborting op session pending) in_time t s =
        if not in_time || is_drained op session pending s
        then set_task t ended (cancel_all op s.sessions s)
        else s
    returned other in_time t s = s
