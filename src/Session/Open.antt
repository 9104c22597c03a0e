-- ===== src/Session/Open.antt =====
-- `_apply_producer_metadata`, `_open_producer_session` and `_sweep_sends`. A request opens one transfer; the
-- block tables that are passed on to the engine are left out.
use kvserve.Common.{
  ℕ, suc, ◌+◌, Bool, true, false, not, ◌&&◌, ◌||◌, Option, none, some, List, [], ◌∷◌, ◌++◌, String,
  str_eq, ltb, ◌==◌, if◌then◌else◌,
}
use kvserve.Session.State.{
  SendState, new_send_state, OperationKey, SessionKey, active, Session, Task, waiting, opening,
  ended, sending_expired, Service, update, same_operation, same_key, find, pop, put, is_some,
  is_object, abort_timeout, set_task, add_task,
}
use kvserve.Session.Sending.{finish_send_meta, complete_session}

unfoldable pub set_send_state : ℕ → SendState → Service → Service
set_send_state j st s = record s { send_states = update s.send_states j st }

-- `_SendState(...)`, put under its transfer.
unfoldable pub new_state : String → String → Service → Service
new_state transfer_id p_req_id s = record s {
  send_states = update s.send_states s.send_count (new_send_state transfer_id p_req_id);
  send_count = suc s.send_count;
  send_meta = put str_eq transfer_id s.send_count s.send_meta;
}

-- An announcement makes a state ready; the first loop of `_apply_producer_metadata`.
unfoldable pub make_ready : ℕ → String → ℕ → Service → Service
make_ready now p_req_id j s =
    let st = s.send_states j in
    set_send_state j
      (record st { p_req_id = p_req_id; expire_time = some (now + abort_timeout); ready = true }) s

unfoldable pub announce : ℕ → String → String → Service → Service
announce now transfer_id p_req_id s =
    announced now transfer_id p_req_id (find str_eq transfer_id s.send_meta) s
  where
    announced : ℕ → String → String → Option ℕ → Service → Service
    announced now transfer_id p_req_id none s =
        make_ready now p_req_id s.send_count (new_state transfer_id "" s)
    announced now transfer_id p_req_id (some j) s = make_ready now p_req_id j s

-- The second loop: a state that is published with no table yet.
unfoldable pub publish : String → String → Service → Service
publish transfer_id p_req_id s =
    published transfer_id p_req_id (find str_eq transfer_id s.send_meta) s
  where
    published : String → String → Option ℕ → Service → Service
    published transfer_id p_req_id none s = new_state transfer_id p_req_id s
    published transfer_id p_req_id (some j) s =
        if str_eq (SendState.p_req_id (s.send_states j)) ""
        then set_send_state j (record (s.send_states j) { p_req_id = p_req_id }) s
        else s

-- The third loop.
unfoldable pub drop_meta : String → Service → Service
drop_meta transfer_id s = record s { send_meta = pop str_eq transfer_id s.send_meta }

-- An open begins: it looks its transfer up, or makes a state for it, and waits for the table.
unfoldable pub open_begins : SessionKey → OperationKey → Service → Service
open_begins key op s = looked_up key op (find str_eq (OperationKey.transfer_id op) s.send_meta) s
  where
    looked_up : SessionKey → OperationKey → Option ℕ → Service → Service
    looked_up key op none s =
        add_task (waiting key op s.send_count true) (new_state (OperationKey.transfer_id op) "" s)
    looked_up key op (some j) s = add_task (waiting key op j false) s

-- A state that this open has made and nobody else uses goes again.
unfoldable pub clean_up : ℕ → Bool → Service → Service
clean_up j created s =
    let st = s.send_states j in
    if created
      && (is_object j (find str_eq st.transfer_id s.send_meta)
          && (not st.ready && (str_eq st.p_req_id "" && (st.sending == 0))))
    then record s { send_meta = pop str_eq st.transfer_id s.send_meta }
    else s

-- The handler of the open's exceptions, before and after it has claimed the state.
unfoldable pub open_fails : ℕ → ℕ → Bool → Bool → Service → Service
open_fails t j created claimed s =
    set_task t ended (clean_up j created (if claimed then finish_send_meta j s else s))

-- One round of the loop of `_wait_ready` that raises: the session was aborted, or the time is over.
unfoldable pub give_up : Bool → ℕ → Service → Service
give_up late t s = gave_up (s.tasks t) late t s
  where
    gave_up : Task → Bool → ℕ → Service → Service
    gave_up (waiting key op j created) late t s =
        if not (SendState.ready (s.send_states j))
          && (is_some (find same_operation op s.closed) || late)
        then open_fails t j created false s
        else s
    gave_up other late t s = s

-- `state.sending += 1`, and the number of targets if it is not known yet.
unfoldable pub claim : ℕ → ℕ → Service → Service
claim targets j s =
    let st = s.send_states j in
    set_send_state j
      (record st {
        sending = suc st.sending;
        need_send = if st.need_send == 0 then targets else st.need_send;
      })
      s

-- The table is ready: the open claims the state and sends the engine its job.
unfoldable pub open_proceeds : ℕ → ℕ → Service → Service
open_proceeds targets t s = proceeded (s.tasks t) targets t s
  where
    proceeded : Task → ℕ → ℕ → Service → Service
    proceeded (waiting key op j created) targets t s =
        if SendState.ready (s.send_states j)
        then (if is_some (find same_operation op s.closed)
            then open_fails t j created true (claim targets j s)
            else set_task t (opening key op j created) (claim targets j s))
        else s
    proceeded other targets t s = s

unfoldable pub new_session : SessionKey → OperationKey → ℕ → ℕ → Session
new_session key op total j = record {
  key = key;
  nonce = OperationKey.nonce op;
  total_chunks = total;
  completed_chunks = 0;
  inflight_chunks = 0;
  phase = active;
  send_state = j;
}

unfoldable pub add_session : Session → Service → Service
add_session session s = record s {
  heap = update s.heap s.session_count session;
  session_count = suc s.session_count;
  sessions = put same_key session.key s.session_count s.sessions;
}

-- The engine has answered the open, with an error or with the number of chunks; a wait that times out ends
-- like an error (`open_late` of Run, which keeps the job).
unfoldable pub open_returns : ℕ → Option ℕ → ℕ → Service → Service
open_returns now result t s = returned (s.tasks t) now result t s
  where
    returned : Task → ℕ → Option ℕ → ℕ → Service → Service
    returned (opening key op j created) now none t s = open_fails t j created true s
    returned (opening key op j created) now (some total) t s =
        let i = s.session_count in
        let s' = set_task t ended (add_session (new_session key op total j) s) in
        if total == 0 then complete_session now i s' else s'
    returned other now result t s = s

-- `state.expire_time < now`
abbrev pub expired : ℕ → Option ℕ → Bool
expired now none = false
expired now (some time) = ltb time now

-- `_sweep_sends`, over the items of the dictionary as they were.
unfoldable pub sweep : ℕ → List (String × ℕ) → Service → Service
sweep now [] s = s
sweep now ((transfer_id, j) ∷ rest) s =
    let st = s.send_states j in
    sweep now rest (
      if not (str_eq st.p_req_id "") && (expired now st.expire_time && (st.sending == 0))
      then record s {
        finals = s.finals ++ (sending_expired st.p_req_id ∷ []);
        send_meta = pop str_eq transfer_id s.send_meta;
      }
      else s)
