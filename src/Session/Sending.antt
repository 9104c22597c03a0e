-- ===== src/Session/Sending.antt =====
-- How a session leaves the table: `_complete_producer_session`, `_finish_send_meta` and
-- `_discard_producer_session`.
use kvserve.Common.{ℕ, suc, ◌+◌, ◌-◌, ◌&&◌, [], ◌∷◌, ◌++◌, String, str_eq, ◌==◌, if◌then◌else◌}
use kvserve.Session.State.{
  SendState, OperationKey, SessionKey, complete, Session, sending, Service, update, same_operation,
  same_key, find, pop, put, is_some, is_object, is_over, pending_req_expiry,
}

-- The transfer is over for the request: the entry goes, and the engine is told.
unfoldable pub sent_all : String → String → Service → Service
sent_all transfer_id p_req_id s = record s {
  send_meta = pop str_eq transfer_id s.send_meta;
  finals = s.finals ++ (sending p_req_id ∷ []);
}

unfoldable pub finish_send_meta : ℕ → Service → Service
finish_send_meta j s =
    let st = s.send_states j in
    let st' : SendState = record st { sending = st.sending - 1; sent = suc st.sent } in
    let s' = record s { send_states = update s.send_states j st' } in
    if (st'.sent == st'.need_send) && is_some (find str_eq st'.transfer_id s.send_meta)
    then sent_all st'.transfer_id st'.p_req_id s'
    else s'

-- (session.transfer_id, session.d_req_id, session.nonce)
unfoldable pub operation_of : Session → OperationKey
operation_of session = record {
  transfer_id = SessionKey.transfer_id session.key;
  d_req_id = SessionKey.d_req_id session.key;
  nonce = session.nonce;
}

-- `_complete_producer_session`. What stands under the key goes, also where it is another session.
unfoldable pub complete_session : ℕ → ℕ → Service → Service
complete_session now i s =
    let session = s.heap i in
    let popped = record s { sessions = pop same_key session.key s.sessions } in
    let closed = put same_operation (operation_of session) (now + pending_req_expiry) s.closed in
    if is_object i (find same_key session.key s.sessions)
    then finish_send_meta session.send_state (record popped {
      heap = update s.heap i (record session { phase = complete });
      closed = closed;
    })
    else popped

-- `session.send_state.sending -= 1`
unfoldable pub unclaim : ℕ → Service → Service
unclaim j s = record s {
  send_states =
      update s.send_states j
        (record (s.send_states j) { sending = SendState.sending (s.send_states j) - 1 });
}

-- `_discard_producer_session`
unfoldable pub discard_session : ℕ → Service → Service
discard_session i s =
    let session = s.heap i in
    let popped = record s { sessions = pop same_key session.key s.sessions } in
    if is_object i (find same_key session.key s.sessions)
    then (if is_over session.phase
        then finish_send_meta session.send_state popped
        else unclaim session.send_state popped)
    else popped

-- A session that is over goes when nothing of it is in flight.
unfoldable pub discard_if_over : ℕ → Service → Service
discard_if_over i s =
    let session = s.heap i in
    if (session.inflight_chunks == 0) && is_over session.phase then discard_session i s else s
