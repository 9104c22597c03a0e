-- ===== src/Session/Run.antt =====
-- The critical sections of the helper's event loop as events. A task number names the coroutine that
-- goes on; an event for which that coroutine does not wait changes nothing.
-- A request is dispatched and begun in one section, and over before its reply is on the wire.
use kvserve.Common.{ℕ, Bool, false, if◌then◌else◌, Option, none, List, [], ◌∷◌, String}
use kvserve.Session.State.{
  new_send_state, OperationKey, SessionKey, complete, Task, opening, encoding, ended, Service,
  same_operation,
}
use kvserve.Session.Open.{
  announce, publish, drop_meta, open_begins, give_up, open_proceeds, open_returns, sweep,
}
use kvserve.Session.Serve.{pull_begins, take_slot, encode_returns, drain_returns}
use kvserve.Session.Abort.{purge_closed, abort_begins, abort_returns}

pub data Event : Type 0 where
  announces : ℕ → String → String → Event
  publishes : String → String → Event
  drops : String → Event
  opens : ℕ → SessionKey → OperationKey → Event
  gives_up : Bool → ℕ → Event
  proceeds : ℕ → ℕ → Event
  opened : ℕ → Option ℕ → ℕ → Event
  pulls : ℕ → SessionKey → OperationKey → Event
  takes : ℕ → Event
  encoded : ℕ → Bool → ℕ → Event
  drained : ℕ → Event
  open_late : ℕ → ℕ → Event
  encode_late : ℕ → ℕ → Event
  finishes : OperationKey → Event
  aborts : ℕ → SessionKey → OperationKey → Event
  answers : Bool → ℕ → Event
  sweeps : ℕ → Event

-- What `_start_producer` starts from: the slots in the queue, and nothing else.
unfoldable pub start : List ℕ → Service
start slots = record {
  send_states = λ j. new_send_state "" "";
  send_count = 0;
  send_meta = [];
  heap = λ i. record {
    key = record { identity = ""; transfer_id = ""; d_req_id = "" };
    nonce = "";
    total_chunks = 0;
    completed_chunks = 0;
    inflight_chunks = 0;
    phase = complete;
    send_state = 0;
  };
  session_count = 0;
  sessions = [];
  slots = slots;
  closed = [];
  tasks = λ t. ended;
  task_count = 0;
  finals = [];
  left = [];
}

-- The wait of `_submit` is over after _ABORT_TIMEOUT_S: the engine still has the job of this task.
unfoldable pub left_jobs : Task → List OperationKey → List OperationKey
left_jobs (opening key op j created) left = op ∷ left
left_jobs (encoding key op i slot) left = op ∷ left
left_jobs other left = left

unfoldable pub leave : ℕ → Service → Service
unfolding left_jobs
leave t s = record s { left = left_jobs (s.tasks t) s.left }

-- The engine ends such a job: its future is no more in _pending_jobs.
unfoldable pub forget : OperationKey → List OperationKey → List OperationKey
forget op [] = []
forget op (other ∷ rest) =
    let later = forget op rest in if same_operation other op then rest else other ∷ later

unfoldable pub step : Service → Event → Service
step s (announces now transfer_id p_req_id) = announce now transfer_id p_req_id s
step s (publishes transfer_id p_req_id) = publish transfer_id p_req_id s
step s (drops transfer_id) = drop_meta transfer_id s
step s (opens now key op) = open_begins key op (purge_closed now s)
step s (gives_up late t) = give_up late t s
step s (proceeds targets t) = open_proceeds targets t s
step s (opened now result t) = open_returns now result t s
step s (pulls now key op) = pull_begins key op (purge_closed now s)
step s (takes t) = take_slot t s
step s (encoded now good t) = encode_returns now good t s
step s (drained t) = drain_returns t s
step s (open_late now t) = open_returns now none t (leave t s)
step s (encode_late now t) = encode_returns now false t (leave t s)
step s (finishes op) = record s { left = forget op s.left }
step s (aborts now key op) = abort_begins now key op (purge_closed now s)
step s (answers in_time t) = abort_returns in_time t s
step s (sweeps now) = sweep now s.send_meta s

unfoldable pub run : Service → List Event → Service
run s [] = s
run s (e ∷ es) = run (step s e) es
