-- ===== src/Session/State.antt =====
-- What `_SessionService` keeps for a producer. An object that several places refer to (a `_SendState`, a
-- `_ProducerSession`, an asyncio task) has a number. Times are milliseconds of time.monotonic.
use kvserve.Common.{
  ℕ, suc, Bool, true, false, ◌&&◌, Option, none, some, List, [], ◌∷◌, String, str_eq, ◌==◌,
  if◌then◌else◌,
}

pub record SendState : Type 0 where
  pub transfer_id : String
  pub p_req_id : String
  pub ready : Bool
  pub expire_time : Option ℕ
  pub need_send : ℕ
  pub sent : ℕ
  pub sending : ℕ

-- A `_SendState` that `__init__` makes; None is infinity.
abbrev pub new_send_state : String → String → SendState
new_send_state transfer_id p_req_id = record {
  transfer_id = transfer_id;
  p_req_id = p_req_id;
  ready = false;
  expire_time = none;
  need_send = 0;
  sent = 0;
  sending = 0;
}

-- (transfer_id, d_req_id, nonce)
pub record OperationKey : Type 0 where
  pub transfer_id : String
  pub d_req_id : String
  pub nonce : String

-- (identity, transfer_id, d_req_id)
pub record SessionKey : Type 0 where
  pub identity : String
  pub transfer_id : String
  pub d_req_id : String

pub data Phase : Type 0 where
  active complete failed cancelled : Phase

pub record Session : Type 0 where
  pub key : SessionKey
  pub nonce : String
  pub total_chunks : ℕ
  pub completed_chunks : ℕ
  pub inflight_chunks : ℕ
  pub phase : Phase
  pub send_state : ℕ

-- Where a request's coroutine waits: an open for the block table or for the engine's job, a pull for a
-- slot, for the encode job or for its slot to drain, an abort for the operations that it has found.
pub data Task : Type 0 where
  waiting : SessionKey → OperationKey → ℕ → Bool → Task
  opening : SessionKey → OperationKey → ℕ → Bool → Task
  queued : SessionKey → OperationKey → ℕ → Task
  encoding : SessionKey → OperationKey → ℕ → ℕ → Task
  draining : SessionKey → OperationKey → ℕ → ℕ → Task
  aborting : OperationKey → Option ℕ → List ℕ → Task
  ended : Task

pub data Final : Type 0 where
  sending sending_expired : String → Final

pub record Service : Type 0 where
  pub send_states : ℕ → SendState
  pub send_count : ℕ
  pub send_meta : List (String × ℕ)
  pub heap : ℕ → Session
  pub session_count : ℕ
  pub sessions : List (SessionKey × ℕ)
  pub slots : List ℕ
  pub closed : List (OperationKey × ℕ)
  pub tasks : ℕ → Task
  pub task_count : ℕ
  pub finals : List Final
  pub left : List OperationKey

abbrev pub update {ℓ} : {A : Type ℓ} → (ℕ → A) → ℕ → A → ℕ → A
update f i v j = if j == i then v else f j

unfoldable pub same_operation : OperationKey → OperationKey → Bool
same_operation a b =
    str_eq (OperationKey.transfer_id a) (OperationKey.transfer_id b)
    && (str_eq (OperationKey.d_req_id a) (OperationKey.d_req_id b)
        && str_eq (OperationKey.nonce a) (OperationKey.nonce b))

unfoldable pub same_key : SessionKey → SessionKey → Bool
same_key a b =
    str_eq (SessionKey.identity a) (SessionKey.identity b)
    && (str_eq (SessionKey.transfer_id a) (SessionKey.transfer_id b)
        && str_eq (SessionKey.d_req_id a) (SessionKey.d_req_id b))

-- Dictionaries as association lists: get, pop and assignment, with the test that compares keys.
module _ {ℓ κ} {K : Type ℓ} {V : Type κ} (same : K → K → Bool) where
  unfoldable pub find : K → List (K × V) → Option V
  find k [] = none
  find k ((k', v) ∷ rest) = let found = find k rest in if same k' k then some v else found

  unfoldable pub pop : K → List (K × V) → List (K × V)
  pop k [] = []
  pop k ((k', v) ∷ rest) = let others = pop k rest in if same k' k then others else (k', v) ∷ others

  unfoldable pub put : K → V → List (K × V) → List (K × V)
  put k v [] = (k, v) ∷ []
  put k v ((k', w) ∷ rest) =
      let others = put k v rest in if same k' k then (k', v) ∷ rest else (k', w) ∷ others

abbrev pub is_some {ℓ} : {A : Type ℓ} → Option A → Bool
is_some none = false
is_some (some a) = true

-- `x is session`, of what `pop` has returned.
abbrev pub is_object : ℕ → Option ℕ → Bool
is_object i none = false
is_object i (some j) = j == i

unfoldable pub is_active : Phase → Bool
is_active active = true
is_active _ = false

-- `session.state in ("CANCELLED", "FAILED")`
unfoldable pub is_over : Phase → Bool
is_over cancelled = true
is_over failed = true
is_over _ = false

-- `_PENDING_REQ_EXPIRY_S`
abbrev pub pending_req_expiry : ℕ
pending_req_expiry = 540000

-- `_ABORT_TIMEOUT_S`
abbrev pub abort_timeout : ℕ
abort_timeout = 480000

unfoldable pub set_task : ℕ → Task → Service → Service
set_task t task s = record s { tasks = update s.tasks t task }

-- `asyncio.create_task`
unfoldable pub add_task : Task → Service → Service
add_task task s = record s {
  tasks = update s.tasks s.task_count task;
  task_count = suc s.task_count;
}

unfoldable pub set_session : ℕ → Session → Service → Service
set_session i session s = record s { heap = update s.heap i session }
