-- ===== src/Transport/Receiver.antt =====
-- The consumer side of nccl_transport.py, `_listen_loop`, `_recv_completion_loop`, `_mark_failed` and
-- `drain_received`, with what compressed_kv_connector.py's start_load_kv does to the payloads: it
-- gathers what was drained, and gives the credits of each payload back once it is done with it.
-- The events are the critical sections of these threads.
pub mod Accounting
pub mod Buffers
pub mod Bytes
pub mod Dicts
pub mod Order
mod Tests
use kvserve.Common.{
  ℕ, ◌+◌, Bool, true, false, Option, none, some, List, [], ◌∷◌, ◌++◌, String, if◌then◌else◌, str_eq,
}
use kvserve.Transport.Payload.{Spec, Payload, tensor, bundle, failed, payload_nbytes}
use kvserve.Transport.Credits.{Credits, reserve, release, expect}
use kvserve.Transport.Credits
use kvserve.Transport.Sender.{Ack, ack_ok, ack_oom, ack_retry}

-- An entry of `_received`: the layer names and the payload.
pub record Delivery : Type 0 where
  pub layer_names : List String
  pub payload : Payload

-- dict[str, deque]: the keys in the order of their insertion.
abbrev pub Buffers : Type 0
Buffers = List (String × List Delivery)

-- An entry of `_recv_completions`: a receive whose event is waited for.
pub record Arrival : Type 0 where
  pub request_id : String
  pub delivery : Delivery
  pub payload_bytes : ℕ

-- `comm` is the listener's local: an INIT has been handled. `buffered` is the connector's
-- `_worker_received_kv`.
pub record Receiver : Type 0 where
  pub comm : Bool
  pub credits : Credits
  pub completions : List Arrival
  pub received : Buffers
  pub buffered : Buffers

unfoldable pub init : ℕ → Receiver
init recv_buffer_size = record {
  comm = false;
  credits = Credits.init recv_buffer_size;
  completions = [];
  received = [];
  buffered = [];
}

-- d[key].extend(ds), for a defaultdict(deque).
unfoldable pub extend : String → List Delivery → Buffers → Buffers
extend key ds [] = (key, ds) ∷ []
extend key ds ((k, queue) ∷ rest) =
    let later = extend key ds rest in
    if str_eq k key then (k, queue ++ ds) ∷ rest else (k, queue) ∷ later

-- `_mark_failed`
unfoldable pub mark_failed : String → Receiver → Receiver
mark_failed rid r = record r {
  received = extend rid (record { layer_names = []; payload = failed } ∷ []) r.received;
}

-- What happens between a reservation and the end of the handler: all goes well, the allocation is out
-- of memory, or another exception is raised before the acknowledgement or after it.
pub data Attempt : Type 0 where
  goes_well out_of_memory raises_early raises_late : Attempt

pub data Message : Type 0 where
  init_comm : Message
  put : String → List String → Spec → Message
  put_bundle : String → List String → List Spec → List Spec → Message

module _ (element_size : String → ℕ) where
  -- The handler once the credits are reserved. `_listen_loop` catches and logs the other exceptions.
  submit : String → Delivery → Attempt → Receiver → Receiver × Option Ack
  submit rid d goes_well r = (
    record r {
      completions =
          r.completions
          ++ (record {
            request_id = rid;
            delivery = d;
            payload_bytes = payload_nbytes element_size d.payload;
          }
              ∷ []);
    },
    some ack_ok,
  )
  submit rid d out_of_memory r = (
    mark_failed rid
        (record r { credits = release rid (payload_nbytes element_size d.payload) r.credits }),
    some ack_oom,
  )
  submit rid d raises_early r = (r, none)
  submit rid d raises_late r = (r, some ack_ok)

  answer : String → Delivery → Attempt → Receiver → Option Credits → Receiver × Option Ack
  unfolding submit mark_failed
  answer rid d attempt r none = (r, some ack_retry)
  answer rid d attempt r (some c) = submit rid d attempt (record r { credits = c })

  -- PUT and PUT_BUNDLE: refused before INIT, sent back while the staging is full.
  unfoldable pub accept : String → Delivery → Attempt → Receiver → Receiver × Option Ack
  unfolding answer
  accept rid d attempt r =
      if r.comm
      then answer rid d attempt r (reserve rid (payload_nbytes element_size d.payload) r.credits)
      else (mark_failed rid r, some ack_oom)

  unfoldable pub handle : Message → Attempt → Receiver → Receiver × Option Ack
  unfolding accept
  handle init_comm attempt r = (record r { comm = true }, none)
  handle (put rid names spec) attempt r =
      accept rid (record { layer_names = names; payload = tensor spec }) attempt r
  handle (put_bundle rid names body aux) attempt r =
      accept rid (record { layer_names = names; payload = bundle body aux }) attempt r

-- One round of `_recv_completion_loop`, with whether the event's wait succeeds.
completed : Bool → Receiver → List Arrival → Receiver
completed ok r [] = r
completed true r (a ∷ rest) = record r {
  completions = rest;
  received = extend a.request_id (a.delivery ∷ []) r.received;
}
completed false r (a ∷ rest) =
    mark_failed a.request_id
      (record r { completions = rest; credits = release a.request_id a.payload_bytes r.credits })

unfoldable pub complete : Bool → Receiver → Receiver
unfolding completed mark_failed
complete ok r = completed ok r r.completions

-- The drained dictionary leaves out empty queues; each other is appended to the connector's.
unfoldable pub gather : Buffers → Buffers → Buffers
gather [] buffers = buffers
gather ((k, []) ∷ rest) buffers = gather rest buffers
gather ((k, d ∷ ds) ∷ rest) buffers = gather rest (extend k (d ∷ ds) buffers)

-- `drain_received`, and the connector's loop over what it returns.
unfoldable pub drain : Receiver → Receiver
drain r = record r { received = []; buffered = gather r.received r.buffered }

-- d.get(key), where a missing key is an empty queue.
unfoldable pub entries : String → Buffers → List Delivery
entries key [] = []
entries key ((k, ds) ∷ rest) = if str_eq k key then ds else entries key rest

written : String → List Delivery → Buffers → Buffers
written k [] rest = rest
written k (d ∷ ds) rest = (k, d ∷ ds) ∷ rest

-- d[key] = ds after a popleft, or d.pop(key) where that emptied the queue.
unfoldable pub store : String → List Delivery → Buffers → Buffers
unfolding written
store key ds [] = []
store key ds ((k, queue) ∷ rest) =
    let later = store key ds rest in if str_eq k key then written k ds rest else (k, queue) ∷ later

module _ (element_size : String → ℕ) where
  loaded : String → Receiver → List Delivery → Receiver
  loaded tid r [] = r
  loaded tid r (d ∷ ds) = record r {
    buffered = store tid ds r.buffered;
    credits = release tid (payload_nbytes element_size d.payload) r.credits;
  }

  -- start_load_kv takes the next payload of a scheduled transfer; it gives the credits back whether or
  -- not the payload is good.
  unfoldable pub load : String → Receiver → Receiver
  unfolding loaded
  load tid r = loaded tid r (entries tid r.buffered)

pub data Event : Type 0 where
  receives : Message → Attempt → Event
  completes : Bool → Event
  drains : Event
  schedules : List String → Event
  loads : String → Event

module _ (element_size : String → ℕ) where
  unfoldable pub step : Receiver → Event → Receiver
  step r (receives message attempt) = (handle element_size message attempt r).0
  step r (completes ok) = complete ok r
  step r drains = drain r
  step r (schedules rids) = record r { credits = expect rids r.credits }
  step r (loads tid) = load element_size tid r

  unfoldable pub run : Receiver → List Event → Receiver
  unfolding step
  run r [] = r
  run r (e ∷ es) = run (step r e) es
