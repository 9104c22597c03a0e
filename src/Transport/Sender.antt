-- ===== src/Transport/Sender.antt =====
-- The producer side of nccl_transport.py: `send`, `send_bundle`, `_send_loop`, `_send_completion_loop`
-- and the waiting calls. The events are the critical sections of its threads, so a list of events is
-- an interleaving: a model step may send while the send loop holds an item or waits for its answer.
pub mod Accounting
pub mod Order
mod Tests
use kvserve.Common.{
  ℕ, zero, suc, ◌+◌, ◌-◌, Bool, true, false, ◌&&◌, Option, none, some, List, [], ◌∷◌, ◌++◌, String,
  ltb, ◌==◌, if◌then◌else◌, length, str_eq,
}
use kvserve.Transport.Payload.{Spec, Payload, payload_nbytes}

pub record Item : Type 0 where
  pub request_id : String
  pub layer_names : List String
  pub payload : Payload
  pub queue_depth : ℕ
  pub queued_bytes : ℕ
  pub payload_bytes : ℕ

-- `hand` is the item that `_send_loop` has popped and not settled yet; `completions` the submitted
-- sends whose event `_send_completion_loop` still waits for.
pub record Sender : Type 0 where
  pub queue : List Item
  pub inflight : ℕ
  pub pending_bytes : ℕ
  pub hand : Option Item
  pub completions : List Item

unfoldable pub init : Sender
init = record { queue = []; inflight = 0; pending_bytes = 0; hand = none; completions = [] }

-- What the consumer answers to a PUT: _NCCL_ACK_OK, _NCCL_ACK_OOM, _NCCL_ACK_RETRY.
pub data Ack : Type 0 where
  ack_ok ack_oom ack_retry : Ack

-- What `_send_one` and `_send_bundle_one` return: a completion, None or _SEND_RETRY.
pub data Completion : Type 0 where
  submitted given_up send_retry : Completion

pub completion_of : Ack → Completion
completion_of ack_retry = send_retry
completion_of ack_ok = submitted
completion_of ack_oom = given_up

-- The queue entry of a payload.
unfoldable pub new_item : (String → ℕ) → String → List String → Payload → Sender → Item
new_item element_size request_id layer_names payload s = record {
  request_id = request_id;
  layer_names = layer_names;
  payload = payload;
  queue_depth = length s.queue + s.inflight + 1;
  queued_bytes = s.pending_bytes + payload_nbytes element_size payload;
  payload_bytes = payload_nbytes element_size payload;
}

-- `send` and `send_bundle`, under the queue's condition variable.
unfoldable pub send : (String → ℕ) → String → List String → Payload → Sender → Sender
unfolding new_item
send element_size request_id layer_names payload s = record s {
  queue = s.queue ++ (new_item element_size request_id layer_names payload s ∷ []);
  pending_bytes = s.pending_bytes + payload_nbytes element_size payload;
}

popped : Sender → List Item → Sender
popped s [] = s
popped s (item ∷ rest) = record s { queue = rest; inflight = s.inflight + 1; hand = some item }

-- The head of `_send_loop`: it waits while the queue is empty.
unfoldable pub take : Sender → Sender
unfolding popped
take s = elim s.hand [ none ↦ popped s s.queue | some item ↦ s ]

pub index_of : String → List Item → ℕ
index_of rid [] = 0
index_of rid (i ∷ is) =
    let later = suc (index_of rid is) in if str_eq i.request_id rid then 0 else later

pub insert_at : ℕ → Item → List Item → List Item
insert_at zero x is = x ∷ is
insert_at (suc n) x [] = x ∷ []
insert_at (suc n) x (i ∷ is) = i ∷ insert_at n x is

-- A blocked item goes behind the other requests, in front of the first of its own.
unfoldable pub rotate : Item → List Item → List Item
unfolding index_of insert_at
rotate item queue = insert_at (index_of item.request_id queue) item queue

unfoldable pub finish_send_item : ℕ → Sender → Sender
finish_send_item bytes s = record s {
  pending_bytes = s.pending_bytes - bytes;
  inflight = s.inflight - 1;
}

pub settle_item : Sender → Item → Option Completion → Sender
settle_item s item (some send_retry) = record s {
  inflight = s.inflight - 1;
  queue = rotate item s.queue;
  hand = none;
}
settle_item s item (some given_up) = finish_send_item item.payload_bytes (record s { hand = none })
settle_item s item (some submitted) = record s {
  completions = s.completions ++ (item ∷ []);
  hand = none;
}
settle_item s item none = finish_send_item item.payload_bytes (record s { hand = none })

outcome : Option Ack → Option Completion
unfolding completion_of
outcome none = none
outcome (some ack) = some (completion_of ack)

-- The body of `_send_loop` on the item in hand, with the consumer's answer; `none` is an exception,
-- before the answer or after it, that the loop catches.
unfoldable pub settle : Option Ack → Sender → Sender
unfolding settle_item outcome
settle answer s = elim s.hand [ none ↦ s | some item ↦ settle_item s item (outcome answer) ]

retired : Sender → List Item → Sender
retired s [] = s
retired s (item ∷ rest) = finish_send_item item.payload_bytes (record s { completions = rest })

-- One round of `_send_completion_loop`, whether or not the event's wait raises.
unfoldable pub retire : Sender → Sender
unfolding retired
retire s = retired s s.completions

-- When `wait_for_sent` returns.
unfoldable pub all_sent : Sender → Bool
all_sent s = (length s.queue == 0) && (s.inflight == 0)

-- When `wait_for_below` returns.
unfoldable pub below : ℕ → Sender → Bool
below max_pending_bytes s = if ltb max_pending_bytes s.pending_bytes then false else true

pub data Event : Type 0 where
  sends : String → List String → Payload → Event
  takes : Event
  settles : Option Ack → Event
  retires : Event

pub step : (String → ℕ) → Sender → Event → Sender
step element_size s (sends rid names payload) = send element_size rid names payload s
step element_size s takes = take s
step element_size s (settles answer) = settle answer s
step element_size s retires = retire s

unfoldable pub run : (String → ℕ) → Sender → List Event → Sender
unfolding step
run element_size s [] = s
run element_size s (e ∷ es) = run element_size (step element_size s e) es
