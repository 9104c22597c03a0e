-- ===== src/Transport/Sender/Tests.antt =====
-- Runs of the producer's queue, and its theorems at a concrete interleaving.
use kvserve.Common.{ℕ, ◌+◌, ◌≤◌, ◌≡◌, refl, none, some, List, [], ◌∷◌, ◌++◌, String}
use kvserve.Transport.Payload.{Payload, tensor, payload_nbytes}
use kvserve.Transport.Sender.{
  Item, ack_ok, ack_retry, init, new_item, send, take, rotate, settle, retire, finish_send_item,
  all_sent, below, Event, sends, takes, settles, retires, run,
}
use kvserve.Transport.Sender.Accounting.{
  bytes, held, IsCounted, run-init-IsCounted, all_sent-nothing_left, below-bytes,
}
use kvserve.Transport.Sender.Order.{of_request, left, sent, waiting, run-init-in_order}

-- Two bytes an element.
abbrev two_bytes : String → ℕ
two_bytes dtype = 2

abbrev row : ℕ → Payload
row n = tensor (record { shape = n ∷ []; dtype = "bfloat16" })

-- A request in two parts is blocked; the other passes it, and its second part does not.
abbrev events : List Event
events =
    sends "a" [] (row 10)
    ∷ sends "b" [] (row 20)
    ∷ sends "a" [] (row 30)
    ∷ takes
    ∷ settles (some ack_retry)
    ∷ takes
    ∷ settles (some ack_ok)
    ∷ takes
    ∷ settles (some ack_ok)
    ∷ []

abbrev all_events : List Event
all_events = events ++ (takes ∷ settles none ∷ retires ∷ retires ∷ [])

map_bytes : List Item → List ℕ
map_bytes [] = []
map_bytes (i ∷ is) = i.payload_bytes ∷ map_bytes is

passed : map_bytes (left two_bytes init events) ≡ 40 ∷ 20 ∷ []
unfolding run init send new_item payload_nbytes take rotate settle finish_send_item map_bytes
passed = refl

run-init-IsCounted_example : IsCounted (run two_bytes init events)
run-init-IsCounted_example = run-init-IsCounted two_bytes events

all_sent-nothing_left_example :
    ((run two_bytes init all_events).queue ≡ [])
    × ((run two_bytes init all_events).hand ≡ none)
    × ((run two_bytes init all_events).completions ≡ [])
    × ((run two_bytes init all_events).pending_bytes ≡ 0)
unfolding run init send new_item payload_nbytes take rotate settle finish_send_item retire all_sent
all_sent-nothing_left_example = all_sent-nothing_left two_bytes all_events refl

below-bytes_example :
    bytes (held (run two_bytes init events).hand)
      + bytes (run two_bytes init events).queue
      + bytes (run two_bytes init events).completions
    ≤ 120
unfolding run init send new_item payload_nbytes take rotate settle finish_send_item below
below-bytes_example = below-bytes two_bytes events 120 refl

run-init-in_order_example :
    of_request "a" (left two_bytes init events ++ waiting (run two_bytes init events))
    ≡ of_request "a" (sent two_bytes init events)
run-init-in_order_example = run-init-in_order two_bytes "a" events
