-- ===== src/Transport/Sender/Accounting.antt =====
-- The producer's counters say what is queued and in flight.
use kvserve.Common.{
  ℕ, zero, suc, ◌+◌, ◌≤◌, ◌≡◌, refl, true, Option, none, some, List, [], ◌∷◌, ◌++◌, String, arith,
  length, length-append, inl, inr, Option-cases,
}
use kvserve.Transport.Payload.{Payload}
use kvserve.Transport.Sender.{
  Item, Sender, Ack, ack_ok, ack_oom, ack_retry, init, send, take, index_of, insert_at, rotate,
  finish_send_item, settle, retire, all_sent, below, Event, sends, takes, settles, retires, step,
  run,
}

abbrev pub bytes : List Item → ℕ
bytes [] = 0
bytes (i ∷ is) = i.payload_bytes + bytes is

abbrev pub held : Option Item → List Item
held none = []
held (some i) = i ∷ []

-- The counters are exact.
pub record IsCounted (s : Sender) : Type 0 where
  pub flights : s.inflight ≡ length (held s.hand) + length s.completions
  pub pending : s.pending_bytes ≡ bytes (held s.hand) + bytes s.queue + bytes s.completions

bytes-append : (is js : List Item) → bytes (is ++ js) ≡ bytes is + bytes js
bytes-append [] js = omega arith
bytes-append (i ∷ is) js = omega (arith, bytes-append is js)

bytes-insert_at :
    (n : ℕ) (x : Item) (is : List Item) → bytes (insert_at n x is) ≡ x.payload_bytes + bytes is
unfolding insert_at
bytes-insert_at zero x is = refl
bytes-insert_at (suc n) x [] = refl
bytes-insert_at (suc n) x (i ∷ is) = omega (arith, bytes-insert_at n x is)

rotate-bytes : (x : Item) (is : List Item) → bytes (rotate x is) ≡ x.payload_bytes + bytes is
unfolding rotate
rotate-bytes x is = bytes-insert_at (index_of x.request_id is) x is

send-IsCounted :
    (size : String → ℕ) (rid : String) (names : List String) (payload : Payload) {s : Sender}
    → IsCounted s
    → IsCounted (send size rid names payload s)
unfolding send
send-IsCounted size rid names payload {s} c = record {
  flights = c.flights;
  pending = omega (arith, c.pending, bytes-append s.queue (_ ∷ []));
}

take-IsCounted : {s : Sender} → IsCounted s → IsCounted (take s)
unfolding take
take-IsCounted c = ground arith

settle-IsCounted : (answer : Option Ack) {s : Sender} → IsCounted s → IsCounted (settle answer s)
unfolding settle finish_send_item
settle-IsCounted none c = ground arith
settle-IsCounted (some ack_ok) {s} c = elim (Option-cases s.hand) [
  | inl e ↦ rw (e, settle) c
  | inr (i, e) ↦
      rw (e, settle)
        (record {
          flights = ground (arith, length-append s.completions (i ∷ []));
          pending = ground (arith, bytes-append s.completions (i ∷ []));
        })
]
settle-IsCounted (some ack_oom) c = ground arith
settle-IsCounted (some ack_retry) {s} c = elim (Option-cases s.hand) [
  | inl e ↦ rw (e, settle) c
  | inr (i, e) ↦
      rw (e, settle)
        (record { flights = ground arith; pending = ground (arith, rotate-bytes i s.queue) })
]

retire-IsCounted : {s : Sender} → IsCounted s → IsCounted (retire s)
unfolding retire finish_send_item
retire-IsCounted c = ground arith

step-IsCounted :
    (size : String → ℕ) {s : Sender} (e : Event) → IsCounted s → IsCounted (step size s e)
unfolding step
step-IsCounted size (sends rid names payload) c = send-IsCounted size rid names payload c
step-IsCounted size takes c = take-IsCounted c
step-IsCounted size (settles answer) c = settle-IsCounted answer c
step-IsCounted size retires c = retire-IsCounted c

run-IsCounted :
    (size : String → ℕ) (es : List Event) (s : Sender) → IsCounted s → IsCounted (run size s es)
unfolding run
run-IsCounted size [] s c = c
run-IsCounted size (e ∷ es) s c = run-IsCounted size es (step size s e) (step-IsCounted size e c)

init-IsCounted : IsCounted init
unfolding init
init-IsCounted = record { flights = omega arith; pending = omega arith }

-- After every interleaving of sends, answers and completions, the in-flight counter is the number of
-- items in hand or submitted, and the pending bytes are those of every item that is queued, in hand
-- or submitted; no counter has been cut off at 0.
pub run-init-IsCounted : (size : String → ℕ) (es : List Event) → IsCounted (run size init es)
run-init-IsCounted size es = run-IsCounted size es init init-IsCounted

-- So `wait_for_sent` returns only when nothing is queued, in hand or waiting for its event, and no
-- byte is pending.
pub all_sent-nothing_left :
    (size : String → ℕ) (es : List Event)
    → all_sent (run size init es) ≡ true
    → ((run size init es).queue ≡ [])
      × ((run size init es).hand ≡ none)
      × ((run size init es).completions ≡ [])
      × ((run size init es).pending_bytes ≡ 0)
unfolding all_sent
all_sent-nothing_left size es e = let c = run-init-IsCounted size es in grind arith

-- And `wait_for_below` returns only when the items that are queued, in hand or submitted hold at most
-- that many bytes.
pub below-bytes :
    (size : String → ℕ) (es : List Event) (limit : ℕ)
    → below limit (run size init es) ≡ true
    → bytes (held (run size init es).hand)
        + bytes (run size init es).queue
        + bytes (run size init es).completions
      ≤ limit
unfolding below
below-bytes size es limit e = let c = run-init-IsCounted size es in grind arith
