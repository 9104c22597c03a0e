-- ===== src/Transport/Receiver/Order.antt =====
-- The payloads of a transfer reach the connector in the order in which they are published.
use kvserve.Common.{
  ℕ, ◌≡◌, refl, sym, ap, ◌∙◌, Bool, true, false, Option, none, some, List, [], ◌∷◌, ◌++◌, String,
  arith, if◌then◌else◌, str_eq,
}
use mathlib.Core.List.{append_assoc, append-nil}
use kvserve.Transport.Payload.{failed, payload_nbytes}
use kvserve.Transport.Credits.{Credits, reserve, release}
use kvserve.Transport.Sender.{Ack, ack_ok, ack_oom, ack_retry}
use kvserve.Transport.Receiver.{
  Delivery, Arrival, Receiver, init, extend, mark_failed, Attempt, goes_well, out_of_memory,
  raises_early, raises_late, Message, init_comm, put, put_bundle, answer, accept, handle, completed,
  complete, drain, entries, store, loaded, load, Event, receives, completes, drains, schedules,
  loads, step, run,
}
use kvserve.Transport.Receiver.Dicts.{AreDicts, step-AreDicts}
use kvserve.Transport.Receiver.Buffers.{IsDict, entries-extend, entries-gather, entries-store}

-- The entry of a failed transfer.
abbrev pub failure : Delivery
failure = record { layer_names = []; payload = failed }

abbrev pub target : Message → String
target init_comm = ""
target (put rid names spec) = rid
target (put_bundle rid names body aux) = rid

-- The failure that goes with a negative acknowledgement.
abbrev pub refusal : String → Option Ack → List (String × Delivery)
refusal rid none = []
refusal rid (some ack_ok) = []
refusal rid (some ack_retry) = []
refusal rid (some ack_oom) = (rid, failure) ∷ []

abbrev pub outcome : Bool → List Arrival → List (String × Delivery)
outcome ok [] = []
outcome ok (a ∷ rest) = (a.request_id, if ok then a.delivery else failure) ∷ []

abbrev pub for_transfer : String → List (String × Delivery) → List Delivery
for_transfer tid [] = []
for_transfer tid (p ∷ ps) = (if str_eq p.0 tid then p.1 ∷ [] else []) ++ for_transfer tid ps

abbrev front : List Delivery → List Delivery
front [] = []
front (d ∷ ds) = d ∷ []

-- What waits for the connector, oldest first.
unfoldable pub pending : String → Receiver → List Delivery
pending tid r = entries tid r.buffered ++ entries tid r.received

pending-publish :
    (tid key : String) (d : Delivery) (r : Receiver)
    → pending tid (record r { received = extend key (d ∷ []) r.received })
      ≡ pending tid r ++ for_transfer tid ((key, d) ∷ [])
unfolding pending
pending-publish tid key d r =
    rw (entries-extend tid key (d ∷ []) r.received, append-nil)
      (sym (append_assoc (entries tid r.buffered) (entries tid r.received) _))

pending-drain :
    (tid : String) (r : Receiver) → IsDict r.received → pending tid (drain r) ≡ pending tid r
unfolding pending drain entries
pending-drain tid r h = rw (append-nil, entries-gather tid r.received r.buffered h)

module _ (size : String → ℕ) where
  -- What a step publishes, with its transfer, and what it takes off the front.
  abbrev pub published : Receiver → Event → List (String × Delivery)
  published r (receives message attempt) =
      refusal (target message) (handle size message attempt r).1
  published r (completes ok) = outcome ok r.completions
  published r drains = []
  published r (schedules rids) = []
  published r (loads tid) = []

  abbrev pub taken : String → Receiver → Event → List Delivery
  taken tid r (receives message attempt) = []
  taken tid r (completes ok) = []
  taken tid r drains = []
  taken tid r (schedules rids) = []
  taken tid r (loads t) = if str_eq t tid then front (entries t r.buffered) else []

  answer-pending :
      (tid rid : String) (d : Delivery) (attempt : Attempt) (r : Receiver) (c : Option Credits)
      → pending tid (answer size rid d attempt r c).0
        ≡ pending tid r ++ for_transfer tid (refusal rid (answer size rid d attempt r c).1)
  unfolding answer pending
  answer-pending tid rid d attempt r none = sym (append-nil _)
  answer-pending tid rid d goes_well r (some c) = sym (append-nil _)
  answer-pending tid rid d out_of_memory r (some c) = pending-publish tid rid failure r
  answer-pending tid rid d raises_early r (some c) = sym (append-nil _)
  answer-pending tid rid d raises_late r (some c) = sym (append-nil _)

  accept-pending :
      (tid rid : String) (d : Delivery) (attempt : Attempt) (r : Receiver)
      → pending tid (accept size rid d attempt r).0
        ≡ pending tid r ++ for_transfer tid (refusal rid (accept size rid d attempt r).1)
  unfolding accept mark_failed
  accept-pending tid rid d attempt r = gate r.comm
    where
      c : Option Credits
      c = reserve rid (payload_nbytes size d.payload) r.credits

      gate :
          (b : Bool)
          → let reply : Receiver × Option Ack =
              if b then answer size rid d attempt r c else (mark_failed rid r, some ack_oom) in
            pending tid reply.0 ≡ pending tid r ++ for_transfer tid (refusal rid reply.1)
      gate true = answer-pending tid rid d attempt r c
      gate false = pending-publish tid rid failure r

  complete-pending :
      (tid : String) (ok : Bool) (r : Receiver) (arrived : List Arrival)
      → pending tid (completed ok r arrived)
        ≡ pending tid r ++ for_transfer tid (outcome ok arrived)
  unfolding completed mark_failed release pending
  complete-pending tid ok r [] = sym (append-nil _)
  complete-pending tid true r (a ∷ rest) = pending-publish tid a.request_id a.delivery r
  complete-pending tid false r (a ∷ rest) = pending-publish tid a.request_id failure r

  load-pending :
      (tid t : String) (r : Receiver) (ds : List Delivery)
      → IsDict r.buffered
      → entries t r.buffered ≡ ds
      → (if str_eq t tid then front ds else []) ++ pending tid (loaded size t r ds) ≡ pending tid r
  unfolding loaded pending
  load-pending tid t r [] h e = ground arith
  load-pending tid t r (d ∷ ds) h e =
      sym (append_assoc _ (entries tid (store t ds r.buffered)) (entries tid r.received))
      ∙ ap (λ l. l ++ entries tid r.received) (sym (entries-store tid t d ds r.buffered h e))

  step-pending :
      (tid : String) (r : Receiver) (e : Event)
      → AreDicts r
      → taken tid r e ++ pending tid (step size r e)
        ≡ pending tid r ++ for_transfer tid (published r e)
  unfolding step handle complete load
  step-pending tid r (receives init_comm attempt) h = unfold pending in sym (append-nil _)
  step-pending tid r (receives (put rid names spec) attempt) h = accept-pending tid rid _ attempt r
  step-pending tid r (receives (put_bundle rid names body aux) attempt) h =
      accept-pending tid rid _ attempt r
  step-pending tid r (completes ok) h = complete-pending tid ok r r.completions
  step-pending tid r drains h = rw append-nil (pending-drain tid r h.received)
  step-pending tid r (schedules rids) h = unfold pending in sym (append-nil _)
  step-pending tid r (loads t) h = rw append-nil (load-pending tid t r _ h.buffered refl)

  abbrev pub all_taken : String → Receiver → List Event → List Delivery
  all_taken tid r [] = []
  all_taken tid r (e ∷ es) = taken tid r e ++ all_taken tid (step size r e) es

  abbrev pub all_published : Receiver → List Event → List (String × Delivery)
  all_published r [] = []
  all_published r (e ∷ es) = published r e ++ all_published (step size r e) es

  run-pending :
      (tid : String) (es : List Event) (r : Receiver)
      → AreDicts r
      → all_taken tid r es ++ pending tid (run size r es)
        ≡ pending tid r ++ for_transfer tid (all_published r es)
  unfolding run
  run-pending tid [] r h = sym (append-nil _)
  run-pending tid (e ∷ es) r h =
      let r' = step size r e in
      chain (taken tid r e) (all_taken tid r' es) (pending tid (run size r' es)) (pending tid r')
        (for_transfer tid (all_published r' es)) (pending tid r) (for_transfer tid (published r e))
        (run-pending tid es r' (step-AreDicts size r e h)) (step-pending tid r e h)
      ∙ ap (◌++◌ (pending tid r)) (sym (for_transfer-append (published r e) _))
    where
      for_transfer-append :
          (ps qs : List (String × Delivery))
          → for_transfer tid (ps ++ qs) ≡ for_transfer tid ps ++ for_transfer tid qs
      for_transfer-append [] qs = refl
      for_transfer-append (p ∷ ps) qs =
          ap (◌++◌ _) (for_transfer-append ps qs) ∙ sym (append_assoc _ (for_transfer tid ps) _)

      chain :
          (a b c d f g h : List Delivery)
          → b ++ c ≡ d ++ f
          → a ++ d ≡ g ++ h
          → (a ++ b) ++ c ≡ g ++ (h ++ f)
      chain a b c d f g h p q =
          append_assoc a b c
          ∙ ap (◌++◌ a) p
          ∙ sym (append_assoc a d f)
          ∙ ap (λ l. l ++ f) q
          ∙ append_assoc g h f

-- After every interleaving, what the connector has taken of a transfer, then what waits for it, is
-- what has been published for that transfer, failures included, in the order of publishing.
pub taken-in_order :
    (size : String → ℕ) (tid : String) (recv_buffer_size : ℕ) (es : List Event)
    → all_taken size tid (init recv_buffer_size) es
        ++ pending tid (run size (init recv_buffer_size) es)
      ≡ for_transfer tid (all_published size (init recv_buffer_size) es)
unfolding init pending entries
taken-in_order size tid recv_buffer_size es =
    run-pending size tid es (init recv_buffer_size) (record { received = tt; buffered = tt })
