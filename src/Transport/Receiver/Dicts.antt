-- ===== src/Transport/Receiver/Dicts.antt =====
-- The buffers of the consumer keep one entry for a transfer, as a dict does.
use kvserve.Common.{ℕ, Bool, true, false, Option, none, some, List, [], ◌∷◌, String, if◌then◌else◌}
use kvserve.Transport.Payload.{payload_nbytes}
use kvserve.Transport.Credits.{Credits, reserve}
use kvserve.Transport.Sender.{ack_oom}
use kvserve.Transport.Receiver.{
  Delivery, Arrival, Receiver, mark_failed, Attempt, goes_well, out_of_memory, raises_early,
  raises_late, init_comm, put, put_bundle, answer, accept, handle, completed, complete, drain,
  loaded, load, Event, receives, completes, drains, schedules, loads, step,
}
use kvserve.Transport.Receiver.Buffers.{IsDict, extend-IsDict, gather-IsDict, store-IsDict}

pub record AreDicts (r : Receiver) : Type 0 where
  pub received : IsDict r.received
  pub buffered : IsDict r.buffered

module _ (size : String → ℕ) where
  mark_failed-AreDicts : (rid : String) (r : Receiver) → AreDicts r → AreDicts (mark_failed rid r)
  unfolding mark_failed
  mark_failed-AreDicts rid r h = record {
    received = extend-IsDict rid _ r.received h.received;
    buffered = h.buffered;
  }

  answer-AreDicts :
      (rid : String) (d : Delivery) (attempt : Attempt) (r : Receiver) (c : Option Credits)
      → AreDicts r
      → AreDicts (answer size rid d attempt r c).0
  unfolding answer
  answer-AreDicts rid d attempt r none h = h
  answer-AreDicts rid d goes_well r (some c) h = record {
    received = h.received;
    buffered = h.buffered;
  }
  answer-AreDicts rid d out_of_memory r (some c) h = record {
    received = extend-IsDict rid _ r.received h.received;
    buffered = h.buffered;
  }
  answer-AreDicts rid d raises_early r (some c) h = record {
    received = h.received;
    buffered = h.buffered;
  }
  answer-AreDicts rid d raises_late r (some c) h = record {
    received = h.received;
    buffered = h.buffered;
  }

  accept-AreDicts :
      (rid : String) (d : Delivery) (attempt : Attempt) (r : Receiver)
      → AreDicts r
      → AreDicts (accept size rid d attempt r).0
  unfolding accept
  accept-AreDicts rid d attempt r h = gate r.comm
    where
      c : Option Credits
      c = reserve rid (payload_nbytes size d.payload) r.credits

      gate :
          (b : Bool)
          → AreDicts
              (if b then answer size rid d attempt r c else (mark_failed rid r, some ack_oom)).0
      gate true = answer-AreDicts rid d attempt r c h
      gate false = mark_failed-AreDicts rid r h

  completed-AreDicts :
      (ok : Bool) (r : Receiver) (arrived : List Arrival)
      → AreDicts r
      → AreDicts (completed ok r arrived)
  unfolding completed mark_failed
  completed-AreDicts ok r [] h = h
  completed-AreDicts true r (a ∷ rest) h = record {
    received = extend-IsDict a.request_id _ r.received h.received;
    buffered = h.buffered;
  }
  completed-AreDicts false r (a ∷ rest) h = record {
    received = extend-IsDict a.request_id _ r.received h.received;
    buffered = h.buffered;
  }

  loaded-AreDicts :
      (t : String) (r : Receiver) (ds : List Delivery) → AreDicts r → AreDicts (loaded size t r ds)
  unfolding loaded
  loaded-AreDicts t r [] h = h
  loaded-AreDicts t r (d ∷ ds) h = record {
    received = h.received;
    buffered = store-IsDict t ds r.buffered h.buffered;
  }

  pub step-AreDicts : (r : Receiver) (e : Event) → AreDicts r → AreDicts (step size r e)
  unfolding step handle complete load drain
  step-AreDicts r (receives init_comm attempt) h = record {
    received = h.received;
    buffered = h.buffered;
  }
  step-AreDicts r (receives (put rid names spec) attempt) h = accept-AreDicts rid _ attempt r h
  step-AreDicts r (receives (put_bundle rid names body aux) attempt) h =
      accept-AreDicts rid _ attempt r h
  step-AreDicts r (completes ok) h = completed-AreDicts ok r r.completions h
  step-AreDicts r drains h = record {
    received = tt;
    buffered = gather-IsDict r.received r.buffered h.buffered;
  }
  step-AreDicts r (schedules rids) h = record { received = h.received; buffered = h.buffered }
  step-AreDicts r (loads t) h = loaded-AreDicts t r _ h
