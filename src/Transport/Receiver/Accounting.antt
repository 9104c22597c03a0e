-- ===== src/Transport/Receiver/Accounting.antt =====
-- Each reserved byte belongs to a payload that is being received, published or buffered, or was lost
-- to an exception in the listener.
use kvserve.Common.{
  ℕ, ◌+◌, ◌-◌, ◌≡◌, refl, Bool, true, false, Option, none, some, List, [], ◌∷◌, String, arith,
  if◌then◌else◌, All, All-append, ap, subst,
}
use kvserve.Transport.Payload.{Payload, tensor, bundle, payload_nbytes}
use kvserve.Transport.Credits.{Credits, reserve, release, expect}
use kvserve.Transport.Credits
use kvserve.Transport.Sender.{ack_oom}
use kvserve.Transport.Receiver.{
  Delivery, Arrival, Receiver, init, mark_failed, Attempt, goes_well, out_of_memory, raises_early,
  raises_late, Message, init_comm, put, put_bundle, submit, answer, accept, handle, completed,
  complete, drain, entries, loaded, load, Event, receives, completes, drains, schedules, loads,
  step, run,
}
use kvserve.Transport.Receiver.Bytes.{
  buffers_bytes, arrivals_bytes, arrivals_bytes-append, buffers_bytes-extend, buffers_bytes-gather,
  buffers_bytes-store,
}

abbrev pub lost_if : Attempt → ℕ → ℕ
lost_if goes_well n = 0
lost_if out_of_memory n = 0
lost_if raises_early n = n
lost_if raises_late n = n

abbrev pub lost_after : Attempt → ℕ → Option Credits → ℕ
lost_after attempt n none = 0
lost_after attempt n (some c) = lost_if attempt n

reserved-reserve :
    (rid : String) (n : ℕ) (c : Credits) {c' : Credits}
    → reserve rid n c ≡ some c'
    → c'.reserved ≡ c.reserved + n
unfolding reserve
reserved-reserve rid n c e = ground arith

reserved-release :
    (rid : String) (n : ℕ) (c : Credits) → (release rid n c).reserved ≡ c.reserved - n
unfolding release
reserved-release rid n c = ground arith

module _ (size : String → ℕ) where
  -- The credits that an exception of the handler leaves reserved, with nothing to give them back.
  abbrev pub lost_by : String → Payload → Attempt → Receiver → ℕ
  lost_by rid payload attempt r =
      let n = payload_nbytes size payload in
      if r.comm then lost_after attempt n (reserve rid n r.credits) else 0

  abbrev pub lost : Receiver → Event → ℕ
  lost r (receives init_comm attempt) = 0
  lost r (receives (put rid names spec) attempt) = lost_by rid (tensor spec) attempt r
  lost r (receives (put_bundle rid names body aux) attempt) =
      lost_by rid (bundle body aux) attempt r
  lost r (completes ok) = 0
  lost r drains = 0
  lost r (schedules rids) = 0
  lost r (loads tid) = 0

  abbrev pub all_lost : Receiver → List Event → ℕ
  all_lost r [] = 0
  all_lost r (e ∷ es) = lost r e + all_lost (step size r e) es

  abbrev pub IsSized : Arrival → Type 0
  IsSized a = a.payload_bytes ≡ payload_nbytes size a.delivery.payload

  pub record IsAccounted (gone : ℕ) (r : Receiver) : Type 0 where
    pub reserved :
        r.credits.reserved
        ≡ arrivals_bytes size r.completions
          + buffers_bytes size r.received
          + buffers_bytes size r.buffered
          + gone
    pub sized : All IsSized r.completions

  mark_failed-IsAccounted :
      (gone : ℕ) (rid : String) (r : Receiver)
      → IsAccounted gone r
      → IsAccounted gone (mark_failed rid r)
  unfolding mark_failed payload_nbytes
  mark_failed-IsAccounted gone rid r h = record {
    reserved = omega (arith, h.reserved, buffers_bytes-extend size rid (_ ∷ []) r.received);
    sized = h.sized;
  }

  submit-IsAccounted :
      (gone : ℕ) (rid : String) (d : Delivery) (attempt : Attempt) (r : Receiver)
      → r.credits.reserved
        ≡ arrivals_bytes size r.completions
          + buffers_bytes size r.received
          + buffers_bytes size r.buffered
          + gone
          + payload_nbytes size d.payload
      → All IsSized r.completions
      → IsAccounted
          (gone + lost_if attempt (payload_nbytes size d.payload))
          (submit size rid d attempt r).0
  unfolding submit
  submit-IsAccounted gone rid d goes_well r h sized = record {
    reserved = omega (arith, h, arrivals_bytes-append size r.completions (_ ∷ []));
    sized = All-append IsSized r.completions (_ ∷ []) sized (refl, tt);
  }
  submit-IsAccounted gone rid d out_of_memory r h sized =
      mark_failed-IsAccounted (gone + 0) rid _ (record {
        reserved = omega (arith, h, reserved-release rid (payload_nbytes size d.payload) r.credits);
        sized = sized;
      })
  submit-IsAccounted gone rid d raises_early r h sized = record {
    reserved = omega (arith, h);
    sized = sized;
  }
  submit-IsAccounted gone rid d raises_late r h sized = record {
    reserved = omega (arith, h);
    sized = sized;
  }

  answer-IsAccounted :
      (gone : ℕ) (rid : String) (d : Delivery) (attempt : Attempt) (r : Receiver)
      (c : Option Credits)
      → reserve rid (payload_nbytes size d.payload) r.credits ≡ c
      → IsAccounted gone r
      → IsAccounted
          (gone + lost_after attempt (payload_nbytes size d.payload) c)
          (answer size rid d attempt r c).0
  unfolding answer
  answer-IsAccounted gone rid d attempt r none e h = record {
    reserved = omega (arith, h.reserved);
    sized = h.sized;
  }
  answer-IsAccounted gone rid d attempt r (some c) e h =
      submit-IsAccounted gone rid d attempt (record r { credits = c })
        (omega
          (arith, h.reserved, reserved-reserve rid (payload_nbytes size d.payload) r.credits e))
        h.sized

  accept-IsAccounted :
      (gone : ℕ) (rid : String) (d : Delivery) (attempt : Attempt) (r : Receiver)
      → IsAccounted gone r
      → IsAccounted (gone + lost_by rid d.payload attempt r) (accept size rid d attempt r).0
  unfolding accept
  accept-IsAccounted gone rid d attempt r h = gate r.comm
    where
      n : ℕ
      n = payload_nbytes size d.payload

      gate :
          (b : Bool)
          → IsAccounted
              (gone + (if b then lost_after attempt n (reserve rid n r.credits) else 0))
              (if b
                then answer size rid d attempt r (reserve rid n r.credits)
                else (mark_failed rid r, some ack_oom)).0
      gate true = answer-IsAccounted gone rid d attempt r _ refl h
      gate false =
          mark_failed-IsAccounted (gone + 0) rid r
            (record { reserved = omega (arith, h.reserved); sized = h.sized })

  handle-IsAccounted :
      (gone : ℕ) (m : Message) (attempt : Attempt) (r : Receiver)
      → IsAccounted gone r
      → IsAccounted (gone + lost r (receives m attempt)) (handle size m attempt r).0
  unfolding handle
  handle-IsAccounted gone init_comm attempt r h = record {
    reserved = omega (arith, h.reserved);
    sized = h.sized;
  }
  handle-IsAccounted gone (put rid names spec) attempt r h =
      accept-IsAccounted gone rid _ attempt r h
  handle-IsAccounted gone (put_bundle rid names body aux) attempt r h =
      accept-IsAccounted gone rid _ attempt r h

  completed-IsAccounted :
      (gone : ℕ) (ok : Bool) (r : Receiver) (arrived : List Arrival)
      → r.completions ≡ arrived
      → IsAccounted gone r
      → IsAccounted gone (completed ok r arrived)
  unfolding completed
  completed-IsAccounted gone ok r [] e h = h
  completed-IsAccounted gone true r (a ∷ rest) e h =
      let sized : All IsSized (a ∷ rest) = subst (All IsSized) e h.sized in
      record {
        reserved = omega (
          arith,
          h.reserved,
          ap (arrivals_bytes size) e,
          buffers_bytes-extend size a.request_id (a.delivery ∷ []) r.received,
        );
        sized = sized.1;
      }
  completed-IsAccounted gone false r (a ∷ rest) e h =
      let sized : All IsSized (a ∷ rest) = subst (All IsSized) e h.sized in
      mark_failed-IsAccounted gone a.request_id _ (record {
        reserved = omega (
          arith,
          h.reserved,
          sized.0,
          ap (arrivals_bytes size) e,
          reserved-release a.request_id a.payload_bytes r.credits,
        );
        sized = sized.1;
      })

  loaded-IsAccounted :
      (gone : ℕ) (tid : String) (r : Receiver) (ds : List Delivery)
      → entries tid r.buffered ≡ ds
      → IsAccounted gone r
      → IsAccounted gone (loaded size tid r ds)
  unfolding loaded
  loaded-IsAccounted gone tid r [] e h = h
  loaded-IsAccounted gone tid r (d ∷ ds) e h = record {
    reserved = omega (
      arith,
      h.reserved,
      buffers_bytes-store size tid d ds r.buffered e,
      reserved-release tid (payload_nbytes size d.payload) r.credits,
    );
    sized = h.sized;
  }

  more : (gone : ℕ) {r : Receiver} → IsAccounted gone r → IsAccounted (gone + 0) r
  more gone h = record { reserved = omega (arith, h.reserved); sized = h.sized }

  step-IsAccounted :
      (gone : ℕ) (r : Receiver) (e : Event)
      → IsAccounted gone r
      → IsAccounted (gone + lost r e) (step size r e)
  unfolding step complete load drain expect
  step-IsAccounted gone r (receives m attempt) h = handle-IsAccounted gone m attempt r h
  step-IsAccounted gone r (completes ok) h = more gone (completed-IsAccounted gone ok r _ refl h)
  step-IsAccounted gone r drains h = record {
    reserved = omega (arith, h.reserved, buffers_bytes-gather size r.received r.buffered);
    sized = h.sized;
  }
  step-IsAccounted gone r (schedules rids) h = record {
    reserved = omega (arith, h.reserved);
    sized = h.sized;
  }
  step-IsAccounted gone r (loads tid) h = more gone (loaded-IsAccounted gone tid r _ refl h)

  run-IsAccounted :
      (es : List Event) (gone : ℕ) (r : Receiver)
      → IsAccounted gone r
      → IsAccounted (gone + all_lost r es) (run size r es)
  unfolding run
  run-IsAccounted [] gone r h = more gone h
  run-IsAccounted (e ∷ es) gone r h =
      subst (λ k. IsAccounted k (run size (step size r e) es)) (omega arith)
        (run-IsAccounted es (gone + lost r e) (step size r e) (step-IsAccounted gone r e h))

  -- After every interleaving the reserved credits are the bytes of the payloads that are being
  -- received, published or buffered by the connector, and of those that the listener dropped on an
  -- exception other than the allocation's after it had reserved their credits.
  pub reserved-IsAccounted :
      (recv_buffer_size : ℕ) (es : List Event)
      → IsAccounted (all_lost (init recv_buffer_size) es) (run size (init recv_buffer_size) es)
  unfolding init Credits.init
  reserved-IsAccounted recv_buffer_size es =
      subst (λ k. IsAccounted k (run size (init recv_buffer_size) es)) (omega arith)
        (run-IsAccounted es 0 (init recv_buffer_size)
          (record { reserved = omega arith; sized = tt }))
