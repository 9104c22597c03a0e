-- ===== src/Transport/Receiver/Tests.antt =====
-- The consumer at a concrete interleaving.
use kvserve.Common.{ℕ, ◌≡◌, refl, true, false, List, [], ◌∷◌, ◌++◌, String}
use kvserve.Transport.Payload.{Spec, tensor, payload_nbytes}
use kvserve.Transport.Credits.{reserve, release, expect}
use kvserve.Transport.Credits
use kvserve.Transport.Receiver.{
  init, extend, goes_well, out_of_memory, raises_late, init_comm, put, put_bundle, accept, handle,
  complete, drain, gather, entries, store, load, Event, receives, completes, drains, loads, run,
}
use kvserve.Transport.Receiver.Accounting.{all_lost, IsAccounted, reserved-IsAccounted}
use kvserve.Transport.Receiver.Order.{
  all_taken, pending, for_transfer, all_published, taken-in_order,
}

abbrev two_bytes : String → ℕ
two_bytes dtype = 2

abbrev row : ℕ → Spec
row n = record { shape = n ∷ []; dtype = "bfloat16" }

-- "a" arrives in two parts, "b" finds no memory, "c" is dropped by an exception after its
-- acknowledgement, and the connector takes the first part of "a".
abbrev events : List Event
events =
    receives init_comm goes_well
    ∷ receives (put "a" [] (row 10)) goes_well
    ∷ receives (put "b" [] (row 20)) out_of_memory
    ∷ receives (put "a" [] (row 30)) goes_well
    ∷ receives (put_bundle "c" [] (row 1 ∷ []) (row 2 ∷ [])) raises_late
    ∷ completes true
    ∷ completes false
    ∷ drains
    ∷ loads "a"
    ∷ []

credits_after : (run two_bytes (init 1000) events).credits.reserved ≡ 6
unfolding run init handle accept complete drain gather entries store load extend reserve release
    Credits.init payload_nbytes
credits_after = refl

taken_first :
    all_taken two_bytes "a" (init 1000) events
    ≡ record { layer_names = []; payload = tensor (row 10) } ∷ []
unfolding run init handle accept complete drain gather entries store load extend reserve release
    Credits.init payload_nbytes
taken_first = refl

reserved-IsAccounted_example :
    IsAccounted two_bytes (all_lost two_bytes (init 1000) events) (run two_bytes (init 1000) events)
reserved-IsAccounted_example = reserved-IsAccounted two_bytes 1000 events

taken-in_order_example :
    all_taken two_bytes "a" (init 1000) events ++ pending "a" (run two_bytes (init 1000) events)
    ≡ for_transfer "a" (all_published two_bytes (init 1000) events)
taken-in_order_example = taken-in_order two_bytes "a" 1000 events
