-- ===== src/Transport/Receiver/Bytes.antt =====
-- The bytes of the payloads in a queue, in a dict of queues and in the list of completions.
use kvserve.Common.{
  ℕ, ◌+◌, ◌≡◌, refl, List, [], ◌∷◌, ◌++◌, String, arith, str_eq, Bool-cases, inl, inr, ap,
}
use kvserve.Transport.Payload.{payload_nbytes}
use kvserve.Transport.Receiver.{Delivery, Buffers, Arrival, extend, gather, entries, written, store}

module _ (size : String → ℕ) where
  abbrev pub deliveries_bytes : List Delivery → ℕ
  deliveries_bytes [] = 0
  deliveries_bytes (d ∷ ds) = payload_nbytes size d.payload + deliveries_bytes ds

  abbrev pub buffers_bytes : Buffers → ℕ
  buffers_bytes [] = 0
  buffers_bytes (b ∷ bs) = deliveries_bytes b.1 + buffers_bytes bs

  abbrev pub arrivals_bytes : List Arrival → ℕ
  arrivals_bytes [] = 0
  arrivals_bytes (a ∷ xs) = payload_nbytes size a.delivery.payload + arrivals_bytes xs

  pub deliveries_bytes-append :
      (ds es : List Delivery)
      → deliveries_bytes (ds ++ es) ≡ deliveries_bytes ds + deliveries_bytes es
  deliveries_bytes-append [] es = omega arith
  deliveries_bytes-append (d ∷ ds) es = omega (arith, deliveries_bytes-append ds es)

  pub arrivals_bytes-append :
      (xs bs : List Arrival) → arrivals_bytes (xs ++ bs) ≡ arrivals_bytes xs + arrivals_bytes bs
  arrivals_bytes-append [] bs = omega arith
  arrivals_bytes-append (a ∷ xs) bs = omega (arith, arrivals_bytes-append xs bs)

  pub buffers_bytes-extend :
      (key : String) (ds : List Delivery) (bs : Buffers)
      → buffers_bytes (extend key ds bs) ≡ deliveries_bytes ds + buffers_bytes bs
  unfolding extend
  buffers_bytes-extend key ds [] = refl
  buffers_bytes-extend key ds ((k, queue) ∷ bs) = elim (Bool-cases (str_eq k key)) [
    | inl e ↦ rw e (omega (arith, deliveries_bytes-append queue ds))
    | inr e ↦ rw e (omega (arith, buffers_bytes-extend key ds bs))
  ]

  pub buffers_bytes-gather :
      (new bs : Buffers) → buffers_bytes (gather new bs) ≡ buffers_bytes new + buffers_bytes bs
  unfolding gather
  buffers_bytes-gather [] bs = omega arith
  buffers_bytes-gather ((k, []) ∷ new) bs = omega (arith, buffers_bytes-gather new bs)
  buffers_bytes-gather ((k, d ∷ ds) ∷ new) bs =
      omega
        (arith, buffers_bytes-gather new (extend k (d ∷ ds) bs), buffers_bytes-extend k (d ∷ ds) bs)

  pub buffers_bytes-store :
      (key : String) (d : Delivery) (ds : List Delivery) (bs : Buffers)
      → entries key bs ≡ d ∷ ds
      → payload_nbytes size d.payload + buffers_bytes (store key ds bs) ≡ buffers_bytes bs
  unfolding entries store
  buffers_bytes-store key d ds [] e = cc
  buffers_bytes-store key d ds ((k, queue) ∷ bs) e = elim (Bool-cases (str_eq k key)) [
    | inl t ↦ rw t (omega (arith, ap deliveries_bytes (rw t at e), bytes_written ds))
    | inr t ↦ rw t (omega (arith, buffers_bytes-store key d ds bs (rw t at e)))
  ]
    where
      bytes_written :
          (ds : List Delivery)
          → buffers_bytes (written k ds bs) ≡ deliveries_bytes ds + buffers_bytes bs
      bytes_written [] = omega arith
      bytes_written (d ∷ ds) = refl
