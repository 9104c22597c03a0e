-- ===== src/Transport/Receiver/Buffers.antt =====
-- The dictionaries of queues: what each operation does to the queue of every key.
use kvserve.Common.{
  ◌≡◌, refl, sym, ap, Bool, true, false, ◌||◌, List, [], ◌∷◌, ◌++◌, String, arith, if◌then◌else◌,
  str_eq, str_eq_iff, Bool-cases, inl, inr,
}
use mathlib.Core.List.{append-nil}
use kvserve.Transport.Receiver.{Delivery, Buffers, extend, gather, entries, store}

unfoldable pub has : String → Buffers → Bool
has key [] = false
has key (b ∷ bs) = str_eq b.0 key || has key bs

-- No key twice, as in a dict.
abbrev pub IsDict : Buffers → Type 0
IsDict [] = Unit
IsDict (b ∷ bs) = (has b.0 bs ≡ false) × IsDict bs

entries_missing : (key : String) (bs : Buffers) → has key bs ≡ false → entries key bs ≡ []
unfolding has entries
entries_missing key [] h = refl
entries_missing key (b ∷ bs) h = ground (arith, entries_missing key bs)

-- Appending to one queue leaves the others alone.
pub entries-extend :
    (rid key : String) (ds : List Delivery) (bs : Buffers)
    → entries rid (extend key ds bs) ≡ entries rid bs ++ (if str_eq key rid then ds else [])
unfolding entries extend
entries-extend rid key ds [] = refl
entries-extend rid key ds ((k, queue) ∷ bs) = ground (
  arith,
  entries-extend rid key ds bs,
  str_eq_iff k key,
  str_eq_iff k rid,
  str_eq_iff key rid,
  append-nil queue,
  append-nil (entries rid bs),
)

has-extend :
    (rid key : String) (ds : List Delivery) (bs : Buffers)
    → has rid (extend key ds bs) ≡ (str_eq key rid || has rid bs)
unfolding has extend
has-extend rid key ds [] = refl
has-extend rid key ds ((k, queue) ∷ bs) =
    ground (arith, has-extend rid key ds bs, str_eq_iff k key, str_eq_iff k rid, str_eq_iff key rid)

pub extend-IsDict :
    (key : String) (ds : List Delivery) (bs : Buffers) → IsDict bs → IsDict (extend key ds bs)
unfolding has extend
extend-IsDict key ds [] h = (refl, tt)
extend-IsDict key ds ((k, queue) ∷ bs) h = elim (Bool-cases (str_eq k key)) [
  | inl e ↦ rw e h
  | inr e ↦ rw e ((absent e, extend-IsDict key ds bs h.1))
]
  where
    absent : str_eq k key ≡ false → has k (extend key ds bs) ≡ false
    absent e = ground (arith, has-extend k key ds bs, str_eq_iff k key, str_eq_iff key k, h.0)

pub gather-IsDict : (new bs : Buffers) → IsDict bs → IsDict (gather new bs)
unfolding gather
gather-IsDict [] bs h = h
gather-IsDict ((k, []) ∷ new) bs h = gather-IsDict new bs h
gather-IsDict ((k, d ∷ ds) ∷ new) bs h =
    gather-IsDict new (extend k (d ∷ ds) bs) (extend-IsDict k (d ∷ ds) bs h)

-- What is gathered goes behind what is buffered, in its order.
pub entries-gather :
    (rid : String) (new bs : Buffers)
    → IsDict new
    → entries rid (gather new bs) ≡ entries rid bs ++ entries rid new
unfolding entries gather
entries-gather rid [] bs h = sym (append-nil (entries rid bs))
entries-gather rid ((k, []) ∷ new) bs h = elim (Bool-cases (str_eq k rid)) [
  | inl e ↦
      rw (e, entries-gather rid new bs h.1)
        (ap (◌++◌ (entries rid bs)) (entries_missing rid new (same e)))
  | inr e ↦ rw e (entries-gather rid new bs h.1)
]
  where
    same : str_eq k rid ≡ true → has rid new ≡ false
    same e = ground (arith, str_eq_iff k rid, h.0)
entries-gather rid ((k, d ∷ ds) ∷ new) bs h = elim (Bool-cases (str_eq k rid)) [
  | inl e ↦
      rw
        (
          entries-gather rid new (extend k (d ∷ ds) bs) h.1,
          entries-extend rid k (d ∷ ds) bs,
          e,
          entries_missing rid new (same e),
        )
        (append-nil (entries rid bs ++ (d ∷ ds)))
  | inr e ↦
      rw
        (
          entries-gather rid new (extend k (d ∷ ds) bs) h.1,
          entries-extend rid k (d ∷ ds) bs,
          e,
          append-nil,
        )
        refl
]
  where
    same : str_eq k rid ≡ true → has rid new ≡ false
    same e = ground (arith, str_eq_iff k rid, h.0)

has-store :
    (rid key : String) (ds : List Delivery) (bs : Buffers)
    → has rid bs ≡ false
    → has rid (store key ds bs) ≡ false
unfolding has store
has-store rid key ds [] h = refl
has-store rid key [] ((k, queue) ∷ bs) h = ground (arith, has-store rid key [] bs)
has-store rid key (d ∷ ds) ((k, queue) ∷ bs) h = ground (arith, has-store rid key (d ∷ ds) bs)

pub store-IsDict :
    (key : String) (ds : List Delivery) (bs : Buffers) → IsDict bs → IsDict (store key ds bs)
unfolding store
store-IsDict key ds [] h = tt
store-IsDict key [] ((k, queue) ∷ bs) h = elim (Bool-cases (str_eq k key)) [
  | inl e ↦ rw e h.1
  | inr e ↦ rw e ((has-store k key [] bs h.0, store-IsDict key [] bs h.1))
]
store-IsDict key (d ∷ ds) ((k, queue) ∷ bs) h = elim (Bool-cases (str_eq k key)) [
  | inl e ↦ rw e h
  | inr e ↦ rw e ((has-store k key (d ∷ ds) bs h.0, store-IsDict key (d ∷ ds) bs h.1))
]

-- Taking the front entry of one queue leaves the others alone.
pub entries-store :
    (rid key : String) (d : Delivery) (ds : List Delivery) (bs : Buffers)
    → IsDict bs
    → entries key bs ≡ d ∷ ds
    → entries rid bs ≡ (if str_eq key rid then d ∷ [] else []) ++ entries rid (store key ds bs)
unfolding entries store
entries-store rid key d ds [] h e = absurd (cc)
entries-store rid key d [] ((k, queue) ∷ bs) h e = ground (
  arith,
  entries-store rid key d [] bs h.1,
  entries_missing rid bs,
  str_eq_iff k key,
  str_eq_iff k rid,
  str_eq_iff key rid,
)
entries-store rid key d (d' ∷ ds) ((k, queue) ∷ bs) h e = ground (
  arith,
  entries-store rid key d (d' ∷ ds) bs h.1,
  str_eq_iff k key,
  str_eq_iff k rid,
  str_eq_iff key rid,
)
