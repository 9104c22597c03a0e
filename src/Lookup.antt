-- ===== src/Lookup.antt =====
-- kvsfuse-vllm0.30.0/mooncake/store/protocol.py: the bytes of a lookup response, on the channel between
-- the scheduler and the worker. A byte is a natural number; to_bytes and from_bytes are Python's.
pub mod Roundtrip
pub mod Canonical
mod Tests
use kvserve.Common.{
  ℕ, zero, suc, ◌+◌, ◌-◌, ◌*◌, ◌/◌, ◌%◌, ◌||◌, Option, none, some, List, [], ◌∷◌, ◌++◌, ltb, ◌==◌,
  not, if◌then◌else◌, length, take, drop,
}

-- A step that may raise, and what follows it.
infixl 5 ◌>>=◌
abbrev pub ◌>>=◌ {κ ℓ} : {B : Type κ} {C : Type ℓ} → Option B → (B → Option C) → Option C
none >>= next = none
some value >>= next = next value

pub record TailKeyBoundary : Type 0 where
  pub group_id : ℕ
  pub num_tokens : ℕ

pub record MooncakeLookupResult : Type 0 where
  pub hit_length : ℕ
  pub tail_key_boundaries : List TailKeyBoundary

-- `n.to_bytes(4, "big")`, which raises where four bytes do not suffice.
unfoldable pub to_bytes : ℕ → Option (List ℕ)
to_bytes n =
    if ltb n 4294967296
    then some (n / 16777216 ∷ (n / 65536) % 256 ∷ (n / 256) % 256 ∷ n % 256 ∷ [])
    else none

-- `int.from_bytes(bytes, "big")`, with the value of the bytes before.
unfoldable pub from_bytes : ℕ → List ℕ → ℕ
from_bytes acc [] = acc
from_bytes acc (b ∷ bs) = from_bytes (acc * 256 + b) bs

abbrev pub entry_size : ℕ
entry_size = 8

-- `payload.extend(...)` of a value that may have raised.
unfoldable pub extend : List ℕ → Option (List ℕ) → Option (List ℕ)
extend payload none = none
extend payload (some bytes) = some (payload ++ bytes)

-- The loop over the boundaries.
unfoldable pub encode_boundaries : List ℕ → List TailKeyBoundary → Option (List ℕ)
encode_boundaries payload [] = some payload
encode_boundaries payload (b ∷ bs) = do
  with_group ← extend payload (to_bytes (TailKeyBoundary.group_id b))
  with_tokens ← extend with_group (to_bytes (TailKeyBoundary.num_tokens b))
  encode_boundaries with_tokens bs

unfoldable pub encode_lookup_response : MooncakeLookupResult → Option (List ℕ)
encode_lookup_response result = do
  hit_length ← to_bytes (MooncakeLookupResult.hit_length result)
  encode_boundaries hit_length (MooncakeLookupResult.tail_key_boundaries result)

-- `payload[start : start + 4]` as a number.
unfoldable pub number_at : List ℕ → ℕ → ℕ
number_at payload start = from_bytes 0 (take 4 (drop start payload))

-- The loop over range(4, len(payload), 8), by the number of its steps.
unfoldable pub decode_boundaries : List ℕ → ℕ → ℕ → List TailKeyBoundary
decode_boundaries payload offset zero = []
decode_boundaries payload offset (suc n) =
    record { group_id = number_at payload offset; num_tokens = number_at payload (offset + 4) }
    ∷ decode_boundaries payload (offset + entry_size) n

-- `none` is the source's ValueError.
unfoldable pub decode_lookup_response : List ℕ → Option MooncakeLookupResult
decode_lookup_response payload =
    if ltb (length payload) 4 || not ((length payload - 4) % entry_size == 0)
    then none
    else some (record {
      hit_length = number_at payload 0;
      tail_key_boundaries =
          decode_boundaries payload 4 ((length payload - 4 + (entry_size - 1)) / entry_size);
    })
