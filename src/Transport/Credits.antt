-- ===== src/Transport/Credits.antt =====
-- The consumer's staging credits of nccl_transport.py: `_reserve_received`, `release_received` and
-- `set_expected_requests`, each atomic under the condition variable `_recv_budget_cv`.
pub mod Staging
pub mod Bounds
pub mod Overflow
mod Tests
use kvserve.Common.{
  ℕ, ◌+◌, ◌-◌, Bool, true, false, ◌&&◌, ◌||◌, Option, none, some, List, [], ◌∷◌, String, ltb, ◌==◌,
  if◌then◌else◌, max, str_eq,
}

pub record Credits : Type 0 where
  pub capacity : ℕ
  pub reserved : ℕ
  pub expected : List String
  pub priority : Option String

-- max(1, int(recv_buffer_size))
unfoldable pub init : ℕ → Credits
init recv_buffer_size = record {
  capacity = max 1 recv_buffer_size;
  reserved = 0;
  expected = [];
  priority = none;
}

unfoldable pub contains : String → List String → Bool
contains r [] = false
contains r (x ∷ xs) = str_eq x r || contains r xs

abbrev pub is_none : Option String → Bool
is_none none = true
is_none (some r) = false

-- `request_id == self._priority_request`
abbrev pub is_priority : String → Option String → Bool
is_priority r none = false
is_priority r (some p) = str_eq r p

-- The condition of the loop: the buffer is in use and the payload does not fit in the rest.
unfoldable pub blocked : ℕ → Credits → Bool
blocked payload_bytes c = ltb 0 c.reserved && ltb c.capacity (c.reserved + payload_bytes)

-- One round of `_reserve_received`: `none` where the call returns False, or waits if it may.
unfoldable pub reserve : String → ℕ → Credits → Option Credits
unfolding blocked contains
reserve request_id payload_bytes c =
    let taken : Credits = record c { reserved = c.reserved + payload_bytes } in
    if blocked payload_bytes c
    then (if contains request_id c.expected && is_none c.priority
        then some (record taken { priority = some request_id })
        else none)
    else some taken

-- The subtraction is the source's max(0, …).
unfoldable pub release : String → ℕ → Credits → Credits
release request_id payload_bytes c = if payload_bytes == 0 then c else record c {
  reserved = c.reserved - payload_bytes;
  priority = if is_priority request_id c.priority then none else c.priority;
}

unfoldable pub expect : List String → Credits → Credits
expect request_ids c = record c { expected = request_ids }
