-- ===== src/Consumer/State.antt =====
-- The local variables of one `_run_consumer_session`, and the queue of receiver slots that all share.
use kvserve.Common.{ℕ, Bool, List, [], ◌∷◌, Option, none, some, ◌==◌, if◌then◌else◌}

-- Where the coroutine stands: at the open, in the loop over the replies, in the gather behind it, in
-- `_send_abort`, and in the `finally` block before and in the drain. A flag says that it returns set().
pub data Stage : Type 0 where
  connecting receiving gathering aborting : Stage
  closing draining ended : Bool → Stage

-- `issue_task`
pub data Issue : Type 0 where
  running broken over : Issue

-- A chunk with the slot that it goes to.
pub record Pull : Type 0 where
  pub chunk_id : ℕ
  pub slot_id : ℕ

pub record Receive : Type 0 where
  pub total_chunks : ℕ
  pub issued : ℕ
  pub completed : ℕ
  pub issue_task : Issue
  pub owned : List ℕ
  pub inflight : List Pull
  pub decode_tasks : List Pull
  pub stage : Stage

unfoldable pub new_receive : Receive
new_receive = record {
  total_chunks = 0;
  issued = 0;
  completed = 0;
  issue_task = over;
  owned = [];
  inflight = [];
  decode_tasks = [];
  stage = connecting;
}

pub record Helper : Type 0 where
  pub sessions : ℕ → Receive
  pub session_count : ℕ
  pub receiver_slots : List ℕ

-- `inflight.pop(chunk_id)` of a dictionary, where the chunk is there: its slot, and what is left.
unfoldable pub take_out : ℕ → List Pull → Option (ℕ × List Pull)
take_out chunk [] = none
take_out chunk (p ∷ rest) =
    let other = kept p (take_out chunk rest) in
    if Pull.chunk_id p == chunk then some (Pull.slot_id p, rest) else other
  where
    kept : Pull → Option (ℕ × List Pull) → Option (ℕ × List Pull)
    kept p none = none
    kept p (some (slot, rest)) = some (slot, p ∷ rest)

-- `owned.discard(slot_id)`
unfoldable pub discard : ℕ → List ℕ → List ℕ
discard slot [] = []
discard slot (x ∷ rest) = let others = discard slot rest in if x == slot then rest else x ∷ others
