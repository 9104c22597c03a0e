-- ===== src/Consumer/Actions.antt =====
-- What one session does between two awaits. An action for which it does not wait changes nothing.
use kvserve.Common.{
  ℕ, suc, Bool, true, false, List, [], ◌∷◌, ◌++◌, Option, none, some, ltb, ◌==◌, if◌then◌else◌,
}
use kvserve.Session.State.{update}
use kvserve.Consumer.State.{
  Stage, connecting, receiving, gathering, aborting, closing, draining, ended, Issue, running,
  broken, over, Pull, Receive, new_receive, Helper, take_out, discard,
}

-- The reply to a pull: data, or an error, or no CompressionChunkReady.
pub data Reply : Type 0 where
  ready : ℕ → Reply
  error : Reply

-- A failed decode has a flag: the session sees it only where the loop wakes in the round of the event loop
-- in which the task has ended, since otherwise the task's callback has taken it out of decode_tasks, or
-- where the gather behind the loop awaits the task: what fails while the cancelled receive task is
-- awaited, in front of the gather, is lost too.
pub data Action : Type 0 where
  opened : Option ℕ → Action
  issues : Bool → Action
  notices : Action
  receives : Reply → Action
  decoded : ℕ → Action
  decode_fails : ℕ → Bool → Action
  gathered : Action
  answered : Action
  drains : Action
  drained : Action

unfoldable pub set_stage : Stage → Receive → Receive
set_stage stage r = record r { stage = stage }

-- To the `finally` block, which cancels the issue task.
unfoldable pub close : Bool → Receive → Receive
close good r = record r { stage = closing good; issue_task = over }

unfoldable pub open_answered : Option ℕ → Receive → Receive
open_answered none r = set_stage aborting r
open_answered (some total) r =
    let r' = record r { total_chunks = total } in
    if total == 0 then close true r' else record r' { stage = receiving; issue_task = running }

-- One round of `issue_all`, with what became of its send.
unfoldable pub issue_one : Bool → ℕ → List ℕ → Receive → Receive × List ℕ
issue_one sent slot rest r =
    let next = suc r.issued in
    (
      record r {
        issued = next;
        owned = slot ∷ r.owned;
        inflight = record { chunk_id = r.issued; slot_id = slot } ∷ r.inflight;
        issue_task = if sent then (if ltb next r.total_chunks then running else over) else broken;
      },
      rest,
    )

unfoldable pub receive_ready : ℕ → Option (ℕ × List Pull) → Receive → Receive
receive_ready chunk none r = set_stage aborting r
receive_ready chunk (some (slot, rest)) r = record r {
  inflight = rest;
  decode_tasks = record { chunk_id = chunk; slot_id = slot } ∷ r.decode_tasks;
  completed = suc r.completed;
  stage = if suc r.completed == r.total_chunks then gathering else receiving;
}

-- `_decode_and_release` behind the job.
unfoldable pub release : Option (ℕ × List Pull) → Receive → List ℕ → Receive × List ℕ
release none r slots = (r, slots)
release (some (slot, rest)) r slots =
    (record r { decode_tasks = rest; owned = discard slot r.owned }, slots ++ (slot ∷ []))

unfoldable pub lose : Bool → Option (ℕ × List Pull) → Stage → Receive → Receive
lose seen none stage r = r
lose seen (some (slot, rest)) gathering r = record r {
  decode_tasks = rest;
  stage = if seen then aborting else gathering;
}
lose seen (some (slot, rest)) receiving r = record r {
  decode_tasks = rest;
  stage = if seen then aborting else receiving;
}
lose seen (some (slot, rest)) stage r = record r { decode_tasks = rest }

unfoldable pub is_empty {ℓ} : {A : Type ℓ} → List A → Bool
is_empty [] = true
is_empty (x ∷ xs) = false

unfoldable pub act : Action → Stage → Issue → List ℕ → Receive → Receive × List ℕ
act (opened answer) connecting issue slots r = (open_answered answer r, slots)
act (issues sent) stage running (slot ∷ rest) r = issue_one sent slot rest r
act notices receiving broken slots r = (set_stage aborting r, slots)
act (receives (ready chunk)) receiving issue slots r =
    (receive_ready chunk (take_out chunk r.inflight) r, slots)
act (receives error) receiving issue slots r = (set_stage aborting r, slots)
act (decoded chunk) stage issue slots r = release (take_out chunk r.decode_tasks) r slots
act (decode_fails chunk seen) stage issue slots r =
    (lose seen (take_out chunk r.decode_tasks) stage r, slots)
act gathered gathering issue slots r = (if is_empty r.decode_tasks then close true r else r, slots)
act answered aborting issue slots r = (close false r, slots)
act drains (closing good) issue slots r = (
  if is_empty r.decode_tasks
      then (if is_empty r.owned then set_stage (ended good) r else set_stage (draining good) r)
      else r,
  slots,
)
act drained (draining good) issue slots r =
    (record r { owned = []; stage = ended good }, slots ++ r.owned)
act other stage issue slots r = (r, slots)

pub data Event : Type 0 where
  connects : Event
  acts : ℕ → Action → Event

unfoldable pub step : Helper → Event → Helper
step s connects = record s {
  sessions = update s.sessions s.session_count new_receive;
  session_count = suc s.session_count;
}
step s (acts n action) =
    let r = s.sessions n in
    let after = act action r.stage r.issue_task s.receiver_slots r in
    if ltb n s.session_count
    then record s { sessions = update s.sessions n (after.0); receiver_slots = after.1 }
    else s

unfoldable pub run : Helper → List Event → Helper
run s [] = s
run s (e ∷ es) = run (step s e) es

-- `run` fills the queue.
unfoldable pub start : List ℕ → Helper
start slots = record { sessions = λ n. new_receive; session_count = 0; receiver_slots = slots }
