-- ===== src/Session/Rest.antt =====
-- One task that goes on, or comes to be, with the slot and the chunk that it has.
use kvserve.Common.{
  ℕ, ◌≡◌, ◌≢◌, inl, inr, refl, sym, ap, ◌∙◌, Bool, true, false, Option-cases, List, str_eq, arith,
}
use kvserve.Session.State.{OperationKey, SessionKey, Task, ended, Service, find, set_task, add_task}
use kvserve.Session.Open.{open_begins, open_fails}
use kvserve.Session.Abort.{is_ended}
use kvserve.Session.Totals.{holds, serves}
use kvserve.Session.Frames.{
  if-Calm, Calm, calm, Calm-trans, clean_up-Calm, new_state-Calm, finish_send_meta-Calm,
}
use kvserve.Session.Slots.{IsKept, Calm-IsKept, Move-IsKept, Added-IsKept}

pub is_ended-false : (v w : Task) → v ≡ w → is_ended w ≡ false → v ≢ ended
unfolding is_ended
is_ended-false v w e c h = absurd (here (ap is_ended (sym e ∙ h)))
  where
    here : is_ended w ≡ true → ⊥
    here d = ground arith

-- One task goes on with the slot and the chunk that it has, after bookkeeping.
pub go_on :
    (slots : List ℕ) (s s' : Service) (t : ℕ) (v : Task)
    → Calm s s'
    → s.tasks t ≢ ended
    → ((x : ℕ) → holds x v ≡ holds x (s.tasks t))
    → ((i : ℕ) → serves i v ≡ serves i (s.tasks t))
    → IsKept slots s
    → IsKept slots (set_task t v s')
unfolding set_task
go_on slots s s' t v c busy same_slot same_chunk k =
    Move-IsKept slots s' _ t v
      (record {
        busy = λ e. busy (sym (at_t) ∙ e);
        tasks = refl;
        task_count = refl;
        session_count = refl;
        slots = λ x. omega (arith, same_slot x, ap (holds x) at_t);
        inflight = λ i. omega (arith, same_chunk i, ap (serves i) at_t);
        no_more = λ i. omega (arith, same_chunk i, ap (serves i) at_t);
        made = refl;
      })
      (Calm-IsKept slots s s' c k)
  where
    at_t : s'.tasks t ≡ s.tasks t
    at_t = ap (λ (f : ℕ → Task). f t) c.tasks

pub add_task-IsKept :
    (slots : List ℕ) (s : Service) (v : Task)
    → ((x : ℕ) → holds x v ≡ 0)
    → ((i : ℕ) → serves i v ≡ 0)
    → IsKept slots s
    → IsKept slots (add_task v s)
unfolding add_task
add_task-IsKept slots s v no_slot no_chunk k =
    Added-IsKept slots s _ v
      (record {
        tasks = refl;
        task_count = refl;
        session_count = refl;
        slots = refl;
        inflight = λ i. omega (arith, no_chunk i);
        free = no_slot;
        known_session = λ i h. no_chunk i;
        made = refl;
      })
      k

pub open_begins-IsKept :
    (slots : List ℕ) (key : SessionKey) (op : OperationKey) (s : Service)
    → IsKept slots s
    → IsKept slots (open_begins key op s)
unfolding open_begins
open_begins-IsKept slots key op s k =
    elim (Option-cases (find str_eq (OperationKey.transfer_id op) s.send_meta)) [
      | inl e ↦ rw e (
          add_task-IsKept slots _ _ (λ x. refl) (λ i. refl)
            (Calm-IsKept slots s _ (new_state-Calm _ _ s) k))
      | inr (j, e) ↦ rw e (add_task-IsKept slots s _ (λ x. refl) (λ i. refl) k)
    ]

pub open_fails-IsKept :
    (slots : List ℕ) (s s' : Service) (t j : ℕ) (created claimed : Bool)
    → Calm s s'
    → s.tasks t ≢ ended
    → ((x : ℕ) → holds x (s.tasks t) ≡ 0)
    → ((i : ℕ) → serves i (s.tasks t) ≡ 0)
    → IsKept slots s
    → IsKept slots (open_fails t j created claimed s')
unfolding open_fails
open_fails-IsKept slots s s' t j created claimed c busy no_slot no_chunk k =
    go_on slots s _ t ended
      (Calm-trans s _ _ c (
        Calm-trans s' _ _ (if-Calm claimed s' _ _ (finish_send_meta-Calm j s') (calm s'))
          (clean_up-Calm j created _)))
      busy (λ x. sym (no_slot x)) (λ i. sym (no_chunk i)) k
