-- ===== src/Session/Slots.antt =====
-- The invariant of slots and of chunks in flight.
use kvserve.Common.{ℕ, suc, ◌+◌, ◌≤◌, ◌<◌, ◌≡◌, ◌≢◌, sym, ap, ap₂, subst, ◌∙◌, List, All, arith}
use native.Mathlib.Decide.{dec_lt}
use kvserve.Session.State.{Session, Task, ended, Service, update}
use kvserve.Session.Totals.{total, total-update, total-update_last, count, holds, serves}
use kvserve.Session.Frames.{Calm}
use kvserve.Session.Tables.{IsMade}

pub record IsKept (slots : List ℕ) (s : Service) : Type 0 where
  pub fresh : (t : ℕ) → s.task_count ≤ t → s.tasks t ≡ ended
  pub kept : (x : ℕ) → count x s.slots + total (holds x) s.tasks s.task_count ≡ count x slots
  pub counted : (i : ℕ) → total (serves i) s.tasks s.task_count ≡ Session.inflight_chunks (s.heap i)
  pub made : All (IsMade s.session_count) s.sessions
  pub above : (i : ℕ) → s.session_count ≤ i → Session.inflight_chunks (s.heap i) ≡ 0

pub Calm-IsKept : (slots : List ℕ) (s s' : Service) → Calm s s' → IsKept slots s → IsKept slots s'
Calm-IsKept slots s s' c k = record {
  fresh = λ t h. ap (λ (f : ℕ → Task). f t) c.tasks ∙ k.fresh t (omega (arith, h, c.task_count));
  kept =
      λ x. ap₂ ◌+◌ (ap (count x) c.slots) (ap₂ (total (holds x)) c.tasks c.task_count) ∙ k.kept x;
  counted = λ i. ap₂ (total (serves i)) c.tasks c.task_count ∙ k.counted i ∙ sym (c.inflight i);
  made = subst (λ n. All (IsMade n) s'.sessions) (sym c.session_count) (c.made k.made);
  above = λ i h. c.inflight i ∙ k.above i (omega (arith, h, c.session_count));
}

-- One task goes on: what it gives up in slots and chunks is what the queue and the sessions get.
pub record Move (s s' : Service) (t : ℕ) (v : Task) : Type 0 where
  pub busy : s.tasks t ≢ ended
  pub tasks : s'.tasks ≡ update s.tasks t v
  pub task_count : s'.task_count ≡ s.task_count
  pub session_count : s'.session_count ≡ s.session_count
  pub slots : (x : ℕ) → count x s'.slots + holds x v ≡ count x s.slots + holds x (s.tasks t)
  pub inflight :
      (i : ℕ)
      → Session.inflight_chunks (s'.heap i) + serves i (s.tasks t)
        ≡ Session.inflight_chunks (s.heap i) + serves i v
  pub no_more : (i : ℕ) → serves i v ≤ serves i (s.tasks t)
  pub made : s'.sessions ≡ s.sessions

pub known :
    (slots : List ℕ) (s : Service) (t : ℕ) → IsKept slots s → s.tasks t ≢ ended → t < s.task_count
known slots s t k busy = elim (dec_lt t s.task_count) [
  | yes p ↦ p
  | no p ↦ absurd (busy (k.fresh t (omega (arith, p))))
]

pub Move-IsKept :
    (slots : List ℕ) (s s' : Service) (t : ℕ) (v : Task)
    → Move s s' t v
    → IsKept slots s
    → IsKept slots s'
Move-IsKept slots s s' t v m k =
    let below = known slots s t k m.busy in
    record {
      fresh = λ u h. moved u (omega (arith, h, m.task_count));
      kept = λ x. omega (
        arith,
        ap₂ (total (holds x)) m.tasks m.task_count,
        total-update (holds x) s.tasks t v s.task_count below,
        m.slots x,
        k.kept x,
      );
      counted = λ i. omega (
        arith,
        ap₂ (total (serves i)) m.tasks m.task_count,
        total-update (serves i) s.tasks t v s.task_count below,
        m.inflight i,
        k.counted i,
      );
      made =
          subst (λ n. All (IsMade n) s'.sessions) (sym m.session_count)
            (subst (All (IsMade s.session_count)) (sym m.made) k.made);
      above = λ i h.
          omega (arith, k.above i (omega (arith, h, m.session_count)), m.inflight i, m.no_more i);
    }
  where
    moved : (u : ℕ) → s.task_count ≤ u → s'.tasks u ≡ ended
    moved u h =
        ap (λ (f : ℕ → Task). f u) m.tasks ∙ ground (arith, known slots s t k m.busy, k.fresh u h)

-- A task is made that holds no slot, and it may count as a chunk of a session.
pub record Added (s s' : Service) (v : Task) : Type 0 where
  pub tasks : s'.tasks ≡ update s.tasks s.task_count v
  pub task_count : s'.task_count ≡ suc s.task_count
  pub session_count : s'.session_count ≡ s.session_count
  pub slots : s'.slots ≡ s.slots
  pub inflight :
      (i : ℕ)
      → Session.inflight_chunks (s'.heap i) ≡ Session.inflight_chunks (s.heap i) + serves i v
  pub free : (x : ℕ) → holds x v ≡ 0
  pub known_session : (i : ℕ) → s.session_count ≤ i → serves i v ≡ 0
  pub made : s'.sessions ≡ s.sessions

pub Added-IsKept :
    (slots : List ℕ) (s s' : Service) (v : Task) → Added s s' v → IsKept slots s → IsKept slots s'
Added-IsKept slots s s' v m k = record {
  fresh = λ u h. added u (omega (arith, h, m.task_count));
  kept = λ x. omega (
    arith,
    ap₂ (total (holds x)) m.tasks m.task_count,
    total-update_last (holds x) s.tasks v s.task_count,
    ap (count x) m.slots,
    m.free x,
    k.kept x,
  );
  counted = λ i. omega (
    arith,
    ap₂ (total (serves i)) m.tasks m.task_count,
    total-update_last (serves i) s.tasks v s.task_count,
    m.inflight i,
    k.counted i,
  );
  made =
      subst (λ n. All (IsMade n) s'.sessions) (sym m.session_count)
        (subst (All (IsMade s.session_count)) (sym m.made) k.made);
  above = λ i h. omega (
    arith,
    k.above i (omega (arith, h, m.session_count)),
    m.inflight i,
    m.known_session i (omega (arith, h, m.session_count)),
  );
}
  where
    added : (u : ℕ) → suc s.task_count ≤ u → s'.tasks u ≡ ended
    added u h = ap (λ (f : ℕ → Task). f u) m.tasks ∙ ground (arith, k.fresh u (omega (arith, h)))
