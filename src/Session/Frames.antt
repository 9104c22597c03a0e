-- ===== src/Session/Frames.antt =====
-- What the bookkeeping of transfers and sessions leaves as it is: tasks, slots and counts in flight.
use kvserve.Common.{
  ℕ, suc, ◌≡◌, inl, inr, refl, sym, subst, ◌∙◌, Bool, true, false, ◌&&◌, Option, Option-cases, none,
  some, List, [], ◌∷◌, String, str_eq, ◌==◌, if◌then◌else◌, All, arith,
}
use kvserve.Session.State.{
  OperationKey, SessionKey, Session, Service, same_operation, same_key, find, is_object, is_active,
  is_over, set_session,
}
use kvserve.Session.Sending.{
  sent_all, finish_send_meta, operation_of, complete_session, unclaim, discard_session,
  discard_if_over,
}
use kvserve.Session.Open.{
  set_send_state, new_state, make_ready, announce, publish, drop_meta, clean_up, claim, sweep,
}
use kvserve.Session.Serve.{fail_session, chunk_done}
use kvserve.Session.Abort.{purge_closed, cancel, cancel_target, cancel_all}
use kvserve.Session.Tables.{IsMade, All-pop}

pub record Calm (s s' : Service) : Type 0 where
  pub tasks : s'.tasks ≡ s.tasks
  pub task_count : s'.task_count ≡ s.task_count
  pub slots : s'.slots ≡ s.slots
  pub session_count : s'.session_count ≡ s.session_count
  pub left : s'.left ≡ s.left
  pub inflight : (i : ℕ) → Session.inflight_chunks (s'.heap i) ≡ Session.inflight_chunks (s.heap i)
  pub made : All (IsMade s.session_count) s.sessions → All (IsMade s.session_count) s'.sessions

pub calm : (s : Service) → Calm s s
calm s = record {
  tasks = refl;
  task_count = refl;
  slots = refl;
  session_count = refl;
  left = refl;
  inflight = λ i. refl;
  made = λ h. h;
}

pub Calm-trans : (s s' s'' : Service) → Calm s s' → Calm s' s'' → Calm s s''
Calm-trans s s' s'' a b = record {
  tasks = b.tasks ∙ a.tasks;
  task_count = b.task_count ∙ a.task_count;
  slots = b.slots ∙ a.slots;
  session_count = b.session_count ∙ a.session_count;
  left = b.left ∙ a.left;
  inflight = λ i. b.inflight i ∙ a.inflight i;
  made = λ h.
      subst (λ n. All (IsMade n) s''.sessions) a.session_count
        (b.made (subst (λ n. All (IsMade n) s'.sessions) (sym a.session_count) (a.made h)));
}

pub if-Calm : (b : Bool) (s x y : Service) → Calm s x → Calm s y → Calm s (if b then x else y)
if-Calm true s x y hx hy = hx
if-Calm false s x y hx hy = hy

-- An entry of the heap that changes in its phase or its chunks only.
pub set_session-Calm :
    (i : ℕ) (session : Session) (s : Service)
    → session.inflight_chunks ≡ Session.inflight_chunks (s.heap i)
    → Calm s (set_session i session s)
unfolding set_session
set_session-Calm i session s h = record {
  tasks = refl;
  task_count = refl;
  slots = refl;
  session_count = refl;
  left = refl;
  inflight = λ k. ground arith;
  made = λ h. h;
}

pub finish_send_meta-Calm : (j : ℕ) (s : Service) → Calm s (finish_send_meta j s)
unfolding finish_send_meta sent_all
finish_send_meta-Calm j s = ground arith

pub complete_session-Calm : (now i : ℕ) (s : Service) → Calm s (complete_session now i s)
unfolding complete_session
complete_session-Calm now i s =
    if-Calm (is_object i (find same_key (Session.key (s.heap i)) s.sessions)) s _ _
      (Calm-trans s _ _
        record {
          tasks = refl;
          task_count = refl;
          slots = refl;
          session_count = refl;
          left = refl;
          inflight = λ k. ground arith;
          made = λ h. All-pop (IsMade s.session_count) same_key _ s.sessions h;
        }
        (finish_send_meta-Calm _ _))
      record {
        tasks = refl;
        task_count = refl;
        slots = refl;
        session_count = refl;
        left = refl;
        inflight = λ k. refl;
        made = λ h. All-pop (IsMade s.session_count) same_key _ s.sessions h;
      }

pub discard_session-Calm : (i : ℕ) (s : Service) → Calm s (discard_session i s)
unfolding discard_session unclaim
discard_session-Calm i s =
    if-Calm (is_object i (find same_key (Session.key (s.heap i)) s.sessions)) s _ _
      (if-Calm (is_over (Session.phase (s.heap i))) s _ _
        (Calm-trans s _ _
          (record {
            tasks = refl;
            task_count = refl;
            slots = refl;
            session_count = refl;
            left = refl;
            inflight = λ k. refl;
            made = λ h. All-pop (IsMade s.session_count) same_key _ s.sessions h;
          })
          (finish_send_meta-Calm _ _))
        (record {
          tasks = refl;
          task_count = refl;
          slots = refl;
          session_count = refl;
          left = refl;
          inflight = λ k. refl;
          made = λ h. All-pop (IsMade s.session_count) same_key _ s.sessions h;
        }))
      (record {
        tasks = refl;
        task_count = refl;
        slots = refl;
        session_count = refl;
        left = refl;
        inflight = λ k. refl;
        made = λ h. All-pop (IsMade s.session_count) same_key _ s.sessions h;
      })

pub discard_if_over-Calm : (i : ℕ) (s : Service) → Calm s (discard_if_over i s)
unfolding discard_if_over
discard_if_over-Calm i s =
    if-Calm ((Session.inflight_chunks (s.heap i) == 0) && is_over (Session.phase (s.heap i))) s _ _
      (discard_session-Calm i s) (calm s)

pub fail_session-Calm : (i : ℕ) (s : Service) → Calm s (fail_session i s)
unfolding fail_session
fail_session-Calm i s = set_session-Calm i _ s refl

pub cancel-Calm : (i : ℕ) (s : Service) → Calm s (cancel i s)
unfolding cancel
cancel-Calm i s =
    if-Calm (Session.inflight_chunks (s.heap i) == 0) s _ _
      (Calm-trans s _ _ (set_session-Calm i _ s refl) (discard_session-Calm i _))
      (set_session-Calm i _ s refl)

pub cancel_target-Calm :
    (op : OperationKey) (session : Option ℕ) (s : Service) → Calm s (cancel_target op session s)
cancel_target-Calm op none s = calm s
cancel_target-Calm op (some i) s =
    if-Calm (str_eq (Session.nonce (s.heap i)) (OperationKey.nonce op)) s _ _ (cancel-Calm i s)
      (calm s)

pub cancel_all-Calm :
    (op : OperationKey) (entries : List (SessionKey × ℕ)) (s : Service)
    → Calm s (cancel_all op entries s)
unfolding cancel_all
cancel_all-Calm op [] s = calm s
cancel_all-Calm op ((key, i) ∷ rest) s =
    Calm-trans s _ _
      (if-Calm (same_operation (operation_of (s.heap i)) op) s _ _ (cancel-Calm i s) (calm s))
      (cancel_all-Calm op rest _)

pub chunk_done-Calm : (now i : ℕ) (s : Service) → Calm s (chunk_done now i s)
unfolding chunk_done
chunk_done-Calm now i s =
    if-Calm
      (is_active (Session.phase (s.heap i))
        && (suc (Session.completed_chunks (s.heap i)) == Session.total_chunks (s.heap i)))
      s _ _ (Calm-trans s _ _ (set_session-Calm i _ s refl) (complete_session-Calm now i _))
      (set_session-Calm i _ s refl)

pub clean_up-Calm : (j : ℕ) (created : Bool) (s : Service) → Calm s (clean_up j created s)
unfolding clean_up
clean_up-Calm j created s = ground arith

pub claim-Calm : (targets j : ℕ) (s : Service) → Calm s (claim targets j s)
unfolding claim set_send_state
claim-Calm targets j s = ground arith

pub new_state-Calm :
    (transfer_id p_req_id : String) (s : Service) → Calm s (new_state transfer_id p_req_id s)
unfolding new_state
new_state-Calm transfer_id p_req_id s = ground arith

pub make_ready-Calm :
    (now : ℕ) (p_req_id : String) (j : ℕ) (s : Service) → Calm s (make_ready now p_req_id j s)
unfolding make_ready set_send_state
make_ready-Calm now p_req_id j s = ground arith

pub announce-Calm :
    (now : ℕ) (transfer_id p_req_id : String) (s : Service)
    → Calm s (announce now transfer_id p_req_id s)
unfolding announce
announce-Calm now transfer_id p_req_id s =
    elim (Option-cases (find str_eq transfer_id s.send_meta)) [
      | inl e ↦ rw e (
          Calm-trans s _ _ (new_state-Calm transfer_id "" s)
            (make_ready-Calm now p_req_id s.send_count _))
      | inr (j, e) ↦ rw e (make_ready-Calm now p_req_id j s)
    ]

pub publish-Calm :
    (transfer_id p_req_id : String) (s : Service) → Calm s (publish transfer_id p_req_id s)
unfolding publish set_send_state
publish-Calm transfer_id p_req_id s = elim (Option-cases (find str_eq transfer_id s.send_meta)) [
  | inl e ↦ rw e (new_state-Calm transfer_id p_req_id s)
  | inr (j, e) ↦ rw e (ground arith)
]

pub drop_meta-Calm : (transfer_id : String) (s : Service) → Calm s (drop_meta transfer_id s)
unfolding drop_meta
drop_meta-Calm transfer_id s = ground arith

pub sweep-Calm :
    (now : ℕ) (entries : List (String × ℕ)) (s : Service) → Calm s (sweep now entries s)
unfolding sweep
sweep-Calm now [] s = calm s
sweep-Calm now ((transfer_id, j) ∷ rest) s = Calm-trans s _ _ (ground arith) (sweep-Calm now rest _)

pub purge_closed-Calm : (now : ℕ) (s : Service) → Calm s (purge_closed now s)
unfolding purge_closed
purge_closed-Calm now s = ground arith
