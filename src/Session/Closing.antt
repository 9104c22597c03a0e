-- ===== src/Session/Closing.antt =====
-- `_closed`: an operation that is put there stays until its time is over.
use kvserve.Common.{
  ℕ, suc, ◌+◌, ◌≤◌, ◌<◌, ◌≡◌, inl, inr, refl, ◌∙◌, Bool, true, false, ◌&&◌, Bool-cases, Option,
  Option-cases, none, some, List, [], ◌∷◌, String, str_eq, str_eq_iff, leb, ◌==◌, arith,
}
use kvserve.Common.{str_eq_refl}
use kvserve.Session.State.{
  OperationKey, SessionKey, Session, Service, same_operation, same_key, find, put, is_object,
  is_active, pending_req_expiry, set_task, set_session,
}
use kvserve.Session.Sending.{
  sent_all, finish_send_meta, complete_session, unclaim, discard_session, discard_if_over,
}
use kvserve.Session.Open.{
  set_send_state, new_state, make_ready, announce, publish, clean_up, open_fails, sweep,
}
use kvserve.Session.Serve.{chunk_done}
use kvserve.Session.Abort.{purge, cancel, cancel_target, cancel_all}

abbrev pub is_until : ℕ → Option ℕ → Bool
is_until bound none = false
is_until bound (some e) = leb bound e

-- The operation is closed until `bound` at least.
abbrev pub is_shut : OperationKey → ℕ → List (OperationKey × ℕ) → Bool
is_shut op bound closed = is_until bound (find same_operation op closed)

pub same_operation_refl : (op : OperationKey) → same_operation op op ≡ true
unfolding same_operation
same_operation_refl op = ground (
  arith,
  str_eq_refl (OperationKey.transfer_id op),
  str_eq_refl (OperationKey.d_req_id op),
  str_eq_refl (OperationKey.nonce op),
)

pub same_operation_sound : (a b : OperationKey) → same_operation a b ≡ true → a ≡ b
unfolding same_operation
same_operation_sound a b h =
    whole (equal (OperationKey.transfer_id a) (OperationKey.transfer_id b) (ground (arith, h)))
      (equal (OperationKey.d_req_id a) (OperationKey.d_req_id b) (ground (arith, h)))
      (equal (OperationKey.nonce a) (OperationKey.nonce b) (ground (arith, h)))
  where
    equal : (x y : String) → str_eq x y ≡ true → x ≡ y
    equal x y e = ground (arith, str_eq_iff x y)

    whole :
        OperationKey.transfer_id a ≡ OperationKey.transfer_id b
        → OperationKey.d_req_id a ≡ OperationKey.d_req_id b
        → OperationKey.nonce a ≡ OperationKey.nonce b
        → a ≡ b
    whole x y z = ground (arith, x, y, z)

pub is_shut-purge :
    (op : OperationKey) (bound now : ℕ) (d : List (OperationKey × ℕ))
    → now < bound
    → is_shut op bound d ≡ true
    → is_shut op bound (purge now d) ≡ true
unfolding purge find
is_shut-purge op bound now [] h c = c
is_shut-purge op bound now ((k, e) ∷ rest) h c = elim (Bool-cases (same_operation k op)) [
  | inl q ↦ ground (arith, q, c, h)
  | inr q ↦ ground (arith, q, is_shut-purge op bound now rest h (ground (arith, c, q)))
]

pub is_shut-put :
    (op k : OperationKey) (bound v : ℕ) (d : List (OperationKey × ℕ))
    → bound ≤ v
    → is_shut op bound d ≡ true
    → is_shut op bound (put same_operation k v d) ≡ true
unfolding put find
is_shut-put op k bound v [] h c = absurd (ground (arith, c))
is_shut-put op k bound v ((k', e) ∷ rest) h c = elim (Bool-cases (same_operation k' op)) [
  | inl q ↦ ground (arith, q, c, h)
  | inr q ↦ ground (arith, q, c, is_shut-put op k bound v rest h (ground (arith, c, q)))
]

pub put-is_shut :
    (op : OperationKey) (v : ℕ) (d : List (OperationKey × ℕ))
    → is_shut op v (put same_operation op v d) ≡ true
unfolding put find
put-is_shut op v [] = ground (arith, same_operation_refl op)
put-is_shut op v ((k, e) ∷ rest) = elim (Bool-cases (same_operation k op)) [
  | inl q ↦ ground (arith, q)
  | inr q ↦ ground (arith, q, put-is_shut op v rest)
]

-- What leaves `_closed` as it is.
pub finish_send_meta-closed :
    (j : ℕ) (s : Service) → Service.closed (finish_send_meta j s) ≡ s.closed
unfolding finish_send_meta sent_all
finish_send_meta-closed j s = ground arith

pub discard_session-closed : (i : ℕ) (s : Service) → Service.closed (discard_session i s) ≡ s.closed
unfolding discard_session unclaim finish_send_meta sent_all
discard_session-closed i s = ground arith

pub discard_if_over-closed : (i : ℕ) (s : Service) → Service.closed (discard_if_over i s) ≡ s.closed
unfolding discard_if_over
discard_if_over-closed i s = ground (arith, discard_session-closed i s)

pub cancel-closed : (i : ℕ) (s : Service) → Service.closed (cancel i s) ≡ s.closed
unfolding cancel set_session
cancel-closed i s = elim (Bool-cases (Session.inflight_chunks (s.heap i) == 0)) [
  | inl c ↦ rw c (discard_session-closed i _)
  | inr c ↦ rw c refl
]

pub cancel_target-closed :
    (op : OperationKey) (session : Option ℕ) (s : Service)
    → Service.closed (cancel_target op session s) ≡ s.closed
cancel_target-closed op none s = refl
cancel_target-closed op (some i) s = ground (arith, cancel-closed i s)

pub cancel_all-closed :
    (op : OperationKey) (entries : List (SessionKey × ℕ)) (s : Service)
    → Service.closed (cancel_all op entries s) ≡ s.closed
unfolding cancel_all
cancel_all-closed op [] s = refl
cancel_all-closed op ((key, i) ∷ rest) s =
    cancel_all-closed op rest _ ∙ ground (arith, cancel-closed i s)

pub clean_up-closed :
    (j : ℕ) (created : Bool) (s : Service) → Service.closed (clean_up j created s) ≡ s.closed
unfolding clean_up
clean_up-closed j created s = ground arith

pub open_fails-closed :
    (t j : ℕ) (created claimed : Bool) (s : Service)
    → Service.closed (open_fails t j created claimed s) ≡ s.closed
unfolding open_fails set_task
open_fails-closed t j created claimed s =
    clean_up-closed j created _ ∙ ground (arith, finish_send_meta-closed j s)

pub announce-closed :
    (now : ℕ) (transfer_id p_req_id : String) (s : Service)
    → Service.closed (announce now transfer_id p_req_id s) ≡ s.closed
unfolding announce make_ready set_send_state new_state
announce-closed now transfer_id p_req_id s =
    elim (Option-cases (find str_eq transfer_id s.send_meta)) [
      | inl e ↦ rw e refl
      | inr (j, e) ↦ rw e refl
    ]

pub publish-closed :
    (transfer_id p_req_id : String) (s : Service)
    → Service.closed (publish transfer_id p_req_id s) ≡ s.closed
unfolding publish set_send_state new_state
publish-closed transfer_id p_req_id s = elim (Option-cases (find str_eq transfer_id s.send_meta)) [
  | inl e ↦ rw e refl
  | inr (j, e) ↦ rw e (ground arith)
]

pub sweep-closed :
    (now : ℕ) (entries : List (String × ℕ)) (s : Service)
    → Service.closed (sweep now entries s) ≡ s.closed
unfolding sweep
sweep-closed now [] s = refl
sweep-closed now ((transfer_id, j) ∷ rest) s = sweep-closed now rest _ ∙ ground arith

-- What puts another operation there, for later than `bound`.
pub complete_session-is_shut :
    (op : OperationKey) (bound now i : ℕ) (s : Service)
    → bound ≤ now + pending_req_expiry
    → is_shut op bound s.closed ≡ true
    → is_shut op bound (Service.closed (complete_session now i s)) ≡ true
unfolding complete_session
complete_session-is_shut op bound now i s h c =
    elim (Bool-cases (is_object i (find same_key (Session.key (s.heap i)) s.sessions))) [
      | inl q ↦ rw (q, finish_send_meta-closed) (is_shut-put op _ bound _ s.closed h c)
      | inr q ↦ rw q c
    ]

pub chunk_done-is_shut :
    (op : OperationKey) (bound now i : ℕ) (s : Service)
    → bound ≤ now + pending_req_expiry
    → is_shut op bound s.closed ≡ true
    → is_shut op bound (Service.closed (chunk_done now i s)) ≡ true
unfolding chunk_done set_session
chunk_done-is_shut op bound now i s h c =
    elim (Bool-cases (
      is_active (Session.phase (s.heap i))
      && (suc (Session.completed_chunks (s.heap i)) == Session.total_chunks (s.heap i)))) [
        | inl q ↦ rw q (complete_session-is_shut op bound now i _ h c)
        | inr q ↦ rw q c
      ]
