-- ===== src/Transport/Sender/Order.antt =====
-- Retries rotate the queue, and yet no request's items change places.
use kvserve.Common.{
  ℕ, ◌≡◌, ◌≢◌, refl, sym, ap, ◌∙◌, true, false, Option, none, some, List, [], ◌∷◌, ◌++◌, String,
  arith, if◌then◌else◌, str_eq, str_eq_iff, Bool-cases, Option-cases, inl, inr,
}
use mathlib.Core.List.{append_assoc, append-nil}
use kvserve.Transport.Sender.{
  Item, Sender, Ack, ack_ok, ack_oom, ack_retry, init, new_item, send, take, rotate,
  finish_send_item, settle, retire, Event, sends, takes, settles, retires, step, run,
}
use kvserve.Transport.Sender.Accounting.{held}

-- The items of one request, in order.
abbrev pub of_request : String → List Item → List Item
of_request rid [] = []
of_request rid (i ∷ is) =
    if str_eq i.request_id rid then i ∷ of_request rid is else of_request rid is

of_request-append :
    (rid : String) (is js : List Item)
    → of_request rid (is ++ js) ≡ of_request rid is ++ of_request rid js
of_request-append rid [] js = refl
of_request-append rid (i ∷ is) js = elim (Bool-cases (str_eq i.request_id rid)) [
  | inl e ↦ rw e (ap (◌∷◌ i) (of_request-append rid is js))
  | inr e ↦ rw e (of_request-append rid is js)
]

rotate_far :
    (x i : Item) (is : List Item)
    → str_eq i.request_id x.request_id ≡ false
    → rotate x (i ∷ is) ≡ i ∷ rotate x is
unfolding rotate
rotate_far x i is e = rw (e, rotate)

rotate_near :
    (x i : Item) (is : List Item)
    → str_eq i.request_id x.request_id ≡ true
    → rotate x (i ∷ is) ≡ x ∷ i ∷ is
unfolding rotate
rotate_near x i is e = rw (e, rotate)

-- Rotating an item keeps the items of every request in order, its own in front.
pub of_request-rotate :
    (rid : String) (x : Item) (is : List Item)
    → of_request rid (rotate x is) ≡ of_request rid (x ∷ is)
of_request-rotate rid x [] = unfold rotate in refl
of_request-rotate rid x (i ∷ is) = elim (Bool-cases (str_eq i.request_id x.request_id)) [
  | inl e ↦ rw (rotate_near x i is e)
  | inr e ↦ rw (rotate_far x i is e) (
      ground (
        arith,
        of_request-rotate rid x is,
        str_eq_iff i.request_id x.request_id,
        str_eq_iff x.request_id rid,
        str_eq_iff i.request_id rid,
      ))
]

-- What a step takes out of the producer's hands, submitted or given up, and what it adds.
abbrev pub leaves : Sender → Event → List Item
leaves s (settles (some ack_retry)) = []
leaves s (settles (some ack_ok)) = held s.hand
leaves s (settles (some ack_oom)) = held s.hand
leaves s (settles none) = held s.hand
leaves s takes = []
leaves s retires = []
leaves s (sends rid names payload) = []

unfoldable pub waiting : Sender → List Item
waiting s = held s.hand ++ s.queue

waiting-take : (s : Sender) → waiting (take s) ≡ waiting s
unfolding take waiting
waiting-take s = ground arith

waiting-retire : (s : Sender) → waiting (retire s) ≡ waiting s
unfolding waiting retire finish_send_item
waiting-retire s = ground arith

-- An item that is submitted or given up leaves from the front.
waiting-leave :
    (s : Sender) (answer : Option Ack)
    → answer ≢ some ack_retry
    → held s.hand ++ waiting (settle answer s) ≡ waiting s
unfolding waiting settle finish_send_item
waiting-leave s none h = ground arith
waiting-leave s (some ack_ok) h = ground arith
waiting-leave s (some ack_oom) h = ground arith
waiting-leave s (some ack_retry) h = absurd (h refl)

waiting-retry :
    (rid : String) (s : Sender)
    → of_request rid (waiting (settle (some ack_retry) s)) ≡ of_request rid (waiting s)
unfolding settle waiting
waiting-retry rid s = elim (Option-cases s.hand) [
  | inl e ↦ rw (e, settle) (ap (λ h. of_request rid (held h ++ s.queue)) e)
  | inr (x, e) ↦ rw (e, settle) (of_request-rotate rid x s.queue)
]

module _ (size : String → ℕ) where
  abbrev pub adds : Sender → Event → List Item
  adds s (sends rid names payload) = new_item size rid names payload s ∷ []
  adds s takes = []
  adds s (settles answer) = []
  adds s retires = []

  abbrev pub left : Sender → List Event → List Item
  left s [] = []
  left s (e ∷ es) = leaves s e ++ left (step size s e) es

  abbrev pub sent : Sender → List Event → List Item
  sent s [] = []
  sent s (e ∷ es) = adds s e ++ sent (step size s e) es

  -- One step neither reorders the items of a request, nor loses or doubles one.
  step-in_order :
      (rid : String) (s : Sender) (e : Event)
      → of_request rid (leaves s e ++ waiting (step size s e))
        ≡ of_request rid (waiting s ++ adds s e)
  unfolding step send waiting
  step-in_order rid s (sends r names payload) =
      ap (of_request rid) (sym (append_assoc (held s.hand) s.queue (_ ∷ [])))
  step-in_order rid s takes = rw (append-nil, waiting-take s)
  step-in_order rid s (settles none) =
      rw append-nil (ap (of_request rid) (waiting-leave s none (λ e. cc)))
  step-in_order rid s (settles (some ack_ok)) =
      rw append-nil (ap (of_request rid) (waiting-leave s (some ack_ok) (λ e. cc)))
  step-in_order rid s (settles (some ack_oom)) =
      rw append-nil (ap (of_request rid) (waiting-leave s (some ack_oom) (λ e. cc)))
  step-in_order rid s (settles (some ack_retry)) = rw append-nil (waiting-retry rid s)
  step-in_order rid s retires = rw (append-nil, waiting-retire s)

  run-in_order :
      (rid : String) (es : List Event) (s : Sender)
      → of_request rid (left s es ++ waiting (run size s es))
        ≡ of_request rid (waiting s ++ sent s es)
  unfolding run
  run-in_order rid [] s = rw append-nil
  run-in_order rid (e ∷ es) s =
      let s' = step size s e in
      let now = step-in_order rid s e in
      let later = run-in_order rid es s' in
      simp (of_request-append, append_assoc)
        (chain (of_request rid (leaves s e)) (of_request rid (left s' es))
          (of_request rid (waiting (run size s' es))) _ _ _ _ (simp of_request-append at later)
          (simp of_request-append at now))
    where
      chain :
          (a b c d f g h : List Item)
          → b ++ c ≡ d ++ f
          → a ++ d ≡ g ++ h
          → a ++ (b ++ c) ≡ g ++ (h ++ f)
      chain a b c d f g h p q =
          rw p (sym (append_assoc a d f) ∙ ap (λ l. l ++ f) q ∙ append_assoc g h f)

  -- After every interleaving from the empty queue, the items of a request that have been submitted or
  -- given up, then the one in hand, then those that are queued, are the items of that request in the
  -- order of their sends: retries lose none, double none and pass none of the same request.
  pub run-init-in_order :
      (rid : String) (es : List Event)
      → of_request rid (left init es ++ waiting (run size init es)) ≡ of_request rid (sent init es)
  unfolding init waiting
  run-init-in_order rid es = run-in_order rid es init
