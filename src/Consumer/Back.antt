-- ===== src/Consumer/Back.antt =====
-- A session that has ended owns no slot.
use kvserve.Common.{
  ℕ, zero, suc, ◌<◌, ◌≡◌, inl, inr, refl, ap, Bool, true, false, Bool-cases, Option, none, some,
  List, [], ◌∷◌, ltb, ◌==◌, if◌then◌else◌, arith,
}
use kvserve.Session.Totals.{count, total}
use kvserve.Consumer.State.{
  Stage, connecting, receiving, gathering, aborting, closing, draining, ended, Issue, running,
  broken, over, Pull, Receive, new_receive, Helper, take_out, discard,
}
use kvserve.Consumer.Actions.{
  ready, error, Action, opened, issues, notices, receives, decoded, decode_fails, gathered,
  answered, drains, drained, set_stage, close, open_answered, issue_one, receive_ready, release,
  lose, is_empty, act, Event, connects, acts, step, run, start,
}
use kvserve.Consumer.Runs.{run-receiver_slots}

abbrev pub IsBack : Stage → Issue → List ℕ → Type 0
IsBack (ended good) issue owned = (issue ≡ over) × (owned ≡ [])
IsBack (draining good) issue owned = issue ≡ over
IsBack (closing good) issue owned = issue ≡ over
IsBack connecting issue owned = Unit {0}
IsBack receiving issue owned = Unit {0}
IsBack gathering issue owned = Unit {0}
IsBack aborting issue owned = Unit {0}

running-over : running ≡ over → ⊥
running-over e = ground (arith, e)

issue-IsBack :
    (stage : Stage) (issue : Issue) (owned more : List ℕ)
    → IsBack stage running owned
    → IsBack stage issue more
issue-IsBack (ended good) issue owned more b = absurd (running-over b.0)
issue-IsBack (draining good) issue owned more b = absurd (running-over b)
issue-IsBack (closing good) issue owned more b = absurd (running-over b)
issue-IsBack connecting issue owned more b = tt
issue-IsBack receiving issue owned more b = tt
issue-IsBack gathering issue owned more b = tt
issue-IsBack aborting issue owned more b = tt

discard-IsBack :
    (stage : Stage) (issue : Issue) (owned : List ℕ) (slot : ℕ)
    → IsBack stage issue owned
    → IsBack stage issue (discard slot owned)
unfolding discard
discard-IsBack (ended good) issue owned slot b = (b.0, ap (discard slot) b.1)
discard-IsBack (draining good) issue owned slot b = b
discard-IsBack (closing good) issue owned slot b = b
discard-IsBack connecting issue owned slot b = tt
discard-IsBack receiving issue owned slot b = tt
discard-IsBack gathering issue owned slot b = tt
discard-IsBack aborting issue owned slot b = tt

abbrev pub HasBack : Receive → Type 0
HasBack r = IsBack r.stage r.issue_task r.owned

release-HasBack :
    (found : Option (ℕ × List Pull)) (r : Receive) (slots : List ℕ)
    → HasBack r
    → HasBack ((release found r slots).0)
unfolding release
release-HasBack none r slots b = b
release-HasBack (some (slot, rest)) r slots b = discard-IsBack r.stage r.issue_task r.owned slot b

lose-HasBack :
    (seen : Bool) (found : Option (ℕ × List Pull)) (stage : Stage) (r : Receive)
    → HasBack r
    → HasBack (lose seen found stage r)
unfolding lose
lose-HasBack seen none stage r b = b
lose-HasBack true (some (slot, rest)) gathering r b = tt
lose-HasBack false (some (slot, rest)) gathering r b = tt
lose-HasBack true (some (slot, rest)) receiving r b = tt
lose-HasBack false (some (slot, rest)) receiving r b = tt
lose-HasBack seen (some (slot, rest)) connecting r b = b
lose-HasBack seen (some (slot, rest)) aborting r b = b
lose-HasBack seen (some (slot, rest)) (closing good) r b = b
lose-HasBack seen (some (slot, rest)) (draining good) r b = b
lose-HasBack seen (some (slot, rest)) (ended good) r b = b

open-HasBack : (answer : Option ℕ) (r : Receive) → HasBack (open_answered answer r)
unfolding open_answered close set_stage
open-HasBack none r = tt
open-HasBack (some total) r = elim (Bool-cases (total == 0)) [ inl e ↦ rw e refl | inr e ↦ rw e tt ]

receive-HasBack :
    (chunk : ℕ) (found : Option (ℕ × List Pull)) (r : Receive)
    → HasBack (receive_ready chunk found r)
unfolding receive_ready set_stage
receive-HasBack chunk none r = tt
receive-HasBack chunk (some (slot, rest)) r =
    elim (Bool-cases (suc r.completed == r.total_chunks)) [ inl e ↦ rw e tt | inr e ↦ rw e tt ]

gathered-HasBack :
    (r : Receive) → HasBack r → HasBack (if is_empty r.decode_tasks then close true r else r)
unfolding close
gathered-HasBack r b = elim (Bool-cases (is_empty r.decode_tasks)) [
  | inl e ↦ rw e refl
  | inr e ↦ rw e b
]

drains-HasBack :
    (good : Bool) (r : Receive)
    → r.stage ≡ closing good
    → HasBack r
    → HasBack (
        if is_empty r.decode_tasks
        then (if is_empty r.owned then set_stage (ended good) r else set_stage (draining good) r)
        else r)
unfolding set_stage is_empty
drains-HasBack good r e b =
    let idle : r.issue_task ≡ over = rw e at b in
    elim (Bool-cases (is_empty r.decode_tasks)) [
      | inr q ↦ rw q b
      | inl q ↦ elim (Bool-cases (is_empty r.owned)) [
        | inl p ↦ rw (q, p) (idle, none_owned r.owned p)
        | inr p ↦ rw (q, p) idle
      ]
    ]
  where
    none_owned : (xs : List ℕ) → is_empty xs ≡ true → xs ≡ []
    none_owned [] p = refl
    none_owned (x ∷ xs) p = absurd (ground (arith, p))

act-HasBack :
    (action : Action) (stage : Stage) (issue : Issue) (slots : List ℕ) (r : Receive)
    → r.stage ≡ stage
    → r.issue_task ≡ issue
    → HasBack r
    → HasBack ((act action stage issue slots r).0)
unfolding act issue_one set_stage close
act-HasBack (opened answer) connecting issue slots r e i b = open-HasBack answer r
act-HasBack (issues sent) stage running (slot ∷ rest) r e i b =
    issue-IsBack r.stage _ r.owned (slot ∷ r.owned) (rw i at b)
act-HasBack notices receiving broken slots r e i b = tt
act-HasBack (receives (ready chunk)) receiving issue slots r e i b =
    receive-HasBack chunk (take_out chunk r.inflight) r
act-HasBack (receives error) receiving issue slots r e i b = tt
act-HasBack (decoded chunk) stage issue slots r e i b =
    release-HasBack (take_out chunk r.decode_tasks) r slots b
act-HasBack (decode_fails chunk seen) stage issue slots r e i b =
    lose-HasBack seen (take_out chunk r.decode_tasks) stage r b
act-HasBack gathered gathering issue slots r e i b = gathered-HasBack r b
act-HasBack answered aborting issue slots r e i b = refl
act-HasBack drains (closing good) issue slots r e i b = drains-HasBack good r e b
act-HasBack drained (draining good) issue slots r e i b = (rw e at b, refl)
act-HasBack action stage issue slots r e i b = b

AllBack : Helper → Type 0
AllBack s = (n : ℕ) → HasBack (s.sessions n)

step-AllBack : (s : Helper) (e : Event) → AllBack s → AllBack (step s e)
unfolding step AllBack new_receive
step-AllBack s connects b n = elim (Bool-cases (n == s.session_count)) [
  | inl e ↦ rw e tt
  | inr e ↦ rw e (b n)
]
step-AllBack s (acts m action) b n = elim (Bool-cases (ltb m s.session_count)) [
  | inr l ↦ rw l (b n)
  | inl l ↦ elim (Bool-cases (n == m)) [
    | inl e ↦ rw (l, e) (act-HasBack action _ _ s.receiver_slots (s.sessions m) refl refl (b m))
    | inr e ↦ rw (l, e) (b n)
  ]
]

run-AllBack : (s : Helper) (es : List Event) → AllBack s → AllBack (run s es)
unfolding run
run-AllBack s [] b = b
run-AllBack s (e ∷ es) b = run-AllBack (step s e) es (step-AllBack s e b)

total_none :
    (f : ℕ → Receive) (x n : ℕ)
    → ((i : ℕ) → i < n → Receive.owned (f i) ≡ [])
    → total (λ r. count x (Receive.owned r)) f n ≡ 0
total_none f x zero h = refl
total_none f x (suc n) h =
    omega
      (arith, ap (count x) (h n (omega arith)), total_none f x n (λ i l. h i (omega (arith, l))))

-- Where all sessions have ended after any events from the start, every slot is back in the queue.
pub run-slots_back :
    (slots : List ℕ) (es : List Event) (x : ℕ)
    → ((n : ℕ)
        → n < Helper.session_count (run (start slots) es)
        → (good : Bool) × (Receive.stage (Helper.sessions (run (start slots) es) n) ≡ ended good))
    → count x (Helper.receiver_slots (run (start slots) es)) ≡ count x slots
unfolding start AllBack new_receive
run-slots_back slots es x all_ended =
    let s = run (start slots) es in
    let back = run-AllBack (start slots) es (λ n. tt) in
    let nothing : (n : ℕ) → n < s.session_count → Receive.owned (s.sessions n) ≡ [] =
      λ n h. owns_nothing (s.sessions n) (all_ended n h) (back n) in
    omega (arith, run-receiver_slots slots es x, total_none s.sessions x s.session_count nothing)
  where
    owns_nothing : (r : Receive) → (good : Bool) × (r.stage ≡ ended good) → HasBack r → r.owned ≡ []
    owns_nothing r (good, e) b = (rw e at b).1
