-- ===== src/Consumer/Slots.antt =====
-- Receiver slots over sequences of events.
use kvserve.Common.{
  ℕ, suc, ◌+◌, ◌<◌, ◌≡◌, inl, inr, refl, ap, Bool, true, false, Bool-cases, Option, none, some,
  List, [], ◌∷◌, ◌++◌, if◌then◌else◌, arith,
}
use kvserve.Session.Totals.{count, count-append, total}
use kvserve.Consumer.State.{
  Stage, connecting, receiving, gathering, aborting, closing, draining, ended, Issue, running,
  broken, Pull, Receive, take_out,
}
use kvserve.Consumer.Actions.{
  ready, error, Action, opened, issues, notices, receives, decoded, decode_fails, gathered,
  answered, drains, drained, set_stage, close, open_answered, issue_one, receive_ready, lose,
  is_empty, act,
}
use kvserve.Consumer.Fine.{
  slots_of, IsAt, IsFine, Kept, stays, running-room, at-stage, set_stage-IsFine, close-IsFine,
  open-IsFine, issue-IsFine, receive-IsFine, release-Kept, lose-IsFine,
}

open_answered-owned :
    (answer : Option ℕ) (r : Receive) → Receive.owned (open_answered answer r) ≡ r.owned
unfolding open_answered set_stage close
open_answered-owned none r = refl
open_answered-owned (some total) r = ground arith

receive_ready-owned :
    (chunk : ℕ) (found : Option (ℕ × List Pull)) (r : Receive)
    → Receive.owned (receive_ready chunk found r) ≡ r.owned
unfolding receive_ready set_stage
receive_ready-owned chunk none r = refl
receive_ready-owned chunk (some (slot, rest)) r = refl

lose-owned :
    (seen : Bool) (found : Option (ℕ × List Pull)) (stage : Stage) (r : Receive)
    → Receive.owned (lose seen found stage r) ≡ r.owned
unfolding lose
lose-owned seen none stage r = refl
lose-owned seen (some (slot, rest)) gathering r = refl
lose-owned seen (some (slot, rest)) receiving r = refl
lose-owned seen (some (slot, rest)) connecting r = refl
lose-owned seen (some (slot, rest)) aborting r = refl
lose-owned seen (some (slot, rest)) (closing good) r = refl
lose-owned seen (some (slot, rest)) (draining good) r = refl
lose-owned seen (some (slot, rest)) (ended good) r = refl

next-IsAt :
    (stage : Stage) (issued completed total : ℕ)
    → IsAt stage issued completed total
    → issued < total
    → IsAt stage (suc issued) completed total
next-IsAt connecting issued completed total a h = absurd (omega (arith, a.1, h))
next-IsAt receiving issued completed total a h = a
next-IsAt gathering issued completed total a h = a
next-IsAt aborting issued completed total a h = a
next-IsAt (closing true) issued completed total a h = a
next-IsAt (closing false) issued completed total a h = a
next-IsAt (draining true) issued completed total a h = a
next-IsAt (draining false) issued completed total a h = a
next-IsAt (ended true) issued completed total a h = a
next-IsAt (ended false) issued completed total a h = a

owned-set_stage : (stage : Stage) (r : Receive) → Receive.owned (set_stage stage r) ≡ r.owned
unfolding set_stage
owned-set_stage stage r = refl

owned-close : (good : Bool) (r : Receive) → Receive.owned (close good r) ≡ r.owned
unfolding close
owned-close good r = refl

issued_same :
    (sent : Bool) (slot : ℕ) (rest : List ℕ) (r : Receive) (x : ℕ)
    → count x ((issue_one sent slot rest r).1)
        + count x (Receive.owned ((issue_one sent slot rest r).0))
      ≡ count x (slot ∷ rest) + count x r.owned
unfolding issue_one
issued_same sent slot rest r x = omega arith

pub is_empty-true : (ps : List Pull) → is_empty ps ≡ true → ps ≡ []
unfolding is_empty
is_empty-true [] e = refl
is_empty-true (p ∷ ps) e = absurd (ground (arith, e))

gathered-Kept :
    (r : Receive) (slots : List ℕ)
    → r.stage ≡ gathering
    → IsFine r
    → Kept r (if is_empty r.decode_tasks then close true r else r) slots slots
unfolding close
gathered-Kept r slots e f = elim (Bool-cases (is_empty r.decode_tasks)) [
  | inl q ↦
      rw q
        (stays r _ slots refl (close-IsFine r gathering e refl f true (at-stage r gathering e f)))
  | inr q ↦ rw q (stays r r slots refl f)
]

-- From closing to the later stages the same holds.
later-IsAt :
    (good : Bool) (issued completed total : ℕ)
    → IsAt (closing good) issued completed total
    → IsAt (draining good) issued completed total × IsAt (ended good) issued completed total
later-IsAt true issued completed total a = (a, a)
later-IsAt false issued completed total a = (a, a)

last-IsAt :
    (good : Bool) (issued completed total : ℕ)
    → IsAt (draining good) issued completed total
    → IsAt (ended good) issued completed total
last-IsAt true issued completed total a = a
last-IsAt false issued completed total a = a

drains-Kept :
    (good : Bool) (r : Receive) (slots : List ℕ)
    → r.stage ≡ closing good
    → IsFine r
    → Kept r
        (if is_empty r.decode_tasks
          then (if is_empty r.owned then set_stage (ended good) r else set_stage (draining good) r)
          else r)
        slots
        slots
unfolding set_stage
drains-Kept good r slots e f =
    let (a, b) =
      later-IsAt good r.issued r.completed r.total_chunks (at-stage r (closing good) e f) in
    elim (Bool-cases (is_empty r.decode_tasks)) [
      | inr q ↦ rw q (stays r r slots refl f)
      | inl q ↦ elim (Bool-cases (is_empty r.owned)) [
        | inl p ↦
            rw (q, p)
              (stays r _ slots refl (
                set_stage-IsFine r (closing good) e refl f (ended good) b
                  (is_empty-true r.decode_tasks q)))
        | inr p ↦
            rw (q, p)
              (stays r _ slots refl (
                set_stage-IsFine r (closing good) e refl f (draining good) a
                  (is_empty-true r.decode_tasks q)))
      ]
    ]

drained-Kept :
    (good : Bool) (r : Receive) (slots : List ℕ)
    → r.stage ≡ draining good
    → IsFine r
    → Kept r (record r { owned = []; stage = ended good }) slots (slots ++ r.owned)
drained-Kept good r slots e f =
    let none_left : r.decode_tasks ≡ [] = rw e at f.rest in
    record {
      fine = record {
        covered = λ x. omega (arith, ap (slots_of x) none_left);
        rest = none_left;
        counted = f.counted;
        within = f.within;
        room = f.room;
        at = last-IsAt good r.issued r.completed r.total_chunks (at-stage r (draining good) e f);
      };
      same = λ x. omega (arith, count-append x slots r.owned);
    }

pub act-Kept :
    (action : Action) (stage : Stage) (issue : Issue) (slots : List ℕ) (r : Receive)
    → r.stage ≡ stage
    → r.issue_task ≡ issue
    → IsFine r
    → Kept r ((act action stage issue slots r).0) slots ((act action stage issue slots r).1)
unfolding act
act-Kept (opened answer) connecting issue slots r e i f =
    stays r _ slots (open_answered-owned answer r)
      (open-IsFine r connecting e refl f answer (at-stage r connecting e f).0)
act-Kept (issues sent) stage running (slot ∷ rest) r e i f =
    let room = running-room r i f in
    record {
      fine =
          issue-IsFine sent slot rest r room
            (next-IsAt r.stage r.issued r.completed r.total_chunks f.at room) f;
      same = issued_same sent slot rest r;
    }
act-Kept notices receiving broken slots r e i f =
    stays r _ slots (owned-set_stage aborting r)
      (set_stage-IsFine r receiving e refl f aborting tt tt)
act-Kept (receives (ready chunk)) receiving issue slots r e i f =
    stays r _ slots (receive_ready-owned chunk (take_out chunk r.inflight) r)
      (receive-IsFine chunk (take_out chunk r.inflight) r e refl f)
act-Kept (receives error) receiving issue slots r e i f =
    stays r _ slots (owned-set_stage aborting r)
      (set_stage-IsFine r receiving e refl f aborting tt tt)
act-Kept (decoded chunk) stage issue slots r e i f =
    release-Kept chunk (take_out chunk r.decode_tasks) r slots refl f
act-Kept (decode_fails chunk seen) stage issue slots r e i f =
    stays r _ slots (lose-owned seen (take_out chunk r.decode_tasks) stage r)
      (lose-IsFine chunk seen (take_out chunk r.decode_tasks) stage r refl e f)
act-Kept gathered gathering issue slots r e i f = gathered-Kept r slots e f
act-Kept answered aborting issue slots r e i f =
    stays r _ slots (owned-close false r) (close-IsFine r aborting e refl f false tt)
act-Kept drains (closing good) issue slots r e i f = drains-Kept good r slots e f
act-Kept drained (draining good) issue slots r e i f = drained-Kept good r slots e f
act-Kept action stage issue slots r e i f = stays r r slots refl f
