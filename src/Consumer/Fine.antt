-- ===== src/Consumer/Fine.antt =====
-- What holds of the local variables of a session after every action, and what an action does to slots.
use kvserve.Common.{
  ℕ, suc, ◌+◌, ◌≤◌, ◌<◌, ◌≡◌, inl, inr, refl, ap, Bool, true, false, Bool-cases, Option,
  Option-cases, none, some, List, [], ◌∷◌, ltb, ◌==◌, if◌then◌else◌, arith,
}
use kvserve.Session.Totals.{one_if, count, count-append}
use kvserve.Consumer.State.{
  Stage, connecting, receiving, gathering, aborting, closing, draining, ended, Issue, running,
  broken, over, Pull, Receive, take_out, discard,
}
use kvserve.Consumer.Actions.{
  set_stage, close, open_answered, issue_one, receive_ready, release, lose,
}

abbrev pub slots_of : ℕ → List Pull → ℕ
slots_of x [] = 0
slots_of x (p ∷ ps) = one_if (Pull.slot_id p == x) + slots_of x ps

abbrev pub size : List Pull → ℕ
size [] = 0
size (p ∷ ps) = suc (size ps)

-- What the stage says of the chunks.
abbrev pub IsAt : Stage → ℕ → ℕ → ℕ → Type 0
IsAt connecting issued completed total = (issued ≡ 0) × (total ≡ 0)
IsAt receiving issued completed total = completed < total
IsAt gathering issued completed total = completed ≡ total
IsAt aborting issued completed total = Unit {0}
IsAt (closing true) issued completed total = completed ≡ total
IsAt (draining true) issued completed total = completed ≡ total
IsAt (ended true) issued completed total = completed ≡ total
IsAt (closing false) issued completed total = Unit {0}
IsAt (draining false) issued completed total = Unit {0}
IsAt (ended false) issued completed total = Unit {0}

abbrev pub HasRoom : Issue → ℕ → ℕ → Type 0
HasRoom running issued total = issued < total
HasRoom broken issued total = Unit {0}
HasRoom over issued total = Unit {0}

-- The pulls that still wait for a reply; a session that has ended waits for none.
abbrev pub live : Stage → List Pull → List Pull
live (ended good) ps = []
live connecting ps = ps
live receiving ps = ps
live gathering ps = ps
live aborting ps = ps
live (closing good) ps = ps
live (draining good) ps = ps

-- The drain begins when no decode task is left.
abbrev pub IsRest : Stage → List Pull → Type 0
IsRest (draining good) ps = ps ≡ []
IsRest (ended good) ps = ps ≡ []
IsRest connecting ps = Unit {0}
IsRest receiving ps = Unit {0}
IsRest gathering ps = Unit {0}
IsRest aborting ps = Unit {0}
IsRest (closing good) ps = Unit {0}

pub record IsFine (r : Receive) : Type 0 where
  pub covered :
      (x : ℕ) → slots_of x (live r.stage r.inflight) + slots_of x r.decode_tasks ≤ count x r.owned
  pub rest : IsRest r.stage r.decode_tasks
  pub counted : r.completed + size r.inflight ≡ r.issued
  pub within : r.issued ≤ r.total_chunks
  pub room : HasRoom r.issue_task r.issued r.total_chunks
  pub at : IsAt r.stage r.issued r.completed r.total_chunks

-- An action that makes `r'` and `slots'` of `r` and `slots`.
pub record Kept (r r' : Receive) (slots slots' : List ℕ) : Type 0 where
  pub fine : IsFine r'
  pub same : (x : ℕ) → count x slots' + count x r'.owned ≡ count x slots + count x r.owned

pub take_out-some :
    (chunk slot : ℕ) (ps rest : List Pull)
    → take_out chunk ps ≡ some (slot, rest)
    → (size ps ≡ suc (size rest)) × ((x : ℕ) → slots_of x ps ≡ one_if (slot == x) + slots_of x rest)
unfolding take_out
take_out-some chunk slot [] rest e = absurd (ground (arith, e))
take_out-some chunk slot (p ∷ ps) rest e = elim (Bool-cases (Pull.chunk_id p == chunk)) [
  | inl q ↦ (ground (arith, e, q), λ x. ground (arith, e, q))
  | inr q ↦ elim (Option-cases (take_out chunk ps)) [
    | inl n ↦ absurd (ground (arith, e, q, n))
    | inr ((s, left), t) ↦
        let (size_left, slots_left) = take_out-some chunk s ps left t in
        (ground (arith, e, q, t, size_left), λ x. ground (arith, e, q, t, slots_left x))
  ]
]

pub count-discard :
    (slot : ℕ) (xs : List ℕ) (x : ℕ)
    → 1 ≤ count slot xs
    → count x (discard slot xs) + one_if (slot == x) ≡ count x xs
unfolding discard
count-discard slot [] x h = absurd (omega (arith, h))
count-discard slot (y ∷ ys) x h = elim (Bool-cases (y == slot)) [
  | inl e ↦ ground (arith, e)
  | inr e ↦ ground (arith, e, count-discard slot ys x (ground (arith, h, e)))
]

-- An action that leaves the slots alone.
pub stays :
    (r r' : Receive) (slots : List ℕ) → r'.owned ≡ r.owned → IsFine r' → Kept r r' slots slots
stays r r' slots e f = record { fine = f; same = λ x. omega (arith, ap (count x) e) }

-- The proof that the issue task still has something to issue.
pub running-room : (r : Receive) → r.issue_task ≡ running → IsFine r → r.issued < r.total_chunks
running-room r i f = rw i at f.room

pub at-stage :
    (r : Receive) (stage : Stage)
    → r.stage ≡ stage
    → IsFine r
    → IsAt stage r.issued r.completed r.total_chunks
at-stage r stage e f = rw e at f.at

pub live-le : (stage : Stage) (ps : List Pull) (x : ℕ) → slots_of x (live stage ps) ≤ slots_of x ps
live-le (ended good) ps x = omega arith
live-le connecting ps x = omega arith
live-le receiving ps x = omega arith
live-le gathering ps x = omega arith
live-le aborting ps x = omega arith
live-le (closing good) ps x = omega arith
live-le (draining good) ps x = omega arith

-- A session whose stage has not ended goes to another stage.
module _ (r : Receive) (from : Stage) (e : r.stage ≡ from)
    (whole : live from r.inflight ≡ r.inflight) (f : IsFine r) where
  still : (x : ℕ) → slots_of x r.inflight + slots_of x r.decode_tasks ≤ count x r.owned
  still x = omega (
    arith,
    f.covered x,
    ap (λ (s : Stage). slots_of x (live s r.inflight)) e,
    ap (slots_of x) whole,
  )

  pub set_stage-IsFine :
      (stage : Stage)
      → IsAt stage r.issued r.completed r.total_chunks
      → IsRest stage r.decode_tasks
      → IsFine (set_stage stage r)
  unfolding set_stage
  set_stage-IsFine stage a t = record {
    covered = λ x. omega (arith, still x, live-le stage r.inflight x);
    rest = t;
    counted = f.counted;
    within = f.within;
    room = f.room;
    at = a;
  }

  pub close-IsFine :
      (good : Bool)
      → IsAt (closing good) r.issued r.completed r.total_chunks
      → IsFine (close good r)
  unfolding close
  close-IsFine good a = record {
    covered = still;
    rest = tt;
    counted = f.counted;
    within = f.within;
    room = tt;
    at = a;
  }

  pub open-IsFine : (answer : Option ℕ) → r.issued ≡ 0 → IsFine (open_answered answer r)
  unfolding open_answered close
  open-IsFine none z = set_stage-IsFine aborting tt tt
  open-IsFine (some total) z = elim (Bool-cases (total == 0)) [
    | inl q ↦ rw q (record {
      covered = still;
      rest = tt;
      counted = f.counted;
      within = omega (arith, z);
      room = tt;
      at = ground (arith, z, q, f.counted);
    })
    | inr q ↦ rw q (record {
      covered = still;
      rest = tt;
      counted = f.counted;
      within = omega (arith, z);
      room = ground (arith, z, q);
      at = ground (arith, z, q, f.counted);
    })
  ]

pub issuing-HasRoom :
    (sent : Bool) (next total : ℕ)
    → HasRoom (if sent then (if ltb next total then running else over) else broken) next total
issuing-HasRoom false next total = tt
issuing-HasRoom true next total = elim (Bool-cases (ltb next total)) [
  | inl e ↦ rw e (ground (arith, e))
  | inr e ↦ rw e tt
]

one_more :
    (stage : Stage) (p : Pull) (ps : List Pull) (x : ℕ)
    → slots_of x (live stage (p ∷ ps)) ≤ one_if (Pull.slot_id p == x) + slots_of x (live stage ps)
one_more (ended good) p ps x = omega arith
one_more connecting p ps x = omega arith
one_more receiving p ps x = omega arith
one_more gathering p ps x = omega arith
one_more aborting p ps x = omega arith
one_more (closing good) p ps x = omega arith
one_more (draining good) p ps x = omega arith

pub issue-IsFine :
    (sent : Bool) (slot : ℕ) (rest : List ℕ) (r : Receive)
    → r.issued < r.total_chunks
    → IsAt r.stage (suc r.issued) r.completed r.total_chunks
    → IsFine r
    → IsFine ((issue_one sent slot rest r).0)
unfolding issue_one
issue-IsFine sent slot rest r room a f = record {
  covered = λ x. omega (
    arith,
    f.covered x,
    one_more r.stage (record { chunk_id = r.issued; slot_id = slot }) r.inflight x,
  );
  rest = f.rest;
  counted = omega (arith, f.counted);
  within = omega (arith, room);
  room = issuing-HasRoom sent (suc r.issued) r.total_chunks;
  at = a;
}

pub receive-IsFine :
    (chunk : ℕ) (found : Option (ℕ × List Pull)) (r : Receive)
    → r.stage ≡ receiving
    → take_out chunk r.inflight ≡ found
    → IsFine r
    → IsFine (receive_ready chunk found r)
unfolding receive_ready
receive-IsFine chunk none r e t f = set_stage-IsFine r receiving e refl f aborting tt tt
receive-IsFine chunk (some (slot, rest)) r e t f =
    let (smaller, fewer) = take_out-some chunk slot r.inflight rest t in
    let (a, b) = next_stage (suc r.completed) r.total_chunks (at-stage r receiving e f) in
    record {
      covered = λ x. omega (
        arith,
        still r receiving e refl f x,
        fewer x,
        live-le (if suc r.completed == r.total_chunks then gathering else receiving) rest x,
      );
      rest = b;
      counted = omega (arith, f.counted, smaller);
      within = f.within;
      room = f.room;
      at = a;
    }
  where
    next_stage :
        (c total : ℕ)
        → c ≤ total
        → IsAt (if c == total then gathering else receiving) r.issued c total
          × IsRest
              (if c == total then gathering else receiving)
              (record { chunk_id = chunk; slot_id = slot } ∷ r.decode_tasks)
    next_stage c total h = elim (Bool-cases (c == total)) [
      | inl e ↦ rw e (ground (arith, e), tt)
      | inr e ↦ rw e (ground (arith, e, h), tt)
    ]

-- A decode task that is gone.
no_decode :
    (chunk slot : ℕ) (ps rest : List Pull) → ps ≡ [] → take_out chunk ps ≡ some (slot, rest) → ⊥
unfolding take_out
no_decode chunk slot ps rest e t = absurd (ground (arith, e, t))

less-IsRest :
    (chunk slot : ℕ) (ps rest : List Pull) (stage : Stage)
    → take_out chunk ps ≡ some (slot, rest)
    → IsRest stage ps
    → IsRest stage rest
less-IsRest chunk slot ps rest (draining good) t e = absurd (no_decode chunk slot ps rest e t)
less-IsRest chunk slot ps rest (ended good) t e = absurd (no_decode chunk slot ps rest e t)
less-IsRest chunk slot ps rest connecting t e = tt
less-IsRest chunk slot ps rest receiving t e = tt
less-IsRest chunk slot ps rest gathering t e = tt
less-IsRest chunk slot ps rest aborting t e = tt
less-IsRest chunk slot ps rest (closing good) t e = tt

pub release-Kept :
    (chunk : ℕ) (found : Option (ℕ × List Pull)) (r : Receive) (slots : List ℕ)
    → take_out chunk r.decode_tasks ≡ found
    → IsFine r
    → Kept r ((release found r slots).0) slots ((release found r slots).1)
unfolding release
release-Kept chunk none r slots t f = stays r r slots refl f
release-Kept chunk (some (slot, rest)) r slots t f =
    let (smaller, fewer) = take_out-some chunk slot r.decode_tasks rest t in
    let there : 1 ≤ count slot r.owned = ground (arith, f.covered slot, fewer slot) in
    record {
      fine = record {
        covered = λ x. omega (arith, f.covered x, fewer x, count-discard slot r.owned x there);
        rest = less-IsRest chunk slot r.decode_tasks rest r.stage t f.rest;
        counted = f.counted;
        within = f.within;
        room = f.room;
        at = f.at;
      };
      same =
          λ x. omega (arith, count-append x slots (slot ∷ []), count-discard slot r.owned x there);
    }

less-IsFine :
    (chunk slot : ℕ) (rest : List Pull) (r : Receive)
    → take_out chunk r.decode_tasks ≡ some (slot, rest)
    → IsFine r
    → IsFine (record r { decode_tasks = rest })
less-IsFine chunk slot rest r t f =
    let (smaller, fewer) = take_out-some chunk slot r.decode_tasks rest t in
    record {
      covered = λ x. omega (arith, f.covered x, fewer x);
      rest = less-IsRest chunk slot r.decode_tasks rest r.stage t f.rest;
      counted = f.counted;
      within = f.within;
      room = f.room;
      at = f.at;
    }

-- The same, where the session goes on to `_send_abort`.
noticed-IsFine :
    (chunk slot : ℕ) (rest : List Pull) (from : Stage) (r : Receive)
    → take_out chunk r.decode_tasks ≡ some (slot, rest)
    → r.stage ≡ from
    → live from r.inflight ≡ r.inflight
    → IsFine r
    → IsFine (record r { decode_tasks = rest; stage = aborting })
unfolding set_stage
noticed-IsFine chunk slot rest from r t e whole f =
    set_stage-IsFine (record r { decode_tasks = rest }) from e whole
      (less-IsFine chunk slot rest r t f) aborting tt tt

unnoticed-IsFine :
    (chunk slot : ℕ) (rest : List Pull) (from : Stage) (r : Receive)
    → take_out chunk r.decode_tasks ≡ some (slot, rest)
    → r.stage ≡ from
    → live from r.inflight ≡ r.inflight
    → IsFine r
    → IsRest from rest
    → IsFine (record r { decode_tasks = rest; stage = from })
unfolding set_stage
unnoticed-IsFine chunk slot rest from r t e whole f idle =
    set_stage-IsFine (record r { decode_tasks = rest }) from e whole
      (less-IsFine chunk slot rest r t f) from (at-stage r from e f) idle

pub lose-IsFine :
    (chunk : ℕ) (seen : Bool) (found : Option (ℕ × List Pull)) (stage : Stage) (r : Receive)
    → take_out chunk r.decode_tasks ≡ found
    → r.stage ≡ stage
    → IsFine r
    → IsFine (lose seen found stage r)
unfolding lose
lose-IsFine chunk seen none stage r t e f = f
lose-IsFine chunk true (some (slot, rest)) gathering r t e f =
    noticed-IsFine chunk slot rest gathering r t e refl f
lose-IsFine chunk true (some (slot, rest)) receiving r t e f =
    noticed-IsFine chunk slot rest receiving r t e refl f
lose-IsFine chunk false (some (slot, rest)) gathering r t e f =
    unnoticed-IsFine chunk slot rest gathering r t e refl f tt
lose-IsFine chunk false (some (slot, rest)) receiving r t e f =
    unnoticed-IsFine chunk slot rest receiving r t e refl f tt
lose-IsFine chunk seen (some (slot, rest)) connecting r t e f = less-IsFine chunk slot rest r t f
lose-IsFine chunk seen (some (slot, rest)) aborting r t e f = less-IsFine chunk slot rest r t f
lose-IsFine chunk seen (some (slot, rest)) (closing good) r t e f =
    less-IsFine chunk slot rest r t f
lose-IsFine chunk seen (some (slot, rest)) (draining good) r t e f =
    less-IsFine chunk slot rest r t f
lose-IsFine chunk seen (some (slot, rest)) (ended good) r t e f = less-IsFine chunk slot rest r t f
