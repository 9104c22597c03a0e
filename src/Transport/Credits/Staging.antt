-- ===== src/Transport/Credits/Staging.antt =====
-- A history of the credits with the payloads that hold them. A payload that arrives is admitted or
-- refused; one that leaves, injected into the decode cache or failed, gives back what it took.
use kvserve.Common.{
  ℕ, zero, suc, ◌+◌, ◌≡◌, refl, Option, none, some, List, [], ◌∷◌, String, arith, get_elem?,
  erase_idx,
}
use kvserve.Transport.Credits.{Credits, init, reserve, release, expect}

pub record Staging : Type 0 where
  pub credits : Credits
  pub staged : List (String × ℕ)

pub data Event : Type 0 where
  arrives : String → ℕ → Event
  leaves : ℕ → Event
  schedules : List String → Event

abbrev pub start : ℕ → Staging
start recv_buffer_size = record { credits = init recv_buffer_size; staged = [] }

abbrev pub admitted : Staging → String → ℕ → Option Credits → Staging
admitted s rid n none = s
admitted s rid n (some c) = record { credits = c; staged = (rid, n) ∷ s.staged }

abbrev pub freed : Staging → ℕ → Option (String × ℕ) → Staging
freed s i none = s
freed s i (some (rid, n)) = record {
  credits = release rid n s.credits;
  staged = erase_idx s.staged i;
}

unfoldable pub step : Staging → Event → Staging
step s (arrives rid n) = admitted s rid n (reserve rid n s.credits)
step s (leaves i) = freed s i (get_elem? s.staged i)
step s (schedules rids) = record s { credits = expect rids s.credits }

unfoldable pub run : Staging → List Event → Staging
unfolding step
run s [] = s
run s (e ∷ es) = run (step s e) es

abbrev pub total : List (String × ℕ) → ℕ
total [] = 0
total (p ∷ ps) = p.1 + total ps

pub total-erase_idx :
    (ps : List (String × ℕ)) (i : ℕ) {r : String} {n : ℕ}
    → get_elem? ps i ≡ some (r, n)
    → n + total (erase_idx ps i) ≡ total ps
total-erase_idx [] i e = cc
total-erase_idx (p ∷ ps) zero e = ground arith
total-erase_idx (p ∷ ps) (suc i) e = omega (arith, total-erase_idx ps i e)

-- The reserved bytes are those of the staged payloads.
abbrev pub IsExact : Staging → Type 0
IsExact s = s.credits.reserved ≡ total s.staged

arrives-IsExact :
    (s : Staging) (rid : String) (n : ℕ)
    → IsExact s
    → IsExact (admitted s rid n (reserve rid n s.credits))
unfolding reserve
arrives-IsExact s rid n h = ground arith

leaves-IsExact :
    (s : Staging) (i : ℕ) (r : Option (String × ℕ))
    → get_elem? s.staged i ≡ r
    → IsExact s
    → IsExact (freed s i r)
unfolding release
leaves-IsExact s i none e h = h
leaves-IsExact s i (some (rid, n)) e h = ground (arith, total-erase_idx s.staged i e)

pub step-IsExact : (s : Staging) (e : Event) → IsExact s → IsExact (step s e)
unfolding step expect
step-IsExact s (arrives rid n) h = arrives-IsExact s rid n h
step-IsExact s (leaves i) h = leaves-IsExact s i _ refl h
step-IsExact s (schedules rids) h = h

run-IsExact : (es : List Event) (s : Staging) → IsExact s → IsExact (run s es)
unfolding run
run-IsExact [] s h = h
run-IsExact (e ∷ es) s h = run-IsExact es (step s e) (step-IsExact s e h)

-- After every history the reserved credits are the bytes of the payloads that are staged, so that
-- all of them are free again once every payload has left.
pub run-start-IsExact : (size : ℕ) (es : List Event) → IsExact (run (start size) es)
unfolding init
run-start-IsExact size es = run-IsExact es (start size) refl
