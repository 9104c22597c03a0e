-- ===== src/Workspace/History/Reuse.antt =====
-- Histories keep the free list tidy: blocks of positive length at aligned offsets, and one block
-- again once nothing is alive.
use kvserve.Common.{
  ℕ, zero, suc, ◌+◌, ◌-◌, ◌≤◌, ◌<◌, ◌≡◌, refl, inl, inr, Bool, true, false, Option, none, some,
  List, [], ◌∷◌, arith, ltb, if◌then◌else◌, get_elem?, All, All-append, All-get_elem?, Bool-cases,
  ap,
}
use kvserve.Workspace.{Block, Workspace, init, round_up, alignment, delete, carve, release}
use kvserve.Workspace.Cover.{cover, cover-delete}
use kvserve.Workspace.BestFit.{Outcome, raises, carves, alloc-Outcome}
use kvserve.Workspace.Coalesce.{
  Positive, GappedFrom, GappedFrom-Positive, release-GappedFrom, one_block,
}
use kvserve.Workspace.History.{
  State, Call, request, drop, start, granted, dropped, step, run, IsPartition, step-IsPartition,
  start-IsPartition,
}

module _ {ℓ} (P : Block → Type ℓ) where
  pub All-delete : (i : ℕ) (bs : List Block) → All P bs → All P (delete i bs)
  unfolding delete
  All-delete i [] h = tt
  All-delete zero (b ∷ bs) h = h.1
  All-delete (suc i) (b ∷ bs) h = (h.0, All-delete i bs h.1)

  pub All-carve :
      (size len index offset : ℕ) (free : List Block)
      → (size < len → P (offset + size, len - size))
      → All P free
      → All P (carve size (len, index, offset) free).1
  unfolding carve
  All-carve size len index offset free rest h = elim (Bool-cases (ltb size len)) [
    | inl e ↦
        rw e
          (All-append P (delete index free) _ (All-delete index free h) (rest (ground arith), tt))
    | inr e ↦ rw e (All-delete index free h)
  ]

-- `nothing alive` and `no gap closed yet` exclude one another.
pub record IsTidy (s : State) : Type 0 where
  free_positive : Positive s.pool.free
  live_positive : Positive s.live
  whole : s.live ≡ [] → GappedFrom 0 s.pool.free

abbrev pub IsUseful : Call → Type 0
IsUseful (request n) = 0 < n
IsUseful (drop i) = Unit

at_most_one : (b : Bool) → (if b then 1 else 0) ≤ 1
at_most_one true = omega arith
at_most_one false = omega arith

round_up_pos : (n : ℕ) → 0 < n → 0 < round_up n alignment
unfolding round_up
round_up_pos n h = omega arith

request-IsTidy :
    (n : ℕ) (s : State) (r : Option (Block × Workspace))
    → 0 < n
    → Outcome n s.pool r
    → IsTidy s
    → IsTidy (granted s r)
unfolding carve
request-IsTidy n s none h (raises short) t = t
request-IsTidy n s (some (b, w)) h (carves len index offset found fits least) t = record {
  free_positive =
      All-carve (λ b. 0 < b.1) _ len index offset s.pool.free (λ l. omega arith) t.free_positive;
  live_positive = (round_up_pos n h, t.live_positive);
  whole = λ e. absurd (cc);
}

drop-IsTidy :
    (size i : ℕ) (s : State) (r : Option Block)
    → get_elem? s.live i ≡ r
    → IsPartition size s
    → IsTidy s
    → IsTidy (dropped s i r)
drop-IsTidy size i s none e p t = t
drop-IsTidy size i s (some b) e p t = record {
  free_positive = GappedFrom-Positive 0 _ gapped;
  live_positive = All-delete (λ b. 0 < b.1) i s.live t.live_positive;
  whole = λ _. gapped;
}
  where
    gapped : GappedFrom 0 (release b s.pool).free
    gapped =
        release-GappedFrom b s.pool (All-get_elem? (λ b. 0 < b.1) s.live i t.live_positive e)
          t.free_positive
          (λ x. omega (arith, p x, cover-delete x i s.live e, at_most_one (ltb x size)))

run-IsTidy :
    (size : ℕ) (s : State) (cs : List Call)
    → All IsUseful cs
    → IsPartition size s
    → IsTidy s
    → IsPartition size (run s cs) × IsTidy (run s cs)
unfolding run step
run-IsTidy size s [] h p t = (p, t)
run-IsTidy size s (c ∷ cs) h p t =
    run-IsTidy size (step s c) cs h.1 (step-IsPartition size s c p) (tidy c h.0)
  where
    tidy : (c : Call) → IsUseful c → IsTidy (step s c)
    tidy (request n) h = request-IsTidy n s _ h (alloc-Outcome n s.pool) t
    tidy (drop i) h = drop-IsTidy size i s _ refl p t

-- If every request of a history asks for at least one byte and nothing is alive at its end, then the
-- free list is the one block of the whole buffer again: no history leaves it fragmented.
pub run-whole :
    (size : ℕ) (cs : List Call)
    → 0 < size
    → All IsUseful cs
    → (run (start size) cs).live ≡ []
    → (run (start size) cs).pool.free ≡ (0, size) ∷ []
unfolding init
run-whole size cs h useful e =
    let (p, t) = run-IsTidy size (start size) cs useful (start-IsPartition size) start_tidy in
    one_block size _ h (t.whole e) (λ x. omega (arith, p x, ap (cover x) e))
  where
    start_tidy : IsTidy (start size)
    start_tidy = record {
      free_positive = (h, tt);
      live_positive = tt;
      whole = λ _. (omega arith, h, tt);
    }
