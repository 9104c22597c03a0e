-- ===== src/Workspace/History/Aligned.antt =====
-- Every allocation starts and ends on a multiple of ALIGNMENT.
use kvserve.Common.{
  ℕ, ◌+◌, ◌%◌, ◌≡◌, refl, inl, inr, Option, none, some, List, [], ◌∷◌, arith, ◌==◌, get_elem?, All,
  All-append, All-get_elem?, Bool-cases,
}
use kvserve.Workspace.{
  Block, Workspace, init, round_up, alignment, carve, insert, block_le, sort, merge_from, merge,
  release,
}
use kvserve.Workspace.BestFit.{Outcome, raises, carves, alloc-Outcome}
use kvserve.Workspace.History.{State, Call, request, drop, start, granted, dropped, step, run}
use kvserve.Workspace.History.Reuse.{All-delete, All-carve}

abbrev StartsAligned : Block → Type 0
StartsAligned b = b.0 % alignment ≡ 0

abbrev pub IsAligned : Block → Type 0
IsAligned b = (b.0 % alignment ≡ 0) × (b.1 % alignment ≡ 0)

round_up-mod : (n : ℕ) → round_up n alignment % alignment ≡ 0
unfolding round_up
round_up-mod n = omega arith

insert-StartsAligned :
    (b : Block) (bs : List Block)
    → StartsAligned b
    → All StartsAligned bs
    → All StartsAligned (insert b bs)
unfolding insert
insert-StartsAligned b [] h all = (h, tt)
insert-StartsAligned b (c ∷ cs) h all = elim (Bool-cases (block_le b c)) [
  | inl e ↦ rw e ((h, all))
  | inr e ↦ rw e ((all.0, insert-StartsAligned b cs h all.1))
]

sort-StartsAligned : (bs : List Block) → All StartsAligned bs → All StartsAligned (sort bs)
unfolding sort
sort-StartsAligned [] h = tt
sort-StartsAligned (b ∷ bs) h = insert-StartsAligned b (sort bs) h.0 (sort-StartsAligned bs h.1)

merge_from-StartsAligned :
    (b : Block) (bs : List Block)
    → StartsAligned b
    → All StartsAligned bs
    → All StartsAligned (merge_from b bs)
unfolding merge_from
merge_from-StartsAligned (o, l) [] h all = (h, tt)
merge_from-StartsAligned (o, l) ((p, m) ∷ bs) h all = elim (Bool-cases (o + l == p)) [
  | inl e ↦ rw (e, merge_from) (merge_from-StartsAligned (o, l + m) bs h all.1)
  | inr e ↦ rw (e, merge_from) ((h, merge_from-StartsAligned (p, m) bs all.0 all.1))
]

merge-StartsAligned : (bs : List Block) → All StartsAligned bs → All StartsAligned (merge bs)
unfolding merge
merge-StartsAligned [] h = tt
merge-StartsAligned (b ∷ bs) h = merge_from-StartsAligned b bs h.0 h.1

record AllAligned (s : State) : Type 0 where
  free : All StartsAligned s.pool.free
  live : All IsAligned s.live

request-AllAligned :
    (n : ℕ) (s : State) (r : Option (Block × Workspace))
    → Outcome n s.pool r
    → AllAligned s
    → AllAligned (granted s r)
unfolding carve
request-AllAligned n s none (raises short) a = a
request-AllAligned n s (some (b, w)) (carves len index offset found fits least) a =
    let at = All-get_elem? StartsAligned s.pool.free index a.free found in
    record {
      free =
          All-carve StartsAligned _ len index offset s.pool.free
            (λ _. omega (arith, round_up-mod n)) a.free;
      live = ((at, round_up-mod n), a.live);
    }

drop-AllAligned :
    (i : ℕ) (s : State) (r : Option Block)
    → get_elem? s.live i ≡ r
    → AllAligned s
    → AllAligned (dropped s i r)
unfolding release
drop-AllAligned i s none e a = a
drop-AllAligned i s (some b) e a = record {
  free = merge-StartsAligned _ (
      sort-StartsAligned _ (
        All-append StartsAligned s.pool.free (b ∷ []) a.free
          ((All-get_elem? IsAligned s.live i a.live e).0, tt)));
  live = All-delete IsAligned i s.live a.live;
}

run-AllAligned : (s : State) (cs : List Call) → AllAligned s → AllAligned (run s cs)
unfolding run step
run-AllAligned s [] a = a
run-AllAligned s (c ∷ cs) a = run-AllAligned (step s c) cs (kept c)
  where
    kept : (c : Call) → AllAligned (step s c)
    kept (request n) = request-AllAligned n s _ (alloc-Outcome n s.pool) a
    kept (drop i) = drop-AllAligned i s _ refl a

-- After every history, each live allocation starts at a multiple of ALIGNMENT and its accounted size
-- is one too.
pub run-live-IsAligned : (size : ℕ) (cs : List Call) → All IsAligned (run (start size) cs).live
unfolding init
run-live-IsAligned size cs =
    (run-AllAligned (start size) cs (record { free = (omega arith, tt); live = tt })).live
