-- ===== src/Scores/Masks.antt =====
-- The mask of the low heads: its length, and the part of it that a rank takes.
use kvserve.Common.{
  ℕ, zero, suc, ◌+◌, ◌-◌, ◌*◌, ◌/◌, ◌%◌, ◌≤◌, ◌<◌, ◌≡◌, refl, ap, ◌∙◌, Bool, Bool-cases, inl, inr,
  ◌⊎◌, List, [], ◌∷◌, String, take, drop, length, length-take, length-drop, All, ltb, ◌==◌, arith,
}
use native.Mathlib.Nat.{mod-add-div, mul_comm, mul-le-mul_right, div-mul-le_self}
use native.Mathlib.Decide.{dec_lt}
use kvserve.Layout.Data.{CacheSpec}
use kvserve.Scores.{
  Outcome, ok, raise, gather, set_true, mark, mark_lowest, candidate_offsets, start_of, local_mask,
  ◌>>=◌,
}
use kvserve.Scores.Tables.{length-set_true}

pub bind_returns {ℓ κ} :
    {A : Type ℓ} {B : Type κ} (m : Outcome A) (next : A → Outcome B) (b : B)
    → (m >>= next) ≡ ok b
    → (a : A) × (m ≡ ok a) × (next a ≡ ok b)
bind_returns (ok a) next b h = (a, refl, h)
bind_returns (raise e) next b h = absurd (ground (arith, h))

-- The checks of a layer that a rank's heads go through.
abbrev pub Fits : ℕ → ℕ → ℕ → Type 0
Fits score_heads tp_size heads =
    (score_heads ≡ heads)
    ⊎ (score_heads ≡ heads * tp_size)
    ⊎ ((heads ≡ 1) × (0 < score_heads) × (score_heads < tp_size) × (tp_size % score_heads ≡ 0))

pub start_of_total :
    (score_heads heads tp_rank tp_size : ℕ)
    → Fits score_heads tp_size heads
    → (start : ℕ) × (start_of score_heads heads tp_rank tp_size ≡ ok start)
unfolding start_of
start_of_total score_heads heads tp_rank tp_size (inl same) = (0, ground (arith, same))
start_of_total score_heads heads tp_rank tp_size (inr (inl full)) =
    elim (Bool-cases (score_heads == heads)) [
      | inl e ↦ (0, rw e refl)
      | inr e ↦ (tp_rank * heads, ground (arith, e, full))
    ]
start_of_total score_heads heads tp_rank tp_size (inr (inr shared)) =
    elim (Bool-cases (score_heads == heads)) [
      | inl e ↦ (0, rw e refl)
      | inr e ↦ elim (Bool-cases (score_heads == heads * tp_size)) [
        | inl e' ↦ (tp_rank * heads, rw (e, e') refl)
        | inr e' ↦ (tp_rank / (tp_size / score_heads), ground (arith, e, e', shared))
      ]
    ]

-- A rank's heads lie within the row of the scores.
quotient_bound :
    (score_heads tp_rank tp_size : ℕ)
    → tp_rank < tp_size
    → tp_size % score_heads ≡ 0
    → tp_rank / (tp_size / score_heads) < score_heads
quotient_bound score_heads tp_rank tp_size r even =
    elim (dec_lt (tp_rank / (tp_size / score_heads)) score_heads) [
      | yes p ↦ p
      | no p ↦
          let q = tp_size / score_heads in
          let whole : score_heads * q ≡ tp_size =
            omega (arith, mod-add-div tp_size score_heads, even) in
          let below : tp_rank / q * q ≤ tp_rank = div-mul-le_self tp_rank q in
          let above : score_heads * q ≤ tp_rank / q * q =
            mul-le-mul_right {m = score_heads} {n = tp_rank / q} q (omega (arith, p)) in
          absurd (omega (arith, whole, below, above, r))
    ]

pub start_of_bound :
    (score_heads heads tp_rank tp_size start : ℕ)
    → tp_rank < tp_size
    → start_of score_heads heads tp_rank tp_size ≡ ok start
    → start + heads ≤ score_heads
unfolding start_of
start_of_bound score_heads heads tp_rank tp_size start r h =
    let within : tp_rank * heads + heads ≤ heads * tp_size =
      omega
        (arith, mul-le-mul_right {m = suc tp_rank} {n = tp_size} heads r, mul_comm heads tp_size) in
    ground (arith, h, r, within, quotient_bound score_heads tp_rank tp_size r)

pub length-local_mask :
    (mask : List Bool) (rows score_heads layer start heads : ℕ)
    → length mask ≡ rows * score_heads
    → layer < rows
    → start + heads ≤ score_heads
    → length (local_mask mask score_heads layer start heads) ≡ heads
unfolding local_mask
length-local_mask mask rows score_heads layer start heads len l s =
    let row : length (drop (layer * score_heads) mask) ≡ rows * score_heads - layer * score_heads =
      length-drop (layer * score_heads) mask ∙ ap (λ (n : ℕ). n - layer * score_heads) len in
    let inside : suc layer * score_heads ≤ rows * score_heads =
      mul-le-mul_right {m = suc layer} {n = rows} score_heads l in
    let taken = take score_heads (drop (layer * score_heads) mask) in
    omega (
      arith,
      length-take heads (drop start taken),
      length-drop start taken,
      length-take score_heads (drop (layer * score_heads) mask),
      row,
      inside,
      s,
    )

pub mark-length :
    (indices : List ℕ) (mask marked : List Bool)
    → mark indices mask ≡ ok marked
    → length marked ≡ length mask
unfolding mark
mark-length [] mask marked h = ground (arith, h)
mark-length (i ∷ indices) mask marked h = elim (Bool-cases (ltb i (length mask))) [
  | inl e ↦ mark-length indices (set_true i mask) marked (rw e at h) ∙ length-set_true i mask
  | inr e ↦ absurd (ground (arith, e, h))
]

pub candidate_offsets_rows :
    (rows cols : ℕ) (specs : List (String × CacheSpec)) (offsets : List ℕ)
    → candidate_offsets rows cols specs ≡ ok offsets
    → All (λ (x : String × CacheSpec). CacheSpec.layer_index x.1 < rows) specs
unfolding candidate_offsets
candidate_offsets_rows rows cols [] offsets h = tt
candidate_offsets_rows rows cols ((name, spec) ∷ rest) offsets h =
    elim (Bool-cases (ltb spec.layer_index rows)) [
      | inl e ↦
          let (later, is_later, _) =
            bind_returns (candidate_offsets rows cols rest) _ offsets (rw e at h) in
          (ground (arith, e), candidate_offsets_rows rows cols rest later is_later)
      | inr e ↦ absurd (ground (arith, e, h))
    ]

module _ {Score : Type 0} (is_finite : Score → Bool) (argsort : List Score → List ℕ)
    (round_ratio : ℕ → ℕ) where
  pub mark_lowest-length :
      (values : List Score) (candidates : List ℕ) (n : ℕ) (mask marked : List Bool)
      → mark_lowest is_finite argsort round_ratio values candidates n mask ≡ ok marked
      → length marked ≡ length mask
  unfolding mark_lowest
  mark_lowest-length values candidates zero mask marked h = ground (arith, h)
  mark_lowest-length values candidates (suc n) mask marked h =
      let (scores, _, picks) = bind_returns (gather values candidates) _ marked h in
      let (lowest, _, marks) =
        bind_returns (gather candidates (take (suc n) (argsort scores))) _ marked picks in
      mark-length lowest mask marked marks
