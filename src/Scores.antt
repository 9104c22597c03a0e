-- ===== src/Scores.antt =====
-- kvserve_v1/compression/runtime/scores.py: build_head_selection, which picks the heads of low precision. The
-- entries of the score array, the file it is loaded from, np.isfinite, np.argsort and the rounding of
-- size * hybrid_ratio in floats are parameters.
pub mod Tables
pub mod Orders
pub mod Masks
pub mod Totality
pub mod Selection
pub mod Planning
pub mod Tests
use kvserve.Common.{
  ℕ, zero, suc, ◌+◌, ◌-◌, ◌*◌, ◌/◌, ◌%◌, Bool, true, false, ◌&&◌, not, Option, none, some, List, [],
  ◌∷◌, ◌++◌, ltb, ◌==◌, if◌then◌else◌, String, take, drop, length, get_elem?, replicate,
}
use kvserve.Layout.Data.{CacheSpec, SplitType, by_head, by_layer}

pub data Error : Type 0 where
  value_error index_error assertion_error : Error

pub data Outcome {ℓ} (A : Type ℓ) : Type ℓ where
  ok : A → Outcome A
  raise : Error → Outcome A

infixl 5 ◌>>=◌
abbrev pub ◌>>=◌ {κ ℓ} : {A : Type κ} {B : Type ℓ} → Outcome A → (A → Outcome B) → Outcome B
ok a >>= next = next a
raise e >>= next = raise e

pub record Array (Score : Type 0) : Type 0 where
  pub shape : List ℕ
  pub values : List Score

pub record HeadSelection : Type 0 where
  pub low_counts : List (ℕ × ℕ)
  pub local_orders : List (ℕ × List ℕ)

-- dict[key] = value, and range(start, start + n).
unfoldable pub put {ℓ} : {A : Type ℓ} → ℕ → A → List (ℕ × A) → List (ℕ × A)
put key a [] = (key, a) ∷ []
put key a ((k, b) ∷ rest) =
    let later = put key a rest in if key == k then (key, a) ∷ rest else (k, b) ∷ later

unfoldable pub range : ℕ → ℕ → List ℕ
range start zero = []
range start (suc n) = start ∷ range (suc start) n

-- xs[indices]
abbrev pub push {ℓ} : {A : Type ℓ} → Option A → Outcome (List A) → Outcome (List A)
push none later = raise index_error
push (some a) later = later >>= (λ picked. ok (a ∷ picked))

unfoldable pub gather {ℓ} : {A : Type ℓ} → List A → List ℕ → Outcome (List A)
gather xs [] = ok []
gather xs (i ∷ indices) = push (get_elem? xs i) (gather xs indices)

-- mask[indices] = True
unfoldable pub set_true : ℕ → List Bool → List Bool
set_true i [] = []
set_true zero (b ∷ mask) = true ∷ mask
set_true (suc i) (b ∷ mask) = b ∷ set_true i mask

unfoldable pub mark : List ℕ → List Bool → Outcome (List Bool)
mark [] mask = ok mask
mark (i ∷ indices) mask =
    let later = mark indices (set_true i mask) in
    if ltb i (length mask) then later else raise index_error

unfoldable pub candidate_offsets : ℕ → ℕ → List (String × CacheSpec) → Outcome (List ℕ)
candidate_offsets rows cols [] = ok []
candidate_offsets rows cols ((name, spec) ∷ rest) =
    let later = candidate_offsets rows cols rest in
    if ltb spec.layer_index rows
    then (later >>= (λ offsets. ok (range (spec.layer_index * cols) cols ++ offsets)))
    else raise value_error

-- np.flatnonzero of a mask and of its negation, for the part of it from index `i` on.
unfoldable pub low_heads : ℕ → List Bool → List ℕ
low_heads i [] = []
low_heads i (true ∷ mask) = i ∷ low_heads (suc i) mask
low_heads i (false ∷ mask) = low_heads (suc i) mask

unfoldable pub high_heads : ℕ → List Bool → List ℕ
high_heads i [] = []
high_heads i (true ∷ mask) = high_heads (suc i) mask
high_heads i (false ∷ mask) = i ∷ high_heads (suc i) mask

-- The first of the score's heads that this rank holds.
unfoldable pub start_of : ℕ → ℕ → ℕ → ℕ → Outcome ℕ
start_of score_heads local_heads tp_rank tp_size =
    if score_heads == local_heads
    then ok 0
    else if score_heads == local_heads * tp_size
    then ok (tp_rank * local_heads)
    else if local_heads == 1
        && (ltb 0 score_heads && ltb score_heads tp_size)
        && (tp_size % score_heads == 0)
    then ok (tp_rank / (tp_size / score_heads))
    else raise value_error

-- mask[layer_index, start : start + local_heads]
unfoldable pub local_mask : List Bool → ℕ → ℕ → ℕ → ℕ → List Bool
local_mask mask score_heads layer_index start local_heads =
    take local_heads (drop start (take score_heads (drop (layer_index * score_heads) mask)))

unfoldable pub record_layer : ℕ → List Bool → HeadSelection → HeadSelection
record_layer layer_index chosen selection = record {
  low_counts = put layer_index (length (low_heads 0 chosen)) selection.low_counts;
  local_orders = put layer_index (low_heads 0 chosen ++ high_heads 0 chosen) selection.local_orders;
}

unfoldable pub select_layers :
    List Bool → ℕ → ℕ → ℕ → List (String × CacheSpec) → HeadSelection → Outcome HeadSelection
select_layers mask score_heads tp_rank tp_size [] selection = ok selection
select_layers mask score_heads tp_rank tp_size ((name, spec) ∷ rest) selection =
    start_of score_heads spec.num_kv_heads tp_rank tp_size >>= (λ start.
      select_layers mask score_heads tp_rank tp_size rest (
        record_layer spec.layer_index
          (local_mask mask score_heads spec.layer_index start spec.num_kv_heads) selection))

-- The split by layer: no low heads, in their own order.
unfoldable pub whole_layers : List (String × CacheSpec) → HeadSelection → HeadSelection
whole_layers [] selection = selection
whole_layers ((name, spec) ∷ rest) selection = whole_layers rest (record {
  low_counts = put spec.layer_index 0 selection.low_counts;
  local_orders = put spec.layer_index (range 0 spec.num_kv_heads) selection.local_orders;
})

abbrev pub nothing_selected : HeadSelection
nothing_selected = record { low_counts = []; local_orders = [] }

unfoldable pub all_finite : {Score : Type 0} → (Score → Bool) → List Score → Bool
all_finite is_finite [] = true
all_finite is_finite (x ∷ xs) = is_finite x && all_finite is_finite xs

module _ {Score : Type 0} (is_finite : Score → Bool) (argsort : List Score → List ℕ)
    (round_ratio : ℕ → ℕ) where
  -- The low_count candidates of the lowest scores.
  unfoldable pub mark_lowest : List Score → List ℕ → ℕ → List Bool → Outcome (List Bool)
  mark_lowest values candidates zero mask = ok mask
  mark_lowest values candidates (suc n) mask = gather values candidates >>= (λ scores.
      gather candidates (take (suc n) (argsort scores)) >>= (λ lowest. mark lowest mask))

  unfoldable pub select_heads :
      ℕ → ℕ → List (String × CacheSpec) → List ℕ → List Score → Outcome HeadSelection
  select_heads tp_rank tp_size specs (rows ∷ cols ∷ []) values =
      if all_finite is_finite values
      then (candidate_offsets rows cols specs >>= (λ candidates.
          mark_lowest values candidates (round_ratio (length candidates))
            (replicate (rows * cols) false)
          >>= (λ mask. select_layers mask cols tp_rank tp_size specs nothing_selected)))
      else raise value_error
  select_heads tp_rank tp_size specs shape values = raise value_error

  unfoldable pub loaded :
      (String → Array Score) → Option (Array Score) → Option String → Outcome (Array Score)
  loaded load_scores (some scores) path = ok scores
  loaded load_scores none (some path) = ok (load_scores path)
  loaded load_scores none none = raise assertion_error

  unfoldable pub build_head_selection :
      (String → Array Score)
      → SplitType
      → Option String
      → ℕ
      → ℕ
      → Option (Array Score)
      → List (String × CacheSpec)
      → Outcome HeadSelection
  build_head_selection load_scores by_layer path tp_rank tp_size scores specs =
      ok (whole_layers specs nothing_selected)
  build_head_selection load_scores by_head path tp_rank tp_size scores specs =
      loaded load_scores scores path
      >>= (λ given. select_heads tp_rank tp_size specs given.shape given.values)
