-- ===== src/Scores/Tests.antt =====
-- Two layers of four heads on two ranks; half of the heads get the low precision.
use kvserve.Common.{
  ℕ, zero, suc, ◌/◌, ◌<◌, ◌≡◌, refl, Bool, true, inl, inr, none, some, List, [], ◌∷◌, String,
  length, ltb, leb, if◌then◌else◌, All, arith,
}
use kvserve.Layout.Data.{
  CacheSpec, by_head, by_layer, transformer, quantizer, codec, aggregate, channel, token, Config,
  Layout,
}
use kvserve.Layout.Section.{in_pipeline}
use kvserve.Layout.Build.{not_power_of_two?}
use kvserve.Layout.Heads.{Partitioned}
use kvserve.Scores.Planning.{
  planning_config, layers_behind, layer_count, planned_selection, plan, planned, selection_failed,
  plan_total,
}
use kvserve.Scores.{
  ok, raise, value_error, assertion_error, Array, HeadSelection, put, range, gather, set_true, mark,
  candidate_offsets, low_heads, high_heads, start_of, local_mask, record_layer, select_layers,
  whole_layers, all_finite, mark_lowest, select_heads, loaded, build_head_selection,
}
use kvserve.Scores.Orders.{Holds, all_from}
use kvserve.Scores.Selection.{build-Holds}
use kvserve.Scores.Totality.{Below, build_head_selection_total}

-- A stable sort of the indices.
abbrev value_of : List ℕ → ℕ → ℕ
value_of [] i = 0
value_of (x ∷ xs) zero = x
value_of (x ∷ xs) (suc i) = value_of xs i

abbrev place : List ℕ → ℕ → List ℕ → List ℕ
place xs i [] = i ∷ []
place xs i (j ∷ sorted) =
    let later = place xs i sorted in
    if leb (value_of xs i) (value_of xs j) then i ∷ j ∷ sorted else j ∷ later

abbrev sort_indices : List ℕ → List ℕ → List ℕ
sort_indices xs [] = []
sort_indices xs (i ∷ indices) = place xs i (sort_indices xs indices)

abbrev argsort : List ℕ → List ℕ
argsort xs = sort_indices xs (range 0 (length xs))

place-Below :
    (n : ℕ) (xs : List ℕ) (i : ℕ) (sorted : List ℕ)
    → i < n
    → Below n sorted
    → Below n (place xs i sorted)
place-Below n xs i [] l h = (l, tt)
place-Below n xs i (j ∷ sorted) l h = ground (arith, l, h, place-Below n xs i sorted l h.1)

sort_indices-Below :
    (n : ℕ) (xs indices : List ℕ) → Below n indices → Below n (sort_indices xs indices)
sort_indices-Below n xs [] h = tt
sort_indices-Below n xs (i ∷ indices) h =
    place-Below n xs i (sort_indices xs indices) h.0 (sort_indices-Below n xs indices h.1)

argsort-Below : (xs : List ℕ) → Below (length xs) (argsort xs)
argsort-Below xs =
    sort_indices-Below (length xs) xs (range 0 (length xs))
      (all_from _ 0 (length xs) (λ i l m. omega (arith, m)))

abbrev is_finite : ℕ → Bool
is_finite score = ltb score 1000

abbrev half : ℕ → ℕ
half n = n / 2

abbrev spec_of : ℕ → CacheSpec
spec_of layer = record {
  layer_index = layer;
  block_size = 16;
  num_kv_heads = 2;
  head_size = 128;
  head_size_v = 128;
  dtype = "torch.bfloat16";
}

abbrev two_layers : List (String × CacheSpec)
two_layers = ("a", spec_of 0) ∷ ("b", spec_of 1) ∷ []

abbrev scores : Array ℕ
scores = record { shape = 2 ∷ 4 ∷ []; values = 5 ∷ 1 ∷ 9 ∷ 2 ∷ 4 ∷ 0 ∷ 6 ∷ 7 ∷ [] }

abbrev load : String → Array ℕ
load path = record { shape = 8 ∷ []; values = scores.values }

abbrev selected : HeadSelection
selected = record {
  low_counts = (0, 1) ∷ (1, 0) ∷ [];
  local_orders = (0, 1 ∷ 0 ∷ []) ∷ (1, 0 ∷ 1 ∷ []) ∷ [];
}

second_rank :
    build_head_selection is_finite argsort half load by_head none 1 2 (some scores) two_layers
    ≡ ok selected
unfolding build_head_selection loaded select_heads all_finite candidate_offsets mark_lowest gather
    mark set_true range select_layers start_of local_mask record_layer low_heads high_heads put
second_rank = refl

flat_scores :
    build_head_selection is_finite argsort half load by_head (some "scores.npy") 1 2 none two_layers
    ≡ raise value_error
unfolding build_head_selection loaded select_heads
flat_scores = refl

no_scores :
    build_head_selection is_finite argsort half load by_head none 1 2 none two_layers
    ≡ raise assertion_error
unfolding build_head_selection loaded
no_scores = refl

split_by_layer :
    build_head_selection is_finite argsort half load by_layer none 1 2 none two_layers
    ≡ ok (record {
      low_counts = (0, 0) ∷ (1, 0) ∷ [];
      local_orders = (0, 0 ∷ 1 ∷ []) ∷ (1, 0 ∷ 1 ∷ []) ∷ [];
    })
unfolding build_head_selection whole_layers put range
split_by_layer = refl

-- Two heads of the scores are shared by four ranks; three do not go into four.
shared_head : start_of 2 1 3 4 ≡ ok 1
unfolding start_of
shared_head = refl

odd_share : start_of 3 1 3 4 ≡ raise value_error
unfolding start_of
odd_share = refl

no_row :
    build_head_selection is_finite argsort half load by_head none 1 2
      (some scores)
      (("c", spec_of 2) ∷ [])
    ≡ raise value_error
unfolding build_head_selection loaded select_heads all_finite candidate_offsets
no_row = refl

build-Holds_example : All (Holds selected) two_layers
build-Holds_example =
    build-Holds is_finite argsort half (λ layer. 2) 1 2 (omega arith) load by_head none
      (some scores) two_layers selected (refl, (refl, tt)) second_rank

given_scores : loaded is_finite argsort half load (some scores) none ≡ ok scores
unfolding loaded
given_scores = refl

finite_scores : all_finite is_finite scores.values ≡ true
unfolding all_finite
finite_scores = refl

build_head_selection_total_example :
    (selection : HeadSelection) × (build_head_selection is_finite argsort half load by_head none 1 2
        (some scores)
        two_layers
      ≡ ok selection)
build_head_selection_total_example =
    build_head_selection_total is_finite argsort half argsort-Below load none 1 2 (some scores)
      two_layers scores 2 4 given_scores refl refl finite_scores (omega arith, (omega arith, tt))
      (inr (inl refl), (inr (inl refl), tt))

abbrev load_scores : String → Array ℕ
load_scores path = scores

abbrev settings : Config
settings = record {
  pipeline = transformer ∷ quantizer ∷ codec ∷ [];
  split_type = by_head;
  axis_key = channel;
  axis_value = token;
  low_key_num_levels = 6;
  high_key_num_levels = 12;
  low_value_num_levels = 4;
  high_value_num_levels = 8;
  logical_blocks_per_chunk = 1;
}

abbrev no_quantizer : Config
no_quantizer = record settings { pipeline = aggregate ∷ [] }

without_quantizer : (planning_config no_quantizer).split_type ≡ by_layer
unfolding planning_config in_pipeline
without_quantizer = refl

counted_layers : layer_count 0 ((2, 1) ∷ (7, 0) ∷ (3, 1) ∷ []) ≡ 8
unfolding layer_count layers_behind
counted_layers = refl

given_layers : layer_count 32 ((2, 1) ∷ []) ≡ 32
unfolding layer_count
given_layers = refl

no_path :
    plan is_finite argsort half load_scores (λ n. 0) (λ dtype. 2) settings none 1 2 0 two_layers
    ≡ selection_failed assertion_error
unfolding plan planned_selection planning_config in_pipeline build_head_selection loaded
no_path = refl

planned_heads :
    planned_selection is_finite argsort half load_scores
      (λ n. 0)
      (λ dtype. 2)
      settings
      (some "scores.npy")
      1
      2
      0
      two_layers
    ≡ ok selected
unfolding planned_selection planning_config in_pipeline build_head_selection loaded select_heads
    all_finite candidate_offsets mark_lowest gather mark set_true range select_layers start_of
    local_mask record_layer low_heads high_heads put
planned_heads = refl

plan_total_example :
    (layout : Layout) × (plan is_finite argsort half load_scores
        (λ n. 0)
        (λ dtype. 2)
        settings
        (some "scores.npy")
        1
        2
        0
        two_layers
      ≡ planned selected layout)
    × All Partitioned (Layout.layer_parts layout)
unfolding not_power_of_two?
plan_total_example =
    plan_total is_finite argsort half load_scores (λ n. 0) (λ dtype. 2) settings (some "scores.npy")
      1 2 0 (λ layer. 2) two_layers selected 16 (omega arith) refl (λ e. absurd (cc))
      (refl, (refl, tt)) (refl, (refl, tt))
      ((inr (refl, refl), refl), ((inr (refl, refl), refl), tt)) planned_heads
