-- ===== src/Scores/Planning.antt =====
-- build_memory_plan of kvserve_v1/compression/runtime/memory.py, the part that selects the heads and lays them out.
-- A score path is none where it is None or empty.
use kvserve.Common.{
  ℕ, suc, ◌<◌, ◌≡◌, ◌≢◌, refl, inr, ◌⊎◌, Bool, false, max, Option, none, some, List, [], ◌∷◌,
  String, All, if◌then◌else◌, ◌==◌,
}
use kvserve.Layout.Data.{SplitType, by_layer, quantizer, Config, CacheSpec, Layout, Inputs, Result}
use kvserve.Layout.Section.{in_pipeline}
use kvserve.Layout.Build.{uses_transformer, not_power_of_two?, build_compression_layout}
use kvserve.Layout.Heads.{IsSplit, Partitioned, build-Partitioned}
use kvserve.Layout.Totality.{Supported, build_total}
use kvserve.Scores.{Error, Outcome, Array, HeadSelection, build_head_selection}
use kvserve.Scores.Orders.{Agrees, Holds}
use kvserve.Scores.Selection.{build-Holds}

pub data Planned : Type 0 where
  planned : HeadSelection → Layout → Planned
  selection_failed : Error → Planned
  layout_failed : kvserve.Layout.Data.Error → Planned

unfoldable pub planning_config : Config → Config
planning_config config =
    if in_pipeline quantizer config.pipeline
    then config
    else record config { split_type = by_layer }

-- max(low_counts, default=-1) + 1
unfoldable pub layers_behind : List (ℕ × ℕ) → ℕ
layers_behind [] = 0
layers_behind ((layer, low) ∷ rest) = max (suc layer) (layers_behind rest)

unfoldable pub layer_count : ℕ → List (ℕ × ℕ) → ℕ
layer_count num_layers low_counts = if num_layers == 0 then layers_behind low_counts else num_layers

abbrev pub layout_inputs : Config → ℕ → HeadSelection → Inputs
layout_inputs config num_layers selection = record {
  config = planning_config config;
  low_head_counts = selection.low_counts;
  num_model_layers = layer_count num_layers selection.low_counts;
  group_indices = [];
}

abbrev pub with_layout : HeadSelection → Result Layout → Planned
with_layout selection (kvserve.Layout.Data.err why) = layout_failed why
with_layout selection (kvserve.Layout.Data.ok layout) = planned selection layout

abbrev pub and_layout : (HeadSelection → Result Layout) → Outcome HeadSelection → Planned
and_layout lay_out (kvserve.Scores.raise why) = selection_failed why
and_layout lay_out (kvserve.Scores.ok selection) = with_layout selection (lay_out selection)

abbrev pub loaded_scores {ℓ} : {A : Type ℓ} → (String → A) → Option String → Option A
loaded_scores load_scores none = none
loaded_scores load_scores (some path) = some (load_scores path)

module _ {Score : Type 0} (is_finite : Score → Bool) (argsort : List Score → List ℕ)
    (round_ratio : ℕ → ℕ) (load_scores : String → Array Score) (low_layers : ℕ → ℕ)
    (itemsize : String → ℕ) (config : Config) (path : Option String)
    (tp_rank tp_size num_layers : ℕ) where
  unfoldable pub planned_selection : List (String × CacheSpec) → Outcome HeadSelection
  planned_selection specs =
      build_head_selection is_finite argsort round_ratio load_scores
        (planning_config config).split_type path tp_rank tp_size (loaded_scores load_scores path)
        specs

  unfoldable pub plan : List (String × CacheSpec) → Planned
  unfolding planned_selection
  plan specs =
      and_layout
        (λ selection.
          build_compression_layout low_layers itemsize (layout_inputs config num_layers selection)
            specs)
        (planned_selection specs)

  -- The elements are bfloat16, and where the transformer is used no head size fails the test for powers of two.
  abbrev pub Encodable : String × CacheSpec → Type 0
  Encodable (name, spec) =
      ((uses_transformer (planning_config config) ≡ false)
        ⊎ ((not_power_of_two? spec.head_size ≡ false)
            × (not_power_of_two? spec.head_size_v ≡ false)))
      × (spec.dtype ≡ "torch.bfloat16")

  split :
      (selection : HeadSelection) (specs : List (String × CacheSpec))
      → All (Holds selection) specs
      → All (IsSplit (layout_inputs config num_layers selection)) specs
  split selection [] h = tt
  split selection ((name, spec) ∷ rest) ((low, order, found, looked, is), later) =
      (inr (low, found, is.0), split selection rest later)

  supported :
      (selection : HeadSelection) (specs : List (String × CacheSpec))
      → All Encodable specs
      → All (Holds selection) specs
      → All (Supported low_layers itemsize (layout_inputs config num_layers selection)) specs
  supported selection [] e h = tt
  supported selection ((name, spec) ∷ rest) e ((low, order, found, looked, is), later) =
      ((e.0.0, e.0.1, inr (low, found)), supported selection rest e.1 later)

  -- Where the heads were selected, for one layer or more of a common block size that can be encoded, with
  -- a number of heads for each layer and tp_rank below tp_size, the layout is built too: the selection
  -- has a low count for every layer, and one that leaves no negative number of high heads, so that the
  -- sections of each layer part hold every head once.
  pub plan_total :
      (heads : ℕ → ℕ) (specs : List (String × CacheSpec)) (selection : HeadSelection) (size : ℕ)
      → tp_rank < tp_size
      → itemsize "torch.bfloat16" ≡ 2
      → specs ≢ []
      → All (Agrees heads) specs
      → All (λ (x : String × CacheSpec). CacheSpec.block_size x.1 ≡ size) specs
      → All Encodable specs
      → planned_selection specs ≡ kvserve.Scores.ok selection
      → (layout : Layout) × (plan specs ≡ planned selection layout)
        × All Partitioned (Layout.layer_parts layout)
  unfolding plan planned_selection
  plan_total heads specs selection size rank two some_spec agrees sizes encodable is =
      let holds =
        build-Holds is_finite argsort round_ratio heads tp_rank tp_size rank load_scores
          (planning_config config).split_type path (loaded_scores load_scores path) specs selection
          agrees is in
      let (layout, built) =
        build_total low_layers itemsize (layout_inputs config num_layers selection) specs size two
          some_spec sizes (supported selection specs encodable holds) in
      (
        layout,
        rw (is, built) refl,
        build-Partitioned low_layers itemsize (layout_inputs config num_layers selection) specs
            layout (split selection specs holds) built,
      )
