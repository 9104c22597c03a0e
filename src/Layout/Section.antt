-- ===== src/Layout/Section.antt =====
-- One KV part of one layer: the split of its heads, the sections and their quantisation parameters.
use kvserve.Common.{
  ℕ, zero, ◌+◌, ◌*◌, Bool, true, false, ◌&&◌, ◌||◌, Option, none, some, List, [], ◌∷◌, String, ltb,
  leb, ◌==◌, if◌then◌else◌, str_eq,
}
use kvserve.Layout.Data.{
  QuantAxis, channel, token, tensor, SplitType, by_head, by_layer, Stage, transformer, quantizer,
  codec, aggregate, Config, CacheSpec, QuantSection, LayerPart, missing_low_count, Result, ok, err,
  Inputs, Side, Offsets,
}
use kvserve.Workspace.{alignment}
use kvserve.Tokens.{ℤ, pos, difference}
use kvserve.Layout.Integers.{plus, product, round_up_int, prod_int}

abbrev is_stage : Stage → Stage → Bool
is_stage transformer transformer = true
is_stage quantizer quantizer = true
is_stage codec codec = true
is_stage aggregate aggregate = true
is_stage _ _ = false

-- `stage in config.pipeline`
unfoldable pub in_pipeline : Stage → List Stage → Bool
in_pipeline s [] = false
in_pipeline s (t ∷ ts) = is_stage s t || in_pipeline s ts

-- `_reduction_shape`
unfoldable pub reduction_shape : QuantAxis → ℕ → ℕ → ℤ → ℕ → List ℤ
reduction_shape channel blocks tokens heads head_size = pos 1 ∷ pos 1 ∷ heads ∷ pos head_size ∷ []
reduction_shape token blocks tokens heads head_size = pos blocks ∷ pos tokens ∷ pos 1 ∷ pos 1 ∷ []
reduction_shape tensor blocks tokens heads head_size = pos 1 ∷ pos 1 ∷ pos 1 ∷ pos 1 ∷ []

-- dict.get on an association list.
unfoldable pub find_count : ℕ → List (ℕ × ℕ) → Option ℕ
find_count i [] = none
find_count i ((j, n) ∷ rest) = if i == j then some n else find_count i rest

unfoldable pub find_group : String → List (String × ℕ) → ℕ
find_group name [] = 0
find_group name ((n, g) ∷ rest) = if str_eq n name then g else find_group name rest

unfoldable pub head_counts : ℕ → Option ℕ → Result (ℤ × ℤ)
head_counts num_heads none = err missing_low_count
head_counts num_heads (some low) = ok (pos low, difference num_heads low)

-- `_split_counts`. `low_layers` is round(num_model_layers * 0.33), computed in floats.
unfoldable pub split_counts : (ℕ → ℕ) → SplitType → ℕ → ℕ → List (ℕ × ℕ) → ℕ → Result (ℤ × ℤ)
unfolding head_counts find_count
split_counts low_layers by_head layer_index num_heads low_counts num_model_layers =
    head_counts num_heads (find_count layer_index low_counts)
split_counts low_layers by_layer layer_index num_heads low_counts num_model_layers =
    let low = low_layers num_model_layers in
    if ltb 0 low && leb num_model_layers (layer_index + low)
    then ok (pos num_heads, pos 0)
    else ok (pos 0, pos num_heads)

-- The loop over the low and the high heads: the sections, and the offset behind their parameters.
unfoldable pub sections_of : (ℤ → ℤ) → QuantAxis → ℤ → ℤ → List (ℤ × ℕ) → List QuantSection × ℤ
unfolding plus round_up_int
sections_of aux_nbytes axis head_start aux [] = ([], aux)
sections_of aux_nbytes axis head_start aux ((pos zero, levels) ∷ rest) =
    sections_of aux_nbytes axis head_start aux rest
sections_of aux_nbytes axis head_start aux ((count, levels) ∷ rest) =
    let nbytes = aux_nbytes count in
    let min_offset = round_up_int aux alignment in
    let scale_offset = round_up_int (plus min_offset nbytes) alignment in
    let (later, end) =
      sections_of aux_nbytes axis (plus head_start count) (plus scale_offset nbytes) rest in
    (
      record {
        head_start = head_start;
        head_count = count;
        num_levels = levels;
        axis = axis;
        aux_min_offset = min_offset;
        aux_scale_offset = scale_offset;
      }
          ∷ later,
      end,
    )

unfoldable pub key_side : Config → CacheSpec → Side
key_side config spec = record {
  kv_part = 0;
  head_size = CacheSpec.head_size spec;
  axis = Config.axis_key config;
  low_levels = Config.low_key_num_levels config;
  high_levels = Config.high_key_num_levels config;
}

unfoldable pub value_side : Config → CacheSpec → Side
value_side config spec = record {
  kv_part = 1;
  head_size = CacheSpec.head_size_v spec;
  axis = Config.axis_value config;
  low_levels = Config.low_value_num_levels config;
  high_levels = Config.high_value_num_levels config;
}

-- `prod(aux_shape) * 2` for a section of so many heads.
unfoldable pub aux_nbytes : Config → CacheSpec → Side → ℤ → ℤ
unfolding reduction_shape prod_int product
aux_nbytes config spec side heads =
    product
      (prod_int (
        reduction_shape (Side.axis side) (Config.logical_blocks_per_chunk config)
          (CacheSpec.block_size spec) heads (Side.head_size side)))
      (pos 2)

-- The body of the loop over the KV parts, with the offsets of that part.
unfoldable pub layer_part :
    Inputs → String → CacheSpec → ℤ × ℤ → Side → Offsets → LayerPart × Offsets
layer_part inputs name spec (low, high) side offsets =
    let config = Inputs.config inputs in
    let numel =
      Config.logical_blocks_per_chunk config
      * CacheSpec.block_size spec
      * CacheSpec.num_kv_heads spec
      * Side.head_size side in
    let (sections, aux) =
      sections_of (aux_nbytes config spec side) (Side.axis side) (pos 0) (Offsets.aux offsets)
        ((low, Side.low_levels side) ∷ (high, Side.high_levels side) ∷ []) in
    (
      record {
        layer_name = name;
        layer_index = CacheSpec.layer_index spec;
        kv_part = Side.kv_part side;
        group_index = find_group name (Inputs.group_indices inputs);
        block_size = CacheSpec.block_size spec;
        num_heads = CacheSpec.num_kv_heads spec;
        head_size = Side.head_size side;
        dtype = CacheSpec.dtype spec;
        raw_offset = 0;
        raw_bytes = numel * 2;
        u8_offset = Offsets.u8 offsets;
        sections = sections;
      },
      record { raw = Offsets.raw offsets + numel * 2; u8 = Offsets.u8 offsets + numel; aux = aux },
    )
