-- ===== src/Layout/Data.antt =====
-- The records of layout.py, what CompressionConfig and CacheSpec hold of its inputs, and the errors.
-- Sizes are natural numbers, but a number of heads and what is computed from it are integers: with more
-- low heads than heads the source goes on with a negative number of high heads.
use kvserve.Common.{ℕ, Bool, List, String}
use kvserve.Tokens.{ℤ}

pub data QuantAxis : Type 0 where
  channel token tensor : QuantAxis

pub data SplitType : Type 0 where
  by_head by_layer : SplitType

pub data Stage : Type 0 where
  transformer quantizer codec aggregate : Stage

-- What CompressionConfig holds of the layout's inputs.
pub record Config : Type 0 where
  pub pipeline : List Stage
  pub split_type : SplitType
  pub axis_key : QuantAxis
  pub axis_value : QuantAxis
  pub low_key_num_levels : ℕ
  pub high_key_num_levels : ℕ
  pub low_value_num_levels : ℕ
  pub high_value_num_levels : ℕ
  pub logical_blocks_per_chunk : ℕ

pub record CacheSpec : Type 0 where
  pub layer_index : ℕ
  pub block_size : ℕ
  pub num_kv_heads : ℕ
  pub head_size : ℕ
  pub head_size_v : ℕ
  pub dtype : String

pub record QuantSection : Type 0 where
  pub head_start : ℤ
  pub head_count : ℤ
  pub num_levels : ℕ
  pub axis : QuantAxis
  pub aux_min_offset : ℤ
  pub aux_scale_offset : ℤ

pub record LayerPart : Type 0 where
  pub layer_name : String
  pub layer_index : ℕ
  pub kv_part : ℕ
  pub group_index : ℕ
  pub block_size : ℕ
  pub num_heads : ℕ
  pub head_size : ℕ
  pub dtype : String
  pub raw_offset : ℕ
  pub raw_bytes : ℕ
  pub u8_offset : ℕ
  pub sections : List QuantSection

pub record Layout : Type 0 where
  pub layer_parts : List LayerPart
  pub raw_bytes_by_part : ℕ × ℕ
  pub u8_bytes_by_part : ℕ × ℕ
  pub packed_bytes_by_part : ℕ × ℕ
  pub aux_bytes_by_part : ℤ × ℤ
  pub arena_bytes : ℕ
  pub scratch_stride : ℕ
  pub u8_base : ℕ
  pub aux_arena_bytes : ℤ
  pub fa_groups : List ℕ
  pub aggregates : Bool

pub data Error : Type 0 where
  no_caches mixed_block_sizes not_power_of_two not_bf16 missing_low_count : Error

-- A value, or the error that the source raises in its place.
pub data Result {κ} (B : Type κ) : Type κ where
  err : (why : Error) → Result B
  ok : (value : B) → Result B

infixl 5 ◌>>=◌
abbrev pub ◌>>=◌ {κ ℓ} : {B : Type κ} {C : Type ℓ} → Result B → (B → Result C) → Result C
err why >>= next = err why
ok value >>= next = next value

-- What build_compression_layout is called with, besides the specs.
pub record Inputs : Type 0 where
  pub config : Config
  pub low_head_counts : List (ℕ × ℕ)
  pub num_model_layers : ℕ
  pub group_indices : List (String × ℕ)

-- What the loop over (key, value) fixes for one KV part of a layer.
pub record Side : Type 0 where
  pub kv_part : ℕ
  pub head_size : ℕ
  pub axis : QuantAxis
  pub low_levels : ℕ
  pub high_levels : ℕ

-- The running offsets of one KV part.
pub record Offsets : Type 0 where
  pub raw : ℕ
  pub u8 : ℕ
  pub aux : ℤ

pub record Built : Type 0 where
  pub layer_parts : List LayerPart
  pub key_offsets : Offsets
  pub value_offsets : Offsets
