-- ===== src/Layout/Tests.antt =====
-- The layout of two layers with four heads, a chunk of two blocks of four tokens.
use kvserve.Common.{
  some, ℕ, zero, suc, arith, ◌*◌, ◌≤◌, ◌≡◌, ◌⊎◌, inr, refl, true, false, not, ◌&&◌, List, [], ◌∷◌,
  String, All,
}
use kvserve.Layout.Data.{
  channel, token, by_head, transformer, quantizer, codec, Config, CacheSpec, Layout,
  not_power_of_two, not_bf16, missing_low_count, ok, err, Inputs,
}
use kvserve.Layout.Section.{
  in_pipeline, find_count, find_group, head_counts, split_counts, sections_of, key_side, value_side,
  aux_nbytes, layer_part,
}
use kvserve.Layout.Tail.{parts, tail_bytes, raw_tail_bytes, any_full_block, has_body}
use kvserve.Layout.Build.{
  uses_transformer, not_power_of_two?, all_block_size, insert_spec, sort_specs, chunk_bytes,
  max_chunk_bytes, add_group, groups_of, with_layer, layers, check_layer, check_layers,
  packed_sizes, arena_size, finish, lay_out, build_compression_layout,
}
use kvserve.Layout.Totality.{Supported, build_total}
use kvserve.Layout.Soundness.{build-Supported}
use kvserve.Layout.Heads.{Partitioned, IsSplit, build-Partitioned}
use kvserve.Layout.Streams.{Streamed, Consecutive, Gathered, build-Consecutive}
use kvserve.Layout.Auxiliary.{Spaced, build-Spaced}
use kvserve.Workspace.{round_up}
use kvserve.Tokens.{pos, negsuc, difference}
use kvserve.Layout.Integers.{negate, plus, product, maximum, round_up_int, prod_int}

abbrev item_sizes : String → ℕ
item_sizes dtype = 2

abbrev no_low_layers : ℕ → ℕ
no_low_layers n = 0

abbrev two_groups : Inputs
two_groups = record {
  config = record {
    pipeline = transformer ∷ quantizer ∷ codec ∷ [];
    split_type = by_head;
    axis_key = channel;
    axis_value = token;
    low_key_num_levels = 4;
    high_key_num_levels = 16;
    low_value_num_levels = 4;
    high_value_num_levels = 8;
    logical_blocks_per_chunk = 2;
  };
  low_head_counts = (0, 1) ∷ (1, 4) ∷ [];
  num_model_layers = 2;
  group_indices = ("layers.1", 1) ∷ [];
}

abbrev layer_spec : ℕ → CacheSpec
layer_spec index = record {
  layer_index = index;
  block_size = 4;
  num_kv_heads = 4;
  head_size = 8;
  head_size_v = 8;
  dtype = "torch.bfloat16";
}

abbrev two_layers : List (String × CacheSpec)
two_layers = ("layers.1", layer_spec 1) ∷ ("layers.0", layer_spec 0) ∷ []

abbrev two_layers_layout : Layout
two_layers_layout = record {
  layer_parts =
      record {
        layer_name = "layers.0";
        layer_index = 0;
        kv_part = 0;
        group_index = 0;
        block_size = 4;
        num_heads = 4;
        head_size = 8;
        dtype = "torch.bfloat16";
        raw_offset = 0;
        raw_bytes = 512;
        u8_offset = 0;
        sections =
            record {
              head_start = pos 0;
              head_count = pos 1;
              num_levels = 4;
              axis = channel;
              aux_min_offset = pos 0;
              aux_scale_offset = pos 256;
            }
            ∷ record {
              head_start = pos 1;
              head_count = pos 3;
              num_levels = 16;
              axis = channel;
              aux_min_offset = pos 512;
              aux_scale_offset = pos 768;
            }
            ∷ [];
      }
      ∷ record {
        layer_name = "layers.0";
        layer_index = 0;
        kv_part = 1;
        group_index = 0;
        block_size = 4;
        num_heads = 4;
        head_size = 8;
        dtype = "torch.bfloat16";
        raw_offset = 0;
        raw_bytes = 512;
        u8_offset = 0;
        sections =
            record {
              head_start = pos 0;
              head_count = pos 1;
              num_levels = 4;
              axis = token;
              aux_min_offset = pos 0;
              aux_scale_offset = pos 256;
            }
            ∷ record {
              head_start = pos 1;
              head_count = pos 3;
              num_levels = 8;
              axis = token;
              aux_min_offset = pos 512;
              aux_scale_offset = pos 768;
            }
            ∷ [];
      }
      ∷ record {
        layer_name = "layers.1";
        layer_index = 1;
        kv_part = 0;
        group_index = 1;
        block_size = 4;
        num_heads = 4;
        head_size = 8;
        dtype = "torch.bfloat16";
        raw_offset = 0;
        raw_bytes = 512;
        u8_offset = 256;
        sections =
            record {
              head_start = pos 0;
              head_count = pos 4;
              num_levels = 4;
              axis = channel;
              aux_min_offset = pos 1024;
              aux_scale_offset = pos 1280;
            }
            ∷ [];
      }
      ∷ record {
        layer_name = "layers.1";
        layer_index = 1;
        kv_part = 1;
        group_index = 1;
        block_size = 4;
        num_heads = 4;
        head_size = 8;
        dtype = "torch.bfloat16";
        raw_offset = 0;
        raw_bytes = 512;
        u8_offset = 256;
        sections =
            record {
              head_start = pos 0;
              head_count = pos 4;
              num_levels = 4;
              axis = token;
              aux_min_offset = pos 1024;
              aux_scale_offset = pos 1280;
            }
            ∷ [];
      }
      ∷ [];
  raw_bytes_by_part = (1024, 1024);
  u8_bytes_by_part = (512, 512);
  packed_bytes_by_part = (512, 512);
  aux_bytes_by_part = (pos 1536, pos 1536);
  arena_bytes = 1536;
  scratch_stride = 512;
  u8_base = 1024;
  aux_arena_bytes = pos 3072;
  fa_groups = 0 ∷ 1 ∷ [];
  aggregates = false;
}

two_layers_built :
    build_compression_layout no_low_layers item_sizes two_groups two_layers ≡ ok two_layers_layout
unfolding build_compression_layout sort_specs insert_spec all_block_size lay_out check_layers
    check_layer in_pipeline not_power_of_two? layers split_counts finish with_layer packed_sizes
    round_up arena_size groups_of layer_part max_chunk_bytes add_group key_side find_group
    difference sections_of plus product maximum round_up_int prod_int value_side chunk_bytes
    aux_nbytes uses_transformer
two_layers_built = refl

-- Every layer of another dtype is refused, and a missing low head count.
float16_refused :
    build_compression_layout no_low_layers item_sizes two_groups (
      (
        "layers.0",
        record {
          layer_index = 0;
          block_size = 4;
          num_kv_heads = 4;
          head_size = 8;
          head_size_v = 8;
          dtype = "torch.float16";
        },
      )
      ∷ [])
    ≡ err not_bf16
unfolding build_compression_layout sort_specs insert_spec all_block_size lay_out check_layers
    check_layer in_pipeline not_power_of_two? uses_transformer
float16_refused = refl

missing_refused :
    build_compression_layout no_low_layers item_sizes two_groups (("layers.2", layer_spec 2) ∷ [])
    ≡ err missing_low_count
unfolding build_compression_layout sort_specs insert_spec all_block_size lay_out check_layers
    check_layer in_pipeline not_power_of_two? layers split_counts uses_transformer
missing_refused = refl

uneven_refused :
    build_compression_layout no_low_layers item_sizes two_groups (
      (
        "layers.0",
        record {
          layer_index = 0;
          block_size = 4;
          num_kv_heads = 4;
          head_size = 12;
          head_size_v = 8;
          dtype = "torch.bfloat16";
        },
      )
      ∷ [])
    ≡ err not_power_of_two
unfolding build_compression_layout sort_specs insert_spec all_block_size lay_out check_layers
    check_layer in_pipeline not_power_of_two? uses_transformer
uneven_refused = refl

-- Seven tokens of group 0 leave three behind the full block, nine of group 1 leave one.
abbrev token_counts : ℕ → ℕ
token_counts zero = 7
token_counts (suc group) = 9

tail_of_keys : raw_tail_bytes two_layers_layout 0 token_counts ≡ 256
unfolding raw_tail_bytes tail_bytes parts
tail_of_keys = refl

body_of_keys : has_body two_layers_layout token_counts ≡ true
unfolding has_body any_full_block parts
body_of_keys = refl

build_total_example :
    (layout : Layout) × (build_compression_layout no_low_layers item_sizes two_groups two_layers
      ≡ ok layout)
unfolding not_power_of_two? find_count
build_total_example =
    build_total no_low_layers item_sizes two_groups two_layers 4 refl (λ e. absurd (cc))
      (refl, (refl, tt))
      ((inr (refl, refl), refl, inr (4, refl)), ((inr (refl, refl), refl, inr (1, refl)), tt))

two_layers-IsSplit : All (IsSplit two_groups) two_layers
unfolding find_count
two_layers-IsSplit = (inr (4, refl, omega arith), (inr (1, refl, omega arith), tt))

-- More low heads than heads: the high heads are one below none, and the parameters of both parts end below 0.
negative_heads : head_counts 4 (some 5) ≡ ok (pos 5, negsuc 0)
unfolding head_counts difference
negative_heads = refl

-- The parameters of a section of -1 heads have a negative size, and end below where they begin.
negative_section :
    (sections_of (λ n. product n (pos 300)) channel (pos 5) (pos 0) ((negsuc 0, 16) ∷ [])).1
    ≡ negsuc 555
unfolding sections_of plus product negate round_up_int round_up difference
negative_section = refl

-- Without a quantizer the stream holds the raw bytes.
raw_stream : packed_sizes false (512, 256) (1024, 512) ≡ (1024, 512)
unfolding packed_sizes
raw_stream = refl

larger_auxiliary : maximum (negsuc 4) (negsuc 2) ≡ negsuc 2
unfolding maximum
larger_auxiliary = refl

build-Partitioned_example : All Partitioned (Layout.layer_parts two_layers_layout)
build-Partitioned_example =
    build-Partitioned no_low_layers item_sizes two_groups two_layers two_layers_layout
      two_layers-IsSplit two_layers_built

build-Consecutive_example :
    Consecutive 2 0 (parts 0 (Layout.layer_parts two_layers_layout)) 512
    × Consecutive 2 0 (parts 1 (Layout.layer_parts two_layers_layout)) 512
    × All (Gathered 2 512) (Layout.layer_parts two_layers_layout)
    × (2 * 512 ≤ 1024)
    × Streamed
        (in_pipeline quantizer (Config.pipeline (Inputs.config two_groups)) && not false)
        two_layers_layout
build-Consecutive_example =
    build-Consecutive no_low_layers item_sizes two_groups two_layers two_layers_layout
      two_layers_built refl

build-Spaced_example :
    (k v : ℕ) × (Layout.aux_bytes_by_part two_layers_layout ≡ (pos k, pos v))
    × Spaced 2 0 (parts 0 (Layout.layer_parts two_layers_layout)) k
    × Spaced 2 0 (parts 1 (Layout.layer_parts two_layers_layout)) v
    × (((in_pipeline quantizer (Config.pipeline (Inputs.config two_groups)) && not false) ≡ false)
        ⊎ ((size : ℕ) × (Layout.aux_arena_bytes two_layers_layout ≡ pos size)
            × (2 * k ≤ size)
            × (2 * v ≤ size)))
build-Spaced_example =
    build-Spaced no_low_layers item_sizes two_groups two_layers two_layers_layout two_layers-IsSplit
      two_layers_built

build-Supported_example : All (Supported no_low_layers item_sizes two_groups) two_layers
build-Supported_example =
    build-Supported no_low_layers item_sizes two_groups two_layers two_layers_layout
      two_layers_built
