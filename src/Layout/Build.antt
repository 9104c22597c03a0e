-- ===== src/Layout/Build.antt =====
-- build_compression_layout: its checks, the loop over the layers and the sizes of the arenas.
use kvserve.Common.{
  ℕ, ◌+◌, ◌-◌, ◌*◌, Bool, true, not, ◌&&◌, ◌||◌, List, [], ◌∷◌, String, ltb, leb, ◌==◌,
  if◌then◌else◌, max, str_eq,
}
use kvserve.Layout.Data.{
  transformer, quantizer, aggregate, Config, CacheSpec, LayerPart, Layout, no_caches,
  mixed_block_sizes, not_power_of_two, not_bf16, Result, ok, err, ◌>>=◌, Inputs, Offsets, Built,
}
use kvserve.Layout.Section.{in_pipeline, split_counts, find_group, key_side, value_side, layer_part}
use Prim.Native.Nat.{bit_and}
use kvserve.Workspace.{round_up, alignment}
use kvserve.Tokens.{ℤ, pos}
use kvserve.Layout.Integers.{product, maximum, round_up_int}

-- `any(size < 1 or size & (size - 1) ...)` for one size.
unfoldable pub not_power_of_two? : ℕ → Bool
not_power_of_two? size = ltb size 1 || not (bit_and size (size - 1) == 0)

-- `{spec.block_size for ...}` has at most this one member.
unfoldable pub all_block_size : ℕ → List (String × CacheSpec) → Bool
all_block_size size [] = true
all_block_size size ((name, spec) ∷ rest) =
    (CacheSpec.block_size spec == size) && all_block_size size rest

-- `fa_specs.sort(key=...)`, which is stable.
unfoldable pub insert_spec :
    String × CacheSpec → List (String × CacheSpec) → List (String × CacheSpec)
insert_spec x [] = x ∷ []
insert_spec x (y ∷ ys) =
    let rest = insert_spec x ys in
    if leb (CacheSpec.layer_index x.1) (CacheSpec.layer_index y.1) then x ∷ y ∷ ys else y ∷ rest

unfoldable pub sort_specs : List (String × CacheSpec) → List (String × CacheSpec)
sort_specs [] = []
sort_specs (x ∷ xs) = insert_spec x (sort_specs xs)

-- The bytes of one gathered chunk of a layer, `chunk_blocks * block_size * num_kv_heads * head_size * 2`.
unfoldable pub chunk_bytes : ℕ → CacheSpec → ℕ → ℕ
chunk_bytes chunk_blocks spec head_size =
    chunk_blocks * CacheSpec.block_size spec * CacheSpec.num_kv_heads spec * head_size * 2

unfoldable pub max_chunk_bytes : ℕ → List (String × CacheSpec) → ℕ
max_chunk_bytes chunk_blocks [] = 0
max_chunk_bytes chunk_blocks ((name, spec) ∷ rest) =
    max
      (max (chunk_bytes chunk_blocks spec (CacheSpec.head_size spec))
        (chunk_bytes chunk_blocks spec (CacheSpec.head_size_v spec)))
      (max_chunk_bytes chunk_blocks rest)

-- `fa_groups.add`, kept sorted, as `sorted(fa_groups)` lists it.
unfoldable pub add_group : ℕ → List ℕ → List ℕ
add_group g [] = g ∷ []
add_group g (h ∷ hs) =
    let rest = add_group g hs in if g == h then h ∷ hs else if ltb g h then g ∷ h ∷ hs else h ∷ rest

unfoldable pub groups_of : List (String × ℕ) → List (String × CacheSpec) → List ℕ
groups_of groups [] = []
groups_of groups ((name, spec) ∷ rest) = add_group (find_group name groups) (groups_of groups rest)

-- Nothing is laid out yet.
abbrev pub zero_offsets : Offsets
zero_offsets = record { raw = 0; u8 = 0; aux = pos 0 }

-- Both KV parts of one layer in front of what the later layers have built.
unfoldable pub with_layer : LayerPart → LayerPart → Built → Built
with_layer key value built = record {
  layer_parts = key ∷ value ∷ Built.layer_parts built;
  key_offsets = Built.key_offsets built;
  value_offsets = Built.value_offsets built;
}

-- The loop has not built anything yet.
abbrev pub no_layers : Offsets → Offsets → Built
no_layers keys values = record { layer_parts = []; key_offsets = keys; value_offsets = values }

-- `packed_by_part`
unfoldable pub packed_sizes : Bool → ℕ × ℕ → ℕ × ℕ → ℕ × ℕ
packed_sizes uses_quantizer u8 raw = if uses_quantizer then u8 else raw

-- `arena_bytes`
unfoldable pub arena_size : Bool → ℕ → ℕ → ℕ × ℕ → ℕ × ℕ → ℕ
arena_size aggregates stride base raw packed =
    if aggregates
    then round_up (max raw.0 raw.1) alignment
    else round_up (max (2 * stride) (base + max packed.0 packed.1)) alignment

-- config.py, `uses_transformer`
unfoldable pub uses_transformer : Config → Bool
uses_transformer config =
    not (in_pipeline aggregate (Config.pipeline config))
    && in_pipeline transformer (Config.pipeline config)

module _ (low_layers : ℕ → ℕ) (itemsize : String → ℕ) (inputs : Inputs) where
  -- The loop over the layers.
  unfoldable pub layers : List (String × CacheSpec) → Offsets → Offsets → Result Built
  layers [] keys values = ok (no_layers keys values)
  layers ((name, spec) ∷ rest) keys values =
      split_counts low_layers (Config.split_type (Inputs.config inputs))
        (CacheSpec.layer_index spec) (CacheSpec.num_kv_heads spec) (Inputs.low_head_counts inputs)
        (Inputs.num_model_layers inputs)
      >>= λ counts.
          let (key, keys') =
            layer_part inputs name spec counts (key_side (Inputs.config inputs) spec) keys in
          let (value, values') =
            layer_part inputs name spec counts (value_side (Inputs.config inputs) spec) values in
          layers rest keys' values' >>= λ built. ok (with_layer key value built)

  -- The checks of one layer.
  unfoldable pub check_layer : CacheSpec → Result (Unit {0})
  check_layer spec =
      if uses_transformer (Inputs.config inputs)
        && (not_power_of_two? (CacheSpec.head_size spec)
            || not_power_of_two? (CacheSpec.head_size_v spec))
      then err not_power_of_two
      else if not (str_eq (CacheSpec.dtype spec) "torch.bfloat16")
          || not (itemsize (CacheSpec.dtype spec) == 2)
      then err not_bf16
      else ok tt

  unfoldable pub check_layers : List (String × CacheSpec) → Result (Unit {0})
  check_layers [] = ok tt
  check_layers ((name, spec) ∷ rest) = check_layer spec >>= λ passed. check_layers rest

  -- The sizes of the arenas, from the offsets behind the last layer.
  unfoldable pub finish : ℕ → List (String × CacheSpec) → Built → Layout
  finish chunk_blocks specs built =
      let pipeline = Config.pipeline (Inputs.config inputs) in
      let keys = Built.key_offsets built in
      let values = Built.value_offsets built in
      let stride = round_up (max_chunk_bytes chunk_blocks specs) alignment in
      let base = round_up (2 * stride) alignment in
      let aggregates = in_pipeline aggregate pipeline in
      let uses_quantizer = in_pipeline quantizer pipeline && not aggregates in
      let raw : ℕ × ℕ = (Offsets.raw keys, Offsets.raw values) in
      let u8 : ℕ × ℕ = (Offsets.u8 keys, Offsets.u8 values) in
      let packed = packed_sizes uses_quantizer u8 raw in
      let aux : ℤ × ℤ =
        (round_up_int (Offsets.aux keys) alignment, round_up_int (Offsets.aux values) alignment) in
      record {
        layer_parts = Built.layer_parts built;
        raw_bytes_by_part = raw;
        u8_bytes_by_part = u8;
        packed_bytes_by_part = packed;
        aux_bytes_by_part = aux;
        arena_bytes = arena_size aggregates stride base raw packed;
        scratch_stride = stride;
        u8_base = base;
        aux_arena_bytes =
            if aggregates || not uses_quantizer
            then pos 0
            else product (pos 2) (maximum aux.0 aux.1);
        fa_groups = groups_of (Inputs.group_indices inputs) specs;
        aggregates = aggregates;
      }

  -- What follows the check of the block sizes.
  unfoldable pub lay_out : List (String × CacheSpec) → Result Layout
  lay_out specs = check_layers specs >>= λ checked.
      layers specs zero_offsets zero_offsets >>= λ built.
      ok (finish (Config.logical_blocks_per_chunk (Inputs.config inputs)) specs built)

  unfoldable pub build_from : List (String × CacheSpec) → Result Layout
  build_from [] = err no_caches
  build_from ((name, spec) ∷ rest) =
      if all_block_size (CacheSpec.block_size spec) ((name, spec) ∷ rest)
      then lay_out ((name, spec) ∷ rest)
      else err mixed_block_sizes

  -- `build_compression_layout`
  unfoldable pub build_compression_layout : List (String × CacheSpec) → Result Layout
  unfolding build_from
  build_compression_layout specs = build_from (sort_specs specs)
