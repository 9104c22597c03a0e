-- ===== src/Layout/Totality.antt =====
-- When build_compression_layout returns a layout: its checks, the split of the heads and its loop.
use kvserve.Common.{
  ℕ, ◌≡◌, ◌≢◌, refl, sym, subst, Bool, true, false, some, List, [], ◌∷◌, All, String, str_eq_iff,
  if◌then◌else◌, str_eq_refl, arith, ◌⊎◌, inl, inr,
}
use kvserve.Layout.Data.{
  SplitType, by_head, by_layer, Config, CacheSpec, Layout, ok, Inputs, Offsets, Built,
}
use kvserve.Layout.Section.{split_counts, head_counts, find_count, layer_part, key_side, value_side}
use kvserve.Tokens.{ℤ, pos, difference}
use kvserve.Layout.Build.{
  uses_transformer, not_power_of_two?, all_block_size, insert_spec, sort_specs, zero_offsets,
  with_layer, layers, check_layer, check_layers, finish, build_from, lay_out,
  build_compression_layout,
}

module _ (P : String × CacheSpec → Type 0) where
  All-insert_spec :
      (x : String × CacheSpec) (ys : List (String × CacheSpec))
      → P x
      → All P ys
      → All P (insert_spec x ys)
  unfolding insert_spec
  All-insert_spec x [] hx hs = (hx, tt)
  All-insert_spec x (y ∷ ys) hx hs = ground (arith, All-insert_spec x ys)

  pub All-sort_specs : (xs : List (String × CacheSpec)) → All P xs → All P (sort_specs xs)
  unfolding sort_specs
  All-sort_specs [] hs = tt
  All-sort_specs (x ∷ xs) hs = All-insert_spec x (sort_specs xs) hs.0 (All-sort_specs xs hs.1)

insert_spec_nonempty :
    (x : String × CacheSpec) (ys : List (String × CacheSpec)) → insert_spec x ys ≢ []
unfolding insert_spec
insert_spec_nonempty x [] h = absurd (cc)
insert_spec_nonempty x (y ∷ ys) h = ground arith

sort_specs_nonempty : (specs : List (String × CacheSpec)) → specs ≢ [] → sort_specs specs ≢ []
unfolding sort_specs
sort_specs_nonempty [] h = h
sort_specs_nonempty (x ∷ xs) h = insert_spec_nonempty x (sort_specs xs)

if_total {ℓ} : {A : Type ℓ} (b : Bool) (x y : A) → (a : A) × ((if b then ok x else ok y) ≡ ok a)
if_total true x y = (x, refl)
if_total false x y = (y, refl)

split_counts_ok :
    (low_layers : ℕ → ℕ) (type : SplitType) (index heads : ℕ) (low_counts : List (ℕ × ℕ))
    (model_layers : ℕ)
    → (type ≡ by_layer) ⊎ ((low : ℕ) × (find_count index low_counts ≡ some low))
    → (counts : ℤ × ℤ) × (split_counts low_layers type index heads low_counts model_layers
        ≡ ok counts)
unfolding split_counts head_counts
split_counts_ok low_layers by_layer index heads low_counts model_layers h = if_total _ _ _
split_counts_ok low_layers by_head index heads low_counts model_layers (inl wrong) = absurd (cc)
split_counts_ok low_layers by_head index heads low_counts model_layers (inr (low, found)) =
    ((pos low, difference heads low), rw found refl)

module _ (low_layers : ℕ → ℕ) (itemsize : String → ℕ) (inputs : Inputs) where
  -- The layer passes the checks and its heads can be split: where the pipeline uses its transformer, no
  -- head size fails the test for powers of two, the elements are bfloat16, and there is a low head
  -- count for the layer, unless the split is by layer.
  abbrev pub Supported : String × CacheSpec → Type 0
  Supported (name, spec) =
      ((uses_transformer (Inputs.config inputs) ≡ false)
        ⊎ ((not_power_of_two? (CacheSpec.head_size spec) ≡ false)
            × (not_power_of_two? (CacheSpec.head_size_v spec) ≡ false)))
      × (CacheSpec.dtype spec ≡ "torch.bfloat16")
      × ((Config.split_type (Inputs.config inputs) ≡ by_layer)
          ⊎ ((low : ℕ) × (find_count (CacheSpec.layer_index spec) (Inputs.low_head_counts inputs)
                ≡ some low)))

  check_layer_ok :
      (name : String) (spec : CacheSpec)
      → itemsize "torch.bfloat16" ≡ 2
      → Supported (name, spec)
      → check_layer low_layers itemsize inputs spec ≡ ok tt
  unfolding check_layer
  check_layer_ok name spec two (sizes, dtype, low) =
      ground
        (arith, str_eq_iff (CacheSpec.dtype spec) "torch.bfloat16", str_eq_refl "torch.bfloat16")

  check_layers_ok :
      (specs : List (String × CacheSpec))
      → itemsize "torch.bfloat16" ≡ 2
      → All Supported specs
      → check_layers low_layers itemsize inputs specs ≡ ok tt
  unfolding check_layers
  check_layers_ok [] two hs = refl
  check_layers_ok ((name, spec) ∷ rest) two hs =
      rw (check_layer_ok name spec two hs.0) (check_layers_ok rest two hs.1)

  layers_ok :
      (specs : List (String × CacheSpec)) (keys values : Offsets)
      → All Supported specs
      → (b : Built) × (layers low_layers itemsize inputs specs keys values ≡ ok b)
  unfolding layers
  layers_ok [] keys values hs = (_, refl)
  layers_ok ((name, spec) ∷ rest) keys values hs =
      let (counts, counted) =
        split_counts_ok low_layers (Config.split_type (Inputs.config inputs))
          (CacheSpec.layer_index spec) (CacheSpec.num_kv_heads spec) (Inputs.low_head_counts inputs)
          (Inputs.num_model_layers inputs) hs.0.2 in
      let (later, looped) =
        layers_ok rest
          (layer_part inputs name spec counts (key_side (Inputs.config inputs) spec) keys).1
          (layer_part inputs name spec counts (value_side (Inputs.config inputs) spec) values).1
          hs.1 in
      (
        with_layer
            (layer_part inputs name spec counts (key_side (Inputs.config inputs) spec) keys).0
            (layer_part inputs name spec counts (value_side (Inputs.config inputs) spec) values).0
            later,
        rw (counted, looped) refl,
      )

  all_block_size-true :
      (size : ℕ) (specs : List (String × CacheSpec))
      → All (λ (x : String × CacheSpec). CacheSpec.block_size x.1 ≡ size) specs
      → all_block_size size specs ≡ true
  unfolding all_block_size
  all_block_size-true size [] hs = refl
  all_block_size-true size ((name, spec) ∷ rest) hs =
      rw (all_block_size-true size rest hs.1) (ground arith)

  build_from_total :
      (specs : List (String × CacheSpec)) (size : ℕ)
      → itemsize "torch.bfloat16" ≡ 2
      → specs ≢ []
      → All (λ (x : String × CacheSpec). CacheSpec.block_size x.1 ≡ size) specs
      → All Supported specs
      → (layout : Layout) × (build_from low_layers itemsize inputs specs ≡ ok layout)
  unfolding build_from lay_out
  build_from_total [] size two some_spec sizes supported = absurd (some_spec refl)
  build_from_total ((name, spec) ∷ rest) size two some_spec sizes supported =
      let (b, looped) = layers_ok ((name, spec) ∷ rest) zero_offsets zero_offsets supported in
      let passed = check_layers_ok ((name, spec) ∷ rest) two supported in
      let same = all_block_size-true (CacheSpec.block_size spec) ((name, spec) ∷ rest) (
        subst
          (λ n.
            All (λ (x : String × CacheSpec). CacheSpec.block_size x.1 ≡ n) ((name, spec) ∷ rest))
          (sym sizes.0) sizes) in
      (
        finish low_layers itemsize inputs (Config.logical_blocks_per_chunk (Inputs.config inputs))
            ((name, spec) ∷ rest) b,
        rw (same, passed, looped) refl,
      )

  -- With bfloat16 elements of two bytes, build_compression_layout returns a layout for every map of one
  -- layer or more that have a common block size and are supported, in whatever order they come.
  pub build_total :
      (specs : List (String × CacheSpec)) (size : ℕ)
      → itemsize "torch.bfloat16" ≡ 2
      → specs ≢ []
      → All (λ (x : String × CacheSpec). CacheSpec.block_size x.1 ≡ size) specs
      → All Supported specs
      → (layout : Layout) × (build_compression_layout low_layers itemsize inputs specs ≡ ok layout)
  unfolding build_compression_layout
  build_total specs size two some_spec sizes supported =
      build_from_total (sort_specs specs) size two (sort_specs_nonempty specs some_spec)
        (All-sort_specs _ specs sizes) (All-sort_specs _ specs supported)
