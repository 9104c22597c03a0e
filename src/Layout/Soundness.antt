-- ===== src/Layout/Soundness.antt =====
-- What build_compression_layout has checked when it returns a layout.
use kvserve.Common.{
  ℕ, ◌≡◌, refl, false, Option, none, some, List, [], ◌∷◌, All, String, str_eq_iff, arith, ◌⊎◌, inl,
  inr,
}
use kvserve.Layout.Data.{
  SplitType, by_head, by_layer, CacheSpec, Layout, ok, Inputs, Offsets, Built,
}
use kvserve.Layout.Section.{split_counts, head_counts, find_count}
use kvserve.Tokens.{ℤ}
use kvserve.Layout.Build.{
  uses_transformer, not_power_of_two?, insert_spec, sort_specs, zero_offsets, layers, check_layer,
  check_layers, build_compression_layout,
}
use kvserve.Layout.Outcome.{bind-ok, layers-cons, build-Completed}
use kvserve.Layout.Totality.{Supported}

module _ (P : String × CacheSpec → Type 0) where
  insert_spec-All :
      (x : String × CacheSpec) (ys : List (String × CacheSpec))
      → All P (insert_spec x ys)
      → P x × All P ys
  unfolding insert_spec
  insert_spec-All x [] h = h
  insert_spec-All x (y ∷ ys) h = ground (arith, insert_spec-All x ys)

  sort_specs-All : (xs : List (String × CacheSpec)) → All P (sort_specs xs) → All P xs
  unfolding sort_specs
  sort_specs-All [] h = tt
  sort_specs-All (x ∷ xs) h =
      let parted = insert_spec-All x (sort_specs xs) h in (parted.0, sort_specs-All xs parted.1)

-- There is a low head count, unless the split is by layer.
abbrev Splits : SplitType → ℕ → List (ℕ × ℕ) → Type 0
Splits type index low_counts =
    (type ≡ by_layer) ⊎ ((low : ℕ) × (find_count index low_counts ≡ some low))

head_counts-found :
    (heads : ℕ) (found : Option ℕ) (counts : ℤ × ℤ)
    → head_counts heads found ≡ ok counts
    → (low : ℕ) × (found ≡ some low)
unfolding head_counts
head_counts-found heads none counts h = absurd (cc)
head_counts-found heads (some low) counts h = (low, refl)

split_counts-Splits :
    (low_layers : ℕ → ℕ) (type : SplitType) (index heads : ℕ) (low_counts : List (ℕ × ℕ))
    (model_layers : ℕ) (counts : ℤ × ℤ)
    → split_counts low_layers type index heads low_counts model_layers ≡ ok counts
    → Splits type index low_counts
unfolding split_counts
split_counts-Splits low_layers by_layer index heads low_counts model_layers counts h = inl refl
split_counts-Splits low_layers by_head index heads low_counts model_layers counts h =
    inr (head_counts-found heads (find_count index low_counts) counts h)

module _ (low_layers : ℕ → ℕ) (itemsize : String → ℕ) (inputs : Inputs) where
  check_layer-passed :
      (spec : CacheSpec) (u : Unit {0})
      → check_layer low_layers itemsize inputs spec ≡ ok u
      → ((uses_transformer (Inputs.config inputs) ≡ false)
          ⊎ ((not_power_of_two? (CacheSpec.head_size spec) ≡ false)
              × (not_power_of_two? (CacheSpec.head_size_v spec) ≡ false)))
        × (CacheSpec.dtype spec ≡ "torch.bfloat16")
  unfolding check_layer
  check_layer-passed spec u h = ground (arith, str_eq_iff (CacheSpec.dtype spec) "torch.bfloat16")

  layers-Supported :
      (specs : List (String × CacheSpec)) (keys values : Offsets) (b : Built) (u : Unit {0})
      → layers low_layers itemsize inputs specs keys values ≡ ok b
      → check_layers low_layers itemsize inputs specs ≡ ok u
      → All (Supported low_layers itemsize inputs) specs
  unfolding check_layers
  layers-Supported [] keys values b u h passed = tt
  layers-Supported ((name, spec) ∷ rest) keys values b u h passed =
      let l = layers-cons low_layers itemsize inputs name spec rest keys values b h in
      let (v, here, there) =
        bind-ok (check_layer low_layers itemsize inputs spec)
          (λ _. check_layers low_layers itemsize inputs rest) u passed in
      let fine = check_layer-passed spec v here in
      (
        (fine.0, fine.1, split_counts-Splits low_layers _ _ _ _ _ l.counts l.counted),
        layers-Supported rest _ _ l.later u l.looped there,
      )

  -- When build_compression_layout returns a layout, every layer is supported: its head sizes have
  -- passed the test for powers of two if the pipeline uses its transformer, its elements are bfloat16,
  -- and unless the split is by layer it has a low head count.
  pub build-Supported :
      (specs : List (String × CacheSpec)) (layout : Layout)
      → build_compression_layout low_layers itemsize inputs specs ≡ ok layout
      → All (Supported low_layers itemsize inputs) specs
  build-Supported specs layout h =
      let c = build-Completed low_layers itemsize inputs specs layout h in
      sort_specs-All _ specs (
        layers-Supported (sort_specs specs) zero_offsets zero_offsets c.built c.checked c.looped
          c.passed)
