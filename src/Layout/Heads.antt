-- ===== src/Layout/Heads.antt =====
-- The head ranges of the sections of each layer part.
use kvserve.Common.{
  ap, ◌∙◌, ltb, leb, ◌&&◌, Bool-cases, inl, inr, ◌⊎◌, ◌-◌, ℕ, zero, suc, ◌+◌, ◌≤◌, ◌≡◌, refl, sym,
  subst, some, List, [], ◌∷◌, All, String, arith,
}
use kvserve.Layout.Data.{
  Config, QuantAxis, SplitType, by_head, by_layer, CacheSpec, QuantSection, LayerPart, Layout, ok,
  Inputs, Side, Offsets, Built,
}
use kvserve.Layout.Section.{
  split_counts, head_counts, find_count, sections_of, aux_nbytes, layer_part,
}
use kvserve.Layout.Build.{
  sort_specs, zero_offsets, with_layer, layers, finish, build_compression_layout,
}
use kvserve.Tokens.{ℤ, pos}
use kvserve.Tokens.Sums.{difference-le}
use kvserve.Layout.Integers.{plus}
use kvserve.Layout.Totality.{All-sort_specs}
use kvserve.Layout.Outcome.{ok-injective, layers-nil, layers-cons, build-Completed}

-- The sections hold one or more heads each and follow one another from `start` to `end`.
abbrev pub Tiled : ℕ → List QuantSection → ℕ → Type 0
Tiled start [] end = start ≡ end
Tiled start (s ∷ ss) end =
    (heads : ℕ) × (QuantSection.head_start s ≡ pos start)
    × (QuantSection.head_count s ≡ pos heads)
    × (1 ≤ heads)
    × Tiled (start + heads) ss end

-- The split is by layer, or the layer has a low head count of at most its number of heads.
abbrev pub IsSplit : Inputs → String × CacheSpec → Type 0
IsSplit inputs (name, spec) =
    (Config.split_type (Inputs.config inputs) ≡ by_layer)
    ⊎ ((low : ℕ) × (find_count (CacheSpec.layer_index spec) (Inputs.low_head_counts inputs)
          ≡ some low)
        × (low ≤ CacheSpec.num_kv_heads spec))

-- No number of heads is negative.
pub split_counts_natural :
    (low_layers : ℕ → ℕ) (type : SplitType) (index heads : ℕ) (low_counts : List (ℕ × ℕ))
    (model_layers : ℕ) (counts : ℤ × ℤ)
    → (type ≡ by_layer) ⊎ ((low : ℕ) × (find_count index low_counts ≡ some low) × (low ≤ heads))
    → split_counts low_layers type index heads low_counts model_layers ≡ ok counts
    → (low high : ℕ) × (counts ≡ (pos low, pos high)) × (low + high ≡ heads)
unfolding split_counts head_counts
split_counts_natural low_layers by_layer index heads low_counts model_layers counts split h =
    elim (Bool-cases
      (ltb 0 (low_layers model_layers) && leb model_layers (index + low_layers model_layers))) [
        | inl e ↦ (heads, 0, sym (ok-injective _ _ (rw e at h)), omega arith)
        | inr e ↦ (0, heads, sym (ok-injective _ _ (rw e at h)), omega arith)
      ]
split_counts_natural low_layers by_head index heads low_counts model_layers counts (inl wrong) h =
    absurd (cc)
split_counts_natural low_layers by_head index heads low_counts model_layers counts
      (inr (low, found, le)) h =
    (
      low,
      heads - low,
      sym (ok-injective _ _ (rw found at h))
          ∙ ap (λ (z : ℤ). (pos low, z)) (difference-le heads low le),
      omega (arith, le),
    )

two_sections-Tiled :
    (nbytes : ℤ → ℤ) (axis : QuantAxis) (aux : ℤ) (low low_levels high high_levels heads : ℕ)
    → low + high ≡ heads
    → Tiled 0
        (sections_of nbytes axis
          (pos 0)
          aux
          ((pos low, low_levels) ∷ (pos high, high_levels) ∷ [])).0
        heads
unfolding sections_of plus
two_sections-Tiled nbytes axis aux zero low_levels zero high_levels heads h = h
two_sections-Tiled nbytes axis aux zero low_levels (suc n) high_levels heads h =
    (suc n, refl, refl, omega arith, h)
two_sections-Tiled nbytes axis aux (suc m) low_levels zero high_levels heads h =
    (suc m, refl, refl, omega arith, omega (arith, h))
two_sections-Tiled nbytes axis aux (suc m) low_levels (suc n) high_levels heads h =
    (suc m, refl, refl, omega arith, (suc n, refl, refl, omega arith, omega (arith, h)))

abbrev pub Partitioned : LayerPart → Type 0
Partitioned p = Tiled 0 (LayerPart.sections p) (LayerPart.num_heads p)

layer_part-Partitioned :
    (inputs : Inputs) (name : String) (spec : CacheSpec) (low high : ℕ) (side : Side)
    (offsets : Offsets)
    → low + high ≡ CacheSpec.num_kv_heads spec
    → Partitioned (layer_part inputs name spec (pos low, pos high) side offsets).0
unfolding layer_part
layer_part-Partitioned inputs name spec low high side offsets h =
    two_sections-Tiled (aux_nbytes (Inputs.config inputs) spec side) (Side.axis side)
      (Offsets.aux offsets) low (Side.low_levels side) high (Side.high_levels side)
      (CacheSpec.num_kv_heads spec) h

module _ (low_layers : ℕ → ℕ) (itemsize : String → ℕ) (inputs : Inputs) where
  layers-Partitioned :
      (specs : List (String × CacheSpec)) (keys values : Offsets) (b : Built)
      → All (IsSplit inputs) specs
      → layers low_layers itemsize inputs specs keys values ≡ ok b
      → All Partitioned (Built.layer_parts b)
  unfolding with_layer layers
  layers-Partitioned [] keys values b split h =
      subst (λ b. All Partitioned (Built.layer_parts b))
        (layers-nil low_layers itemsize inputs keys values b h) tt
  layers-Partitioned ((name, spec) ∷ rest) keys values b split h =
      let l = layers-cons low_layers itemsize inputs name spec rest keys values b h in
      let (low, high, same, summed) =
        split_counts_natural low_layers _ _ _ _ _ l.counts split.0 l.counted in
      let part = λ (side : Side) (offsets : Offsets).
        subst (λ c. Partitioned (layer_part inputs name spec c side offsets).0) (sym same)
          (layer_part-Partitioned inputs name spec low high side offsets summed) in
      subst (λ b. All Partitioned (Built.layer_parts b)) (sym l.built)
        (part _ keys, (part _ values, layers-Partitioned rest _ _ l.later split.1 l.looped))

  -- Where no layer has more low heads than heads, in a layout that is built the sections of every layer part hold each head of the part once: the
  -- first starts at head 0, each later one where the one before it ends, none is empty, and the last
  -- ends at the number of heads.
  pub build-Partitioned :
      (specs : List (String × CacheSpec)) (layout : Layout)
      → All (IsSplit inputs) specs
      → build_compression_layout low_layers itemsize inputs specs ≡ ok layout
      → All Partitioned (Layout.layer_parts layout)
  unfolding finish
  build-Partitioned specs layout split h =
      let c = build-Completed low_layers itemsize inputs specs layout h in
      subst (λ l. All Partitioned (Layout.layer_parts l)) (sym c.finished)
        (layers-Partitioned (sort_specs specs) zero_offsets zero_offsets c.built
          (All-sort_specs _ specs split) c.looped)
