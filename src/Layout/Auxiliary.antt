-- ===== src/Layout/Auxiliary.antt =====
-- Where the quantisation parameters (minimum and scale) of each section lie.
use kvserve.Common.{
  ℕ, zero, suc, ◌+◌, ◌*◌, ◌%◌, ◌≤◌, ◌≡◌, ◌⊎◌, inl, inr, refl, sym, ap, subst, ◌∙◌, All, Bool, true,
  false, List, [], ◌∷◌, String, if◌then◌else◌, arith, ◌&&◌, ◌||◌, not, max,
}
use kvserve.Workspace.{round_up, alignment}
use kvserve.Tokens.{ℤ, pos}
use kvserve.Layout.Integers.{plus, product, maximum, round_up_int, prod_int}
use kvserve.Layout.Heads.{IsSplit, split_counts_natural}
use kvserve.Layout.Totality.{All-sort_specs}
use kvserve.Layout.Data.{
  QuantAxis, channel, token, tensor, quantizer, aggregate, Config, CacheSpec, QuantSection,
  LayerPart, Layout, ok, Inputs, Side, Offsets, Built,
}
use kvserve.Layout.Section.{
  in_pipeline, layer_part, key_side, value_side, reduction_shape, sections_of, aux_nbytes,
}
use kvserve.Layout.Tail.{parts}
use kvserve.Layout.Build.{
  sort_specs, zero_offsets, with_layer, layers, finish, build_compression_layout,
}
use kvserve.Layout.Outcome.{layers-nil, layers-cons, build-Completed}
use kvserve.Layout.Streams.{round_up_ge}

-- The bytes of one parameter of a section, two for each entry of its reduced shape.
unfoldable pub parameter_bytes : ℕ → LayerPart → QuantSection → ℤ
parameter_bytes chunk_blocks p s =
    product
      (prod_int (
        reduction_shape (QuantSection.axis s) chunk_blocks (LayerPart.block_size p)
          (QuantSection.head_count s) (LayerPart.head_size p)))
      (pos 2)

-- The parameters of the sections begin at multiples of the alignment, in order, and each begins
-- behind the bytes of the one before it; all lie from `start` to `end`. No number is negative.
abbrev pub SpacedSections : (QuantSection → ℤ) → ℕ → List QuantSection → ℕ → Type 0
SpacedSections nbytes start [] end = start ≤ end
SpacedSections nbytes start (s ∷ ss) end =
    (min_offset scale_offset size : ℕ) × (QuantSection.aux_min_offset s ≡ pos min_offset)
    × (QuantSection.aux_scale_offset s ≡ pos scale_offset)
    × (nbytes s ≡ pos size)
    × (start ≤ min_offset)
    × (min_offset % alignment ≡ 0)
    × (min_offset + size ≤ scale_offset)
    × (scale_offset % alignment ≡ 0)
    × SpacedSections nbytes (scale_offset + size) ss end

-- The same of the sections of several parts.
abbrev pub Spaced : ℕ → ℕ → List LayerPart → ℕ → Type 0
Spaced chunk_blocks start [] end = start ≤ end
Spaced chunk_blocks start (p ∷ ps) end =
    (middle : ℕ) × SpacedSections (parameter_bytes chunk_blocks p) start (LayerPart.sections p)
      middle
    × Spaced chunk_blocks middle ps end

Spaced-le :
    (chunk_blocks start : ℕ) (ps : List LayerPart) (m n : ℕ)
    → m ≤ n
    → Spaced chunk_blocks start ps m
    → Spaced chunk_blocks start ps n
Spaced-le chunk_blocks start [] m n le h = omega (arith, h, le)
Spaced-le chunk_blocks start (p ∷ ps) m n le (middle, here, there) =
    (middle, here, Spaced-le chunk_blocks middle ps m n le there)

round_up_mod : (n : ℕ) → round_up n alignment % alignment ≡ 0
unfolding round_up
round_up_mod n = omega arith

-- Numbers of heads that are not negative.
abbrev natural : List (ℕ × ℕ) → List (ℤ × ℕ)
natural [] = []
natural ((count, levels) ∷ rest) = (pos count, levels) ∷ natural rest

-- A section whose bytes the model has taken from its number of heads.
sections_of-SpacedSections :
    (aux_of : ℤ → ℤ) (bytes_of : ℕ → ℕ) (nbytes : QuantSection → ℤ) (axis : QuantAxis)
    (head_start : ℤ) (aux : ℕ) (counts : List (ℕ × ℕ))
    → ((n : ℕ) → aux_of (pos n) ≡ pos (bytes_of n))
    → ((s : QuantSection)
        → QuantSection.axis s ≡ axis
        → nbytes s ≡ aux_of (QuantSection.head_count s))
    → (end : ℕ) × ((sections_of aux_of axis head_start (pos aux) (natural counts)).1 ≡ pos end)
      × SpacedSections nbytes aux
          (sections_of aux_of axis head_start (pos aux) (natural counts)).0
          end
unfolding sections_of plus round_up_int
sections_of-SpacedSections aux_of bytes_of nbytes axis head_start aux [] exact same =
    (aux, refl, omega arith)
sections_of-SpacedSections aux_of bytes_of nbytes axis head_start aux ((zero, levels) ∷ rest) exact
      same =
    sections_of-SpacedSections aux_of bytes_of nbytes axis head_start aux rest exact same
sections_of-SpacedSections aux_of bytes_of nbytes axis head_start aux ((suc n, levels) ∷ rest) exact
      same =
    let size = bytes_of (suc n) in
    let min_offset = round_up aux alignment in
    let scale_offset = round_up (min_offset + size) alignment in
    let rest_at = λ (z : ℤ).
      sections_of aux_of axis (plus head_start (pos (suc n)))
        (plus (round_up_int (plus (pos min_offset) z) alignment) z) (natural rest) in
    let (end, ends, later) =
      sections_of-SpacedSections aux_of bytes_of nbytes axis (plus head_start (pos (suc n)))
        (scale_offset + size) rest exact same in
    (
      end,
      ap (λ (z : ℤ). (rest_at z).1) (exact (suc n)) ∙ ends,
      (
        min_offset,
        scale_offset,
        size,
        refl,
        ap (λ (z : ℤ). round_up_int (plus (pos min_offset) z) alignment) (exact (suc n)),
        same _ refl ∙ exact (suc n),
        round_up_ge aux,
        round_up_mod aux,
        round_up_ge _,
        round_up_mod _,
        subst (λ (z : ℤ). SpacedSections nbytes (scale_offset + size) ((rest_at z).0) end)
            (sym (exact (suc n))) later,
      ),
    )

aux_nbytes_natural :
    (config : Config) (spec : CacheSpec) (side : Side) (axis : QuantAxis)
    → Side.axis side ≡ axis
    → (bytes_of : ℕ → ℕ) × ((n : ℕ) → aux_nbytes config spec side (pos n) ≡ pos (bytes_of n))
unfolding aux_nbytes reduction_shape prod_int product
aux_nbytes_natural config spec side channel e =
    (λ n. 1 * (1 * (n * (Side.head_size side * 1))) * 2, λ n. rw e refl)
aux_nbytes_natural config spec side token e = (
  λ n. Config.logical_blocks_per_chunk config * (CacheSpec.block_size spec * (1 * (1 * 1))) * 2,
  λ n. rw e refl,
)
aux_nbytes_natural config spec side tensor e = (λ n. 1 * (1 * (1 * (1 * 1))) * 2, λ n. rw e refl)

parameter_bytes-axis :
    (inputs : Inputs) (name : String) (spec : CacheSpec) (counts : ℤ × ℤ) (side : Side)
    (offsets : Offsets) (s : QuantSection)
    → QuantSection.axis s ≡ Side.axis side
    → parameter_bytes
        (Config.logical_blocks_per_chunk (Inputs.config inputs))
        (layer_part inputs name spec counts side offsets).0
        s
      ≡ aux_nbytes (Inputs.config inputs) spec side (QuantSection.head_count s)
unfolding layer_part parameter_bytes aux_nbytes
parameter_bytes-axis inputs name spec counts side offsets s e = rw e refl

layer_part-SpacedSections :
    (inputs : Inputs) (name : String) (spec : CacheSpec) (low high : ℕ) (side : Side)
    (offsets : Offsets) (aux : ℕ)
    → Offsets.aux offsets ≡ pos aux
    → let built = layer_part inputs name spec (pos low, pos high) side offsets in
      (end : ℕ) × (Offsets.aux built.1 ≡ pos end)
      × SpacedSections
          (parameter_bytes (Config.logical_blocks_per_chunk (Inputs.config inputs)) built.0)
          aux
          (LayerPart.sections built.0)
          end
unfolding layer_part parameter_bytes
layer_part-SpacedSections inputs name spec low high side offsets aux start =
    let (bytes_of, exact) =
      aux_nbytes_natural (Inputs.config inputs) spec side (Side.axis side) refl in
    rw start (
      sections_of-SpacedSections (aux_nbytes (Inputs.config inputs) spec side) bytes_of
        (parameter_bytes (Config.logical_blocks_per_chunk (Inputs.config inputs))
          (layer_part inputs name spec (pos low, pos high) side offsets).0)
        (Side.axis side) (pos 0) aux
        ((low, Side.low_levels side) ∷ (high, Side.high_levels side) ∷ []) exact
        (parameter_bytes-axis inputs name spec (pos low, pos high) side offsets))

-- The conditions of the arena's size, one behind the other.
two_of_each :
    (aggregates quantizes : Bool) (k v : ℕ)
    → ((quantizes && not aggregates) ≡ false)
      ⊎ ((size : ℕ) × ((if aggregates || not (quantizes && not aggregates)
              then pos 0
              else product (pos 2) (maximum (pos k) (pos v)))
            ≡ pos size)
          × (2 * k ≤ size)
          × (2 * v ≤ size))
unfolding product maximum
two_of_each true true k v = inl refl
two_of_each true false k v = inl refl
two_of_each false false k v = inl refl
two_of_each false true k v = inr (2 * max k v, refl, omega arith, omega arith)

module _ (low_layers : ℕ → ℕ) (itemsize : String → ℕ) (inputs : Inputs) where
  layers-Spaced :
      (specs : List (String × CacheSpec)) (keys values : Offsets) (b : Built) (k v : ℕ)
      → Offsets.aux keys ≡ pos k
      → Offsets.aux values ≡ pos v
      → All (IsSplit inputs) specs
      → layers low_layers itemsize inputs specs keys values ≡ ok b
      → (k' v' : ℕ) × (Offsets.aux (Built.key_offsets b) ≡ pos k')
        × (Offsets.aux (Built.value_offsets b) ≡ pos v')
        × Spaced
            (Config.logical_blocks_per_chunk (Inputs.config inputs))
            k
            (parts 0 (Built.layer_parts b))
            k'
        × Spaced
            (Config.logical_blocks_per_chunk (Inputs.config inputs))
            v
            (parts 1 (Built.layer_parts b))
            v'
  unfolding with_layer layers parts layer_part key_side value_side
  layers-Spaced [] keys values b k v ek ev split h =
      rw (sym (layers-nil low_layers itemsize inputs keys values b h))
        (k, v, ek, ev, omega arith, omega arith)
  layers-Spaced ((name, spec) ∷ rest) keys values b k v ek ev split h =
      let l = layers-cons low_layers itemsize inputs name spec rest keys values b h in
      let (low, high, same, summed) =
        split_counts_natural low_layers _ _ _ _ _ l.counts split.0 l.counted in
      let config = Inputs.config inputs in
      let (k1, ek1, key) =
        layer_part-SpacedSections inputs name spec low high (key_side config spec) keys k ek in
      let (v1, ev1, value) =
        layer_part-SpacedSections inputs name spec low high (value_side config spec) values v ev in
      let (k', v', ek', ev', later_k, later_v) =
        layers-Spaced rest _ _ l.later k1 v1
          (ap (λ c. Offsets.aux (layer_part inputs name spec c (key_side config spec) keys).1) same
            ∙ ek1)
          (ap (λ c. Offsets.aux (layer_part inputs name spec c (value_side config spec) values).1)
              same
            ∙ ev1)
          split.1 l.looped in
      rw (l.built) (
        k',
        v',
        ek',
        ev',
        (
          k1,
          subst
              (λ c.
                SpacedSections
                  (parameter_bytes (Config.logical_blocks_per_chunk config)
                    (layer_part inputs name spec c (key_side config spec) keys).0)
                  k
                  (LayerPart.sections (layer_part inputs name spec c (key_side config spec) keys).0)
                  k1)
              (sym same) key,
          later_k,
        ),
        (
          v1,
          subst
              (λ c.
                SpacedSections
                  (parameter_bytes (Config.logical_blocks_per_chunk config)
                    (layer_part inputs name spec c (value_side config spec) values).0)
                  v
                  (LayerPart.sections
                    (layer_part inputs name spec c (value_side config spec) values).0)
                  v1)
              (sym same) value,
          later_v,
        ),
      )

  -- Where no layer has more low heads than heads, in a layout that is built no aux size is negative, and
  -- the quantisation parameters of the key parts' sections begin at multiples of ALIGNMENT and lie one
  -- behind the other, without overlap, within `aux_bytes_by_part[0]`, and those of the value parts
  -- within `aux_bytes_by_part[1]`. The arena for them holds two of either, unless the pipeline has no
  -- quantizer or aggregates.
  pub build-Spaced :
      (specs : List (String × CacheSpec)) (layout : Layout)
      → All (IsSplit inputs) specs
      → build_compression_layout low_layers itemsize inputs specs ≡ ok layout
      → (k v : ℕ) × (Layout.aux_bytes_by_part layout ≡ (pos k, pos v))
        × Spaced
            (Config.logical_blocks_per_chunk (Inputs.config inputs))
            0
            (parts 0 (Layout.layer_parts layout))
            k
        × Spaced
            (Config.logical_blocks_per_chunk (Inputs.config inputs))
            0
            (parts 1 (Layout.layer_parts layout))
            v
        × (((in_pipeline quantizer (Config.pipeline (Inputs.config inputs))
                && not (Layout.aggregates layout))
              ≡ false)
            ⊎ ((size : ℕ) × (Layout.aux_arena_bytes layout ≡ pos size)
                × (2 * k ≤ size)
                × (2 * v ≤ size)))
  unfolding finish round_up_int
  build-Spaced specs layout split h =
      let c = build-Completed low_layers itemsize inputs specs layout h in
      let (k, v, ek, ev, keys, values) =
        layers-Spaced (sort_specs specs) zero_offsets zero_offsets c.built 0 0 refl refl
          (All-sort_specs _ specs split) c.looped in
      rw (c.finished, ek, ev)
        (
          round_up k alignment,
          round_up v alignment,
          refl,
          Spaced-le _ 0 _ _ _ (round_up_ge k) keys,
          Spaced-le _ 0 _ _ _ (round_up_ge v) values,
          two_of_each (in_pipeline aggregate (Config.pipeline (Inputs.config inputs)))
              (in_pipeline quantizer (Config.pipeline (Inputs.config inputs))) _ _,
        )
