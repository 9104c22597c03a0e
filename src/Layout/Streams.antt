-- ===== src/Layout/Streams.antt =====
-- Where the packed stream of each layer part lies, and that the scratch regions and the stream fit in
-- the arena.
use kvserve.Common.{
  ℕ, ◌+◌, ◌*◌, ◌≤◌, ◌≡◌, refl, sym, ap, ◌∙◌, Bool, true, false, List, [], ◌∷◌, All, String, arith,
  ◌&&◌, not, max, if◌then◌else◌,
}
use kvserve.Workspace.{round_up, alignment}
use kvserve.Layout.Data.{
  quantizer, aggregate, Config, CacheSpec, LayerPart, Layout, ok, Inputs, Offsets, Built,
}
use kvserve.Layout.Section.{in_pipeline, layer_part, key_side, value_side}
use kvserve.Layout.Tail.{parts}
use kvserve.Layout.Build.{
  sort_specs, chunk_bytes, max_chunk_bytes, zero_offsets, with_layer, layers, packed_sizes,
  arena_size, finish, build_compression_layout,
}
use kvserve.Layout.Outcome.{layers-nil, layers-cons, build-Completed}

-- The elements of a layer part in one chunk, one byte each when they are quantised.
unfoldable pub elements : ℕ → LayerPart → ℕ
elements chunk_blocks p =
    chunk_blocks * LayerPart.block_size p * LayerPart.num_heads p * LayerPart.head_size p

-- The parts lie one behind the other from `start` to `end`.
abbrev pub Consecutive : ℕ → ℕ → List LayerPart → ℕ → Type 0
Consecutive chunk_blocks start [] end = start ≡ end
Consecutive chunk_blocks start (p ∷ ps) end =
    (LayerPart.u8_offset p ≡ start)
    × Consecutive chunk_blocks (start + elements chunk_blocks p) ps end

-- The raw bytes of each part are two for each element, and no more than the scratch region.
abbrev pub Gathered : ℕ → ℕ → LayerPart → Type 0
Gathered chunk_blocks stride p =
    (LayerPart.raw_bytes p ≡ elements chunk_blocks p * 2) × (LayerPart.raw_bytes p ≤ stride)

pub round_up_ge : (n : ℕ) → n ≤ round_up n alignment
unfolding round_up
round_up_ge n = omega arith

-- The raw chunk of a layer fits in so many bytes, of its keys and of its values.
abbrev Within : ℕ → ℕ → String × CacheSpec → Type 0
Within chunk_blocks stride (name, spec) =
    (chunk_bytes chunk_blocks spec (CacheSpec.head_size spec) ≤ stride)
    × (chunk_bytes chunk_blocks spec (CacheSpec.head_size_v spec) ≤ stride)

max_chunk_bytes-Within :
    (chunk_blocks stride : ℕ) (specs : List (String × CacheSpec))
    → max_chunk_bytes chunk_blocks specs ≤ stride
    → All (Within chunk_blocks stride) specs
unfolding max_chunk_bytes
max_chunk_bytes-Within chunk_blocks stride [] h = tt
max_chunk_bytes-Within chunk_blocks stride ((name, spec) ∷ rest) h =
    ((omega arith, omega arith), max_chunk_bytes-Within chunk_blocks stride rest (omega arith))

-- The bytes of an element in the packed stream: one where it is quantised, else its two raw bytes.
abbrev pub width : Bool → ℕ
width uses_quantizer = if uses_quantizer then 1 else 2

-- The arena of a layout without aggregation holds the stream behind its base.
fits :
    (aggregates quantizes : Bool) (stride base u8_k u8_v raw_k raw_v : ℕ)
    → raw_k ≡ u8_k * 2
    → raw_v ≡ u8_v * 2
    → aggregates ≡ false
    → let uses_quantizer = quantizes && not aggregates in
      let packed = packed_sizes uses_quantizer (u8_k, u8_v) (raw_k, raw_v) in
      (packed.0 ≡ width uses_quantizer * u8_k)
      × (packed.1 ≡ width uses_quantizer * u8_v)
      × (base + packed.0 ≤ arena_size aggregates stride base (raw_k, raw_v) packed)
      × (base + packed.1 ≤ arena_size aggregates stride base (raw_k, raw_v) packed)
unfolding arena_size packed_sizes
fits true quantizes stride base u8_k u8_v raw_k raw_v hk hv h = absurd (cc)
fits false true stride base u8_k u8_v raw_k raw_v hk hv h = (
  omega arith,
  omega arith,
  omega (arith, round_up_ge (max (2 * stride) (base + max u8_k u8_v))),
  omega (arith, round_up_ge (max (2 * stride) (base + max u8_k u8_v))),
)
fits false false stride base u8_k u8_v raw_k raw_v hk hv h = (
  omega (arith, hk),
  omega (arith, hv),
  omega (arith, round_up_ge (max (2 * stride) (base + max raw_k raw_v))),
  omega (arith, round_up_ge (max (2 * stride) (base + max raw_k raw_v))),
)

-- What the end of a layout says of its stream.
abbrev pub Streamed : Bool → Layout → Type 0
Streamed uses_quantizer layout =
    ((Layout.packed_bytes_by_part layout).0
      ≡ width uses_quantizer * (Layout.u8_bytes_by_part layout).0)
    × ((Layout.packed_bytes_by_part layout).1
        ≡ width uses_quantizer * (Layout.u8_bytes_by_part layout).1)
    × (Layout.u8_base layout + (Layout.packed_bytes_by_part layout).0 ≤ Layout.arena_bytes layout)
    × (Layout.u8_base layout + (Layout.packed_bytes_by_part layout).1 ≤ Layout.arena_bytes layout)

module _ (low_layers : ℕ → ℕ) (itemsize : String → ℕ) (inputs : Inputs) where
  layers-Consecutive :
      (specs : List (String × CacheSpec)) (keys values : Offsets) (b : Built)
      → layers low_layers itemsize inputs specs keys values ≡ ok b
      → Consecutive
          (Config.logical_blocks_per_chunk (Inputs.config inputs))
          (Offsets.u8 keys)
          (parts 0 (Built.layer_parts b))
          (Offsets.u8 (Built.key_offsets b))
        × Consecutive
            (Config.logical_blocks_per_chunk (Inputs.config inputs))
            (Offsets.u8 values)
            (parts 1 (Built.layer_parts b))
            (Offsets.u8 (Built.value_offsets b))
  unfolding with_layer layers parts layer_part key_side value_side elements
  layers-Consecutive [] keys values b h =
      let e = layers-nil low_layers itemsize inputs keys values b h in rw (sym e) (refl, refl)
  layers-Consecutive ((name, spec) ∷ rest) keys values b h =
      let l = layers-cons low_layers itemsize inputs name spec rest keys values b h in
      let later = layers-Consecutive rest _ _ l.later l.looped in
      rw (l.built) ((refl, later.0), (refl, later.1))

  layers-Gathered :
      (stride : ℕ) (specs : List (String × CacheSpec)) (keys values : Offsets) (b : Built)
      → layers low_layers itemsize inputs specs keys values ≡ ok b
      → All (Within (Config.logical_blocks_per_chunk (Inputs.config inputs)) stride) specs
      → All
          (Gathered (Config.logical_blocks_per_chunk (Inputs.config inputs)) stride)
          (Built.layer_parts b)
  unfolding with_layer layers layer_part key_side value_side elements chunk_bytes
  layers-Gathered stride [] keys values b h within =
      rw (sym (layers-nil low_layers itemsize inputs keys values b h)) tt
  layers-Gathered stride ((name, spec) ∷ rest) keys values b h within =
      let l = layers-cons low_layers itemsize inputs name spec rest keys values b h in
      let later = layers-Gathered stride rest _ _ l.later l.looped within.1 in
      rw (l.built) ((refl, within.0.0), ((refl, within.0.1), later))

  -- Two raw bytes are counted for each element.
  layers_raw :
      (specs : List (String × CacheSpec)) (keys values : Offsets) (b : Built)
      → layers low_layers itemsize inputs specs keys values ≡ ok b
      → Offsets.raw keys ≡ Offsets.u8 keys * 2
      → Offsets.raw values ≡ Offsets.u8 values * 2
      → (Offsets.raw (Built.key_offsets b) ≡ Offsets.u8 (Built.key_offsets b) * 2)
        × (Offsets.raw (Built.value_offsets b) ≡ Offsets.u8 (Built.value_offsets b) * 2)
  unfolding with_layer layers layer_part key_side value_side
  layers_raw [] keys values b h hk hv =
      rw (sym (layers-nil low_layers itemsize inputs keys values b h)) (hk, hv)
  layers_raw ((name, spec) ∷ rest) keys values b h hk hv =
      let l = layers-cons low_layers itemsize inputs name spec rest keys values b h in
      rw (l.built) (layers_raw rest _ _ l.later l.looped (omega (arith, hk)) (omega (arith, hv)))

  finish_fits :
      (chunk_blocks : ℕ) (specs : List (String × CacheSpec)) (b : Built)
      → Offsets.raw (Built.key_offsets b) ≡ Offsets.u8 (Built.key_offsets b) * 2
      → Offsets.raw (Built.value_offsets b) ≡ Offsets.u8 (Built.value_offsets b) * 2
      → Layout.aggregates (finish low_layers itemsize inputs chunk_blocks specs b) ≡ false
      → Streamed
          (in_pipeline quantizer (Config.pipeline (Inputs.config inputs))
            && not (Layout.aggregates (finish low_layers itemsize inputs chunk_blocks specs b)))
          (finish low_layers itemsize inputs chunk_blocks specs b)
  unfolding finish
  finish_fits chunk_blocks specs b hk hv unaggregated =
      fits (in_pipeline aggregate (Config.pipeline (Inputs.config inputs)))
        (in_pipeline quantizer (Config.pipeline (Inputs.config inputs))) _ _ _ _ _ _ hk hv
        unaggregated

  -- In a layout that is built without aggregation, the packed streams of the key parts, counted in
  -- elements, lie one behind the other from offset 0 of the stream, as those of the value parts do; an
  -- element takes one byte of the stream with a quantizer in the pipeline and two without, and so many
  -- bytes the packed size of all parts counts; a part has two raw bytes for each element, and they fit
  -- in one scratch region; the stream begins behind two scratch regions and its packed bytes, for keys
  -- and for values, end within the arena.
  pub build-Consecutive :
      (specs : List (String × CacheSpec)) (layout : Layout)
      → build_compression_layout low_layers itemsize inputs specs ≡ ok layout
      → Layout.aggregates layout ≡ false
      → Consecutive
          (Config.logical_blocks_per_chunk (Inputs.config inputs))
          0
          (parts 0 (Layout.layer_parts layout))
          (Layout.u8_bytes_by_part layout).0
        × Consecutive
            (Config.logical_blocks_per_chunk (Inputs.config inputs))
            0
            (parts 1 (Layout.layer_parts layout))
            (Layout.u8_bytes_by_part layout).1
        × All
            (Gathered
              (Config.logical_blocks_per_chunk (Inputs.config inputs))
              (Layout.scratch_stride layout))
            (Layout.layer_parts layout)
        × (2 * Layout.scratch_stride layout ≤ Layout.u8_base layout)
        × Streamed
            (in_pipeline quantizer (Config.pipeline (Inputs.config inputs))
              && not (Layout.aggregates layout))
            layout
  unfolding finish
  build-Consecutive specs layout h unaggregated =
      let c = build-Completed low_layers itemsize inputs specs layout h in
      let sorted = sort_specs specs in
      let lain = layers-Consecutive sorted zero_offsets zero_offsets c.built c.looped in
      let doubled = layers_raw sorted zero_offsets zero_offsets c.built c.looped refl refl in
      let stride_ok =
        max_chunk_bytes-Within (Config.logical_blocks_per_chunk (Inputs.config inputs)) _ sorted
          (round_up_ge _) in
      let fits =
        finish_fits (Config.logical_blocks_per_chunk (Inputs.config inputs)) sorted c.built
          doubled.0 doubled.1 (ap Layout.aggregates (sym c.finished) ∙ unaggregated) in
      rw (c.finished) (
        lain.0,
        lain.1,
        layers-Gathered _ sorted zero_offsets zero_offsets c.built c.looped stride_ok,
        round_up_ge _,
        fits,
      )
