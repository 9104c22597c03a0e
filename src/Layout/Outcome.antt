-- ===== src/Layout/Outcome.antt =====
-- What build_compression_layout has gone through when it has returned a layout.
use kvserve.Common.{ℕ, ◌≡◌, refl, Bool, true, false, List, [], ◌∷◌, String, if◌then◌else◌}
use kvserve.Layout.Data.{
  Config, CacheSpec, Layout, Error, Result, ok, err, ◌>>=◌, Inputs, Offsets, Built,
}
use kvserve.Layout.Section.{split_counts, layer_part, key_side, value_side}
use kvserve.Tokens.{ℤ}
use kvserve.Layout.Build.{
  all_block_size, sort_specs, zero_offsets, with_layer, no_layers, layers, check_layers, finish,
  build_from, lay_out, build_compression_layout,
}

pub bind-ok {ℓ κ} :
    {A : Type ℓ} {B : Type κ} (m : Result A) (f : A → Result B) (b : B)
    → m >>= f ≡ ok b
    → (a : A) × (m ≡ ok a) × (f a ≡ ok b)
bind-ok (ok a) f b h = (a, refl, h)
bind-ok (err e) f b h = absurd (cc)

pub ok-injective {ℓ} : {A : Type ℓ} (a b : A) → ◌≡◌ {A = Result A} (ok a) (ok b) → a ≡ b
ok-injective a b h = cc

if-ok {ℓ} :
    {A : Type ℓ} (b : Bool) (m : Result A) (e : Error) (a : A)
    → (if b then m else err e) ≡ ok a
    → m ≡ ok a
if-ok true m e a h = h
if-ok false m e a h = absurd (cc)

module _ (low_layers : ℕ → ℕ) (itemsize : String → ℕ) (inputs : Inputs) where
  -- What the loop over one more layer has returned.
  pub record Layered (name : String) (spec : CacheSpec) (rest : List (String × CacheSpec))
      (keys values : Offsets) (b : Built) : Type 0 where
    pub counts : ℤ × ℤ
    pub counted :
        split_counts low_layers
          (Config.split_type (Inputs.config inputs))
          (CacheSpec.layer_index spec)
          (CacheSpec.num_kv_heads spec)
          (Inputs.low_head_counts inputs)
          (Inputs.num_model_layers inputs)
        ≡ ok counts
    pub later : Built
    pub looped :
        layers low_layers itemsize inputs rest
          (layer_part inputs name spec counts (key_side (Inputs.config inputs) spec) keys).1
          (layer_part inputs name spec counts (value_side (Inputs.config inputs) spec) values).1
        ≡ ok later
    pub built :
        b
        ≡ with_layer
            (layer_part inputs name spec counts (key_side (Inputs.config inputs) spec) keys).0
            (layer_part inputs name spec counts (value_side (Inputs.config inputs) spec) values).0
            later

  pub layers-nil :
      (keys values : Offsets) (b : Built)
      → layers low_layers itemsize inputs [] keys values ≡ ok b
      → no_layers keys values ≡ b
  unfolding layers
  layers-nil keys values b h = cc

  pub layers-cons :
      (name : String) (spec : CacheSpec) (rest : List (String × CacheSpec)) (keys values : Offsets)
      (b : Built)
      → layers low_layers itemsize inputs ((name, spec) ∷ rest) keys values ≡ ok b
      → Layered name spec rest keys values b
  unfolding layers
  layers-cons name spec rest keys values b h =
      let (counts, counted, h1) = bind-ok _ _ b h in
      let (later, looped, h2) = bind-ok _ _ b h1 in
      record { counts = counts; counted = counted; later = later; looped = looped; built = cc }

  -- What build_compression_layout has gone through when it has returned a layout.
  pub record Completed (specs : List (String × CacheSpec)) (layout : Layout) : Type 0 where
    pub checked : Unit {0}
    pub passed : check_layers low_layers itemsize inputs specs ≡ ok checked
    pub built : Built
    pub looped : layers low_layers itemsize inputs specs zero_offsets zero_offsets ≡ ok built
    pub finished :
        layout
        ≡ finish low_layers itemsize inputs
            (Config.logical_blocks_per_chunk (Inputs.config inputs))
            specs
            built

  lay_out-Completed :
      (specs : List (String × CacheSpec)) (layout : Layout)
      → lay_out low_layers itemsize inputs specs ≡ ok layout
      → Completed specs layout
  unfolding lay_out
  lay_out-Completed specs layout h =
      let (checked, passed, h1) =
        bind-ok (check_layers low_layers itemsize inputs specs)
          (λ _. layers low_layers itemsize inputs specs zero_offsets zero_offsets >>= λ built. ok (
            finish low_layers itemsize inputs
              (Config.logical_blocks_per_chunk (Inputs.config inputs)) specs built))
          layout h in
      let (built, looped, h2) = bind-ok _ _ layout h1 in
      record { checked = checked; passed = passed; built = built; looped = looped; finished = cc }

  build_from-Completed :
      (specs : List (String × CacheSpec)) (layout : Layout)
      → build_from low_layers itemsize inputs specs ≡ ok layout
      → Completed specs layout
  unfolding build_from
  build_from-Completed [] layout h = absurd (cc)
  build_from-Completed ((name, spec) ∷ rest) layout h =
      lay_out-Completed ((name, spec) ∷ rest) layout
        (if-ok (all_block_size (CacheSpec.block_size spec) ((name, spec) ∷ rest)) _ _ layout h)

  pub build-Completed :
      (specs : List (String × CacheSpec)) (layout : Layout)
      → build_compression_layout low_layers itemsize inputs specs ≡ ok layout
      → Completed (sort_specs specs) layout
  unfolding build_compression_layout
  build-Completed specs layout h = build_from-Completed (sort_specs specs) layout h
