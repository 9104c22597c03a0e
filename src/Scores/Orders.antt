-- ===== src/Scores/Orders.antt =====
-- The order of the heads of each layer.
use kvserve.Common.{
  ℕ, zero, suc, ◌+◌, ◌≤◌, ◌<◌, ◌≡◌, refl, sym, subst, ◌∙◌, Bool, Bool-cases, inl, inr, some, List,
  [], ◌∷◌, ◌++◌, String, length, length-append, All, ◌==◌, arith,
}
use kvserve.Layout.Data.{CacheSpec}
use kvserve.Layout.Section.{find_count}
use kvserve.Scores.{HeadSelection, put, range, low_heads, high_heads, whole_layers}
use kvserve.Scores.Tables.{
  lookup, lookup-put_same, lookup-put_other, count, count-append, kinds_once, kinds_length,
  length-range, range_once,
}

find_count-lookup : (i : ℕ) (d : List (ℕ × ℕ)) → find_count i d ≡ lookup i d
unfolding find_count
find_count-lookup i [] = refl
find_count-lookup i ((j, n) ∷ rest) = rw (find_count-lookup i rest) refl

-- A number of low heads, and an order that holds each head once.
abbrev pub IsOrder : ℕ → ℕ → List ℕ → Type 0
IsOrder heads low order =
    (low ≤ heads) × (length order ≡ heads) × All (λ (h : ℕ). count h order ≡ 1) (range 0 heads)

-- What a selection holds of a layer with that many heads.
abbrev pub IsSelected : HeadSelection → ℕ → ℕ → Type 0
IsSelected selection layer heads =
    (low : ℕ) × (order : List ℕ) × (find_count layer selection.low_counts ≡ some low)
    × (lookup layer selection.local_orders ≡ some order)
    × IsOrder heads low order

pub all_from :
    (P : ℕ → Type 0) (start n : ℕ)
    → ((h : ℕ) → start ≤ h → h < start + n → P h)
    → All P (range start n)
unfolding range
all_from P start zero f = tt
all_from P start (suc n) f = (
  f start (omega arith) (omega arith),
  all_from P (suc start) n (λ h l m. f h (omega (arith, l)) (omega (arith, m))),
)

pub mask_IsOrder :
    (mask : List Bool)
    → IsOrder (length mask) (length (low_heads 0 mask)) (low_heads 0 mask ++ high_heads 0 mask)
mask_IsOrder mask = (
  omega (arith, kinds_length 0 mask),
  omega (arith, kinds_length 0 mask, length-append (low_heads 0 mask) (high_heads 0 mask)),
  all_from _ 0 (length mask) (λ h l m.
      omega
        (arith, count-append h (low_heads 0 mask) (high_heads 0 mask), kinds_once 0 h mask l m)),
)

range-IsOrder : (heads : ℕ) → IsOrder heads 0 (range 0 heads)
range-IsOrder heads =
    (omega arith, length-range 0 heads, all_from _ 0 heads (λ h l m. range_once 0 heads h l m))

pub same_heads :
    {a b : ℕ} (low : ℕ) (order : List ℕ) → a ≡ b → IsOrder a low order → IsOrder b low order
same_heads low order e h = subst (λ (n : ℕ). IsOrder n low order) e h

abbrev pub written : ℕ → ℕ → List ℕ → HeadSelection → HeadSelection
written layer low order selection = record {
  low_counts = put layer low selection.low_counts;
  local_orders = put layer order selection.local_orders;
}

pub written-IsSelected :
    (layer heads low : ℕ) (order : List ℕ) (selection : HeadSelection)
    → IsOrder heads low order
    → IsSelected (written layer low order selection) layer heads
written-IsSelected layer heads low order selection h = (
  low,
  order,
  find_count-lookup layer (put layer low selection.low_counts)
      ∙ lookup-put_same layer low selection.low_counts,
  lookup-put_same layer order selection.local_orders,
  h,
)

abbrev pub Holds : HeadSelection → String × CacheSpec → Type 0
Holds selection x = IsSelected selection (CacheSpec.layer_index x.1) (CacheSpec.num_kv_heads x.1)

module _ (heads : ℕ → ℕ) where
  abbrev pub Agrees : String × CacheSpec → Type 0
  Agrees x = CacheSpec.num_kv_heads x.1 ≡ heads (CacheSpec.layer_index x.1)

  pub written_keeps :
      (layer other low : ℕ) (order : List ℕ) (selection : HeadSelection)
      → IsOrder (heads layer) low order
      → IsSelected selection other (heads other)
      → IsSelected (written layer low order selection) other (heads other)
  written_keeps layer other low order selection h (low', order', found, looked, is) =
      elim (Bool-cases (other == layer)) [
        | inl e ↦
            let same : layer ≡ other = ground (arith, e) in
            subst (λ (i : ℕ). IsSelected (written layer low order selection) i (heads i)) same
              (written-IsSelected layer (heads layer) low order selection h)
        | inr e ↦ (
          low',
          order',
          find_count-lookup other (put layer low selection.low_counts)
              ∙ lookup-put_other layer other low selection.low_counts e
              ∙ sym (find_count-lookup other selection.low_counts)
              ∙ found,
          lookup-put_other layer other order selection.local_orders e ∙ looked,
          is,
        )
      ]

  whole_layers_keeps :
      (other : ℕ) (specs : List (String × CacheSpec)) (selection : HeadSelection)
      → All Agrees specs
      → IsSelected selection other (heads other)
      → IsSelected (whole_layers specs selection) other (heads other)
  unfolding whole_layers
  whole_layers_keeps other [] selection agrees h = h
  whole_layers_keeps other ((name, spec) ∷ rest) selection agrees h =
      whole_layers_keeps other rest _ agrees.1 (
        written_keeps spec.layer_index other 0 (range 0 spec.num_kv_heads) selection
          (same_heads 0 (range 0 spec.num_kv_heads) agrees.0 (range-IsOrder spec.num_kv_heads)) h)

  pub whole_layers-Holds :
      (specs : List (String × CacheSpec)) (selection : HeadSelection)
      → All Agrees specs
      → All (Holds (whole_layers specs selection)) specs
  unfolding whole_layers
  whole_layers-Holds [] selection agrees = tt
  whole_layers-Holds ((name, spec) ∷ rest) selection agrees =
      let next = written spec.layer_index 0 (range 0 spec.num_kv_heads) selection in
      (
        subst (IsSelected (whole_layers rest next) spec.layer_index) (sym agrees.0) (
            whole_layers_keeps spec.layer_index rest next agrees.1 (
              subst (IsSelected next spec.layer_index) agrees.0 (
                written-IsSelected spec.layer_index spec.num_kv_heads 0 _ selection
                  (range-IsOrder spec.num_kv_heads)))),
        whole_layers-Holds rest next agrees.1,
      )
