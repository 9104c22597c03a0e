-- ===== src/Scores/Totality.antt =====
-- build_head_selection returns a selection.
use kvserve.Common.{
  ℕ, zero, suc, ◌*◌, ◌≤◌, ◌<◌, ◌≡◌, refl, sym, ap, subst, ◌∙◌, Bool, true, false, Option, none,
  some, List, [], ◌∷◌, ◌++◌, String, take, length, replicate, length-replicate, get_elem?, ltb, All,
  All-append, All-get_elem?, arith,
}
use native.Mathlib.Nat.{mul-le-mul_right}
use kvserve.Layout.Data.{CacheSpec, by_head}
use kvserve.Scores.{
  Outcome, ok, raise, Array, HeadSelection, nothing_selected, push, gather, set_true, mark, range,
  candidate_offsets, all_finite, local_mask, record_layer, select_layers, select_heads, mark_lowest,
  loaded, build_head_selection,
}
use kvserve.Scores.Tables.{length-set_true}
use kvserve.Scores.Orders.{all_from}
use kvserve.Scores.Masks.{Fits, start_of_total}
use kvserve.Scores.Selection.{InRows}

abbrev pub Below : ℕ → List ℕ → Type 0
Below n indices = All (λ (i : ℕ). i < n) indices

get_total {ℓ} :
    {A : Type ℓ} (xs : List A) (i : ℕ) → i < length xs → (a : A) × (get_elem? xs i ≡ some a)
get_total [] i h = absurd (omega (arith, h))
get_total (x ∷ xs) zero h = (x, refl)
get_total (x ∷ xs) (suc i) h = get_total xs i (omega (arith, h))

gather_total {ℓ} :
    {A : Type ℓ} (xs : List A) (indices : List ℕ)
    → Below (length xs) indices
    → (picked : List A) × (gather xs indices ≡ ok picked) × (length picked ≡ length indices)
unfolding gather
gather_total xs [] h = ([], refl, refl)
gather_total xs (i ∷ indices) h =
    let (a, is_a) = get_total xs i h.0 in
    let (later, gathered, len) = gather_total xs indices h.1 in
    (a ∷ later, rw (is_a, gathered) refl, ap suc len)

push-Below :
    (n : ℕ) (found : Option ℕ) (later : Outcome (List ℕ)) (picked : List ℕ)
    → ((a : ℕ) → found ≡ some a → a < n)
    → ((rest : List ℕ) → later ≡ ok rest → Below n rest)
    → push found later ≡ ok picked
    → Below n picked
push-Below n none later picked f g h = absurd (ground (arith, h))
push-Below n (some a) (raise why) picked f g h = absurd (ground (arith, h))
push-Below n (some a) (ok rest) picked f g h =
    subst (Below n) {x = a ∷ rest} {y = picked} (cc) (f a refl, g rest refl)

-- What is picked of numbers below n is below n.
gather-Below :
    (n : ℕ) (xs indices picked : List ℕ)
    → Below n xs
    → gather xs indices ≡ ok picked
    → Below n picked
unfolding gather
gather-Below n xs [] picked b h = subst (Below n) {x = []} {y = picked} (cc) tt
gather-Below n xs (i ∷ indices) picked b h =
    push-Below n (get_elem? xs i) (gather xs indices) picked
      (λ a e. All-get_elem? (λ (k : ℕ). k < n) xs i b e)
      (λ rest e. gather-Below n xs indices rest b e) h

take-Below : (n k : ℕ) (xs : List ℕ) → Below n xs → Below n (take k xs)
take-Below n zero xs h = tt
take-Below n (suc k) [] h = tt
take-Below n (suc k) (x ∷ xs) h = (h.0, take-Below n k xs h.1)

mark_total :
    (indices : List ℕ) (mask : List Bool)
    → Below (length mask) indices
    → (marked : List Bool) × (mark indices mask ≡ ok marked)
unfolding mark
mark_total [] mask h = (mask, refl)
mark_total (i ∷ indices) mask h =
    let (marked, is) =
      mark_total indices (set_true i mask)
        (subst (λ (n : ℕ). Below n indices) (sym (length-set_true i mask)) h.1) in
    let inside : ltb i (length mask) ≡ true = ground (arith, h.0) in (marked, rw inside is)

candidate_offsets_total :
    (rows cols : ℕ) (specs : List (String × CacheSpec))
    → All (InRows rows) specs
    → (offsets : List ℕ) × (candidate_offsets rows cols specs ≡ ok offsets)
      × Below (rows * cols) offsets
unfolding candidate_offsets
candidate_offsets_total rows cols [] h = ([], refl, tt)
candidate_offsets_total rows cols ((name, spec) ∷ rest) h =
    let (later, offsets, below) = candidate_offsets_total rows cols rest h.1 in
    let inside : ltb spec.layer_index rows ≡ true = ground (arith, h.0) in
    let within : suc spec.layer_index * cols ≤ rows * cols =
      mul-le-mul_right {m = suc spec.layer_index} {n = rows} cols h.0 in
    (
      range (spec.layer_index * cols) cols ++ later,
      rw (inside, offsets) refl,
      All-append _ (range (spec.layer_index * cols) cols) later
          (all_from _ (spec.layer_index * cols) cols (λ i l m. omega (arith, m, within))) below,
    )

select_layers_total :
    (mask : List Bool) (score_heads tp_rank tp_size : ℕ) (specs : List (String × CacheSpec))
    (selection : HeadSelection)
    → All (λ (x : String × CacheSpec). Fits score_heads tp_size (CacheSpec.num_kv_heads x.1)) specs
    → (last : HeadSelection) × (select_layers mask score_heads tp_rank tp_size specs selection
        ≡ ok last)
unfolding select_layers
select_layers_total mask score_heads tp_rank tp_size [] selection h = (selection, refl)
select_layers_total mask score_heads tp_rank tp_size ((name, spec) ∷ rest) selection h =
    let (start, starts) = start_of_total score_heads spec.num_kv_heads tp_rank tp_size h.0 in
    let (last, is) =
      select_layers_total mask score_heads tp_rank tp_size rest
        (record_layer spec.layer_index
          (local_mask mask score_heads spec.layer_index start spec.num_kv_heads) selection)
        h.1 in
    (last, rw starts is)

-- np.argsort gives indices of its argument.
module _ {Score : Type 0} (is_finite : Score → Bool) (argsort : List Score → List ℕ)
    (round_ratio : ℕ → ℕ) (sorts : (xs : List Score) → Below (length xs) (argsort xs)) where
  mark_lowest_total :
      (values : List Score) (candidates : List ℕ) (n : ℕ) (mask : List Bool)
      → length mask ≡ length values
      → Below (length values) candidates
      → (marked : List Bool) × (mark_lowest is_finite argsort round_ratio values candidates n mask
          ≡ ok marked)
  unfolding mark_lowest
  mark_lowest_total values candidates zero mask len below = (mask, refl)
  mark_lowest_total values candidates (suc n) mask len below =
      let (scores, gathered, len') = gather_total values candidates below in
      let sorted =
        take-Below (length candidates) (suc n) (argsort scores)
          (subst (λ (k : ℕ). Below k (argsort scores)) len' (sorts scores)) in
      let (lowest, picked, _) = gather_total candidates (take (suc n) (argsort scores)) sorted in
      let inside =
        gather-Below (length values) candidates (take (suc n) (argsort scores)) lowest below
          picked in
      let (marked, is) =
        mark_total lowest mask (subst (λ (k : ℕ). Below k lowest) (sym len) inside) in
      (marked, rw (gathered, picked) is)

  -- The split by head returns a selection for scores of a finite array of two dimensions that has a row for each
  -- layer, when each layer's heads fit the rows: as many, as many on all ranks together, or one that ranks share.
  pub build_head_selection_total :
      (load_scores : String → Array Score) (path : Option String) (tp_rank tp_size : ℕ)
      (scores : Option (Array Score)) (specs : List (String × CacheSpec)) (given : Array Score)
      (rows cols : ℕ)
      → loaded is_finite argsort round_ratio load_scores scores path ≡ ok given
      → given.shape ≡ rows ∷ cols ∷ []
      → length given.values ≡ rows * cols
      → all_finite is_finite given.values ≡ true
      → All (InRows rows) specs
      → All (λ (x : String × CacheSpec). Fits cols tp_size (CacheSpec.num_kv_heads x.1)) specs
      → (selection : HeadSelection) × (build_head_selection is_finite argsort round_ratio
            load_scores by_head path tp_rank tp_size scores specs
          ≡ ok selection)
  unfolding build_head_selection select_heads
  build_head_selection_total load_scores path tp_rank tp_size scores specs given rows cols is_given
        shape size finite inside fits =
      let (candidates, offsets, below) = candidate_offsets_total rows cols specs inside in
      let (mask, marks) =
        mark_lowest_total given.values candidates (round_ratio (length candidates))
          (replicate (rows * cols) false) (length-replicate (rows * cols) false ∙ sym size)
          (subst (λ (k : ℕ). Below k candidates) (sym size) below) in
      let (selection, selects) =
        select_layers_total mask cols tp_rank tp_size specs nothing_selected fits in
      (selection, rw (is_given, shape, finite, offsets, marks) selects)
