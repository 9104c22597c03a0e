-- ===== src/Scores/Selection.antt =====
-- The loop over the layers, and what build_head_selection returns.
use kvserve.Common.{
  ℕ, ◌*◌, ◌<◌, ◌≡◌, sym, subst, ◌∙◌, Bool, false, Bool-cases, inl, inr, Option, List, [], ◌∷◌, ◌++◌,
  String, length, replicate, length-replicate, All, arith,
}
use kvserve.Layout.Data.{CacheSpec, SplitType, by_head, by_layer}
use kvserve.Scores.{
  ok, Array, HeadSelection, nothing_selected, low_heads, high_heads, candidate_offsets, all_finite,
  start_of, local_mask, record_layer, select_layers, select_heads, mark_lowest, loaded,
  build_head_selection,
}
use kvserve.Scores.Orders.{
  IsOrder, IsSelected, Agrees, Holds, mask_IsOrder, written-IsSelected, written_keeps, same_heads,
  whole_layers-Holds,
}
use kvserve.Scores.Masks.{
  bind_returns, start_of_bound, length-local_mask, candidate_offsets_rows, mark_lowest-length,
}

abbrev pub InRows : ℕ → String × CacheSpec → Type 0
InRows rows x = CacheSpec.layer_index x.1 < rows

module _ (heads : ℕ → ℕ) (mask : List Bool) (rows score_heads tp_rank tp_size : ℕ)
    (len : length mask ≡ rows * score_heads) (rank : tp_rank < tp_size) where
  local_mask-IsOrder :
      (layer start n : ℕ)
      → layer < rows
      → start_of score_heads n tp_rank tp_size ≡ ok start
      → IsOrder n (length (low_heads 0 (local_mask mask score_heads layer start n))) (
          low_heads 0 (local_mask mask score_heads layer start n)
          ++ high_heads 0 (local_mask mask score_heads layer start n))
  local_mask-IsOrder layer start n l s =
      let chosen = local_mask mask score_heads layer start n in
      same_heads (length (low_heads 0 chosen)) (low_heads 0 chosen ++ high_heads 0 chosen)
        (length-local_mask mask rows score_heads layer start n len l
          (start_of_bound score_heads n tp_rank tp_size start rank s))
        (mask_IsOrder chosen)

  select_layers_keeps :
      (other : ℕ) (specs : List (String × CacheSpec)) (selection last : HeadSelection)
      → All (Agrees heads) specs
      → All (InRows rows) specs
      → select_layers mask score_heads tp_rank tp_size specs selection ≡ ok last
      → IsSelected selection other (heads other)
      → IsSelected last other (heads other)
  unfolding select_layers record_layer
  select_layers_keeps other [] selection last agrees inside h is =
      subst (λ (s : HeadSelection). IsSelected s other (heads other)) (cc) is
  select_layers_keeps other ((name, spec) ∷ rest) selection last agrees inside h is =
      let (start, starts, goes_on) =
        bind_returns (start_of score_heads spec.num_kv_heads tp_rank tp_size) _ last h in
      let chosen = local_mask mask score_heads spec.layer_index start spec.num_kv_heads in
      let low = length (low_heads 0 chosen) in
      let order = low_heads 0 chosen ++ high_heads 0 chosen in
      select_layers_keeps other rest _ last agrees.1 inside.1 goes_on (
        written_keeps heads spec.layer_index other low order selection
          (same_heads low order agrees.0
            (local_mask-IsOrder spec.layer_index start spec.num_kv_heads inside.0 starts))
          is)

  pub select_layers-Holds :
      (specs : List (String × CacheSpec)) (selection last : HeadSelection)
      → All (Agrees heads) specs
      → All (InRows rows) specs
      → select_layers mask score_heads tp_rank tp_size specs selection ≡ ok last
      → All (Holds last) specs
  unfolding select_layers record_layer
  select_layers-Holds [] selection last agrees inside h = tt
  select_layers-Holds ((name, spec) ∷ rest) selection last agrees inside h =
      let (start, starts, goes_on) =
        bind_returns (start_of score_heads spec.num_kv_heads tp_rank tp_size) _ last h in
      let next =
        record_layer spec.layer_index
          (local_mask mask score_heads spec.layer_index start spec.num_kv_heads) selection in
      (
        subst (IsSelected last spec.layer_index) (sym agrees.0) (
            select_layers_keeps spec.layer_index rest next last agrees.1 inside.1 goes_on (
              subst (IsSelected next spec.layer_index) agrees.0 (
                written-IsSelected spec.layer_index spec.num_kv_heads _ _ selection
                  (local_mask-IsOrder spec.layer_index start spec.num_kv_heads inside.0 starts)))),
        select_layers-Holds rest next last agrees.1 inside.1 goes_on,
      )

module _ {Score : Type 0} (is_finite : Score → Bool) (argsort : List Score → List ℕ)
    (round_ratio : ℕ → ℕ) (heads : ℕ → ℕ) (tp_rank tp_size : ℕ) (rank : tp_rank < tp_size) where
  select_heads-Holds :
      (shape : List ℕ) (values : List Score) (specs : List (String × CacheSpec))
      (selection : HeadSelection)
      → All (Agrees heads) specs
      → select_heads is_finite argsort round_ratio tp_rank tp_size specs shape values ≡ ok selection
      → All (Holds selection) specs
  unfolding select_heads
  select_heads-Holds [] values specs selection agrees h = absurd (ground (arith, h))
  select_heads-Holds (rows ∷ []) values specs selection agrees h = absurd (ground (arith, h))
  select_heads-Holds (rows ∷ cols ∷ more ∷ shape) values specs selection agrees h =
      absurd (ground (arith, h))
  select_heads-Holds (rows ∷ cols ∷ []) values specs selection agrees h =
      elim (Bool-cases (all_finite is_finite values)) [
        | inr e ↦ absurd (ground (arith, e, h))
        | inl e ↦
            let (candidates, offsets, marks) =
              bind_returns (candidate_offsets rows cols specs) _ selection (rw e at h) in
            let (mask, marked, selects) =
              bind_returns
                (mark_lowest is_finite argsort round_ratio values candidates
                  (round_ratio (length candidates)) (replicate (rows * cols) false))
                _ selection marks in
            select_layers-Holds heads mask rows cols tp_rank tp_size
              (mark_lowest-length is_finite argsort round_ratio values candidates _
                  (replicate (rows * cols) false) mask marked
                ∙ length-replicate (rows * cols) false)
              rank specs nothing_selected selection agrees
              (candidate_offsets_rows rows cols specs candidates offsets) selects
      ]

  -- Where build_head_selection returns a selection for layers of `heads` heads, and tp_rank is below tp_size, each
  -- layer has in it a number of low heads, found by layout.py and at most its heads, and an order that holds each of its heads once.
  pub build-Holds :
      (load_scores : String → Array Score) (split : SplitType) (path : Option String)
      (scores : Option (Array Score)) (specs : List (String × CacheSpec))
      (selection : HeadSelection)
      → All (Agrees heads) specs
      → build_head_selection is_finite argsort round_ratio load_scores split path tp_rank tp_size
          scores specs
        ≡ ok selection
      → All (Holds selection) specs
  unfolding build_head_selection
  build-Holds load_scores by_layer path scores specs selection agrees h =
      subst (λ (s : HeadSelection). All (Holds s) specs) (cc)
        (whole_layers-Holds heads specs nothing_selected agrees)
  build-Holds load_scores by_head path scores specs selection agrees h =
      let (given, _, selects) =
        bind_returns (loaded is_finite argsort round_ratio load_scores scores path) _ selection h in
      select_heads-Holds given.shape given.values specs selection agrees selects
