-- ===== src/Wire/Splitting.antt =====
-- The chunks of a body hold its bytes in order.
use kvserve.Common.{
  ℕ, zero, suc, ◌+◌, ◌*◌, ◌/◌, ◌≤◌, ◌≡◌, refl, sym, ap, ap₂, ◌∙◌, some, List, [], ◌∷◌, ◌++◌, length,
  take, drop, take_all, drop-drop, take-append-take-drop, map, arith,
}
use native.Mathlib.Nat.{lt-div-mul-add}
use kvserve.Wire.Torch.{Torch, Laws}
use kvserve.Wire.Body.{slices, concat, split_tensor_bytes, cat}

concat-slices :
    (bytes : List ℕ) (start size n : ℕ)
    → concat (slices bytes start size n) ≡ take (n * size) (drop start bytes)
unfolding concat slices
concat-slices bytes start size zero =
    ap (λ k. take k (drop start bytes)) {x = 0} {y = 0 * size} (omega arith)
concat-slices bytes start size (suc n) =
    ap (◌++◌ (take size (drop start bytes))) (
      concat-slices bytes (start + size) size n
      ∙ ap (take (n * size)) (sym (drop-drop start size bytes)))
    ∙ take-append-take-drop size (n * size) (drop start bytes)
    ∙ ap (λ k. take k (drop start bytes)) {x = size + n * size} {y = suc n * size} (omega arith)

-- That many steps of the loop reach the end.
steps_suffice : (len m : ℕ) → len ≤ (len + m) / suc m * suc m
steps_suffice len m = omega (arith, lt-div-mul-add {a = len + m} {b = suc m} (omega arith))

module _ {Tensor : Type 0} (torch : Torch Tensor) (laws : Laws torch) where
  cat-map : (chunks : List (List ℕ)) → cat torch (map (Torch.of_bytes torch) chunks) ≡ concat chunks
  unfolding cat concat
  cat-map [] = refl
  cat-map (bytes ∷ chunks) =
      ap₂ ◌++◌ (laws.flat-contiguous (Torch.of_bytes torch bytes) ∙ laws.flat-of_bytes bytes)
        (cat-map chunks)

  -- A body that is split comes together again.
  pub cat-split_tensor_bytes :
      (t : Tensor) (size : ℕ) (chunks : List Tensor)
      → split_tensor_bytes torch t size ≡ some chunks
      → cat torch chunks ≡ Torch.flat torch t
  unfolding split_tensor_bytes
  cat-split_tensor_bytes t zero chunks h = absurd (cc)
  cat-split_tensor_bytes t (suc m) chunks h =
      let bytes = Torch.flat torch (Torch.contiguous torch t) in
      let n = (length bytes + m) / suc m in
      let e : map (Torch.of_bytes torch) (slices bytes 0 (suc m) n) ≡ chunks = cc in
      ap (cat torch) (sym e)
      ∙ cat-map (slices bytes 0 (suc m) n)
      ∙ concat-slices bytes 0 (suc m) n
      ∙ take_all (n * suc m) bytes (steps_suffice (length bytes) m)
      ∙ laws.flat-contiguous t
