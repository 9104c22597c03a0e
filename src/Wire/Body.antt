-- ===== src/Wire/Body.antt =====
-- `_split_tensor_bytes` and `_restore_tensor_from_bytes`: a body that is too large travels in chunks.
use kvserve.Common.{
  ℕ, zero, suc, ◌+◌, ◌/◌, Option, none, some, List, [], ◌∷◌, ◌++◌, String, length, take, drop, map,
}
use kvserve.Wire.Torch.{Torch}

-- `_tensor_spec`
pub record Spec : Type 0 where
  pub shape : List ℕ
  pub dtype : String

-- The loop over range(0, numel, max_chunk_bytes), by the number of its steps.
unfoldable pub slices : List ℕ → ℕ → ℕ → ℕ → List (List ℕ)
slices bytes start size zero = []
slices bytes start size (suc n) = take size (drop start bytes) ∷ slices bytes (start + size) size n

unfoldable pub concat : List (List ℕ) → List ℕ
concat [] = []
concat (xs ∷ xss) = xs ++ concat xss

module _ {Tensor : Type 0} (torch : Torch Tensor) where
  unfoldable pub tensor_spec : Tensor → Spec
  tensor_spec t = record { shape = Torch.shape torch t; dtype = Torch.dtype torch t }

  -- `none` is the ValueError of a chunk size that is not positive.
  unfoldable pub split_tensor_bytes : Tensor → ℕ → Option (List Tensor)
  split_tensor_bytes t zero = none
  split_tensor_bytes t (suc m) =
      let bytes = Torch.flat torch (Torch.contiguous torch t) in
      some (map (Torch.of_bytes torch) (slices bytes 0 (suc m) ((length bytes + m) / suc m)))

  -- `torch.cat([chunk.contiguous().view(torch.uint8) ...])`
  unfoldable pub cat : List Tensor → List ℕ
  cat [] = []
  cat (t ∷ ts) = Torch.flat torch (Torch.contiguous torch t) ++ cat ts

  unfoldable pub restore_tensor_from_bytes : List ℕ → Spec → Option Tensor
  restore_tensor_from_bytes bytes spec =
      Torch.view torch 0 (Spec.dtype spec) (Spec.shape spec) bytes
