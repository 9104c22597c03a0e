-- ===== src/Wire/Torch.antt =====
-- What wire.py uses of torch. A tensor's bytes are those of `t.contiguous().view(torch.uint8).flatten()`.
use kvserve.Common.{ℕ, ◌%◌, ◌≡◌, ◌<◌, Option, some, List, String}

pub record Torch (Tensor : Type 0) : Type 0 where
  pub contiguous : Tensor → Tensor
  pub shape : Tensor → List ℕ
  pub dtype : Tensor → String
  pub element_size : Tensor → ℕ
  pub flat : Tensor → List ℕ
  -- A flat uint8 tensor.
  pub of_bytes : List ℕ → Tensor
  -- Bytes that begin at an offset of their storage, as a dtype and a shape; `none` is torch's error.
  pub view : ℕ → String → List ℕ → List ℕ → Option Tensor

-- The documented behaviour of these calls: `contiguous` changes neither contents nor metadata; a view as
-- another dtype wants the storage offset to be a multiple of its element size.
pub record Laws {Tensor : Type 0} (torch : Torch Tensor) : Type 0 where
  pub element_size_positive : (t : Tensor) → 0 < Torch.element_size torch t
  pub contiguous-contiguous :
      (t : Tensor) → Torch.contiguous torch (Torch.contiguous torch t) ≡ Torch.contiguous torch t
  pub flat-contiguous :
      (t : Tensor) → Torch.flat torch (Torch.contiguous torch t) ≡ Torch.flat torch t
  pub flat-of_bytes : (bytes : List ℕ) → Torch.flat torch (Torch.of_bytes torch bytes) ≡ bytes
  pub view-flat :
      (t : Tensor) (offset : ℕ)
      → offset % Torch.element_size torch t ≡ 0
      → Torch.view torch offset (Torch.dtype torch t) (Torch.shape torch t) (Torch.flat torch t)
        ≡ some (Torch.contiguous torch t)
