-- ===== src/Transport/Payload.antt =====
-- The payloads of nccl_transport.py and their sizes. torch's `element_size` of a dtype is a
-- parameter; a tensor is what `_tensor_spec` says of it, its shape and the name of its dtype.
use kvserve.Common.{ℕ, ◌+◌, ◌*◌, List, [], ◌∷◌, ◌++◌, String}

pub record Spec : Type 0 where
  pub shape : List ℕ
  pub dtype : String

-- A tensor, a bundle of body chunks and auxiliary tensors, or FAILED_PAYLOAD.
pub data Payload : Type 0 where
  tensor : Spec → Payload
  bundle : List Spec → List Spec → Payload
  failed : Payload

-- math.prod
unfoldable pub prod : List ℕ → ℕ
prod [] = 1
prod (d ∷ ds) = d * prod ds

module _ (element_size : String → ℕ) where
  -- `_tensor_nbytes` and `_spec_nbytes`
  unfoldable pub spec_nbytes : Spec → ℕ
  unfolding prod
  spec_nbytes s = prod s.shape * element_size s.dtype

  unfoldable pub specs_nbytes : List Spec → ℕ
  unfolding spec_nbytes
  specs_nbytes [] = 0
  specs_nbytes (s ∷ ss) = spec_nbytes s + specs_nbytes ss

  -- `_payload_nbytes`
  unfoldable pub payload_nbytes : Payload → ℕ
  unfolding specs_nbytes
  payload_nbytes (tensor s) = spec_nbytes s
  payload_nbytes (bundle body aux) = specs_nbytes (body ++ aux)
  payload_nbytes failed = 0
