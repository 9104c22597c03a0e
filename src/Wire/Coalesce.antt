-- ===== src/Wire/Coalesce.antt =====
-- `_coalesce_aux_tensors` and `_expand_aux_tensors`: many small tensors travel as one of bytes.
use kvserve.Common.{
  ℕ, ◌+◌, ◌-◌, ◌%◌, Option, none, some, List, [], ◌∷◌, ◌++◌, String, str_eq, length, take, drop,
  replicate, if◌then◌else◌, ◌==◌,
}
use kvserve.Wire.Torch.{Torch}

pub record AuxSpec : Type 0 where
  pub storage : ℕ
  pub offset : ℕ
  pub nbytes : ℕ
  pub shape : List ℕ
  pub dtype : String

pub record AuxLayout : Type 0 where
  pub mode : String
  pub tensors : List AuxSpec

abbrev pub coalesced_bytes : String
coalesced_bytes = "coalesced_bytes"

-- `(-offset) % itemsize`
unfoldable pub padding : ℕ → ℕ → ℕ
padding offset itemsize = (itemsize - offset % itemsize) % itemsize

abbrev pub also {ℓ} : {A : Type ℓ} → Option A → Option (List A) → Option (List A)
also (some x) (some xs) = some (x ∷ xs)
also _ _ = none

module _ {Tensor : Type 0} (torch : Torch Tensor) where
  -- The loop over the tensors: the bytes of `byte_chunks`, one behind the other, and the layout.
  unfoldable pub coalesce_from : ℕ → List Tensor → List ℕ × List AuxSpec
  coalesce_from offset [] = ([], [])
  coalesce_from offset (u ∷ us) =
      let t = Torch.contiguous torch u in
      let pad = padding offset (Torch.element_size torch t) in
      let bytes = Torch.flat torch t in
      let (more, layout) = coalesce_from (offset + pad + length bytes) us in
      (
        replicate pad 0 ++ (bytes ++ more),
        record {
          storage = 0;
          offset = offset + pad;
          nbytes = length bytes;
          shape = Torch.shape torch t;
          dtype = Torch.dtype torch t;
        }
            ∷ layout,
      )

  -- The tensors that travel, and the layout that is put into the metadata, if any.
  unfoldable pub coalesce : List Tensor → List Tensor × Option AuxLayout
  coalesce [] = ([], none)
  coalesce (t ∷ []) = (t ∷ [], none)
  coalesce (t ∷ u ∷ us) =
      let (bytes, layout) = coalesce_from 0 (t ∷ u ∷ us) in
      (Torch.of_bytes torch bytes ∷ [], some (record { mode = coalesced_bytes; tensors = layout }))

  -- The loop over the layout. `none` is an error of the source or of torch.
  unfoldable pub expand_from : List ℕ → List AuxSpec → Option (List Tensor)
  expand_from storage [] = some []
  expand_from storage (s ∷ ss) =
      let here =
        Torch.view torch (AuxSpec.offset s) (AuxSpec.dtype s) (AuxSpec.shape s)
          (take (AuxSpec.nbytes s) (drop (AuxSpec.offset s) storage)) in
      let later = expand_from storage ss in if AuxSpec.storage s == 0 then also here later else none

  unfoldable pub expand_storage : List Tensor → List AuxSpec → Option (List Tensor)
  expand_storage [] layout = some []
  expand_storage (t ∷ ts) layout = expand_from (Torch.flat torch (Torch.contiguous torch t)) layout

  unfoldable pub expand : List Tensor → Option AuxLayout → Option (List Tensor)
  expand wire none = some wire
  expand wire (some layout) =
      if str_eq (AuxLayout.mode layout) coalesced_bytes
      then expand_storage wire (AuxLayout.tensors layout)
      else none
