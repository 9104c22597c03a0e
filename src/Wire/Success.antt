-- ===== src/Wire/Success.antt =====
-- When build_wire returns a wire.
use kvserve.Common.{
  ℕ, zero, suc, ◌≤◌, ◌≡◌, refl, ap, ap₂, ◌∙◌, true, false, Bool-cases, ◌⊎◌, inl, inr, ◌||◌, some,
  List, [], ◌∷◌, str_eq, ltb, length, if◌then◌else◌, All, arith,
}
use kvserve.Wire.Torch.{Torch}
use kvserve.Wire.Obj.{
  Obj, atom, index, text, tensor, array, tuple, dict, Fields, no_fields, field, has_tensor,
  fields_have_tensor,
}
use kvserve.Wire.Body.{split_tensor_bytes}
use kvserve.Wire.Packing.{has_tensor-pack}
use kvserve.Wire.Build.{
  CompressedKvData, BodyMode, CompressedWire, Meta, missing_chunks, raises, built, is_empty,
  quantization_params, pack_entry, pack_metadata, pack_all, any_tensor, sealed, chunked_wire,
  single_wire, build_chunked, body_of, build_single, build_body, build_wire,
}

module _ {Tensor Atom : Type 0} where
  -- Metadata with no tensor outside their quantisation parameters.
  unfoldable pub TidyEntry : Fields Tensor Atom → Type 0
  TidyEntry no_fields = Unit
  TidyEntry (field k v fs) =
      let rest = TidyEntry fs in
      if str_eq k quantization_params
      then fields_have_tensor fs ≡ false
      else (has_tensor v ≡ false) × rest

  unfoldable pub Tidy : Obj Tensor Atom → Type 0
  Tidy (dict fs) = TidyEntry fs
  Tidy other = has_tensor other ≡ false

module _ {Tensor : Type 0} (torch : Torch Tensor) where
  body_of_total :
      (body : Tensor) (size : ℕ)
      → 1 ≤ size
      → (parts : List Tensor × BodyMode) × (body_of torch body size ≡ some parts)
  unfolding body_of split_tensor_bytes
  body_of_total body zero h = absurd (omega (arith, h))
  body_of_total body (suc m) h = elim (Bool-cases (ltb (suc m) (length (Torch.flat torch body)))) [
    | inl large ↦ rw large (_, refl)
    | inr small ↦ rw small (_, refl)
  ]

module _ {Tensor Atom : Type 0} (torch : Torch Tensor) where
  fields_have_tensor-pack_entry :
      (fs : Fields Tensor Atom) (aux : List Tensor)
      → TidyEntry fs
      → fields_have_tensor (pack_entry torch fs aux).0 ≡ false
  unfolding pack_entry TidyEntry has_tensor
  fields_have_tensor-pack_entry no_fields aux h = refl
  fields_have_tensor-pack_entry (field k v fs) aux h =
      elim (Bool-cases (str_eq k quantization_params)) [
        | inl e ↦ rw e (rw (has_tensor-pack torch v aux) (rw e at h))
        | inr e ↦ rw e (rw ((rw e at h).0) (fields_have_tensor-pack_entry fs aux (rw e at h).1))
      ]

  has_tensor-pack_metadata :
      (o : Obj Tensor Atom) (aux : List Tensor)
      → Tidy o
      → has_tensor (pack_metadata torch o aux).0 ≡ false
  unfolding pack_metadata Tidy has_tensor
  has_tensor-pack_metadata (dict fs) aux h = fields_have_tensor-pack_entry fs aux h
  has_tensor-pack_metadata (tensor t) aux h = h
  has_tensor-pack_metadata (array xs) aux h = h
  has_tensor-pack_metadata (tuple xs) aux h = h
  has_tensor-pack_metadata (atom a) aux h = h
  has_tensor-pack_metadata (index i) aux h = h
  has_tensor-pack_metadata (text s) aux h = h

  any_tensor-pack_all :
      (ms : List (Obj Tensor Atom)) (aux : List Tensor)
      → All Tidy ms
      → any_tensor torch (pack_all torch ms aux).0 ≡ false
  unfolding pack_all any_tensor
  any_tensor-pack_all [] aux h = refl
  any_tensor-pack_all (m ∷ ms) aux h =
      rw (has_tensor-pack_metadata m aux h.0)
        (any_tensor-pack_all ms (pack_metadata torch m aux).1 h.1)

  -- There is a body: chunks with their metadata, or a tensor that fits in one chunk or is split into
  -- chunks of a positive size.
  abbrev pub HasBody : CompressedKvData Tensor Atom → ℕ → Type 0
  HasBody c size =
      ((CompressedKvData.is_chunked c ≡ true)
        × (is_empty (CompressedKvData.chunks c) ≡ false)
        × (is_empty (CompressedKvData.chunk_metadata c) ≡ false))
      ⊎ ((CompressedKvData.is_chunked c ≡ false)
          × (1 ≤ size)
          × ((t : Tensor) × (CompressedKvData.compressed_tensor c ≡ some t)))

  sealed_built :
      (wire : CompressedWire Tensor Atom)
      → has_tensor (Meta.metadata (CompressedWire.meta wire)) ≡ false
      → any_tensor torch (Meta.chunk_metadata (CompressedWire.meta wire)) ≡ false
      → sealed torch wire ≡ built wire
  unfolding sealed
  sealed_built wire h hs = rw (h, hs) refl

  chunked_built :
      (c : CompressedKvData Tensor Atom)
      → Tidy (CompressedKvData.metadata c)
      → All Tidy (CompressedKvData.chunk_metadata c)
      → sealed torch (chunked_wire torch c) ≡ built (chunked_wire torch c)
  unfolding chunked_wire
  chunked_built c h hs =
      sealed_built _ (has_tensor-pack_metadata (CompressedKvData.metadata c) [] h) (
        any_tensor-pack_all (CompressedKvData.chunk_metadata c)
          (pack_metadata torch (CompressedKvData.metadata c) []).1 hs)

  single_built :
      (c : CompressedKvData Tensor Atom) (body : Tensor) (chunks : List Tensor) (mode : BodyMode)
      → Tidy (CompressedKvData.metadata c)
      → sealed torch (single_wire torch c body chunks mode)
        ≡ built (single_wire torch c body chunks mode)
  unfolding single_wire any_tensor
  single_built c body chunks mode h =
      sealed_built _ (has_tensor-pack_metadata (CompressedKvData.metadata c) [] h) refl

  build_wire-chunked :
      (c : CompressedKvData Tensor Atom) (size : ℕ)
      → CompressedKvData.is_chunked c ≡ true
      → build_wire torch c size ≡ build_chunked torch c
  unfolding build_wire
  build_wire-chunked c size h =
      ap
        (λ b.
          if b
          then build_chunked torch c
          else build_body torch c size (CompressedKvData.compressed_tensor c))
        h

  build_wire-single :
      (c : CompressedKvData Tensor Atom) (size : ℕ) (t : Tensor)
      → CompressedKvData.is_chunked c ≡ false
      → CompressedKvData.compressed_tensor c ≡ some t
      → build_wire torch c size ≡ build_body torch c size (some t)
  unfolding build_wire
  build_wire-single c size t h present =
      ap
        (λ b.
          if b
          then build_chunked torch c
          else build_body torch c size (CompressedKvData.compressed_tensor c))
        h
      ∙ ap (build_body torch c size) present

  -- When there is a body, and no tensor stands in the metadata but in their quantisation parameters,
  -- build_wire returns a wire.
  pub build_wire_total :
      (c : CompressedKvData Tensor Atom) (max_chunk_bytes : ℕ)
      → HasBody c max_chunk_bytes
      → Tidy (CompressedKvData.metadata c)
      → All Tidy (CompressedKvData.chunk_metadata c)
      → (w : CompressedWire Tensor Atom) × (build_wire torch c max_chunk_bytes ≡ built w)
  unfolding build_chunked
  build_wire_total c size (inl (chunked, chunks, metadata)) h hs = (
    chunked_wire torch c,
    build_wire-chunked c size chunked
        ∙ ap₂ (λ a b. if a || b then raises missing_chunks else sealed torch (chunked_wire torch c))
            chunks metadata
        ∙ chunked_built c h hs,
  )
  build_wire_total c size (inr (unchunked, positive, (t, present))) h hs =
      let (parts, e) = body_of_total torch (Torch.contiguous torch t) size positive in
      (
        single_wire torch c (Torch.contiguous torch t) parts.0 parts.1,
        build_wire-single c size t unchunked present
            ∙ ap (build_single torch c (Torch.contiguous torch t)) e
            ∙ single_built c (Torch.contiguous torch t) parts.0 parts.1 h,
      )
