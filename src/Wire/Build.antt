-- ===== src/Wire/Build.antt =====
-- `build_wire` and `restore_from_wire`. A layer's index and the sizes are natural numbers.
use kvserve.Common.{
  ℕ, Bool, true, false, ◌||◌, Option, none, some, List, [], ◌∷◌, String, str_eq, ltb, length,
  if◌then◌else◌,
}
use kvserve.Wire.Torch.{Torch}
use kvserve.Wire.Obj.{Obj, dict, Fields, no_fields, field, pack, has_tensor}
use kvserve.Wire.Coalesce.{AuxLayout, coalesce}
use kvserve.Wire.Body.{Spec, tensor_spec, split_tensor_bytes}

-- compression_manager.py, `CompressedKVData`; None in place of a list is the empty list.
pub record CompressedKvData (Tensor Atom : Type 0) : Type 0 where
  pub request_id : String
  pub layer_id : ℕ
  pub compressed_tensor : Option Tensor
  pub metadata : Obj Tensor Atom
  pub original_size : ℕ
  pub compressed_size : ℕ
  pub is_chunked : Bool
  pub chunks : List Tensor
  pub chunk_metadata : List (Obj Tensor Atom)

pub data BodyMode : Type 0 where
  manager_chunks single byte_chunks : BodyMode

-- The dictionary `meta`, with the entries of either form.
pub record Meta (Tensor Atom : Type 0) : Type 0 where
  pub is_chunked : Bool
  pub layer_id : ℕ
  pub original_size : ℕ
  pub compressed_size : ℕ
  pub metadata : Obj Tensor Atom
  pub chunk_metadata : List (Obj Tensor Atom)
  pub body_mode : BodyMode
  pub body_spec : Option Spec
  pub aux_layout : Option AuxLayout

pub record CompressedWire (Tensor Atom : Type 0) : Type 0 where
  pub meta : Meta Tensor Atom
  pub body_chunks : List Tensor
  pub aux_tensors : List Tensor

pub data Error : Type 0 where
  missing_chunks missing_tensor bad_chunk_size tensor_left : Error

pub data Built {κ} (B : Type κ) : Type κ where
  raises : (why : Error) → Built B
  built : (value : B) → Built B

abbrev pub quantization_params : String
quantization_params = "quantization_params"

abbrev pub is_empty {ℓ} : {A : Type ℓ} → List A → Bool
is_empty [] = true
is_empty (x ∷ xs) = false

module _ {Tensor : Type 0} where
  -- The body's chunks and mode; `none` is the ValueError of a bad chunk size.
  abbrev pub chunked_body : Option (List Tensor) → Option (List Tensor × BodyMode)
  chunked_body none = none
  chunked_body (some chunks) = some (chunks, byte_chunks)

module _ {Tensor : Type 0} (torch : Torch Tensor) where
  -- `[chunk.contiguous() for chunk in compressed.chunks]`
  unfoldable pub contiguous_all : List Tensor → List Tensor
  contiguous_all [] = []
  contiguous_all (t ∷ ts) = Torch.contiguous torch t ∷ contiguous_all ts

  unfoldable pub contiguous_option : Option Tensor → Option Tensor
  contiguous_option none = none
  contiguous_option (some t) = some (Torch.contiguous torch t)

  -- A body of more bytes than fit in one chunk is split. Its bytes number `numel() * element_size()`.
  unfoldable pub body_of : Tensor → ℕ → Option (List Tensor × BodyMode)
  body_of body max_chunk_bytes =
      if ltb max_chunk_bytes (length (Torch.flat torch body))
      then chunked_body (split_tensor_bytes torch body max_chunk_bytes)
      else some (body ∷ [], single)

module _ {Tensor Atom : Type 0} (torch : Torch Tensor) where
  -- The entry of a dictionary that `_pack_metadata` replaces; a dictionary has it once at most.
  unfoldable pub pack_entry : Fields Tensor Atom → List Tensor → Fields Tensor Atom × List Tensor
  pack_entry no_fields aux = (no_fields, aux)
  pack_entry (field k v fs) aux =
      let (w, packed) = pack torch v aux in
      let (rest, aux') = pack_entry fs aux in
      if str_eq k quantization_params then (field k w fs, packed) else (field k v rest, aux')

  unfoldable pub pack_metadata : Obj Tensor Atom → List Tensor → Obj Tensor Atom × List Tensor
  pack_metadata (dict fs) aux = let (gs, aux') = pack_entry fs aux in (dict gs, aux')
  pack_metadata other aux = (other, aux)

  unfoldable pub pack_all :
      List (Obj Tensor Atom) → List Tensor → List (Obj Tensor Atom) × List Tensor
  pack_all [] aux = ([], aux)
  pack_all (m ∷ ms) aux =
      let (n, aux') = pack_metadata m aux in let (ns, aux'') = pack_all ms aux' in (n ∷ ns, aux'')

  unfoldable pub any_tensor : List (Obj Tensor Atom) → Bool
  any_tensor [] = false
  any_tensor (m ∷ ms) = has_tensor m || any_tensor ms

  -- `_assert_no_tensor(meta)`
  unfoldable pub sealed : CompressedWire Tensor Atom → Built (CompressedWire Tensor Atom)
  sealed wire =
      let meta = CompressedWire.meta wire in
      if has_tensor (Meta.metadata meta) || any_tensor (Meta.chunk_metadata meta)
      then raises tensor_left
      else built wire

  unfoldable pub chunked_wire : CompressedKvData Tensor Atom → CompressedWire Tensor Atom
  chunked_wire c =
      let (metadata, aux) = pack_metadata (CompressedKvData.metadata c) [] in
      let (chunk_metadata, aux') = pack_all (CompressedKvData.chunk_metadata c) aux in
      let (wire_aux, layout) = coalesce torch aux' in
      record {
        meta = record {
          is_chunked = true;
          layer_id = CompressedKvData.layer_id c;
          original_size = CompressedKvData.original_size c;
          compressed_size = CompressedKvData.compressed_size c;
          metadata = metadata;
          chunk_metadata = chunk_metadata;
          body_mode = manager_chunks;
          body_spec = none;
          aux_layout = layout;
        };
        body_chunks = contiguous_all torch (CompressedKvData.chunks c);
        aux_tensors = wire_aux;
      }

  unfoldable pub build_chunked : CompressedKvData Tensor Atom → Built (CompressedWire Tensor Atom)
  build_chunked c =
      if is_empty (CompressedKvData.chunks c) || is_empty (CompressedKvData.chunk_metadata c)
      then raises missing_chunks
      else sealed (chunked_wire c)

  unfoldable pub single_wire :
      CompressedKvData Tensor Atom → Tensor → List Tensor → BodyMode → CompressedWire Tensor Atom
  single_wire c body chunks mode =
      let (metadata, aux) = pack_metadata (CompressedKvData.metadata c) [] in
      let (wire_aux, layout) = coalesce torch aux in
      record {
        meta = record {
          is_chunked = false;
          layer_id = CompressedKvData.layer_id c;
          original_size = CompressedKvData.original_size c;
          compressed_size = CompressedKvData.compressed_size c;
          metadata = metadata;
          chunk_metadata = [];
          body_mode = mode;
          body_spec = some (tensor_spec torch body);
          aux_layout = layout;
        };
        body_chunks = chunks;
        aux_tensors = wire_aux;
      }

  abbrev pub build_single :
      CompressedKvData Tensor Atom
      → Tensor
      → Option (List Tensor × BodyMode)
      → Built (CompressedWire Tensor Atom)
  build_single c body none = raises bad_chunk_size
  build_single c body (some (chunks, mode)) = sealed (single_wire c body chunks mode)

  abbrev pub build_body :
      CompressedKvData Tensor Atom → ℕ → Option Tensor → Built (CompressedWire Tensor Atom)
  build_body c max_chunk_bytes none = raises missing_tensor
  build_body c max_chunk_bytes (some t) =
      let body = Torch.contiguous torch t in
      build_single c body (body_of torch body max_chunk_bytes)

  unfoldable pub build_wire : CompressedKvData Tensor Atom → ℕ → Built (CompressedWire Tensor Atom)
  build_wire c max_chunk_bytes =
      if CompressedKvData.is_chunked c
      then build_chunked c
      else build_body c max_chunk_bytes (CompressedKvData.compressed_tensor c)
