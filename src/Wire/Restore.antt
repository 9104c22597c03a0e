-- ===== src/Wire/Restore.antt =====
-- `restore_from_wire`. `none` is an error that the source raises.
use kvserve.Common.{Option, none, some, List, [], ◌∷◌, String, str_eq, if◌then◌else◌}
use kvserve.Wire.Torch.{Torch}
use kvserve.Wire.Obj.{Obj, dict, Fields, no_fields, field, dict_of, field_of, unpack}
use kvserve.Wire.Coalesce.{expand, also}
use kvserve.Wire.Body.{Spec, cat, restore_tensor_from_bytes}
use kvserve.Wire.Build.{
  CompressedKvData, BodyMode, byte_chunks, Meta, CompressedWire, quantization_params,
}

module _ {Tensor Atom : Type 0} where
  unfoldable pub unpack_entry : Fields Tensor Atom → List Tensor → Option (Fields Tensor Atom)
  unpack_entry no_fields aux = some no_fields
  unpack_entry (field k v fs) aux =
      let rest = unpack_entry fs aux in
      if str_eq k quantization_params
      then field_of k (unpack v aux) (some fs)
      else field_of k (some v) rest

  -- `_unpack_metadata`
  unfoldable pub unpack_metadata : Obj Tensor Atom → List Tensor → Option (Obj Tensor Atom)
  unpack_metadata (dict fs) aux = dict_of (unpack_entry fs aux)
  unpack_metadata other aux = some other

  unfoldable pub unpack_all : List (Obj Tensor Atom) → List Tensor → Option (List (Obj Tensor Atom))
  unpack_all [] aux = some []
  unpack_all (m ∷ ms) aux = also (unpack_metadata m aux) (unpack_all ms aux)

  -- `str(inner_meta.get("request_id", "unknown"))`, where `str_of` is str() on what is not a text.
  unfoldable pub request_id_in : (Obj Tensor Atom → String) → Fields Tensor Atom → String
  request_id_in str_of no_fields = "unknown"
  request_id_in str_of (field k v fs) =
      let rest = request_id_in str_of fs in if str_eq k "request_id" then str_of v else rest

  unfoldable pub request_id_of : (Obj Tensor Atom → String) → Obj Tensor Atom → String
  request_id_of str_of (dict fs) = request_id_in str_of fs
  request_id_of str_of other = "unknown"

module _ {Tensor Atom : Type 0} (torch : Torch Tensor) (str_of : Obj Tensor Atom → String) where
  -- The tensor that the body's chunks make.
  unfoldable pub body_tensor : BodyMode → List Tensor → Option Spec → Option Tensor
  body_tensor byte_chunks chunks none = none
  body_tensor byte_chunks chunks (some spec) =
      restore_tensor_from_bytes torch (cat torch chunks) spec
  body_tensor mode [] spec = none
  body_tensor mode (t ∷ ts) spec = some t

  -- The data with what is restored of the body.
  abbrev pub data_of :
      Meta Tensor Atom
      → Obj Tensor Atom
      → List Tensor
      → Option Tensor
      → List (Obj Tensor Atom)
      → CompressedKvData Tensor Atom
  data_of meta inner chunks body chunk_metadata = record {
    request_id = request_id_of str_of inner;
    layer_id = Meta.layer_id meta;
    compressed_tensor = body;
    metadata = inner;
    original_size = Meta.original_size meta;
    compressed_size = Meta.compressed_size meta;
    is_chunked = Meta.is_chunked meta;
    chunks = chunks;
    chunk_metadata = chunk_metadata;
  }

  abbrev pub chunked_data :
      Meta Tensor Atom
      → Obj Tensor Atom
      → List Tensor
      → Option (List (Obj Tensor Atom))
      → Option (CompressedKvData Tensor Atom)
  chunked_data meta inner chunks none = none
  chunked_data meta inner chunks (some ms) = some (data_of meta inner chunks none ms)

  abbrev pub single_data :
      Meta Tensor Atom → Obj Tensor Atom → Option Tensor → Option (CompressedKvData Tensor Atom)
  single_data meta inner none = none
  single_data meta inner (some t) = some (data_of meta inner [] (some t) [])

  unfoldable pub restore_with :
      CompressedWire Tensor Atom
      → List Tensor
      → Option (Obj Tensor Atom)
      → Option (CompressedKvData Tensor Atom)
  restore_with wire aux none = none
  restore_with wire aux (some inner) =
      let meta = CompressedWire.meta wire in
      let body = CompressedWire.body_chunks wire in
      if Meta.is_chunked meta
      then chunked_data meta inner body (unpack_all (Meta.chunk_metadata meta) aux)
      else single_data meta inner (body_tensor (Meta.body_mode meta) body (Meta.body_spec meta))

  abbrev pub restore_expanded :
      CompressedWire Tensor Atom → Option (List Tensor) → Option (CompressedKvData Tensor Atom)
  restore_expanded wire none = none
  restore_expanded wire (some aux) =
      restore_with wire aux (unpack_metadata (Meta.metadata (CompressedWire.meta wire)) aux)

  unfoldable pub restore_from_wire :
      CompressedWire Tensor Atom → Option (CompressedKvData Tensor Atom)
  restore_from_wire wire =
      restore_expanded wire (
        expand torch (CompressedWire.aux_tensors wire) (Meta.aux_layout (CompressedWire.meta wire)))
