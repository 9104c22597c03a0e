-- ===== src/Wire/Tests.antt =====
-- A torch of bytes, and a payload with two parameters that travels in chunks of three bytes.
use kvserve.Common.{
  ℕ, ◌%◌, ◌<◌, ◌≡◌, refl, Bool, true, false, inr, none, some, List, [], ◌∷◌, map, String, str_eq,
  ◌==◌, if◌then◌else◌, arith,
}
use kvserve.Wire.Torch.{Torch, Laws}
use kvserve.Wire.Obj.{
  Obj, index, text, tensor, array, tuple, dict, no_items, item, no_fields, field, pack,
  placeholder_of, has_tensor,
}
use kvserve.Wire.Coalesce.{coalesce_from, coalesce, expand, padding}
use kvserve.Wire.Body.{slices, split_tensor_bytes, tensor_spec}
use kvserve.Wire.Build.{
  CompressedKvData, CompressedWire, Meta, byte_chunks, Built, raises, built, missing_tensor,
  tensor_left, quantization_params, build_wire,
}
use kvserve.Wire.Restore.{restore_from_wire}
use kvserve.Wire.Expanding.{expand-coalesce}
use kvserve.Wire.Packing.{Plain}
use kvserve.Wire.Metadata.{PlainMetadata}
use kvserve.Wire.Roundtrip.{received_data, restore-build_wire}
use kvserve.Wire.Success.{Tidy, TidyEntry, build_wire_total}

record ByteTensor : Type 0 where
  dims : List ℕ
  name : String
  bytes : List ℕ

abbrev item_size : String → ℕ
item_size name = if str_eq name "bfloat16" then 2 else 1

abbrev byte_torch : Torch ByteTensor
byte_torch = record {
  contiguous = λ t. t;
  shape = ByteTensor.dims;
  dtype = ByteTensor.name;
  element_size = λ t. item_size (ByteTensor.name t);
  flat = ByteTensor.bytes;
  of_bytes = λ bs. record { dims = []; name = "uint8"; bytes = bs };
  view = λ offset name dims bs.
      if offset % item_size name == 0
      then some (record { dims = dims; name = name; bytes = bs })
      else none;
}

item_size_positive : (b : Bool) → 0 < (if b then 2 else 1)
item_size_positive true = omega arith
item_size_positive false = omega arith

byte_torch-Laws : Laws byte_torch
byte_torch-Laws = record {
  element_size_positive = λ t. item_size_positive (str_eq (ByteTensor.name t) "bfloat16");
  contiguous-contiguous = λ t. refl;
  flat-contiguous = λ t. refl;
  flat-of_bytes = λ bs. refl;
  view-flat = λ t offset aligned. rw (aligned) refl;
}

abbrev text_of : Obj ByteTensor ℕ → String
text_of (text s) = s
text_of _ = "object"

abbrev low_end : ByteTensor
low_end = record { dims = 1 ∷ []; name = "uint8"; bytes = 7 ∷ [] }

abbrev step_size : ByteTensor
step_size = record { dims = 2 ∷ []; name = "bfloat16"; bytes = 1 ∷ 2 ∷ 3 ∷ 4 ∷ [] }

abbrev body : ByteTensor
body = record { dims = 7 ∷ []; name = "uint8"; bytes = 10 ∷ 11 ∷ 12 ∷ 13 ∷ 14 ∷ 15 ∷ 16 ∷ [] }

abbrev payload : CompressedKvData ByteTensor ℕ
payload = record {
  request_id = "request-1";
  layer_id = 0;
  compressed_tensor = some body;
  metadata = dict (
      field "request_id" (text "request-1") (
        field quantization_params
          (dict (
            field "min" (tensor low_end)
              (field "scale" (tuple (item (tensor step_size) no_items)) no_fields)))
          no_fields));
  original_size = 28;
  compressed_size = 7;
  is_chunked = false;
  chunks = [];
  chunk_metadata = [];
}

abbrev bytes_of : Built (CompressedWire ByteTensor ℕ) → List (List ℕ)
bytes_of (raises why) = []
bytes_of (built w) = map ByteTensor.bytes (CompressedWire.body_chunks w)

abbrev parameters_of : Built (CompressedWire ByteTensor ℕ) → List (List ℕ)
parameters_of (raises why) = []
parameters_of (built w) = map ByteTensor.bytes (CompressedWire.aux_tensors w)

three_chunks :
    bytes_of (build_wire byte_torch payload 3)
    ≡ (10 ∷ 11 ∷ 12 ∷ []) ∷ (13 ∷ 14 ∷ 15 ∷ []) ∷ (16 ∷ []) ∷ []
unfolding build_wire kvserve.Wire.Build.body_of split_tensor_bytes kvserve.Wire.Build.sealed
    has_tensor kvserve.Wire.Build.single_wire kvserve.Wire.Build.pack_metadata
    kvserve.Wire.Build.pack_entry pack kvserve.Wire.Build.any_tensor slices
three_chunks = refl

-- One byte of padding keeps the step_size at an even offset.
one_padding : parameters_of (build_wire byte_torch payload 3) ≡ (7 ∷ 0 ∷ 1 ∷ 2 ∷ 3 ∷ 4 ∷ []) ∷ []
unfolding build_wire kvserve.Wire.Build.body_of split_tensor_bytes kvserve.Wire.Build.sealed
    has_tensor kvserve.Wire.Build.single_wire kvserve.Wire.Build.pack_metadata
    kvserve.Wire.Build.pack_entry pack kvserve.Wire.Build.any_tensor coalesce coalesce_from padding
one_padding = refl

no_body :
    build_wire byte_torch (record payload { compressed_tensor = none }) 3 ≡ raises missing_tensor
unfolding build_wire
no_body = refl

tensor_elsewhere :
    build_wire byte_torch (record payload { metadata = tensor low_end }) 3 ≡ raises tensor_left
unfolding build_wire kvserve.Wire.Build.body_of split_tensor_bytes kvserve.Wire.Build.sealed
    has_tensor kvserve.Wire.Build.single_wire kvserve.Wire.Build.pack_metadata
tensor_elsewhere = refl

build_wire_total_example :
    (w : CompressedWire ByteTensor ℕ) × (build_wire byte_torch payload 3 ≡ built w)
unfolding Tidy TidyEntry has_tensor
build_wire_total_example =
    build_wire_total byte_torch payload 3 (inr (refl, omega arith, (body, refl))) (refl, refl) tt

abbrev travelling : CompressedWire ByteTensor ℕ
travelling = record {
  meta = record {
    is_chunked = false;
    layer_id = 0;
    original_size = 28;
    compressed_size = 7;
    metadata = dict (
        field "request_id" (text "request-1") (
          field "quantization_params"
            (dict (
              field "min" (array (item (text "__kvserve_aux_tensor__") (item (index 0) no_items))) (
                field "scale"
                  (array (
                    item (array (item (text "__kvserve_aux_tensor__") (item (index 1) no_items)))
                      no_items))
                  no_fields)))
            no_fields));
    chunk_metadata = [];
    body_mode = byte_chunks;
    body_spec = some record { shape = 7 ∷ []; dtype = "uint8" };
    aux_layout = some record {
      mode = "coalesced_bytes";
      tensors =
          record { storage = 0; offset = 0; nbytes = 1; shape = 1 ∷ []; dtype = "uint8" }
          ∷ record { storage = 0; offset = 2; nbytes = 4; shape = 2 ∷ []; dtype = "bfloat16" }
          ∷ [];
    };
  };
  body_chunks =
      record { dims = []; name = "uint8"; bytes = 10 ∷ 11 ∷ 12 ∷ [] }
      ∷ record { dims = []; name = "uint8"; bytes = 13 ∷ 14 ∷ 15 ∷ [] }
      ∷ record { dims = []; name = "uint8"; bytes = 16 ∷ [] }
      ∷ [];
  aux_tensors = record { dims = []; name = "uint8"; bytes = 7 ∷ 0 ∷ 1 ∷ 2 ∷ 3 ∷ 4 ∷ [] } ∷ [];
}

travelling_built : build_wire byte_torch payload 3 ≡ built travelling
unfolding build_wire kvserve.Wire.Build.body_of split_tensor_bytes kvserve.Wire.Build.sealed
    has_tensor kvserve.Wire.Build.single_wire kvserve.Wire.Build.pack_metadata
    kvserve.Wire.Build.pack_entry pack kvserve.Wire.Build.any_tensor tensor_spec coalesce slices
    coalesce_from padding
travelling_built = refl

restore-build_wire_example :
    restore_from_wire byte_torch text_of travelling
    ≡ some (received_data byte_torch byte_torch-Laws text_of payload)
unfolding PlainMetadata Plain kvserve.Wire.Metadata.PlainEntry placeholder_of
restore-build_wire_example =
    restore-build_wire byte_torch byte_torch-Laws text_of payload 3 travelling travelling_built
      ((tt, ((refl, (tt, tt)), tt))) tt

expand-coalesce_example :
    expand byte_torch
      (coalesce byte_torch (low_end ∷ step_size ∷ [])).0
      (coalesce byte_torch (low_end ∷ step_size ∷ [])).1
    ≡ some (low_end ∷ step_size ∷ [])
expand-coalesce_example =
    expand-coalesce byte_torch byte_torch-Laws (low_end ∷ step_size ∷ []) (refl, (refl, tt))
