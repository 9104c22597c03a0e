-- ===== src/Wire/Roundtrip.antt =====
-- What is restored from a wire is what it was built of.
use kvserve.Common.{
  ℕ, ◌≡◌, refl, sym, ap, subst, ◌∙◌, Bool, true, false, Bool-cases, inl, inr, Option, none, some,
  List, [], ◌++◌, String, ltb, length, if◌then◌else◌, All, All-append, arith,
}
use mathlib.Core.List.{append-nil}
use native.Mathlib.Nat.{zero-mod}
use kvserve.Wire.Torch.{Torch, Laws}
use kvserve.Wire.Obj.{Obj}
use kvserve.Wire.Body.{tensor_spec, split_tensor_bytes, restore_tensor_from_bytes}
use kvserve.Wire.Build.{
  CompressedKvData, BodyMode, CompressedWire, Error, Built, raises, built, pack_metadata, pack_all,
  contiguous_all, contiguous_option, sealed, chunked_wire, single_wire, build_chunked, chunked_body,
  body_of, build_single, build_body, build_wire,
}
use kvserve.Wire.Restore.{request_id_of, body_tensor, restore_with, restore_from_wire}
use kvserve.Wire.Expanding.{IsContiguous, expand-coalesce}
use kvserve.Wire.Splitting.{cat-split_tensor_bytes}
use kvserve.Wire.Metadata.{
  tensors_metadata, tensors_all, received_metadata, received_all, PlainMetadata,
  pack_metadata-tensors, pack_all-tensors, unpack_metadata-pack_metadata, unpack_all-pack_all,
  tensors_metadata-IsContiguous, tensors_all-IsContiguous,
}

if-built {ℓ} :
    {A : Type ℓ} (b : Bool) (e : Error) (m : Built A) (a : A)
    → (if b then raises e else m) ≡ built a
    → m ≡ built a
if-built true e m a h = absurd (cc)
if-built false e m a h = h

some-injective {ℓ} : {A : Type ℓ} {a b : A} → some a ≡ some b → a ≡ b
some-injective h = cc

module _ {Tensor Atom : Type 0} (torch : Torch Tensor) (laws : Laws torch)
    (str_of : Obj Tensor Atom → String) where
  -- The data as the consumer has it: tensors are contiguous, tuples are lists, and the request is the
  -- one that the metadata name.
  unfoldable pub received_data : CompressedKvData Tensor Atom → CompressedKvData Tensor Atom
  received_data c =
      let inner = received_metadata torch (CompressedKvData.metadata c) in
      let chunked = CompressedKvData.is_chunked c in
      record {
        request_id = request_id_of str_of inner;
        layer_id = CompressedKvData.layer_id c;
        compressed_tensor =
            if chunked
            then none
            else contiguous_option torch (CompressedKvData.compressed_tensor c);
        metadata = inner;
        original_size = CompressedKvData.original_size c;
        compressed_size = CompressedKvData.compressed_size c;
        is_chunked = chunked;
        chunks = if chunked then contiguous_all torch (CompressedKvData.chunks c) else [];
        chunk_metadata =
            if chunked then received_all torch (CompressedKvData.chunk_metadata c) else [];
      }

  sealed_wire : (wire w : CompressedWire Tensor Atom) → sealed torch wire ≡ built w → wire ≡ w
  unfolding sealed
  sealed_wire wire w h = ground arith

  body_tensor-chunked :
      (body : Tensor) (size : ℕ) (split : Option (List Tensor))
      → split_tensor_bytes torch body size ≡ split
      → (chunks : List Tensor) (mode : BodyMode) → Torch.contiguous torch body ≡ body
      → chunked_body split ≡ some (chunks, mode)
      → body_tensor torch str_of mode chunks (some (tensor_spec torch body)) ≡ some body
  unfolding body_tensor restore_tensor_from_bytes tensor_spec
  body_tensor-chunked body size none e chunks mode c h = absurd (cc)
  body_tensor-chunked body size (some cs) e chunks mode c h =
      subst
        (λ (p : List Tensor × BodyMode).
          body_tensor torch str_of p.1 p.0 (some (tensor_spec torch body)) ≡ some body)
        (some-injective h)
        (ap (Torch.view torch 0 (Torch.dtype torch body) (Torch.shape torch body))
            (cat-split_tensor_bytes torch laws body size cs e)
          ∙ laws.view-flat body 0 (zero-mod (Torch.element_size torch body))
          ∙ ap some c)

  body_tensor-body_of :
      (body : Tensor) (size : ℕ) (chunks : List Tensor) (mode : BodyMode)
      → Torch.contiguous torch body ≡ body
      → body_of torch body size ≡ some (chunks, mode)
      → body_tensor torch str_of mode chunks (some (tensor_spec torch body)) ≡ some body
  unfolding body_of body_tensor
  body_tensor-body_of body size chunks mode c h =
      elim (Bool-cases (ltb size (length (Torch.flat torch body)))) [
        | inl large ↦
            body_tensor-chunked body size (split_tensor_bytes torch body size) refl chunks mode c
              (rw large at h)
        | inr small ↦
            subst
              (λ (p : List Tensor × BodyMode).
                body_tensor torch str_of p.1 p.0 (some (tensor_spec torch body)) ≡ some body)
              (some-injective (rw small at h)) refl
      ]

  restore-chunked_wire :
      (c : CompressedKvData Tensor Atom)
      → CompressedKvData.is_chunked c ≡ true
      → PlainMetadata torch (CompressedKvData.metadata c)
      → All (PlainMetadata torch) (CompressedKvData.chunk_metadata c)
      → restore_from_wire torch str_of (chunked_wire torch c) ≡ some (received_data c)
  unfolding chunked_wire restore_from_wire restore_with received_data
  restore-chunked_wire c chunked plain plains =
      let m = CompressedKvData.metadata c in
      let ms = CompressedKvData.chunk_metadata c in
      let first = (pack_metadata torch m []).1 in
      let all = (pack_all torch ms first).1 in
      let gathered : all ≡ first ++ tensors_all torch ms = pack_all-tensors torch ms first in
      let whole : all ≡ tensors_metadata torch m ++ tensors_all torch ms =
        gathered ∙ ap (λ ts. ts ++ tensors_all torch ms) (pack_metadata-tensors torch m []) in
      let contiguous = subst (All (IsContiguous torch)) (sym whole) (
        All-append (IsContiguous torch) _ _ (tensors_metadata-IsContiguous torch laws m)
          (tensors_all-IsContiguous torch laws ms)) in
      let e = expand-coalesce torch laws all contiguous in
      let e1 = unpack_metadata-pack_metadata torch m [] (tensors_all torch ms) all whole plain in
      let e2 =
        unpack_all-pack_all torch ms first [] all
          (gathered ∙ ap (◌++◌ first) (sym (append-nil (tensors_all torch ms)))) plains in
      rw (e) (rw (e1) (rw (e2, chunked) refl))

  restore-single_wire :
      (c : CompressedKvData Tensor Atom) (t : Tensor) (size : ℕ) (chunks : List Tensor)
      (mode : BodyMode)
      → CompressedKvData.is_chunked c ≡ false
      → CompressedKvData.compressed_tensor c ≡ some t
      → body_of torch (Torch.contiguous torch t) size ≡ some (chunks, mode)
      → PlainMetadata torch (CompressedKvData.metadata c)
      → restore_from_wire torch str_of (single_wire torch c (Torch.contiguous torch t) chunks mode)
        ≡ some (received_data c)
  unfolding single_wire restore_from_wire restore_with received_data contiguous_option
  restore-single_wire c t size chunks mode unchunked present body plain =
      let m = CompressedKvData.metadata c in
      let all = (pack_metadata torch m []).1 in
      let whole : all ≡ tensors_metadata torch m = pack_metadata-tensors torch m [] in
      let contiguous =
        subst (All (IsContiguous torch)) (sym whole) (tensors_metadata-IsContiguous torch laws m) in
      let e = expand-coalesce torch laws all contiguous in
      let e1 =
        unpack_metadata-pack_metadata torch m [] [] all
          (whole ∙ sym (append-nil (tensors_metadata torch m))) plain in
      let e2 =
        body_tensor-body_of (Torch.contiguous torch t) size chunks mode
          (laws.contiguous-contiguous t) body in
      rw (e) (rw (e1) (rw (e2, unchunked, present) refl))

  restore-build_single :
      (c : CompressedKvData Tensor Atom) (size : ℕ) (w : CompressedWire Tensor Atom) (t : Tensor)
      (body : Option (List Tensor × BodyMode))
      → body_of torch (Torch.contiguous torch t) size ≡ body
      → CompressedKvData.is_chunked c ≡ false
      → CompressedKvData.compressed_tensor c ≡ some t
      → build_single torch c (Torch.contiguous torch t) body ≡ built w
      → PlainMetadata torch (CompressedKvData.metadata c)
      → restore_from_wire torch str_of w ≡ some (received_data c)
  restore-build_single c size w t none e unchunked present h plain = absurd (cc)
  restore-build_single c size w t (some (chunks, mode)) e unchunked present h plain =
      subst (λ w. restore_from_wire torch str_of w ≡ some (received_data c)) (sealed_wire _ w h)
        (restore-single_wire c t size chunks mode unchunked present e plain)

  restore-build_body :
      (c : CompressedKvData Tensor Atom) (size : ℕ) (w : CompressedWire Tensor Atom)
      (body : Option Tensor)
      → CompressedKvData.compressed_tensor c ≡ body
      → CompressedKvData.is_chunked c ≡ false
      → build_body torch c size body ≡ built w
      → PlainMetadata torch (CompressedKvData.metadata c)
      → restore_from_wire torch str_of w ≡ some (received_data c)
  restore-build_body c size w none e unchunked h plain = absurd (cc)
  restore-build_body c size w (some t) e unchunked h plain =
      restore-build_single c size w t (body_of torch (Torch.contiguous torch t) size) refl unchunked
        e h plain

  -- Whenever build_wire returns a wire, of data whose quantisation parameters have no list that looks
  -- like a placeholder, restore_from_wire returns the data from it: the same sizes, the same body and
  -- chunks, and all metadata with their tensors, whether the body was split or not.
  pub restore-build_wire :
      (c : CompressedKvData Tensor Atom) (max_chunk_bytes : ℕ) (w : CompressedWire Tensor Atom)
      → build_wire torch c max_chunk_bytes ≡ built w
      → PlainMetadata torch (CompressedKvData.metadata c)
      → All (PlainMetadata torch) (CompressedKvData.chunk_metadata c)
      → restore_from_wire torch str_of w ≡ some (received_data c)
  unfolding build_wire build_chunked chunked_wire single_wire
  restore-build_wire c size w h plain plains = elim (Bool-cases (CompressedKvData.is_chunked c)) [
    | inl chunked ↦
        subst (λ w. restore_from_wire torch str_of w ≡ some (received_data c))
          (sealed_wire (chunked_wire torch c) w (if-built _ _ _ w (rw chunked at h)))
          (restore-chunked_wire c chunked plain plains)
    | inr unchunked ↦
        restore-build_body c size w (CompressedKvData.compressed_tensor c) refl unchunked
          (rw unchunked at h) plain
  ]
