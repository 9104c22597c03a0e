-- ===== src/Wire/Metadata.antt =====
-- The metadata dictionaries come back with their quantisation parameters.
use kvserve.Common.{
  ◌≡◌, refl, sym, ap, ap₂, ◌∙◌, Bool-cases, inl, inr, some, List, [], ◌∷◌, ◌++◌, str_eq,
  if◌then◌else◌, All, All-append,
}
use mathlib.Core.List.{append_assoc, append-nil}
use kvserve.Wire.Torch.{Torch, Laws}
use kvserve.Wire.Obj.{
  Obj, atom, index, text, tensor, array, tuple, dict, Items, no_items, item, Fields, no_fields,
  field, dict_of, field_of,
}
use kvserve.Wire.Coalesce.{also}
use kvserve.Wire.Packing.{
  tensors, tensors_items, tensors_fields, received, Plain, pack-tensors, unpack-pack, split_first,
  split_second,
}
use kvserve.Wire.Expanding.{IsContiguous}
use kvserve.Wire.Build.{quantization_params, pack_entry, pack_metadata, pack_all}
use kvserve.Wire.Restore.{unpack_entry, unpack_metadata, unpack_all}

module _ {Tensor Atom : Type 0} (torch : Torch Tensor) where
  unfoldable pub tensors_entry : Fields Tensor Atom → List Tensor
  tensors_entry no_fields = []
  tensors_entry (field k v fs) =
      let rest = tensors_entry fs in if str_eq k quantization_params then tensors torch v else rest

  unfoldable pub tensors_metadata : Obj Tensor Atom → List Tensor
  tensors_metadata (dict fs) = tensors_entry fs
  tensors_metadata other = []

  unfoldable pub tensors_all : List (Obj Tensor Atom) → List Tensor
  tensors_all [] = []
  tensors_all (m ∷ ms) = tensors_metadata m ++ tensors_all ms

  -- What comes back of metadata: its quantisation parameters as they are received.
  unfoldable pub received_entry : Fields Tensor Atom → Fields Tensor Atom
  received_entry no_fields = no_fields
  received_entry (field k v fs) =
      let rest = received_entry fs in
      if str_eq k quantization_params then field k (received torch v) fs else field k v rest

  unfoldable pub received_metadata : Obj Tensor Atom → Obj Tensor Atom
  received_metadata (dict fs) = dict (received_entry fs)
  received_metadata other = other

  unfoldable pub received_all : List (Obj Tensor Atom) → List (Obj Tensor Atom)
  received_all [] = []
  received_all (m ∷ ms) = received_metadata m ∷ received_all ms

module _ {Tensor Atom : Type 0} (torch : Torch Tensor) where
  -- The quantisation parameters have no list that looks like a placeholder.
  unfoldable pub PlainEntry : Fields Tensor Atom → Type 0
  PlainEntry no_fields = Unit
  PlainEntry (field k v fs) =
      let rest = PlainEntry fs in if str_eq k quantization_params then Plain torch v else rest

  unfoldable pub PlainMetadata : Obj Tensor Atom → Type 0
  PlainMetadata (dict fs) = PlainEntry fs
  PlainMetadata other = Unit

module _ {Tensor Atom : Type 0} (torch : Torch Tensor) where
  pack_entry-tensors :
      (fs : Fields Tensor Atom) (aux : List Tensor)
      → (pack_entry torch fs aux).1 ≡ aux ++ tensors_entry torch fs
  unfolding pack_entry tensors_entry
  pack_entry-tensors no_fields aux = sym (append-nil aux)
  pack_entry-tensors (field k v fs) aux = elim (Bool-cases (str_eq k quantization_params)) [
    | inl e ↦ rw e (pack-tensors torch v aux)
    | inr e ↦ rw e (pack_entry-tensors fs aux)
  ]

  unpack_entry-pack :
      (fs : Fields Tensor Atom) (aux rest all : List Tensor)
      → all ≡ aux ++ (tensors_entry torch fs ++ rest)
      → PlainEntry torch fs
      → unpack_entry (pack_entry torch fs aux).0 all ≡ some (received_entry torch fs)
  unfolding pack_entry unpack_entry tensors_entry received_entry PlainEntry
  unpack_entry-pack no_fields aux rest all h p = refl
  unpack_entry-pack (field k v fs) aux rest all h p =
      elim (Bool-cases (str_eq k quantization_params)) [
        | inl e ↦ rw e (
            rw e (
              ap (λ w. field_of k w (some fs))
                (unpack-pack torch v aux rest all (rw e at h) (rw e at p))))
        | inr e ↦ rw e (
            rw e (
              ap (field_of k (some v)) (unpack_entry-pack fs aux rest all (rw e at h) (rw e at p))))
      ]

  pub pack_metadata-tensors :
      (o : Obj Tensor Atom) (aux : List Tensor)
      → (pack_metadata torch o aux).1 ≡ aux ++ tensors_metadata torch o
  unfolding pack_metadata tensors_metadata
  pack_metadata-tensors (dict fs) aux = pack_entry-tensors fs aux
  pack_metadata-tensors (tensor t) aux = sym (append-nil aux)
  pack_metadata-tensors (array xs) aux = sym (append-nil aux)
  pack_metadata-tensors (tuple xs) aux = sym (append-nil aux)
  pack_metadata-tensors (atom a) aux = sym (append-nil aux)
  pack_metadata-tensors (index i) aux = sym (append-nil aux)
  pack_metadata-tensors (text s) aux = sym (append-nil aux)

  pub unpack_metadata-pack_metadata :
      (o : Obj Tensor Atom) (aux rest all : List Tensor)
      → all ≡ aux ++ (tensors_metadata torch o ++ rest)
      → PlainMetadata torch o
      → unpack_metadata (pack_metadata torch o aux).0 all ≡ some (received_metadata torch o)
  unfolding pack_metadata unpack_metadata tensors_metadata received_metadata PlainMetadata
  unpack_metadata-pack_metadata (dict fs) aux rest all h p =
      ap dict_of (unpack_entry-pack fs aux rest all h p)
  unpack_metadata-pack_metadata (tensor t) aux rest all h p = refl
  unpack_metadata-pack_metadata (array xs) aux rest all h p = refl
  unpack_metadata-pack_metadata (tuple xs) aux rest all h p = refl
  unpack_metadata-pack_metadata (atom a) aux rest all h p = refl
  unpack_metadata-pack_metadata (index i) aux rest all h p = refl
  unpack_metadata-pack_metadata (text s) aux rest all h p = refl

  pub pack_all-tensors :
      (ms : List (Obj Tensor Atom)) (aux : List Tensor)
      → (pack_all torch ms aux).1 ≡ aux ++ tensors_all torch ms
  unfolding pack_all tensors_all
  pack_all-tensors [] aux = sym (append-nil aux)
  pack_all-tensors (m ∷ ms) aux =
      pack_all-tensors ms (pack_metadata torch m aux).1
      ∙ ap (λ before. before ++ tensors_all torch ms) (pack_metadata-tensors m aux)
      ∙ append_assoc aux (tensors_metadata torch m) (tensors_all torch ms)

  pub unpack_all-pack_all :
      (ms : List (Obj Tensor Atom)) (aux rest all : List Tensor)
      → all ≡ aux ++ (tensors_all torch ms ++ rest)
      → All (PlainMetadata torch) ms
      → unpack_all (pack_all torch ms aux).0 all ≡ some (received_all torch ms)
  unfolding pack_all unpack_all tensors_all received_all
  unpack_all-pack_all [] aux rest all h p = refl
  unpack_all-pack_all (m ∷ ms) aux rest all h p =
      ap₂ also
        (unpack_metadata-pack_metadata m aux (tensors_all torch ms ++ rest) all
          (split_first all aux (tensors_metadata torch m) (tensors_all torch ms) rest h) p.0)
        (unpack_all-pack_all ms (pack_metadata torch m aux).1 rest all
          (split_second all aux (pack_metadata torch m aux).1 (tensors_metadata torch m)
            (tensors_all torch ms) rest (pack_metadata-tensors m aux) h)
          p.1)

module _ {Tensor Atom : Type 0} (torch : Torch Tensor) (laws : Laws torch) where
  mutual
    unfolding tensors

    tensors-IsContiguous : (o : Obj Tensor Atom) → All (IsContiguous torch) (tensors torch o)
    tensors-IsContiguous (tensor t) = (laws.contiguous-contiguous t, tt)
    tensors-IsContiguous (array xs) = tensors_items-IsContiguous xs
    tensors-IsContiguous (tuple xs) = tensors_items-IsContiguous xs
    tensors-IsContiguous (dict fs) = tensors_fields-IsContiguous fs
    tensors-IsContiguous (atom a) = tt
    tensors-IsContiguous (index i) = tt
    tensors-IsContiguous (text s) = tt

    tensors_items-IsContiguous :
        (xs : Items Tensor Atom) → All (IsContiguous torch) (tensors_items torch xs)
    tensors_items-IsContiguous no_items = tt
    tensors_items-IsContiguous (item x xs) =
        All-append (IsContiguous torch) (tensors torch x) (tensors_items torch xs)
          (tensors-IsContiguous x) (tensors_items-IsContiguous xs)

    tensors_fields-IsContiguous :
        (fs : Fields Tensor Atom) → All (IsContiguous torch) (tensors_fields torch fs)
    tensors_fields-IsContiguous no_fields = tt
    tensors_fields-IsContiguous (field k v fs) =
        All-append (IsContiguous torch) (tensors torch v) (tensors_fields torch fs)
          (tensors-IsContiguous v) (tensors_fields-IsContiguous fs)

  tensors_entry-IsContiguous :
      (fs : Fields Tensor Atom) → All (IsContiguous torch) (tensors_entry torch fs)
  unfolding tensors_entry
  tensors_entry-IsContiguous no_fields = tt
  tensors_entry-IsContiguous (field k v fs) = elim (Bool-cases (str_eq k quantization_params)) [
    | inl e ↦ rw e (tensors-IsContiguous v)
    | inr e ↦ rw e (tensors_entry-IsContiguous fs)
  ]

  pub tensors_metadata-IsContiguous :
      (o : Obj Tensor Atom) → All (IsContiguous torch) (tensors_metadata torch o)
  unfolding tensors_metadata
  tensors_metadata-IsContiguous (dict fs) = tensors_entry-IsContiguous fs
  tensors_metadata-IsContiguous (tensor t) = tt
  tensors_metadata-IsContiguous (array xs) = tt
  tensors_metadata-IsContiguous (tuple xs) = tt
  tensors_metadata-IsContiguous (atom a) = tt
  tensors_metadata-IsContiguous (index i) = tt
  tensors_metadata-IsContiguous (text s) = tt

  pub tensors_all-IsContiguous :
      (ms : List (Obj Tensor Atom)) → All (IsContiguous torch) (tensors_all torch ms)
  unfolding tensors_all
  tensors_all-IsContiguous [] = tt
  tensors_all-IsContiguous (m ∷ ms) =
      All-append (IsContiguous torch) (tensors_metadata torch m) (tensors_all torch ms)
        (tensors_metadata-IsContiguous m) (tensors_all-IsContiguous ms)
