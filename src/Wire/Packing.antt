-- ===== src/Wire/Packing.antt =====
-- Unpacking gives back what was packed.
use kvserve.Common.{
  ℕ, ◌≡◌, refl, sym, ap, ◌∙◌, false, none, some, List, [], ◌∷◌, ◌++◌, length, get_elem?, arith,
}
use mathlib.Core.List.{append_assoc, append-nil}
use kvserve.Wire.Torch.{Torch}
use kvserve.Wire.Obj.{
  Obj, atom, index, text, tensor, array, tuple, dict, Items, no_items, item, Fields, no_fields,
  field, placeholder, pack, pack_items, pack_fields, placeholder_of, unpack, unpack_items,
  unpack_fields, has_tensor, items_have_tensor, fields_have_tensor,
}

pub get_elem?-append {ℓ} :
    {A : Type ℓ} (xs : List A) (y : A) (ys : List A)
    → get_elem? (xs ++ (y ∷ ys)) (length xs) ≡ some y
get_elem?-append [] y ys = refl
get_elem?-append (x ∷ xs) y ys = get_elem?-append xs y ys

-- Where the tensors of two neighbours lie in the whole list.
pub split_first {ℓ} :
    {A : Type ℓ} (all aux xs ys rest : List A)
    → all ≡ aux ++ ((xs ++ ys) ++ rest)
    → all ≡ aux ++ (xs ++ (ys ++ rest))
split_first all aux xs ys rest h = h ∙ ap (◌++◌ aux) (append_assoc xs ys rest)

pub split_second {ℓ} :
    {A : Type ℓ} (all aux before xs ys rest : List A)
    → before ≡ aux ++ xs
    → all ≡ aux ++ ((xs ++ ys) ++ rest)
    → all ≡ before ++ (ys ++ rest)
split_second all aux before xs ys rest e h =
    split_first all aux xs ys rest h
    ∙ sym (append_assoc aux xs (ys ++ rest))
    ∙ ap (λ zs. zs ++ (ys ++ rest)) (sym e)

placed {ℓ} :
    {A : Type ℓ} (all aux rest : List A) (t : A)
    → all ≡ aux ++ ((t ∷ []) ++ rest)
    → get_elem? all (length aux) ≡ some t
placed all aux rest t h = ap (λ ts. get_elem? ts (length aux)) h ∙ get_elem?-append aux t rest

placeholder_of-placeholder :
    (Tensor Atom : Type 0) (n : ℕ)
    → placeholder_of {Tensor = Tensor} {Atom = Atom}
        (item (text placeholder) (item (index n) no_items))
      ≡ some (some n)
unfolding placeholder_of
placeholder_of-placeholder Tensor Atom n = refl

module _ {Tensor Atom : Type 0} (torch : Torch Tensor) where
  -- The tensors of an object in the order in which they are packed.
  unfoldable mutual
    pub tensors : Obj Tensor Atom → List Tensor
    tensors (tensor t) = Torch.contiguous torch t ∷ []
    tensors (array xs) = tensors_items xs
    tensors (tuple xs) = tensors_items xs
    tensors (dict fs) = tensors_fields fs
    tensors (atom a) = []
    tensors (index i) = []
    tensors (text s) = []

    pub tensors_items : Items Tensor Atom → List Tensor
    tensors_items no_items = []
    tensors_items (item x xs) = tensors x ++ tensors_items xs

    pub tensors_fields : Fields Tensor Atom → List Tensor
    tensors_fields no_fields = []
    tensors_fields (field k v fs) = tensors v ++ tensors_fields fs

  -- What comes back: tensors are contiguous, and a tuple is a list.
  unfoldable mutual
    pub received : Obj Tensor Atom → Obj Tensor Atom
    received (tensor t) = tensor (Torch.contiguous torch t)
    received (array xs) = array (received_items xs)
    received (tuple xs) = array (received_items xs)
    received (dict fs) = dict (received_fields fs)
    received (atom a) = atom a
    received (index i) = index i
    received (text s) = text s

    pub received_items : Items Tensor Atom → Items Tensor Atom
    received_items no_items = no_items
    received_items (item x xs) = item (received x) (received_items xs)

    pub received_fields : Fields Tensor Atom → Fields Tensor Atom
    received_fields no_fields = no_fields
    received_fields (field k v fs) = field k (received v) (received_fields fs)

  mutual
    unfolding pack tensors

    pub pack-tensors :
        (o : Obj Tensor Atom) (aux : List Tensor) → (pack torch o aux).1 ≡ aux ++ tensors o
    pack-tensors (tensor t) aux = refl
    pack-tensors (array xs) aux = pack_items-tensors xs aux
    pack-tensors (tuple xs) aux = pack_items-tensors xs aux
    pack-tensors (dict fs) aux = pack_fields-tensors fs aux
    pack-tensors (atom a) aux = sym (append-nil aux)
    pack-tensors (index i) aux = sym (append-nil aux)
    pack-tensors (text s) aux = sym (append-nil aux)

    pack_items-tensors :
        (xs : Items Tensor Atom) (aux : List Tensor)
        → (pack_items torch xs aux).1 ≡ aux ++ tensors_items xs
    pack_items-tensors no_items aux = sym (append-nil aux)
    pack_items-tensors (item x xs) aux =
        pack_items-tensors xs (pack torch x aux).1
        ∙ ap (λ before. before ++ tensors_items xs) (pack-tensors x aux)
        ∙ append_assoc aux (tensors x) (tensors_items xs)

    pack_fields-tensors :
        (fs : Fields Tensor Atom) (aux : List Tensor)
        → (pack_fields torch fs aux).1 ≡ aux ++ tensors_fields fs
    pack_fields-tensors no_fields aux = sym (append-nil aux)
    pack_fields-tensors (field k v fs) aux =
        pack_fields-tensors fs (pack torch v aux).1
        ∙ ap (λ before. before ++ tensors_fields fs) (pack-tensors v aux)
        ∙ append_assoc aux (tensors v) (tensors_fields fs)

  -- No list or tuple of two looks like a placeholder.
  unfoldable mutual
    pub Plain : Obj Tensor Atom → Type 0
    Plain (tensor t) = Unit
    Plain (array xs) = (placeholder_of xs ≡ none) × PlainItems xs
    Plain (tuple xs) = (placeholder_of xs ≡ none) × PlainItems xs
    Plain (dict fs) = PlainFields fs
    Plain (atom a) = Unit
    Plain (index i) = Unit
    Plain (text s) = Unit

    pub PlainItems : Items Tensor Atom → Type 0
    PlainItems no_items = Unit
    PlainItems (item x xs) = Plain x × PlainItems xs

    pub PlainFields : Fields Tensor Atom → Type 0
    PlainFields no_fields = Unit
    PlainFields (field k v fs) = Plain v × PlainFields fs

  placeholder_of-pack_items :
      (xs : Items Tensor Atom) (aux : List Tensor)
      → placeholder_of xs ≡ none
      → placeholder_of (pack_items torch xs aux).0 ≡ none
  unfolding placeholder_of pack
  placeholder_of-pack_items no_items aux h = refl
  placeholder_of-pack_items (item (text s) no_items) aux h = refl
  placeholder_of-pack_items (item (text s) (item x no_items)) aux h = ground arith
  placeholder_of-pack_items (item (text s) (item x (item y ys))) aux h = refl
  placeholder_of-pack_items (item (atom a) xs) aux h = refl
  placeholder_of-pack_items (item (index i) xs) aux h = refl
  placeholder_of-pack_items (item (tensor t) xs) aux h = refl
  placeholder_of-pack_items (item (array ys) xs) aux h = refl
  placeholder_of-pack_items (item (tuple ys) xs) aux h = refl
  placeholder_of-pack_items (item (dict fs) xs) aux h = refl

  mutual
    unfolding pack unpack tensors received Plain

    pub unpack-pack :
        (o : Obj Tensor Atom) (aux rest all : List Tensor)
        → all ≡ aux ++ (tensors o ++ rest)
        → Plain o
        → unpack (pack torch o aux).0 all ≡ some (received o)
    unpack-pack (tensor t) aux rest all h p =
        rw (placeholder_of-placeholder Tensor Atom (length aux))
          (rw (placed all aux rest (Torch.contiguous torch t) h) refl)
    unpack-pack (array xs) aux rest all h p =
        rw (placeholder_of-pack_items xs aux p.0, unpack_items-pack xs aux rest all h p.1) refl
    unpack-pack (tuple xs) aux rest all h p =
        rw (placeholder_of-pack_items xs aux p.0, unpack_items-pack xs aux rest all h p.1) refl
    unpack-pack (dict fs) aux rest all h p = rw (unpack_fields-pack fs aux rest all h p) refl
    unpack-pack (atom a) aux rest all h p = refl
    unpack-pack (index i) aux rest all h p = refl
    unpack-pack (text s) aux rest all h p = refl

    unpack_items-pack :
        (xs : Items Tensor Atom) (aux rest all : List Tensor)
        → all ≡ aux ++ (tensors_items xs ++ rest)
        → PlainItems xs
        → unpack_items (pack_items torch xs aux).0 all ≡ some (received_items xs)
    unpack_items-pack no_items aux rest all h p = refl
    unpack_items-pack (item x xs) aux rest all h p =
        rw
          (
            unpack-pack x aux (tensors_items xs ++ rest) all
                (split_first all aux (tensors x) (tensors_items xs) rest h) p.0,
            unpack_items-pack xs (pack torch x aux).1 rest all
                (split_second all aux (pack torch x aux).1 (tensors x) (tensors_items xs) rest
                  (pack-tensors x aux) h)
                p.1,
          )
          refl

    unpack_fields-pack :
        (fs : Fields Tensor Atom) (aux rest all : List Tensor)
        → all ≡ aux ++ (tensors_fields fs ++ rest)
        → PlainFields fs
        → unpack_fields (pack_fields torch fs aux).0 all ≡ some (received_fields fs)
    unpack_fields-pack no_fields aux rest all h p = refl
    unpack_fields-pack (field k v fs) aux rest all h p =
        rw
          (
            unpack-pack v aux (tensors_fields fs ++ rest) all
                (split_first all aux (tensors v) (tensors_fields fs) rest h) p.0,
            unpack_fields-pack fs (pack torch v aux).1 rest all
                (split_second all aux (pack torch v aux).1 (tensors v) (tensors_fields fs) rest
                  (pack-tensors v aux) h)
                p.1,
          )
          refl

  mutual
    unfolding pack has_tensor

    pub has_tensor-pack :
        (o : Obj Tensor Atom) (aux : List Tensor) → has_tensor (pack torch o aux).0 ≡ false
    has_tensor-pack (tensor t) aux = refl
    has_tensor-pack (array xs) aux = items_have_tensor-pack xs aux
    has_tensor-pack (tuple xs) aux = items_have_tensor-pack xs aux
    has_tensor-pack (dict fs) aux = fields_have_tensor-pack fs aux
    has_tensor-pack (atom a) aux = refl
    has_tensor-pack (index i) aux = refl
    has_tensor-pack (text s) aux = refl

    items_have_tensor-pack :
        (xs : Items Tensor Atom) (aux : List Tensor)
        → items_have_tensor (pack_items torch xs aux).0 ≡ false
    items_have_tensor-pack no_items aux = refl
    items_have_tensor-pack (item x xs) aux =
        rw (has_tensor-pack x aux) (items_have_tensor-pack xs (pack torch x aux).1)

    fields_have_tensor-pack :
        (fs : Fields Tensor Atom) (aux : List Tensor)
        → fields_have_tensor (pack_fields torch fs aux).0 ≡ false
    fields_have_tensor-pack no_fields aux = refl
    fields_have_tensor-pack (field k v fs) aux =
        rw (has_tensor-pack v aux) (fields_have_tensor-pack fs (pack torch v aux).1)
