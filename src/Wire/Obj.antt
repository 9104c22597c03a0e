-- ===== src/Wire/Obj.antt =====
-- Metadata objects, and how the tensors in them are replaced by placeholders and put back.
use kvserve.Common.{
  ℕ, Bool, true, false, ◌||◌, Option, none, some, List, [], ◌∷◌, ◌++◌, String, str_eq, length,
  get_elem?, if◌then◌else◌,
}
use kvserve.Wire.Torch.{Torch}

-- An `atom` is a leaf that is neither a tensor, a text nor an index: None, a number, a Boolean.
mutual
  pub data Obj (Tensor Atom : Type 0) : Type 0 where
    atom : Atom → Obj Tensor Atom
    index : ℕ → Obj Tensor Atom
    text : String → Obj Tensor Atom
    tensor : Tensor → Obj Tensor Atom
    array : Items Tensor Atom → Obj Tensor Atom
    tuple : Items Tensor Atom → Obj Tensor Atom
    dict : Fields Tensor Atom → Obj Tensor Atom

  pub data Items (Tensor Atom : Type 0) : Type 0 where
    no_items : Items Tensor Atom
    item : Obj Tensor Atom → Items Tensor Atom → Items Tensor Atom

  pub data Fields (Tensor Atom : Type 0) : Type 0 where
    no_fields : Fields Tensor Atom
    field : String → Obj Tensor Atom → Fields Tensor Atom → Fields Tensor Atom

-- `_AUX_PLACEHOLDER`
abbrev pub placeholder : String
placeholder = "__kvserve_aux_tensor__"

module _ {Tensor Atom : Type 0} (torch : Torch Tensor) where
  -- `_pack_qparams`, with the list of tensors that it appends to.
  unfoldable mutual
    pub pack : Obj Tensor Atom → List Tensor → Obj Tensor Atom × List Tensor
    pack (atom a) aux = (atom a, aux)
    pack (index i) aux = (index i, aux)
    pack (text s) aux = (text s, aux)
    pack (tensor t) aux = (
      array (item (text placeholder) (item (index (length aux)) no_items)),
      aux ++ (Torch.contiguous torch t ∷ []),
    )
    pack (array xs) aux = let (ys, aux') = pack_items xs aux in (array ys, aux')
    pack (tuple xs) aux = let (ys, aux') = pack_items xs aux in (array ys, aux')
    pack (dict fs) aux = let (gs, aux') = pack_fields fs aux in (dict gs, aux')

    pub pack_items : Items Tensor Atom → List Tensor → Items Tensor Atom × List Tensor
    pack_items no_items aux = (no_items, aux)
    pack_items (item x xs) aux =
        let (y, aux') = pack x aux in let (ys, aux'') = pack_items xs aux' in (item y ys, aux'')

    pub pack_fields : Fields Tensor Atom → List Tensor → Fields Tensor Atom × List Tensor
    pack_fields no_fields aux = (no_fields, aux)
    pack_fields (field k v fs) aux =
        let (w, aux') = pack v aux in let (gs, aux'') = pack_fields fs aux' in (field k w gs, aux'')

-- `_is_aux_placeholder` with `int(obj[1])`. What packing never writes there, a text or a float that int()
-- would take, is refused.
module _ {Tensor Atom : Type 0} where
  abbrev pub int_value : Obj Tensor Atom → Option ℕ
  int_value (index i) = some i
  int_value _ = none

  unfoldable pub placeholder_of : Items Tensor Atom → Option (Option ℕ)
  placeholder_of (item (text s) (item x no_items)) =
      if str_eq s placeholder then some (int_value x) else none
  placeholder_of _ = none

  abbrev pub tensor_of : Option Tensor → Option (Obj Tensor Atom)
  tensor_of none = none
  tensor_of (some t) = some (tensor t)

  -- `aux_tensors[int(obj[1])]`
  abbrev pub tensor_at : List Tensor → Option ℕ → Option (Obj Tensor Atom)
  tensor_at aux none = none
  tensor_at aux (some i) = tensor_of (get_elem? aux i)

  abbrev pub list_of : Option (Items Tensor Atom) → Option (Obj Tensor Atom)
  list_of none = none
  list_of (some xs) = some (array xs)

  abbrev pub dict_of : Option (Fields Tensor Atom) → Option (Obj Tensor Atom)
  dict_of none = none
  dict_of (some fs) = some (dict fs)

  abbrev pub unpack_list :
      List Tensor → Option (Option ℕ) → Option (Items Tensor Atom) → Option (Obj Tensor Atom)
  unpack_list aux (some place) entries = tensor_at aux place
  unpack_list aux none entries = list_of entries

  abbrev pub item_of :
      Option (Obj Tensor Atom) → Option (Items Tensor Atom) → Option (Items Tensor Atom)
  item_of (some x) (some xs) = some (item x xs)
  item_of _ _ = none

  abbrev pub field_of :
      String → Option (Obj Tensor Atom) → Option (Fields Tensor Atom) → Option (Fields Tensor Atom)
  field_of k (some v) (some fs) = some (field k v fs)
  field_of k _ _ = none

  -- `_unpack_qparams`; `none` is the IndexError of a placeholder that no tensor has come for.
  unfoldable mutual
    pub unpack : Obj Tensor Atom → List Tensor → Option (Obj Tensor Atom)
    unpack (atom a) aux = some (atom a)
    unpack (index i) aux = some (index i)
    unpack (text s) aux = some (text s)
    unpack (tensor t) aux = some (tensor t)
    unpack (array xs) aux = unpack_list aux (placeholder_of xs) (unpack_items xs aux)
    unpack (tuple xs) aux = some (tuple xs)
    unpack (dict fs) aux = dict_of (unpack_fields fs aux)

    pub unpack_items : Items Tensor Atom → List Tensor → Option (Items Tensor Atom)
    unpack_items no_items aux = some no_items
    unpack_items (item x xs) aux = item_of (unpack x aux) (unpack_items xs aux)

    pub unpack_fields : Fields Tensor Atom → List Tensor → Option (Fields Tensor Atom)
    unpack_fields no_fields aux = some no_fields
    unpack_fields (field k v fs) aux = field_of k (unpack v aux) (unpack_fields fs aux)

  -- `_assert_no_tensor` raises.
  unfoldable mutual
    pub has_tensor : Obj Tensor Atom → Bool
    has_tensor (tensor t) = true
    has_tensor (array xs) = items_have_tensor xs
    has_tensor (tuple xs) = items_have_tensor xs
    has_tensor (dict fs) = fields_have_tensor fs
    has_tensor (atom a) = false
    has_tensor (index i) = false
    has_tensor (text s) = false

    pub items_have_tensor : Items Tensor Atom → Bool
    items_have_tensor no_items = false
    items_have_tensor (item x xs) = has_tensor x || items_have_tensor xs

    pub fields_have_tensor : Fields Tensor Atom → Bool
    fields_have_tensor no_fields = false
    fields_have_tensor (field k v fs) = has_tensor v || fields_have_tensor fs
