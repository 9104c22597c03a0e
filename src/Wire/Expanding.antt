-- ===== src/Wire/Expanding.antt =====
-- The tensors that were coalesced come out again, each from an offset that torch accepts.
use kvserve.Common.{
  ℕ, ◌+◌, ◌-◌, ◌%◌, ◌<◌, ◌≡◌, refl, sym, ap, ap₂, ◌∙◌, some, List, [], ◌∷◌, ◌++◌, length, take,
  drop, replicate, All, length-append, length-replicate, take-length-append, drop-length-append,
  arith,
}
use mathlib.Core.List.{append_assoc}
use native.Mathlib.Nat.{mod-lt, mod-add-mod, add-mod-mod, mod_self}
use kvserve.Wire.Torch.{Torch, Laws}
use kvserve.Wire.Coalesce.{
  padding, also, coalesce_from, coalesce, expand_from, expand_storage, expand,
}

-- The padding leads to a multiple of the item size.
padding_aligns :
    (offset itemsize : ℕ) → 0 < itemsize → (offset + padding offset itemsize) % itemsize ≡ 0
unfolding padding
padding_aligns offset itemsize positive =
    add-mod-mod offset (itemsize - offset % itemsize) itemsize
    ∙ sym (mod-add-mod offset itemsize (itemsize - offset % itemsize))
    ∙ ap (λ n. n % itemsize) {x = offset % itemsize + (itemsize - offset % itemsize)} {y = itemsize}
        (omega (arith, mod-lt offset {m = itemsize} positive))
    ∙ mod_self itemsize

-- A middle part is what lies behind the part before it, as long as it is.
middle :
    (before bytes more : List ℕ) (at : ℕ)
    → at ≡ length before
    → take (length bytes) (drop at (before ++ (bytes ++ more))) ≡ bytes
middle before bytes more at e =
    ap (λ n. take (length bytes) (drop n (before ++ (bytes ++ more)))) e
    ∙ ap (take (length bytes)) (drop-length-append before (bytes ++ more))
    ∙ take-length-append bytes more

module _ {Tensor : Type 0} (torch : Torch Tensor) where
  abbrev pub IsContiguous : Tensor → Type 0
  IsContiguous t = Torch.contiguous torch t ≡ t

module _ {Tensor : Type 0} (torch : Torch Tensor) (laws : Laws torch) where
  expand_from-coalesce_from :
      (before : List ℕ) (offset : ℕ) (ts : List Tensor) (storage : List ℕ)
      → All (IsContiguous torch) ts
      → offset ≡ length before
      → storage ≡ before ++ (coalesce_from torch offset ts).0
      → expand_from torch storage (coalesce_from torch offset ts).1 ≡ some ts
  unfolding coalesce_from expand_from
  expand_from-coalesce_from before offset [] storage hs o e = refl
  expand_from-coalesce_from before offset (u ∷ us) storage hs o e =
      let t = Torch.contiguous torch u in
      let size = Torch.element_size torch t in
      let pad = padding offset size in
      let at = offset + pad in
      let bytes = Torch.flat torch t in
      let more = (coalesce_from torch (at + length bytes) us).0 in
      let padded = before ++ replicate pad 0 in
      let filled = padded ++ bytes in
      let reached : at ≡ length padded =
        omega (arith, o, length-append before (replicate pad 0), length-replicate {A = ℕ} pad 0) in
      let passed : at + length bytes ≡ length filled =
        omega (arith, reached, length-append padded bytes) in
      let whole : storage ≡ padded ++ (bytes ++ more) =
        e ∙ sym (append_assoc before (replicate pad 0) (bytes ++ more)) in
      let slice : take (length bytes) (drop at storage) ≡ bytes =
        ap (λ st. take (length bytes) (drop at st)) whole ∙ middle padded bytes more at reached in
      let here =
        ap (Torch.view torch at (Torch.dtype torch t) (Torch.shape torch t)) slice
        ∙ laws.view-flat t at (padding_aligns offset size (laws.element_size_positive t))
        ∙ ap some (laws.contiguous-contiguous u ∙ hs.0) in
      let later =
        expand_from-coalesce_from filled (at + length bytes) us storage hs.1 passed
          (whole ∙ sym (append_assoc padded bytes more)) in
      ap₂ also here later

  -- Whatever contiguous tensors are coalesced, expanding what travels gives them back.
  pub expand-coalesce :
      (ts : List Tensor)
      → All (IsContiguous torch) ts
      → expand torch (coalesce torch ts).0 (coalesce torch ts).1 ≡ some ts
  unfolding coalesce expand expand_storage
  expand-coalesce [] hs = refl
  expand-coalesce (t ∷ []) hs = refl
  expand-coalesce (t ∷ u ∷ us) hs =
      expand_from-coalesce_from [] 0 (t ∷ u ∷ us) _ hs refl
        (laws.flat-contiguous _ ∙ laws.flat-of_bytes _)
