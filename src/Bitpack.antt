-- ===== src/Bitpack.antt =====
-- kvserve_v1/compression/codec/bitpack_codec.py: BitPackCodec and its two Triton kernels. A uint8 tensor is the list
-- of its bytes, a program instance of a kernel one of the elements that it stores, and a failed
-- device_assert a result of its own. The kernels' indices are of type int32; where one of them is
-- negative, the kernel reads in front of the tensor, and its result is wild_access, whatever it stores.
pub mod Bits
pub mod Packing
pub mod Unpacking
pub mod Roundtrip
pub mod Refusal
pub mod Tests
use kvserve.Common.{
  ℕ, zero, suc, ◌+◌, ◌-◌, ◌*◌, ◌/◌, ◌%◌, ◌^◌, Bool, true, false, ◌&&◌, List, [], ◌∷◌, ◌++◌, ltb,
  leb, ◌==◌, if◌then◌else◌,
}
use Prim.Native.Nat.{bit_and, bit_or}

pub data Outcome {ℓ} (A : Type ℓ) : Type ℓ where
  ok : A → Outcome A
  value_error : Outcome A
  device_assert : Outcome A
  wild_access : Outcome A

unfoldable pub numel : List ℕ → ℕ
numel [] = 0
numel (x ∷ xs) = suc (numel xs)

unfoldable pub at : ℕ → List ℕ → ℕ
at i [] = 0
at zero (x ∷ xs) = x
at (suc i) (x ∷ xs) = at i xs

-- tl.load with a mask and 0 for what it masks.
abbrev pub load : List ℕ → ℕ → Bool → ℕ
load source i mask = if mask then at i source else 0

unfoldable pub tabulate_from : (ℕ → ℕ) → ℕ → ℕ → List ℕ
tabulate_from f i zero = []
tabulate_from f i (suc n) = f i ∷ tabulate_from f (suc i) n

unfoldable pub all_below : (ℕ → Bool) → ℕ → Bool
all_below p zero = true
all_below p (suc n) = p n && all_below p n

-- A value of type uint32.
abbrev pub to_u32 : ℕ → ℕ
to_u32 x = x % 2 ^ 32

-- An index as the 32 bits of an int32; is_index says that it is not negative, and only then is it used.
abbrev pub to_i32 : ℕ → ℕ
to_i32 x = x % 0x100000000

unfoldable pub is_index : ℕ → Bool
is_index x = ltb (to_i32 x) 0x80000000

abbrev pub header_bytes : ℕ
header_bytes = 16

-- `_MAGIC`
abbrev pub magic : ℕ
magic = 0x0150424b

unfoldable pub packed_size : ℕ → ℕ → ℕ
packed_size n bits = (n * bits + 7) / 8

-- Byte `h` of the header.
unfoldable pub header_byte : ℕ → ℕ → ℕ → ℕ
header_byte n bits h =
    if ltb h 4
    then bit_and (magic / 2 ^ (h % 4 * 8)) 255
    else (if h == 4
        then bits
        else (if leb 8 h then bit_and (n % 2 ^ 64 / 2 ^ (h % 8 * 8)) 255 else 0))

-- `_pack`, for one byte.
module _ (source : List ℕ) (n bits byte : ℕ) where
  unfoldable pub first : ℕ
  first = to_i32 (byte * 8) / bits

  unfoldable pub offset : ℕ
  offset = to_i32 (byte * 8) % bits

  -- The symbol that round `j` of the loop loads; round 0 stands before the loop.
  unfoldable pub symbol : ℕ → ℕ
  unfolding first offset
  symbol zero = load source first (ltb byte (packed_size n bits) && ltb first n)
  symbol (suc j) =
      load source (first + suc j)
        (ltb byte (packed_size n bits) && (ltb (first + suc j) n && ltb (suc j * bits - offset) 8))

  unfoldable pub packed : ℕ → ℕ
  unfolding offset symbol
  packed zero = symbol zero / 2 ^ offset
  packed (suc j) = bit_or (packed j) (to_u32 (symbol (suc j) * 2 ^ (suc j * bits - offset)))

  -- The device_assert of each round.
  unfoldable pub fits : ℕ → Bool
  unfolding symbol
  fits zero = ltb (symbol zero) (2 ^ bits)
  fits (suc j) = fits j && ltb (symbol (suc j)) (2 ^ bits)

  abbrev pub rounds : ℕ
  rounds = (7 + bits - 1) / bits

  unfoldable pub pack_byte : ℕ
  unfolding packed
  pack_byte = packed rounds % 256

  unfoldable pub byte_fits : Bool
  unfolding fits
  byte_fits = fits rounds

-- `_pack`: the bytes that it stores, if no assertion of it fails.
unfoldable pub pack : List ℕ → ℕ → ℕ → Outcome (List ℕ)
pack source n bits =
    let size = packed_size n bits in
    if all_below (λ byte. is_index (byte * 8)) size
    then (if all_below (byte_fits source n bits) size
        then ok (
            tabulate_from (header_byte n bits) 0 header_bytes
            ++ tabulate_from (pack_byte source n bits) 0 size)
        else device_assert)
    else wild_access

-- `_unpack`, for one symbol.
unfoldable pub unpack_symbol : List ℕ → ℕ → ℕ → ℕ → ℕ
unpack_symbol source n bits i =
    let size = packed_size n bits in
    let byte = to_i32 (i * bits) / 8 in
    let offset = to_i32 (i * bits) % 8 in
    let lo = load source (16 + byte) (ltb i n && ltb byte size) in
    let hi =
      load source (16 + byte + 1) (ltb i n && (ltb (byte + 1) size && ltb 8 (offset + bits))) in
    bit_and (bit_or lo (to_u32 (hi * 2 ^ 8)) / 2 ^ offset) (2 ^ bits - 1) % 256

unfoldable pub unpack : List ℕ → ℕ → ℕ → Outcome (List ℕ)
unpack source n bits =
    if all_below (λ i. is_index (i * bits)) n
    then (if all_below (λ h. at h source == header_byte n bits h) header_bytes
        then ok (tabulate_from (unpack_symbol source n bits) 0 n)
        else device_assert)
    else wild_access

-- The keyword argument bitpack_bits; `other` is what is no int, and an int below 0.
pub data Argument : Type 0 where
  absent other : Argument
  integer : ℕ → Argument

unfoldable pub width_of : ℕ → Argument → Outcome ℕ
width_of bitpack_bits absent =
    if leb 1 bitpack_bits && leb bitpack_bits 8 then ok bitpack_bits else value_error
width_of bitpack_bits other = value_error
width_of bitpack_bits (integer bits) = if leb 1 bits && leb bits 8 then ok bits else value_error

abbrev pub bind {ℓ κ} : {A : Type ℓ} {B : Type κ} → Outcome A → (A → Outcome B) → Outcome B
bind (ok a) f = f a
bind value_error f = value_error
bind device_assert f = device_assert
bind wild_access f = wild_access

-- `update_params`, which `__init__` calls with 8 in place.
unfoldable pub update_params : ℕ → Argument → Outcome ℕ
update_params bitpack_bits argument = width_of bitpack_bits argument

unfoldable pub encode : ℕ → Argument → List ℕ → Outcome (List ℕ)
encode bitpack_bits argument tensor =
    bind (width_of bitpack_bits argument) (λ bits. pack tensor (numel tensor) bits)

-- math.prod
unfoldable pub prod : List ℕ → ℕ
prod [] = 1
prod (d ∷ ds) = d * prod ds

unfoldable pub decode : ℕ → Argument → List ℕ → List ℕ → Outcome (List ℕ)
decode bitpack_bits argument original_shape compressed_data =
    bind (width_of bitpack_bits argument) (λ bits.
      let count = prod original_shape in
      if numel compressed_data == header_bytes + packed_size count bits
      then unpack compressed_data count bits
      else value_error)
