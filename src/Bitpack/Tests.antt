-- ===== src/Bitpack/Tests.antt =====
-- Five symbols of three bits.
use kvserve.Common.{ℕ, ◌*◌, false, List, [], ◌∷◌, ◌≡◌, refl, ◌≤◌, ◌^◌, arith}
use kvserve.Bitpack.{
  ok, value_error, device_assert, numel, at, all_below, packed_size, header_byte, is_index, unpack,
  absent, integer, width_of, update_params, encode, prod, decode, bind,
}
use kvserve.Bitpack.Roundtrip.{decode-encode_tensor}
use kvserve.Bitpack.Refusal.{encode_refused}

abbrev five : List ℕ
five = 5 ∷ 2 ∷ 7 ∷ 1 ∷ 6 ∷ []

abbrev five_packed : List ℕ
five_packed =
    0x4b ∷ 0x42 ∷ 0x50 ∷ 1 ∷ 3 ∷ 0 ∷ 0 ∷ 0 ∷ 5 ∷ 0 ∷ 0 ∷ 0 ∷ 0 ∷ 0 ∷ 0 ∷ 0 ∷ 0xd5 ∷ 0x63 ∷ []

decode_five_wide : decode 4 absent (5 ∷ 1 ∷ []) five_packed ≡ value_error
unfolding decode width_of prod numel packed_size
decode_five_wide = refl

-- One symbol fewer has a payload of the same length.
decode_four : decode 3 absent (4 ∷ []) five_packed ≡ device_assert
unfolding decode is_index width_of prod numel packed_size unpack all_below at header_byte
decode_four = refl

eight_bits_argument : width_of 8 (integer 9) ≡ value_error
unfolding width_of
eight_bits_argument = refl

three_wide : width_of 8 (integer 3) ≡ ok 3
unfolding width_of
three_wide = refl

three_set : width_of 3 absent ≡ ok 3
unfolding width_of
three_set = refl

five_elements : prod (5 ∷ 1 ∷ []) ≡ numel five
unfolding prod numel
five_elements = refl

five_short : numel five * 3 ≤ 0x80000000
unfolding numel
five_short = omega arith

two_short : numel (1 ∷ 9 ∷ []) * 3 ≤ 0x80000000
unfolding numel
two_short = omega arith

-- The byte 2 ^ 28 has the index 2 ^ 31.
wild_index : is_index (0x10000000 * 8) ≡ false
unfolding is_index
wild_index = refl

decode-encode_tensor_example :
    bind (encode 8 (integer 3) five) (decode 3 absent (5 ∷ 1 ∷ [])) ≡ ok five
decode-encode_tensor_example =
    decode-encode_tensor 8 3 3 (integer 3) absent (5 ∷ 1 ∷ []) five three_wide three_set
      five_elements five_short (omega arith)

wide_symbol : 2 ^ 3 ≤ at 1 (1 ∷ 9 ∷ [])
unfolding at
wide_symbol = omega arith

encode_refused_example : encode 8 (integer 3) (1 ∷ 9 ∷ []) ≡ device_assert
encode_refused_example =
    encode_refused 8 3 (integer 3) (1 ∷ 9 ∷ []) 1 three_wide two_short wide_symbol

set_width : update_params 8 (integer 4) ≡ ok 4
unfolding update_params width_of
set_width = refl
