-- ===== src/Lookup/Tests.antt =====
-- A response with two boundaries.
use kvserve.Common.{
  ℕ, ◌+◌, ◌*◌, ◌≡◌, ◌≢◌, ◌↔◌, All, refl, none, some, List, [], ◌∷◌, length, All, arith,
}
use kvserve.Lookup.{
  MooncakeLookupResult, to_bytes, from_bytes, extend, encode_boundaries, encode_lookup_response,
  number_at, decode_boundaries, decode_lookup_response,
}
use kvserve.Lookup.Canonical.{IsByte, encode-decode}
use kvserve.Lookup.Roundtrip.{decode-encode, decode_refused}

abbrev two_boundaries : MooncakeLookupResult
two_boundaries = record {
  hit_length = 70000;
  tail_key_boundaries =
      record { group_id = 0; num_tokens = 69888 } ∷ record { group_id = 1; num_tokens = 256 } ∷ [];
}

abbrev three_bytes : List ℕ
three_bytes = 1 ∷ 2 ∷ 3 ∷ []

abbrev two_boundaries_bytes : List ℕ
two_boundaries_bytes =
    0 ∷ 1 ∷ 17 ∷ 112 ∷ 0 ∷ 0 ∷ 0 ∷ 0 ∷ 0 ∷ 1 ∷ 17 ∷ 0 ∷ 0 ∷ 0 ∷ 0 ∷ 1 ∷ 0 ∷ 0 ∷ 1 ∷ 0 ∷ []

two_boundaries_bytes-IsByte : All IsByte two_boundaries_bytes
two_boundaries_bytes-IsByte = ground arith

encoded : encode_lookup_response two_boundaries ≡ some two_boundaries_bytes
unfolding encode_lookup_response to_bytes encode_boundaries extend
encoded = refl

decoded : decode_lookup_response two_boundaries_bytes ≡ some two_boundaries
unfolding decode_lookup_response number_at decode_boundaries from_bytes
decoded = refl

too_large :
    encode_lookup_response (record { hit_length = 4294967296; tail_key_boundaries = [] }) ≡ none
unfolding encode_lookup_response to_bytes
too_large = refl

decode-encode_example :
    (bytes : List ℕ) × (encode_lookup_response two_boundaries ≡ some bytes)
    × (decode_lookup_response bytes ≡ some two_boundaries)
decode-encode_example =
    decode-encode two_boundaries
      (omega arith, ((omega arith, omega arith), ((omega arith, omega arith), tt)))

decode_refused_example :
    (decode_lookup_response three_bytes ≡ none) ↔ ((n : ℕ) → length three_bytes ≢ 4 + n * 8)
decode_refused_example = decode_refused three_bytes

encode-decode_example : encode_lookup_response two_boundaries ≡ some two_boundaries_bytes
encode-decode_example =
    encode-decode two_boundaries_bytes two_boundaries two_boundaries_bytes-IsByte decoded
