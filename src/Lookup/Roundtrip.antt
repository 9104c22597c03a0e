-- ===== src/Lookup/Roundtrip.antt =====
-- Decoding what was encoded, and encoding what was decoded.
use kvserve.Common.{
  ℕ, ◌+◌, ◌-◌, ◌*◌, ◌/◌, ◌%◌, ◌≡◌, ◌≢◌, ◌↔◌, ◌||◌, not, Bool-cases, inl, inr, ◌<◌, refl, sym, ap,
  ap₂, ◌∙◌, true, false, none, some, List, [], ◌∷◌, ◌++◌, ltb, ◌==◌, length, drop-length-append,
  length-append, All, arith, lt→ltb,
}
use mathlib.Core.List.{append_assoc, append-nil}
use kvserve.Lookup.{
  TailKeyBoundary, MooncakeLookupResult, to_bytes, from_bytes, extend, encode_boundaries,
  encode_lookup_response, number_at, decode_boundaries, decode_lookup_response,
}

-- The number fits in four bytes.
abbrev pub IsU32 : ℕ → Type 0
IsU32 n = n < 4294967296

unfoldable pub four : ℕ → List ℕ
four n = n / 16777216 ∷ (n / 65536) % 256 ∷ (n / 256) % 256 ∷ n % 256 ∷ []

pub to_bytes-some : (n : ℕ) → IsU32 n → to_bytes n ≡ some (four n)
unfolding to_bytes four
to_bytes-some n h = rw (lt→ltb n 4294967296 h) refl

from_bytes-four : (n : ℕ) → from_bytes 0 (four n) ≡ n
unfolding from_bytes four
from_bytes-four n = omega arith

-- A number is read behind the bytes before it.
number_at-append :
    (before : List ℕ) (n : ℕ) (rest : List ℕ)
    → number_at (before ++ (four n ++ rest)) (length before) ≡ n
unfolding number_at four
number_at-append before n rest = rw (drop-length-append before (four n ++ rest)) (from_bytes-four n)

abbrev pub IsEntry : TailKeyBoundary → Type 0
IsEntry b = IsU32 (TailKeyBoundary.group_id b) × IsU32 (TailKeyBoundary.num_tokens b)

abbrev pub fields : List TailKeyBoundary → List ℕ
fields [] = []
fields (b ∷ bs) =
    four (TailKeyBoundary.group_id b) ++ (four (TailKeyBoundary.num_tokens b) ++ fields bs)

pub encode_boundaries-some :
    (payload : List ℕ) (bs : List TailKeyBoundary)
    → All IsEntry bs
    → encode_boundaries payload bs ≡ some (payload ++ fields bs)
unfolding encode_boundaries extend
encode_boundaries-some payload [] hs = ap some (sym (append-nil payload))
encode_boundaries-some payload (b ∷ bs) hs =
    let g = TailKeyBoundary.group_id b in
    let t = TailKeyBoundary.num_tokens b in
    rw (to_bytes-some g hs.0.0, to_bytes-some t hs.0.1)
      (encode_boundaries-some ((payload ++ four g) ++ four t) bs hs.1
        ∙ ap some (
            append_assoc (payload ++ four g) (four t) (fields bs)
            ∙ append_assoc payload (four g) (four t ++ fields bs)))

abbrev boundary : ℕ → ℕ → TailKeyBoundary
boundary group tokens = record { group_id = group; num_tokens = tokens }

length-fields : (bs : List TailKeyBoundary) → length (fields bs) ≡ length bs * 8
unfolding four
length-fields [] = omega arith
length-fields (b ∷ bs) = omega (arith, length-fields bs)

decode_boundaries-fields :
    (before : List ℕ) (bs : List TailKeyBoundary)
    → decode_boundaries (before ++ fields bs) (length before) (length bs) ≡ bs
unfolding decode_boundaries four
decode_boundaries-fields before [] = refl
decode_boundaries-fields before (b ∷ bs) =
    let g = TailKeyBoundary.group_id b in
    let t = TailKeyBoundary.num_tokens b in
    let after_group = append_assoc before (four g) (four t ++ fields bs) in
    let after_tokens = append_assoc (before ++ four g) (four t) (fields bs) in
    let skipped = length-append before (four g) in
    let passed = length-append (before ++ four g) (four t) in
    ap₂ ◌∷◌
      (ap₂ boundary (number_at-append before g (four t ++ fields bs)) (
        ap₂ number_at (sym after_group) (sym skipped)
        ∙ number_at-append (before ++ four g) t (fields bs)))
      (ap₂ (λ p o. decode_boundaries p o (length bs)) (sym (after_tokens ∙ after_group))
          (omega (arith, skipped, passed))
        ∙ decode_boundaries-fields ((before ++ four g) ++ four t) bs)

-- A response of the right length is decoded, in so many steps of the loop.
pub decode-length :
    (payload : List ℕ) (n : ℕ)
    → length payload ≡ 4 + n * 8
    → decode_lookup_response payload
      ≡ some (record {
        hit_length = number_at payload 0;
        tail_key_boundaries = decode_boundaries payload 4 n;
      })
unfolding decode_lookup_response
decode-length payload n h =
    let short : ltb (length payload) 4 ≡ false = ground arith in
    let even : ((length payload - 4) % 8 == 0) ≡ true = ground arith in
    let steps : (length payload - 4 + (8 - 1)) / 8 ≡ n = omega arith in rw (short, even, steps) refl

abbrev result : ℕ → List TailKeyBoundary → MooncakeLookupResult
result hit bs = record { hit_length = hit; tail_key_boundaries = bs }

-- The result's numbers all fit in four bytes.
abbrev pub IsWire : MooncakeLookupResult → Type 0
IsWire r =
    IsU32 (MooncakeLookupResult.hit_length r)
    × All IsEntry (MooncakeLookupResult.tail_key_boundaries r)

-- Every lookup result whose numbers are below 2 ^ 32 is encoded, and decoding the bytes gives it back.
pub decode-encode :
    (r : MooncakeLookupResult)
    → IsWire r
    → (bytes : List ℕ) × (encode_lookup_response r ≡ some bytes)
      × (decode_lookup_response bytes ≡ some r)
unfolding encode_lookup_response four
decode-encode r wire =
    let h = MooncakeLookupResult.hit_length r in
    let bs = MooncakeLookupResult.tail_key_boundaries r in
    (
      four h ++ fields bs,
      rw (to_bytes-some h wire.0) (encode_boundaries-some (four h) bs wire.1),
      decode-length (four h ++ fields bs) (length bs)
            (length-append (four h) (fields bs) ∙ ap (λ k. 4 + k) (length-fields bs))
          ∙ ap some (
              ap₂ result (number_at-append [] h (fields bs))
                (decode_boundaries-fields (four h) bs)),
    )

differ : {A : Type 0} {a : A} → none ≡ some a → ⊥
differ e = absurd (cc)

refuse :
    (payload : List ℕ)
    → ((n : ℕ) → length payload ≢ 4 + n * 8)
    → decode_lookup_response payload ≡ none
unfolding decode_lookup_response
refuse payload h =
    elim (Bool-cases (ltb (length payload) 4 || not ((length payload - 4) % 8 == 0))) [
      | inl odd ↦ rw (odd) refl
      | inr even ↦ absurd (h ((length payload - 4) / 8) (ground arith))
    ]

-- Bytes are refused exactly when they are not four and a whole number of entries.
pub decode_refused :
    (payload : List ℕ)
    → (decode_lookup_response payload ≡ none) ↔ ((n : ℕ) → length payload ≢ 4 + n * 8)
decode_refused payload =
    (λ refused n h. absurd (differ (sym refused ∙ decode-length payload n h)), refuse payload)
