-- ===== src/Lookup/Canonical.antt =====
-- Encoding what was decoded.
use kvserve.Common.{
  ℕ, zero, suc, ◌+◌, ◌-◌, ◌*◌, ◌/◌, ◌%◌, ◌≡◌, ◌||◌, not, ◌==◌, ltb, Bool-cases, inl, inr, ◌<◌, ◌≤◌,
  refl, sym, ap, ap₂, subst, ◌∙◌, some, List, [], ◌∷◌, ◌++◌, length, take, drop, take-append-drop,
  length-take, length-drop, length-append, drop-length-append, All, arith,
}
use mathlib.Core.List.{append_assoc}
use kvserve.Lookup.{
  MooncakeLookupResult, from_bytes, encode_lookup_response, number_at, decode_boundaries,
  decode_lookup_response,
}
use kvserve.Lookup.Roundtrip.{
  four, fields, IsU32, IsEntry, to_bytes-some, encode_boundaries-some, decode-length,
}

abbrev pub IsByte : ℕ → Type 0
IsByte b = b < 256

four-from_bytes :
    (a b c d : ℕ)
    → IsByte a
    → IsByte b
    → IsByte c
    → IsByte d
    → (four (from_bytes 0 (a ∷ b ∷ c ∷ d ∷ [])) ≡ a ∷ b ∷ c ∷ d ∷ [])
      × IsU32 (from_bytes 0 (a ∷ b ∷ c ∷ d ∷ []))
unfolding four from_bytes
four-from_bytes a b c d ha hb hc hd = (
  ap₂ ◌∷◌ (omega arith)
      (ap₂ ◌∷◌ (omega arith) (ap₂ ◌∷◌ (omega arith) (ap₂ ◌∷◌ (omega arith) refl))),
  omega arith,
)

-- The first four bytes are those of the number that they stand for.
four-take :
    (xs : List ℕ)
    → 4 ≤ length xs
    → All IsByte xs
    → (four (from_bytes 0 (take 4 xs)) ≡ take 4 xs) × IsU32 (from_bytes 0 (take 4 xs))
four-take [] h bytes = absurd (omega (arith, h))
four-take (a ∷ []) h bytes = absurd (omega (arith, h))
four-take (a ∷ b ∷ []) h bytes = absurd (omega (arith, h))
four-take (a ∷ b ∷ c ∷ []) h bytes = absurd (omega (arith, h))
four-take (a ∷ b ∷ c ∷ d ∷ rest) h bytes =
    four-from_bytes a b c d bytes.0 bytes.1.0 bytes.1.1.0 bytes.1.1.1.0

All-drop : (n : ℕ) (xs : List ℕ) → All IsByte xs → All IsByte (drop n xs)
All-drop zero xs bytes = bytes
All-drop (suc n) [] bytes = tt
All-drop (suc n) (x ∷ xs) bytes = All-drop n xs bytes.1

number_at-take :
    (before rest : List ℕ) → number_at (before ++ rest) (length before) ≡ from_bytes 0 (take 4 rest)
unfolding number_at
number_at-take before rest = rw (drop-length-append before rest) refl

-- Four bytes further on.
regroup : (before rest : List ℕ) → before ++ rest ≡ (before ++ take 4 rest) ++ drop 4 rest
regroup before rest =
    ap (◌++◌ before) (sym (take-append-drop 4 rest))
    ∙ sym (append_assoc before (take 4 rest) (drop 4 rest))

length-regroup :
    (before rest : List ℕ) → 4 ≤ length rest → length before + 4 ≡ length (before ++ take 4 rest)
length-regroup before rest h = omega (arith, length-append before (take 4 rest), length-take 4 rest)

fields-decode_boundaries :
    (before rest : List ℕ) (n : ℕ)
    → length rest ≡ n * 8
    → All IsByte rest
    → (fields (decode_boundaries (before ++ rest) (length before) n) ≡ rest)
      × All IsEntry (decode_boundaries (before ++ rest) (length before) n)
unfolding decode_boundaries
fields-decode_boundaries before [] zero h bytes = (refl, tt)
fields-decode_boundaries before (x ∷ rest) zero h bytes = absurd (omega (arith, h))
fields-decode_boundaries before rest (suc n) h bytes =
    let long : 4 ≤ length rest = omega (arith, h) in
    let before1 = before ++ take 4 rest in
    let rest1 = drop 4 rest in
    let bytes1 = All-drop 4 rest bytes in
    let long1 : 4 ≤ length rest1 = omega (arith, h, length-drop 4 rest) in
    let before2 = before1 ++ take 4 rest1 in
    let rest2 = drop 4 rest1 in
    let group = number_at-take before rest in
    let tokens : number_at (before ++ rest) (length before + 4) ≡ from_bytes 0 (take 4 rest1) =
      ap₂ number_at (regroup before rest) (length-regroup before rest long)
      ∙ number_at-take before1 rest1 in
    let later : decode_boundaries (before ++ rest) (length before + 8) n
        ≡ decode_boundaries (before2 ++ rest2) (length before2) n =
      ap₂ (λ p o. decode_boundaries p o n) (regroup before rest ∙ regroup before1 rest1)
        (omega (arith, length-regroup before rest long, length-regroup before1 rest1 long1)) in
    let entry = four-take rest long bytes in
    let entry1 = four-take rest1 long1 bytes1 in
    let induction =
      fields-decode_boundaries before2 rest2 n
        (omega (arith, h, length-drop 4 rest, length-drop 4 rest1)) (All-drop 4 rest1 bytes1) in
    rw (group, tokens, later)
      (
        rw (entry.0, entry1.0, induction.0)
            (ap (◌++◌ (take 4 rest)) (take-append-drop 4 rest1) ∙ take-append-drop 4 rest),
        ((entry.1, entry1.1), induction.1),
      )

-- What is decoded has the right length.
decoded-length :
    (payload : List ℕ) (r : MooncakeLookupResult)
    → decode_lookup_response payload ≡ some r
    → (n : ℕ) × (length payload ≡ 4 + n * 8)
unfolding decode_lookup_response
decoded-length payload r h =
    elim (Bool-cases (ltb (length payload) 4 || not ((length payload - 4) % 8 == 0))) [
      | inl odd ↦ absurd (ground arith)
      | inr even ↦ ((length payload - 4) / 8, ground arith)
    ]

-- What decoding has made of the payload, by the numbers in it.
encode-result :
    (payload : List ℕ) (n : ℕ)
    → length payload ≡ 4 + n * 8
    → All IsByte payload
    → encode_lookup_response (record {
      hit_length = number_at payload 0;
      tail_key_boundaries = decode_boundaries payload 4 n;
    })
      ≡ some payload
unfolding encode_lookup_response
encode-result payload n h bytes =
    let long : 4 ≤ length payload = omega (arith, h) in
    let rest = drop 4 payload in
    let hit : number_at payload 0 ≡ from_bytes 0 (take 4 payload) = number_at-take [] payload in
    let first = four-take payload long bytes in
    let whole : decode_boundaries payload 4 n
        ≡ decode_boundaries (take 4 payload ++ rest) (length (take 4 payload)) n =
      ap₂ (λ p o. decode_boundaries p o n) (regroup [] payload) (length-regroup [] payload long) in
    let later =
      fields-decode_boundaries (take 4 payload) rest n (omega (arith, h, length-drop 4 payload))
        (All-drop 4 payload bytes) in
    rw (hit, whole, to_bytes-some (from_bytes 0 (take 4 payload)) first.1)
      (encode_boundaries-some (four (from_bytes 0 (take 4 payload))) _ later.1
        ∙ ap some (ap₂ ◌++◌ first.0 later.0 ∙ take-append-drop 4 payload))

-- When a response of bytes below 256 is decoded, encoding the result gives the response back.
pub encode-decode :
    (payload : List ℕ) (r : MooncakeLookupResult)
    → All IsByte payload
    → decode_lookup_response payload ≡ some r
    → encode_lookup_response r ≡ some payload
encode-decode payload r bytes h =
    let (n, e) = decoded-length payload r h in
    let same : some r
        ≡ some (record {
          hit_length = number_at payload 0;
          tail_key_boundaries = decode_boundaries payload 4 n;
        }) =
      sym h ∙ decode-length payload n e in
    subst (λ x. encode_lookup_response x ≡ some payload) (cc) (encode-result payload n e bytes)
