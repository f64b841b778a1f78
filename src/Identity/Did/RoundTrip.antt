-- ===== src/Identity/Did/RoundTrip.antt =====
-- Keys and their identifiers: base58 and did:key are undone by their decoders.
use ariesmesh.Prelude.{
  ◌≡◌, refl, ap, ◌∙◌, inl, inr, ℕ, String, none, some, List, [], ◌∷◌, foldl, if◌then◌else◌, ◌==◌,
  ==_iff, Bool-cases, All, length, strip_prefix, strip_prefix-append, arith,
}
use Prim.Native.String.{◌++◌}
use ariesmesh.Identity.Did.{
  from_bytes, b58_digits, b58_zeros, b58encode, b58_number, b58_ones, key_of, number_bytes,
  b58decode, public_key_to_did, did_to_public_key,
}
use ariesmesh.Identity.Did.Digits.{
  IsDigit, digit_step, Leads, foldl-b58_digits, b58_digits-All, b58_digits-Leads,
}
use ariesmesh.Identity.Did.Bytes.{IsByte, number_bytes-from_bytes}
use ariesmesh.Identity.Did.Alphabet.{b58_number-spell, zeros_of, b58_ones-spell}

zeros_of-zero : (l out : List ℕ) → zeros_of l (0 ∷ out) ≡ 0 ∷ zeros_of l out
zeros_of-zero [] out = refl
zeros_of-zero (b ∷ l) out = elim (Bool-cases (b == 0)) [
  | inl e ↦ rw (e, if◌then◌else◌) (ap (λ t. 0 ∷ t) (zeros_of-zero l out))
  | inr e ↦ rw (e, if◌then◌else◌) refl
]

zeros_of-b58_zeros :
    (l out body : List ℕ) → zeros_of (b58_zeros l out) body ≡ zeros_of l (zeros_of out body)
unfolding b58_zeros
zeros_of-b58_zeros [] out body = refl
zeros_of-b58_zeros (b ∷ l) out body = elim (Bool-cases (b == 0)) [
  | inl e ↦
      rw (e, if◌then◌else◌)
        (zeros_of-b58_zeros l (0 ∷ out) body ∙ zeros_of-zero l (zeros_of out body))
  | inr e ↦ rw (e, if◌then◌else◌) refl
]

foldl-b58_zeros : (l out : List ℕ) → foldl digit_step 0 (b58_zeros l out) ≡ foldl digit_step 0 out
unfolding b58_zeros
foldl-b58_zeros [] out = refl
foldl-b58_zeros (b ∷ l) out = elim (Bool-cases (b == 0)) [
  | inl e ↦ rw (e, if◌then◌else◌) (foldl-b58_zeros l (0 ∷ out))
  | inr e ↦ rw (e, if◌then◌else◌) refl
]

b58_zeros-All : (l out : List ℕ) → All IsDigit out → All IsDigit (b58_zeros l out)
unfolding b58_zeros
b58_zeros-All [] out h = h
b58_zeros-All (b ∷ l) out h = elim (Bool-cases (b == 0)) [
  | inl e ↦ rw (e, if◌then◌else◌) (b58_zeros-All l (0 ∷ out) (omega arith, h))
  | inr e ↦ rw (e, if◌then◌else◌) h
]

zeros_of-Leads : (ds body : List ℕ) → Leads ds → zeros_of ds body ≡ body
zeros_of-Leads [] body h = refl
zeros_of-Leads (d ∷ ds) body h = ground (arith, h)

-- The zero bytes at the beginning and the bytes of the number make up the whole.
zeros_of-number_bytes : (l : List ℕ) → All IsByte l → zeros_of l (number_bytes (from_bytes l)) ≡ l
unfolding number_bytes
zeros_of-number_bytes [] h = refl
zeros_of-number_bytes (b ∷ l) (h, hs) = elim (Bool-cases (b == 0)) [
  | inl e ↦ rw ((==_iff b 0).0 e) (ap (λ t. 0 ∷ t) (zeros_of-number_bytes l hs))
  | inr e ↦ rw (e, if◌then◌else◌) (number_bytes-from_bytes b l (ground arith) (h, hs))
]

decoded_lem :
    (s : String) (n : ℕ)
    → b58_number 0 s ≡ some n
    → b58decode s ≡ some (b58_ones s (number_bytes n))
unfolding b58decode
decoded_lem s n h = ap (λ o. elim o [ none ↦ none | some m ↦ some (b58_ones s (number_bytes m)) ]) h

-- the digits that `_b58encode` spells
digits_of : List ℕ → List ℕ
digits_of l = b58_zeros l (b58_digits (from_bytes l) (from_bytes l) [])

digits_of-All : (l : List ℕ) → All IsDigit (digits_of l)
unfolding digits_of
digits_of-All l = b58_zeros-All l _ (b58_digits-All (from_bytes l) (from_bytes l) [] tt)

foldl-digits_of : (l : List ℕ) → foldl digit_step 0 (digits_of l) ≡ from_bytes l
unfolding digits_of
foldl-digits_of l =
    foldl-b58_zeros l _ ∙ foldl-b58_digits (from_bytes l) (from_bytes l) [] (omega arith)

Leads-of : (l : List ℕ) → Leads (b58_digits (from_bytes l) (from_bytes l) [])
Leads-of l = b58_digits-Leads (from_bytes l) (from_bytes l) [] (omega arith) (inr tt)

zeros_of-digits_of : (l body : List ℕ) → zeros_of (digits_of l) body ≡ zeros_of l body
unfolding digits_of
zeros_of-digits_of l body =
    zeros_of-b58_zeros l _ body ∙ ap (zeros_of l) (zeros_of-Leads _ body (Leads-of l))

-- Every sequence of bytes, with its zero bytes at the beginning, is decoded from its base58 text.
pub b58decode-b58encode : (l : List ℕ) → All IsByte l → b58decode (b58encode l) ≡ some l
unfolding b58encode digits_of
b58decode-b58encode l h =
    decoded_lem (b58encode l) (from_bytes l)
      (b58_number-spell (digits_of l) 0 (digits_of-All l) ∙ ap some (foldl-digits_of l))
    ∙ ap some (
        b58_ones-spell (digits_of l) (number_bytes (from_bytes l)) (digits_of-All l)
        ∙ zeros_of-digits_of l (number_bytes (from_bytes l))
        ∙ zeros_of-number_bytes l h)

key_from :
    (did encoded : String) (l : List ℕ)
    → strip_prefix "did:key:z" did ≡ some encoded
    → b58decode encoded ≡ some l
    → did_to_public_key did ≡ key_of l
unfolding did_to_public_key
key_from did encoded l h k =
    ap
      (λ o. elim o [
        | none ↦ none
        | some e ↦ elim (b58decode e) [ none ↦ none | some m ↦ key_of m ]
      ])
      h
    ∙ ap (λ o. elim o [ none ↦ none | some m ↦ key_of m ]) k

-- A key of 32 bytes has an identifier, and the identifier gives the key back.
pub did_to_public_key-public_key_to_did :
    (pk : List ℕ)
    → length pk ≡ 32
    → All IsByte pk
    → (did : String) × (public_key_to_did pk ≡ some did) × (did_to_public_key did ≡ some pk)
unfolding public_key_to_did key_of
did_to_public_key-public_key_to_did pk h bytes =
    let encoded = b58encode (237 ∷ 1 ∷ pk) in
    (
      "did:key:z" ++ encoded,
      rw (h) refl,
      key_from ("did:key:z" ++ encoded) encoded (237 ∷ 1 ∷ pk)
            (strip_prefix-append "did:key:z" encoded)
            (b58decode-b58encode (237 ∷ 1 ∷ pk) (omega arith, (omega arith, bytes)))
          ∙ rw (h) refl,
    )
