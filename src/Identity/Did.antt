-- ===== src/Identity/Did.antt =====
-- src/aries/identity/did.py: did:key identifiers of Ed25519 keys, with their base58 text. Bytes are the
-- numbers below 256. `did_from_keypair` and `did_short` are left out.
pub mod Digits
pub mod Bytes
pub mod Alphabet
pub mod RoundTrip
use Prim.Native.Char.{Char, code}
use Prim.Native.String.{◌++◌}
use ariesmesh.Prelude.{
  ◌≡◌, refl, ℕ, zero, suc, ◌+◌, ◌*◌, ◌/◌, ◌%◌, String, Bool, true, false, ◌&&◌, Option, none, some,
  List, [], ◌∷◌, foldl, if◌then◌else◌, ◌==◌, length, take, drop, strip_prefix,
}

abbrev pub b58_alphabet : String
b58_alphabet = "123456789ABCDEFGHJKLMNPQRSTUVWXYZabcdefghijkmnopqrstuvwxyz"

-- `int.from_bytes(data, "big")`
abbrev pub byte_step : ℕ → ℕ → ℕ
byte_step n b = n * 256 + b

abbrev pub from_bytes : List ℕ → ℕ
from_bytes bytes = foldl byte_step 0 bytes

-- The while loop of `_b58encode`. The bytearray `out` is held with its last byte first, so that it needs
-- no reversal at the end; the digits stand for the letters of the alphabet.
unfoldable pub b58_digits : ℕ → ℕ → List ℕ → List ℕ
b58_digits zero n out = out
b58_digits (suc fuel) n out =
    let more = b58_digits fuel (n / 58) (n % 58 ∷ out) in if n == 0 then out else more

-- The loop over the zero bytes at the beginning: each puts a digit 0 in front.
unfoldable pub b58_zeros : List ℕ → List ℕ → List ℕ
b58_zeros [] out = out
b58_zeros (b ∷ bytes) out = let more = b58_zeros bytes (0 ∷ out) in if b == 0 then more else out

-- `_B58_ALPHABET[n]` before a text
unfoldable pub put_symbol : ℕ → String → String → String
put_symbol n String.[] rest = rest
put_symbol zero (String.◌∷◌ c s) rest = String.◌∷◌ c rest
put_symbol (suc n) (String.◌∷◌ c s) rest = put_symbol n s rest

unfoldable pub spell : List ℕ → String
unfolding put_symbol
spell [] = ""
spell (d ∷ digits) = put_symbol d b58_alphabet (spell digits)

-- `_b58encode`; the loop needs at most as many turns as its number.
unfoldable pub b58encode : List ℕ → String
unfolding b58_digits b58_zeros spell
b58encode bytes = let n = from_bytes bytes in spell (b58_zeros bytes (b58_digits n n []))

-- `_B58_ALPHABET.find`, from the place `i` on
unfoldable pub find_symbol : ℕ → Char → String → Option ℕ
find_symbol i c String.[] = none
find_symbol i c (String.◌∷◌ d s) =
    let later = find_symbol (suc i) c s in if code c == code d then some i else later

-- The number of a base58 text; `none` is the ValueError.
unfoldable pub b58_number : ℕ → String → Option ℕ
unfolding find_symbol
b58_number n String.[] = some n
b58_number n (String.◌∷◌ c s) = elim (find_symbol 0 c b58_alphabet) [
  | none ↦ none
  | some i ↦ b58_number (n * 58 + i) s
]

-- a zero byte for each "1" at the beginning, before the other bytes
unfoldable pub b58_ones : String → List ℕ → List ℕ
b58_ones String.[] body = body
b58_ones (String.◌∷◌ c s) body =
    let more = b58_ones s body in if code c == 49 then 0 ∷ more else body

-- `n.bit_length()`; as many turns as the number are enough.
unfoldable pub bit_length_from : ℕ → ℕ → ℕ
bit_length_from zero n = 0
bit_length_from (suc fuel) n = elim (n == 0) [
  | true ↦ 0
  | false ↦ suc (bit_length_from fuel (n / 2))
]

unfoldable pub bit_length : ℕ → ℕ
unfolding bit_length_from
bit_length n = bit_length_from n n

-- `n.to_bytes(count, "big")` before the bytes `out`, for a number that has room
unfoldable pub to_bytes : ℕ → ℕ → List ℕ → List ℕ
to_bytes zero n out = out
to_bytes (suc count) n out = to_bytes count (n / 256) (n % 256 ∷ out)

-- `body`
unfoldable pub number_bytes : ℕ → List ℕ
unfolding bit_length to_bytes
number_bytes n = if n == 0 then [] else to_bytes ((bit_length n + 7) / 8) n []

-- `_b58decode`
unfoldable pub b58decode : String → Option (List ℕ)
unfolding b58_number b58_ones number_bytes
b58decode s = elim (b58_number 0 s) [ none ↦ none | some n ↦ some (b58_ones s (number_bytes n)) ]

unfoldable pub public_key_to_did : List ℕ → Option String
unfolding b58encode
public_key_to_did pk =
    if length pk == 32 then some ("did:key:z" ++ b58encode (237 ∷ 1 ∷ pk)) else none

-- the tests on the decoded bytes: `_ED25519_MULTICODEC`, then the length of the key
unfoldable pub key_of : List ℕ → Option (List ℕ)
key_of (a ∷ b ∷ pk) =
    if (a == 237) && (b == 1) then (if length pk == 32 then some pk else none) else none
key_of _ = none

unfoldable pub did_to_public_key : String → Option (List ℕ)
unfolding strip_prefix b58decode key_of
did_to_public_key did = elim (strip_prefix "did:key:z" did) [
  | none ↦ none
  | some encoded ↦ elim (b58decode encoded) [ none ↦ none | some decoded ↦ key_of decoded ]
]
