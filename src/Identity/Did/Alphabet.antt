-- ===== src/Identity/Did/Alphabet.antt =====
-- The base58 alphabet: a spelt digit is found again, and a "1" is a 0.
use Prim.Native.Char.{Char, code}
use ariesmesh.Prelude.{
  ◌≡◌, refl, ap, sym, ℕ, zero, suc, ◌+◌, ◌*◌, String, Bool, true, false, not, Option, none, some,
  List, [], ◌∷◌, foldl, if◌then◌else◌, ◌==◌, ==_iff, ◌&&◌, All, all_below, all_below_lem, arith,
}
use ariesmesh.Identity.Did.{b58_alphabet, put_symbol, spell, find_symbol, b58_number, b58_ones}
use ariesmesh.Identity.Did.Digits.{IsDigit, digit_step}

symbol_at : ℕ → String → Option Char
symbol_at n String.[] = none
symbol_at zero (String.◌∷◌ c s) = some c
symbol_at (suc n) (String.◌∷◌ c s) = symbol_at n s

abbrev is_place : ℕ → Option ℕ → Bool
is_place d none = false
is_place d (some i) = i == d

abbrev same : Bool → Bool → Bool
same true b = b
same false b = not b

-- the letter is found at `d`, and is "1" exactly if `d` is 0
abbrev is_found : ℕ → Option Char → Bool
is_found d none = false
is_found d (some c) = is_place d (find_symbol 0 c b58_alphabet) && same (code c == 49) (d == 0)

symbols_table : all_below (λ d. is_found d (symbol_at d b58_alphabet)) 58 ≡ true
unfolding symbol_at find_symbol
symbols_table = refl

-- what stands before a spelt text
put_symbol-cons :
    (d : ℕ) (s : String) (c : Char)
    → symbol_at d s ≡ some c
    → (t : String) → put_symbol d s t ≡ String.◌∷◌ c t
unfolding put_symbol symbol_at
put_symbol-cons d String.[] c h t = cc
put_symbol-cons zero (String.◌∷◌ x s) c h t = cc
put_symbol-cons (suc d) (String.◌∷◌ x s) c h t = put_symbol-cons d s c h t

place_of : (d : ℕ) (o : Option ℕ) → is_place d o ≡ true → o ≡ some d
place_of d none h = cc
place_of d (some i) h = ap some ((==_iff i d).0 h)

same_lem : (a b : Bool) → same a b ≡ true → a ≡ b
same_lem true b h = sym h
same_lem false b h = ground arith

IsSymbol : ℕ → Char → Type 0
IsSymbol d c =
    ((t : String) → put_symbol d b58_alphabet t ≡ String.◌∷◌ c t)
    × (find_symbol 0 c b58_alphabet ≡ some d)
    × ((code c == 49) ≡ (d == 0))

IsSymbol-from :
    (d : ℕ) (o : Option Char)
    → symbol_at d b58_alphabet ≡ o
    → is_found d o ≡ true
    → (c : Char) × IsSymbol d c
unfolding IsSymbol
IsSymbol-from d none e h = cc
IsSymbol-from d (some c) e h = (
  c,
  (
    put_symbol-cons d b58_alphabet c e,
    place_of d (find_symbol 0 c b58_alphabet) (ground arith),
    same_lem (code c == 49) (d == 0) (ground arith),
  ),
)

-- Every digit has a symbol.
IsSymbol-of : (d : ℕ) → IsDigit d → (c : Char) × IsSymbol d c
IsSymbol-of d h =
    IsSymbol-from d (symbol_at d b58_alphabet) refl
      (all_below_lem (λ d. is_found d (symbol_at d b58_alphabet)) 58 d symbols_table h)

pub b58_number-spell :
    (ds : List ℕ) (n : ℕ) → All IsDigit ds → b58_number n (spell ds) ≡ some (foldl digit_step n ds)
unfolding b58_number spell IsSymbol
b58_number-spell [] n h = refl
b58_number-spell (d ∷ ds) n (h, hs) =
    let (c, (put, found, one)) = IsSymbol-of d h in
    rw (put (spell ds), b58_number, found) (b58_number-spell ds (n * 58 + d) hs)

-- the zeros before the first other digit
abbrev pub zeros_of : List ℕ → List ℕ → List ℕ
zeros_of [] out = out
zeros_of (d ∷ ds) out = let more = zeros_of ds out in if d == 0 then 0 ∷ more else out

pub b58_ones-spell :
    (ds bytes : List ℕ) → All IsDigit ds → b58_ones (spell ds) bytes ≡ zeros_of ds bytes
unfolding b58_ones spell IsSymbol
b58_ones-spell [] bytes h = refl
b58_ones-spell (d ∷ ds) bytes (h, hs) =
    let (c, (put, found, one)) = IsSymbol-of d h in
    rw (put (spell ds), one, b58_ones-spell ds bytes hs) refl
