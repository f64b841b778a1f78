-- ===== src/Identity/Shamir.antt =====
-- src/aries/identity/keys.py: sharing of a secret among devices, and its recovery. Bytes are the
-- numbers below 256.
pub mod Field
pub mod Interpolation
pub mod Split
pub mod Recover
pub mod Reconstruct
pub mod Through
pub mod Agree
pub mod Tests
pub mod Secrecy
pub mod Shape
use Prim.Native.Nat.{bit_xor}
use mathlib.Core.List.{reverse, ◌++◌}
use ariesmesh.Prelude.{
  ◌≡◌, refl, ◌+◌, ◌*◌, ℕ, zero, suc, ◌-◌, Bool, true, false, ◌||◌, Option, none, some, List, [],
  ◌∷◌, map, foldl, if◌then◌else◌, ◌==◌, ltb, any, length,
}
use ariesmesh.Identity.Keys.{fetch, gf256_mul, gf256_inv}

-- The ValueErrors of both functions, the IndexError of an empty share, and the ZeroDivisionError.
pub data ShareError : Type 0 where
  bad_threshold too_many_shares too_few_shares duplicate_points unequal_lengths : ShareError
  index_error zero_division : ShareError

pub data Shared (A : Type 0) : Type 0 where
  failed : ShareError → Shared A
  done : A → Shared A

-- the loop over the reversed coefficients
unfoldable pub horner : List ℕ → ℕ → ℕ
unfolding gf256_mul
horner coefficients x = foldl (λ y c. bit_xor (gf256_mul y x) c) 0 (reverse coefficients)

-- the results of so many calls of `secrets.randbelow`, from the number `j` on
unfoldable pub calls : (ℕ → ℕ) → ℕ → ℕ → List ℕ
calls random j zero = []
calls random j (suc count) = random j ∷ calls random (suc j) count

-- `shares[i].append(y)` for each share
unfoldable pub append_values : List ℕ → ℕ → List (List ℕ) → List (List ℕ)
unfolding horner
append_values coefficients i [] = []
append_values coefficients i (share ∷ shares) =
    (share ++ (horner coefficients (suc i) ∷ [])) ∷ append_values coefficients (suc i) shares

-- `[bytearray([i + 1]) for i in range(n)]`, from `i` on
unfoldable pub points : ℕ → ℕ → List (List ℕ)
points i zero = []
points i (suc n) = (suc i ∷ []) ∷ points (suc i) n

module _ (random : ℕ → ℕ → ℕ) where
  -- The loop over the secret: `random` gives the random bytes of each position.
  unfoldable pub share_bytes : ℕ → ℕ → List ℕ → List (List ℕ) → List (List ℕ)
  unfolding append_values calls
  share_bytes k pos [] shares = shares
  share_bytes k pos (byte ∷ secret) shares =
      share_bytes k (suc pos) secret (append_values (byte ∷ calls (random pos) 0 (k - 1)) 0 shares)

  unfoldable pub shamir_split : List ℕ → ℕ → ℕ → Shared (List (List ℕ))
  unfolding share_bytes points
  shamir_split secret n k =
      if ltb k 2 || ltb n k
      then failed bad_threshold
      else if ltb 255 n
      then failed too_many_shares
      else done (share_bytes k 0 secret (points 0 n))

-- `[s[0] for s in shares]`
unfoldable pub heads : List (List ℕ) → Option (List ℕ)
heads [] = some []
heads ([] ∷ shares) = none
heads ((x ∷ share) ∷ shares) = elim (heads shares) [ none ↦ none | some xs ↦ some (x ∷ xs) ]

unfoldable pub has_duplicates : List ℕ → Bool
has_duplicates [] = false
has_duplicates (x ∷ xs) = let later = has_duplicates xs in any (λ y. y == x) xs || later

-- The points of the loop over `j`, which passes over the index `i`.
unfoldable pub skip : {A : Type 0} → ℕ → List A → List A
skip i [] = []
skip zero (x ∷ xs) = xs
skip (suc i) (x ∷ xs) = x ∷ skip i xs

-- the loop over `j`; `none` is the ZeroDivisionError
unfoldable pub basis_at : ℕ → List ℕ → ℕ → Option ℕ
unfolding gf256_mul gf256_inv
basis_at x [] basis = some basis
basis_at x (y ∷ ys) basis = elim (gf256_inv (bit_xor x y)) [
  | none ↦ none
  | some d ↦ basis_at x ys (gf256_mul basis (gf256_mul y d))
]

-- The loop over `i`, from the index `i` on. The shares have one length, so that each has a byte at the
-- position.
unfoldable pub value_at : ℕ → List ℕ → ℕ → List (List ℕ) → ℕ → Option ℕ
unfolding basis_at skip fetch
value_at pos xs i [] value = some value
value_at pos xs i (share ∷ shares) value = elim (basis_at (fetch i xs) (skip i xs) 1) [
  | none ↦ none
  | some basis ↦
      value_at pos xs (suc i) shares (bit_xor value (gf256_mul (fetch (suc pos) share) basis))
]

-- the loop over the positions, of which `count` are left
unfoldable pub recover : List ℕ → List (List ℕ) → ℕ → ℕ → Option (List ℕ)
unfolding value_at
recover xs shares pos zero = some []
recover xs shares pos (suc count) = elim (value_at pos xs 0 shares 0) [
  | none ↦ none
  | some value ↦ elim (recover xs shares (suc pos) count) [
    | none ↦ none
    | some rest ↦ some (value ∷ rest)
  ]
]

abbrev pub or_division : Option (List ℕ) → Shared (List ℕ)
or_division none = failed zero_division
or_division (some out) = done out

-- the statements of `shamir_reconstruct` after the points
unfoldable pub reconstruct_at : Option (List ℕ) → List (List ℕ) → Shared (List ℕ)
unfolding recover has_duplicates
reconstruct_at none shares = failed index_error
reconstruct_at (some xs) [] = failed too_few_shares
reconstruct_at (some xs) (share ∷ shares) =
    if has_duplicates xs
    then failed duplicate_points
    else if any (λ s. if length s == length share then false else true) shares
    then failed unequal_lengths
    else or_division (recover xs (share ∷ shares) 0 (length share - 1))

unfoldable pub shamir_reconstruct : List (List ℕ) → Shared (List ℕ)
unfolding reconstruct_at heads
shamir_reconstruct shares =
    if ltb (length shares) 2 then failed too_few_shares else reconstruct_at (heads shares) shares
