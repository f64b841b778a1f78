-- ===== src/Identity/Shamir/Shape.antt =====
-- What `shamir_split` appends to its bytearrays are bytes.
use mathlib.Core.Path.{subst⁻¹}
use ariesmesh.Prelude.{◌≡◌, ap, ℕ, zero, suc, ◌+◌, ◌-◌, ◌<◌, ◌≤◌, List, [], ◌∷◌, length, All, arith}
use ariesmesh.Identity.Keys.Gf256.{Byte, gf256}
use ariesmesh.Identity.Shamir.{shamir_split, done, horner}
use ariesmesh.Identity.Shamir.Interpolation.{eval}
use ariesmesh.Identity.Shamir.Split.{
  IsBytes, bytes_of, calls-IsBytes, horner_lem, coefficients, values, length-values, share_of,
  indexed, shamir_split-done,
}

horner_below : (cs : List ℕ) → IsBytes cs → (x : Byte) → horner cs x.0 < 256
horner_below cs h x = subst⁻¹ (λ n. n < 256) (horner_lem cs h x) (eval gf256 (bytes_of cs h) x).1

module _ (random : ℕ → ℕ → ℕ) (k : ℕ) (random_below : (pos j : ℕ) → random pos j < 256) where
  values-IsBytes :
      (pos : ℕ) (secret : List ℕ) (x : Byte)
      → IsBytes secret
      → IsBytes (values random k pos secret x.0)
  unfolding values
  values-IsBytes pos [] x h = tt
  values-IsBytes pos (byte ∷ secret) x (b, h) = (
    horner_below (coefficients random k pos byte)
        (b, calls-IsBytes (random pos) 0 (k - 1) (random_below pos)) x,
    values-IsBytes (suc pos) secret x h,
  )

  -- a list of bytes that has one more than the secret
  abbrev pub IsShare : List ℕ → List ℕ → Type 0
  IsShare secret s = IsBytes s × (length s ≡ suc (length secret))

  indexed-IsShare :
      (secret : List ℕ) (i m : ℕ)
      → IsBytes secret
      → i + m ≤ 255
      → All (IsShare secret) (indexed (share_of random k secret) i m)
  unfolding indexed
  indexed-IsShare secret i zero h low = tt
  indexed-IsShare secret i (suc m) h low =
      let below : suc i < 256 = omega (arith, low) in
      (
        (
          (below, values-IsBytes 0 secret (suc i, below) h),
          ap suc (length-values random k 0 secret (suc i)),
        ),
        indexed-IsShare secret (suc i) m h (omega (arith, low)),
      )

-- Where the secret and the random numbers are bytes, every share is a list of bytes, one longer than the
-- secret.
pub shamir_split-IsShare :
    (random : ℕ → ℕ → ℕ) (secret : List ℕ) (n k : ℕ) (shares : List (List ℕ))
    → ((pos j : ℕ) → random pos j < 256)
    → IsBytes secret
    → shamir_split random secret n k ≡ done shares
    → All (λ s. IsBytes s × (length s ≡ suc (length secret))) shares
shamir_split-IsShare random secret n k shares r h split =
    let (e, two, low, high) = shamir_split-done random k secret n shares split in
    subst⁻¹ (λ l. All (λ s. IsBytes s × (length s ≡ suc (length secret))) l) e
      (indexed-IsShare random k r secret 0 n h (omega (arith, high)))
