-- ===== src/Identity/Shamir/Split.antt =====
-- The shares of `shamir_split`, as the values of polynomials at the points 1 to n.
use Prim.Native.Nat.{bit_xor}
use mathlib.Core.List.{◌++◌, reverse, reverse-cons, append_assoc, append-nil}
use ariesmesh.Prelude.{
  ◌≡◌, refl, sym, ap, ◌∙◌, ◌+◌, ◌-◌, ◌≤◌, ◌<◌, ℕ, zero, suc, inl, inr, List, [], ◌∷◌, foldl, length,
  In, All, arith, false, if◌then◌else◌, ltb, ◌||◌, Bool-cases, ◌==◌, ==_iff,
}
use ariesmesh.Identity.Keys.{gf256_mul}
use ariesmesh.Identity.Keys.Gf256.{Byte, gf256}
use ariesmesh.Identity.Shamir.{
  horner, calls, append_values, points, share_bytes, shamir_split, done, failed, bad_threshold,
  too_many_shares,
}
use ariesmesh.Identity.Shamir.Interpolation.{eval}

module _ {A : Type 0} where
  -- the values of a function at `i + 1`, `i + 2`, ...
  unfoldable pub indexed : (ℕ → A) → ℕ → ℕ → List A
  indexed f i zero = []
  indexed f i (suc m) = f (suc i) ∷ indexed f (suc i) m

  indexed_ext : (f h : ℕ → A) (i m : ℕ) → ((x : ℕ) → f x ≡ h x) → indexed f i m ≡ indexed h i m
  unfolding indexed
  indexed_ext f h i zero e = refl
  indexed_ext f h i (suc m) e = λ t. e (suc i) t ∷ indexed_ext f h (suc i) m e t

  pub indexed-In :
      (f : ℕ → A) (i m : ℕ) (a : A)
      → In a (indexed f i m)
      → (x : ℕ) × (a ≡ f x) × (i < x) × (x ≤ i + m)
  unfolding indexed
  indexed-In f i zero a h = absurd h
  indexed-In f i (suc m) a (inl e) = (suc i, e, omega arith, omega arith)
  indexed-In f i (suc m) a (inr h) =
      let (x, e, k, l) = indexed-In f (suc i) m a h in (x, e, omega (arith, k), omega (arith, l))

  pub In-indexed : (f : ℕ → A) (i m x : ℕ) → i < x → x ≤ i + m → In (f x) (indexed f i m)
  unfolding indexed
  In-indexed f i zero x low high = absurd (omega (arith, low, high))
  In-indexed f i (suc m) x low high = elim (Bool-cases (x == suc i)) [
    | inl e ↦ inl (ap f ((==_iff x (suc i)).0 e))
    | inr n ↦ inr (In-indexed f (suc i) m x (ground arith) (omega (arith, high)))
  ]

foldl-snoc :
    {A B : Type 0} (f : B → A → B) (b : B) (xs : List A) (x : A)
    → foldl f b (xs ++ (x ∷ [])) ≡ f (foldl f b xs) x
foldl-snoc f b [] x = refl
foldl-snoc f b (y ∷ xs) x = foldl-snoc f (f b y) xs x

horner-cons :
    (c : ℕ) (cs : List ℕ) (x : ℕ) → horner (c ∷ cs) x ≡ bit_xor (gf256_mul (horner cs x) x) c
unfolding horner
horner-cons c cs x =
    ap (foldl (λ y c. bit_xor (gf256_mul y x) c) 0) (reverse-cons c cs)
    ∙ foldl-snoc (λ y c. bit_xor (gf256_mul y x) c) 0 (reverse cs) c

abbrev pub IsBytes : List ℕ → Type 0
IsBytes xs = All (λ x. x < 256) xs

abbrev pub bytes_of : (xs : List ℕ) → IsBytes xs → List Byte
bytes_of [] h = []
bytes_of (x ∷ xs) (h, hs) = (x, h) ∷ bytes_of xs hs

pub length-bytes_of : (xs : List ℕ) (h : IsBytes xs) → length (bytes_of xs h) ≡ length xs
length-bytes_of [] h = refl
length-bytes_of (x ∷ xs) (h, hs) = ap suc (length-bytes_of xs hs)

-- The loop evaluates the polynomial.
pub horner_lem :
    (cs : List ℕ) (h : IsBytes cs) (x : Byte) → horner cs x.0 ≡ (eval gf256 (bytes_of cs h) x).0
unfolding horner
horner_lem [] h x = refl
horner_lem (c ∷ cs) (h, hs) x =
    horner-cons c cs x.0 ∙ ap (λ y. bit_xor (gf256_mul y x.0) c) (horner_lem cs hs x)

length-calls : (random : ℕ → ℕ) (j count : ℕ) → length (calls random j count) ≡ count
unfolding calls
length-calls random j zero = refl
length-calls random j (suc count) = ap suc (length-calls random (suc j) count)

pub calls-IsBytes :
    (random : ℕ → ℕ) (j count : ℕ) → ((j : ℕ) → random j < 256) → IsBytes (calls random j count)
unfolding calls
calls-IsBytes random j zero h = tt
calls-IsBytes random j (suc count) h = (h j, calls-IsBytes random (suc j) count h)

done_path : {A : Type 0} {a b : A} → done a ≡ done b → a ≡ b
done_path h = cc

module _ (random : ℕ → ℕ → ℕ) (k : ℕ) where
  -- the coefficients of a position
  abbrev pub coefficients : ℕ → ℕ → List ℕ
  coefficients pos byte = byte ∷ calls (random pos) 0 (k - 1)

  pub length-coefficients : (pos byte : ℕ) → 1 ≤ k → length (coefficients pos byte) ≡ k
  length-coefficients pos byte h = omega (arith, length-calls (random pos) 0 (k - 1), h)

  unfoldable pub values : ℕ → List ℕ → ℕ → List ℕ
  values pos [] x = []
  values pos (byte ∷ secret) x = horner (coefficients pos byte) x ∷ values (suc pos) secret x

  pub length-values :
      (pos : ℕ) (secret : List ℕ) (x : ℕ) → length (values pos secret x) ≡ length secret
  unfolding values
  length-values pos [] x = refl
  length-values pos (byte ∷ secret) x = ap suc (length-values (suc pos) secret x)

  -- the share of a point
  abbrev pub share_of : List ℕ → ℕ → List ℕ
  share_of secret x = x ∷ values 0 secret x

  points-indexed : (i n : ℕ) → points i n ≡ indexed (λ x. x ∷ []) i n
  unfolding points indexed
  points-indexed i zero = refl
  points-indexed i (suc n) = ap (λ rest. (suc i ∷ []) ∷ rest) (points-indexed (suc i) n)

  append_values-indexed :
      (cs : List ℕ) (f : ℕ → List ℕ) (i m : ℕ)
      → append_values cs i (indexed f i m) ≡ indexed (λ x. f x ++ (horner cs x ∷ [])) i m
  unfolding append_values indexed
  append_values-indexed cs f i zero = refl
  append_values-indexed cs f i (suc m) =
      ap (λ rest. (f (suc i) ++ (horner cs (suc i) ∷ [])) ∷ rest)
        (append_values-indexed cs f (suc i) m)

  share_bytes-indexed :
      (pos n : ℕ) (secret : List ℕ) (f : ℕ → List ℕ)
      → share_bytes random k pos secret (indexed f 0 n)
        ≡ indexed (λ x. f x ++ values pos secret x) 0 n
  unfolding share_bytes values
  share_bytes-indexed pos n [] f = indexed_ext f (λ x. f x ++ []) 0 n (λ x. sym (append-nil (f x)))
  share_bytes-indexed pos n (byte ∷ secret) f =
      let cs = coefficients pos byte in
      ap (share_bytes random k (suc pos) secret) (append_values-indexed cs f 0 n)
      ∙ share_bytes-indexed (suc pos) n secret (λ x. f x ++ (horner cs x ∷ []))
      ∙ indexed_ext (λ x. (f x ++ (horner cs x ∷ [])) ++ values (suc pos) secret x)
          (λ x. f x ++ values pos (byte ∷ secret) x) 0 n
          (λ x. append_assoc (f x) (horner cs x ∷ []) (values (suc pos) secret x))

  all_shares :
      (secret : List ℕ) (n : ℕ)
      → share_bytes random k 0 secret (points 0 n) ≡ indexed (share_of secret) 0 n
  all_shares secret n =
      ap (share_bytes random k 0 secret) (points-indexed 0 n)
      ∙ share_bytes-indexed 0 n secret (λ x. x ∷ [])

  -- A split gives the shares of the points 1 to n.
  pub shamir_split-done :
      (secret : List ℕ) (n : ℕ) (shares : List (List ℕ))
      → shamir_split random secret n k ≡ done shares
      → (shares ≡ indexed (share_of secret) 0 n) × (2 ≤ k) × (k ≤ n) × (n ≤ 255)
  unfolding shamir_split
  shamir_split-done secret n shares h = elim (Bool-cases (ltb k 2 || ltb n k)) [
    | inl e ↦ let g = (rw (e, if◌then◌else◌) at h) in cc
    | inr e ↦
        let g = (rw (e, if◌then◌else◌) at h) in
        elim (Bool-cases (ltb 255 n)) [
          | inl e' ↦ let g' = (rw (e', if◌then◌else◌) at g) in cc
          | inr e' ↦
              let g' = (rw (e', if◌then◌else◌) at g) in
              (sym (done_path g') ∙ all_shares secret n, ground arith, ground arith, ground arith)
        ]
  ]

  pub shamir_split-indexed :
      (secret : List ℕ) (n : ℕ)
      → 2 ≤ k
      → k ≤ n
      → n ≤ 255
      → shamir_split random secret n k ≡ done (indexed (share_of secret) 0 n)
  unfolding shamir_split
  shamir_split-indexed secret n two low high =
      let enough : (ltb k 2 || ltb n k) ≡ false = ground arith in
      let few : ltb 255 n ≡ false = ground arith in
      (λ i.
        if enough i
        then failed bad_threshold
        else if few i
        then failed too_many_shares
        else done (share_bytes random k 0 secret (points 0 n)))
      ∙ ap done (all_shares secret n)
