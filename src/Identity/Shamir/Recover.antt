-- ===== src/Identity/Shamir/Recover.antt =====
-- The loops of `shamir_reconstruct` compute the weighted sums of the interpolation.
use Prim.Native.Nat.{bit_xor}
use ariesmesh.Prelude.{
  ◌≡◌, ◌≢◌, refl, sym, ap, ◌∙◌, ◌+◌, ◌-◌, ◌<◌, ◌≤◌, ℕ, zero, suc, some, List, [], ◌∷◌, map, length,
  All, IsNew, IsDistinct, arith, if◌then◌else◌,
}
use ariesmesh.Prelude.Xor.{zero-bit_xor}
use ariesmesh.Identity.Keys.{fetch, gf256_mul}
use ariesmesh.Identity.Keys.Gf256.{
  Byte, gf256, byte_xor, byte_mul, byte_inv, byte_inv_lem, byte_path,
}
use ariesmesh.Identity.Shamir.{skip, basis_at, value_at, recover}
use ariesmesh.Identity.Shamir.Field.{nonzero_sum, one_mul}
use ariesmesh.Identity.Shamir.Interpolation.{
  eval, factor, weight, total, eq_other, factor_self, interpolated,
}
use ariesmesh.Identity.Shamir.Split.{
  IsBytes, bytes_of, length-bytes_of, calls-IsBytes, horner_lem, coefficients, length-coefficients,
  values,
}

abbrev one : Byte
one = (1, omega arith)

abbrev pub vals : List Byte → List ℕ
vals ps = map (λ (p : Byte). p.0) ps

apart : (x y : Byte) → y ≢ x → byte_xor x y ≢ (0, omega arith)
apart x y n = nonzero_sum gf256 x y (λ e. n (sym e))

factor_apart : (x y : Byte) → y ≢ x → factor gf256 x y ≡ byte_mul y (byte_inv (byte_xor x y))
factor_apart x y n = rw (eq_other gf256 x y (λ e. n (sym e)), if◌then◌else◌) refl

abbrev pub zero_byte : Byte
zero_byte = (0, omega arith)

-- The inner loop multiplies by the weight.
basis_at-weight :
    (x acc : Byte) (ys : List Byte)
    → IsNew x ys
    → basis_at x.0 (vals ys) acc.0 ≡ some (byte_mul acc (weight gf256 x ys)).0
unfolding basis_at
basis_at-weight x acc [] h = ap (λ (b : Byte). some b.0) (sym (gf256.mul_one acc))
basis_at-weight x acc (y ∷ ys) (n, h) =
    let c = byte_mul y (byte_inv (byte_xor x y)) in
    rw (basis_at, byte_inv_lem (byte_xor x y) (λ e. apart x y n (byte_path _ _ e)))
      (basis_at-weight x (byte_mul acc c) ys h
        ∙ ap (λ (b : Byte). some b.0)
            (gf256.mul_assoc acc c (weight gf256 x ys)
              ∙ ap (λ (t : Byte). byte_mul acc (byte_mul t (weight gf256 x ys)))
                  (sym (factor_apart x y n))))

-- What is left of a list from an index on.
module _ {A : Type 0} where
  abbrev IsRest : ℕ → List A → List A → Type 0
  IsRest zero rest whole = rest ≡ whole
  IsRest (suc i) rest [] = ⊥
  IsRest (suc i) rest (w ∷ whole) = IsRest i rest whole

  next-IsRest :
      (i : ℕ) (p : A) (rest whole : List A) → IsRest i (p ∷ rest) whole → IsRest (suc i) rest whole
  next-IsRest zero p rest [] h = cc
  next-IsRest zero p rest (w ∷ whole) h = cc
  next-IsRest (suc i) p rest [] h = absurd h
  next-IsRest (suc i) p rest (w ∷ whole) h = next-IsRest i p rest whole h

  All-rest :
      (P : A → Type 0) (i : ℕ) (p : A) (rest whole : List A)
      → All P whole
      → IsRest i (p ∷ rest) whole
      → P p
  All-rest P zero p rest whole a h = let (b, bs) = (rw (sym h) at a) in b
  All-rest P (suc i) p rest [] a h = absurd h
  All-rest P (suc i) p rest (w ∷ whole) (b, bs) h = All-rest P i p rest whole bs h

  skip-IsNew :
      (i : ℕ) (p : A) (rest whole : List A)
      → IsDistinct whole
      → IsRest i (p ∷ rest) whole
      → IsNew p (skip i whole)
  unfolding skip
  skip-IsNew zero p rest whole d h = rw (sym h) ((rw (sym h) at d).0)
  skip-IsNew (suc i) p rest [] d h = absurd h
  skip-IsNew (suc i) p rest (w ∷ whole) (n, d) h =
      (λ e. All-rest (λ y. y ≢ w) i p rest whole n h (sym e), skip-IsNew i p rest whole d h)

  skip-map :
      {B : Type 0} (f : A → B) (i : ℕ) (whole : List A)
      → skip i (map f whole) ≡ map f (skip i whole)
  unfolding skip
  skip-map f i [] = refl
  skip-map f zero (p ∷ whole) = refl
  skip-map f (suc i) (p ∷ whole) = ap (λ rest. f p ∷ rest) (skip-map f i whole)

fetch-rest :
    (i : ℕ) (p : Byte) (rest whole : List Byte)
    → IsRest i (p ∷ rest) whole
    → fetch i (vals whole) ≡ p.0
unfolding fetch
fetch-rest zero p rest whole h = rw (sym h) refl
fetch-rest (suc i) p rest [] h = absurd h
fetch-rest (suc i) p rest (w ∷ whole) h = fetch-rest i p rest whole h

-- The factor of the point itself is one.
weight-skip :
    (i : ℕ) (p : Byte) (rest whole : List Byte)
    → IsRest i (p ∷ rest) whole
    → weight gf256 p (skip i whole) ≡ weight gf256 p whole
unfolding skip
weight-skip zero p rest whole h = rw (sym h) (
    sym (one_mul gf256 (weight gf256 p rest))
    ∙ ap (λ c. byte_mul c (weight gf256 p rest)) (sym (factor_self gf256 p)))
weight-skip (suc i) p rest [] h = absurd h
weight-skip (suc i) p rest (w ∷ whole) h =
    ap (byte_mul (factor gf256 p w)) (weight-skip i p rest whole h)

-- What the loop over `j` gives for a point of the list.
basis-rest :
    (i : ℕ) (p : Byte) (rest whole : List Byte)
    → IsDistinct whole
    → IsRest i (p ∷ rest) whole
    → basis_at (fetch i (vals whole)) (skip i (vals whole)) 1 ≡ some (weight gf256 p whole).0
basis-rest i p rest whole d h =
    (λ t. basis_at (fetch-rest i p rest whole h t) (skip-map (λ (p : Byte). p.0) i whole t) 1)
    ∙ basis_at-weight p one (skip i whole) (skip-IsNew i p rest whole d h)
    ∙ ap (λ (b : Byte). some b.0)
        (one_mul gf256 (weight gf256 p (skip i whole)) ∙ weight-skip i p rest whole h)

module _ (share : ℕ → List ℕ) where
  -- The loop over `i` adds up the weighted values.
  value_at-total :
      (f : Byte → Byte) (pos i : ℕ) (rest whole : List Byte) (v : Byte)
      → ((p : Byte) → fetch (suc pos) (share p.0) ≡ (f p).0)
      → IsDistinct whole
      → IsRest i rest whole
      → value_at pos (vals whole) i (map (λ (p : Byte). share p.0) rest) v.0
        ≡ some (byte_xor v (total gf256 f rest whole)).0
  unfolding value_at
  value_at-total f pos i [] whole v e d h = ap (λ (b : Byte). some b.0) (sym (gf256.add_zero v))
  value_at-total f pos i (p ∷ rest) whole v e d h =
      let term = byte_mul (f p) (weight gf256 p whole) in
      rw (value_at, basis-rest i p rest whole d h)
        (ap
            (λ y.
              value_at pos (vals whole) (suc i) (map (λ (p : Byte). share p.0) rest)
                (bit_xor v.0 (gf256_mul y (weight gf256 p whole).0)))
            (e p)
          ∙ value_at-total f pos (suc i) rest whole (byte_xor v term) e d
              (next-IsRest i p rest whole h)
          ∙ ap (λ (b : Byte). some b.0) (gf256.add_assoc v term (total gf256 f rest whole)))

  -- The loop over the positions reads off the secret from the values of its polynomials.
  pub recover-values :
      (random : ℕ → ℕ → ℕ) (k : ℕ) (secret : List ℕ) (pos : ℕ) (whole : List Byte)
      → ((pos j : ℕ) → random pos j < 256)
      → IsBytes secret
      → IsDistinct whole
      → 1 ≤ k
      → k ≤ length whole
      → ((j x : ℕ) → fetch (suc (pos + j)) (share x) ≡ fetch j (values random k pos secret x))
      → recover (vals whole) (map (λ (p : Byte). share p.0) whole) pos (length secret) ≡ some secret
  unfolding recover fetch values
  recover-values random k [] pos whole r h d one_le enough e = refl
  recover-values random k (byte ∷ secret) pos whole r (b, h) d one_le enough e =
      let cs = coefficients random k pos byte in
      let bs : IsBytes cs = (b, calls-IsBytes (random pos) 0 (k - 1) (r pos)) in
      let read : (p : Byte) → fetch (suc pos) (share p.0) ≡ (eval gf256 (bytes_of cs bs) p).0 =
        λ p. ap (λ n. fetch (suc n) (share p.0)) (omega arith) ∙ e 0 p.0 ∙ horner_lem cs bs p in
      let later : (j x : ℕ)
          → fetch (suc (suc pos + j)) (share x) ≡ fetch j (values random k (suc pos) secret x) =
        λ j x. ap (λ n. fetch (suc n) (share x)) (omega arith) ∙ e (suc j) x in
      let few : length (bytes_of cs bs) ≤ length whole =
        omega
          (arith, length-bytes_of cs bs, length-coefficients random k pos byte one_le, enough) in
      let value : value_at pos (vals whole) 0 (map (λ (p : Byte). share p.0) whole) 0 ≡ some byte =
        value_at-total (eval gf256 (bytes_of cs bs)) pos 0 whole whole zero_byte read d refl
        ∙ ap (λ (t : Byte). some (bit_xor 0 t.0)) (interpolated gf256 (bytes_of cs bs) whole few d)
        ∙ ap some (zero-bit_xor byte) in
      rw (recover, value, recover-values random k secret (suc pos) whole r h d one_le enough later)
        refl
