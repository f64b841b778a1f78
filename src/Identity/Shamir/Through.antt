-- ===== src/Identity/Shamir/Through.antt =====
-- Polynomials through given values, in a field of characteristic two.
use ariesmesh.Prelude.{
  ◌≡◌, ◌≢◌, refl, sym, ap, ◌∙◌, ℕ, zero, suc, ◌+◌, List, [], ◌∷◌, All, length, IsNew, IsDistinct,
  arith,
}
use ariesmesh.Identity.Shamir.Field.{
  Field, zero_add, nonzero_sum, mul_zero, zero_mul, add_mul, mul_left_comm,
}
use ariesmesh.Identity.Shamir.Interpolation.{eval, constant}

module _ {K : Type 0} (field : Field K) where
  open field use {
    zero as z, add, mul, inv, add_comm, add_assoc, add_zero, add_self, mul_comm, mul_assoc, mul_one,
    mul_add, mul_inv,
  }

  abbrev blank : ℕ → List K
  blank zero = []
  blank (suc n) = z ∷ blank n

  length-blank : (n : ℕ) → length (blank n) ≡ n
  length-blank zero = refl
  length-blank (suc n) = ap suc (length-blank n)

  -- The coefficients of a polynomial times `t + x`, plus `c`.
  abbrev times_root : K → K → List K → List K
  times_root x c [] = c ∷ []
  times_root x c (q ∷ cs) = add c (mul x q) ∷ times_root x q cs

  length-times_root : (x c : K) (cs : List K) → length (times_root x c cs) ≡ suc (length cs)
  length-times_root x c [] = refl
  length-times_root x c (q ∷ cs) = ap suc (length-times_root x q cs)

  rearranged :
      (x t c q v : K)
      → add (mul (add (mul (add t x) v) q) t) (add c (mul x q))
        ≡ add (mul (add t x) (add (mul v t) q)) c
  rearranged x t c q v =
      (λ i. add (add_mul field (mul (add t x) v) q t i) (add_comm c (mul x q) i))
      ∙ sym (add_assoc (add (mul (mul (add t x) v) t) (mul q t)) (mul x q) c)
      ∙ ap (λ w. add w c)
          (add_assoc (mul (mul (add t x) v) t) (mul q t) (mul x q)
            ∙ (λ i.
                add (mul_assoc (add t x) v t i)
                  (((λ i. add (mul_comm q t i) (mul x q)) ∙ sym (add_mul field t x q)) i))
            ∙ sym (mul_add (add t x) (mul v t) q))

  eval-times_root :
      (x c t : K) (cs : List K)
      → eval field (times_root x c cs) t ≡ add (mul (add t x) (eval field cs t)) c
  eval-times_root x c t [] = ap (λ w. add w c) (zero_mul field t ∙ sym (mul_zero field (add t x)))
  eval-times_root x c t (q ∷ cs) =
      ap (λ w. add (mul w t) (add c (mul x q))) (eval-times_root x q t cs)
      ∙ rearranged x t c q (eval field cs t)

  divided : (x t v c : K) → t ≢ x → add (mul (add t x) (mul (add v c) (inv (add t x)))) c ≡ v
  divided x t v c n =
      ap (λ w. add w c)
        (mul_left_comm field (add t x) (add v c) (inv (add t x))
          ∙ ap (mul (add v c)) (mul_inv (add t x) (nonzero_sum field t x n))
          ∙ mul_one (add v c))
      ∙ add_assoc v c c
      ∙ ap (add v) (add_self c)
      ∙ add_zero v

  still_through :
      (x : K) (f : K → K) (cs xs : List K)
      → IsNew x xs
      → All (λ t. eval field cs t ≡ mul (add (f t) (f x)) (inv (add t x))) xs
      → All (λ t. eval field (times_root x (f x) cs) t ≡ f t) xs
  still_through x f cs [] n h = tt
  still_through x f cs (t ∷ xs) (n, ns) (h, hs) = (
    eval-times_root x (f x) t cs
        ∙ ap (λ w. add (mul (add t x) w) (f x)) h
        ∙ divided x t (f t) (f x) n,
    still_through x f cs xs ns hs,
  )

  All-any : (xs : List K) (P : K → Type 0) → ((x : K) → P x) → All P xs
  All-any [] P h = tt
  All-any (x ∷ xs) P h = (h x, All-any xs P h)

  -- Any values at points that differ are those of a polynomial with as many coefficients, or with more.
  pub through :
      (f : K → K) (xs : List K) (spare : ℕ)
      → IsDistinct xs
      → (cs : List K) × (length cs ≡ length xs + spare) × All (λ x. eval field cs x ≡ f x) xs
  through f [] spare d = (blank spare, length-blank spare ∙ omega arith, tt)
  through f (x ∷ xs) spare (n, d) =
      let (cs, e, h) = through (λ t. mul (add (f t) (f x)) (inv (add t x))) xs spare d in
      (
        times_root x (f x) cs,
        omega (arith, length-times_root x (f x) cs, e),
        (
          eval-times_root x (f x) x cs
              ∙ ap (λ w. add (mul w (eval field cs x)) (f x)) (add_self x)
              ∙ ap (λ w. add w (f x)) (zero_mul field (eval field cs x))
              ∙ zero_add field (f x),
          still_through x f cs xs n h,
        ),
      )

  pub eval-zero : (cs : List K) → eval field cs z ≡ constant field cs
  eval-zero [] = refl
  eval-zero (c ∷ cs) = ap (λ w. add w c) (mul_zero field (eval field cs z)) ∙ zero_add field c
