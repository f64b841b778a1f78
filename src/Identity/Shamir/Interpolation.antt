-- ===== src/Identity/Shamir/Interpolation.antt =====
-- Interpolation at zero in a field of characteristic two, by the sums that the recovery computes.
use ariesmesh.Prelude.{
  ◌≡◌, ◌≢◌, refl, sym, ap, ◌∙◌, ◌≤◌, true, false, inl, inr, Bool-cases, List, [], ◌∷◌,
  if◌then◌else◌, length, arith, IsNew, IsDistinct,
}
use ariesmesh.Identity.Shamir.Field.{
  Field, zero_add, add_swap, add_left_comm, add_twice, add_undo, nonzero_sum, mul_zero, zero_mul,
  add_mul, mul_left_comm, mul_cancel,
}

module _ {K : Type 0} (field : Field K) where
  open field use {
    zero, one, add, mul, inv, eq, eq_iff, add_comm, add_assoc, add_zero, add_self, mul_comm,
    mul_assoc, mul_one, mul_add, mul_inv,
  }

  -- the factor of the point `y` in the basis polynomial of the point `x`, at zero
  abbrev pub factor : K → K → K
  factor x y = if eq x y then one else mul y (inv (add x y))

  abbrev pub weight : K → List K → K
  weight x [] = one
  weight x (y ∷ ys) = mul (factor x y) (weight x ys)

  -- the weighted sum of a function over points
  abbrev pub total : (K → K) → List K → List K → K
  total f [] ys = zero
  total f (x ∷ xs) ys = add (mul (f x) (weight x ys)) (total f xs ys)

  -- Horner's method, with the lowest coefficient first
  abbrev pub eval : List K → K → K
  eval [] x = zero
  eval (c ∷ cs) x = add (mul (eval cs x) x) c

  abbrev pub constant : List K → K
  constant [] = zero
  constant (c ∷ cs) = c

  total_ext : (f h : K → K) (xs ys : List K) → ((x : K) → f x ≡ h x) → total f xs ys ≡ total h xs ys
  total_ext f h [] ys e = refl
  total_ext f h (x ∷ xs) ys e = λ i. add (mul (e x i) (weight x ys)) (total_ext f h xs ys e i)

  total_add :
      (f h : K → K) (xs ys : List K)
      → total (λ x. add (f x) (h x)) xs ys ≡ add (total f xs ys) (total h xs ys)
  total_add f h [] ys = sym (add_zero zero)
  total_add f h (x ∷ xs) ys =
      (λ i. add (add_mul field (f x) (h x) (weight x ys) i) (total_add f h xs ys i))
      ∙ add_swap field (mul (f x) (weight x ys)) (mul (h x) (weight x ys)) (total f xs ys)
          (total h xs ys)

  total_mul :
      (c : K) (f : K → K) (xs ys : List K) → total (λ x. mul c (f x)) xs ys ≡ mul c (total f xs ys)
  total_mul c f [] ys = sym (mul_zero field c)
  total_mul c f (x ∷ xs) ys =
      (λ i. add (mul_assoc c (f x) (weight x ys) i) (total_mul c f xs ys i))
      ∙ sym (mul_add c (mul (f x) (weight x ys)) (total f xs ys))

  total_zero : (xs ys : List K) → total (λ x. zero) xs ys ≡ zero
  total_zero [] ys = refl
  total_zero (x ∷ xs) ys =
      (λ i. add (zero_mul field (weight x ys) i) (total_zero xs ys i)) ∙ add_zero zero

  eq_self : (a : K) → eq a a ≡ true
  eq_self a = (eq_iff a a).1 refl

  pub eq_other : (x a : K) → x ≢ a → eq x a ≡ false
  eq_other x a h = elim (Bool-cases (eq x a)) [ inl e ↦ absurd (h ((eq_iff x a).0 e)) | inr e ↦ e ]

  -- The factor of another point undoes its difference.
  pub factor_other : (x a w : K) → x ≢ a → mul (add x a) (mul (factor x a) w) ≡ mul a w
  factor_other x a w h =
      rw (eq_other x a h, if◌then◌else◌)
        (sym (mul_assoc (add x a) (mul a (inv (add x a))) w)
          ∙ ap (λ t. mul t w)
              (mul_left_comm field (add x a) a (inv (add x a))
                ∙ ap (mul a) (mul_inv (add x a) (nonzero_sum field x a h))
                ∙ mul_one a))

  others_term : (x a v w : K) → x ≢ a → mul (mul (add x a) v) (mul (factor x a) w) ≡ mul a (mul v w)
  others_term x a v w h =
      ap (λ t. mul t (mul (factor x a) w)) (mul_comm (add x a) v)
      ∙ mul_assoc v (add x a) (mul (factor x a) w)
      ∙ ap (mul v) (factor_other x a w h)
      ∙ mul_left_comm field v a w

  total_others :
      (a : K) (f : K → K) (xs ys : List K)
      → IsNew a xs
      → total (λ x. mul (add x a) (f x)) xs (a ∷ ys) ≡ mul a (total f xs ys)
  total_others a f [] ys h = sym (mul_zero field a)
  total_others a f (x ∷ xs) ys (h, hs) =
      (λ i. add (others_term x a (f x) (weight x ys) h i) (total_others a f xs ys hs i))
      ∙ sym (mul_add a (mul (f x) (weight x ys)) (total f xs ys))

  -- A function with a root at a point drops the point.
  total_root :
      (a : K) (f : K → K) (xs : List K)
      → IsNew a xs
      → total (λ x. mul (add x a) (f x)) (a ∷ xs) (a ∷ xs) ≡ mul a (total f xs xs)
  total_root a f xs h =
      let w = mul (factor a a) (weight a xs) in
      (λ i. add (mul (mul (add_self a i) (f a)) w) (total_others a f xs xs h i))
      ∙ ap (λ t. add t (mul a (total f xs xs)))
          (ap (λ t. mul t w) (zero_mul field (f a)) ∙ zero_mul field w)
      ∙ zero_add field (mul a (total f xs xs))

  weight_swap : (x a b : K) (ys : List K) → weight x (a ∷ b ∷ ys) ≡ weight x (b ∷ a ∷ ys)
  weight_swap x a b ys = mul_left_comm field (factor x a) (factor x b) (weight x ys)

  total_points :
      (f : K → K) (xs : List K) (ys zs : List K)
      → ((x : K) → weight x ys ≡ weight x zs)
      → total f xs ys ≡ total f xs zs
  total_points f [] ys zs e = refl
  total_points f (x ∷ xs) ys zs e = λ i. add (mul (f x) (e x i)) (total_points f xs ys zs e i)

  total_swap :
      (f : K → K) (a b : K) (xs : List K)
      → total f (a ∷ b ∷ xs) (a ∷ b ∷ xs) ≡ total f (b ∷ a ∷ xs) (b ∷ a ∷ xs)
  total_swap f a b xs =
      add_left_comm field (mul (f a) (weight a (a ∷ b ∷ xs))) (mul (f b) (weight b (a ∷ b ∷ xs)))
        (total f xs (a ∷ b ∷ xs))
      ∙ (λ i. add (mul (f b) (weight_swap b a b xs i)) (
          add (mul (f a) (weight_swap a a b xs i))
            (total_points f xs (a ∷ b ∷ xs) (b ∷ a ∷ xs) (λ x. weight_swap x a b xs) i)))

  IsNew-swap : (a b : K) (xs : List K) → IsDistinct (a ∷ b ∷ xs) → IsNew b (a ∷ xs)
  IsNew-swap a b xs ((h, hs), (k, d)) = (λ e. h (sym e), k)

  -- The sum of a function with roots at neither of two points, times their difference.
  total_pair :
      (f : K → K) (a b : K) (xs : List K)
      → IsDistinct (a ∷ b ∷ xs)
      → mul (add a b) (total f (a ∷ b ∷ xs) (a ∷ b ∷ xs))
        ≡ add (mul a (total f (b ∷ xs) (b ∷ xs))) (mul b (total f (a ∷ xs) (a ∷ xs)))
  total_pair f a b xs d =
      let points = a ∷ b ∷ xs in
      sym (total_mul (add a b) f points points)
      ∙ total_ext (λ x. mul (add a b) (f x)) (λ x. add (mul (add x a) (f x)) (mul (add x b) (f x)))
          points points
          (λ x.
            ap (λ t. mul t (f x)) (sym (add_twice field x a b))
            ∙ add_mul field (add x a) (add x b) (f x))
      ∙ total_add (λ x. mul (add x a) (f x)) (λ x. mul (add x b) (f x)) points points
      ∙ (λ i. add (total_root a f (b ∷ xs) d.0 i) (total_swap (λ x. mul (add x b) (f x)) a b xs i))
      ∙ ap (add (mul a (total f (b ∷ xs) (b ∷ xs)))) (total_root b f (a ∷ xs) (IsNew-swap a b xs d))

  pub factor_self : (a : K) → factor a a ≡ one
  factor_self a = rw (eq_self a, if◌then◌else◌) refl

  -- The weights at points that differ make up one.
  unity : (xs : List K) (a : K) → IsDistinct (a ∷ xs) → total (λ x. one) (a ∷ xs) (a ∷ xs) ≡ one
  unity [] a d =
      (λ i. add (mul one (mul (factor_self a i) one)) zero)
      ∙ add_zero (mul one (mul one one))
      ∙ ap (mul one) (mul_one one)
      ∙ mul_one one
  unity (b ∷ xs) a ((h, hs), (k, d)) =
      mul_cancel field (add a b) (total (λ x. one) (a ∷ b ∷ xs) (a ∷ b ∷ xs)) one
        (nonzero_sum field a b (λ e. h (sym e)))
        (total_pair (λ x. one) a b xs ((h, hs), (k, d))
          ∙ (λ i. add (mul a (unity xs b (k, d) i)) (mul b (unity xs a (hs, d) i)))
          ∙ (λ i. add (mul_one a i) (mul_one b i))
          ∙ sym (mul_one (add a b)))

  -- A product with the variable, split at a point.
  times_variable : (x a v : K) → mul v x ≡ add (mul (add x a) v) (mul a v)
  times_variable x a v =
      mul_comm v x ∙ ap (λ t. mul t v) (sym (add_undo field x a)) ∙ add_mul field (add x a) a v

  total-eval :
      (c : K) (cs : List K) (a : K) (xs : List K)
      → IsNew a xs
      → total (eval (c ∷ cs)) (a ∷ xs) (a ∷ xs)
        ≡ add
            (add (mul a (total (eval cs) xs xs)) (mul a (total (eval cs) (a ∷ xs) (a ∷ xs))))
            (mul c (total (λ x. one) (a ∷ xs) (a ∷ xs)))
  total-eval c cs a xs n =
      let points = a ∷ xs in
      let rooted : K → K = λ x. mul (add x a) (eval cs x) in
      let scaled : K → K = λ x. mul a (eval cs x) in
      total_ext (eval (c ∷ cs)) (λ x. add (add (rooted x) (scaled x)) (mul c one)) points points
        (λ x i. add (times_variable x a (eval cs x) i) (sym (mul_one c) i))
      ∙ total_add (λ x. add (rooted x) (scaled x)) (λ x. mul c one) points points
      ∙ (λ i.
          add (total_add rooted scaled points points i) (total_mul c (λ x. one) points points i))
      ∙ (λ i.
          add (add (total_root a (eval cs) xs n i) (total_mul a (eval cs) points points i))
            (mul c (total (λ x. one) points points)))

  -- The sum of the values of a polynomial at points that differ, as many as it has coefficients or more, is its value at
  -- zero.
  pub interpolated :
      (cs xs : List K) → length cs ≤ length xs → IsDistinct xs → total (eval cs) xs xs ≡ constant cs
  interpolated [] xs h d = total_zero xs xs
  interpolated (c ∷ cs) [] h d = absurd (omega (arith, h))
  interpolated (c ∷ cs) (a ∷ xs) h (n, d) =
      total-eval c cs a xs n
      ∙ (λ i.
          add
            (add (mul a (interpolated cs xs (omega (arith, h)) d i))
              (mul a (interpolated cs (a ∷ xs) (omega (arith, h)) (n, d) i)))
            (mul c (unity xs a (n, d) i)))
      ∙ (λ i. add (add_self (mul a (constant cs)) i) (mul_one c i))
      ∙ zero_add field c
