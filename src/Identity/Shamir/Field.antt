-- ===== src/Identity/Shamir/Field.antt =====
-- Fields of characteristic two, as an interface: what the recovery of a shared secret needs of GF(256).
use ariesmesh.Prelude.{◌≡◌, ◌≢◌, ◌↔◌, sym, ap, ◌∙◌, Bool, true}

pub record Field (K : Type 0) : Type 0 where
  pub zero : K
  pub one : K
  pub add : K → K → K
  pub mul : K → K → K
  pub inv : K → K
  pub eq : K → K → Bool
  pub eq_iff : (a b : K) → (eq a b ≡ true) ↔ (a ≡ b)
  pub add_comm : (a b : K) → add a b ≡ add b a
  pub add_assoc : (a b c : K) → add (add a b) c ≡ add a (add b c)
  pub add_zero : (a : K) → add a zero ≡ a
  pub add_self : (a : K) → add a a ≡ zero
  pub mul_comm : (a b : K) → mul a b ≡ mul b a
  pub mul_assoc : (a b c : K) → mul (mul a b) c ≡ mul a (mul b c)
  pub mul_one : (a : K) → mul a one ≡ a
  pub mul_add : (a b c : K) → mul a (add b c) ≡ add (mul a b) (mul a c)
  pub mul_inv : (a : K) → a ≢ zero → mul a (inv a) ≡ one

module _ {K : Type 0} (field : Field K) where
  open field use {
    zero, one, add, mul, inv, add_comm, add_assoc, add_zero, add_self, mul_comm, mul_assoc, mul_one,
    mul_add, mul_inv,
  }

  pub zero_add : (a : K) → add zero a ≡ a
  zero_add a = add_comm zero a ∙ add_zero a

  pub add_swap : (a b c d : K) → add (add a b) (add c d) ≡ add (add a c) (add b d)
  add_swap a b c d =
      add_assoc a b (add c d)
      ∙ ap (add a) (sym (add_assoc b c d) ∙ ap (λ t. add t d) (add_comm b c) ∙ add_assoc c b d)
      ∙ sym (add_assoc a c (add b d))

  pub add_left_comm : (a b c : K) → add a (add b c) ≡ add b (add a c)
  add_left_comm a b c = sym (add_assoc a b c) ∙ ap (λ t. add t c) (add_comm a b) ∙ add_assoc b a c

  -- The same number twice goes away.
  pub add_twice : (x a b : K) → add (add x a) (add x b) ≡ add a b
  add_twice x a b = add_swap x a x b ∙ ap (λ t. add t (add a b)) (add_self x) ∙ zero_add (add a b)

  pub add_undo : (x a : K) → add (add x a) a ≡ x
  add_undo x a = add_assoc x a a ∙ ap (add x) (add_self a) ∙ add_zero x

  pub nonzero_sum : (a b : K) → a ≢ b → add a b ≢ zero
  nonzero_sum a b h e = h (sym (add_undo a b) ∙ ap (λ t. add t b) e ∙ zero_add b)

  pub mul_zero : (a : K) → mul a zero ≡ zero
  mul_zero a = ap (mul a) (sym (add_self zero)) ∙ mul_add a zero zero ∙ add_self (mul a zero)

  pub zero_mul : (a : K) → mul zero a ≡ zero
  zero_mul a = mul_comm zero a ∙ mul_zero a

  pub one_mul : (a : K) → mul one a ≡ a
  one_mul a = mul_comm one a ∙ mul_one a

  pub add_mul : (a b c : K) → mul (add a b) c ≡ add (mul a c) (mul b c)
  add_mul a b c =
      mul_comm (add a b) c ∙ mul_add c a b ∙ (λ i. add (mul_comm c a i) (mul_comm c b i))

  pub mul_left_comm : (a b c : K) → mul a (mul b c) ≡ mul b (mul a c)
  mul_left_comm a b c = sym (mul_assoc a b c) ∙ ap (λ t. mul t c) (mul_comm a b) ∙ mul_assoc b a c

  -- A factor that is not zero can be taken away.
  pub mul_cancel : (a b c : K) → a ≢ zero → mul a b ≡ mul a c → b ≡ c
  mul_cancel a b c h e = sym (undo b) ∙ ap (mul (inv a)) e ∙ undo c
    where
      undo : (x : K) → mul (inv a) (mul a x) ≡ x
      undo x =
          sym (mul_assoc (inv a) a x)
          ∙ ap (λ t. mul t x) (mul_comm (inv a) a ∙ mul_inv a h)
          ∙ one_mul x
