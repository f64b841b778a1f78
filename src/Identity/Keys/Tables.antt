-- ===== src/Identity/Keys/Tables.antt =====
-- The tables of GF(256): multiplication is a repeated multiplication by the generator.
use Prim.Native.Nat.{bit_xor}
use ariesmesh.Prelude.{
  ◌≡◌, refl, sym, ap, ◌∙◌, ℕ, zero, suc, ◌+◌, ◌*◌, ◌/◌, ◌<◌, Bool, true, false, ◌||◌, Option, none,
  some, if◌then◌else◌, ◌==◌, ltb, ltb→lt, all_below_lem, ==_iff, arith,
}
use ariesmesh.Prelude.Xor.{bit_xor_double, bit_xor_top, bit_xor_swap, bit_xor_below}
use ariesmesh.Identity.Keys.{double, triple, gf256_mul, gf256_inv}
use ariesmesh.Identity.Keys.Evaluated.{
  exp_of, log_of, is_inverse, inv_ok, inv_table, one_table, and_right, exp-log, exp-suc,
  triple_below, double_lem,
}

power : ℕ → ℕ → ℕ
power zero x = x
power (suc n) x = triple (power n x)

exp-power : (n i : ℕ) → n + i < 510 → exp_of (n + i) ≡ power n (exp_of i)
unfolding power
exp-power zero i h = ap exp_of (omega arith)
exp-power (suc n) i h =
    ap exp_of (omega arith)
    ∙ exp-suc (n + i) (omega (arith, h))
    ∙ ap triple (exp-power n i (omega (arith, h)))

power_below : (n x : ℕ) → x < 256 → power n x < 256
unfolding power
power_below zero x h = h
power_below (suc n) x h = triple_below (power n x) (power_below n x h)

power-zero : (n : ℕ) → power n 0 ≡ 0
unfolding power
power-zero zero = refl
power-zero (suc n) = ap triple (power-zero n)

triple-power : (m x : ℕ) → triple (power m x) ≡ power m (triple x)
unfolding power
triple-power zero x = refl
triple-power (suc m) x = ap triple (triple-power m x)

power_comm : (n m x : ℕ) → power n (power m x) ≡ power m (power n x)
unfolding power
power_comm zero m x = refl
power_comm (suc n) m x = ap triple (power_comm n m x) ∙ triple-power m (power n x)

times_bit : (b c : ℕ) → b < 2 → c < 2 → 283 * bit_xor b c ≡ bit_xor (283 * b) (283 * c)
times_bit zero zero h k = refl
times_bit zero (suc zero) h k = refl
times_bit (suc zero) zero h k = refl
times_bit (suc zero) (suc zero) h k = refl
times_bit zero (suc (suc c)) h k = absurd (omega (arith, k))
times_bit (suc zero) (suc (suc c)) h k = absurd (omega (arith, k))
times_bit (suc (suc b)) c h k = absurd (omega (arith, h))

-- The generator distributes over the sum.
double_add : (x y : ℕ) → x < 256 → y < 256 → double (bit_xor x y) ≡ bit_xor (double x) (double y)
double_add x y h k =
    double_lem (bit_xor x y) (bit_xor_below 8 x y h k)
    ∙ (λ i. bit_xor (bit_xor_double x y i) (
        (ap (λ t. 283 * t) (bit_xor_top x y)
            ∙ times_bit (x / 128) (y / 128) (omega (arith, h)) (omega (arith, k)))
          i))
    ∙ bit_xor_swap (x * 2) (y * 2) (283 * (x / 128)) (283 * (y / 128))
    ∙ (λ i. bit_xor (sym (double_lem x h) i) (sym (double_lem y k) i))

triple_add : (x y : ℕ) → x < 256 → y < 256 → triple (bit_xor x y) ≡ bit_xor (triple x) (triple y)
triple_add x y h k =
    ap (λ t. bit_xor t (bit_xor x y)) (double_add x y h k) ∙ bit_xor_swap (double x) (double y) x y

power_add :
    (n x y : ℕ) → x < 256 → y < 256 → power n (bit_xor x y) ≡ bit_xor (power n x) (power n y)
unfolding power
power_add zero x y h k = refl
power_add (suc n) x y h k =
    ap triple (power_add n x y h k)
    ∙ triple_add (power n x) (power n y) (power_below n x h) (power_below n y k)

mul_product :
    (a b : ℕ) (c : Bool)
    → ((a == 0) || (b == 0)) ≡ c
    → gf256_mul a b ≡ (if c then 0 else exp_of (log_of a + log_of b))
unfolding gf256_mul exp_of log_of
mul_product a b c h = ap (λ t. if t then 0 else exp_of (log_of a + log_of b)) h

zero_first : (b : ℕ) → gf256_mul 0 b ≡ 0
zero_first b = mul_product 0 b true refl

-- Multiplication by a byte that is not 0 is a power of the generator.
mul_lem : (a b : ℕ) → a < 256 → b < 256 → ◌<◌ 0 a → gf256_mul a b ≡ power (log_of a) b
mul_lem a zero h k n = mul_product a 0 true (ground arith) ∙ sym (power-zero (log_of a))
mul_lem a (suc b) h k n =
    let (ea, la) = exp-log a h n in
    let (eb, lb) = exp-log (suc b) k (omega arith) in
    mul_product a (suc b) false (ground arith)
    ∙ exp-power (log_of a) (log_of (suc b)) (omega (arith, la, lb))
    ∙ ap (power (log_of a)) eb

pub gf256_mul_comm : (a b : ℕ) → gf256_mul a b ≡ gf256_mul b a
gf256_mul_comm a b =
    mul_product a b ((b == 0) || (a == 0)) (ground arith)
    ∙ ap (λ n. if (b == 0) || (a == 0) then 0 else exp_of n) (omega arith)
    ∙ sym (mul_product b a ((b == 0) || (a == 0)) refl)

zero_second : (a : ℕ) → gf256_mul a 0 ≡ 0
zero_second a = gf256_mul_comm a 0 ∙ zero_first a

pub gf256_mul_below : (a b : ℕ) → a < 256 → b < 256 → gf256_mul a b < 256
gf256_mul_below zero b h k = rw (zero_first b) (omega arith)
gf256_mul_below (suc a) b h k =
    rw (mul_lem (suc a) b h k (omega arith)) (power_below (log_of (suc a)) b k)

pub gf256_mul_add :
    (a b c : ℕ)
    → a < 256
    → b < 256
    → c < 256
    → gf256_mul a (bit_xor b c) ≡ bit_xor (gf256_mul a b) (gf256_mul a c)
gf256_mul_add zero b c h k l = rw (zero_first (bit_xor b c), zero_first b, zero_first c) refl
gf256_mul_add (suc a) b c h k l =
    mul_lem (suc a) (bit_xor b c) h (bit_xor_below 8 b c k l) (omega arith)
    ∙ power_add (log_of (suc a)) b c k l
    ∙ (λ i.
        bit_xor (sym (mul_lem (suc a) b h k (omega arith)) i)
          (sym (mul_lem (suc a) c h l (omega arith)) i))

pub gf256_mul_assoc :
    (a b c : ℕ)
    → a < 256
    → b < 256
    → c < 256
    → gf256_mul (gf256_mul a b) c ≡ gf256_mul a (gf256_mul b c)
gf256_mul_assoc zero b c h k l =
    ap (λ t. gf256_mul t c) (zero_first b) ∙ zero_first c ∙ sym (zero_first (gf256_mul b c))
gf256_mul_assoc (suc a) b zero h k l =
    zero_second (gf256_mul (suc a) b)
    ∙ sym (ap (gf256_mul (suc a)) (zero_second b) ∙ zero_second (suc a))
gf256_mul_assoc (suc a) b (suc c) h k l =
    let n = log_of (suc a) in
    let m = log_of (suc c) in
    gf256_mul_comm (gf256_mul (suc a) b) (suc c)
    ∙ mul_lem (suc c) (gf256_mul (suc a) b) l (gf256_mul_below (suc a) b h k) (omega arith)
    ∙ ap (power m) (mul_lem (suc a) b h k (omega arith))
    ∙ power_comm m n b
    ∙ ap (power n) (sym (mul_lem (suc c) b l k (omega arith)) ∙ gf256_mul_comm (suc c) b)
    ∙ sym (mul_lem (suc a) (gf256_mul b (suc c)) h (gf256_mul_below b (suc c) k l) (omega arith))

pub gf256_mul_one : (a : ℕ) → a < 256 → gf256_mul a 1 ≡ a
gf256_mul_one a h =
    (==_iff (gf256_mul a 1) a).0 (all_below_lem (λ b. gf256_mul b 1 == b) 256 a one_table h)

inv_from :
    (a : ℕ) (o : Option ℕ)
    → gf256_inv a ≡ o
    → is_inverse a o ≡ true
    → ◌<◌ 0 a
    → (b : ℕ) × (gf256_inv a ≡ some b) × (b < 256) × (gf256_mul a b ≡ 1)
inv_from a none e t k = absurd (omega (arith, k, (==_iff a 0).0 t))
inv_from a (some b) e t k = (
  b,
  e,
  ltb→lt b 256 (ground (arith, t)),
  (==_iff (gf256_mul a b) 1).0 (and_right (ltb b 256) _ t),
)

-- An inverse exists for every byte but 0.
pub gf256_inv_lem :
    (a : ℕ) → a < 256 → ◌<◌ 0 a → (b : ℕ) × (gf256_inv a ≡ some b) × (b < 256) × (gf256_mul a b ≡ 1)
gf256_inv_lem a h k = inv_from a (gf256_inv a) refl (all_below_lem inv_ok 256 a inv_table h) k
