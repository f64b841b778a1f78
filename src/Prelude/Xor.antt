-- ===== src/Prelude/Xor.antt =====
-- The laws of the exclusive or of natural numbers, from its digits.
use Prim.Native.Nat.{
  ℕ, zero, suc, ◌+◌, ◌*◌, ◌/◌, ◌%◌, ◌^◌, ◌≤◌, ◌<◌, bit_xor, digits, differ, bit_xor-bitwise,
}
use mathlib.Core.Path.{◌≡◌, refl, ap, ◌∙◌, sym}
use native.Mathlib.Nat.{pow-suc}
use native.Mathlib.Omega.{arith}

abbrev xor_digits : ℕ → ℕ → ℕ → ℕ
xor_digits n a b = digits (λ b. b) differ n a b

xor_digits_fuel : (n m a b : ℕ) → a ≤ n → a ≤ m → xor_digits n a b ≡ xor_digits m a b
xor_digits_fuel zero zero a b h k = refl
xor_digits_fuel zero (suc m) zero b h k = refl
xor_digits_fuel zero (suc m) (suc a) b h k = absurd (omega (arith, h))
xor_digits_fuel (suc n) zero zero b h k = refl
xor_digits_fuel (suc n) zero (suc a) b h k = absurd (omega (arith, k))
xor_digits_fuel (suc n) (suc m) zero b h k = refl
xor_digits_fuel (suc n) (suc m) (suc a) b h k =
    rw (xor_digits_fuel n m (suc a / 2) (b / 2) (omega (arith, h)) (omega (arith, k))) refl

differ_bits : (x y : ℕ) → x < 2 → y < 2 → differ x y ≡ (x + y) % 2
differ_bits zero y h k = omega (arith, k)
differ_bits (suc zero) zero h k = refl
differ_bits (suc zero) (suc zero) h k = refl
differ_bits (suc zero) (suc (suc y)) h k = absurd (omega (arith, k))
differ_bits (suc (suc x)) y h k = absurd (omega (arith, h))

-- The lowest digit and the others.
pub bit_xor_step : (a b : ℕ) → bit_xor a b ≡ bit_xor (a / 2) (b / 2) * 2 + (a + b) % 2
bit_xor_step zero b = omega (arith, bit_xor-bitwise 0 b, bit_xor-bitwise 0 (b / 2))
bit_xor_step (suc a) b = omega (
  arith,
  bit_xor-bitwise (suc a) b,
  bit_xor-bitwise (suc a / 2) (b / 2),
  xor_digits_fuel a (suc a / 2) (suc a / 2) (b / 2) (omega arith) (omega arith),
  differ_bits (suc a % 2) (b % 2) (omega arith) (omega arith),
)

pub bit_xor_half : (a b : ℕ) → bit_xor a b / 2 ≡ bit_xor (a / 2) (b / 2)
bit_xor_half a b = omega (arith, bit_xor_step a b)

-- The bound on the sum is the fuel: the halves of numbers, not all zero, have a smaller sum.
comm_fuel : (n a b : ℕ) → a + b ≤ n → bit_xor a b ≡ bit_xor b a
comm_fuel zero zero zero h = refl
comm_fuel zero zero (suc b) h = absurd (omega (arith, h))
comm_fuel zero (suc a) b h = absurd (omega (arith, h))
comm_fuel (suc n) a b h =
    omega
      (arith, bit_xor_step a b, bit_xor_step b a, comm_fuel n (a / 2) (b / 2) (omega (arith, h)))

pub bit_xor_comm : (a b : ℕ) → bit_xor a b ≡ bit_xor b a
bit_xor_comm a b = comm_fuel (a + b) a b (omega arith)

assoc_fuel : (n a b c : ℕ) → a + b + c ≤ n → bit_xor (bit_xor a b) c ≡ bit_xor a (bit_xor b c)
assoc_fuel zero zero zero zero h = refl
assoc_fuel zero zero zero (suc c) h = absurd (omega (arith, h))
assoc_fuel zero zero (suc b) c h = absurd (omega (arith, h))
assoc_fuel zero (suc a) b c h = absurd (omega (arith, h))
assoc_fuel (suc n) a b c h = omega (
  arith,
  bit_xor_step a b,
  bit_xor_step b c,
  bit_xor_step (bit_xor a b) c,
  bit_xor_step a (bit_xor b c),
  ap (λ t. bit_xor t (c / 2)) (bit_xor_half a b),
  ap (λ t. bit_xor (a / 2) t) (bit_xor_half b c),
  assoc_fuel n (a / 2) (b / 2) (c / 2) (omega (arith, h)),
)

pub bit_xor_assoc : (a b c : ℕ) → bit_xor (bit_xor a b) c ≡ bit_xor a (bit_xor b c)
bit_xor_assoc a b c = assoc_fuel (a + b + c) a b c (omega arith)

self_fuel : (n a : ℕ) → a ≤ n → bit_xor a a ≡ 0
self_fuel n zero h = refl
self_fuel zero (suc a) h = absurd (omega (arith, h))
self_fuel (suc n) (suc a) h =
    omega (arith, bit_xor_step (suc a) (suc a), self_fuel n (suc a / 2) (omega (arith, h)))

pub bit_xor_self : (a : ℕ) → bit_xor a a ≡ 0
bit_xor_self a = self_fuel a a (omega arith)

pub zero-bit_xor : (a : ℕ) → bit_xor 0 a ≡ a
zero-bit_xor a = bit_xor-bitwise 0 a

pub bit_xor-zero : (a : ℕ) → bit_xor a 0 ≡ a
bit_xor-zero a = bit_xor_comm a 0 ∙ zero-bit_xor a

-- Numbers below a power of two stay below it.
pub bit_xor_below : (k a b : ℕ) → a < 2 ^ k → b < 2 ^ k → bit_xor a b < 2 ^ k
bit_xor_below zero zero zero h l = omega arith
bit_xor_below zero zero (suc b) h l = absurd (omega (arith, l))
bit_xor_below zero (suc a) b h l = absurd (omega (arith, h))
bit_xor_below (suc k) a b h l = omega (
  arith,
  pow-suc 2 k,
  bit_xor_step a b,
  bit_xor_below k (a / 2) (b / 2) (omega (arith, h, pow-suc 2 k)) (omega (arith, l, pow-suc 2 k)),
)

pub bit_xor_swap :
    (a b c d : ℕ) → bit_xor (bit_xor a b) (bit_xor c d) ≡ bit_xor (bit_xor a c) (bit_xor b d)
bit_xor_swap a b c d =
    bit_xor_assoc a b (bit_xor c d)
    ∙ ap (bit_xor a)
        (sym (bit_xor_assoc b c d) ∙ ap (λ t. bit_xor t d) (bit_xor_comm b c) ∙ bit_xor_assoc c b d)
    ∙ sym (bit_xor_assoc a c (bit_xor b d))

-- A shift to the left, and one to the right by a digit or more.
half_double : (n : ℕ) → n * 2 / 2 ≡ n
half_double n = omega arith

pub bit_xor_double : (a b : ℕ) → bit_xor a b * 2 ≡ bit_xor (a * 2) (b * 2)
bit_xor_double a b =
    let halves : bit_xor (a * 2 / 2) (b * 2 / 2) ≡ bit_xor a b =
      λ i. bit_xor (half_double a i) (half_double b i) in
    omega (arith, bit_xor_step (a * 2) (b * 2), halves)

shift : ℕ → ℕ → ℕ
shift zero a = a
shift (suc k) a = shift k (a / 2)

bit_xor-shift : (k a b : ℕ) → shift k (bit_xor a b) ≡ bit_xor (shift k a) (shift k b)
unfolding shift
bit_xor-shift zero a b = refl
bit_xor-shift (suc k) a b = ap (shift k) (bit_xor_half a b) ∙ bit_xor-shift k (a / 2) (b / 2)

shift_seven : (a : ℕ) → shift 7 a ≡ a / 128
unfolding shift
shift_seven a = omega arith

pub bit_xor_top : (a b : ℕ) → bit_xor a b / 128 ≡ bit_xor (a / 128) (b / 128)
bit_xor_top a b =
    sym (shift_seven (bit_xor a b))
    ∙ bit_xor-shift 7 a b
    ∙ (λ i. bit_xor (shift_seven a i) (shift_seven b i))
