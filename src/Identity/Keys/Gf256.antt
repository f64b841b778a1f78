-- ===== src/Identity/Keys/Gf256.antt =====
-- GF(256) is a field of characteristic two.
use mathlib.Core.HLevel.{Σ_prop_path}
use native.Mathlib.Bridge.{le_prop}
use Prim.Native.Nat.{bit_xor}
use ariesmesh.Prelude.{◌≡◌, ◌≢◌, refl, ap, ℕ, zero, suc, ◌<◌, some, ◌==◌, ==_iff, arith}
use ariesmesh.Prelude.Xor.{bit_xor_comm, bit_xor_assoc, bit_xor_self, bit_xor-zero, bit_xor_below}
use ariesmesh.Identity.Keys.{gf256_mul, gf256_inv}
use ariesmesh.Identity.Keys.Tables.{
  gf256_mul_comm, gf256_mul_below, gf256_mul_add, gf256_mul_assoc, gf256_mul_one, gf256_inv_lem,
}
use ariesmesh.Identity.Shamir.Field.{Field}

abbrev pub Byte : Type 0
Byte = (n : ℕ) × (n < 256)

pub byte_path : (a b : Byte) → a.0 ≡ b.0 → a ≡ b
byte_path a b e = Σ_prop_path (λ n. le_prop) e

abbrev pub byte_xor : Byte → Byte → Byte
byte_xor (a, h) (b, k) = (bit_xor a b, bit_xor_below 8 a b h k)

abbrev pub byte_mul : Byte → Byte → Byte
byte_mul (a, h) (b, k) = (gf256_mul a b, gf256_mul_below a b h k)

-- the inverse, and 0 of 0
pub byte_inv : Byte → Byte
byte_inv (zero, h) = (0, h)
byte_inv (suc a, h) = let (b, e, k, m) = gf256_inv_lem (suc a) h (omega arith) in (b, k)

-- It is what `_gf256_inv` gives.
pub byte_inv_lem : (a : Byte) → a.0 ≢ 0 → gf256_inv a.0 ≡ some (byte_inv a).0
unfolding byte_inv
byte_inv_lem (zero, h) n = absurd (n refl)
byte_inv_lem (suc a, h) n = (gf256_inv_lem (suc a) h (omega arith)).1

pub mul_byte_inv : (a : Byte) → a ≢ (0, omega arith) → byte_mul a (byte_inv a) ≡ (1, omega arith)
unfolding byte_inv
mul_byte_inv (zero, h) n = absurd (n (byte_path (0, h) (0, omega arith) refl))
mul_byte_inv (suc a, h) n = byte_path _ _ ((gf256_inv_lem (suc a) h (omega arith)).3)

abbrev pub gf256 : Field Byte
gf256 = record {
  zero = (0, omega arith);
  one = (1, omega arith);
  add = byte_xor;
  mul = byte_mul;
  inv = byte_inv;
  eq = λ a b. a.0 == b.0;
  eq_iff = λ a b. (
    λ e. byte_path a b ((==_iff a.0 b.0).0 e),
    λ e. (==_iff a.0 b.0).1 (ap (λ (t : Byte). t.0) e),
  );
  add_comm = λ a b. byte_path _ _ (bit_xor_comm a.0 b.0);
  add_assoc = λ a b c. byte_path _ _ (bit_xor_assoc a.0 b.0 c.0);
  add_zero = λ a. byte_path _ _ (bit_xor-zero a.0);
  add_self = λ a. byte_path _ _ (bit_xor_self a.0);
  mul_comm = λ a b. byte_path _ _ (gf256_mul_comm a.0 b.0);
  mul_assoc = λ a b c. byte_path _ _ (gf256_mul_assoc a.0 b.0 c.0 a.1 b.1 c.1);
  mul_one = λ a. byte_path _ _ (gf256_mul_one a.0 a.1);
  mul_add = λ a b c. byte_path _ _ (gf256_mul_add a.0 b.0 c.0 a.1 b.1 c.1);
  mul_inv = mul_byte_inv;
}
