-- ===== src/Identity/Keys/Evaluated.antt =====
-- What evaluation of the tables of GF(256) shows of every byte.
use Prim.Native.Nat.{bit_xor}
use ariesmesh.Prelude.{
  ◌≡◌, refl, ℕ, suc, ◌*◌, ◌/◌, ◌<◌, Bool, true, false, ◌||◌, ◌&&◌, Option, none, some, ◌==◌, ltb,
  ltb→lt, all_below, all_below_lem, ==_iff, arith,
}
use ariesmesh.Identity.Keys.{double, triple, fetch, init_gf256, gf256_mul, gf256_inv}

unfoldable pub exp_of : ℕ → ℕ
unfolding fetch init_gf256
exp_of i = fetch i init_gf256.0

unfoldable pub log_of : ℕ → ℕ
unfolding fetch init_gf256
log_of a = fetch a init_gf256.1

-- Checks of every byte by evaluation.
abbrev logs_ok : ℕ → Bool
logs_ok a = (a == 0) || ((exp_of (log_of a) == a) && ltb (log_of a) 255)

abbrev step_ok : ℕ → Bool
step_ok i = exp_of (suc i) == triple (exp_of i)

abbrev triple_ok : ℕ → Bool
triple_ok x = ltb (triple x) 256 && (double x == bit_xor (x * 2) (283 * (x / 128)))

abbrev pub is_inverse : ℕ → Option ℕ → Bool
is_inverse a none = a == 0
is_inverse a (some b) = ltb b 256 && (gf256_mul a b == 1)

abbrev pub inv_ok : ℕ → Bool
inv_ok a = is_inverse a (gf256_inv a)

logs_table : all_below logs_ok 256 ≡ true
unfolding exp_of log_of
logs_table = refl

exps_table : all_below step_ok 509 ≡ true
unfolding exp_of
exps_table = refl

triple_table : all_below triple_ok 256 ≡ true
triple_table = refl

pub inv_table : all_below inv_ok 256 ≡ true
unfolding gf256_inv gf256_mul
inv_table = refl

pub one_table : all_below (λ a. gf256_mul a 1 == a) 256 ≡ true
unfolding gf256_mul
one_table = refl

-- Every byte but 0 is the power of the generator that its logarithm says.
pub and_right : (a b : Bool) → (a && b) ≡ true → b ≡ true
and_right true b h = h
and_right false b h = cc

pub exp-log : (a : ℕ) → a < 256 → ◌<◌ 0 a → (exp_of (log_of a) ≡ a) × (log_of a < 255)
exp-log a h k =
    let t = all_below_lem logs_ok 256 a logs_table h in (ground (arith, t), ground (arith, t))

pub exp-suc : (i : ℕ) → i < 509 → exp_of (suc i) ≡ triple (exp_of i)
exp-suc i h =
    (==_iff (exp_of (suc i)) (triple (exp_of i))).0 (all_below_lem step_ok 509 i exps_table h)

pub triple_below : (x : ℕ) → x < 256 → triple x < 256
triple_below x h =
    ltb→lt (triple x) 256 (ground (arith, all_below_lem triple_ok 256 x triple_table h))

pub double_lem : (x : ℕ) → x < 256 → double x ≡ bit_xor (x * 2) (283 * (x / 128))
double_lem x h =
    (==_iff (double x) _).0
      (and_right (ltb (triple x) 256) _ (all_below_lem triple_ok 256 x triple_table h))
