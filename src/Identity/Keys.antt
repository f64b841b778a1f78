-- ===== src/Identity/Keys.antt =====
-- src/aries/identity/keys.py: the field GF(256) in which the secret of a household is shared. Elements
-- are bytes, the numbers below 256.
pub mod Evaluated
pub mod Tables
pub mod Gf256
use Prim.Native.Nat.{bit_and, bit_xor}
use ariesmesh.Prelude.{
  ◌≡◌, refl, ℕ, zero, suc, ◌+◌, ◌-◌, ◌*◌, Bool, true, false, ◌||◌, Option, none, some, List, [],
  ◌∷◌, if◌then◌else◌, ◌==◌, get_elem?, length, all_below,
}

-- `table[i] = x`
unfoldable pub put : ℕ → ℕ → List ℕ → List ℕ
put i x [] = []
put zero x (y ∷ table) = x ∷ table
put (suc i) x (y ∷ table) = y ∷ put i x table

-- `table[i]`; the tables are never read behind their end.
unfoldable pub fetch : ℕ → List ℕ → ℕ
fetch i [] = 0
fetch zero (y ∷ table) = y
fetch (suc i) (y ∷ table) = fetch i table

unfoldable pub zeros : ℕ → List ℕ
zeros zero = []
zeros (suc n) = 0 ∷ zeros n

-- the last statements of the first loop
abbrev pub double : ℕ → ℕ
double x = if bit_and (x * 2) 0x100 == 0 then x * 2 else bit_xor (x * 2) 0x11B

abbrev pub triple : ℕ → ℕ
triple x = bit_xor (double x) x

-- The two loops of `_init_gf256`: `turns` of them are left, and the next has the number `i`.
unfoldable pub fill : ℕ → ℕ → ℕ → List ℕ × List ℕ → List ℕ × List ℕ
unfolding put
fill zero i x tables = tables
fill (suc turns) i x (exp, log) = fill turns (suc i) (triple x) (put i x exp, put x i log)

unfoldable pub extend : ℕ → ℕ → List ℕ → List ℕ
unfolding put fetch
extend zero i exp = exp
extend (suc turns) i exp = extend turns (suc i) (put i (fetch (i - 255) exp) exp)

unfoldable pub init_gf256 : List ℕ × List ℕ
unfolding fill extend zeros
init_gf256 = let (exp, log) = fill 255 0 1 (zeros 512, zeros 256) in (extend 257 255 exp, log)

unfoldable pub gf256_mul : ℕ → ℕ → ℕ
unfolding fetch init_gf256
gf256_mul a b =
    if (a == 0) || (b == 0)
    then 0
    else fetch (fetch a init_gf256.1 + fetch b init_gf256.1) init_gf256.0

-- `none` is the ZeroDivisionError.
unfoldable pub gf256_inv : ℕ → Option ℕ
unfolding fetch init_gf256
gf256_inv a = if a == 0 then none else some (fetch (255 - fetch a init_gf256.1) init_gf256.0)
