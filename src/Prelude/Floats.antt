-- ===== src/Prelude/Floats.antt =====
-- The numbers of JavaScript and Python that are no integers: floating point, as an interface. What
-- a development computes runs on any instance; `IsOrdered` names what holds of numbers that are no
-- NaN.
use Prim.Native.Nat.{ℕ, ◌≤◌}
use Prim.Native.String.{String}
use mathlib.Core.Path.{◌≡◌}
use native.Mathlib.Omega.{arith}
use mathlib.Core.Logic.{inl, inr}
use mathlib.Core.Bool.{Bool, true, false, ◌||◌}
use ariesmesh.Prelude.Tests.{if◌then◌else◌, ltb, Bool-cases}

-- `show` prints as a template literal does, `to_fixed` as `toFixed`; `cos_deg` and `sin_deg` take an
-- angle in degrees, `a * Math.PI / 180` included.
pub record Number (F : Type 0) : Type 0 where
  pub of_ℕ : ℕ → F
  pub add : F → F → F
  pub sub : F → F → F
  pub mul : F → F → F
  pub div : F → F → F
  pub lt : F → F → Bool
  pub le : F → F → Bool
  pub round : F → ℕ
  pub to_fixed : F → ℕ → String
  pub show : F → String
  pub cos_deg : F → F
  pub sin_deg : F → F

module _ {F : Type 0} ⦃num : Number F⦄ where
  -- `Math.min` and `Math.max` of two numbers that are no NaN
  abbrev pub fmin : F → F → F
  fmin a b = if num.lt b a then b else a

  abbrev pub fmax : F → F → F
  fmax a b = if num.lt a b then b else a

  abbrev pub lit : ℕ → F
  lit n = num.of_ℕ n

-- The whole numbers that a double represents exactly.
abbrev pub max_safe : ℕ
max_safe = 9007199254740992

-- The comparison is that of a strict order in which incomparable numbers are as good as equal.
pub record IsOrdered {F : Type 0} (num : Number F) : Type 0 where
  pub irrefl : (a : F) → num.lt a a ≡ false
  pub trans : (a b c : F) → num.lt a b ≡ true → num.lt b c ≡ true → num.lt a c ≡ true
  pub mono_of_ℕ :
      (a b : ℕ) → a ≤ max_safe → b ≤ max_safe → num.lt (num.of_ℕ a) (num.of_ℕ b) ≡ ltb a b

-- Moreover, where one number is below another, every third is above the one or below the other.
pub record IsWeakOrder {F : Type 0} (num : Number F) : Type 0 where
  pub ordered : IsOrdered num
  pub splits : (a b c : F) → num.lt a c ≡ true → (num.lt a b || num.lt b c) ≡ true

module _ {F : Type 0} {num : Number F} (o : IsOrdered num) where
  pub lt_asymm : (a b : F) → num.lt a b ≡ true → num.lt b a ≡ false
  lt_asymm a b h = elim (Bool-cases (num.lt b a)) [
    | inl k ↦ cc (o.trans a b a h k, o.irrefl a)
    | inr k ↦ k
  ]

module _ {F : Type 0} ⦃num : Number F⦄ (o : IsOrdered num) where
  -- A number that is clamped to 0 and 100 is neither below nor above.
  pub clamped :
      (x : F)
      → (num.lt (fmax (lit 0) (fmin (lit 100) x)) (lit 0) ≡ false)
        × (num.lt (lit 100) (fmax (lit 0) (fmin (lit 100) x)) ≡ false)
  clamped x = (
    ground (
      arith,
      o.irrefl (lit 0),
      lt_asymm o (lit 0) x,
      o.mono_of_ℕ 0 100 (omega arith) (omega arith),
      o.mono_of_ℕ 100 0 (omega arith) (omega arith),
    ),
    ground (
      arith,
      o.irrefl (lit 100),
      lt_asymm o x (lit 100),
      o.mono_of_ℕ 0 100 (omega arith) (omega arith),
      o.mono_of_ℕ 100 0 (omega arith) (omega arith),
    ),
  )
