-- ===== src/Prelude/Naturals.antt =====
-- Whole numbers in place of floating point, for tests: the angles all point to the right.
use mathlib.Core.Path.{refl}
use ariesmesh.Prelude.{
  ℕ, ◌+◌, ◌-◌, ◌*◌, ◌/◌, ltb, leb, decimal, Number, IsOrdered, IsWeakOrder, arith,
}

instance abbrev pub whole : Number ℕ
whole = record {
  of_ℕ = λ n. n;
  add = λ a b. a + b;
  sub = λ a b. a - b;
  mul = λ a b. a * b;
  div = λ a b. a / b;
  lt = λ a b. ltb a b;
  le = λ a b. leb a b;
  round = λ a. a;
  to_fixed = λ a digits. decimal a;
  show = λ a. decimal a;
  cos_deg = λ a. 1;
  sin_deg = λ a. 0;
}

pub whole-IsOrdered : IsOrdered whole
whole-IsOrdered = record {
  irrefl = λ a. ground arith;
  trans = λ a b c h k. ground arith;
  mono_of_ℕ = λ a b h k. refl;
}

pub whole-IsWeakOrder : IsWeakOrder whole
whole-IsWeakOrder = record { ordered = whole-IsOrdered; splits = λ a b c h. ground arith }
