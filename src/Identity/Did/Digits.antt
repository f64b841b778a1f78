-- ===== src/Identity/Did/Digits.antt =====
-- The digits that the loop of `_b58encode` puts out.
use ariesmesh.Prelude.{
  ◌≡◌, refl, ap, ◌∙◌, ◌⊎◌, ==_iff, inl, inr, ℕ, zero, suc, ◌+◌, ◌*◌, ◌/◌, ◌%◌, ◌≤◌, ◌<◌, false,
  List, [], ◌∷◌, foldl, if◌then◌else◌, ◌==◌, Bool-cases, All, arith,
}
use ariesmesh.Identity.Did.{b58_digits}

abbrev pub digit_step : ℕ → ℕ → ℕ
digit_step n d = n * 58 + d

abbrev pub IsDigit : ℕ → Type 0
IsDigit d = d < 58

-- the first digit, if there is one, is not 0
abbrev pub Leads : List ℕ → Type 0
Leads [] = Unit
Leads (d ∷ digits) = ◌<◌ 0 d

Leads-at_zero : (n : ℕ) (out : List ℕ) → n ≡ 0 → (◌<◌ 0 n ⊎ Leads out) → Leads out
Leads-at_zero n out e (inl h) = absurd (omega (arith, h, e))
Leads-at_zero n out e (inr h) = h

digit_or_more : (n : ℕ) → ◌<◌ 0 n → ◌<◌ 0 (n / 58) ⊎ ◌<◌ 0 (n % 58)
digit_or_more n h = ground (arith, h)

-- The while loop as the source writes it: it ends at 0, and else turns with the quotient and one digit more.
pub data Loop : ℕ → List ℕ → List ℕ → Type 0 where
  loop_done : (out : List ℕ) → Loop 0 out out
  loop_turn :
      (n : ℕ) (out result : List ℕ)
      → ◌<◌ 0 n
      → Loop (n / 58) (n % 58 ∷ out) result
      → Loop n out result

is_zero : (n : ℕ) → n ≤ 0 → n ≡ 0
is_zero n h = omega (arith, h)

shrinks : (n fuel : ℕ) → n ≤ suc fuel → (n == 0) ≡ false → n / 58 ≤ fuel
shrinks n fuel h k = ground arith

positive : (n : ℕ) → (n == 0) ≡ false → ◌<◌ 0 n
positive n k = ground arith

-- From every number the while loop ends, with the digits that `b58_digits` gives on any fuel that is no smaller than the number.
pub b58_digits-Loop : (fuel n : ℕ) (out : List ℕ) → n ≤ fuel → Loop n out (b58_digits fuel n out)
unfolding b58_digits
b58_digits-Loop zero n out h = rw (is_zero n h) (loop_done out)
b58_digits-Loop (suc fuel) n out h = elim (Bool-cases (n == 0)) [
  | inl k ↦ rw ((==_iff n 0).0 k) (loop_done out)
  | inr k ↦
      rw (k, if◌then◌else◌)
        (loop_turn n out (b58_digits fuel (n / 58) (n % 58 ∷ out)) (positive n k)
          (b58_digits-Loop fuel (n / 58) (n % 58 ∷ out) (shrinks n fuel h k)))
]

rebuilt : (n : ℕ) → n / 58 * 58 + n % 58 ≡ n
rebuilt n = omega arith

-- The digits have the value of the number.
pub foldl-b58_digits :
    (fuel n : ℕ) (out : List ℕ)
    → n ≤ fuel
    → foldl digit_step 0 (b58_digits fuel n out) ≡ foldl digit_step n out
unfolding b58_digits
foldl-b58_digits zero n out h = rw (is_zero n h) refl
foldl-b58_digits (suc fuel) n out h = elim (Bool-cases (n == 0)) [
  | inl k ↦ rw ((==_iff n 0).0 k) refl
  | inr k ↦
      rw (k, if◌then◌else◌)
        (foldl-b58_digits fuel (n / 58) (n % 58 ∷ out) (shrinks n fuel h k)
          ∙ ap (λ m. foldl digit_step m out) (rebuilt n))
]

-- They are digits.
pub b58_digits-All :
    (fuel n : ℕ) (out : List ℕ) → All IsDigit out → All IsDigit (b58_digits fuel n out)
unfolding b58_digits
b58_digits-All zero n out h = h
b58_digits-All (suc fuel) n out h = elim (Bool-cases (n == 0)) [
  | inl k ↦ rw (k, if◌then◌else◌) h
  | inr k ↦ rw (k, if◌then◌else◌) (b58_digits-All fuel (n / 58) (n % 58 ∷ out) (omega arith, h))
]

-- The first one is not 0.
pub b58_digits-Leads :
    (fuel n : ℕ) (out : List ℕ) → n ≤ fuel → (◌<◌ 0 n ⊎ Leads out) → Leads (b58_digits fuel n out)
unfolding b58_digits
b58_digits-Leads zero n out h (inl k) = absurd (omega (arith, h, k))
b58_digits-Leads zero n out h (inr k) = k
b58_digits-Leads (suc fuel) n out h k = elim (Bool-cases (n == 0)) [
  | inl e ↦ rw (e, if◌then◌else◌) (Leads-at_zero n out ((==_iff n 0).0 e) k)
  | inr e ↦
      rw (e, if◌then◌else◌)
        (b58_digits-Leads fuel (n / 58) (n % 58 ∷ out) (shrinks n fuel h e)
          (digit_or_more n (positive n e)))
]
