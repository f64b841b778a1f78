-- ===== src/Components/HealthBar/Bounds.antt =====
-- The width and the colour of the bar of HealthBar.jsx.
use ariesmesh.Prelude.{
  clamped, ℕ, ◌≤◌, str_eq, String, ◌≡◌, refl, Bool, true, false, Number, IsOrdered, lit, arith,
  if◌then◌else◌,
}
use ariesmesh.Components.HealthBar.{percent, bar_tone}

-- how alarming a colour is
abbrev pub severity : String → ℕ
severity tone =
    if str_eq tone "bg-aries-error" then 2 else if str_eq tone "bg-aries-warning" then 1 else 0

grade : Bool → Bool → ℕ
grade worst bad = if worst then 2 else if bad then 1 else 0

severity_of :
    (worst bad : Bool)
    → severity
        (if worst then "bg-aries-error" else if bad then "bg-aries-warning" else "bg-aries-success")
      ≡ grade worst bad
unfolding grade
severity_of true bad = refl
severity_of false true = refl
severity_of false false = refl

module _ {F : Type 0} ⦃num : Number F⦄ (o : IsOrdered num) where
  -- On numbers without NaN in a strict order that whole numbers keep, the percentage lies between 0 and 100, whatever the
  -- value and the maximum.
  pub percent_bounds :
      (value limit : F)
      → (num.lt (percent value limit) (lit 0) ≡ false)
        × (num.lt (lit 100) (percent value limit) ≡ false)
  unfolding percent
  percent_bounds value limit = clamped o (num.mul (num.div value limit) (lit 100))

  -- On numbers without NaN in a strict order that whole numbers keep, a larger load has no milder colour, and a fuller
  -- battery no stronger one.
  pub bar_tone_mono :
      (p q : F)
      → num.lt p q ≡ true
      → (severity (bar_tone false p) ≤ severity (bar_tone false q))
        × (severity (bar_tone true q) ≤ severity (bar_tone true p))
  unfolding bar_tone grade
  bar_tone_mono p q h = (
    rw
        (
          severity_of (num.lt (lit 80) p) (num.lt (lit 60) p),
          severity_of (num.lt (lit 80) q) (num.lt (lit 60) q),
        )
        (ground (
          arith,
          o.trans (lit 80) p q,
          o.trans (lit 60) p q,
          o.trans (lit 60) (lit 80) q,
          o.mono_of_ℕ 60 80 (omega arith) (omega arith),
        )),
    rw
        (
          severity_of (num.lt p (lit 20)) (num.lt p (lit 50)),
          severity_of (num.lt q (lit 20)) (num.lt q (lit 50)),
        )
        (ground (
          arith,
          o.trans p q (lit 20),
          o.trans p q (lit 50),
          o.trans q (lit 20) (lit 50),
          o.trans p (lit 20) (lit 50),
          o.mono_of_ℕ 20 50 (omega arith) (omega arith),
        )),
  )
