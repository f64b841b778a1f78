-- ===== src/Components/HealthBar.antt =====
-- dashboard/src/components/HealthBar.jsx: a bar for a percentage, over floating-point numbers.
pub mod Bounds
use Prim.Native.String.{◌++◌}
use ariesmesh.Prelude.{
  ℕ, String, Bool, Option, none, some, [], ◌∷◌, if◌then◌else◌, Number, fmin, fmax, lit,
}
use ariesmesh.Dom.{Html, text, el, ◌&◌, class, attr, nothing, or_default}

module _ {F : Type 0} ⦃num : Number F⦄ where
  -- the variable `pct`
  unfoldable pub percent : F → F → F
  percent value limit = fmax (lit 0) (fmin (lit 100) (num.mul (num.div value limit) (lit 100)))

  -- the variable `toneClass`
  unfoldable pub bar_tone : Bool → F → String
  bar_tone invert pct =
      if invert
      then (if num.lt pct (lit 20)
          then "bg-aries-error"
          else if num.lt pct (lit 50)
          then "bg-aries-warning"
          else "bg-aries-success")
      else (if num.lt (lit 80) pct
          then "bg-aries-error"
          else if num.lt (lit 60) pct
          then "bg-aries-warning"
          else "bg-aries-success")

  -- The properties of the component with their defaults written out: `limit` is `max`.
  unfoldable pub health_bar : {A : Type 0} → String → F → F → String → Bool → Option String → Html A
  unfolding percent bar_tone
  health_bar label value limit unit invert sublabel =
      let pct = percent value limit in
      el "div" [] (
        el "div" (class "flex items-baseline justify-between mb-1.5" ∷ []) (
          el "span" (class "text-xs text-aries-text-dim uppercase tracking-wider" ∷ []) (text label)
          & el "span" (class "text-xs text-aries-text font-mono" ∷ [])
              (text (or_default sublabel (num.to_fixed value 0 ++ unit))))
        & el "div" (class "h-1.5 w-full rounded-full bg-aries-border/60 overflow-hidden" ∷ []) (
            el "div"
              (class (
                  "h-full rounded-full transition-all duration-700 ease-out "
                  ++ bar_tone invert pct)
                ∷ attr "style.width" (num.show pct ++ "%")
                ∷ [])
              nothing))
