-- ===== src/Dom.antt =====
-- What the JSX of the dashboard evaluates to: elements with their attributes, texts and siblings.
-- A tag is an HTML or SVG element, or a component of a library (an icon of lucide-react, a part of
-- react-router-dom), which is left as it is. Components of the dashboard are functions.
pub mod Query
use Prim.Native.String.{◌++◌}
use ariesmesh.Prelude.{
  ℕ, zero, suc, ◌+◌, String, Bool, true, false, Option, none, some, List, [], ◌∷◌, if◌then◌else◌,
}

-- A string, a flag, a number, or a handler: the action that it makes on the component's state.
pub data Attr (A : Type 0) : Type 0 where
  attr : String → String → Attr A
  flag : String → Bool → Attr A
  size : String → ℕ → Attr A
  on : String → A → Attr A

infixr 6 ◌&◌
pub data Html (A : Type 0) : Type 0 where
  nothing : Html A
  text : String → Html A
  el : String → List (Attr A) → Html A → Html A
  ◌&◌ : Html A → Html A → Html A

module _ {A : Type 0} where
  -- `{test && html}`
  abbrev pub when : Bool → Html A → Html A
  when test html = if test then html else nothing

  abbrev pub class : String → Attr A
  class names = attr "className" names

-- `{list.map((x) => html)}`, and with the index
module _ {ℓ} {A : Type 0} {B : Type ℓ} where
  abbrev pub each : List B → (B → Html A) → Html A
  each [] f = nothing
  each (x ∷ xs) f = f x & each xs f

  abbrev pub each_from : ℕ → List B → (ℕ → B → Html A) → Html A
  each_from i [] f = nothing
  each_from i (x ∷ xs) f = f i x & each_from (suc i) xs f

-- A field of an object that may be null or missing, `s || fallback` on it and `s ?? fallback`. The
-- empty string is falsy.
abbrev pub or_else : Option String → String → String
or_else none d = d
or_else (some s) d = elim s [ String.[] ↦ d | String.◌∷◌ c r ↦ String.◌∷◌ c r ]

abbrev pub or_default {ℓ} : {B : Type ℓ} → Option B → B → B
or_default none d = d
or_default (some b) d = b
