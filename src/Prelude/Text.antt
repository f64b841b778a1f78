-- ===== src/Prelude/Text.antt =====
-- Text: prefixes, suffixes, search, ASCII letters and decimal digits, over the native `String`.
use Prim.Native.Nat.{ℕ, zero, suc, ◌-◌, ◌/◌, ◌%◌}
use Prim.Native.Char.{Char, code}
use Prim.Native.String.{String, [], ◌∷◌, ◌++◌}
use mathlib.Core.Path.{◌≡◌, refl, sym, ap, ◌∙◌}
use mathlib.Core.Logic.{inl, inr}
use text.Mathlib.TextLemmas.{nil-append, cons-append}
use text.Mathlib.Text.{◌==◌ as str_eq}
use text.Mathlib.TextEquality.{Char-path}
use mathlib.Core.Bool.{Bool, true, false, ◌||◌, ◌&&◌}
use mathlib.Core.Option.{Option, none, some}
use mathlib.Core.List.{List}
use native.Mathlib.Omega.{arith}
use ariesmesh.Prelude.Tests.{if◌then◌else◌, ◌==◌, ==_iff, Bool-cases, leb, ltb}

-- `s.startswith(p)` with the rest of `s` behind the prefix.
unfoldable pub strip_prefix : String → String → Option String
strip_prefix [] s = some s
strip_prefix (c ∷ p) [] = none
strip_prefix (c ∷ p) (d ∷ s) =
    let rest = strip_prefix p s in if code c == code d then rest else none

-- `s[:n]`
unfoldable pub shorten : ℕ → String → String
shorten zero s = []
shorten (suc n) [] = []
shorten (suc n) (c ∷ s) = c ∷ shorten n s

abbrev pub is_some {ℓ} : {A : Type ℓ} → Option A → Bool
is_some none = false
is_some (some a) = true

abbrev pub starts_with : String → String → Bool
starts_with p s = is_some (strip_prefix p s)

-- `t` occurs in `s`.
unfoldable pub includes : String → String → Bool
unfolding strip_prefix
includes t [] = starts_with t []
includes t (c ∷ s) = let later = includes t s in starts_with t (c ∷ s) || later

-- `s.split(c)`, for a separator of one character, given by its code: the first part and the others.
split_from : ℕ → String → String × List String
split_from sep [] = ([], List.[])
split_from sep (c ∷ s) =
    let (part, rest) = split_from sep s in
    if code c == sep then ([], List.◌∷◌ part rest) else (c ∷ part, rest)

unfoldable pub split_on : ℕ → String → List String
unfolding split_from
split_on sep s = let (part, rest) = split_from sep s in List.◌∷◌ part rest

-- `x in l`, for a list of texts.
unfoldable pub contains : String → List String → Bool
contains x List.[] = false
contains x (List.◌∷◌ y l) = let later = contains x l in str_eq x y || later

split_runs : split_on b'.' "a.bc." ≡ List.◌∷◌ "a" (List.◌∷◌ "bc" (List.◌∷◌ "" List.[]))
unfolding split_on
split_runs = refl

-- The lower-case letter of an ASCII capital, by its place in the alphabet.
lower_from : ℕ → String → String → String → String
lower_from n whole [] fallback = fallback
lower_from zero whole (c ∷ s) fallback = c ∷ []
lower_from (suc n) whole (c ∷ s) fallback = lower_from n whole s fallback

abbrev alphabet : String
alphabet = "abcdefghijklmnopqrstuvwxyz"

unfoldable pub to_lower : String → String
unfolding lower_from
to_lower [] = []
to_lower (c ∷ s) =
    (if leb 65 (code c) && leb (code c) 90
      then lower_from (code c - 65) alphabet alphabet (c ∷ [])
      else c ∷ [])
    ++ to_lower s

digit : ℕ → String
digit zero = "0"
digit (suc zero) = "1"
digit (suc (suc zero)) = "2"
digit (suc (suc (suc zero))) = "3"
digit (suc (suc (suc (suc zero)))) = "4"
digit (suc (suc (suc (suc (suc zero))))) = "5"
digit (suc (suc (suc (suc (suc (suc zero)))))) = "6"
digit (suc (suc (suc (suc (suc (suc (suc zero))))))) = "7"
digit (suc (suc (suc (suc (suc (suc (suc (suc zero)))))))) = "8"
digit (suc (suc (suc (suc (suc (suc (suc (suc (suc n))))))))) = "9"

-- The fuel is the number itself, which has fewer digits than its value and one.
decimal_from : ℕ → ℕ → String → String
decimal_from zero n out = digit (n % 10) ++ out
decimal_from (suc fuel) n out =
    let more = decimal_from fuel (n / 10) (digit (n % 10) ++ out) in
    if ltb n 10 then digit n ++ out else more

-- The decimal print of a natural number.
unfoldable pub decimal : ℕ → String
unfolding decimal_from digit
decimal n = decimal_from n n []

-- `String(n).padStart(2, '0')`.
unfoldable pub pad_two : ℕ → String
unfolding decimal
pad_two n = if ltb n 10 then "0" ++ decimal n else decimal n

decimal_runs : decimal 7272 ≡ "7272"
unfolding decimal
decimal_runs = refl

to_lower_runs : to_lower "Office-Tower" ≡ "office-tower"
unfolding to_lower
to_lower_runs = refl

-- A text begins with its first part, and the rest is the second.
pub strip_prefix-append : (p s : String) → strip_prefix p (p ++ s) ≡ some s
unfolding strip_prefix
strip_prefix-append [] s = rw nil-append
strip_prefix-append (c ∷ p) s = rw cons-append (ground (arith, strip_prefix-append p s))

-- Conversely, what has a prefix is the prefix and the rest.
pub strip_prefix-eq_some : (p s r : String) → strip_prefix p s ≡ some r → s ≡ p ++ r
unfolding strip_prefix
strip_prefix-eq_some [] s r h = rw nil-append (cc)
strip_prefix-eq_some (c ∷ p) [] r h = cc
strip_prefix-eq_some (c ∷ p) (d ∷ s) r h = elim (Bool-cases (code c == code d)) [
  | inl e ↦ rw cons-append (λ i.
      Char-path d c (sym ((==_iff (code c) (code d)).0 e)) i
      ∷ strip_prefix-eq_some p s r (rw e at h) i)
  | inr e ↦ cc (rw e at h)
]

-- Neither text is a prefix of the other: they differ at some place.
unfoldable pub clash : String → String → Bool
clash [] q = false
clash (c ∷ p) [] = false
clash (c ∷ p) (d ∷ q) = let rest = clash p q in if code c == code d then rest else true

pub strip_prefix-clash : (p q s : String) → clash p q ≡ true → strip_prefix p (q ++ s) ≡ none
unfolding strip_prefix clash
strip_prefix-clash [] q s h = cc
strip_prefix-clash (c ∷ p) [] s h = cc
strip_prefix-clash (c ∷ p) (d ∷ q) s h = rw cons-append (ground (arith, strip_prefix-clash p q s))

-- The separator does not occur.
unfoldable pub lacks : ℕ → String → Bool
lacks sep [] = true
lacks sep (c ∷ s) = let later = lacks sep s in if code c == sep then false else later

lacks-cons :
    (sep : ℕ) (c : Char) (s : String)
    → lacks sep (c ∷ s) ≡ true
    → ((code c == sep) ≡ false) × (lacks sep s ≡ true)
unfolding lacks
lacks-cons sep c s h = ground arith

-- The step of `split_from` behind a character that is not the separator.
split_from-cons :
    (sep : ℕ) (c : Char) (s : String)
    → (code c == sep) ≡ false
    → split_from sep (c ∷ s) ≡ (c ∷ (split_from sep s).0, (split_from sep s).1)
unfolding split_from
split_from-cons sep c s h = rw (h, if◌then◌else◌) refl

split_from-lacks : (sep : ℕ) (s : String) → lacks sep s ≡ true → split_from sep s ≡ (s, List.[])
unfolding split_from
split_from-lacks sep [] h = refl
split_from-lacks sep (c ∷ s) h =
    let (k, hs) = lacks-cons sep c s h in
    split_from-cons sep c s k
    ∙ ap (λ (t : String × List String). (c ∷ t.0, t.1)) (split_from-lacks sep s hs)

split_from-append :
    (sep : ℕ) (s t : String) (c : Char)
    → lacks sep s ≡ true
    → (code c == sep) ≡ true
    → split_from sep (s ++ (c ∷ t)) ≡ (s, split_on sep t)
unfolding split_on
split_from-append sep [] t c h e = rw (nil-append, split_from, e, if◌then◌else◌) refl
split_from-append sep (d ∷ s) t c h e =
    let (k, hs) = lacks-cons sep d s h in
    rw cons-append (
      split_from-cons sep d (s ++ (c ∷ t)) k
      ∙ ap (λ (u : String × List String). (d ∷ u.0, u.1)) (split_from-append sep s t c hs e))

-- A text without the separator is one part, and the first part before a separator.
pub split_on-lacks :
    (sep : ℕ) (s : String) → lacks sep s ≡ true → split_on sep s ≡ List.◌∷◌ s List.[]
unfolding split_on
split_on-lacks sep s h =
    ap (λ (u : String × List String). List.◌∷◌ u.0 u.1) (split_from-lacks sep s h)

pub split_on-append :
    (sep : ℕ) (s t : String) (c : Char)
    → lacks sep s ≡ true
    → (code c == sep) ≡ true
    → split_on sep (s ++ ((c ∷ []) ++ t)) ≡ List.◌∷◌ s (split_on sep t)
unfolding split_on
split_on-append sep s t c h e =
    rw (cons-append, nil-append)
      (ap (λ (u : String × List String). List.◌∷◌ u.0 u.1) (split_from-append sep s t c h e))
