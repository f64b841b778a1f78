-- ===== src/Prelude/Lists.antt =====
-- Lists measured and cut by native numbers, membership tests, and predicates on lists.
use Prim.Native.Nat.{ℕ, zero, suc, ◌+◌, ◌≤◌, ◌<◌, min}
use mathlib.Core.Path.{◌≡◌, refl, ap}
use mathlib.Core.Logic.{◌≢◌, ◌⊎◌, inl, inr}
use mathlib.Core.Bool.{Bool, true, false, ◌||◌, ◌&&◌}
use mathlib.Core.Option.{Option, none, some}
use mathlib.Core.List.{List, [], ◌∷◌, ◌++◌, map}
use native.Mathlib.Omega.{arith}
use ariesmesh.Prelude.Tests.{if◌then◌else◌, ◌==◌, ==_iff, Bool-cases}

module _ {ℓ} {A : Type ℓ} where
  abbrev pub length : List A → ℕ
  length [] = 0
  length (x ∷ xs) = suc (length xs)

  abbrev pub get_elem? : List A → ℕ → Option A
  get_elem? [] i = none
  get_elem? (x ∷ xs) zero = some x
  get_elem? (x ∷ xs) (suc i) = get_elem? xs i

  abbrev pub take : ℕ → List A → List A
  take zero xs = []
  take (suc n) [] = []
  take (suc n) (x ∷ xs) = x ∷ take n xs

  abbrev pub drop : ℕ → List A → List A
  drop zero xs = xs
  drop (suc n) [] = []
  drop (suc n) (x ∷ xs) = drop n xs

  -- The elements that pass a Boolean test, in order.
  abbrev pub keep : (A → Bool) → List A → List A
  keep p [] = []
  keep p (x ∷ xs) = let rest = keep p xs in if p x then x ∷ rest else rest

  abbrev pub any : (A → Bool) → List A → Bool
  any p [] = false
  any p (x ∷ xs) = p x || any p xs

  abbrev pub all : (A → Bool) → List A → Bool
  all p [] = true
  all p (x ∷ xs) = p x && all p xs

  pub length-append : (xs ys : List A) → length (xs ++ ys) ≡ length xs + length ys
  length-append [] ys = omega arith
  length-append (x ∷ xs) ys = omega (arith, length-append xs ys)

  pub length-take : (n : ℕ) (xs : List A) → length (take n xs) ≡ min n (length xs)
  length-take zero xs = omega arith
  length-take (suc n) [] = omega arith
  length-take (suc n) (x ∷ xs) = omega (arith, length-take n xs)

  pub length-keep : (p : A → Bool) (xs : List A) → length (keep p xs) ≤ length xs
  length-keep p [] = omega arith
  length-keep p (x ∷ xs) = ground (arith, length-keep p xs)

module _ {ℓ κ} {A : Type ℓ} (P : A → Type κ) where
  abbrev pub All : List A → Type κ
  All [] = Unit
  All (x ∷ xs) = P x × All xs

module _ {ℓ κ} {A : Type ℓ} {B : Type κ} where
  pub length-map : (f : A → B) (xs : List A) → length (map f xs) ≡ length xs
  length-map f [] = refl
  length-map f (x ∷ xs) = ap suc (length-map f xs)

-- Membership, with the place.
module _ {A : Type 0} where
  abbrev pub In : A → List A → Type 0
  In x [] = ⊥
  In x (y ∷ l) = (x ≡ y) ⊎ In x l

  -- What a test over a list finds, and what it says of each member.
  pub any-In : (p : A → Bool) (l : List A) → any p l ≡ true → (x : A) × In x l × (p x ≡ true)
  any-In p [] h = cc
  any-In p (x ∷ l) h = elim (Bool-cases (p x)) [
    | inl hit ↦ (x, inl refl, hit)
    | inr miss ↦ let (y, m, k) = any-In p l (ground arith) in (y, inr m, k)
  ]

  pub all-In : (p : A → Bool) (l : List A) (x : A) → all p l ≡ true → In x l → p x ≡ true
  all-In p [] x h m = absurd m
  all-In p (y ∷ l) x h (inl e) = rw e (ground arith)
  all-In p (y ∷ l) x h (inr m) = all-In p l x (ground arith) m

  pub In-any : (p : A → Bool) (l : List A) (x : A) → In x l → p x ≡ true → any p l ≡ true
  In-any p [] x m h = absurd m
  In-any p (y ∷ l) x (inl e) h = let k = (rw e at h) in ground arith
  In-any p (y ∷ l) x (inr m) h = ground (arith, In-any p l x m h)

-- Lists without an element, and without repetition.
module _ {A : Type 0} where
  abbrev pub IsNew : A → List A → Type 0
  IsNew a xs = All (λ x. x ≢ a) xs

  abbrev pub IsDistinct : List A → Type 0
  IsDistinct [] = Unit
  IsDistinct (x ∷ xs) = IsNew x xs × IsDistinct xs

-- Membership in two lists joined.
module _ {A : Type 0} where
  pub append-In : (xs ys : List A) (x : A) → In x (xs ++ ys) → In x xs ⊎ In x ys
  append-In [] ys x m = inr m
  append-In (y ∷ xs) ys x (inl e) = inl (inl e)
  append-In (y ∷ xs) ys x (inr m) = elim (append-In xs ys x m) [
    | inl n ↦ inl (inr n)
    | inr n ↦ inr n
  ]

  pub In-left : (xs ys : List A) (x : A) → In x xs → In x (xs ++ ys)
  In-left [] ys x m = absurd m
  In-left (y ∷ xs) ys x (inl e) = inl e
  In-left (y ∷ xs) ys x (inr m) = inr (In-left xs ys x m)

  pub In-right : (xs ys : List A) (x : A) → In x ys → In x (xs ++ ys)
  In-right [] ys x m = m
  In-right (y ∷ xs) ys x m = inr (In-right xs ys x m)

-- Membership in what `keep` and `map` give.
module _ {A : Type 0} where
  pub In-keep : (p : A → Bool) (l : List A) (x : A) → In x l → p x ≡ true → In x (keep p l)
  In-keep p [] x m h = absurd m
  In-keep p (y ∷ l) x (inl e) h = let k = (rw e at h) in rw (k, if◌then◌else◌) (inl e)
  In-keep p (y ∷ l) x (inr m) h = elim (Bool-cases (p y)) [
    | inl k ↦ rw (k, if◌then◌else◌) (inr (In-keep p l x m h))
    | inr k ↦ rw (k, if◌then◌else◌) (In-keep p l x m h)
  ]

  pub keep-In : (p : A → Bool) (l : List A) (x : A) → In x (keep p l) → In x l × (p x ≡ true)
  keep-In p [] x m = absurd m
  keep-In p (y ∷ l) x m = elim (Bool-cases (p y)) [
    | inl k ↦ elim (rw (k, if◌then◌else◌) at m) [
      | inl e ↦ (inl e, rw e k)
      | inr n ↦ let (i, h) = keep-In p l x n in (inr i, h)
    ]
    | inr k ↦ let (i, h) = keep-In p l x (rw (k, if◌then◌else◌) at m) in (inr i, h)
  ]

module _ {A B : Type 0} (f : A → B) where
  pub In-map : (l : List A) (x : A) → In x l → In (f x) (map f l)
  In-map [] x m = absurd m
  In-map (y ∷ l) x (inl e) = inl (ap f e)
  In-map (y ∷ l) x (inr m) = inr (In-map l x m)

  pub map-In : (l : List A) (y : B) → In y (map f l) → (x : A) × In x l × (y ≡ f x)
  map-In [] y m = absurd m
  map-In (x ∷ l) y (inl e) = (x, inl refl, e)
  map-In (x ∷ l) y (inr m) = let (z, i, e) = map-In l y m in (z, inr i, e)

-- A test of every number below a bound.
abbrev pub all_below : (ℕ → Bool) → ℕ → Bool
all_below p zero = true
all_below p (suc n) = p n && all_below p n

pub all_below_lem : (p : ℕ → Bool) (n i : ℕ) → all_below p n ≡ true → i < n → p i ≡ true
all_below_lem p zero i h k = absurd (omega (arith, k))
all_below_lem p (suc n) i h k = elim (Bool-cases (i == n)) [
  | inl e ↦ rw ((==_iff i n).0 e) (ground arith)
  | inr e ↦ all_below_lem p n i (ground arith) (ground arith)
]
