-- ===== src/Dom/Query.antt =====
-- What a reader of a page sees: its texts, the elements with a given class, and the handlers.
use ariesmesh.Prelude.{
  suc, ◌*◌, ℕ, ◌+◌, String, ◌≡◌, refl, Bool, false, List, [], ◌∷◌, arith, str_eq, if◌then◌else◌,
  length, ◌||◌,
}
use ariesmesh.Dom.{Attr, attr, flag, size, on, Html, nothing, text, el, ◌&◌, each, each_from}

module _ {A : Type 0} where
  abbrev pub has_attr : String → String → List (Attr A) → Bool
  has_attr name value [] = false
  has_attr name value (attr n v ∷ attrs) =
      (if str_eq n name then str_eq v value else false) || has_attr name value attrs
  has_attr name value (flag n b ∷ attrs) = has_attr name value attrs
  has_attr name value (size n k ∷ attrs) = has_attr name value attrs
  has_attr name value (on n a ∷ attrs) = has_attr name value attrs

  -- how many elements have the tag
  abbrev pub count_tag : String → Html A → ℕ
  count_tag tag nothing = 0
  count_tag tag (text s) = 0
  count_tag tag (el t attrs h) = (if str_eq t tag then 1 else 0) + count_tag tag h
  count_tag tag (h & k) = count_tag tag h + count_tag tag k

  -- how many elements have the attribute with the value
  abbrev pub count_attr : String → String → Html A → ℕ
  count_attr name value nothing = 0
  count_attr name value (text s) = 0
  count_attr name value (el t attrs h) =
      (if has_attr name value attrs then 1 else 0) + count_attr name value h
  count_attr name value (h & k) = count_attr name value h + count_attr name value k

  -- how many elements have the flag
  abbrev pub has_flag : String → List (Attr A) → Bool
  has_flag name [] = false
  has_flag name (attr n v ∷ attrs) = has_flag name attrs
  has_flag name (flag n b ∷ attrs) = (if str_eq n name then b else false) || has_flag name attrs
  has_flag name (size n k ∷ attrs) = has_flag name attrs
  has_flag name (on n a ∷ attrs) = has_flag name attrs

  abbrev pub count_flag : String → Html A → ℕ
  count_flag name nothing = 0
  count_flag name (text s) = 0
  count_flag name (el t attrs h) = (if has_flag name attrs then 1 else 0) + count_flag name h
  count_flag name (h & k) = count_flag name h + count_flag name k

module _ {ℓ} {A : Type 0} {B : Type ℓ} where
  -- A list of which each item counts `k` times.
  pub count_tag-each :
      (tag : String) (k : ℕ) (xs : List B) (f : B → Html A)
      → ((x : B) → count_tag tag (f x) ≡ k)
      → count_tag tag (each xs f) ≡ length xs * k
  count_tag-each tag k [] f h = omega arith
  count_tag-each tag k (x ∷ xs) f h = grind (arith, h x, count_tag-each tag k xs f h)

  pub count_tag-each_from :
      (tag : String) (k i : ℕ) (xs : List B) (f : ℕ → B → Html A)
      → ((j : ℕ) (x : B) → count_tag tag (f j x) ≡ k)
      → count_tag tag (each_from i xs f) ≡ length xs * k
  count_tag-each_from tag k i [] f h = omega arith
  count_tag-each_from tag k i (x ∷ xs) f h =
      grind (arith, h i x, count_tag-each_from tag k (suc i) xs f h)

  pub count_flag-each_from :
      (name : String) (k i : ℕ) (xs : List B) (f : ℕ → B → Html A)
      → ((j : ℕ) (x : B) → count_flag name (f j x) ≡ k)
      → count_flag name (each_from i xs f) ≡ length xs * k
  count_flag-each_from name k i [] f h = omega arith
  count_flag-each_from name k i (x ∷ xs) f h =
      grind (arith, h i x, count_flag-each_from name k (suc i) xs f h)

  -- A list of which only the items behind the first place count for nothing.
  pub count_attr-each_from :
      (name value : String) (i : ℕ) (xs : List B) (f : ℕ → B → Html A)
      → ((j : ℕ) (x : B) → count_attr name value (f (suc j) x) ≡ 0)
      → count_attr name value (each_from (suc i) xs f) ≡ 0
  count_attr-each_from name value i [] f h = refl
  count_attr-each_from name value i (x ∷ xs) f h =
      omega (arith, h i x, count_attr-each_from name value (suc i) xs f h)
