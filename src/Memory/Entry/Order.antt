-- ===== src/Memory/Entry/Order.antt =====
-- `supersedes` of LWWEntry as an order of writers.
use Prim.Native.Char.{code}
use text.Mathlib.TextEquality.{Char-path}
use ariesmesh.Prelude.{String, ◌≡◌, refl, true, false, ◌==◌, ==_iff, arith, Bool-cases, inl, inr}
use ariesmesh.Memory.Entry.{Entry, str_ltb, supersedes}

str_ltb_irrefl : (s : String) → str_ltb s s ≡ false
unfolding str_ltb
str_ltb_irrefl String.[] = refl
str_ltb_irrefl (String.◌∷◌ c s) = ground (arith, str_ltb_irrefl s)

str_ltb_trans : (s t u : String) → str_ltb s t ≡ true → str_ltb t u ≡ true → str_ltb s u ≡ true
unfolding str_ltb
str_ltb_trans String.[] t (String.◌∷◌ e u) h k = refl
str_ltb_trans String.[] String.[] String.[] h k = k
str_ltb_trans String.[] (String.◌∷◌ d t) String.[] h k = k
str_ltb_trans (String.◌∷◌ c s) String.[] u h k = cc
str_ltb_trans (String.◌∷◌ c s) (String.◌∷◌ d t) String.[] h k = cc
str_ltb_trans (String.◌∷◌ c s) (String.◌∷◌ d t) (String.◌∷◌ e u) h k =
    ground (arith, str_ltb_trans s t u)

str_ltb_total : (s t : String) → str_ltb s t ≡ false → str_ltb t s ≡ false → s ≡ t
unfolding str_ltb
str_ltb_total String.[] String.[] h k = refl
str_ltb_total String.[] (String.◌∷◌ d t) h k = cc
str_ltb_total (String.◌∷◌ c s) String.[] h k = cc
str_ltb_total (String.◌∷◌ c s) (String.◌∷◌ d t) h k = elim (Bool-cases (code c == code d)) [
  | inl e ↦ λ i.
      String.◌∷◌ (Char-path c d ((==_iff (code c) (code d)).0 e) i)
        (str_ltb_total s t (ground arith) (ground arith) i)
  | inr e ↦ absurd (ground arith)
]

module _ {V : Type 0} where
  pub supersedes_irrefl : (a : Entry V) → supersedes a a ≡ false
  unfolding supersedes
  supersedes_irrefl a = ground (arith, str_ltb_irrefl a.device_did)

  pub supersedes_trans :
      (a b c : Entry V) → supersedes a b ≡ true → supersedes b c ≡ true → supersedes a c ≡ true
  unfolding supersedes
  supersedes_trans a b c h k = ground (arith, str_ltb_trans c.device_did b.device_did a.device_did)

  -- Two entries of which neither supersedes the other have the same timestamp and the same device.
  pub supersedes_total :
      (a b : Entry V)
      → supersedes a b ≡ false
      → supersedes b a ≡ false
      → (a.timestamp ≡ b.timestamp) × (a.device_did ≡ b.device_did)
  unfolding supersedes
  supersedes_total a b h k = (ground arith, ground (arith, str_ltb_total a.device_did b.device_did))

  pub supersedes_asymm : (a b : Entry V) → supersedes a b ≡ true → supersedes b a ≡ false
  supersedes_asymm a b h = elim (Bool-cases (supersedes b a)) [
    | inl k ↦ cc (supersedes_trans a b a h k, supersedes_irrefl a)
    | inr k ↦ k
  ]

  same_stamp :
      (a b c : Entry V)
      → b.timestamp ≡ c.timestamp
      → b.device_did ≡ c.device_did
      → supersedes a b ≡ supersedes a c
  unfolding supersedes
  same_stamp a b c t d = rw (t, d)

  -- "At most" is transitive.
  pub not_supersedes_trans :
      (a b c : Entry V) → supersedes a b ≡ false → supersedes b c ≡ false → supersedes a c ≡ false
  not_supersedes_trans a b c h k = elim (Bool-cases (supersedes a c)) [
    | inr n ↦ n
    | inl y ↦ elim (Bool-cases (supersedes c b)) [
      | inl m ↦ cc (supersedes_trans a c b y m)
      | inr m ↦ let (t, d) = supersedes_total b c k m in cc (same_stamp a b c t d)
    ]
  ]
