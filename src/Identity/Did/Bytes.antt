-- ===== src/Identity/Did/Bytes.antt =====
-- The bytes of a number: `to_bytes` with the length that `bit_length` gives undoes `from_bytes`.
use mathlib.Core.List.{reverse_aux, reverse_aux-reverse_aux-nil}
use ariesmesh.Prelude.{
  ◌≡◌, refl, ap, ◌∙◌, inl, inr, ℕ, zero, suc, ◌+◌, ◌*◌, ◌/◌, ◌%◌, ◌≤◌, ◌<◌, true, false, List, [],
  ◌∷◌, foldl, if◌then◌else◌, ◌==◌, ◌||◌, suc-==_zero, all_below, all_below_lem, Bool-cases, All,
  length, arith,
}
use ariesmesh.Identity.Did.{
  byte_step, from_bytes, bit_length_from, bit_length, to_bytes, number_bytes,
}

abbrev pub IsByte : ℕ → Type 0
IsByte b = b < 256

-- As much fuel as the number is enough, and more changes nothing.
bit_length_fuel : (f g n : ℕ) → n ≤ f → n ≤ g → bit_length_from f n ≡ bit_length_from g n
unfolding bit_length_from
bit_length_fuel zero zero n h k = refl
bit_length_fuel zero (suc g) n h k = ground (arith, h)
bit_length_fuel (suc f) zero n h k = ground (arith, k)
bit_length_fuel (suc f) (suc g) n h k = elim (Bool-cases (n == 0)) [
  | inl e ↦ rw (bit_length_from, e) refl
  | inr e ↦
      rw (bit_length_from, e) (ap suc (bit_length_fuel f g (n / 2) (ground arith) (ground arith)))
]

halves : (n : ℕ) → n / 2 / 2 ≡ n / 4
halves n = omega arith

-- A number has one bit more than its half.
bit_length_half : (n : ℕ) → ◌<◌ 0 n → bit_length n ≡ suc (bit_length (n / 2))
unfolding bit_length
bit_length_half zero h = absurd (omega (arith, h))
bit_length_half (suc n) h =
    rw (bit_length_from, suc-==_zero n)
      (ap suc (bit_length_fuel n (suc n / 2) (suc n / 2) (omega arith) (omega arith)))

bit_length_quarter : (n : ℕ) → 2 ≤ n → bit_length n ≡ 2 + bit_length (n / 4)
bit_length_quarter n h = omega (
  arith,
  bit_length_half n (omega (arith, h)),
  bit_length_half (n / 2) (omega (arith, h)),
  ap bit_length (halves n),
)

quarters : (b m : ℕ) → b < 256 → (m * 256 + b) / 4 / 4 / 4 / 4 ≡ m
quarters b m h = omega (arith, h)

-- and eight more than its quotient by 256
bit_length_byte : (b m : ℕ) → b < 256 → ◌<◌ 0 m → bit_length (m * 256 + b) ≡ 8 + bit_length m
bit_length_byte b m h k = omega (
  arith,
  bit_length_quarter (m * 256 + b) (omega (arith, k)),
  bit_length_quarter ((m * 256 + b) / 4) (omega (arith, k)),
  bit_length_quarter ((m * 256 + b) / 4 / 4) (omega (arith, k)),
  bit_length_quarter ((m * 256 + b) / 4 / 4 / 4) (omega (arith, k)),
  ap bit_length (quarters b m h),
)

-- little-endian: the first byte is the lowest
abbrev value : List ℕ → ℕ
value [] = 0
value (b ∷ l) = value l * 256 + b

-- the highest byte of a little-endian list is there and is not 0
abbrev Topped : List ℕ → Type 0
Topped [] = ⊥
Topped (b ∷ []) = ◌<◌ 0 b
Topped (b ∷ c ∷ l) = Topped (c ∷ l)

value-from_bytes : (l acc : List ℕ) → from_bytes (reverse_aux l acc) ≡ foldl byte_step (value l) acc
value-from_bytes [] acc = refl
value-from_bytes (b ∷ l) acc = value-from_bytes l (b ∷ acc)

quotient : (b m : ℕ) → b < 256 → (m * 256 + b) / 256 ≡ m
quotient b m h = omega (arith, h)

remainder : (b m : ℕ) → b < 256 → (m * 256 + b) % 256 ≡ b
remainder b m h = omega (arith, h)

to_bytes-value :
    (l acc : List ℕ) → All IsByte l → to_bytes (length l) (value l) acc ≡ reverse_aux l acc
unfolding to_bytes
to_bytes-value [] acc h = refl
to_bytes-value (b ∷ l) acc (h, hs) =
    (λ i. to_bytes (length l) (quotient b (value l) h i) (remainder b (value l) h i ∷ acc))
    ∙ to_bytes-value l (b ∷ acc) hs

Topped-value : (l : List ℕ) → Topped l → ◌<◌ 0 (value l)
Topped-value [] h = absurd h
Topped-value (b ∷ []) h = omega (arith, h)
Topped-value (b ∷ c ∷ l) h = ground (arith, Topped-value (c ∷ l) h)

one_byte_table : all_below (λ b. (b == 0) || ((bit_length b + 7) / 8 == 1)) 256 ≡ true
unfolding bit_length
one_byte_table = refl

one_byte : (b : ℕ) → b < 256 → ◌<◌ 0 b → (bit_length b + 7) / 8 ≡ 1
one_byte b h k =
    ground
      (arith, all_below_lem (λ b. (b == 0) || ((bit_length b + 7) / 8 == 1)) 256 b one_byte_table h)

-- A number has as many bytes as its list.
byte_count : (l : List ℕ) → All IsByte l → Topped l → (bit_length (value l) + 7) / 8 ≡ length l
byte_count [] h t = absurd t
byte_count (b ∷ []) (h, hs) t = one_byte (0 + b) (omega (arith, h)) (omega (arith, t))
byte_count (b ∷ c ∷ l) (h, hs) t =
    omega
      (arith, bit_length_byte b (value (c ∷ l)) h (Topped-value (c ∷ l) t), byte_count (c ∷ l) hs t)

Topped-reverse_aux : (l acc : List ℕ) → Topped acc → Topped (reverse_aux l acc)
Topped-reverse_aux [] acc t = t
Topped-reverse_aux (b ∷ l) [] t = absurd t
Topped-reverse_aux (b ∷ l) (c ∷ acc) t = Topped-reverse_aux l (b ∷ c ∷ acc) t

All-reverse_aux : (l acc : List ℕ) → All IsByte l → All IsByte acc → All IsByte (reverse_aux l acc)
All-reverse_aux [] acc h k = k
All-reverse_aux (b ∷ l) acc (h, hs) k = All-reverse_aux l (b ∷ acc) hs (h, k)

-- Bytes that begin with no zero byte come back from their number.
number_bytes-reverse_aux :
    (l : List ℕ)
    → All IsByte l
    → Topped l
    → number_bytes (from_bytes (reverse_aux l [])) ≡ reverse_aux l []
unfolding number_bytes
number_bytes-reverse_aux l h t =
    let k : (value l == 0) ≡ false = ground (arith, Topped-value l t) in
    rw (value-from_bytes l [], k, if◌then◌else◌, byte_count l h t) (to_bytes-value l [] h)

pub number_bytes-from_bytes :
    (b : ℕ) (l : List ℕ) → ◌<◌ 0 b → All IsByte (b ∷ l) → number_bytes (from_bytes (b ∷ l)) ≡ b ∷ l
number_bytes-from_bytes b l t h =
    let back = reverse_aux-reverse_aux-nil (b ∷ l) [] in
    let e =
      number_bytes-reverse_aux (reverse_aux (b ∷ l) []) (All-reverse_aux (b ∷ l) [] h tt)
        (Topped-reverse_aux l (b ∷ []) t) in
    rw back at e
