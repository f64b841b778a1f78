-- ===== src/Identity/Shamir/Agree.antt =====
-- Polynomials of `shamir_split` with the same values at a few points, and other secrets.
use mathlib.Core.Path.{subst}
use ariesmesh.Prelude.{
  ◌≡◌, ◌≢◌, refl, sym, ap, ◌∙◌, ◌+◌, ◌-◌, ◌<◌, ◌≤◌, ℕ, zero, suc, List, [], ◌∷◌, length, All, IsNew,
  IsDistinct, arith, inl, inr, if◌then◌else◌, ◌==◌, ==_iff, Bool-cases,
}
use ariesmesh.Identity.Keys.{fetch}
use ariesmesh.Identity.Keys.Gf256.{Byte, byte_path, gf256}
use ariesmesh.Identity.Shamir.{calls, horner}
use ariesmesh.Identity.Shamir.Interpolation.{eval}
use ariesmesh.Identity.Shamir.Split.{IsBytes, bytes_of, horner_lem}
use ariesmesh.Identity.Shamir.Recover.{vals, zero_byte}
use ariesmesh.Identity.Shamir.Through.{through, eval-zero}

pub fetch-below : (xs : List ℕ) (i : ℕ) → IsBytes xs → fetch i xs < 256
unfolding fetch
fetch-below [] i h = omega arith
fetch-below (x ∷ xs) zero (h, hs) = h
fetch-below (x ∷ xs) (suc i) (h, hs) = fetch-below xs i hs

pub vals-IsBytes : (ps : List Byte) → IsBytes (vals ps)
vals-IsBytes [] = tt
vals-IsBytes (p ∷ ps) = (p.1, vals-IsBytes ps)

-- The random bytes are any list of their number.
pub calls-fetch :
    (random : ℕ → ℕ) (xs : List ℕ) (j : ℕ)
    → ((i : ℕ) → random (j + i) ≡ fetch i xs)
    → calls random j (length xs) ≡ xs
unfolding calls fetch
calls-fetch random [] j h = refl
calls-fetch random (x ∷ xs) j h =
    let first : random j ≡ x = ap random (omega arith) ∙ h 0 in
    let later : (i : ℕ) → random (suc j + i) ≡ fetch i xs =
      λ i. ap random (omega arith) ∙ h (suc i) in
    λ t. first t ∷ calls-fetch random xs (suc j) later t

bytes_of-vals : (ps : List Byte) (h : IsBytes (vals ps)) → bytes_of (vals ps) h ≡ ps
bytes_of-vals [] h = refl
bytes_of-vals (p ∷ ps) (h, hs) = λ i. byte_path (p.0, h) p refl i ∷ bytes_of-vals ps hs i

horner-vals : (ds : List Byte) (x : Byte) → horner (vals ds) x.0 ≡ (eval gf256 ds x).0
horner-vals ds x =
    horner_lem (vals ds) (vals-IsBytes ds) x
    ∙ ap (λ es. (eval gf256 es x).0) (bytes_of-vals ds (vals-IsBytes ds))

-- The values of a polynomial, with another one at zero.
abbrev target : (cs : List ℕ) → IsBytes cs → Byte → Byte → Byte
target cs h c x = if x.0 == 0 then c else eval gf256 (bytes_of cs h) x

target_apart :
    (cs : List ℕ) (h : IsBytes cs) (c x : Byte)
    → x ≢ zero_byte
    → (target cs h c x).0 ≡ horner cs x.0
target_apart cs h c x n = elim (Bool-cases (x.0 == 0)) [
  | inl e ↦ absurd (n (byte_path x zero_byte ((==_iff x.0 0).0 e)))
  | inr e ↦ rw (e, if◌then◌else◌) (sym (horner_lem cs h x))
]

same_values :
    (cs : List ℕ) (h : IsBytes cs) (c : Byte) (ds ps : List Byte)
    → IsNew zero_byte ps
    → All (λ x. eval gf256 ds x ≡ target cs h c x) ps
    → All (λ (x : Byte). horner (vals ds) x.0 ≡ horner cs x.0) ps
same_values cs h c ds [] n e = tt
same_values cs h c ds (p ∷ ps) (n, ns) (e, es) = (
  horner-vals ds p ∙ ap (λ (t : Byte). t.0) e ∙ target_apart cs h c p n,
  same_values cs h c ds ps ns es,
)

abbrev pub Agreeing : List ℕ → Byte → List Byte → Type 0
Agreeing cs c ps =
    (ds : List Byte) × (length (c ∷ ds) ≡ length cs)
    × All (λ (x : Byte). horner (vals (c ∷ ds)) x.0 ≡ horner cs x.0) ps

starting :
    (cs : List ℕ) (h : IsBytes cs) (c : Byte) (ps es : List Byte)
    → IsNew zero_byte ps
    → 1 ≤ length es
    → length es ≡ length cs
    → eval gf256 es zero_byte ≡ c
    → All (λ x. eval gf256 es x ≡ target cs h c x) ps
    → Agreeing cs c ps
starting cs h c ps [] n low k e a = absurd (omega (arith, low))
starting cs h c ps (d ∷ ds) n low k e a =
    let first : d ≡ c = sym (eval-zero gf256 (d ∷ ds)) ∙ e in
    (
      ds,
      k,
      same_values cs h c (c ∷ ds) ps n
          (subst (λ t. All (λ x. eval gf256 (t ∷ ds) x ≡ target cs h c x) ps) first a),
    )

-- A polynomial with another constant coefficient that has the same values at few points.
pub agreeing :
    (cs : List ℕ) (h : IsBytes cs) (c : Byte) (ps : List Byte)
    → IsNew zero_byte ps
    → IsDistinct ps
    → length ps < length cs
    → Agreeing cs c ps
agreeing cs h c ps n d few =
    let (es, k, (e, a)) =
      through gf256 (target cs h c) (zero_byte ∷ ps) (length cs - suc (length ps)) (n, d) in
    starting cs h c ps es n (omega (arith, k)) (omega (arith, k, few)) e a
