-- ===== src/Identity/Shamir/Secrecy.antt =====
-- Fewer shares than the threshold of `shamir_split` are shares of other secrets too.
use mathlib.Core.Path.{subst, subst⁻¹}
use ariesmesh.Prelude.{
  ◌≡◌, refl, ap, ◌∙◌, ◌+◌, ◌-◌, ◌<◌, ◌≤◌, ℕ, suc, List, [], ◌∷◌, length, All, In, IsNew, IsDistinct,
  arith, length-map,
}
use ariesmesh.Identity.Keys.{fetch}
use ariesmesh.Identity.Keys.Gf256.{Byte}
use ariesmesh.Identity.Shamir.{done, shamir_split, calls, horner}
use ariesmesh.Identity.Shamir.Split.{
  IsBytes, indexed, In-indexed, shamir_split-indexed, coefficients, length-coefficients, values,
  share_of, calls-IsBytes, shamir_split-done,
}
use ariesmesh.Identity.Shamir.Recover.{vals, zero_byte}
use ariesmesh.Identity.Shamir.Reconstruct.{at_points, points_of}
use ariesmesh.Identity.Shamir.Agree.{fetch-below, vals-IsBytes, calls-fetch, agreeing, Agreeing}

-- Shares of two secrets are the same at a point where all their polynomials are.
values_same :
    (random random' : ℕ → ℕ → ℕ) (k pos x : ℕ) (secret other : List ℕ)
    → length other ≡ length secret
    → ((j : ℕ)
        → horner (coefficients random' k (pos + j) (fetch j other)) x
          ≡ horner (coefficients random k (pos + j) (fetch j secret)) x)
    → values random' k pos other x ≡ values random k pos secret x
unfolding values fetch
values_same random random' k pos x [] [] e h = refl
values_same random random' k pos x [] (o ∷ other) e h = cc
values_same random random' k pos x (s ∷ secret) [] e h = cc
values_same random random' k pos x (s ∷ secret) (o ∷ other) e h =
    let here : pos + 0 ≡ pos = omega arith in
    let next : (j : ℕ) → pos + suc j ≡ suc pos + j = λ j. omega arith in
    let first : horner (coefficients random' k pos o) x ≡ horner (coefficients random k pos s) x =
      subst (λ n. horner (coefficients random' k n o) x ≡ horner (coefficients random k n s) x) here
        (h 0) in
    let later : (j : ℕ)
        → horner (coefficients random' k (suc pos + j) (fetch j other)) x
          ≡ horner (coefficients random k (suc pos + j) (fetch j secret)) x =
      λ j.
        subst
          (λ n.
            horner (coefficients random' k n (fetch j other)) x
            ≡ horner (coefficients random k n (fetch j secret)) x)
          (next j) (h (suc j)) in
    λ i. first i ∷ values_same random random' k (suc pos) x secret other (omega (arith, e)) later i

-- The random bytes of the other polynomial.
module _ (random : ℕ → ℕ → ℕ) (k : ℕ) (secret other : List ℕ) (ps : List Byte)
    (random_below : (pos j : ℕ) → random pos j < 256) (secret_below : IsBytes secret)
    (other_below : IsBytes other) (new : IsNew zero_byte ps) (distinct : IsDistinct ps)
    (few : length ps < k) where
  other_byte : ℕ → Byte
  other_byte pos = (fetch pos other, fetch-below other pos other_below)

  chosen : (pos : ℕ) → Agreeing (coefficients random k pos (fetch pos secret)) (other_byte pos) ps
  chosen pos =
      agreeing (coefficients random k pos (fetch pos secret))
        (
          fetch-below secret pos secret_below,
          calls-IsBytes (random pos) 0 (k - 1) (random_below pos),
        )
        (other_byte pos) ps new distinct
        (omega
          (arith, few, length-coefficients random k pos (fetch pos secret) (omega (arith, few))))

  other_random : ℕ → ℕ → ℕ
  other_random pos j = fetch j (vals (chosen pos).0)

  other_random_below : (pos j : ℕ) → other_random pos j < 256
  unfolding other_random
  other_random_below pos j = fetch-below (vals (chosen pos).0) j (vals-IsBytes (chosen pos).0)

  other_coefficients :
      (pos : ℕ)
      → coefficients other_random k pos (fetch pos other) ≡ vals (other_byte pos ∷ (chosen pos).0)
  unfolding other_random other_byte fetch
  other_coefficients pos =
      let (ds, e, h) = chosen pos in
      let count : k - 1 ≡ length (vals ds) = omega (
        arith,
        e,
        length-map (λ (d : Byte). d.0) ds,
        few,
        length-coefficients random k pos (fetch pos secret) (omega (arith, few)),
      ) in
      ap (λ (rest : List ℕ). fetch pos other ∷ rest)
        (ap (calls (other_random pos) 0) count
          ∙ calls-fetch (other_random pos) (vals ds) 0
              (λ i. ap (λ n. fetch n (vals ds)) (omega arith)))

  polynomials_same :
      (pos : ℕ)
      → All
          (λ (x : Byte).
            horner (coefficients other_random k pos (fetch pos other)) x.0
            ≡ horner (coefficients random k pos (fetch pos secret)) x.0)
          ps
  polynomials_same pos = rw (other_coefficients pos) (chosen pos).2

  shares_same :
      (qs : List Byte)
      → length other ≡ length secret
      → ((pos : ℕ)
          → All
              (λ (x : Byte).
                horner (coefficients other_random k pos (fetch pos other)) x.0
                ≡ horner (coefficients random k pos (fetch pos secret)) x.0)
              qs)
      → All (λ (x : Byte). share_of other_random k other x.0 ≡ share_of random k secret x.0) qs
  shares_same [] e h = tt
  shares_same (q ∷ qs) e h = (
    ap (λ rest. q.0 ∷ rest)
        (values_same random other_random k 0 q.0 secret other e (λ j.
          subst
            (λ n.
              horner (coefficients other_random k n (fetch j other)) q.0
              ≡ horner (coefficients random k n (fetch j secret)) q.0)
            (omega arith) (h j).0)),
    shares_same qs e (λ pos. (h pos).1),
  )

points-apart :
    (n : ℕ) (ps : List Byte) → All (λ (p : Byte). (1 ≤ p.0) × (p.0 ≤ n)) ps → IsNew zero_byte ps
points-apart n [] h = tt
points-apart n (p ∷ ps) ((low, high), h) =
    (λ e. omega (arith, low, ap (λ (t : Byte). t.0) e), points-apart n ps h)

-- Shares that are the same at points of both lists are in the second.
shares-In :
    (share share' : ℕ → List ℕ) (n : ℕ) (ps : List Byte)
    → All (λ (p : Byte). (1 ≤ p.0) × (p.0 ≤ n)) ps
    → All (λ (p : Byte). share' p.0 ≡ share p.0) ps
    → All (λ s. In s (indexed share' 0 n)) (at_points share ps)
shares-In share share' n [] h e = tt
shares-In share share' n (p ∷ ps) ((low, high), h) (e, es) = (
  subst (λ s. In s (indexed share' 0 n)) e (In-indexed share' 0 n p.0 low (omega (arith, high))),
  shares-In share share' n ps h es,
)

-- Fewer shares than the threshold, none of them twice, rule out no secret of the length: for every other
-- one there are random bytes with which the split of it has the same shares among its own. The secrets and
-- the random numbers are bytes.
pub shamir_split_secret :
    (random : ℕ → ℕ → ℕ) (secret other : List ℕ) (n k : ℕ) (shares picked : List (List ℕ))
    → ((pos j : ℕ) → random pos j < 256)
    → IsBytes secret
    → IsBytes other
    → length other ≡ length secret
    → shamir_split random secret n k ≡ done shares
    → All (λ s. In s shares) picked
    → IsDistinct picked
    → length picked < k
    → (random' : ℕ → ℕ → ℕ) × (shares' : List (List ℕ)) × ((pos j : ℕ) → random' pos j < 256)
      × (shamir_split random' other n k ≡ done shares')
      × All (λ s. In s shares') picked
shamir_split_secret random secret other n k shares picked r h h' e split members d few =
    let (es, two, low, high) = shamir_split-done random k secret n shares split in
    let (ps, eps, dps, inside) =
      points_of (share_of random k secret) n picked high (rw es at members) d in
    let new = points-apart n ps inside in
    let fewer : length ps < k =
      omega
        (arith, few, ap length eps, length-map (λ (p : Byte). share_of random k secret p.0) ps) in
    let random' = other_random random k secret other ps r h h' new dps fewer in
    (
      random',
      indexed (share_of random' k other) 0 n,
      other_random_below random k secret other ps r h h' new dps fewer,
      shamir_split-indexed random' k other n two low high,
      subst⁻¹ (λ l. All (λ s. In s (indexed (share_of random' k other) 0 n)) l) eps
          (shares-In (share_of random k secret) (share_of random' k other) n ps inside (
            shares_same random k secret other ps r h h' new dps fewer ps e
              (polynomials_same random k secret other ps r h h' new dps fewer))),
    )
