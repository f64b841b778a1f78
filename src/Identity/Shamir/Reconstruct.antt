-- ===== src/Identity/Shamir/Reconstruct.antt =====
-- `shamir_reconstruct` of shares that `shamir_split` made.
use ariesmesh.Prelude.{
  ◌≡◌, refl, sym, ap, ◌∙◌, ◌-◌, ◌<◌, ◌≤◌, ℕ, suc, some, List, [], ◌∷◌, map, length, All, In, IsNew,
  IsDistinct, arith, true, false, inl, inr, Bool-cases, any, ltb, ◌==◌, ==_iff, if◌then◌else◌,
  length-map,
}
use ariesmesh.Identity.Keys.{fetch}
use ariesmesh.Identity.Keys.Gf256.{Byte, byte_path}
use ariesmesh.Identity.Shamir.{
  done, failed, too_few_shares, duplicate_points, unequal_lengths, shamir_split, shamir_reconstruct,
  reconstruct_at, heads, has_duplicates, recover, or_division,
}
use ariesmesh.Identity.Shamir.Split.{
  IsBytes, indexed, indexed-In, share_of, length-values, shamir_split-done,
}
use ariesmesh.Identity.Shamir.Recover.{vals, recover-values}

module _ (share : ℕ → List ℕ) where
  abbrev pub at_points : List Byte → List (List ℕ)
  at_points ps = map (λ (p : Byte). share p.0) ps

  points-IsNew : (p : Byte) (ps : List Byte) → IsNew (share p.0) (at_points ps) → IsNew p ps
  points-IsNew p [] h = tt
  points-IsNew p (q ∷ ps) (n, h) = (λ e. n (ap (λ (t : Byte). share t.0) e), points-IsNew p ps h)

  -- Shares that differ are those of points that differ.
  pub points_of :
      (n : ℕ) (picked : List (List ℕ))
      → n ≤ 255
      → All (λ s. In s (indexed share 0 n)) picked
      → IsDistinct picked
      → (ps : List Byte) × (picked ≡ at_points ps)
        × IsDistinct ps
        × All (λ (p : Byte). (1 ≤ p.0) × (p.0 ≤ n)) ps
  points_of n [] k h d = ([], refl, tt, tt)
  points_of n (s ∷ picked) k (m, h) (new, d) =
      let (ps, e, dps, a) = points_of n picked k h d in
      let (x, es, low, high) = indexed-In share 0 n s m in
      let p : Byte = (x, omega (arith, high, k)) in
      (
        p ∷ ps,
        λ i. es i ∷ e i,
        (points-IsNew p ps (rw (e, es) at new), dps),
        ((low, omega (arith, high)), a),
      )

  pub lengths_equal :
      (m : ℕ) (ps : List Byte)
      → ((x : ℕ) → length (share x) ≡ m)
      → any (λ s. if length s == m then false else true) (at_points ps) ≡ false
  lengths_equal m [] h = refl
  lengths_equal m (p ∷ ps) h = rw ((==_iff (length (share p.0)) m).1 (h p.0)) (lengths_equal m ps h)

new_head : (p : Byte) (ps : List Byte) → IsNew p ps → any (λ y. y == p.0) (vals ps) ≡ false
new_head p [] h = refl
new_head p (q ∷ ps) (n, h) = elim (Bool-cases (q.0 == p.0)) [
  | inl e ↦ absurd (n (byte_path q p ((==_iff q.0 p.0).0 e)))
  | inr e ↦ rw e (new_head p ps h)
]

distinct_heads : (ps : List Byte) → IsDistinct ps → has_duplicates (vals ps) ≡ false
unfolding has_duplicates
distinct_heads [] d = refl
distinct_heads (p ∷ ps) (n, d) = rw (new_head p ps n, distinct_heads ps d) refl

module _ (random : ℕ → ℕ → ℕ) (k : ℕ) (secret : List ℕ) where
  abbrev share : ℕ → List ℕ
  share = share_of random k secret

  heads-points : (ps : List Byte) → heads (at_points share ps) ≡ some (vals ps)
  unfolding heads
  heads-points [] = refl
  heads-points (p ∷ ps) = rw (heads, heads-points ps) refl

  length-share : (x : ℕ) → length (share x) ≡ suc (length secret)
  length-share x = ap suc (length-values random k 0 secret x)

  reconstruct-points :
      (ps : List Byte)
      → ((pos j : ℕ) → random pos j < 256)
      → IsBytes secret
      → IsDistinct ps
      → 2 ≤ k
      → k ≤ length ps
      → shamir_reconstruct (at_points share ps) ≡ done secret
  unfolding shamir_reconstruct reconstruct_at fetch
  reconstruct-points [] r h d two enough = absurd (omega (arith, two, enough))
  reconstruct-points (p ∷ ps) r h d two enough =
      let shares = at_points share (p ∷ ps) in
      let many : ltb (length shares) 2 ≡ false =
        ground (arith, length-map (λ (p : Byte). share p.0) (p ∷ ps), two, enough) in
      let same : any (λ s. if length s == length (share p.0) then false else true)
            (at_points share ps)
          ≡ false =
        lengths_equal share (length (share p.0)) ps
          (λ x. length-share x ∙ sym (length-share p.0)) in
      let first : length (share p.0) - 1 ≡ length secret = omega (arith, length-share p.0) in
      (λ i.
        if many i then failed too_few_shares else reconstruct_at (heads-points (p ∷ ps) i) shares)
      ∙ (λ i.
          if distinct_heads (p ∷ ps) d i
          then failed duplicate_points
          else if same i
          then failed unequal_lengths
          else or_division (recover (vals (p ∷ ps)) shares 0 (first i)))
      ∙ ap or_division (
          recover-values share random k secret 0 (p ∷ ps) r h d (omega (arith, two)) enough
            (λ j x. ap (λ n. fetch (suc n) (share x)) (omega arith)))

-- Shares that `shamir_split` made of a secret give it back, in any order and whatever the random bytes, if
-- they are at least as many as the threshold and none of them is there twice. The secret and the random
-- numbers have to be bytes.
pub shamir_reconstruct-shamir_split :
    (random : ℕ → ℕ → ℕ) (secret : List ℕ) (n k : ℕ) (shares picked : List (List ℕ))
    → ((pos j : ℕ) → random pos j < 256)
    → IsBytes secret
    → shamir_split random secret n k ≡ done shares
    → All (λ s. In s shares) picked
    → IsDistinct picked
    → k ≤ length picked
    → shamir_reconstruct picked ≡ done secret
shamir_reconstruct-shamir_split random secret n k shares picked r h split members d enough =
    let (e, two, low, high) = shamir_split-done random k secret n shares split in
    let (ps, es, dps, a) = points_of (share_of random k secret) n picked high (rw e at members) d in
    ap shamir_reconstruct es
    ∙ reconstruct-points random k secret ps r h dps two (
        omega
          (arith, enough, ap length es, length-map (λ (p : Byte). share_of random k secret p.0) ps))
