-- ===== src/Identity/Shamir/Tests.antt =====
-- The theorems on shared secrets at concrete inputs.
use ariesmesh.Prelude.{◌≡◌, refl, ℕ, ◌<◌, List, [], ◌∷◌, inl, inr, arith, All, In, length}
use ariesmesh.Identity.Shamir.{done, failed, duplicate_points, shamir_split, shamir_reconstruct}
use ariesmesh.Identity.Shamir.Reconstruct.{shamir_reconstruct-shamir_split}
use ariesmesh.Identity.Shamir.Split.{IsBytes}
use ariesmesh.Identity.Shamir.Shape.{shamir_split-IsShare}
use ariesmesh.Identity.Shamir.Secrecy.{shamir_split_secret}

abbrev random_bytes : ℕ → ℕ → ℕ
random_bytes pos j = 171

abbrev two_bytes : List ℕ
two_bytes = 42 ∷ 255 ∷ []

abbrev other_bytes : List ℕ
other_bytes = 0 ∷ 7 ∷ []

abbrev share_1 : List ℕ
share_1 = 1 ∷ 129 ∷ 84 ∷ []

abbrev share_2 : List ℕ
share_2 = 2 ∷ 103 ∷ 178 ∷ []

abbrev share_3 : List ℕ
share_3 = 3 ∷ 204 ∷ 25 ∷ []

split_runs : shamir_split random_bytes two_bytes 3 2 ≡ done (share_1 ∷ share_2 ∷ share_3 ∷ [])
unfolding shamir_split
split_runs = refl

twice_fails : shamir_reconstruct (share_1 ∷ share_1 ∷ []) ≡ failed duplicate_points
unfolding shamir_reconstruct
twice_fails = refl

shamir_reconstruct-shamir_split_example :
    shamir_reconstruct (share_3 ∷ share_1 ∷ []) ≡ done two_bytes
shamir_reconstruct-shamir_split_example =
    shamir_reconstruct-shamir_split random_bytes two_bytes 3 2 (share_1 ∷ share_2 ∷ share_3 ∷ [])
      (share_3 ∷ share_1 ∷ []) (λ pos j. omega arith) (omega arith, (omega arith, tt)) split_runs
      (inr (inr (inl refl)), (inl refl, tt)) ((λ e. cc, tt), (tt, tt)) (omega arith)

shamir_split_secret_example :
    (random' : ℕ → ℕ → ℕ) × (shares' : List (List ℕ)) × ((pos j : ℕ) → random' pos j < 256)
    × (shamir_split random' other_bytes 3 2 ≡ done shares')
    × All (λ s. In s shares') (share_2 ∷ [])
shamir_split_secret_example =
    shamir_split_secret random_bytes two_bytes other_bytes 3 2 (share_1 ∷ share_2 ∷ share_3 ∷ [])
      (share_2 ∷ []) (λ pos j. omega arith) (omega arith, (omega arith, tt))
      (omega arith, (omega arith, tt)) refl split_runs (inr (inl refl), tt) (tt, tt) (omega arith)

shamir_split-IsShare_example :
    All (λ s. IsBytes s × (length s ≡ 3)) (share_1 ∷ share_2 ∷ share_3 ∷ [])
shamir_split-IsShare_example =
    shamir_split-IsShare random_bytes two_bytes 3 2 (share_1 ∷ share_2 ∷ share_3 ∷ [])
      (λ pos j. omega arith) (omega arith, (omega arith, tt)) split_runs
