-- ===== src/Memory/Valid/Hashed.antt =====
-- The invariants of registers whose hashes `__post_init__` fills in.
use mathlib.Core.Path.{subst}
use ariesmesh.Prelude.{
  ◌≡◌, ◌≤◌, ℕ, sym, ◌∙◌, String, Option, some, List, str_eq, Bool-cases, Option-cases, inl, inr,
  if◌then◌else◌,
}
use ariesmesh.Dict.{lookup}
use ariesmesh.Memory.Entry.{Entry}
use ariesmesh.Memory.Store.Clock.{Behind}
use ariesmesh.Memory.Valid.{Canonical}
use ariesmesh.Memory.Persist.{with_hash}
use ariesmesh.Memory.Persist.Restored.{hashed, hash_in, lookup-hashed}

with_hash_below :
    {V : Type 0} (hash : Option V → String) (c : ℕ) (e : Entry V)
    → e.timestamp ≤ c
    → (with_hash hash e).timestamp ≤ c
with_hash_below hash c e h = elim (Bool-cases (str_eq e.content_hash "")) [
  | inl k ↦ rw (k, if◌then◌else◌) h
  | inr k ↦ rw (k, if◌then◌else◌) h
]

module _ {V : Type 0} (hash : Option V → String) where
  pub hashed-Behind : (c : ℕ) (l : List (String × Entry V)) → Behind c l → Behind c (hashed hash l)
  hashed-Behind c l b j x found =
      let found' : hash_in hash (lookup j l) ≡ some x = sym (lookup-hashed hash j l) ∙ found in
      elim (Option-cases (lookup j l)) [
        | inl n ↦ cc (rw n at found')
        | inr (e, k) ↦
            let same : some (with_hash hash e) ≡ some x = (rw k at found') in
            let equal : with_hash hash e ≡ x = cc in
            subst (λ (t : Entry V). t.timestamp ≤ c) equal (with_hash_below hash c e (b j e k))
      ]

  pub hashed-Canonical : (l : List (String × Entry V)) → Canonical l → Canonical (hashed hash l)
  hashed-Canonical l h j x found =
      let found' : hash_in hash (lookup j l) ≡ some x = sym (lookup-hashed hash j l) ∙ found in
      elim (Option-cases (lookup j l)) [ inl n ↦ cc (rw n at found') | inr (e, k) ↦ h j e k ]
