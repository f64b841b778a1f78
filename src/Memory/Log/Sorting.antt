-- ===== src/Memory/Log/Sorting.antt =====
-- The order of a merged log, and merging twice.
use ariesmesh.Prelude.{
  ◌≤◌, ◌≡◌, refl, true, List, [], ◌∷◌, arith, All, Bool-cases, inl, inr, leb, leb→le,
}
use ariesmesh.Memory.Log.{LogEntry, has_key, absorb, insert_sorted, sort_by_ts, merge}
use ariesmesh.Memory.Log.Keys.{has_key-merge, same_key_self}

module _ {P : Type 0} where
  abbrev pub NotBefore : LogEntry P → LogEntry P → Type 0
  NotBefore e x = e.ts ≤ x.ts

  abbrev pub IsSorted : List (LogEntry P) → Type 0
  IsSorted [] = Unit
  IsSorted (x ∷ l) = All (NotBefore x) l × IsSorted l

  All-mono :
      (a b : LogEntry P) (l : List (LogEntry P))
      → a.ts ≤ b.ts
      → All (NotBefore b) l
      → All (NotBefore a) l
  All-mono a b [] h k = tt
  All-mono a b (x ∷ l) h k = (omega (arith, k.0), All-mono a b l h k.1)

  All-insert_sorted :
      (a e : LogEntry P) (l : List (LogEntry P))
      → a.ts ≤ e.ts
      → All (NotBefore a) l
      → All (NotBefore a) (insert_sorted e l)
  unfolding insert_sorted
  All-insert_sorted a e [] h k = (h, tt)
  All-insert_sorted a e (x ∷ l) h k = elim (Bool-cases (leb e.ts x.ts)) [
    | inl t ↦ rw t (h, k)
    | inr f ↦ rw f (k.0, All-insert_sorted a e l h k.1)
  ]

  insert_sorted-IsSorted :
      (e : LogEntry P) (l : List (LogEntry P)) → IsSorted l → IsSorted (insert_sorted e l)
  unfolding insert_sorted
  insert_sorted-IsSorted e [] s = (tt, tt)
  insert_sorted-IsSorted e (x ∷ l) s = elim (Bool-cases (leb e.ts x.ts)) [
    | inl t ↦ let h : e.ts ≤ x.ts = leb→le e.ts x.ts t in rw t ((h, All-mono e x l h s.0), s)
    | inr f ↦ rw f (All-insert_sorted x e l (ground arith) s.0, insert_sorted-IsSorted e l s.1)
  ]

  sort_by_ts-IsSorted : (l : List (LogEntry P)) → IsSorted (sort_by_ts l)
  unfolding sort_by_ts
  sort_by_ts-IsSorted [] = tt
  sort_by_ts-IsSorted (e ∷ l) = insert_sorted-IsSorted e (sort_by_ts l) (sort_by_ts-IsSorted l)

  -- A merged log is in the order of time.
  pub merge-IsSorted : (l remote : List (LogEntry P)) → IsSorted (merge l remote)
  unfolding merge
  merge-IsSorted l remote = sort_by_ts-IsSorted (absorb l remote)

  insert_sorted_first :
      (e : LogEntry P) (l : List (LogEntry P)) → All (NotBefore e) l → insert_sorted e l ≡ e ∷ l
  unfolding insert_sorted
  insert_sorted_first e [] h = refl
  insert_sorted_first e (x ∷ l) h = ground (arith, h.0)

  sort_by_ts_sorted : (l : List (LogEntry P)) → IsSorted l → sort_by_ts l ≡ l
  unfolding sort_by_ts
  sort_by_ts_sorted [] s = refl
  sort_by_ts_sorted (e ∷ l) s = rw (sort_by_ts_sorted l s.1) (insert_sorted_first e l s.0)

  abbrev pub Known : List (LogEntry P) → List (LogEntry P) → Type 0
  Known l rs = All (λ r. has_key r l ≡ true) rs

  absorb-Known : (l rs : List (LogEntry P)) → Known l rs → absorb l rs ≡ l
  unfolding absorb
  absorb-Known l [] k = refl
  absorb-Known l (r ∷ rs) k = rw k.0 (absorb-Known l rs k.1)

  Known-merge :
      (l rs all : List (LogEntry P))
      → ((e : LogEntry P) → has_key e rs ≡ true → has_key e all ≡ true)
      → Known (merge l all) rs
  unfolding has_key
  Known-merge l [] all sub = tt
  Known-merge l (r ∷ rs) all sub = (
    ground (arith, has_key-merge r l all, sub r, same_key_self r),
    Known-merge l rs all (λ e h. sub e (ground arith)),
  )

  merge-Known : (l rs : List (LogEntry P)) → IsSorted l → Known l rs → merge l rs ≡ l
  unfolding merge
  merge-Known l rs s k = rw (absorb-Known l rs k) (sort_by_ts_sorted l s)

  -- Merging the same records a second time, as a repeated synchronisation does, changes nothing.
  pub merge_idem : (l remote : List (LogEntry P)) → merge (merge l remote) remote ≡ merge l remote
  merge_idem l remote =
      merge-Known (merge l remote) remote (merge-IsSorted l remote)
        (Known-merge l remote remote (λ e h. h))
