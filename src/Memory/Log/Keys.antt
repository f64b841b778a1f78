-- ===== src/Memory/Log/Keys.antt =====
-- Which records a merged log has.
use mathlib.Core.List.{◌++◌}
use ariesmesh.Prelude.{
  ℕ, ◌≡◌, refl, sym, ap, ◌∙◌, ◌↔◌, Bool, true, false, ◌||◌, Option, none, some, List, [], ◌∷◌,
  arith, eq_iff, eq_refl, ==_iff, Bool-cases, inl, inr, if◌then◌else◌, leb,
}
use ariesmesh.Memory.Log.{
  LogEntry, same_seq, same_key, has_key, absorb, insert_sorted, sort_by_ts, merge,
}

same_seq_iff : (a b : Option ℕ) → (same_seq a b ≡ true) ↔ (a ≡ b)
same_seq_iff none none = (λ _. refl, λ _. refl)
same_seq_iff none (some n) = (λ h. cc, λ h. cc)
same_seq_iff (some m) none = (λ h. cc, λ h. cc)
same_seq_iff (some m) (some n) =
    (λ h. λ i. some ((==_iff m n).0 h i), λ h. ground (arith, ==_iff m n))

or_false : (b : Bool) → (b || false) ≡ b
or_false b = ground arith

or_one : (a b c : Bool) → ((a || (c || false)) || b) ≡ (a || (c || b))
or_one a b c = ground arith

module _ {P : Type 0} where
  pub same_key_self : (a : LogEntry P) → same_key a a ≡ true
  unfolding same_key
  same_key_self a = ground (arith, eq_refl a.device, same_seq_iff a.seq a.seq)

  same_key_symm : (a b : LogEntry P) → same_key a b ≡ same_key b a
  unfolding same_key
  same_key_symm a b = ground (
    arith,
    eq_iff a.device b.device,
    eq_iff b.device a.device,
    same_seq_iff a.seq b.seq,
    same_seq_iff b.seq a.seq,
  )

  -- Records with one key are found in the same places.
  has_key_same :
      (a b : LogEntry P) (l : List (LogEntry P)) → same_key a b ≡ true → has_key a l ≡ has_key b l
  unfolding has_key same_key
  has_key_same a b [] h = refl
  has_key_same a b (x ∷ l) h =
      ground (arith, eq_iff a.device b.device, same_seq_iff a.seq b.seq, has_key_same a b l h)

  has_key-append :
      (e : LogEntry P) (l m : List (LogEntry P)) → has_key e (l ++ m) ≡ has_key e l || has_key e m
  unfolding has_key
  has_key-append e [] m = refl
  has_key-append e (x ∷ l) m = ground (arith, has_key-append e l m)

  has_key-add :
      (e r : LogEntry P) (l : List (LogEntry P))
      → has_key e (if has_key r l then l else l ++ (r ∷ [])) ≡ has_key e l || has_key e (r ∷ [])
  unfolding has_key
  has_key-add e r l = ground (arith, has_key_same r e l, has_key-append e l (r ∷ []))

  has_key-absorb :
      (e : LogEntry P) (l rs : List (LogEntry P))
      → has_key e (absorb l rs) ≡ has_key e l || has_key e rs
  unfolding absorb has_key
  has_key-absorb e l [] = sym (or_false (has_key e l))
  has_key-absorb e l (r ∷ rs) =
      has_key-absorb e (if has_key r l then l else l ++ (r ∷ [])) rs
      ∙ (ap (λ b. b || has_key e rs) (has_key-add e r l)
          ∙ or_one (has_key e l) (has_key e rs) (same_key r e))

  has_key-insert_sorted :
      (e x : LogEntry P) (l : List (LogEntry P)) → has_key e (insert_sorted x l) ≡ has_key e (x ∷ l)
  unfolding insert_sorted has_key
  has_key-insert_sorted e x [] = refl
  has_key-insert_sorted e x (y ∷ l) = ground (arith, has_key-insert_sorted e x l)

  has_key-sort_by_ts :
      (e : LogEntry P) (l : List (LogEntry P)) → has_key e (sort_by_ts l) ≡ has_key e l
  unfolding sort_by_ts has_key
  has_key-sort_by_ts e [] = refl
  has_key-sort_by_ts e (x ∷ l) =
      ground (arith, has_key-insert_sorted e x (sort_by_ts l), has_key-sort_by_ts e l)

  -- The merged log has the keys of both logs, and no other.
  pub has_key-merge :
      (e : LogEntry P) (l remote : List (LogEntry P))
      → has_key e (merge l remote) ≡ has_key e l || has_key e remote
  unfolding merge
  has_key-merge e l remote = has_key-sort_by_ts e (absorb l remote) ∙ has_key-absorb e l remote

  -- No two records of the log have one key.
  abbrev pub Distinct : List (LogEntry P) → Type 0
  Distinct [] = Unit
  Distinct (x ∷ l) = (has_key x l ≡ false) × Distinct l

  Distinct-snoc :
      (l : List (LogEntry P)) (r : LogEntry P)
      → has_key r l ≡ false
      → Distinct l
      → Distinct (l ++ (r ∷ []))
  unfolding has_key
  Distinct-snoc [] r h d = (refl, tt)
  Distinct-snoc (x ∷ l) r h d = (
    ground (arith, has_key-append x l (r ∷ []), same_key_symm r x, d.0),
    Distinct-snoc l r (ground arith) d.1,
  )

  Distinct-absorb : (l rs : List (LogEntry P)) → Distinct l → Distinct (absorb l rs)
  unfolding absorb
  Distinct-absorb l [] d = d
  Distinct-absorb l (r ∷ rs) d = elim (Bool-cases (has_key r l)) [
    | inl old ↦ rw old (Distinct-absorb l rs d)
    | inr new ↦ rw new (Distinct-absorb (l ++ (r ∷ [])) rs (Distinct-snoc l r new d))
  ]

  Distinct-insert_sorted :
      (x : LogEntry P) (l : List (LogEntry P))
      → has_key x l ≡ false
      → Distinct l
      → Distinct (insert_sorted x l)
  unfolding insert_sorted has_key
  Distinct-insert_sorted x [] h d = (h, tt)
  Distinct-insert_sorted x (y ∷ l) h d = elim (Bool-cases (leb x.ts y.ts)) [
    | inl e ↦ rw e (h, d)
    | inr e ↦ rw e (
      ground (arith, has_key-insert_sorted y x l, same_key_symm x y, d.0),
      Distinct-insert_sorted x l (ground arith) d.1,
    )
  ]

  Distinct-sort_by_ts : (l : List (LogEntry P)) → Distinct l → Distinct (sort_by_ts l)
  unfolding sort_by_ts
  Distinct-sort_by_ts [] d = tt
  Distinct-sort_by_ts (x ∷ l) d =
      Distinct-insert_sorted x (sort_by_ts l) (has_key-sort_by_ts x l ∙ d.0)
        (Distinct-sort_by_ts l d.1)

  -- If no two records of a log have one key, then none of the merged log have, whatever the remote
  -- records are.
  pub merge-Distinct : (l remote : List (LogEntry P)) → Distinct l → Distinct (merge l remote)
  unfolding merge
  merge-Distinct l remote d = Distinct-sort_by_ts (absorb l remote) (Distinct-absorb l remote d)
