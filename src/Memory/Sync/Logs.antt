-- ===== src/Memory/Sync/Logs.antt =====
-- The logs of `compute_diff`.
use ariesmesh.Prelude.{
  ℕ, ◌≤◌, ◌≡◌, refl, ◌∙◌, ap, String, none, List, [], ◌∷◌, arith, length, eq_iff, eq_refl,
}
use ariesmesh.Memory.Log.{LogEntry}
use ariesmesh.Memory.Store.{Store, lookup}
use ariesmesh.Memory.Store.Registers.{Unique}
use ariesmesh.Memory.Sync.{or_zero, log_lengths, log_diff, get_sync_state, compute_diff}

module _ {P : Type 0} where
  abbrev pub Covered : List (String × ℕ) → List (String × List (LogEntry P)) → Type 0
  Covered lens [] = Unit
  Covered lens ((k, l) ∷ m) = (length l ≤ or_zero (lookup k lens)) × Covered lens m

  log_diff-Covered :
      (lens : List (String × ℕ)) (m : List (String × List (LogEntry P)))
      → Covered lens m
      → log_diff lens m ≡ []
  unfolding log_diff
  log_diff-Covered lens [] c = refl
  log_diff-Covered lens ((k, l) ∷ m) c = ground (arith, c.0, log_diff-Covered lens m c.1)

  -- A key in front that the dictionary lacks covers no less.
  Covered-cons :
      (j : String) (n : ℕ) (lens : List (String × ℕ)) (m : List (String × List (LogEntry P)))
      → lookup j m ≡ none
      → Covered lens m
      → Covered ((j, n) ∷ lens) m
  unfolding lookup
  Covered-cons j n lens [] h c = tt
  Covered-cons j n lens ((k, l) ∷ m) h c = (
    ground (arith, c.0, eq_iff j k, eq_refl k),
    Covered-cons j n lens m (ground (arith, eq_iff j k, eq_refl k)) c.1,
  )

  log_lengths-Covered :
      (m : List (String × List (LogEntry P))) → Unique m → Covered (log_lengths m) m
  unfolding log_lengths lookup
  log_lengths-Covered [] u = tt
  log_lengths-Covered ((k, l) ∷ m) u = (
    ground (arith, eq_refl k),
    Covered-cons k (length l) (log_lengths m) m u.0 (log_lengths-Covered m u.1),
  )

module _ {V P : Type 0} where
  -- A replica that has each log once sends no log record to one whose logs have the same keys and
  -- lengths in the same order, whatever the records are.
  pub equal_lengths_silent :
      (now : ℕ) (s t : Store V P)
      → Unique s.logs
      → log_lengths t.logs ≡ log_lengths s.logs
      → (compute_diff now (get_sync_state now t) s).logs ≡ []
  equal_lengths_silent now s t u same =
      ap (λ lens. log_diff lens s.logs) same
      ∙ log_diff-Covered (log_lengths s.logs) s.logs (log_lengths-Covered s.logs u)
