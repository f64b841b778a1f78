-- ===== src/Memory/Service/Exchange.antt =====
-- What one difference changes at a key.
use ariesmesh.Prelude.{
  ℕ, ◌≡◌, refl, ◌∙◌, ap, String, not, ◌&&◌, Option, none, some, List, [], ◌∷◌, arith, eq_iff,
  eq_refl, if◌then◌else◌,
}
use ariesmesh.Dict.{lookup}
use ariesmesh.Memory.Key.{normalize_key}
use ariesmesh.Memory.Entry.{Entry, is_expired}
use ariesmesh.Memory.Store.{Store}
use ariesmesh.Memory.Store.Registers.{Unique, join}
use ariesmesh.Memory.Store.Converge.{winner, lookup-deliver}
use ariesmesh.Memory.Sync.{
  Stamp, stamp_of, stamps, is_news, register_diff, get_sync_state, compute_diff, deliver,
  apply_diff,
}
use ariesmesh.Memory.Sync.Registers.{registers-deliver_logs}
use ariesmesh.Memory.Valid.{Canonical}

module _ {V : Type 0} where
  -- The stamp that a replica sends of its entry.
  abbrev pub told : ℕ → Option (Entry V) → Option Stamp
  told now none = none
  told now (some e) = if is_expired now e then none else some (stamp_of e)

  pub lookup-stamps-Unique :
      (now : ℕ) (k : String) (m : List (String × Entry V))
      → Unique m
      → lookup k (stamps now m) ≡ told now (lookup k m)
  unfolding lookup stamps
  lookup-stamps-Unique now k [] u = refl
  lookup-stamps-Unique now k ((j, e) ∷ m) u =
      ground (arith, lookup-stamps-Unique now k m u.1, u.0, eq_iff j k)

  -- The receiver's entry, after the sender's was sent, or not.
  abbrev pub sent : ℕ → Option Stamp → Option (Entry V) → Option (Entry V) → Option (Entry V)
  sent now r acc none = acc
  sent now r acc (some e) = if not (is_expired now e) && is_news r e then some (join acc e) else acc

  Canonical-head :
      (k : String) (e : Entry V) (m : List (String × Entry V))
      → Canonical ((k, e) ∷ m)
      → normalize_key k ≡ k
  unfolding lookup
  Canonical-head k e m c = c k e (ground (arith, eq_refl k))

  Canonical-tail :
      (k : String) (e : Entry V) (m : List (String × Entry V))
      → lookup k m ≡ none
      → Canonical ((k, e) ∷ m)
      → Canonical m
  unfolding lookup
  Canonical-tail k e m fresh c j v found = c j v (ground (arith, eq_iff k j))

  winner_absent :
      (now : ℕ) (j : String) (remote : List (String × Stamp)) (acc : Option (Entry V))
      → (m : List (String × Entry V)) → Canonical m
      → Unique m
      → lookup j m ≡ none
      → winner j acc (register_diff now remote m) ≡ acc
  unfolding lookup winner register_diff
  winner_absent now j remote acc [] c u h = refl
  winner_absent now j remote acc ((k, e) ∷ m) c u h = ground (
    arith,
    winner_absent now j remote acc m (Canonical-tail k e m u.0 c) u.1,
    Canonical-head k e m c,
    eq_iff k j,
  )

  winner-register_diff :
      (now : ℕ) (j : String) (remote : List (String × Stamp)) (acc : Option (Entry V))
      → (m : List (String × Entry V)) → Canonical m
      → Unique m
      → winner j acc (register_diff now remote m) ≡ sent now (lookup j remote) acc (lookup j m)
  unfolding lookup winner register_diff
  winner-register_diff now j remote acc [] c u = refl
  winner-register_diff now j remote acc ((k, e) ∷ m) c u =
      let tail = Canonical-tail k e m u.0 c in
      ground (
        arith,
        winner-register_diff now j remote acc m tail u.1,
        winner_absent now j remote (some (join acc e)) m tail u.1,
        Canonical-head k e m c,
        eq_iff k j,
        u.0,
      )

module _ {V P : Type 0} where
  -- At every key the receiver has what `sent` says.
  pub lookup-exchange :
      (now : ℕ) (s t : Store V P) (k : String)
      → Canonical s.registers
      → Unique s.registers
      → Unique t.registers
      → lookup k (apply_diff (compute_diff now (get_sync_state now t) s) t).registers
        ≡ sent now (told now (lookup k t.registers)) (lookup k t.registers) (lookup k s.registers)
  lookup-exchange now s t k c u v =
      let diff = register_diff now (stamps now t.registers) s.registers in
      ap (lookup k) (registers-deliver_logs (deliver t diff) _)
      ∙ (lookup-deliver k diff t
          ∙ (winner-register_diff now k (stamps now t.registers) (lookup k t.registers) s.registers
                c u
              ∙ ap (λ r. sent now r (lookup k t.registers) (lookup k s.registers))
                  (lookup-stamps-Unique now k t.registers v)))
