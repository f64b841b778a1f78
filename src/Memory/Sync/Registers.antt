-- ===== src/Memory/Sync/Registers.antt =====
-- The registers of `compute_diff` and `apply_diff`.
use ariesmesh.Prelude.{
  In, ℕ, ◌≤◌, ◌≡◌, refl, sym, ◌∙◌, ap, String, true, false, not, ◌&&◌, Option, none, some, List, [],
  ◌∷◌, arith, str_eq, eq_iff, Bool-cases, inl, inr, if◌then◌else◌,
}
use ariesmesh.Memory.Key.{normalize_key}
use ariesmesh.Memory.Entry.{Entry, is_expired, supersedes}
use ariesmesh.Memory.Log.{LogEntry}
use ariesmesh.Memory.Store.{Store, lookup, merge_log, save, notify}
use ariesmesh.Memory.Store.Registers.{Unique}
use ariesmesh.Memory.Store.Converge.{winner, winner-some, winner_ge, lookup-deliver}
use ariesmesh.Memory.Sync.{
  Stamp, stamp_of, stamps, is_news, register_diff, get_sync_state, compute_diff, deliver,
  deliver_logs, apply_diff,
}

module _ {V : Type 0} where
  -- A stamp that a replica sends is that of its register.
  lookup-stamps :
      (now : ℕ) (k : String) (m : List (String × Entry V)) (r : Stamp)
      → Unique m
      → lookup k (stamps now m) ≡ some r
      → (e : Entry V) × (lookup k m ≡ some e) × (some r ≡ some (stamp_of e))
  unfolding lookup stamps
  lookup-stamps now k [] r u h = cc
  lookup-stamps now k ((j, e) ∷ m) r u h = elim (Bool-cases (is_expired now e)) [
    | inl old ↦
        let (e', p, q) = lookup-stamps now k m r u.1 (rw (old, if◌then◌else◌) at h) in
        (e', ground (arith, eq_iff j k, u.0, p), q)
    | inr new ↦ elim (Bool-cases (str_eq j k)) [
      | inl hit ↦ rw hit (e, refl, sym (rw (new, hit, if◌then◌else◌) at h))
      | inr miss ↦ rw miss (lookup-stamps now k m r u.1 (rw (new, miss, if◌then◌else◌) at h))
    ]
  ]

  -- A register that is news to the remote side is sent.
  In-register_diff :
      (now : ℕ) (k : String) (e : Entry V) (remote : List (String × Stamp))
      → (m : List (String × Entry V)) → lookup k m ≡ some e
      → is_expired now e ≡ false
      → is_news (lookup k remote) e ≡ true
      → In (k, e) (register_diff now remote m)
  unfolding lookup register_diff
  In-register_diff now k e remote [] h live n = cc
  In-register_diff now k e remote ((j, e') ∷ m) h live n = elim (Bool-cases (str_eq j k)) [
    | inl hit ↦
        let same : j ≡ k = (eq_iff j k).0 hit in
        let first : e' ≡ e = cc (rw (hit, if◌then◌else◌) at h) in
        rw (same, first, live, n, if◌then◌else◌) (inl refl)
    | inr miss ↦
        let later = In-register_diff now k e remote m (rw (miss, if◌then◌else◌) at h) live n in
        elim (Bool-cases (not (is_expired now e') && is_news (lookup j remote) e')) [
          | inl sent ↦ rw sent (inr later)
          | inr kept ↦ rw kept later
        ]
  ]

  not_after : (e w : Entry V) → supersedes e w ≡ false → e.timestamp ≤ w.timestamp
  unfolding supersedes
  not_after e w h = ground arith

  old_news : (r : Stamp) (e : Entry V) → is_news (some r) e ≡ false → e.timestamp ≤ r.ts
  unfolding is_news
  old_news r e h = ground arith

  some_news : (o : Option Stamp) (e : Entry V) → is_news o e ≡ false → (r : Stamp) × (o ≡ some r)
  unfolding is_news
  some_news none e h = cc
  some_news (some r) e h = (r, refl)

module _ {V P : Type 0} where
  registers-merge_log :
      (k : String) (l : List (LogEntry P)) (s : Store V P)
      → (merge_log k l s).registers ≡ s.registers
  unfolding merge_log save notify
  registers-merge_log k l s = ground arith

  pub registers-deliver_logs :
      (s : Store V P) (ls : List (String × List (LogEntry P)))
      → (deliver_logs s ls).registers ≡ s.registers
  unfolding deliver_logs
  registers-deliver_logs s [] = refl
  registers-deliver_logs s ((k, l) ∷ ls) =
      registers-deliver_logs (merge_log k l s) ls ∙ registers-merge_log k l s

  -- However many entries arrive, a register is never replaced by one that it supersedes.
  pub register_never_back :
      (us : List (String × Entry V)) (s : Store V P) (j : String) (old : Entry V)
      → lookup j s.registers ≡ some old
      → (w : Entry V) × (lookup j (deliver s us).registers ≡ some w) × (supersedes old w ≡ false)
  register_never_back us s j old h =
      let (w, p, q) = winner-some j old us in
      (w, lookup-deliver j us s ∙ (ap (λ o. winner j o us) h ∙ p), q)

  received :
      (us : List (String × Entry V)) (t : Store V P) (k : String) (e : Entry V)
      → normalize_key k ≡ k
      → In (k, e) us
      → (w : Entry V) × (lookup k (deliver t us).registers ≡ some w) × (e.timestamp ≤ w.timestamp)
  received us t k e canonical m =
      let (w, p, q) = winner_ge k k (lookup k t.registers) e us m canonical in
      (w, lookup-deliver k us t ∙ p, not_after e w q)

  -- One exchange brings the receiver up to date: when it has applied the difference that the sender
  -- computes against its state, its register of every canonical key under which the sender has an
  -- entry that is not expired is there, with a timestamp that is no smaller.
  pub sync_catches_up :
      (now : ℕ) (s t : Store V P) (k : String) (e : Entry V)
      → Unique t.registers
      → normalize_key k ≡ k
      → lookup k s.registers ≡ some e
      → is_expired now e ≡ false
      → (w : Entry V) × (lookup k
            (apply_diff (compute_diff now (get_sync_state now t) s) t).registers
          ≡ some w)
        × (e.timestamp ≤ w.timestamp)
  sync_catches_up now s t k e u canonical here live =
      let remote = stamps now t.registers in
      let us = register_diff now remote s.registers in
      let (w, p, q) = at_registers in
      (w, ap (lookup k) (registers-deliver_logs (deliver t us) _) ∙ p, q)
    where
      at_registers :
          (w : Entry V) × (lookup k
              (deliver t (register_diff now (stamps now t.registers) s.registers)).registers
            ≡ some w)
          × (e.timestamp ≤ w.timestamp)
      at_registers = elim (Bool-cases (is_news (lookup k (stamps now t.registers)) e)) [
        | inl new ↦
            received _ t k e canonical
              (In-register_diff now k e (stamps now t.registers) s.registers here live new)
        | inr old ↦
            let (r, there) = some_news (lookup k (stamps now t.registers)) e old in
            let (e', p, q) = lookup-stamps now k t.registers r u there in
            let (w, x, y) =
              register_never_back (register_diff now (stamps now t.registers) s.registers) t k e'
                p in
            (w, x, omega (arith, not_after e' w y, old_news r e (rw there at old), stamp_ts r e' q))
      ]
        where
          stamp_ts : (r : Stamp) (e' : Entry V) → some r ≡ some (stamp_of e') → r.ts ≡ e'.timestamp
          stamp_ts r e' h = cc
