-- ===== src/Memory/Writes/Wins.antt =====
-- `set` of MemoryStore against the clock of the store.
use ariesmesh.Prelude.{
  ℕ, ◌+◌, ◌≤◌, ◌<◌, max_safe, ◌≡◌, refl, sym, ◌∙◌, ap, String, true, Option, some, List, arith,
  if◌then◌else◌, Option-cases, inl, inr,
}
use ariesmesh.Memory.Key.{Namespace, normalize_key, from_key}
use ariesmesh.Memory.Key.Laws.{from_key-normalize_key}
use ariesmesh.Memory.Acl.{Capability}
use ariesmesh.Memory.Entry.{Entry, supersedes}
use ariesmesh.Memory.Store.{Store, done, lookup, write, next_tick}
use ariesmesh.Memory.Store.Registers.{lookup-insert_self, registers-write, clock-write}
use ariesmesh.Memory.Store.Clock.{
  IsClocked, Behind-insert, Behind-mono, le-next_tick, next_tick_below,
}
use ariesmesh.Memory.Writes.{permitted, store_entry, new_entry, ttl_or_default, set}

module _ {V : Type 0} where
  -- An entry with the next timestamp supersedes every entry behind the clock.
  later_wins :
      (e old : Entry V) (c : ℕ) → e.timestamp ≡ c + 1 → old.timestamp ≤ c → supersedes e old ≡ true
  unfolding supersedes
  later_wins e old c h k = ground arith

module _ {V P : Type 0} where
  store_entry_wins :
      (k : String) (e : Entry V) (s : Store V P)
      → IsClocked s
      → s.clock < max_safe
      → e.timestamp ≡ next_tick s.clock
      → store_entry k e s ≡ (e, write k e (record s { clock = next_tick s.clock }))
  unfolding store_entry
  store_entry_wins k e s b small h = elim (Option-cases (lookup k s.registers)) [
    | inl absent ↦ rw (absent, store_entry)
    | inr (old, there) ↦ rw (
      there,
      later_wins e old s.clock (h ∙ next_tick_below s.clock small) (b k old there),
      store_entry,
      if◌then◌else◌,
    )
  ]

  written-IsClocked :
      (k : String) (e : Entry V) (s : Store V P)
      → IsClocked s
      → e.timestamp ≡ next_tick s.clock
      → IsClocked (write k e (record s { clock = next_tick s.clock }))
  written-IsClocked k e s b h j x found =
      let s' : Store V P = record s { clock = next_tick s.clock } in
      let behind =
        Behind-insert (next_tick s.clock) k e s.registers
          (Behind-mono s.clock (next_tick s.clock) s.registers (le-next_tick s.clock) b)
          (omega (arith, h)) in
      omega (
        arith,
        clock-write k e s',
        behind j x (sym (ap (lookup j) (registers-write k e s')) ∙ found),
      )

module _ {V P : Type 0} (hash : Option V → String)
    (decode : String → Option (List Capability)) where
  -- On a store whose clock is below 2^53 and not behind its registers, a permitted write to a key with a namespace
  -- always takes effect: it returns the new entry, which is the register of the key, with a timestamp
  -- beyond the old clock; and the clock is not behind any register again.
  pub set_wins :
      (now : ℕ) (key : String) (value : Option V) (ttl : Option ℕ) (ucan : Option String)
      → (s : Store V P) (ns : Namespace) (path : String) → IsClocked s
      → s.clock < max_safe
      → from_key key ≡ some (ns, path)
      → permitted decode (normalize_key key) ucan ≡ true
      → (s' : Store V P) × (set hash decode now key value ttl ucan s
          ≡ done (new_entry hash now value (ttl_or_default ttl ns) s, s'))
        × (lookup (normalize_key key) s'.registers
            ≡ some (new_entry hash now value (ttl_or_default ttl ns) s))
        × (s'.clock ≡ s.clock + 1)
        × IsClocked s'
  unfolding set
  set_wins now key value ttl ucan s ns path b small named allowed =
      let k : String = normalize_key key in
      let e : Entry V = new_entry hash now value (ttl_or_default ttl ns) s in
      let named' : from_key k ≡ some (ns, path) = from_key-normalize_key key ∙ named in
      (
        write k e (record s { clock = next_tick s.clock }),
        rw (named', allowed, set, if◌then◌else◌) (ap done (store_entry_wins k e s b small refl)),
        ap (lookup k) (registers-write k e (record s { clock = next_tick s.clock }))
            ∙ lookup-insert_self k e s.registers,
        clock-write k e (record s { clock = next_tick s.clock }) ∙ next_tick_below s.clock small,
        written-IsClocked k e s b refl,
      )
