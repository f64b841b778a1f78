-- ===== src/Memory/Store/Clock.antt =====
-- The Lamport clock of MemoryStore and the timestamps of its registers.
use ariesmesh.Prelude.{
  ℕ, ◌+◌, ◌≤◌, ◌<◌, max, ◌≡◌, refl, String, Option, none, some, List, arith, str_eq, Bool-cases,
  inl, inr, max_safe,
}
use ariesmesh.Memory.Key.{normalize_key}
use ariesmesh.Memory.Entry.{Entry}
use ariesmesh.Memory.Store.{Store, lookup, insert, merge_entry, next_tick}
use ariesmesh.Memory.Store.Registers.{join, lookup-insert, lookup-merge_entry}

pub le-next_tick : (n : ℕ) → n ≤ next_tick n
unfolding next_tick
le-next_tick n = ground arith

-- Below 2^53 the clock grows by one.
pub next_tick_below : (n : ℕ) → n < max_safe → next_tick n ≡ n + 1
unfolding next_tick
next_tick_below n h = ground arith

module _ {V : Type 0} where
  -- No register has a timestamp beyond the clock.
  abbrev pub Behind : ℕ → List (String × Entry V) → Type 0
  Behind clock m = (j : String) (e : Entry V) → lookup j m ≡ some e → e.timestamp ≤ clock

  pub Behind-insert :
      (clock : ℕ) (k : String) (e : Entry V) (m : List (String × Entry V))
      → Behind clock m
      → e.timestamp ≤ clock
      → Behind clock (insert k e m)
  Behind-insert clock k e m b h j x found = elim (Bool-cases (str_eq k j)) [
    | inl hit ↦ ground (arith, lookup-insert k j e m)
    | inr miss ↦ b j x (ground (arith, lookup-insert k j e m))
  ]

  pub Behind-mono : (c d : ℕ) (m : List (String × Entry V)) → c ≤ d → Behind c m → Behind d m
  Behind-mono c d m h b j e found = omega (arith, b j e found)

  timestamp-join :
      (o : Option (Entry V)) (e : Entry V) (c : ℕ)
      → ((old : Entry V) → o ≡ some old → old.timestamp ≤ c)
      → (join o e).timestamp ≤ max c e.timestamp
  timestamp-join none e c h = omega arith
  timestamp-join (some old) e c h = ground (arith, h old refl)

module _ {V P : Type 0} where
  abbrev pub IsClocked : Store V P → Type 0
  IsClocked s = Behind s.clock s.registers

  clock-merge_entry :
      (key : String) (e : Entry V) (s : Store V P)
      → (merge_entry key e s).1.clock ≡ next_tick (max s.clock e.timestamp)
  unfolding merge_entry
  clock-merge_entry key e s = ground arith

  -- A merge moves the clock to the remote timestamp or past it and keeps every register behind it.
  pub merge_entry-IsClocked :
      (key : String) (e : Entry V) (s : Store V P)
      → IsClocked s
      → IsClocked (merge_entry key e s).1
        × (e.timestamp ≤ (merge_entry key e s).1.clock)
        × (s.clock ≤ (merge_entry key e s).1.clock)
  merge_entry-IsClocked key e s b =
      let k : String = normalize_key key in
      (
        λ j x found. elim (Bool-cases (str_eq k j)) [
          | inl hit ↦ ground (
            arith,
            lookup-merge_entry key j e s,
            clock-merge_entry key e s,
            le-next_tick (max s.clock e.timestamp),
            timestamp-join (lookup k s.registers) e s.clock (λ o h. b k o h),
          )
          | inr miss ↦ ground (
            arith,
            lookup-merge_entry key j e s,
            clock-merge_entry key e s,
            le-next_tick (max s.clock e.timestamp),
            b j x,
          )
        ],
        omega (arith, clock-merge_entry key e s, le-next_tick (max s.clock e.timestamp)),
        omega (arith, clock-merge_entry key e s, le-next_tick (max s.clock e.timestamp)),
      )
