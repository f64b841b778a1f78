-- ===== src/Memory/Store/Registers.antt =====
-- The laws of the dictionaries, and what `merge_entry` does to every key.
use ariesmesh.Prelude.{
  ◌≡◌, refl, String, Option, none, some, List, [], ◌∷◌, arith, str_eq, eq_iff, eq_refl,
  if◌then◌else◌,
}
use ariesmesh.Memory.Key.{normalize_key}
use ariesmesh.Memory.Entry.{Entry, supersedes}
use ariesmesh.Memory.Store.{Store, lookup, insert, save, notify, merge_entry, write}

module _ {V : Type 0} where
  pub lookup-insert :
      (key other : String) (new : V) (dict : List (String × V))
      → lookup other (insert key new dict)
        ≡ (if str_eq key other then some new else lookup other dict)
  unfolding insert lookup
  lookup-insert key other new [] = refl
  lookup-insert key other new ((name, old) ∷ rest) = ground (
    arith,
    lookup-insert key other new rest,
    eq_iff name key,
    eq_iff name other,
    eq_iff key other,
  )

  pub lookup-insert_self :
      (key : String) (new : V) (dict : List (String × V))
      → lookup key (insert key new dict) ≡ some new
  lookup-insert_self key new dict = ground (arith, eq_refl key, lookup-insert key key new dict)

-- No key of the dictionary stands in it twice.
abbrev pub Unique : {V : Type 0} → List (String × V) → Type 0
Unique [] = Unit
Unique ((k, v) ∷ m) = (lookup k m ≡ none) × Unique m

-- The winner of two writers, the present one first.
abbrev pub join : {V : Type 0} → Option (Entry V) → Entry V → Entry V
join none e = e
join (some old) e = if supersedes e old then e else old

module _ {V P : Type 0} where
  pub registers-write :
      (k : String) (e : Entry V) (s : Store V P) → (write k e s).registers ≡ insert k e s.registers
  unfolding save notify
  registers-write k e s = ground arith

  pub clock-write : (k : String) (e : Entry V) (s : Store V P) → (write k e s).clock ≡ s.clock
  unfolding save notify
  clock-write k e s = ground arith

  -- After a merge the key has the winner of its entry and the remote one, and no other key changes.
  pub lookup-merge_entry :
      (key j : String) (e : Entry V) (s : Store V P)
      → lookup j (merge_entry key e s).1.registers ≡ (
          if str_eq (normalize_key key) j
          then some (join (lookup (normalize_key key) s.registers) e)
          else lookup j s.registers)
  unfolding merge_entry
  lookup-merge_entry key j e s =
      let k : String = normalize_key key in
      ground (arith, lookup-insert k j e s.registers, eq_iff k j)
