-- ===== src/Memory/Persist/Crash.antt =====
-- What a device keeps over a restart.
use ariesmesh.Prelude.{◌≡◌, ◌⊎◌, ◌≤◌, ℕ, refl, String, true, Option, none, some, List, []}
use ariesmesh.Dict.{lookup}
use ariesmesh.Memory.Acl.{Capability}
use ariesmesh.Memory.Entry.{Entry, is_expired}
use ariesmesh.Memory.Store.{Store, Snapshot}
use ariesmesh.Memory.Persist.{Payload, payload_of, create, restart}
use ariesmesh.Memory.Persist.Restored.{hash_in}

module _ {V : Type 0} (hash : Option V → String) where
  -- A key's register `o` in memory and `d` on the disk are one, with its hash filled in, or only the disk has it
  -- still, and it had expired at some time.
  abbrev pub IsKept : Option (Entry V) → Option (Entry V) → Type 0
  IsKept o d =
      (hash_in hash o ≡ hash_in hash d)
      ⊎ ((o ≡ none) × (e : Entry V) × (now : ℕ) × (d ≡ some e) × (is_expired now e ≡ true))

module _ {V P : Type 0} where
  abbrev on_disk : Option (Snapshot V P) → Snapshot V P
  on_disk none = record { clock = 0; registers = []; logs = [] }
  on_disk (some snap) = snap

module _ {V P : Type 0} (hash : Option V → String) where
  -- What is in memory is on the disk, but for ticks of the clock and registers that have expired.
  abbrev IsDurable : Store V P → Type 0
  IsDurable s =
      (s.logs ≡ (on_disk s.file).logs)
      × ((on_disk s.file).clock ≤ s.clock)
      × ((j : String) → IsKept hash (lookup j s.registers) (lookup j (on_disk s.file).registers))

  module _ (decode : String → Option (List Capability)) where
    -- The store that `create` makes of the printed file is that of the restart.
    create-restart :
        (dumps : Payload V P → String) (loads : String → Option (Payload V P)) (now : ℕ)
        (s : Store V P) (snap : Snapshot V P)
        → s.persistent ≡ true
        → s.file ≡ some snap
        → loads (dumps (payload_of snap)) ≡ some (payload_of snap)
        → record (create hash loads now s.device_did true (some (dumps (payload_of snap)))) {
          file = some snap;
        }
          ≡ restart hash now s
    unfolding create restart
    create-restart dumps loads now s snap p f json = rw (restart, f, p, json) refl
