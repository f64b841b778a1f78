-- ===== src/Memory/Sync/CatchUp.antt =====
-- An exchange between two devices.
use ariesmesh.Prelude.{ℕ, ◌≤◌, ◌≡◌, String, false, Option, some, List}
use ariesmesh.Memory.Acl.{Capability}
use ariesmesh.Memory.Entry.{Entry, is_expired}
use ariesmesh.Memory.Store.{Store, lookup}
use ariesmesh.Memory.Sync.{get_sync_state, compute_diff, apply_diff}
use ariesmesh.Memory.Sync.Registers.{sync_catches_up}
use ariesmesh.Memory.Valid.{Reach}
use ariesmesh.Memory.Valid.Reached.{Reach-IsValid}

module _ {V P : Type 0} (hash : Option V → String)
    (decode : String → Option (List Capability)) where
  -- Take two devices that started without a file, and have written, read, merged, and restarted from files that
  -- they had saved themselves. One exchange brings the receiver up to date: when it has applied the difference
  -- that the sender computes against its state, then under every key where the sender has an entry that is not
  -- expired it has one too, with a timestamp that is no smaller.
  pub exchange_catches_up :
      (now : ℕ) (s t : Store V P)
      → Reach hash decode s
      → Reach hash decode t
      → (k : String) (e : Entry V) → lookup k s.registers ≡ some e
      → is_expired now e ≡ false
      → (w : Entry V) × (lookup k
            (apply_diff (compute_diff now (get_sync_state now t) s) t).registers
          ≡ some w)
        × (e.timestamp ≤ w.timestamp)
  exchange_catches_up now s t rs rt k e here live =
      sync_catches_up now s t k e (Reach-IsValid hash decode rt).unique_registers
        ((Reach-IsValid hash decode rs).canonical k e here) here live
