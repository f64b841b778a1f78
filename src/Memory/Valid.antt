-- ===== src/Memory/Valid.antt =====
-- The well-formedness of a store, and the stores that the operations of MemoryStore can make.
pub mod Dictionaries
pub mod Kept
pub mod Changes
pub mod Hashed
pub mod Reached
use ariesmesh.Prelude.{ℕ, ◌≡◌, String, Bool, Option, none, some, List, [], ◌∷◌}
use ariesmesh.Memory.Key.{normalize_key}
use ariesmesh.Memory.Acl.{Capability}
use ariesmesh.Memory.Entry.{Entry}
use ariesmesh.Memory.Log.{LogEntry}
use ariesmesh.Memory.Store.{
  Store, Result, done, raised, empty, lookup, get_entry, merge_entry, merge_log,
}
use ariesmesh.Memory.Store.Registers.{Unique}
use ariesmesh.Memory.Store.Clock.{IsClocked}
use ariesmesh.Memory.Writes.{set, log_append}
use ariesmesh.Memory.Persist.{restart}

-- Every key of the dictionary is in its canonical form.
abbrev pub Canonical : {V : Type 0} → List (String × V) → Type 0
Canonical {V = V} m = (j : String) (v : V) → lookup j m ≡ some v → normalize_key j ≡ j

pub record IsValid {V P : Type 0} (s : Store V P) : Type 0 where
  pub clocked : IsClocked s
  pub unique_registers : Unique s.registers
  pub unique_logs : Unique s.logs
  pub canonical : Canonical s.registers

-- The store behind a call: an exception is raised before anything is changed.
abbrev pub after : {A V P : Type 0} → Store V P → Result (A × Store V P) → Store V P
after s (done (a, s')) = s'
after s (raised e) = s

-- The stores that a device can have that starts without a file: by its own writes and reads, by merges
-- with others, and by restarts from the file that it has saved.
module _ {V P : Type 0} (hash : Option V → String)
    (decode : String → Option (List Capability)) where
  pub data Reach : Store V P → Type 0 where
    created : (device : String) (persistent : Bool) → Reach (empty device persistent)
    written :
        {s : Store V P} (now : ℕ) (key : String) (value : Option V) (ttl : Option ℕ)
        → (ucan : Option String) → Reach s
        → Reach (after s (set hash decode now key value ttl ucan s))
    appended :
        {s : Store V P} (now : ℕ) (key : String) (fields : P) (ucan : Option String)
        → Reach s
        → Reach (after s (log_append decode now key fields ucan s))
    looked_up : {s : Store V P} (now : ℕ) (key : String) → Reach s → Reach (get_entry now key s).1
    merged : {s : Store V P} (key : String) (e : Entry V) → Reach s → Reach (merge_entry key e s).1
    merged_log :
        {s : Store V P} (key : String) (l : List (LogEntry P)) → Reach s → Reach (merge_log key l s)
    restarted : {s : Store V P} (now : ℕ) → Reach s → Reach (restart hash now s)
