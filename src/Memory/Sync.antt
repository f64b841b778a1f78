-- ===== src/Memory/Sync.antt =====
-- The synchronisation state of src/aries/memory/store.py: `get_sync_state`, `compute_diff` and
-- `apply_diff`.
pub mod Registers
pub mod Logs
pub mod CatchUp
use ariesmesh.Prelude.{
  ℕ, String, Bool, true, false, not, ◌&&◌, ◌||◌, Option, none, some, List, [], ◌∷◌, if◌then◌else◌,
  ◌==◌, ltb, str_eq, length,
}
use ariesmesh.Memory.Entry.{Entry, is_expired}
use ariesmesh.Memory.Log
use ariesmesh.Memory.Log.{LogEntry}
use ariesmesh.Memory.Store.{Store, lookup, merge_entry, merge_log}

-- What a replica tells of one register.
pub record Stamp : Type 0 where
  pub ts : ℕ
  pub hash : String
  pub device : String

-- The answer of `get_sync_state`.
pub record SyncState : Type 0 where
  pub registers : List (String × Stamp)
  pub logs : List (String × ℕ)
  pub clock : ℕ

-- The answer of `compute_diff`.
pub record Diff (V P : Type 0) : Type 0 where
  pub registers : List (String × Entry V)
  pub logs : List (String × List (LogEntry P))

-- `remote_logs.get(key, 0)`
abbrev pub or_zero : Option ℕ → ℕ
or_zero none = 0
or_zero (some n) = n

module _ {V : Type 0} where
  abbrev pub stamp_of : Entry V → Stamp
  stamp_of e = record { ts = e.timestamp; hash = e.content_hash; device = e.device_did }

  unfoldable pub stamps : ℕ → List (String × Entry V) → List (String × Stamp)
  stamps now [] = []
  stamps now ((k, e) ∷ m) =
      let rest = stamps now m in if is_expired now e then rest else (k, stamp_of e) ∷ rest

  -- the variable `include`
  unfoldable pub is_news : Option Stamp → Entry V → Bool
  is_news none e = true
  is_news (some r) e =
      ltb r.ts e.timestamp || (e.timestamp == r.ts && not (str_eq e.content_hash r.hash))

  -- the first loop of `compute_diff`
  unfoldable pub register_diff :
      ℕ → List (String × Stamp) → List (String × Entry V) → List (String × Entry V)
  register_diff now remote [] = []
  register_diff now remote ((k, e) ∷ m) =
      let rest = register_diff now remote m in
      if not (is_expired now e) && is_news (lookup k remote) e then (k, e) ∷ rest else rest

module _ {P : Type 0} where
  unfoldable pub log_lengths : List (String × List (LogEntry P)) → List (String × ℕ)
  log_lengths [] = []
  log_lengths ((k, l) ∷ m) = (k, length l) ∷ log_lengths m

  -- the second loop of `compute_diff`
  unfoldable pub log_diff :
      List (String × ℕ) → List (String × List (LogEntry P)) → List (String × List (LogEntry P))
  log_diff remote [] = []
  log_diff remote ((k, l) ∷ m) =
      let rest = log_diff remote m in
      let n = or_zero (lookup k remote) in
      if ltb n (length l) then (k, Log.since l n) ∷ rest else rest

module _ {V P : Type 0} where
  abbrev pub get_sync_state : ℕ → Store V P → SyncState
  get_sync_state now s = record {
    registers = stamps now s.registers;
    logs = log_lengths s.logs;
    clock = s.clock;
  }

  abbrev pub compute_diff : ℕ → SyncState → Store V P → Diff V P
  compute_diff now remote s = record {
    registers = register_diff now remote.registers s.registers;
    logs = log_diff remote.logs s.logs;
  }

  -- the two loops of `apply_diff`; a received entry stands for its `to_dict`
  unfoldable pub deliver : Store V P → List (String × Entry V) → Store V P
  deliver s [] = s
  deliver s ((k, e) ∷ us) = deliver (merge_entry k e s).1 us

  unfoldable pub deliver_logs : Store V P → List (String × List (LogEntry P)) → Store V P
  deliver_logs s [] = s
  deliver_logs s ((k, l) ∷ ls) = deliver_logs (merge_log k l s) ls

  abbrev pub apply_diff : Diff V P → Store V P → Store V P
  apply_diff d s = deliver_logs (deliver s d.registers) d.logs
