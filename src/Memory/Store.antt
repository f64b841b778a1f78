-- ===== src/Memory/Store.antt =====
-- `MemoryStore` of src/aries/memory/store.py, over the type of the values, the type of the records'
-- own fields, and the hash of the values, `content_hash` of util.py. Lamport timestamps are floats that hold whole
-- numbers.
pub mod Registers
pub mod Clock
pub mod Converge
use ariesmesh.Prelude.{
  ℕ, ◌+◌, ◌*◌, ◌%◌, max_safe, String, Bool, true, false, not, ◌&&◌, ◌||◌, Option, none, some, List,
  [], ◌∷◌, if◌then◌else◌, ◌==◌, ltb, str_eq, length, max, foldl, is_some, starts_with,
}
unfoldable pub use ariesmesh.Dict.{lookup, insert, remove}
use ariesmesh.Memory.Key.{Namespace, context, memory, cache, normalize_key, from_key, canonical_key}
use ariesmesh.Memory.Acl.{Capability, check_write_permission}
use ariesmesh.Memory.Entry.{Entry, is_expired, supersedes}
use ariesmesh.Memory.Log
use ariesmesh.Memory.Log.{LogEntry}

-- What `_notify` passes to the callbacks.
pub data Note (V P : Type 0) : Type 0 where
  register : String → Option V → Note V P
  record_added : String → LogEntry P → Note V P
  record_given : String → P → Note V P

-- What `_save` writes: the clock, the registers and the logs.
pub record Snapshot (V P : Type 0) : Type 0 where
  pub clock : ℕ
  pub registers : List (String × Entry V)
  pub logs : List (String × List (LogEntry P))

-- `notes` are the calls of the callbacks, the latest first; `file` is what the last `_save` wrote,
-- and `persistent` says whether there is a directory for it.
pub record Store (V P : Type 0) : Type 0 where
  pub device_did : String
  pub clock : ℕ
  pub registers : List (String × Entry V)
  pub logs : List (String × List (LogEntry P))
  pub notes : List (Note V P)
  pub persistent : Bool
  pub file : Option (Snapshot V P)

-- ValueError and PermissionError
pub data Error : Type 0 where
  no_namespace no_permission : Error

pub data Result {ℓ} (A : Type ℓ) : Type ℓ where
  done : A → Result A
  raised : Error → Result A

abbrev pub default_ttl : Namespace → Option ℕ
default_ttl context = some 86400000
default_ttl memory = none
default_ttl cache = some 3600000

-- The float `n + 1`, for a float `n` that is a whole number: from 2^53 on, only every second and then every
-- fourth whole number is a float, and the sum is rounded to an even last digit.
unfoldable pub next_tick : ℕ → ℕ
next_tick n =
    if ltb n max_safe then n + 1 else if ltb n (2 * max_safe) && (n % 4 == 2) then n + 2 else n

-- `l[-1]`, for a list that is not empty
unfoldable pub last_of : {A : Type 0} → List A → Option A
last_of [] = none
last_of (x ∷ []) = some x
last_of (x ∷ y ∷ l) = last_of (y ∷ l)

module _ {V P : Type 0} where
  abbrev pub empty : String → Bool → Store V P
  empty device persistent = record {
    device_did = device;
    clock = 0;
    registers = [];
    logs = [];
    notes = [];
    persistent = persistent;
    file = none;
  }

  -- `_save`, in one step: a stop between the truncation of the file and the end of `write_text` is left out.
  unfoldable pub save : Store V P → Store V P
  save s =
      if s.persistent
      then record s {
        file = some (record { clock = s.clock; registers = s.registers; logs = s.logs });
      }
      else s

  unfoldable pub notify : Note V P → Store V P → Store V P
  notify n s = record s { notes = n ∷ s.notes }

  -- `_update_clock`
  unfoldable pub update_clock : ℕ → Store V P → Store V P
  unfolding next_tick
  update_clock remote s = record s { clock = next_tick (max s.clock remote) }

  abbrev pub write : String → Entry V → Store V P → Store V P
  write key e s =
      save (notify (register key e.value) (record s { registers = insert key e s.registers }))

  -- `get_entry`, at the time `now`: an expired entry is dropped.
  unfoldable pub get_entry : ℕ → String → Store V P → Option (Entry V) × Store V P
  get_entry now key s =
      let k = normalize_key key in
      elim (lookup k s.registers) [
        | none ↦ (none, s)
        | some e ↦
            if is_expired now e
            then (none, record s { registers = remove k s.registers })
            else (some e, s)
      ]

  -- `get`: the value of the entry; a deleted key has the value `none` too.
  unfoldable pub get : ℕ → String → Store V P → Option V × Store V P
  unfolding get_entry
  get now key s =
      let (found, s') = get_entry now key s in (elim found [ none ↦ none | some e ↦ e.value ], s')

  -- `merge_entry`
  unfoldable pub merge_entry : String → Entry V → Store V P → Bool × Store V P
  unfolding update_clock save notify
  merge_entry key remote s =
      let k = normalize_key key in
      let s' = update_clock remote.timestamp s in
      let replaced : Bool × Store V P = (true, write k remote s') in
      elim (lookup k s'.registers) [
        | none ↦ replaced
        | some e ↦ if supersedes remote e then replaced else (false, s')
      ]

  -- `self._logs.setdefault(key, AppendLog())`
  unfoldable pub log_at : String → Store V P → List (LogEntry P)
  log_at k s = elim (lookup k s.logs) [ none ↦ [] | some l ↦ l ]

  abbrev pub notify_last : String → Option (LogEntry P) → Store V P → Store V P
  notify_last k none s = s
  notify_last k (some r) s = notify (record_added k r) s

  -- `merge_log`
  unfoldable pub merge_log : String → List (LogEntry P) → Store V P → Store V P
  unfolding save notify log_at last_of
  merge_log key remote s =
      let k = normalize_key key in
      let s' : Store V P = record s { logs = insert k (Log.merge (log_at k s) remote) s.logs } in
      save (notify_last k (last_of remote) s')
