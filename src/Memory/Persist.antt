-- ===== src/Memory/Persist.antt =====
-- `_save` and `_load` of src/aries/memory/store.py, with the encoding of entries. The JSON library is a
-- pair of parameters; `Raw` and `Payload` are the objects that it reads and prints, in which each key may
-- be missing.
pub mod Restored
pub mod Crash
pub mod Tests
use ariesmesh.Prelude.{
  ℕ, String, Bool, true, false, Option, none, some, List, [], ◌∷◌, map, foldl, if◌then◌else◌,
  str_eq,
}
use ariesmesh.Dict.{insert}
use ariesmesh.Memory.Entry.{Entry}
use ariesmesh.Memory.Log.{LogEntry}
use ariesmesh.Memory.Store.{Store, Snapshot, empty}

-- an entry's object; `value` may be missing, or null
pub record Raw (V : Type 0) : Type 0 where
  pub value : Option (Option V)
  pub timestamp : Option ℕ
  pub device_did : Option String
  pub wall_clock : Option ℕ
  pub content_hash : Option String
  pub ttl : Option ℕ

pub record Payload (V P : Type 0) : Type 0 where
  pub clock : Option ℕ
  pub registers : Option (List (String × Raw V))
  pub logs : Option (List (String × List (LogEntry P)))

-- `d.get(key, default)`
abbrev get_or : {A : Type 0} → A → Option A → A
get_or default none = default
get_or default (some x) = x

module _ {V : Type 0} where
  unfoldable pub to_dict : Entry V → Raw V
  to_dict e = record {
    value = some e.value;
    timestamp = some e.timestamp;
    device_did = some e.device_did;
    wall_clock = some e.wall_clock;
    content_hash = some e.content_hash;
    ttl = e.ttl;
  }

  -- `__post_init__`
  abbrev pub with_hash : (Option V → String) → Entry V → Entry V
  with_hash hash e =
      if str_eq e.content_hash "" then record e { content_hash = hash e.value } else e

  -- `from_dict` at the time `now`; `none` is the KeyError.
  unfoldable pub from_dict : (Option V → String) → ℕ → Raw V → Option (Entry V)
  from_dict hash now raw = elim raw.value [
    | none ↦ none
    | some value ↦ elim raw.timestamp [
      | none ↦ none
      | some timestamp ↦ elim raw.device_did [
        | none ↦ none
        | some device ↦ some (
            with_hash hash (record {
              value = value;
              timestamp = timestamp;
              device_did = device;
              wall_clock = get_or now raw.wall_clock;
              content_hash = get_or "" raw.content_hash;
              ttl = raw.ttl;
            }))
      ]
    ]
  ]

  abbrev pub encoded : String × Entry V → String × Raw V
  encoded p = (p.0, to_dict p.1)

  -- the loop of `_load` over the registers, which passes over entries that raise
  unfoldable pub load_registers :
      (Option V → String)
      → ℕ
      → List (String × Raw V)
      → List (String × Entry V)
      → List (String × Entry V)
  unfolding from_dict insert
  load_registers hash now [] registers = registers
  load_registers hash now ((key, raw) ∷ raws) registers = elim (from_dict hash now raw) [
    | none ↦ load_registers hash now raws registers
    | some e ↦ load_registers hash now raws (insert key e registers)
  ]

module _ {P : Type 0} where
  -- the loop of `_load` over the logs
  unfoldable pub load_logs :
      List (String × List (LogEntry P))
      → List (String × List (LogEntry P))
      → List (String × List (LogEntry P))
  unfolding insert
  load_logs [] logs = logs
  load_logs ((key, l) ∷ rest) logs = load_logs rest (insert key l logs)

module _ {V P : Type 0} where
  -- the object that `_save` prints
  unfoldable pub payload_of : Snapshot V P → Payload V P
  unfolding to_dict
  payload_of snap = record {
    clock = some snap.clock;
    registers = some (map encoded snap.registers);
    logs = some snap.logs;
  }

  -- the statements of `_load` behind the reading
  unfoldable pub load_payload :
      (Option V → String) → ℕ → Option (Payload V P) → Store V P → Store V P
  unfolding load_registers load_logs
  load_payload hash now none s = s
  load_payload hash now (some data') s = record s {
    clock = get_or 0 data'.clock;
    registers = load_registers hash now (get_or [] data'.registers) s.registers;
    logs = load_logs (get_or [] data'.logs) s.logs;
  }

  -- `MemoryStore(device_did, persist_dir)`, with the text of the file if there is one: `loads` is
  -- `json.loads`, and gives `none` where that raises.
  unfoldable pub create :
      (Option V → String)
      → (String → Option (Payload V P))
      → ℕ
      → String
      → Bool
      → Option String
      → Store V P
  unfolding load_payload
  create hash loads now device false text = empty device false
  create hash loads now device true none = empty device true
  create hash loads now device true (some text) =
      load_payload hash now (loads text) (empty device true)

  -- A device that stops and makes its store again, where the JSON library reads what it printed. The file
  -- stays; a stop in the middle of `write_text`, which leaves a part of the text, is left out.
  unfoldable pub restart : (Option V → String) → ℕ → Store V P → Store V P
  unfolding load_payload payload_of
  restart hash now s = elim s.file [
    | none ↦ empty s.device_did s.persistent
    | some snap ↦
        record (load_payload hash now (some (payload_of snap)) (empty s.device_did s.persistent)) {
          file = some snap;
        }
  ]
