-- ===== src/Memory/Writes.antt =====
-- The writes and listings of `MemoryStore`: `set`, `delete`, `log_append`, `keys`, `log_read`.
pub mod Wins
use ariesmesh.Prelude.{
  ℕ, ◌+◌, String, Bool, true, false, not, ◌&&◌, ◌||◌, Option, none, some, List, [], ◌∷◌,
  if◌then◌else◌, length, is_some, starts_with, str_eq, drop,
}
use ariesmesh.Memory.Key.{Namespace, normalize_key, from_key, canonical_key}
use ariesmesh.Memory.Acl.{Capability, check_write_permission}
use ariesmesh.Memory.Entry.{Entry, is_expired, supersedes}
use ariesmesh.Memory.Log
use ariesmesh.Memory.Log.{LogEntry}
use ariesmesh.Memory.Store.{
  Store, Result, done, raised, Error, no_namespace, no_permission, default_ttl, lookup, insert,
  save, notify, write, next_tick, record_given, log_at,
}

-- `if ttl is None: ttl = DEFAULT_TTLS[ns]`
abbrev pub ttl_or_default : Option ℕ → Namespace → Option ℕ
ttl_or_default none ns = default_ttl ns
ttl_or_default (some t) ns = some t

-- `decode` gives the capabilities of a token, or `none` where `UCANToken.decode` raises.
-- `if ucan_token is not None: self._check_write_permission(key, ucan_token)`
unfoldable pub permitted : (String → Option (List Capability)) → String → Option String → Bool
permitted decode key none = true
permitted decode key (some token) = check_write_permission decode key token

module _ {V P : Type 0} where
  -- `set` behind its checks, at a normalized key
  unfoldable pub store_entry : String → Entry V → Store V P → Entry V × Store V P
  store_entry key e s =
      let ticked : Store V P = record s { clock = next_tick s.clock } in
      elim (lookup key s.registers) [
        | none ↦ (e, write key e ticked)
        | some old ↦ if supersedes e old then (e, write key e ticked) else (old, ticked)
      ]

  -- The entry that `set` builds, with the next tick of the clock; `hash` is `content_hash`.
  abbrev pub new_entry : (Option V → String) → ℕ → Option V → Option ℕ → Store V P → Entry V
  new_entry hash now value ttl s = record {
    value = value;
    timestamp = next_tick s.clock;
    device_did = s.device_did;
    wall_clock = now;
    content_hash = hash value;
    ttl = ttl;
  }

module _ {V P : Type 0} (hash : Option V → String)
    (decode : String → Option (List Capability)) where
  unfoldable pub set :
      ℕ → String → Option V → Option ℕ → Option String → Store V P → Result (Entry V × Store V P)
  set now key value ttl ucan s =
      let k = normalize_key key in
      elim (from_key k) [
        | none ↦ raised no_namespace
        | some (ns, path) ↦
            if permitted decode k ucan
            then done (store_entry k (new_entry hash now value (ttl_or_default ttl ns) s) s)
            else raised no_permission
      ]

  -- `delete`
  abbrev pub delete : ℕ → String → Store V P → Result (Entry V × Store V P)
  delete now key s = set now key none none none s

module _ {V P : Type 0} (decode : String → Option (List Capability)) where
  unfoldable pub log_append : ℕ → String → P → Option String → Store V P → Result (ℕ × Store V P)
  log_append now key fields ucan s =
      let k = normalize_key key in
      let l = log_at k s in
      elim (from_key k) [
        | none ↦ raised no_namespace
        | some (ns, path) ↦
            if permitted decode k ucan
            then done (
              length l,
              save (
                  notify (record_given k fields)
                    (record s { logs = insert k (Log.append l fields s.device_did now) s.logs })),
            )
            else raised no_permission
      ]

module _ {V : Type 0} where
  abbrev listed : ℕ → String → String → Entry V → Bool
  listed now prefix k e = starts_with prefix k && (not (is_expired now e) && is_some e.value)

  -- the loop of `keys`
  unfoldable pub keys_from : ℕ → String → List (String × Entry V) → List String
  keys_from now prefix [] = []
  keys_from now prefix ((k, e) ∷ m) =
      let rest = keys_from now prefix m in if listed now prefix k e then k ∷ rest else rest

module _ {V P : Type 0} where
  unfoldable pub keys : ℕ → String → Store V P → List String
  unfolding keys_from
  keys now prefix s =
      keys_from now (if str_eq prefix "" then "" else normalize_key prefix) s.registers

  unfoldable pub list_namespace : ℕ → Namespace → Store V P → List String
  unfolding keys
  list_namespace now ns s = keys now (canonical_key ns "") s

  -- `log_read`, from an index that is not negative, and `log_len`
  unfoldable pub log_read : String → ℕ → Store V P → List (LogEntry P)
  unfolding log_at
  log_read key since s = Log.since (log_at (normalize_key key) s) since

  unfoldable pub log_len : String → Store V P → ℕ
  unfolding log_at
  log_len key s = length (log_at (normalize_key key) s)
