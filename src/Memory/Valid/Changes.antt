-- ===== src/Memory/Valid/Changes.antt =====
-- How each operation of MemoryStore changes the store and its file.
use ariesmesh.Prelude.{
  ℕ, ◌≡◌, max, refl, String, true, Option, none, some, List, Bool-cases, Option-cases, arith, ◌≤◌,
  inl, inr, if◌then◌else◌,
}
use ariesmesh.Memory.Key.{normalize_key, from_key}
use ariesmesh.Memory.Acl.{Capability}
use ariesmesh.Memory.Entry.{Entry, supersedes, is_expired}
use ariesmesh.Memory.Log
use ariesmesh.Memory.Log.{LogEntry}
use ariesmesh.Memory.Store.{
  Store, save, notify, write, register, record_given, lookup, insert, log_at, last_of, notify_last,
  get_entry, merge_entry, merge_log, update_clock, next_tick, remove, record_added,
}
use ariesmesh.Memory.Store.Clock.{le-next_tick}
use ariesmesh.Memory.Writes.{permitted, new_entry, ttl_or_default, set, log_append, store_entry}
use ariesmesh.Memory.Valid.{after}

module _ {V P : Type 0} where
  -- How an operation changes a store: not but for the clock, by dropping an expired register, or by a change that
  -- ends with a save.
  pub data Change (s : Store V P) : Store V P → Type 0 where
    quiet : (clock : ℕ) → s.clock ≤ clock → Change s (record s { clock = clock })
    dropped :
        (now : ℕ) (k : String) (e : Entry V)
        → lookup k s.registers ≡ some e
        → is_expired now e ≡ true
        → Change s (record s { registers = remove k s.registers })
    saved :
        (x : Store V P)
        → x.persistent ≡ s.persistent
        → x.file ≡ s.file
        → x.device_did ≡ s.device_did
        → Change s (save x)

  same_store : (s : Store V P) → Change s s
  same_store s = quiet s.clock (omega arith)

  write-Change :
      (k : String) (e : Entry V) (s : Store V P) (clock : ℕ)
      → Change s (write k e (record s { clock = clock }))
  unfolding notify
  write-Change k e s clock =
      saved
        (notify (register k e.value)
          (record s { clock = clock; registers = insert k e s.registers }))
        refl refl refl

  store_entry-Change : (k : String) (e : Entry V) (s : Store V P) → Change s (store_entry k e s).1
  unfolding store_entry
  store_entry-Change k e s =
      let won = write-Change k e s (next_tick s.clock) in
      elim (Option-cases (lookup k s.registers)) [
        | inl absent ↦ rw (absent, store_entry) won
        | inr (old, there) ↦ elim (Bool-cases (supersedes e old)) [
          | inl newer ↦ rw (there, newer, store_entry, if◌then◌else◌) won
          | inr older ↦
              rw (there, older, store_entry, if◌then◌else◌)
                (quiet (next_tick s.clock) (le-next_tick s.clock))
        ]
      ]

  pub get_entry-Change : (now : ℕ) (key : String) (s : Store V P) → Change s (get_entry now key s).1
  unfolding get_entry
  get_entry-Change now key s = elim (Option-cases (lookup (normalize_key key) s.registers)) [
    | inl absent ↦ rw (absent, get_entry) (same_store s)
    | inr (e, there) ↦ elim (Bool-cases (is_expired now e)) [
      | inr live ↦ rw (there, live, get_entry, if◌then◌else◌) (same_store s)
      | inl old ↦
          rw (there, old, get_entry, if◌then◌else◌) (dropped now (normalize_key key) e there old)
    ]
  ]

  pub merge_entry-Change :
      (key : String) (e : Entry V) (s : Store V P) → Change s (merge_entry key e s).1
  unfolding merge_entry update_clock
  merge_entry-Change key e s =
      let k = normalize_key key in
      let won = write-Change k e s (next_tick (max s.clock e.timestamp)) in
      elim (Option-cases (lookup k s.registers)) [
        | inl absent ↦ rw (absent, merge_entry) won
        | inr (old, there) ↦ elim (Bool-cases (supersedes e old)) [
          | inl newer ↦ rw (there, newer, merge_entry, if◌then◌else◌) won
          | inr older ↦
              rw (there, older, merge_entry, if◌then◌else◌)
                (quiet (next_tick (max s.clock e.timestamp))
                  (omega (arith, le-next_tick (max s.clock e.timestamp))))
        ]
      ]

  pub merge_log-Change :
      (key : String) (l : List (LogEntry P)) (s : Store V P) → Change s (merge_log key l s)
  unfolding merge_log notify
  merge_log-Change key l s =
      let k = normalize_key key in
      let s' : Store V P = record s { logs = insert k (Log.merge (log_at k s) l) s.logs } in
      elim (last_of l) as (λ o. Change s (save (notify_last k o s'))) [
        | none ↦ saved s' refl refl refl
        | some r ↦ saved (notify (record_added k r) s') refl refl refl
      ]

  module _ (hash : Option V → String) (decode : String → Option (List Capability)) where
    pub set-Change :
        (now : ℕ) (key : String) (value : Option V) (ttl : Option ℕ) (ucan : Option String)
        (s : Store V P)
        → Change s (after s (set hash decode now key value ttl ucan s))
    unfolding set
    set-Change now key value ttl ucan s =
        let k = normalize_key key in
        elim (Option-cases (from_key k)) [
          | inl unnamed ↦ rw (unnamed, set) (same_store s)
          | inr ((ns, path), named) ↦ elim (Bool-cases (permitted decode k ucan)) [
            | inr refused ↦ rw (named, refused, set, if◌then◌else◌) (same_store s)
            | inl allowed ↦
                rw (named, allowed, set, if◌then◌else◌)
                  (store_entry-Change k (new_entry hash now value (ttl_or_default ttl ns) s) s)
          ]
        ]

    pub log_append-Change :
        (now : ℕ) (key : String) (fields : P) (ucan : Option String) (s : Store V P)
        → Change s (after s (log_append decode now key fields ucan s))
    unfolding log_append notify
    log_append-Change now key fields ucan s =
        let k = normalize_key key in
        let logs = insert k (Log.append (log_at k s) fields s.device_did now) s.logs in
        elim (Option-cases (from_key k)) [
          | inl unnamed ↦ rw (unnamed, log_append) (same_store s)
          | inr ((ns, path), named) ↦ elim (Bool-cases (permitted decode k ucan)) [
            | inr refused ↦ rw (named, refused, log_append, if◌then◌else◌) (same_store s)
            | inl allowed ↦
                rw (named, allowed, log_append, if◌then◌else◌)
                  (saved (notify (record_given k fields) (record s { logs = logs })) refl refl refl)
          ]
        ]
