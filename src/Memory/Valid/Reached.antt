-- ===== src/Memory/Valid/Reached.antt =====
-- The stores that the operations of MemoryStore can make.
use mathlib.Core.Path.{subst, subst⁻¹}
use ariesmesh.Prelude.{
  ◌≡◌, ◌⊎◌, sym, ◌∙◌, some, true, ℕ, String, Bool, Option, List, arith, Bool-cases, Option-cases,
  inl, inr, if◌then◌else◌,
}
use ariesmesh.Memory.Key.{normalize_key, from_key}
use ariesmesh.Memory.Key.Laws.{normalize_key_idem}
use ariesmesh.Memory.Acl.{Capability}
use ariesmesh.Memory.Persist.{restart}
use ariesmesh.Memory.Persist.Restored.{hashed-Unique, restart-none, restart-some}
use ariesmesh.Memory.Valid.Hashed.{hashed-Behind, hashed-Canonical}
use ariesmesh.Memory.Valid.Changes.{
  Change, quiet, dropped, saved, get_entry-Change, merge_entry-Change, merge_log-Change, set-Change,
  log_append-Change,
}
use ariesmesh.Memory.Log
use ariesmesh.Memory.Log.{LogEntry}
use ariesmesh.Memory.Store.{Store, Snapshot, save, empty, lookup, insert, log_at, record_given}
use ariesmesh.Memory.Writes.{permitted, new_entry, ttl_or_default, set, log_append}
use ariesmesh.Memory.Valid.{
  IsValid, after, Reach, created, written, appended, looked_up, merged, merged_log, restarted,
}
use ariesmesh.Memory.Valid.Dictionaries.{insert-Unique}
use ariesmesh.Memory.Valid.Kept.{
  store_entry-IsValid, get_entry-IsValid, merge_log-IsValid, merge_entry-IsValid, logged-IsValid,
}

some_path : {A : Type 0} {x y : A} → some x ≡ some y → x ≡ y
some_path h = cc

module _ {V P : Type 0} where
  abbrev pub snapshot_of : Store V P → Snapshot V P
  snapshot_of s = record { clock = s.clock; registers = s.registers; logs = s.logs }

  -- The file behind a save.
  pub file-save :
      (x : Store V P) (snap : Snapshot V P)
      → (save x).file ≡ some snap
      → (snapshot_of (save x) ≡ snap) ⊎ (x.file ≡ some snap)
  unfolding save
  file-save x snap e = elim (Bool-cases x.persistent) [
    | inl k ↦
        let f : some (snapshot_of x) ≡ some snap = (rw (save, k, if◌then◌else◌) at e) in
        inl (rw (save, k, if◌then◌else◌) (some_path f))
    | inr k ↦ inr (rw (save, k, if◌then◌else◌) at e)
  ]

module _ {V P : Type 0} (hash : Option V → String)
    (decode : String → Option (List Capability)) where
  set-IsValid :
      (now : ℕ) (key : String) (value : Option V) (ttl : Option ℕ) (ucan : Option String)
      → (s : Store V P) → IsValid s
      → IsValid (after s (set hash decode now key value ttl ucan s))
  unfolding set
  set-IsValid now key value ttl ucan s v =
      let k = normalize_key key in
      elim (Option-cases (from_key k)) [
        | inl unnamed ↦ rw (unnamed, set) v
        | inr ((ns, path), named) ↦ elim (Bool-cases (permitted decode k ucan)) [
          | inr refused ↦ rw (named, refused, set, if◌then◌else◌) v
          | inl allowed ↦
              rw (named, allowed, set, if◌then◌else◌)
                (store_entry-IsValid k (new_entry hash now value (ttl_or_default ttl ns) s) s
                  (normalize_key_idem key) (omega arith) v)
        ]
      ]

  log_append-IsValid :
      (now : ℕ) (key : String) (fields : P) (ucan : Option String) (s : Store V P)
      → IsValid s
      → IsValid (after s (log_append decode now key fields ucan s))
  unfolding log_append
  log_append-IsValid now key fields ucan s v =
      let k = normalize_key key in
      elim (Option-cases (from_key k)) [
        | inl unnamed ↦ rw (unnamed, log_append) v
        | inr ((ns, path), named) ↦ elim (Bool-cases (permitted decode k ucan)) [
          | inr refused ↦ rw (named, refused, log_append, if◌then◌else◌) v
          | inl allowed ↦
              rw (named, allowed, log_append, if◌then◌else◌)
                (logged-IsValid (record_given k fields)
                  (insert k (Log.append (log_at k s) fields s.device_did now) s.logs) s
                  (insert-Unique k (Log.append (log_at k s) fields s.device_did now) s.logs
                    v.unique_logs)
                  v)
        ]
      ]

  empty-IsValid :
      (device : String) (persistent : Bool) → IsValid (empty {V = V} {P = P} device persistent)
  unfolding lookup
  empty-IsValid device persistent = record {
    clocked = λ j e found. cc;
    unique_registers = tt;
    unique_logs = tt;
    canonical = λ j e found. cc;
  }

  -- the store of a snapshot
  abbrev pub held : Snapshot V P → Store V P
  held snap = record (empty "" true) {
    clock = snap.clock;
    registers = snap.registers;
    logs = snap.logs;
  }

  abbrev pub IsFileValid : Store V P → Type 0
  IsFileValid s = (snap : Snapshot V P) → s.file ≡ some snap → IsValid (held snap)

  held-IsValid :
      (s : Store V P) (snap : Snapshot V P) → IsValid s → snapshot_of s ≡ snap → IsValid (held snap)
  held-IsValid s snap v e =
      subst (λ t. IsValid (held t)) e
        (record {
          clocked = v.clocked;
          unique_registers = v.unique_registers;
          unique_logs = v.unique_logs;
          canonical = v.canonical;
        })

  Change-IsFileValid :
      (s s' : Store V P) → Change s s' → IsValid s' → IsFileValid s → IsFileValid s'
  Change-IsFileValid s _ (quiet clock up) v f snap e = f snap e
  Change-IsFileValid s _ (dropped now k x there old) v f snap e = f snap e
  Change-IsFileValid s _ (saved x p q d) v f snap e = elim (file-save x snap e) [
    | inl new ↦ held-IsValid (save x) snap v new
    | inr old ↦ f snap (sym q ∙ old)
  ]

  restart-IsValid : (now : ℕ) (s : Store V P) → IsFileValid s → IsValid (restart hash now s)
  restart-IsValid now s f = elim (Option-cases s.file) [
    | inl n ↦ subst⁻¹ IsValid (restart-none hash now s n) (empty-IsValid s.device_did s.persistent)
    | inr (snap, e) ↦
        let v = f snap e in
        subst⁻¹ IsValid (restart-some hash now s snap e v.unique_registers v.unique_logs) (record {
          clocked = hashed-Behind hash snap.clock snap.registers v.clocked;
          unique_registers = hashed-Unique hash snap.registers v.unique_registers;
          unique_logs = v.unique_logs;
          canonical = hashed-Canonical hash snap.registers v.canonical;
        })
  ]

  restart-IsFileValid : (now : ℕ) (s : Store V P) → IsFileValid s → IsFileValid (restart hash now s)
  restart-IsFileValid now s f snap e = elim (Option-cases s.file) [
    | inl n ↦ cc (rw (restart-none hash now s n) at e)
    | inr (old, k) ↦
        let v = f old k in
        let same : some old ≡ some snap =
          (rw (restart-some hash now s old k v.unique_registers v.unique_logs) at e) in
        f snap (k ∙ same)
  ]

  abbrev IsSafe : Store V P → Type 0
  IsSafe s = IsValid s × IsFileValid s

  changed-IsSafe : (s s' : Store V P) → Change s s' → IsValid s' → IsSafe s → IsSafe s'
  changed-IsSafe s s' c v h = (v, Change-IsFileValid s s' c v h.1)

  pub Reach-IsSafe : {s : Store V P} → Reach hash decode s → IsSafe s
  Reach-IsSafe (created device persistent) = (empty-IsValid device persistent, λ snap e. cc)
  Reach-IsSafe (written {s} now key value ttl ucan r) =
      let h = Reach-IsSafe r in
      changed-IsSafe s _ (set-Change hash decode now key value ttl ucan s)
        (set-IsValid now key value ttl ucan s h.0) h
  Reach-IsSafe (appended {s} now key fields ucan r) =
      let h = Reach-IsSafe r in
      changed-IsSafe s _ (log_append-Change hash decode now key fields ucan s)
        (log_append-IsValid now key fields ucan s h.0) h
  Reach-IsSafe (looked_up {s} now key r) =
      let h = Reach-IsSafe r in
      changed-IsSafe s _ (get_entry-Change now key s) (get_entry-IsValid now key s h.0) h
  Reach-IsSafe (merged {s} key e r) =
      let h = Reach-IsSafe r in
      changed-IsSafe s _ (merge_entry-Change key e s) (merge_entry-IsValid key e s h.0) h
  Reach-IsSafe (merged_log {s} key l r) =
      let h = Reach-IsSafe r in
      changed-IsSafe s _ (merge_log-Change key l s) (merge_log-IsValid key l s h.0) h
  Reach-IsSafe (restarted {s} now r) =
      let h = Reach-IsSafe r in (restart-IsValid now s h.1, restart-IsFileValid now s h.1)

  -- In every store that a device can have that started without a file, whatever it wrote, read and merged,
  -- and however often it started again from the file that it had saved: no key stands twice among the registers
  -- or the logs, every register's key is in its canonical form, and no register has a timestamp beyond the clock.
  pub Reach-IsValid : {s : Store V P} → Reach hash decode s → IsValid s
  Reach-IsValid r = (Reach-IsSafe r).0
