-- ===== src/Memory/Valid/Kept.antt =====
-- Every operation of MemoryStore on well-formed stores.
use ariesmesh.Prelude.{
  ℕ, ◌≤◌, max, ◌≡◌, refl, sym, ◌∙◌, ap, String, List, arith, Bool-cases, Option-cases, inl, inr,
  if◌then◌else◌,
}
use ariesmesh.Memory.Key.{normalize_key}
use ariesmesh.Memory.Key.Laws.{normalize_key_idem}
use ariesmesh.Memory.Entry.{Entry, is_expired, supersedes}
use ariesmesh.Memory.Log
use ariesmesh.Memory.Log.{LogEntry}
use ariesmesh.Memory.Store.{
  Store, lookup, insert, save, notify, write, get_entry, merge_entry, merge_log, log_at, Note,
  next_tick,
}
use ariesmesh.Memory.Store.Registers.{registers-write, clock-write, Unique}
use ariesmesh.Memory.Store.Clock.{Behind-insert, Behind-mono, le-next_tick}
use ariesmesh.Memory.Writes.{store_entry}
use ariesmesh.Memory.Valid.{IsValid}
use ariesmesh.Memory.Valid.Dictionaries.{
  insert-Unique, insert-Canonical, lookup-remove, remove-Unique,
}

module _ {V P : Type 0} where
  -- Notes and files do not matter, and the clock may advance.
  same-IsValid :
      (s s' : Store V P)
      → s'.registers ≡ s.registers
      → Unique s'.logs
      → s.clock ≤ s'.clock
      → IsValid s
      → IsValid s'
  same-IsValid s s' r l c v = record {
    clocked = λ j e found. omega (arith, v.clocked j e (sym (ap (lookup j) r) ∙ found));
    unique_registers = rw r v.unique_registers;
    unique_logs = l;
    canonical = λ j e found. v.canonical j e (sym (ap (lookup j) r) ∙ found);
  }

  insert-IsValid :
      (s s' : Store V P) (k : String) (e : Entry V)
      → s'.registers ≡ insert k e s.registers
      → s'.logs ≡ s.logs
      → s.clock ≤ s'.clock
      → e.timestamp ≤ s'.clock
      → normalize_key k ≡ k
      → IsValid s
      → IsValid s'
  insert-IsValid s s' k e r l c t n v =
      let behind =
        Behind-insert s'.clock k e s.registers
          (Behind-mono s.clock s'.clock s.registers c v.clocked) t in
      record {
        clocked = λ j x found. behind j x (sym (ap (lookup j) r) ∙ found);
        unique_registers = rw r (insert-Unique k e s.registers v.unique_registers);
        unique_logs = rw l v.unique_logs;
        canonical = λ j x found.
            insert-Canonical k e s.registers n v.canonical j x (sym (ap (lookup j) r) ∙ found);
      }

  logs-write : (k : String) (e : Entry V) (s : Store V P) → (write k e s).logs ≡ s.logs
  unfolding save notify
  logs-write k e s = ground arith

  write-IsValid :
      (k : String) (e : Entry V) (s : Store V P) (c : ℕ)
      → normalize_key k ≡ k
      → s.clock ≤ c
      → e.timestamp ≤ c
      → IsValid s
      → IsValid (write k e (record s { clock = c }))
  write-IsValid k e s c n h t v =
      let s' : Store V P = record s { clock = c } in
      insert-IsValid s (write k e s') k e (registers-write k e s') (logs-write k e s')
        (omega (arith, clock-write k e s')) (omega (arith, clock-write k e s')) n v

  tick-IsValid :
      (s : Store V P) (c : ℕ) → s.clock ≤ c → IsValid s → IsValid (record s { clock = c })
  tick-IsValid s c h v = same-IsValid s (record s { clock = c }) refl v.unique_logs h v

  pub merge_entry-IsValid :
      (key : String) (e : Entry V) (s : Store V P) → IsValid s → IsValid (merge_entry key e s).1
  unfolding merge_entry
  merge_entry-IsValid key e s v =
      let k = normalize_key key in
      let c = next_tick (max s.clock e.timestamp) in
      let up = le-next_tick (max s.clock e.timestamp) in
      let won =
        write-IsValid k e s c (normalize_key_idem key) (omega (arith, up)) (omega (arith, up)) v in
      elim (Option-cases (lookup k s.registers)) [
        | inl absent ↦ rw (absent, merge_entry) won
        | inr (old, there) ↦ elim (Bool-cases (supersedes e old)) [
          | inl newer ↦ rw (there, newer, merge_entry, if◌then◌else◌) won
          | inr older ↦
              rw (there, older, merge_entry, if◌then◌else◌) (tick-IsValid s c (omega (arith, up)) v)
        ]
      ]

  pub store_entry-IsValid :
      (k : String) (e : Entry V) (s : Store V P)
      → normalize_key k ≡ k
      → e.timestamp ≤ next_tick s.clock
      → IsValid s
      → IsValid (store_entry k e s).1
  unfolding store_entry
  store_entry-IsValid k e s n t v =
      let won = write-IsValid k e s (next_tick s.clock) n (le-next_tick s.clock) t v in
      elim (Option-cases (lookup k s.registers)) [
        | inl absent ↦ rw (absent, store_entry) won
        | inr (old, there) ↦ elim (Bool-cases (supersedes e old)) [
          | inl newer ↦ rw (there, newer, store_entry, if◌then◌else◌) won
          | inr older ↦
              rw (there, older, store_entry, if◌then◌else◌)
                (tick-IsValid s (next_tick s.clock) (le-next_tick s.clock) v)
        ]
      ]

  pub get_entry-IsValid :
      (now : ℕ) (key : String) (s : Store V P) → IsValid s → IsValid (get_entry now key s).1
  unfolding get_entry
  get_entry-IsValid now key s v =
      let k = normalize_key key in
      let u = v.unique_registers in
      elim (Option-cases (lookup k s.registers)) [
        | inl absent ↦ rw (absent, get_entry) v
        | inr (e, there) ↦ elim (Bool-cases (is_expired now e)) [
          | inr live ↦ rw (there, live, get_entry, if◌then◌else◌) v
          | inl old ↦
              rw (there, old, get_entry, if◌then◌else◌)
                (record {
                  clocked = λ j x found. v.clocked j x (lookup-remove k j s.registers x u found);
                  unique_registers = remove-Unique k s.registers u;
                  unique_logs = v.unique_logs;
                  canonical =
                      λ j x found. v.canonical j x (lookup-remove k j s.registers x u found);
                })
        ]
      ]

  merge_log_lem :
      (key : String) (l : List (LogEntry P)) (s : Store V P)
      → ((merge_log key l s).registers ≡ s.registers)
        × ((merge_log key l s).logs
            ≡ insert (normalize_key key) (Log.merge (log_at (normalize_key key) s) l) s.logs)
        × ((merge_log key l s).clock ≡ s.clock)
  unfolding merge_log save notify
  merge_log_lem key l s = (ground arith, ground arith, ground arith)

  logged_lem :
      (n : Note V P) (logs : List (String × List (LogEntry P))) (s : Store V P)
      → ((save (notify n (record s { logs = logs }))).registers ≡ s.registers)
        × ((save (notify n (record s { logs = logs }))).logs ≡ logs)
        × ((save (notify n (record s { logs = logs }))).clock ≡ s.clock)
  unfolding save notify
  logged_lem n logs s = (ground arith, ground arith, ground arith)

  pub logged-IsValid :
      (n : Note V P) (logs : List (String × List (LogEntry P))) (s : Store V P)
      → Unique logs
      → IsValid s
      → IsValid (save (notify n (record s { logs = logs })))
  logged-IsValid n logs s u v =
      let (registers, same, clock) = logged_lem n logs s in
      same-IsValid s (save (notify n (record s { logs = logs }))) registers (rw same u)
        (omega (arith, clock)) v

  pub merge_log-IsValid :
      (key : String) (l : List (LogEntry P)) (s : Store V P)
      → IsValid s
      → IsValid (merge_log key l s)
  merge_log-IsValid key l s v =
      let k = normalize_key key in
      let (registers, logs, clock) = merge_log_lem key l s in
      let kept = insert-Unique k (Log.merge (log_at k s) l) s.logs v.unique_logs in
      same-IsValid s (merge_log key l s) registers (rw logs kept) (omega (arith, clock)) v
