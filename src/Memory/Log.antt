-- ===== src/Memory/Log.antt =====
-- `AppendLog` of src/aries/memory/store.py.
pub mod Keys
pub mod Sorting
use mathlib.Core.List.{◌++◌}
use ariesmesh.Prelude.{
  ℕ, String, Bool, true, false, Option, none, some, ◌&&◌, List, [], ◌∷◌, if◌then◌else◌, ◌==◌,
  str_eq, leb, any, length, drop,
}

-- A record of the log: the caller's fields, and `_seq`, `_device`, `_ts`. A missing `_seq` and the
-- number -1 are `none`, a missing `_device` is the empty text, the time is in milliseconds.
pub record LogEntry (P : Type 0) : Type 0 where
  pub fields : P
  pub seq : Option ℕ
  pub device : String
  pub ts : ℕ

abbrev pub same_seq : Option ℕ → Option ℕ → Bool
same_seq none none = true
same_seq none (some n) = false
same_seq (some m) none = false
same_seq (some m) (some n) = m == n

module _ {P : Type 0} where
  -- equality of the keys `(_device, _seq)` that `merge` compares
  unfoldable pub same_key : LogEntry P → LogEntry P → Bool
  same_key a b = str_eq a.device b.device && same_seq a.seq b.seq

  unfoldable pub has_key : LogEntry P → List (LogEntry P) → Bool
  unfolding same_key
  has_key e l = any (λ x. same_key x e) l

  -- The method `append`, at the time `now`.
  unfoldable pub append : List (LogEntry P) → P → String → ℕ → List (LogEntry P)
  append l fields device now =
      l ++ (record { fields = fields; seq = some (length l); device = device; ts = now } ∷ [])

  -- The loop of `merge`. The set `seen` holds the keys of the records so far, so it is not kept
  -- beside them.
  unfoldable pub absorb : List (LogEntry P) → List (LogEntry P) → List (LogEntry P)
  unfolding has_key
  absorb l [] = l
  absorb l (r ∷ rs) = absorb (if has_key r l then l else l ++ (r ∷ [])) rs

  -- Python's `sort` is stable: a record goes in front of the later ones with the same time.
  unfoldable pub insert_sorted : LogEntry P → List (LogEntry P) → List (LogEntry P)
  insert_sorted e [] = e ∷ []
  insert_sorted e (x ∷ xs) = if leb e.ts x.ts then e ∷ x ∷ xs else x ∷ insert_sorted e xs

  unfoldable pub sort_by_ts : List (LogEntry P) → List (LogEntry P)
  unfolding insert_sorted
  sort_by_ts [] = []
  sort_by_ts (e ∷ l) = insert_sorted e (sort_by_ts l)

  unfoldable pub merge : List (LogEntry P) → List (LogEntry P) → List (LogEntry P)
  unfolding absorb sort_by_ts
  merge l remote = sort_by_ts (absorb l remote)

  -- `since`, at an index that is not negative
  abbrev pub since : List (LogEntry P) → ℕ → List (LogEntry P)
  since l index = drop index l
