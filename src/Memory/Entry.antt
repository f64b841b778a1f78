-- ===== src/Memory/Entry.antt =====
-- `LWWEntry` of src/aries/memory/store.py: a register that the last writer wins.
pub mod Order
use Prim.Native.Char.{code}
use ariesmesh.Prelude.{
  ℕ, ◌+◌, String, Bool, true, false, Option, none, some, ltb, ◌==◌, if◌then◌else◌,
}

-- The value `none` is Python's None. The Lamport timestamps are floats that only ever grow by one
-- from 0, so whole numbers; wall clocks and TTLs are in milliseconds.
pub record Entry (V : Type 0) : Type 0 where
  pub value : Option V
  pub timestamp : ℕ
  pub device_did : String
  pub wall_clock : ℕ
  pub content_hash : String
  pub ttl : Option ℕ

-- `s < t` on Python strings: by code points, from the left.
unfoldable pub str_ltb : String → String → Bool
str_ltb String.[] String.[] = false
str_ltb String.[] (String.◌∷◌ d t) = true
str_ltb (String.◌∷◌ c s) String.[] = false
str_ltb (String.◌∷◌ c s) (String.◌∷◌ d t) =
    let rest = str_ltb s t in if code c == code d then rest else ltb (code c) (code d)

module _ {V : Type 0} where
  unfoldable pub is_expired : ℕ → Entry V → Bool
  is_expired now e = elim e.ttl [ none ↦ false | some ttl ↦ ltb (e.wall_clock + ttl) now ]

  unfoldable pub supersedes : Entry V → Entry V → Bool
  supersedes e other =
      if e.timestamp == other.timestamp
      then str_ltb other.device_did e.device_did
      else ltb other.timestamp e.timestamp
