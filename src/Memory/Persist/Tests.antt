-- ===== src/Memory/Persist/Tests.antt =====
-- The restart of a device at a concrete input.
use ariesmesh.Prelude.{ℕ, String, true, Option, none, some, List}
use ariesmesh.Memory.Acl.{Capability}
use ariesmesh.Memory.Store.{Store, empty}
use ariesmesh.Memory.Writes.{set}
use ariesmesh.Memory.Valid.{after}

abbrev one_hash : Option ℕ → String
one_hash v = "h"

abbrev no_tokens : String → Option (List Capability)
no_tokens token = none

abbrev written_once : Store ℕ ℕ
written_once =
    after (empty "did:x" true)
      (set one_hash no_tokens 1000 "memory://a" (some 7) none none (empty "did:x" true))
