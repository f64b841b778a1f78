-- ===== src/Memory/Service.antt =====
-- `MemorySyncService` of src/aries/memory/sync.py: what a replica answers to the messages of the
-- synchronisation protocol. The transport, the debouncing and the periodic loop are left out: they
-- decide when a request is sent and to whom, which here is an argument.
pub mod Exchange
pub mod Round
use ariesmesh.Prelude.{ℕ, Bool, true, false, ◌||◌, Option, none, some, List, [], ◌∷◌, if◌then◌else◌}
use ariesmesh.Memory.Store.{Store}
use ariesmesh.Memory.Sync.{SyncState, Diff, get_sync_state, compute_diff, apply_diff}

-- The bodies of MEMORY_SYNC with the phases "request" and "response", MEMORY_SYNC with another phase,
-- and MEMORY_UPDATE. `_diff_from_wire` is the identity.
pub data Message (V P : Type 0) : Type 0 where
  request : SyncState → Diff V P → Message V P
  response : Diff V P → SyncState → Message V P
  other_phase : Message V P
  update : Diff V P → Message V P

-- the truth of a list
abbrev pub is_nonempty : {A : Type 0} → List A → Bool
is_nonempty [] = false
is_nonempty (x ∷ xs) = true

module _ {V P : Type 0} where
  -- `msg.body.get("diff", {})` of a body that has none
  abbrev pub no_diff : Diff V P
  no_diff = record { registers = []; logs = [] }

  -- `sync_with_peer`, and each message of `_push_to_peers`
  unfoldable pub sync_with_peer : ℕ → Store V P → Message V P
  sync_with_peer now s = request (get_sync_state now s) no_diff

  -- `_handle_sync` and `_handle_update`: the new store, and the message that is sent back.
  unfoldable pub handle : ℕ → Store V P → Message V P → Store V P × Option (Message V P)
  handle now s (request remote diff) =
      let ours = compute_diff now remote s in
      let s' = apply_diff diff s in (s', some (response ours (get_sync_state now s')))
  handle now s (response diff remote) =
      let s' = apply_diff diff s in
      let ours = compute_diff now remote s' in
      (
        s',
        (if is_nonempty ours.registers || is_nonempty ours.logs then some (update ours) else none),
      )
  handle now s other_phase = (s, none)
  handle now s (update diff) = (apply_diff diff s, none)

  -- The peer gets a message, or none.
  abbrev pub receive : ℕ → Store V P → Option (Message V P) → Store V P × Option (Message V P)
  receive now s none = (s, none)
  receive now s (some m) = handle now s m

  -- A round between two replicas: the request of the first, the response, and the update if there is
  -- one. No other message comes between them.
  unfoldable pub round : ℕ → Store V P → Store V P → Store V P × Store V P
  unfolding handle sync_with_peer
  round now s t =
      let (t', answer) = handle now t (sync_with_peer now s) in
      let (s', news) = receive now s answer in (s', (receive now t' news).0)
