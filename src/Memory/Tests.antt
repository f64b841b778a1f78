-- ===== src/Memory/Tests.antt =====
-- The theorems on the store at concrete inputs.
use ariesmesh.Prelude.{
  In, ℕ, ◌≤◌, ◌≡◌, refl, sym, ◌∙◌, ap, String, true, false, ◌||◌, Option, none, some, List, [], ◌∷◌,
  inl, inr, arith, ◌+◌, strip_prefix,
}
use ariesmesh.Memory.Key.{memory, normalize_key, from_key}
use ariesmesh.Memory.Key.Laws.{from_key-normalize_key}
use ariesmesh.Memory.Acl.{Capability, resource_covers_key}
use ariesmesh.Memory.Acl.Sound.{Below, covers_sound}
use ariesmesh.Memory.Entry.{Entry, is_expired, supersedes, str_ltb}
use ariesmesh.Memory.Log.{LogEntry, has_key, merge}
use ariesmesh.Memory.Log.Keys.{has_key-merge, Distinct, merge-Distinct}
use ariesmesh.Memory.Store.{Store, done, empty, lookup, insert, merge_entry}
use ariesmesh.Memory.Store.Registers.{Unique}
use ariesmesh.Memory.Store.Clock.{IsClocked}
use ariesmesh.Memory.Store.Converge.{Coherent, SameMembers, convergence}
use ariesmesh.Memory.Sync.{deliver, get_sync_state, compute_diff, apply_diff, log_lengths}
use ariesmesh.Memory.Sync.Registers.{register_never_back}
use ariesmesh.Memory.Sync.Logs.{equal_lengths_silent}
use ariesmesh.Memory.Sync.CatchUp.{exchange_catches_up}
use ariesmesh.Memory.Valid.{IsValid, Reach, created, merged}
use ariesmesh.Memory.Valid.Reached.{Reach-IsValid}
use ariesmesh.Memory.Service.{round}
use ariesmesh.Memory.Service.Round.{IsLive, Agree, SameStampSameHash, round_agrees}
use ariesmesh.Memory.Writes.{permitted, new_entry, ttl_or_default, set}
use ariesmesh.Memory.Writes.Wins.{set_wins}

-- Two writers of one key, under its two spellings.
abbrev entry : ℕ → String → ℕ → Entry ℕ
entry v device t = record {
  value = some v;
  timestamp = t;
  device_did = device;
  wall_clock = 0;
  content_hash = "";
  ttl = none;
}

abbrev first : String × Entry ℕ
first = ("memory://a", entry 7 "did:x" 1)

abbrev second : String × Entry ℕ
second = ("aries:memory://a", entry 8 "did:y" 2)

abbrev sent : List (String × Entry ℕ)
sent = first ∷ second ∷ []

abbrev sent_otherwise : List (String × Entry ℕ)
sent_otherwise = second ∷ first ∷ second ∷ []

abbrev store_x : Store ℕ ℕ
store_x = empty "did:x" false

abbrev store_y : Store ℕ ℕ
store_y = empty "did:y" true

abbrev stamp : String × Entry ℕ → ℕ
stamp t = t.1.timestamp

sent-Coherent : Coherent sent
sent-Coherent k k' e e' (inl p) (inl q) n t d =
    ap (λ (u : String × Entry ℕ). u.1) p ∙ sym (ap (λ (u : String × Entry ℕ). u.1) q)
sent-Coherent k k' e e' (inr (inl p)) (inr (inl q)) n t d =
    ap (λ (u : String × Entry ℕ). u.1) p ∙ sym (ap (λ (u : String × Entry ℕ). u.1) q)
sent-Coherent k k' e e' (inl p) (inr (inl q)) n t d = absurd (omega (arith, ap stamp p, ap stamp q))
sent-Coherent k k' e e' (inr (inl p)) (inl q) n t d = absurd (omega (arith, ap stamp p, ap stamp q))
sent-Coherent k k' e e' (inr (inr m)) m' n t d = absurd m
sent-Coherent k k' e e' m (inr (inr m')) n t d = absurd m'

sent-SameMembers : SameMembers sent sent_otherwise
sent-SameMembers = (to, from)
  where
    to : (k : String) (e : Entry ℕ) → In (k, e) sent → In (k, e) sent_otherwise
    to k e (inl p) = inr (inl p)
    to k e (inr (inl p)) = inl p
    to k e (inr (inr m)) = absurd m

    from : (k : String) (e : Entry ℕ) → In (k, e) sent_otherwise → In (k, e) sent
    from k e (inl p) = inr (inl p)
    from k e (inr (inl p)) = inl p
    from k e (inr (inr (inl p))) = inr (inl p)
    from k e (inr (inr (inr m))) = absurd m

convergence_example :
    lookup "aries:memory://a" (deliver store_x sent).registers
    ≡ lookup "aries:memory://a" (deliver store_y sent_otherwise).registers
convergence_example =
    convergence store_x store_y sent sent_otherwise "aries:memory://a" refl refl sent-Coherent
      sent-SameMembers

delivered_last :
    lookup "aries:memory://a" (deliver store_y sent_otherwise).registers ≡ some (entry 8 "did:y" 2)
unfolding lookup insert deliver merge_entry supersedes str_ltb normalize_key
delivered_last = refl

empty-IsClocked : IsClocked store_x
unfolding lookup
empty-IsClocked j e found = cc

legacy_named : from_key "memory://a" ≡ some (memory, "a")
unfolding from_key
legacy_named = refl

abbrev no_hash : Option ℕ → String
no_hash v = ""

abbrev no_tokens : String → Option (List Capability)
no_tokens t = none

local_allowed : permitted no_tokens (normalize_key "memory://a") none ≡ true
unfolding permitted
local_allowed = refl

abbrev written : Entry ℕ
written = new_entry no_hash 5 (some 9) (ttl_or_default none memory) store_x

set_wins_example :
    (s' : Store ℕ ℕ) × (set no_hash no_tokens 5 "memory://a" (some 9) none none store_x
      ≡ done (written, s'))
    × (lookup (normalize_key "memory://a") s'.registers ≡ some written)
    × (s'.clock ≡ store_x.clock + 1)
    × IsClocked s'
set_wins_example =
    set_wins no_hash no_tokens 5 "memory://a" (some 9) none none store_x memory "a" empty-IsClocked
      (omega arith) legacy_named local_allowed

task_covered : resource_covers_key "aries:context://tasks/*" "aries:context://tasks/1" ≡ true
unfolding resource_covers_key strip_prefix
task_covered = refl

covers_sound_example : Below "aries:context://tasks/*" "aries:context://tasks/1"
covers_sound_example = covers_sound "aries:context://tasks/*" "aries:context://tasks/1" task_covered

abbrev row : ℕ → String → ℕ → LogEntry ℕ
row n device t = record { fields = 0; seq = some n; device = device; ts = t }

abbrev own_log : List (LogEntry ℕ)
own_log = row 0 "did:x" 10 ∷ row 1 "did:x" 30 ∷ []

abbrev remote_log : List (LogEntry ℕ)
remote_log = row 0 "did:y" 20 ∷ row 0 "did:x" 10 ∷ []

logs_merged : merge own_log remote_log ≡ row 0 "did:x" 10 ∷ row 0 "did:y" 20 ∷ row 1 "did:x" 30 ∷ []
unfolding merge
logs_merged = refl

own_log-Distinct : Distinct own_log
unfolding has_key
own_log-Distinct = (refl, (refl, tt))

has_key-merge_example :
    has_key (row 0 "did:y" 20) (merge own_log remote_log)
    ≡ has_key (row 0 "did:y" 20) own_log || has_key (row 0 "did:y" 20) remote_log
has_key-merge_example = has_key-merge (row 0 "did:y" 20) own_log remote_log

merge-Distinct_example : Distinct (merge own_log remote_log)
merge-Distinct_example = merge-Distinct own_log remote_log own_log-Distinct

from_key-normalize_key_example : from_key (normalize_key "notes/1") ≡ from_key "notes/1"
from_key-normalize_key_example = from_key-normalize_key "notes/1"

abbrev told : Store ℕ ℕ
told = (merge_entry first.0 first.1 store_x).1

told-Reach : Reach no_hash no_tokens told
told-Reach = merged first.0 first.1 (created "did:x" false)

Reach-IsValid_example : IsValid told
Reach-IsValid_example = Reach-IsValid no_hash no_tokens told-Reach

told_first :
    (lookup "aries:memory://a" told.registers ≡ some first.1) × (is_expired 5 first.1 ≡ false)
unfolding lookup insert merge_entry normalize_key is_expired
told_first = (refl, refl)

exchange_catches_up_example :
    (w : Entry ℕ) × (lookup "aries:memory://a"
        (apply_diff (compute_diff 5 (get_sync_state 5 store_y) told) store_y).registers
      ≡ some w)
    × (first.1.timestamp ≤ w.timestamp)
exchange_catches_up_example =
    exchange_catches_up no_hash no_tokens 5 told store_y told-Reach (created "did:y" true)
      "aries:memory://a" first.1 told_first.0 told_first.1

register_never_back_example :
    (w : Entry ℕ) × (lookup "aries:memory://a" (deliver told sent_otherwise).registers ≡ some w)
    × (supersedes first.1 w ≡ false)
register_never_back_example =
    register_never_back sent_otherwise told "aries:memory://a" first.1 told_first.0

-- Each replica has one record, of its own.
abbrev log_of : String → Store ℕ ℕ → Store ℕ ℕ
log_of device s = record s { logs = ("aries:memory://log", row 0 device 10 ∷ []) ∷ [] }

logs-Unique : Unique (log_of "did:x" store_x).logs
unfolding lookup
logs-Unique = (refl, tt)

logs_as_long : log_lengths (log_of "did:y" store_y).logs ≡ log_lengths (log_of "did:x" store_x).logs
unfolding log_lengths
logs_as_long = refl

equal_lengths_silent_example :
    (compute_diff 5 (get_sync_state 5 (log_of "did:y" store_y)) (log_of "did:x" store_x)).logs ≡ []
equal_lengths_silent_example =
    equal_lengths_silent 5 (log_of "did:x" store_x) (log_of "did:y" store_y) logs-Unique
      logs_as_long

-- The second replica has the later write of the key.
abbrev told_later : Store ℕ ℕ
told_later = (merge_entry second.0 second.1 store_y).1

told_later-Reach : Reach no_hash no_tokens told_later
told_later-Reach = merged second.0 second.1 (created "did:y" true)

entries-IsLive :
    IsLive 5 (lookup "aries:memory://a" told.registers)
    × IsLive 5 (lookup "aries:memory://a" told_later.registers)
unfolding lookup insert merge_entry normalize_key is_expired
entries-IsLive = (refl, refl)

stamps_differ :
    SameStampSameHash
      (lookup "aries:memory://a" told.registers)
      (lookup "aries:memory://a" told_later.registers)
unfolding lookup insert merge_entry normalize_key
stamps_differ t d = refl

round_agrees_example :
    Agree
      (lookup "aries:memory://a" (round 5 told told_later).0.registers)
      (lookup "aries:memory://a" (round 5 told told_later).1.registers)
round_agrees_example =
    round_agrees no_hash no_tokens 5 told told_later "aries:memory://a" told-Reach told_later-Reach
      entries-IsLive.0 entries-IsLive.1 stamps_differ
