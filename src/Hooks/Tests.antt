-- ===== src/Hooks/Tests.antt =====
-- The theorems on the hooks at concrete inputs.
use ariesmesh.Prelude.{
  ℕ, ◌≡◌, refl, ◌≤◌, ◌+◌, ◌⊎◌, String, true, false, Option, none, some, List, [], ◌∷◌, length, take,
  All, str_eq, if◌then◌else◌, decimal,
}
use ariesmesh.Hooks.Sse
use ariesmesh.Hooks.Sse.{Sse, first_backoff, max_backoff, opened, message, failed, fire, mount}
use ariesmesh.Hooks.Sse.Buffer.{received, events-run-mount}
use ariesmesh.Hooks.Sse.Connection.{
  Reach, start, next, after, one_connection, connected-open, delays_bounded,
}
use ariesmesh.Hooks.Api
use ariesmesh.Hooks.Api.{Poll, initial, effect, tick, settle, body, bad_status}
use ariesmesh.Hooks.Api.Polling.{shown, history, shown-run, IsFull, loaded-shows}

-- A message is its own text, unless it is empty.
abbrev parse : String → Option String
parse s = if str_eq s "" then none else some s

abbrev mounted : Sse String
mounted = mount []

-- A source that opens, brings three messages and a broken one, and fails.
abbrev session : List Sse.Signal
session = opened 0 ∷ message 0 "a" ∷ message 0 "" ∷ message 0 "b" ∷ message 0 "c" ∷ failed 0 ∷ []

events-run-mount_example :
    (Sse.run 2 parse (mount []) session).events ≡ take 2 (received 2 parse session [])
events-run-mount_example = events-run-mount 2 parse session

session_events : (Sse.run 2 parse mounted session).events ≡ "c" ∷ "b" ∷ []
unfolding Sse.step mount
session_events = refl

open-Reach : Reach 2 parse (after 2 parse mounted (opened 0))
unfolding mount
open-Reach = next (opened 0) (start []) refl

failed-Reach : Reach 2 parse (after 2 parse mounted (failed 0))
unfolding mount
failed-Reach = next (failed 0) (start []) refl

closed-Reach : Reach 2 parse (after 2 parse mounted Sse.unmount)
unfolding mount
closed-Reach = next Sse.unmount (start []) refl

open_live :
    ((after 2 parse mounted (opened 0)).cancelled ≡ false)
    × ((after 2 parse mounted (opened 0)).connected ≡ true)
unfolding mount Sse.step
open_live = (refl, refl)

failed_live : (after 2 parse mounted (failed 0)).cancelled ≡ false
unfolding mount Sse.step
failed_live = refl

closed_off : (after 2 parse mounted Sse.unmount).cancelled ≡ true
unfolding mount Sse.step
closed_off = refl

one_connection_example :
    length (after 2 parse mounted (failed 0)).sources
      + length (after 2 parse mounted (failed 0)).timers
    ≡ 1
one_connection_example = one_connection 2 parse failed-Reach failed_live

connected-open_example :
    (id : ℕ) × ((after 2 parse mounted (opened 0)).sources ≡ id ∷ [])
    × ((after 2 parse mounted (opened 0)).current ≡ some id)
connected-open_example = connected-open 2 parse open-Reach open_live.0 open_live.1

delays_bounded_example :
    All (λ d. (first_backoff ≤ d) × (d ≤ max_backoff)) (after 2 parse mounted (failed 0)).timers
delays_bounded_example = delays_bounded 2 parse failed-Reach failed_live

-- The endpoint changes while a request is under way; its answer comes late.
abbrev poll_trace : List (Api.Signal ℕ)
poll_trace =
    effect (some "/api/peers") 5000
    ∷ effect (some "/api/agents") 5000
    ∷ settle 2 (body (some 3))
    ∷ settle 1 (body (some 9))
    ∷ tick
    ∷ settle 2 (bad_status 503)
    ∷ Api.unmount
    ∷ []

poll_shown : shown (Api.run initial poll_trace) ≡ (some 3, some "HTTP 503", false)
unfolding Api.step decimal
poll_shown = refl

shown-run_example :
    shown (Api.run initial poll_trace) ≡ history 0 true poll_trace (none, none, true)
shown-run_example = shown-run poll_trace initial

poll_loaded : (Api.run initial poll_trace).loading ≡ false
unfolding Api.step
poll_loaded = refl

poll-IsFull : All IsFull poll_trace
poll-IsFull = (tt, (tt, (tt, (tt, (tt, (tt, (tt, tt)))))))

loaded-shows_example :
    ((d : ℕ) × ((Api.run initial poll_trace).value ≡ some d))
    ⊎ ((e : String) × ((Api.run initial poll_trace).error ≡ some e))
loaded-shows_example = loaded-shows poll_trace poll-IsFull poll_loaded
