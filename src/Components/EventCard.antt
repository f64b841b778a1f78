-- ===== src/Components/EventCard.antt =====
-- dashboard/src/components/EventCard.jsx: one row of the activity feed.
pub mod Count
use Prim.Native.String.{◌++◌}
use ariesmesh.Prelude.{
  ℕ, String, Bool, true, Option, none, some, List, [], ◌∷◌, if◌then◌else◌, str_eq, to_lower,
  includes,
}
use ariesmesh.Dom.{Html, text, el, flag, ◌&◌, class, or_else, nothing}
use ariesmesh.Components.Age.{time_ago}

-- A field is `none` where the event lacks it; the time is in milliseconds.
pub record Event : Type 0 where
  pub type : Option String
  pub timestamp : ℕ
  pub description : Option String

-- the object TYPE_TONE
unfoldable pub type_tone : String → Option String
type_tone type =
    if str_eq type "peer_connect"
    then some "bg-aries-success"
    else if str_eq type "memory_sync"
    then some "bg-aries-success"
    else if str_eq type "invoke"
    then some "bg-sky-400"
    else if str_eq type "invoke_distributed"
    then some "bg-sky-400"
    else if str_eq type "agent_register"
    then some "bg-aries-teal"
    else if str_eq type "handoff_sent"
    then some "bg-aries-warning"
    else if str_eq type "handoff_recv"
    then some "bg-aries-warning"
    else if str_eq type "node_start"
    then some "bg-aries-teal"
    else none

unfoldable pub tone_for : Option String → String
unfolding type_tone includes to_lower
tone_for none = "bg-aries-text-dim"
tone_for (some type) =
    if str_eq type ""
    then "bg-aries-text-dim"
    else if includes "error" (to_lower type)
    then "bg-aries-error"
    else or_else (type_tone type) "bg-aries-teal"

-- a JSX child that may be missing
abbrev pub optional_text : {A : Type 0} → Option String → Html A
optional_text none = nothing
optional_text (some s) = text s

-- `now` is Date.now(). The feed passes an event, never a missing one.
unfoldable pub event_card : {A : Type 0} → ℕ → Event → Bool → Html A
event_card now event animated =
    el "div"
      (class (
          "flex items-start gap-3 px-3 py-2.5 rounded-lg border border-aries-border/60 "
          ++ ("bg-aries-surface/55 " ++ (if animated then "aries-slide-in" else "")))
        ∷ [])
      (el "span"
          (class ("mt-1.5 inline-block w-1.5 h-1.5 rounded-full shrink-0 " ++ tone_for event.type)
            ∷ flag "aria-hidden" true
            ∷ [])
          nothing
        & el "div" (class "flex-1 min-w-0" ∷ []) (
            el "div" (class "flex items-baseline justify-between gap-3" ∷ []) (
              el "span"
                (class "text-[10px] uppercase tracking-[0.16em] font-mono text-aries-text-dim" ∷ [])
                (optional_text event.type)
              & el "span" (class "text-[10px] text-aries-text-dim font-mono" ∷ [])
                  (text (time_ago now event.timestamp)))
            & el "div" (class "text-sm text-aries-text truncate" ∷ [])
                (optional_text event.description)))
