-- ===== src/Pages/Activity.antt =====
-- dashboard/src/pages/Activity.jsx: the feed with its filter and its pause.
pub mod Feed
pub mod View
pub mod Cards
use ariesmesh.Prelude.{
  ℕ, String, Bool, true, false, not, Option, none, some, List, [], ◌∷◌, if◌then◌else◌, str_eq, keep,
  length, starts_with, includes, to_lower, strip_prefix,
}
use ariesmesh.Dom.{or_else}
use ariesmesh.Components.EventCard.{Event}

-- `match` is `none` for the group that has none.
pub record FilterGroup : Type 0 where
  pub key : String
  pub label : String
  pub match : Option (String → Bool)

abbrev pub group : String → String → Option (String → Bool) → FilterGroup
group key label match = record { key = key; label = label; match = match }

-- the constant FILTER_GROUPS
unfoldable pub filter_groups : List FilterGroup
unfolding strip_prefix includes to_lower
filter_groups =
    group "all" "All" none
    ∷ group "peer" "Peers" (some (λ t. starts_with "peer_" t))
    ∷ group "invoke" "Invocations" (some (λ t. includes "invoke" t))
    ∷ group "handoff" "Handoffs" (some (λ t. starts_with "handoff_" t))
    ∷ group "agent" "Agents" (some (λ t. starts_with "agent_" t))
    ∷ group "error" "Errors" (some (λ t. includes "error" (to_lower t)))
    ∷ []

-- The React state of the page; `events` is what `useSSE(200)` returns.
pub record Activity : Type 0 where
  pub events : List Event
  pub connected : Bool
  pub filter : String
  pub paused : Bool
  pub snapshot : List Event

unfoldable pub find_group : String → List FilterGroup → Option FilterGroup
find_group key [] = none
find_group key (g ∷ gs) = let rest = find_group key gs in if str_eq g.key key then some g else rest

-- `source.filter((e) => group.match(e.type || ''))`
abbrev pub matching : (String → Bool) → List Event → List Event
matching match = keep (λ e. match (or_else e.type ""))

-- the last two statements of the memo `visible`
unfoldable pub by_group : Option FilterGroup → List Event → List Event
by_group none source = source
by_group (some g) source = elim g.match [ none ↦ source | some match ↦ matching match source ]

-- the memo `visible` from its second statement on
unfoldable pub filtered : String → List Event → List Event
unfolding find_group filter_groups by_group
filtered filter source =
    if str_eq filter "all" then source else by_group (find_group filter filter_groups) source

-- the memo `visible`
unfoldable pub visible : Activity → List Event
visible s = let source = if s.paused then s.snapshot else s.events in filtered s.filter source

unfoldable pub toggle_pause : Activity → Activity
toggle_pause s =
    let s' = if s.paused then s else record s { snapshot = s.events } in
    record s' { paused = not s.paused }

unfoldable pub set_filter : String → Activity → Activity
set_filter key s = record s { filter = key }

-- The memo `groupCounts`, at one group of FILTER_GROUPS.
unfoldable pub group_count : List Event → FilterGroup → ℕ
group_count events g =
    if str_eq g.key "all"
    then length events
    else elim g.match [ none ↦ length events | some match ↦ length (matching match events) ]

-- What the user does.
pub data Action : Type 0 where
  toggle : Action
  choose : String → Action

unfoldable pub act : Activity → Action → Activity
unfolding toggle_pause set_filter
act s toggle = toggle_pause s
act s (choose key) = set_filter key s
