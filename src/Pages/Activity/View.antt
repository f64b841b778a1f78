-- ===== src/Pages/Activity/View.antt =====
-- The page that `Activity` of dashboard/src/pages/Activity.jsx renders, and what a reader finds on it.
use Prim.Native.String.{◌++◌}
use ariesmesh.Prelude.{
  ℕ, ◌==◌, Bool, not, ◌&&◌, [], ◌∷◌, if◌then◌else◌, str_eq, decimal, length, List,
}
use ariesmesh.Dom.{Html, nothing, text, el, ◌&◌, class, attr, on, when, each, each_from}
use ariesmesh.Components.EventCard.{Event, event_card}
use ariesmesh.Pages.Activity.{
  FilterGroup, filter_groups, Activity, visible, group_count, Action, toggle, choose,
}

unfoldable pub page_header : Activity → Html Action
page_header s = el "div" (class "flex flex-wrap items-center justify-between gap-4" ∷ []) (
    el "div" [] (
      el "div" (class "text-xs uppercase tracking-[0.18em] text-aries-text-dim" ∷ [])
        (text "Activity Feed")
      & el "div" (class "text-2xl font-semibold text-aries-text mt-0.5" ∷ [])
          (text (if s.connected then "Live event stream" else "Reconnecting…")))
    & el "div" (class "flex items-center gap-2" ∷ []) (
        el "button"
          (on "onClick" toggle
            ∷ class (
                "flex items-center gap-2 px-3 py-1.5 rounded-md text-sm font-medium "
                ++ (if s.paused
                    then "bg-aries-warning/15 text-aries-warning ring-1 ring-aries-warning/30"
                    else "bg-aries-surface text-aries-text ring-1 ring-aries-border hover:bg-aries-surface-hi"))
            ∷ [])
          (el (if s.paused then "Play" else "Pause")
              (attr "size" "14" ∷ attr "strokeWidth" "1.8" ∷ []) nothing
            & text (if s.paused then "Resume" else "Pause"))))

unfoldable pub chip : Activity → FilterGroup → Html Action
chip s g =
    el "button"
      (on "onClick" (choose g.key)
        ∷ class (
            "flex items-center gap-1.5 px-2.5 py-1 rounded-md text-xs font-medium transition-colors "
            ++ (if str_eq s.filter g.key
                then "bg-aries-teal/15 text-aries-teal ring-1 ring-aries-teal/30"
                else "text-aries-text-dim hover:text-aries-text hover:bg-aries-surface-hi"))
        ∷ [])
      (text g.label
        & el "span" (class "font-mono text-[10px] opacity-75" ∷ [])
            (text (decimal (group_count s.events g))))

abbrev chips : Activity → Html Action
chips s =
    el "div" (class "rounded-(--radius-card) border border-aries-border bg-aries-surface p-4" ∷ [])
      (el "div" (class "flex items-center gap-2 flex-wrap" ∷ []) (
        el "Filter" (attr "size" "14" ∷ attr "strokeWidth" "1.8" ∷ class "text-aries-text-dim" ∷ [])
          nothing
        & each filter_groups (chip s)))

abbrev empty_state : Bool → Html Action
empty_state paused = el "div" (class "text-center py-16" ∷ []) (
    el "Trash2"
      (attr "size" "26"
        ∷ attr "strokeWidth" "1.5"
        ∷ class "mx-auto text-aries-text-dim/60 mb-3"
        ∷ [])
      nothing
    & el "div" (class "text-aries-text text-sm" ∷ []) (text "No events match this filter.")
    & el "div" (class "text-xs text-aries-text-dim mt-1" ∷ []) (
        text (
          if paused
          then "Resume the feed or change filters to see live events."
          else "Run a command on the node to start generating events.")))

abbrev pub card : ℕ → Bool → ℕ → Event → Html Action
card now paused i ev = event_card now ev ((i == 0) && not paused)

unfoldable pub event_list : ℕ → Bool → List Event → Html Action
event_list now paused shown =
    el "div" (class "rounded-(--radius-card) border border-aries-border bg-aries-surface p-3" ∷ [])
      (if length shown == 0
        then empty_state paused
        else el "div" (class "space-y-1.5" ∷ []) (each_from 0 shown (card now paused)))

unfoldable pub page_footer : Activity → Html Action
page_footer s = el "div" (class "text-center text-[11px] text-aries-text-dim" ∷ []) (
    text "Showing "
    & text (decimal (length (visible s)))
    & text " of "
    & text (decimal (length s.events))
    & text " buffered events"
    & when s.paused (el "span" (class "text-aries-warning" ∷ []) (text " · paused")))

unfoldable pub activity_page : ℕ → Activity → Html Action
activity_page now s =
    el "div" (class "space-y-5" ∷ [])
      (page_header s & chips s & event_list now s.paused (visible s) & page_footer s)
