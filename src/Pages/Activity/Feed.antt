-- ===== src/Pages/Activity/Feed.antt =====
-- What the feed of Activity.jsx shows.
use Prim.Native.Nat.{◌≤◌}
use ariesmesh.Prelude.{
  String, ◌≡◌, refl, Bool, true, false, Option, none, some, List, arith, length, length-keep, All,
  str_eq, Bool-cases, Option-cases, inl, inr,
}
use ariesmesh.Dom.{or_else}
use ariesmesh.Components.EventCard.{Event}
use ariesmesh.Pages.Activity.{
  FilterGroup, filter_groups, Activity, find_group, by_group, filtered, visible, matching,
  group_count, toggle_pause, set_filter, Action, toggle, choose, act,
}

abbrev pub deliver : List Event → Activity → Activity
deliver events s = record s { events = events }

-- While the page is paused, what is shown does not depend on the events that arrive.
pub paused_frozen :
    (s : Activity) (events : List Event) → s.paused ≡ true → visible (deliver events s) ≡ visible s
unfolding visible
paused_frozen s events h = ground arith

-- Pausing keeps what is shown, whatever arrives next.
pub pause_keeps :
    (s : Activity) (events : List Event)
    → s.paused ≡ false
    → visible (deliver events (toggle_pause s)) ≡ visible s
unfolding visible toggle_pause
pause_keeps s events h = ground arith

-- Pausing and resuming shows the events that have arrived by then.
pub resume_live :
    (s : Activity) (events : List Event)
    → s.paused ≡ false
    → visible (toggle_pause (deliver events (toggle_pause s))) ≡ visible (deliver events s)
unfolding visible toggle_pause
resume_live s events h = ground arith

abbrev pub IsCounted : Activity → FilterGroup → Type 0
IsCounted s g = group_count s.events g ≡ length (visible (set_filter g.key s))

-- On a page that is not paused, the count on each chip is the number of events that are shown when
-- the chip is chosen.
pub counts_exact : (s : Activity) → s.paused ≡ false → All (IsCounted s) filter_groups
unfolding visible filtered group_count set_filter
counts_exact s h = rw h (refl, (refl, (refl, (refl, (refl, (refl, tt))))))

length-matching : (match : String → Bool) (l : List Event) → length (matching match l) ≤ length l
length-matching match l = length-keep (λ e. match (or_else e.type "")) l

length-by_group : (o : Option FilterGroup) (l : List Event) → length (by_group o l) ≤ length l
unfolding by_group
length-by_group none l = omega arith
length-by_group (some g) l = elim (Option-cases g.match) [
  | inl e ↦ rw e (omega arith)
  | inr (match, e) ↦ rw e (length-matching match l)
]

length-filtered : (filter : String) (l : List Event) → length (filtered filter l) ≤ length l
unfolding filtered
length-filtered filter l = elim (Bool-cases (str_eq filter "all")) [
  | inl e ↦ rw e (omega arith)
  | inr e ↦ rw e (length-by_group (find_group filter filter_groups) l)
]

-- The snapshot is no longer than the buffer, which only grows.
abbrev pub IsBuffered : Activity → Type 0
IsBuffered s = length s.snapshot ≤ length s.events

length-visible : (s : Activity) → IsBuffered s → length (visible s) ≤ length s.events
unfolding visible
length-visible s h = elim (Bool-cases s.paused) [
  | inl e ↦ rw e (omega (arith, length-filtered s.filter s.snapshot))
  | inr e ↦ rw e (omega (arith, length-filtered s.filter s.events))
]

act-IsBuffered : (s : Activity) (a : Action) → IsBuffered s → IsBuffered (act s a)
unfolding act
act-IsBuffered s toggle h = ground arith
act-IsBuffered s (choose key) h = h

-- Whatever the user does, the page is left with a snapshot that is no longer than the buffer, and
-- "Showing n of m buffered events" has n ≤ m.
pub length-visible-act :
    (s : Activity) (a : Action)
    → IsBuffered s
    → IsBuffered (act s a) × (length (visible (act s a)) ≤ length (act s a).events)
length-visible-act s a h = let b = act-IsBuffered s a h in (b, length-visible (act s a) b)
