-- ===== src/Pages/Tests.antt =====
-- The theorems on the pages at concrete inputs.
use ariesmesh.Prelude.{ℕ, ◌≡◌, refl, String, true, false, none, some, List, [], ◌∷◌, All}
use ariesmesh.Prelude.Naturals.{whole}
use ariesmesh.Components.EventCard.{Event}
use ariesmesh.Pages.Activity.{Activity, filter_groups, visible, toggle_pause}
use ariesmesh.Pages.Activity.Feed.{deliver, IsCounted, counts_exact, pause_keeps}

abbrev event : String → ℕ → Event
event type t = record { type = some type; timestamp = t; description = none }

abbrev feed : List Event
feed = event "peer_connect" 9 ∷ event "invoke_error" 8 ∷ event "handoff_sent" 7 ∷ []

abbrev page : Activity
page = record { events = feed; connected = true; filter = "error"; paused = false; snapshot = [] }

counts_exact_example : All (IsCounted page) filter_groups
counts_exact_example = counts_exact page refl

pause_keeps_example : visible (deliver [] (toggle_pause page)) ≡ visible page
pause_keeps_example = pause_keeps page [] refl
