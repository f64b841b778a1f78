-- ===== src/Components/Age.antt =====
-- The ages and durations that the dashboard prints: `timeAgo` of EventCard.jsx, `formatLastSeen` and
-- `formatDuration` of DeviceTooltip.jsx, `formatUptime` of pages/Topology.jsx. Times are whole
-- milliseconds, so that `Math.floor` of a number of seconds is a division.
pub mod Laws
use Prim.Native.String.{◌++◌}
use ariesmesh.Prelude.{
  ℕ, ◌-◌, ◌*◌, ◌/◌, ◌%◌, String, Option, none, some, decimal, pad_two, ltb, ◌==◌, if◌then◌else◌,
}

abbrev pub second : ℕ
second = 1000

-- The ladder that `timeAgo` and `formatLastSeen` share.
unfoldable pub ago : ℕ → String
unfolding decimal
ago ms =
    if ltb ms (5 * second)
    then "just now"
    else if ltb ms (60 * second)
    then decimal (ms / second) ++ "s ago"
    else if ltb ms (3600 * second)
    then decimal (ms / (60 * second)) ++ "m ago"
    else if ltb ms (86400 * second)
    then decimal (ms / (3600 * second)) ++ "h ago"
    else decimal (ms / (86400 * second)) ++ "d ago"

-- `Math.max(0, Date.now() / 1000 - ts)`, with the subtraction that stops at 0.
unfoldable pub time_ago : ℕ → ℕ → String
unfolding ago
time_ago now ts = ago (now - ts)

unfoldable pub format_last_seen : Option ℕ → String
unfolding ago
format_last_seen none = "—"
format_last_seen (some ms) = ago ms

abbrev pub hours : ℕ → ℕ
hours ms = ms / (3600 * second)

abbrev pub minutes : ℕ → ℕ
minutes ms = ms % (3600 * second) / (60 * second)

abbrev pub seconds : ℕ → ℕ
seconds ms = ms % (60 * second) / second

-- A duration is never negative here; zero and a missing one are falsy.
unfoldable pub format_duration : Option ℕ → String
unfolding decimal
format_duration none = "—"
format_duration (some ms) =
    if ms == 0
    then "—"
    else if ltb 0 (hours ms)
    then decimal (hours ms) ++ ("h " ++ (decimal (minutes ms) ++ "m"))
    else if ltb 0 (minutes ms)
    then decimal (minutes ms) ++ ("m " ++ (decimal (seconds ms) ++ "s"))
    else decimal (seconds ms) ++ "s"

unfoldable pub format_uptime : Option ℕ → String
unfolding pad_two
format_uptime none = "—"
format_uptime (some ms) =
    if ms == 0
    then "—"
    else pad_two (hours ms) ++ (":" ++ (pad_two (minutes ms) ++ (":" ++ pad_two (seconds ms))))
