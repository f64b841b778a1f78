-- ===== src/Components/Age/Laws.antt =====
-- What the printed durations say about the times.
use Prim.Native.String.{◌++◌}
use ariesmesh.Prelude.{
  ℕ, ◌+◌, ◌*◌, ◌/◌, ◌<◌, ◌≡◌, some, arith, decimal, pad_two, ==_iff, Bool-cases, inl, inr, ◌==◌,
  if◌then◌else◌, ltb,
}
use ariesmesh.Components.Age.{second, format_duration, format_uptime, hours, minutes, seconds}

module _ (ms h m s : ℕ) (m_lt : m < 60) (s_lt : s < 60)
    (e : ms / second ≡ h * 3600 + m * 60 + s) where
  parts : (hours ms ≡ h) × (minutes ms ≡ m) × (seconds ms ≡ s)
  parts = (omega arith, omega arith, omega arith)

  -- The uptime of h hours, m minutes and s seconds is printed as "hh:mm:ss", each part with two
  -- digits at least, if it is not zero.
  pub format_uptime_lem :
      0 < ms → format_uptime (some ms) ≡ pad_two h ++ (":" ++ (pad_two m ++ (":" ++ pad_two s)))
  unfolding format_uptime
  format_uptime_lem pos = elim (Bool-cases (ms == 0)) [
    | inl z ↦ absurd (omega (arith, (==_iff ms 0).0 z))
    | inr nz ↦ rw (nz, parts.0, parts.1, parts.2)
  ]

  -- A duration prints its two largest units, from the first that is not zero.
  pub format_duration_lem :
      0 < ms
      → format_duration (some ms) ≡ (
          if ltb 0 h
          then decimal h ++ ("h " ++ (decimal m ++ "m"))
          else if ltb 0 m
          then decimal m ++ ("m " ++ (decimal s ++ "s"))
          else decimal s ++ "s")
  unfolding format_duration
  format_duration_lem pos = elim (Bool-cases (ms == 0)) [
    | inl z ↦ absurd (omega (arith, (==_iff ms 0).0 z))
    | inr nz ↦ rw (nz, parts.0, parts.1, parts.2)
  ]
