-- ===== src/Components/StatusBadge.antt =====
-- dashboard/src/components/StatusBadge.jsx
use Prim.Native.String.{◌++◌}
use ariesmesh.Prelude.{String, Bool, [], ◌∷◌, if◌then◌else◌, str_eq}
use ariesmesh.Dom.{Html, text, el, ◌&◌, class, nothing}

-- the object TONES, with `TONES.muted` for a key that it lacks
unfoldable pub tone_class : String → String
tone_class tone =
    if str_eq tone "success"
    then "bg-aries-success/15 text-aries-success ring-aries-success/30"
    else if str_eq tone "warning"
    then "bg-aries-warning/15 text-aries-warning ring-aries-warning/30"
    else if str_eq tone "error"
    then "bg-aries-error/15 text-aries-error ring-aries-error/30"
    else if str_eq tone "info"
    then "bg-aries-teal/10 text-aries-teal ring-aries-teal/25"
    else "bg-aries-surface text-aries-text-dim ring-aries-border"

unfoldable pub status_badge : {A : Type 0} → String → String → Bool → Html A
unfolding tone_class
status_badge tone label pulse =
    el "span"
      (class (
          "inline-flex items-center gap-1.5 px-2 py-0.5 rounded-full text-[11px] font-medium ring-1 ring-inset "
          ++ tone_class tone)
        ∷ [])
      (el "span"
          (class (
              "inline-block w-1.5 h-1.5 rounded-full bg-current "
              ++ (if pulse then "aries-pulse" else ""))
            ∷ [])
          nothing
        & text label)
