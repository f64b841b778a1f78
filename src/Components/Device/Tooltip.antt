-- ===== src/Components/Device/Tooltip.antt =====
-- dashboard/src/components/DeviceTooltip.jsx: the hover card of a device.
use Prim.Native.String.{◌++◌}
use ariesmesh.Prelude.{
  ℕ, String, Bool, not, Option, none, some, [], ◌∷◌, if◌then◌else◌, Number, decimal, ◌==◌, is_some,
  ◌&&◌,
}
use ariesmesh.Dom.{Html, nothing, text, el, ◌&◌, class, attr, when, or_else}
use ariesmesh.Components.Age.{format_last_seen, format_duration}
use ariesmesh.Components.Device.Icon.{label_for_platform}

-- The object that the parent hands over; a field that it lacks is `none`. Times are milliseconds.
pub record Device (F : Type 0) : Type 0 where
  pub name : Option String
  pub platform : Option String
  pub is_self : Bool
  pub online : Bool
  pub did_short : Option String
  pub host : Option String
  pub port : Option ℕ
  pub latency_ms : Option F
  pub last_seen_ago : Option ℕ
  pub uptime : Option ℕ

-- `port ? ...`: the port 0 is falsy.
unfoldable pub port_suffix : Option ℕ → String
port_suffix none = ""
port_suffix (some p) = if p == 0 then "" else ":" ++ decimal p

abbrev term : {A : Type 0} → String → Html A
term label = el "dt" (class "text-aries-text-dim" ∷ []) (text label)

-- `{host && ...}` shows nothing for a missing or an empty host.
abbrev address : {A : Type 0} → Option String → Option ℕ → Html A
address none port = nothing
address (some String.[]) port = nothing
address (some (String.◌∷◌ c r)) port =
    term "Address"
    & el "dd" (class "text-aries-text font-mono" ∷ [])
        (text (String.◌∷◌ c r) & text (port_suffix port))

module _ {F : Type 0} ⦃num : Number F⦄ where
  unfoldable pub latency_text : Option F → String
  latency_text none = "—"
  latency_text (some ms) = decimal (num.round ms) ++ " ms"

  -- `style` is the position that the parent gives; no device, no card.
  unfoldable pub device_tooltip : {A : Type 0} → Option (Device F) → String → String → Html A
  unfolding latency_text port_suffix format_last_seen format_duration label_for_platform
  device_tooltip none left top = nothing
  device_tooltip (some d) left top =
      el "div"
        (class "aries-tooltip absolute z-20 pointer-events-none"
          ∷ attr "style.left" left
          ∷ attr "style.top" top
          ∷ [])
        (el "div"
          (class
              "w-[260px] rounded-xl border border-aries-border bg-aries-surface/95 backdrop-blur-md shadow-[0_8px_30px_rgba(0,0,0,0.55)] p-3.5"
            ∷ [])
          (el "div" (class "flex items-baseline justify-between gap-2 mb-2" ∷ []) (
              el "div" (class "min-w-0" ∷ []) (
                el "div" (class "text-sm font-semibold text-aries-text truncate" ∷ [])
                  (text (or_else d.name "—"))
                & el "div"
                    (class "text-[10px] uppercase tracking-[0.18em] text-aries-text-dim" ∷ [])
                    (text (if d.is_self then "host device" else "peer")))
              & el "span"
                  (class (
                      "inline-flex items-center gap-1.5 px-2 py-0.5 rounded-full text-[10px] font-medium "
                      ++ (if d.online
                          then "bg-aries-success/15 text-aries-success ring-1 ring-aries-success/30"
                          else "bg-aries-error/15 text-aries-error ring-1 ring-aries-error/30"))
                    ∷ [])
                  (el "span"
                      (class (
                          "w-1.5 h-1.5 rounded-full bg-current "
                          ++ (if d.online then "aries-pulse" else ""))
                        ∷ [])
                      nothing
                    & text (if d.online then "online" else "offline")))
            & el "dl"
                (class "grid grid-cols-[88px_1fr] gap-y-1.5 gap-x-2 text-[11px] leading-tight" ∷ [])
                (term "Platform"
                  & el "dd" (class "text-aries-text" ∷ []) (text (label_for_platform d.platform))
                  & term "Device DID"
                  & el "dd" (class "text-aries-text font-mono truncate" ∷ [])
                      (text (or_else d.did_short "—"))
                  & address d.host d.port
                  & when (not d.is_self) (
                      term "Latency"
                      & el "dd" (class "text-aries-text font-mono" ∷ [])
                          (text (latency_text d.latency_ms))
                      & term "Last seen"
                      & el "dd" (class "text-aries-text font-mono" ∷ [])
                          (text (format_last_seen d.last_seen_ago)))
                  & when (d.is_self && is_some d.uptime) (
                      term "Uptime"
                      & el "dd" (class "text-aries-text font-mono" ∷ [])
                          (text (format_duration d.uptime))))))
