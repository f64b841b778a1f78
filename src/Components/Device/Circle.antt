-- ===== src/Components/Device/Circle.antt =====
-- The component `DeviceCircle` of dashboard/src/components/DeviceCircle.jsx.
use Prim.Native.String.{◌++◌}
use ariesmesh.Prelude.{ℕ, ◌+◌, String, Bool, Option, [], ◌∷◌, if◌then◌else◌}
use ariesmesh.Dom.{Html, nothing, text, el, ◌&◌, class, attr, size, on, when, or_else}
use ariesmesh.Components.Device.Icon.{icon_for_device, label_for_platform}

-- the variables `ringColor`, `bg`, `iconColor` and `opacity`
unfoldable pub ring_color : Bool → Bool → String
ring_color is_self online =
    if is_self
    then "border-aries-teal/70"
    else if online
    then "border-aries-border"
    else "border-aries-error/40"

unfoldable pub background : Bool → String
background is_self =
    if is_self
    then "bg-gradient-to-br from-aries-surface-hi via-aries-surface to-aries-indigo"
    else "bg-aries-surface"

unfoldable pub icon_color : Bool → Bool → String
icon_color is_self online =
    if is_self
    then "text-aries-teal"
    else if online
    then "text-aries-text"
    else "text-aries-text-dim"

module _ {A : Type 0} where
  -- the rotating ring of the host
  unfoldable pub accent_ring : ℕ → Html A
  accent_ring width =
      el "div"
        (class "aries-ring absolute pointer-events-none"
          ∷ size "style.width" (width + 24)
          ∷ size "style.height" (width + 24)
          ∷ attr "style.top" "50%"
          ∷ attr "style.left" "50%"
          ∷ attr "style.transform" "translate(-50%, calc(-50% - 14px))"
          ∷ [])
        (el "svg"
          (size "width" (width + 24)
            ∷ size "height" (width + 24)
            ∷ attr "viewBox" "0 0 100 100"
            ∷ [])
          (el "circle"
            (attr "cx" "50"
              ∷ attr "cy" "50"
              ∷ attr "r" "48"
              ∷ attr "fill" "none"
              ∷ attr "stroke" "rgba(0, 212, 170, 0.35)"
              ∷ attr "strokeWidth" "0.6"
              ∷ attr "strokeDasharray" "2 6"
              ∷ [])
            nothing))

  -- `hover` and `leave` are the actions of `onHover` and `onLeave`; `left` and `top` are the style
  -- that the parent passes. The parent passes no `ref`.
  unfoldable pub device_circle :
      Option String → Option String → Bool → Bool → A → A → String → String → Html A
  unfolding accent_ring ring_color background icon_color icon_for_device label_for_platform
  device_circle name platform is_self online hover leave left top =
      let width = if is_self then 96 else 80 in
      el "div"
        (attr "style.left" left
          ∷ attr "style.top" top
          ∷ class (
              "absolute -translate-x-1/2 -translate-y-1/2 flex flex-col items-center group cursor-default "
              ++ (if online then "" else "opacity-55"))
          ∷ on "onMouseEnter" hover
          ∷ on "onMouseLeave" leave
          ∷ [])
        (when is_self (accent_ring width)
          & el "div"
              (class (
                  "relative rounded-full border "
                  ++ (ring_color is_self online
                      ++ (" "
                          ++ (background is_self
                              ++ (" flex items-center justify-center transition-transform duration-200 ease-out group-hover:scale-[1.06] "
                                  ++ (if is_self
                                      then "aries-halo"
                                      else "shadow-[0_4px_18px_rgba(0,0,0,0.35)]"))))))
                ∷ size "style.width" width
                ∷ size "style.height" width
                ∷ [])
              (el (icon_for_device platform name)
                  (size "size" (if is_self then 36 else 30)
                    ∷ attr "strokeWidth" "1.6"
                    ∷ class (icon_color is_self online)
                    ∷ [])
                  nothing
                & el "span"
                    (class (
                        "absolute top-1 right-1 inline-block rounded-full ring-2 ring-aries-dark "
                        ++ (if online then "bg-aries-success aries-pulse" else "bg-aries-error"))
                      ∷ size "style.width" 10
                      ∷ size "style.height" 10
                      ∷ attr "aria-label" (if online then "online" else "offline")
                      ∷ [])
                    nothing)
          & el "div" (class "mt-3 text-center max-w-[140px]" ∷ []) (
              el "div"
                (class (
                    "text-sm truncate font-medium "
                    ++ (if is_self then "text-aries-teal" else "text-aries-text"))
                  ∷ [])
                (text (or_else name "—"))
              & el "div" (class "text-[10px] uppercase tracking-[0.18em] text-aries-text-dim" ∷ [])
                  (text (if is_self then "This Device" else label_for_platform platform))))
