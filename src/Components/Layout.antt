-- ===== src/Components/Layout.antt =====
-- dashboard/src/components/Layout.jsx and App.jsx: the frame of every page and its routes. NavLink,
-- Routes, Route, Navigate and the icons are those of the libraries; `logoUrl` is the bundler's.
use Prim.Native.String.{◌++◌}
use ariesmesh.Prelude.{String, Bool, Option, none, some, [], ◌∷◌, if◌then◌else◌}
use ariesmesh.Dom.{Html, nothing, text, el, ◌&◌, class, attr, flag}

-- the function that NavTab gives to NavLink
unfoldable pub nav_tab_class : Bool → String
nav_tab_class is_active =
    "flex items-center gap-2 px-3 py-1.5 rounded-md text-sm font-medium transition-colors "
    ++ (if is_active
        then "bg-aries-surface-hi text-aries-teal"
        else "text-aries-text-dim hover:text-aries-text hover:bg-aries-surface")

module _ {A : Type 0} where
  -- `is_active` is the library's, which calls the function with it
  unfoldable pub nav_tab : Bool → String → String → String → Html A
  unfolding nav_tab_class
  nav_tab is_active to icon label =
      el "NavLink" (attr "to" to ∷ class (nav_tab_class is_active) ∷ [])
        (el icon (attr "size" "15" ∷ attr "strokeWidth" "1.8" ∷ []) nothing & text label)

  -- `{status?.device_name && ...}`
  abbrev device_label : Option String → Html A
  device_label none = nothing
  device_label (some String.[]) = nothing
  device_label (some (String.◌∷◌ c r)) =
      el "span" (class "text-aries-text-dim ml-3" ∷ []) (text "· " & text (String.◌∷◌ c r))

  -- `connected` comes from `useSSE(1)`, `device_name` from `useAPI('status', 10000)`.
  unfoldable pub connection_indicator : Bool → Option String → Html A
  connection_indicator connected device_name =
      el "div" (class "flex items-center gap-2 text-xs" ∷ []) (
        el "span"
          (class (
              "aries-pulse inline-block w-1.5 h-1.5 rounded-full "
              ++ (if connected
                  then "bg-aries-success shadow-[0_0_8px_var(--color-aries-success)]"
                  else "bg-aries-error"))
            ∷ attr "aria-label" (if connected then "connected" else "disconnected")
            ∷ [])
          nothing
        & el "span" (class "text-aries-text-dim" ∷ [])
            (text (if connected then "live" else "reconnecting…"))
        & device_label device_name)

  unfoldable pub logo : String → Html A
  logo url = el "div" (class "flex items-center gap-3" ∷ []) (
      el "div" (class "relative shrink-0" ∷ []) (
        el "img"
          (attr "src" url
            ∷ attr "alt" "Aries Mesh"
            ∷ attr "width" "36"
            ∷ attr "height" "36"
            ∷ class "rounded-lg block"
            ∷ [])
          nothing
        & el "div"
            (class
                "absolute inset-0 rounded-lg pointer-events-none shadow-[0_0_18px_rgba(0,212,170,0.20)]"
              ∷ [])
            nothing)
      & el "div" (class "leading-tight" ∷ []) (
          el "div" (class "text-aries-text font-semibold tracking-wide text-sm" ∷ [])
            (text "ARIES MESH")
          & el "div"
              (class "text-[10px] uppercase tracking-[0.18em] text-aries-text-dim -mt-0.5" ∷ [])
              (text "Personal Compute Fabric")))

  -- `active` says of a path whether NavLink takes it for the current one.
  unfoldable pub layout : (String → Bool) → String → Bool → Option String → Html A → Html A
  unfolding nav_tab logo connection_indicator
  layout active url connected device_name children =
      el "div" (class "min-h-screen flex flex-col" ∷ []) (
        el "header"
          (class "sticky top-0 z-10 backdrop-blur-md bg-aries-dark/85 border-b border-aries-border"
            ∷ [])
          (el "div" (class "max-w-7xl mx-auto px-6 h-14 flex items-center justify-between" ∷ []) (
            logo url
            & el "nav" (class "flex items-center gap-1" ∷ []) (
                nav_tab (active "/topology") "/topology" "Network" "Topology"
                & nav_tab (active "/inference") "/inference" "Cpu" "Inference"
                & nav_tab (active "/activity") "/activity" "Activity" "Activity")
            & connection_indicator connected device_name))
        & el "main" (class "max-w-7xl mx-auto w-full px-6 py-6 flex-1" ∷ []) children
        & el "footer"
            (class "text-center text-[11px] text-aries-text-dim py-4 border-t border-aries-border"
              ∷ [])
            (text "Aries Mesh v0.2 · localhost-only · all traffic Noise XX encrypted"))

  -- App.jsx, with the pages as they are rendered
  unfoldable pub app :
      (String → Bool) → String → Bool → Option String → Html A → Html A → Html A → Html A
  unfolding layout
  app active url connected device_name topology inference activity =
      layout active url connected device_name (
        el "Routes" [] (
          el "Route" (attr "path" "/" ∷ []) topology
          & el "Route" (attr "path" "/topology" ∷ []) topology
          & el "Route" (attr "path" "/inference" ∷ []) inference
          & el "Route" (attr "path" "/activity" ∷ []) activity
          & el "Route" (attr "path" "*" ∷ [])
              (el "Navigate" (attr "to" "/" ∷ flag "replace" Bool.true ∷ []) nothing)))
