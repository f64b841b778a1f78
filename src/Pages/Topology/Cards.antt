-- ===== src/Pages/Topology/Cards.antt =====
-- The cards of dashboard/src/pages/Topology.jsx, and the page.
use Prim.Native.String.{◌++◌}
use ariesmesh.Prelude.{
  ℕ, ◌==◌, String, Bool, true, false, Option, none, some, List, [], ◌∷◌, if◌then◌else◌, str_eq,
  decimal, length, take, Number, lit, fmax, ◌||◌,
}
use ariesmesh.Dom.{Html, nothing, text, el, ◌&◌, class, attr, each, each_from, or_else, or_default}
use ariesmesh.Components.Age.{format_uptime}
use ariesmesh.Components.EventCard.{Event, event_card}
use ariesmesh.Components.StatusBadge.{status_badge}
use ariesmesh.Components.HealthBar.{health_bar}
use ariesmesh.Pages.Topology.{Peer, Status, Hovered, Action}
use ariesmesh.Pages.Topology.Graph.{topology_graph}

-- What `/api/health`, `/api/agents` and `/api/memory` answer.
pub record Health (F : Type 0) : Type 0 where
  pub cpu_percent : F
  pub ram_available_gb : F
  pub ram_total_gb : F
  pub battery_pct : Option F
  pub charging : Bool
  pub thermal : String
  pub network_type : String
  pub bandwidth_mbps : F
  pub health_score : F

pub record Agent : Type 0 where
  pub agent_did : String
  pub name : String
  pub vendor : String
  pub model : Option String
  pub locality : String
  pub cost_class : String

pub record Memory : Type 0 where
  pub total_keys : ℕ
  pub total_logs : ℕ
  pub context_keys : ℕ
  pub memory_keys : ℕ
  pub cache_keys : ℕ
  pub lamport_clock : ℕ
  pub log_entries : ℕ

-- `health?.x ?? fallback`
abbrev read {ℓ} : {B : Type 0} {C : Type ℓ} → Option B → (B → C) → C → C
read none f d = d
read (some b) f d = f b

abbrev card_class : String
card_class = "rounded-(--radius-card) border border-aries-border bg-aries-surface p-5"

abbrev card_title : {A : Type 0} → String → Html A → Html A
card_title over title = el "div" [] (
    el "div" (class "text-xs uppercase tracking-[0.18em] text-aries-text-dim" ∷ []) (text over)
    & el "div" (class "text-lg font-semibold text-aries-text mt-0.5" ∷ []) title)

abbrev labelled : {A : Type 0} → String → String → Html A
labelled icon label =
    el "div" (class "flex items-center gap-1.5 text-aries-text-dim" ∷ []) (
      el icon (attr "size" "13" ∷ attr "strokeWidth" "1.8" ∷ []) nothing
      & el "span" [] (text label))

module _ {F : Type 0} ⦃num : Number F⦄ where
  -- a number is falsy if it is neither below nor above 0
  abbrev truthy : F → Bool
  truthy x = num.lt x (lit 0) || num.lt (lit 0) x

  -- the variables `ramTotal`, `ramUsed` and `ramPct`
  unfoldable pub ram_total : Option (Health F) → F
  ram_total health = read health (λ h. h.ram_total_gb) (lit 0)

  unfoldable pub ram_used : Option (Health F) → F
  ram_used health =
      fmax (num.sub (ram_total health) (read health (λ h. h.ram_available_gb) (lit 0))) (lit 0)

  unfoldable pub ram_percent : Option (Health F) → F
  ram_percent health =
      if truthy (ram_total health)
      then num.mul (num.div (ram_used health) (ram_total health)) (lit 100)
      else lit 0

  abbrev battery_bar : {A : Type 0} → Option (Health F) → Html A
  battery_bar none = nothing
  battery_bar (some h) = elim h.battery_pct [
    | none ↦ nothing
    | some pct ↦
        health_bar "Battery" pct (lit 100) "%" true
          (some (decimal (num.round pct) ++ ("%" ++ (if h.charging then " ⚡" else ""))))
  ]

  abbrev cpu : Option (Health F) → F
  cpu health = read health (λ h. h.cpu_percent) (lit 0)

  unfoldable pub this_device_card : {A : Type 0} → Option Status → Option (Health F) → Html A
  this_device_card status health = el "div" (class card_class ∷ []) (
      el "div" (class "flex items-baseline justify-between mb-1" ∷ []) (
        card_title "This Device" (text (or_else (read status (λ s. s.device_name) none) "—"))
        & el "div" (class "text-right" ∷ []) (
            el "div" (class "text-[10px] uppercase tracking-wider text-aries-text-dim" ∷ [])
              (text "Uptime")
            & el "div" (class "font-mono text-sm text-aries-teal" ∷ [])
                (text (format_uptime (read status (λ s. s.uptime) none)))))
      & el "div" (class "text-[11px] font-mono text-aries-text-dim mb-4 truncate" ∷ [])
          (text (or_else (read status (λ s. s.device_did_short) none) ""))
      & el "div" (class "space-y-3" ∷ []) (
          health_bar "CPU" (cpu health) (lit 100) "%" false
            (some (num.to_fixed (cpu health) 0 ++ "%"))
          & health_bar "RAM" (ram_percent health) (lit 100) "%" false (
              some (
                num.to_fixed (ram_used health) 1
                ++ ("/" ++ (num.to_fixed (ram_total health) 1 ++ " GB"))))
          & battery_bar health)
      & el "div" (class "mt-4 grid grid-cols-2 gap-x-4 gap-y-2 text-xs" ∷ []) (
          labelled "Thermometer" "Thermal"
          & el "div" (class "text-aries-text text-right capitalize" ∷ [])
              (text (or_else (read health (λ h. some h.thermal) none) "unknown"))
          & labelled "Wifi" "Network"
          & el "div" (class "text-aries-text text-right" ∷ []) (
              text (or_else (read health (λ h. some h.network_type) none) "unknown")
              & text " "
              & el "span" (class "text-aries-text-dim" ∷ []) (
                  text "· "
                  & text (decimal (num.round (read health (λ h. h.bandwidth_mbps) (lit 0))))
                  & text " MB/s"))
          & labelled (if read health (λ h. h.charging) false then "BatteryCharging" else "Battery")
              "Health"
          & el "div" (class "text-aries-text text-right" ∷ []) (
              text (num.to_fixed (num.mul (read health (λ h. h.health_score) (lit 0)) (lit 100)) 0)
              & text "%")))

module _ {A : Type 0} where
  unfoldable pub agent_row : Agent → Html A
  agent_row a = el "div" (class "flex items-center justify-between" ∷ []) (
      el "div" (class "min-w-0" ∷ []) (
        el "div" (class "text-sm text-aries-text truncate" ∷ []) (text a.name)
        & el "div" (class "text-[11px] text-aries-text-dim font-mono truncate" ∷ [])
            (text a.vendor & text "/" & text (or_else a.model "—")))
      & el "div" (class "flex flex-col items-end gap-0.5 ml-3 shrink-0" ∷ []) (
          status_badge (if str_eq a.locality "local" then "success" else "info") a.locality false
          & el "span" (class "text-[10px] text-aries-text-dim font-mono" ∷ []) (text a.cost_class)))

  unfoldable pub agents_card : List Agent → Html A
  agents_card agents = el "div" (class card_class ∷ []) (
      el "div" (class "flex items-baseline justify-between mb-3" ∷ []) (
        card_title "Agents" (text (decimal (length agents)) & text " registered")
        & el "Bot" (attr "size" "18" ∷ attr "strokeWidth" "1.5" ∷ class "text-aries-text-dim" ∷ [])
            nothing)
      & (if length agents == 0
          then el "div" (class "text-sm text-aries-text-dim py-6 text-center" ∷ []) (
              text "No agents registered."
              & el "br" [] nothing
              & el "code" (class "text-xs text-aries-teal" ∷ [])
                  (text "aries register --vendor mock --model demo"))
          else el "div" (class "space-y-2.5 max-h-[220px] overflow-y-auto pr-1" ∷ [])
              (each agents agent_row)))

  abbrev namespace_row : String → ℕ → String → Html A
  namespace_row label count tint = el "div" (class "flex items-baseline justify-between" ∷ []) (
      el "span" (class ("font-mono text-xs " ++ tint) ∷ []) (text label)
      & el "span" (class "text-aries-text font-mono" ∷ []) (text (decimal count)))

  unfoldable pub memory_card : Option Memory → Html A
  memory_card memory =
      let total = read memory (λ m. m.total_keys) 0 in
      el "div" (class card_class ∷ []) (
        el "div" (class "flex items-baseline justify-between mb-3" ∷ []) (
          card_title "Shared Memory"
            (text (decimal total) & text " key" & text (if total == 1 then "" else "s"))
          & el "MemoryStick"
              (attr "size" "18" ∷ attr "strokeWidth" "1.5" ∷ class "text-aries-text-dim" ∷ [])
              nothing)
        & el "div" (class "space-y-2 text-sm" ∷ []) (
            namespace_row "context://" (read memory (λ m. m.context_keys) 0) "text-aries-teal"
            & namespace_row "memory://" (read memory (λ m. m.memory_keys) 0) "text-sky-300"
            & namespace_row "cache://" (read memory (λ m. m.cache_keys) 0) "text-aries-warning")
        & el "div"
            (class "mt-4 pt-3 border-t border-aries-border/60 grid grid-cols-2 gap-2 text-xs" ∷ [])
            (el "div" (class "text-aries-text-dim" ∷ []) (text "Lamport clock")
              & el "div" (class "text-right font-mono text-aries-text" ∷ [])
                  (text (decimal (read memory (λ m. m.lamport_clock) 0)))
              & el "div" (class "text-aries-text-dim" ∷ []) (text "Append logs")
              & el "div" (class "text-right font-mono text-aries-text" ∷ []) (
                  text (decimal (read memory (λ m. m.total_logs) 0))
                  & text " · "
                  & text (decimal (read memory (λ m. m.log_entries) 0))
                  & text " entries")))

  unfoldable pub activity_feed : ℕ → List Event → Html A
  activity_feed now events = el "div" (class card_class ∷ []) (
      el "div" (class "flex items-baseline justify-between mb-3" ∷ []) (
        card_title "Recent Activity" (text "Live event feed")
        & el "Sparkles" (attr "size" "18" ∷ attr "strokeWidth" "1.5" ∷ class "text-aries-teal" ∷ [])
            nothing)
      & (if length events == 0
          then el "div" (class "text-sm text-aries-text-dim py-6 text-center" ∷ []) (
              text "Waiting for events…"
              & el "br" [] nothing
              & el "span" (class "text-xs" ∷ [])
                  (text "Tasks, peer connections, and handoffs appear here in real time."))
          else el "div" (class "space-y-2 max-h-[280px] overflow-y-auto pr-1" ∷ [])
              (each_from 0 (take 10 events) (λ i ev. event_card now ev (i == 0)))))

module _ {F : Type 0} ⦃num : Number F⦄ where
  -- The page, from what `useAPI` has of the five endpoints, the events of `useSSE(50)`, and the
  -- state of the graph.
  unfoldable pub topology_page :
      ℕ
      → Option Status
      → Option (Health F)
      → Option (List (Peer F))
      → Option (List Agent)
      → Option Memory
      → List Event
      → Option (Hovered F)
      → Html (Action F)
  topology_page now status health peers agents memory events hovered =
      el "div" (class "space-y-6" ∷ []) (
        topology_graph status (or_default peers []) hovered
        & el "div" (class "grid grid-cols-1 lg:grid-cols-3 gap-6" ∷ []) (
            this_device_card status health
            & agents_card (or_default agents [])
            & memory_card memory)
        & activity_feed now events)
