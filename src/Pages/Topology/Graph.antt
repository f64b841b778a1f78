-- ===== src/Pages/Topology/Graph.antt =====
-- The component `TopologyGraph` of dashboard/src/pages/Topology.jsx.
use Prim.Native.String.{◌++◌}
use ariesmesh.Prelude.{
  ◌+◌, ◌==◌, ltb, String, true, false, Option, none, some, List, [], ◌∷◌, if◌then◌else◌, decimal,
  length, Number, lit,
}
use ariesmesh.Dom.{Html, nothing, text, el, ◌&◌, class, attr, each, when, or_else}
use ariesmesh.Components.StatusBadge.{status_badge}
use ariesmesh.Components.Device.Circle.{device_circle}
use ariesmesh.Components.Device.Tooltip.{device_tooltip, latency_text}
use ariesmesh.Pages.Topology.{
  Peer, Status, Position, host_position, layout_peers, offline_count, Hovered, self, peer, Action,
  enter_self, leave_self, enter_peer, leave_peer, host_device,
}

-- `status?.device_name` and its like
abbrev field : {B : Type 0} → (Status → Option B) → Option Status → Option B
field f none = none
field f (some s) = f s

-- `peer.name || peer.device_did_short || 'peer'`
abbrev peer_name : Option String → Option String → String
peer_name name short = or_else name (or_else short "peer")

module _ {F : Type 0} ⦃num : Number F⦄ where
  abbrev percent : F → String
  percent x = num.show x ++ "%"

  unfoldable pub edge : Peer F × Position F → Html (Action F)
  edge (p, at) = el "g" [] (
      el "line"
        (attr "x1" (num.show (lit 26))
          ∷ attr "y1" (num.show (lit 50))
          ∷ attr "x2" (num.show at.x)
          ∷ attr "y2" (num.show at.y)
          ∷ attr "stroke" (if p.connected then "#00D4AA" else "#3E2A2E")
          ∷ attr "strokeOpacity" (if p.connected then "0.5" else "0.55")
          ∷ attr "strokeWidth" "0.2"
          ∷ class (if p.connected then "aries-edge" else "")
          ∷ attr "style.vectorEffect" "non-scaling-stroke"
          ∷ [])
        nothing)

  -- the label in the middle of an edge
  unfoldable pub latency_label : Peer F × Position F → Html (Action F)
  latency_label (p, at) =
      el "div"
        (class "absolute -translate-x-1/2 -translate-y-1/2 pointer-events-none"
          ∷ attr "style.left" (percent (num.div (num.add (lit 26) at.x) (lit 2)))
          ∷ attr "style.top" (percent (num.div (num.add (lit 50) at.y) (lit 2)))
          ∷ [])
        (el "div"
          (class
              "text-[10px] font-mono text-aries-text bg-aries-dark/95 border border-aries-border rounded-full px-2 py-0.5 shadow-sm"
            ∷ [])
          (text (latency_text p.latency_ms)))

  unfoldable pub peer_circle : Peer F × Position F → Html (Action F)
  peer_circle (p, at) =
      device_circle (some (peer_name p.name p.device_did_short)) p.platform false p.connected
        (enter_peer at p) (leave_peer p.device_did) (percent at.x) (percent at.y)

  unfoldable pub graph_header : Option Status → List (Peer F) → Html (Action F)
  graph_header status peers =
      el "div" (class "relative flex items-center justify-between px-5 pt-4 pb-2 z-10" ∷ []) (
        el "div" [] (
          el "div" (class "text-xs uppercase tracking-[0.18em] text-aries-text-dim" ∷ [])
            (text "Mesh Topology")
          & el "div" (class "text-lg font-semibold text-aries-text" ∷ []) (
              text (decimal (length peers + 1))
              & text " device"
              & text (if length peers == 0 then "" else "s")
              & when (ltb 0 (offline_count peers)) (
                  el "span" (class "text-aries-text-dim text-sm font-normal ml-2" ∷ [])
                    (text "· " & text (decimal (offline_count peers)) & text " offline"))))
        & status_badge "info"
            ("Protocol "
              ++ (or_else (field (λ s. s.protocol_version) status) "v0.2" ++ " · encrypted"))
            false)

  abbrev no_peers : Html (Action F)
  no_peers =
      el "div"
        (class "absolute -translate-x-1/2 -translate-y-1/2 text-center"
          ∷ attr "style.left" "74%"
          ∷ attr "style.top" "50%"
          ∷ [])
        (el "div" (class "text-aries-text-dim text-sm" ∷ []) (text "No peers connected")
          & el "div" (class "text-aries-text-dim text-xs mt-1 opacity-75" ∷ []) (
              text "Run "
              & el "code" (class "text-aries-teal" ∷ []) (text "aries pair --invite")
              & text " to add one"))

  unfoldable pub host_circle : Option Status → Html (Action F)
  host_circle status =
      device_circle (some (or_else (field (λ s. s.device_name) status) "this-device"))
        (field (λ s. s.platform) status) true true (enter_self host_position (host_device status))
        leave_self (percent (lit 26)) (percent (lit 50))

  -- `{hovered && <DeviceTooltip ... />}`
  unfoldable pub hover_card : Option (Hovered F) → Html (Action F)
  hover_card none = nothing
  hover_card (some (self at d)) = device_tooltip (some d) (percent at.x) (percent at.y)
  hover_card (some (peer at did d)) = device_tooltip (some d) (percent at.x) (percent at.y)

  unfoldable pub topology_graph :
      Option Status → List (Peer F) → Option (Hovered F) → Html (Action F)
  topology_graph status peers hovered =
      let placed = layout_peers peers in
      el "div"
        (class
            "relative rounded-(--radius-card) border border-aries-border bg-aries-surface/40 overflow-hidden"
          ∷ [])
        (el "div"
            (class "absolute inset-0 pointer-events-none opacity-[0.05]"
              ∷ attr "style.backgroundImage"
                  "radial-gradient(circle at 1px 1px, #00D4AA 1px, transparent 0)"
              ∷ attr "style.backgroundSize" "34px 34px"
              ∷ [])
            nothing
          & graph_header status peers
          & el "div" (class "relative w-full h-[420px]" ∷ []) (
              el "svg"
                (class "absolute inset-0 w-full h-full"
                  ∷ attr "viewBox" "0 0 100 100"
                  ∷ attr "preserveAspectRatio" "none"
                  ∷ [])
                (each placed edge)
              & each placed latency_label
              & when (length peers == 0) no_peers
              & host_circle status
              & each placed peer_circle
              & hover_card hovered))
