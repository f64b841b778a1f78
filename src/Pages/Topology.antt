-- ===== src/Pages/Topology.antt =====
-- dashboard/src/pages/Topology.jsx: the layout of the graph and the hover state.
pub mod Positions
pub mod Hover
pub mod Graph
pub mod Cards
pub mod Feed
use Prim.Native.String.{◌++◌}
use ariesmesh.Prelude.{
  ℕ, zero, suc, ◌+◌, ◌-◌, ◌==◌, String, Bool, true, false, not, Option, none, some, List, [], ◌∷◌,
  if◌then◌else◌, str_eq, length, keep, Number, lit,
}
use ariesmesh.Components.Device.Tooltip.{Device}

-- A peer of `/api/peers`; a peer has no field `did_short`.
pub record Peer (F : Type 0) : Type 0 where
  pub device_did : String
  pub device_did_short : Option String
  pub name : Option String
  pub platform : Option String
  pub host : Option String
  pub port : Option ℕ
  pub latency_ms : Option F
  pub last_seen_ago : Option ℕ
  pub connected : Bool

-- What `/api/status` answers.
pub record Status : Type 0 where
  pub device_name : Option String
  pub platform : Option String
  pub device_did_short : Option String
  pub uptime : Option ℕ
  pub port : Option ℕ
  pub protocol_version : Option String

-- A place in percent of the stage.
pub record Position (F : Type 0) : Type 0 where
  pub x : F
  pub y : F

module _ {F : Type 0} ⦃num : Number F⦄ where
  abbrev pub at : F → F → Position F
  at x y = record { x = x; y = y }

  -- the variable `host` of `layoutPeers`
  abbrev pub host_position : Position F
  host_position = at (lit 26) (lit 50)

  -- `-55 + (110 / (n - 1)) * i`
  unfoldable pub arc_angle : ℕ → ℕ → F
  arc_angle n i =
      num.add (num.sub (lit 0) (lit 55)) (num.mul (num.div (lit 110) (lit (n - 1))) (lit i))

  -- the place of peer number `i` of `n`
  unfoldable pub peer_position : ℕ → ℕ → Position F
  unfolding arc_angle
  peer_position n i =
      if n == 1
      then at (lit 74) (lit 50)
      else if n == 2
      then at (lit 74) (if i == 0 then lit 28 else lit 72)
      else if n == 3
      then at (lit 74) (if i == 0 then lit 22 else if i == 1 then lit 50 else lit 78)
      else at (num.add (lit 26) (num.mul (lit 56) (num.cos_deg (arc_angle n i))))
          (num.add (lit 50) (num.mul (lit 46) (num.sin_deg (arc_angle n i))))

  place_from : ℕ → ℕ → List (Peer F) → List (Peer F × Position F)
  place_from n i [] = []
  place_from n i (p ∷ ps) = (p, peer_position n i) ∷ place_from n (i + 1) ps

  -- the field `peerPositions` of the result of `layoutPeers`
  unfoldable pub layout_peers : List (Peer F) → List (Peer F × Position F)
  unfolding place_from
  layout_peers peers = place_from (length peers) 0 peers

-- `peers.filter((p) => !p.connected).length`
unfoldable pub offline_count : {F : Type 0} → List (Peer F) → ℕ
offline_count peers = length (keep (λ p. not p.connected) peers)

-- The state `hovered`: nothing, the host, or a peer, with the place and the tooltip's object. The
-- host's object has no `device_did`.
pub data Hovered (F : Type 0) : Type 0 where
  self : Position F → Device F → Hovered F
  peer : Position F → String → Device F → Hovered F

-- the four handlers of the graph
pub data Action (F : Type 0) : Type 0 where
  enter_self : Position F → Device F → Action F
  leave_self : Action F
  enter_peer : Position F → Peer F → Action F
  leave_peer : String → Action F

module _ {F : Type 0} where
  -- the variable `hostDeviceForTooltip`
  unfoldable pub host_device : Option Status → Device F
  host_device none = record {
    name = none;
    platform = none;
    is_self = true;
    online = true;
    did_short = none;
    host = some "127.0.0.1";
    port = none;
    latency_ms = none;
    last_seen_ago = none;
    uptime = none;
  }
  host_device (some s) = record {
    name = s.device_name;
    platform = s.platform;
    is_self = true;
    online = true;
    did_short = s.device_did_short;
    host = some "127.0.0.1";
    port = s.port;
    latency_ms = none;
    last_seen_ago = none;
    uptime = s.uptime;
  }

  -- `{ ...peer, isSelf: false, online: peer.connected }`, as the tooltip reads it
  unfoldable pub peer_device : Peer F → Device F
  peer_device p = record {
    name = p.name;
    platform = p.platform;
    is_self = false;
    online = p.connected;
    did_short = none;
    host = p.host;
    port = p.port;
    latency_ms = p.latency_ms;
    last_seen_ago = p.last_seen_ago;
    uptime = none;
  }

  unfoldable pub hover : Option (Hovered F) → Action F → Option (Hovered F)
  unfolding peer_device
  hover h (enter_self position device) = some (self position device)
  hover h (enter_peer position p) = some (peer position p.device_did (peer_device p))
  hover none leave_self = none
  hover (some (self position device)) leave_self = none
  hover (some (peer position did device)) leave_self = some (peer position did device)
  hover none (leave_peer did) = none
  hover (some (self position device)) (leave_peer did) = some (self position device)
  hover (some (peer position d device)) (leave_peer did) =
      if str_eq d did then none else some (peer position d device)
