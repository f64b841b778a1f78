-- ===== src/Pages/Topology/Hover.antt =====
-- The hover state of the graph in Topology.jsx.
use ariesmesh.Prelude.{
  String, ◌≡◌, refl, Option, none, some, List, [], ◌∷◌, foldl, arith, eq_iff, eq_refl, ◌≢◌, All,
}
use ariesmesh.Components.Device.Tooltip.{Device}
use ariesmesh.Pages.Topology.{
  Peer, Position, Hovered, self, peer, Action, enter_self, leave_self, enter_peer, leave_peer,
  peer_device, hover,
}

module _ {F : Type 0} where
  -- A late `mouseleave` of another device.
  abbrev pub LeavesOther : String → Action F → Type 0
  LeavesOther did (enter_self position device) = ⊥
  LeavesOther did leave_self = Unit
  LeavesOther did (enter_peer position p) = ⊥
  LeavesOther did (leave_peer other) = did ≢ other

  keep_step :
      (position : Position F) (p : Peer F) (a : Action F)
      → LeavesOther p.device_did a
      → hover (some (peer position p.device_did (peer_device p))) a
        ≡ some (peer position p.device_did (peer_device p))
  unfolding hover
  keep_step position p leave_self h = refl
  keep_step position p (leave_peer other) h = ground (arith, eq_iff p.device_did other)
  keep_step position p (enter_self q d) h = absurd h
  keep_step position p (enter_peer q r) h = absurd h

  keep_run :
      (position : Position F) (p : Peer F) (late : List (Action F))
      → All (LeavesOther p.device_did) late
      → foldl hover (some (peer position p.device_did (peer_device p))) late
        ≡ some (peer position p.device_did (peer_device p))
  keep_run position p [] h = refl
  keep_run position p (a ∷ late) h = rw (keep_step position p a h.0) (keep_run position p late h.1)

  enter :
      (h : Option (Hovered F)) (position : Position F) (p : Peer F)
      → hover h (enter_peer position p) ≡ some (peer position p.device_did (peer_device p))
  unfolding hover
  enter none position p = refl
  enter (some (self q d)) position p = refl
  enter (some (peer q e d)) position p = refl

  leave :
      (position : Position F) (d : Device F) (did : String)
      → hover (some (peer position did d)) (leave_peer did) ≡ none
  unfolding hover
  leave position d did = ground (arith, eq_refl did)

  -- Whatever was hovered, after the pointer enters a peer its card stays through the late leaves of
  -- other devices, in any number and order, and its own leave removes the card.
  pub hover_enter :
      (h : Option (Hovered F)) (position : Position F) (p : Peer F) (late : List (Action F))
      → All (LeavesOther p.device_did) late
      → (foldl hover (hover h (enter_peer position p)) late
          ≡ some (peer position p.device_did (peer_device p)))
        × (hover (foldl hover (hover h (enter_peer position p)) late) (leave_peer p.device_did)
            ≡ none)
  hover_enter h position p late all =
      let kept = keep_run position p late all in
      (
        rw (enter h position p) kept,
        rw (enter h position p, kept) (leave position (peer_device p) p.device_did),
      )
