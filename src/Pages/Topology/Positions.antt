-- ===== src/Pages/Topology/Positions.antt =====
-- Where the graph puts the peers.
use mathlib.Core.Option
use Prim.Native.Nat.{◌<◌, ◌≤◌}
use native.Mathlib.Nat.{add-zero}
use ariesmesh.Prelude.{
  ℕ, zero, suc, ◌+◌, ◌≡◌, refl, List, [], ◌∷◌, Number, length, get_elem?, arith, true, IsOrdered,
}
use ariesmesh.Pages.Topology.{Peer, Position, peer_position, layout_peers, place_from}

module _ {F : Type 0} ⦃num : Number F⦄ where
  abbrev pub placed : ℕ → ℕ → Peer F → Peer F × Position F
  placed n i p = (p, peer_position n i)

  get_elem?-place_from :
      (n i k : ℕ) (peers : List (Peer F))
      → get_elem? (place_from n k peers) i ≡ Option.map (placed n (k + i)) (get_elem? peers i)
  unfolding place_from
  get_elem?-place_from n i k [] = refl
  get_elem?-place_from n zero k (p ∷ ps) = rw (add-zero k)
  get_elem?-place_from n (suc i) k (p ∷ ps) =
      let e : k + suc i ≡ k + 1 + i = omega arith in rw e (get_elem?-place_from n i (k + 1) ps)

  -- The graph has each peer exactly once and in the order of the answer: place number i holds peer
  -- number i, at its position among as many peers as there are.
  pub get_elem?-layout_peers :
      (peers : List (Peer F)) (i : ℕ)
      → get_elem? (layout_peers peers) i ≡ Option.map (placed (length peers) i) (get_elem? peers i)
  unfolding layout_peers
  get_elem?-layout_peers peers i =
      let e : 0 + i ≡ i = omega arith in rw e at (get_elem?-place_from (length peers) i 0 peers)

  -- On numbers without NaN in a strict order that whole numbers keep, up to three peers stand on one vertical line, each
  -- below the ones before.
  pub few_peers_ordered :
      (o : IsOrdered num) (n i j : ℕ)
      → n ≤ 3
      → i < j
      → j < n
      → (◌≡◌ {A = F} (peer_position n i).x (peer_position n j).x)
        × (num.lt (peer_position n i).y (peer_position n j).y ≡ true)
  unfolding peer_position
  few_peers_ordered o n i j small before inside = (
    ground arith,
    ground (
      arith,
      o.mono_of_ℕ 28 72 (omega arith) (omega arith),
      o.mono_of_ℕ 22 50 (omega arith) (omega arith),
      o.mono_of_ℕ 22 78 (omega arith) (omega arith),
      o.mono_of_ℕ 50 78 (omega arith) (omega arith),
    ),
  )
