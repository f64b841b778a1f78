-- ===== src/Pages/Topology/Feed.antt =====
-- What a reader counts on the topology page's feed.
use Prim.Native.Nat.{min}
use ariesmesh.Prelude.{
  ℕ, ◌≡◌, refl, List, [], ◌∷◌, arith, length, take, length-take, suc-==_zero, ◌==◌,
}
use ariesmesh.Dom.Query.{count_flag, count_flag-each_from}
use ariesmesh.Components.EventCard.{Event, event_card}
use ariesmesh.Components.EventCard.Count.{count-event_card}
use ariesmesh.Pages.Topology.Cards.{activity_feed}

module _ (A : Type 0) where
  -- The feed shows the first ten events at most, a card for each.
  pub activity_feed_cards :
      (now : ℕ) (events : List Event)
      → count_flag "aria-hidden" (activity_feed {A = A} now events) ≡ min 10 (length events)
  unfolding activity_feed
  activity_feed_cards now [] = refl
  activity_feed_cards now (e ∷ es) = rw (suc-==_zero (length es)) (
      omega (
        arith,
        length-take 10 (e ∷ es),
        count_flag-each_from "aria-hidden" 1 0 (take 10 (e ∷ es))
            (λ i ev. event_card {A = A} now ev (i == 0))
            (λ i ev. count-event_card A now ev (i == 0)),
      ))
