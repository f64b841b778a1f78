-- ===== src/Components/EventCard/Count.antt =====
-- A card is found on a page by its dot, which alone has the flag `aria-hidden`.
use ariesmesh.Prelude.{ℕ, ◌≡◌, refl, Bool, Option, none, some, String}
use ariesmesh.Dom.Query.{count_flag}
use ariesmesh.Components.EventCard.{Event, event_card, optional_text}

module _ (A : Type 0) where
  no_dot : (o : Option String) → count_flag {A = A} "aria-hidden" (optional_text o) ≡ 0
  no_dot none = refl
  no_dot (some s) = refl

  pub count-event_card :
      (now : ℕ) (e : Event) (animated : Bool)
      → count_flag {A = A} "aria-hidden" (event_card now e animated) ≡ 1
  unfolding event_card
  count-event_card now e animated = rw (no_dot e.type, no_dot e.description)
