-- ===== src/Pages/Activity/Cards.antt =====
-- What a reader counts on the activity page.
use ariesmesh.Prelude.{
  ℕ, ◌≡◌, refl, Bool, List, [], ◌∷◌, arith, length, Bool-cases, inl, inr, suc-==_zero,
}
use ariesmesh.Dom.Query.{count_flag, count_flag-each_from}
use ariesmesh.Components.EventCard.{Event}
use ariesmesh.Components.EventCard.Count.{count-event_card}
use ariesmesh.Pages.Activity.{Activity, Action, visible, filter_groups}
use ariesmesh.Pages.Activity.View.{page_header, chip, card, event_list, page_footer, activity_page}

count-card :
    (now : ℕ) (paused : Bool) (i : ℕ) (e : Event)
    → count_flag "aria-hidden" (card now paused i e) ≡ 1
count-card now paused i e = count-event_card Action now e _

count-event_list :
    (now : ℕ) (paused : Bool) (shown : List Event)
    → count_flag "aria-hidden" (event_list now paused shown) ≡ length shown
unfolding event_list
count-event_list now paused [] = refl
count-event_list now paused (e ∷ es) = rw (suc-==_zero (length es)) (
    omega (
      arith,
      count_flag-each_from "aria-hidden" 1 0 (e ∷ es) (card now paused) (count-card now paused),
    ))

count-page_header : (s : Activity) → count_flag "aria-hidden" (page_header s) ≡ 0
unfolding page_header
count-page_header s = refl

count-page_footer : (s : Activity) → count_flag "aria-hidden" (page_footer s) ≡ 0
unfolding page_footer
count-page_footer s = elim (Bool-cases s.paused) [ inl e ↦ rw e | inr e ↦ rw e ]

-- The page has one card for each visible event, and no other.
pub activity_page_cards :
    (now : ℕ) (s : Activity) → count_flag "aria-hidden" (activity_page now s) ≡ length (visible s)
unfolding activity_page filter_groups chip
activity_page_cards now s =
    omega
      (arith, count-page_header s, count-page_footer s, count-event_list now s.paused (visible s))
