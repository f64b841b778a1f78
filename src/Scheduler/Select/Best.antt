-- ===== src/Scheduler/Select/Best.antt =====
-- What `select_agent` chooses.
use ariesmesh.Prelude.{
  ◌≡◌, refl, sym, inl, inr, ℕ, String, true, false, Option, none, some, List, [], ◌∷◌, map,
  if◌then◌else◌, Number, IsWeakOrder, lt_asymm, Bool-cases, In, keep, In-keep, keep-In, In-map,
  map-In, arith,
}
use ariesmesh.Scheduler.{
  TaskConstraints, AgentRecord, Moment, cost_index, admits, filter_under, apply_mandates,
}
use ariesmesh.Scheduler.Select.{
  Scheduler, Outcome, unknown_cost_class, nobody, chosen, place, sort_by_score, first_scored,
  score_in, answer_among, select_agent,
}

module _ {F : Type 0} ⦃num : Number F⦄ (o : IsWeakOrder num) where
  -- `h` is an entry of the list that no other exceeds.
  abbrev pub IsTop : AgentRecord × F → List (AgentRecord × F) → Type 0
  IsTop h l = In h l × ((y : AgentRecord × F) → In y l → num.lt h.1 y.1 ≡ false)

  IsTop-here :
      (x h : AgentRecord × F) (l : List (AgentRecord × F))
      → IsTop h l
      → num.lt x.1 h.1 ≡ false
      → IsTop x (x ∷ l)
  IsTop-here x h l (m, top) low = (
    inl refl,
    λ y n. elim n [
      | inl e ↦ rw e (o.ordered.irrefl x.1)
      | inr n ↦ ground (arith, o.splits x.1 h.1 y.1, top y n)
    ],
  )

  IsTop-later :
      (x h : AgentRecord × F) (l : List (AgentRecord × F))
      → IsTop h l
      → num.lt x.1 h.1 ≡ true
      → IsTop h (x ∷ l)
  IsTop-later x h l (m, top) high =
      (inr m, λ y n. elim n [ inl e ↦ rw e (lt_asymm o.ordered x.1 h.1 high) | inr n ↦ top y n ])

  IsTop-first : (x : AgentRecord × F) → IsTop x (x ∷ [])
  IsTop-first x =
      (inl refl, λ y n. elim n [ inl e ↦ rw e (o.ordered.irrefl x.1) | inr n ↦ absurd n ])

  pub sort_head :
      (x : AgentRecord × F) (l : List (AgentRecord × F))
      → (h : AgentRecord × F) × (t : List (AgentRecord × F)) × (sort_by_score (x ∷ l) ≡ h ∷ t)
        × IsTop h (x ∷ l)
  unfolding sort_by_score
  sort_head x [] = (x, [], refl, IsTop-first x)
  sort_head x (y ∷ l) =
      let (h, t, e, top) = sort_head y l in
      elim (Bool-cases (num.lt x.1 h.1)) [
        | inl k ↦
            (h, place x t, rw (e, place, k, if◌then◌else◌) refl, IsTop-later x h (y ∷ l) top k)
        | inr k ↦ (x, h ∷ t, rw (e, place, k, if◌then◌else◌) refl, IsTop-here x h (y ∷ l) top k)
      ]

module _ {F : Type 0} ⦃num : Number F⦄ (int : String → Option ℕ) (now : Moment) (s : Scheduler F)
    (agents : List AgentRecord) (asked : TaskConstraints) (devices : List (String × String)) where
  -- the constraints under the mandates, and the scheduler with the weights that they leave
  abbrev pub effective_of : TaskConstraints
  effective_of = (apply_mandates int now asked s.mandates s.weights).0

  abbrev pub after_mandates : Scheduler F
  after_mandates = record s { weights = (apply_mandates int now asked s.mandates s.weights).1 }

  abbrev score_of : AgentRecord → F
  score_of a = score_in int now after_mandates effective_of devices a

  -- What a caller may expect: an unknown cost class is an error, `nobody` is the answer when no agent is admitted, and
  -- an agent that is chosen is one of those asked about, is admitted, and no admitted one has a higher score.
  pub data IsAnswer : Outcome F → Type 0 where
    is_unknown : cost_index effective_of.max_cost_class ≡ none → IsAnswer unknown_cost_class
    is_nobody :
        (limit : ℕ)
        → cost_index effective_of.max_cost_class ≡ some limit
        → ((a : AgentRecord) → In a agents → admits limit effective_of a ≡ false)
        → IsAnswer nobody
    is_chosen :
        (limit : ℕ)
        → cost_index effective_of.max_cost_class ≡ some limit
        → (a : AgentRecord) → In a agents
        → admits limit effective_of a ≡ true
        → ((b : AgentRecord)
            → In b agents
            → admits limit effective_of b ≡ true
            → num.lt (score_of a) (score_of b) ≡ false)
        → IsAnswer (chosen a (score_of a))

  abbrev entry_of : AgentRecord → AgentRecord × F
  entry_of a = (a, score_of a)

  module _ (o : IsWeakOrder num) (limit : ℕ)
      (e : cost_index effective_of.max_cost_class ≡ some limit) where
    none_admitted :
        [] ≡ keep (admits limit effective_of) agents
        → (a : AgentRecord) → In a agents
        → admits limit effective_of a ≡ false
    none_admitted h a m = elim (Bool-cases (admits limit effective_of a)) [
      | inl k ↦ absurd (rw (sym h) at (In-keep (admits limit effective_of) agents a m k))
      | inr k ↦ k
    ]

    module _ (l : List AgentRecord) (h : l ≡ keep (admits limit effective_of) agents) where
      candidate-In : (a : AgentRecord) → In a l → In a agents × (admits limit effective_of a ≡ true)
      candidate-In a i = keep-In (admits limit effective_of) agents a (rw h at i)

      In-candidate : (a : AgentRecord) → In a agents → admits limit effective_of a ≡ true → In a l
      In-candidate a m g = rw h (In-keep (admits limit effective_of) agents a m g)

      IsAnswer-of :
          (top : AgentRecord × F) (a : AgentRecord)
          → In a l
          → top ≡ entry_of a
          → ((y : AgentRecord × F) → In y (map entry_of l) → num.lt top.1 y.1 ≡ false)
          → IsAnswer (chosen top.0 top.1)
      IsAnswer-of top a i r best =
          let (m, g) = candidate-In a i in
          rw r (
            is_chosen limit e a m g
              (λ b n k. rw r at (best (entry_of b) (In-map entry_of l b (In-candidate b n k)))))

      IsAnswer-top :
          (top : AgentRecord × F) → IsTop o top (map entry_of l) → IsAnswer (chosen top.0 top.1)
      IsAnswer-top top (m, best) =
          let (a, i, r) = map-In entry_of l top m in IsAnswer-of top a i r best

    IsAnswer-first :
        (l : List AgentRecord)
        → l ≡ keep (admits limit effective_of) agents
        → IsAnswer (first_scored (sort_by_score (map entry_of l)))
    unfolding sort_by_score
    IsAnswer-first [] h = is_nobody limit e (none_admitted h)
    IsAnswer-first (x ∷ l) h =
        let (top, t, k, is_top) = sort_head o (entry_of x) (map entry_of l) in
        rw k (IsAnswer-top (x ∷ l) h top is_top)

  answer_among-IsAnswer :
      IsWeakOrder num
      → (c : Option ℕ) → cost_index effective_of.max_cost_class ≡ c
      → IsAnswer (
          answer_among int now after_mandates effective_of devices
            (filter_under c agents effective_of))
  answer_among-IsAnswer o none e = is_unknown e
  answer_among-IsAnswer o (some limit) e =
      IsAnswer-first o limit e (keep (admits limit effective_of) agents) refl

  -- On numbers without NaN: a selection is an error for an unknown cost class, None if no agent is admitted under the
  -- constraints that the mandates leave, and else an admitted agent of the list that no admitted one exceeds in score.
  pub select_agent-IsAnswer :
      IsWeakOrder num → IsAnswer (select_agent int now s agents asked devices).0
  unfolding select_agent
  select_agent-IsAnswer o = answer_among-IsAnswer o (cost_index effective_of.max_cost_class) refl
