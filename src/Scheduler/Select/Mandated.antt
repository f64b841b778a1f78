-- ===== src/Scheduler/Select/Mandated.antt =====
-- What the mandates do to a selection, and to the selections after it.
use mathlib.Core.List.{◌++◌, foldl-append}
use ariesmesh.Prelude.{
  ◌≡◌, refl, ap, inl, inr, ℕ, String, Bool, true, false, Option, none, some, List, [], ◌∷◌, foldl,
  eq_iff, Number, IsWeakOrder, Bool-cases, All, arith,
}
use ariesmesh.Scheduler.{
  local_only, TaskConstraints, AgentRecord, ScoringWeights, Mandate, Moment, admits,
  mandate_applies, enforced_locality, enforce_if, apply_mandate, apply_mandates,
}
use ariesmesh.Scheduler.Select.{
  Scheduler, Outcome, unknown_cost_class, nobody, chosen, select_agent,
}
use ariesmesh.Scheduler.Select.Best.{
  effective_of, IsAnswer, is_unknown, is_nobody, is_chosen, select_agent-IsAnswer,
}

module _ {S A : Type 0} (step : S → A → S) (P : S → Type 0) (Q : A → Type 0)
    (kept : (x : A) (t : S) → Q x → P t → P (step t x)) where
  foldl-keeps : (l : List A) (s : S) → All Q l → P s → P (foldl step s l)
  foldl-keeps [] s h p = p
  foldl-keeps (x ∷ l) s (h, hs) p = foldl-keeps l (step s x) hs (kept x s h p)

  foldl-last :
      (front rest : List A) (m : A) (s : S)
      → ((t : S) → P (step t m))
      → All Q rest
      → P (foldl step s (front ++ (m ∷ rest)))
  foldl-last front rest m s h hs =
      rw (foldl-append step s front (m ∷ rest))
        (foldl-keeps rest (step (foldl step s front) m) hs (h (foldl step s front)))

admits-is_local :
    (limit : ℕ) (c : TaskConstraints) (a : AgentRecord)
    → c.locality ≡ local_only
    → admits limit c a ≡ true
    → a.locality ≡ "local"
unfolding admits
admits-is_local limit c a h k = let g = rw h at k in ground (arith, eq_iff a.locality "local")

module _ {F : Type 0} (int : String → Option ℕ) (now : Moment) (asked : TaskConstraints) where
  -- A mandate that applies does not send the task elsewhere.
  abbrev pub KeepsLocal : Mandate F → Type 0
  KeepsLocal m =
      mandate_applies int now m asked ≡ true
      → enforced_locality m.enforce_locality local_only ≡ local_only

  -- A mandate that applies leaves the weights.
  abbrev pub KeepsWeights : Mandate F → Type 0
  KeepsWeights m = mandate_applies int now m asked ≡ true → m.scoring_overrides ≡ none

  apply_if :
      (m : Mandate F) (t : TaskConstraints × ScoringWeights F) (b : Bool)
      → mandate_applies int now m asked ≡ b
      → apply_mandate int now asked t m ≡ enforce_if b m t
  unfolding apply_mandate
  apply_if m t b e = ap (λ c. enforce_if c m t) e

  keeps_local :
      (m : Mandate F) (t : TaskConstraints × ScoringWeights F)
      → KeepsLocal m
      → t.0.locality ≡ local_only
      → (apply_mandate int now asked t m).0.locality ≡ local_only
  unfolding enforce_if
  keeps_local m t h k = elim (Bool-cases (mandate_applies int now m asked)) [
    | inl e ↦ rw (apply_if m t true e, k) (h e)
    | inr e ↦ rw (apply_if m t false e) k
  ]

  keeps_weights :
      (w : ScoringWeights F) (m : Mandate F) (t : TaskConstraints × ScoringWeights F)
      → KeepsWeights m
      → t.1 ≡ w
      → (apply_mandate int now asked t m).1 ≡ w
  unfolding enforce_if
  keeps_weights w m t h k = elim (Bool-cases (mandate_applies int now m asked)) [
    | inl e ↦ rw (apply_if m t true e, h e) k
    | inr e ↦ rw (apply_if m t false e) k
  ]

  apply_mandates_lem :
      (mandates : List (Mandate F)) (weights : ScoringWeights F)
      → apply_mandates int now asked mandates weights
        ≡ foldl (apply_mandate int now asked) (asked, weights) mandates
  unfolding apply_mandates
  apply_mandates_lem mandates weights = refl

  -- what the last of the mandates that matter leaves
  module _ (front rest : List (Mandate F)) (m : Mandate F)
      (applies : mandate_applies int now m asked ≡ true) (weights : ScoringWeights F) where
    locality_left :
        m.enforce_locality ≡ "local"
        → All KeepsLocal rest
        → (apply_mandates int now asked (front ++ (m ∷ rest)) weights).0.locality ≡ local_only
    unfolding enforce_if
    locality_left e h = rw (apply_mandates_lem (front ++ (m ∷ rest)) weights) (
        foldl-last (apply_mandate int now asked) (λ t. t.0.locality ≡ local_only) KeepsLocal
          keeps_local front rest m (asked, weights) (λ t. rw (apply_if m t true applies, e) refl) h)

    weights_left :
        (w : ScoringWeights F)
        → m.scoring_overrides ≡ some w
        → All KeepsWeights rest
        → (apply_mandates int now asked (front ++ (m ∷ rest)) weights).1 ≡ w
    unfolding enforce_if
    weights_left w e h = rw (apply_mandates_lem (front ++ (m ∷ rest)) weights) (
        foldl-last (apply_mandate int now asked) (λ t. t.1 ≡ w) KeepsWeights (keeps_weights w) front
          rest m (asked, weights) (λ t. rw (apply_if m t true applies, e) refl) h)

-- What an answer says of an agent that is chosen.
module _ {F : Type 0} ⦃num : Number F⦄ (int : String → Option ℕ) (now : Moment) (s : Scheduler F)
    (agents : List AgentRecord) (asked : TaskConstraints) (devices : List (String × String)) where
  abbrev Admitted : Outcome F → Type 0
  Admitted unknown_cost_class = Unit
  Admitted nobody = Unit
  Admitted (chosen a x) =
      (limit : ℕ) × (admits limit (effective_of int now s agents asked devices) a ≡ true)

  answer-Admitted : (out : Outcome F) → IsAnswer int now s agents asked devices out → Admitted out
  answer-Admitted out (is_unknown e) = tt
  answer-Admitted out (is_nobody limit e h) = tt
  answer-Admitted out (is_chosen limit e a m g h) = (limit, g)

  -- On numbers without NaN: under a mandate that applies and enforces the local device, and which no later mandate that
  -- applies overrides, an agent that is chosen runs on the local device.
  pub chosen_agent_local :
      (o : IsWeakOrder num) (front rest : List (Mandate F)) (m : Mandate F)
      → s.mandates ≡ front ++ (m ∷ rest)
      → mandate_applies int now m asked ≡ true
      → m.enforce_locality ≡ "local"
      → All (KeepsLocal int now asked) rest
      → (a : AgentRecord) (x : F) → (select_agent int now s agents asked devices).0 ≡ chosen a x
      → a.locality ≡ "local"
  chosen_agent_local o front rest m e applies l h a x k =
      let answer = select_agent-IsAnswer int now s agents asked devices o in
      let (limit, g) = answer-Admitted (chosen a x) (rw k at answer) in
      admits-is_local limit (effective_of int now s agents asked devices) a
        (rw e (locality_left int now asked front rest m applies s.weights l h)) g

module _ {F : Type 0} ⦃num : Number F⦄ (int : String → Option ℕ) (s : Scheduler F) where
  -- The scoring overrides of a mandate that applied once, with no override after it, are still the weights after a later
  -- selection at which no mandate with overrides applies.
  pub override_outlives :
      (front rest : List (Mandate F)) (m : Mandate F) (w : ScoringWeights F) (now later : Moment)
      (agents others : List AgentRecord) (asked next : TaskConstraints)
      (devices : List (String × String))
      → s.mandates ≡ front ++ (m ∷ rest)
      → mandate_applies int now m asked ≡ true
      → m.scoring_overrides ≡ some w
      → All (KeepsWeights int now asked) rest
      → All (KeepsWeights int later next) s.mandates
      → (select_agent int later
          (select_agent int now s agents asked devices).1
          others
          next
          devices).1.weights
        ≡ w
  unfolding select_agent
  override_outlives front rest m w now later agents others asked next devices e applies o h k =
      rw
        (apply_mandates_lem int later next s.mandates
          (apply_mandates int now asked s.mandates s.weights).1)
        (foldl-keeps (apply_mandate int later next) (λ t. t.1 ≡ w) (KeepsWeights int later next)
          (keeps_weights int later next w) s.mandates
          (next, (apply_mandates int now asked s.mandates s.weights).1) k
          (rw e (weights_left int now asked front rest m applies s.weights w o h)))
