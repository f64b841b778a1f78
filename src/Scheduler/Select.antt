-- ===== src/Scheduler/Select.antt =====
-- src/aries/scheduler/router.py: `select_agent`, with the state of the scheduler.
pub mod Best
pub mod Mandated
use ariesmesh.Prelude.{
  ℕ, String, Bool, true, false, Option, none, some, List, [], ◌∷◌, map, if◌then◌else◌, str_eq,
  Number,
}
use ariesmesh.Dict.{lookup, insert}
use ariesmesh.Scheduler.{
  TaskConstraints, AgentRecord, ScoringWeights, Mandate, Moment, filter_agents, apply_mandates,
}
use ariesmesh.Scheduler.Health.{DeviceHealth}
use ariesmesh.Scheduler.Score.{agent_score}

pub record Scheduler (F : Type 0) : Type 0 where
  pub weights : ScoringWeights F
  pub mandates : List (Mandate F)
  pub device_health : List (String × DeviceHealth F)

unfoldable pub update_device_health : {F : Type 0} → DeviceHealth F → Scheduler F → Scheduler F
update_device_health h s = record s { device_health = insert h.device_did h s.device_health }

-- What a call gives: the ValueError of an unknown cost class, None, or an agent with its score.
pub data Outcome (F : Type 0) : Type 0 where
  unknown_cost_class nobody : Outcome F
  chosen : AgentRecord → F → Outcome F

-- `_device_health.get(device_did) if device_did else None`, with the device from the map
unfoldable pub health_of :
    {F : Type 0}
    → List (String × DeviceHealth F)
    → List (String × String)
    → String
    → Option (DeviceHealth F)
unfolding lookup
health_of healths devices agent = elim (lookup agent devices) [
  | none ↦ none
  | some device ↦ if str_eq device "" then none else lookup device healths
]

module _ {F : Type 0} ⦃num : Number F⦄ where
  -- A stable sort by falling scores in place of `sort(key=..., reverse=True)`, which gives the same list for
  -- numbers that are no NaN.
  unfoldable pub place : AgentRecord × F → List (AgentRecord × F) → List (AgentRecord × F)
  place x [] = x ∷ []
  place x (y ∷ l) = let later = place x l in if num.lt x.1 y.1 then y ∷ later else x ∷ y ∷ l

  unfoldable pub sort_by_score : List (AgentRecord × F) → List (AgentRecord × F)
  unfolding place
  sort_by_score [] = []
  sort_by_score (x ∷ l) = place x (sort_by_score l)

  -- `scored[0]`, and None where there are no candidates
  abbrev pub first_scored : List (AgentRecord × F) → Outcome F
  first_scored [] = nobody
  first_scored (x ∷ l) = chosen x.0 x.1

  module _ (int : String → Option ℕ) (now : Moment) where
    abbrev pub score_in : Scheduler F → TaskConstraints → List (String × String) → AgentRecord → F
    score_in s effective devices a =
        agent_score s.weights a effective (health_of s.device_health devices a.agent_did)

    -- the statements of `select_agent` after the mandates
    abbrev pub answer_among :
        Scheduler F
        → TaskConstraints
        → List (String × String)
        → Option (List AgentRecord)
        → Outcome F
    answer_among s effective devices none = unknown_cost_class
    answer_among s effective devices (some candidates) =
        first_scored (sort_by_score (map (λ a. (a, score_in s effective devices a)) candidates))

    -- `select_agent`: the outcome and the scheduler afterwards. `devices` is `device_did_map`.
    unfoldable pub select_agent :
        Scheduler F
        → List AgentRecord
        → TaskConstraints
        → List (String × String)
        → Outcome F × Scheduler F
    unfolding apply_mandates filter_agents sort_by_score
    select_agent s agents asked devices =
        let (effective, weights) = apply_mandates int now asked s.mandates s.weights in
        let after = record s { weights = weights } in
        (answer_among after effective devices (filter_agents agents effective), after)
