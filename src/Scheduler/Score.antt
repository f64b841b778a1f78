-- ===== src/Scheduler/Score.antt =====
-- src/aries/scheduler/router.py: the score of an agent.
use ariesmesh.Prelude.{
  String, Bool, not, ◌&&◌, Option, none, some, if◌then◌else◌, str_eq, ltb, Number, fmin, lit,
  contains,
}
use ariesmesh.Scheduler.{TaskConstraints, AgentRecord, ScoringWeights, is_empty}
use ariesmesh.Scheduler.Health.{DeviceHealth, tenths, health_score}

module _ {F : Type 0} ⦃num : Number F⦄ where
  -- `LOCALITY_RANK.get` and `COST_RANK.get`
  unfoldable pub locality_rank : String → F
  locality_rank l =
      if str_eq l "local" then lit 1 else if str_eq l "cloud-routed" then tenths 2 else tenths 5

  unfoldable pub cost_rank : String → F
  cost_rank c = if str_eq c "free" then lit 1 else if str_eq c "metered" then tenths 5 else tenths 2

  -- the variable `capability`
  unfoldable pub capability_score : AgentRecord → TaskConstraints → F
  unfolding contains
  capability_score a c =
      let base =
        if ltb 0 a.context_window
        then fmin (num.div (lit a.context_window) (lit 200000)) (lit 1)
        else tenths 3 in
      if not (is_empty c.vendor_preference) && contains a.vendor c.vendor_preference
      then fmin (num.add base (tenths 1)) (lit 1)
      else base

  abbrev device_score : Option (DeviceHealth F) → F
  device_score none = tenths 7
  device_score (some h) = health_score h

  -- `a == 0`, also of a NaN
  abbrev pub is_zero : F → Bool
  is_zero a = num.le a (lit 0) && num.le (lit 0) a

  -- `total / denom if denom else 0.0`
  abbrev pub quotient : F → F → F
  quotient total denom = if is_zero denom then lit 0 else num.div total denom

  -- `_score`, for numbers that are no NaN
  unfoldable pub agent_score :
      ScoringWeights F → AgentRecord → TaskConstraints → Option (DeviceHealth F) → F
  unfolding locality_rank cost_rank capability_score health_score
  agent_score w a c health =
      let total =
        num.add
          (num.add
            (num.add
              (num.add (num.mul w.privacy (locality_rank a.locality))
                (num.mul w.capability (capability_score a c)))
              (num.mul w.latency (if str_eq a.locality "local" then lit 1 else tenths 5)))
            (num.mul w.cost (cost_rank a.cost_class)))
          (num.mul w.health (device_score health)) in
      let denom =
        num.add (num.add (num.add (num.add w.privacy w.capability) w.latency) w.cost) w.health in
      quotient total denom
