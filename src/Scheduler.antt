-- ===== src/Scheduler.antt =====
-- src/aries/scheduler/router.py: how an agent is chosen for a task. The reading of mandates from YAML is
-- left out.
pub mod Health
pub mod Score
pub mod Select
pub mod Tests
use ariesmesh.Prelude.{
  ℕ, suc, ◌+◌, ◌*◌, String, Bool, true, false, not, ◌&&◌, ◌||◌, Option, none, some, List, [], ◌∷◌,
  foldl, if◌then◌else◌, str_eq, ltb, leb, any, keep, split_on, contains,
}

pub data Locality : Type 0 where
  local_only household any_place : Locality

-- `vendor_preference` and `vendor_exclude` are lists of vendors; `min_context_window` and the windows of
-- agents are numbers of tokens. `max_latency_ms` is never read.
pub record TaskConstraints : Type 0 where
  pub capability : String
  pub locality : Locality
  pub vendor_preference : List String
  pub vendor_exclude : List String
  pub min_context_window : ℕ
  pub max_cost_class : String
  pub tags : List String

-- What the scheduler reads of an `AgentRecord`.
pub record AgentRecord : Type 0 where
  pub agent_did : String
  pub vendor : String
  pub capabilities : List String
  pub context_window : ℕ
  pub locality : String
  pub cost_class : String

pub record ScoringWeights (F : Type 0) : Type 0 where
  pub privacy : F
  pub capability : F
  pub latency : F
  pub cost : F
  pub health : F

-- `enforce_max_tokens` is never read; an empty text is falsy, as `none`.
pub record Mandate (F : Type 0) : Type 0 where
  pub name : String
  pub when_tags : List String
  pub when_time : String
  pub is_default : Bool
  pub enforce_locality : String
  pub enforce_cost_class : String
  pub scoring_overrides : Option (ScoringWeights F)

abbrev pub is_empty : {A : Type 0} → List A → Bool
is_empty [] = true
is_empty (x ∷ l) = false

-- `COST_ORDER.index`; `none` is the ValueError.
unfoldable pub cost_index : String → Option ℕ
cost_index class =
    if str_eq class "free"
    then some 0
    else if str_eq class "metered"
    then some 1
    else if str_eq class "paid"
    then some 2
    else none

-- `agent.cost_class in COST_ORDER` and the comparison with the index of `max_cost_class`
unfoldable pub is_affordable : ℕ → Option ℕ → Bool
is_affordable limit none = false
is_affordable limit (some i) = leb i limit

-- the tests of the loop of `_filter`, in their order
unfoldable pub admits : ℕ → TaskConstraints → AgentRecord → Bool
unfolding contains cost_index is_affordable
admits limit c a =
    if not (contains c.capability a.capabilities)
    then false
    else if elim c.locality [
      | local_only ↦ not (str_eq a.locality "local")
      | household ↦ false
      | any_place ↦ false
    ]
    then false
    else if not (is_empty c.vendor_preference) && not (contains a.vendor c.vendor_preference)
    then false
    else if contains a.vendor c.vendor_exclude
    then false
    else if ltb a.context_window c.min_context_window
    then false
    else is_affordable limit (cost_index a.cost_class)

-- `_filter`, and its loop under the index of the largest cost class
abbrev pub filter_under : Option ℕ → List AgentRecord → TaskConstraints → Option (List AgentRecord)
filter_under none agents c = none
filter_under (some limit) agents c = some (keep (admits limit c) agents)

unfoldable pub filter_agents : List AgentRecord → TaskConstraints → Option (List AgentRecord)
unfolding admits cost_index
filter_agents agents c = filter_under (cost_index c.max_cost_class) agents c

-- `datetime.now()`, one moment for a call, and `int`, `none` where it raises. A window holds no sign, since "-" separates its
-- parts, so its numbers are natural.
pub record Moment : Type 0 where
  pub hour : ℕ
  pub minute : ℕ

abbrev clock_minutes : (String → Option ℕ) → List String → Option ℕ
clock_minutes int (h ∷ m ∷ []) = elim (int h) [
  | none ↦ none
  | some hours ↦ elim (int m) [ none ↦ none | some minutes ↦ some (hours * 60 + minutes) ]
]
clock_minutes int _ = none

-- the last statements of `_is_within_time_window`
unfoldable pub is_between : ℕ → ℕ → ℕ → Bool
is_between start end cur =
    if leb start end then leb start cur && leb cur end else leb start cur || leb cur end

abbrev window_test : Option ℕ → Option ℕ → ℕ → Bool
window_test none end cur = false
window_test (some start) none cur = false
window_test (some start) (some end) cur = is_between start end cur

abbrev window_parts : (String → Option ℕ) → List String → ℕ → Bool
window_parts int (s ∷ e ∷ []) cur =
    window_test (clock_minutes int (split_on b':' s)) (clock_minutes int (split_on b':' e)) cur
window_parts int _ cur = false

-- `_is_within_time_window`
unfoldable pub is_within_time_window : (String → Option ℕ) → String → Moment → Bool
unfolding is_between split_on
is_within_time_window int window now =
    window_parts int (split_on b'-' window) (now.hour * 60 + now.minute)

module _ {F : Type 0} (int : String → Option ℕ) where
  -- `_mandate_applies`
  unfoldable pub mandate_applies : Moment → Mandate F → TaskConstraints → Bool
  unfolding contains is_within_time_window
  mandate_applies now m c =
      if m.is_default
      then true
      else if any (λ t. contains t c.tags) m.when_tags
      then true
      else if not (str_eq m.when_time "")
      then is_within_time_window int m.when_time now
      else false

-- `enforce_locality` on the effective constraints: a value that is not known changes nothing.
unfoldable pub enforced_locality : String → Locality → Locality
enforced_locality e l =
    if str_eq e "local"
    then local_only
    else if str_eq e "household"
    then household
    else if str_eq e "any"
    then any_place
    else l

unfoldable pub enforced_cost : String → String → String
enforced_cost e cost = if str_eq e "" then cost else e

module _ {F : Type 0} where
  -- what a mandate that applies does to the effective constraints and to `self.weights`
  unfoldable pub enforce :
      Mandate F → TaskConstraints × ScoringWeights F → TaskConstraints × ScoringWeights F
  unfolding enforced_locality enforced_cost
  enforce m (effective, weights) = (
    record effective {
      locality = enforced_locality m.enforce_locality effective.locality;
      max_cost_class = enforced_cost m.enforce_cost_class effective.max_cost_class;
    },
    elim m.scoring_overrides [ none ↦ weights | some w ↦ w ],
  )

  unfoldable pub enforce_if :
      Bool → Mandate F → TaskConstraints × ScoringWeights F → TaskConstraints × ScoringWeights F
  unfolding enforce
  enforce_if true m t = enforce m t
  enforce_if false m t = t

module _ {F : Type 0} (int : String → Option ℕ) (now : Moment) (asked : TaskConstraints) where
  -- the body of the loop of `_apply_mandates`, and the loop
  unfoldable pub apply_mandate :
      TaskConstraints × ScoringWeights F → Mandate F → TaskConstraints × ScoringWeights F
  unfolding mandate_applies enforce_if
  apply_mandate t m = enforce_if (mandate_applies int now m asked) m t

  unfoldable pub apply_mandates :
      List (Mandate F) → ScoringWeights F → TaskConstraints × ScoringWeights F
  unfolding apply_mandate
  apply_mandates mandates weights = foldl apply_mandate (asked, weights) mandates
