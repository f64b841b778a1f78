-- ===== src/Scheduler/Tests.antt =====
-- The theorems on the scheduler at concrete inputs, with whole numbers for the scores.
use ariesmesh.Prelude.{
  ℕ, ◌≡◌, refl, String, true, false, Option, none, some, List, [], ◌∷◌, str_eq, if◌then◌else◌,
}
use ariesmesh.Prelude.Naturals.{whole, whole-IsWeakOrder}
use ariesmesh.Scheduler.{
  any_place, TaskConstraints, AgentRecord, ScoringWeights, Mandate, Moment, mandate_applies,
}
use ariesmesh.Scheduler.Select.{Scheduler, chosen, health_of, select_agent}
use ariesmesh.Scheduler.Score.{agent_score}
use ariesmesh.Scheduler.Select.Best.{IsAnswer, select_agent-IsAnswer}
use ariesmesh.Scheduler.Select.Mandated.{KeepsWeights, chosen_agent_local, override_outlives}

abbrev int : String → Option ℕ
int s =
    if str_eq s "08"
    then some 8
    else if str_eq s "18"
    then some 18
    else if str_eq s "00"
    then some 0
    else none

abbrev noon : Moment
noon = record { hour = 12; minute = 0 }

abbrev night : Moment
night = record { hour = 23; minute = 30 }

abbrev usual : ScoringWeights ℕ
usual = record { privacy = 3; capability = 2; latency = 1; cost = 1; health = 1 }

abbrev cheap : ScoringWeights ℕ
cheap = record { privacy = 0; capability = 0; latency = 0; cost = 1; health = 0 }

abbrev office_hours : Mandate ℕ
office_hours = record {
  name = "office";
  when_tags = [];
  when_time = "08:00-18:00";
  is_default = false;
  enforce_locality = "local";
  enforce_cost_class = "";
  scoring_overrides = some cheap;
}

abbrev home : Scheduler ℕ
home = record { weights = usual; mandates = office_hours ∷ []; device_health = [] }

abbrev agent : String → String → String → AgentRecord
agent did locality cost = record {
  agent_did = did;
  vendor = "v";
  capabilities = "chat" ∷ [];
  context_window = 400000;
  locality = locality;
  cost_class = cost;
}

abbrev agents : List AgentRecord
agents =
    agent "did:cloud" "cloud-routed" "free"
    ∷ agent "did:dear" "local" "paid"
    ∷ agent "did:near" "local" "free"
    ∷ []

abbrev asked : TaskConstraints
asked = record {
  capability = "chat";
  locality = any_place;
  vendor_preference = [];
  vendor_exclude = [];
  min_context_window = 1000;
  max_cost_class = "paid";
  tags = [];
}

near_chosen :
    (select_agent int noon home agents asked []).0 ≡ chosen (agent "did:near" "local" "free") 1
unfolding select_agent agent_score health_of
near_chosen = refl

select_agent-IsAnswer_example :
    IsAnswer int noon home agents asked [] (select_agent int noon home agents asked []).0
select_agent-IsAnswer_example =
    select_agent-IsAnswer int noon home agents asked [] whole-IsWeakOrder

applies_at_noon : mandate_applies int noon office_hours asked ≡ true
unfolding mandate_applies
applies_at_noon = refl

rests_at_night : KeepsWeights int night asked office_hours
unfolding mandate_applies
rests_at_night h = cc

chosen_agent_local_example : (agent "did:near" "local" "free").locality ≡ "local"
chosen_agent_local_example =
    chosen_agent_local int noon home agents asked [] whole-IsWeakOrder [] [] office_hours refl
      applies_at_noon refl tt (agent "did:near" "local" "free") 1 near_chosen

override_outlives_example :
    (select_agent int night
      (select_agent int noon home agents asked []).1
      agents
      asked
      []).1.weights
    ≡ cheap
override_outlives_example =
    override_outlives int home [] [] office_hours cheap noon night agents agents asked asked [] refl
      applies_at_noon refl tt (rests_at_night, tt)
