-- ===== src/Inference/Registry.antt =====
-- src/aries/inference/registry.py: `InferenceRegistry`, which lists the configurations that are feasible
-- with the devices of the moment; and the two handlers of src/aries/node.py that feed it.
pub mod Tried
pub mod Feasible
pub mod Raises
pub mod Devices
pub mod Events
pub mod Best
pub mod Stale
use mathlib.Core.List.{◌++◌}
use ariesmesh.Prelude.{
  ◌≡◌, String, Bool, true, false, not, ◌&&◌, Option, none, some, List, [], ◌∷◌, map, foldl, keep,
  if◌then◌else◌, str_eq, Number, fmin, lit,
}
use ariesmesh.Dict.{lookup, insert, remove}
use ariesmesh.Scheduler.{ScoringWeights, TaskConstraints, Locality, local_only}
use ariesmesh.Scheduler.Score.{quotient}
use ariesmesh.Scheduler.Health.{DeviceHealth, health_score}
use ariesmesh.Inference.{
  DeviceRole, ModelInfo, DeviceCapability, InferenceConfig, usable_memory, build_local_config,
  build_distributed_config,
}

pub record Registry (F : Type 0) : Type 0 where
  pub models : List (String × List (ModelInfo F))
  pub device_capabilities : List (String × DeviceCapability F)
  pub configs : List (InferenceConfig F)
  pub weights : ScoringWeights F

abbrev pub is_local_only : Locality → Bool
is_local_only local_only = true
is_local_only _ = false

-- The registry behind a call, which ends or raises ZeroDivisionError.
pub data Update (F : Type 0) : Type 0 where
  computed zero_division : Registry F → Update F

-- A caller that catches the exception goes on with the registry as it is.
abbrev pub left_by : {F : Type 0} → Update F → Registry F
left_by (computed r) = r
left_by (zero_division r) = r

-- the results of calls in order, up to the first that raises
unfoldable pub collect : {A : Type 0} → List (Option A) → Option (List A)
collect [] = some []
collect (none ∷ l) = none
collect (some x ∷ l) = elim (collect l) [ none ↦ none | some xs ↦ some (x ∷ xs) ]

module _ {F : Type 0} where
  abbrev pub not_on : String → ModelInfo F → Bool
  not_on did m = not (str_eq m.device_did did)

  abbrev or_empty : Option (List (ModelInfo F)) → List (ModelInfo F)
  or_empty none = []
  or_empty (some l) = l

  -- `_register_model_no_recompute`, on the dictionary of models
  unfoldable pub register_model_no_recompute :
      ModelInfo F → List (String × List (ModelInfo F)) → List (String × List (ModelInfo F))
  unfolding lookup insert
  register_model_no_recompute m models =
      insert m.name (keep (not_on m.device_did) (or_empty (lookup m.name models)) ++ (m ∷ []))
        models

  -- the loop of `remove_device`
  unfoldable pub drop_models :
      String → List (String × List (ModelInfo F)) → List (String × List (ModelInfo F))
  drop_models did [] = []
  drop_models did ((name, lst) ∷ models) = elim (keep (not_on did) lst) [
    | [] ↦ drop_models did models
    | ◌∷◌ m kept ↦ (name, m ∷ kept) ∷ drop_models did models
  ]

module _ {F : Type 0} ⦃num : Number F⦄ where
  -- The configurations that are built, in order; `none` is a build that raises.
  unfoldable pub local_configs :
      DeviceCapability F → ModelInfo F → List (Option (InferenceConfig F))
  unfolding build_local_config
  local_configs host m =
      if num.le m.size_gb (usable_memory host) then some (build_local_config host m) ∷ [] else []

  -- the loop over the workers
  unfoldable pub worker_configs :
      DeviceCapability F
      → ModelInfo F
      → List (String × DeviceCapability F)
      → List (Option (InferenceConfig F))
  unfolding build_distributed_config
  worker_configs host m [] = []
  worker_configs host m ((did, worker) ∷ others) =
      let rest = worker_configs host m others in
      let host_mem = usable_memory host in
      let worker_mem = usable_memory worker in
      if str_eq did m.device_did
      then rest
      else if num.lt (num.add host_mem worker_mem) m.size_gb
      then rest
      else build_distributed_config host worker m host_mem worker_mem ∷ rest

  abbrev configs_on :
      Option (DeviceCapability F)
      → ModelInfo F
      → List (String × DeviceCapability F)
      → List (Option (InferenceConfig F))
  configs_on none m caps = []
  configs_on (some host) m caps = local_configs host m ++ worker_configs host m caps

  -- the loop over the records of a model
  unfoldable pub list_configs :
      List (ModelInfo F) → List (String × DeviceCapability F) → List (Option (InferenceConfig F))
  unfolding lookup local_configs worker_configs
  list_configs [] caps = []
  list_configs (m ∷ models) caps =
      configs_on (lookup m.device_did caps) m caps ++ list_configs models caps

  unfoldable pub all_configs :
      List (String × List (ModelInfo F))
      → List (String × DeviceCapability F)
      → List (Option (InferenceConfig F))
  unfolding list_configs
  all_configs [] caps = []
  all_configs ((name, lst) ∷ models) caps = list_configs lst caps ++ all_configs models caps

  -- `_compute_configs`: a build that raises leaves the list of before.
  unfoldable pub compute_configs : Registry F → Update F
  unfolding all_configs collect
  compute_configs r = elim (collect (all_configs r.models r.device_capabilities)) [
    | none ↦ zero_division r
    | some configs ↦ computed (record r { configs = configs })
  ]

  -- what `update_device` and `remove_device` do before they compute the configurations
  unfoldable pub with_capability : String → DeviceCapability F → Registry F → Registry F
  unfolding register_model_no_recompute insert
  with_capability did cap r = record r {
    device_capabilities = insert did cap r.device_capabilities;
    models = foldl (λ models m. register_model_no_recompute m models) r.models cap.available_models;
  }

  unfoldable pub without_device : String → Registry F → Registry F
  unfolding drop_models remove
  without_device did r = record r {
    device_capabilities = remove did r.device_capabilities;
    models = drop_models did r.models;
  }

  unfoldable pub update_device : String → DeviceCapability F → Registry F → Update F
  unfolding compute_configs with_capability
  update_device did cap r = compute_configs (with_capability did cap r)

  unfoldable pub remove_device : String → Registry F → Update F
  unfolding compute_configs without_device
  remove_device did r = compute_configs (without_device did r)

  unfoldable pub register_model : ModelInfo F → Registry F → Update F
  unfolding compute_configs register_model_no_recompute
  register_model m r =
      compute_configs (record r { models = register_model_no_recompute m r.models })

  -- the loop over the roles, and one step of it
  unfoldable pub live_health : List (DeviceRole F) → List (String × DeviceHealth F) → F → F
  unfolding lookup health_score
  live_health [] healths health = health
  live_health (role ∷ roles) healths health = elim (lookup role.device_did healths) [
    | none ↦ live_health roles healths health
    | some live ↦ live_health roles healths (fmin health (health_score live))
  ]

  -- the weighted mean of five scores, by which `weighted_score` and `_live_score` end
  abbrev mean_score : ScoringWeights F → InferenceConfig F → F → F
  mean_score w c health =
      let total =
        num.add
          (num.add
            (num.add
              (num.add (num.mul w.privacy c.privacy_score)
                (num.mul w.capability c.capability_score))
              (num.mul w.latency c.latency_score))
            (num.mul w.cost c.cost_score))
          (num.mul w.health health) in
      quotient total
        (num.add (num.add (num.add (num.add w.privacy w.capability) w.latency) w.cost) w.health)

  -- `weighted_score`, with the weights given
  abbrev pub weighted_score : ScoringWeights F → InferenceConfig F → F
  weighted_score w c = mean_score w c c.health_score

  -- `_live_score`
  unfoldable pub live_score :
      ScoringWeights F → List (String × DeviceHealth F) → InferenceConfig F → F
  unfolding live_health
  live_score w healths c = mean_score w c (live_health c.devices healths c.health_score)

  -- `_filter_by_constraints`
  abbrev pub allowed : TaskConstraints → InferenceConfig F → Bool
  allowed constraints c = not (is_local_only constraints.locality && str_eq c.config_type "cloud")

  -- `max` with a key: the first of those with the highest score
  unfoldable pub best_of :
      (InferenceConfig F → F) → InferenceConfig F → List (InferenceConfig F) → InferenceConfig F
  best_of score best [] = best
  best_of score best (c ∷ cs) = best_of score (if num.lt (score best) (score c) then c else best) cs

  abbrev first_best :
      (InferenceConfig F → F) → List (InferenceConfig F) → Option (InferenceConfig F)
  first_best score [] = none
  first_best score (c ∷ cs) = some (best_of score c cs)

  unfoldable pub get_best_config :
      Registry F → TaskConstraints → List (String × DeviceHealth F) → Option (InferenceConfig F)
  unfolding best_of live_score
  get_best_config r constraints healths =
      first_best (live_score r.weights healths) (keep (allowed constraints) r.configs)

  -- What `_handle_inference_capability` makes of a capability that a peer reports under its authenticated DID.
  abbrev pub owned_model : String → ModelInfo F → ModelInfo F
  owned_model sender m = record m { device_did = sender }

  abbrev pub owned : String → DeviceCapability F → DeviceCapability F
  owned sender cap = record cap {
    device_did = sender;
    available_models = map (owned_model sender) cap.available_models;
  }

  -- Its caller, `_receive_loop` of src/aries/transport/peer.py, catches what it raises.
  unfoldable pub capability_reported : String → DeviceCapability F → Registry F → Update F
  unfolding update_device
  capability_reported sender cap r =
      if str_eq sender "" then computed r else update_device sender (owned sender cap) r

  -- `_on_peer_disconnected`, as far as it goes to the registry
  unfoldable pub peer_disconnected : String → Registry F → Update F
  unfolding remove_device
  peer_disconnected did r = if str_eq did "" then computed r else remove_device did r
