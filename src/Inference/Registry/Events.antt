-- ===== src/Inference/Registry/Events.antt =====
-- Which devices the configurations name, in every registry that the handlers of the node can make.
use mathlib.Core.Path.{subst, subst⁻¹}
use ariesmesh.Prelude.{
  ◌≡◌, ◌≢◌, ◌⊎◌, refl, ap, ◌∙◌, String, false, some, [], In, inl, inr, if◌then◌else◌, str_eq,
  Number, Bool-cases, Option-cases, List,
}
use ariesmesh.Dict.{lookup, remove}
use ariesmesh.Memory.Store.Registers.{Unique}
use ariesmesh.Memory.Valid.Dictionaries.{insert-Unique, remove-Unique, lookup-remove_self}
use ariesmesh.Scheduler.{ScoringWeights}
use ariesmesh.Inference.{
  ModelInfo, DeviceCapability, DeviceRole, InferenceConfig, build_local_config,
  build_distributed_config, usable_memory, divided, distributed_tok_s, distributed_config,
}
use ariesmesh.Inference.Registry.{
  Registry, capability_reported, peer_disconnected, register_model, update_device, remove_device,
  compute_configs, owned, Update, computed, left_by, collect, all_configs, with_capability,
  without_device, register_model_no_recompute,
}
use ariesmesh.Inference.Registry.Feasible.{some_path, compute_configs_iff}
use ariesmesh.Inference.Registry.Tried.{Tried}
use ariesmesh.Inference.Registry.Devices.{
  IsOwn, insert-IsOwn, remove-IsOwn, lookup-IsOwn, In-lookup,
}

-- What the handlers are told: capabilities from peers, a capability of this device from a probe of it,
-- models, and disconnections.
pub data Event (F : Type 0) : Type 0 where
  reported : String → DeviceCapability F → Event F
  probed : DeviceCapability F → Event F
  found : ModelInfo F → Event F
  disconnected : String → Event F

module _ {F : Type 0} ⦃num : Number F⦄ where
  abbrev pub handle : Event F → Registry F → Update F
  handle (reported sender cap) r = capability_reported sender cap r
  handle (probed cap) r = update_device cap.device_did cap r
  handle (found m) r = register_model m r
  handle (disconnected did) r = peer_disconnected did r

  abbrev pub started : ScoringWeights F → Registry F
  started w = record { models = []; device_capabilities = []; configs = []; weights = w }

  -- The callers go on behind an exception.
  pub data Reach : Registry F → Type 0 where
    start : (w : ScoringWeights F) → Reach (started w)
    next : {r : Registry F} → Reach r → (e : Event F) → Reach (left_by (handle e r))

  -- The capabilities are those of the devices that they are filed under, one of each.
  abbrev pub IsFiled : List (String × DeviceCapability F) → Type 0
  IsFiled caps = Unique caps × IsOwn caps

  capabilities-compute :
      (r : Registry F) → (left_by (compute_configs r)).device_capabilities ≡ r.device_capabilities
  unfolding compute_configs
  capabilities-compute r =
      elim (Option-cases (collect (all_configs r.models r.device_capabilities))) [
        | inl n ↦ rw (compute_configs, n) refl
        | inr (cs, k) ↦ rw (compute_configs, k) refl
      ]

  kept_by :
      (r : Registry F)
      → IsFiled r.device_capabilities
      → IsFiled (left_by (compute_configs r)).device_capabilities
  kept_by r h = subst⁻¹ IsFiled (capabilities-compute r) h

  update-IsFiled :
      (did : String) (cap : DeviceCapability F) (r : Registry F)
      → cap.device_did ≡ did
      → IsFiled r.device_capabilities
      → IsFiled (left_by (update_device did cap r)).device_capabilities
  unfolding update_device with_capability
  update-IsFiled did cap r e (u, o) = kept_by (with_capability did cap r) (
    insert-Unique did cap r.device_capabilities u,
    insert-IsOwn did cap r.device_capabilities e o,
  )

  handle-IsFiled :
      (e : Event F) (r : Registry F)
      → IsFiled r.device_capabilities
      → IsFiled (left_by (handle e r)).device_capabilities
  unfolding capability_reported peer_disconnected remove_device without_device register_model
  handle-IsFiled (reported sender cap) r h = elim (Bool-cases (str_eq sender "")) [
    | inl k ↦ rw (capability_reported, k, if◌then◌else◌) h
    | inr k ↦
        rw (capability_reported, k, if◌then◌else◌)
          (update-IsFiled sender (owned sender cap) r refl h)
  ]
  handle-IsFiled (probed cap) r h = update-IsFiled cap.device_did cap r refl h
  handle-IsFiled (found m) r h =
      kept_by (record r { models = register_model_no_recompute m r.models }) h
  handle-IsFiled (disconnected did) r (u, o) = elim (Bool-cases (str_eq did "")) [
    | inl k ↦ rw (peer_disconnected, k, if◌then◌else◌) (u, o)
    | inr k ↦
        rw (peer_disconnected, k, if◌then◌else◌)
          (kept_by (without_device did r)
            (remove-Unique did r.device_capabilities u, remove-IsOwn did r.device_capabilities o))
  ]

  Reach-IsFiled : (r : Registry F) → Reach r → IsFiled r.device_capabilities
  Reach-IsFiled _ (start w) = (tt, tt)
  Reach-IsFiled _ (next {r} h e) = handle-IsFiled e r (Reach-IsFiled r h)

  role_known :
      (caps : List (String × DeviceCapability F)) (did : String) (cap : DeviceCapability F)
      (role : DeviceRole F)
      → IsOwn caps
      → lookup did caps ≡ some cap
      → role.device_did ≡ cap.device_did
      → (cap : DeviceCapability F) × (lookup role.device_did caps ≡ some cap)
  role_known caps did cap role o e d =
      let same : role.device_did ≡ did = d ∙ lookup-IsOwn did caps cap o e in (cap, rw same e)

  local_device :
      (role : DeviceRole F) (host : DeviceCapability F) (m : ModelInfo F)
      → In role (build_local_config host m).devices
      → role.device_did ≡ host.device_did
  unfolding build_local_config
  local_device role host m (inl e) = ap (λ (x : DeviceRole F). x.device_did) e
  local_device role host m (inr h) = absurd h

  config_device :
      (role : DeviceRole F) (host worker : DeviceCapability F) (m : ModelInfo F) (a b t : F)
      → In role (distributed_config host worker m a b t).devices
      → (role.device_did ≡ host.device_did) ⊎ (role.device_did ≡ worker.device_did)
  unfolding distributed_config
  config_device role host worker m a b t (inl e) = inl (ap (λ (x : DeviceRole F). x.device_did) e)
  config_device role host worker m a b t (inr (inl e)) =
      inr (ap (λ (x : DeviceRole F). x.device_did) e)
  config_device role host worker m a b t (inr (inr h)) = absurd h

  -- the devices of a build that does not raise
  distributed_device :
      (role : DeviceRole F) (host worker : DeviceCapability F) (m : ModelInfo F) (a b : F)
      (c : InferenceConfig F)
      → some c ≡ build_distributed_config host worker m a b
      → In role c.devices
      → (role.device_did ≡ host.device_did) ⊎ (role.device_did ≡ worker.device_did)
  unfolding build_distributed_config
  distributed_device role host worker m a b c e i =
      let total = num.add a b in
      elim (Option-cases (divided a total)) [
        | inl n ↦ cc (rw (build_distributed_config, n) at e)
        | inr (x, k) ↦ elim (Option-cases (divided b total)) [
          | inl n ↦ cc (rw (build_distributed_config, k, n) at e)
          | inr (y, l) ↦ elim (Option-cases (distributed_tok_s host worker m)) [
            | inl n ↦ cc (rw (build_distributed_config, k, l, n) at e)
            | inr (t, n) ↦
                let same : some c ≡ some (distributed_config host worker m x y t) =
                  (rw (build_distributed_config, k, l, n) at e) in
                config_device role host worker m x y t
                  (subst (λ (x : InferenceConfig F). In role x.devices) (some_path same) i)
          ]
        ]
      ]

  -- A configuration that is built names devices that are known under the DID.
  Tried-known :
      (models : List (String × List (ModelInfo F))) (caps : List (String × DeviceCapability F))
      (c : InferenceConfig F) (role : DeviceRole F)
      → IsFiled caps
      → Tried models caps (some c)
      → In role c.devices
      → (cap : DeviceCapability F) × (lookup role.device_did caps ≡ some cap)
  Tried-known models caps c role (u, o) (name, lst, m, i, j, (host, e, inl (k, f))) d =
      role_known caps m.device_did host role o e (
        local_device role host m
          (subst (λ (x : InferenceConfig F). In role x.devices) (some_path f) d))
  Tried-known models caps c role (u, o)
        (name, lst, m, i, j, (host, e, inr (did, worker, w, k, l, f))) d =
      elim (distributed_device role host worker m (usable_memory host) (usable_memory worker) c f
        d) [
          | inl h ↦ role_known caps m.device_did host role o e h
          | inr h ↦ role_known caps did worker role o (In-lookup did worker caps u w) h
        ]

  -- When a peer of a DID that is not empty disconnects and the computation of the configurations does not raise, no
  -- configuration names it any more, as host or as worker, whatever reports, probes, models and disconnections the
  -- registry was told before, also if it raised at some of them.
  pub disconnected_gone :
      (r r' : Registry F) (did : String) (c : InferenceConfig F) (role : DeviceRole F)
      → Reach r
      → str_eq did "" ≡ false
      → peer_disconnected did r ≡ computed r'
      → In c r'.configs
      → In role c.devices
      → role.device_did ≢ did
  unfolding peer_disconnected remove_device without_device
  disconnected_gone r r' did c role h named e i d same =
      let (u, o) = Reach-IsFiled r h in
      let left = remove did r.device_capabilities in
      let after = without_device did r in
      let computes : compute_configs after ≡ computed r' =
        (rw (peer_disconnected, named, if◌then◌else◌) at e) in
      let (cap, known) =
        Tried-known after.models left c role
          (remove-Unique did r.device_capabilities u, remove-IsOwn did r.device_capabilities o)
          ((compute_configs_iff after r' c computes).0 i) d in
      let known' = (rw same at known) in cc (known', lookup-remove_self did r.device_capabilities u)
