-- ===== src/Inference/Registry/Tried.antt =====
-- Which configurations `_compute_configs` tries to build; `none` is a build that raises.
use ariesmesh.Prelude.{
  ◌≡◌, ◌⊎◌, refl, ap, String, Bool, true, false, Option, some, List, [], ◌∷◌, if◌then◌else◌, str_eq,
  Number, In, append-In, In-left, In-right, inl, inr, Bool-cases, Option-cases,
}
use ariesmesh.Dict.{lookup}
use ariesmesh.Inference.{
  ModelInfo, DeviceCapability, InferenceConfig, usable_memory, build_local_config,
  build_distributed_config,
}
use ariesmesh.Inference.Registry.{
  local_configs, worker_configs, configs_on, list_configs, all_configs,
}

In-unless :
    {A : Type 0} (b : Bool) (l l' : List A) (x : A) → In x l → In x l' → In x (if b then l else l')
In-unless true l l' x i j = i
In-unless false l l' x i j = j

module _ {F : Type 0} ⦃num : Number F⦄ where
  -- another device can work for the host, and both have room for the model
  abbrev pub FitsWorker :
      DeviceCapability F
      → ModelInfo F
      → List (String × DeviceCapability F)
      → Option (InferenceConfig F)
      → Type 0
  FitsWorker host m caps c =
      (did : String) × (worker : DeviceCapability F) × In (did, worker) caps
      × (str_eq did m.device_did ≡ false)
      × (num.lt (num.add (usable_memory host) (usable_memory worker)) m.size_gb ≡ false)
      × (c ≡ build_distributed_config host worker m (usable_memory host) (usable_memory worker))

  abbrev pub FitsHost : DeviceCapability F → ModelInfo F → Option (InferenceConfig F) → Type 0
  FitsHost host m c =
      (num.le m.size_gb (usable_memory host) ≡ true) × (c ≡ some (build_local_config host m))

  -- the device with the model's file is known, and has room, alone or with another device
  abbrev pub FitsModel :
      ModelInfo F → List (String × DeviceCapability F) → Option (InferenceConfig F) → Type 0
  FitsModel m caps c =
      (host : DeviceCapability F) × (lookup m.device_did caps ≡ some host)
      × (FitsHost host m c ⊎ FitsWorker host m caps c)

  abbrev pub Tried :
      List (String × List (ModelInfo F))
      → List (String × DeviceCapability F)
      → Option (InferenceConfig F)
      → Type 0
  Tried models caps c =
      (name : String) × (lst : List (ModelInfo F)) × (m : ModelInfo F) × In (name, lst) models
      × In m lst
      × FitsModel m caps c

  worker_configs-In :
      (host : DeviceCapability F) (m : ModelInfo F) (caps : List (String × DeviceCapability F))
      (c : Option (InferenceConfig F))
      → In c (worker_configs host m caps)
      → FitsWorker host m caps c
  unfolding worker_configs
  worker_configs-In host m [] c i = absurd i
  worker_configs-In host m ((did, worker) ∷ caps) c i =
      let deeper : FitsWorker host m caps c → FitsWorker host m ((did, worker) ∷ caps) c =
        λ h. (h.0, h.1, inr h.2, h.3, h.4, h.5) in
      elim (Bool-cases (str_eq did m.device_did)) [
        | inl k ↦ deeper (worker_configs-In host m caps c (rw (k, if◌then◌else◌) at i))
        | inr k ↦
            let j = (rw (k, if◌then◌else◌) at i) in
            elim (Bool-cases
              (num.lt (num.add (usable_memory host) (usable_memory worker)) m.size_gb)) [
                | inl l ↦ deeper (worker_configs-In host m caps c (rw (l, if◌then◌else◌) at j))
                | inr l ↦ elim (rw (l, if◌then◌else◌) at j) [
                  | inl e ↦ (did, worker, inl refl, k, l, e)
                  | inr n ↦ deeper (worker_configs-In host m caps c n)
                ]
              ]
      ]

  In-worker_configs :
      (host : DeviceCapability F) (m : ModelInfo F) (caps : List (String × DeviceCapability F))
      (c : Option (InferenceConfig F))
      → FitsWorker host m caps c
      → In c (worker_configs host m caps)
  unfolding worker_configs
  In-worker_configs host m [] c h = absurd h.2
  In-worker_configs host m ((other, cap) ∷ caps) c (did, worker, inl e, k, l, f) =
      let same : did ≡ other = ap (λ (p : String × DeviceCapability F). p.0) e in
      let equal : worker ≡ cap = ap (λ (p : String × DeviceCapability F). p.1) e in
      let k' = (rw same at k) in
      let l' = (rw equal at l) in rw (worker_configs, k', l', if◌then◌else◌) (inl (rw (equal) at f))
  In-worker_configs host m ((other, cap) ∷ caps) c (did, worker, inr i, k, l, f) =
      let later = In-worker_configs host m caps c (did, worker, i, k, l, f) in
      let mem = num.add (usable_memory host) (usable_memory cap) in
      let config = build_distributed_config host cap m (usable_memory host) (usable_memory cap) in
      In-unless (str_eq other m.device_did) _ _ c later
        (In-unless (num.lt mem m.size_gb) _ _ c later (inr later))

  configs_on-In :
      (m : ModelInfo F) (caps : List (String × DeviceCapability F)) (c : Option (InferenceConfig F))
      → In c (configs_on (lookup m.device_did caps) m caps)
      → FitsModel m caps c
  unfolding local_configs
  configs_on-In m caps c i = elim (Option-cases (lookup m.device_did caps)) [
    | inl e ↦ absurd (rw e at i)
    | inr (host, e) ↦
        elim (append-In (local_configs host m) (worker_configs host m caps) c (rw e at i)) [
          | inl j ↦ elim (Bool-cases (num.le m.size_gb (usable_memory host))) [
            | inr k ↦ absurd (rw (k, if◌then◌else◌) at j)
            | inl k ↦ elim (rw (k, if◌then◌else◌) at j) [
              | inl f ↦ (host, e, inl (k, f))
              | inr n ↦ absurd n
            ]
          ]
          | inr j ↦ (host, e, inr (worker_configs-In host m caps c j))
        ]
  ]

  In-configs_on :
      (m : ModelInfo F) (caps : List (String × DeviceCapability F)) (c : Option (InferenceConfig F))
      → FitsModel m caps c
      → In c (configs_on (lookup m.device_did caps) m caps)
  unfolding local_configs
  In-configs_on m caps c (host, e, inl (k, f)) = rw e (
      In-left (local_configs host m) (worker_configs host m caps) c
        (rw (local_configs, k, if◌then◌else◌) (inl f)))
  In-configs_on m caps c (host, e, inr h) = rw e (
      In-right (local_configs host m) (worker_configs host m caps) c
        (In-worker_configs host m caps c h))

  list_configs-In :
      (lst : List (ModelInfo F)) (caps : List (String × DeviceCapability F))
      (c : Option (InferenceConfig F))
      → In c (list_configs lst caps)
      → (m : ModelInfo F) × In m lst × FitsModel m caps c
  unfolding list_configs
  list_configs-In [] caps c i = absurd i
  list_configs-In (m ∷ lst) caps c i =
      elim (append-In (configs_on (lookup m.device_did caps) m caps) (list_configs lst caps) c i) [
        | inl j ↦ (m, inl refl, configs_on-In m caps c j)
        | inr j ↦ let (n, k, h) = list_configs-In lst caps c j in (n, inr k, h)
      ]

  In-list_configs :
      (lst : List (ModelInfo F)) (caps : List (String × DeviceCapability F))
      (c : Option (InferenceConfig F)) (m : ModelInfo F)
      → In m lst
      → FitsModel m caps c
      → In c (list_configs lst caps)
  unfolding list_configs
  In-list_configs [] caps c m i h = absurd i
  In-list_configs (n ∷ lst) caps c m (inl e) h =
      In-left (configs_on (lookup n.device_did caps) n caps) (list_configs lst caps) c
        (In-configs_on n caps c (rw e at h))
  In-list_configs (n ∷ lst) caps c m (inr i) h =
      In-right (configs_on (lookup n.device_did caps) n caps) (list_configs lst caps) c
        (In-list_configs lst caps c m i h)

  pub all_configs-In :
      (models : List (String × List (ModelInfo F))) (caps : List (String × DeviceCapability F))
      (c : Option (InferenceConfig F))
      → In c (all_configs models caps)
      → Tried models caps c
  unfolding all_configs
  all_configs-In [] caps c i = absurd i
  all_configs-In ((name, lst) ∷ models) caps c i =
      elim (append-In (list_configs lst caps) (all_configs models caps) c i) [
        | inl j ↦ let (m, k, h) = list_configs-In lst caps c j in (name, lst, m, inl refl, k, h)
        | inr j ↦
            let (other, l, m, k, n, h) = all_configs-In models caps c j in
            (other, l, m, inr k, n, h)
      ]

  pub In-all_configs :
      (models : List (String × List (ModelInfo F))) (caps : List (String × DeviceCapability F))
      (c : Option (InferenceConfig F))
      → Tried models caps c
      → In c (all_configs models caps)
  unfolding all_configs
  In-all_configs [] caps c h = absurd h.3
  In-all_configs ((other, l) ∷ models) caps c (name, lst, m, inl e, i, h) =
      let same : lst ≡ l = ap (λ (p : String × List (ModelInfo F)). p.1) e in
      In-left (list_configs l caps) (all_configs models caps) c
        (In-list_configs l caps c m (rw same at i) h)
  In-all_configs ((other, l) ∷ models) caps c (name, lst, m, inr j, i, h) =
      In-right (list_configs l caps) (all_configs models caps) c
        (In-all_configs models caps c (name, lst, m, j, i, h))
