-- ===== src/Inference/Registry/Stale.antt =====
-- Models that a device no longer reports.
use ariesmesh.Prelude.{
  ◌≡◌, refl, String, true, false, List, [], ◌∷◌, foldl, All, In, inl, inr, if◌then◌else◌, str_eq,
  Number, Bool-cases, ap, eq_iff, sym, ◌∙◌,
}
use ariesmesh.Dict.{insert}
use ariesmesh.Memory.Store.Registers.{lookup-insert_self}
use ariesmesh.Inference.{ModelInfo, DeviceCapability, usable_memory, build_local_config}
use ariesmesh.Inference.Registry.{
  Registry, register_model_no_recompute, update_device, with_capability, computed,
}
use ariesmesh.Inference.Registry.Feasible.{compute_configs_iff}

insert-In :
    {V : Type 0} (name key : String) (v new : V) (dict : List (String × V))
    → str_eq key name ≡ false
    → In (name, v) dict
    → In (name, v) (insert key new dict)
unfolding insert
insert-In name key v new [] n i = absurd i
insert-In {V} name key v new ((other, old) ∷ dict) n (inl e) =
    let same : name ≡ other = ap (λ (p : String × V). p.0) e in
    let missed : str_eq other key ≡ false = elim (Bool-cases (str_eq other key)) [
      | inl k ↦ cc (n, (eq_iff key name).1 (sym ((eq_iff other key).0 k) ∙ sym same))
      | inr k ↦ k
    ] in
    rw (missed, if◌then◌else◌) (inl e)
insert-In name key v new ((other, old) ∷ dict) n (inr i) = elim (Bool-cases (str_eq other key)) [
  | inl k ↦ rw (k, if◌then◌else◌) (inr i)
  | inr k ↦ rw (k, if◌then◌else◌) (inr (insert-In name key v new dict n i))
]

module _ {F : Type 0} where
  -- Reports of models of other names leave a model's records alone.
  others_keep :
      (name : String) (lst : List (ModelInfo F)) (found : List (ModelInfo F))
      (models : List (String × List (ModelInfo F)))
      → All (λ (m : ModelInfo F). str_eq m.name name ≡ false) found
      → In (name, lst) models
      → In (name, lst) (foldl (λ models m. register_model_no_recompute m models) models found)
  unfolding register_model_no_recompute
  others_keep name lst [] models h i = i
  others_keep name lst (m ∷ found) models (n, h) i =
      others_keep name lst found (register_model_no_recompute m models) h
        (insert-In name m.name lst _ models n i)

-- A device's report that leaves out a model of the device leaves its record in the registry: unless a build
-- raises, the configuration by which the device runs the model is still listed, if it has room for it.
pub stale_model_listed :
    {F : Type 0} ⦃num : Number F⦄ (r r' : Registry F) (cap : DeviceCapability F)
    (lst : List (ModelInfo F)) (m : ModelInfo F)
    → In (m.name, lst) r.models
    → In m lst
    → All (λ (found : ModelInfo F). str_eq found.name m.name ≡ false) cap.available_models
    → num.le m.size_gb (usable_memory cap) ≡ true
    → update_device m.device_did cap r ≡ computed r'
    → In (build_local_config cap m) r'.configs
unfolding update_device with_capability
stale_model_listed r r' cap lst m i j absent room e =
    (compute_configs_iff (with_capability m.device_did cap r) r' (build_local_config cap m) e).1 (
      m.name,
      lst,
      m,
      others_keep m.name lst cap.available_models r.models absent i,
      j,
      (cap, lookup-insert_self m.device_did cap r.device_capabilities, inl (room, refl)),
    )
