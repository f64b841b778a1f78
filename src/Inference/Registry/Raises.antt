-- ===== src/Inference/Registry/Raises.antt =====
-- When `_compute_configs` raises.
use ariesmesh.Prelude.{
  ◌≡◌, ◌↔◌, ◌⊎◌, refl, String, true, false, none, some, List, Number, lit, In, inl, inr, Bool-cases,
  if◌then◌else◌, str_eq,
}
use ariesmesh.Dict.{lookup}
use ariesmesh.Scheduler.Score.{is_zero}
use ariesmesh.Inference.{
  ModelInfo, DeviceCapability, usable_memory, divided, per_token_s, distributed_tok_s,
  build_distributed_config,
}
use ariesmesh.Inference.Registry.{Registry, zero_division, compute_configs}
use ariesmesh.Inference.Registry.Tried.{Tried}
use ariesmesh.Inference.Registry.Feasible.{raises-Tried}

module _ {F : Type 0} ⦃num : Number F⦄ where
  -- One of the divisors that are not above zero by construction is zero.
  abbrev HasZeroDivisor : DeviceCapability F → DeviceCapability F → ModelInfo F → F → F → Type 0
  HasZeroDivisor host worker m a b =
      (is_zero (num.add a b) ≡ true) ⊎ (is_zero (per_token_s host worker m) ≡ true)

  -- Some model is on a known device, and another known device has with it no less memory than the model takes;
  -- the sum of their memories is zero, or the time per token.
  abbrev pub MeetsZero :
      List (String × List (ModelInfo F)) → List (String × DeviceCapability F) → Type 0
  MeetsZero models caps =
      (name : String) × (lst : List (ModelInfo F)) × (m : ModelInfo F) × In (name, lst) models
      × In m lst
      × (host : DeviceCapability F) × (lookup m.device_did caps ≡ some host)
      × (did : String) × (worker : DeviceCapability F) × In (did, worker) caps
      × (str_eq did m.device_did ≡ false)
      × (num.lt (num.add (usable_memory host) (usable_memory worker)) m.size_gb ≡ false)
      × HasZeroDivisor host worker m (usable_memory host) (usable_memory worker)

  divided-zero : (a b : F) → is_zero b ≡ true → divided a b ≡ none
  divided-zero a b h = rw (h, if◌then◌else◌) refl

  divided-nonzero : (a b : F) → is_zero b ≡ false → divided a b ≡ some (num.div a b)
  divided-nonzero a b h = rw (h, if◌then◌else◌) refl

  build-raises :
      (host worker : DeviceCapability F) (m : ModelInfo F) (a b : F)
      → (none ≡ build_distributed_config host worker m a b) ↔ HasZeroDivisor host worker m a b
  unfolding build_distributed_config distributed_tok_s
  build-raises host worker m a b = elim (Bool-cases (is_zero (num.add a b))) [
    | inl z ↦ (λ e. inl z, λ h. rw (build_distributed_config, divided-zero a (num.add a b) z) refl)
    | inr z ↦
        let first = divided-nonzero a (num.add a b) z in
        let second = divided-nonzero b (num.add a b) z in
        elim (Bool-cases (is_zero (per_token_s host worker m))) [
          | inl t ↦ (
            λ e. inr t,
            λ h.
                rw
                  (
                    build_distributed_config,
                    first,
                    second,
                    distributed_tok_s,
                    divided-zero (lit 1) (per_token_s host worker m) t,
                  )
                  refl,
          )
          | inr t ↦ (
            λ e. cc (
                rw
                  (
                    build_distributed_config,
                    first,
                    second,
                    distributed_tok_s,
                    divided-nonzero (lit 1) (per_token_s host worker m) t,
                  )
                  at e),
            λ h. elim h [ inl f ↦ cc (f, z) | inr f ↦ cc (f, t) ],
          )
        ]
  ]

  Tried-zero :
      (models : List (String × List (ModelInfo F))) (caps : List (String × DeviceCapability F))
      → Tried models caps none
      → MeetsZero models caps
  Tried-zero models caps (name, lst, m, i, j, (host, known, inl fits)) = cc (fits.1)
  Tried-zero models caps (name, lst, m, i, j, (host, known, inr (did, worker, k, other, room, e))) =
      let zero = (build-raises host worker m (usable_memory host) (usable_memory worker)).0 e in
      (name, lst, m, i, j, host, known, did, worker, k, other, room, zero)

  zero-Tried :
      (models : List (String × List (ModelInfo F))) (caps : List (String × DeviceCapability F))
      → MeetsZero models caps
      → Tried models caps none
  zero-Tried models caps (name, lst, m, i, j, host, known, did, worker, k, other, room, zero) =
      let e = (build-raises host worker m (usable_memory host) (usable_memory worker)).1 zero in
      (name, lst, m, i, j, (host, known, inr (did, worker, k, other, room, e)))

  -- The computation raises ZeroDivisionError, and the registry keeps the configurations of before, exactly when for
  -- some model on a known device, and another known device that together with it does not have less memory than the
  -- model takes, the sum of the two memories is zero or the time that a token takes is.
  pub compute_configs_raises :
      (r : Registry F)
      → (compute_configs r ≡ zero_division r) ↔ MeetsZero r.models r.device_capabilities
  compute_configs_raises r =
      let tried = raises-Tried r in
      (
        λ e. Tried-zero r.models r.device_capabilities (tried.0 e),
        λ h. tried.1 (zero-Tried r.models r.device_capabilities h),
      )
