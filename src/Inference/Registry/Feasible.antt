-- ===== src/Inference/Registry/Feasible.antt =====
-- The configurations that `_compute_configs` lists are the feasible ones, unless a build raises.
use ariesmesh.Prelude.{
  ◌≡◌, ◌↔◌, refl, ap, sym, ◌∙◌, Option, none, some, List, [], ◌∷◌, Number, In, inl, inr,
  Option-cases,
}
use ariesmesh.Inference.{InferenceConfig}
use ariesmesh.Inference.Registry.{
  Registry, computed, zero_division, collect, all_configs, compute_configs,
}
use ariesmesh.Inference.Registry.Tried.{Tried, all_configs-In, In-all_configs}

pub some_path : {A : Type 0} {x y : A} → some x ≡ some y → x ≡ y
some_path h = cc

module _ {A : Type 0} where
  -- What is collected is what the calls gave.
  collect-some :
      (l : List (Option A)) (xs : List A) → collect l ≡ some xs → (x : A) → In x xs ↔ In (some x) l
  unfolding collect
  collect-some [] [] e x = (λ i. absurd i, λ i. absurd i)
  collect-some [] (y ∷ xs) e x = cc
  collect-some (none ∷ l) xs e x = cc
  collect-some (some y ∷ l) xs e x = elim (Option-cases (collect l)) [
    | inl n ↦ cc (rw n at e)
    | inr (ys, k) ↦
        let rest = collect-some l ys k x in
        let same : y ∷ ys ≡ xs = some_path (rw k at e) in
        rw (sym same) (
          λ i. elim i [ inl f ↦ inl (ap some f) | inr j ↦ inr (rest.0 j) ],
          λ i. elim i [ inl f ↦ inl (some_path f) | inr j ↦ inr (rest.1 j) ],
        )
  ]

  collect-none : (l : List (Option A)) → (collect l ≡ none) ↔ In none l
  unfolding collect
  collect-none [] = (λ e. cc, λ i. absurd i)
  collect-none (none ∷ l) = (λ e. inl refl, λ i. refl)
  collect-none (some y ∷ l) = elim (Option-cases (collect l)) [
    | inl n ↦ rw (collect, n) (λ e. inr ((collect-none l).0 n), λ i. refl)
    | inr (ys, k) ↦
        rw (collect, k) (λ e. cc, λ i. elim i [ inl f ↦ cc | inr j ↦ cc (k, (collect-none l).1 j) ])
  ]

module _ {F : Type 0} ⦃num : Number F⦄ where
  computed_path : {r s : Registry F} → computed r ≡ computed s → r ≡ s
  computed_path h = cc

  computed-collect :
      (r r' : Registry F)
      → compute_configs r ≡ computed r'
      → collect (all_configs r.models r.device_capabilities) ≡ some r'.configs
  unfolding compute_configs
  computed-collect r r' e =
      elim (Option-cases (collect (all_configs r.models r.device_capabilities))) [
        | inl n ↦ cc (rw (compute_configs, n) at e)
        | inr (cs, k) ↦
            let same : record r { configs = cs } ≡ r' =
              computed_path (rw (compute_configs, k) at e) in
            k ∙ ap (λ (t : Registry F). some t.configs) same
      ]

  -- Where no build raises, a configuration is listed exactly when it is built for a model of which a device that the
  -- registry knows has a file, and the device has at least the memory that the model takes, or it and another
  -- known device together do not have less.
  pub compute_configs_iff :
      (r r' : Registry F) (c : InferenceConfig F)
      → compute_configs r ≡ computed r'
      → In c r'.configs ↔ Tried r.models r.device_capabilities (some c)
  compute_configs_iff r r' c e =
      let all = all_configs r.models r.device_capabilities in
      let built = collect-some all r'.configs (computed-collect r r' e) c in
      (
        λ i. all_configs-In r.models r.device_capabilities (some c) (built.0 i),
        λ h. built.1 (In-all_configs r.models r.device_capabilities (some c) h),
      )

  pub raises-Tried :
      (r : Registry F)
      → (compute_configs r ≡ zero_division r) ↔ Tried r.models r.device_capabilities none
  unfolding compute_configs
  raises-Tried r = elim (Option-cases (collect (all_configs r.models r.device_capabilities))) [
    | inl n ↦ (
      λ e.
          all_configs-In r.models r.device_capabilities none
            ((collect-none (all_configs r.models r.device_capabilities)).0 n),
      λ h. rw (compute_configs, n) refl,
    )
    | inr (cs, k) ↦ (
      λ e. cc (rw (compute_configs, k) at e),
      λ h. cc (
        k,
        (collect-none (all_configs r.models r.device_capabilities)).1
            (In-all_configs r.models r.device_capabilities none h),
      ),
    )
  ]
