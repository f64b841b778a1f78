-- ===== src/Inference/Registry/Best.antt =====
-- What `get_best_config` answers.
use mathlib.Core.Path.{subst, subst⁻¹}
use ariesmesh.Prelude.{
  ◌≡◌, refl, ap, String, true, false, Option, none, some, List, [], ◌∷◌, In, inl, inr, keep,
  In-keep, keep-In, if◌then◌else◌, Number, IsWeakOrder, Bool-cases, arith,
}
use ariesmesh.Scheduler.{TaskConstraints}
use ariesmesh.Scheduler.Health.{DeviceHealth}
use ariesmesh.Inference.{InferenceConfig}
use ariesmesh.Inference.Registry.{
  Registry, allowed, best_of, first_best, live_score, get_best_config,
}

module _ {F : Type 0} ⦃num : Number F⦄ (o : IsWeakOrder num) (score : InferenceConfig F → F) where
  -- `b` is one of those given, and none of them has a higher score.
  abbrev IsMax : InferenceConfig F → InferenceConfig F → List (InferenceConfig F) → Type 0
  IsMax b first cs =
      In b (first ∷ cs)
      × ((d : InferenceConfig F) → In d (first ∷ cs) → num.lt (score b) (score d) ≡ false)

  climbed :
      (first c : InferenceConfig F) (cs : List (InferenceConfig F))
      → num.lt (score first) (score c) ≡ true
      → (b : InferenceConfig F) → IsMax b c cs
      → IsMax b first (c ∷ cs)
  climbed first c cs k b (i, top) = (
    inr i,
    λ d j. elim j [
      | inl e ↦
          rw e
            (ground (arith, top c (inl refl), o.ordered.trans (score b) (score first) (score c), k))
      | inr j ↦ top d j
    ],
  )

  kept :
      (first c : InferenceConfig F) (cs : List (InferenceConfig F))
      → num.lt (score first) (score c) ≡ false
      → (b : InferenceConfig F) → IsMax b first cs
      → IsMax b first (c ∷ cs)
  kept first c cs k b (i, top) = (
    elim i [ inl e ↦ inl e | inr n ↦ inr (inr n) ],
    λ d j. elim j [
      | inl e ↦ top d (inl e)
      | inr (inl e) ↦
          rw e (ground (arith, top first (inl refl), o.splits (score b) (score first) (score c), k))
      | inr (inr n) ↦ top d (inr n)
    ],
  )

  best_of-IsMax :
      (first : InferenceConfig F) (cs : List (InferenceConfig F))
      → IsMax (best_of score first cs) first cs
  unfolding best_of
  best_of-IsMax first [] =
      (inl refl, λ d i. elim i [ inl e ↦ rw e (o.ordered.irrefl (score first)) | inr n ↦ absurd n ])
  best_of-IsMax first (c ∷ cs) = elim (Bool-cases (num.lt (score first) (score c))) [
    | inl k ↦
        subst⁻¹ (λ b. IsMax b first (c ∷ cs))
          (ap (λ t. best_of score (if t then c else first) cs) k)
          (climbed first c cs k (best_of score c cs) (best_of-IsMax c cs))
    | inr k ↦
        subst⁻¹ (λ b. IsMax b first (c ∷ cs))
          (ap (λ t. best_of score (if t then c else first) cs) k)
          (kept first c cs k (best_of score first cs) (best_of-IsMax first cs))
  ]

module _ {F : Type 0} ⦃num : Number F⦄ (r : Registry F) (constraints : TaskConstraints)
    (healths : List (String × DeviceHealth F)) where
  -- What a caller may expect: nothing only where nothing that is listed is allowed, and else a listed and allowed
  -- configuration such that no other one has a higher score with the health of the moment.
  pub data IsBest : Option (InferenceConfig F) → Type 0 where
    is_none :
        ((c : InferenceConfig F) → In c r.configs → allowed constraints c ≡ false) → IsBest none
    is_some :
        (c : InferenceConfig F)
        → In c r.configs
        → allowed constraints c ≡ true
        → ((d : InferenceConfig F)
            → In d r.configs
            → allowed constraints d ≡ true
            → num.lt (live_score r.weights healths c) (live_score r.weights healths d) ≡ false)
        → IsBest (some c)

  first_best-IsBest :
      IsWeakOrder num
      → (cs : List (InferenceConfig F)) → keep (allowed constraints) r.configs ≡ cs
      → IsBest (first_best (live_score r.weights healths) cs)
  first_best-IsBest o [] e = is_none (λ c i. elim (Bool-cases (allowed constraints c)) [
    | inl k ↦
        let j = In-keep (allowed constraints) r.configs c i k in absurd (subst (λ l. In c l) e j)
    | inr k ↦ k
  ])
  first_best-IsBest o (c ∷ cs) e =
      let score = live_score r.weights healths in
      let (i, top) = best_of-IsMax o score c cs in
      let (j, k) =
        keep-In (allowed constraints) r.configs (best_of score c cs)
          (subst⁻¹ (λ l. In (best_of score c cs) l) e i) in
      is_some (best_of score c cs) j k
        (λ d m a. top d (subst (λ l. In d l) e (In-keep (allowed constraints) r.configs d m a)))

  -- For numbers that are weakly ordered, `get_best_config` gives None only where the constraints allow none of the
  -- listed configurations, and else a listed and allowed one such that no listed and allowed one has a higher score
  -- with the health of the moment.
  pub get_best_config-IsBest : IsWeakOrder num → IsBest (get_best_config r constraints healths)
  unfolding get_best_config
  get_best_config-IsBest o = first_best-IsBest o (keep (allowed constraints) r.configs) refl
