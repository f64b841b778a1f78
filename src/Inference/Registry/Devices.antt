-- ===== src/Inference/Registry/Devices.antt =====
-- Capabilities that are filed under the DIDs that they bear, in the dictionary of the registry.
use ariesmesh.Prelude.{
  ◌≡◌, refl, sym, ap, ◌∙◌, String, none, some, List, [], ◌∷◌, All, In, inl, inr, if◌then◌else◌,
  str_eq, eq_iff, eq_refl, Bool-cases,
}
use ariesmesh.Dict.{lookup, insert, remove}
use ariesmesh.Memory.Store.Registers.{Unique}
use ariesmesh.Inference.{DeviceCapability}

module _ {F : Type 0} where
  -- each capability is filed under the DID that it bears
  abbrev pub IsOwn : List (String × DeviceCapability F) → Type 0
  IsOwn caps = All (λ (p : String × DeviceCapability F). p.1.device_did ≡ p.0) caps

  pub insert-IsOwn :
      (did : String) (cap : DeviceCapability F) (caps : List (String × DeviceCapability F))
      → cap.device_did ≡ did
      → IsOwn caps
      → IsOwn (insert did cap caps)
  unfolding insert
  insert-IsOwn did cap [] e h = (e, tt)
  insert-IsOwn did cap ((name, old) ∷ caps) e (o, h) = elim (Bool-cases (str_eq name did)) [
    | inl k ↦ rw (k, if◌then◌else◌) (e ∙ sym ((eq_iff name did).0 k), h)
    | inr k ↦ rw (k, if◌then◌else◌) (o, insert-IsOwn did cap caps e h)
  ]

  pub remove-IsOwn :
      (did : String) (caps : List (String × DeviceCapability F))
      → IsOwn caps
      → IsOwn (remove did caps)
  unfolding remove
  remove-IsOwn did [] h = tt
  remove-IsOwn did ((name, old) ∷ caps) (o, h) = elim (Bool-cases (str_eq name did)) [
    | inl k ↦ rw (k, if◌then◌else◌) h
    | inr k ↦ rw (k, if◌then◌else◌) (o, remove-IsOwn did caps h)
  ]

  pub lookup-IsOwn :
      (key : String) (caps : List (String × DeviceCapability F)) (cap : DeviceCapability F)
      → IsOwn caps
      → lookup key caps ≡ some cap
      → cap.device_did ≡ key
  unfolding lookup
  lookup-IsOwn key [] cap h e = cc
  lookup-IsOwn key ((name, old) ∷ caps) cap (o, h) e = elim (Bool-cases (str_eq name key)) [
    | inl k ↦
        let f : some old ≡ some cap = (rw (k, if◌then◌else◌) at e) in
        let g : old ≡ cap = cc in
        ap (λ (c : DeviceCapability F). c.device_did) (sym g) ∙ o ∙ (eq_iff name key).0 k
    | inr k ↦ lookup-IsOwn key caps cap h (rw (k, if◌then◌else◌) at e)
  ]

  pub In-lookup :
      (did : String) (cap : DeviceCapability F) (caps : List (String × DeviceCapability F))
      → Unique caps
      → In (did, cap) caps
      → lookup did caps ≡ some cap
  unfolding lookup
  In-lookup did cap [] u i = absurd i
  In-lookup did cap ((name, old) ∷ caps) (n, u) (inl e) =
      let same : did ≡ name = ap (λ (p : String × DeviceCapability F). p.0) e in
      let equal : cap ≡ old = ap (λ (p : String × DeviceCapability F). p.1) e in
      rw (equal, same, eq_refl name, if◌then◌else◌) refl
  In-lookup did cap ((name, old) ∷ caps) (n, u) (inr i) = elim (Bool-cases (str_eq name did)) [
    | inl k ↦
        let same : name ≡ did = (eq_iff name did).0 k in
        let gone : lookup did caps ≡ none = (rw same at n) in cc (gone, In-lookup did cap caps u i)
    | inr k ↦ rw (k, if◌then◌else◌) (In-lookup did cap caps u i)
  ]
