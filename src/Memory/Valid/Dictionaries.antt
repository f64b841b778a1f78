-- ===== src/Memory/Valid/Dictionaries.antt =====
-- The keys of dictionaries under `insert` and `remove`.
use ariesmesh.Prelude.{
  ◌≡◌, refl, String, false, if◌then◌else◌, none, some, List, [], ◌∷◌, arith, str_eq, eq_iff,
  Bool-cases, inl, inr,
}
use ariesmesh.Memory.Key.{normalize_key}
use ariesmesh.Memory.Store.{lookup, insert, remove}
use ariesmesh.Memory.Store.Registers.{Unique, lookup-insert}
use ariesmesh.Memory.Valid.{Canonical}

module _ {V : Type 0} where
  pub insert-Unique :
      (key : String) (new : V) (dict : List (String × V))
      → Unique dict
      → Unique (insert key new dict)
  unfolding insert lookup
  insert-Unique key new [] u = (refl, tt)
  insert-Unique key new ((name, old) ∷ rest) u = elim (Bool-cases (str_eq name key)) [
    | inl hit ↦ rw hit u
    | inr miss ↦ rw miss (
      ground (arith, lookup-insert key name new rest, eq_iff name key, eq_iff key name, u.0),
      insert-Unique key new rest u.1,
    )
  ]

  pub insert-Canonical :
      (key : String) (new : V) (dict : List (String × V))
      → normalize_key key ≡ key
      → Canonical dict
      → Canonical (insert key new dict)
  insert-Canonical key new dict n c j v found = elim (Bool-cases (str_eq key j)) [
    | inl hit ↦ let same : key ≡ j = (eq_iff key j).0 hit in rw same at n
    | inr miss ↦ c j v (ground (arith, lookup-insert key j new dict))
  ]

  -- What is left after a removal was there before.
  pub lookup-remove :
      (key other : String) (dict : List (String × V)) (v : V)
      → Unique dict
      → lookup other (remove key dict) ≡ some v
      → lookup other dict ≡ some v
  unfolding lookup remove
  lookup-remove key other [] v u h = h
  lookup-remove key other ((name, old) ∷ rest) v u h =
      ground (arith, lookup-remove key other rest v u.1, u.0, eq_iff name key, eq_iff name other)

  lookup-remove-none :
      (key other : String) (dict : List (String × V))
      → lookup other dict ≡ none
      → lookup other (remove key dict) ≡ none
  unfolding lookup remove
  lookup-remove-none key other [] h = h
  lookup-remove-none key other ((name, old) ∷ rest) h =
      ground (arith, lookup-remove-none key other rest)

  pub remove-Unique :
      (key : String) (dict : List (String × V)) → Unique dict → Unique (remove key dict)
  unfolding remove
  remove-Unique key [] u = tt
  remove-Unique key ((name, old) ∷ rest) u = elim (Bool-cases (str_eq name key)) [
    | inl hit ↦ rw hit u.1
    | inr miss ↦ rw miss (lookup-remove-none key name rest u.0, remove-Unique key rest u.1)
  ]

  pub lookup-remove_self :
      (key : String) (dict : List (String × V)) → Unique dict → lookup key (remove key dict) ≡ none
  unfolding lookup remove
  lookup-remove_self key [] u = refl
  lookup-remove_self key ((name, old) ∷ dict) (n, u) = elim (Bool-cases (str_eq name key)) [
    | inl k ↦ let same : name ≡ key = (eq_iff name key).0 k in rw (k, if◌then◌else◌) (rw same at n)
    | inr k ↦ rw (k, lookup, k, if◌then◌else◌) (lookup-remove_self key dict u)
  ]

  pub lookup-remove_other :
      (key other : String) (dict : List (String × V))
      → str_eq key other ≡ false
      → lookup other (remove key dict) ≡ lookup other dict
  unfolding lookup remove
  lookup-remove_other key other [] n = refl
  lookup-remove_other key other ((name, old) ∷ dict) n = ground (
    arith,
    lookup-remove_other key other dict n,
    eq_iff name key,
    eq_iff name other,
    eq_iff key other,
  )
