-- ===== src/Memory/Acl/Sound.antt =====
-- What a resource of a capability covers.
use Prim.Native.String.{◌++◌}
use ariesmesh.Prelude.{
  String, ◌≡◌, sym, true, ◌⊎◌, inl, inr, Option, none, some, str_eq, eq_iff, Bool-cases,
  Option-cases, strip_prefix, starts_with, strip_prefix-eq_some,
}
use ariesmesh.Memory.Acl.{strip_suffix, rstrip_slash, covers_by_path, resource_covers_key}

-- The directory that a resource stands for: without its "/*", or without its last slashes.
abbrev pub base_of : Option String → String → String
base_of (some prefix) resource = prefix
base_of none resource = rstrip_slash resource

abbrev pub base : String → String
base resource = base_of (strip_suffix "/*" resource) resource

-- The key is the base or the resource, or lies below the base.
pub data Below (resource key : String) : Type 0 where
  everything : resource ≡ "*" → Below resource key
  exact : key ≡ resource → Below resource key
  root : key ≡ base resource → Below resource key
  inside : (rest : String) → key ≡ (base resource ++ "/") ++ rest → Below resource key

starts_with_rest : (p s : String) → starts_with p s ≡ true → (r : String) × (s ≡ p ++ r)
starts_with_rest p s h = elim (Option-cases (strip_prefix p s)) [
  | inl e ↦ cc (rw e at h)
  | inr (r, e) ↦ (r, strip_prefix-eq_some p s r e)
]

by_path :
    (o : Option String) (resource key : String)
    → covers_by_path o resource key ≡ true
    → (key ≡ base_of o resource) ⊎ ((r : String) × (key ≡ (base_of o resource ++ "/") ++ r))
by_path none resource key h = inr (starts_with_rest (rstrip_slash resource ++ "/") key h)
by_path (some prefix) resource key h = elim (Bool-cases (str_eq key prefix)) [
  | inl e ↦ inl ((eq_iff key prefix).0 e)
  | inr e ↦ inr (starts_with_rest (prefix ++ "/") key (rw e at h))
]

-- A resource covers nothing beside itself and what lies below it: never a sibling whose name only
-- begins alike.
pub covers_sound :
    (resource key : String) → resource_covers_key resource key ≡ true → Below resource key
unfolding resource_covers_key
covers_sound resource key h = elim (Bool-cases (str_eq resource "*")) [
  | inl e ↦ everything ((eq_iff resource "*").0 e)
  | inr n ↦ elim (Bool-cases (str_eq resource key)) [
    | inl e ↦ exact (sym ((eq_iff resource key).0 e))
    | inr m ↦ elim (by_path (strip_suffix "/*" resource) resource key (rw (n, m) at h)) [
      | inl e ↦ root e
      | inr (r, e) ↦ inside r e
    ]
  ]
]
