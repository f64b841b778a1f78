-- ===== src/Memory/Key/Laws.antt =====
-- `normalize_key` and `from_key` of the keys of store.py.
use ariesmesh.Prelude.{
  String, ◌≡◌, refl, Option, none, some, strip_prefix-append, strip_prefix-clash, clash, sym, ◌∙◌,
  ap, Option-cases, inl, inr,
}
use ariesmesh.Memory.Key.{
  Namespace, context, memory, cache, canonical_key, canonical_parts, legacy_parts, normalize_legacy,
  normalize_key, from_key,
}

-- A canonical key is read back as the namespace and the path that it was made of.
pub canonical_parts-canonical_key :
    (ns : Namespace) (path : String) → canonical_parts (canonical_key ns path) ≡ some (ns, path)
unfolding canonical_parts canonical_key clash
canonical_parts-canonical_key context path = rw (strip_prefix-append "aries:context://" path)
canonical_parts-canonical_key memory path = rw (
  strip_prefix-clash "aries:context://" "aries:memory://" path refl,
  strip_prefix-append "aries:memory://" path,
)
canonical_parts-canonical_key cache path = rw (
  strip_prefix-clash "aries:context://" "aries:cache://" path refl,
  strip_prefix-clash "aries:memory://" "aries:cache://" path refl,
  strip_prefix-append "aries:cache://" path,
)

normalize_of_canonical :
    (key : String) (parts : Namespace × String)
    → canonical_parts key ≡ some parts
    → normalize_key key ≡ key
unfolding normalize_key
normalize_of_canonical key parts h = rw (h, normalize_key)

normalize_of_legacy :
    (key : String)
    → canonical_parts key ≡ none
    → normalize_key key ≡ normalize_legacy key (legacy_parts key)
unfolding normalize_key
normalize_of_legacy key h = rw (h, normalize_key)

normalize_legacy_idem :
    (key : String) (o : Option (Namespace × String))
    → canonical_parts key ≡ none
    → legacy_parts key ≡ o
    → normalize_key (normalize_legacy key o) ≡ normalize_legacy key o
unfolding normalize_legacy
normalize_legacy_idem key none h e = normalize_of_legacy key h ∙ ap (normalize_legacy key) e
normalize_legacy_idem key (some (ns, path)) h e =
    normalize_of_canonical (canonical_key ns path) (ns, path)
      (canonical_parts-canonical_key ns path)

-- Normalizing a key twice is normalizing it once, so a key is stored under one spelling.
pub normalize_key_idem : (key : String) → normalize_key (normalize_key key) ≡ normalize_key key
normalize_key_idem key = elim (Option-cases (canonical_parts key)) [
  | inl h ↦ rw (normalize_of_legacy key h) (normalize_legacy_idem key (legacy_parts key) h refl)
  | inr (parts, h) ↦ rw (normalize_of_canonical key parts h) (normalize_of_canonical key parts h)
]

from_key_legacy :
    (key : String) (o : Option (Namespace × String))
    → legacy_parts key ≡ o
    → canonical_parts key ≡ none
    → from_key (normalize_legacy key o) ≡ o
unfolding normalize_legacy from_key
from_key_legacy key none e h = rw (h, e)
from_key_legacy key (some (ns, path)) e h = rw (canonical_parts-canonical_key ns path)

-- Normalizing loses nothing: the key names the same namespace and path as before, and a key
-- without a namespace stays one.
pub from_key-normalize_key : (key : String) → from_key (normalize_key key) ≡ from_key key
from_key-normalize_key key = elim (Option-cases (canonical_parts key)) [
  | inl h ↦
      rw (normalize_of_legacy key h)
        (from_key_legacy key (legacy_parts key) refl h ∙ sym (parse key h))
  | inr (parts, h) ↦ rw (normalize_of_canonical key parts h)
]
  where
    parse : (key : String) → canonical_parts key ≡ none → from_key key ≡ legacy_parts key
    parse key h = unfold from_key in rw h
