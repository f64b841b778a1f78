-- ===== src/Memory/Key.antt =====
-- The keys of src/aries/memory/store.py: namespaces, canonical and legacy prefixes.
pub mod Laws
use Prim.Native.String.{◌++◌}
use ariesmesh.Prelude.{String, ◌≡◌, refl, Option, none, some, strip_prefix}

pub data Namespace : Type 0 where
  context memory cache : Namespace

-- `ns.value`
abbrev pub value : Namespace → String
value context = "context"
value memory = "memory"
value cache = "cache"

-- f"aries:{ns.value}://", and with the path behind it
abbrev pub scheme : Namespace → String
scheme ns = "aries:" ++ (value ns ++ "://")

unfoldable pub canonical_key : Namespace → String → String
canonical_key ns path = scheme ns ++ path

abbrev pub or_try {ℓ} : {A : Type ℓ} → Option A → Option A → Option A
or_try none o = o
or_try (some a) o = some a

abbrev tagged : Namespace → Option String → Option (Namespace × String)
tagged ns none = none
tagged ns (some path) = some (ns, path)

-- The loops over _CANONICAL_PREFIXES and _LEGACY_PREFIXES: the namespace of the first prefix that
-- fits, and what stands behind it.
unfoldable pub canonical_parts : String → Option (Namespace × String)
canonical_parts key = or_try (tagged context (strip_prefix "aries:context://" key)) (
    or_try (tagged memory (strip_prefix "aries:memory://" key))
      (tagged cache (strip_prefix "aries:cache://" key)))

unfoldable pub legacy_parts : String → Option (Namespace × String)
legacy_parts key = or_try (tagged context (strip_prefix "context://" key)) (
    or_try (tagged memory (strip_prefix "memory://" key))
      (tagged cache (strip_prefix "cache://" key)))

normalize_legacy : String → Option (Namespace × String) → String
normalize_legacy key none = key
normalize_legacy key (some (ns, path)) = canonical_key ns path

unfoldable pub normalize_key : String → String
unfolding canonical_parts legacy_parts normalize_legacy strip_prefix canonical_key
normalize_key key = elim (canonical_parts key) [
  | none ↦ normalize_legacy key (legacy_parts key)
  | some parts ↦ key
]

-- `none` is the ValueError; the warning about a legacy prefix is left out.
unfoldable pub from_key : String → Option (Namespace × String)
unfolding canonical_parts legacy_parts strip_prefix
from_key key = or_try (canonical_parts key) (legacy_parts key)

normalize_runs : normalize_key "memory://notes/a" ≡ "aries:memory://notes/a"
unfolding normalize_key
normalize_runs = refl
