-- ===== src/Memory/Acl.antt =====
-- The write permissions of src/aries/memory/store.py: `_resource_covers_key` and
-- `_check_write_permission`.
pub mod Sound
use Prim.Native.Char.{code}
use Prim.Native.String.{◌++◌}
use ariesmesh.Prelude.{
  ◌≡◌, refl, String, Bool, true, false, ◌&&◌, ◌||◌, Option, none, some, List, [], ◌∷◌,
  if◌then◌else◌, ◌==◌, str_eq, starts_with, strip_prefix, any,
}
use ariesmesh.Memory.Key.{normalize_key}

cons_to : Prim.Native.Char.Char → Option String → Option String
cons_to c none = none
cons_to c (some s) = some (String.◌∷◌ c s)

-- `s[:-len(suffix)]` if `s.endswith(suffix)`
unfoldable pub strip_suffix : String → String → Option String
unfolding cons_to
strip_suffix suffix String.[] = if str_eq String.[] suffix then some String.[] else none
strip_suffix suffix (String.◌∷◌ c s) =
    let rest = cons_to c (strip_suffix suffix s) in
    if str_eq (String.◌∷◌ c s) suffix then some String.[] else rest

drop_slash : Prim.Native.Char.Char → String → String
drop_slash c String.[] = if code c == b'/' then String.[] else String.◌∷◌ c String.[]
drop_slash c (String.◌∷◌ d s) = String.◌∷◌ c (String.◌∷◌ d s)

-- `s.rstrip("/")`
unfoldable pub rstrip_slash : String → String
unfolding drop_slash
rstrip_slash String.[] = String.[]
rstrip_slash (String.◌∷◌ c s) = drop_slash c (rstrip_slash s)

-- the last two tests of `_resource_covers_key`
abbrev pub covers_by_path : Option String → String → String → Bool
covers_by_path (some prefix) resource key = str_eq key prefix || starts_with (prefix ++ "/") key
covers_by_path none resource key = starts_with (rstrip_slash resource ++ "/") key

unfoldable pub resource_covers_key : String → String → Bool
unfolding strip_suffix rstrip_slash
resource_covers_key resource key =
    if str_eq resource "*"
    then true
    else if str_eq resource key
    then true
    else covers_by_path (strip_suffix "/*" resource) resource key

-- What the check reads of a decoded token.
pub record Capability : Type 0 where
  pub resource : String
  pub ability : String

abbrev pub write_ability : String
write_ability = "aries/context.write"

-- The check for a token that decodes to these capabilities: whether it returns. Otherwise it raises
-- PermissionError.
unfoldable pub may_write : List Capability → String → Bool
unfolding resource_covers_key normalize_key
may_write caps key =
    any
      (λ cap.
        str_eq cap.ability write_ability
        && resource_covers_key (normalize_key cap.resource) (normalize_key key))
      caps

-- `_check_write_permission`, over the decoder of tokens: a token that does not decode is refused.
unfoldable pub check_write_permission : (String → Option (List Capability)) → String → String → Bool
unfolding may_write
check_write_permission decode key token = elim (decode token) [
  | none ↦ false
  | some caps ↦ may_write caps key
]

covers_runs : resource_covers_key "aries:context://tasks/abc/*" "aries:context://tasks/abcd" ≡ false
unfolding resource_covers_key strip_prefix
covers_runs = refl
