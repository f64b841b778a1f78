-- ===== src/Identity/Ucan.antt =====
-- src/aries/identity/ucan.py: capability tokens and the validation of their chains of proofs.
pub mod Chain
pub mod Issue
pub mod Exact
pub mod Authority
use ariesmesh.Prelude.{
  ℕ, zero, suc, ◌≤◌, String, Bool, true, false, not, ◌&&◌, ◌||◌, Option, none, some, List, [], ◌∷◌,
  if◌then◌else◌, str_eq, ltb, leb, any, all, split_on, contains, starts_with,
}
use Prim.Native.String.{◌++◌}
use ariesmesh.Dict.{lookup, insert}
use ariesmesh.Memory.Acl.{Capability, strip_suffix, rstrip_slash}

-- the last tests of `is_attenuated_by`
abbrev pub attenuated_by_path : Option String → String → String → Bool
attenuated_by_path (some prefix) parent child =
    str_eq child prefix || starts_with (prefix ++ "/") child
attenuated_by_path none parent child = starts_with (rstrip_slash parent ++ "/") child

-- `self.is_attenuated_by(parent)`
unfoldable pub is_attenuated_by : Capability → Capability → Bool
unfolding strip_suffix rstrip_slash
is_attenuated_by self parent =
    if not (str_eq self.ability parent.ability)
    then false
    else if str_eq parent.resource "*"
    then true
    else if str_eq self.resource parent.resource
    then true
    else attenuated_by_path (strip_suffix "/*" parent.resource) parent.resource self.resource

-- What validation reads of a token. Times are in milliseconds; the expiration 0 is none.
pub record Token : Type 0 where
  pub issuer : String
  pub audience : String
  pub capabilities : List Capability
  pub proofs : List String
  pub not_before : ℕ
  pub expiration : ℕ

unfoldable pub is_expired : ℕ → Token → Bool
is_expired now u = ltb 0 u.expiration && ltb u.expiration now

unfoldable pub is_active : ℕ → Token → Bool
unfolding is_expired
is_active now u = leb u.not_before now && not (is_expired now u)

-- The libraries: `version` reads `ucv` of an encoded header, `payload` the fields of an encoded
-- payload, `signature` decodes the third part, and `signed_by` says whether a signature of a text
-- belongs to the key of a DID, false also where the DID names no key. `none` is an exception. `digest` is the hash of `cid`.
pub record Codec : Type 1 where
  pub Signature : Type 0
  pub version : String → Option String
  pub payload : String → Option Token
  pub signature : String → Option Signature
  pub signed_by : String → String → Signature → Bool
  pub digest : String → String

-- The ValueErrors of `decode`, `verify` and `_validate_chain`; `malformed` is also what the libraries
-- raise.
pub data Error : Type 0 where
  malformed unsupported_version bad_signature too_deep token_expired not_yet_active revoked : Error
  not_satisfied wrong_root missing_proof wrong_audience not_attenuated : Error

-- What a function gives that may raise one of them.
pub data Checked (A : Type 0) : Type 0 where
  raised : Error → Checked A
  passed : A → Checked A

infixl 5 ◌>>=◌
abbrev pub ◌>>=◌ : {A B : Type 0} → Checked A → (A → Checked B) → Checked B
(raised problem) >>= continue = raised problem
(passed value) >>= continue = continue value

infixl 5 ◌>>◌
abbrev pub ◌>>◌ : {B : Type 0} → Checked (Unit {0}) → Checked B → Checked B
test >> rest = test >>= (λ _. rest)

-- `if not test: raise problem`
abbrev pub require : Bool → Error → Checked (Unit {0})
require test problem = if test then passed tt else raised problem

abbrev pub or_raise : {A : Type 0} → Option A → Error → Checked A
or_raise none e = raised e
or_raise (some a) e = passed a

module _ (codec : Codec) where
  open codec use {Signature, version, payload, signature, signed_by, digest}

  -- `decode`, with the signature and the text that it signs
  unfoldable pub decode_parts : List String → Checked (Token × String × Signature)
  decode_parts (header ∷ body ∷ sig ∷ []) = do
    v ← or_raise (version header) malformed
    require (str_eq v "1.0") unsupported_version
    u ← or_raise (payload body) malformed
    s ← or_raise (signature sig) malformed
    passed (u, header ++ ("." ++ body), s)
  decode_parts _ = raised malformed

  abbrev pub first_of : Token × String × Signature → Checked Token
  first_of t = passed t.0

  unfoldable pub decode : String → Checked Token
  unfolding decode_parts split_on
  decode token = decode_parts (split_on b'.' token) >>= first_of

  abbrev pub signed_token : Token × String × Signature → Checked Token
  signed_token t = require (signed_by t.0.issuer t.1 t.2) bad_signature >> passed t.0

  unfoldable pub verify : String → Checked Token
  unfolding decode_parts split_on
  verify token = decode_parts (split_on b'.' token) >>= signed_token

  -- `UCANStore.store`, and the CID
  abbrev pub cid : String → String
  cid token = "ucan:" ++ digest token

  unfoldable pub store : String → List (String × String) → Checked (String × List (String × String))
  unfolding decode
  store token tokens = do u ← decode token; passed (cid token, insert (cid token) token tokens)
