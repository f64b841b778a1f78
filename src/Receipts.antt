-- ===== src/Receipts.antt =====
-- src/aries/receipt.py: signed receipts and their chain. Receipts are values, so a receipt that a caller
-- changes after adding it is left out.
pub mod Tamper
pub mod Signed
pub mod Tests
use mathlib.Core.List.{◌++◌}
use ariesmesh.Prelude.{
  ℕ, String, Bool, true, false, ◌&&◌, Option, none, some, List, [], ◌∷◌, if◌then◌else◌, str_eq,
}
use ariesmesh.Identity.Did.{did_to_public_key}

-- `_signable_content`: the fields of a receipt that are signed. `F` holds floating-point numbers.
pub record Content (F : Type 0) : Type 0 where
  pub task_id : String
  pub device_did : String
  pub agent_did : String
  pub action : String
  pub status : String
  pub model_used : String
  pub tokens_used : ℕ
  pub latency_ms : F
  pub input_hash : String
  pub output_hash : String
  pub summary : String
  pub continuation_id : Option String
  pub previous_receipt_id : Option String
  pub previous_receipt_hash : Option String
  pub started_at : F
  pub completed_at : F
  pub id : String

-- an empty signature or signer is falsy, as None
pub record Receipt (F : Type 0) : Type 0 where
  pub content : Content F
  pub signature : String
  pub signed_by : String

-- The libraries: canonical JSON, the hexadecimal SHA-256 of a text, the hexadecimal signature that a
-- key pair makes of a text, and `verify_detached` with `bytes.fromhex`, whose ValueError is `none`.
pub record Signing (F : Type 0) : Type 1 where
  pub KeyPair : Type 0
  pub public_bytes : KeyPair → List ℕ
  pub canonical_json : Content F → String
  pub sha256 : String → String
  pub sign_hex : KeyPair → String → String
  pub verify_hex : List ℕ → String → String → Option Bool

abbrev pub opt_eq : Option String → String → Bool
opt_eq none s = false
opt_eq (some t) s = str_eq t s

abbrev pub last? : {A : Type 0} → List A → Option A
last? [] = none
last? (x ∷ []) = some x
last? (x ∷ y ∷ l) = last? (y ∷ l)

abbrev pub and_then : Option Bool → Option Bool → Option Bool
and_then none next = none
and_then (some false) next = some false
and_then (some true) next = next

module _ {F : Type 0} (lib : Signing F) where
  open lib use {KeyPair, public_bytes, canonical_json, sha256, sign_hex, verify_hex}

  unfoldable pub content_hash : Receipt F → String
  content_hash r = sha256 (canonical_json r.content)

  -- `sign`
  unfoldable pub sign : KeyPair → String → Receipt F → Receipt F
  sign keypair signer_did r = record r {
    signed_by = signer_did;
    signature = sign_hex keypair (canonical_json r.content);
  }

  -- `verify`
  unfoldable pub verify : Receipt F → Option Bool
  unfolding did_to_public_key
  verify r =
      if str_eq r.signature ""
      then some false
      else if str_eq r.signed_by ""
      then some false
      else elim (did_to_public_key r.signed_by) [
        | none ↦ some false
        | some key ↦ verify_hex key (canonical_json r.content) r.signature
      ]

  -- the fields that `add` sets
  unfoldable pub link : Option (Receipt F) → Receipt F → Receipt F
  unfolding content_hash
  link none r = r
  link (some prev) r = record r {
    content = record r.content {
      previous_receipt_id = some prev.content.id;
      previous_receipt_hash = some (content_hash prev);
    };
  }

  abbrev sign_if : Option (KeyPair × String) → Receipt F → Receipt F
  sign_if none r = r
  sign_if (some (keypair, signer_did)) r = sign keypair signer_did r

  -- `add`, with a key pair and the DID of the signer or without
  unfoldable pub add : Option (KeyPair × String) → Receipt F → List (Receipt F) → List (Receipt F)
  unfolding link sign
  add signer r receipts = receipts ++ (sign_if signer (link (last? receipts) r) ∷ [])

  -- the tests on the previous receipt in the loop of `verify_chain`
  unfoldable pub is_linked : Option (Receipt F) → Receipt F → Bool
  unfolding content_hash
  is_linked none r = true
  is_linked (some prev) r =
      opt_eq r.content.previous_receipt_id prev.content.id
      && opt_eq r.content.previous_receipt_hash (content_hash prev)

  unfoldable pub verify_from : Option (Receipt F) → List (Receipt F) → Option Bool
  unfolding verify is_linked
  verify_from prev [] = some true
  verify_from prev (r ∷ receipts) =
      and_then (verify r) (and_then (some (is_linked prev r)) (verify_from (some r) receipts))

  -- `verify_chain`
  unfoldable pub verify_chain : List (Receipt F) → Option Bool
  unfolding verify_from
  verify_chain receipts = verify_from none receipts
