-- ===== src/Identity/Tests.antt =====
-- The theorems on tokens and identifiers at concrete inputs.
use ariesmesh.Prelude.{
  Option, Bool, false, lacks, contains, all, leb, ℕ, ◌≡◌, ◌↔◌, refl, ◌&&◌, String, true, none, some,
  List, [], ◌∷◌, length, All, str_eq, if◌then◌else◌, arith, strip_prefix, ◌<◌,
}
use ariesmesh.Dict.{lookup}
use ariesmesh.Identity.Ucan.Issue.{
  Printer, IsPrintable, household_abilities, membership, agent_token, build_household_membership,
}
use ariesmesh.Identity.Ucan.Issue.Accepted.{member_text, agent_claims, agent_text, issued_accepted}
use ariesmesh.Memory.Acl.{Capability, resource_covers_key}
use ariesmesh.Identity.Did.{b58encode, b58decode, b58_digits, public_key_to_did, did_to_public_key}
use ariesmesh.Identity.Did.Digits.{Loop, b58_digits-Loop}
use ariesmesh.Identity.Did.RoundTrip.{did_to_public_key-public_key_to_did}
use ariesmesh.Identity.Ucan.{cid, Token, Codec, passed, is_attenuated_by}
use ariesmesh.Identity.Ucan.Chain.{is_covered, validate_chain}
use ariesmesh.Identity.Ucan.Exact.{IsLevel, IsChain, Satisfies, validate_chain_iff}
use ariesmesh.Identity.Ucan.Authority.{attenuated-covers, Granted, validate_chain-Granted}

abbrev all_tasks : Capability
all_tasks = record { resource = "aries:context://tasks/*"; ability = "crdt/write" }

abbrev one_task : Capability
one_task = record { resource = "aries:context://tasks/1"; ability = "crdt/write" }

attenuated-covers_example : is_attenuated_by one_task all_tasks ≡ (
    str_eq "crdt/write" "crdt/write"
    && resource_covers_key "aries:context://tasks/*" "aries:context://tasks/1")
attenuated-covers_example = attenuated-covers one_task all_tasks

abbrev one_call : Capability
one_call = record { resource = "aries:agent://a"; ability = "aries/agent.invoke" }

-- The root gives the tasks to "did:b", which gives one of them to "did:c".
abbrev from_root : Token
from_root = record {
  issuer = "did:a";
  audience = "did:b";
  capabilities = all_tasks ∷ [];
  proofs = [];
  not_before = 0;
  expiration = 0;
}

abbrev passed_on : Token
passed_on = record {
  issuer = "did:b";
  audience = "did:c";
  capabilities = one_task ∷ [];
  proofs = "ucan:1" ∷ [];
  not_before = 2;
  expiration = 9;
}

-- A signature is the name of its signer.
abbrev plain : Codec
plain = record {
  Signature = String;
  version = λ h. if str_eq h "v" then some "1.0" else none;
  payload = λ b.
      if str_eq b "root" then some from_root else if str_eq b "child" then some passed_on else none;
  signature = λ s. some s;
  signed_by = λ did text s. str_eq did s;
  digest = λ t. t;
}

abbrev stored : List (String × String)
stored = ("ucan:1", "v.root.did:a") ∷ []

accepted : validate_chain plain stored 5 "did:a" [] "v.child.did:b" (some one_task) ≡ passed tt
unfolding validate_chain strip_prefix
accepted = refl

validate_chain-Granted_example : Granted plain stored 5 "did:a" [] 17 one_task "v.child.did:b"
validate_chain-Granted_example =
    validate_chain-Granted plain stored 5 "did:a" [] "v.child.did:b" one_task accepted

validate_chain_iff_example :
    (validate_chain plain stored 5 "did:a" [] "v.child.did:b" (some one_task) ≡ passed tt) ↔ (
      (l : IsLevel plain stored 5 "did:a" [] (IsChain plain stored 5 "did:a" [] 16) "v.child.did:b")
      × Satisfies l.claims (some one_task))
validate_chain_iff_example =
    validate_chain_iff plain stored 5 "did:a" [] "v.child.did:b" (some one_task)

b58_digits-Loop_example : Loop 300 [] (b58_digits 300 300 [])
b58_digits-Loop_example = b58_digits-Loop 300 300 [] (omega arith)

abbrev a_key : List ℕ
a_key =
    0 ∷ 1 ∷ 2 ∷ 3 ∷ 4 ∷ 5 ∷ 6 ∷ 7 ∷ 8 ∷ 9 ∷ 10 ∷ 11 ∷ 12 ∷ 13 ∷ 14 ∷ 255 ∷ 16 ∷ 17 ∷ 18 ∷ 19 ∷ 20
    ∷ 21 ∷ 22 ∷ 23 ∷ 24 ∷ 25 ∷ 26 ∷ 27 ∷ 28 ∷ 29 ∷ 30 ∷ 31 ∷ []

a_key_long : length a_key ≡ 32
a_key_long = refl

all_bytes : (l : List ℕ) → all (λ b. leb b 255) l ≡ true → All (λ b. b < 256) l
all_bytes [] h = tt
all_bytes (b ∷ l) h = (ground (arith, h), all_bytes l (ground (arith, h)))

did_to_public_key-public_key_to_did_example :
    (did : String) × (public_key_to_did a_key ≡ some did) × (did_to_public_key did ≡ some a_key)
did_to_public_key-public_key_to_did_example =
    did_to_public_key-public_key_to_did a_key a_key_long (all_bytes a_key refl)

key_printed :
    public_key_to_did a_key ≡ some "did:key:z6MkeTGwHmLmuCmgg4ABYhzWXwuSALP5YapG82bSVaxHDvd4"
unfolding public_key_to_did
key_printed = refl

did_runs : b58encode (0 ∷ 0 ∷ 1 ∷ 44 ∷ []) ≡ "116B"
unfolding b58encode
did_runs = refl

did_runs_back : b58decode "116B" ≡ some (0 ∷ 0 ∷ 1 ∷ 44 ∷ [])
unfolding b58decode
did_runs_back = refl

-- A household of the root "did:a", its device "did:b" and the agent "did:c". There are two signatures,
-- and a payload is its nonce.
abbrev member_claims : Token
member_claims = membership 1 "did:a" "did:b"

abbrev task_claims : Token
task_claims = agent_token 2 "did:b" "did:c" (one_call ∷ []) 60 (some "ucan:v.m.r")

abbrev letter : Bool → String
letter true = "r"
letter false = "d"

abbrev home_codec : Codec
home_codec = record {
  Signature = Bool;
  version = λ h. if str_eq h "v" then some "1.0" else none;
  payload = λ b.
      if str_eq b "m" then some member_claims else if str_eq b "t" then some task_claims else none;
  signature = λ s. some (str_eq s "r");
  signed_by = λ did text s. str_eq did (if s then "did:a" else "did:b");
  digest = λ t. t;
}

abbrev home_printer : Printer home_codec
home_printer = record {
  SigningKey = Bool;
  header = "v";
  body = λ u nonce. nonce;
  written = letter;
  signature_of = λ k t. k;
}

letter_plain : (b : Bool) → lacks b'.' (letter b) ≡ true
unfolding lacks
letter_plain true = refl
letter_plain false = refl

letter_read : (b : Bool) → Path (Option Bool) (some (str_eq (letter b) "r")) (some b)
letter_read true = refl
letter_read false = refl

member-IsPrintable : IsPrintable home_codec home_printer true "m" member_claims
unfolding lacks
member-IsPrintable = record {
  header_plain = refl;
  body_plain = refl;
  written_plain = letter_plain;
  header_read = refl;
  body_read = refl;
  written_read = letter_read;
  accepted = λ text. refl;
}

task-IsPrintable : IsPrintable home_codec home_printer false "t" (
    agent_claims home_codec home_printer true false "did:a" "did:b" "did:c" 1 2 60 "m" "t"
      (one_call ∷ []))
unfolding lacks build_household_membership
task-IsPrintable = record {
  header_plain = refl;
  body_plain = refl;
  written_plain = letter_plain;
  header_read = refl;
  body_read = refl;
  written_read = letter_read;
  accepted = λ text. refl;
}

abbrev home_tokens : List (String × String)
home_tokens = ("ucan:v.m.r", "v.m.r") ∷ []

member_stored :
    lookup
      (cid home_codec (member_text home_codec home_printer true "did:a" "did:b" 1 "m"))
      home_tokens
    ≡ some (member_text home_codec home_printer true "did:a" "did:b" 1 "m")
unfolding lookup build_household_membership
member_stored = refl

none_revoked :
    (contains "did:a" [] ≡ false) × (contains "did:b" [] ≡ false) × (contains "did:c" [] ≡ false)
unfolding contains
none_revoked = (refl, refl, refl)

call_allowed :
    (all (λ (held : Capability). contains held.ability household_abilities) (one_call ∷ []) ≡ true)
    × (is_covered (one_call ∷ []) one_call ≡ true)
unfolding contains is_covered
call_allowed = (refl, refl)

issued_accepted_example :
    validate_chain home_codec home_tokens 5000 "did:a" []
      (agent_text home_codec home_printer true false "did:a" "did:b" "did:c" 1 2 60 "m" "t"
        (one_call ∷ []))
      (some one_call)
    ≡ passed tt
issued_accepted_example =
    issued_accepted home_codec home_printer true false "did:a" "did:b" "did:c" 1 2 60 "m" "t"
      (one_call ∷ []) home_tokens 5000 [] one_call member-IsPrintable task-IsPrintable (omega arith)
      (omega arith) (omega arith) none_revoked.0 none_revoked.1 none_revoked.2 call_allowed.0
      call_allowed.1 member_stored
