-- ===== src/Identity/Ucan/Issue.antt =====
-- The tokens that a household issues: `sign` and the two builders of src/aries/identity/ucan.py.
pub mod Accepted
use Prim.Native.String.{◌++◌}
use ariesmesh.Prelude.{
  ℕ, suc, ◌+◌, ◌*◌, ◌≤◌, ◌≡◌, refl, sym, ap, ◌∙◌, String, Bool, true, false, not, ◌&&◌, ◌||◌,
  Option, none, some, List, [], ◌∷◌, map, if◌then◌else◌, str_eq, eq_iff, eq_refl, arith, lacks,
  split_on, split_on-lacks, split_on-append, strip_prefix, strip_prefix-append, contains,
  Bool-cases, inl, inr, any, all, ltb, leb,
}
use ariesmesh.Dict.{lookup, insert}
use ariesmesh.Memory.Acl.{Capability}
use ariesmesh.Identity.Ucan.{
  is_attenuated_by, Token, is_active, Codec, Checked, passed, ◌>>=◌, ◌>>◌, require, or_raise,
  decode_parts, signed_token, first_of, decode, verify, cid, store,
}
use ariesmesh.Identity.Ucan.Chain.{is_covered, validate_chain}
use ariesmesh.Identity.Ucan.Authority.{verify-decode}
use ariesmesh.Identity.Ucan.Exact.{
  IsGood, Satisfies, IsProof, IsSource, IsLevel, IsChain, validate_chain_iff,
}

-- The other half of the libraries: the encoded header, the encoding of a payload with its nonce, the
-- encoding of a signature, and the signature that a key makes of a text.
pub record Printer (codec : Codec) : Type 1 where
  pub SigningKey : Type 0
  pub header : String
  pub body : Token → String → String
  pub written : codec.Signature → String
  pub signature_of : SigningKey → String → codec.Signature

abbrev pub household_abilities : List String
household_abilities =
    "aries/household.member" ∷ "aries/identity.delegate" ∷ "aries/context.read"
    ∷ "aries/context.write" ∷ "aries/agent.invoke" ∷ "aries/handoff.send" ∷ "aries/handoff.accept"
    ∷ []

abbrev pub membership : ℕ → String → String → Token
membership now user_root_did device_did = record {
  issuer = user_root_did;
  audience = device_did;
  capabilities = map (λ ability. record { resource = "*"; ability = ability }) household_abilities;
  proofs = [];
  not_before = now;
  expiration = 0;
}

abbrev pub proofs_of : Option String → List String
proofs_of none = []
proofs_of (some c) = if str_eq c "" then [] else c ∷ []

abbrev pub agent_token : ℕ → String → String → List Capability → ℕ → Option String → Token
agent_token now device_did agent_did capabilities ttl_seconds parent = record {
  issuer = device_did;
  audience = agent_did;
  capabilities = capabilities;
  proofs = proofs_of parent;
  not_before = now;
  expiration = now + ttl_seconds * 1000;
}

module _ (codec : Codec) (printer : Printer codec) where
  open printer use {SigningKey, header, body, written, signature_of}

  -- `sign`, of a token with its nonce
  unfoldable pub sign : SigningKey → String → Token → String
  sign key nonce u =
      let signed = header ++ ("." ++ body u nonce) in
      header ++ ("." ++ (body u nonce ++ ("." ++ written (signature_of key signed))))

  -- `build_household_membership`; the time is that of `not_before`.
  unfoldable pub build_household_membership : ℕ → String → SigningKey → String → String → String
  unfolding sign
  build_household_membership now nonce user_root_key user_root_did device_did =
      sign user_root_key nonce (membership now user_root_did device_did)

  -- `build_agent_token`, without caveats, which validation never reads
  unfoldable pub build_agent_token :
      ℕ → String → SigningKey → String → String → List Capability → ℕ → Option String → String
  unfolding sign
  build_agent_token now nonce device_key device_did agent_did capabilities ttl_seconds parent =
      sign device_key nonce (agent_token now device_did agent_did capabilities ttl_seconds parent)

  -- What the libraries promise of a token and a key: the encodings are decoded, base64 has no dot, and
  -- the signatures of the key are those of the issuer.
  pub record IsPrintable (key : SigningKey) (nonce : String) (u : Token) : Type 0 where
    pub header_plain : lacks b'.' header ≡ true
    pub body_plain : lacks b'.' (body u nonce) ≡ true
    pub written_plain : (s : codec.Signature) → lacks b'.' (written s) ≡ true
    pub header_read : codec.version header ≡ some "1.0"
    pub body_read : codec.payload (body u nonce) ≡ some u
    pub written_read : (s : codec.Signature) → codec.signature (written s) ≡ some s
    pub accepted : (text : String) → codec.signed_by u.issuer text (signature_of key text) ≡ true

  module _ (key : SigningKey) (nonce : String) (u : Token) (laws : IsPrintable key nonce u) where
    abbrev signed_text : String
    signed_text = header ++ ("." ++ body u nonce)

    split_on-sign :
        split_on b'.' (sign key nonce u)
        ≡ header ∷ body u nonce ∷ written (signature_of key signed_text) ∷ []
    unfolding sign
    split_on-sign =
        rw
          (
            split_on-append b'.' header _ _ laws.header_plain refl,
            split_on-append b'.' (body u nonce) _ _ laws.body_plain refl,
            split_on-lacks b'.' _ (laws.written_plain (signature_of key signed_text)),
          )
          refl

    -- A token that is signed with the key of its issuer is verified, and is what was signed.
    pub verify-sign : verify codec (sign key nonce u) ≡ passed u
    unfolding verify
    verify-sign =
        ap (λ parts. decode_parts codec parts >>= signed_token codec) split_on-sign
        ∙ rw
            (
              laws.header_read,
              laws.body_read,
              laws.written_read (signature_of key signed_text),
              laws.accepted signed_text,
            )
            refl
