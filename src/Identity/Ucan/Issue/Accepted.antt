-- ===== src/Identity/Ucan/Issue/Accepted.antt =====
-- The tokens that a household issues are accepted.
use ariesmesh.Prelude.{
  ℕ, suc, ◌+◌, ◌*◌, ◌≤◌, ◌≡◌, refl, sym, ap, ◌∙◌, String, Bool, true, false, ◌&&◌, ◌||◌, Option,
  some, List, [], ◌∷◌, map, str_eq, eq_iff, arith, strip_prefix, strip_prefix-append, contains,
  Bool-cases, inl, inr, all,
}
use ariesmesh.Dict.{lookup}
use ariesmesh.Memory.Acl.{Capability}
use ariesmesh.Identity.Ucan.{is_attenuated_by, Token, is_active, Codec, passed, verify, cid}
use ariesmesh.Identity.Ucan.Chain.{is_covered, validate_chain}
use ariesmesh.Identity.Ucan.Authority.{verify-decode}
use ariesmesh.Identity.Ucan.Exact.{IsProof, IsSource, IsChain, validate_chain_iff}
use ariesmesh.Identity.Ucan.Issue.{
  Printer, IsPrintable, household_abilities, membership, proofs_of, agent_token,
  build_household_membership, build_agent_token, verify-sign,
}

-- A membership covers exactly its abilities, on every resource.
star_covers :
    (a : String) (c : Capability)
    → is_attenuated_by c (record { resource = "*"; ability = a }) ≡ str_eq c.ability a
unfolding is_attenuated_by
star_covers a c = ground arith

is_covered-map :
    (abilities : List String) (c : Capability)
    → is_covered (map (λ a. record { resource = "*"; ability = a }) abilities) c
      ≡ contains c.ability abilities
unfolding is_covered contains
is_covered-map [] c = refl
is_covered-map (a ∷ l) c = λ i. star_covers a c i || is_covered-map l c i

cid-str_eq : (codec : Codec) (token : String) → str_eq (cid codec token) "" ≡ false
unfolding strip_prefix
cid-str_eq codec token = elim (Bool-cases (str_eq (cid codec token) "")) [
  | inl e ↦
      let same : cid codec token ≡ "" = (eq_iff (cid codec token) "").0 e in
      cc (sym (strip_prefix-append "ucan:" (codec.digest token)) ∙ ap (strip_prefix "ucan:") same)
  | inr e ↦ e
]

membership-is_active :
    (t joined : ℕ) (root_did device_did : String)
    → joined ≤ t
    → is_active t (membership joined root_did device_did) ≡ true
unfolding is_active
membership-is_active t joined root_did device_did h = ground (arith, h)

both_true : (a b : Bool) → (a && b) ≡ true → (a ≡ true) × (b ≡ true)
both_true true b h = (refl, h)
both_true false b h = cc

agent_token-is_active :
    (t issued : ℕ) (device_did agent_did : String) (capabilities : List Capability) (ttl : ℕ)
    (parent : Option String)
    → issued ≤ t
    → t ≤ issued + ttl * 1000
    → is_active t (agent_token issued device_did agent_did capabilities ttl parent) ≡ true
unfolding is_active
agent_token-is_active t issued device_did agent_did capabilities ttl parent h k =
    ground (arith, h, k)

all-household :
    (l : List Capability)
    → all (λ held. contains held.ability household_abilities) l ≡ true
    → all (is_covered (map (λ a. record { resource = "*"; ability = a }) household_abilities)) l
      ≡ true
all-household [] h = refl
all-household (c ∷ l) h =
    let (k, ks) = both_true (contains c.ability household_abilities) _ h in
    λ i. (is_covered-map household_abilities c ∙ k) i && all-household l ks i

IsSource-proofs_of :
    (codec : Codec) (tokens : List (String × String)) (root : String) (P : String → Type 0)
    (u : Token) (id : String)
    → str_eq id "" ≡ false
    → IsProof codec tokens P u id
    → IsSource codec tokens root P u (proofs_of (some id))
IsSource-proofs_of codec tokens root P u id h p = rw h (p, tt)

module _ (codec : Codec) (printer : Printer codec) where
  open printer use {SigningKey}

  module _ (root_key : SigningKey) (root_did device_did : String) (joined : ℕ)
      (nonce : String) where
    abbrev pub member_text : String
    member_text = build_household_membership codec printer joined nonce root_key root_did device_did

    module _
        (laws : IsPrintable codec printer root_key nonce
          (membership joined root_did device_did)) where
      verify-member_text : verify codec member_text ≡ passed (membership joined root_did device_did)
      unfolding build_household_membership
      verify-member_text =
          verify-sign codec printer root_key nonce (membership joined root_did device_did) laws

      module _ (tokens : List (String × String)) (t : ℕ) (revocations : List String)
          (h : joined ≤ t) (r : contains root_did revocations ≡ false)
          (d : contains device_did revocations ≡ false) where
        -- the membership is a chain of one token
        membership-IsChain :
            (levels : ℕ) → IsChain codec tokens t root_did revocations (suc levels) member_text
        membership-IsChain levels = record {
          claims = membership joined root_did device_did;
          verified = verify-member_text;
          good = record {
            in_force = membership-is_active t joined root_did device_did h;
            issuer_stands = r;
            audience_stands = d;
          };
          sourced = refl;
        }

        membership-IsProof :
            (u : Token)
            → device_did ≡ u.issuer
            → all (is_covered (membership joined root_did device_did).capabilities) u.capabilities
              ≡ true
            → lookup (cid codec member_text) tokens ≡ some member_text
            → IsProof codec tokens
                (IsChain codec tokens t root_did revocations 16)
                u
                (cid codec member_text)
        membership-IsProof u e b stored = record {
          text = member_text;
          proof = membership joined root_did device_did;
          stored = stored;
          decoded =
              verify-decode codec member_text (membership joined root_did device_did)
                verify-member_text;
          given = e;
          broader = b;
          chained = membership-IsChain 15;
        }

  module _ (root_key device_key : SigningKey) (root_did device_did agent_did : String)
      (joined issued ttl : ℕ) (nonce other_nonce : String) (capabilities : List Capability) where
    -- the claims of the agent's token, whose proof is the membership
    abbrev pub agent_claims : Token
    agent_claims =
        agent_token issued device_did agent_did capabilities ttl
          (some (cid codec (member_text root_key root_did device_did joined nonce)))

    abbrev pub agent_text : String
    agent_text =
        build_agent_token codec printer issued other_nonce device_key device_did agent_did
          capabilities ttl
          (some (cid codec (member_text root_key root_did device_did joined nonce)))

    -- The tokens that a household issues are accepted: an agent's token with abilities of a membership, whose proof is
    -- the membership in the store, has any capability that it covers, while it lasts and after the membership was issued, if neither the root nor the device
    -- nor the agent is revoked, and the libraries decode both tokens and accept their signatures.
    pub issued_accepted :
        (tokens : List (String × String)) (t : ℕ) (revocations : List String) (c : Capability)
        → IsPrintable codec printer root_key nonce (membership joined root_did device_did)
        → IsPrintable codec printer device_key other_nonce agent_claims
        → joined ≤ t
        → issued ≤ t
        → t ≤ issued + ttl * 1000
        → contains root_did revocations ≡ false
        → contains device_did revocations ≡ false
        → contains agent_did revocations ≡ false
        → all (λ held. contains held.ability household_abilities) capabilities ≡ true
        → is_covered capabilities c ≡ true
        → lookup (cid codec (member_text root_key root_did device_did joined nonce)) tokens
          ≡ some (member_text root_key root_did device_did joined nonce)
        → validate_chain codec tokens t root_did revocations agent_text (some c) ≡ passed tt
    unfolding build_agent_token
    issued_accepted tokens t revocations c root_laws laws h1 h2 h3 r d a able covered stored =
        let member = member_text root_key root_did device_did joined nonce in
        (validate_chain_iff codec tokens t root_did revocations agent_text (some c)).1 (
          record {
            claims = agent_claims;
            verified = verify-sign codec printer device_key other_nonce agent_claims laws;
            good = record {
              in_force =
                  agent_token-is_active t issued device_did agent_did capabilities ttl
                    (some (cid codec member)) h2 h3;
              issuer_stands = d;
              audience_stands = a;
            };
            sourced =
                IsSource-proofs_of codec tokens root_did
                  (IsChain codec tokens t root_did revocations 16) agent_claims (cid codec member)
                  (cid-str_eq codec member)
                  (membership-IsProof root_key root_did device_did joined nonce root_laws tokens t
                    revocations h1 r d agent_claims refl (all-household capabilities able) stored);
          },
          covered,
        )
