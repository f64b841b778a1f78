-- ===== src/Identity/Ucan/Authority.antt =====
-- Where the authority of an accepted token comes from.
use ariesmesh.Prelude.{
  In, any-In, all-In, ℕ, zero, suc, ◌≡◌, sym, ◌∙◌, ap, ◌⊎◌, String, true, ◌&&◌, some, List, [], ◌∷◌,
  str_eq, arith, inl, inr, eq_iff,
}
use ariesmesh.Dict.{lookup}
use ariesmesh.Memory.Acl.{Capability, resource_covers_key}
use ariesmesh.Memory.Acl.Sound.{Below, covers_sound}
use ariesmesh.Identity.Ucan.{
  is_attenuated_by, Token, Codec, Checked, passed, ◌>>=◌, raised, first_of, signed_token, decode,
  verify,
}
use ariesmesh.Identity.Ucan.Chain.{is_covered, validate_chain}
use ariesmesh.Identity.Ucan.Exact.{IsGood, IsProof, IsSource, IsChain, validate_chain_iff}

-- A capability is attenuated by another exactly if the abilities are equal and `_resource_covers_key`, the rule of
-- store.py on resources and keys as they are written, has the resource of the other cover its own.
pub attenuated-covers :
    (c p : Capability)
    → is_attenuated_by c p
      ≡ (str_eq p.ability c.ability && resource_covers_key p.resource c.resource)
unfolding is_attenuated_by resource_covers_key
attenuated-covers c p = ground (
  arith,
  eq_iff c.ability p.ability,
  eq_iff p.ability c.ability,
  eq_iff c.resource p.resource,
  eq_iff p.resource c.resource,
)

-- The same ability, on the resource or below it.
pub record Narrower (c p : Capability) : Type 0 where
  pub ability : c.ability ≡ p.ability
  pub resource : Below p.resource c.resource

attenuated-Narrower : (c p : Capability) → is_attenuated_by c p ≡ true → Narrower c p
attenuated-Narrower c p h = record {
  ability = ground (arith, attenuated-covers c p, eq_iff p.ability c.ability);
  resource = covers_sound p.resource c.resource (ground (arith, attenuated-covers c p));
}

module _ (codec : Codec) where
  signed-decoded :
      (m : Checked (Token × String × codec.Signature)) (u : Token)
      → (m >>= signed_token codec) ≡ passed u
      → (m >>= first_of codec) ≡ passed u
  signed-decoded (raised e) u h = cc
  signed-decoded (passed (v, signed, s)) u h = ground arith

  pub verify-decode :
      (token : String) (u : Token) → verify codec token ≡ passed u → decode codec token ≡ passed u
  unfolding verify decode
  verify-decode token u h = signed-decoded _ u h

module _ (codec : Codec) (tokens : List (String × String)) (now : ℕ) (root : String)
    (revocations : List String) where
  -- A capability that goes back to the root, over at most so many tokens. Each of them is signed by its
  -- issuer, in force and given by and to devices that are not revoked, and has the capability or a
  -- broader one; the first is of the root, and each other has as its proof the one before, which was
  -- given to its issuer and has the capability on which it relies.
  pub data Granted : ℕ → Capability → String → Type 0 where
    from_root :
        {levels : ℕ} {c : Capability} {token : String} (u : Token) (held : Capability)
        → verify codec token ≡ passed u
        → IsGood now revocations u
        → In held u.capabilities
        → Narrower c held
        → u.issuer ≡ root
        → Granted (suc levels) c token
    from_proof :
        {levels : ℕ} {c : Capability} {token : String} (u : Token) (held : Capability)
        → verify codec token ≡ passed u
        → IsGood now revocations u
        → In held u.capabilities
        → Narrower c held
        → (id text : String) (proof : Token) → lookup id tokens ≡ some text
        → verify codec text ≡ passed proof
        → proof.audience ≡ u.issuer
        → Granted levels held text
        → Granted (suc levels) c token

  passed_injective : {u v : Token} → passed u ≡ passed v → u ≡ v
  passed_injective h = cc

  -- The claims of a token of a chain are what it decodes to.
  chain_claims :
      (levels : ℕ) (token : String) (u : Token)
      → IsChain codec tokens now root revocations levels token
      → decode codec token ≡ passed u
      → verify codec token ≡ passed u
  chain_claims zero token u chain d = absurd chain
  chain_claims (suc levels) token u chain d =
      let same : chain.claims ≡ u =
        passed_injective (sym (verify-decode codec token chain.claims chain.verified) ∙ d) in
      rw same at chain.verified

  first-IsProof :
      (P : String → Type 0) (u : Token) (l : List String)
      → IsSource codec tokens root P u l
      → (u.issuer ≡ root) ⊎ ((id : String) × IsProof codec tokens P u id)
  first-IsProof P u [] h = inl h
  first-IsProof P u (id ∷ rest) h = inr (id, h.0)

  -- Whatever a token of a chain covers is granted.
  covered-Granted :
      (levels : ℕ) (token : String) (u : Token) (c : Capability)
      → IsChain codec tokens now root revocations levels token
      → verify codec token ≡ passed u
      → is_covered u.capabilities c ≡ true
      → Granted levels c token
  unfolding is_covered
  covered-Granted zero token u c chain d h = absurd chain
  covered-Granted (suc levels) token u c chain d h =
      let same : chain.claims ≡ u = passed_injective (sym chain.verified ∙ d) in
      let good = rw same at chain.good in
      let (held, m, narrow) = any-In (λ p. is_attenuated_by c p) u.capabilities h in
      elim (first-IsProof (IsChain codec tokens now root revocations levels) chain.claims
        chain.claims.proofs chain.sourced) [
          | inl end ↦ from_root u held d good m (attenuated-Narrower c held narrow) (rw same at end)
          | inr (id, i) ↦
              let proof = chain_claims levels i.text i.proof i.chained i.decoded in
              let broader = rw same at i.broader in
              from_proof u held d good m (attenuated-Narrower c held narrow) id i.text i.proof
                i.stored proof (i.given ∙ ap (λ (v : Token). v.issuer) same)
                (covered-Granted levels i.text i.proof held i.chained proof
                  (all-In (is_covered i.proof.capabilities) u.capabilities held broader m))
        ]

  -- Validation confers no authority that the root did not give: a capability that an accepted token
  -- was required to have goes back to the root over at most 17 tokens, each signed by its issuer, in
  -- force, between devices that are not revoked, and with that ability on the resource or above it.
  pub validate_chain-Granted :
      (token : String) (c : Capability)
      → validate_chain codec tokens now root revocations token (some c) ≡ passed tt
      → Granted 17 c token
  validate_chain-Granted token c h =
      let (l, satisfied) =
        (validate_chain_iff codec tokens now root revocations token (some c)).0 h in
      covered-Granted 17 token l.claims c l l.verified satisfied
