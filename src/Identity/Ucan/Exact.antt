-- ===== src/Identity/Ucan/Exact.antt =====
-- The chains that `validate_chain` accepts, as a predicate.
use ariesmesh.Prelude.{
  contains, ℕ, zero, suc, ◌≡◌, refl, String, Bool, true, false, Option, none, some, List, [], ◌∷◌,
  str_eq, all, All, arith, eq_iff, ◌↔◌,
}
use ariesmesh.Dict.{lookup}
use ariesmesh.Memory.Acl.{Capability}
use ariesmesh.Identity.Ucan.{
  Token, is_active, Codec, Error, Checked, passed, raised, ◌>>=◌, ◌>>◌, require, or_raise, decode,
  verify, missing_proof, wrong_audience, not_attenuated, wrong_root,
}
use ariesmesh.Identity.Ucan.Chain.{
  is_covered, check_token, check_link, check_proofs, check_source, validate, validate_chain,
}

>>=-eq-passed :
    {A B : Type 0} (test : Checked A) (rest : A → Checked B) {b : B}
    → (test >>= rest) ≡ passed b
    → (value : A) × (test ≡ passed value) × (rest value ≡ passed b)
>>=-eq-passed (raised problem) rest e = cc
>>=-eq-passed (passed value) rest e = (value, refl, e)

>>-eq-passed : (m k : Checked (Unit {0})) → (m >> k) ≡ passed tt → (m ≡ passed tt) × (k ≡ passed tt)
>>-eq-passed (passed tt) k h = (refl, h)
>>-eq-passed (raised e) k h = cc

require-eq-passed : (b : Bool) (e : Error) → require b e ≡ passed tt → b ≡ true
require-eq-passed true e h = refl
require-eq-passed false e h = cc

or_raise-eq-passed :
    {A : Type 0} (o : Option A) (e : Error) {a : A} → or_raise o e ≡ passed a → o ≡ some a
or_raise-eq-passed none e h = cc
or_raise-eq-passed (some a) e h = cc

-- The token is in force, and neither of its parties is revoked.
pub record IsGood (now : ℕ) (revocations : List String) (u : Token) : Type 0 where
  pub in_force : is_active now u ≡ true
  pub issuer_stands : contains u.issuer revocations ≡ false
  pub audience_stands : contains u.audience revocations ≡ false

-- The token has what is required of it, if anything is.
abbrev pub Satisfies : Token → Option Capability → Type 0
Satisfies u none = Unit
Satisfies u (some c) = is_covered u.capabilities c ≡ true

check_token_sound :
    (now : ℕ) (revocations : List String) (u : Token) (required : Option Capability)
    → check_token now revocations u required ≡ passed tt
    → IsGood now revocations u × Satisfies u required
unfolding check_token
check_token_sound now revocations u none h = (ground arith, tt)
check_token_sound now revocations u (some c) h = (ground arith, ground arith)

check_token_complete :
    (now : ℕ) (revocations : List String) (u : Token) (required : Option Capability)
    → IsGood now revocations u
    → Satisfies u required
    → check_token now revocations u required ≡ passed tt
unfolding check_token
check_token_complete now revocations u none g h = ground arith
check_token_complete now revocations u (some c) g h = ground arith

module _ (codec : Codec) (tokens : List (String × String)) where
  -- The proof `id` of a token is in the store, was given to the issuer of the token, and has every
  -- capability of the token or a broader one; and `P` holds of it.
  pub record IsProof (P : String → Type 0) (u : Token) (id : String) : Type 0 where
    pub text : String
    pub proof : Token
    pub stored : lookup id tokens ≡ some text
    pub decoded : decode codec text ≡ passed proof
    pub given : proof.audience ≡ u.issuer
    pub broader : all (is_covered proof.capabilities) u.capabilities ≡ true
    pub chained : P text

  module _ (next : String → Checked (Unit {0})) (P : String → Type 0)
      (same : (s : String) → (next s ≡ passed tt) ↔ P s) (u : Token) where
    check_proofs_sound :
        (l : List String) → check_proofs codec tokens next u l ≡ passed tt → All (IsProof P u) l
    unfolding check_proofs
    check_proofs_sound [] h = tt
    check_proofs_sound (id ∷ rest) h =
        let (s, stored, h1) = >>=-eq-passed (or_raise (lookup id tokens) missing_proof) _ h in
        let (p, decoded, h2) = >>=-eq-passed (decode codec s) _ h1 in
        let (linked, h3) = >>-eq-passed (check_link u p) _ h2 in
        let (chained, later) = >>-eq-passed (next s) _ h3 in
        let (audience, caps) =
          >>-eq-passed (require (str_eq p.audience u.issuer) wrong_audience) _
            (unfold check_link in linked) in
        (
          record {
            text = s;
            proof = p;
            stored = or_raise-eq-passed (lookup id tokens) missing_proof stored;
            decoded = decoded;
            given = (eq_iff p.audience u.issuer).0 (require-eq-passed _ wrong_audience audience);
            broader = require-eq-passed _ not_attenuated caps;
            chained = (same s).0 chained;
          },
          check_proofs_sound rest later,
        )

    check_proofs_complete :
        (l : List String) → All (IsProof P u) l → check_proofs codec tokens next u l ≡ passed tt
    unfolding check_proofs check_link
    check_proofs_complete [] h = refl
    check_proofs_complete (id ∷ rest) h =
        let i = h.0 in
        rw
          (
            i.stored,
            i.decoded,
            (eq_iff i.proof.audience u.issuer).1 i.given,
            i.broader,
            (same i.text).1 i.chained,
          )
          (check_proofs_complete rest h.1)

  abbrev pub IsSource : String → (String → Type 0) → Token → List String → Type 0
  IsSource root P u [] = u.issuer ≡ root
  IsSource root P u (id ∷ rest) = All (IsProof P u) (id ∷ rest)

  module _ (now : ℕ) (root : String) (revocations : List String) where
    pub record IsLevel (P : String → Type 0) (token : String) : Type 0 where
      pub claims : Token
      pub verified : verify codec token ≡ passed claims
      pub good : IsGood now revocations claims
      pub sourced : IsSource root P claims claims.proofs

    -- A token of a chain of at most so many levels: it is signed by its issuer and good, and it is
    -- issued by the root and has no proofs, or each of its proofs is one and has a chain of one level
    -- less.
    abbrev pub IsChain : ℕ → String → Type 0
    IsChain zero token = ⊥
    IsChain (suc levels) token = IsLevel (IsChain levels) token

    -- One level, over the recursive call.
    abbrev level : (String → Checked (Unit {0})) → String → Option Capability → Checked (Unit {0})
    level next token required = do
      u ← verify codec token
      check_token now revocations u required
      check_source codec tokens root next u u.proofs

    module _ (next : String → Checked (Unit {0})) (P : String → Type 0)
        (same : (s : String) → (next s ≡ passed tt) ↔ P s) where
      IsSource-sound :
          (u : Token) (l : List String)
          → check_source codec tokens root next u l ≡ passed tt
          → IsSource root P u l
      unfolding check_source
      IsSource-sound u [] h = (eq_iff u.issuer root).0 (require-eq-passed _ wrong_root h)
      IsSource-sound u (id ∷ rest) h = check_proofs_sound next P same u (id ∷ rest) h

      source_complete :
          (u : Token) (l : List String)
          → IsSource root P u l
          → check_source codec tokens root next u l ≡ passed tt
      unfolding check_source
      source_complete u [] h = rw ((eq_iff u.issuer root).1 h)
      source_complete u (id ∷ rest) h = check_proofs_complete next P same u (id ∷ rest) h

      level_sound :
          (token : String) (required : Option Capability)
          → level next token required ≡ passed tt
          → (l : IsLevel P token) × Satisfies l.claims required
      level_sound token required h =
          let (u, verified, h1) = >>=-eq-passed (verify codec token) _ h in
          let (checked, source) = >>-eq-passed (check_token now revocations u required) _ h1 in
          let (good, satisfied) = check_token_sound now revocations u required checked in
          (
            record {
              claims = u;
              verified = verified;
              good = good;
              sourced = IsSource-sound u u.proofs source;
            },
            satisfied,
          )

      level_complete :
          (token : String) (required : Option Capability) (l : IsLevel P token)
          → Satisfies l.claims required
          → level next token required ≡ passed tt
      level_complete token required l h =
          rw (l.verified, check_token_complete now revocations l.claims required l.good h)
            (source_complete l.claims l.claims.proofs l.sourced)

    -- What `validate` accepts at so many levels.
    abbrev pub Accepts : ℕ → String → Option Capability → Type 0
    Accepts zero token required = ⊥
    Accepts (suc levels) token required =
        (l : IsLevel (IsChain levels) token) × Satisfies l.claims required

    Accepts-IsChain :
        (levels : ℕ) (token : String) → Accepts levels token none ↔ IsChain levels token
    Accepts-IsChain zero token = (λ h. h, λ h. h)
    Accepts-IsChain (suc levels) token = (λ h. h.0, λ h. (h, tt))

    validate_iff :
        (levels : ℕ) (token : String) (required : Option Capability)
        → (validate codec tokens now root revocations levels token required ≡ passed tt)
          ↔ Accepts levels token required
    unfolding validate
    validate_iff zero token required = (λ h. cc, λ h. absurd h)
    validate_iff (suc levels) token required =
        let next = λ (s : String). validate codec tokens now root revocations levels s none in
        let same = λ (s : String).
          let (to, from) = validate_iff levels s none in
          let (strip, wrap) = Accepts-IsChain levels s in
          let both : (next s ≡ passed tt) ↔ IsChain levels s =
            (λ h. strip (to h), λ h. from (wrap h)) in
          both in
        (
          level_sound next (IsChain levels) same token required,
          λ h. level_complete next (IsChain levels) same token required h.0 h.1,
        )

    -- `validate_chain` accepts a token exactly if it has what is required of it and is the first of a
    -- chain of at most 17 levels; every other token makes it raise an error.
    pub validate_chain_iff :
        (token : String) (required : Option Capability)
        → (validate_chain codec tokens now root revocations token required ≡ passed tt)
          ↔ ((l : IsLevel (IsChain 16) token) × Satisfies l.claims required)
    unfolding validate_chain
    validate_chain_iff token required = validate_iff 17 token required
