-- ===== src/Identity/Ucan/Chain.antt =====
-- `_validate_chain`, and the chains that it accepts.
use ariesmesh.Prelude.{
  contains, ℕ, zero, suc, String, Bool, not, ◌||◌, Option, none, some, List, [], ◌∷◌, str_eq, any,
  all,
}
use ariesmesh.Dict.{lookup}
use ariesmesh.Memory.Acl.{Capability}
use ariesmesh.Identity.Ucan.{
  is_attenuated_by, Token, is_expired, is_active, Codec, too_deep, token_expired, not_yet_active,
  revoked, not_satisfied, wrong_root, missing_proof, wrong_audience, not_attenuated, Checked,
  passed, raised, ◌>>=◌, ◌>>◌, require, or_raise, decode, verify,
}

-- `any(c.is_attenuated_by(p) for p in parents)`
unfoldable pub is_covered : List Capability → Capability → Bool
unfolding is_attenuated_by
is_covered parents c = any (λ p. is_attenuated_by c p) parents

-- the tests on a verified token, in their order
unfoldable pub check_token : ℕ → List String → Token → Option Capability → Checked (Unit {0})
unfolding is_active contains is_covered
check_token now revocations u required = do
  require (is_active now u || not (is_expired now u)) token_expired
  require (is_active now u) not_yet_active
  require (not (contains u.issuer revocations)) revoked
  require (not (contains u.audience revocations)) revoked
  elim required [ none ↦ passed tt | some c ↦ require (is_covered u.capabilities c) not_satisfied ]

-- the tests on a proof of a token
unfoldable pub check_link : Token → Token → Checked (Unit {0})
unfolding is_covered
check_link u p = do
  require (str_eq p.audience u.issuer) wrong_audience
  require (all (is_covered p.capabilities) u.capabilities) not_attenuated

module _ (codec : Codec) (tokens : List (String × String)) where
  -- The loop over the proofs; `next` is the recursive call.
  unfoldable pub check_proofs :
      (String → Checked (Unit {0})) → Token → List String → Checked (Unit {0})
  unfolding check_link lookup decode
  check_proofs next u [] = passed tt
  check_proofs next u (id ∷ rest) =
      let later = check_proofs next u rest in
      do
        s ← or_raise (lookup id tokens) missing_proof
        p ← decode codec s
        check_link u p
        next s
        later

  -- the end of a chain, or its proofs
  unfoldable pub check_source :
      String → (String → Checked (Unit {0})) → Token → List String → Checked (Unit {0})
  unfolding check_proofs
  check_source root next u [] = require (str_eq u.issuer root) wrong_root
  check_source root next u (id ∷ rest) = check_proofs next u (id ∷ rest)

  module _ (now : ℕ) (root : String) (revocations : List String) where
    -- `_validate_chain`, on the number of levels that are left below the limit
    unfoldable pub validate : ℕ → String → Option Capability → Checked (Unit {0})
    unfolding check_token check_source verify
    validate zero token required = raised too_deep
    validate (suc levels) token required = do
      u ← verify codec token
      check_token now revocations u required
      check_source root (λ s. validate levels s none) u u.proofs

    -- `validate_chain`: the depths 0 to 16
    unfoldable pub validate_chain : String → Option Capability → Checked (Unit {0})
    unfolding validate
    validate_chain token required = validate 17 token required
