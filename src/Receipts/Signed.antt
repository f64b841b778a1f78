-- ===== src/Receipts/Signed.antt =====
-- What `add` does to a verified chain.
use mathlib.Core.List.{◌++◌}
use ariesmesh.Prelude.{
  ◌≡◌, refl, ap, ◌∙◌, sym, inl, inr, ℕ, String, Bool, true, false, Option, none, some, List, [],
  ◌∷◌, length, str_eq, eq_iff, eq_refl, Bool-cases, All,
}
use ariesmesh.Identity.Did.{public_key_to_did, did_to_public_key}
use ariesmesh.Identity.Did.Bytes.{IsByte}
use ariesmesh.Identity.Did.RoundTrip.{did_to_public_key-public_key_to_did}
use ariesmesh.Receipts.{
  Receipt, Signing, last?, content_hash, link, sign, add, is_linked, verify, and_then, verify_from,
  verify_chain,
}
use ariesmesh.Receipts.Tamper.{verify_from-cons}

and_then_unit : (b : Bool) → and_then (some b) (some true) ≡ some b
and_then_unit true = refl
and_then_unit false = refl

same_some : (a b : String) → Path (Option String) (some a) (some b) → a ≡ b
same_some a b h = cc

module _ {F : Type 0} (lib : Signing F) where
  -- the receipt before the end of a list, which is `prev` where it is empty
  abbrev end_of : Option (Receipt F) → List (Receipt F) → Option (Receipt F)
  end_of prev [] = prev
  end_of prev (r ∷ l) = end_of (some r) l

  end_of_lem : (r : Receipt F) (l : List (Receipt F)) → end_of (some r) l ≡ last? (r ∷ l)
  end_of_lem r [] = refl
  end_of_lem r (s ∷ l) = end_of_lem s l

  end_of-none : (l : List (Receipt F)) → end_of none l ≡ last? l
  end_of-none [] = refl
  end_of-none (r ∷ l) = end_of_lem r l

  verify_from-append :
      (prev : Option (Receipt F)) (l : List (Receipt F)) (r : Receipt F)
      → verify_from lib prev l ≡ some true
      → verify_from lib prev (l ++ (r ∷ []))
        ≡ and_then (verify lib r) (some (is_linked lib (end_of prev l) r))
  unfolding verify_from
  verify_from-append prev [] r h =
      ap (and_then (verify lib r)) (and_then_unit (is_linked lib prev r))
  verify_from-append prev (s ∷ l) r h =
      let (a, b, c) = verify_from-cons lib prev s l h in
      rw (a, b) (verify_from-append (some s) l r c)

  is_linked-link :
      (prev : Option (Receipt F)) (r : Receipt F) → is_linked lib prev (link lib prev r) ≡ true
  unfolding is_linked link
  is_linked-link none r = refl
  is_linked-link (some p) r = rw (eq_refl p.content.id, eq_refl (content_hash lib p)) refl

-- The identifier of a key is not empty and gives the key back.
did_of_key :
    (pk : List ℕ) (did : String)
    → length pk ≡ 32
    → All IsByte pk
    → public_key_to_did pk ≡ some did
    → did_to_public_key did ≡ some pk
did_of_key pk did n bytes h =
    let (did', e, back) = did_to_public_key-public_key_to_did pk n bytes in
    rw (same_some did did' (sym h ∙ e)) back

no_key : (did : String) (pk : List ℕ) → did_to_public_key did ≡ some pk → str_eq did "" ≡ false
unfolding did_to_public_key
no_key did pk h = elim (Bool-cases (str_eq did "")) [
  | inl e ↦ cc (rw ((eq_iff did "").0 e) at h)
  | inr e ↦ e
]

module _ {F : Type 0} (lib : Signing F) where
  open lib use {KeyPair, public_bytes, canonical_json, sign_hex, verify_hex}

  module _ (keypair : KeyPair) (signer_did : String)
      (signed : (text : String) → str_eq (sign_hex keypair text) "" ≡ false)
      (accepted : (text : String)
        → verify_hex (public_bytes keypair) text (sign_hex keypair text) ≡ some true) where
    verify-sign :
        did_to_public_key signer_did ≡ some (public_bytes keypair)
        → (r : Receipt F) → verify lib (sign lib keypair signer_did r) ≡ some true
    unfolding verify sign
    verify-sign h r =
        rw (signed (canonical_json r.content), no_key signer_did (public_bytes keypair) h, h)
          (accepted (canonical_json r.content))

    is_linked-sign :
        (prev : Option (Receipt F)) (r : Receipt F)
        → is_linked lib prev (sign lib keypair signer_did r) ≡ is_linked lib prev r
    unfolding is_linked sign
    is_linked-sign none r = refl
    is_linked-sign (some p) r = refl

    -- A receipt that is added with a key pair and the identifier of its public key keeps a verified chain verified, where
    -- the signatures that the key pair makes are not empty and the library accepts them.
    pub verify_chain-add :
        length (public_bytes keypair) ≡ 32
        → All IsByte (public_bytes keypair)
        → public_key_to_did (public_bytes keypair) ≡ some signer_did
        → (r : Receipt F) (receipts : List (Receipt F)) → verify_chain lib receipts ≡ some true
        → verify_chain lib (add lib (some (keypair, signer_did)) r receipts) ≡ some true
    unfolding verify_chain add
    verify_chain-add n bytes h r receipts k =
        let new = link lib (last? receipts) r in
        verify_from-append lib none receipts (sign lib keypair signer_did new) k
        ∙ (λ i.
            and_then (verify-sign (did_of_key (public_bytes keypair) signer_did n bytes h) new i)
              (some (is_linked lib (end_of-none lib receipts i) (sign lib keypair signer_did new))))
        ∙ ap some (is_linked-sign (last? receipts) new ∙ is_linked-link lib (last? receipts) r)
