-- ===== src/Receipts/Tests.antt =====
-- The theorems on receipts at concrete inputs.
use ariesmesh.Prelude.{
  ℕ, ◌≡◌, refl, sym, ◌∙◌, ap, inl, inr, eq_refl, String, Bool, true, false, Option, none, some,
  List, [], ◌∷◌, map, all, leb, All, str_eq, if◌then◌else◌, Bool-cases, eq_iff, arith, ◌<◌,
}
use ariesmesh.Identity.Did.{public_key_to_did}
use ariesmesh.Receipts.{Receipt, Signing, content_hash, add, verify_chain}
use ariesmesh.Receipts.Tamper.{content_of, NoCollision, verify_chain-content_of}
use ariesmesh.Receipts.Signed.{verify_chain-add}

abbrev receipt : String → Receipt ℕ
receipt id = record {
  content = record {
    task_id = "t";
    device_did = "";
    agent_did = "";
    action = "invoke";
    status = "success";
    model_used = "";
    tokens_used = 0;
    latency_ms = 0;
    input_hash = "";
    output_hash = "";
    summary = "";
    continuation_id = none;
    previous_receipt_id = none;
    previous_receipt_hash = none;
    started_at = 0;
    completed_at = 0;
    id = id;
  };
  signature = "";
  signed_by = "";
}

abbrev a_key : List ℕ
a_key =
    0 ∷ 1 ∷ 2 ∷ 3 ∷ 4 ∷ 5 ∷ 6 ∷ 7 ∷ 8 ∷ 9 ∷ 10 ∷ 11 ∷ 12 ∷ 13 ∷ 14 ∷ 255 ∷ 16 ∷ 17 ∷ 18 ∷ 19 ∷ 20
    ∷ 21 ∷ 22 ∷ 23 ∷ 24 ∷ 25 ∷ 26 ∷ 27 ∷ 28 ∷ 29 ∷ 30 ∷ 31 ∷ []

-- A signature repeats the text that it signs.
abbrev repeated : String → String
repeated t = if str_eq t "" then "e" else t

abbrev plain : Signing ℕ
plain = record {
  KeyPair = List ℕ;
  public_bytes = λ k. k;
  canonical_json = λ c. c.id;
  sha256 = λ t. t;
  sign_hex = λ k t. repeated t;
  verify_hex = λ k t s. some (str_eq s (repeated t));
}

abbrev signer : String
signer = "did:key:z6MkeTGwHmLmuCmgg4ABYhzWXwuSALP5YapG82bSVaxHDvd4"

abbrev other_signer : String
other_signer = "did:key:z6Mkevh7bMWWUda468bFjfFGtDxLXgkG8L46bsaXEwHD9Z3L"

signer_of : public_key_to_did a_key ≡ some signer
unfolding public_key_to_did
signer_of = refl

all_bytes : (l : List ℕ) → all (λ b. leb b 255) l ≡ true → All (λ b. b < 256) l
all_bytes [] h = tt
all_bytes (b ∷ l) h = (ground (arith, h), all_bytes l (ground (arith, h)))

repeated_some : (t : String) → str_eq (repeated t) "" ≡ false
repeated_some t = elim (Bool-cases (str_eq t "")) [
  | inl e ↦ rw (e, if◌then◌else◌) refl
  | inr e ↦ rw (e, if◌then◌else◌) e
]

repeated_accepted :
    (t : String) → Path (Option Bool) (some (str_eq (repeated t) (repeated t))) (some true)
repeated_accepted t = ap some (eq_refl (repeated t))

abbrev one : List (Receipt ℕ)
one = add plain (some (a_key, signer)) (receipt "1") []

one_verified : verify_chain plain one ≡ some true
unfolding verify_chain add
one_verified = refl

verify_chain-add_example :
    verify_chain plain (add plain (some (a_key, signer)) (receipt "2") one) ≡ some true
verify_chain-add_example =
    verify_chain-add plain a_key signer repeated_some repeated_accepted refl (all_bytes a_key refl)
      signer_of (receipt "2") one one_verified

-- The same two contents under two signers.
abbrev first : String → Receipt ℕ
first did = record (receipt "1") { signature = "1"; signed_by = did }

abbrev second : String → Receipt ℕ
second did = record (receipt "2") {
  content = record ((receipt "2").content) {
    previous_receipt_id = some "1";
    previous_receipt_hash = some "1";
  };
  signature = "2";
  signed_by = did;
}

two_verified : verify_chain plain (first signer ∷ second signer ∷ []) ≡ some true
unfolding verify_chain
two_verified = refl

others_verified : verify_chain plain (first other_signer ∷ second other_signer ∷ []) ≡ some true
unfolding verify_chain
others_verified = refl

abbrev name : Receipt ℕ → String
name r = r.content.id

str_unequal : str_eq "1" "2" ≡ false
str_unequal = refl

one_is_not_two : Path String "1" "2" → ⊥
one_is_not_two h = cc (str_unequal, (eq_iff "1" "2").1 h)

no_collision :
    NoCollision plain
      (first signer ∷ second signer ∷ [])
      (first other_signer ∷ second other_signer ∷ [])
unfolding content_hash
no_collision a b (inl e) (inl f) h = ap (content_of plain) e ∙ sym (ap (content_of plain) f)
no_collision a b (inr (inl e)) (inr (inl f)) h =
    ap (content_of plain) e ∙ sym (ap (content_of plain) f)
no_collision a b (inl e) (inr (inl f)) h = absurd (one_is_not_two (sym (ap name e) ∙ h ∙ ap name f))
no_collision a b (inr (inl e)) (inl f) h =
    absurd (one_is_not_two (sym (ap name f) ∙ sym h ∙ ap name e))
no_collision a b (inr (inr m)) n h = absurd m
no_collision a b (inl m) (inr (inr n)) h = absurd n
no_collision a b (inr (inl m)) (inr (inr n)) h = absurd n

verify_chain-content_of_example :
    map (content_of plain) (first signer ∷ second signer ∷ [])
    ≡ map (content_of plain) (first other_signer ∷ second other_signer ∷ [])
verify_chain-content_of_example =
    verify_chain-content_of plain (first signer) (first other_signer) (second signer ∷ [])
      (second other_signer ∷ []) refl two_verified others_verified no_collision refl
