-- ===== src/Receipts/Tamper.antt =====
-- What a verified chain of receipts fixes.
use ariesmesh.Prelude.{
  ◌≡◌, refl, ap, ◌∙◌, sym, inl, inr, String, Bool, true, false, ◌&&◌, Option, none, some, List, [],
  ◌∷◌, In, map, length, eq_iff, arith,
}
use ariesmesh.Receipts.{
  Content, Receipt, Signing, opt_eq, content_hash, is_linked, verify, and_then, verify_from,
  verify_chain,
}

opt_eq-eq : (o : Option String) (s : String) → opt_eq o s ≡ true → o ≡ some s
opt_eq-eq none s h = cc
opt_eq-eq (some t) s h = ap some ((eq_iff t s).0 h)

and_then-true : (a b : Option Bool) → and_then a b ≡ some true → (a ≡ some true) × (b ≡ some true)
and_then-true none b h = cc
and_then-true (some false) b h = cc
and_then-true (some true) b h = (refl, h)

some_injective : (a b : String) → (p : Path (Option String) (some a) (some b)) → a ≡ b
some_injective a b p = cc

and_true : (a b : Bool) → (a && b) ≡ true → (a ≡ true) × (b ≡ true)
and_true true b h = (refl, h)
and_true false b h = cc

some_bool : (b : Bool) → Path (Option Bool) (some b) (some true) → b ≡ true
some_bool true h = refl
some_bool false h = cc

module _ {F : Type 0} (lib : Signing F) where
  abbrev pub content_of : Receipt F → Content F
  content_of r = r.content

  -- the last receipt of a chain that begins with `p`
  abbrev pub final : Receipt F → List (Receipt F) → Receipt F
  final p [] = p
  final p (r ∷ l) = final r l

  hash_linked :
      (prev r : Receipt F)
      → is_linked lib (some prev) r ≡ true
      → r.content.previous_receipt_hash ≡ some (content_hash lib prev)
  unfolding is_linked
  hash_linked prev r h =
      opt_eq-eq r.content.previous_receipt_hash (content_hash lib prev)
        ((and_true (opt_eq r.content.previous_receipt_id prev.content.id) _ h).1)

  -- A verified chain begins with a good and linked receipt, and its rest is verified.
  pub verify_from-cons :
      (prev : Option (Receipt F)) (r : Receipt F) (l : List (Receipt F))
      → verify_from lib prev (r ∷ l) ≡ some true
      → (verify lib r ≡ some true)
        × (is_linked lib prev r ≡ true)
        × (verify_from lib (some r) l ≡ some true)
  unfolding verify_from
  verify_from-cons prev r l h =
      let (a, k) = and_then-true (verify lib r) _ h in
      let (b, c) = and_then-true (some (is_linked lib prev r)) _ k in
      (a, some_bool (is_linked lib prev r) b, c)

  -- No receipt of the one chain has the digest of a different content of the other.
  abbrev pub NoCollision : List (Receipt F) → List (Receipt F) → Type 0
  NoCollision l m =
      (a b : Receipt F)
      → In a l
      → In b m
      → content_hash lib a ≡ content_hash lib b
      → content_of a ≡ content_of b

  -- Equal receipts behind two others fix the digests of these.
  hashes_back :
      (p q r s : Receipt F)
      → is_linked lib (some p) r ≡ true
      → is_linked lib (some q) s ≡ true
      → content_of r ≡ content_of s
      → content_hash lib p ≡ content_hash lib q
  hashes_back p q r s h k e =
      some_injective _ _
        (sym (hash_linked p r h) ∙ ap (λ c. c.previous_receipt_hash) e ∙ hash_linked q s k)

  contents_from :
      (p q : Receipt F) (l m : List (Receipt F))
      → length l ≡ length m
      → verify_from lib (some p) l ≡ some true
      → verify_from lib (some q) m ≡ some true
      → NoCollision (p ∷ l) (q ∷ m)
      → content_of (final p l) ≡ content_of (final q m)
      → (content_of p ≡ content_of q) × (map content_of l ≡ map content_of m)
  contents_from p q [] [] n h k no_clash e = (e, refl)
  contents_from p q [] (s ∷ m) n h k no_clash e = absurd (omega (arith, n))
  contents_from p q (r ∷ l) [] n h k no_clash e = absurd (omega (arith, n))
  contents_from p q (r ∷ l) (s ∷ m) n h k no_clash e =
      let (a, b, c) = verify_from-cons (some p) r l h in
      let (a', b', c') = verify_from-cons (some q) s m k in
      let (f, g) =
        contents_from r s l m (omega (arith, n)) c c' (λ x y i j d. no_clash x y (inr i) (inr j) d)
          e in
      (no_clash p q (inl refl) (inl refl) (hashes_back p q r s b b' f), λ i. f i ∷ g i)

  -- Two verified chains of the same length with the same last content have the same contents throughout, if no receipt
  -- of the one has the digest of a different content of the other.
  pub verify_chain-content_of :
      (p q : Receipt F) (l m : List (Receipt F))
      → length l ≡ length m
      → verify_chain lib (p ∷ l) ≡ some true
      → verify_chain lib (q ∷ m) ≡ some true
      → NoCollision (p ∷ l) (q ∷ m)
      → content_of (final p l) ≡ content_of (final q m)
      → map content_of (p ∷ l) ≡ map content_of (q ∷ m)
  unfolding verify_chain
  verify_chain-content_of p q l m n h k no_clash e =
      let (a, b, c) = verify_from-cons none p l h in
      let (a', b', c') = verify_from-cons none q m k in
      let (f, g) = contents_from p q l m n c c' no_clash e in λ i. f i ∷ g i
