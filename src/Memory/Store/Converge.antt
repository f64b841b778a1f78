-- ===== src/Memory/Store/Converge.antt =====
-- Replicas of MemoryStore that receive entries from each other.
use ariesmesh.Prelude.{
  In, ◌≡◌, ◌⊎◌, inl, inr, refl, sym, ◌∙◌, ap, String, true, false, Option, none, some, List, [],
  ◌∷◌, arith, str_eq, eq_iff, if◌then◌else◌, Bool-cases, Option-cases,
}
use ariesmesh.Memory.Key.{normalize_key}
use ariesmesh.Memory.Entry.{Entry, supersedes}
use ariesmesh.Memory.Entry.Order.{
  supersedes_irrefl, supersedes_total, supersedes_asymm, not_supersedes_trans,
}
use ariesmesh.Memory.Store.{Store, lookup, merge_entry}
use ariesmesh.Memory.Sync.{deliver}
use ariesmesh.Memory.Store.Registers.{join, lookup-merge_entry}

some_inj : {A : Type 0} {a b : A} → some a ≡ some b → a ≡ b
some_inj h = cc

module _ {V : Type 0} where
  abbrev challenge : String → Option (Entry V) → String → Entry V → Option (Entry V)
  challenge j acc k e = if str_eq (normalize_key k) j then some (join acc e) else acc

  unfoldable pub winner : String → Option (Entry V) → List (String × Entry V) → Option (Entry V)
  winner j acc [] = acc
  winner j acc ((k, e) ∷ us) = winner j (challenge j acc k e) us

  join_old : (a e : Entry V) → supersedes a (join (some a) e) ≡ false
  join_old a e = ground (arith, supersedes_irrefl a, supersedes_asymm e a)

  join_new : (acc : Option (Entry V)) (e : Entry V) → supersedes e (join acc e) ≡ false
  join_new none e = supersedes_irrefl e
  join_new (some a) e = ground (arith, supersedes_irrefl e)

  pub winner-some :
      (j : String) (a : Entry V) (us : List (String × Entry V))
      → (w : Entry V) × (winner j (some a) us ≡ some w) × (supersedes a w ≡ false)
  unfolding winner
  winner-some j a [] = (a, refl, supersedes_irrefl a)
  winner-some j a ((k, e) ∷ us) = elim (Bool-cases (str_eq (normalize_key k) j)) [
    | inl hit ↦
        let (w, p, q) = winner-some j (join (some a) e) us in
        rw hit (w, p, not_supersedes_trans a (join (some a) e) w (join_old a e) q)
    | inr miss ↦ rw miss (winner-some j a us)
  ]

  -- Every entry of the key is at most the winner.
  pub winner_ge :
      (j k : String) (acc : Option (Entry V)) (e : Entry V) (us : List (String × Entry V))
      → In (k, e) us
      → normalize_key k ≡ j
      → (w : Entry V) × (winner j acc us ≡ some w) × (supersedes e w ≡ false)
  unfolding winner
  winner_ge j k acc e [] m h = absurd m
  winner_ge j k acc e ((k', e') ∷ us) (inl same) h =
      let pk : k ≡ k' = ap (λ (t : String × Entry V). t.0) same in
      let pe : e ≡ e' = ap (λ (t : String × Entry V). t.1) same in
      let hit : str_eq (normalize_key k') j ≡ true = (eq_iff (normalize_key k') j).1 (rw pk at h) in
      let (w, p, q) = winner-some j (join acc e') us in
      rw (hit, pe) (w, p, not_supersedes_trans e' (join acc e') w (join_new acc e') q)
  winner_ge j k acc e ((k', e') ∷ us) (inr m) h = winner_ge j k (challenge j acc k' e') e us m h

  join_from :
      (acc : Option (Entry V)) (e w : Entry V)
      → some (join acc e) ≡ some w
      → (acc ≡ some w) ⊎ (e ≡ w)
  join_from none e w h = inr (some_inj h)
  join_from (some a) e w h = elim (Bool-cases (supersedes e a)) [
    | inl new ↦ inr (some_inj (rw (new, if◌then◌else◌) at h))
    | inr old ↦ inl (rw (old, if◌then◌else◌) at h)
  ]

  -- The winner is the entry that was there, or one that was delivered for the key.
  winner_from :
      (j : String) (acc : Option (Entry V)) (us : List (String × Entry V)) (w : Entry V)
      → winner j acc us ≡ some w
      → (acc ≡ some w) ⊎ ((k : String) × In (k, w) us × (normalize_key k ≡ j))
  unfolding winner
  winner_from j acc [] w h = inl h
  winner_from j acc ((k, e) ∷ us) w h = elim (winner_from j (challenge j acc k e) us w h) [
    | inr (k', m, p) ↦ inr (k', inr m, p)
    | inl at ↦ elim (Bool-cases (str_eq (normalize_key k) j)) [
      | inr miss ↦ inl (rw (miss, if◌then◌else◌) at at)
      | inl hit ↦ elim (join_from acc e w (rw (hit, if◌then◌else◌) at at)) [
        | inl old ↦ inl old
        | inr new ↦ inr (k, inl (λ i. (k, sym new i)), (eq_iff (normalize_key k) j).0 hit)
      ]
    ]
  ]

  -- Among the entries of one key a timestamp and a device determine the entry: a device stamps no two
  -- writes of a key alike.
  abbrev pub Coherent : List (String × Entry V) → Type 0
  Coherent us =
      (k k' : String) (e e' : Entry V)
      → In (k, e) us
      → In (k', e') us
      → normalize_key k ≡ normalize_key k'
      → e.timestamp ≡ e'.timestamp
      → e.device_did ≡ e'.device_did
      → e ≡ e'

  -- The two lists have the same members.
  abbrev pub SameMembers : List (String × Entry V) → List (String × Entry V) → Type 0
  SameMembers us vs =
      ((k : String) (e : Entry V) → In (k, e) us → In (k, e) vs)
      × ((k : String) (e : Entry V) → In (k, e) vs → In (k, e) us)

  from_empty :
      (j : String) (us : List (String × Entry V)) (w : Entry V)
      → winner j none us ≡ some w
      → (k : String) × In (k, w) us × (normalize_key k ≡ j)
  from_empty j us w h = elim (winner_from j none us w h) [ inl old ↦ cc | inr found ↦ found ]

  winner-none :
      (j : String) (us vs : List (String × Entry V)) (w : Entry V)
      → ((k : String) (e : Entry V) → In (k, e) vs → In (k, e) us)
      → winner j none us ≡ none
      → winner j none vs ≡ some w
      → ⊥
  winner-none j us vs w sub n h =
      let (k, m, p) = from_empty j vs w h in
      let (x, q, r) = winner_ge j k none w us (sub k w m) p in cc (q, n)

  winner_le :
      (j : String) (us vs : List (String × Entry V)) (v w : Entry V)
      → ((k : String) (e : Entry V) → In (k, e) us → In (k, e) vs)
      → winner j none us ≡ some v
      → winner j none vs ≡ some w
      → supersedes v w ≡ false
  winner_le j us vs v w sub hv hw =
      let (k, m, p) = from_empty j us v hv in
      let (x, q, r) = winner_ge j k none v vs (sub k v m) p in
      let same : x ≡ w = some_inj (sym q ∙ hw) in rw same at r

  winner_same :
      (j : String) (us vs : List (String × Entry V))
      → Coherent us
      → SameMembers us vs
      → winner j none us ≡ winner j none vs
  winner_same j us vs one (to, from) = elim (Option-cases (winner j none us)) [
    | inl n ↦ elim (Option-cases (winner j none vs)) [
      | inl m ↦ n ∙ sym m
      | inr (w, h) ↦ absurd (winner-none j us vs w from n h)
    ]
    | inr (v, hv) ↦ elim (Option-cases (winner j none vs)) [
      | inl m ↦ absurd (winner-none j vs us v to m hv)
      | inr (w, hw) ↦
          let (t, d) =
            supersedes_total v w (winner_le j us vs v w to hv hw)
              (winner_le j vs us w v from hw hv) in
          let (k, m, p) = from_empty j us v hv in
          let (k', m', p') = from_empty j vs w hw in
          let same : v ≡ w = one k k' v w m (from k' w m') (p ∙ sym p') t d in
          hv ∙ (ap some same ∙ sym hw)
    ]
  ]

module _ {V P : Type 0} where
  pub lookup-deliver :
      (j : String) (us : List (String × Entry V)) (s : Store V P)
      → lookup j (deliver s us).registers ≡ winner j (lookup j s.registers) us
  unfolding deliver winner
  lookup-deliver j [] s = refl
  lookup-deliver j ((k, e) ∷ us) s =
      lookup-deliver j us (merge_entry k e s).1 ∙ ap (λ o. winner j o us) step
    where
      step : lookup j (merge_entry k e s).1.registers ≡ challenge j (lookup j s.registers) k e
      step = ground (arith, lookup-merge_entry k j e s, eq_iff (normalize_key k) j)

  -- Two replicas without registers, of any devices, that receive the same entries, in any order and
  -- with any repetitions, have the same register at every key, provided that among the entries of one
  -- key a timestamp and a device determine the entry.
  pub convergence :
      (s t : Store V P) (us vs : List (String × Entry V)) (j : String)
      → s.registers ≡ []
      → t.registers ≡ []
      → Coherent us
      → SameMembers us vs
      → lookup j (deliver s us).registers ≡ lookup j (deliver t vs).registers
  unfolding lookup
  convergence s t us vs j hs ht one same =
      lookup-deliver j us s
      ∙ (ap (λ r. winner j (lookup j r) us) hs
          ∙ (winner_same j us vs one same
              ∙ (ap (λ r. winner j (lookup j r) vs) (sym ht) ∙ sym (lookup-deliver j vs t))))
