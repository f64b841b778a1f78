-- ===== src/Memory/Service/Round.antt =====
-- A round of the protocol between two replicas.
use ariesmesh.Prelude.{
  ℕ, ◌≡◌, refl, sym, String, true, false, ◌&&◌, ◌||◌, Option, none, some, List, [], ◌∷◌, arith,
  eq_iff, eq_refl, Bool-cases, inl, inr, if◌then◌else◌,
}
use ariesmesh.Dict.{lookup}
use ariesmesh.Memory.Acl.{Capability}
use ariesmesh.Memory.Entry.{Entry, is_expired, supersedes}
use ariesmesh.Memory.Entry.Order.{supersedes_total}
use ariesmesh.Memory.Log.{LogEntry}
use ariesmesh.Memory.Store.{Store, merge_entry, merge_log}
use ariesmesh.Memory.Sync.{
  stamp_of, is_news, Diff, get_sync_state, compute_diff, deliver, deliver_logs, apply_diff,
}
use ariesmesh.Memory.Valid.{IsValid, Reach}
use ariesmesh.Memory.Valid.Kept.{merge_entry-IsValid, merge_log-IsValid}
use ariesmesh.Memory.Valid.Reached.{Reach-IsValid}
use ariesmesh.Memory.Service.{no_diff, is_nonempty, receive, update, handle, round}
use ariesmesh.Memory.Service.Exchange.{told, sent, lookup-exchange}

module _ {V P : Type 0} where
  deliver-IsValid :
      (us : List (String × Entry V)) (s : Store V P) → IsValid s → IsValid (deliver s us)
  unfolding deliver
  deliver-IsValid [] s v = v
  deliver-IsValid ((k, e) ∷ us) s v =
      deliver-IsValid us (merge_entry k e s).1 (merge_entry-IsValid k e s v)

  deliver_logs-IsValid :
      (ls : List (String × List (LogEntry P))) (s : Store V P)
      → IsValid s
      → IsValid (deliver_logs s ls)
  unfolding deliver_logs
  deliver_logs-IsValid [] s v = v
  deliver_logs-IsValid ((k, l) ∷ ls) s v =
      deliver_logs-IsValid ls (merge_log k l s) (merge_log-IsValid k l s v)

  pub apply_diff-IsValid : (d : Diff V P) (s : Store V P) → IsValid s → IsValid (apply_diff d s)
  apply_diff-IsValid d s v =
      deliver_logs-IsValid d.logs (deliver s d.registers) (deliver-IsValid d.registers s v)

  apply_no_diff : (s : Store V P) → apply_diff no_diff s ≡ s
  unfolding deliver deliver_logs
  apply_no_diff s = refl

  apply_empty :
      (us : List (String × Entry V)) (ls : List (String × List (LogEntry P))) (s : Store V P)
      → is_nonempty us || is_nonempty ls ≡ false
      → deliver_logs (deliver s us) ls ≡ s
  unfolding deliver deliver_logs
  apply_empty [] [] s h = refl
  apply_empty [] (l ∷ ls) s h = cc
  apply_empty (u ∷ us) ls s h = cc

  -- An update that is not sent would change nothing.
  apply_news :
      (now : ℕ) (d : Diff V P) (t : Store V P)
      → (receive now t
          (if is_nonempty d.registers || is_nonempty d.logs then some (update d) else none)).0
        ≡ apply_diff d t
  unfolding handle
  apply_news now d t = elim (Bool-cases (is_nonempty d.registers || is_nonempty d.logs)) [
    | inl news ↦ rw (news, if◌then◌else◌)
    | inr quiet ↦ rw (quiet, if◌then◌else◌) (sym (apply_empty d.registers d.logs t quiet))
  ]

  -- The first replica gets the difference of the second, and then the second that of the first.
  pub round_lem :
      (now : ℕ) (s t : Store V P)
      → let s' = apply_diff (compute_diff now (get_sync_state now s) t) s in
        round now s t ≡ (s', apply_diff (compute_diff now (get_sync_state now t) s') t)
  unfolding round deliver deliver_logs
  round_lem now s t =
      let s' = apply_diff (compute_diff now (get_sync_state now s) t) s in
      λ i. (s', apply_news now (compute_diff now (get_sync_state now t) s') t i)

module _ {V : Type 0} where
  abbrev pub IsLive : ℕ → Option (Entry V) → Type 0
  IsLive now none = Unit
  IsLive now (some e) = is_expired now e ≡ false

  -- The two replicas have no entry, or entries with one timestamp and one hash of the value.
  abbrev pub Agree : Option (Entry V) → Option (Entry V) → Type 0
  Agree none none = Unit
  Agree none (some b) = ⊥
  Agree (some a) none = ⊥
  Agree (some a) (some b) = (a.timestamp ≡ b.timestamp) × (a.content_hash ≡ b.content_hash)

  -- A device does not stamp two values alike.
  abbrev pub SameStampSameHash : Option (Entry V) → Option (Entry V) → Type 0
  SameStampSameHash none b = Unit
  SameStampSameHash (some a) none = Unit
  SameStampSameHash (some a) (some b) =
      a.timestamp ≡ b.timestamp → a.device_did ≡ b.device_did → a.content_hash ≡ b.content_hash

  -- The stamps and hashes of an entry that stays, and of one that is not sent back.
  not_news :
      (a b : Entry V)
      → is_news (some (stamp_of b)) a ≡ false
      → is_news (some (stamp_of a)) b && supersedes b a ≡ false
      → (a.timestamp ≡ b.timestamp) × (a.content_hash ≡ b.content_hash)
  unfolding is_news supersedes
  not_news a b h k =
      ground (arith, eq_iff a.content_hash b.content_hash, eq_iff b.content_hash a.content_hash)

  same_time :
      (a b : Entry V)
      → supersedes a b ≡ false
      → is_news (some (stamp_of b)) a ≡ true
      → a.timestamp ≡ b.timestamp
  unfolding is_news supersedes
  same_time a b h n = ground arith

  same_hash :
      (a b : Entry V)
      → a.timestamp ≡ b.timestamp
      → is_news (some (stamp_of a)) b ≡ false
      → a.content_hash ≡ b.content_hash
  unfolding is_news
  same_hash a b t h = ground (arith, eq_iff b.content_hash a.content_hash)

  -- Entries of which neither replaces the other.
  same_stamp :
      (a b : Entry V)
      → SameStampSameHash (some a) (some b)
      → supersedes a b ≡ false
      → is_news (some (stamp_of b)) a ≡ true
      → is_news (some (stamp_of a)) b && supersedes b a ≡ false
      → (a.timestamp ≡ b.timestamp) × (a.content_hash ≡ b.content_hash)
  same_stamp a b one h n k =
      let t = same_time a b h n in
      (
        t,
        elim (Bool-cases (supersedes b a)) [
          | inl wins ↦ same_hash a b t (ground arith)
          | inr loses ↦ let d = (supersedes_total a b h loses).1 in one t d
        ],
      )

  -- The second replica, when the first has kept its entry.
  kept-Agree :
      (now : ℕ) (a b : Entry V)
      → is_expired now a ≡ false
      → SameStampSameHash (some a) (some b)
      → is_news (some (stamp_of a)) b && supersedes b a ≡ false
      → Agree (some a) (sent now (some (stamp_of b)) (some b) (some a))
  kept-Agree now a b la one k = elim (Bool-cases (is_news (some (stamp_of b)) a)) [
    | inr old ↦ rw (la, old, if◌then◌else◌) (not_news a b old k)
    | inl new ↦ elim (Bool-cases (supersedes a b)) [
      | inl wins ↦ rw (la, new, wins, if◌then◌else◌) (refl, refl)
      | inr loses ↦ rw (la, new, loses, if◌then◌else◌) (same_stamp a b one loses new k)
    ]
  ]

  own-Agree :
      (now : ℕ) (b : Entry V)
      → is_expired now b ≡ false
      → Agree (some b) (sent now (some (stamp_of b)) (some b) (some b))
  unfolding is_news
  own-Agree now b lb = ground (arith, lb, eq_refl b.content_hash)

  sent-Agree :
      (now : ℕ) (a b : Option (Entry V))
      → IsLive now a
      → IsLive now b
      → SameStampSameHash a b
      → let c = sent now (told now a) a b in Agree c (sent now (told now b) b c)
  unfolding is_news
  sent-Agree now none none la lb one = tt
  sent-Agree now none (some b) la lb one = ground (arith, la, lb, eq_refl b.content_hash)
  sent-Agree now (some a) none la lb one = ground (arith, la, lb, eq_refl a.content_hash)
  sent-Agree now (some a) (some b) la lb one = elim (Bool-cases (is_news (some (stamp_of a)) b)) [
    | inr old ↦ rw (la, lb, old, if◌then◌else◌) (kept-Agree now a b la one (ground arith))
    | inl new ↦ elim (Bool-cases (supersedes b a)) [
      | inl wins ↦ rw (la, lb, new, wins, if◌then◌else◌) (own-Agree now b lb)
      | inr loses ↦
          rw (la, lb, new, loses, if◌then◌else◌) (kept-Agree now a b la one (ground arith))
    ]
  ]

module _ {V P : Type 0} (hash : Option V → String)
    (decode : String → Option (List Capability)) where
  -- Take two devices that started without a file, and have written, read, merged, and restarted from files that
  -- they had saved themselves. A round of the protocol reconciles their stores: at every key, if no entry there
  -- is expired and the two devices do not hold different values under one timestamp and one device, both
  -- replicas end up without an entry, or with entries of one timestamp and one hash of the value.
  pub round_agrees :
      (now : ℕ) (s t : Store V P) (k : String)
      → Reach hash decode s
      → Reach hash decode t
      → IsLive now (lookup k s.registers)
      → IsLive now (lookup k t.registers)
      → SameStampSameHash (lookup k s.registers) (lookup k t.registers)
      → Agree (lookup k (round now s t).0.registers) (lookup k (round now s t).1.registers)
  round_agrees now s t k rs rt ls lt one =
      let vs = Reach-IsValid hash decode rs in
      let vt = Reach-IsValid hash decode rt in
      let s' : Store V P = apply_diff (compute_diff now (get_sync_state now s) t) s in
      let vs' = apply_diff-IsValid (compute_diff now (get_sync_state now s) t) s vs in
      let first = lookup-exchange now t s k vt.canonical vt.unique_registers vs.unique_registers in
      let second =
        lookup-exchange now s' t k vs'.canonical vs'.unique_registers vt.unique_registers in
      rw (round_lem now s t, second, first)
        (sent-Agree now (lookup k s.registers) (lookup k t.registers) ls lt one)
