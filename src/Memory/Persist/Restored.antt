-- ===== src/Memory/Persist/Restored.antt =====
-- What a device has in memory after a restart.
use mathlib.Core.List.{◌++◌, append-nil, append_assoc}
use ariesmesh.Prelude.{
  ◌≡◌, refl, sym, ap, ◌∙◌, ℕ, String, false, Option, none, some, List, [], ◌∷◌, map, All,
  if◌then◌else◌, str_eq, eq_iff, Bool-cases, inl, inr,
}
use ariesmesh.Dict.{lookup, insert}
use ariesmesh.Memory.Entry.{Entry}
use ariesmesh.Memory.Log.{LogEntry}
use ariesmesh.Memory.Store.{Store, Snapshot, empty}
use ariesmesh.Memory.Store.Registers.{Unique}
use ariesmesh.Memory.Persist.{
  to_dict, from_dict, encoded, with_hash, load_registers, load_logs, payload_of, load_payload,
  restart,
}

module _ {V : Type 0} where
  -- A new key goes to the end.
  insert-new :
      (key : String) (v : V) (dict : List (String × V))
      → lookup key dict ≡ none
      → insert key v dict ≡ dict ++ ((key, v) ∷ [])
  unfolding insert lookup
  insert-new key v [] h = refl
  insert-new key v ((name, old) ∷ dict) h = elim (Bool-cases (str_eq name key)) [
    | inl k ↦ cc (rw (k, if◌then◌else◌) at h)
    | inr k ↦
        rw (k, if◌then◌else◌)
          (ap (λ rest. (name, old) ∷ rest) (insert-new key v dict (rw (k, if◌then◌else◌) at h)))
  ]

  lookup-snoc :
      (other key : String) (v : V) (dict : List (String × V))
      → lookup other dict ≡ none
      → str_eq key other ≡ false
      → lookup other (dict ++ ((key, v) ∷ [])) ≡ none
  unfolding lookup
  lookup-snoc other key v [] h k = rw (k, if◌then◌else◌) refl
  lookup-snoc other key v ((name, old) ∷ dict) h k = elim (Bool-cases (str_eq name other)) [
    | inl e ↦ cc (rw (e, if◌then◌else◌) at h)
    | inr e ↦ rw (e, if◌then◌else◌) (lookup-snoc other key v dict (rw (e, if◌then◌else◌) at h) k)
  ]

  -- the keys of `rest` are not in `dict`
  abbrev Fresh : {W : Type 0} → List (String × V) → List (String × W) → Type 0
  Fresh {W = W} dict rest = All (λ (p : String × W). lookup p.0 dict ≡ none) rest

  Fresh-snoc :
      {W : Type 0} (key : String) (v : V) (dict : List (String × V)) (rest : List (String × W))
      → lookup key rest ≡ none
      → Fresh dict rest
      → Fresh (dict ++ ((key, v) ∷ [])) rest
  unfolding lookup
  Fresh-snoc key v dict [] n h = tt
  Fresh-snoc key v dict ((name, old) ∷ rest) n (h, hs) = elim (Bool-cases (str_eq name key)) [
    | inl e ↦ cc (rw (e, if◌then◌else◌) at n)
    | inr e ↦
        let apart : str_eq key name ≡ false = elim (Bool-cases (str_eq key name)) [
          | inl k ↦ cc (e, (eq_iff name key).1 (sym ((eq_iff key name).0 k)))
          | inr k ↦ k
        ] in
        (
          lookup-snoc name key v dict h apart,
          Fresh-snoc key v dict rest (rw (e, if◌then◌else◌) at n) hs,
        )
  ]

Fresh-nil : (V : Type 0) {W : Type 0} (rest : List (String × W)) → Fresh {V = V} [] rest
unfolding lookup
Fresh-nil V [] = tt
Fresh-nil V (p ∷ rest) = (refl, Fresh-nil V rest)

module _ {V : Type 0} where
  abbrev pub hashed : (Option V → String) → List (String × Entry V) → List (String × Entry V)
  hashed hash registers = map (λ (p : String × Entry V). (p.0, with_hash hash p.1)) registers

  decoded :
      (hash : Option V → String) (now : ℕ) (e : Entry V)
      → from_dict hash now (to_dict e) ≡ some (with_hash hash e)
  unfolding from_dict to_dict
  decoded hash now e = refl

  lookup-hashed-none :
      (hash : Option V → String) (key : String) (rest : List (String × Entry V))
      → lookup key rest ≡ none
      → lookup key (hashed hash rest) ≡ none
  unfolding lookup
  lookup-hashed-none hash key [] n = refl
  lookup-hashed-none hash key ((name, e) ∷ rest) n = elim (Bool-cases (str_eq name key)) [
    | inl k ↦ cc (rw (k, if◌then◌else◌) at n)
    | inr k ↦ rw (k, if◌then◌else◌) (lookup-hashed-none hash key rest (rw (k, if◌then◌else◌) at n))
  ]

  load_registers-encoded :
      (hash : Option V → String) (now : ℕ) (rest dict : List (String × Entry V))
      → Unique rest
      → Fresh dict rest
      → load_registers hash now (map encoded rest) dict ≡ dict ++ hashed hash rest
  unfolding load_registers
  load_registers-encoded hash now [] dict u f = sym (append-nil dict)
  load_registers-encoded hash now ((key, e) ∷ rest) dict (n, u) (f, fs) =
      let x = with_hash hash e in
      rw (load_registers, decoded hash now e)
        (ap (load_registers hash now (map encoded rest)) (insert-new key x dict f)
          ∙ load_registers-encoded hash now rest (dict ++ ((key, x) ∷ [])) u
              (Fresh-snoc key x dict rest n fs)
          ∙ append_assoc dict ((key, x) ∷ []) (hashed hash rest))

load_logs-all :
    {P : Type 0} (rest dict : List (String × List (LogEntry P)))
    → Unique rest
    → Fresh dict rest
    → load_logs rest dict ≡ dict ++ rest
unfolding load_logs
load_logs-all [] dict u f = sym (append-nil dict)
load_logs-all ((key, l) ∷ rest) dict (n, u) (f, fs) =
    ap (load_logs rest) (insert-new key l dict f)
    ∙ load_logs-all rest (dict ++ ((key, l) ∷ [])) u (Fresh-snoc key l dict rest n fs)
    ∙ append_assoc dict ((key, l) ∷ []) rest

-- What is loaded from a file without repeated keys.
pub load-payload_of :
    {V P : Type 0} (hash : Option V → String) (now : ℕ) (s : Store V P) (snap : Snapshot V P)
    → s.registers ≡ []
    → s.logs ≡ []
    → Unique snap.registers
    → Unique snap.logs
    → load_payload hash now (some (payload_of snap)) s
      ≡ record s { clock = snap.clock; registers = hashed hash snap.registers; logs = snap.logs }
unfolding load_payload payload_of
load-payload_of {V} {P} hash now s snap r l u ul i = record s {
  clock = snap.clock;
  registers =
      (ap (load_registers hash now (map encoded snap.registers)) r
          ∙ load_registers-encoded hash now snap.registers [] u
              (Fresh-nil (Entry V) snap.registers))
        i;
  logs =
      (ap (load_logs snap.logs) l
          ∙ load_logs-all snap.logs [] ul (Fresh-nil (List (LogEntry P)) snap.logs))
        i;
}

module _ {V : Type 0} (hash : Option V → String) where
  abbrev pub hash_in : Option (Entry V) → Option (Entry V)
  hash_in none = none
  hash_in (some e) = some (with_hash hash e)

  pub lookup-hashed :
      (key : String) (l : List (String × Entry V))
      → lookup key (hashed hash l) ≡ hash_in (lookup key l)
  unfolding lookup
  lookup-hashed key [] = refl
  lookup-hashed key ((name, e) ∷ l) = elim (Bool-cases (str_eq name key)) [
    | inl k ↦ rw (k, if◌then◌else◌) refl
    | inr k ↦ rw (k, if◌then◌else◌) (lookup-hashed key l)
  ]

  pub hashed-Unique : (l : List (String × Entry V)) → Unique l → Unique (hashed hash l)
  hashed-Unique [] u = tt
  hashed-Unique ((key, e) ∷ l) (n, u) = (lookup-hashed-none hash key l n, hashed-Unique l u)

module _ {V P : Type 0} (hash : Option V → String) where
  pub restart-none :
      (now : ℕ) (s : Store V P)
      → s.file ≡ none
      → restart hash now s ≡ empty s.device_did s.persistent
  unfolding restart
  restart-none now s e = rw (restart, e) refl

  pub restart-some :
      (now : ℕ) (s : Store V P) (snap : Snapshot V P)
      → s.file ≡ some snap
      → Unique snap.registers
      → Unique snap.logs
      → restart hash now s ≡ record (empty s.device_did s.persistent) {
        clock = snap.clock;
        registers = hashed hash snap.registers;
        logs = snap.logs;
        file = some snap;
      }
  unfolding restart
  restart-some now s snap e u ul =
      rw (restart, e)
        (ap (λ (t : Store V P). record t { file = some snap })
          (load-payload_of hash now (empty s.device_did s.persistent) snap refl refl u ul))
