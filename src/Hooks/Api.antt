-- ===== src/Hooks/Api.antt =====
-- dashboard/src/hooks/useAPI.js: polling of one endpoint, as the state of the hook and the effects
-- that React runs for it.
pub mod Polling
use Prim.Native.String.{◌++◌}
use ariesmesh.Prelude.{
  ℕ, ◌+◌, String, Bool, true, false, not, ◌||◌, Option, none, some, List, [], ◌∷◌, foldl, ◌==◌,
  decimal, if◌then◌else◌, str_eq,
}

-- How one `fetch` ends: no answer (the exception's `message` and its `String(e)`), an answer with a
-- bad status, an answer whose body is no JSON, or a body, of which `none` is JSON's null.
pub data Outcome (D : Type 0) : Type 0 where
  unreachable : String → String → Outcome D
  bad_status : ℕ → Outcome D
  bad_body : String → String → Outcome D
  body : Option D → Outcome D

-- `value`, `error` and `loading` are the React state (`value` is the hook's `data`). Each run of the
-- effect has a number, `epoch` is the latest; `unmounted` says that its cleanup has run too.
-- `timer` is the interval of the effect's `setInterval`, and `pending` the epochs of the requests
-- that have not ended.
pub record Poll (D : Type 0) : Type 0 where
  pub value : Option D
  pub error : Option String
  pub loading : Bool
  pub epoch : ℕ
  pub unmounted : Bool
  pub timer : Option ℕ
  pub pending : List ℕ

pub data Signal (D : Type 0) : Type 0 where
  effect : Option String → ℕ → Signal D
  tick : Signal D
  settle : ℕ → Outcome D → Signal D
  unmount : Signal D

-- `e.message || String(e)`
abbrev pub message_of : String → String → String
message_of message text = if str_eq message "" then text else message

abbrev remove_one : ℕ → List ℕ → List ℕ
remove_one e [] = []
remove_one e (x ∷ xs) = if x == e then xs else x ∷ remove_one e xs

module _ {D : Type 0} where
  abbrev pub initial : Poll D
  initial = record {
    value = none;
    error = none;
    loading = true;
    epoch = 0;
    unmounted = true;
    timer = none;
    pending = [];
  }

  -- the variable `cancelled` of the effect number `e`: React runs the cleanup of one effect before
  -- the next
  abbrev pub is_cancelled : Poll D → ℕ → Bool
  is_cancelled s e = s.unmounted || not (e == s.epoch)

  -- the `try` and `catch` of `fetchData`
  unfoldable pub outcome_state : Poll D → Outcome D → Poll D
  outcome_state s (unreachable message text) = record s { error = some (message_of message text) }
  outcome_state s (bad_status status) = record s { error = some ("HTTP " ++ decimal status) }
  outcome_state s (bad_body message text) = record s { error = some (message_of message text) }
  outcome_state s (body b) = record s { value = b; error = none }

  -- the end of the request that the effect number `e` sent, `finally` included
  unfoldable pub end_fetch : Poll D → ℕ → Outcome D → Poll D
  unfolding outcome_state
  end_fetch s e o =
      let s' = record s { pending = remove_one e s.pending } in
      if is_cancelled s e then s' else record (outcome_state s' o) { loading = false }

  -- the start of `fetchData`
  abbrev send : Poll D → Poll D
  send s = record s { pending = s.epoch ∷ s.pending }

  -- a run of the effect, behind the cleanup of the one before; without an endpoint it does nothing
  unfoldable pub run_effect : Poll D → Option String → ℕ → Poll D
  run_effect s none interval = record s { epoch = s.epoch + 1; unmounted = false; timer = none }
  run_effect s (some endpoint) interval =
      send (record s { epoch = s.epoch + 1; unmounted = false; timer = some interval })

  unfoldable pub cleanup : Poll D → Poll D
  cleanup s = record s { unmounted = true; timer = none }

  unfoldable pub step : Poll D → Signal D → Poll D
  unfolding end_fetch run_effect cleanup
  step s (effect endpoint interval) = run_effect s endpoint interval
  step s tick = elim s.timer [ none ↦ s | some interval ↦ send s ]
  step s (settle e o) = end_fetch s e o
  step s unmount = cleanup s

  abbrev pub run : Poll D → List (Signal D) → Poll D
  run = foldl step
