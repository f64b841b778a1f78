-- ===== src/Hooks/Sse/Connection.antt =====
-- The life of the connection of useSSE.js: the callbacks that may run, the phases of a mounted
-- effect, and the states that it can reach.
use ariesmesh.Prelude.{
  ℕ, ◌+◌, ◌≤◌, String, ◌≡◌, refl, Bool, true, false, Option, some, List, [], ◌∷◌, arith, any, ◌==◌,
  length, All,
}
use ariesmesh.Hooks.Sse.{
  Sse, Signal, opened, message, failed, fire, unmount, mount, step, max_backoff, first_backoff,
}

-- The source is not closed, so the browser may still call back.
abbrev pub is_open : {E : Type 0} → Sse E → ℕ → Bool
is_open s id = any (λ j. j == id) s.sources

-- The callbacks that the browser and React may run: those of a source that is not closed, that of
-- a pending timer, and one cleanup.
abbrev pub Enabled : {E : Type 0} → Sse E → Signal → Type 0
Enabled s (opened id) = is_open s id ≡ true
Enabled s (message id text) = is_open s id ≡ true
Enabled s (failed id) = is_open s id ≡ true
Enabled s fire = (d : ℕ) × (rest : List ℕ) × (s.timers ≡ d ∷ rest)
Enabled s unmount = s.cancelled ≡ false

-- The three phases of a mounted effect.
pub data Phase {E : Type 0} (s : Sse E) : Type 0 where
  live :
      (id : ℕ)
      → s.cancelled ≡ false
      → s.sources ≡ id ∷ []
      → s.current ≡ some id
      → s.timers ≡ []
      → Phase s
  waiting :
      (delay : ℕ)
      → s.cancelled ≡ false
      → s.sources ≡ []
      → s.connected ≡ false
      → s.timers ≡ delay ∷ []
      → first_backoff ≤ delay
      → delay ≤ max_backoff
      → Phase s
  gone : s.cancelled ≡ true → s.sources ≡ [] → Phase s

pub record IsValid {E : Type 0} (s : Sse E) : Type 0 where
  pub phase : Phase s
  pub slow : first_backoff ≤ s.backoff
  pub quick : s.backoff ≤ max_backoff

module _ {E : Type 0} (max_events : ℕ) (parse : String → Option E) where
  abbrev pub after : Sse E → Signal → Sse E
  after s sig = step max_events parse s sig

  -- `backoff` stays between one and ten seconds.
  step_slow : (s : Sse E) (sig : Signal) → IsValid s → first_backoff ≤ (after s sig).backoff
  unfolding step
  step_slow s (opened id) v = ground arith
  step_slow s (message id text) v = ground arith
  step_slow s (failed id) v = ground arith
  step_slow s fire v = ground arith
  step_slow s unmount v = ground arith

  step_quick : (s : Sse E) (sig : Signal) → IsValid s → (after s sig).backoff ≤ max_backoff
  unfolding step
  step_quick s (opened id) v = ground arith
  step_quick s (message id text) v = ground arith
  step_quick s (failed id) v = ground arith
  step_quick s fire v = ground arith
  step_quick s unmount v = ground arith

  step-Phase :
      (s : Sse E) (sig : Signal) → Enabled s sig → IsValid s → Phase s → Phase (after s sig)
  unfolding step
  step-Phase s (opened id) en v (live i c p q t) =
      live i (ground arith) (ground arith) (ground arith) (ground arith)
  step-Phase s (opened id) en v (waiting d c p k t lo hi) = absurd (ground arith)
  step-Phase s (opened id) en v (gone c p) = absurd (ground arith)
  step-Phase s (message id text) en v (live i c p q t) =
      live i (ground arith) (ground arith) (ground arith) (ground arith)
  step-Phase s (message id text) en v (waiting d c p k t lo hi) = absurd (ground arith)
  step-Phase s (message id text) en v (gone c p) = absurd (ground arith)
  step-Phase s (failed id) en v (live i c p q t) =
      waiting s.backoff (ground arith) (ground arith) (ground arith) (ground arith) v.slow v.quick
  step-Phase s (failed id) en v (waiting d c p k t lo hi) = absurd (ground arith)
  step-Phase s (failed id) en v (gone c p) = absurd (ground arith)
  step-Phase s fire (d, rest, e) v (live i c p q t) = absurd (ground arith)
  step-Phase s fire (d, rest, e) v (waiting d' c p k t lo hi) =
      live s.created (ground arith) (ground arith) (ground arith) (ground arith)
  step-Phase s fire (d, rest, e) v (gone c p) = gone (ground arith) (ground arith)
  step-Phase s unmount en v (live i c p q t) = gone refl (ground arith)
  step-Phase s unmount en v (waiting d c p k t lo hi) = gone refl (ground arith)
  step-Phase s unmount en v (gone c p) = gone refl (ground arith)

  -- Every callback that can run keeps the invariant.
  pub step-IsValid : (s : Sse E) (sig : Signal) → Enabled s sig → IsValid s → IsValid (after s sig)
  step-IsValid s sig en v = record {
    phase = step-Phase s sig en v v.phase;
    slow = step_slow s sig v;
    quick = step_quick s sig v;
  }

  -- The states that a mounted hook can reach.
  pub data Reach : Sse E → Type 0 where
    start : (old : List E) → Reach (mount old)
    next : {s : Sse E} (sig : Signal) → Reach s → Enabled s sig → Reach (after s sig)

  mount-IsValid : (old : List E) → IsValid (mount old)
  unfolding mount
  mount-IsValid old = record {
    phase = live 0 refl refl refl refl;
    slow = omega arith;
    quick = omega arith;
  }

  pub Reach-IsValid : {s : Sse E} → Reach s → IsValid s
  Reach-IsValid (start old) = mount-IsValid old
  Reach-IsValid (next sig r en) = step-IsValid _ sig en (Reach-IsValid r)

  one_of_Phase :
      (s : Sse E) → Phase s → s.cancelled ≡ false → length s.sources + length s.timers ≡ 1
  one_of_Phase s (live i c p q t) h = ground arith
  one_of_Phase s (waiting d c p k t lo hi) h = ground arith
  one_of_Phase s (gone c p) h = cc

  -- Whatever callbacks run, in any order in which they can, before the cleanup exactly one of these
  -- exists: an open source, or a pending reconnection.
  pub one_connection :
      {s : Sse E} → Reach s → s.cancelled ≡ false → length s.sources + length s.timers ≡ 1
  one_connection r h = one_of_Phase _ (Reach-IsValid r).phase h

  none_of_Phase : (s : Sse E) → Phase s → s.cancelled ≡ true → s.sources ≡ []
  none_of_Phase s (live i c p q t) h = cc
  none_of_Phase s (waiting d c p k t lo hi) h = cc
  none_of_Phase s (gone c p) h = p

  -- In every reachable state after the cleanup no source is open.
  pub closed_for_good : {s : Sse E} → Reach s → s.cancelled ≡ true → s.sources ≡ []
  closed_for_good r h = none_of_Phase _ (Reach-IsValid r).phase h

  open_of_Phase :
      (s : Sse E)
      → Phase s
      → s.cancelled ≡ false
      → s.connected ≡ true
      → (id : ℕ) × (s.sources ≡ id ∷ []) × (s.current ≡ some id)
  open_of_Phase s (live i c p q t) h k = (i, p, q)
  open_of_Phase s (waiting d c p k t lo hi) h j = cc
  open_of_Phase s (gone c p) h k = cc

  -- In every reachable state before the cleanup a hook that says "connected" has one open source,
  -- the one that the cleanup would close.
  pub connected-open :
      {s : Sse E}
      → Reach s
      → s.cancelled ≡ false
      → s.connected ≡ true
      → (id : ℕ) × (s.sources ≡ id ∷ []) × (s.current ≡ some id)
  connected-open r h k = open_of_Phase _ (Reach-IsValid r).phase h k

  delays_of_Phase :
      (s : Sse E)
      → Phase s
      → s.cancelled ≡ false
      → All (λ d. (first_backoff ≤ d) × (d ≤ max_backoff)) s.timers
  delays_of_Phase s (live i c p q t) h = rw t tt
  delays_of_Phase s (waiting d c p k t lo hi) h = rw t ((lo, hi), tt)
  delays_of_Phase s (gone c p) h = cc

  -- Every reconnection that is pending before the cleanup waits between one and ten seconds.
  pub delays_bounded :
      {s : Sse E}
      → Reach s
      → s.cancelled ≡ false
      → All (λ d. (first_backoff ≤ d) × (d ≤ max_backoff)) s.timers
  delays_bounded r h = delays_of_Phase _ (Reach-IsValid r).phase h
