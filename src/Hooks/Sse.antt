-- ===== src/Hooks/Sse.antt =====
-- dashboard/src/hooks/useSSE.js: the subscription to `/api/events`, as the state of one mounted
-- effect and the callbacks that the browser may run on it.
pub mod Buffer
pub mod Connection
use ariesmesh.Prelude.{
  ℕ, ◌+◌, ◌*◌, String, Bool, true, false, not, Option, none, some, List, [], ◌∷◌, foldl, min, ◌==◌,
  if◌then◌else◌, keep, take,
}

-- `events` and `connected` are the hook's React state, `cancelled` and `backoff` the variables of
-- the effect, `current` is `sourceRef.current`. The browser's part is `sources`, the numbers of
-- the EventSource objects that are not closed, `created`, how many there have been, and `timers`,
-- the delays of the pending `setTimeout` calls.
pub record Sse (E : Type 0) : Type 0 where
  pub events : List E
  pub connected : Bool
  pub cancelled : Bool
  pub backoff : ℕ
  pub current : Option ℕ
  pub sources : List ℕ
  pub created : ℕ
  pub timers : List ℕ

-- What the browser and React call: `onopen`, `onmessage` and `onerror` of a source, the callback
-- of a pending timer (of the newest; there is at most one), and the cleanup of the effect.
pub data Signal : Type 0 where
  opened : ℕ → Signal
  message : ℕ → String → Signal
  failed : ℕ → Signal
  fire : Signal
  unmount : Signal

abbrev pub max_backoff : ℕ
max_backoff = 10000

abbrev pub first_backoff : ℕ
first_backoff = 1000

-- `src.close()`
abbrev pub close : ℕ → List ℕ → List ℕ
close id ids = keep (λ j. not (j == id)) ids

abbrev pub tail_of : List ℕ → List ℕ
tail_of [] = []
tail_of (t ∷ ts) = ts

module _ {E : Type 0} where
  -- the function `open`
  unfoldable pub open_source : Sse E → Sse E
  open_source s = if s.cancelled then s else record s {
    current = some s.created;
    sources = s.created ∷ s.sources;
    created = s.created + 1;
  }

  unfoldable pub on_open : Sse E → Sse E
  on_open s = if s.cancelled then s else record s { connected = true; backoff = first_backoff }

  -- `parse` is JSON.parse, `none` where it throws.
  unfoldable pub on_message : ℕ → (String → Option E) → String → Sse E → Sse E
  on_message max_events parse text s = if s.cancelled then s else elim (parse text) [
    | none ↦ s
    | some ev ↦ record s { events = take max_events (ev ∷ s.events) }
  ]

  unfoldable pub on_error : ℕ → Sse E → Sse E
  on_error id s = if s.cancelled then s else record s {
    connected = false;
    sources = close id s.sources;
    timers = s.backoff ∷ s.timers;
  }

  -- the callback of `setTimeout`, which takes its timer off the pending ones
  unfoldable pub on_timer : Sse E → Sse E
  unfolding open_source
  on_timer s =
      open_source
        (record s { backoff = min (s.backoff * 2) max_backoff; timers = tail_of s.timers })

  -- the function that the effect returns
  unfoldable pub cleanup : Sse E → Sse E
  cleanup s = record s {
    cancelled = true;
    sources = elim s.current [ none ↦ s.sources | some id ↦ close id s.sources ];
  }

  -- The hook before its effect has run, and the effect itself.
  abbrev pub idle : List E → Sse E
  idle events = record {
    events = events;
    connected = false;
    cancelled = false;
    backoff = first_backoff;
    current = none;
    sources = [];
    created = 0;
    timers = [];
  }

  unfoldable pub mount : List E → Sse E
  unfolding open_source
  mount events = open_source (idle events)

  unfoldable pub step : ℕ → (String → Option E) → Sse E → Signal → Sse E
  unfolding on_open on_message on_error on_timer cleanup
  step max_events parse s (opened id) = on_open s
  step max_events parse s (message id text) = on_message max_events parse text s
  step max_events parse s (failed id) = on_error id s
  step max_events parse s fire = on_timer s
  step max_events parse s unmount = cleanup s

  abbrev pub run : ℕ → (String → Option E) → Sse E → List Signal → Sse E
  run max_events parse = foldl (step max_events parse)
