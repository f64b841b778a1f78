-- ===== src/Hooks/Sse/Buffer.antt =====
-- The buffer of events of useSSE.js.
use ariesmesh.Prelude.{
  ℕ, zero, suc, ◌≤◌, String, ◌≡◌, refl, sym, ◌∙◌, true, false, Option, none, some, List, [], ◌∷◌,
  arith, take, length, length-take, Option-cases, inl, inr,
}
use ariesmesh.Hooks.Sse.{Sse, Signal, opened, message, failed, fire, unmount, mount, step, run}

module _ {E : Type 0} where
  take-take : (n : ℕ) (x : E) (xs : List E) → take n (x ∷ take n xs) ≡ take n (x ∷ xs)
  take-take zero x xs = refl
  take-take (suc zero) x xs = refl
  take-take (suc (suc n)) x [] = refl
  take-take (suc (suc n)) x (y ∷ xs) = λ i. x ∷ take-take (suc n) y xs i

  take_all : (n : ℕ) (xs : List E) → length xs ≤ n → take n xs ≡ xs
  take_all zero [] h = refl
  take_all zero (x ∷ xs) h = absurd (omega arith)
  take_all (suc n) [] h = refl
  take_all (suc n) (x ∷ xs) h = λ i. x ∷ take_all n xs (omega arith) i

  module _ (max_events : ℕ) (parse : String → Option E) where
    -- One more event, if the text is well formed.
    abbrev pub add : String → List E → List E
    add text seen = elim (parse text) [ none ↦ seen | some ev ↦ ev ∷ seen ]

    -- A history that forgets nothing: the well-formed messages that arrive before the cleanup, in
    -- front of `seen`, newest first.
    abbrev pub received : List Signal → List E → List E
    received [] seen = seen
    received (opened id ∷ rest) seen = received rest seen
    received (message id text ∷ rest) seen = received rest (add text seen)
    received (failed id ∷ rest) seen = received rest seen
    received (fire ∷ rest) seen = received rest seen
    received (unmount ∷ rest) seen = seen

    cancelled_step :
        (s : Sse E) (sig : Signal)
        → s.cancelled ≡ true
        → ((step max_events parse s sig).events ≡ s.events)
          × ((step max_events parse s sig).connected ≡ s.connected)
          × ((step max_events parse s sig).cancelled ≡ true)
    unfolding step
    cancelled_step s (opened id) h = ground arith
    cancelled_step s (message id text) h = ground arith
    cancelled_step s (failed id) h = ground arith
    cancelled_step s fire h = ground arith
    cancelled_step s unmount h = ground arith

    -- After the cleanup no callback changes what the hook returns.
    pub cancelled_stays :
        (trace : List Signal) (s : Sse E)
        → s.cancelled ≡ true
        → ((run max_events parse s trace).events ≡ s.events)
          × ((run max_events parse s trace).connected ≡ s.connected)
    cancelled_stays [] s h = (refl, refl)
    cancelled_stays (sig ∷ trace) s h =
        let (e, c, d) = cancelled_step s sig h in
        let (p, q) = cancelled_stays trace (step max_events parse s sig) d in (p ∙ e, q ∙ c)

    message_step :
        (s : Sse E) (id : ℕ) (text : String) (seen : List E)
        → s.cancelled ≡ false
        → s.events ≡ take max_events seen
        → ((step max_events parse s (message id text)).events ≡ take max_events (add text seen))
          × ((step max_events parse s (message id text)).cancelled ≡ false)
    unfolding step
    message_step s id text seen live h = elim (Option-cases (parse text)) [
      | inl bad ↦ (ground arith, ground arith)
      | inr (ev, good) ↦ (ground (arith, take-take max_events ev seen), ground arith)
    ]

    quiet_step :
        (s : Sse E)
        → s.cancelled ≡ false
        → ((id : ℕ)
            → ((step max_events parse s (opened id)).events ≡ s.events)
              × ((step max_events parse s (opened id)).cancelled ≡ false))
          × ((id : ℕ)
              → ((step max_events parse s (failed id)).events ≡ s.events)
                × ((step max_events parse s (failed id)).cancelled ≡ false))
          × ((step max_events parse s fire).events ≡ s.events)
          × ((step max_events parse s fire).cancelled ≡ false)
          × ((step max_events parse s unmount).events ≡ s.events)
          × ((step max_events parse s unmount).cancelled ≡ true)
    unfolding step
    quiet_step s live =
        (λ id. ground arith, λ id. ground arith, ground arith, ground arith, refl, refl)

    -- Whatever the browser calls, and in whatever order, the buffer of a hook that starts with the
    -- newest `max_events` events of `seen` holds the newest `max_events` events of the full history.
    pub events-run :
        (trace : List Signal) (s : Sse E) (seen : List E)
        → s.cancelled ≡ false
        → s.events ≡ take max_events seen
        → (run max_events parse s trace).events ≡ take max_events (received trace seen)
    events-run [] s seen live h = h
    events-run (opened id ∷ trace) s seen live h =
        let (e, c) = (quiet_step s live).0 id in events-run trace _ seen c (e ∙ h)
    events-run (message id text ∷ trace) s seen live h =
        let (e, c) = message_step s id text seen live h in events-run trace _ (add text seen) c e
    events-run (failed id ∷ trace) s seen live h =
        let (e, c) = (quiet_step s live).1 id in events-run trace _ seen c (e ∙ h)
    events-run (fire ∷ trace) s seen live h =
        let q = quiet_step s live in events-run trace _ seen q.3 (q.2 ∙ h)
    events-run (unmount ∷ trace) s seen live h =
        let q = quiet_step s live in (cancelled_stays trace _ q.5).0 ∙ (q.4 ∙ h)

    mount-live : (old : List E) → ((mount old).cancelled ≡ false) × ((mount old).events ≡ old)
    unfolding mount
    mount-live old = (refl, refl)

    -- Whatever callbacks run, in any order, on a newly mounted hook, its events are the newest
    -- `max_events` of all well-formed messages that came before the cleanup, newest first.
    pub events-run-mount :
        (trace : List Signal)
        → (run max_events parse (mount []) trace).events ≡ take max_events (received trace [])
    events-run-mount trace =
        let (live, e) = mount-live [] in
        events-run trace (mount []) [] live (e ∙ sym (take_all max_events [] (omega arith)))

    -- The buffer never holds more than `max_events` events.
    pub length-events-run :
        (trace : List Signal) → length (run max_events parse (mount []) trace).events ≤ max_events
    length-events-run trace =
        rw (events-run-mount trace) (omega (arith, length-take max_events (received trace [])))
