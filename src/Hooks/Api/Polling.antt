-- ===== src/Hooks/Api/Polling.antt =====
-- What the hook of useAPI.js returns to its component, for every schedule of effects and answers.
use Prim.Native.String.{◌++◌}
use ariesmesh.Prelude.{
  ℕ, String, ◌≡◌, refl, ◌∙◌, ◌+◌, ◌==◌, not, ◌||◌, ◌⊎◌, inl, inr, Bool, true, false, Option, none,
  some, All, List, [], ◌∷◌, arith, Bool-cases, if◌then◌else◌, decimal,
}
use ariesmesh.Hooks.Api.{
  Poll, Signal, Outcome, unreachable, bad_status, bad_body, body, effect, tick, settle, unmount,
  initial, is_cancelled, message_of, remove_one, outcome_state, step, run,
}

module _ {D : Type 0} where
  -- Before the first answer there is nothing to show; after it there is a value or an error.
  pub record IsConsistent (s : Poll D) : Type 0 where
    pub empty_value : s.loading ≡ true → s.value ≡ none
    pub empty_error : s.loading ≡ true → s.error ≡ none
    pub answered :
        s.loading ≡ false → ((d : D) × (s.value ≡ some d)) ⊎ ((e : String) × (s.error ≡ some e))
    pub stopped : s.unmounted ≡ true → s.timer ≡ none

  -- an answer, if the signal is one, that is not a null body
  abbrev pub IsFull : Signal D → Type 0
  IsFull (settle e (body none)) = ⊥
  IsFull (settle e (body (some b))) = Unit
  IsFull (settle e (bad_status n)) = Unit
  IsFull (settle e (bad_body m t)) = Unit
  IsFull (settle e (unreachable m t)) = Unit
  IsFull (effect p i) = Unit
  IsFull tick = Unit
  IsFull unmount = Unit

  abbrev finished : Poll D → ℕ → Outcome D → Poll D
  finished s e o = record (outcome_state (record s { pending = remove_one e s.pending }) o) {
    loading = false;
  }

  settled :
      (s : Poll D)
      → (s.unmounted ≡ true → s.timer ≡ none)
      → (e : ℕ) (o : Outcome D) → IsFull (settle e o)
      → IsConsistent (finished s e o)
  unfolding outcome_state
  settled s stop e (unreachable m t) full = record {
    empty_value = λ h. cc;
    empty_error = λ h. cc;
    answered = λ _. inr (_, refl);
    stopped = stop;
  }
  settled s stop e (bad_status n) full = record {
    empty_value = λ h. cc;
    empty_error = λ h. cc;
    answered = λ _. inr (_, refl);
    stopped = stop;
  }
  settled s stop e (bad_body m t) full = record {
    empty_value = λ h. cc;
    empty_error = λ h. cc;
    answered = λ _. inr (_, refl);
    stopped = stop;
  }
  settled s stop e (body none) full = absurd full
  settled s stop e (body (some b)) full = record {
    empty_value = λ h. cc;
    empty_error = λ h. cc;
    answered = λ _. inl (b, refl);
    stopped = stop;
  }

  step-IsConsistent :
      (s : Poll D) (sig : Signal D) → IsFull sig → IsConsistent s → IsConsistent (step s sig)
  unfolding step
  step-IsConsistent s (effect none i) full v = record {
    empty_value = v.empty_value;
    empty_error = v.empty_error;
    answered = v.answered;
    stopped = λ h. cc;
  }
  step-IsConsistent s (effect (some p) i) full v = record {
    empty_value = v.empty_value;
    empty_error = v.empty_error;
    answered = v.answered;
    stopped = λ h. cc;
  }
  step-IsConsistent s tick full v = on_timer s.timer v.stopped
    where
      on_timer :
          (t : Option ℕ)
          → (s.unmounted ≡ true → t ≡ none)
          → IsConsistent (step (record s { timer = t }) tick)
      on_timer none stop = record {
        empty_value = v.empty_value;
        empty_error = v.empty_error;
        answered = v.answered;
        stopped = stop;
      }
      on_timer (some i) stop = record {
        empty_value = v.empty_value;
        empty_error = v.empty_error;
        answered = v.answered;
        stopped = stop;
      }
  step-IsConsistent s (settle e o) full v = elim (Bool-cases (is_cancelled s e)) [
    | inl stale ↦
        rw (stale, if◌then◌else◌)
          (record {
            empty_value = v.empty_value;
            empty_error = v.empty_error;
            answered = v.answered;
            stopped = v.stopped;
          })
    | inr live ↦ rw (live, if◌then◌else◌) (settled s v.stopped e o full)
  ]
  step-IsConsistent s unmount full v = record {
    empty_value = v.empty_value;
    empty_error = v.empty_error;
    answered = v.answered;
    stopped = λ _. refl;
  }

  pub run-IsConsistent :
      (trace : List (Signal D)) (s : Poll D)
      → All IsFull trace
      → IsConsistent s
      → IsConsistent (run s trace)
  run-IsConsistent [] s f v = v
  run-IsConsistent (sig ∷ trace) s (f, fs) v =
      run-IsConsistent trace (step s sig) fs (step-IsConsistent s sig f v)

  initial-IsConsistent : IsConsistent (initial {D = D})
  initial-IsConsistent = record {
    empty_value = λ _. refl;
    empty_error = λ _. refl;
    answered = λ h. cc;
    stopped = λ _. refl;
  }

  -- While the hook says that it is loading, it has neither a value nor an error.
  loading-empty :
      (trace : List (Signal D))
      → All IsFull trace
      → (run initial trace).loading ≡ true
      → ((run initial trace).value ≡ none) × ((run initial trace).error ≡ none)
  loading-empty trace full h =
      let v = run-IsConsistent trace initial full initial-IsConsistent in
      (v.empty_value h, v.empty_error h)

  -- On a newly mounted component, for every schedule in which no answer has the body null: once the hook says that
  -- it is not loading, it has a value or an error to show.
  pub loaded-shows :
      (trace : List (Signal D))
      → All IsFull trace
      → (run initial trace).loading ≡ false
      → ((d : D) × ((run initial trace).value ≡ some d))
        ⊎ ((e : String) × ((run initial trace).error ≡ some e))
  loaded-shows trace full h = (run-IsConsistent trace initial full initial-IsConsistent).answered h

  -- What the hook returns to the component.
  abbrev pub shown : Poll D → Option D × Option String × Bool
  shown s = (s.value, s.error, s.loading)

  -- The last answer that counts: of a body, the value and no error; of a failure, the older value
  -- and the error.
  abbrev pub answer : Option D × Option String × Bool → Outcome D → Option D × Option String × Bool
  answer v (unreachable m t) = (v.0, some (message_of m t), false)
  answer v (bad_status n) = (v.0, some ("HTTP " ++ decimal n), false)
  answer v (bad_body m t) = (v.0, some (message_of m t), false)
  answer v (body b) = (b, none, false)

  -- The answers of a trace that count, as a fold: those to the latest of the effects that have run,
  -- numbered `epoch`, while its cleanup has not run.
  abbrev pub history :
      ℕ → Bool → List (Signal D) → Option D × Option String × Bool → Option D × Option String × Bool
  history epoch over [] v = v
  history epoch over (settle e o ∷ rest) v =
      history epoch over rest (if over || not (e == epoch) then v else answer v o)
  history epoch over (effect p i ∷ rest) v = history (epoch + 1) false rest v
  history epoch over (tick ∷ rest) v = history epoch over rest v
  history epoch over (unmount ∷ rest) v = history epoch true rest v

  -- An answer to a request of an earlier effect, or after the cleanup, changes nothing that is shown.
  pub stale_ignored :
      (s : Poll D) (e : ℕ) (o : Outcome D)
      → is_cancelled s e ≡ true
      → shown (step s (settle e o)) ≡ shown s
  unfolding step
  stale_ignored s e o h = rw (h, if◌then◌else◌)

  -- An answer that counts shows its value, or keeps the older value beside its error.
  pub shown-settle :
      (s : Poll D) (e : ℕ) (o : Outcome D)
      → is_cancelled s e ≡ false
      → shown (step s (settle e o)) ≡ answer (shown s) o
  unfolding step
  shown-settle s e (unreachable m t) h = rw (h, if◌then◌else◌)
  shown-settle s e (bad_status n) h = rw (h, if◌then◌else◌)
  shown-settle s e (bad_body m t) h = rw (h, if◌then◌else◌)
  shown-settle s e (body b) h = rw (h, if◌then◌else◌)

  shown-tick : (s : Poll D) → shown (step s tick) ≡ shown s
  unfolding step
  shown-tick s = ground arith

  shown-effect : (s : Poll D) (p : Option String) (i : ℕ) → shown (step s (effect p i)) ≡ shown s
  unfolding step
  shown-effect s none i = refl
  shown-effect s (some p) i = refl

  shown-unmount : (s : Poll D) → shown (step s unmount) ≡ shown s
  unfolding step
  shown-unmount s = refl

  same_effect-settle :
      (s : Poll D) (e : ℕ) (o : Outcome D)
      → ((step s (settle e o)).epoch ≡ s.epoch) × ((step s (settle e o)).unmounted ≡ s.unmounted)
  unfolding step
  same_effect-settle s e (unreachable m t) = (ground arith, ground arith)
  same_effect-settle s e (bad_status n) = (ground arith, ground arith)
  same_effect-settle s e (bad_body m t) = (ground arith, ground arith)
  same_effect-settle s e (body b) = (ground arith, ground arith)

  same_effect-tick :
      (s : Poll D) → ((step s tick).epoch ≡ s.epoch) × ((step s tick).unmounted ≡ s.unmounted)
  unfolding step
  same_effect-tick s = (ground arith, ground arith)

  next_effect :
      (s : Poll D) (p : Option String) (i : ℕ)
      → ((step s (effect p i)).epoch ≡ s.epoch + 1) × ((step s (effect p i)).unmounted ≡ false)
  unfolding step
  next_effect s none i = (refl, refl)
  next_effect s (some p) i = (refl, refl)

  last_effect :
      (s : Poll D) → ((step s unmount).epoch ≡ s.epoch) × ((step s unmount).unmounted ≡ true)
  unfolding step
  last_effect s = (refl, refl)

  -- For every schedule of effects, timers, answers and cleanups, what is shown is the fold of the
  -- answers that count, in the order in which they arrive.
  pub shown-run :
      (trace : List (Signal D)) (s : Poll D)
      → shown (run s trace) ≡ history s.epoch s.unmounted trace (shown s)
  shown-run [] s = refl
  shown-run (settle e o ∷ trace) s =
      let ih = shown-run trace (step s (settle e o)) in
      let (p, q) = same_effect-settle s e o in
      elim (Bool-cases (is_cancelled s e)) [
        | inl stale ↦
            rw (stale, if◌then◌else◌)
              (ih ∙ λ k. history (p k) (q k) trace (stale_ignored s e o stale k))
        | inr live ↦
            rw (live, if◌then◌else◌)
              (ih ∙ λ k. history (p k) (q k) trace (shown-settle s e o live k))
      ]
  shown-run (effect r i ∷ trace) s =
      let ih = shown-run trace (step s (effect r i)) in
      let (p, q) = next_effect s r i in ih ∙ λ k. history (p k) (q k) trace (shown-effect s r i k)
  shown-run (tick ∷ trace) s =
      let ih = shown-run trace (step s tick) in
      let (p, q) = same_effect-tick s in ih ∙ λ k. history (p k) (q k) trace (shown-tick s k)
  shown-run (unmount ∷ trace) s =
      let ih = shown-run trace (step s unmount) in
      let (p, q) = last_effect s in ih ∙ λ k. history (p k) (q k) trace (shown-unmount s k)
