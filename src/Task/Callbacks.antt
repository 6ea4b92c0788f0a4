-- ===== src/Task/Callbacks.antt =====
-- The callbacks of a task (pkg/py/pyasyncio/task.go, `AddCallback` and `executeCallbacks`).
use mathlib.Core.Path.{subst}
use mathlib.Core.Option.{some-injective}
use adk_go.Task.{
  runs, adds, ends, here, next, Phase, starting, calling, returned, locked, keeping, dropping,
  copying, spawning, gone, Running, run_step, decide, Reaches, add_callback, create_named_task,
  end_context, is_done, Step, is_locked,
}
use adk_go.Base.{
  ℕ, ◌+◌, Option, some, List, [], ◌∷◌, ◌++◌, ◌≡◌, Error, arith, eqb, if◌then◌else◌, false, true,
  inl, inr, refl, sym,
}
use adk_go.Task.Phases.{
  Holds, IsSettled, Reaches-Holds, add_callback-phase, create-Holds, end_context-phase,
}

abbrev pub occurrences : ℕ → List ℕ → ℕ
occurrences c [] = 0
occurrences c (x ∷ xs) = let rest = occurrences c xs in if eqb x c then 1 + rest else rest

occurrences-append :
    (c : ℕ) (xs ys : List ℕ) → occurrences c (xs ++ ys) ≡ occurrences c xs + occurrences c ys
occurrences-append c [] ys = omega arith
occurrences-append c (x ∷ xs) ys = ground (arith, occurrences-append c xs ys)

module _ {T : Type 0} where
  -- The callbacks that are still to be started.
  abbrev pending : Phase T → Running T → List ℕ
  pending (spawning l) s = l
  pending gone s = []
  pending _ s = s.task.callbacks

  abbrev IsAccounted : ℕ → Phase T → Running T → Type 0
  IsAccounted c p s =
      occurrences c s.registered ≡ occurrences c s.executed + occurrences c (pending p s)

  run_step-IsAccounted :
      (c : ℕ) (r : T) (e : Option Error) (p : Phase T) (s t : Running T)
      → IsAccounted c p s
      → run_step r e p s ≡ some t
      → IsAccounted c t.phase t
  unfolding run_step decide
  run_step-IsAccounted c r e starting s t h step = ground arith
  run_step-IsAccounted c r e calling s t h step = ground arith
  run_step-IsAccounted c r e (returned r' e') s t h step = ground arith
  run_step-IsAccounted c r e (locked r' e') s t h step = ground arith
  run_step-IsAccounted c r e (keeping r' e') s t h step = ground arith
  run_step-IsAccounted c r e (dropping x) s t h step = ground arith
  run_step-IsAccounted c r e copying s t h step = ground arith
  run_step-IsAccounted c r e (spawning (x ∷ xs)) s t h step =
      subst (λ y. IsAccounted c y.phase y) (some-injective _ _ step)
        (ground (arith, occurrences-append c s.executed (x ∷ [])))
  run_step-IsAccounted c r e (spawning []) s t h step = ground arith
  run_step-IsAccounted c r e gone s t h step = absurd (cc)

  settled-done : (z : T) (s : Running T) → IsSettled z s → is_done s.task.state ≡ true
  unfolding is_done
  settled-done z s (inl h) = rw h.0 refl
  settled-done z s (inr h) = rw h.0 refl

  -- A task that is not done keeps the callback, and one that is done starts it at once.
  add_early :
      (c d : ℕ) (s : Running T)
      → is_done s.task.state ≡ false
      → (occurrences c s.registered ≡ occurrences c s.executed + occurrences c s.task.callbacks)
      → occurrences c (add_callback d s).registered
        ≡ occurrences c (add_callback d s).executed
          + occurrences c (add_callback d s).task.callbacks
  unfolding add_callback
  add_early c d s early h = ground (
    arith,
    early,
    occurrences-append c s.registered (d ∷ []),
    occurrences-append c s.task.callbacks (d ∷ []),
  )

  add_late :
      (c d : ℕ) (s : Running T) (l : List ℕ)
      → is_done s.task.state ≡ true
      → (occurrences c s.registered ≡ occurrences c s.executed + occurrences c l)
      → (occurrences c (add_callback d s).registered
          ≡ occurrences c (add_callback d s).executed + occurrences c l)
        × ((add_callback d s).task.callbacks ≡ s.task.callbacks)
  unfolding add_callback
  add_late c d s l late h = ground (
    arith,
    late,
    occurrences-append c s.registered (d ∷ []),
    occurrences-append c s.executed (d ∷ []),
  )

  add_callback-IsAccounted :
      (z : T) (c d : ℕ) (p : Phase T) (s : Running T)
      → Holds z p s
      → is_locked p ≡ false
      → IsAccounted c p s
      → IsAccounted c p (add_callback d s)
  unfolding is_done
  add_callback-IsAccounted z c d starting s w free h = add_early c d s w.0 h
  add_callback-IsAccounted z c d calling s w free h = add_early c d s w.0 h
  add_callback-IsAccounted z c d (returned r e) s w free h = add_early c d s w.0.0 h
  add_callback-IsAccounted z c d (locked r e) s w free h = absurd (cc)
  add_callback-IsAccounted z c d (keeping r e) s w free h = absurd (cc)
  add_callback-IsAccounted z c d (dropping x) s w free h = absurd (cc)
  add_callback-IsAccounted z c d copying s w free h =
      let (same, kept) = add_late c d s s.task.callbacks (settled-done z s w.0) h in rw kept same
  add_callback-IsAccounted z c d (spawning l) s w free h =
      (add_late c d s l (settled-done z s w.0) h).0
  add_callback-IsAccounted z c d gone s w free h = (add_late c d s [] (settled-done z s w.0) h).0

  end_context-IsAccounted :
      (c : ℕ) (e : Error) (p : Phase T) (s : Running T)
      → IsAccounted c p s
      → IsAccounted c p (end_context e s)
  unfolding end_context
  end_context-IsAccounted c e (spawning l) s h = ground arith
  end_context-IsAccounted c e gone s h = ground arith
  end_context-IsAccounted c e starting s h = ground arith
  end_context-IsAccounted c e calling s h = ground arith
  end_context-IsAccounted c e (returned r x) s h = ground arith
  end_context-IsAccounted c e (locked r x) s h = ground arith
  end_context-IsAccounted c e (keeping r x) s h = ground arith
  end_context-IsAccounted c e (dropping x) s h = ground arith
  end_context-IsAccounted c e copying s h = ground arith

  Step-IsAccounted :
      (z : T) (c : ℕ) {s t : Running T}
      → Holds z s.phase s
      → IsAccounted c s.phase s
      → Step s t
      → IsAccounted c t.phase t
  Step-IsAccounted z c {s} {t} w h (runs r e step) = run_step-IsAccounted c r e s.phase s t h step
  Step-IsAccounted z c {s} w h (adds d free) =
      subst (λ p. IsAccounted c p (add_callback d s)) (sym (add_callback-phase z d s))
        (add_callback-IsAccounted z c d s.phase s w free h)
  Step-IsAccounted z c {s} w h (ends e) =
      subst (λ p. IsAccounted c p (end_context e s)) (sym (end_context-phase z e s))
        (end_context-IsAccounted c e s.phase s h)

  Reaches-IsAccounted :
      (z : T) (x : Option Error) (c : ℕ) (s : Running T)
      → Reaches (create_named_task z x) s
      → IsAccounted c s.phase s
  unfolding create_named_task
  Reaches-IsAccounted z x c _ here = refl
  Reaches-IsAccounted z x c s (next {t} r step) =
      Step-IsAccounted z c (Reaches-Holds z (create-Holds z x) r) (Reaches-IsAccounted z x c t r)
        step

  -- When the goroutine of a task has ended, each callback has been started exactly as often as
  -- `AddCallback` was called with it, whether these calls came before the task was done, after it or
  -- while the callbacks were started; and whether the task was cancelled or not.
  pub callbacks-started :
      (z : T) (x : Option Error) (c : ℕ) (s : Running T)
      → Reaches (create_named_task z x) s
      → s.phase ≡ gone
      → occurrences c s.executed ≡ occurrences c s.registered
  callbacks-started z x c s r over =
      let h = subst (λ p. IsAccounted c p s) over (Reaches-IsAccounted z x c s r) in
      omega (arith, h)
