-- ===== src/Task/Phases.antt =====
-- What the fields of a task hold while its goroutine runs (pkg/py/pyasyncio/task.go).
use adk_go.Task.{
  task_done, task_cancelled, task_cancelled_error, Phase, starting, calling, returned, locked,
  keeping, dropping, copying, spawning, gone, Running, Step, Reaches, runs, adds, ends, here, next,
  run_step, add_callback, end_context, create_named_task, decide, is_done, as_returned,
}
use mathlib.Core.Path.{subst}
use mathlib.Core.Option.{some-injective}
use adk_go.Base.{
  ℕ, true, false, Option, some, [], ◌∷◌, ◌≡◌, ◌⊎◌, inl, inr, Error, arith, refl, Option-cases, sym,
}

module _ {T : Type 0} (zero_value : T) where
  -- The task has ended, with what its function returned or by the end of its context.
  abbrev pub IsSettled : Running T → Type 0
  IsSettled s =
      ((s.task.state ≡ task_done)
        × (r : T) × (e : Option Error) × (s.outcome ≡ some (r, e))
        × (s.task.result ≡ r)
        × (s.task.err ≡ as_returned e))
      ⊎ ((s.task.state ≡ task_cancelled)
          × (c : Error) × (s.task.context_error ≡ some c)
          × (s.task.result ≡ zero_value)
          × (s.task.err ≡ some (task_cancelled_error c)))

  abbrev IsFresh : Running T → Type 0
  IsFresh s =
      (is_done s.task.state ≡ false) × (s.task.closed ≡ false) × (s.task.result ≡ zero_value)

  -- What holds in each phase.
  abbrev pub Holds : Phase T → Running T → Type 0
  Holds starting s = IsFresh s
  Holds calling s = IsFresh s
  Holds (returned r e) s = IsFresh s × (s.outcome ≡ some (r, e))
  Holds (locked r e) s = IsFresh s × (s.outcome ≡ some (r, e))
  Holds (keeping r e) s =
      (s.task.state ≡ task_done) × (s.task.closed ≡ false) × (s.outcome ≡ some (r, e))
  Holds (dropping c) s =
      (s.task.state ≡ task_cancelled)
      × (s.task.closed ≡ false)
      × (s.task.context_error ≡ some c)
      × (s.task.result ≡ zero_value)
  Holds copying s = IsSettled s × (s.task.closed ≡ false)
  Holds (spawning l) s = IsSettled s × (s.task.closed ≡ false)
  Holds gone s = IsSettled s × (s.task.closed ≡ true)

  locked-Holds :
      (r : T) (e : Option Error) (s : Running T)
      → Holds (locked r e) s
      → Holds (decide r e s).phase (decide r e s)
  unfolding is_done decide
  locked-Holds r e s ((fresh, open_yet, bare), got) = elim (Option-cases s.task.context_error) [
    | inl alive ↦ ground (arith, alive)
    | inr (c, ended) ↦ ground (arith, ended)
  ]

  run_step-Holds :
      (r : T) (e : Option Error) (p : Phase T) (s t : Running T)
      → Holds p s
      → run_step r e p s ≡ some t
      → Holds t.phase t
  unfolding run_step is_done
  run_step-Holds r e starting s t h step = ground arith
  run_step-Holds r e calling s t h step = ground arith
  run_step-Holds r e (returned r' e') s t h step = ground arith
  run_step-Holds r e (locked r' e') s t h step =
      subst (λ x. Holds x.phase x) (some-injective _ _ step) (locked-Holds r' e' s h)
  run_step-Holds r e (keeping r' e') s t (done, still, got) step =
      subst (λ x. Holds x.phase x) (some-injective _ _ step)
        (inl (done, r', e', got, refl, refl), still)
  run_step-Holds r e (dropping c) s t (done, still, got, bare) step =
      subst (λ x. Holds x.phase x) (some-injective _ _ step) (inr (done, c, got, bare, refl), still)
  run_step-Holds r e copying s t h step = subst (λ x. Holds x.phase x) (some-injective _ _ step) h
  run_step-Holds r e (spawning (c ∷ cs)) s t h step =
      subst (λ x. Holds x.phase x) (some-injective _ _ step) h
  run_step-Holds r e (spawning []) s t (h, still) step =
      subst (λ x. Holds x.phase x) (some-injective _ _ step) (h, refl)
  run_step-Holds r e gone s t h step = absurd (cc)

  add_callback-Holds :
      (c : ℕ) (p : Phase T) (s : Running T) → s.phase ≡ p → Holds p s → Holds p (add_callback c s)
  unfolding add_callback is_done
  add_callback-Holds c starting s at h = ground arith
  add_callback-Holds c calling s at h = ground arith
  add_callback-Holds c (returned r e) s at h = ground arith
  add_callback-Holds c (locked r e) s at h = ground arith
  add_callback-Holds c (keeping r e) s at h = ground arith
  add_callback-Holds c (dropping e) s at h = ground arith
  add_callback-Holds c copying s at h = ground arith
  add_callback-Holds c (spawning l) s at h = ground arith
  add_callback-Holds c gone s at h = ground arith

  end_context-Holds :
      (e : Error) (p : Phase T) (s : Running T) → Holds p s → Holds p (end_context e s)
  unfolding end_context
  end_context-Holds e starting s h = ground arith
  end_context-Holds e calling s h = ground arith
  end_context-Holds e (returned r x) s h = ground arith
  end_context-Holds e (locked r x) s h = ground arith
  end_context-Holds e (keeping r x) s h = ground arith
  end_context-Holds e (dropping c) s h = ground arith
  end_context-Holds e copying s h = ground arith
  end_context-Holds e (spawning l) s h = ground arith
  end_context-Holds e gone s h = ground arith

  pub add_callback-phase : (c : ℕ) (s : Running T) → (add_callback c s).phase ≡ s.phase
  unfolding add_callback
  add_callback-phase c s = ground arith

  pub end_context-phase : (e : Error) (s : Running T) → (end_context e s).phase ≡ s.phase
  unfolding end_context
  end_context-phase e s = ground arith

  Step-Holds : {s t : Running T} → Holds s.phase s → Step s t → Holds t.phase t
  Step-Holds {s} {t} h (runs r e step) = run_step-Holds r e s.phase s t h step
  Step-Holds {s} h (adds c free) =
      subst (λ p. Holds p (add_callback c s)) (sym (add_callback-phase c s))
        (add_callback-Holds c s.phase s refl h)
  Step-Holds {s} h (ends e) =
      subst (λ p. Holds p (end_context e s)) (sym (end_context-phase e s))
        (end_context-Holds e s.phase s h)

  pub Reaches-Holds : {s t : Running T} → Holds s.phase s → Reaches s t → Holds t.phase t
  Reaches-Holds h here = h
  Reaches-Holds h (next r step) = Step-Holds (Reaches-Holds h r) step

  pub create-Holds : (x : Option Error) → Holds starting (create_named_task zero_value x)
  unfolding create_named_task is_done
  create-Holds x = (refl, refl, refl)
