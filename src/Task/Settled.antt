-- ===== src/Task/Settled.antt =====
-- What a task (pkg/py/pyasyncio/task.go) keeps of its function, and when `Result` and `Wait` tell it.
use adk_go.Task.{
  Phase, starting, calling, returned, locked, keeping, dropping, copying, spawning, gone, Running,
  Step, Reaches, runs, adds, ends, here, next, run_step, add_callback, end_context,
  create_named_task, is_done, result, wait, is_locked,
}
use mathlib.Core.Path.{subst}
use mathlib.Core.Option.{some-injective}
use adk_go.Task.Phases.{
  IsSettled, Holds, Reaches-Holds, create-Holds, add_callback-phase, end_context-phase,
}
use adk_go.Base.{ℕ, true, false, Option, some, [], ◌∷◌, ◌≡◌, inl, inr, Error, arith, refl, ◌∙◌}

module _ {T : Type 0} (zero_value : T) where
  -- Behind the critical section of `run`.
  abbrev IsBehind : Phase T → Type 0
  IsBehind copying = Unit
  IsBehind (spawning l) = Unit
  IsBehind gone = Unit
  IsBehind _ = ⊥

  IsBehind-done :
      (p : Phase T) (s : Running T)
      → Holds zero_value p s
      → is_locked p ≡ false
      → is_done s.task.state ≡ true
      → IsBehind p × IsSettled zero_value s
  unfolding is_done
  IsBehind-done starting s h free done = absurd (ground arith)
  IsBehind-done calling s h free done = absurd (ground arith)
  IsBehind-done (returned r e) s h free done = absurd (ground arith)
  IsBehind-done (locked r e) s h free done = absurd (ground arith)
  IsBehind-done (keeping r e) s h free done = absurd (ground arith)
  IsBehind-done (dropping c) s h free done = absurd (ground arith)
  IsBehind-done copying s h free done = (tt, h.0)
  IsBehind-done (spawning l) s h free done = (tt, h.0)
  IsBehind-done gone s h free done = (tt, h.0)

  -- The same state, result and error.
  abbrev Keeps : Running T → Running T → Type 0
  Keeps s t =
      (t.task.state ≡ s.task.state) × (t.task.result ≡ s.task.result) × (t.task.err ≡ s.task.err)

  run_step-Keeps :
      (r : T) (e : Option Error) (p : Phase T) (s t : Running T)
      → IsBehind p
      → run_step r e p s ≡ some t
      → IsBehind t.phase × Keeps s t
  unfolding run_step
  run_step-Keeps r e starting s t h step = absurd h
  run_step-Keeps r e calling s t h step = absurd h
  run_step-Keeps r e (returned r' e') s t h step = absurd h
  run_step-Keeps r e (locked r' e') s t h step = absurd h
  run_step-Keeps r e (keeping r' e') s t h step = absurd h
  run_step-Keeps r e (dropping c) s t h step = absurd h
  run_step-Keeps r e copying s t h step =
      subst (λ x. IsBehind x.phase × Keeps s x) (some-injective _ _ step) (tt, (refl, refl, refl))
  run_step-Keeps r e (spawning (c ∷ cs)) s t h step =
      subst (λ x. IsBehind x.phase × Keeps s x) (some-injective _ _ step) (tt, (refl, refl, refl))
  run_step-Keeps r e (spawning []) s t h step =
      subst (λ x. IsBehind x.phase × Keeps s x) (some-injective _ _ step) (tt, (refl, refl, refl))
  run_step-Keeps r e gone s t h step = absurd (cc)

  add_callback-Keeps : (c : ℕ) (s : Running T) → Keeps s (add_callback c s)
  unfolding add_callback
  add_callback-Keeps c s = ground arith

  end_context-Keeps : (e : Error) (s : Running T) → Keeps s (end_context e s)
  unfolding end_context
  end_context-Keeps e s = ground arith

  Step-Keeps : {s t : Running T} → IsBehind s.phase → Step s t → IsBehind t.phase × Keeps s t
  Step-Keeps {s} {t} h (runs r e step) = run_step-Keeps r e s.phase s t h step
  Step-Keeps {s} h (adds c free) = (rw add_callback-phase h, add_callback-Keeps c s)
  Step-Keeps {s} h (ends e) = (rw end_context-phase h, end_context-Keeps e s)

  Reaches-Keeps : {s t : Running T} → IsBehind s.phase → Reaches s t → IsBehind t.phase × Keeps s t
  Reaches-Keeps h here = (h, (refl, refl, refl))
  Reaches-Keeps h (next r step) =
      let (behind, (a, b, c)) = Reaches-Keeps h r in
      let (behind', (a', b', c')) = Step-Keeps behind step in (behind', (a' ∙ a, b' ∙ b, c' ∙ c))

  -- From the first moment at which a task is done and its mutex free: it holds what its function has
  -- returned, or, if its context has ended, no result and a `TaskCancelledError`; and from then on,
  -- whatever happens to the task, `Result` returns just that.
  pub result-IsSettled :
      (x : Option Error) (s t : Running T)
      → Reaches (create_named_task zero_value x) s
      → is_locked s.phase ≡ false
      → is_done s.task.state ≡ true
      → Reaches s t
      → IsSettled zero_value s × (result t.task ≡ some (s.task.result, s.task.err))
  unfolding result create_named_task
  result-IsSettled x s t r free done later =
      let (behind, settled) =
        IsBehind-done s.phase s (Reaches-Holds zero_value (create-Holds zero_value x) r) free
          done in
      let (b, (same_state, same_result, same_err)) = Reaches-Keeps behind later in
      (settled, rw (same_state, same_result, same_err, done) refl)

  closed-Holds :
      (p : Phase T) (s : Running T)
      → Holds zero_value p s
      → s.task.closed ≡ true
      → (p ≡ gone) × IsSettled zero_value s
  closed-Holds starting s h shut = absurd (ground arith)
  closed-Holds calling s h shut = absurd (ground arith)
  closed-Holds (returned r e) s h shut = absurd (ground arith)
  closed-Holds (locked r e) s h shut = absurd (ground arith)
  closed-Holds (keeping r e) s h shut = absurd (ground arith)
  closed-Holds (dropping c) s h shut = absurd (ground arith)
  closed-Holds copying s h shut = absurd (ground arith)
  closed-Holds (spawning l) s h shut = absurd (ground arith)
  closed-Holds gone s h shut = (refl, h.0)

  -- When `Wait` returns for the task's channel, the task is settled, and `Wait` and `Result` return the
  -- same.
  pub wait-result :
      (x : Option Error) (s : Running T)
      → Reaches (create_named_task zero_value x) s
      → s.task.closed ≡ true
      → IsSettled zero_value s × (wait s.task ≡ result s.task)
  unfolding wait result is_done create_named_task
  wait-result x s r shut =
      let (at, settled) =
        closed-Holds s.phase s (Reaches-Holds zero_value (create-Holds zero_value x) r) shut in
      (settled, elim settled [ inl h ↦ rw (h.0, shut) refl | inr h ↦ rw (h.0, shut) refl ])
