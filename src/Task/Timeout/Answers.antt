-- ===== src/Task/Timeout/Answers.antt =====
-- What `WaitFor` and `WaitForTask` return (pkg/py/pyasyncio/wait_for.go).
use adk_go.Task.Timeout.{WaitError, wait_select, answer, wait_for_task}
use adk_go.Task.{Running, Task, Reaches, create_named_task, task_done, as_returned}
use adk_go.Task.Phases.{IsSettled}
use adk_go.Task.Settled.{wait-result}
use adk_go.Base.{ℤ, Bool, true, false, Option, none, some, Error, ◌≡◌, inl, inr, refl, arith}

module _ {T : Type 0} (zero_value : T) where
  -- A value without an error.
  abbrev IsValue : T → Option (T × Option WaitError) → Type 0
  IsValue r o = o ≡ some (r, none)

  closed-value :
      (timeout : ℤ) (p : Bool) (t : Task T) (c : Option Error) (r : T)
      → wait_for_task zero_value timeout p t c ≡ some (r, none)
      → (t.closed ≡ true) × (t.result ≡ r) × (t.err ≡ none)
  unfolding wait_for_task wait_select answer
  closed-value timeout true t none r h = ground arith
  closed-value timeout false t none r h = ground arith
  closed-value timeout true t (some e) r h = ground arith
  closed-value timeout false t (some e) r h = ground arith

  as_returned-none : (e : Option Error) → as_returned e ≡ none → e ≡ none
  as_returned-none none h = refl
  as_returned-none (some e) h = absurd (cc)

  settled-value :
      (s : Running T) (r : T)
      → IsSettled zero_value s
      → s.task.result ≡ r
      → s.task.err ≡ none
      → (s.task.state ≡ task_done) × (s.outcome ≡ some (r, none))
  settled-value s r (inl (done, r', e', got, same, err)) at bare =
      let no_error = as_returned-none e' (cc (err, bare)) in (done, cc (got, no_error, same, at))
  settled-value s r (inr (ended, c, error, same, err)) at bare = absurd (cc)

  -- When `WaitForTask` or `WaitFor` returns a value without an error, whatever the timeout and the
  -- contexts, then the function of the task has returned just that, without an error, and the task is
  -- done and was not cancelled.
  pub wait_for_task-outcome :
      (x : Option Error) (s : Running T)
      → Reaches (create_named_task zero_value x) s
      → (timeout : ℤ) (prefers_task : Bool) (c : Option Error) (r : T)
      → wait_for_task zero_value timeout prefers_task s.task c ≡ some (r, none)
      → (s.task.state ≡ task_done) × (s.outcome ≡ some (r, none))
  wait_for_task-outcome x s reached timeout prefers_task c r returned =
      let (shut, at, bare) = closed-value timeout prefers_task s.task c r returned in
      settled-value s r (wait-result zero_value x s reached shut).0 at bare
