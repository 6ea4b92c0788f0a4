-- ===== src/Task/Timeout.antt =====
-- pkg/py/pyasyncio/wait_for.go: `WaitFor` and `WaitForTask`, on a task and its goroutine, with a function
-- and a task that are not nil. A call is what it returns in a state of the task, or `none` as long as it
-- waits. The error of the context is the one that `timeoutCtx.Err()` gives behind `Wait`: where the
-- context ended in between, `Wait` is the run with `prefers_task`. The text of a `TimeoutError` is
-- left out.
pub mod Answers
use adk_go.Task.{Task, Running, TaskError, cancel, create_named_task}
use adk_go.Base.{
  ℤ, is_positive, Bool, true, false, not, Option, none, some, Error, deadline_exceeded,
  if◌then◌else◌,
}

-- What is returned beside the value: a `TimeoutError`, the error of the task, or the error of the
-- context that `Wait` was given.
pub data WaitError : Type 0 where
  timed_out : WaitError
  of_task : TaskError → WaitError
  of_context : Error → WaitError

abbrev pub is_deadline : Option Error → Bool
is_deadline (some deadline_exceeded) = true
is_deadline _ = false

abbrev as_task_error : Option TaskError → Option WaitError
as_task_error none = none
as_task_error (some e) = some (of_task e)

module _ {T : Type 0} (zero_value : T) where
  -- `Wait` under a context with this error. Where both channels of its `select` are ready either may be
  -- taken: `prefers_task` tells which.
  unfoldable pub wait_select :
      (prefers_task : Bool) → Task T → Option Error → Option (T × Option WaitError)
  wait_select prefers_task t none = if t.closed then some (t.result, as_task_error t.err) else none
  wait_select true t (some e) =
      if t.closed
      then some (t.result, as_task_error t.err)
      else some (zero_value, some (of_context e))
  wait_select false t (some e) = some (zero_value, some (of_context e))

  -- What both functions do behind `Wait`, with the error of the timeout context.
  unfoldable pub answer : Option Error → T × Option WaitError → T × Option WaitError
  answer context_error (r, none) = (r, none)
  answer context_error (r, some e) =
      if is_deadline context_error then (zero_value, some timed_out) else (zero_value, some e)

  -- `WaitForTask`, with the error of its timeout context.
  unfoldable pub wait_for_task :
      (timeout : ℤ) → (prefers_task : Bool) → Task T → Option Error → Option (T × Option WaitError)
  unfolding wait_select answer
  wait_for_task timeout prefers_task t context_error =
      if not (is_positive timeout)
      then some (zero_value, some timed_out)
      else elim (wait_select prefers_task t context_error) [
        | none ↦ none
        | some a ↦ some (answer context_error a)
      ]

  -- `WaitFor`, whose task runs under the timeout context itself.
  unfoldable pub wait_for :
      (timeout : ℤ) → (prefers_task : Bool) → Task T → Option (T × Option WaitError)
  unfolding wait_for_task
  wait_for timeout prefers_task t = wait_for_task timeout prefers_task t t.context_error
