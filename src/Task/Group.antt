-- ===== src/Task/Group.antt =====
-- pkg/py/pyasyncio/task_group.go: a group of tasks. `CreateNamedTask` and `monitorTask` hold the mutex
-- for their whole body and are functions; a task is told by what its monitor has read of it.
pub mod Counted
pub mod Monitored
pub mod Race
use adk_go.Task.{TaskError}
use adk_go.Base.{
  ℕ, zero, suc, ◌-◌, Bool, true, false, Option, none, some, List, [], ◌∷◌, ◌++◌, ◌≡◌, length, eqb,
  if◌then◌else◌, or_else, Outcome, ok, fail, panic, Error, nil_function, group_finished,
}

-- What `task.Result()` returns of a task that is done.
pub data TaskResult (T : Type 0) : Type 0 where
  succeeded : T → TaskResult T
  failed : TaskError → TaskResult T

-- The fields of `TaskGroup`. Of each task of `tasks`, `none` as long as its monitor waits; whether the
-- context of the group is cancelled and the channel `done` closed.
pub record TaskGroup (T : Type 0) : Type 0 where
  pub cancelled : Bool
  pub tasks : List (Option (TaskResult T))
  pub closed : Bool
  pub finished : Bool
  pub errors : List TaskError
  pub first_error : Option TaskError
  pub results : List T
  pub active_count : ℕ

-- A `TaskGroupError`, without its message, which `Wait` makes of the number of errors.
pub record TaskGroupError : Type 0 where
  pub group_errors : List TaskError

module _ {T : Type 0} where
  -- `NewTaskGroup`, below a context that is cancelled or not.
  unfoldable pub new_task_group : (cancelled : Bool) → TaskGroup T
  new_task_group cancelled = record {
    cancelled = cancelled;
    tasks = [];
    closed = false;
    finished = false;
    errors = [];
    first_error = none;
    results = [];
    active_count = 0;
  }

  -- `CreateNamedTask`: the error that it returns, if any.
  unfoldable pub create_group_task : (is_nil : Bool) → TaskGroup T → TaskGroup T × Option Error
  create_group_task is_nil g =
      if is_nil
      then (g, some nil_function)
      else if g.finished
      then (g, some group_finished)
      else (record g { tasks = g.tasks ++ none ∷ []; active_count = suc g.active_count }, none)

  -- What `monitorTask` does with the result.
  unfoldable pub record_result : TaskResult T → TaskGroup T → TaskGroup T
  record_result (succeeded r) g = record g { results = g.results ++ r ∷ [] }
  record_result (failed e) g = record g {
    errors = g.errors ++ e ∷ [];
    first_error = or_else g.first_error (some e);
    cancelled = true;
  }

  -- `monitorTask` of a task with this result, behind the mutex; the tasks are as the monitor leaves
  -- them. Closing a channel again panics.
  unfoldable pub monitor_task :
      TaskResult T → List (Option (TaskResult T)) → TaskGroup T → Outcome (TaskGroup T)
  unfolding record_result
  monitor_task o tasks g =
      let remaining = g.active_count - 1 in
      let seen = record (record_result o g) { tasks = tasks; active_count = remaining } in
      if eqb remaining 0
      then if seen.closed then panic else ok (record seen { finished = true; closed = true })
      else ok seen

  -- `Cancel` and `Close`
  unfoldable pub cancel_group : TaskGroup T → TaskGroup T
  cancel_group g = record g { cancelled = true }

  -- `Wait`, while its own context lives: the results and the error, or `none` where it waits.
  unfoldable pub wait_group : TaskGroup T → Option (List T × Option TaskGroupError)
  wait_group g =
      if eqb (length g.tasks) 0
      then some ([], none)
      else if g.closed
      then some (
        g.results,
        if eqb (length g.errors) 0 then none else some (record { group_errors = g.errors }),
      )
      else none

  -- `WaitForCompletion`
  unfoldable pub wait_for_completion : TaskGroup T → Option (List T × Option TaskGroupError)
  wait_for_completion g =
      if g.closed
      then some (
        g.results,
        if eqb (length g.errors) 0 then none else some (record { group_errors = g.errors }),
      )
      else none

  -- A call of `CreateNamedTask`, the monitor of a task that is done, with whatever result, and the end
  -- of the context.
  pub data Step (g : TaskGroup T) : Outcome (TaskGroup T) → Type 0 where
    creates : (is_nil : Bool) → Step g (ok (create_group_task is_nil g).0)
    monitors :
        (pre post : List (Option (TaskResult T))) (o : TaskResult T)
        → g.tasks ≡ pre ++ none ∷ post
        → Step g (monitor_task o (pre ++ some o ∷ post) g)
    cancels : Step g (ok (cancel_group g))

  pub data Reaches (g : TaskGroup T) : Outcome (TaskGroup T) → Type 0 where
    here : Reaches g (ok g)
    next : {h : TaskGroup T} {o : Outcome (TaskGroup T)} → Reaches g (ok h) → Step h o → Reaches g o
