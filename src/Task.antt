-- ===== src/Task.antt =====
-- pkg/py/pyasyncio/task.go: a task, the goroutine of its `run`, and what other goroutines do to it. A
-- callback is told by a number. The steps are what a goroutine does between two points where another
-- can see a difference: `AddCallback` and the readers hold the mutex for their whole body. A function
-- that panics ends the program and is left out.
pub mod Phases
pub mod Callbacks
pub mod Settled
pub mod Group
pub mod Timeout
use adk_go.Base.{
  ℕ, Bool, true, false, Option, none, some, List, [], ◌∷◌, ◌++◌, ◌≡◌, Error, Outcome, ok, fail,
  if◌then◌else◌, ◌||◌, not,
}

pub data TaskState : Type 0 where
  task_pending task_running task_done task_cancelled : TaskState

-- An error of the function, or a `TaskCancelledError` with the error of the context.
pub data TaskError : Type 0 where
  returned_error : Error → TaskError
  task_cancelled_error : Error → TaskError

-- The fields of `Task`, with what `ctx.Err()` is and whether the channel `done` is closed.
pub record Task (T : Type 0) : Type 0 where
  pub state : TaskState
  pub context_error : Option Error
  pub result : T
  pub err : Option TaskError
  pub closed : Bool
  pub callbacks : List ℕ

-- Where the goroutine of `run` stands.
pub data Phase (T : Type 0) : Type 0 where
  -- Before the state is set to running, and in the call of the function.
  starting calling : Phase T
  -- The function has returned this; before the `Lock`, and before the `select` behind it.
  returned locked : T → Option Error → Phase T
  -- The state is set; before the fields are written and the mutex is unlocked.
  keeping : T → Option Error → Phase T
  dropping : Error → Phase T
  -- Before `executeCallbacks` copies the callbacks, in its loop, and after `close(t.done)`.
  copying : Phase T
  spawning : List ℕ → Phase T
  gone : Phase T

-- `Done`
unfoldable pub is_done : TaskState → Bool
is_done task_pending = false
is_done task_running = false
is_done task_done = true
is_done task_cancelled = true

abbrev pub is_locked : {T : Type 0} → Phase T → Bool
is_locked (locked r e) = true
is_locked (keeping r e) = true
is_locked (dropping e) = true
is_locked _ = false

abbrev pub as_returned : Option Error → Option TaskError
as_returned none = none
as_returned (some e) = some (returned_error e)

-- A task with its goroutine, the callbacks that `AddCallback` has been called with, those for which a
-- goroutine has been started, and what the function has returned.
pub record Running (T : Type 0) : Type 0 where
  pub task : Task T
  pub phase : Phase T
  pub registered : List ℕ
  pub executed : List ℕ
  pub outcome : Option (T × Option Error)

module _ {T : Type 0} where
  -- `CreateNamedTask` of a function that is not nil; `zero_value` is the zero value of `T`.
  unfoldable pub create_named_task : (zero_value : T) → Option Error → Running T
  create_named_task zero_value context_error = record {
    task = record {
      state = task_pending;
      context_error = context_error;
      result = zero_value;
      err = none;
      closed = false;
      callbacks = [];
    };
    phase = starting;
    registered = [];
    executed = [];
    outcome = none;
  }

  -- The `select` of `run`.
  unfoldable pub decide : T → Option Error → Running T → Running T
  decide r e s = elim s.task.context_error [
    | none ↦ record s { task = record s.task { state = task_done }; phase = keeping r e }
    | some c ↦ record s { task = record s.task { state = task_cancelled }; phase = dropping c }
  ]

  -- What the goroutine of `run` does next in each phase, with `executeCallbacks`; the function returns
  -- `r` and `e`.
  unfoldable pub run_step : (r : T) → (e : Option Error) → Phase T → Running T → Option (Running T)
  unfolding decide
  run_step r e starting s =
      some (record s { task = record s.task { state = task_running }; phase = calling })
  run_step r e calling s = some (record s { phase = returned r e; outcome = some (r, e) })
  run_step r e (returned r' e') s = some (record s { phase = locked r' e' })
  run_step r e (locked r' e') s = some (decide r' e' s)
  run_step r e (keeping r' e') s =
      some
        (record s { task = record s.task { result = r'; err = as_returned e' }; phase = copying })
  run_step r e (dropping c) s =
      some
        (record s { task = record s.task { err = some (task_cancelled_error c) }; phase = copying })
  run_step r e copying s = some (record s { phase = spawning s.task.callbacks })
  run_step r e (spawning (c ∷ cs)) s =
      some (record s { phase = spawning cs; executed = s.executed ++ c ∷ [] })
  run_step r e (spawning []) s =
      some (record s { task = record s.task { closed = true }; phase = gone })
  run_step r e gone s = none

  -- `AddCallback`, with a callback that is not nil.
  unfoldable pub add_callback : ℕ → Running T → Running T
  unfolding is_done
  add_callback c s =
      let known = record s { registered = s.registered ++ c ∷ [] } in
      if is_done s.task.state
      then record known { executed = s.executed ++ c ∷ [] }
      else record known { task = record s.task { callbacks = s.task.callbacks ++ c ∷ [] } }

  -- The end of the context, by `Cancel` or from outside: the first error stays.
  unfoldable pub end_context : Error → Running T → Running T
  end_context e s = elim s.task.context_error [
    | none ↦ record s { task = record s.task { context_error = some e } }
    | some c ↦ s
  ]

  -- `Cancel`: what it returns, and the task that it leaves.
  unfoldable pub cancel : Error → Running T → Running T × Bool
  unfolding is_done end_context
  cancel canceled s = if is_done s.task.state then (s, false) else (end_context canceled s, true)

  pub data Step (s : Running T) : Running T → Type 0 where
    runs : {t : Running T} (r : T) (e : Option Error) → run_step r e s.phase s ≡ some t → Step s t
    adds : (c : ℕ) → is_locked s.phase ≡ false → Step s (add_callback c s)
    ends : (e : Error) → Step s (end_context e s)

  pub data Reaches (s : Running T) : Running T → Type 0 where
    here : Reaches s s
    next : {t u : Running T} → Reaches s t → Step t u → Reaches s u

  -- `Wait` and `Result`, where they do not wait: what they return, if the task is there yet.
  unfoldable pub result : Task T → Option (T × Option TaskError)
  unfolding is_done
  result t = if is_done t.state then some (t.result, t.err) else none

  unfoldable pub wait : Task T → Option (T × Option TaskError)
  wait t = if t.closed then some (t.result, t.err) else none
