-- ===== src/Tests/Tasks.antt =====
-- A concrete task (pkg/py/pyasyncio/task.go) and a concrete group of tasks
-- (pkg/py/pyasyncio/task_group.go).
use adk_go.Task.{
  Running, Reaches, here, next, runs, adds, create_named_task, gone, run_step, decide, add_callback,
  is_done, task_done, result, returned_error,
}
use adk_go.Task.Phases.{IsSettled}
use adk_go.Task.Settled.{result-IsSettled}
use adk_go.Task.Callbacks.{callbacks-started, occurrences}
use adk_go.Task.Group.{
  TaskGroup, TaskResult, succeeded, failed, new_task_group, create_group_task, monitor_task,
  record_result, wait_group, creates, monitors,
}
use adk_go.Task.Group
use adk_go.Task.Group.Counted.{waiting, failures, IsCounted}
use adk_go.Task.Group.Monitored.{Reaches-IsCounted, wait_group_complete}
use adk_go.Task.Timeout.{wait_for_task}
use adk_go.Task.Timeout.Answers.{wait_for_task-outcome}
use adk_go.Base.{
  ℕ, [], ◌∷◌, ◌≡◌, none, some, true, refl, false, length, ok, foreign, ◌+◌, arith, ◌↔◌, pos,
}

-- A task whose function returns 7, with callback 1 added before it is done and callback 2 after that.
abbrev finished_task : Running ℕ
finished_task = record {
  task = record {
    state = task_done;
    context_error = none;
    result = 7;
    err = none;
    closed = true;
    callbacks = 1 ∷ [];
  };
  phase = gone;
  registered = 1 ∷ 2 ∷ [];
  executed = 2 ∷ 1 ∷ [];
  outcome = some (7, none);
}

finished_task-Reaches : Reaches (create_named_task 0 none) finished_task
unfolding create_named_task run_step decide add_callback is_done
finished_task-Reaches =
    next
      (next
        (next
          (next
            (next
              (next
                (next (next (next (next here (runs 7 none refl)) (adds 1 refl)) (runs 7 none refl))
                  (runs 7 none refl))
                (runs 7 none refl))
              (runs 7 none refl))
            (adds 2 refl))
          (runs 7 none refl))
        (runs 7 none refl))
      (runs 7 none refl)

result-IsSettled_example : IsSettled 0 finished_task × (result finished_task.task ≡ some (7, none))
unfolding is_done
result-IsSettled_example =
    result-IsSettled 0 none finished_task finished_task finished_task-Reaches refl refl here

callbacks-started_example : occurrences 2 (2 ∷ 1 ∷ []) ≡ occurrences 2 (1 ∷ 2 ∷ [])
callbacks-started_example = callbacks-started 0 none 2 finished_task finished_task-Reaches refl

-- A group of two tasks, of which the second has failed and then the first has returned 4.
abbrev both_done : TaskGroup ℕ
both_done = record {
  cancelled = true;
  tasks = some (succeeded 4) ∷ some (failed (returned_error (foreign 1))) ∷ [];
  closed = true;
  finished = true;
  errors = returned_error (foreign 1) ∷ [];
  first_error = some (returned_error (foreign 1));
  results = 4 ∷ [];
  active_count = 0;
}

both_done-Reaches : Group.Reaches (new_task_group false) (ok both_done)
unfolding new_task_group create_group_task monitor_task record_result
both_done-Reaches =
    Group.next
      (Group.next (Group.next (Group.next Group.here (creates false)) (creates false))
        (monitors (none ∷ []) [] (failed (returned_error (foreign 1))) refl))
      (monitors [] (some (failed (returned_error (foreign 1))) ∷ []) (succeeded 4) refl)

Reaches-IsCounted_example : (g : TaskGroup ℕ) × (ok both_done ≡ ok g) × IsCounted g
Reaches-IsCounted_example = Reaches-IsCounted false (ok both_done) both_done-Reaches

both_done-wait :
    wait_group both_done
    ≡ some (4 ∷ [], some (record { group_errors = returned_error (foreign 1) ∷ [] }))
unfolding wait_group
both_done-wait = refl

wait_group_complete_example :
    (waiting both_done.tasks ≡ 0)
    × (length both_done.results + failures both_done.tasks ≡ 2)
    × ((true ≡ false) ↔ (failures both_done.tasks ≡ 0))
wait_group_complete_example =
    wait_group_complete false both_done (4 ∷ [])
      (some (record { group_errors = returned_error (foreign 1) ∷ [] })) both_done-Reaches
      (omega arith) both_done-wait

finished_task-wait_for : wait_for_task 0 (pos 5) true finished_task.task none ≡ some (7, none)
unfolding wait_for_task
finished_task-wait_for = refl

wait_for_task-outcome_example :
    (finished_task.task.state ≡ task_done) × (finished_task.outcome ≡ some (7, none))
wait_for_task-outcome_example =
    wait_for_task-outcome 0 none finished_task finished_task-Reaches (pos 5) true none 7
      finished_task-wait_for
