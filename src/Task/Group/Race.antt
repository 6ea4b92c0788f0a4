-- ===== src/Task/Group/Race.antt =====
-- Adding tasks to a group one after the other (pkg/py/pyasyncio/task_group.go, `CreateNamedTask`, as
-- `Gather` calls it).
use mathlib.Core.Path.{subst}
use adk_go.Task.Group.{
  TaskGroup, succeeded, new_task_group, create_group_task, monitor_task, record_result, Reaches,
  here, next, creates, monitors,
}
use adk_go.Task.Group.Counted.{waiting, failures, IsCounted, AllCounted}
use adk_go.Task.Group.Monitored.{Reaches-IsCounted}
use adk_go.Base.{Bool, false, some, [], ◌≡◌, ◌<◌, length, ok, sym, arith, refl, group_finished}

module _ {T : Type 0} where
  create-refused :
      (g : TaskGroup T)
      → IsCounted g
      → 0 < length g.tasks
      → waiting g.tasks ≡ 0
      → create_group_task false g ≡ (g, some group_finished)
  unfolding create_group_task
  create-refused g w some_task all_done =
      ground (arith, w.ending some_task (omega (arith, w.active, all_done)))

  -- A group is finished as soon as all tasks that it has so far are done, with or without an error: from
  -- then on it takes no more tasks.
  pub create_group_task-refused :
      (c : Bool) (g : TaskGroup T)
      → Reaches (new_task_group c) (ok g)
      → 0 < length g.tasks
      → waiting g.tasks ≡ 0
      → create_group_task false g ≡ (g, some group_finished)
  create_group_task-refused c g r some_task all_done =
      let (m, same, w) = Reaches-IsCounted c (ok g) r in
      create-refused g (subst AllCounted (sym same) w) some_task all_done

  -- So adding two functions, as `Gather` does, can fail although no task fails: the first may be done,
  -- with any result `r`, before the second is added.
  two_tasks-race :
      (r : T)
      → (g : TaskGroup T) × Reaches (new_task_group false) (ok g)
        × (failures g.tasks ≡ 0)
        × ((create_group_task false g).1 ≡ some group_finished)
  unfolding new_task_group create_group_task monitor_task record_result
  two_tasks-race r =
      (_, next (next here (creates false)) (monitors [] [] (succeeded r) refl), refl, refl)
