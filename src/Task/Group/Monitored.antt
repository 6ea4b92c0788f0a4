-- ===== src/Task/Group/Monitored.antt =====
-- Monitors and `Wait` of a group (pkg/py/pyasyncio/task_group.go).
use adk_go.Task.Group.{
  TaskResult, succeeded, failed, TaskGroup, TaskGroupError, new_task_group, record_result,
  monitor_task, wait_group, Step, Reaches, creates, monitors, cancels, here, next,
}
use adk_go.Task.Group.Counted.{
  waiting, failures, waiting-append, failures-append, IsCounted, AllCounted, create-IsCounted,
  cancel-IsCounted,
}
use mathlib.Core.Path.{subst}
use adk_go.Base.{
  ◌↔◌, ap, ◌∙◌, sym, suc, ◌+◌, ◌-◌, ◌<◌, Bool, true, false, Option, none, some, List, [], ◌∷◌, ◌++◌,
  ◌≡◌, length, eqb, arith, refl, Outcome, ok, fail, panic, length-append, Bool-cases, inl, inr,
  is_some,
}

module _ {T : Type 0} where
  -- The group behind a monitor, but for the flags.
  abbrev recorded : TaskResult T → List (Option (TaskResult T)) → TaskGroup T → TaskGroup T
  unfolding record_result
  recorded o tasks g = record (record_result o g) {
    tasks = tasks;
    active_count = g.active_count - 1;
  }

  monitor-last :
      (o : TaskResult T) (tasks : List (Option (TaskResult T))) (g : TaskGroup T)
      → g.active_count ≡ 1
      → g.closed ≡ false
      → monitor_task o tasks g ≡ ok (record (recorded o tasks g) { finished = true; closed = true })
  unfolding monitor_task record_result recorded
  monitor-last (succeeded r) tasks g last still = ground (arith, last, still)
  monitor-last (failed e) tasks g last still = ground (arith, last, still)

  monitor-other :
      (o : TaskResult T) (tasks : List (Option (TaskResult T))) (g : TaskGroup T)
      → 1 < g.active_count
      → monitor_task o tasks g ≡ ok (recorded o tasks g)
  unfolding monitor_task record_result recorded
  monitor-other (succeeded r) tasks g more = ground (arith, more)
  monitor-other (failed e) tasks g more = ground (arith, more)

  abbrev after :
      List (Option (TaskResult T))
      → List (Option (TaskResult T))
      → TaskResult T
      → List (Option (TaskResult T))
  after pre post o = pre ++ some o ∷ post

  module _ (pre post : List (Option (TaskResult T))) (o : TaskResult T) (g : TaskGroup T)
      (at : g.tasks ≡ pre ++ none ∷ post) (w : IsCounted g) where
    active-before : g.active_count ≡ suc (waiting (after pre post o))
    active-before = omega (
      arith,
      w.active,
      ap waiting at,
      waiting-append pre (none ∷ post),
      waiting-append pre (some o ∷ post),
    )

    length-after : length (after pre post o) ≡ length g.tasks
    length-after =
        omega
          (arith, ap length at, length-append pre (none ∷ post), length-append pre (some o ∷ post))

    failures-before : failures g.tasks ≡ failures pre + failures post
    failures-before = omega (arith, ap failures at, failures-append pre (none ∷ post))

    still_open : g.closed ≡ false
    still_open = elim (Bool-cases g.finished) [
      | inl over ↦ absurd (omega (arith, (w.finishing over).1, active-before))
      | inr going ↦ w.closing ∙ going
    ]

  -- The lists behind a monitor.
  recorded-counts :
      (pre post : List (Option (TaskResult T))) (o : TaskResult T) (g : TaskGroup T)
      → g.tasks ≡ pre ++ none ∷ post
      → IsCounted g
      → (length (recorded o (after pre post o) g).errors ≡ failures (after pre post o))
        × (length (recorded o (after pre post o) g).results
              + length (recorded o (after pre post o) g).errors
              + (g.active_count - 1)
            ≡ length (after pre post o))
        × (0 < length (recorded o (after pre post o) g).errors
            → (recorded o (after pre post o) g).cancelled ≡ true)
        × (is_some (recorded o (after pre post o) g).first_error ≡ false
            → length (recorded o (after pre post o) g).errors ≡ 0)
  unfolding recorded record_result
  recorded-counts pre post (succeeded r) g at w = (
    omega (
      arith,
      w.failing,
      failures-before pre post (succeeded r) g at w,
      failures-append pre (some (succeeded r) ∷ post),
    ),
    omega (
      arith,
      w.passing,
      length-append g.results (r ∷ []),
      length-after pre post (succeeded r) g at w,
      active-before pre post (succeeded r) g at w,
    ),
    w.failing_fast,
    w.first,
  )
  recorded-counts pre post (failed e) g at w = (
    omega (
      arith,
      w.failing,
      failures-before pre post (failed e) g at w,
      failures-append pre (some (failed e) ∷ post),
      length-append g.errors (e ∷ []),
    ),
    omega (
      arith,
      w.passing,
      length-append g.errors (e ∷ []),
      length-after pre post (failed e) g at w,
      active-before pre post (failed e) g at w,
    ),
    λ h. refl,
    λ h. absurd (ground (arith)),
  )

  recorded-flags :
      (o : TaskResult T) (tasks : List (Option (TaskResult T))) (g : TaskGroup T)
      → ((recorded o tasks g).closed ≡ g.closed) × ((recorded o tasks g).finished ≡ g.finished)
  unfolding recorded record_result
  recorded-flags (succeeded r) tasks g = (refl, refl)
  recorded-flags (failed e) tasks g = (refl, refl)

  monitor-IsCounted :
      (pre post : List (Option (TaskResult T))) (o : TaskResult T) (g : TaskGroup T)
      → g.tasks ≡ pre ++ none ∷ post
      → IsCounted g
      → (m : TaskGroup T) × (monitor_task o (pre ++ some o ∷ post) g ≡ ok m) × IsCounted m
  unfolding recorded
  monitor-IsCounted pre post o g at w =
      let before = active-before pre post o g at w in
      let (failing, passing, failing_fast, first) = recorded-counts pre post o g at w in
      let going = still_open pre post o g at w in
      let (shut, over) = recorded-flags o (after pre post o) g in
      let some_task = length-append pre (some o ∷ post) in
      elim (Bool-cases (eqb g.active_count 1)) [
        | inl last ↦ (
          record (recorded o (after pre post o) g) { finished = true; closed = true },
          monitor-last o (after pre post o) g (ground arith) (still_open pre post o g at w),
          record {
            active = omega (arith, before);
            failing = failing;
            passing = passing;
            closing = refl;
            finishing = λ h. (omega (arith, some_task), ground arith);
            ending = λ h none_left. refl;
            failing_fast = failing_fast;
            first = first;
          },
        )
        | inr other ↦ (
          recorded o (after pre post o) g,
          monitor-other o (after pre post o) g (ground arith),
          record {
            active = omega (arith, before);
            failing = failing;
            passing = passing;
            closing = cc (shut, over, w.closing);
            finishing = λ h. absurd (cc (over, h, going, w.closing));
            ending = λ h none_left. absurd (ground arith);
            failing_fast = failing_fast;
            first = first;
          },
        )
      ]

  split : (o : Outcome (TaskGroup T)) → AllCounted o → (g : TaskGroup T) × (o ≡ ok g) × IsCounted g
  split (ok g) w = (g, refl, w)
  split (fail e) w = absurd w
  split panic w = absurd w

  Step-AllCounted :
      {g : TaskGroup T} {o : Outcome (TaskGroup T)} → IsCounted g → Step g o → AllCounted o
  Step-AllCounted {g} w (creates is_nil) = create-IsCounted is_nil g w
  Step-AllCounted {g} w (monitors pre post o at) =
      let (m, e, counted) = monitor-IsCounted pre post o g at w in subst AllCounted (sym e) counted
  Step-AllCounted {g} w cancels = cancel-IsCounted g w

  new-IsCounted : (c : Bool) → IsCounted (new_task_group {T = T} c)
  unfolding new_task_group
  new-IsCounted c = record {
    active = refl;
    failing = refl;
    passing = omega arith;
    closing = refl;
    finishing = λ h. absurd (cc);
    ending = λ h. absurd (omega arith);
    failing_fast = λ h. absurd (omega arith);
    first = λ h. refl;
  }

  -- Whatever tasks are added to a new group, whatever they return and in whatever order they end: the
  -- channel is never closed twice, the group is finished exactly when it has tasks and all are done,
  -- every task that is done has left one result or one error, and a group with an error is cancelled.
  pub Reaches-IsCounted :
      (c : Bool) (o : Outcome (TaskGroup T))
      → Reaches (new_task_group c) o
      → (g : TaskGroup T) × (o ≡ ok g) × IsCounted g
  Reaches-IsCounted c _ here = (new_task_group c, refl, new-IsCounted c)
  Reaches-IsCounted c o (next {h} r step) =
      let (g, e, w) = Reaches-IsCounted c (ok h) r in
      split o (Step-AllCounted (subst AllCounted (sym e) w) step)

  wait_complete :
      (g : TaskGroup T) (rs : List T) (e : Option TaskGroupError)
      → IsCounted g
      → 0 < length g.tasks
      → wait_group g ≡ some (rs, e)
      → (waiting g.tasks ≡ 0)
        × (length rs + failures g.tasks ≡ length g.tasks)
        × ((is_some e ≡ false) ↔ (failures g.tasks ≡ 0))
  unfolding wait_group
  wait_complete g rs e w some_task got = elim (Bool-cases g.closed) [
    | inl shut ↦
        ground (arith, shut, w.active, w.failing, w.passing, w.finishing (sym w.closing ∙ shut))
    | inr still ↦ absurd (ground (arith, still))
  ]

  -- If a group that has tasks lets its `Wait` return for its channel, all of the tasks are done, each has
  -- left a result or an error, and the error that `Wait` returns is nil exactly when no task has failed.
  pub wait_group_complete :
      (c : Bool) (g : TaskGroup T) (rs : List T) (e : Option TaskGroupError)
      → Reaches (new_task_group c) (ok g)
      → 0 < length g.tasks
      → wait_group g ≡ some (rs, e)
      → (waiting g.tasks ≡ 0)
        × (length rs + failures g.tasks ≡ length g.tasks)
        × ((is_some e ≡ false) ↔ (failures g.tasks ≡ 0))
  unfolding wait_group
  wait_group_complete c g rs e r some_task got =
      let (m, same, w) = Reaches-IsCounted c (ok g) r in
      wait_complete g rs e (subst AllCounted (sym same) w) some_task got
