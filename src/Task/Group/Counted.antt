-- ===== src/Task/Group/Counted.antt =====
-- What the counts, lists and flags of a group tell of its tasks (pkg/py/pyasyncio/task_group.go).
use adk_go.Task.Group.{TaskResult, succeeded, failed, TaskGroup, create_group_task, cancel_group}
use mathlib.Core.Path.{subst}
use adk_go.Base.{
  sym, ℕ, suc, ◌+◌, ◌<◌, Bool, true, false, Option, none, some, List, [], ◌∷◌, ◌++◌, ◌≡◌, length,
  arith, refl, Outcome, ok, fail, panic, length-append, Bool-cases, inl, inr, is_some,
}

module _ {T : Type 0} where
  -- The tasks whose monitor waits.
  abbrev pub waiting : List (Option (TaskResult T)) → ℕ
  waiting [] = 0
  waiting (none ∷ ts) = suc (waiting ts)
  waiting (some o ∷ ts) = waiting ts

  -- The tasks that have failed.
  abbrev pub failures : List (Option (TaskResult T)) → ℕ
  failures [] = 0
  failures (none ∷ ts) = failures ts
  failures (some (succeeded r) ∷ ts) = failures ts
  failures (some (failed e) ∷ ts) = suc (failures ts)

  pub waiting-append :
      (xs ys : List (Option (TaskResult T))) → waiting (xs ++ ys) ≡ waiting xs + waiting ys
  waiting-append [] ys = omega arith
  waiting-append (none ∷ xs) ys = omega (arith, waiting-append xs ys)
  waiting-append (some o ∷ xs) ys = omega (arith, waiting-append xs ys)

  pub failures-append :
      (xs ys : List (Option (TaskResult T))) → failures (xs ++ ys) ≡ failures xs + failures ys
  failures-append [] ys = omega arith
  failures-append (none ∷ xs) ys = omega (arith, failures-append xs ys)
  failures-append (some (succeeded r) ∷ xs) ys = omega (arith, failures-append xs ys)
  failures-append (some (failed e) ∷ xs) ys = omega (arith, failures-append xs ys)

  -- A group is finished when it has tasks and all are done, and then its channel is closed; each task
  -- that is done has left a result or an error; and a group with an error is cancelled.
  pub record IsCounted (g : TaskGroup T) : Type 0 where
    pub active : g.active_count ≡ waiting g.tasks
    pub failing : length g.errors ≡ failures g.tasks
    pub passing : length g.results + length g.errors + g.active_count ≡ length g.tasks
    pub closing : g.closed ≡ g.finished
    pub finishing : g.finished ≡ true → (0 < length g.tasks) × (g.active_count ≡ 0)
    pub ending : 0 < length g.tasks → g.active_count ≡ 0 → g.finished ≡ true
    pub failing_fast : 0 < length g.errors → g.cancelled ≡ true
    pub first : is_some g.first_error ≡ false → length g.errors ≡ 0

  abbrev pub AllCounted : Outcome (TaskGroup T) → Type 0
  AllCounted (ok g) = IsCounted g
  AllCounted (fail e) = ⊥
  AllCounted panic = ⊥

  -- The group with one more task.
  abbrev with_task : TaskGroup T → TaskGroup T
  with_task g = record g { tasks = g.tasks ++ none ∷ []; active_count = suc g.active_count }

  create-finished : (g : TaskGroup T) → g.finished ≡ true → (create_group_task false g).0 ≡ g
  unfolding create_group_task
  create-finished g over = ground (arith, over)

  create-unfinished :
      (g : TaskGroup T) → g.finished ≡ false → (create_group_task false g).0 ≡ with_task g
  unfolding create_group_task
  create-unfinished g going = ground (arith, going)

  with_task-IsCounted :
      (g : TaskGroup T) → g.finished ≡ false → IsCounted g → IsCounted (with_task g)
  with_task-IsCounted g going w = record {
    active = omega (arith, w.active, waiting-append g.tasks (none ∷ []));
    failing = omega (arith, w.failing, failures-append g.tasks (none ∷ []));
    passing = omega (arith, w.passing, length-append g.tasks (none ∷ []));
    closing = w.closing;
    finishing = λ h. absurd (cc);
    ending = λ some_task none_left. absurd (omega arith);
    failing_fast = w.failing_fast;
    first = w.first;
  }

  pub create-IsCounted :
      (is_nil : Bool) (g : TaskGroup T) → IsCounted g → IsCounted (create_group_task is_nil g).0
  unfolding create_group_task
  create-IsCounted true g w = w
  create-IsCounted false g w = elim (Bool-cases g.finished) [
    | inl over ↦ subst IsCounted (sym (create-finished g over)) w
    | inr going ↦ subst IsCounted (sym (create-unfinished g going)) (with_task-IsCounted g going w)
  ]

  pub cancel-IsCounted : (g : TaskGroup T) → IsCounted g → IsCounted (cancel_group g)
  unfolding cancel_group
  cancel-IsCounted g w = record {
    active = w.active;
    failing = w.failing;
    passing = w.passing;
    closing = w.closing;
    finishing = w.finishing;
    ending = w.ending;
    failing_fast = λ h. refl;
    first = w.first;
  }
