-- ===== src/Queue/Waits/Stranded.antt =====
-- That no goroutine of `Put`, `Get` or `Join` sleeps through what it waits for
-- (pkg/py/pyasyncio/queue.go, `Signal` and `Broadcast` in `putItem`, `getItem` and `TaskDone`).
use adk_go.Queue.Waits.{
  System, Step, calls, turns, cancels, broadcast, passes, Reaches, here, next, begin, Settled,
  effect_of, new_goroutine, wake, waits_on, woken_by,
}
use adk_go.Queue.Goroutine.{
  Goroutine, Turn, turn, closing, draining, not_empty, not_full, all_tasks_done, condition_of,
  Condition, broadcasts,
}
use adk_go.Queue.Waits.Counts.{
  bit, raises, clears, waiters, awake, count, count-replaced, Settled-Shifted,
}
use adk_go.Queue.Waits.Turns.{size, moved, turn-IsTurn}
use adk_go.Queue.History.{History, step, Call, limit, puts, gets, dones, closes}
use adk_go.Base.{
  Bool, List, arith, ◌++◌, ◌≡◌, ◌≤◌, ◌+◌, ◌∷◌, ◌⊎◌, [], ◌<◌, length-concat, true, some, ℤ, inl, map,
  refl,
}
use adk_go.Queue.{task_done, close, put_nowait, get_nowait}

module _ {ℓ} {T : Type ℓ} where
  abbrev pub AreGettersServed : History T → List (Goroutine T) → Type 0
  AreGettersServed h gs = (waiters not_empty gs ≡ 0) ⊎ (size h ≤ awake not_empty gs)

  abbrev pub ArePuttersServed : History T → List (Goroutine T) → Type 0
  ArePuttersServed h gs =
      (waiters not_full gs ≡ 0) ⊎ (limit h.queue.maxsize ≤ size h + awake not_full gs)

  abbrev pub AreJoinersServed : History T → List (Goroutine T) → Type 0
  AreJoinersServed h gs = (waiters all_tasks_done gs ≡ 0) ⊎ (0 < h.queue.unfinished)

  -- Whoever waits has nothing to take: the items, the free slots and the last `TaskDone` are all
  -- accounted for by goroutines that are awake.
  abbrev pub AreServed : History T → List (Goroutine T) → Type 0
  AreServed h gs = AreGettersServed h gs × ArePuttersServed h gs × AreJoinersServed h gs

  count-appended :
      (p : Goroutine T → Bool) (gs : List (Goroutine T)) (g : Goroutine T)
      → count p (gs ++ g ∷ []) ≡ count p gs + bit (p g)
  count-appended p [] g = omega arith
  count-appended p (x ∷ gs) g = omega (arith, count-appended p gs g)

  -- What a call that does not wait does, and what its effect accounts for.
  abbrev IsPass : History T → Call T → Type 0
  IsPass h c =
      (size (step h c) ≤ size h + bit (raises (effect_of h c) not_empty))
      × (size h ≤ size (step h c) + bit (raises (effect_of h c) not_full))
      × ((step h c).queue.maxsize ≡ h.queue.maxsize)
      × ((h.queue.unfinished ≡ 0)
          ⊎ (0 < (step h c).queue.unfinished)
          ⊎ (clears (effect_of h c) all_tasks_done ≡ true))

  step-IsPass : (h : History T) (c : Call T) → IsPass h c
  unfolding step effect_of task_done close put_nowait get_nowait
  step-IsPass h (puts x) = ground (arith, length-concat h.queue.items x)
  step-IsPass h gets = ground arith
  step-IsPass h dones = ground arith
  step-IsPass h closes = ground arith

  pass-AreServed :
      (h : History T) (gs after : List (Goroutine T)) (c : Call T)
      → Settled (effect_of h c) gs after
      → AreServed h gs
      → AreServed (step h c) after
  pass-AreServed h gs after c settled served = ground (
    arith,
    step-IsPass h c,
    Settled-Shifted (effect_of h c) not_empty gs after settled,
    Settled-Shifted (effect_of h c) not_full gs after settled,
    Settled-Shifted (effect_of h c) all_tasks_done gs after settled,
  )

  turn-AreServed :
      (h : History T) (pre post after : List (Goroutine T)) (g : Goroutine T) (t : Turn T)
      → turn h g ≡ some t
      → Settled t.effect (pre ++ moved g t ∷ post) after
      → AreServed h (pre ++ g ∷ post)
      → AreServed t.history after
  turn-AreServed h pre post after g t e settled served =
      let (getters, putters, joiners) = turn-IsTurn h g t e in
      let gs = pre ++ moved g t ∷ post in
      (
        ground (
          arith,
          Settled-Shifted t.effect not_empty gs after settled,
          count-replaced (waits_on not_empty) pre post g (moved g t),
          count-replaced (woken_by not_empty) pre post g (moved g t),
        ),
        ground (
          arith,
          Settled-Shifted t.effect not_full gs after settled,
          count-replaced (waits_on not_full) pre post g (moved g t),
          count-replaced (woken_by not_full) pre post g (moved g t),
        ),
        ground (
          arith,
          Settled-Shifted t.effect all_tasks_done gs after settled,
          count-replaced (waits_on all_tasks_done) pre post g (moved g t),
        ),
      )

  -- A change of the goroutines that keeps the two numbers, up to waiters that are woken.
  shift-AreServed :
      (h : History T) (gs after : List (Goroutine T))
      → ((c : Condition) → (waiters c after ≤ waiters c gs) × (awake c gs ≤ awake c after))
      → AreServed h gs
      → AreServed h after
  shift-AreServed h gs after f served = ground (arith, f not_empty, f not_full, f all_tasks_done)

  Step-AreServed :
      (s t : System T)
      → Step s t
      → AreServed s.history s.goroutines
      → AreServed t.history t.goroutines
  Step-AreServed s t (calls r) served =
      shift-AreServed s.history s.goroutines (s.goroutines ++ new_goroutine r ∷ [])
        (λ c. (
          omega (arith, count-appended (waits_on c) s.goroutines (new_goroutine r)),
          omega (arith, count-appended (woken_by c) s.goroutines (new_goroutine r)),
        ))
        served
  Step-AreServed s t (turns pre post after g u at e settled) served =
      turn-AreServed s.history pre post after g u e settled (rw (← at) served)
  Step-AreServed s t (cancels pre post g at listens) served =
      let g' = record g { caller = closing } in
      shift-AreServed s.history (pre ++ g ∷ post) (pre ++ g' ∷ post)
        (λ c. (
          omega (arith, count-replaced (waits_on c) pre post g g'),
          omega (arith, count-replaced (woken_by c) pre post g g'),
        ))
        (rw (← at) served)
  Step-AreServed s t (broadcast pre post g at closes_it) served =
      let g' = record g { caller = draining } in
      let gs = pre ++ g' ∷ post in
      let d = condition_of g.request in
      shift-AreServed s.history (pre ++ g ∷ post) (map (wake d) gs)
        (λ c.
          let (total, fewer, raised, cleared) =
            Settled-Shifted (broadcasts d) c gs (map (wake d) gs) refl in
          (
            omega (arith, fewer, count-replaced (waits_on c) pre post g g'),
            omega (
              arith,
              total,
              fewer,
              count-replaced (waits_on c) pre post g g',
              count-replaced (woken_by c) pre post g g',
            ),
          ))
        (rw (← at) served)
  Step-AreServed s t (passes c after settled) served =
      pass-AreServed s.history s.goroutines after c settled served

  Reaches-AreServed :
      {s : System T} (t : System T)
      → Reaches s t
      → AreServed s.history s.goroutines
      → AreServed t.history t.goroutines
  Reaches-AreServed t here served = served
  Reaches-AreServed u (next {t} r last) served =
      Step-AreServed t u last (Reaches-AreServed t r served)

  -- Whatever the calls on a new queue, blocking or not, and however their goroutines interleave: if a
  -- goroutine of `Get` waits, at least as many goroutines of `Get` are awake as the queue has items;
  -- if one of `Put` waits, the items and the awake goroutines of `Put` together fill the maximum size;
  -- and if one of `Join` waits, some task is unfinished.
  pub begin-AreServed :
      (m : ℤ) (s : System T) → Reaches (begin m) s → AreServed s.history s.goroutines
  unfolding begin
  begin-AreServed m s r = Reaches-AreServed s r (inl refl, inl refl, inl refl)
