-- ===== src/Queue.antt =====
-- pkg/py/pyasyncio/queue.go: the calls that do not wait. Each holds the mutex for its whole body, so
-- a call is one step, whichever goroutine makes it. The condition variables only wake waiters, which
-- are the blocking calls `Put`, `Get` and `Join`.
pub mod History
pub mod Live
pub mod Goroutine
pub mod Waits
use adk_go.Base.{
  ℕ, zero, suc, ℤ, Bool, true, false, not, ◌&&◌, List, [], ◌∷◌, ◌++◌, length, is_positive, at_most,
  eqb, if◌then◌else◌, Outcome, ok, fail, panic, Error, queue_closed, queue_empty, queue_full,
  task_done_too_often,
}

pub record Queue {ℓ} (T : Type ℓ) : Type ℓ where
  pub maxsize : ℤ
  pub items : List T
  pub unfinished : ℕ
  pub closed : Bool

module _ {ℓ} {T : Type ℓ} where
  -- `NewQueue(maxsize)`
  unfoldable pub new_queue : ℤ → Queue T
  new_queue maxsize = record { maxsize = maxsize; items = []; unfinished = 0; closed = false }

  -- `q.Size()`
  unfoldable pub size : Queue T → ℕ
  size q = length q.items

  -- `q.Empty()`
  unfoldable is_empty : Queue T → Bool
  is_empty q = eqb (length q.items) 0

  -- `q.Full()`
  unfoldable is_full : Queue T → Bool
  is_full q = if not (is_positive q.maxsize) then false else at_most q.maxsize (length q.items)

  -- `q.putItem(item)`
  unfoldable pub put_item : Queue T → T → Queue T
  put_item q item = record q { items = q.items ++ item ∷ []; unfinished = suc q.unfinished }

  -- `q.PutNowait(item)`
  unfoldable pub put_nowait : Queue T → T → Queue T × Outcome (Unit {0})
  unfolding put_item
  put_nowait q item =
      if q.closed
      then (q, fail queue_closed)
      else if is_positive q.maxsize && at_most q.maxsize (length q.items)
      then (q, fail queue_full)
      else (put_item q item, ok tt)

  -- `q.getItem()` on the items: an index out of range where there are none.
  unfoldable get_item : Queue T → Queue T × Outcome T
  get_item q = elim q.items [ [] ↦ (q, panic) | item ∷ rest ↦ (record q { items = rest }, ok item) ]

  -- `q.GetNowait()`
  unfoldable pub get_nowait : Queue T → Queue T × Outcome T
  unfolding get_item
  get_nowait q = if eqb (length q.items) 0 then (q, fail queue_empty) else get_item q

  -- `q.TaskDone()`; the count is never negative.
  unfoldable pub task_done : Queue T → Queue T × Outcome (Unit {0})
  task_done q = elim q.unfinished [
    | zero ↦ (q, fail task_done_too_often)
    | suc n ↦ (record q { unfinished = n }, ok tt)
  ]

  -- `q.Close()`
  unfoldable pub close : Queue T → Queue T
  close q = record q { closed = true }
