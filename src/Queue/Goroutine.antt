-- ===== src/Queue/Goroutine.antt =====
-- pkg/py/pyasyncio/queue.go: the goroutine of a blocking call `Put`, `Get` or `Join`, which waits on a
-- condition variable, beside a caller that listens to it and to its context. A step of a goroutine runs
-- from one point where it does not hold the mutex to the next.
use adk_go.Queue.{Queue, put_item, get_item}
use adk_go.Queue.History.{History}
use adk_go.Base.{
  Bool, true, false, ◌&&◌, Option, none, some, [], ◌∷◌, ◌++◌, length, is_positive, at_most, eqb,
  if◌then◌else◌, Outcome, ok, fail, panic, cancelled, queue_closed,
}

-- The fields `notEmpty`, `notFull` and `allTasksDone`.
pub data Condition : Type 0 where
  not_empty not_full all_tasks_done : Condition

abbrev pub same_condition : Condition → Condition → Bool
same_condition not_empty not_empty = true
same_condition not_full not_full = true
same_condition all_tasks_done all_tasks_done = true
same_condition _ _ = false

pub data Request {ℓ} (T : Type ℓ) : Type ℓ where
  put : T → Request T
  get : Request T
  join : Request T

abbrev pub condition_of {ℓ} : {T : Type ℓ} → Request T → Condition
condition_of (put x) = not_full
condition_of get = not_empty
condition_of join = all_tasks_done

-- Where a goroutine stands: before its first `Lock`; between `Unlock` and the `select` on `cancelled`;
-- before the `Lock` that follows; inside `Wait`; awake again, before it has the mutex back; or
-- returned, with what it sent on `done`.
pub data Phase {ℓ} (T : Type ℓ) : Type ℓ where
  arriving checking retrying waiting woken : Phase T
  finished : Outcome (Option T) → Phase T

-- The caller: in its `select`; after `close(cancelled)`; after the `Broadcast` that follows.
pub data Caller : Type 0 where
  listening closing draining : Caller

pub record Goroutine {ℓ} (T : Type ℓ) : Type ℓ where
  pub request : Request T
  pub phase : Phase T
  pub caller : Caller

-- What a step does to the condition variables.
pub data Effect : Type 0 where
  quiet : Effect
  signals broadcasts : Condition → Effect
  broadcasts_all : Effect

pub record Turn {ℓ} (T : Type ℓ) : Type ℓ where
  pub history : History T
  pub phase : Phase T
  pub effect : Effect

abbrev pub is_cancelled : Caller → Bool
is_cancelled listening = false
is_cancelled closing = true
is_cancelled draining = true

module _ {ℓ} {T : Type ℓ} where
  -- The test of the loop in `Put`.
  abbrev pub must_wait : Queue T → Bool
  must_wait q = is_positive q.maxsize && at_most q.maxsize (length q.items)

  abbrev pub goes_on : History T → Phase T → Turn T
  goes_on h p = record { history = h; phase = p; effect = quiet }

  -- `q.putItem(item)` and `done <- nil`
  unfoldable pub puts_item : History T → T → Turn T
  unfolding put_item
  puts_item h x = record {
    history = record h { queue = put_item h.queue x; accepted = h.accepted ++ x ∷ [] };
    phase = finished (ok none);
    effect = signals not_empty;
  }

  -- `q.getItem()` and the result on `done`
  unfoldable pub takes_item : History T → Turn T
  unfolding get_item
  takes_item h = elim h.queue.items [
    | [] ↦ goes_on h (finished panic)
    | x ∷ rest ↦ record {
      history = record h { queue = (get_item h.queue).0; delivered = h.delivered ++ x ∷ [] };
      phase = finished (ok (some x));
      effect = signals not_full;
    }
  ]

  -- The goroutine of `Put`.
  unfoldable pub turn_put : History T → T → Caller → Phase T → Option (Turn T)
  unfolding puts_item
  turn_put h x caller arriving = some (
      if h.queue.closed
      then goes_on h (finished (fail queue_closed))
      else if must_wait h.queue
      then goes_on h checking
      else puts_item h x)
  turn_put h x caller checking =
      some (goes_on h (if is_cancelled caller then finished (fail cancelled) else retrying))
  turn_put h x caller retrying = some (
      if h.queue.closed
      then goes_on h (finished (fail queue_closed))
      else if must_wait h.queue
      then goes_on h waiting
      else puts_item h x)
  turn_put h x caller waiting = none
  turn_put h x caller woken = some (if must_wait h.queue then goes_on h checking else puts_item h x)
  turn_put h x caller (finished r) = none

  -- The goroutine of `Get`.
  unfoldable pub turn_get : History T → Caller → Phase T → Option (Turn T)
  unfolding takes_item
  turn_get h caller arriving =
      some (if eqb (length h.queue.items) 0 then goes_on h checking else takes_item h)
  turn_get h caller checking =
      some (goes_on h (if is_cancelled caller then finished (fail cancelled) else retrying))
  turn_get h caller retrying =
      some (if eqb (length h.queue.items) 0 then goes_on h waiting else takes_item h)
  turn_get h caller waiting = none
  turn_get h caller woken =
      some (if eqb (length h.queue.items) 0 then goes_on h checking else takes_item h)
  turn_get h caller (finished r) = none

  -- The goroutine of `Join`.
  unfoldable pub turn_join : History T → Caller → Phase T → Option (Turn T)
  turn_join h caller arriving =
      some (goes_on h (if eqb h.queue.unfinished 0 then finished (ok none) else checking))
  turn_join h caller checking =
      some (goes_on h (if is_cancelled caller then finished (fail cancelled) else retrying))
  turn_join h caller retrying =
      some (goes_on h (if eqb h.queue.unfinished 0 then finished (ok none) else waiting))
  turn_join h caller waiting = none
  turn_join h caller woken =
      some (goes_on h (if eqb h.queue.unfinished 0 then finished (ok none) else checking))
  turn_join h caller (finished r) = none

  -- One step of a goroutine, if it can make one by itself.
  unfoldable pub turn : History T → Goroutine T → Option (Turn T)
  unfolding turn_put turn_get turn_join
  turn h g = elim g.request [
    | put x ↦ turn_put h x g.caller g.phase
    | get ↦ turn_get h g.caller g.phase
    | join ↦ turn_join h g.caller g.phase
  ]

  -- What the call returns, once its goroutine has finished: after the context is done `Put` and `Join`
  -- return its error, and `Get` what the goroutine has sent.
  unfoldable pub returned : Goroutine T → Option (Outcome (Option T))
  returned g = elim g.phase [
    | finished r ↦ elim g.caller [
      | listening ↦ some r
      | closing ↦ none
      | draining ↦ elim g.request [ get ↦ some r | _ ↦ some (fail cancelled) ]
    ]
    | _ ↦ none
  ]
