-- ===== src/Tests/Waits.antt =====
-- Concrete runs of the blocking calls of the queue (pkg/py/pyasyncio/queue.go).
use adk_go.Queue.Waits.{
  System, Reaches, here, next, calls, turns, passes, begin, effect_of, woken_by,
}
use adk_go.Queue.Goroutine.{
  turn, turn_get, Goroutine, get, waiting, woken, checking, retrying, listening, arriving, goes_on,
  draining, Turn, not_empty, finished,
}
use adk_go.Queue.Waits.Stranded.{begin-AreServed, AreServed}
use adk_go.Queue.Waits.Faithful.{begin-IsFaithful}
use adk_go.Queue.Waits.Progress.{begin-progress}
use adk_go.Queue.Waits.Cancelled.{cancel-Stranded, getter}
use adk_go.Queue.History.{History, start, step, puts, IsFaithful, deliver}
use adk_go.Queue.{new_queue, put_nowait, put_item}
use adk_go.Base.{refl, pos, List, ℕ, ℤ, ◌∷◌, [], ◌++◌, inr, ◌≡◌, true, some, ok, arith}

abbrev slots : ℤ
slots = pos 1

-- One getter that is about to wait on an empty queue, alone or behind one that waits.
abbrev alone : List (Goroutine ℕ)
alone = getter checking listening ∷ []

abbrev filled : History ℕ
filled = step (start slots) (puts 7)

-- Two getters have waited, and a put has woken the first.
abbrev woken_system : System ℕ
woken_system = record {
  history = filled;
  goroutines = getter woken listening ∷ getter waiting listening ∷ [];
}

to_wait :
    (pre : List (Goroutine ℕ))
    → Reaches {T = ℕ} (begin slots) (record { history = start slots; goroutines = pre })
    → Reaches {T = ℕ}
        (begin slots)
        (record { history = start slots; goroutines = pre ++ getter waiting listening ∷ [] })
unfolding turn turn_get start new_queue
to_wait pre r =
    next
      (next
        (next (next r (calls get)) (
          turns pre [] (pre ++ getter checking listening ∷ []) (getter arriving listening)
            (goes_on (start slots) checking) refl refl refl))
        (turns pre [] (pre ++ getter retrying listening ∷ []) (getter checking listening)
          (goes_on (start slots) retrying) refl refl refl))
      (turns pre [] (pre ++ getter waiting listening ∷ []) (getter retrying listening)
        (goes_on (start slots) waiting) refl refl refl)

to_woken : Reaches (begin slots) woken_system
unfolding begin effect_of start new_queue
to_woken = next (to_wait (getter waiting listening ∷ []) (to_wait [] here)) (
    passes (puts 7) (getter woken listening ∷ getter waiting listening ∷ [])
      (inr ([], getter waiting listening ∷ [], getter waiting listening, refl, refl, refl)))

begin-AreServed_example : AreServed filled (getter woken listening ∷ getter waiting listening ∷ [])
begin-AreServed_example = begin-AreServed slots woken_system to_woken

begin-IsFaithful_example : IsFaithful slots filled
begin-IsFaithful_example = begin-IsFaithful slots woken_system to_woken

begin-progress_example :
    (pre post : List (Goroutine ℕ)) × (g : Goroutine ℕ) × (t : Turn ℕ) × (woken_system.goroutines
      ≡ pre ++ g ∷ post)
    × (woken_by not_empty g ≡ true)
    × (turn filled g ≡ some t)
    × (t.phase ≡ finished (ok (some 7)))
    × (t.history ≡ deliver filled 7 [])
unfolding step put_nowait put_item start new_queue
begin-progress_example = begin-progress slots woken_system 7 [] to_woken refl (omega arith)

cancel-Stranded_example :
    Reaches
      (record { history = start slots; goroutines = alone })
      (record { history = start slots; goroutines = getter waiting draining ∷ [] })
unfolding start new_queue
cancel-Stranded_example =
    cancel-Stranded (record { history = start slots; goroutines = alone }) [] [] refl refl
