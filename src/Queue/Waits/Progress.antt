-- ===== src/Queue/Waits/Progress.antt =====
-- `Signal` in `putItem` (pkg/py/pyasyncio/queue.go) and the goroutines of `Get` that it wakes.
use adk_go.Queue.Waits.{woken_by, begin, Reaches, System, get_item}
use adk_go.Queue.Goroutine.{
  Goroutine, Turn, turn, turn_get, takes_item, finished, not_empty, signals, not_full,
}
use adk_go.Queue.Waits.Counts.{waiters, count_pos}
use adk_go.Queue.Waits.Stranded.{begin-AreServed}
use adk_go.Base.{refl, ℤ, List, ◌≡◌, ok, ◌∷◌, some, true, ◌<◌, arith, ◌++◌}
use adk_go.Queue.History.{History, deliver}

module _ {ℓ} {T : Type ℓ} where
  takes : History T → T → List T → Turn T
  takes h x rest = record {
    history = deliver h x rest;
    phase = finished (ok (some x));
    effect = signals not_full;
  }

  woken-takes :
      (h : History T) (g : Goroutine T) (x : T) (rest : List T)
      → h.queue.items ≡ x ∷ rest
      → woken_by not_empty g ≡ true
      → turn h g ≡ some (takes h x rest)
  unfolding turn turn_get takes_item takes get_item
  woken-takes h g x rest e w = ground (arith, e, w)

  -- In every state that calls on a new queue can reach, whatever the calls and however their goroutines
  -- interleave: while a goroutine of `Get` waits and the queue has an item, a goroutine of `Get` is
  -- awake whose next step delivers the first item.
  pub begin-progress :
      (m : ℤ) (s : System T) (x : T) (rest : List T)
      → Reaches (begin m) s
      → s.history.queue.items ≡ x ∷ rest
      → 0 < waiters not_empty s.goroutines
      → (pre post : List (Goroutine T)) × (g : Goroutine T) × (t : Turn T) × (s.goroutines
          ≡ pre ++ g ∷ post)
        × (woken_by not_empty g ≡ true)
        × (turn s.history g ≡ some t)
        × (t.phase ≡ finished (ok (some x)))
        × (t.history ≡ deliver s.history x rest)
  unfolding takes
  begin-progress m s x rest r e waiting_getter =
      let (served, putters, joiners) = begin-AreServed m s r in
      let (pre, post, g, at, w) = count_pos (woken_by not_empty) s.goroutines (ground (arith, e)) in
      (pre, post, g, takes s.history x rest, at, w, woken-takes s.history g x rest e w, refl, refl)
