-- ===== src/Queue/Waits/Cancelled.antt =====
-- Cancelling a call that waits (pkg/py/pyasyncio/queue.go, the second `select` of `Put`, `Get` and
-- `Join`): `close(cancelled)` and `Broadcast` are called without the mutex.
use adk_go.Queue.Waits.{System, Reaches, here, next, turns, cancels, broadcast, wake}
use adk_go.Queue.Goroutine.{
  Goroutine, turn, turn_get, get, checking, retrying, waiting, listening, closing, draining, Phase,
  Caller, goes_on, not_empty,
}
use adk_go.Queue.History.{History}
use adk_go.Base.{refl, List, ◌++◌, ◌∷◌, map, ◌≡◌, [], ap, some, ◌∙◌, arith}

module _ {ℓ} {T : Type ℓ} where
  -- A goroutine of `Get`.
  abbrev pub getter : Phase T → Caller → Goroutine T
  getter p c = record { request = get; phase = p; caller = c }

  -- The system with other goroutines.
  abbrev pub among : System T → List (Goroutine T) → System T
  among s gs = record s { goroutines = gs }

  turn-checking : (h : History T) → turn h (getter checking listening) ≡ some (goes_on h retrying)
  unfolding turn turn_get
  turn-checking h = refl

  turn-retrying :
      (h : History T) (c : Caller)
      → h.queue.items ≡ []
      → turn h (getter retrying c) ≡ some (goes_on h waiting)
  unfolding turn turn_get
  turn-retrying h c e = ground (arith, e)

  map-middle :
      (f : Goroutine T → Goroutine T) (pre post : List (Goroutine T)) (g : Goroutine T)
      → map f (pre ++ g ∷ post) ≡ map f pre ++ f g ∷ map f post
  map-middle f [] post g = refl
  map-middle f (x ∷ pre) post g = ap (λ l. f x ∷ l) (map-middle f pre post g)

  wake-retrying : (c : Caller) → wake not_empty (getter retrying c) ≡ getter retrying c
  unfolding wake
  wake-retrying c = refl

  -- From every state of a system whose queue has no items: a goroutine of `Get` that is about to read
  -- `cancelled`, which is open, can come to wait after its caller has closed `cancelled` and done its
  -- `Broadcast`.
  pub cancel-Stranded :
      (s : System T) (pre post : List (Goroutine T))
      → s.goroutines ≡ pre ++ getter checking listening ∷ post
      → s.history.queue.items ≡ []
      → Reaches s (
          among s (map (wake not_empty) pre ++ getter waiting draining ∷ map (wake not_empty) post))
  cancel-Stranded s pre post at e =
      let woken_pre = map (wake not_empty) pre in
      let woken_post = map (wake not_empty) post in
      next
        (next
          (next
            (next here (
              turns pre post (pre ++ getter retrying listening ∷ post) (getter checking listening)
                (goes_on s.history retrying) at (turn-checking s.history) refl))
            (cancels pre post (getter retrying listening) refl refl))
          (broadcast pre post (getter retrying closing) refl refl))
        (turns woken_pre woken_post (woken_pre ++ getter waiting draining ∷ woken_post)
          (getter retrying draining) (goes_on s.history waiting)
          (map-middle (wake not_empty) pre post (getter retrying draining)
            ∙ ap (λ g. woken_pre ++ g ∷ woken_post) (wake-retrying draining))
          (turn-retrying s.history draining e) refl)
