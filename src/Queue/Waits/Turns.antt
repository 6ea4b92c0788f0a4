-- ===== src/Queue/Waits/Turns.antt =====
-- What one step of a goroutine does to the queue and to its own place among those that wait.
use adk_go.Queue.History.{History, limit}
use adk_go.Queue.Waits.{waits_on, woken_by}
use adk_go.Queue.Goroutine.{
  not_empty, not_full, all_tasks_done, Goroutine, Turn, turn, turn_put, turn_get, turn_join, put,
  get, join, Phase, arriving, checking, retrying, waiting, woken, finished, Caller, Request,
}
use adk_go.Queue.Waits.Counts.{bit, raises}
use adk_go.Base.{
  ℕ, ◌+◌, ◌≤◌, ◌≡◌, ◌⊎◌, false, true, some, arith, length, length-concat, ℤ, ◌<◌, is_positive, ◌&&◌,
  at_most, pos, negsuc,
}

full-limit : (m : ℤ) (n : ℕ) → is_positive m && at_most m n ≡ true → limit m ≤ n
full-limit (pos k) n h = ground arith
full-limit (negsuc k) n h = omega arith

module _ {ℓ} {T : Type ℓ} where
  -- The goroutine after the step.
  abbrev pub moved : Goroutine T → Turn T → Goroutine T
  moved g t = record g { phase = t.phase }

  abbrev pub size : History T → ℕ
  size h = length h.queue.items

  abbrev pub IsTurnForGetters : History T → Goroutine T → Turn T → Type 0
  IsTurnForGetters h g t =
      (waits_on not_empty g ≡ false)
      × ((size t.history ≡ 0)
          ⊎ ((waits_on not_empty (moved g t) ≡ false)
              × (size t.history + bit (woken_by not_empty g)
                  ≤ size h
                    + bit (woken_by not_empty (moved g t))
                    + bit (raises t.effect not_empty))))

  -- Of the slots that are free in a queue with a positive maximum size: what a putter waits for.
  abbrev pub IsTurnForPutters : History T → Goroutine T → Turn T → Type 0
  IsTurnForPutters h g t =
      (waits_on not_full g ≡ false)
      × (t.history.queue.maxsize ≡ h.queue.maxsize)
      × ((limit h.queue.maxsize ≤ size t.history)
          ⊎ ((waits_on not_full (moved g t) ≡ false)
              × (size h + bit (woken_by not_full g)
                  ≤ size t.history
                    + bit (woken_by not_full (moved g t))
                    + bit (raises t.effect not_full))))

  abbrev pub IsTurnForJoiners : History T → Goroutine T → Turn T → Type 0
  IsTurnForJoiners h g t =
      (waits_on all_tasks_done g ≡ false)
      × (h.queue.unfinished ≤ t.history.queue.unfinished)
      × ((0 < t.history.queue.unfinished) ⊎ (waits_on all_tasks_done (moved g t) ≡ false))

  abbrev pub IsTurn : History T → Goroutine T → Turn T → Type 0
  IsTurn h g t = IsTurnForGetters h g t × IsTurnForPutters h g t × IsTurnForJoiners h g t

  abbrev goroutine : Request T → Phase T → Caller → Goroutine T
  goroutine r p c = record { request = r; phase = p; caller = c }

  turn_put-IsTurn :
      (h : History T) (x : T) (c : Caller) (p : Phase T) (t : Turn T)
      → turn_put h x c p ≡ some t
      → IsTurn h (goroutine (put x) p c) t
  unfolding turn_put
  turn_put-IsTurn h x c arriving t e =
      ground (arith, length-concat h.queue.items x, full-limit h.queue.maxsize (size h))
  turn_put-IsTurn h x c checking t e = ground arith
  turn_put-IsTurn h x c retrying t e =
      ground (arith, length-concat h.queue.items x, full-limit h.queue.maxsize (size h))
  turn_put-IsTurn h x c waiting t e = cc
  turn_put-IsTurn h x c woken t e =
      ground (arith, length-concat h.queue.items x, full-limit h.queue.maxsize (size h))
  turn_put-IsTurn h x c (finished r) t e = cc

  turn_get-IsTurn :
      (h : History T) (c : Caller) (p : Phase T) (t : Turn T)
      → turn_get h c p ≡ some t
      → IsTurn h (goroutine get p c) t
  unfolding turn_get
  turn_get-IsTurn h c arriving t e = ground arith
  turn_get-IsTurn h c checking t e = ground arith
  turn_get-IsTurn h c retrying t e = ground arith
  turn_get-IsTurn h c waiting t e = cc
  turn_get-IsTurn h c woken t e = ground arith
  turn_get-IsTurn h c (finished r) t e = cc

  turn_join-IsTurn :
      (h : History T) (c : Caller) (p : Phase T) (t : Turn T)
      → turn_join h c p ≡ some t
      → IsTurn h (goroutine join p c) t
  unfolding turn_join
  turn_join-IsTurn h c arriving t e = ground arith
  turn_join-IsTurn h c checking t e = ground arith
  turn_join-IsTurn h c retrying t e = ground arith
  turn_join-IsTurn h c waiting t e = cc
  turn_join-IsTurn h c woken t e = ground arith
  turn_join-IsTurn h c (finished r) t e = cc

  of_request :
      (h : History T) (r : Request T) (p : Phase T) (c : Caller) (t : Turn T)
      → turn h (goroutine r p c) ≡ some t
      → IsTurn h (goroutine r p c) t
  unfolding turn
  of_request h (put x) p c t e = turn_put-IsTurn h x c p t e
  of_request h get p c t e = turn_get-IsTurn h c p t e
  of_request h join p c t e = turn_join-IsTurn h c p t e

  pub turn-IsTurn :
      (h : History T) (g : Goroutine T) (t : Turn T) → turn h g ≡ some t → IsTurn h g t
  turn-IsTurn h g t e = of_request h g.request g.phase g.caller t e
