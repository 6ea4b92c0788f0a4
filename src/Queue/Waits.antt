-- ===== src/Queue/Waits.antt =====
-- pkg/py/pyasyncio/queue.go: a queue with the goroutines of blocking calls, and the steps that it can
-- make.
pub mod Counts
pub mod Turns
pub mod Faithful
pub mod Stranded
pub mod Progress
pub mod Cancelled
use adk_go.Queue.{Queue, put_item, get_item, close}
use adk_go.Queue.History.{History, Call, puts, gets, dones, closes, step, start}
use adk_go.Base.{
  ℕ, zero, suc, ℤ, Bool, true, false, ◌&&◌, ◌⊎◌, ◌≡◌, Option, none, some, List, [], ◌∷◌, ◌++◌, map,
  any, length, is_positive, at_most, eqb, if◌then◌else◌, Outcome, ok, fail, panic, cancelled,
  queue_closed, ◌||◌,
}
use adk_go.Queue.Goroutine.{
  Condition, Effect, Goroutine, Phase, Request, Turn, arriving, must_wait, same_condition, signals,
  waiting, woken, broadcasts, condition_of, listening, quiet, turn, broadcasts_all, closing,
  not_empty, draining, not_full, all_tasks_done,
}

pub record System {ℓ} (T : Type ℓ) : Type ℓ where
  pub history : History T
  pub goroutines : List (Goroutine T)

module _ {ℓ} {T : Type ℓ} where
  abbrev pub is_waiting : Phase T → Bool
  is_waiting waiting = true
  is_waiting _ = false

  abbrev pub is_woken : Phase T → Bool
  is_woken woken = true
  is_woken _ = false

  -- The goroutines that wait on a condition variable, and those that it has woken.
  abbrev pub waits_on : Condition → Goroutine T → Bool
  waits_on c g = is_waiting g.phase && same_condition (condition_of g.request) c

  abbrev pub woken_by : Condition → Goroutine T → Bool
  woken_by c g = is_woken g.phase && same_condition (condition_of g.request) c

  -- `Broadcast`
  unfoldable pub wake : Condition → Goroutine T → Goroutine T
  wake c g = if waits_on c g then record g { phase = woken } else g

  unfoldable pub wake_any : Goroutine T → Goroutine T
  wake_any g = record g { phase = elim g.phase [ waiting ↦ woken | p ↦ p ] }

  -- `Signal` wakes one waiter, if there is one; which one is left open.
  abbrev pub Signalled : Condition → List (Goroutine T) → List (Goroutine T) → Type ℓ
  Signalled c gs after =
      ((any (waits_on c) gs ≡ false) × (after ≡ gs))
      ⊎ ((pre post : List (Goroutine T)) × (g : Goroutine T) × (gs ≡ pre ++ g ∷ post)
          × (waits_on c g ≡ true)
          × (after ≡ pre ++ record g { phase = woken } ∷ post))

  abbrev pub Settled : Effect → List (Goroutine T) → List (Goroutine T) → Type ℓ
  Settled quiet gs after = after ≡ gs
  Settled (signals c) gs after = Signalled c gs after
  Settled (broadcasts c) gs after = after ≡ map (wake c) gs
  Settled broadcasts_all gs after = after ≡ map wake_any gs

  -- What a call that does not wait does to the condition variables.
  unfoldable pub effect_of : History T → Call T → Effect
  effect_of h (puts x) = if h.queue.closed || must_wait h.queue then quiet else signals not_empty
  effect_of h gets = if eqb (length h.queue.items) 0 then quiet else signals not_full
  effect_of h dones = if eqb h.queue.unfinished 1 then broadcasts all_tasks_done else quiet
  effect_of h closes = broadcasts_all

  abbrev pub new_goroutine : Request T → Goroutine T
  new_goroutine r = record { request = r; phase = arriving; caller = listening }

  -- The goroutine moves, cancels or is cancelled at one position of the list.
  pub data Step (s : System T) : System T → Type ℓ where
    calls :
        (r : Request T) → Step s (record s { goroutines = s.goroutines ++ new_goroutine r ∷ [] })
    turns :
        (pre post after : List (Goroutine T)) (g : Goroutine T) (t : Turn T)
        → s.goroutines ≡ pre ++ g ∷ post
        → turn s.history g ≡ some t
        → Settled t.effect (pre ++ record g { phase = t.phase } ∷ post) after
        → Step s (record { history = t.history; goroutines = after })
    cancels :
        (pre post : List (Goroutine T)) (g : Goroutine T)
        → s.goroutines ≡ pre ++ g ∷ post
        → g.caller ≡ listening
        → Step s (record s { goroutines = pre ++ record g { caller = closing } ∷ post })
    broadcast :
        (pre post : List (Goroutine T)) (g : Goroutine T)
        → s.goroutines ≡ pre ++ g ∷ post
        → g.caller ≡ closing
        → Step s (record s {
          goroutines =
              map (wake (condition_of g.request)) (pre ++ record g { caller = draining } ∷ post);
        })
    passes :
        (c : Call T) (after : List (Goroutine T))
        → Settled (effect_of s.history c) s.goroutines after
        → Step s (record { history = step s.history c; goroutines = after })

  -- What a system can come to.
  pub data Reaches (s : System T) : System T → Type ℓ where
    here : Reaches s s
    next : {t u : System T} → Reaches s t → Step t u → Reaches s u

  -- A new queue on which nobody waits.
  unfoldable pub begin : ℤ → System T
  unfolding start
  begin maxsize = record { history = start maxsize; goroutines = [] }
