-- ===== src/Queue/Waits/Faithful.antt =====
-- The queue (pkg/py/pyasyncio/queue.go) against the history of its calls, when some of them wait.
use mathlib.Core.Path.{subst}
use adk_go.Queue.Waits.{
  System, Step, calls, turns, cancels, broadcast, passes, Reaches, here, next, begin, get_item,
  put_item,
}
use adk_go.Queue.Goroutine.{
  Goroutine, Turn, turn, turn_put, turn_get, turn_join, get, puts_item, takes_item, must_wait,
  Caller, Phase, Request, checking, finished, put, arriving, goes_on, waiting, retrying, woken,
  join,
}
use adk_go.Base.{refl, Option, arith, some, if◌then◌else◌, none, eqb, length, Bool, true}
use adk_go.Queue.History.{
  History, IsFaithful, step-IsFaithful, accept-IsFaithful, start-IsFaithful, accept,
  deliver-IsFaithful, deliver, accept, run,
}
use adk_go.Base.{ℤ, ◌≡◌, List, inl, ◌⊎◌, false, inr, ◌∷◌, []}

module _ {ℓ} {T : Type ℓ} where
  -- The histories that one step of a goroutine can leave.
  Moves : History T → History T → Type ℓ
  Moves h after =
      (after ≡ h)
      ⊎ ((x : T) × (must_wait h.queue ≡ false) × (after ≡ accept h x))
      ⊎ ((x : T) × (rest : List T) × (h.queue.items ≡ x ∷ rest) × (after ≡ deliver h x rest))

  stays : (h : History T) → Moves h h
  unfolding Moves
  stays h = inl refl

  puts_item-Moves :
      (h : History T) (x : T) → must_wait h.queue ≡ false → Moves h (puts_item h x).history
  unfolding Moves puts_item put_item
  puts_item-Moves h x room = inr (inl (x, room, refl))

  takes_item-Moves : (h : History T) → Moves h (takes_item h).history
  unfolding Moves takes_item get_item
  takes_item-Moves h = go h.queue.items refl
    where
      go : (l : List T) → h.queue.items ≡ l → Moves h (takes_item h).history
      go [] e = inl (ground (arith, e))
      go (x ∷ rest) e = inr (inr (x, rest, e, ground (arith, e)))

  Moves-IsFaithful :
      {m : ℤ} (h after : History T) → Moves h after → IsFaithful m h → IsFaithful m after
  unfolding Moves
  Moves-IsFaithful h after (inl same) v = rw same v
  Moves-IsFaithful h after (inr (inl (x, room, e))) v = rw e (accept-IsFaithful h x room v)
  Moves-IsFaithful h after (inr (inr (x, rest, at, e))) v = rw e (deliver-IsFaithful h x rest at v)

  branch :
      (h : History T) (b : Bool) (t u : Turn T)
      → Moves h t.history
      → (b ≡ false → Moves h u.history)
      → Moves h (if b then t else u).history
  branch h true t u m f = m
  branch h false t u m f = f refl

  put-branch :
      (h : History T) (x : T) (p : Phase T)
      → Moves h (if must_wait h.queue then goes_on h p else puts_item h x).history
  put-branch h x p = branch h (must_wait h.queue) _ _ (stays h) (puts_item-Moves h x)

  get-branch :
      (h : History T) (p : Phase T)
      → Moves h (if eqb (length h.queue.items) 0 then goes_on h p else takes_item h).history
  get-branch h p = branch h (eqb (length h.queue.items) 0) _ _ (stays h) (λ _. takes_item-Moves h)

  AreMoves : History T → Option (Turn T) → Type ℓ
  AreMoves h none = Unit
  AreMoves h (some t) = Moves h t.history

  turn_put-Moves :
      (h : History T) (x : T) (c : Caller) (p : Phase T) → AreMoves h (turn_put h x c p)
  unfolding turn_put AreMoves
  turn_put-Moves h x c arriving =
      branch h h.queue.closed _ _ (stays h) (λ _. put-branch h x checking)
  turn_put-Moves h x c checking = stays h
  turn_put-Moves h x c retrying =
      branch h h.queue.closed _ _ (stays h) (λ _. put-branch h x waiting)
  turn_put-Moves h x c waiting = tt
  turn_put-Moves h x c woken = put-branch h x checking
  turn_put-Moves h x c (finished r) = tt

  turn_get-Moves : (h : History T) (c : Caller) (p : Phase T) → AreMoves h (turn_get h c p)
  unfolding turn_get AreMoves
  turn_get-Moves h c arriving = get-branch h checking
  turn_get-Moves h c checking = stays h
  turn_get-Moves h c retrying = get-branch h waiting
  turn_get-Moves h c waiting = tt
  turn_get-Moves h c woken = get-branch h checking
  turn_get-Moves h c (finished r) = tt

  turn_join-Moves : (h : History T) (c : Caller) (p : Phase T) → AreMoves h (turn_join h c p)
  unfolding turn_join AreMoves
  turn_join-Moves h c arriving = stays h
  turn_join-Moves h c checking = stays h
  turn_join-Moves h c retrying = stays h
  turn_join-Moves h c waiting = tt
  turn_join-Moves h c woken = stays h
  turn_join-Moves h c (finished r) = tt

  turn-Moves : (h : History T) (g : Goroutine T) → AreMoves h (turn h g)
  unfolding turn
  turn-Moves h g = go g.request
    where
      go : (r : Request T) → AreMoves h (turn h (record g { request = r }))
      go (put x) = turn_put-Moves h x g.caller g.phase
      go get = turn_get-Moves h g.caller g.phase
      go join = turn_join-Moves h g.caller g.phase

  turn-IsFaithful :
      {m : ℤ} (h : History T) (g : Goroutine T) (t : Turn T)
      → turn h g ≡ some t
      → IsFaithful m h
      → IsFaithful m t.history
  unfolding AreMoves
  turn-IsFaithful h g t e v = Moves-IsFaithful h t.history (subst (AreMoves h) e (turn-Moves h g)) v

  Step-IsFaithful :
      {m : ℤ} (s t : System T) → Step s t → IsFaithful m s.history → IsFaithful m t.history
  Step-IsFaithful s t (calls r) v = v
  Step-IsFaithful s t (turns pre post after g u at e settled) v = turn-IsFaithful s.history g u e v
  Step-IsFaithful s t (cancels pre post g at listens) v = v
  Step-IsFaithful s t (broadcast pre post g at closes_it) v = v
  Step-IsFaithful s t (passes c after settled) v = step-IsFaithful s.history c v

  Reaches-IsFaithful :
      {m : ℤ} {s : System T} (t : System T)
      → Reaches s t
      → IsFaithful m s.history
      → IsFaithful m t.history
  Reaches-IsFaithful t here v = v
  Reaches-IsFaithful u (next {t} r last) v = Step-IsFaithful t u last (Reaches-IsFaithful t r v)

  -- Whatever the calls on a new queue, blocking or not, and however their goroutines interleave with
  -- cancellations: the items accepted are the items delivered followed by those that wait, in the order
  -- in which they were accepted; the queue holds at most the maximum size, if that is positive; and the
  -- unfinished tasks are the accepted items that no `TaskDone` has counted.
  pub begin-IsFaithful : (m : ℤ) (s : System T) → Reaches (begin m) s → IsFaithful m s.history
  unfolding begin run
  begin-IsFaithful m s r = Reaches-IsFaithful s r (start-IsFaithful m [])
