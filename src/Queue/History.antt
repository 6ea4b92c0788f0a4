-- ===== src/Queue/History.antt =====
-- The queue (pkg/py/pyasyncio/queue.go) against the history of its calls.
use adk_go.Queue.{Queue, new_queue, put_nowait, get_nowait, task_done, close}
use adk_go.Base.{
  List, Outcome, ℤ, [], ok, ℕ, ◌∷◌, ◌≡◌, suc, ◌++◌, fail, is_positive, true, length, ◌≤◌, ◌+◌,
  Error, arith, inl, panic, queue_empty, ◌&&◌, at_most, inr, refl, ◌⊎◌, ap, false, ◌∙◌, Bool-cases,
  append_assoc, sym, length-append, queue_closed, queue_full, pos, negsuc, ltb, length-concat,
}

-- The numeric limit of a positive maximum size.
abbrev pub limit : ℤ → ℕ
limit (pos n) = n
limit (negsuc n) = 0

-- A call of one goroutine. The calls of all goroutines form one sequence, in the order in which they
-- take the mutex.
pub data Call {ℓ} (T : Type ℓ) : Type ℓ where
  puts : T → Call T
  gets : Call T
  dones : Call T
  closes : Call T

-- What has happened so far: the items accepted and delivered and the number of tasks done, beside
-- the queue.
pub record History {ℓ} (T : Type ℓ) : Type ℓ where
  pub queue : Queue T
  pub accepted : List T
  pub delivered : List T
  pub done : ℕ

pub record IsFaithful {ℓ} {T : Type ℓ} (maxsize : ℤ) (h : History T) : Type ℓ where
  -- What was accepted is what was delivered and then what waits, in this order.
  pub fifo : h.accepted ≡ h.delivered ++ h.queue.items
  -- A positive maximum size is never exceeded.
  pub bound :
      is_positive h.queue.maxsize && ltb (limit h.queue.maxsize) (length h.queue.items) ≡ false
  -- The unfinished tasks are the accepted ones that are not done.
  pub balance : h.queue.unfinished + h.done ≡ length h.accepted
  pub same : h.queue.maxsize ≡ maxsize

below_limit :
    (m : ℤ) (n : ℕ) → is_positive m && at_most m n ≡ false → is_positive m ≡ true → suc n ≤ limit m
below_limit (pos k) n h p = ground arith
below_limit (negsuc k) n h p = cc

module _ {ℓ} {T : Type ℓ} where
  abbrev after_put : History T → T → Queue T × Outcome (Unit {0}) → History T
  after_put h x (q, ok u) = record h { queue = q; accepted = h.accepted ++ x ∷ [] }
  after_put h x (q, fail e) = record h { queue = q }
  after_put h x (q, panic) = record h { queue = q }

  abbrev after_get : History T → Queue T × Outcome T → History T
  after_get h (q, ok x) = record h { queue = q; delivered = h.delivered ++ x ∷ [] }
  after_get h (q, fail e) = record h { queue = q }
  after_get h (q, panic) = record h { queue = q }

  abbrev after_done : History T → Queue T × Outcome (Unit {0}) → History T
  after_done h (q, ok u) = record h { queue = q; done = suc h.done }
  after_done h (q, fail e) = record h { queue = q }
  after_done h (q, panic) = record h { queue = q }

  unfoldable pub step : History T → Call T → History T
  step h (puts x) = after_put h x (put_nowait h.queue x)
  step h gets = after_get h (get_nowait h.queue)
  step h dones = after_done h (task_done h.queue)
  step h closes = record h { queue = close h.queue }

  unfoldable pub run : History T → List (Call T) → History T
  unfolding step
  run h [] = h
  run h (c ∷ cs) = run (step h c) cs

  -- The history of a new queue.
  unfoldable pub start : ℤ → History T
  unfolding new_queue
  start maxsize = record { queue = new_queue maxsize; accepted = []; delivered = []; done = 0 }

  Put-cases :
      (q : Queue T) (x : T)
      → ((e : Error) × (put_nowait q x ≡ (q, fail e)))
        ⊎ ((put_nowait q x
              ≡ (record q { items = q.items ++ x ∷ []; unfinished = suc q.unfinished }, ok tt))
            × (is_positive q.maxsize && at_most q.maxsize (length q.items) ≡ false))
  unfolding put_nowait
  Put-cases q x = elim (Bool-cases q.closed) [
    | inl shut ↦ inl (queue_closed, rw shut)
    | inr open_queue ↦
        elim (Bool-cases (is_positive q.maxsize && at_most q.maxsize (length q.items))) [
          | inl full ↦ inl (queue_full, rw (open_queue, full))
          | inr room ↦ inr (rw (open_queue, room), room)
        ]
  ]

  abbrev pub accept : History T → T → History T
  accept h x = record h {
    queue = record h.queue { items = h.queue.items ++ x ∷ []; unfinished = suc h.queue.unfinished };
    accepted = h.accepted ++ x ∷ [];
  }

  pub accept-IsFaithful :
      {m : ℤ} (h : History T) (x : T)
      → is_positive h.queue.maxsize && at_most h.queue.maxsize (length h.queue.items) ≡ false
      → IsFaithful m h
      → IsFaithful m (accept h x)
  accept-IsFaithful h x room v = record {
    fifo = ap (λ l. l ++ x ∷ []) v.fifo ∙ append_assoc h.delivered h.queue.items (x ∷ []);
    bound = ground (
      arith,
      length-concat h.queue.items x,
      below_limit h.queue.maxsize (length h.queue.items) room,
    );
    balance = rw length-append (omega (arith, v.balance));
    same = v.same;
  }

  put-IsFaithful : {m : ℤ} (h : History T) (x : T) → IsFaithful m h → IsFaithful m (step h (puts x))
  unfolding step
  put-IsFaithful h x v = elim (Put-cases h.queue x) [
    | inl (e, refused) ↦ rw (refused, step) v
    | inr (taken, room) ↦ rw (taken, step) (accept-IsFaithful h x room v)
  ]

  Get-cases :
      (q : Queue T)
      → ((q.items ≡ []) × (get_nowait q ≡ (q, fail queue_empty)))
        ⊎ ((x : T) × (rest : List T) × (q.items ≡ x ∷ rest)
            × (get_nowait q ≡ (record q { items = rest }, ok x)))
  unfolding get_nowait
  Get-cases q = go q.items refl
    where
      go :
          (l : List T)
          → q.items ≡ l
          → ((q.items ≡ []) × (get_nowait q ≡ (q, fail queue_empty)))
            ⊎ ((x : T) × (rest : List T) × (q.items ≡ x ∷ rest)
                × (get_nowait q ≡ (record q { items = rest }, ok x)))
      go [] e = inl (e, ground (arith, e))
      go (x ∷ rest) e = inr (x, rest, e, ground (arith, e))

  abbrev pub deliver : History T → T → List T → History T
  deliver h x rest = record h {
    queue = record h.queue { items = rest };
    delivered = h.delivered ++ x ∷ [];
  }

  pub deliver-IsFaithful :
      {m : ℤ} (h : History T) (x : T) (rest : List T)
      → h.queue.items ≡ x ∷ rest
      → IsFaithful m h
      → IsFaithful m (deliver h x rest)
  deliver-IsFaithful h x rest e v = record {
    fifo = v.fifo ∙ ap (λ l. h.delivered ++ l) e ∙ sym (append_assoc h.delivered (x ∷ []) rest);
    bound = ground (arith, v.bound, ap length e);
    balance = v.balance;
    same = v.same;
  }

  get-IsFaithful : {m : ℤ} (h : History T) → IsFaithful m h → IsFaithful m (step h gets)
  unfolding step
  get-IsFaithful h v = elim (Get-cases h.queue) [
    | inl (none_left, refused) ↦ rw (refused, step) v
    | inr (x, rest, e, got) ↦ rw (got, step) (deliver-IsFaithful h x rest e v)
  ]

  done-IsFaithful : {m : ℤ} (h : History T) → IsFaithful m h → IsFaithful m (step h dones)
  unfolding step task_done
  done-IsFaithful h v = record {
    fifo = ground (arith, v.fifo);
    bound = ground (arith, v.bound);
    balance = ground (arith, v.balance);
    same = ground (arith, v.same);
  }

  pub step-IsFaithful :
      {m : ℤ} (h : History T) (c : Call T) → IsFaithful m h → IsFaithful m (step h c)
  unfolding step task_done close
  step-IsFaithful h (puts x) v = put-IsFaithful h x v
  step-IsFaithful h gets v = get-IsFaithful h v
  step-IsFaithful h dones v = done-IsFaithful h v
  step-IsFaithful h closes v = record {
    fifo = v.fifo;
    bound = v.bound;
    balance = v.balance;
    same = v.same;
  }

  run-IsFaithful :
      {m : ℤ} (h : History T) (cs : List (Call T)) → IsFaithful m h → IsFaithful m (run h cs)
  unfolding run
  run-IsFaithful h [] v = v
  run-IsFaithful h (c ∷ cs) v = run-IsFaithful (step h c) cs (step-IsFaithful h c v)

  -- After any calls on a new queue the items accepted are the items delivered followed by those that
  -- wait, in the order of the accepted calls; the queue holds at most the maximum size, if that is
  -- positive; and the unfinished tasks are the accepted items that no `TaskDone` has counted.
  pub start-IsFaithful :
      (maxsize : ℤ) (cs : List (Call T)) → IsFaithful maxsize (run (start maxsize) cs)
  start-IsFaithful maxsize cs = run-IsFaithful (start maxsize) cs (
      unfold start in
      (record { fifo = refl; bound = ground arith; balance = omega arith; same = refl }))
