-- ===== src/Agents/Parallel/Order.antt =====
-- What the consumer of `MergeAgentRun` (agent/parallel_agents.go) gets of each agent.
use adk_go.Agents.Parallel.{
  Merge, EventResult, Step, Reaches, here, next, acts_on, sends, gives_up, closes, takes, stops,
  leaves, cancels, merge_agent_run, return_from,
}
use adk_go.Agents.Stream.{Stream, Item, finished, yields, acts}
use adk_go.Base.{
  ℕ, suc, Bool, true, false, List, [], ◌∷◌, ◌++◌, ◌≡◌, ◌≢◌, length, eqb, arith, refl, ◌+◌, ◌<◌,
}

module _ {V : Type 0} where
  -- The pairs of one agent among the results.
  abbrev pub sent_by : ℕ → List (EventResult V) → List (Item V)
  sent_by n [] = []
  sent_by n (e ∷ es) = elim (eqb e.agent_id n) [
    | true ↦ e.item ∷ sent_by n es
    | false ↦ sent_by n es
  ]

  sent_by-own :
      (n : ℕ) (es : List (EventResult V)) (e : EventResult V)
      → e.agent_id ≡ n
      → sent_by n (es ++ e ∷ []) ≡ sent_by n es ++ e.item ∷ []
  sent_by-own n [] e h = ground arith
  sent_by-own n (x ∷ es) e h = ground (arith, sent_by-own n es e h)

  sent_by-other :
      (n : ℕ) (es : List (EventResult V)) (e : EventResult V)
      → e.agent_id ≢ n
      → sent_by n (es ++ e ∷ []) ≡ sent_by n es
  sent_by-other n [] e h = ground arith
  sent_by-other n (x ∷ es) e h = ground (arith, sent_by-other n es e h)

module _ {S V : Type 0} where
  -- What one agent does on its own, whatever the others make of the shared state meanwhile: the pairs
  -- that it has yielded so far, and what is left of it. It is cut off only when the context is
  -- cancelled.
  pub data Emits (cancelled : Bool) (run : Stream S V) : List (Item V) → Stream S V → Type 0 where
    starts : Emits cancelled run [] run
    acted :
        {l : List (Item V)} {f : S → S} {g : S → Stream S V} (s : S)
        → Emits cancelled run l (acts f g)
        → Emits cancelled run l (g s)
    yielded :
        {l : List (Item V)} {i : Item V} {r : Stream S V}
        → Emits cancelled run l (yields i r)
        → Emits cancelled run (l ++ i ∷ []) r
    cut_off :
        {l : List (Item V)} {i : Item V} {r : Stream S V}
        → cancelled ≡ true
        → Emits cancelled run l (yields i r)
        → Emits cancelled run l finished

  -- The results have of each agent, from the n-th, what it emits on the way to what is left of it.
  abbrev pub Tracked :
      Bool → ℕ → List (Stream S V) → List (Stream S V) → List (EventResult V) → Type 0
  Tracked c n [] [] es = Unit
  Tracked c n [] (r ∷ rs) es = ⊥
  Tracked c n (run ∷ runs) [] es = ⊥
  Tracked c n (run ∷ runs) (r ∷ rs) es = Emits c run (sent_by n es) r × Tracked c (suc n) runs rs es

  Emits-cancelled :
      {c : Bool} {run r : Stream S V} {l : List (Item V)} → Emits c run l r → Emits true run l r
  Emits-cancelled starts = starts
  Emits-cancelled (acted s e) = acted s (Emits-cancelled e)
  Emits-cancelled (yielded e) = yielded (Emits-cancelled e)
  Emits-cancelled (cut_off h e) = cut_off refl (Emits-cancelled e)

  Tracked-start : (n : ℕ) (runs : List (Stream S V)) → Tracked false n runs runs []
  Tracked-start n [] = tt
  Tracked-start n (run ∷ runs) = (starts, Tracked-start (suc n) runs)

  Tracked-cancelled :
      (c : Bool) (n : ℕ) (runs rs : List (Stream S V)) (es : List (EventResult V))
      → Tracked c n runs rs es
      → Tracked true n runs rs es
  Tracked-cancelled c n [] [] es t = tt
  Tracked-cancelled c n [] (r ∷ rs) es t = t
  Tracked-cancelled c n (run ∷ runs) [] es t = t
  Tracked-cancelled c n (run ∷ runs) (r ∷ rs) es (e, t) =
      (Emits-cancelled e, Tracked-cancelled c (suc n) runs rs es t)

  Tracked-later :
      (c : Bool) (n : ℕ) (runs rs : List (Stream S V)) (es : List (EventResult V))
      (e : EventResult V)
      → e.agent_id < n
      → Tracked c n runs rs es
      → Tracked c n runs rs (es ++ e ∷ [])
  Tracked-later c n [] [] es e below t = tt
  Tracked-later c n [] (r ∷ rs) es e below t = t
  Tracked-later c n (run ∷ runs) [] es e below t = t
  Tracked-later c n (run ∷ runs) (r ∷ rs) es e below (x, t) = (
    rw (sent_by-other n es e (λ h. omega arith)) x,
    Tracked-later c (suc n) runs rs es e (omega arith) t,
  )

  -- One goroutine goes on without sending.
  Tracked-replaced :
      (c : Bool) (n : ℕ) (runs pre post : List (Stream S V)) (r r' : Stream S V)
      (es : List (EventResult V))
      → ((run : Stream S V) (l : List (Item V)) → Emits c run l r → Emits c run l r')
      → Tracked c n runs (pre ++ r ∷ post) es
      → Tracked c n runs (pre ++ r' ∷ post) es
  Tracked-replaced c n [] [] post r r' es h t = t
  Tracked-replaced c n [] (p ∷ pre) post r r' es h t = t
  Tracked-replaced c n (run ∷ runs) [] post r r' es h (e, t) = (h run _ e, t)
  Tracked-replaced c n (run ∷ runs) (p ∷ pre) post r r' es h (e, t) =
      (e, Tracked-replaced c (suc n) runs pre post r r' es h t)

  -- One goroutine sends.
  Tracked-sent :
      (c : Bool) (n : ℕ) (runs pre post : List (Stream S V)) (i : Item V) (r : Stream S V)
      (es : List (EventResult V)) (k : ℕ)
      → k ≡ n + length pre
      → Tracked c n runs (pre ++ yields i r ∷ post) es
      → Tracked c n runs (pre ++ r ∷ post) (es ++ record { item = i; agent_id = k } ∷ [])
  Tracked-sent c n [] [] post i r es k at t = t
  Tracked-sent c n [] (p ∷ pre) post i r es k at t = t
  Tracked-sent c n (run ∷ runs) [] post i r es k at (e, t) = (
    rw (sent_by-own n es (record { item = i; agent_id = k }) (omega arith)) (yielded e),
    Tracked-later c (suc n) runs post es (record { item = i; agent_id = k }) (omega arith) t,
  )
  Tracked-sent c n (run ∷ runs) (p ∷ pre) post i r es k at (e, t) = (
    rw (sent_by-other n es (record { item = i; agent_id = k }) (λ h. omega arith)) e,
    Tracked-sent c (suc n) runs pre post i r es k (omega arith) t,
  )

  abbrev IsTracked : List (Stream S V) → Merge S V → Type 0
  IsTracked runs m = Tracked m.cancelled 0 runs m.goroutines m.yielded

  Step-IsTracked :
      (runs : List (Stream S V)) {m k : Merge S V} → IsTracked runs m → Step m k → IsTracked runs k
  unfolding return_from
  Step-IsTracked runs {m} t (acts_on pre post f g e) =
      Tracked-replaced m.cancelled 0 runs pre post (acts f g) (g m.shared) m.yielded
        (λ run l h. acted m.shared h) (rw e at t)
  Step-IsTracked runs {m} t (sends pre post i r e free) =
      Tracked-sent m.cancelled 0 runs pre post i r m.yielded (length pre) (omega arith) (rw e at t)
  Step-IsTracked runs {m} t (gives_up pre post i r e c) =
      Tracked-replaced m.cancelled 0 runs pre post (yields i r) finished m.yielded
        (λ run l h. cut_off c h) (rw e at t)
  Step-IsTracked runs t (closes all_over still) = t
  Step-IsTracked runs t (takes y) = t
  Step-IsTracked runs {m} t (stops y) =
      Tracked-cancelled m.cancelled 0 runs m.goroutines m.yielded t
  Step-IsTracked runs {m} t (leaves y closed) =
      Tracked-cancelled m.cancelled 0 runs m.goroutines m.yielded t
  Step-IsTracked runs {m} t (cancels h) =
      Tracked-cancelled m.cancelled 0 runs m.goroutines m.yielded t

  -- Whatever the order in which the goroutines of a merge and its consumer move: `yield` has been called
  -- with exactly the pairs that each agent has yielded so far, each once and in its agent's order, and
  -- an agent is cut off only when the context is cancelled.
  pub Reaches-Tracked :
      (runs : List (Stream S V)) (s : S) (m : Merge S V)
      → Reaches (merge_agent_run runs s) m
      → Tracked m.cancelled 0 runs m.goroutines m.yielded
  unfolding merge_agent_run
  Reaches-Tracked runs s _ here = Tracked-start 0 runs
  Reaches-Tracked runs s m (next {k} r step) = Step-IsTracked runs (Reaches-Tracked runs s k r) step
