-- ===== src/Agents/Parallel/Progress.antt =====
-- What a merge can do next (agent/parallel_agents.go, `MergeAgentRun`), and what has happened when the
-- channel is closed.
use adk_go.Agents.Parallel.{
  Merge, Step, Reaches, Consumer, receiving, yielding, returned, here, next, acts_on, sends,
  gives_up, closes, takes, stops, leaves, cancels, merge_agent_run, return_from, IsOver,
  EventResult,
}
use adk_go.Agents.Stream.{Stream, finished, yields, acts, crashed, out_of_fuel}
use adk_go.Base.{
  true, List, [], ◌∷◌, ◌++◌, ◌≡◌, All, refl, ◌⊎◌, inl, inr, ap, Bool-cases, ℕ, arith, false, suc,
}
use adk_go.Queue.History.{closes}
use adk_go.Agents.Parallel.Order.{Emits, Reaches-Tracked, Tracked, sent_by}

append-cons_nonempty : {A : Type 0} (pre post : List A) (x : A) → ¬ (pre ++ x ∷ post ≡ [])
append-cons_nonempty [] post x h = cc
append-cons_nonempty (p ∷ pre) post x h = cc

module _ {S V : Type 0} where
  -- The code of the agent neither panics next nor loops for ever.
  abbrev pub IsSound : Stream S V → Type 0
  IsSound crashed = ⊥
  IsSound out_of_fuel = ⊥
  IsSound _ = Unit

  -- A goroutine that is left, if any.
  abbrev Left : List (Stream S V) → Type 0
  Left rs =
      (pre post : List (Stream S V)) × (r : Stream S V) × (rs ≡ pre ++ r ∷ post)
      × IsSound r
      × ¬ (IsOver r)

  Left-there : (r : Stream S V) (rs : List (Stream S V)) → Left rs → Left (r ∷ rs)
  Left-there r rs (pre, post, x, e, s, n) = (r ∷ pre, post, x, ap (λ l. r ∷ l) e, s, n)

  goroutines_cases : (rs : List (Stream S V)) → All IsSound rs → All IsOver rs ⊎ Left rs
  goroutines_cases [] sound = inl tt
  goroutines_cases (finished ∷ rs) (s, sound) = elim (goroutines_cases rs sound) [
    | inl over ↦ inl (refl, over)
    | inr left ↦ inr (Left-there finished rs left)
  ]
  goroutines_cases (crashed ∷ rs) (s, sound) = absurd s
  goroutines_cases (out_of_fuel ∷ rs) (s, sound) = absurd s
  goroutines_cases (yields i r ∷ rs) (s, sound) = inr ([], rs, yields i r, refl, tt, λ h. cc)
  goroutines_cases (acts f g ∷ rs) (s, sound) = inr ([], rs, acts f g, refl, tt, λ h. cc)

  -- Once the loop over the channel has been left the context is cancelled or nobody sends.
  abbrev WasCancelled : Merge S V → Type 0
  WasCancelled m = m.consumer ≡ returned → (m.cancelled ≡ true) ⊎ (m.goroutines ≡ [])

  -- The step is one of the goroutines or of the consumer's loop: neither the caller's context ends nor
  -- does the body of the caller's loop leave it.
  abbrev pub IsOwn : {m k : Merge S V} → Step m k → Type 0
  IsOwn (stops y) = ⊥
  IsOwn (cancels c) = ⊥
  IsOwn _ = Unit

  abbrev CanMove : Merge S V → Type 0
  CanMove m = (k : Merge S V) × (step : Step m k) × IsOwn step

  move_of :
      (m : Merge S V) (pre post : List (Stream S V)) (r : Stream S V) (c : Consumer)
      → m.goroutines ≡ pre ++ r ∷ post
      → IsSound r
      → ¬ (IsOver r)
      → m.consumer ≡ c
      → WasCancelled m
      → CanMove m
  move_of m pre post finished c e s n at w = absurd (n refl)
  move_of m pre post crashed c e s n at w = absurd s
  move_of m pre post out_of_fuel c e s n at w = absurd s
  move_of m pre post (acts f g) c e s n at w = (_, acts_on pre post f g e, tt)
  move_of m pre post (yields i r) receiving e s n at w = (_, sends pre post i r e at, tt)
  move_of m pre post (yields i r) yielding e s n at w = (_, takes at, tt)
  move_of m pre post (yields i r) returned e s n at w = elim (w at) [
    | inl c ↦ (_, gives_up pre post i r e c, tt)
    | inr nobody ↦ absurd (append-cons_nonempty pre post (yields i r) (cc))
  ]

  Step-WasCancelled : {m k : Merge S V} → WasCancelled m → Step m k → WasCancelled k
  unfolding return_from
  Step-WasCancelled w (acts_on pre post f g e) at = elim (w at) [
    | inl c ↦ inl c
    | inr nobody ↦ absurd (append-cons_nonempty pre post (acts f g) (cc))
  ]
  Step-WasCancelled w (sends pre post i r e free) at = absurd (cc)
  Step-WasCancelled w (gives_up pre post i r e c) at = inl c
  Step-WasCancelled w (closes over still) at = w at
  Step-WasCancelled w (takes y) at = absurd (cc)
  Step-WasCancelled w (stops y) at = inl refl
  Step-WasCancelled w (leaves y h) at = inl refl
  Step-WasCancelled w (cancels h) at = inl refl

  Reaches-WasCancelled :
      (runs : List (Stream S V)) (s : S) (m : Merge S V)
      → Reaches (merge_agent_run runs s) m
      → WasCancelled m
  unfolding merge_agent_run
  Reaches-WasCancelled [] s _ here at = inr refl
  Reaches-WasCancelled (r ∷ runs) s _ here at = absurd (ground arith)
  Reaches-WasCancelled runs s m (next {k} r step) at =
      Step-WasCancelled (Reaches-WasCancelled runs s k r) step at

  Consumer-move :
      (m : Merge S V) (c : Consumer)
      → m.consumer ≡ c
      → All IsOver m.goroutines
      → CanMove m ⊎ (m.consumer ≡ returned)
  Consumer-move m receiving at over = elim (Bool-cases m.closed) [
    | inl shut ↦ inl (_, leaves at shut, tt)
    | inr still ↦ inl (_, closes over still, tt)
  ]
  Consumer-move m yielding at over = inl (_, takes at, tt)
  Consumer-move m returned at over = inr at

  -- Nothing of a merge is ever stuck, and none of its goroutines is left behind: in every state that it
  -- comes to, if no agent is about to panic or loops for ever, either there is a step that needs neither
  -- the end of the caller's context nor that the caller leaves its loop, or the consumer has returned and
  -- the run of every goroutine is over. This holds when the consumer stops early too.
  pub merge_agent_run-progress :
      (runs : List (Stream S V)) (s : S) (m : Merge S V)
      → Reaches (merge_agent_run runs s) m
      → All IsSound m.goroutines
      → ((k : Merge S V) × (step : Step m k) × IsOwn step)
        ⊎ ((m.consumer ≡ returned) × All IsOver m.goroutines)
  merge_agent_run-progress runs s m r sound = elim (goroutines_cases m.goroutines sound) [
    | inl over ↦ elim (Consumer-move m m.consumer refl over) [
      | inl moves ↦ inl moves
      | inr at ↦ inr (at, over)
    ]
    | inr (pre, post, g, e, s', n) ↦
        inl (move_of m pre post g m.consumer e s' n refl (Reaches-WasCancelled runs s m r))
  ]

  -- Each agent, from the n-th, has run to its end and the consumer has got all that it yields.
  abbrev pub AllRan : ℕ → List (Stream S V) → List (EventResult V) → Type 0
  AllRan n [] es = Unit
  AllRan n (run ∷ runs) es = Emits false run (sent_by n es) finished × AllRan (suc n) runs es

  Tracked-AllRan :
      (n : ℕ) (runs rs : List (Stream S V)) (es : List (EventResult V))
      → All IsOver rs
      → Tracked false n runs rs es
      → AllRan n runs es
  Tracked-AllRan n [] [] es over t = tt
  Tracked-AllRan n [] (r ∷ rs) es over t = absurd t
  Tracked-AllRan n (run ∷ runs) [] es over t = absurd t
  Tracked-AllRan n (run ∷ runs) (r ∷ rs) es (done, over) (e, t) =
      (rw done at e, Tracked-AllRan (suc n) runs rs es over t)

  Over-not :
      (pre post : List (Stream S V)) (r : Stream S V)
      → ¬ (IsOver r)
      → ¬ (All IsOver (pre ++ r ∷ post))
  Over-not [] post r n (h, rest) = n h
  Over-not (p ∷ pre) post r n (h, rest) = Over-not pre post r n rest

  abbrev ClosedLast : Merge S V → Type 0
  ClosedLast m = m.closed ≡ true → All IsOver m.goroutines

  Step-ClosedLast : {m k : Merge S V} → ClosedLast m → Step m k → ClosedLast k
  unfolding return_from
  Step-ClosedLast w (acts_on pre post f g e) h =
      absurd (Over-not pre post (acts f g) (λ x. cc) (rw e at (w h)))
  Step-ClosedLast w (sends pre post i r e free) h =
      absurd (Over-not pre post (yields i r) (λ x. cc) (rw e at (w h)))
  Step-ClosedLast w (gives_up pre post i r e c) h =
      absurd (Over-not pre post (yields i r) (λ x. cc) (rw e at (w h)))
  Step-ClosedLast w (closes over still) h = over
  Step-ClosedLast w (takes y) h = w h
  Step-ClosedLast w (stops y) h = w h
  Step-ClosedLast w (leaves y c) h = w h
  Step-ClosedLast w (cancels c) h = w h

  Reaches-ClosedLast :
      (runs : List (Stream S V)) (s : S) (m : Merge S V)
      → Reaches (merge_agent_run runs s) m
      → ClosedLast m
  unfolding merge_agent_run
  Reaches-ClosedLast runs s _ here h = absurd (cc)
  Reaches-ClosedLast runs s m (next {k} r step) h =
      Step-ClosedLast (Reaches-ClosedLast runs s k r) step h

  -- When the channel is closed before the context is cancelled, every agent has run to its end, whatever
  -- the others did to the shared state meanwhile, and `yield` has been called with all that it yields,
  -- each pair once and in its order.
  pub merge_agent_run-AllRan :
      (runs : List (Stream S V)) (s : S) (m : Merge S V)
      → Reaches (merge_agent_run runs s) m
      → m.closed ≡ true
      → m.cancelled ≡ false
      → AllRan 0 runs m.yielded
  merge_agent_run-AllRan runs s m r shut on =
      Tracked-AllRan 0 runs m.goroutines m.yielded (Reaches-ClosedLast runs s m r shut)
        (rw on at (Reaches-Tracked runs s m r))
