-- ===== src/Agents/Workflow/Rounds.antt =====
-- How often `LoopAgent.Execute` (agent/loop_agents.go) runs its sub-agents.
use adk_go.Agents.Workflow.{loop_events, loop_agents, loop_execute, escalates, unless_escalated}
use adk_go.Agents.Stream.{Stream, finished, crashed, out_of_fuel, yields, acts, ending, goes_on}
use adk_go.Base.{
  refl, ◌*◌, List, some, ℕ, ◌≢◌, arith, suc, ◌<◌, ◌∷◌, ◌≡◌, [], length, none, zero, ◌+◌, ap, ◌≤◌,
  pos, ◌∙◌, All, Outcome, Bool, ok, fail, true, false, panic, Bool-cases, ltb, inl, ltb→lt, inr,
}

least_rounds : (m l : ℕ) → (n : ℕ) × (m < n * suc l) × (n * suc l ≤ suc m + l) × (n ≤ suc m)
least_rounds zero l = (1, omega arith, omega arith, omega arith)
least_rounds (suc m) l =
    let (n, above, below, few) = least_rounds m l in
    elim (Bool-cases (ltb (suc m) (n * suc l))) [
      | inl more ↦ (n, ltb→lt (suc m) (n * suc l) more, omega arith, omega arith)
      | inr equal ↦ (suc n, ground arith, ground arith, omega arith)
    ]

module _ {S V : Type 0} where
  -- All sub-agents one after the other, until one escalates or fails, and then what follows.
  abbrev pub once : List (Stream S V) → Stream S V → Stream S V
  once [] k = k
  once (r ∷ runs) k = loop_events r (once runs k)

  -- The sub-agents, `n` times.
  abbrev pub rounds : List (Stream S V) → ℕ → Stream S V
  rounds runs zero = finished
  rounds runs (suc n) = once runs (rounds runs n)

  agents-once :
      (runs : List (Stream S V)) (looped : ℕ) (k : ℕ → Stream S V)
      → loop_agents runs looped k ≡ once runs (k (length runs + looped))
  unfolding loop_agents
  agents-once [] looped k = ap k (omega arith)
  agents-once (r ∷ runs) looped k =
      ap (loop_events r) (agents-once runs (suc looped) k ∙ ap (λ n. once runs (k n)) (omega arith))

  execute-rounds_from :
      (m : ℕ) (r : Stream S V) (runs : List (Stream S V)) (n fuel looped : ℕ)
      → m < looped + n * suc (length runs)
      → looped + n * suc (length runs) ≤ suc m + length runs
      → n < fuel
      → loop_execute (pos (suc m)) (r ∷ runs) fuel looped ≡ rounds (r ∷ runs) n
  unfolding loop_execute
  execute-rounds_from m r runs n zero looped above below enough = absurd (omega arith)
  execute-rounds_from m r runs zero (suc fuel) looped above below enough = ground arith
  execute-rounds_from m r runs (suc n) (suc fuel) looped above below enough = ground (
    arith,
    agents-once (r ∷ runs) looped (loop_execute (pos (suc m)) (r ∷ runs) fuel),
    execute-rounds_from m r runs n fuel (suc (length runs) + looped) (omega arith) (omega arith)
        (omega arith),
  )

  -- With a positive maximum and at least one sub-agent, `LoopAgent.Execute` is the least number of
  -- rounds over the sub-agents whose runs of sub-agents, all counted, come to the maximum, on any fuel
  -- greater than that number.
  pub loop_execute-rounds :
      (m : ℕ) (r : Stream S V) (runs : List (Stream S V)) (n fuel : ℕ)
      → m < n * suc (length runs)
      → n * suc (length runs) ≤ suc m + length runs
      → n < fuel
      → loop_execute (pos (suc m)) (r ∷ runs) fuel 0 ≡ rounds (r ∷ runs) n
  loop_execute-rounds m r runs n fuel above below enough =
      execute-rounds_from m r runs n fuel 0 (omega arith) (omega arith) enough

  -- Whatever the state, the run ends or panics.
  abbrev pub IsEnding : Stream S V → Type 0
  IsEnding r = (s : S) → ending s r ≢ goes_on

  unless_escalated-ending :
      (o : Outcome Bool) (k : Stream S V) (s : S)
      → ending s k ≢ goes_on
      → ending s (unless_escalated o k) ≢ goes_on
  unfolding ending
  unless_escalated-ending (ok true) k s h = λ e. cc
  unless_escalated-ending (ok false) k s h = h
  unless_escalated-ending (fail err) k s h = λ e. cc
  unless_escalated-ending panic k s h = λ e. cc

  loop_events-ending :
      (r k : Stream S V) (s : S)
      → ending s r ≢ goes_on
      → IsEnding k
      → ending s (loop_events r k) ≢ goes_on
  unfolding loop_events ending
  loop_events-ending finished k s ends_r ends_k = ends_k s
  loop_events-ending crashed k s ends_r ends_k = ends_r
  loop_events-ending out_of_fuel k s ends_r ends_k = ends_r
  loop_events-ending (yields (e, some err) g) k s ends_r ends_k = λ h. cc
  loop_events-ending (yields (e, none) g) k s ends_r ends_k =
      unless_escalated-ending (escalates e) (loop_events g k) s
        (loop_events-ending g k s ends_r ends_k)
  loop_events-ending (acts f g) k s ends_r ends_k = loop_events-ending (g s) k (f s) ends_r ends_k

  once-IsEnding :
      (runs : List (Stream S V)) (k : Stream S V)
      → All IsEnding runs
      → IsEnding k
      → IsEnding (once runs k)
  once-IsEnding [] k all ends_k = ends_k
  once-IsEnding (r ∷ runs) k (ends_r, all) ends_k =
      λ s. loop_events-ending r (once runs k) s (ends_r s) (once-IsEnding runs k all ends_k)

  rounds-IsEnding :
      (runs : List (Stream S V)) (n : ℕ) → All IsEnding runs → IsEnding (rounds runs n)
  unfolding ending
  rounds-IsEnding runs zero all = λ s h. cc
  rounds-IsEnding runs (suc n) all =
      once-IsEnding runs (rounds runs n) all (rounds-IsEnding runs n all)

  -- With a positive maximum and at least one sub-agent, if the run of each sub-agent ends or panics
  -- from every state, so does `LoopAgent.Execute`: its outer loop goes round at most as often as the
  -- maximum says, so that any greater fuel is enough.
  pub loop_execute-IsEnding :
      (m : ℕ) (r : Stream S V) (runs : List (Stream S V)) (fuel : ℕ)
      → suc m < fuel
      → All IsEnding (r ∷ runs)
      → IsEnding (loop_execute (pos (suc m)) (r ∷ runs) fuel 0)
  loop_execute-IsEnding m r runs fuel enough all =
      let (n, above, below, few) = least_rounds m (length runs) in
      rw (loop_execute-rounds m r runs n fuel above below (omega arith))
        (rounds-IsEnding (r ∷ runs) n all)

  -- Without sub-agents and with a maximum that is not negative `LoopAgent.Execute` goes round for ever
  -- and yields nothing: on no fuel does it end.
  pub loop_execute-nobody :
      (max fuel : ℕ) → loop_execute {S = S} {V = V} (pos max) [] fuel 0 ≡ out_of_fuel
  unfolding loop_execute loop_agents
  loop_execute-nobody max zero = refl
  loop_execute-nobody zero (suc fuel) = loop_execute-nobody zero fuel
  loop_execute-nobody (suc m) (suc fuel) = ground (arith, loop_execute-nobody (suc m) fuel)
