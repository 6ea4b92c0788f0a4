-- ===== src/Agents/Workflow.antt =====
-- `Execute` of `SequentialAgent` (agent/sequential_agents.go) and of `LoopAgent` (agent/loop_agents.go),
-- on sub-agents that are told by their `Run`.
pub mod Rounds
pub mod Branches
use adk_go.Event.{Event}
use adk_go.Agents.Stream.{Stream, finished, crashed, out_of_fuel, yields, acts, pass_on}
use adk_go.Base.{
  List, Option, some, ℕ, ℤ, ◌∷◌, Bool, Outcome, [], ok, suc, fail, if◌then◌else◌, panic, pos, none,
  true, zero, false, ltb, negsuc,
}

-- `a.maxIterations == 0 || timesLooped < a.maxIterations`
abbrev pub goes_round : ℤ → ℕ → Bool
goes_round (pos zero) looped = true
goes_round (pos (suc m)) looped = ltb looped (suc m)
goes_round (negsuc m) looped = false

-- `event.Actions.Escalate`, on a nil event and on nil actions too.
abbrev pub escalates : {V : Type 0} → Option (Event V) → Outcome Bool
escalates none = panic
escalates (some e) = elim e.actions [ none ↦ panic | some a ↦ ok a.escalate ]

module _ {S V : Type 0} where
  -- `SequentialAgent.Execute`
  unfoldable pub sequential_execute : List (Stream S V) → Stream S V
  unfolding pass_on
  sequential_execute [] = finished
  sequential_execute (r ∷ runs) = pass_on r (sequential_execute runs)

  -- What follows `if event.Actions.Escalate { return }`.
  abbrev pub unless_escalated : Outcome Bool → Stream S V → Stream S V
  unless_escalated (ok true) rest = finished
  unless_escalated (ok false) rest = rest
  unless_escalated (fail e) rest = finished
  unless_escalated panic rest = crashed

  -- The loop over the events of one sub-agent, and what follows it.
  unfoldable pub loop_events : Stream S V → Stream S V → Stream S V
  loop_events finished k = k
  loop_events crashed k = crashed
  loop_events out_of_fuel k = out_of_fuel
  loop_events (yields (e, some err) g) k = finished
  loop_events (yields (e, none) g) k =
      let rest = loop_events g k in yields (e, none) (unless_escalated (escalates e) rest)
  loop_events (acts f g) k = acts f (λ s. loop_events (g s) k)

  -- The loop over the sub-agents, which counts each of them.
  unfoldable pub loop_agents : List (Stream S V) → ℕ → (ℕ → Stream S V) → Stream S V
  unfolding loop_events
  loop_agents [] looped k = k looped
  loop_agents (r ∷ runs) looped k = loop_events r (loop_agents runs (suc looped) k)

  -- `LoopAgent.Execute`, at most `fuel` times round its outer loop.
  unfoldable pub loop_execute : ℤ → List (Stream S V) → (fuel : ℕ) → ℕ → Stream S V
  unfolding loop_agents
  loop_execute max runs zero looped = out_of_fuel
  loop_execute max runs (suc fuel) looped =
      if goes_round max looped
      then loop_agents runs looped (loop_execute max runs fuel)
      else finished
