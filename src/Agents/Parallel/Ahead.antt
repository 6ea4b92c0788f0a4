-- ===== src/Agents/Parallel/Ahead.antt =====
-- How far an agent gets while its event is processed (agent/parallel_agents.go, the comment above
-- `MergeAgentRun`).
use adk_go.Agents.Parallel.{Merge, Reaches, here, next, acts_on, sends, yielding, merge_agent_run}
use adk_go.Agents.Stream.{Stream, Item, yields, acts}
use adk_go.Base.{List, [], ◌∷◌, ◌≡◌, refl, arith}

module _ {S V : Type 0} where
  -- Any agent of a merge that yields at once can change the shared state by the code after that yield
  -- while the consumer still has the pair.
  pub merge_agent_run-ahead :
      (i : Item V) (f : S → S) (g : S → Stream S V) (runs : List (Stream S V)) (s : S)
      → (m : Merge S V) × Reaches (merge_agent_run (yields i (acts f g) ∷ runs) s) m
        × (m.consumer ≡ yielding)
        × (m.shared ≡ f s)
        × (m.goroutines ≡ g s ∷ runs)
  unfolding merge_agent_run
  merge_agent_run-ahead i f g runs s = (
    _,
    next (next here (sends [] runs i (acts f g) refl (ground arith))) (acts_on [] runs f g refl),
    refl,
    refl,
    refl,
  )
