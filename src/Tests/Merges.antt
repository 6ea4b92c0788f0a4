-- ===== src/Tests/Merges.antt =====
-- Concrete merges of the runs of two agents (agent/parallel_agents.go).
use adk_go.Agents.Stream.{Stream, Item, finished, yields, acts}
use adk_go.Agents.Parallel.{
  Merge, Step, Reaches, here, next, sends, closes, takes, merge_agent_run, receiving, yielding,
  returned, IsOver,
}
use adk_go.Agents.Parallel.Progress.{
  merge_agent_run-progress, IsOwn, merge_agent_run-AllRan, AllRan,
}
use adk_go.Base.{ℕ, suc, List, [], ◌∷◌, ◌≡◌, ◌⊎◌, All, some, none, true, false, refl}
use adk_go.Tests.{said}

abbrev word : Item ℕ
word = (some said, none)

-- Two agents, of which the second changes the shared number after it has spoken.
abbrev talkers : List (Stream ℕ ℕ)
talkers = yields word finished ∷ yields word (acts (λ n. suc n) (λ n. finished)) ∷ []

-- The second agent has spoken first.
abbrev second_first : Merge ℕ ℕ
second_first = record {
  shared = 5;
  goroutines = yields word finished ∷ acts (λ n. suc n) (λ n. finished) ∷ [];
  cancelled = false;
  closed = false;
  consumer = yielding;
  yielded = record { item = word; agent_id = 1 } ∷ [];
}

second_first-Reaches : Reaches (merge_agent_run talkers 5) second_first
unfolding merge_agent_run
second_first-Reaches =
    next here
      (sends (yields word finished ∷ []) [] word (acts (λ n. suc n) (λ n. finished)) refl refl)

merge_agent_run-progress_example :
    ((k : Merge ℕ ℕ) × (step : Step second_first k) × IsOwn step)
    ⊎ ((second_first.consumer ≡ returned) × All IsOver second_first.goroutines)
merge_agent_run-progress_example =
    merge_agent_run-progress talkers 5 second_first second_first-Reaches (tt, (tt, tt))

-- One agent, that has spoken.
abbrev all_said : Merge ℕ ℕ
all_said = record {
  shared = 5;
  goroutines = finished ∷ [];
  cancelled = false;
  closed = true;
  consumer = receiving;
  yielded = record { item = word; agent_id = 0 } ∷ [];
}

all_said-Reaches : Reaches (merge_agent_run (yields word finished ∷ []) 5) all_said
unfolding merge_agent_run
all_said-Reaches =
    next (next (next here (sends [] [] word finished refl refl)) (takes refl))
      (closes (refl, tt) refl)

merge_agent_run-AllRan_example :
    AllRan {S = ℕ} 0 (yields word finished ∷ []) (record { item = word; agent_id = 0 } ∷ [])
merge_agent_run-AllRan_example =
    merge_agent_run-AllRan (yields word finished ∷ []) 5 all_said all_said-Reaches refl refl
