-- ===== src/Tests/Runs.antt =====
-- Concrete runs of agents (types/agent_base.go, agent/loop_agents.go, agent/sequential_agents.go).
use adk_go.Agents.Run.{
  BaseAgent, Invocation, run, handle_before_agent_callbacks, handle_after_agent_callback,
  after_execute, create_invocation_context,
}
use adk_go.Agents.Stream.{Stream, finished, yields, ending, state_after, seen, out_of_fuel}
use adk_go.Agents.Workflow.Rounds.{
  loop_execute-rounds, loop_execute-IsEnding, IsEnding, rounds, loop_execute-nobody,
}
use adk_go.Agents.Workflow.Branches.{run-seen, heard, sequential_execute-branch, HasNoCallbacks}
use adk_go.Base.{
  ok, Outcome, Option, refl, Text, length, ℕ, [], codes, pos, some, false, map, ◌∷◌, ◌≡◌, arith,
  none,
}
use adk_go.Agents.Workflow.{loop_execute, sequential_execute}
use adk_go.Tests.{said, text_content}
use adk_go.Event.{Event}

-- A sub-agent that says one thing.
abbrev talker : Stream ℕ ℕ
talker = yields (some said, none) finished

talker-IsEnding : IsEnding talker
unfolding ending
talker-IsEnding = λ s e. cc

loop_execute-rounds_example :
    loop_execute (pos 3) (talker ∷ talker ∷ []) 9 0 ≡ rounds (talker ∷ talker ∷ []) 2
loop_execute-rounds_example =
    loop_execute-rounds 2 talker (talker ∷ []) 2 9 (omega arith) (omega arith) (omega arith)

loop_execute-IsEnding_example : IsEnding (loop_execute (pos 3) (talker ∷ talker ∷ []) 5 0)
loop_execute-IsEnding_example =
    loop_execute-IsEnding 2 talker (talker ∷ []) 5 (omega arith)
      (talker-IsEnding, (talker-IsEnding, tt))

abbrev named : Text → BaseAgent ℕ ℕ
named name = record { name = name; before = []; after = []; event_id = λ n. n ∷ []; now = λ n. n }

abbrev at_root : Invocation ℕ
at_root = record {
  agent = codes "root";
  branch = codes "root";
  invocation_id = codes "i-1";
  end_invocation = false;
  made = 0;
  world = 0;
}

named-HasNoCallbacks : (name : Text) → HasNoCallbacks (named name)
named-HasNoCallbacks name = record { no_before = refl; no_after = refl }

-- A callback before the agent that says nothing and sets a key of the state, one after it that speaks.
abbrev answering : BaseAgent ℕ ℕ
answering = record (named (codes "a")) {
  before = (λ s c. (s, record c { delta = (codes "k", 1) ∷ [] }, ok none)) ∷ [];
  after = (λ s c. (s, c, ok (some text_content))) ∷ [];
}

abbrev answered : Invocation ℕ × Outcome (Option (Event ℕ))
unfolding handle_before_agent_callbacks create_invocation_context
answered = handle_before_agent_callbacks answering (create_invocation_context (codes "a") at_root)

run-seen_example : seen at_root (run answering) ≡ heard answering answered.0 answered.1
unfolding answered handle_before_agent_callbacks
run-seen_example = run-seen answering at_root

-- Both events are seen.
answering_twice : length (seen at_root (run answering)) ≡ 2
unfolding seen run handle_before_agent_callbacks handle_after_agent_callback after_execute
answering_twice = refl

sequential_execute-branch_example :
    (state_after at_root
      (sequential_execute (map run (named (codes "a") ∷ named (codes "b") ∷ [])))).branch
    ≡ codes "root.a.b"
sequential_execute-branch_example =
    sequential_execute-branch (named (codes "a") ∷ named (codes "b") ∷ []) at_root
      (named-HasNoCallbacks (codes "a"), (named-HasNoCallbacks (codes "b"), tt)) (omega arith)

loop_execute-nobody_example : loop_execute {S = ℕ} {V = ℕ} (pos 10) [] 50 0 ≡ out_of_fuel
loop_execute-nobody_example = loop_execute-nobody 10 50
