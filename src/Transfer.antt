-- ===== src/Transfer.antt =====
-- flow/llmflow/agent_transfer.go: the agents that an LLM agent may transfer to.
pub mod Targets
use adk_go.Base.{
  List, Text, Option, ◌∷◌, Bool, if◌then◌else◌, Outcome, text_eq, [], panic, some, not, ok, ◌++◌,
  none,
}

-- What is asked of an agent `A`: its name.
module _ {A : Type 0} (name : A → Text) where
  -- The loop over the sub-agents of the parent, each of which is put in front.
  unfoldable pub add_peers : Text → List A → List A → List A
  add_peers own agents [] = agents
  add_peers own agents (peer ∷ peers) =
      if text_eq (name peer) own
      then add_peers own agents peers
      else add_peers own (peer ∷ agents) peers

  -- `getTransferTargets`: the parent with whether it is an LLM agent and with its sub-agents. A parent
  -- that is nil is asked all the same.
  unfoldable pub get_transfer_targets :
      (own : Text)
      → (sub_agents : List A) → (parent : Option (A × Bool × List A))
      → (disallow_parent disallow_peers : Bool) → Outcome (List A)
  unfolding add_peers
  get_transfer_targets own sub_agents none disallow_parent disallow_peers = panic
  get_transfer_targets own sub_agents (some (parent, is_llm, peers)) disallow_parent
        disallow_peers =
      if not is_llm
      then ok sub_agents
      else (let agents = if disallow_parent then sub_agents else sub_agents ++ parent ∷ [] in
          ok (if disallow_peers then agents else add_peers own agents peers))
