-- ===== src/Agents/Search.antt =====
-- The search in the tree of agents (types/agent_base.go) against a list of the tree.
use adk_go.GoMap
use adk_go.GoMap.{GoMap}
use adk_go.Agents.{Agent, SubAgents, agent, no_agents, more_agents, find_agent, find_sub_agent}
use adk_go.Base.{Text, ◌≡◌, [], ◌∷◌, ◌++◌, or_else, refl, arith, ==_iff, text_comparable}

abbrev mutual
  -- The names and handles of an agent and its descendants, each agent before its sub-agents.
  preorder : {H : Type 0} → Agent H → GoMap Text H
  preorder (agent h own subs) = (own, h) ∷ preorder_below subs

  preorder_below : {H : Type 0} → SubAgents H → GoMap Text H
  preorder_below no_agents = []
  preorder_below (more_agents a subs) = preorder a ++ preorder_below subs

get-append :
    {H : Type 0} (name : Text) (m n : GoMap Text H)
    → GoMap.get name (m ++ n) ≡ or_else (GoMap.get name m) (GoMap.get name n)
unfolding GoMap.get
get-append name [] n = refl
get-append name ((j, h) ∷ m) n = ground (arith, get-append name m n)

mutual
  unfolding find_agent find_sub_agent GoMap.get

  find_agent-preorder :
      {H : Type 0} (name : Text) (a : Agent H) → find_agent name a ≡ GoMap.get name (preorder a)
  find_agent-preorder name (agent h own subs) =
      ground (arith, find_sub_agent-preorder name subs, ==_iff name own, ==_iff own name)

  find_sub_agent-preorder :
      {H : Type 0} (name : Text) (subs : SubAgents H)
      → find_sub_agent name subs ≡ GoMap.get name (preorder_below subs)
  find_sub_agent-preorder name no_agents = refl
  find_sub_agent-preorder name (more_agents a subs) = ground (
    arith,
    find_agent-preorder name a,
    find_sub_agent-preorder name subs,
    get-append name (preorder a) (preorder_below subs),
  )

-- `FindAgent` returns the first agent with the name in preorder, the agent itself included, and
-- `FindSubAgent` the first below the agent; each returns nil if there is none.
pub find_agent_lem :
    {H : Type 0} (name : Text) (a : Agent H) (subs : SubAgents H)
    → (find_agent name a ≡ GoMap.get name (preorder a))
      × (find_sub_agent name subs ≡ GoMap.get name (preorder_below subs))
find_agent_lem name a subs = (find_agent-preorder name a, find_sub_agent-preorder name subs)
